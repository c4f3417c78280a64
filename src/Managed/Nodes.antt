-- ===== src/Managed/Nodes.antt =====
-- `ManagedNodeStore` of src/dn42ctl/db_managed.py. `now` is `_now_iso()`; SHA-256 is a parameter.
pub mod Atomic
pub mod Auth
pub mod Effects
pub mod Fields
pub mod Returns
pub mod SelfNode
pub mod Targets
pub mod Tokens
pub mod Written
use Prim.Native.String.{◌++◌ as text_append}
use dn42_utils.Base.{
  ℕ, String, Bool, true, false, not, ◌&&◌, ◌||◌, Option, none, some, List, [], ◌∷◌, ◌++◌, nat_eq,
  if◌then◌else◌, select, select_one, update_where, delete_where, any, sort_by, ◌==◌, length,
}
use dn42_utils.Base.Text.{text_le, mem}
use dn42_utils.Constants.{sync_event_desired, sync_event_access_revoked, Update, unset, given}
use dn42_utils.Database.Schema.{
  WritePolicy, ManagedNode, IbgpRow, PeerRecordBase, IbgpPeerRecord, Tables,
}
use dn42_utils.Database.Connection.{
  M, Statement, done, violated, Exception, database_error, Outcome, ok, raised, execute, query,
  commit, abort, raise, or_abort, or_abort_clash, or_raise, pure, ◌>>=◌, ◌>>◌,
}
use dn42_utils.Database.Events.{emit_sync_event}
use dn42_utils.Database.Peers.{upsert_node, is_ibgp, or_kept}
use dn42_utils.Managed.Policy.{default_write_policy, validate_write_policy}

abbrev pub is_node : String → ManagedNode → Bool
is_node node_id n = n.node_id == node_id

abbrev pub new_node : String → String → String → Bool → ManagedNode
new_node now node_id name is_self = record {
  node_id = node_id;
  name = name;
  api_token_hash = none;
  write_policy = default_write_policy;
  enabled = true;
  is_self = is_self;
  last_seen_at = none;
  created_at = now;
  updated_at = now;
  endpoint_host = none;
  own_ipv6 = none;
  router_id = none;
  auto_peer = false;
}

-- INSERT INTO managed_nodes, with its primary key
abbrev pub insert_node : ManagedNode → Statement (Unit {0})
insert_node n t =
    if any (is_node n.node_id) t.managed_nodes
    then violated
    else done tt (record t { managed_nodes = t.managed_nodes ++ n ∷ [] })

unfoldable pub get : String → M (Option ManagedNode)
get node_id =
    or_raise (query (λ t. select_one (is_node node_id) t.managed_nodes)) "查询 managed_node 失败"

abbrev or_missing : String → Option ManagedNode → M ManagedNode
or_missing message none = raise (database_error message)
or_missing message (some n) = pure n

-- The read after a commit.
pub read_back : String → String → M ManagedNode
unfolding get
read_back node_id message = do found ← get node_id; or_missing message found

unfoldable pub add_row : String → String → String → M (Unit {0})
add_row now node_id name =
    or_abort_clash
      (do
        execute (upsert_node now node_id)
        execute (insert_node (new_node now node_id name false))
        commit)
      "节点已存在" "插入 managed_node 失败"

unfoldable pub add : String → String → String → M ManagedNode
unfolding add_row read_back
add now node_id name = do add_row now node_id name; read_back node_id "插入后无法读取 managed_node"

-- ORDER BY is_self DESC, name
abbrev pub self_first : ManagedNode → ManagedNode → Bool
self_first a b =
    if a.is_self
    then (not b.is_self || text_le a.name b.name)
    else (not b.is_self && text_le a.name b.name)

unfoldable pub list_all : M (List ManagedNode)
list_all = or_raise (query (λ t. sort_by self_first t.managed_nodes)) "列出 managed_nodes 失败"

unfoldable pub list_auto_peer : M (List ManagedNode)
list_auto_peer =
    or_raise
      (query (λ t. sort_by self_first (select (λ n. n.auto_peer && n.enabled) t.managed_nodes)))
      "列出 auto-peer 节点失败"

-- ORDER BY updated_at DESC, node_id DESC
abbrev newest_first : ManagedNode → ManagedNode → Bool
newest_first a b =
    if a.updated_at == b.updated_at
    then text_le b.node_id a.node_id
    else text_le b.updated_at a.updated_at

abbrev first : {A : Type 0} → List A → Option A
first [] = none
first (x ∷ xs) = some x

unfoldable pub get_self : M (Option ManagedNode)
get_self =
    or_raise (query (λ t. first (sort_by newest_first (select (λ n. n.is_self) t.managed_nodes))))
      "查询 self 节点失败"

-- UPDATE … SET is_self=0 WHERE is_self=1 AND node_id<>?
abbrev pub demote : String → String → ManagedNode → ManagedNode
demote now node_id n =
    if n.is_self && not (n.node_id == node_id)
    then record n { is_self = false; updated_at = now }
    else n

abbrev pub demote_others : String → String → Statement (Unit {0})
demote_others now node_id t =
    done tt
      (record t { managed_nodes = update_where (λ n. true) (demote now node_id) t.managed_nodes })

-- The partial index of migration 13: a second row with `is_self` is a violation.
abbrev pub other_self : String → ManagedNode → Bool
other_self node_id n = n.is_self && not (n.node_id == node_id)

-- INSERT … ON CONFLICT(node_id) DO UPDATE SET is_self=1, enabled=1, updated_at
abbrev pub upsert_self_row : String → String → String → Statement (Unit {0})
upsert_self_row now node_id name t =
    if any (other_self node_id) t.managed_nodes
    then violated
    else if any (is_node node_id) t.managed_nodes
    then done tt (record t {
      managed_nodes =
          update_where (is_node node_id)
            (λ n. record n { is_self = true; enabled = true; updated_at = now }) t.managed_nodes;
    })
    else done tt
        (record t { managed_nodes = t.managed_nodes ++ new_node now node_id name true ∷ [] })

unfoldable pub register_self : String → String → String → M (Unit {0})
register_self now node_id name =
    or_abort
      (do
        execute (demote_others now node_id)
        execute (upsert_node now node_id)
        execute (upsert_self_row now node_id name)
        commit)
      "upsert self 节点失败"

unfoldable pub upsert_self : String → String → String → M ManagedNode
unfolding register_self read_back
upsert_self now node_id name = do
  register_self now node_id name
  read_back node_id "upsert 后无法读取 self 节点"

abbrev pub delete_node : String → Statement (Unit {0})
delete_node node_id t =
    done tt (record t { managed_nodes = delete_where (is_node node_id) t.managed_nodes })

abbrev delete_existing : String → Bool → Option ManagedNode → M (Option ManagedNode)
delete_existing now force none = pure none
delete_existing now force (some existing) =
    if existing.is_self && not force
    then raise (database_error "拒绝删除 self 节点 (传入 force=True 强制删除)")
    else or_abort
        (do
          execute (delete_node existing.node_id)
          emit_sync_event now existing.node_id sync_event_access_revoked
          commit
          pure (some existing))
        "删除 managed_node 失败"

-- `existing.node_id` is the `node_id` that was looked up.
unfoldable pub delete : String → String → Bool → M (Option ManagedNode)
unfolding get
delete now node_id force = do existing ← get node_id; delete_existing now force existing

-- UPDATE managed_nodes … WHERE node_id=?; the result is `rowcount`
abbrev pub update_node : String → (ManagedNode → ManagedNode) → Statement ℕ
update_node node_id f t =
    done (length (select (is_node node_id) t.managed_nodes))
      (record t { managed_nodes = update_where (is_node node_id) f t.managed_nodes })

-- `if cur.rowcount == 0: rollback; raise`
abbrev pub require_updated : ℕ → String → M (Unit {0})
require_updated rowcount message =
    if nat_eq rowcount 0 then abort (database_error message) else pure tt

store_write_policy : String → String → WritePolicy → M (Unit {0})
store_write_policy now node_id normalized =
    or_abort
      (do
        rowcount ←
            execute
              (update_node node_id (λ n. record n { write_policy = normalized; updated_at = now }))
        require_updated rowcount "节点不存在"
        commit)
      "更新 write_policy 失败"

abbrev lift : {A : Type 0} → Outcome A → M A
lift r c = (r, c)

unfoldable pub set_write_policy : String → String → List (String × String) → M ManagedNode
unfolding store_write_policy read_back
set_write_policy now node_id policy = do
  normalized ← lift (validate_write_policy policy)
  store_write_policy now node_id normalized
  read_back node_id "更新后无法读取 managed_node"

unfoldable pub touch_last_seen : String → String → M (Unit {0})
touch_last_seen now node_id =
    or_abort (do execute (update_node node_id (λ n. record n { last_seen_at = some now })); commit)
      "更新 last_seen_at 失败"
