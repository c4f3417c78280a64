-- ===== src/NodeAddress/Adopt.antt =====
-- `adopt_self_partition` of src/dn42ctl/services/node_address.py: the peers of a stale partition move to the
-- self node.
use dn42_utils.Base.{
  ℕ, String, Bool, true, false, not, ◌&&◌, ◌||◌, Option, none, some, List, [], ◌∷◌, if◌then◌else◌,
  ◌==◌, any, update_where, length, nat_eq,
}
use dn42_utils.Base.Text.{truthy}
use dn42_utils.Constants.{sync_event_desired}
use dn42_utils.Database.Schema.{ManagedNode, BgpRow, IbgpRow}
use dn42_utils.Database.Connection.{
  M, Statement, done, violated, dn42ctl_error, pure, raise, closing, execute, commit, ◌>>=◌, ◌>>◌,
}
use dn42_utils.Database.Events.{emit_sync_event}
use dn42_utils.Database.Peers.{list_bgp_peers, list_ibgp_peers, has_node}
use dn42_utils.Managed.Nodes.{get_self}
use dn42_utils.NodeAddress.{or_refuse}

pub record AdoptSelfResult : Type 0 where
  pub from_node_id : String
  pub to_node_id : String
  pub bgp_moved : ℕ
  pub ibgp_moved : ℕ
  pub dry_run : Bool

abbrev require_self : Option ManagedNode → M ManagedNode
require_self none = raise (dn42ctl_error "没有 self 节点(managed_nodes.is_self=1),无需也无法执行 adopt-self")
require_self (some node) = pure node

abbrev no_rows : {R : Type 0} → List R → Bool
no_rows [] = true
no_rows (r ∷ rs) = false

abbrev pub move_bgp_row : String → BgpRow → BgpRow
move_bgp_row target r = record r {
  peer = record (r.peer) { base = record (r.peer.base) { node_id = target } };
}

abbrev pub move_ibgp_row : String → IbgpRow → IbgpRow
move_ibgp_row target r = record r {
  peer = record (r.peer) { base = record (r.peer.base) { node_id = target } };
}

-- UPDATE bgp_peers SET node_id=? WHERE node_id=?, with the constraints of the table.
abbrev pub move_bgp : String → String → Statement (Unit {0})
move_bgp target source t =
    if any (λ (r : BgpRow). r.node_id == source) t.bgp_peers
      && (not (has_node target t)
          || any
              (λ (r : BgpRow).
                r.node_id == source
                && any
                    (λ (q : BgpRow).
                      q.node_id == target && (nat_eq q.peer_asn r.peer_asn || q.ifname == r.ifname))
                    t.bgp_peers)
              t.bgp_peers)
    then violated
    else done tt (record t {
      bgp_peers =
          update_where (λ (r : BgpRow). r.node_id == source) (move_bgp_row target) t.bgp_peers;
    })

abbrev pub move_ibgp : String → String → Statement (Unit {0})
move_ibgp target source t =
    if any (λ (r : IbgpRow). r.node_id == source) t.ibgp_peers
      && (not (has_node target t)
          || any
              (λ (r : IbgpRow).
                r.node_id == source
                && any
                    (λ (q : IbgpRow).
                      q.node_id == target && (q.name == r.name || q.ifname == r.ifname))
                    t.ibgp_peers)
              t.ibgp_peers)
    then violated
    else done tt (record t {
      ibgp_peers =
          update_where (λ (r : IbgpRow). r.node_id == source) (move_ibgp_row target) t.ibgp_peers;
    })

-- The statements of the transaction of `adopt_self_partition`.
abbrev pub move_rows : String → String → String → M (Unit {0})
move_rows now target source = do
  execute (move_bgp target source)
  execute (move_ibgp target source)
  emit_sync_event now target sync_event_desired
  commit

unfoldable pub move_partition : String → String → String → M (Unit {0})
unfolding or_refuse
move_partition now target source = or_refuse (move_rows now target source) "搬迁 peer 行失败"

-- `from_node_id or config_node_id`
abbrev source_of : Option String → String → String
source_of none config_node_id = config_node_id
source_of (some s) config_node_id = if truthy s then s else config_node_id

abbrev refuse_if : Bool → String → M (Unit {0})
refuse_if b message = if b then raise (dn42ctl_error message) else pure tt

unfoldable pub adopt_self_partition : String → String → Option String → Bool → M AdoptSelfResult
unfolding move_partition
adopt_self_partition now config_node_id from_node_id dry_run = closing (do
  self ← get_self
  self_node ← require_self self
  refuse_if (source_of from_node_id config_node_id == self_node.node_id) "源分区与 self 节点相同,无需修复"
  bgp_rows ← list_bgp_peers (source_of from_node_id config_node_id)
  ibgp_rows ← list_ibgp_peers (source_of from_node_id config_node_id)
  refuse_if (no_rows bgp_rows && no_rows ibgp_rows) "源分区下没有任何 peer 行,无需修复"
  target_bgp ← list_bgp_peers self_node.node_id
  refuse_if (not (no_rows target_bgp)) "目标分区非空,拒绝自动搬迁;请人工合并"
  target_ibgp ← list_ibgp_peers self_node.node_id
  refuse_if (not (no_rows target_ibgp)) "目标分区非空,拒绝自动搬迁;请人工合并"
  if dry_run
      then pure tt
      else move_partition now self_node.node_id (source_of from_node_id config_node_id)
  pure (record {
    from_node_id = source_of from_node_id config_node_id;
    to_node_id = self_node.node_id;
    bgp_moved = length bgp_rows;
    ibgp_moved = length ibgp_rows;
    dry_run = dry_run;
  }))
