-- ===== src/Managed/Nodes/Fields.antt =====
-- `_update_fields` of `ManagedNodeStore` and its callers: names, switches, addresses.
use dn42_utils.Base.{
  String, Bool, true, false, not, ◌||◌, Option, some, List, [], ◌∷◌, ◌++◌, if◌then◌else◌,
  update_where,
}
use dn42_utils.Base.Text.{mem}
use dn42_utils.Constants.{sync_event_desired, sync_event_access_revoked, Update, unset, given}
use dn42_utils.Database.Schema.{ManagedNode, IbgpRow, IbgpPeerRecord}
use dn42_utils.Database.Connection.{
  M, Statement, done, execute, commit, or_abort, pure, ◌>>=◌, ◌>>◌,
}
use dn42_utils.Database.Events.{emit_sync_event}
use dn42_utils.Database.Peers.{is_ibgp, or_kept}
use dn42_utils.Managed.Nodes.{read_back, require_updated, update_node}

-- One row of `ibgp_peers` that an address change rewrites.
pub data PeerColumn : Type 0 where
  peer_ip endpoint : PeerColumn

pub record PropagatedChange : Type 0 where
  pub node_id : String
  pub name : String
  pub field : PeerColumn
  pub old : Option String
  pub new : String

-- The columns that `_update_fields` may set.
pub record NodeFields : Type 0 where
  pub name : Update String
  pub enabled : Update Bool
  pub auto_peer : Update Bool
  pub endpoint_host : Update (Option String)
  pub own_ipv6 : Update (Option String)
  pub router_id : Update (Option String)

abbrev pub no_fields : NodeFields
no_fields = record {
  name = unset;
  enabled = unset;
  auto_peer = unset;
  endpoint_host = unset;
  own_ipv6 = unset;
  router_id = unset;
}

abbrev pub set_fields : String → NodeFields → ManagedNode → ManagedNode
set_fields now f n = record n {
  name = or_kept f.name n.name;
  enabled = or_kept f.enabled n.enabled;
  auto_peer = or_kept f.auto_peer n.auto_peer;
  endpoint_host = or_kept f.endpoint_host n.endpoint_host;
  own_ipv6 = or_kept f.own_ipv6 n.own_ipv6;
  router_id = or_kept f.router_id n.router_id;
  updated_at = now;
}

abbrev pub set_column : PeerColumn → String → IbgpPeerRecord → IbgpPeerRecord
set_column peer_ip new p = record p { peer_ip = some new }
set_column endpoint new p = record p { base = record (p.base) { endpoint = some new } }

abbrev pub change_row : String → PropagatedChange → IbgpRow → IbgpRow
change_row now change r = record r {
  peer = set_column change.field change.new r.peer;
  updated_at = now;
}

-- UPDATE ibgp_peers SET field WHERE node_id=? AND name=?
abbrev pub apply_change : String → PropagatedChange → List IbgpRow → List IbgpRow
apply_change now change rows =
    update_where (is_ibgp change.node_id change.name) (change_row now change) rows

abbrev pub write_change : String → PropagatedChange → Statement (Unit {0})
write_change now change t = done tt (record t { ibgp_peers = apply_change now change t.ibgp_peers })

unfoldable pub write_changes : String → List PropagatedChange → M (Unit {0})
write_changes now [] = pure tt
write_changes now (change ∷ changes) = do
  execute (write_change now change)
  write_changes now changes

unfoldable pub emit_all : String → List (String × String) → M (Unit {0})
emit_all now [] = pure tt
emit_all now ((target, kind) ∷ events) = do emit_sync_event now target kind; emit_all now events

unfoldable pub write_fields :
    String → String → NodeFields → List (String × String) → List PropagatedChange → M (Unit {0})
unfolding write_changes emit_all
write_fields now node_id fields events changes =
    or_abort
      (do
        rowcount ← execute (update_node node_id (set_fields now fields))
        require_updated rowcount "节点不存在"
        write_changes now changes
        emit_all now events
        commit)
      "更新 managed_node 失败"

unfoldable pub update_fields :
    String → String → NodeFields → List (String × String) → List PropagatedChange → M ManagedNode
unfolding write_fields read_back
update_fields now node_id fields events changes = do
  write_fields now node_id fields events changes
  read_back node_id "更新后无法读取 managed_node"

unfoldable pub set_name : String → String → String → M ManagedNode
unfolding update_fields
set_name now node_id name = update_fields now node_id (record no_fields { name = given name }) [] []

unfoldable pub set_enabled : String → String → Bool → M ManagedNode
unfolding update_fields
set_enabled now node_id enabled =
    update_fields now node_id (record no_fields { enabled = given enabled })
      (if enabled then [] else (node_id, sync_event_access_revoked) ∷ []) []

abbrev pub is_given {ℓ} : {A : Type ℓ} → Update A → Bool
is_given unset = false
is_given (given a) = true

-- Whether `own_ipv6` or `router_id` is among the fields.
abbrev pub pushes : NodeFields → Bool
pushes f = is_given f.own_ipv6 || is_given f.router_id

unfoldable pub set_addresses :
    String
    → String
    → Update (Option String)
    → Update (Option String)
    → Update (Option String)
    → M ManagedNode
unfolding update_fields read_back
set_addresses now node_id endpoint_host own_ipv6 router_id =
    let fields : NodeFields = record no_fields {
      endpoint_host = endpoint_host;
      own_ipv6 = own_ipv6;
      router_id = router_id;
    } in
    if not (is_given endpoint_host || pushes fields)
    then read_back node_id "节点不存在"
    else update_fields now node_id fields
        (if pushes fields then (node_id, sync_event_desired) ∷ [] else []) []

-- the loop over `changes` that gathers each other node once
unfoldable pub other_targets : List String → List PropagatedChange → List (String × String)
other_targets seen [] = []
other_targets seen (change ∷ changes) =
    let new =
      (change.node_id, sync_event_desired) ∷ other_targets (change.node_id ∷ seen) changes in
    let old = other_targets seen changes in if mem change.node_id seen then old else new

abbrev pub disables : Update Bool → Bool
disables unset = false
disables (given enabled) = not enabled

unfoldable pub update_events : String → NodeFields → List PropagatedChange → List (String × String)
unfolding other_targets
update_events node_id fields changes =
    (if pushes fields then (node_id, sync_event_desired) ∷ [] else [])
    ++ (other_targets (node_id ∷ []) changes
        ++ (if disables fields.enabled then (node_id, sync_event_access_revoked) ∷ [] else []))

unfoldable pub apply_address_update :
    String → String → NodeFields → List PropagatedChange → M ManagedNode
unfolding update_fields update_events
apply_address_update now node_id fields changes =
    update_fields now node_id fields (update_events node_id fields changes) changes
