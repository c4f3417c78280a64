-- ===== src/NodeAddress.antt =====
-- src/dn42ctl/services/node_address.py: the addresses of a node, copied into the peer rows of the others.
-- A warning is its row's label with the text that follows.
pub mod Adopt
pub mod Backfill
pub mod Plan
pub mod Moves
pub mod Tests
use Prim.Native.String.{◌++◌ as text_append}
use dn42_utils.Base.{
  ℕ, String, Bool, true, false, not, ◌&&◌, ◌||◌, Option, none, some, List, [], ◌∷◌, ◌++◌, map,
  if◌then◌else◌, ◌==◌, any, select, update_where, length, sort_by, nat_eq,
}
use dn42_utils.Base.Text.{truthy, truthy?, or_empty, option_eq, text_le}
use dn42_utils.Constants.{Update, unset, given, sync_event_desired}
use dn42_utils.Database.Schema.{ManagedNode, BgpRow, IbgpRow, Tables}
use dn42_utils.Database.Connection.{
  M, Statement, done, violated, dn42ctl_error, pure, raise, closing, execute, query, commit, abort,
  try_sql, ◌>>=◌, ◌>>◌,
}
use dn42_utils.Database.Events.{emit_sync_event}
use dn42_utils.Database.Peers.{
  list_bgp_peers, list_ibgp_peers, list_ibgp_peers_by_remote, or_kept, has_node, is_ibgp,
}
use dn42_utils.Managed.Nodes
use dn42_utils.Managed.Nodes.{get_self, list_all}
use dn42_utils.Managed.Nodes.Fields.{
  PeerColumn, peer_ip, endpoint, PropagatedChange, NodeFields, apply_address_update,
}
use dn42_utils.Validators.{
  TextLibrary, Checked, valid, invalid, split_endpoint, format_endpoint, validate_endpoint_host,
  validate_ipv6_address, validate_router_id,
}

pub record NodeAddressUpdate : Type 0 where
  pub node : ManagedNode
  pub changes : List PropagatedChange
  pub warnings : List String
  pub dry_run : Bool

abbrev pub Plan : Type 0
Plan = List PropagatedChange × List String

abbrev pub label_of : IbgpRow → String
label_of row = text_append row.node_id (text_append "/" row.name)

abbrev warning : IbgpRow → String → Plan
warning row text = ([], text_append (label_of row) text ∷ [])

abbrev pub ip_plan : Option String → IbgpRow → List PropagatedChange
ip_plan own_ipv6 row =
    if truthy? own_ipv6 && not (option_eq row.peer_ip own_ipv6)
    then record {
      node_id = row.node_id;
      name = row.name;
      field = peer_ip;
      old = row.peer_ip;
      new = or_empty own_ipv6;
    }
      ∷ []
    else []

module _ (lib : TextLibrary) where
  abbrev pub current_endpoint : IbgpRow → String
  current_endpoint row = lib.strip (or_empty row.endpoint)

  -- The new endpoint of a row, for its parsed old one.
  abbrev pub moved_endpoint : String → IbgpRow → Checked (String × ℕ) → Plan
  moved_endpoint host row (invalid e) = warning row ": endpoint 无法解析,已跳过"
  moved_endpoint host row (valid (old_host, port)) =
      if not (format_endpoint lib host port == current_endpoint row)
      then (
        record {
          node_id = row.node_id;
          name = row.name;
          field = endpoint;
          old = some (current_endpoint row);
          new = format_endpoint lib host port;
        }
            ∷ [],
        [],
      )
      else ([], [])

  abbrev pub endpoint_plan : Option String → IbgpRow → Plan
  endpoint_plan endpoint_host row =
      if not (truthy? endpoint_host)
      then ([], [])
      else if not (truthy (current_endpoint row))
      then warning row ": endpoint 为空(被动侧),无法推导端口,已跳过"
      else moved_endpoint (or_empty endpoint_host) row (split_endpoint lib (current_endpoint row))

  unfoldable pub plan_propagation : List IbgpRow → Option String → Option String → Plan
  plan_propagation [] own_ipv6 endpoint_host = ([], [])
  plan_propagation (row ∷ rows) own_ipv6 endpoint_host =
      let (changes, warnings) = plan_propagation rows own_ipv6 endpoint_host in
      let (moved, warned) = endpoint_plan endpoint_host row in
      (ip_plan own_ipv6 row ++ (moved ++ changes), warned ++ warnings)

  -- `_validated`
  abbrev checked_value : Checked String → M (Update (Option String))
  checked_value (valid v) = pure (given (some v))
  checked_value (invalid message) = raise (dn42ctl_error message)

  unfoldable pub validated :
      (String → Checked String) → Update (Option String) → M (Update (Option String))
  validated validator unset = pure unset
  validated validator (given none) = pure (given none)
  validated validator (given (some value)) = checked_value (validator value)

  abbrev require_node : Option ManagedNode → M ManagedNode
  require_node none = raise (dn42ctl_error "managed node 不存在")
  require_node (some node) = pure node

  abbrev is_nil : List IbgpRow → Bool
  is_nil [] = true
  is_nil (row ∷ rows) = false

  abbrev is_none : Option String → Bool
  is_none none = true
  is_none (some s) = false

  abbrev more_warnings : List IbgpRow → Option String → Option String → List String
  more_warnings rows ipv6 host =
      (if is_nil rows && (truthy? ipv6 || truthy? host)
        then "没有任何 iBGP peer 行的 remote_node_id 指向该节点,本次改动不会传播到 mesh" ∷ []
        else [])
      ++ (if is_none ipv6 && not (is_nil rows) then "own_ipv6 未设置,指向该节点的 peer_ip 保持原值" ∷ [] else [])

  unfoldable pub planned : Bool → String → Option String → Option String → M Plan
  unfolding plan_propagation
  planned propagate node_id ipv6 host =
      if propagate
      then (do
        rows ← list_ibgp_peers_by_remote node_id
        pure (
          (plan_propagation rows ipv6 host).0,
          (plan_propagation rows ipv6 host).1 ++ more_warnings rows ipv6 host,
        ))
      else pure ([], [])

  -- The fields are those of the request.
  unfoldable pub set_node_addresses :
      String → String → NodeFields → Bool → Bool → M NodeAddressUpdate
  unfolding planned validated
  set_node_addresses now node_id fields propagate dry_run = do
    endpoint_host ← validated (validate_endpoint_host lib) fields.endpoint_host
    own_ipv6 ← validated (validate_ipv6_address lib) fields.own_ipv6
    router_id ← validated (validate_router_id lib) fields.router_id
    closing (do
      found ← Nodes.get node_id
      node ← require_node found
      (changes, warnings) ←
          planned propagate node_id (or_kept own_ipv6 node.own_ipv6)
            (or_kept endpoint_host node.endpoint_host)
      if dry_run
          then pure (record { node = node; changes = changes; warnings = warnings; dry_run = true })
          else (do
            updated ←
                apply_address_update now node_id
                  (record fields {
                    endpoint_host = endpoint_host;
                    own_ipv6 = own_ipv6;
                    router_id = router_id;
                  })
                  changes
            pure (record {
              node = updated;
              changes = changes;
              warnings = warnings;
              dry_run = false;
            })))

-- `except sqlite3.Error: rollback; raise Dn42CtlError(message)`
unfoldable pub or_refuse : {A : Type 0} → M A → String → M A
unfolding abort
or_refuse m message = try_sql m (λ _. abort (dn42ctl_error message))
