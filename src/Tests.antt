-- ===== src/Tests.antt =====
-- The theorems of the library at concrete tables and requests.
use dn42_utils.Base.{
  ℕ, String, true, false, none, some, List, [], ◌∷◌, ◌≡◌, ◌≢◌, refl, eq_iff, arith, any, ◌&&◌, ◌++◌,
  ltb, select, ◌⊎◌, ◌↔◌,
}
use dn42_utils.Database.Schema.{
  Tables, empty_tables, ManagedNode, BgpPeerRecord, SyncEvent, Content,
}
use dn42_utils.Database.Connection.{
  Connection, ok, ◌>>=◌, or_abort, or_abort_clash, or_raise, execute, commit,
}
use dn42_utils.Database.Peers.{insert_bgp_peer}
use dn42_utils.Database.Connection.Atomic.{IsClosed, Settled}
use dn42_utils.Database.Events.{emit_sync_event, events_since, max_id}
use dn42_utils.Database.Events.Queue.{is_event, is_later}
use dn42_utils.Database.Events.Cursor.{events_since_complete}
use dn42_utils.Database.Writes.{
  PeerWrite, insert_bgp, delete_bgp, run, Told, run-Told, run-Settled, run_all, run_all_tells,
}
use dn42_utils.Managed.Nodes.{new_node, is_node, register_self, other_self}
use dn42_utils.Managed.Nodes.Tokens.{
  rotate_token, accepts, authenticate, hash_token, verify_token, verify_token,
}
use dn42_utils.Managed.Nodes.Fields.{
  PropagatedChange, PeerColumn, NodeFields, no_fields, write_fields, set_enabled,
}
use dn42_utils.Managed.Nodes.Effects.{written}
use dn42_utils.Managed.Nodes.Written.{write_fields-Written}
use dn42_utils.Managed.Nodes.SelfNode.{register_self-single, is_self_row}
use dn42_utils.Managed.Nodes.Auth.{
  set_enabled-false-revokes, rotate_token-revokes, authenticate_exact, Admission,
}
use dn42_utils.Managed.Policy.{validate_write_policy, default_write_policy}
use dn42_utils.Managed.Policy.Laws.{validate_write_policy_exact, IsReviewed, AllKeys, over}
use dn42_utils.Managed.Revisions.Pins.{PinsResolve}
use dn42_utils.Managed.Revisions.Rollback.{
  after_all, after_all-PinsResolve, RevisionCall, record_call, pin_call, trim_call,
}
use dn42_utils.Json.{Json, pos, Fields, end, field}
use dn42_utils.Managed.Nodes.Fields.{update_events, apply_address_update}
use dn42_utils.Managed.Nodes.Targets.{apply_address_update_tells}
use dn42_utils.Reporting.{submit_report}
use dn42_utils.Reporting.Frame.{business, submit_report-business}
use dn42_utils.Constants.{sync_event_desired, sync_event_access_revoked, given}

abbrev t0 : String
t0 = "2026-01-01T00:00:00+00:00"

-- Two hosts, of which the first is the hub's own.
abbrev with_nodes : Tables
with_nodes = record empty_tables {
  nodes =
      record { node_id = "hub"; created_at = t0; updated_at = t0 }
      ∷ record { node_id = "edge"; created_at = t0; updated_at = t0 }
      ∷ [];
  managed_nodes =
      new_node t0 "hub" "Hub" true
      ∷ record (new_node t0 "edge" "Edge" false) { api_token_hash = some "sha256$old" }
      ∷ [];
}

abbrev open_database : Tables → Connection
open_database t = record { committed = t; working = t; faults = [] }

abbrev peer : BgpPeerRecord
peer = record {
  base = record {
    node_id = "edge";
    ifname = "dn42-1080";
    wg_private_key = "k";
    wg_public_key = "p";
    peer_public_key = some "q";
    endpoint = some "a.example:51820";
    local_lla = "fe80::1";
    peer_lla = some "fe80::2";
    listen_port = 31080;
    allowed_ips = "fd00::/8" ∷ [];
    net_backend = "networkd";
  };
  peer_asn = 4242421080;
}

run-Told_example :
    Told "edge" with_nodes (run t0 (insert_bgp peer) (open_database with_nodes)).1.committed
unfolding insert_bgp_peer or_abort_clash execute emit_sync_event commit ◌>>=◌
run-Told_example = run-Told t0 (open_database with_nodes) refl (insert_bgp peer) refl

-- The third statement fails.
abbrev failing : Connection
failing = record (open_database with_nodes) { faults = false ∷ false ∷ true ∷ [] }

run-Settled_example :
    Settled with_nodes (run t0 (insert_bgp peer) failing).0 (run t0 (insert_bgp peer) failing).1
run-Settled_example = run-Settled t0 (insert_bgp peer) failing refl

abbrev history : List (String × PeerWrite)
history = (t0, insert_bgp peer) ∷ (t0, insert_bgp peer) ∷ (t0, delete_bgp "edge" 4242421080) ∷ []

run_all_tells_example :
    ((run t0 (insert_bgp peer) (open_database with_nodes)).1.committed ≡ with_nodes)
    ⊎ (any
          (is_later 0 "edge" sync_event_desired)
          (run_all history
            (run t0 (insert_bgp peer) (open_database with_nodes)).1).committed.sync_events
        ≡ true)
unfolding insert_bgp_peer or_abort_clash execute emit_sync_event commit ◌>>=◌
run_all_tells_example =
    run_all_tells t0 (insert_bgp peer) history (open_database with_nodes) refl refl (omega arith)

abbrev event : ℕ → String → SyncEvent
event id node_id = record { id = id; node_id = node_id; kind = sync_event_desired; created_at = t0 }

abbrev queue : List SyncEvent
queue = event 3 "hub" ∷ event 5 "edge" ∷ event 6 "hub" ∷ event 9 "edge" ∷ []

events_since_complete_example :
    select (λ (e : SyncEvent). ltb 3 e.id) queue
    ≡ events_since 3 2 queue
      ++ select (λ (e : SyncEvent). ltb (max_id (events_since 3 2 queue)) e.id) queue
unfolding events_since
events_since_complete_example = events_since_complete 9 3 2 queue (ground arith) some_left
  where
    some_left : events_since 3 2 queue ≢ []
    some_left h = ground arith

abbrev content : Content
content = record {
  node_id = "edge";
  bgp_peers = [];
  ibgp_peers = [];
  node = record { own_ipv6 = none; router_id = none };
}

abbrev calls : List RevisionCall
calls =
    record_call "edge" "r1" t0 content
    ∷ pin_call t0 "edge" "r1"
    ∷ record_call "edge" "r2" t0 content
    ∷ trim_call "edge" 1
    ∷ []

after_all-PinsResolve_example : PinsResolve (after_all calls (open_database with_nodes)).committed
after_all-PinsResolve_example = after_all-PinsResolve calls (open_database with_nodes) refl tt

-- A digest that is one-to-one.
abbrev digest : String → String
digest s = s

authenticate_exact_example :
    Admission digest "old" with_nodes.managed_nodes
      (some (record (new_node t0 "edge" "Edge" false) { api_token_hash = some "sha256$old" }))
unfolding authenticate or_raise execute verify_token
authenticate_exact_example =
    authenticate_exact digest "old" (open_database with_nodes)
      (some (record (new_node t0 "edge" "Edge" false) { api_token_hash = some "sha256$old" })) found
  where
    found :
        (authenticate digest "old" (open_database with_nodes)).0
        ≡ ok
            (some (record (new_node t0 "edge" "Edge" false) { api_token_hash = some "sha256$old" }))
    found = refl

rotate_token-revokes_example :
    (any
        (λ (n : ManagedNode). is_node "edge" n && accepts digest "old" n)
        (rotate_token digest t0 "edge" "new" (open_database with_nodes)).1.committed.managed_nodes
      ≡ false)
    × (any
          (is_event 1 "edge" sync_event_access_revoked)
          (rotate_token digest t0 "edge" "new" (open_database with_nodes)).1.committed.sync_events
        ≡ true)
unfolding rotate_token hash_token or_abort execute emit_sync_event commit ◌>>=◌
rotate_token-revokes_example =
    rotate_token-revokes digest t0 "edge" "new" "old" (open_database with_nodes) refl rotated other
  where
    rotated : (rotate_token digest t0 "edge" "new" (open_database with_nodes)).0 ≡ ok tt
    rotated = refl

    other : hash_token digest "old" ≢ hash_token digest "new"
    other h = let e : false ≡ true = (eq_iff "sha256$old" "sha256$new").1 h in cc

set_enabled-false-revokes_example :
    (any
        (λ (m : ManagedNode). is_node "edge" m && m.enabled)
        (set_enabled t0 "edge" false (open_database with_nodes)).1.committed.managed_nodes
      ≡ false)
    × (any
          (is_event 1 "edge" sync_event_access_revoked)
          (set_enabled t0 "edge" false (open_database with_nodes)).1.committed.sync_events
        ≡ true)
unfolding set_enabled ◌>>=◌ or_abort execute emit_sync_event commit or_raise
set_enabled-false-revokes_example =
    set_enabled-false-revokes t0 "edge" (open_database with_nodes) edge refl disabled
  where
    edge : ManagedNode
    edge = record (new_node t0 "edge" "Edge" false) {
      api_token_hash = some "sha256$old";
      enabled = false;
    }

    disabled : (set_enabled t0 "edge" false (open_database with_nodes)).0 ≡ ok edge
    disabled = refl

-- The hub's mark moves to the other host.
register_self-single_example :
    ((register_self t0 "edge" "Edge" (open_database with_nodes)).0 ≡ ok tt)
    × (any
          (other_self "edge")
          (register_self t0 "edge" "Edge" (open_database with_nodes)).1.committed.managed_nodes
        ≡ false)
    × (any
          (is_self_row "edge")
          (register_self t0 "edge" "Edge" (open_database with_nodes)).1.committed.managed_nodes
        ≡ true)
register_self-single_example =
    register_self-single t0 "edge" "Edge" (open_database with_nodes) refl refl

abbrev change : PropagatedChange
change = record {
  node_id = "hub";
  name = "edge";
  field = PeerColumn.peer_ip;
  old = none;
  new = "fd00::2";
}

abbrev new_address : NodeFields
new_address = record no_fields { own_ipv6 = given (some "fd00::2") }

-- The call returns.
write_fields-Written_example :
    ((write_fields t0 "edge" new_address
        (("edge", sync_event_desired) ∷ [])
        (change ∷ [])
        (open_database with_nodes)).1.committed
      ≡ written t0 "edge" new_address (("edge", sync_event_desired) ∷ []) (change ∷ []) with_nodes)
    × IsClosed
        (write_fields t0 "edge" new_address
          (("edge", sync_event_desired) ∷ [])
          (change ∷ [])
          (open_database with_nodes)).1
unfolding write_fields emit_sync_event or_abort execute commit ◌>>=◌
write_fields-Written_example =
    write_fields-Written t0 "edge" new_address (("edge", sync_event_desired) ∷ []) (change ∷ [])
      (open_database with_nodes) refl

validate_write_policy_exact_example :
    (validate_write_policy (("peer_add", "auto_accept") ∷ [])
      ≡ ok (record default_write_policy { peer_add = "auto_accept" }))
    ↔ (AllKeys (("peer_add", "auto_accept") ∷ [])
        × (record default_write_policy { peer_add = "auto_accept" }
            ≡ over default_write_policy (("peer_add", "auto_accept") ∷ []))
        × IsReviewed (record default_write_policy { peer_add = "auto_accept" }))
validate_write_policy_exact_example =
    validate_write_policy_exact (("peer_add", "auto_accept") ∷ [])
      (record default_write_policy { peer_add = "auto_accept" })

apply_address_update_tells_example :
    any
      (is_later 0 "hub" sync_event_desired)
      (apply_address_update t0 "edge" new_address
        (change ∷ [])
        (open_database with_nodes)).1.committed.sync_events
    ≡ true
unfolding update_events apply_address_update ◌>>=◌ or_abort execute emit_sync_event commit or_raise
apply_address_update_tells_example =
    apply_address_update_tells t0 "edge" "hub" new_address (change ∷ []) (open_database with_nodes)
      edge refl updated refl refl (omega arith)
  where
    edge : ManagedNode
    edge = record (new_node t0 "edge" "Edge" false) {
      api_token_hash = some "sha256$old";
      own_ipv6 = some "fd00::2";
    }

    updated :
        (apply_address_update t0 "edge" new_address (change ∷ []) (open_database with_nodes)).0
        ≡ ok edge
    updated = refl

abbrev report : Fields
report = field "uptime" (Json.int (pos 12)) end

submit_report-business_example :
    business (submit_report t0 "edge" "live_status" report failing).1.committed
    ≡ business with_nodes
submit_report-business_example = submit_report-business t0 "edge" "live_status" report failing refl
