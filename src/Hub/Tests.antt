-- ===== src/Hub/Tests.antt =====
-- The theorems on the hub at concrete connections.
use dn42_utils.Base.{
  ℕ, ◌+◌, ◌≤◌, String, ◌≡◌, refl, arith, true, false, none, some, Option, List, [], ◌∷◌, ◌++◌, any,
  length,
}
use dn42_utils.Json.{Json, pos, end, field}
use dn42_utils.Constants.{sync_event_desired, sync_event_access_revoked}
use dn42_utils.Database.Schema.{SyncEvent, Tables, empty_tables, BgpEntry, IbgpEntry, NodeBlock}
use dn42_utils.Database.Connection.{Connection, ok, closing}
use dn42_utils.Managed.Nodes.{new_node, get}
use dn42_utils.Managed.Nodes.Tokens.{authenticate, verify_token}
use dn42_utils.Decisions.{try_service}
use dn42_utils.DesiredState.{require_managed_node_exists}
use dn42_utils.Payload.Tests.{some_texts}
use dn42_utils.Decisions.Interface.{PeerServices}
use dn42_utils.Database.Connection as Db
use dn42_utils.Ws.{decode, Envelope, JsonLibrary}
use dn42_utils.Hub.Registry.{
  NodeConnection, Registry, register, connections_for, is_conn, max_connections_per_node,
}
use dn42_utils.Hub.Registry.Bounds.{register-surplus}
use dn42_utils.Hub.Registry.Refines.{
  RegistryCall, registers, unregisters, notifies, run, replay, IsRegistry, run_refines,
}
use dn42_utils.Hub.Watcher.{Watcher, react}
use dn42_utils.Hub.Watcher.CatchUp.{unseen, ticks, ticks_advance, ticks_catch_up}
use dn42_utils.Hub.Watcher.Reactions.{AllClosed, react-revoked, react-desired, wake}
use dn42_utils.Hub.Session.{Session}
use dn42_utils.Hub.Session.Handlers.{reader_loop, handshake, greeted}
use dn42_utils.Hub.Session.Handlers.Replies.{reader_loop_replies}
use dn42_utils.Hub.Session.Handlers.Admits.{Entitled, handshake-Entitled}
use dn42_utils.Hub.Session.Handlers.Throttle.{Spaced, touches-Spaced}

abbrev conn : String → String → NodeConnection
conn node_id conn_id = record {
  node_id = node_id;
  conn_id = conn_id;
  woken = false;
  last_pushed_hash = none;
  last_seen_touched_at = none;
  agent_version = "1.0";
}

abbrev full : Registry
full =
    record {
      node_id = "edge";
      conns = conn "edge" "a" ∷ conn "edge" "b" ∷ conn "edge" "c" ∷ conn "edge" "d" ∷ [];
    }
    ∷ record { node_id = "far"; conns = conn "far" "x" ∷ [] }
    ∷ []

full-IsRegistry : IsRegistry full
full-IsRegistry = ((refl, (refl, tt)), (refl, (refl, tt)))

register-surplus_example :
    (length (connections_for "edge" (register (conn "edge" "e") full).0)
      ≤ length (register (conn "edge" "e") full).1 + max_connections_per_node)
    × (any (is_conn "e") (register (conn "edge" "e") full).1 ≡ false)
    × (any (is_conn "e") (connections_for "edge" (register (conn "edge" "e") full).0) ≡ true)
unfolding connections_for
register-surplus_example = register-surplus (conn "edge" "e") full refl

abbrev calls : List RegistryCall
calls = registers (conn "edge" "e") ∷ notifies "edge" ∷ unregisters (conn "far" "x") ∷ []

run_refines_example :
    IsRegistry (run calls full)
    × (connections_for "far" (run calls full) ≡ replay calls (λ m. connections_for m full) "far")
run_refines_example = run_refines calls full "far" full-IsRegistry

abbrev event : ℕ → String → String → SyncEvent
event id kind node_id = record { id = id; kind = kind; node_id = node_id; created_at = "t0" }

abbrev events : List SyncEvent
events =
    event 3 sync_event_desired "far"
    ∷ event 5 sync_event_access_revoked "edge"
    ∷ event 6 sync_event_desired "edge"
    ∷ []

abbrev tables : Tables
tables = record empty_tables {
  nodes = record { node_id = "edge"; created_at = "t0"; updated_at = "t0" } ∷ [];
  managed_nodes =
      record (new_node "t0" "edge" "Edge" false) { api_token_hash = some "sha256$key" } ∷ [];
  sync_events = events;
  sync_events_seq = 6;
}

abbrev start : Connection
start = record { committed = tables; working = tables; faults = [] }

abbrev watcher : Watcher
watcher = record { last_id = some 3; registry = full; closed = [] }

ticks_advance_example :
    (next : ℕ) × ((ticks 2 watcher (record start { faults = true ∷ [] })).0.last_id ≡ some next)
    × (unseen 3 tables
        ≡ (ticks 2 watcher (record start { faults = true ∷ [] })).2 ++ unseen next tables)
ticks_advance_example =
    ticks_advance 2 3 watcher (record start { faults = true ∷ [] }) refl ground arith refl

ticks_catch_up_example :
    (ticks 1 watcher start).2
    ≡ event 5 sync_event_access_revoked "edge" ∷ event 6 sync_event_desired "edge" ∷ []
ticks_catch_up_example =
    ticks_catch_up 1 3 watcher start refl refl (ground arith) refl (omega arith)

react-revoked_example :
    AllClosed (connections_for "edge" full) (react events watcher).closed
    × (connections_for "edge" (react events watcher).registry ≡ connections_for "edge" full)
react-revoked_example = react-revoked "edge" events watcher refl

react-desired_example :
    connections_for "far" (react events watcher).registry ≡ wake (connections_for "far" full)
react-desired_example = react-desired "far" events watcher refl

abbrev pub services : PeerServices
services = record {
  create_bgp_peer = λ n a. Db.pure tt;
  modify_bgp_peer = λ n a. Db.pure tt;
  delete_bgp_peer = λ n a. Db.pure tt;
  create_ibgp_peer = λ n a. Db.pure tt;
  modify_ibgp_peer = λ n a. Db.pure tt;
  delete_ibgp_peer = λ n a. Db.pure tt;
}

-- A library that reads every text as the same hello.
abbrev json : JsonLibrary
json = record {
  dumps = λ j. "{…}";
  loads = λ s. some (
      Json.obj (
        field "v" (Json.int (pos 1))
          (field "type" (Json.str "hello") (field "id" (Json.str "h1") end))));
  byte_length = λ s. 60;
}

abbrev session : Session
session = record { conn = conn "edge" "a"; sent = []; send_faults = []; database = start }

abbrev hexdigest : String → List BgpEntry → List IbgpEntry → Option NodeBlock → String
hexdigest node_id bgp ibgp block = "cafe"

abbrev rpartition : String → String × (String × String)
rpartition s = ("t0", ("-", "cafe"))

reader_loop_replies_example :
    2
    ≤ length
        (reader_loop hexdigest rpartition some_texts services json false
          (("t1", (5, "{…}")) ∷ ("t2", (6, "{…}")) ∷ [])
          session).1.sent
reader_loop_replies_example =
    reader_loop_replies hexdigest rpartition some_texts services json false
      (("t1", (5, "{…}")) ∷ ("t2", (6, "{…}")) ∷ []) session refl

abbrev partition : String → String × String
partition header = ("bearer", "key")

abbrev sha256 : String → String
sha256 token = token

abbrev hello : Envelope
hello = record { type = "hello"; payload = end; id = "h1"; re = none; v = pos 1; ts = "t1" }

greets :
    (handshake some_texts partition json sha256 "t1" "edge" "{…}" (some "Bearer key") start).0
    ≡ ok (greeted hello)
unfolding handshake Db.◌>>=◌ closing authenticate Db.or_raise Db.execute verify_token try_service
    require_managed_node_exists get Db.rollback decode
greets = refl

handshake-Entitled_example :
    Entitled sha256 some_texts partition json (some "Bearer key") "edge" start.working.managed_nodes
handshake-Entitled_example =
    handshake-Entitled sha256 some_texts partition json "t1" "edge" "{…}" (some "Bearer key") hello
      start greets

abbrev times : List (String × ℕ)
times = ("t1", 1000) ∷ ("t2", 30000) ∷ ("t3", 61000) ∷ []

touches-Spaced_example : Spaced none times session
touches-Spaced_example = touches-Spaced times session
