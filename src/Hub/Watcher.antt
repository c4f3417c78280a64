-- ===== src/Hub/Watcher.antt =====
-- `run_sync_watcher` of src/dn42ctl/ws_hub.py, one round of its loop at a time. An exception ends a round
-- and leaves the cursor; the sets of node ids are lists without repetition.
pub mod CatchUp
pub mod Reactions
use dn42_utils.Base.{
  ℕ, String, Bool, true, false, not, Option, none, some, List, [], ◌∷◌, ◌++◌, if◌then◌else◌, ◌==◌,
  length, take,
}
use dn42_utils.Base.Text.{mem}
use dn42_utils.Constants.{sync_event_desired, sync_event_access_revoked}
use dn42_utils.Database.Schema.{SyncEvent}
use dn42_utils.Database.Connection.{M, Connection, Outcome, ok, raised, pure, closing, ◌>>=◌}
use dn42_utils.Database.Events.{latest_id, fetch_since, max_id}
use dn42_utils.Ws.{close_revoked}
use dn42_utils.Hub.Registry.{NodeConnection, Registry, connections_for, notify}

abbrev pub watcher_batch : ℕ
watcher_batch = 500

pub record Watcher : Type 0 where
  pub last_id : Option ℕ
  pub registry : Registry
  -- the connections that were closed, with their codes
  pub closed : List (String × ℕ)

unfoldable pub node_ids : String → List SyncEvent → List String
node_ids kind [] = []
node_ids kind (e ∷ es) =
    let rest = node_ids kind es in
    if e.kind == kind then (if mem e.node_id rest then rest else e.node_id ∷ rest) else rest

-- `changed - revoked`
unfoldable pub without : List String → List String → List String
without [] ys = []
without (x ∷ xs) ys = let rest = without xs ys in if mem x ys then rest else x ∷ rest

unfoldable pub close_conns : ℕ → List NodeConnection → List (String × ℕ)
close_conns code [] = []
close_conns code (c ∷ cs) = (c.conn_id, code) ∷ close_conns code cs

-- `close_node` for each node
unfoldable pub close_nodes : List String → Registry → List (String × ℕ)
unfolding close_conns
close_nodes [] r = []
close_nodes (n ∷ ns) r = close_conns close_revoked (connections_for n r) ++ close_nodes ns r

-- `notify` for each node
unfoldable pub notify_nodes : List String → Registry → Registry
notify_nodes [] r = r
notify_nodes (n ∷ ns) r = notify_nodes ns (notify n r)

unfoldable pub react : List SyncEvent → Watcher → Watcher
unfolding node_ids without close_nodes notify_nodes
react events w =
    let revoked = node_ids sync_event_access_revoked events in
    let changed = node_ids sync_event_desired events in
    record w {
      closed = w.closed ++ close_nodes revoked w.registry;
      registry = notify_nodes (without changed revoked) w.registry;
    }

-- `last_id = max(e.id for e in events)`, for events that are not empty
abbrev pub next_cursor : ℕ → List SyncEvent → ℕ
next_cursor last_id [] = last_id
next_cursor last_id (e ∷ es) = max_id (e ∷ es)

-- The cursor that a round reads, and its events.
abbrev pub read_round : Option ℕ → M (Option ℕ × List SyncEvent)
read_round none = do i ← latest_id; pure (some i, [])
read_round (some last_id) = do
  events ← fetch_since last_id watcher_batch
  pure (some (next_cursor last_id events), events)

abbrev pub after_round : Outcome (Option ℕ × List SyncEvent) → Watcher → Watcher
after_round (raised e) w = w
after_round (ok (cursor, events)) w = react events (record w { last_id = cursor })

-- The events of a round.
abbrev pub events_of : Outcome (Option ℕ × List SyncEvent) → List SyncEvent
events_of (raised e) = []
events_of (ok (cursor, events)) = events

-- One round, with a database path: the watcher, the connection's state, the events.
unfoldable pub tick : Watcher → Connection → Watcher × Connection × List SyncEvent
unfolding react
tick w c =
    let (answer, c') = closing (read_round w.last_id) c in
    (after_round answer w, c', events_of answer)
