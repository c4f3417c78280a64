-- ===== src/Database/Events.antt =====
-- The change queue: `emit_sync_event` of src/dn42ctl/db.py, and `SyncEventStore` of db_managed.py.
pub mod Cursor
pub mod Queue
pub mod Invariant
use dn42_utils.Base.{
  ℕ, suc, ◌-◌, ◌%◌, String, List, [], ◌∷◌, ◌++◌, ltb, leb, nat_eq, if◌then◌else◌, take, select,
  delete_where, max, sort_by,
}
use dn42_utils.Constants.{sync_events_keep, sync_events_trim_every}
use dn42_utils.Database.Schema.{SyncEvent, Tables}
use dn42_utils.Database.Connection.{M, Statement, done, execute, query, or_raise, pure, ◌>>=◌}

-- INSERT INTO sync_events; the result is `lastrowid`
insert_event : String → String → String → Statement ℕ
insert_event now node_id kind t =
    let event : SyncEvent = record {
      id = suc t.sync_events_seq;
      node_id = node_id;
      kind = kind;
      created_at = now;
    } in
    done (suc t.sync_events_seq) (record t {
      sync_events = t.sync_events ++ event ∷ [];
      sync_events_seq = suc t.sync_events_seq;
    })

-- DELETE FROM sync_events WHERE id <= last
delete_events : ℕ → Statement (Unit {0})
delete_events last t =
    done tt (record t { sync_events = delete_where (λ e. leb e.id last) t.sync_events })

-- `new_id - SYNC_EVENTS_KEEP` stops at 0 here: ids are positive, so neither deletes a row then.
unfoldable pub emit_sync_event : String → String → String → M (Unit {0})
unfolding insert_event delete_events
emit_sync_event now node_id kind = do
  new_id ← execute (insert_event now node_id kind)
  if nat_eq (new_id % sync_events_trim_every) 0
      then execute (delete_events (new_id - sync_events_keep))
      else pure tt

-- What `emit_sync_event` leaves when its statements succeed.
abbrev pub emitted : String → String → String → Tables → Tables
emitted now node_id kind t =
    let event : SyncEvent = record {
      id = suc t.sync_events_seq;
      node_id = node_id;
      kind = kind;
      created_at = now;
    } in
    let all : List SyncEvent = t.sync_events ++ event ∷ [] in
    record t {
      sync_events =
          if nat_eq (suc t.sync_events_seq % sync_events_trim_every) 0
          then delete_where (λ e. leb e.id (suc t.sync_events_seq - sync_events_keep)) all
          else all;
      sync_events_seq = suc t.sync_events_seq;
    }

abbrev pub max_id : List SyncEvent → ℕ
max_id [] = 0
max_id (e ∷ es) = max e.id (max_id es)

-- COALESCE(MAX(id), 0)
unfoldable pub latest_id : M ℕ
latest_id = or_raise (query (λ t. max_id t.sync_events)) "查询 sync_events 游标失败"

-- WHERE id > last_id ORDER BY id LIMIT limit
unfoldable pub events_since : ℕ → ℕ → List SyncEvent → List SyncEvent
events_since last_id limit events =
    take limit (sort_by (λ a b. leb a.id b.id) (select (λ e. ltb last_id e.id) events))

unfoldable pub fetch_since : ℕ → ℕ → M (List SyncEvent)
unfolding events_since
fetch_since last_id limit =
    or_raise (query (λ t. events_since last_id limit t.sync_events)) "查询 sync_events 失败"
