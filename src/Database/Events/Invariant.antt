-- ===== src/Database/Events/Invariant.antt =====
-- `emit_sync_event` keeps the queue in order.
use dn42_utils.Base.{ℕ, String, refl, List}
use dn42_utils.Database.Schema.{Tables, SyncEvent}
use dn42_utils.Database.Connection.{execute}
use dn42_utils.Database.Connection.Keeps.{
  Keeps, Keeps-execute, Keeps-bind, Keeps-if, Keeps-pure, keeps_rules,
}
use dn42_utils.Database.Events.{insert_event, delete_events, emit_sync_event}
use dn42_utils.Database.Events.Queue.{IsQueue, Ascends-append, Ascends-delete_where}

insert_event-IsQueue :
    (now node_id kind : String) → Keeps IsQueue (execute (insert_event now node_id kind))
unfolding insert_event
insert_event-IsQueue now node_id kind =
    Keeps-execute _ (λ t h. Ascends-append 0 t.sync_events_seq t.sync_events _ refl h)

delete_events-IsQueue : (last : ℕ) → Keeps IsQueue (execute (delete_events last))
unfolding delete_events
delete_events-IsQueue last =
    Keeps-execute _ (λ t h. Ascends-delete_where _ 0 t.sync_events_seq t.sync_events h)

pub emit_sync_event-IsQueue :
    (now node_id kind : String) → Keeps IsQueue (emit_sync_event now node_id kind)
unfolding emit_sync_event
emit_sync_event-IsQueue now node_id kind =
    search (keeps_rules, insert_event-IsQueue, delete_events-IsQueue)

-- The tables with another queue.
abbrev pub requeue : Tables → List SyncEvent → ℕ → Tables
requeue t events seq = record t { sync_events = events; sync_events_seq = seq }

-- A property that does not read the queue is kept.
pub emit_sync_event-frame :
    {P : Tables → Type 0} (now node_id kind : String)
    → ((t : Tables) (events : List SyncEvent) (seq : ℕ) → P t → P (requeue t events seq))
    → Keeps P (emit_sync_event now node_id kind)
unfolding emit_sync_event
emit_sync_event-frame now node_id kind frame =
    Keeps-bind _ _ (Keeps-execute _ (λ t h. frame t _ _ h))
      (λ id. Keeps-if _ _ _ (Keeps-execute _ (λ t h. frame t _ _ h)) (Keeps-pure tt))
