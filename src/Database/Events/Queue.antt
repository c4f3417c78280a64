-- ===== src/Database/Events/Queue.antt =====
-- The change queue keeps its order: ids are fresh, and trimming spares the newest.
use dn42_utils.Base.{
  ℕ, suc, ◌-◌, ◌%◌, ◌≤◌, ◌<◌, String, ◌≡◌, refl, List, [], ◌∷◌, ◌++◌, Bool, true, false, arith, leb,
  ltb, ◌+◌, nat_eq, delete_where, any, ◌&&◌, ◌==◌, eq_refl, Bool-cases, inl, inr,
}
use dn42_utils.Constants.{sync_events_keep, sync_events_trim_every}
use dn42_utils.Database.Schema.{SyncEvent, Tables}
use dn42_utils.Database.Events.{emitted}

-- Ascending ids, from above `low` up to `high`.
abbrev pub Ascends : ℕ → List SyncEvent → ℕ → Type 0
Ascends low [] high = low ≤ high
Ascends low (e ∷ es) high = (low < e.id) × Ascends e.id es high

-- The queue's invariant: no id is used twice, and the last id given bounds all of them.
abbrev pub IsQueue : Tables → Type 0
IsQueue t = Ascends 0 t.sync_events t.sync_events_seq

pub Ascends-append :
    (low high : ℕ) (es : List SyncEvent) (e : SyncEvent)
    → e.id ≡ suc high
    → Ascends low es high
    → Ascends low (es ++ e ∷ []) (suc high)
Ascends-append low high [] e same h = omega arith
Ascends-append low high (x ∷ es) e same h = (h.0, Ascends-append x.id high es e same h.1)

Ascends-weaken :
    (low low' high : ℕ) (es : List SyncEvent)
    → low' ≤ low
    → Ascends low es high
    → Ascends low' es high
Ascends-weaken low low' high [] le h = omega arith
Ascends-weaken low low' high (e ∷ es) le h = (omega arith, h.1)

pub Ascends-delete_where :
    (p : SyncEvent → Bool) (low high : ℕ) (es : List SyncEvent)
    → Ascends low es high
    → Ascends low (delete_where p es) high
Ascends-delete_where p low high [] h = h
Ascends-delete_where p low high (e ∷ es) h = elim (Bool-cases (p e)) [
  | inl gone ↦
      rw gone
        (Ascends-weaken e.id low high _ (omega arith) (Ascends-delete_where p e.id high es h.1))
  | inr kept ↦ rw kept (h.0, Ascends-delete_where p e.id high es h.1)
]

-- Emitting an event keeps the queue in order, trimming included.
pub emitted-IsQueue :
    (now node_id kind : String) (t : Tables) → IsQueue t → IsQueue (emitted now node_id kind t)
emitted-IsQueue now node_id kind t h =
    elim (Bool-cases (nat_eq (suc t.sync_events_seq % sync_events_trim_every) 0)) [
      | inl trim ↦ rw trim (
          Ascends-delete_where _ 0 (suc t.sync_events_seq) _
            (Ascends-append 0 t.sync_events_seq t.sync_events _ refl h))
      | inr keep ↦ rw keep (Ascends-append 0 t.sync_events_seq t.sync_events _ refl h)
    ]

abbrev pub is_event : ℕ → String → String → SyncEvent → Bool
is_event id node_id kind e = nat_eq e.id id && e.node_id == node_id && e.kind == kind

any-last :
    (p : SyncEvent → Bool) (es : List SyncEvent) (e : SyncEvent)
    → p e ≡ true
    → any p (es ++ e ∷ []) ≡ true
any-last p [] e h = rw h
any-last p (x ∷ es) e h = ground (arith, any-last p es e h)

any-delete_where :
    (p q : SyncEvent → Bool) (es : List SyncEvent)
    → ((e : SyncEvent) → p e ≡ true → q e ≡ false)
    → any p es ≡ true
    → any p (delete_where q es) ≡ true
any-delete_where p q [] apart h = h
any-delete_where p q (e ∷ es) apart h = ground (arith, any-delete_where p q es apart, apart e)

-- The event that was emitted last is in the queue, under a fresh id: trimming never takes it.
pub emitted-fresh :
    (now node_id kind : String) (t : Tables)
    → any (is_event (suc t.sync_events_seq) node_id kind) (emitted now node_id kind t).sync_events
      ≡ true
emitted-fresh now node_id kind t =
    let event : SyncEvent = record {
      id = suc t.sync_events_seq;
      node_id = node_id;
      kind = kind;
      created_at = now;
    } in
    let found : any (is_event (suc t.sync_events_seq) node_id kind) (t.sync_events ++ event ∷ [])
        ≡ true =
      any-last _ t.sync_events event (rw (eq_refl node_id, eq_refl kind) (ground arith)) in
    elim (Bool-cases (nat_eq (suc t.sync_events_seq % sync_events_trim_every) 0)) [
      | inl trim ↦ rw trim (
          any-delete_where (is_event (suc t.sync_events_seq) node_id kind)
            (λ e. leb e.id (suc t.sync_events_seq - sync_events_keep)) _ (λ e h. ground arith)
            found)
      | inr keep ↦ rw keep found
    ]

any-append_right :
    (p : SyncEvent → Bool) (es : List SyncEvent) (e : SyncEvent)
    → any p es ≡ true
    → any p (es ++ e ∷ []) ≡ true
any-append_right p [] e h = cc
any-append_right p (x ∷ es) e h = ground (arith, any-append_right p es e)

-- An event under an id that was not given before.
abbrev pub is_later : ℕ → String → String → SyncEvent → Bool
is_later last node_id kind e = ltb last e.id && e.node_id == node_id && e.kind == kind

any-is_later :
    (last id : ℕ) (node_id kind : String) (es : List SyncEvent)
    → last < id
    → any (is_event id node_id kind) es ≡ true
    → any (is_later last node_id kind) es ≡ true
any-is_later last id node_id kind [] le h = cc
any-is_later last id node_id kind (e ∷ es) le h =
    ground (arith, any-is_later last id node_id kind es le)

-- A later event finds the newest `SYNC_EVENTS_KEEP` ids in place.
pub emitted-keeps :
    (last : ℕ) (node_id kind now other_id other_kind : String) (t : Tables)
    → suc t.sync_events_seq ≤ last + sync_events_keep
    → any (is_later last node_id kind) t.sync_events ≡ true
    → any (is_later last node_id kind) (emitted now other_id other_kind t).sync_events ≡ true
emitted-keeps last node_id kind now other_id other_kind t room h =
    let event : SyncEvent = record {
      id = suc t.sync_events_seq;
      node_id = other_id;
      kind = other_kind;
      created_at = now;
    } in
    let found : any (is_later last node_id kind) (t.sync_events ++ event ∷ []) ≡ true =
      any-append_right _ t.sync_events event h in
    elim (Bool-cases (nat_eq (suc t.sync_events_seq % sync_events_trim_every) 0)) [
      | inl trim ↦ rw trim (
          any-delete_where (is_later last node_id kind)
            (λ e. leb e.id (suc t.sync_events_seq - sync_events_keep)) _ (λ e k. ground arith)
            found)
      | inr keep ↦ rw keep found
    ]

pub emitted-later :
    (last : ℕ) (now node_id kind : String) (t : Tables)
    → last ≤ t.sync_events_seq
    → any (is_later last node_id kind) (emitted now node_id kind t).sync_events ≡ true
emitted-later last now node_id kind t le =
    any-is_later last (suc t.sync_events_seq) node_id kind _ (omega arith)
      (emitted-fresh now node_id kind t)
