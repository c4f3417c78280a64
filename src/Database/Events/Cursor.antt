-- ===== src/Database/Events/Cursor.antt =====
-- A reader that keeps the highest id it has seen reads every event once, batch by batch.
use dn42_utils.Base.{
  ℕ, zero, suc, ◌≤◌, max, ◌≡◌, ◌≢◌, refl, ap, sym, ◌∙◌, List, [], ◌∷◌, ◌++◌, Bool, false, arith,
  leb, ltb, select, take, drop, insert_by, sort_by, take-append-drop, Bool-cases, inl, inr,
}
use dn42_utils.Database.Schema.{SyncEvent}
use dn42_utils.Database.Events.{events_since, max_id}
use dn42_utils.Database.Events.Queue.{Ascends}

abbrev after : ℕ → List SyncEvent → List SyncEvent
after last es = select (λ e. ltb last e.id) es

abbrev by_id : SyncEvent → SyncEvent → Bool
by_id a b = leb a.id b.id

after_of_le :
    (low high last : ℕ) (es : List SyncEvent)
    → Ascends low es high
    → last ≤ low
    → after last es ≡ es
after_of_le low high last [] h le = refl
after_of_le low high last (e ∷ es) h le = ground (arith, after_of_le e.id high last es h.1)

insert_by-le :
    (high : ℕ) (e : SyncEvent) (es : List SyncEvent)
    → Ascends e.id es high
    → insert_by by_id e es ≡ e ∷ es
insert_by-le high e [] h = refl
insert_by-le high e (x ∷ es) h = ground arith

-- ORDER BY id changes nothing on a queue.
sort_by-Ascends : (low high : ℕ) (es : List SyncEvent) → Ascends low es high → sort_by by_id es ≡ es
sort_by-Ascends low high [] h = refl
sort_by-Ascends low high (e ∷ es) h =
    rw (sort_by-Ascends e.id high es h.1) (insert_by-le high e es h.1)

Ascends-lower :
    (low low' high : ℕ) (es : List SyncEvent)
    → low' ≤ low
    → Ascends low es high
    → Ascends low' es high
Ascends-lower low low' high [] le h = omega arith
Ascends-lower low low' high (e ∷ es) le h = (omega arith, h.1)

Ascends-after :
    (low high last : ℕ) (es : List SyncEvent)
    → Ascends low es high
    → Ascends low (after last es) high
Ascends-after low high last [] h = h
Ascends-after low high last (e ∷ es) h = elim (Bool-cases (ltb last e.id)) [
  | inl new ↦ rw new (h.0, Ascends-after e.id high last es h.1)
  | inr old ↦
      rw old (Ascends-lower e.id low high _ (omega arith) (Ascends-after e.id high last es h.1))
]

after-after : (last k : ℕ) (es : List SyncEvent) → last ≤ k → after k (after last es) ≡ after k es
after-after last k [] le = refl
after-after last k (e ∷ es) le = ground (arith, after-after last k es le)

after_batch :
    (low high n : ℕ) (es : List SyncEvent)
    → Ascends low es high
    → after (max low (max_id (take n es))) es ≡ drop n es
after_batch low high zero es h = after_of_le low high (max low 0) es h (omega arith)
after_batch low high (suc n) [] h = refl
after_batch low high (suc n) (e ∷ es) h =
    let top : max low (max e.id (max_id (take n es))) ≡ max e.id (max_id (take n es)) =
      omega arith in
    let old : ltb (max low (max e.id (max_id (take n es)))) e.id ≡ false = ground arith in
    rw old (ap (λ k. after k es) top ∙ after_batch e.id high n es h.1)

-- The events after the cursor come first in the batch.
le-max_id :
    (last n : ℕ) (es : List SyncEvent)
    → take n (after last es) ≢ []
    → last ≤ max_id (take n (after last es))
le-max_id last zero es h = absurd (h refl)
le-max_id last (suc n) [] h = absurd (h refl)
le-max_id last (suc n) (e ∷ es) h = elim (Bool-cases (ltb last e.id)) [
  | inl new ↦ rw new (ground arith)
  | inr old ↦ rw old (le-max_id last (suc n) es (rw old at h))
]

-- A batch is the first of the events that were not seen.
pub events_since-take :
    (high last limit : ℕ) (es : List SyncEvent)
    → Ascends 0 es high
    → events_since last limit es ≡ take limit (after last es)
unfolding events_since
events_since-take high last limit es h =
    rw (sort_by-Ascends 0 high (after last es) (Ascends-after 0 high last es h))

-- On a queue with ascending ids, the events that a reader has not seen are its next batch, unless
-- that is empty, followed by those that it has not seen from the highest id of the batch on: none
-- is skipped and none comes twice.
pub events_since_complete :
    (high last limit : ℕ) (es : List SyncEvent)
    → Ascends 0 es high
    → events_since last limit es ≢ []
    → select (λ (e : SyncEvent). ltb last e.id) es
      ≡ events_since last limit es
        ++ select (λ (e : SyncEvent). ltb (max_id (events_since last limit es)) e.id) es
unfolding events_since
events_since_complete high last limit es h some_left =
    let sorted : sort_by by_id (after last es) ≡ after last es =
      sort_by-Ascends 0 high (after last es) (Ascends-after 0 high last es h) in
    let some : take limit (after last es) ≢ [] = rw sorted at some_left in
    let le = le-max_id last limit es some in
    let left : max 0 (max_id (take limit (after last es))) ≡ max_id (take limit (after last es)) =
      omega arith in
    rw
      (
        sorted,
        ← after-after last (max_id (take limit (after last es))) es le,
        ← left,
        after_batch 0 high limit (after last es) (Ascends-after 0 high last es h),
      )
      (sym (take-append-drop limit (after last es)))
