-- ===== src/Hub/Watcher/CatchUp.antt =====
-- The watcher sees every event once, and catches up with a queue that stands still.
use dn42_utils.Base.{
  ℕ, zero, suc, ◌+◌, ◌*◌, ◌≤◌, ◌≡◌, ◌≢◌, refl, ap, sym, ◌∙◌, arith, Option, some, List, [], ◌∷◌,
  ◌++◌, ltb, length, take, select, length-append, inl, inr, ◌⊎◌,
}
use dn42_utils.Database.Schema.{SyncEvent, Tables}
use dn42_utils.Database.Connection.{
  Connection, Outcome, ok, raised, pure, closing, rollback, or_raise, execute, ◌>>=◌,
}
use dn42_utils.Database.Connection.Atomic.{IsClosed, Reading, Reading-query}
use dn42_utils.Database.Connection.Reads.{Reading-bind, Reading-pure, Reading-closing}
use dn42_utils.Database.Connection.Inversion.{>>=-eq-ok, or_raise-query-eq-ok, ok_injective}
use dn42_utils.Database.Events.{fetch_since, events_since}
use dn42_utils.Database.Events.Queue.{IsQueue}
use dn42_utils.Database.Events.Cursor.{events_since_complete, events_since-take}
use dn42_utils.Hub.Watcher.{Watcher, watcher_batch, read_round, next_cursor, tick, react}

abbrev pub unseen : ℕ → Tables → List SyncEvent
unseen last t = select (λ (e : SyncEvent). ltb last e.id) t.sync_events

-- The rounds in sequence: the watcher, the connection, and the events of all of them.
pub ticks : ℕ → Watcher → Connection → Watcher × Connection × List SyncEvent
ticks zero w c = (w, c, [])
ticks (suc n) w c =
    let (w', c', events) = tick w c in
    let (w'', c'', rest) = ticks n w' c' in (w'', c'', events ++ rest)

events_since-next :
    (last : ℕ) (t : Tables) (events : List SyncEvent)
    → IsQueue t
    → events_since last watcher_batch t.sync_events ≡ events
    → unseen last t ≡ events ++ unseen (next_cursor last events) t
events_since-next last t [] q same = refl
events_since-next last t (e ∷ es) q same =
    let some_left : events_since last watcher_batch t.sync_events ≢ [] = λ h. cc in
    rw same at
      (events_since_complete t.sync_events_seq last watcher_batch t.sync_events q some_left)

-- What a round does that starts at a cursor.
abbrev Advances : ℕ → Watcher × Connection × List SyncEvent → Connection → Type 0
Advances last (w, c', events) c =
    (next : ℕ) × (w.last_id ≡ some next)
    × (unseen last c.committed ≡ events ++ unseen next c.committed)
    × (c'.committed ≡ c.committed)
    × IsClosed c'

read_round-Reading : (last : ℕ) → Reading (read_round (some last))
unfolding fetch_since
read_round-Reading last = Reading-bind _ _ (Reading-query _ _) (λ events. Reading-pure _)

read_round-eq-ok :
    (last : ℕ) (c : Connection) (cursor : Option ℕ) (events : List SyncEvent)
    → (read_round (some last) c).0 ≡ ok (cursor, events)
    → (events_since last watcher_batch c.working.sync_events ≡ events)
      × (cursor ≡ some (next_cursor last events))
unfolding fetch_since pure
read_round-eq-ok last c cursor events h =
    let (es, ran, h1, _) = >>=-eq-ok (fetch_since last watcher_batch) _ c h in
    let fetched : events_since last watcher_batch c.working.sync_events ≡ es =
      or_raise-query-eq-ok _ _ c ran in
    let same : (some (next_cursor last es), es) ≡ (cursor, events) = ok_injective _ _ h1 in
    (
      fetched ∙ ap (λ p. p.1) same,
      sym (ap (λ p. p.0) same) ∙ ap (λ k. some (next_cursor last k)) (ap (λ p. p.1) same),
    )

tick-Advances :
    (last : ℕ) (w : Watcher) (c : Connection)
    → IsClosed c
    → IsQueue c.committed
    → w.last_id ≡ some last
    → Advances last (tick w c) c
unfolding tick react closing
tick-Advances last w c closed q at = go (read_round (some last) c).0 refl
  where
    kept :
        ((closing (read_round (some last)) c).1.committed ≡ c.committed)
        × IsClosed (closing (read_round (some last)) c).1
    kept = Reading-closing (read_round (some last)) c (read_round-Reading last)

    go :
        (o : Outcome (Option ℕ × List SyncEvent))
        → (read_round (some last) c).0 ≡ o
        → Advances last (tick w c) c
    go (raised e) got = rw (at, got) (last, refl, refl, kept.0, kept.1)
    go (ok (cursor, events)) got =
        let (fetched, moved) = read_round-eq-ok last c cursor events got in
        rw (at, got)
          (
            next_cursor last events,
            moved,
            events_since-next last c.committed events q (
                ap (λ (t : Tables). events_since last watcher_batch t.sync_events) (sym closed)
                ∙ fetched),
            kept.0,
            kept.1,
          )

append_assoc : {A : Type 0} (xs ys zs : List A) → (xs ++ ys) ++ zs ≡ xs ++ (ys ++ zs)
append_assoc [] ys zs = refl
append_assoc (x ∷ xs) ys zs = rw (append_assoc xs ys zs)

-- Over any number of rounds on a queue that stands still, with no transaction open and whichever
-- reads fail, the events that the watcher has reacted to, followed by those after its cursor, are
-- those that were after its cursor at the start: it skips none and takes none twice.
pub ticks_advance :
    (n last : ℕ) (w : Watcher) (c : Connection)
    → IsClosed c
    → IsQueue c.committed
    → w.last_id ≡ some last
    → (next : ℕ) × ((ticks n w c).0.last_id ≡ some next)
      × (unseen last c.committed ≡ (ticks n w c).2 ++ unseen next c.committed)
unfolding ticks
ticks_advance zero last w c closed q at = (last, at, refl)
ticks_advance (suc n) last w c closed q at =
    let (mid, at', step, kept, closed') = tick-Advances last w c closed q at in
    let (next, at'', rest) =
      ticks_advance n mid (tick w c).0 (tick w c).1 closed' (rw kept q) at' in
    (
      next,
      at'',
      step
          ∙ ap (λ k. (tick w c).2 ++ k)
              (ap (unseen mid) (sym kept)
                ∙ rest
                ∙ ap (λ t. (ticks n (tick w c).0 (tick w c).1).2 ++ unseen next t) kept)
          ∙ sym (append_assoc (tick w c).2 _ _),
    )

tick-no_fault :
    (last : ℕ) (w : Watcher) (c : Connection)
    → IsClosed c
    → c.faults ≡ []
    → w.last_id ≡ some last
    → ((tick w c).2 ≡ events_since last watcher_batch c.committed.sync_events)
      × ((tick w c).1.faults ≡ [])
unfolding tick react closing rollback fetch_since ◌>>=◌ or_raise execute pure
tick-no_fault last w c closed none_fails at = rw (at, ← closed) (ground arith)

length-take_or :
    {A : Type 0} (k : ℕ) (xs : List A) → (length (take k xs) ≡ length xs) ⊎ (length (take k xs) ≡ k)
length-take_or zero xs = inr refl
length-take_or (suc k) [] = inl refl
length-take_or (suc k) (x ∷ xs) = ground (arith, length-take_or k xs)

length-rest :
    {A : Type 0} (k m : ℕ) (xs ys : List A)
    → xs ≡ take k xs ++ ys
    → length xs ≤ m + k
    → length ys ≤ m
length-rest k m xs ys split le =
    let count : length xs ≡ length (take k xs) + length ys =
      ap length split ∙ length-append (take k xs) ys in
    elim (length-take_or k xs) [ inl all ↦ omega arith | inr full ↦ omega arith ]

nil-of-length : {A : Type 0} (xs : List A) → length xs ≤ 0 → xs ≡ []
nil-of-length [] h = refl
nil-of-length (x ∷ xs) h = ground arith

-- Rounds that do not fail catch up with a queue that stands still, with no transaction open: when
-- at most 500 events for each round are after the cursor, the watcher reacts to exactly these.
pub ticks_catch_up :
    (n last : ℕ) (w : Watcher) (c : Connection)
    → IsClosed c
    → c.faults ≡ []
    → IsQueue c.committed
    → w.last_id ≡ some last
    → length (unseen last c.committed) ≤ n * watcher_batch
    → (ticks n w c).2 ≡ unseen last c.committed
unfolding ticks
ticks_catch_up zero last w c closed works q at le =
    sym (nil-of-length (unseen last c.committed) (omega arith))
ticks_catch_up (suc n) last w c closed works q at le =
    let (mid, at', step, kept, closed') = tick-Advances last w c closed q at in
    let (batch, works') = tick-no_fault last w c closed works at in
    let first : (tick w c).2 ≡ take watcher_batch (unseen last c.committed) =
      batch
      ∙ events_since-take c.committed.sync_events_seq last watcher_batch c.committed.sync_events
          q in
    let short : length (unseen mid c.committed) ≤ n * watcher_batch =
      length-rest watcher_batch (n * watcher_batch) (unseen last c.committed)
        (unseen mid c.committed) (rw first at step) (omega arith) in
    let rest =
      ticks_catch_up n mid (tick w c).0 (tick w c).1 closed' works' (rw kept q) at'
        (rw kept short) in
    ap (λ k. (tick w c).2 ++ k) (rest ∙ ap (unseen mid) kept) ∙ sym step
