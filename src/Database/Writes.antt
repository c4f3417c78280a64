-- ===== src/Database/Writes.antt =====
-- The writes of the peer tables taken together, and histories of them.
use dn42_utils.Base.{
  ℕ, suc, String, ◌≡◌, refl, ap, subst, sym, ◌⊎◌, inl, inr, Option, none, some, List, [], ◌∷◌, any,
  true, Bool, ◌+◌, ◌≤◌, length, arith,
}
use dn42_utils.Constants.{sync_event_desired, sync_events_keep}
use dn42_utils.Database.Schema.{BgpPeerRecord, IbgpPeerRecord, BgpRow, IbgpRow, Tables}
use dn42_utils.Database.Connection.{Connection, Outcome, ok, raised, M, pure, ◌>>◌}
use dn42_utils.Database.Connection.Atomic.{
  IsClosed, IsAtomic, IsAtomic-then_pure, Settled, Settled-IsClosed,
}
use dn42_utils.Database.Connection.Inversion.{>>=-eq-ok}
use dn42_utils.Database.Connection.Keeps.{Keeps}
use dn42_utils.Database.Events.{emitted}
use dn42_utils.Database.Events.Queue.{
  IsQueue, is_event, emitted-fresh, is_later, emitted-keeps, emitted-later,
}
use dn42_utils.Database.Peers.{
  insert_bgp_peer, update_bgp_peer, delete_bgp_peer, insert_ibgp_peer, update_ibgp_peer,
  delete_ibgp_peer, BgpChange, IbgpChange,
}
use dn42_utils.Database.Peers.Atomic.{
  insert_bgp_peer-IsAtomic, update_bgp_peer-IsAtomic, delete_bgp_peer-IsAtomic,
  insert_ibgp_peer-IsAtomic, update_ibgp_peer-IsAtomic, delete_ibgp_peer-IsAtomic,
}
use dn42_utils.Database.Peers.Effects.{
  insert_bgp_peer-effect, update_bgp_peer-effect, delete_bgp_peer-effect, delete_bgp_peer-none,
  insert_ibgp_peer-effect, update_ibgp_peer-effect, delete_ibgp_peer-effect, delete_ibgp_peer-none,
}
use dn42_utils.Database.Peers.Invariant.{queue_rules}

pub data PeerWrite : Type 0 where
  insert_bgp : BgpPeerRecord → PeerWrite
  update_bgp : String → ℕ → BgpChange → PeerWrite
  delete_bgp : String → ℕ → PeerWrite
  insert_ibgp : IbgpPeerRecord → PeerWrite
  update_ibgp : String → String → IbgpChange → PeerWrite
  delete_ibgp : String → String → PeerWrite

-- The node whose desired state the write may change.
abbrev pub target : PeerWrite → String
target (insert_bgp p) = p.node_id
target (update_bgp n k u) = n
target (delete_bgp n k) = n
target (insert_ibgp p) = p.node_id
target (update_ibgp n k u) = n
target (delete_ibgp n k) = n

abbrev pub run : String → PeerWrite → M (Unit {0})
run now (insert_bgp p) = insert_bgp_peer now p
run now (update_bgp n k u) = update_bgp_peer now n k u
run now (delete_bgp n k) = delete_bgp_peer now n k >> pure tt
run now (insert_ibgp p) = insert_ibgp_peer now p
run now (update_ibgp n k u) = update_ibgp_peer now n k u
run now (delete_ibgp n k) = delete_ibgp_peer now n k >> pure tt

pub run-IsAtomic : (now : String) (w : PeerWrite) → IsAtomic (run now w)
run-IsAtomic now (insert_bgp p) = insert_bgp_peer-IsAtomic now p
run-IsAtomic now (update_bgp n k u) = update_bgp_peer-IsAtomic now n k u
run-IsAtomic now (delete_bgp n k) = IsAtomic-then_pure _ tt (delete_bgp_peer-IsAtomic now n k)
run-IsAtomic now (insert_ibgp p) = insert_ibgp_peer-IsAtomic now p
run-IsAtomic now (update_ibgp n k u) = update_ibgp_peer-IsAtomic now n k u
run-IsAtomic now (delete_ibgp n k) = IsAtomic-then_pure _ tt (delete_ibgp_peer-IsAtomic now n k)

-- On a connection with no open transaction, whichever statements of a peer write fail, it leaves
-- no transaction open, and a write that raises has changed nothing that is committed.
pub run-Settled :
    (now : String) (w : PeerWrite) (c : Connection)
    → IsClosed c
    → Settled c.committed (run now w c).0 (run now w c).1
run-Settled now w c closed = (run-IsAtomic now w).at c closed

run-IsQueue : (now : String) (w : PeerWrite) → Keeps IsQueue (run now w)
run-IsQueue now (insert_bgp p) = search queue_rules
run-IsQueue now _ = search queue_rules

-- Nothing has changed, or the queue holds a new event for the node.
abbrev pub Told : String → Tables → Tables → Type 0
Told node_id before after =
    (after ≡ before)
    ⊎ (any (is_event (suc before.sync_events_seq) node_id sync_event_desired) after.sync_events
        ≡ true)

-- Nothing has changed, or an event for the node was emitted after changes of the other tables.
abbrev Queued : String → String → Tables → Tables → Type 0
Queued now node_id before after =
    (after ≡ before)
    ⊎ ((t : Tables) × (t.sync_events_seq ≡ before.sync_events_seq)
        × (t.sync_events ≡ before.sync_events)
        × (after ≡ emitted now node_id sync_event_desired t))

Told-Queued :
    (now node_id : String) (before after : Tables)
    → Queued now node_id before after
    → Told node_id before after
Told-Queued now node_id before after (inl same) = inl same
Told-Queued now node_id before after (inr (t, seq, events, e)) =
    let events = (emitted now node_id sync_event_desired t).sync_events in
    inr (
      rw e (
        subst (λ k. any (is_event (suc k) node_id sync_event_desired) events ≡ true) seq
          (emitted-fresh now node_id sync_event_desired t)))

Queued-then_pure :
    {A : Type 0} (m : M A) (c : Connection) (now node_id : String)
    → ((a : A) → (m c).0 ≡ ok a → Queued now node_id c.committed (m c).1.committed)
    → ((m >> pure tt) c).0 ≡ ok tt
    → Queued now node_id c.committed ((m >> pure tt) c).1.committed
unfolding pure
Queued-then_pure m c now node_id queued h =
    let (a, ran, _, same) = >>=-eq-ok m _ c h in
    subst (Queued now node_id c.committed) (sym (ap (λ (d : Connection). d.committed) same))
      (queued a ran)

module _ (now : String) (c : Connection) (closed : IsClosed c) where
  deleted_bgp :
      (n : String) (k : ℕ) (o : Option BgpRow)
      → (delete_bgp_peer now n k c).0 ≡ ok o
      → Queued now n c.committed (delete_bgp_peer now n k c).1.committed
  deleted_bgp n k none h = inl (delete_bgp_peer-none now n c k h)
  deleted_bgp n k (some row) h = inr (_, refl, refl, delete_bgp_peer-effect now c closed n k row h)

  deleted_ibgp :
      (n k : String) (o : Option IbgpRow)
      → (delete_ibgp_peer now n k c).0 ≡ ok o
      → Queued now n c.committed (delete_ibgp_peer now n k c).1.committed
  deleted_ibgp n k none h = inl (delete_ibgp_peer-none now n c k h)
  deleted_ibgp n k (some row) h =
      inr (_, refl, refl, delete_ibgp_peer-effect now c closed n k row h)

  run-Queued :
      (w : PeerWrite)
      → (run now w c).0 ≡ ok tt
      → Queued now (target w) c.committed (run now w c).1.committed
  run-Queued (insert_bgp p) h = inr (_, refl, refl, insert_bgp_peer-effect now c closed p h)
  run-Queued (update_bgp n k u) h = inr (_, refl, refl, update_bgp_peer-effect now c closed n k u h)
  run-Queued (delete_bgp n k) h =
      Queued-then_pure (delete_bgp_peer now n k) c now n (deleted_bgp n k) h
  run-Queued (insert_ibgp p) h = inr (_, refl, refl, insert_ibgp_peer-effect now c closed p h)
  run-Queued (update_ibgp n k u) h =
      inr (_, refl, refl, update_ibgp_peer-effect now c closed n k u h)
  run-Queued (delete_ibgp n k) h =
      Queued-then_pure (delete_ibgp_peer now n k) c now n (deleted_ibgp n k) h

  -- A write of a peer table that returns, on a connection with no open transaction, either has
  -- changed nothing that is committed or has queued, with the same commit, a change event for its
  -- node under an id that was never given before.
  pub run-Told :
      (w : PeerWrite)
      → (run now w c).0 ≡ ok tt
      → Told (target w) c.committed (run now w c).1.committed
  run-Told w h = Told-Queued now (target w) c.committed _ (run-Queued w h)

-- Calls in sequence on one connection, whatever each of them answers.
pub run_all : List (String × PeerWrite) → Connection → Connection
run_all [] c = c
run_all ((now, w) ∷ ws) c = run_all ws (run now w c).1

abbrev is_told : ℕ → String → Tables → Bool
is_told last node_id t = any (is_later last node_id sync_event_desired) t.sync_events

-- One more id is given at most, and an event among the newest `SYNC_EVENTS_KEEP` stays.
Queued-keeps :
    (last : ℕ) (now other node_id : String) (before after : Tables)
    → suc before.sync_events_seq ≤ last + sync_events_keep
    → Queued now other before after
    → is_told last node_id before ≡ true
    → (after.sync_events_seq ≤ suc before.sync_events_seq) × (is_told last node_id after ≡ true)
Queued-keeps last now other node_id before after room (inl same) h = rw same (omega arith, h)
Queued-keeps last now other node_id before after room (inr (t, seq, events, e)) h = rw e (
  omega arith,
  emitted-keeps last node_id sync_event_desired now other sync_event_desired t (omega arith)
      (rw events h),
)

run_keeps :
    (last : ℕ) (now node_id : String) (w : PeerWrite) (c : Connection)
    → IsClosed c
    → suc c.committed.sync_events_seq ≤ last + sync_events_keep
    → is_told last node_id c.committed ≡ true
    → ((run now w c).1.committed.sync_events_seq ≤ suc c.committed.sync_events_seq)
      × (is_told last node_id (run now w c).1.committed ≡ true)
run_keeps last now node_id w c closed room h = go (run now w c).0 refl
  where
    go :
        (o : Outcome (Unit {0}))
        → (run now w c).0 ≡ o
        → ((run now w c).1.committed.sync_events_seq ≤ suc c.committed.sync_events_seq)
          × (is_told last node_id (run now w c).1.committed ≡ true)
    go (ok a) ran =
        Queued-keeps last now (target w) node_id c.committed _ room (run-Queued now c closed w ran)
          h
    go (raised e) ran =
        let settled : Settled {A = Unit {0}} c.committed (raised e) (run now w c).1 =
          rw ran at ((run-IsAtomic now w).at c closed) in
        rw settled.1 (omega arith, h)

run_all_keeps :
    (last : ℕ) (node_id : String) (ws : List (String × PeerWrite)) (c : Connection)
    → IsClosed c
    → c.committed.sync_events_seq + length ws ≤ last + sync_events_keep
    → is_told last node_id c.committed ≡ true
    → is_told last node_id (run_all ws c).committed ≡ true
unfolding run_all
run_all_keeps last node_id [] c closed room h = h
run_all_keeps last node_id ((now, w) ∷ ws) c closed room h =
    let (seq, told) = run_keeps last now node_id w c closed (omega arith) h in
    run_all_keeps last node_id ws (run now w c).1
      (Settled-IsClosed _ _ _ ((run-IsAtomic now w).at c closed)) (omega arith) told

-- A peer write that returns, on a connection with no open transaction, either has changed nothing
-- that is committed, or its node's event is still in the committed queue, above the last id given
-- before the write, after up to 999 further peer writes, whatever these are and whichever of their
-- statements fail.
pub run_all_tells :
    (now : String) (w : PeerWrite) (ws : List (String × PeerWrite)) (c : Connection)
    → IsClosed c
    → (run now w c).0 ≡ ok tt
    → suc (length ws) ≤ sync_events_keep
    → ((run now w c).1.committed ≡ c.committed)
      ⊎ (any
            (is_later c.committed.sync_events_seq (target w) sync_event_desired)
            (run_all ws (run now w c).1).committed.sync_events
          ≡ true)
run_all_tells now w ws c closed ran room = go (run-Queued now c closed w ran)
  where
    go :
        Queued now (target w) c.committed (run now w c).1.committed
        → ((run now w c).1.committed ≡ c.committed)
          ⊎ (any
                (is_later c.committed.sync_events_seq (target w) sync_event_desired)
                (run_all ws (run now w c).1).committed.sync_events
              ≡ true)
    go (inl same) = inl same
    go (inr (t, seq, events, e)) =
        let last = c.committed.sync_events_seq in
        inr (
          run_all_keeps last (target w) ws (run now w c).1
            (Settled-IsClosed _ _ _ ((run-IsAtomic now w).at c closed)) (rw e (omega arith))
            (rw e (emitted-later last now (target w) sync_event_desired t (omega arith))))

-- After any peer writes on a connection with no open transaction, whatever their faults, the
-- committed queue has ascending ids, none above the last one given, when this holds of both tables
-- at the start.
run_all-IsQueue :
    (ws : List (String × PeerWrite)) (c : Connection)
    → IsClosed c
    → IsQueue c.working
    → IsQueue c.committed
    → IsQueue (run_all ws c).committed
unfolding run_all
run_all-IsQueue [] c closed w k = k
run_all-IsQueue ((now, x) ∷ ws) c closed w k =
    let (w', k') = (run-IsQueue now x).at c w k in
    run_all-IsQueue ws (run now x c).1 (Settled-IsClosed _ _ _ ((run-IsAtomic now x).at c closed))
      w' k'
