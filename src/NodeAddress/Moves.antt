-- ===== src/NodeAddress/Moves.antt =====
-- Moving the peers of one partition to another.
use dn42_utils.Base.{
  suc, String, ◌≡◌, refl, ap, sym, ◌∙◌, subst, arith, true, false, List, [], ◌∷◌, any, update_where,
  ◌==◌,
}
use dn42_utils.Constants.{sync_event_desired}
use dn42_utils.Database.Schema.{Tables, BgpRow, IbgpRow}
use dn42_utils.Database.Events.{emit_sync_event, emitted}
use dn42_utils.Database.Events.Queue.{is_event, emitted-fresh}
use dn42_utils.Database.Connection.{M, Connection, Outcome, ok, raised, execute, commit, ◌>>=◌}
use dn42_utils.Database.Connection.Atomic.{
  IsAtomic, IsClosed, Settled, Finishing, Ending, Ending-Finishing, Settled-handle,
  transaction_rules,
}
use dn42_utils.Database.Connection.Inversion.{handle-abort-eq-ok}
use dn42_utils.Database.Peers.Atomic.{emit_sync_event-Pending}
use dn42_utils.NodeAddress.{or_refuse}
use dn42_utils.NodeAddress.Adopt.{move_partition, move_rows, move_bgp_row, move_ibgp_row}

or_refuse-IsAtomic :
    {A : Type 0} (m : M A) (message : String) → Ending m → IsAtomic (or_refuse m message)
unfolding or_refuse
or_refuse-IsAtomic m message fm = record {
  at = λ c h. Settled-handle _ c.committed (m c).0 (m c).1 (fm.at c h);
}

or_refuse-eq-ok :
    {A : Type 0} (m : M A) (message : String) (c : Connection) {a : A}
    → (or_refuse m message c).0 ≡ ok a
    → ((m c).0 ≡ ok a) × ((or_refuse m message c).1 ≡ (m c).1)
unfolding or_refuse
or_refuse-eq-ok m message c h = handle-abort-eq-ok _ (m c).0 (m c).1 h

move_rows-Finishing : (now target source : String) → Finishing (move_rows now target source)
move_rows-Finishing now target source = search (transaction_rules, emit_sync_event-Pending) depth 12

pub move_partition-IsAtomic :
    (now target source : String) → IsAtomic (move_partition now target source)
unfolding move_partition
move_partition-IsAtomic now target source =
    or_refuse-IsAtomic (move_rows now target source) _
      (Ending-Finishing _ (move_rows-Finishing now target source))

-- The tables with the peers of one partition under another node.
abbrev pub moved_rows : String → String → Tables → Tables
moved_rows target source t = record t {
  bgp_peers = update_where (λ (r : BgpRow). r.node_id == source) (move_bgp_row target) t.bgp_peers;
  ibgp_peers =
      update_where (λ (r : IbgpRow). r.node_id == source) (move_ibgp_row target) t.ibgp_peers;
}

move_rows-effect :
    (now target source : String) (c : Connection)
    → (move_rows now target source c).0 ≡ ok tt
    → (move_rows now target source c).1.committed
      ≡ emitted now target sync_event_desired (moved_rows target source c.working)
unfolding emit_sync_event ◌>>=◌ execute commit
move_rows-effect now target source c h = ground arith

any-moved_bgp :
    (target source : String) (rs : List BgpRow)
    → (target == source) ≡ false
    → any
        (λ (r : BgpRow). r.node_id == source)
        (update_where (λ (r : BgpRow). r.node_id == source) (move_bgp_row target) rs)
      ≡ false
any-moved_bgp target source [] apart = refl
any-moved_bgp target source (r ∷ rs) apart =
    ground (arith, any-moved_bgp target source rs apart, apart)

any-moved_ibgp :
    (target source : String) (rs : List IbgpRow)
    → (target == source) ≡ false
    → any
        (λ (r : IbgpRow). r.node_id == source)
        (update_where (λ (r : IbgpRow). r.node_id == source) (move_ibgp_row target) rs)
      ≡ false
any-moved_ibgp target source [] apart = refl
any-moved_ibgp target source (r ∷ rs) apart =
    ground (arith, any-moved_ibgp target source rs apart, apart)

-- Nothing is left of the partition, and the other node has an event with a new id.
abbrev pub Moved : String → String → Tables → Tables → Type 0
Moved target source before after =
    (any (λ (r : BgpRow). r.node_id == source) after.bgp_peers ≡ false)
    × (any (λ (r : IbgpRow). r.node_id == source) after.ibgp_peers ≡ false)
    × (any (is_event (suc before.sync_events_seq) target sync_event_desired) after.sync_events
        ≡ true)

Moved-emitted :
    (now target source : String) (t : Tables)
    → (target == source) ≡ false
    → Moved target source t (emitted now target sync_event_desired (moved_rows target source t))
Moved-emitted now target source t apart = (
  any-moved_bgp target source t.bgp_peers apart,
  any-moved_ibgp target source t.ibgp_peers apart,
  emitted-fresh now target sync_event_desired (moved_rows target source t),
)

-- The same after a call that returns; after one that raises, what was committed before.
abbrev pub MovedOrKept : String → String → Tables → Outcome (Unit {0}) → Connection → Type 0
MovedOrKept target source before (ok a) c = Moved target source before c.committed
MovedOrKept target source before (raised e) c = c.committed ≡ before

-- On a connection with no open transaction, a move of the peers of one node to another, whichever
-- statement fails, leaves what was committed before when it raises; when it returns, no peer of
-- the first node is left and an event tells the other under a new id.
pub move_partition-Moved :
    (now target source : String) (c : Connection)
    → IsClosed c
    → (target == source) ≡ false
    → MovedOrKept target source c.committed
        (move_partition now target source c).0
        (move_partition now target source c).1
unfolding or_refuse move_partition
move_partition-Moved now target source c closed apart =
    go (move_partition now target source c).0 refl
      ((move_partition-IsAtomic now target source).at c closed)
  where
    go :
        (o : Outcome (Unit {0}))
        → (move_partition now target source c).0 ≡ o
        → Settled c.committed
            (move_partition now target source c).0
            (move_partition now target source c).1
        → MovedOrKept target source c.committed
            (move_partition now target source c).0
            (move_partition now target source c).1
    go (raised e) ran settled = rw ran (rw ran at settled).1
    go (ok a) ran settled =
        let (inside, same) = or_refuse-eq-ok (move_rows now target source) _ c ran in
        let effect =
          ap (λ (d : Connection). d.committed) same ∙ move_rows-effect now target source c inside in
        rw ran (
          subst (Moved target source c.committed)
            (sym (
              effect
              ∙ ap (λ t. emitted now target sync_event_desired (moved_rows target source t))
                  closed))
            (Moved-emitted now target source c.committed apart))
