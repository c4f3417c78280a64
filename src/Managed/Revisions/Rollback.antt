-- ===== src/Managed/Revisions/Rollback.antt =====
-- Histories of snapshots, trims, rollbacks and their removal, with any faults between them.
use dn42_utils.Base.{ℕ, String, Option, none, some, List, [], ◌∷◌}
use dn42_utils.Database.Schema.{ConfigRevision, Content}
use dn42_utils.Database.Connection.{M, Connection}
use dn42_utils.Database.Connection.Atomic.{IsClosed, IsAtomic, or_abort-IsAtomic}
use dn42_utils.Database.Connection.Closes.{
  Closes, Closes-bind, Closes-atomic, closes_rules, Closes-query,
}
use dn42_utils.Database.Peers.Atomic.{write_rules}
use dn42_utils.Managed.Revisions.{
  record_revision, record_row, existing_or, or_missing, read_back, trim, pin, pin_existing, unpin,
}
use dn42_utils.Managed.Revisions.Pins.{
  PinsResolve, record_revision-PinsResolve, trim-PinsResolve, pin-PinsResolve, unpin-PinsResolve,
}

trim-IsAtomic : (node_id : String) (keep : ℕ) → IsAtomic (trim node_id keep)
unfolding trim
trim-IsAtomic node_id keep = or_abort-IsAtomic _ _ (search write_rules depth 8)

unpin-IsAtomic : (now node_id : String) → IsAtomic (unpin now node_id)
unfolding unpin
unpin-IsAtomic now node_id = or_abort-IsAtomic _ _ (search write_rules depth 8)

record_row-IsAtomic :
    (node_id revision at : String) (payload : Content)
    → IsAtomic (record_row node_id revision at payload)
unfolding record_row
record_row-IsAtomic node_id revision at payload = or_abort-IsAtomic _ _ (search write_rules depth 8)

pin_existing-Closes :
    (now node_id revision : String) (o : Option ConfigRevision)
    → Closes (pin_existing now node_id revision o)
pin_existing-Closes now node_id revision none = search closes_rules
pin_existing-Closes now node_id revision (some r) =
    Closes-atomic _ (or_abort-IsAtomic _ _ (search write_rules depth 8))

pin-Closes : (now node_id revision : String) → Closes (pin now node_id revision)
unfolding pin
pin-Closes now node_id revision =
    Closes-bind _ _ (Closes-query _ _) (pin_existing-Closes now node_id revision)

or_missing-Closes : (message : String) (o : Option ConfigRevision) → Closes (or_missing message o)
or_missing-Closes message none = search closes_rules
or_missing-Closes message (some r) = search closes_rules

existing_or-Closes :
    (m : M ConfigRevision) (o : Option ConfigRevision) → Closes m → Closes (existing_or m o)
existing_or-Closes m none h = h
existing_or-Closes m (some r) h = search closes_rules

read_back-Closes : (id : ℕ) (message : String) → Closes (read_back id message)
unfolding read_back
read_back-Closes id message = Closes-bind _ _ (Closes-query _ _) (or_missing-Closes message)

record_revision-Closes :
    (node_id revision at : String) (payload : Content)
    → Closes (record_revision node_id revision at payload)
unfolding record_revision
record_revision-Closes node_id revision at payload = Closes-bind _ _ (Closes-query _ _) (λ o.
    existing_or-Closes _ o (
      Closes-bind _ _ (Closes-atomic _ (record_row-IsAtomic node_id revision at payload))
        (λ id. read_back-Closes id _)))

pub data RevisionCall : Type 0 where
  record_call : String → String → String → Content → RevisionCall
  trim_call : String → ℕ → RevisionCall
  pin_call : String → String → String → RevisionCall
  unpin_call : String → String → RevisionCall

-- The connection after a call, whatever the call answers.
abbrev pub after : RevisionCall → Connection → Connection
after (record_call node_id revision at payload) c =
    (record_revision node_id revision at payload c).1
after (trim_call node_id keep) c = (trim node_id keep c).1
after (pin_call now node_id revision) c = (pin now node_id revision c).1
after (unpin_call now node_id) c = (unpin now node_id c).1

after-PinsResolve :
    (call : RevisionCall) (c : Connection)
    → IsClosed c
    → PinsResolve c.committed
    → PinsResolve (after call c).committed × IsClosed (after call c)
after-PinsResolve (record_call node_id revision at payload) c closed h = (
  ((record_revision-PinsResolve node_id revision at payload).at c (rw closed h) h).1,
  (record_revision-Closes node_id revision at payload).at c closed,
)
after-PinsResolve (trim_call node_id keep) c closed h = (
  ((trim-PinsResolve node_id keep).at c (rw closed h) h).1,
  (Closes-atomic _ (trim-IsAtomic node_id keep)).at c closed,
)
after-PinsResolve (pin_call now node_id revision) c closed h =
    (pin-PinsResolve now node_id revision c closed h, (pin-Closes now node_id revision).at c closed)
after-PinsResolve (unpin_call now node_id) c closed h = (
  ((unpin-PinsResolve now node_id).at c (rw closed h) h).1,
  (Closes-atomic _ (unpin-IsAtomic now node_id)).at c closed,
)

pub after_all : List RevisionCall → Connection → Connection
after_all [] c = c
after_all (call ∷ calls) c = after_all calls (after call c)

-- After any sequence of snapshots, trims, pins and unpins, whichever statements of them fail,
-- every pin that is committed names a snapshot of its node that is there, when no transaction is
-- open and this holds at the start.
pub after_all-PinsResolve :
    (calls : List RevisionCall) (c : Connection)
    → IsClosed c
    → PinsResolve c.committed
    → PinsResolve (after_all calls c).committed
unfolding after_all
after_all-PinsResolve [] c closed h = h
after_all-PinsResolve (call ∷ calls) c closed h =
    let (h', closed') = after-PinsResolve call c closed h in
    after_all-PinsResolve calls (after call c) closed' h'
