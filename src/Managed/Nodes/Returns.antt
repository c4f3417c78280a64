-- ===== src/Managed/Nodes/Returns.antt =====
-- When `_update_fields` returns.
use dn42_utils.Base.{
  String, ◌≡◌, refl, arith, Bool, true, List, [], ◌∷◌, any, false, length, select, nat_eq,
}
use dn42_utils.Database.Schema.{ManagedNode, Tables}
use dn42_utils.Database.Events.{emit_sync_event}
use dn42_utils.Database.Connection.{
  M, Statement, done, later_faults, Connection, ok, execute, commit, pure, or_abort, ◌>>=◌, ◌>>◌,
}
use dn42_utils.Database.Connection.Quiet.{no_fault, no_fault-parts}
use dn42_utils.Database.Connection.Atomic.{IsClosed}
use dn42_utils.Managed.Nodes.{is_node}
use dn42_utils.Managed.Nodes.Fields.{
  write_fields, NodeFields, PropagatedChange, write_changes, write_change, emit_all,
}
use dn42_utils.Managed.Nodes.Effects.{changed}

Returns-execute :
    (s : Statement (Unit {0})) (t : Tables) (c : Connection)
    → s c.working ≡ done tt t
    → no_fault c.faults ≡ true
    → ((execute s c).0 ≡ ok tt) × (no_fault (execute s c).1.faults ≡ true)
unfolding execute
Returns-execute s t c ran live =
    let (this, later) = no_fault-parts c.faults live in rw (this, ran) (refl, later)

-- A call that returns when no statement fails.
record Returns (m : M (Unit {0})) : Type 0 where
  at :
      (c : Connection)
      → no_fault c.faults ≡ true
      → ((m c).0 ≡ ok tt) × (no_fault (m c).1.faults ≡ true)

Returns-pure : Returns (pure tt)
unfolding pure
Returns-pure = record { at = λ c live. (refl, live) }

Returns-then : (m n : M (Unit {0})) → Returns m → Returns n → Returns (m >>= λ _. n)
unfolding ◌>>=◌
Returns-then m n rm rn = record {
  at = λ c live. let (ran, live') = rm.at c live in rw ran (rn.at (m c).1 live');
}

Returns-commit : Returns commit
unfolding commit
Returns-commit = record {
  at = λ c live. let (this, later) = no_fault-parts c.faults live in rw this (refl, later);
}

Returns-write_change :
    (now : String) (change : PropagatedChange) → Returns (execute (write_change now change))
Returns-write_change now change = record { at = λ c live. Returns-execute _ _ c refl live }

Returns-emit_sync_event : (now node_id kind : String) → Returns (emit_sync_event now node_id kind)
unfolding emit_sync_event ◌>>=◌ execute
Returns-emit_sync_event now node_id kind = record {
  at = λ c live.
      let (this, later) = no_fault-parts c.faults live in
      let (next, last) = no_fault-parts (later_faults c.faults) later in rw this (ground arith);
}

Returns-write_changes :
    (now : String) (changes : List PropagatedChange) → Returns (write_changes now changes)
unfolding write_changes
Returns-write_changes now [] = Returns-pure
Returns-write_changes now (change ∷ changes) =
    Returns-then _ _ (Returns-write_change now change) (Returns-write_changes now changes)

Returns-emit_all : (now : String) (events : List (String × String)) → Returns (emit_all now events)
unfolding emit_all
Returns-emit_all now [] = Returns-pure
Returns-emit_all now ((target, kind) ∷ events) =
    Returns-then _ _ (Returns-emit_sync_event now target kind) (Returns-emit_all now events)

select-any :
    (p : ManagedNode → Bool) (ns : List ManagedNode)
    → any p ns ≡ true
    → nat_eq (length (select p ns)) 0 ≡ false
select-any p [] h = cc
select-any p (n ∷ ns) h = ground (arith, select-any p ns)

-- The body of the `try` after its first statement.
abbrev body : String → List (String × String) → List PropagatedChange → M (Unit {0})
body now events changes = do write_changes now changes; emit_all now events; commit

Returns-body :
    (now : String) (events : List (String × String)) (changes : List PropagatedChange)
    → Returns (body now events changes)
Returns-body now events changes =
    Returns-then _ _ (Returns-write_changes now changes)
      (Returns-then _ _ (Returns-emit_all now events) Returns-commit)

pub write_fields_returns :
    (now node_id : String) (fields : NodeFields) (events : List (String × String))
    (changes : List PropagatedChange) (c : Connection)
    → IsClosed c
    → no_fault c.faults ≡ true
    → any (is_node node_id) c.committed.managed_nodes ≡ true
    → (write_fields now node_id fields events changes c).0 ≡ ok tt
unfolding write_fields execute or_abort ◌>>=◌ pure
write_fields_returns now node_id fields events changes c closed live known =
    let there : nat_eq (length (select (is_node node_id) c.working.managed_nodes)) 0 ≡ false =
      rw closed (select-any (is_node node_id) c.committed.managed_nodes known) in
    let c' : Connection = record c {
      working = changed now node_id fields [] c.working;
      faults = later_faults c.faults;
    } in
    let (this, later) = no_fault-parts c.faults live in
    let returned = ((Returns-body now events changes).at c' later).0 in
    rw (this, there) (rw returned refl)
