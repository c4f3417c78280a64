-- ===== src/Managed/Nodes/Written.antt =====
-- What `_update_fields` has committed when it ends.
use dn42_utils.Base.{String, ◌≡◌, refl, List, any, false, Bool-cases, ◌⊎◌, inl, inr}
use dn42_utils.Database.Schema.{Tables}
use dn42_utils.Database.Connection.{Connection, Outcome, Exception, ok, raised}
use dn42_utils.Database.Connection.Quiet.{no_fault}
use dn42_utils.Database.Connection.Atomic.{IsClosed, Settled}
use dn42_utils.Managed.Nodes.{is_node}
use dn42_utils.Managed.Nodes.Fields.{write_fields, NodeFields, PropagatedChange}
use dn42_utils.Managed.Nodes.Atomic.{write_fields-IsAtomic}
use dn42_utils.Managed.Nodes.Effects.{written, write_fields-effect}
use dn42_utils.Managed.Nodes.Returns.{write_fields_returns}

-- A statement is to fail, or the node has no row.
abbrev pub Refusable : String → Connection → Type 0
Refusable node_id c =
    (no_fault c.faults ≡ false) ⊎ (any (is_node node_id) c.committed.managed_nodes ≡ false)

-- All of an update after a call that returns; after one that raises, what was committed before.
abbrev pub WrittenOrKept : String → Tables → Connection → Outcome (Unit {0}) → Connection → Type 0
WrittenOrKept node_id after c (ok a) c' = (c'.committed ≡ after) × IsClosed c'
WrittenOrKept node_id after c (raised e) c' =
    (c'.committed ≡ c.committed) × IsClosed c' × Refusable node_id c

raised-Refusable :
    (now node_id : String) (fields : NodeFields) (events : List (String × String))
    (changes : List PropagatedChange) (c : Connection) (e : Exception)
    → IsClosed c
    → (write_fields now node_id fields events changes c).0 ≡ raised e
    → Refusable node_id c
raised-Refusable now node_id fields events changes c e closed ran =
    elim (Bool-cases (any (is_node node_id) c.committed.managed_nodes)) [
      | inr missing ↦ inr missing
      | inl known ↦ elim (Bool-cases (no_fault c.faults)) [
        | inr faulty ↦ inl faulty
        | inl live ↦
            let returned =
              write_fields_returns now node_id fields events changes c closed live known in
            cc (ran, returned)
      ]
    ]

-- On a connection with no open transaction, an update of a node that returns has committed the
-- fields of the node's row, all changes of peer rows and all events, one after the other; one that
-- raises has committed nothing, and then one of the coming statements is to fail or the node has
-- no row; no transaction stays open.
pub write_fields-Written :
    (now node_id : String) (fields : NodeFields) (events : List (String × String))
    (changes : List PropagatedChange) (c : Connection)
    → IsClosed c
    → WrittenOrKept node_id
        (written now node_id fields events changes c.committed)
        c
        (write_fields now node_id fields events changes c).0
        (write_fields now node_id fields events changes c).1
write_fields-Written now node_id fields events changes c closed =
    go (write_fields now node_id fields events changes c).0 refl
      ((write_fields-IsAtomic now node_id fields events changes).at c closed)
  where
    go :
        (o : Outcome (Unit {0}))
        → (write_fields now node_id fields events changes c).0 ≡ o
        → Settled c.committed
            (write_fields now node_id fields events changes c).0
            (write_fields now node_id fields events changes c).1
        → WrittenOrKept node_id
            (written now node_id fields events changes c.committed)
            c
            (write_fields now node_id fields events changes c).0
            (write_fields now node_id fields events changes c).1
    go (raised e) ran settled =
        let (w, k) = rw ran at settled in
        let why = raised-Refusable now node_id fields events changes c e closed ran in
        rw ran (k, w, why)
    go (ok a) ran settled =
        rw ran
          (write_fields-effect now node_id fields events changes c closed ran, rw ran at settled)
