-- ===== src/Managed/Nodes/Atomic.antt =====
-- Every write of `managed_nodes` is one transaction, its events and propagated rows included.
use dn42_utils.Base.{String, List, [], ◌∷◌}
use dn42_utils.Database.Connection.Atomic.{
  IsAtomic, Pending, Pending-pure, or_abort-IsAtomic, or_abort_clash-IsAtomic, Pending-bind,
  Pending-execute,
}
use dn42_utils.Database.Peers.Atomic.{write_rules, emit_sync_event-Pending}
use dn42_utils.Managed.Nodes.{add_row, register_self, touch_last_seen}
use dn42_utils.Managed.Nodes.Tokens.{set_token_hash}
use dn42_utils.Managed.Nodes.Fields.{
  write_fields, NodeFields, PropagatedChange, write_changes, emit_all,
}

pub add_row-IsAtomic : (now node_id name : String) → IsAtomic (add_row now node_id name)
unfolding add_row
add_row-IsAtomic now node_id name = or_abort_clash-IsAtomic _ _ _ (search write_rules depth 8)

pub register_self-IsAtomic : (now node_id name : String) → IsAtomic (register_self now node_id name)
unfolding register_self
register_self-IsAtomic now node_id name = or_abort-IsAtomic _ _ (search write_rules depth 9)

pub set_token_hash-IsAtomic :
    (now node_id hash : String) → IsAtomic (set_token_hash now node_id hash)
unfolding set_token_hash
set_token_hash-IsAtomic now node_id hash = or_abort-IsAtomic _ _ (search write_rules depth 8)

pub touch_last_seen-IsAtomic : (now node_id : String) → IsAtomic (touch_last_seen now node_id)
unfolding touch_last_seen
touch_last_seen-IsAtomic now node_id = or_abort-IsAtomic _ _ (search write_rules depth 8)

write_changes-Pending :
    (now : String) (changes : List PropagatedChange) → Pending (write_changes now changes)
unfolding write_changes
write_changes-Pending now [] = Pending-pure tt
write_changes-Pending now (change ∷ changes) =
    Pending-bind _ _ (Pending-execute _) (λ _. write_changes-Pending now changes)

emit_all-Pending : (now : String) (events : List (String × String)) → Pending (emit_all now events)
unfolding emit_all
emit_all-Pending now [] = Pending-pure tt
emit_all-Pending now ((target, kind) ∷ events) =
    Pending-bind _ _ (emit_sync_event-Pending now target kind) (λ _. emit_all-Pending now events)

pub write_fields-IsAtomic :
    (now node_id : String) (fields : NodeFields) (events : List (String × String))
    (changes : List PropagatedChange)
    → IsAtomic (write_fields now node_id fields events changes)
unfolding write_fields
write_fields-IsAtomic now node_id fields events changes =
    or_abort-IsAtomic _ _ (search (write_rules, write_changes-Pending, emit_all-Pending) depth 9)
