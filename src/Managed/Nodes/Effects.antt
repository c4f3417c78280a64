-- ===== src/Managed/Nodes/Effects.antt =====
-- What `_update_fields` changes: the node's row, the peer rows of other nodes, the queue.
use dn42_utils.Base.{ℕ, String, ◌≡◌, refl, ap, ◌∙◌, arith, List, [], ◌∷◌, update_where}
use dn42_utils.Database.Schema.{Tables, IbgpRow}
use dn42_utils.Database.Events.{emit_sync_event, emitted}
use dn42_utils.Database.Connection.{Connection, ok, execute, pure, abort, ◌>>=◌}
use dn42_utils.Database.Connection.Atomic.{IsClosed}
use dn42_utils.Database.Connection.Inversion.{>>=-eq-ok, or_abort-eq-ok, commit-eq-ok}
use dn42_utils.Managed.Nodes.{is_node, require_updated, update_node}
use dn42_utils.Managed.Nodes.Fields.{
  write_fields, NodeFields, PropagatedChange, write_changes, write_change, emit_all, apply_change,
  set_fields,
}

-- One event after the other.
abbrev pub emitted_all : String → List (String × String) → Tables → Tables
emitted_all now [] t = t
emitted_all now ((target, kind) ∷ events) t = emitted_all now events (emitted now target kind t)

-- One peer row after the other.
abbrev pub changed_rows : String → List PropagatedChange → List IbgpRow → List IbgpRow
changed_rows now [] rows = rows
changed_rows now (change ∷ changes) rows = changed_rows now changes (apply_change now change rows)

-- The tables with a node's fields set and the peer rows changed.
abbrev pub changed : String → String → NodeFields → List PropagatedChange → Tables → Tables
changed now node_id fields changes t = record t {
  managed_nodes = update_where (is_node node_id) (set_fields now fields) t.managed_nodes;
  ibgp_peers = changed_rows now changes t.ibgp_peers;
}

emit_sync_event-effect :
    (now node_id kind : String) (c : Connection)
    → (emit_sync_event now node_id kind c).0 ≡ ok tt
    → (emit_sync_event now node_id kind c).1.working ≡ emitted now node_id kind c.working
unfolding emit_sync_event ◌>>=◌ execute
emit_sync_event-effect now node_id kind c h = ground arith

emit_all-effect :
    (now : String) (events : List (String × String)) (c : Connection)
    → (emit_all now events c).0 ≡ ok tt
    → (emit_all now events c).1.working ≡ emitted_all now events c.working
unfolding emit_all pure
emit_all-effect now [] c h = refl
emit_all-effect now ((target, kind) ∷ events) c h =
    let (_, ran, later, same) = >>=-eq-ok (emit_sync_event now target kind) _ c h in
    ap (λ (d : Connection). d.working) same
    ∙ emit_all-effect now events (emit_sync_event now target kind c).1 later
    ∙ ap (emitted_all now events) (emit_sync_event-effect now target kind c ran)

write_change-effect :
    (now : String) (change : PropagatedChange) (c : Connection)
    → (execute (write_change now change) c).0 ≡ ok tt
    → (execute (write_change now change) c).1.working
      ≡ record (c.working) { ibgp_peers = apply_change now change c.working.ibgp_peers }
unfolding execute
write_change-effect now change c h = ground arith

write_changes-effect :
    (now : String) (changes : List PropagatedChange) (c : Connection)
    → (write_changes now changes c).0 ≡ ok tt
    → (write_changes now changes c).1.working
      ≡ record (c.working) { ibgp_peers = changed_rows now changes c.working.ibgp_peers }
unfolding write_changes pure
write_changes-effect now [] c h = refl
write_changes-effect now (change ∷ changes) c h =
    let (_, ran, later, same) = >>=-eq-ok (execute (write_change now change)) _ c h in
    ap (λ (d : Connection). d.working) same
    ∙ write_changes-effect now changes (execute (write_change now change) c).1 later
    ∙ ap (λ (t : Tables). record t { ibgp_peers = changed_rows now changes t.ibgp_peers })
        (write_change-effect now change c ran)

update_node-effect :
    (now node_id : String) (fields : NodeFields) (c : Connection) (rowcount : ℕ)
    → (execute (update_node node_id (set_fields now fields)) c).0 ≡ ok rowcount
    → (execute (update_node node_id (set_fields now fields)) c).1.working
      ≡ changed now node_id fields [] c.working
unfolding execute
update_node-effect now node_id fields c rowcount h = ground arith

require_updated-effect :
    (rowcount : ℕ) (message : String) (c : Connection)
    → (require_updated rowcount message c).0 ≡ ok tt
    → (require_updated rowcount message c).1 ≡ c
unfolding abort pure
require_updated-effect rowcount message c h = ground arith

-- What an update leaves committed.
abbrev pub written :
    String → String → NodeFields → List (String × String) → List PropagatedChange → Tables → Tables
written now node_id fields events changes t =
    emitted_all now events (changed now node_id fields changes t)

pub write_fields-effect :
    (now node_id : String) (fields : NodeFields) (events : List (String × String))
    (changes : List PropagatedChange) (c : Connection)
    → IsClosed c
    → (write_fields now node_id fields events changes c).0 ≡ ok tt
    → (write_fields now node_id fields events changes c).1.committed
      ≡ written now node_id fields events changes c.committed
unfolding write_fields
write_fields-effect now node_id fields events changes c closed h =
    let (inside, same) = or_abort-eq-ok _ _ c h in
    let (n, updating, h1, s1) = >>=-eq-ok _ _ c inside in
    let (_, requiring, h2, s2) = >>=-eq-ok _ _ _ h1 in
    let (_, changing, h3, s3) = >>=-eq-ok _ _ _ h2 in
    let (_, emitting, h4, s4) = >>=-eq-ok _ _ _ h3 in
    let (stored, _) = commit-eq-ok _ h4 in
    ap (λ (d : Connection). d.committed) (same ∙ s1 ∙ s2 ∙ s3 ∙ s4)
    ∙ stored
    ∙ emit_all-effect now events _ emitting
    ∙ ap (emitted_all now events) (
        write_changes-effect now changes _ changing
        ∙ ap
            (λ (d : Connection). record (d.working) {
              ibgp_peers = changed_rows now changes d.working.ibgp_peers;
            })
            (require_updated-effect n "节点不存在" _ requiring)
        ∙ ap (λ (t : Tables). record t { ibgp_peers = changed_rows now changes t.ibgp_peers })
            (update_node-effect now node_id fields c n updating)
        ∙ ap (changed now node_id fields changes) closed)
