-- ===== src/Managed/Nodes/Targets.antt =====
-- Which nodes an address change is announced to.
use dn42_utils.Base.{
  ℕ, ◌+◌, ◌≤◌, String, ◌≡◌, ap, ◌∙◌, subst, arith, Bool, true, false, ◌&&◌, ◌==◌, eq_iff, List, [],
  ◌∷◌, ◌++◌, any, Bool-cases, inl, inr, length,
}
use dn42_utils.Base.Text.{mem}
use dn42_utils.Constants.{sync_event_desired, sync_events_keep}
use dn42_utils.Database.Schema.{ManagedNode, Tables}
use dn42_utils.Database.Connection.{Connection, ok}
use dn42_utils.Database.Connection.Atomic.{IsClosed}
use dn42_utils.Database.Connection.Inversion.{>>=-eq-ok}
use dn42_utils.Database.Events.{emitted}
use dn42_utils.Database.Events.Queue.{is_later, emitted-keeps, emitted-later}
use dn42_utils.Managed.Nodes.Auth.{read_back-committed}
use dn42_utils.Managed.Nodes.Fields.{
  PropagatedChange, NodeFields, other_targets, update_events, write_fields, update_fields,
  apply_address_update,
}
use dn42_utils.Managed.Nodes.Effects.{emitted_all, changed, written, write_fields-effect}

abbrev pub changes_peer_of : String → PropagatedChange → Bool
changes_peer_of node_id change = change.node_id == node_id

abbrev pub announces_to : String → String × String → Bool
announces_to node_id event = event.0 == node_id && event.1 == sync_event_desired

other_targets-announces :
    (target : String) (seen : List String) (changes : List PropagatedChange)
    → mem target seen ≡ false
    → any (changes_peer_of target) changes ≡ true
    → any (announces_to target) (other_targets seen changes) ≡ true
unfolding other_targets
other_targets-announces target seen [] new h = cc
other_targets-announces target seen (c ∷ cs) new h = elim (Bool-cases (c.node_id == target)) [
  | inl this ↦
      let same : c.node_id ≡ target = (eq_iff c.node_id target).0 this in
      let fresh : mem c.node_id seen ≡ false = rw same new in rw (fresh, this) (ground arith)
  | inr other ↦ ground (
    arith,
    other_targets-announces target seen cs new,
    other_targets-announces target (c.node_id ∷ seen) cs,
  )
]

any-append_right :
    {A : Type 0} (p : A → Bool) (xs ys : List A) → any p ys ≡ true → any p (xs ++ ys) ≡ true
any-append_right p [] ys h = h
any-append_right p (x ∷ xs) ys h = ground (arith, any-append_right p xs ys h)

any-append_left :
    {A : Type 0} (p : A → Bool) (xs ys : List A) → any p xs ≡ true → any p (xs ++ ys) ≡ true
any-append_left p [] ys h = cc
any-append_left p (x ∷ xs) ys h = ground (arith, any-append_left p xs ys)

-- Every node with a changed peer row is among the targets, unless it is the updated node.
update_events_announced :
    (node_id target : String) (fields : NodeFields) (changes : List PropagatedChange)
    → (node_id == target) ≡ false
    → any (changes_peer_of target) changes ≡ true
    → any (announces_to target) (update_events node_id fields changes) ≡ true
unfolding update_events
update_events_announced node_id target fields changes other h =
    any-append_right (announces_to target) _ _ (
      any-append_left (announces_to target) (other_targets (node_id ∷ []) changes) _
        (other_targets-announces target (node_id ∷ []) changes (ground arith) h))

abbrev is_told : ℕ → String → Tables → Bool
is_told last target t = any (is_later last target sync_event_desired) t.sync_events

emitted_all-keeps :
    (last : ℕ) (target now : String) (events : List (String × String)) (t : Tables)
    → t.sync_events_seq + length events ≤ last + sync_events_keep
    → is_told last target t ≡ true
    → is_told last target (emitted_all now events t) ≡ true
emitted_all-keeps last target now [] t room h = h
emitted_all-keeps last target now ((other, kind) ∷ events) t room h =
    emitted_all-keeps last target now events (emitted now other kind t) (omega arith)
      (emitted-keeps last target sync_event_desired now other kind t (omega arith) h)

-- No event of a batch of up to `SYNC_EVENTS_KEEP` is trimmed by a later one of the batch.
emitted_all-tells :
    (last : ℕ) (target now : String) (events : List (String × String)) (t : Tables)
    → last ≤ t.sync_events_seq
    → t.sync_events_seq + length events ≤ last + sync_events_keep
    → any (announces_to target) events ≡ true
    → is_told last target (emitted_all now events t) ≡ true
emitted_all-tells last target now [] t from room h = cc
emitted_all-tells last target now ((other, kind) ∷ events) t from room h =
    elim (Bool-cases (announces_to target (other, kind))) [
      | inl this ↦
          let told : is_told last target (emitted now other kind t) ≡ true =
            told_of this (emitted-later last now other kind t from) in
          emitted_all-keeps last target now events (emitted now other kind t) (omega arith) told
      | inr next ↦
          emitted_all-tells last target now events (emitted now other kind t) (omega arith)
            (omega arith) (ground arith)
    ]
  where
    told_of :
        announces_to target (other, kind) ≡ true
        → any (is_later last other kind) (emitted now other kind t).sync_events ≡ true
        → is_told last target (emitted now other kind t) ≡ true
    told_of this k =
        let same : other ≡ target = (eq_iff other target).0 (ground arith) in
        let same_kind : kind ≡ sync_event_desired =
          (eq_iff kind sync_event_desired).0 (ground arith) in
        subst
          (λ o.
            any (is_later last o sync_event_desired) (emitted now other kind t).sync_events ≡ true)
          same
          (subst (λ o. any (is_later last other o) (emitted now other kind t).sync_events ≡ true)
            same_kind k)

-- After an address update that returns, on a connection that had no open transaction, every other
-- node with a peer row among the changes has, in the committed queue, an event that its desired
-- state may have changed, under an id that was never given before, whatever fields of the node
-- itself are set, when the update emits at most 1000 events.
pub apply_address_update_tells :
    (now node_id target : String) (fields : NodeFields) (changes : List PropagatedChange)
    (c : Connection) (n : ManagedNode)
    → IsClosed c
    → (apply_address_update now node_id fields changes c).0 ≡ ok n
    → (node_id == target) ≡ false
    → any (changes_peer_of target) changes ≡ true
    → length (update_events node_id fields changes) ≤ sync_events_keep
    → any
        (is_later c.committed.sync_events_seq target sync_event_desired)
        (apply_address_update now node_id fields changes c).1.committed.sync_events
      ≡ true
unfolding apply_address_update update_fields
apply_address_update_tells now node_id target fields changes c n closed h other changes_it room =
    let events = update_events node_id fields changes in
    let (_, wrote, _, same) = >>=-eq-ok (write_fields now node_id fields events changes) _ c h in
    let effect : (apply_address_update now node_id fields changes c).1.committed
        ≡ written now node_id fields events changes c.committed =
      ap (λ (d : Connection). d.committed) same
      ∙ read_back-committed node_id "更新后无法读取 managed_node" _
      ∙ write_fields-effect now node_id fields events changes c closed wrote in
    rw effect (
      emitted_all-tells c.committed.sync_events_seq target now events
        (changed now node_id fields changes c.committed) (omega arith) (omega arith)
        (update_events_announced node_id target fields changes other changes_it))
