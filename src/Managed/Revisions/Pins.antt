-- ===== src/Managed/Revisions/Pins.antt =====
-- A rollback target is never lost: each pin names a snapshot that is there.
use dn42_utils.Base.{
  ℕ, String, ◌≡◌, refl, sym, subst, ◌∙◌, Bool, true, false, not, ◌&&◌, Option, none, some, List, [],
  ◌∷◌, ◌++◌, ◌==◌, eq_iff, eq_refl, arith, any, All, All-append, All-delete_where, delete_where,
  update_where, select_one, Bool-cases, inl, inr,
}
use dn42_utils.Database.Schema.{ConfigRevision, Content, Pin, Tables}
use dn42_utils.Database.Connection.{
  Connection, execute, ok, raised, Outcome, continue, M, ◌>>=◌, raise,
}
use dn42_utils.Database.Connection.Keeps.{
  Keeps, Keeps-execute, keeps_rules, After, Keeps-or_abort, Keeps-bind, Keeps-commit,
}
use dn42_utils.Database.Connection.Atomic.{IsClosed, Reading, Reading-query}
use dn42_utils.Database.Connection.Inversion.{or_raise-query-eq-ok}
use dn42_utils.Constants.{sync_event_desired}
use dn42_utils.Database.Events.{emit_sync_event}
use dn42_utils.Database.Events.Invariant.{emit_sync_event-frame}
use dn42_utils.Database.Peers.{has_node}
use dn42_utils.Managed.Revisions.{
  is_revision, insert_revision, is_pinned, trim_rows, upsert_pin, delete_pin, is_pin,
  record_revision, trim, pin, unpin, record_row, existing_or, or_missing, read_back, pin_existing,
  get_by_revision,
}

abbrev pub Resolves : List ConfigRevision → Pin → Type 0
Resolves rs p = any (is_revision p.node_id p.revision) rs ≡ true

-- Every pin names a snapshot of its node.
abbrev pub PinsResolve : Tables → Type 0
PinsResolve t = All (Resolves t.revisions) t.pins

any-append :
    {A : Type 0} (p : A → Bool) (xs ys : List A) → any p xs ≡ true → any p (xs ++ ys) ≡ true
any-append p [] ys h = cc
any-append p (x ∷ xs) ys h = ground (arith, any-append p xs ys)

All-map :
    {A : Type 0} (P Q : A → Type 0) (xs : List A) → ((x : A) → P x → Q x) → All P xs → All Q xs
All-map P Q [] f h = tt
All-map P Q (x ∷ xs) f h = (f x h.0, All-map P Q xs f h.1)

insert_revision-PinsResolve :
    (node_id revision generated_at : String) (payload : Content)
    → Keeps PinsResolve (execute (insert_revision node_id revision generated_at payload))
insert_revision-PinsResolve node_id revision generated_at payload = Keeps-execute _ λ t h.
    elim (Bool-cases (has_node node_id t && not (any (is_revision node_id revision) t.revisions))) [
      | inl fits ↦ rw fits (All-map _ _ t.pins (λ p. any-append _ t.revisions _) h)
      | inr clash ↦ rw clash tt
    ]

abbrev trimmed : String → (ConfigRevision → Bool) → List Pin → ConfigRevision → Bool
trimmed node_id recent pins r =
    r.node_id == node_id && (not (recent r) && not (is_pinned node_id pins r))

abbrev same_pin : Pin → Pin → Bool
same_pin p k = k.node_id == p.node_id && k.revision == p.revision

-- A pinned snapshot is not trimmed.
pinned-kept :
    (node_id : String) (recent : ConfigRevision → Bool) (pins : List Pin) (p : Pin)
    (r : ConfigRevision)
    → any (same_pin p) pins ≡ true
    → is_revision p.node_id p.revision r ≡ true
    → trimmed node_id recent pins r ≡ false
pinned-kept node_id recent pins p r pinned this =
    let node : r.node_id ≡ p.node_id = ground (arith, eq_iff r.node_id p.node_id) in
    let rev : r.revision ≡ p.revision = ground (arith, eq_iff r.revision p.revision) in
    elim (Bool-cases (r.node_id == node_id)) [
      | inl here ↦
          let owner : p.node_id ≡ node_id = sym node ∙ (eq_iff r.node_id node_id).0 here in
          let found : is_pinned node_id pins r ≡ true =
            subst (λ n. any (λ (k : Pin). k.node_id == n && k.revision == r.revision) pins ≡ true)
              owner
              (subst (λ v. any (λ (k : Pin). k.node_id == p.node_id && k.revision == v) pins ≡ true)
                (sym rev) pinned) in
          ground arith
      | inr elsewhere ↦ ground arith
    ]

any-trimmed :
    (node_id : String) (recent : ConfigRevision → Bool) (pins : List Pin) (p : Pin)
    (rs : List ConfigRevision)
    → any (same_pin p) pins ≡ true
    → Resolves rs p
    → Resolves (delete_where (trimmed node_id recent pins) rs) p
any-trimmed node_id recent pins p [] k h = cc
any-trimmed node_id recent pins p (r ∷ rs) k h =
    ground (arith, any-trimmed node_id recent pins p rs k, pinned-kept node_id recent pins p r k)

any_cons :
    {A : Type 0} (p : A → Bool) (x : A) (xs : List A) → any p xs ≡ true → any p (x ∷ xs) ≡ true
any_cons p x xs h = ground arith

-- Each element of a list is found in it.
All-found : (ps : List Pin) → All (λ p. any (same_pin p) ps ≡ true) ps
All-found [] = tt
All-found (p ∷ ps) = (
  rw (eq_refl p.node_id, eq_refl p.revision) refl,
  All-map _ _ ps (λ q. any_cons (same_pin q) p ps) (All-found ps),
)

All-zip :
    {A : Type 0} (P Q R : A → Type 0) (xs : List A)
    → ((x : A) → P x → Q x → R x)
    → All P xs
    → All Q xs
    → All R xs
All-zip P Q R [] f h k = tt
All-zip P Q R (x ∷ xs) f h k = (f x h.0 k.0, All-zip P Q R xs f h.1 k.1)

trim_rows-PinsResolve :
    (node_id : String) (keep_latest : ℕ)
    → Keeps PinsResolve (execute (trim_rows node_id keep_latest))
trim_rows-PinsResolve node_id keep_latest = Keeps-execute _ λ t h.
    All-zip _ _ _ t.pins
      (λ p found resolved. any-trimmed node_id _ t.pins p t.revisions found resolved)
      (All-found t.pins) h

pub trim-PinsResolve :
    (node_id : String) (keep_latest : ℕ) → Keeps PinsResolve (trim node_id keep_latest)
unfolding trim
trim-PinsResolve node_id keep_latest = search (keeps_rules, trim_rows-PinsResolve)

delete_pin-PinsResolve : (node_id : String) → Keeps PinsResolve (execute (delete_pin node_id))
delete_pin-PinsResolve node_id = Keeps-execute _ (λ t h. All-delete_where _ _ t.pins h)

emit_sync_event-PinsResolve :
    (now node_id kind : String) → Keeps PinsResolve (emit_sync_event now node_id kind)
emit_sync_event-PinsResolve now node_id kind =
    emit_sync_event-frame now node_id kind (λ t events seq h. h)

pub unpin-PinsResolve : (now node_id : String) → Keeps PinsResolve (unpin now node_id)
unfolding unpin
unpin-PinsResolve now node_id =
    search (keeps_rules, delete_pin-PinsResolve, emit_sync_event-PinsResolve)

record_row-PinsResolve :
    (node_id revision generated_at : String) (payload : Content)
    → Keeps PinsResolve (record_row node_id revision generated_at payload)
unfolding record_row
record_row-PinsResolve node_id revision generated_at payload =
    search (keeps_rules, insert_revision-PinsResolve)

existing_or-PinsResolve :
    (insert : M ConfigRevision) (o : Option ConfigRevision)
    → Keeps PinsResolve insert
    → Keeps PinsResolve (existing_or insert o)
existing_or-PinsResolve insert none h = h
existing_or-PinsResolve insert (some r) h = search keeps_rules

or_missing-PinsResolve :
    (message : String) (o : Option ConfigRevision) → Keeps PinsResolve (or_missing message o)
or_missing-PinsResolve message none = search keeps_rules
or_missing-PinsResolve message (some r) = search keeps_rules

read_back-PinsResolve : (id : ℕ) (message : String) → Keeps PinsResolve (read_back id message)
unfolding read_back
read_back-PinsResolve id message = search (keeps_rules, or_missing-PinsResolve)

pub record_revision-PinsResolve :
    (node_id revision generated_at : String) (payload : Content)
    → Keeps PinsResolve (record_revision node_id revision generated_at payload)
unfolding record_revision
record_revision-PinsResolve node_id revision generated_at payload =
    Keeps-bind _ _ (search keeps_rules) (λ o.
      existing_or-PinsResolve _ o
        (search (keeps_rules, record_row-PinsResolve, read_back-PinsResolve)))

-- The snapshot that is to be pinned is there.
abbrev Pinnable : String → String → Tables → Type 0
Pinnable node_id revision t =
    PinsResolve t × (any (is_revision node_id revision) t.revisions ≡ true)

repinned :
    (now node_id revision : String) (rs : List ConfigRevision) (ps : List Pin)
    → any (is_revision node_id revision) rs ≡ true
    → All (Resolves rs) ps
    → All
        (Resolves rs)
        (update_where (is_pin node_id) (λ p. record p { revision = revision; pinned_at = now }) ps)
repinned now node_id revision rs [] there h = tt
repinned now node_id revision rs (p ∷ ps) there h = elim (Bool-cases (is_pin node_id p)) [
  | inl this ↦ rw this (
    subst (λ n. any (is_revision n revision) rs ≡ true) (sym ((eq_iff p.node_id node_id).0 this))
        there,
    repinned now node_id revision rs ps there h.1,
  )
  | inr other ↦ rw other (h.0, repinned now node_id revision rs ps there h.1)
]

upsert_pin-Pinnable :
    (now node_id revision : String) (t : Tables)
    → Pinnable node_id revision t
    → After (Pinnable node_id revision) (upsert_pin now node_id revision t)
upsert_pin-Pinnable now node_id revision t (h, there) = elim (Bool-cases (has_node node_id t)) [
  | inr unknown ↦ rw unknown tt
  | inl known ↦ rw known (elim (Bool-cases (any (is_pin node_id) t.pins)) [
    | inl old ↦ rw old (repinned now node_id revision t.revisions t.pins there h, there)
    | inr new ↦ rw new (All-append _ t.pins _ h (there, tt), there)
  ])
]

pin_existing-Pinnable :
    (now node_id revision : String) (r : ConfigRevision)
    → Keeps (Pinnable node_id revision) (pin_existing now node_id revision (some r))
pin_existing-Pinnable now node_id revision r = Keeps-or_abort _ _ (
    Keeps-bind _ _ (Keeps-execute _ (upsert_pin-Pinnable now node_id revision)) (λ _.
      Keeps-bind _ _ (emit_sync_event-frame now node_id sync_event_desired (λ t events seq h. h))
        (λ _. Keeps-commit)))

any_of_select_one :
    {A : Type 0} (p : A → Bool) (xs : List A) (x : A) → select_one p xs ≡ some x → any p xs ≡ true
any_of_select_one p [] x h = cc
any_of_select_one p (y ∷ ys) x h = ground (arith, any_of_select_one p ys x)

-- A pin is set only to a snapshot that is there.
pub pin-PinsResolve :
    (now node_id revision : String) (c : Connection)
    → IsClosed c
    → PinsResolve c.committed
    → PinsResolve (pin now node_id revision c).1.committed
unfolding pin ◌>>=◌ raise
pin-PinsResolve now node_id revision c closed h = go _ _ refl (reading.at c).0 (reading.at c).1
  where
    reading : Reading (get_by_revision node_id revision)
    reading = Reading-query _ _

    go :
        (o : Outcome (Option ConfigRevision)) (d : Connection)
        → (get_by_revision node_id revision c).0 ≡ o
        → d.working ≡ c.working
        → d.committed ≡ c.committed
        → PinsResolve (continue o (pin_existing now node_id revision) d).1.committed
    go (raised e) d got w k = rw k h
    go (ok none) d got w k = rw k h
    go (ok (some r)) d got w k =
        let there : any (is_revision node_id revision) c.working.revisions ≡ true =
          any_of_select_one _ c.working.revisions r (or_raise-query-eq-ok _ _ c got) in
        ((pin_existing-Pinnable now node_id revision r).at d
          (rw (w, closed) (h, rw closed at there)) (rw k (h, rw closed at there))).1.0
