-- ===== src/Managed/Policy/Laws.antt =====
-- What a write policy that was accepted may say.
use dn42_utils.Base.{
  String, ◌≡◌, refl, ap, sym, subst, inl, inr, ◌∙◌, ◌↔◌, arith, Bool, true, ◌||◌, ◌==◌,
  if◌then◌else◌, All, List, [], ◌∷◌, eq_iff, ◌⊎◌,
}
use dn42_utils.Database.Schema.{WritePolicy}
use dn42_utils.Database.Connection.{Outcome, ok, raised}
use dn42_utils.Database.Connection.Inversion.{ok_injective}
use dn42_utils.Managed.Policy.{
  validate_write_policy, merge, merge_all, then_merge, check_policy, default_write_policy,
}

-- A change or a deletion is reviewed, and the other two keys have a known value.
abbrev pub IsReviewed : WritePolicy → Type 0
IsReviewed p =
    ((p.peer_add ≡ "review") ⊎ (p.peer_add ≡ "auto_accept"))
    × (p.peer_modify ≡ "review")
    × (p.peer_delete ≡ "review")
    × ((p.report ≡ "review") ⊎ (p.report ≡ "auto"))

check_policy-IsReviewed : (p q : WritePolicy) → check_policy p ≡ ok q → IsReviewed q
check_policy-IsReviewed p q h = ground (
  arith,
  eq_iff "review" p.peer_add,
  eq_iff "auto_accept" p.peer_add,
  eq_iff "review" p.peer_modify,
  eq_iff "review" p.peer_delete,
  eq_iff "review" p.report,
  eq_iff "auto" p.report,
)

check_policy_of_IsReviewed : (q : WritePolicy) → IsReviewed q → check_policy q ≡ ok q
check_policy_of_IsReviewed q r = ground (
  arith,
  eq_iff "review" q.peer_add,
  eq_iff "auto_accept" q.peer_add,
  eq_iff "review" q.peer_modify,
  eq_iff "review" q.peer_delete,
  eq_iff "review" q.report,
  eq_iff "auto" q.report,
)

check_policy_same : (p q : WritePolicy) → check_policy p ≡ ok q → p ≡ q
check_policy_same p q h = ground arith

-- The keys of a write policy.
abbrev pub is_key : String → Bool
is_key key = key == "peer_add" || key == "peer_modify" || key == "peer_delete" || key == "report"

-- The last value that a list gives a key, or a default.
abbrev pub given_value : String → List (String × String) → String → String
given_value key [] default = default
given_value key ((k, value) ∷ items) default =
    given_value key items (if k == key then value else default)

-- The policy that a list writes over another.
abbrev pub over : WritePolicy → List (String × String) → WritePolicy
over p items = record {
  peer_add = given_value "peer_add" items p.peer_add;
  peer_modify = given_value "peer_modify" items p.peer_modify;
  peer_delete = given_value "peer_delete" items p.peer_delete;
  report = given_value "report" items p.report;
}

abbrev pub AllKeys : List (String × String) → Type 0
AllKeys items = All (λ (i : String × String). is_key i.0 ≡ true) items

is_key-cases :
    (key : String)
    → is_key key ≡ true
    → (key ≡ "peer_add") ⊎ (key ≡ "peer_modify") ⊎ (key ≡ "peer_delete") ⊎ (key ≡ "report")
is_key-cases key h = ground (
  arith,
  eq_iff key "peer_add",
  eq_iff key "peer_modify",
  eq_iff key "peer_delete",
  eq_iff key "report",
)

merge_of_key :
    (key value : String) (p : WritePolicy)
    → is_key key ≡ true
    → merge key value p ≡ ok (over p ((key, value) ∷ []))
merge_of_key key value p h = elim (is_key-cases key h) [
  | inl same ↦ rw same refl
  | inr (inl same) ↦ rw same refl
  | inr (inr (inl same)) ↦ rw same refl
  | inr (inr (inr same)) ↦ rw same refl
]

merge-is_key :
    (key value : String) (p q : WritePolicy) → merge key value p ≡ ok q → is_key key ≡ true
merge-is_key key value p q h = ground arith

merge-eq-ok :
    (key value : String) (p q : WritePolicy)
    → merge key value p ≡ ok q
    → (is_key key ≡ true) × (q ≡ over p ((key, value) ∷ []))
merge-eq-ok key value p q h =
    let known = merge-is_key key value p q h in
    (known, ok_injective _ _ (sym h ∙ merge_of_key key value p known))

merge_all-eq-ok :
    (items : List (String × String)) (p q : WritePolicy)
    → merge_all items p ≡ ok q
    → AllKeys items × (q ≡ over p items)
unfolding merge_all
merge_all-eq-ok [] p q h = (tt, ground arith)
merge_all-eq-ok ((key, value) ∷ items) p q h = go (merge_all-eq-ok items) (merge key value p) refl h
  where
    go :
        ((p' q' : WritePolicy) → merge_all items p' ≡ ok q' → AllKeys items × (q' ≡ over p' items))
        → (r : Outcome WritePolicy) → merge key value p ≡ r
        → then_merge (merge_all items) r ≡ ok q
        → AllKeys ((key, value) ∷ items) × (q ≡ over p ((key, value) ∷ items))
    go later (ok p') merged e =
        let (known, same) = merge-eq-ok key value p p' merged in
        let (rest, over_rest) = later p' q e in
        ((known, rest), over_rest ∙ ap (λ o. over o items) same)
    go later (raised x) merged e = cc

merge_all_of_keys :
    (items : List (String × String)) (p : WritePolicy)
    → AllKeys items
    → merge_all items p ≡ ok (over p items)
unfolding merge_all
merge_all_of_keys [] p h = refl
merge_all_of_keys ((key, value) ∷ items) p h =
    rw (merge_of_key key value p h.0) (merge_all_of_keys items (over p ((key, value) ∷ [])) h.1)

-- A policy is accepted exactly if all its keys are known and, written over the default, the last
-- value of a key counting, it has no change or deletion without review and known values for
-- additions and reports; what is accepted is the policy written so.
pub validate_write_policy_exact :
    (policy : List (String × String)) (p : WritePolicy)
    → (validate_write_policy policy ≡ ok p)
      ↔ (AllKeys policy × (p ≡ over default_write_policy policy) × IsReviewed p)
unfolding validate_write_policy
validate_write_policy_exact policy p = (
  λ h. go (merge_all policy default_write_policy) refl h,
  λ (keys, same, reviewed).
      rw (merge_all_of_keys policy default_write_policy keys)
        (subst (λ q. check_policy q ≡ ok p) same (check_policy_of_IsReviewed p reviewed)),
)
  where
    go :
        (r : Outcome WritePolicy)
        → merge_all policy default_write_policy ≡ r
        → then_merge check_policy r ≡ ok p
        → AllKeys policy × (p ≡ over default_write_policy policy) × IsReviewed p
    go (ok q) merged e =
        let (keys, same) = merge_all-eq-ok policy default_write_policy q merged in
        (keys, sym (check_policy_same q p e) ∙ same, check_policy-IsReviewed q p e)
    go (raised x) merged e = cc
