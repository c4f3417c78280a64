-- ===== src/AutoPeer/Single.antt =====
-- A verified response gives one session.
use dn42_utils.Base.{
  ℕ, ◌+◌, ◌≤◌, ◌<◌, String, ◌≡◌, refl, arith, Bool, true, false, ◌&&◌, Option, none, some, List, [],
  ◌∷◌, ◌++◌, leb, eq_iff, any, select_one, delete_where, Bool-cases, inl, inr,
}
use dn42_utils.Base.Text.{truthy}
use dn42_utils.AutoPeer.{
  Store, Session, Consumed, Identity, is_token, is_digest, purge, open_session, claim_session,
  claim_found, release_session, pop_session, consumed_ttl,
}
use dn42_utils.AutoPeer.Calls.{Call, opens, claims, releases, pops, run, Before, is_granted}

-- A digest that was consumed, with a deadline not before a time.
abbrev lasts : String → ℕ → Consumed → Bool
lasts digest limit b = is_digest digest b && leb limit b.deadline

any-purged :
    (digest : String) (limit now : ℕ) (bs : List Consumed)
    → now < limit
    → any (lasts digest limit) bs ≡ true
    → any (lasts digest limit) (delete_where (λ (b : Consumed). leb b.deadline now) bs) ≡ true
any-purged digest limit now [] h k = k
any-purged digest limit now (b ∷ bs) h k = ground (arith, any-purged digest limit now bs h)

any-lasts :
    (digest : String) (limit : ℕ) (bs : List Consumed)
    → any (lasts digest limit) bs ≡ true
    → any (is_digest digest) bs ≡ true
any-lasts digest limit [] h = h
any-lasts digest limit (b ∷ bs) h = ground (arith, any-lasts digest limit bs)

any-append :
    {A : Type 0} (p : A → Bool) (xs ys : List A) → any p xs ≡ true → any p (xs ++ ys) ≡ true
any-append p [] ys h = cc
any-append p (x ∷ xs) ys h = ground (arith, any-append p xs ys)

any-append_last :
    {A : Type 0} (p : A → Bool) (xs : List A) (y : A) → p y ≡ true → any p (xs ++ y ∷ []) ≡ true
any-append_last p [] y h = ground (arith, h)
any-append_last p (x ∷ xs) y h = ground (arith, any-append_last p xs y h)

claim_found-consumed :
    (now : ℕ) (token : String) (o : Option Session) (st : Store)
    → (claim_found now token o st).1.consumed ≡ st.consumed
claim_found-consumed now token none st = refl
claim_found-consumed now token (some s) st = ground arith

module _ (digest : String) (limit : ℕ) where
  abbrev Burned : Store → Type 0
  Burned st = any (lasts digest limit) st.consumed ≡ true

  open_session-Burned :
      (now : ℕ) (token : String) (i : Identity) (st : Store)
      → now < limit
      → Burned st
      → Burned (open_session now token i st).1
  unfolding open_session purge
  open_session-Burned now token i st h k =
      let kept = any-purged digest limit now st.consumed h k in
      elim (Bool-cases (any (is_digest i.digest) (purge now st).consumed)) [
        | inl seen ↦ rw seen kept
        | inr new ↦ rw new (any-append (lasts digest limit) _ _ kept)
      ]

  claim_session-Burned :
      (now : ℕ) (token : String) (st : Store)
      → now < limit
      → Burned st
      → Burned (claim_session now token st).1
  unfolding claim_session purge
  claim_session-Burned now token st h k = elim (Bool-cases (truthy token)) [
    | inl given_token ↦
        rw
          (
            given_token,
            claim_found-consumed now token (select_one (is_token token) (purge now st).sessions)
                (purge now st),
          )
          (any-purged digest limit now st.consumed h k)
    | inr empty_token ↦ rw empty_token k
  ]

  run-Burned :
      (calls : List Call) (st : Store) → Before limit calls → Burned st → Burned (run calls st)
  unfolding run release_session pop_session
  run-Burned [] st b k = k
  run-Burned (opens now token i ∷ calls) st (h, b) k =
      run-Burned calls _ b (open_session-Burned now token i st h k)
  run-Burned (claims now token ∷ calls) st (h, b) k =
      run-Burned calls _ b (claim_session-Burned now token st h k)
  run-Burned (releases token ∷ calls) st b k = run-Burned calls _ b k
  run-Burned (pops token ∷ calls) st b k = run-Burned calls _ b k

open_session-Before :
    (now limit : ℕ) (token : String) (i : Identity) (st : Store)
    → is_granted (open_session now token i st).0 ≡ true
    → limit ≤ now + consumed_ttl
    → Burned i.digest limit (open_session now token i st).1
unfolding open_session purge
open_session-Before now limit token i st h le =
    elim (Bool-cases (any (is_digest i.digest) (purge now st).consumed)) [
      | inl seen ↦ let n : false ≡ true = rw seen at h in cc
      | inr new ↦ rw new (
          any-append_last (lasts i.digest limit) (purge now st).consumed
            (record { digest = i.digest; deadline = now + consumed_ttl })
            (ground (arith, eq_iff i.digest i.digest)))
    ]

open_session-refused :
    (now : ℕ) (token : String) (i : Identity) (st : Store)
    → any (is_digest i.digest) (purge now st).consumed ≡ true
    → is_granted (open_session now token i st).0 ≡ false
unfolding open_session
open_session-refused now token i st h = rw h refl

-- After a response was exchanged for a session, every further exchange of a response with the same
-- digest is refused for two minutes, whatever other calls come between in that time: a response is
-- good for one session.
pub open_session_once :
    (now : ℕ) (token : String) (i : Identity) (calls : List Call) (later : ℕ) (token' : String)
    (i' : Identity) (st : Store)
    → is_granted (open_session now token i st).0 ≡ true
    → Before (now + consumed_ttl) calls
    → later < now + consumed_ttl
    → i'.digest ≡ i.digest
    → is_granted (open_session later token' i' (run calls (open_session now token i st).1)).0
      ≡ false
unfolding purge
open_session_once now token i calls later token' i' st h before soon same =
    let limit = now + consumed_ttl in
    let burned = open_session-Before now limit token i st h (omega arith) in
    let still = run-Burned i.digest limit calls _ before burned in
    let found = any-lasts i.digest limit _ (any-purged i.digest limit later _ soon still) in
    open_session-refused later token' i' _ (rw same found)
