-- ===== src/AutoPeer/Claims.antt =====
-- A session is claimed by one submission at a time.
use dn42_utils.Base.{
  ℕ, String, ◌≡◌, refl, arith, Bool, true, false, not, ◌&&◌, Option, none, some, List, [], ◌∷◌,
  ◌++◌, leb, ◌==◌, eq_iff, any, select_one, update_where, delete_where, Bool-cases, inl, inr,
}
use dn42_utils.Base.Text.{truthy}
use dn42_utils.AutoPeer.{
  Store, Session, Identity, is_token, is_digest, purge, open_session, new_session, claim_session,
  claim_found, release_session, pop_session,
}
use dn42_utils.AutoPeer.Calls.{Call, opens, claims, releases, pops, run, Keeps, is_granted}

-- No session with the token can be claimed.
module _ (token : String) where
  abbrev is_open : Session → Bool
  is_open s = is_token token s && not s.in_flight

  abbrev Held : Store → Type 0
  Held st = any is_open st.sessions ≡ false

  any-deleted :
      (p : Session → Bool) (ss : List Session)
      → any is_open ss ≡ false
      → any is_open (delete_where p ss) ≡ false
  any-deleted p [] h = h
  any-deleted p (s ∷ ss) h = ground (arith, any-deleted p ss)

  any-updated :
      (other : String) (f : Session → Session) (ss : List Session)
      → ((s : Session) → is_token other s ≡ true → is_open (f s) ≡ false)
      → any is_open ss ≡ false
      → any is_open (update_where (is_token other) f ss) ≡ false
  any-updated other f [] closes h = h
  any-updated other f (s ∷ ss) closes h = ground (arith, any-updated other f ss closes, closes s)

  any-appended :
      (s : Session) (ss : List Session)
      → is_open s ≡ false
      → any is_open ss ≡ false
      → any is_open (ss ++ s ∷ []) ≡ false
  any-appended s [] h k = ground (arith, h)
  any-appended s (t ∷ ss) h k = ground (arith, any-appended s ss h)

  open_session-Held :
      (now : ℕ) (other : String) (i : Identity) (st : Store)
      → (other == token) ≡ false
      → Held st
      → Held (open_session now other i st).1
  unfolding open_session purge
  open_session-Held now other i st apart h =
      let kept = any-deleted (λ s. leb s.expires_at now) st.sessions h in
      elim (Bool-cases (any (is_digest i.digest) (purge now st).consumed)) [
        | inl seen ↦ rw seen kept
        | inr new ↦ rw new (elim (Bool-cases (any (is_token other) (purge now st).sessions)) [
          | inl there ↦ rw there (any-updated other _ _ (λ s _. rw apart) kept)
          | inr fresh ↦ rw fresh (any-appended (new_session now other i) _ (rw apart) kept)
        ])
      ]

  claim_found-Held :
      (now : ℕ) (other : String) (o : Option Session) (st : Store)
      → Held st
      → Held (claim_found now other o st).1
  claim_found-Held now other none st h = h
  claim_found-Held now other (some s) st h = elim (Bool-cases (leb s.expires_at now)) [
    | inl over ↦ rw over h
    | inr live ↦ rw live (elim (Bool-cases s.in_flight) [
      | inl busy ↦ rw busy h
      | inr idle ↦ rw idle (any-updated other _ st.sessions (λ u _. ground arith) h)
    ])
  ]

  claim_session-Held :
      (now : ℕ) (other : String) (st : Store) → Held st → Held (claim_session now other st).1
  unfolding claim_session purge
  claim_session-Held now other st h = elim (Bool-cases (truthy other)) [
    | inl given_token ↦ rw given_token (
        claim_found-Held now other _ (purge now st)
          (any-deleted (λ s. leb s.expires_at now) st.sessions h))
    | inr empty_token ↦ rw empty_token h
  ]

  run-Held : (calls : List Call) (st : Store) → Keeps token calls → Held st → Held (run calls st)
  unfolding run release_session pop_session
  run-Held [] st k h = h
  run-Held (opens now other i ∷ calls) st (apart, k) h =
      run-Held calls _ k (open_session-Held now other i st apart h)
  run-Held (claims now other ∷ calls) st k h =
      run-Held calls _ k (claim_session-Held now other st h)
  run-Held (releases other ∷ calls) st (apart, k) h = run-Held calls _ k (
      any-updated other _ st.sessions
        (λ s is. ground (arith, eq_iff s.token other, eq_iff other token, eq_iff s.token token)) h)
  run-Held (pops other ∷ calls) st (apart, k) h =
      run-Held calls _ k (any-deleted (is_token other) st.sessions h)

  claim_found-busy :
      (now : ℕ) (s : Session) (st : Store)
      → s.in_flight ≡ true
      → is_granted (claim_found now token (some s) st).0 ≡ false
  claim_found-busy now s st busy = ground arith

  select_one-Held :
      (ss : List Session)
      → any is_open ss ≡ false
      → (now : ℕ) (st : Store)
      → is_granted (claim_found now token (select_one (is_token token) ss) st).0 ≡ false
  select_one-Held [] h now st = refl
  select_one-Held (s ∷ ss) h now st = elim (Bool-cases (is_token token s)) [
    | inl this ↦ rw this (claim_found-busy now s st (ground arith))
    | inr other ↦ rw other (select_one-Held ss (ground arith) now st)
  ]

  Held-refused :
      (later : ℕ) (st : Store) → Held st → is_granted (claim_session later token st).0 ≡ false
  unfolding claim_session purge
  Held-refused later st h = elim (Bool-cases (truthy token)) [
    | inl given_token ↦ rw given_token (
        select_one-Held _ (any-deleted (λ s. leb s.expires_at later) st.sessions h) later
          (purge later st))
    | inr empty_token ↦ rw empty_token
  ]

  all_in_flight :
      (ss : List Session)
      → any is_open (update_where (is_token token) (λ s. record s { in_flight = true }) ss) ≡ false
  all_in_flight [] = refl
  all_in_flight (s ∷ ss) = ground (arith, all_in_flight ss)

  granted-Held :
      (now : ℕ) (o : Option Session) (st : Store)
      → is_granted (claim_found now token o st).0 ≡ true
      → Held (claim_found now token o st).1
  granted-Held now none st h = cc
  granted-Held now (some s) st h = ground (arith, all_in_flight st.sessions)

  claimed-Held :
      (now : ℕ) (st : Store)
      → is_granted (claim_session now token st).0 ≡ true
      → Held (claim_session now token st).1
  unfolding claim_session
  claimed-Held now st h = elim (Bool-cases (truthy token)) [
    | inl given_token ↦ rw given_token (granted-Held now _ (purge now st) (rw given_token at h))
    | inr empty_token ↦ let n : false ≡ true = rw empty_token at h in cc
  ]

  -- After a session was claimed, every further claim of its token is refused, whatever other calls
  -- come between, as long as none of them gives the session back, removes it or issues its token
  -- again: of two submissions at once, one goes on.
  pub claim_session_once :
      (now : ℕ) (calls : List Call) (later : ℕ) (st : Store)
      → is_granted (claim_session now token st).0 ≡ true
      → Keeps token calls
      → is_granted (claim_session later token (run calls (claim_session now token st).1)).0 ≡ false
  claim_session_once now calls later st h k =
      Held-refused later _ (run-Held calls _ k (claimed-Held now st h))
