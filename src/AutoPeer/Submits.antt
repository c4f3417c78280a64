-- ===== src/AutoPeer/Submits.antt =====
-- What a submission leaves of its session, and where it goes.
use dn42_utils.Base.{
  ℕ, String, ◌≡◌, refl, sym, ap, ◌∙◌, subst, arith, Bool, true, false, ◌&&◌, ◌||◌, Option, none,
  some, List, [], ◌∷◌, map, ◌==◌, eq_iff, any, select, select_one, sort_by, insert_by, delete_where,
  Bool-cases, inl, inr,
}
use dn42_utils.Database.Schema.{ManagedNode}
use dn42_utils.Database.Connection.{Connection, Outcome, ok, raised, closing, pure, raise}
use dn42_utils.Database.Connection.Inversion.{>>=-eq-ok, or_raise-query-eq-ok, ok_injective}
use dn42_utils.Validators.{TextLibrary}
use dn42_utils.Decisions.{submit_proposal}
use dn42_utils.Decisions.Interface.{PeerServices}
use dn42_utils.Managed.Nodes.{list_auto_peer, self_first}
use dn42_utils.AutoPeer.{
  Store, Session, Attempt, granted, refused, PeerRequest, PeerTarget, SubmitResult, target_of,
  is_token, is_target, claim_session, list_peer_targets, resolve_target, require_target, submission,
  settle, submit_claimed, submit_peer, pop_session, release_session, peer_add_payload,
}

any-insert_by :
    {A : Type 0} (p : A → Bool) (le : A → A → Bool) (x : A) (xs : List A)
    → any p (insert_by le x xs) ≡ (p x || any p xs)
any-insert_by p le x [] = refl
any-insert_by p le x (y ∷ ys) = ground (arith, any-insert_by p le x ys)

any-sort_by :
    {A : Type 0} (p : A → Bool) (le : A → A → Bool) (xs : List A) → any p (sort_by le xs) ≡ any p xs
any-sort_by p le [] = refl
any-sort_by p le (x ∷ xs) = rw (any-insert_by p le x (sort_by le xs), any-sort_by p le xs)

-- A node that is open to requests, by its id.
abbrev pub is_open_node : String → ManagedNode → Bool
is_open_node node_id n = (n.auto_peer && n.enabled) && n.node_id == node_id

any-select_open :
    (node_id : String) (ns : List ManagedNode)
    → any (λ (n : ManagedNode). n.node_id == node_id) (select (λ n. n.auto_peer && n.enabled) ns)
      ≡ any (is_open_node node_id) ns
any-select_open node_id [] = refl
any-select_open node_id (n ∷ ns) = ground (arith, any-select_open node_id ns)

abbrev id_or : String → Option PeerTarget → String
id_or default none = default
id_or default (some t) = t.node_id

-- A target that was found is one of the rows.
found-target :
    (node_id : String) (ns : List ManagedNode) (t : PeerTarget)
    → select_one (is_target node_id) (map target_of ns) ≡ some t
    → (any (λ (n : ManagedNode). n.node_id == node_id) ns ≡ true) × (t.node_id ≡ node_id)
found-target node_id [] t h = cc
found-target node_id (n ∷ ns) t h = elim (Bool-cases (n.node_id == node_id)) [
  | inl this ↦
      let same : some (target_of n) ≡ some t = rw this at h in
      (rw this, ap (id_or node_id) (sym same) ∙ (eq_iff n.node_id node_id).0 this)
  | inr other ↦ let (a, b) = found-target node_id ns t (rw other at h) in (rw other a, b)
]

require_target-eq-ok :
    (o : Option PeerTarget) (c : Connection) (t : PeerTarget)
    → (require_target o c).0 ≡ ok t
    → o ≡ some t
unfolding raise pure
require_target-eq-ok none c t h = cc
require_target-eq-ok (some u) c t h = ap some (ok_injective u t h)

list_auto_peer-eq-ok :
    (node_id : String) (c : Connection) (ns : List ManagedNode)
    → (closing list_auto_peer c).0 ≡ ok ns
    → any (λ (n : ManagedNode). n.node_id == node_id) ns
      ≡ any (is_open_node node_id) c.working.managed_nodes
unfolding closing list_auto_peer
list_auto_peer-eq-ok node_id c ns h =
    let opened : List ManagedNode =
      select (λ n. n.auto_peer && n.enabled) c.working.managed_nodes in
    let same : sort_by self_first opened ≡ ns = or_raise-query-eq-ok _ _ c h in
    ap (any (λ (n : ManagedNode). n.node_id == node_id)) (sym same)
    ∙ any-sort_by (λ (n : ManagedNode). n.node_id == node_id) self_first opened
    ∙ any-select_open node_id c.working.managed_nodes

resolve_target-eq-ok :
    (node_id : String) (c : Connection) (t : PeerTarget)
    → (resolve_target node_id c).0 ≡ ok t
    → (any (is_open_node node_id) c.working.managed_nodes ≡ true) × (t.node_id ≡ node_id)
unfolding resolve_target list_peer_targets pure
resolve_target-eq-ok node_id c t h =
    let (targets, listed, h1, _) = >>=-eq-ok list_peer_targets _ c h in
    let (ns, read, h2, _) = >>=-eq-ok (closing list_auto_peer) _ c listed in
    let mapped : map target_of ns ≡ targets = ok_injective _ _ h2 in
    let chosen : select_one (is_target node_id) (map target_of ns) ≡ some t =
      ap (select_one (is_target node_id)) mapped ∙ require_target-eq-ok _ _ t h1 in
    let (there, same) = found-target node_id ns t chosen in
    (sym (list_auto_peer-eq-ok node_id c ns read) ∙ there, same)

any-popped :
    (token : String) (ss : List Session)
    → any (is_token token) (delete_where (is_token token) ss) ≡ false
any-popped token [] = refl
any-popped token (s ∷ ss) = ground (arith, any-popped token ss)

module _ (lib : TextLibrary) (services : PeerServices) where
  submission-eq-ok :
      (stamp : String) (session : Session) (a : PeerRequest) (c : Connection) (r : SubmitResult)
      → (submission lib services stamp session a c).0 ≡ ok r
      → (any (is_open_node a.node_id) c.working.managed_nodes ≡ true) × (r.node_id ≡ a.node_id)
  unfolding submission pure
  submission-eq-ok stamp session a c r h =
      let (t, resolved, h1, _) = >>=-eq-ok (resolve_target a.node_id) _ c h in
      let (p, _, h2, _) =
        >>=-eq-ok
          (submit_proposal lib services false stamp t.node_id "push" "peer_add"
            (peer_add_payload session.asn a))
          _ _ h1 in
      let (there, same) = resolve_target-eq-ok a.node_id c t resolved in
      (there, ap (λ (r : SubmitResult). r.node_id) (sym (ok_injective _ r h2)) ∙ same)

  -- What a submission that returns leaves of its session, and its node.
  abbrev pub Submitted : String → PeerRequest → Attempt SubmitResult → Store → Connection → Type 0
  Submitted token a (refused e) st c = Unit
  Submitted token a (granted r) st c =
      (any (is_token token) st.sessions ≡ false)
      × (any (is_open_node a.node_id) c.working.managed_nodes ≡ true)
      × (r.node_id ≡ a.node_id)

  settle-Submitted :
      (stamp token : String) (a : PeerRequest) (session : Session) (o : Outcome SubmitResult)
      (st : Store) (c : Connection)
      → (submission lib services stamp session a c).0 ≡ o
      → Submitted token a (settle lib services token o st).0 (settle lib services token o st).1 c
  unfolding pop_session release_session
  settle-Submitted stamp token a session (ok r) st c ran =
      let (there, same) = submission-eq-ok stamp session a c r ran in
      (any-popped token st.sessions, there, same)
  settle-Submitted stamp token a session (raised e) st c ran = tt

  submit_claimed-Submitted :
      (stamp token : String) (a : PeerRequest) (claim : Attempt Session) (st : Store)
      (c : Connection)
      → Submitted token a
          (submit_claimed lib services stamp token a claim st c).0
          (submit_claimed lib services stamp token a claim st c).1
          c
  submit_claimed-Submitted stamp token a (refused r) st c = tt
  submit_claimed-Submitted stamp token a (granted session) st c =
      settle-Submitted stamp token a session (submission lib services stamp session a c).0 st c refl

  -- A submission that returns has removed the session, and its node is the one asked for, one that
  -- is enabled and open to requests.
  pub submit_peer-Submitted :
      (now : ℕ) (stamp token : String) (a : PeerRequest) (st : Store) (c : Connection)
      (r : SubmitResult)
      → (submit_peer lib services now stamp token a st c).0 ≡ granted r
      → (any (is_token token) (submit_peer lib services now stamp token a st c).1.sessions ≡ false)
        × (any (is_open_node a.node_id) c.working.managed_nodes ≡ true)
        × (r.node_id ≡ a.node_id)
  unfolding submit_peer
  submit_peer-Submitted now stamp token a st c r h =
      let answer = submit_peer lib services now stamp token a st c in
      subst (λ k. Submitted token a k answer.1 c) h
        (submit_claimed-Submitted stamp token a (claim_session now token st).0
          (claim_session now token st).1 c)
