-- ===== src/Managed/Nodes/Auth.antt =====
-- Who a token admits, and how an access is revoked.
use dn42_utils.Base.{
  suc, String, ◌≡◌, refl, ap, sym, arith, ◌≢◌, Bool, false, ◌&&◌, ◌==◌, ◌∙◌, true, Option, some,
  none, List, [], ◌∷◌, eq_iff, select_one, select_one-eq-some, select_one-eq-none, Has,
  update_where, any, All, Bool-cases, inl, inr, eq_refl,
}
use dn42_utils.Constants.{sync_event_access_revoked, given}
use dn42_utils.Database.Schema.{ManagedNode, Tables}
use dn42_utils.Database.Connection.{Connection, ok, ◌>>=◌, execute, commit, or_abort, or_raise}
use dn42_utils.Database.Connection.Atomic.{IsClosed}
use dn42_utils.Database.Connection.Inversion.{>>=-eq-ok, or_raise-query-eq-ok}
use dn42_utils.Database.Events.{emit_sync_event, emitted}
use dn42_utils.Database.Events.Queue.{is_event, emitted-fresh}
use dn42_utils.Managed.Nodes.{is_node, read_back}
use dn42_utils.Managed.Nodes.Tokens.{
  authenticate, accepts, matches, hash_token, verify_token, set_token_hash, rotate_token,
}
use dn42_utils.Managed.Nodes.Fields.{set_enabled, write_fields, no_fields, set_fields, NodeFields}

-- The rows after an update of one node, and the event that tells the hub to drop its connections.
abbrev updated : String → (ManagedNode → ManagedNode) → Tables → Tables
updated node_id f t = record t { managed_nodes = update_where (is_node node_id) f t.managed_nodes }

abbrev revoked : String → String → (ManagedNode → ManagedNode) → Tables → Tables
revoked now node_id f t = emitted now node_id sync_event_access_revoked (updated node_id f t)

abbrev with_hash : String → String → ManagedNode → ManagedNode
with_hash now hash n = record n { api_token_hash = some hash; updated_at = now }

abbrev disabling : NodeFields
disabling = record no_fields { enabled = given false }

set_token_hash-effect :
    (now node_id hash : String) (c : Connection)
    → IsClosed c
    → (set_token_hash now node_id hash c).0 ≡ ok tt
    → (set_token_hash now node_id hash c).1.committed
      ≡ revoked now node_id (with_hash now hash) c.committed
unfolding set_token_hash emit_sync_event ◌>>=◌ execute commit or_abort
set_token_hash-effect now node_id hash c closed h = rw (← closed) (ground arith)

-- Where every updated row fails a test, no row of the node passes it.
any-update_node :
    (node_id : String) (f : ManagedNode → ManagedNode) (q : ManagedNode → Bool)
    (ns : List ManagedNode)
    → ((n : ManagedNode) → q (f n) ≡ false)
    → any (λ m. is_node node_id m && q m) (update_where (is_node node_id) f ns) ≡ false
any-update_node node_id f q [] h = refl
any-update_node node_id f q (n ∷ ns) h = ground (arith, any-update_node node_id f q ns h, h n)

-- The read after a commit changes nothing.
pub read_back-committed :
    (node_id message : String) (c : Connection)
    → (read_back node_id message c).1.committed ≡ c.committed
unfolding read_back or_raise execute ◌>>=◌
read_back-committed node_id message c = ground arith

disable-effect :
    (now node_id : String) (c : Connection)
    → IsClosed c
    → (write_fields now node_id disabling ((node_id, sync_event_access_revoked) ∷ []) [] c).0
      ≡ ok tt
    → (write_fields now node_id disabling
        ((node_id, sync_event_access_revoked) ∷ [])
        []
        c).1.committed
      ≡ revoked now node_id (set_fields now disabling) c.committed
unfolding write_fields emit_sync_event ◌>>=◌ execute commit or_abort
disable-effect now node_id c closed h = rw (← closed) (ground arith)

-- After a node is disabled by a call that returns, on a connection that had no open transaction,
-- none of its rows is enabled, and an event that tells the hub to drop the node's connections is
-- committed under a new id.
pub set_enabled-false-revokes :
    (now node_id : String) (c : Connection) (n : ManagedNode)
    → IsClosed c
    → (set_enabled now node_id false c).0 ≡ ok n
    → (any
          (λ (m : ManagedNode). is_node node_id m && m.enabled)
          (set_enabled now node_id false c).1.committed.managed_nodes
        ≡ false)
      × (any
            (is_event (suc c.committed.sync_events_seq) node_id sync_event_access_revoked)
            (set_enabled now node_id false c).1.committed.sync_events
          ≡ true)
unfolding set_enabled
set_enabled-false-revokes now node_id c n closed h =
    let (_, wrote, _, same) = >>=-eq-ok _ _ c h in
    let effect : (set_enabled now node_id false c).1.committed
        ≡ revoked now node_id (set_fields now disabling) c.committed =
      ap (λ (d : Connection). d.committed) same
      ∙ read_back-committed node_id "更新后无法读取 managed_node" _
      ∙ disable-effect now node_id c closed wrote in
    rw effect (
      any-update_node node_id _ (λ m. m.enabled) c.committed.managed_nodes (λ m. refl),
      emitted-fresh now node_id sync_event_access_revoked
          (updated node_id (set_fields now disabling) c.committed),
    )

module _ (sha256 : String → String) where
  -- A node that a token admits.
  abbrev pub IsAdmitted : String → ManagedNode → Type 0
  IsAdmitted token n = (n.enabled ≡ true) × (n.api_token_hash ≡ some (hash_token sha256 token))

  matches-eq-true :
      (token : String) (o : Option String)
      → matches sha256 token o ≡ true
      → o ≡ some (hash_token sha256 token)
  unfolding verify_token
  matches-eq-true token none h = cc
  matches-eq-true token (some s) h = ap some ((eq_iff s _).0 h)

  accepts_iff :
      (token : String) (n : ManagedNode) → accepts sha256 token n ≡ true → IsAdmitted token n
  accepts_iff token n h = ground (arith, matches-eq-true token n.api_token_hash)

  not_accepts :
      (token : String) (n : ManagedNode) → accepts sha256 token n ≡ false → ¬ IsAdmitted token n
  unfolding verify_token
  not_accepts token n h (on, hash) =
      let e : verify_token sha256 (hash_token sha256 token) token ≡ false = rw (on, hash) at h in
      let e' : verify_token sha256 (hash_token sha256 token) token ≡ true = eq_refl _ in cc (e, e')

  All-not_accepts :
      (token : String) (ns : List ManagedNode)
      → All (λ n. accepts sha256 token n ≡ false) ns
      → All (λ n. ¬ IsAdmitted token n) ns
  All-not_accepts token [] h = tt
  All-not_accepts token (n ∷ ns) h = (not_accepts token n h.0, All-not_accepts token ns h.1)

  -- What a look-up by token has found among the rows.
  abbrev pub Admission : String → List ManagedNode → Option ManagedNode → Type 0
  Admission token ns none = All (λ n. ¬ IsAdmitted token n) ns
  Admission token ns (some n) = IsAdmitted token n × Has n ns

  select_one-Admission :
      (token : String) (ns : List ManagedNode) (o : Option ManagedNode)
      → select_one (accepts sha256 token) ns ≡ o
      → Admission token ns o
  select_one-Admission token ns none h = All-not_accepts token ns (select_one-eq-none _ ns h)
  select_one-Admission token ns (some n) h =
      let (a, m) = select_one-eq-some _ ns h in (accepts_iff token n a, m)

  -- When an authentication returns a node, the node is a row of the table, is enabled and has the
  -- token's hash; when it returns none, no row is enabled and has that hash.
  pub authenticate_exact :
      (token : String) (c : Connection) (o : Option ManagedNode)
      → (authenticate sha256 token c).0 ≡ ok o
      → Admission token c.working.managed_nodes o
  unfolding authenticate
  authenticate_exact token c o h = select_one-Admission token _ o (or_raise-query-eq-ok _ _ c h)

  -- After a rotation that returns, on a connection that had no open transaction, no token with
  -- another hash than the new token's is accepted by a row of the node, and an event that tells
  -- the hub to drop the node's connections is committed under a new id.
  pub rotate_token-revokes :
      (now node_id new token : String) (c : Connection)
      → IsClosed c
      → (rotate_token sha256 now node_id new c).0 ≡ ok tt
      → hash_token sha256 token ≢ hash_token sha256 new
      → (any
            (λ (n : ManagedNode). is_node node_id n && accepts sha256 token n)
            (rotate_token sha256 now node_id new c).1.committed.managed_nodes
          ≡ false)
        × (any
              (is_event (suc c.committed.sync_events_seq) node_id sync_event_access_revoked)
              (rotate_token sha256 now node_id new c).1.committed.sync_events
            ≡ true)
  unfolding rotate_token verify_token
  rotate_token-revokes now node_id new token c closed h other =
      let refused : (hash_token sha256 new == hash_token sha256 token) ≡ false =
        elim (Bool-cases (hash_token sha256 new == hash_token sha256 token)) [
          | inl same ↦ absurd (other (sym ((eq_iff _ _).0 same)))
          | inr differ ↦ differ
        ] in
      rw (set_token_hash-effect now node_id (hash_token sha256 new) c closed h) (
        any-update_node node_id _ (accepts sha256 token) c.committed.managed_nodes
            (λ n. ground arith),
        emitted-fresh now node_id sync_event_access_revoked
            (updated node_id (with_hash now (hash_token sha256 new)) c.committed),
      )
