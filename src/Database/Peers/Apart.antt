-- ===== src/Database/Peers/Apart.antt =====
-- The methods of `Database` on peers leave the proposals alone.
use dn42_utils.Base.{
  ℕ, String, Option, none, some, List, Bool, if◌then◌else◌, ◌≡◌, refl, ◌&&◌, not, any, ◌++◌, [],
  ◌∷◌, Bool-cases, inl, inr,
}
use dn42_utils.Database.Schema.{ConfigProposal, Tables, BgpPeerRecord, IbgpPeerRecord}
use dn42_utils.Database.Connection.{execute, done, violated}
use dn42_utils.Database.Connection.Keeps.{
  Keeps, keeps_rules, Keeps-execute, Keeps-or_abort, Keeps-or_abort_clash, Keeps-bind,
}
use dn42_utils.Database.Events.{emit_sync_event}
use dn42_utils.Database.Peers.{
  ensure_node, get_bgp_peer, has_node, bgp_clash, bgp_row, ibgp_clash, ibgp_row, insert_bgp_peer,
  update_bgp_peer, BgpChange, get_ibgp_peer, insert_ibgp_peer, update_ibgp_peer, IbgpChange,
  delete_found, delete_bgp_peer, delete_ibgp_peer,
}

abbrev pub OnProposals : (List ConfigProposal → Type 0) → Tables → Type 0
OnProposals P t = P t.proposals

module _ (P : List ConfigProposal → Type 0) where
  -- An insert into another table, with its constraints.
  Keeps-guarded :
      (allowed : Tables → Bool) (f : Tables → Tables)
      → ((t : Tables) → (f t).proposals ≡ t.proposals)
      → Keeps (OnProposals P) (execute (λ t. if allowed t then done tt (f t) else violated))
  Keeps-guarded allowed f same = Keeps-execute _ (λ t h. elim (Bool-cases (allowed t)) [
    | inl fine ↦ rw (fine, same t) h
    | inr clash ↦ rw clash tt
  ])

  -- A statement that sets another table.
  Keeps-other :
      {A : Type 0} (a : Tables → A) (f : Tables → Tables)
      → ((t : Tables) → (f t).proposals ≡ t.proposals)
      → Keeps (OnProposals P) (execute (λ t. done (a t) (f t)))
  Keeps-other a f same = Keeps-execute _ (λ t h. rw (same t) h)

  Keeps-emit_sync_event :
      (now node_id kind : String) → Keeps (OnProposals P) (emit_sync_event now node_id kind)
  unfolding emit_sync_event
  Keeps-emit_sync_event now node_id kind = search (keeps_rules, Keeps-execute) depth 8

  pub Keeps-ensure_node : (now node_id : String) → Keeps (OnProposals P) (ensure_node now node_id)
  unfolding ensure_node
  Keeps-ensure_node now node_id = search (keeps_rules, Keeps-execute) depth 8

  pub Keeps-get_bgp_peer :
      (node_id : String) (k : ℕ) → Keeps (OnProposals P) (get_bgp_peer node_id k)
  unfolding get_bgp_peer
  Keeps-get_bgp_peer node_id k = search keeps_rules

  pub Keeps-get_ibgp_peer :
      (node_id name : String) → Keeps (OnProposals P) (get_ibgp_peer node_id name)
  unfolding get_ibgp_peer
  Keeps-get_ibgp_peer node_id name = search keeps_rules

  pub Keeps-insert_bgp_peer :
      (now : String) (r : BgpPeerRecord) → Keeps (OnProposals P) (insert_bgp_peer now r)
  unfolding insert_bgp_peer
  Keeps-insert_bgp_peer now r = Keeps-or_abort_clash _ _ _ (
      Keeps-bind _ _
        (Keeps-guarded (λ t. has_node r.node_id t && not (any (bgp_clash r) t.bgp_peers))
          (λ t. record t { bgp_peers = t.bgp_peers ++ bgp_row now r ∷ [] }) (λ t. refl))
        (λ _. search (keeps_rules, Keeps-emit_sync_event) depth 8))

  pub Keeps-insert_ibgp_peer :
      (now : String) (r : IbgpPeerRecord) → Keeps (OnProposals P) (insert_ibgp_peer now r)
  unfolding insert_ibgp_peer
  Keeps-insert_ibgp_peer now r = Keeps-or_abort_clash _ _ _ (
      Keeps-bind _ _
        (Keeps-guarded (λ t. has_node r.node_id t && not (any (ibgp_clash r) t.ibgp_peers))
          (λ t. record t { ibgp_peers = t.ibgp_peers ++ ibgp_row now r ∷ [] }) (λ t. refl))
        (λ _. search (keeps_rules, Keeps-emit_sync_event) depth 8))

  pub Keeps-update_bgp_peer :
      (now node_id : String) (k : ℕ) (u : BgpChange)
      → Keeps (OnProposals P) (update_bgp_peer now node_id k u)
  unfolding update_bgp_peer
  Keeps-update_bgp_peer now node_id k u =
      search (keeps_rules, Keeps-execute, Keeps-emit_sync_event) depth 8

  pub Keeps-update_ibgp_peer :
      (now node_id name : String) (u : IbgpChange)
      → Keeps (OnProposals P) (update_ibgp_peer now node_id name u)
  unfolding update_ibgp_peer
  Keeps-update_ibgp_peer now node_id name u =
      search (keeps_rules, Keeps-execute, Keeps-emit_sync_event) depth 8

  Keeps-delete_found :
      {R : Type 0} (now node_id : String) (f : Tables → Tables) (o : Option R)
      → ((t : Tables) → (f t).proposals ≡ t.proposals)
      → Keeps (OnProposals P) (delete_found (λ t. done tt (f t)) now node_id o)
  Keeps-delete_found now node_id f none same = search keeps_rules
  Keeps-delete_found now node_id f (some row) same =
      Keeps-bind _ _ (Keeps-other (λ t. tt) f same)
        (λ _. search (keeps_rules, Keeps-emit_sync_event) depth 8)

  pub Keeps-delete_bgp_peer :
      (now node_id : String) (k : ℕ) → Keeps (OnProposals P) (delete_bgp_peer now node_id k)
  unfolding delete_bgp_peer
  Keeps-delete_bgp_peer now node_id k = Keeps-or_abort _ _ (
      Keeps-bind _ _ (Keeps-get_bgp_peer node_id k)
        (λ o. Keeps-delete_found now node_id _ o (λ t. refl)))

  pub Keeps-delete_ibgp_peer :
      (now node_id name : String) → Keeps (OnProposals P) (delete_ibgp_peer now node_id name)
  unfolding delete_ibgp_peer
  Keeps-delete_ibgp_peer now node_id name = Keeps-or_abort _ _ (
      Keeps-bind _ _ (Keeps-get_ibgp_peer node_id name)
        (λ o. Keeps-delete_found now node_id _ o (λ t. refl)))

pub ruleset apart_rules = (
  Keeps-ensure_node, Keeps-get_bgp_peer, Keeps-get_ibgp_peer, Keeps-insert_bgp_peer,
  Keeps-insert_ibgp_peer, Keeps-update_bgp_peer, Keeps-update_ibgp_peer, Keeps-delete_bgp_peer,
  Keeps-delete_ibgp_peer,
)
