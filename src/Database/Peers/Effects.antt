-- ===== src/Database/Peers/Effects.antt =====
-- What a successful write of the peer tables leaves committed: its row, with its event.
use dn42_utils.Base.{
  refl, ℕ, String, ◌≡◌, ap, ◌∙◌, ◌++◌, ◌∷◌, [], Option, none, some, arith, update_where,
  delete_where,
}
use dn42_utils.Constants.{sync_event_desired}
use dn42_utils.Database.Schema.{Tables, BgpPeerRecord, IbgpPeerRecord, BgpRow, IbgpRow}
use dn42_utils.Database.Connection.{
  Connection, ok, ◌>>=◌, execute, commit, or_abort, or_abort_clash, M, done,
}
use dn42_utils.Database.Connection.Atomic.{IsClosed, Reading, Reading-query}
use dn42_utils.Database.Connection.Inversion.{or_abort-eq-ok, >>=-eq-ok}
use dn42_utils.Database.Events.{emit_sync_event, emitted}
use dn42_utils.Database.Peers.{
  insert_bgp_peer, bgp_row, update_bgp_peer, BgpChange, set_bgp, is_bgp, delete_bgp_peer,
  delete_found, delete_peer, insert_ibgp_peer, ibgp_row, update_ibgp_peer, IbgpChange, set_ibgp,
  is_ibgp, delete_ibgp_peer,
}

abbrev with_event : String → String → Tables → Tables
with_event now node_id = emitted now node_id sync_event_desired

delete_found-effect :
    {R : Type 0} (delete : Tables → Tables) (now node_id : String) (found : Option R) (row : R)
    (c : Connection)
    → (delete_found (λ t. done tt (delete t)) now node_id found c).0 ≡ ok (some row)
    → (delete_found (λ t. done tt (delete t)) now node_id found c).1.committed
      ≡ with_event now node_id (delete c.working)
unfolding emit_sync_event ◌>>=◌ execute commit
delete_found-effect delete now node_id none row c h = cc
delete_found-effect delete now node_id (some r) row c h = ground arith

delete_peer-effect :
    {R : Type 0} (get : M (Option R)) (delete : Tables → Tables) (message now node_id : String)
    (row : R) (c : Connection)
    → Reading get
    → IsClosed c
    → (delete_peer get (λ t. done tt (delete t)) message now node_id c).0 ≡ ok (some row)
    → (delete_peer get (λ t. done tt (delete t)) message now node_id c).1.committed
      ≡ with_event now node_id (delete c.committed)
delete_peer-effect get delete message now node_id row c reading closed h =
    let (inside, same) = or_abort-eq-ok _ message c h in
    let (found, got, rest, same') = >>=-eq-ok get _ c inside in
    ap (λ (d : Connection). d.committed) (same ∙ same')
    ∙ delete_found-effect delete now node_id found row (get c).1 rest
    ∙ ap (λ t. with_event now node_id (delete t)) ((reading.at c).0 ∙ closed)

module _ (now : String) (c : Connection) (closed : IsClosed c) where
  pub insert_bgp_peer-effect :
      (p : BgpPeerRecord)
      → (insert_bgp_peer now p c).0 ≡ ok tt
      → (insert_bgp_peer now p c).1.committed
        ≡ with_event now p.node_id
            (record (c.committed) { bgp_peers = c.committed.bgp_peers ++ bgp_row now p ∷ [] })
  unfolding insert_bgp_peer emit_sync_event ◌>>=◌ execute commit or_abort_clash
  insert_bgp_peer-effect p h = rw (← closed) (ground arith)

  pub update_bgp_peer-effect :
      (node_id : String) (asn : ℕ) (u : BgpChange)
      → (update_bgp_peer now node_id asn u c).0 ≡ ok tt
      → (update_bgp_peer now node_id asn u c).1.committed
        ≡ with_event now node_id (record (c.committed) {
          bgp_peers = update_where (is_bgp node_id asn) (set_bgp now u) c.committed.bgp_peers;
        })
  unfolding update_bgp_peer emit_sync_event ◌>>=◌ execute commit or_abort
  update_bgp_peer-effect node_id asn u h = rw (← closed) (ground arith)

  pub delete_bgp_peer-effect :
      (node_id : String) (asn : ℕ) (row : BgpRow)
      → (delete_bgp_peer now node_id asn c).0 ≡ ok (some row)
      → (delete_bgp_peer now node_id asn c).1.committed
        ≡ with_event now node_id (record (c.committed) {
          bgp_peers = delete_where (is_bgp node_id asn) c.committed.bgp_peers;
        })
  unfolding delete_bgp_peer
  delete_bgp_peer-effect node_id asn row h =
      delete_peer-effect _ _ _ now node_id row c (Reading-query _ _) closed h

  pub insert_ibgp_peer-effect :
      (p : IbgpPeerRecord)
      → (insert_ibgp_peer now p c).0 ≡ ok tt
      → (insert_ibgp_peer now p c).1.committed
        ≡ with_event now p.node_id
            (record (c.committed) { ibgp_peers = c.committed.ibgp_peers ++ ibgp_row now p ∷ [] })
  unfolding insert_ibgp_peer emit_sync_event ◌>>=◌ execute commit or_abort_clash
  insert_ibgp_peer-effect p h = rw (← closed) (ground arith)

  pub update_ibgp_peer-effect :
      (node_id name : String) (u : IbgpChange)
      → (update_ibgp_peer now node_id name u c).0 ≡ ok tt
      → (update_ibgp_peer now node_id name u c).1.committed
        ≡ with_event now node_id (record (c.committed) {
          ibgp_peers = update_where (is_ibgp node_id name) (set_ibgp now u) c.committed.ibgp_peers;
        })
  unfolding update_ibgp_peer emit_sync_event ◌>>=◌ execute commit or_abort
  update_ibgp_peer-effect node_id name u h = rw (← closed) (ground arith)

  pub delete_ibgp_peer-effect :
      (node_id name : String) (row : IbgpRow)
      → (delete_ibgp_peer now node_id name c).0 ≡ ok (some row)
      → (delete_ibgp_peer now node_id name c).1.committed
        ≡ with_event now node_id (record (c.committed) {
          ibgp_peers = delete_where (is_ibgp node_id name) c.committed.ibgp_peers;
        })
  unfolding delete_ibgp_peer
  delete_ibgp_peer-effect node_id name row h =
      delete_peer-effect _ _ _ now node_id row c (Reading-query _ _) closed h

delete_found-none :
    {R : Type 0} (delete : Tables → Tables) (now node_id : String) (found : Option R)
    (c : Connection)
    → (delete_found (λ t. done tt (delete t)) now node_id found c).0 ≡ ok none
    → (delete_found (λ t. done tt (delete t)) now node_id found c).1.committed ≡ c.committed
unfolding emit_sync_event ◌>>=◌ execute commit
delete_found-none delete now node_id none c h = refl
delete_found-none delete now node_id (some r) c h = ground arith

delete_peer-none :
    {R : Type 0} (get : M (Option R)) (delete : Tables → Tables) (message now node_id : String)
    (c : Connection)
    → Reading get
    → (delete_peer get (λ t. done tt (delete t)) message now node_id c).0 ≡ ok none
    → (delete_peer get (λ t. done tt (delete t)) message now node_id c).1.committed ≡ c.committed
delete_peer-none get delete message now node_id c reading h =
    let (inside, same) = or_abort-eq-ok _ message c h in
    let (found, got, rest, same') = >>=-eq-ok get _ c inside in
    ap (λ (d : Connection). d.committed) (same ∙ same')
    ∙ delete_found-none delete now node_id found (get c).1 rest
    ∙ (reading.at c).1

module _ (now node_id : String) (c : Connection) where
  pub delete_bgp_peer-none :
      (asn : ℕ)
      → (delete_bgp_peer now node_id asn c).0 ≡ ok none
      → (delete_bgp_peer now node_id asn c).1.committed ≡ c.committed
  unfolding delete_bgp_peer
  delete_bgp_peer-none asn h = delete_peer-none _ _ _ now node_id c (Reading-query _ _) h

  pub delete_ibgp_peer-none :
      (name : String)
      → (delete_ibgp_peer now node_id name c).0 ≡ ok none
      → (delete_ibgp_peer now node_id name c).1.committed ≡ c.committed
  unfolding delete_ibgp_peer
  delete_ibgp_peer-none name h = delete_peer-none _ _ _ now node_id c (Reading-query _ _) h
