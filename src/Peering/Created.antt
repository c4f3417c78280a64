-- ===== src/Peering/Created.antt =====
-- The listen port of a created iBGP peer.
use dn42_utils.Base.{ℕ, String, ◌≡◌, refl, ap, sym, ◌∙◌, subst, arith, List, Bool-cases, inl, inr}
use dn42_utils.Database.Connection.{Connection, ok, pure, raise, closing}
use dn42_utils.Database.Connection.Atomic.{IsClosed}
use dn42_utils.Database.Connection.Keeps.{
  Keeps, Keeps-or_abort, Keeps-bind, Keeps-commit, Keeps-execute,
}
use dn42_utils.Database.Connection.Inversion.{>>=-eq-ok, ok_injective}
use dn42_utils.Database.Peers.{ensure_node, insert_ibgp_peer}
use dn42_utils.Validators.{
  TextLibrary, validate_babel_type, validate_rxcost, validate_allowed_ips_list,
}
use dn42_utils.Json.{pos}
use dn42_utils.Peering.Names.{sanitize_name}
use dn42_utils.Peering.{
  PeerResult, Draws, as_dn42ctl, require_valid, normalize_net_backend, open_db_and_ensure_node,
  resolve_wg_keypair, node_or, ips_or, ibgp_allowed_ips,
}
use dn42_utils.Peering.Keeps.{Keeps-as_dn42ctl}
use dn42_utils.Peering.Free.{listen_ports, IsFree, IsFreeOf, port_of-IsFree, require_valid-eq-ok}
use dn42_utils.Peering.Ibgp.{
  IbgpCreation, Tunnel, create_ibgp_peer, tunnel_of, port_of, check_ifname, ifname_of, ibgp_record,
  backend_or,
}

open_db-listen_ports :
    (now n node_id : String) (ps : List ℕ)
    → Keeps (λ t. listen_ports node_id t ≡ ps) (open_db_and_ensure_node now n)
unfolding open_db_and_ensure_node ensure_node
open_db-listen_ports now n node_id ps =
    Keeps-as_dn42ctl _
      (Keeps-or_abort _ _ (Keeps-bind _ _ (Keeps-execute _ (λ t h. h)) (λ _. Keeps-commit)))

check_ifname-eq-ok :
    (s : String) (c : Connection) → (check_ifname s c).0 ≡ ok tt → (check_ifname s c).1 ≡ c
unfolding pure raise
check_ifname-eq-ok s c h = ground arith

module _ (lib : TextLibrary) (config_node_id : String) where
  tunnel_of-IsFree :
      (node_id : String) (draws : Draws) (a : IbgpCreation) (c : Connection) (t : Tunnel)
      → (tunnel_of lib config_node_id node_id draws a c).0 ≡ ok t
      → IsFree node_id t.listen_port c.working
  unfolding tunnel_of pure normalize_net_backend
  tunnel_of-IsFree node_id draws a c t h = elim (Bool-cases a.has_wg) [
    | inr none_wanted ↦
        let no_port : 0 ≡ t.listen_port =
          ap (λ (t : Tunnel). t.listen_port) (ok_injective _ t (rw none_wanted at h)) in
        inl (sym no_port)
    | inl wanted ↦
        let (_, ran, h1, _) =
          >>=-eq-ok (normalize_net_backend lib (backend_or a.net_backend)) _ c (rw wanted at h) in
        let (_, kept) = require_valid-eq-ok _ c ran in
        let (port, chosen, h2, _) = >>=-eq-ok (port_of node_id draws a.listen_port) _ _ h1 in
        let (_, _, h3, _) =
          >>=-eq-ok (require_valid (validate_rxcost (pos a.babel_rxcost))) _ _ h2 in
        let (_, _, h4, _) =
          >>=-eq-ok (require_valid (validate_babel_type lib a.babel_type)) _ _ h3 in
        let (_, _, h5, _) =
          >>=-eq-ok (resolve_wg_keypair draws a.wg_private_key a.wg_public_key) _ _ h4 in
        let (_, _, h6, _) =
          >>=-eq-ok
            (require_valid (validate_allowed_ips_list lib (ips_or a.allowed_ips ibgp_allowed_ips)))
            _ _ h5 in
        let same : port ≡ t.listen_port =
          ap (λ (t : Tunnel). t.listen_port) (ok_injective _ t h6) in
        subst (λ k. IsFree node_id k c.working) same
          (port_of-IsFree node_id draws a.listen_port c port (rw kept at chosen))
  ]

  -- A call that creates an iBGP peer and returns, on a connection with no open transaction, gives
  -- it no listen port or one that no peer of its node has, whatever was drawn and whatever port
  -- was asked.
  pub create_ibgp_peer-IsFree :
      (now : String) (draws : Draws) (a : IbgpCreation) (r : PeerResult) (c : Connection)
      → IsClosed c
      → (create_ibgp_peer lib config_node_id now draws a c).0 ≡ ok r
      → IsFree (node_or a.node_id config_node_id) r.listen_port c.committed
  unfolding create_ibgp_peer closing pure
  create_ibgp_peer-IsFree now draws a r c closed h =
      let n = node_or a.node_id config_node_id in
      let (_, _, h1, _) = >>=-eq-ok (open_db_and_ensure_node now n) _ c h in
      let (ports, _) =
        (open_db-listen_ports now n n (listen_ports n c.committed)).at c (rw closed refl) refl in
      let (name, ran, h2, _) = >>=-eq-ok (require_valid (sanitize_name lib a.name)) _ _ h1 in
      let (_, same) = require_valid-eq-ok _ _ ran in
      let (_, short, h3, _) = >>=-eq-ok (check_ifname (ifname_of name)) _ _ h2 in
      let same' = check_ifname-eq-ok (ifname_of name) _ short ∙ same in
      let (t, settled, h4, _) = >>=-eq-ok (tunnel_of lib config_node_id n draws a) _ _ h3 in
      let free = tunnel_of-IsFree n draws a _ t settled in
      let (_, _, h5, _) =
        >>=-eq-ok (as_dn42ctl (insert_ibgp_peer now (ibgp_record lib config_node_id n name a t))) _
          _ h4 in
      let port : t.listen_port ≡ r.listen_port =
        ap (λ (r : PeerResult). r.listen_port) (ok_injective _ r h5) in
      subst (λ k. IsFreeOf k (listen_ports n c.committed)) port
        (subst (IsFreeOf t.listen_port)
          (ap (λ (d : Connection). listen_ports n d.working) same' ∙ ports) free)
