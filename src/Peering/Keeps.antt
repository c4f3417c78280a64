-- ===== src/Peering/Keeps.antt =====
-- What the steps of a peer service keep of the tables: all of it, but for the methods of `Database`.
use dn42_utils.Base.{ℕ, String, Option, none, some}
use dn42_utils.Json.{ℤ}
use dn42_utils.Database.Schema.{Tables, BgpRow, IbgpRow}
use dn42_utils.Database.Connection.{
  M, Connection, Outcome, ok, raised, sql, database_error, dn42ctl_error, value_error, pure, raise,
}
use dn42_utils.Database.Connection.Keeps.{
  Keeps, keeps_rules, Keeps-execute, Keeps-bind, Keeps-closing, Keeps-pure, Keeps-raise, Keeps-if,
  Keeps-or_raise, Keeps-query,
}
use dn42_utils.Database.Peers.{get_used_listen_ports}
use dn42_utils.Validators.{TextLibrary, Checked, valid, invalid}
use dn42_utils.Peering.{
  Draws, generated, as_dn42ctl, handle_database, require_valid, normalize_net_backend,
  resolve_wg_keypair,
}
use dn42_utils.Peering.Ports.{require_free, picked}
use dn42_utils.Peering.Bgp.{
  BgpCreation, BgpModification, create_bgp_peer, modify_bgp_peer, delete_bgp_peer,
}
use dn42_utils.Peering.Bgp
use dn42_utils.Peering.Ibgp.{
  IbgpCreation, IbgpUpdate, Tunnel, create_ibgp_peer, modify_ibgp_peer, delete_ibgp_peer, tunnel_of,
  port_of, refuse_used,
}
use dn42_utils.Peering.Ibgp

handle_database-kept :
    (P : Tables → Type 0) {A : Type 0} (r : Outcome A) (c : Connection)
    → P c.working
    → P c.committed
    → P (handle_database r c).1.working × P (handle_database r c).1.committed
unfolding pure raise
handle_database-kept P (ok a) c w k = (w, k)
handle_database-kept P (raised (sql e)) c w k = (w, k)
handle_database-kept P (raised (database_error e)) c w k = (w, k)
handle_database-kept P (raised (dn42ctl_error e)) c w k = (w, k)
handle_database-kept P (raised (value_error e)) c w k = (w, k)

module _ {P : Tables → Type 0} {A : Type 0} where
  pub Keeps-as_dn42ctl : (m : M A) → Keeps P m → Keeps P (as_dn42ctl m)
  unfolding as_dn42ctl
  Keeps-as_dn42ctl m km = record {
    at = λ c w k. let (w', k') = km.at c w k in handle_database-kept P (m c).0 (m c).1 w' k';
  }

  pub Keeps-require_valid : (r : Checked A) → Keeps P (require_valid r)
  unfolding require_valid
  Keeps-require_valid (valid a) = Keeps-pure a
  Keeps-require_valid (invalid e) = Keeps-raise _

module _ {P : Tables → Type 0} where
  Keeps-generated : (o : Option (String × String)) → Keeps P (generated o)
  Keeps-generated none = search keeps_rules
  Keeps-generated (some keys) = search keeps_rules

  pub Keeps-resolve_wg_keypair :
      (draws : Draws) (a b : Option String) → Keeps P (resolve_wg_keypair draws a b)
  unfolding resolve_wg_keypair
  Keeps-resolve_wg_keypair draws none none = Keeps-generated draws.wg_keypair
  Keeps-resolve_wg_keypair draws (some x) (some y) = search keeps_rules
  Keeps-resolve_wg_keypair draws none (some y) = search keeps_rules
  Keeps-resolve_wg_keypair draws (some x) none = search keeps_rules

  pub Keeps-picked : (o : Option ℕ) → Keeps P (picked o)
  Keeps-picked none = search keeps_rules
  Keeps-picked (some port) = search keeps_rules

  pub Keeps-get_used_listen_ports : (node_id : String) → Keeps P (get_used_listen_ports node_id)
  unfolding get_used_listen_ports
  Keeps-get_used_listen_ports node_id = search keeps_rules depth 8

  pub Keeps-require_free :
      (node_id : String) (current : ℕ) (given_port : Option ℤ) (port : ℕ)
      → Keeps P (require_free node_id current given_port port)
  unfolding require_free
  Keeps-require_free node_id current given_port port =
      search (keeps_rules, Keeps-as_dn42ctl, Keeps-get_used_listen_ports) depth 9

  Keeps-refuse_used : (node_id : String) (port : ℕ) → Keeps P (refuse_used node_id port)
  unfolding refuse_used
  Keeps-refuse_used node_id port =
      search (keeps_rules, Keeps-as_dn42ctl, Keeps-get_used_listen_ports) depth 9

  Keeps-port_of :
      (node_id : String) (draws : Draws) (z : Option ℤ) → Keeps P (port_of node_id draws z)
  unfolding port_of
  Keeps-port_of node_id draws none =
      search (keeps_rules, Keeps-as_dn42ctl, Keeps-get_used_listen_ports, Keeps-picked) depth 9
  Keeps-port_of node_id draws (some z) =
      search (keeps_rules, Keeps-require_valid, Keeps-refuse_used) depth 9

  pub Keeps-tunnel_of :
      (lib : TextLibrary) (config_node_id node_id : String) (draws : Draws) (a : IbgpCreation)
      → Keeps P (tunnel_of lib config_node_id node_id draws a)
  unfolding tunnel_of normalize_net_backend
  Keeps-tunnel_of lib config_node_id node_id draws a =
      search (keeps_rules, Keeps-require_valid, Keeps-port_of, Keeps-resolve_wg_keypair) depth 12

  pub Keeps-bgp_port :
      (lib : TextLibrary) (config_node_id : String) (peer_asn : ℕ) (z : Option ℤ)
      → Keeps P (Bgp.port_of lib config_node_id peer_asn z)
  Keeps-bgp_port lib config_node_id peer_asn none = search keeps_rules
  Keeps-bgp_port lib config_node_id peer_asn (some z) = Keeps-require_valid _

  pub Keeps-refuse_existing : (o : Option BgpRow) → Keeps P (Bgp.refuse_existing o)
  Keeps-refuse_existing none = search keeps_rules
  Keeps-refuse_existing (some row) = search keeps_rules

  pub Keeps-bgp_row : (o : Option BgpRow) → Keeps P (Bgp.require_row o)
  Keeps-bgp_row none = search keeps_rules
  Keeps-bgp_row (some row) = search keeps_rules

  pub Keeps-ibgp_row : (o : Option IbgpRow) → Keeps P (Ibgp.require_row o)
  Keeps-ibgp_row none = search keeps_rules
  Keeps-ibgp_row (some row) = search keeps_rules

  pub Keeps-normalize_net_backend :
      (lib : TextLibrary) (text : String) → Keeps P (normalize_net_backend lib text)
  unfolding normalize_net_backend
  Keeps-normalize_net_backend lib text = Keeps-require_valid _

pub ruleset steps_rules = (
  keeps_rules, Keeps-as_dn42ctl, Keeps-require_valid, Keeps-resolve_wg_keypair, Keeps-require_free,
  Keeps-tunnel_of, Keeps-bgp_port, Keeps-refuse_existing, Keeps-bgp_row, Keeps-ibgp_row,
  Keeps-normalize_net_backend,
)
