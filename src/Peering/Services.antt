-- ===== src/Peering/Services.antt =====
-- The peer services as src/dn42ctl/services/proposal_decisions.py calls them. The clock and the draws of
-- a call may be any function of the connection.
use dn42_utils.Base.{ℕ, String, Option, none, some}
use dn42_utils.Constants.{unset}
use dn42_utils.Json.{ℤ, pos}
use dn42_utils.Database.Connection.{M, Connection, pure, ◌>>=◌}
use dn42_utils.Validators.{TextLibrary}
use dn42_utils.Payload.{BgpPeerPayload, IbgpPeerPayload}
use dn42_utils.Decisions.Interface.{PeerServices, IbgpModification}
use dn42_utils.Peering.{Draws}
use dn42_utils.Peering.Bgp.{
  BgpCreation, BgpModification, create_bgp_peer, modify_bgp_peer, delete_bgp_peer,
}
use dn42_utils.Peering.Ibgp.{
  IbgpCreation, IbgpUpdate, create_ibgp_peer, modify_ibgp_peer, delete_ibgp_peer,
}

abbrev port_of : Option ℕ → Option ℤ
port_of none = none
port_of (some port) = some (pos port)

abbrev pub bgp_creation : String → BgpPeerPayload → BgpCreation
bgp_creation target parsed = record {
  peer_asn = parsed.peer_asn;
  peer_public_key = parsed.peer_public_key;
  endpoint = parsed.endpoint;
  peer_lla = parsed.peer_lla;
  net_backend = parsed.net_backend;
  listen_port = port_of parsed.listen_port;
  wg_private_key = none;
  wg_public_key = none;
  local_lla = none;
  node_id = some target;
  allowed_ips = none;
}

abbrev pub bgp_modification : String → BgpPeerPayload → BgpModification
bgp_modification target parsed = record {
  peer_asn = parsed.peer_asn;
  peer_public_key = parsed.peer_public_key;
  endpoint = parsed.endpoint;
  peer_lla = parsed.peer_lla;
  net_backend = parsed.net_backend;
  listen_port = port_of parsed.listen_port;
  node_id = some target;
  allowed_ips = none;
}

abbrev pub ibgp_creation : String → IbgpPeerPayload → IbgpCreation
ibgp_creation target parsed = record {
  name = parsed.name;
  peer_ip = parsed.peer_ip;
  has_wg = parsed.has_wg;
  peer_public_key = parsed.peer_public_key;
  endpoint = parsed.endpoint;
  peer_lla = parsed.peer_lla;
  net_backend = some parsed.net_backend;
  babel_rxcost = parsed.babel_rxcost;
  babel_type = parsed.babel_type;
  listen_port = port_of parsed.listen_port;
  wg_private_key = none;
  wg_public_key = none;
  local_lla = none;
  node_id = some target;
  allowed_ips = none;
  remote_node_id = none;
}

abbrev pub ibgp_update : String → IbgpModification → IbgpUpdate
ibgp_update target a = record {
  name = a.name;
  peer_public_key = a.peer_public_key;
  endpoint = a.endpoint;
  peer_lla = a.peer_lla;
  net_backend = a.net_backend;
  babel_rxcost = a.babel_rxcost;
  babel_type = a.babel_type;
  peer_ip = a.peer_ip;
  listen_port = port_of a.listen_port;
  node_id = some target;
  allowed_ips = none;
  remote_node_id = unset;
}

abbrev discard_result : {A : Type 0} → M A → M (Unit {0})
discard_result m = m >>= λ _. pure tt

module _ (lib : TextLibrary) (config_node_id : String) (clock : Connection → String)
    (draws : Connection → Draws) where
  unfoldable pub services : PeerServices
  services = record {
    create_bgp_peer = λ n a c.
        discard_result (create_bgp_peer lib config_node_id (clock c) (draws c) (bgp_creation n a))
          c;
    modify_bgp_peer = λ n a c.
        discard_result (modify_bgp_peer lib config_node_id (clock c) (bgp_modification n a)) c;
    delete_bgp_peer =
        λ n k c. discard_result (delete_bgp_peer lib config_node_id (clock c) k (some n)) c;
    create_ibgp_peer = λ n a c.
        discard_result (create_ibgp_peer lib config_node_id (clock c) (draws c) (ibgp_creation n a))
          c;
    modify_ibgp_peer =
        λ n a c. discard_result (modify_ibgp_peer lib config_node_id (clock c) (ibgp_update n a)) c;
    delete_ibgp_peer =
        λ n k c. discard_result (delete_ibgp_peer lib config_node_id (clock c) k (some n)) c;
  }
