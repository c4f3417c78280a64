-- ===== src/Decisions/Interface.antt =====
-- What src/dn42ctl/services/proposal_decisions.py calls of services/bgp.py and services/ibgp.py, with
-- `render_files=False`.
use dn42_utils.Base.{ℕ, String, Option}
use dn42_utils.Database.Connection.{M}
use dn42_utils.Payload.{BgpPeerPayload, IbgpPeerPayload}

-- The arguments of `modify_ibgp_peer`.
pub record IbgpModification : Type 0 where
  pub name : String
  pub peer_public_key : String
  pub endpoint : String
  pub peer_lla : String
  pub peer_ip : String
  pub net_backend : String
  pub babel_rxcost : ℕ
  pub babel_type : String
  pub listen_port : Option ℕ

-- Each takes the node first.
pub record PeerServices : Type 0 where
  pub create_bgp_peer : String → BgpPeerPayload → M (Unit {0})
  pub modify_bgp_peer : String → BgpPeerPayload → M (Unit {0})
  pub delete_bgp_peer : String → ℕ → M (Unit {0})
  pub create_ibgp_peer : String → IbgpPeerPayload → M (Unit {0})
  pub modify_ibgp_peer : String → IbgpModification → M (Unit {0})
  pub delete_ibgp_peer : String → String → M (Unit {0})
