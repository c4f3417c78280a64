-- ===== src/Peering/Ibgp.antt =====
-- src/dn42ctl/services/ibgp.py. An unset `remote_node_id` of a modification keeps the stored one.
use Prim.Native.String.{◌++◌ as text_append}
use dn42_utils.Base.{ℕ, suc, String, Bool, true, not, Option, none, some, List, if◌then◌else◌, ltb}
use dn42_utils.Base.Text.{truthy, or_empty}
use dn42_utils.Constants.{Update}
use dn42_utils.Json.{ℤ, pos}
use dn42_utils.Database.Schema.{IbgpPeerRecord, IbgpRow}
use dn42_utils.Database.Connection.{M, dn42ctl_error, pure, raise, closing, ◌>>=◌, ◌>>◌}
use dn42_utils.Database.Peers.{
  get_ibgp_peer, insert_ibgp_peer, update_ibgp_peer, get_used_listen_ports,
}
use dn42_utils.Database.Peers
use dn42_utils.Validators.{
  TextLibrary, validate_listen_port, validate_allowed_ips_list, validate_rxcost,
  validate_babel_type,
}
use dn42_utils.Peering.Names.{sanitize_name}
use dn42_utils.Peering.Ports.{wanted_port, require_free, pick_unused_port, picked}
use dn42_utils.Peering.{
  PeerResult, DeleteResult, Draws, as_dn42ctl, require_valid, normalize_net_backend,
  open_db_and_ensure_node, resolve_wg_keypair, lla_or_random, node_or, ips_or, ibgp_allowed_ips,
  discard, is_used,
}

pub record IbgpCreation : Type 0 where
  pub name : String
  pub peer_ip : String
  pub has_wg : Bool
  pub peer_public_key : Option String
  pub endpoint : Option String
  pub peer_lla : Option String
  pub net_backend : Option String
  pub babel_rxcost : ℕ
  pub babel_type : String
  pub listen_port : Option ℤ
  pub wg_private_key : Option String
  pub wg_public_key : Option String
  pub local_lla : Option String
  pub node_id : Option String
  pub allowed_ips : Option (List String)
  pub remote_node_id : Option String

pub record IbgpUpdate : Type 0 where
  pub name : String
  pub peer_public_key : String
  pub endpoint : String
  pub peer_lla : String
  pub net_backend : String
  pub babel_rxcost : ℕ
  pub babel_type : String
  pub peer_ip : String
  pub listen_port : Option ℤ
  pub node_id : Option String
  pub allowed_ips : Option (List String)
  pub remote_node_id : Update (Option String)

-- What the WireGuard block of a creation settles.
pub record Tunnel : Type 0 where
  pub backend : String
  pub listen_port : ℕ
  pub private_key : String
  pub public_key : String
  pub local_lla : String

abbrev text_length : String → ℕ
text_length String.[] = 0
text_length (String.◌∷◌ c s) = suc (text_length s)

-- `net_backend or "networkd"`
abbrev pub backend_or : Option String → String
backend_or none = "networkd"
backend_or (some backend) = if truthy backend then backend else "networkd"

abbrev pub ifname_of : String → String
ifname_of peer_name = text_append "wg_" peer_name

abbrev pub check_ifname : String → M (Unit {0})
check_ifname ifname =
    if ltb 15 (text_length ifname) then raise (dn42ctl_error "接口名过长，请使用更短的 name") else pure tt

unfoldable pub refuse_used : String → ℕ → M (Unit {0})
unfolding as_dn42ctl
refuse_used node_id port =
    if ltb 0 port
    then (do
      used_ports ← as_dn42ctl (get_used_listen_ports node_id)
      if is_used port (discard 0 used_ports)
          then raise (dn42ctl_error "ListenPort 已被占用")
          else pure tt)
    else pure tt

-- The port that is picked, or the given one, which no row of the node may use.
unfoldable pub port_of : String → Draws → Option ℤ → M ℕ
unfolding as_dn42ctl require_valid pick_unused_port refuse_used
port_of node_id draws none = do
  used_ports ← as_dn42ctl (get_used_listen_ports node_id)
  picked (pick_unused_port draws.random_port (discard 0 used_ports))
port_of node_id draws (some z) = do
  port ← require_valid (validate_listen_port true z)
  refuse_used node_id port
  pure port

abbrev pub require_row : Option IbgpRow → M IbgpRow
require_row none = raise (dn42ctl_error "该 iBGP peer 不存在")
require_row (some row) = pure row

abbrev pub require_wg : IbgpRow → M (Unit {0})
require_wg row =
    if not row.has_wg
    then raise (dn42ctl_error "该 iBGP peer 未启用 WireGuard，不支持修改 WG 相关参数")
    else pure tt

module _ (lib : TextLibrary) (config_node_id : String) where
  abbrev no_tunnel : Tunnel
  no_tunnel = record {
    backend = "networkd";
    listen_port = 0;
    private_key = "";
    public_key = "";
    local_lla = "";
  }

  unfoldable pub tunnel_of : String → Draws → IbgpCreation → M Tunnel
  unfolding normalize_net_backend require_valid port_of resolve_wg_keypair
  tunnel_of node_id draws a =
      if a.has_wg
      then (do
        backend ← normalize_net_backend lib (backend_or a.net_backend)
        listen_port ← port_of node_id draws a.listen_port
        require_valid (validate_rxcost (pos a.babel_rxcost))
        require_valid (validate_babel_type lib a.babel_type)
        (private_key, public_key) ← resolve_wg_keypair draws a.wg_private_key a.wg_public_key
        require_valid (validate_allowed_ips_list lib (ips_or a.allowed_ips ibgp_allowed_ips))
        pure (record {
          backend = backend;
          listen_port = listen_port;
          private_key = private_key;
          public_key = public_key;
          local_lla = lla_or_random draws a.local_lla;
        }))
      else pure no_tunnel

  abbrev pub ibgp_record : String → String → IbgpCreation → Tunnel → IbgpPeerRecord
  ibgp_record node_id peer_name a tunnel = record {
    base = record {
      node_id = node_id;
      ifname = ifname_of peer_name;
      wg_private_key = tunnel.private_key;
      wg_public_key = tunnel.public_key;
      peer_public_key = some (or_empty a.peer_public_key);
      endpoint = some (or_empty a.endpoint);
      local_lla = tunnel.local_lla;
      peer_lla = some (or_empty a.peer_lla);
      listen_port = tunnel.listen_port;
      allowed_ips = ips_or a.allowed_ips ibgp_allowed_ips;
      net_backend = tunnel.backend;
    };
    name = peer_name;
    babel_rxcost = a.babel_rxcost;
    peer_ip = some a.peer_ip;
    has_wg = a.has_wg;
    babel_type = a.babel_type;
    remote_node_id = a.remote_node_id;
  }

  unfoldable pub create_ibgp_peer : String → Draws → IbgpCreation → M PeerResult
  unfolding open_db_and_ensure_node as_dn42ctl require_valid tunnel_of
  create_ibgp_peer now draws a = closing (do
    open_db_and_ensure_node now (node_or a.node_id config_node_id)
    peer_name ← require_valid (sanitize_name lib a.name)
    check_ifname (ifname_of peer_name)
    tunnel ← tunnel_of (node_or a.node_id config_node_id) draws a
    as_dn42ctl
        (insert_ibgp_peer now (ibgp_record (node_or a.node_id config_node_id) peer_name a tunnel))
    pure (record {
      ifname = ifname_of peer_name;
      listen_port = tunnel.listen_port;
      wg_public_key = tunnel.public_key;
      local_lla = tunnel.local_lla;
    }))

  unfoldable pub modify_ibgp_peer : String → IbgpUpdate → M PeerResult
  unfolding normalize_net_backend open_db_and_ensure_node as_dn42ctl require_valid require_free
  modify_ibgp_peer now a = do
    let node_id = node_or a.node_id config_node_id
    backend ← normalize_net_backend lib a.net_backend
    require_valid (validate_rxcost (pos a.babel_rxcost))
    require_valid (validate_babel_type lib a.babel_type)
    closing (do
      open_db_and_ensure_node now node_id
      peer_name ← require_valid (sanitize_name lib a.name)
      found ← as_dn42ctl (get_ibgp_peer node_id peer_name)
      row ← require_row found
      require_wg row
      new_listen_port ←
          require_valid (validate_listen_port true (wanted_port row.listen_port a.listen_port))
      require_free node_id row.listen_port a.listen_port new_listen_port
      require_valid (validate_allowed_ips_list lib (ips_or a.allowed_ips row.allowed_ips))
      as_dn42ctl (
          update_ibgp_peer now node_id peer_name (record {
            base = record {
              peer_public_key = some a.peer_public_key;
              endpoint = some a.endpoint;
              peer_lla = some a.peer_lla;
              listen_port = new_listen_port;
              allowed_ips = ips_or a.allowed_ips row.allowed_ips;
              net_backend = backend;
            };
            babel_rxcost = a.babel_rxcost;
            peer_ip = some a.peer_ip;
            babel_type = a.babel_type;
            remote_node_id = a.remote_node_id;
          }))
      pure (record {
        ifname = row.ifname;
        listen_port = new_listen_port;
        wg_public_key = row.wg_public_key;
        local_lla = row.local_lla;
      }))

  unfoldable pub delete_ibgp_peer : String → String → Option String → M DeleteResult
  unfolding as_dn42ctl require_valid
  delete_ibgp_peer now name node_id = closing (do
    peer_name ← require_valid (sanitize_name lib name)
    found ← as_dn42ctl (get_ibgp_peer (node_or node_id config_node_id) peer_name)
    row ← require_row found
    as_dn42ctl (Peers.delete_ibgp_peer now (node_or node_id config_node_id) peer_name)
    pure (record { kind = "ibgp"; peer_asn = none; name = some peer_name }))
