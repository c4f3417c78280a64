-- ===== src/Peering/Bgp.antt =====
-- src/dn42ctl/services/bgp.py. `now` is the clock of the database methods; a column of allowed IPs holds
-- the list that its JSON encodes.
use Prim.Native.String.{◌++◌ as text_append}
use dn42_utils.Base.{ℕ, zero, suc, ◌-◌, String, true, Option, none, some, List, if◌then◌else◌, ltb}
use dn42_utils.Constants.{max_port}
use dn42_utils.Json.{ℤ}
use dn42_utils.Database.Schema.{BgpRow}
use dn42_utils.Database.Connection.{M, dn42ctl_error, pure, raise, closing, ◌>>=◌, ◌>>◌}
use dn42_utils.Database.Peers.{
  get_bgp_peer, insert_bgp_peer, update_bgp_peer, get_used_listen_ports,
}
use dn42_utils.Database.Peers
use dn42_utils.Validators.{TextLibrary, validate_listen_port, validate_allowed_ips_list}
use dn42_utils.Peering.Ports.{wanted_port, require_free}
use dn42_utils.Peering.{
  PeerResult, DeleteResult, Draws, as_dn42ctl, require_valid, normalize_net_backend,
  open_db_and_ensure_node, resolve_wg_keypair, lla_or_random, node_or, ips_or, default_allowed_ips,
}

pub record BgpCreation : Type 0 where
  pub peer_asn : ℕ
  pub peer_public_key : String
  pub endpoint : String
  pub peer_lla : String
  pub net_backend : String
  pub listen_port : Option ℤ
  pub wg_private_key : Option String
  pub wg_public_key : Option String
  pub local_lla : Option String
  pub node_id : Option String
  pub allowed_ips : Option (List String)

pub record BgpModification : Type 0 where
  pub peer_asn : ℕ
  pub peer_public_key : String
  pub endpoint : String
  pub peer_lla : String
  pub net_backend : String
  pub listen_port : Option ℤ
  pub node_id : Option String
  pub allowed_ips : Option (List String)

abbrev text_length : String → ℕ
text_length String.[] = 0
text_length (String.◌∷◌ c s) = suc (text_length s)

abbrev drop_text : ℕ → String → String
drop_text zero s = s
drop_text (suc n) String.[] = ""
drop_text (suc n) (String.◌∷◌ c s) = drop_text n s

-- `text[-n:]`
abbrev last_of : ℕ → String → String
last_of n s = drop_text (text_length s - n) s

abbrev pub refuse_existing : Option BgpRow → M (Unit {0})
refuse_existing none = pure tt
refuse_existing (some row) = raise (dn42ctl_error "该 BGP peer 已存在，请使用 bgp peer modify")

abbrev pub require_row : Option BgpRow → M BgpRow
require_row none = raise (dn42ctl_error "该 BGP peer 不存在")
require_row (some row) = pure row

module _ (lib : TextLibrary) (config_node_id : String) where
  -- The port from the AS number, or the given one.
  abbrev pub port_of : ℕ → Option ℤ → M ℕ
  port_of peer_asn none =
      let port = lib.to_int (last_of 5 (lib.from_int peer_asn)) in
      if ltb max_port port then raise (dn42ctl_error "由 ASN 推导的 ListenPort 超出范围") else pure port
  port_of peer_asn (some z) = require_valid (validate_listen_port true z)

  abbrev pub ifname_of : ℕ → String
  ifname_of peer_asn = text_append "dn42_" (last_of 4 (lib.from_int peer_asn))

  unfoldable pub create_bgp_peer : String → Draws → BgpCreation → M PeerResult
  unfolding normalize_net_backend open_db_and_ensure_node as_dn42ctl require_valid
      resolve_wg_keypair
  create_bgp_peer now draws a = do
    let node_id = node_or a.node_id config_node_id
    let effective_allowed_ips = ips_or a.allowed_ips default_allowed_ips
    backend ← normalize_net_backend lib a.net_backend
    closing (do
      open_db_and_ensure_node now node_id
      existing ← as_dn42ctl (get_bgp_peer node_id a.peer_asn)
      refuse_existing existing
      listen_port ← port_of a.peer_asn a.listen_port
      (private_key, public_key) ← resolve_wg_keypair draws a.wg_private_key a.wg_public_key
      require_valid (validate_allowed_ips_list lib effective_allowed_ips)
      as_dn42ctl (
          insert_bgp_peer now (record {
            base = record {
              node_id = node_id;
              ifname = ifname_of a.peer_asn;
              wg_private_key = private_key;
              wg_public_key = public_key;
              peer_public_key = some a.peer_public_key;
              endpoint = some a.endpoint;
              local_lla = lla_or_random draws a.local_lla;
              peer_lla = some a.peer_lla;
              listen_port = listen_port;
              allowed_ips = effective_allowed_ips;
              net_backend = backend;
            };
            peer_asn = a.peer_asn;
          }))
      pure (record {
        ifname = ifname_of a.peer_asn;
        listen_port = listen_port;
        wg_public_key = public_key;
        local_lla = lla_or_random draws a.local_lla;
      }))

  unfoldable pub modify_bgp_peer : String → BgpModification → M PeerResult
  unfolding normalize_net_backend open_db_and_ensure_node as_dn42ctl require_valid
  modify_bgp_peer now a = do
    let node_id = node_or a.node_id config_node_id
    backend ← normalize_net_backend lib a.net_backend
    closing (do
      open_db_and_ensure_node now node_id
      found ← as_dn42ctl (get_bgp_peer node_id a.peer_asn)
      row ← require_row found
      new_listen_port ←
          require_valid (validate_listen_port true (wanted_port row.listen_port a.listen_port))
      require_free node_id row.listen_port a.listen_port new_listen_port
      require_valid (validate_allowed_ips_list lib (ips_or a.allowed_ips row.allowed_ips))
      as_dn42ctl (
          update_bgp_peer now node_id a.peer_asn (record {
            peer_public_key = some a.peer_public_key;
            endpoint = some a.endpoint;
            peer_lla = some a.peer_lla;
            listen_port = new_listen_port;
            allowed_ips = ips_or a.allowed_ips row.allowed_ips;
            net_backend = backend;
          }))
      pure (record {
        ifname = row.ifname;
        listen_port = new_listen_port;
        wg_public_key = row.wg_public_key;
        local_lla = row.local_lla;
      }))

  unfoldable pub delete_bgp_peer : String → ℕ → Option String → M DeleteResult
  unfolding as_dn42ctl
  delete_bgp_peer now peer_asn node_id = closing (do
    found ← as_dn42ctl (get_bgp_peer (node_or node_id config_node_id) peer_asn)
    row ← require_row found
    as_dn42ctl (Peers.delete_bgp_peer now (node_or node_id config_node_id) peer_asn)
    pure (record { kind = "bgp"; peer_asn = some peer_asn; name = none }))
