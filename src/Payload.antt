-- ===== src/Payload.antt =====
-- src/dn42ctl/services/peer_payload.py: peers in JSON that a node has sent.
pub mod Laws
pub mod Tests
use dn42_utils.Base.{ℕ, String, Bool, true, false, not, Option, none, some, if◌then◌else◌, ◌==◌}
use dn42_utils.Base.Text.{truthy}
use dn42_utils.Json.{ℤ, Json, Fields, get}
use dn42_utils.Database.Connection.{Exception, dn42ctl_error, Outcome, ok, raised}
use dn42_utils.Validators.{
  TextLibrary, Checked, valid, invalid, validate_asn, validate_babel_type, validate_endpoint,
  validate_ipv6_address, validate_listen_port, validate_net_backend, validate_pubkey,
  validate_rxcost,
}

abbrev pub default_net_backend : String
default_net_backend = "networkd"

pub record BgpPeerPayload : Type 0 where
  pub peer_asn : ℕ
  pub peer_public_key : String
  pub endpoint : String
  pub peer_lla : String
  pub net_backend : String
  pub listen_port : Option ℕ

pub record IbgpPeerPayload : Type 0 where
  pub name : String
  pub peer_ip : String
  pub has_wg : Bool
  pub peer_public_key : Option String
  pub endpoint : Option String
  pub peer_lla : Option String
  pub net_backend : String
  pub babel_rxcost : ℕ
  pub babel_type : String
  pub listen_port : Option ℕ

infixl 5 ◌>>=◌
-- Python's statements in sequence: the first exception ends them.
unfoldable pub ◌>>=◌ : {A B : Type 0} → Outcome A → (A → Outcome B) → Outcome B
ok a >>= f = f a
raised e >>= f = raised e

abbrev found : Option Json → Outcome Json
found none = raised (dn42ctl_error "peer payload 缺少必填字段")
found (some v) = ok v

unfoldable pub require : Fields → String → Outcome Json
require peer key = found (get key peer)

unfoldable pub as_int : Json → Outcome ℤ
as_int (Json.int z) = ok z
as_int v = raised (dn42ctl_error "必须是整数")

unfoldable pub as_str : Json → Outcome String
as_str (Json.str s) = ok s
as_str v = raised (dn42ctl_error "必须是字符串")

unfoldable pub as_bool : Json → Outcome Bool
as_bool (Json.bool b) = ok b
as_bool v = raised (dn42ctl_error "必须是布尔值")

-- `_checked`
unfoldable pub checked : {A : Type 0} → Checked A → Outcome A
checked (valid a) = ok a
checked (invalid e) = raised (dn42ctl_error e)

abbrev given_str : Outcome String → String → Outcome String
given_str (ok value) default = ok (if truthy value then value else default)
given_str (raised e) default = raised e

abbrev str_or : Option Json → String → Outcome String
str_or none default = ok default
str_or (some Json.null) default = ok default
str_or (some v) default = given_str (as_str v) default

unfoldable pub optional_str : Fields → String → String → Outcome String
unfolding as_str
optional_str peer key default = str_or (get key peer) default

abbrev port_of : Option Json → Outcome (Option ℕ)
port_of none = ok none
port_of (some Json.null) = ok none
port_of (some v) = do z ← as_int v; port ← checked (validate_listen_port true z); ok (some port)

unfoldable pub optional_listen_port : Fields → Outcome (Option ℕ)
unfolding as_int checked ◌>>=◌
optional_listen_port peer = port_of (get "listen_port" peer)

-- whether the WireGuard fields are read
abbrev pub validate_wg : Bool → Option Bool → Bool
validate_wg has_wg none = has_wg
validate_wg has_wg (some b) = b

module _ (lib : TextLibrary) where
  unfoldable pub net_backend_of : Fields → Outcome String
  unfolding ◌>>=◌ checked optional_str
  net_backend_of peer = do
    value ← optional_str peer "net_backend" default_net_backend
    checked (validate_net_backend lib value)

  unfoldable pub endpoint_of : Fields → Outcome String
  unfolding ◌>>=◌ checked optional_str
  endpoint_of peer = do
    value ← optional_str peer "endpoint" ""
    checked (validate_endpoint lib true value)

  unfoldable pub asn_of : Fields → Outcome ℕ
  unfolding ◌>>=◌ require as_int checked
  asn_of peer = do v ← require peer "peer_asn"; z ← as_int v; checked (validate_asn z)

  unfoldable pub key_of : Fields → Outcome String
  unfolding ◌>>=◌ require as_str checked
  key_of peer = do v ← require peer "peer_public_key"; s ← as_str v; checked (validate_pubkey lib s)

  unfoldable pub address_of : Fields → String → Outcome String
  unfolding ◌>>=◌ require as_str checked
  address_of peer key = do v ← require peer key; s ← as_str v; checked (validate_ipv6_address lib s)

  unfoldable pub parse_bgp_peer : Fields → Outcome BgpPeerPayload
  unfolding ◌>>=◌ asn_of key_of endpoint_of address_of net_backend_of optional_listen_port
  parse_bgp_peer peer = do
    asn ← asn_of peer
    key ← key_of peer
    endpoint ← endpoint_of peer
    lla ← address_of peer "peer_lla"
    backend ← net_backend_of peer
    port ← optional_listen_port peer
    ok (record {
      peer_asn = asn;
      peer_public_key = key;
      endpoint = endpoint;
      peer_lla = lla;
      net_backend = backend;
      listen_port = port;
    })

  -- `name.strip()` must leave something.
  unfoldable pub parse_ibgp_key : Fields → Outcome String
  unfolding ◌>>=◌ require as_str
  parse_ibgp_key key = do
    v ← require key "name"
    name ← as_str v
    if not (truthy (lib.strip name)) then raised (dn42ctl_error "name 不能为空") else ok name

  unfoldable pub parse_bgp_key : Fields → Outcome ℕ
  unfolding asn_of
  parse_bgp_key key = asn_of key

  -- `has_wg` of the payload counts only where `require_wg_fields` is None.
  abbrev has_wg_of : Fields → Option Bool → Outcome Bool
  has_wg_of peer none = do v ← require peer "has_wg"; as_bool v
  has_wg_of peer (some b) = ok true

  abbrev tunnel_of : Fields → Bool → Outcome (Option String × Option String)
  tunnel_of peer false = ok (none, none)
  tunnel_of peer true = do
    key ← key_of peer
    lla ← address_of peer "peer_lla"
    ok (some key, some lla)

  unfoldable pub rxcost_of : Fields → Outcome ℕ
  unfolding ◌>>=◌ require as_int checked
  rxcost_of peer = do v ← require peer "babel_rxcost"; z ← as_int v; checked (validate_rxcost z)

  unfoldable pub babel_type_of : Fields → Outcome String
  unfolding ◌>>=◌ require as_str checked
  babel_type_of peer = do
    v ← require peer "babel_type"
    s ← as_str v
    checked (validate_babel_type lib s)

  unfoldable pub parse_ibgp_peer : Fields → Option Bool → Outcome IbgpPeerPayload
  unfolding ◌>>=◌ parse_ibgp_key require as_bool key_of address_of endpoint_of net_backend_of
      rxcost_of babel_type_of optional_listen_port
  parse_ibgp_peer peer require_wg_fields = do
    name ← parse_ibgp_key peer
    has_wg ← has_wg_of peer require_wg_fields
    (key, lla) ← tunnel_of peer (validate_wg has_wg require_wg_fields)
    ip ← address_of peer "peer_ip"
    endpoint ← endpoint_of peer
    backend ← net_backend_of peer
    rxcost ← rxcost_of peer
    type ← babel_type_of peer
    port ← optional_listen_port peer
    ok (record {
      name = name;
      peer_ip = ip;
      has_wg = has_wg;
      peer_public_key = key;
      endpoint = some endpoint;
      peer_lla = lla;
      net_backend = backend;
      babel_rxcost = rxcost;
      babel_type = type;
      listen_port = port;
    })
