-- ===== src/Payload/Tests.antt =====
-- The theorems on parsed peers at concrete payloads.
use dn42_utils.Base.{true, false, none, some, [], ◌∷◌, refl, ◌==◌, if◌then◌else◌, ◌||◌}
use dn42_utils.Json.{Json, pos, Fields, end, field}
use dn42_utils.Validators.{
  TextLibrary, validate_asn, validate_pubkey, validate_endpoint, validate_ipv6_address,
  validate_net_backend, validate_listen_port, validate_rxcost, validate_babel_type,
}
use dn42_utils.Payload.{BgpPeerPayload, IbgpPeerPayload, parse_bgp_peer, parse_ibgp_peer}
use dn42_utils.Payload.Laws.{
  IsBgpPeer, IsIbgpPeer, parse_bgp_peer-IsBgpPeer, parse_ibgp_peer-IsIbgpPeer,
}

-- A library that knows the texts of the payloads below.
abbrev pub some_texts : TextLibrary
some_texts = record {
  strip = λ s. s;
  lower = λ s. s;
  startswith = λ s p. false;
  endswith = λ s p. false;
  contains = λ needle s. false;
  split = λ sep s. s ∷ [];
  text_length = λ s. 5;
  inner = λ s. s;
  to_int = λ s. 51820;
  from_int = λ n. "51820";
  b64decode = λ s. if s == "key" then some 32 else none;
  endpoint_match = λ s. if s == "a.example:51820" then some ("a.example", "51820") else none;
  hostname_match = λ s. s == "a.example";
  is_ipv6_address = λ s. s == "fe80::2" || s == "fd00::2";
  is_ipv6_interface = λ s. false;
  is_ipv4_address = λ s. false;
  ipv6_network = λ s. none;
  ip_address = λ s. none;
}

abbrev bgp_fields : Fields
bgp_fields = field "peer_asn" (Json.int (pos 4242421080)) (
    field "peer_public_key" (Json.str "key") (
      field "peer_lla" (Json.str "fe80::2") (
        field "endpoint" (Json.str "a.example:51820")
          (field "listen_port" (Json.int (pos 31080)) end))))

abbrev bgp_payload : BgpPeerPayload
bgp_payload = record {
  peer_asn = 4242421080;
  peer_public_key = "key";
  endpoint = "a.example:51820";
  peer_lla = "fe80::2";
  net_backend = "networkd";
  listen_port = some 31080;
}

parse_bgp_peer-IsBgpPeer_example : IsBgpPeer some_texts bgp_payload
unfolding parse_bgp_peer validate_asn validate_pubkey validate_endpoint validate_ipv6_address
    validate_net_backend validate_listen_port
parse_bgp_peer-IsBgpPeer_example = parse_bgp_peer-IsBgpPeer some_texts bgp_fields bgp_payload refl

abbrev ibgp_fields : Fields
ibgp_fields = field "name" (Json.str "edge") (
    field "has_wg" (Json.bool true) (
      field "peer_public_key" (Json.str "key") (
        field "peer_lla" (Json.str "fe80::2") (
          field "peer_ip" (Json.str "fd00::2") (
            field "babel_rxcost" (Json.int (pos 96))
              (field "babel_type" (Json.str "tunnel") end))))))

abbrev ibgp_payload : IbgpPeerPayload
ibgp_payload = record {
  name = "edge";
  peer_ip = "fd00::2";
  has_wg = true;
  peer_public_key = some "key";
  endpoint = some "";
  peer_lla = some "fe80::2";
  net_backend = "networkd";
  babel_rxcost = 96;
  babel_type = "tunnel";
  listen_port = none;
}

parse_ibgp_peer-IsIbgpPeer_example : IsIbgpPeer some_texts true ibgp_payload
unfolding parse_ibgp_peer validate_rxcost validate_babel_type validate_pubkey validate_endpoint
    validate_ipv6_address validate_net_backend
parse_ibgp_peer-IsIbgpPeer_example =
    parse_ibgp_peer-IsIbgpPeer some_texts ibgp_fields (some true) ibgp_payload refl
