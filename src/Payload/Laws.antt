-- ===== src/Payload/Laws.antt =====
-- What a peer that was parsed promises of its fields.
use dn42_utils.Base.{
  ℕ, String, ◌≡◌, ◌≤◌, ◌⊎◌, refl, subst, Bool, true, false, Option, none, some, arith,
}
use dn42_utils.Base.Text.{truthy, mem}
use dn42_utils.Json.{Json, Fields, get}
use dn42_utils.Constants.{max_port, max_asn, babel_valid_types}
use dn42_utils.Database.Connection.{Outcome, ok, raised}
use dn42_utils.Validators.{TextLibrary, Checked, valid, invalid, is_ipv6, validate_listen_port}
use dn42_utils.Database.Connection.Inversion.{ok_injective}
use dn42_utils.Validators.Bounds.{
  validate_asn-bounds, validate_listen_port-bounds, validate_rxcost-bounds, IsKey,
  validate_pubkey-IsKey, IsEndpoint, validate_endpoint-IsEndpoint, validate_ipv6_address-is_ipv6,
  validate_net_backend-known, validate_babel_type-known,
}
use dn42_utils.Payload.{
  BgpPeerPayload, IbgpPeerPayload, ◌>>=◌, checked, require, as_int, as_str, asn_of, key_of,
  endpoint_of, address_of, net_backend_of, optional_listen_port, port_of, parse_bgp_peer,
  parse_ibgp_peer, optional_str, tunnel_of, has_wg_of, rxcost_of, babel_type_of, parse_ibgp_key,
  validate_wg,
}

>>=-eq-ok :
    {A B : Type 0} (m : Outcome A) (f : A → Outcome B) (b : B)
    → (m >>= f) ≡ ok b
    → (a : A) × (m ≡ ok a) × (f a ≡ ok b)
unfolding ◌>>=◌
>>=-eq-ok (ok a) f b h = (a, refl, h)
>>=-eq-ok (raised e) f b h = ground arith

checked-eq-ok : {A : Type 0} (r : Checked A) (a : A) → checked r ≡ ok a → r ≡ valid a
unfolding checked
checked-eq-ok (valid x) a h = ground arith
checked-eq-ok (invalid e) a h = ground arith

-- No port, or one in 0..65535.
abbrev pub IsPort : Option ℕ → Type 0
IsPort none = Unit
IsPort (some n) = n ≤ max_port

port_of-IsPort : (o : Option Json) (port : Option ℕ) → port_of o ≡ ok port → IsPort port
unfolding ◌>>=◌ as_int checked
port_of-IsPort o none h = tt
port_of-IsPort none (some n) h = ground arith
port_of-IsPort (some v) (some n) h = go v h
  where
    go : (v : Json) → port_of (some v) ≡ ok (some n) → n ≤ max_port
    go (Json.int z) h =
        let (m, ran, same) = >>=-eq-ok (checked (validate_listen_port true z)) _ _ h in
        let le = validate_listen_port-bounds true z m (checked-eq-ok _ m ran) in ground arith
    go Json.null h = ground arith
    go (Json.bool b) h = ground arith
    go (Json.float s) h = ground arith
    go (Json.str s) h = ground arith
    go (Json.arr s) h = ground arith
    go (Json.obj s) h = ground arith

asn_of-bounds :
    (lib : TextLibrary) (peer : Fields) (n : ℕ) → asn_of lib peer ≡ ok n → (1 ≤ n) × (n ≤ max_asn)
unfolding asn_of
asn_of-bounds lib peer n h =
    let (v, _, h1) = >>=-eq-ok (require peer "peer_asn") _ n h in
    let (z, _, h2) = >>=-eq-ok (as_int v) _ n h1 in validate_asn-bounds z n (checked-eq-ok _ n h2)

module _ (lib : TextLibrary) where
  key_of-IsKey : (peer : Fields) (key : String) → key_of lib peer ≡ ok key → IsKey lib key
  unfolding key_of
  key_of-IsKey peer key h =
      let (v, _, h1) = >>=-eq-ok (require peer "peer_public_key") _ key h in
      let (s, _, h2) = >>=-eq-ok (as_str v) _ key h1 in
      validate_pubkey-IsKey lib s key (checked-eq-ok _ key h2)

  address_of-is_ipv6 :
      (peer : Fields) (name a : String) → address_of lib peer name ≡ ok a → is_ipv6 lib a ≡ true
  unfolding address_of
  address_of-is_ipv6 peer name a h =
      let (v, _, h1) = >>=-eq-ok (require peer name) _ a h in
      let (s, _, h2) = >>=-eq-ok (as_str v) _ a h1 in
      validate_ipv6_address-is_ipv6 lib s a (checked-eq-ok _ a h2)

  endpoint_of-IsEndpoint :
      (peer : Fields) (e : String)
      → endpoint_of lib peer ≡ ok e
      → (truthy e ≡ false) ⊎ IsEndpoint lib e
  unfolding endpoint_of
  endpoint_of-IsEndpoint peer e h =
      let (s, _, h1) = >>=-eq-ok (optional_str peer "endpoint" "") _ e h in
      validate_endpoint-IsEndpoint lib true s e (checked-eq-ok _ e h1)

  net_backend_of-known :
      (peer : Fields) (b : String) → net_backend_of lib peer ≡ ok b → (b ≡ "networkd") ⊎ (b ≡ "nm")
  unfolding net_backend_of
  net_backend_of-known peer b h =
      let (s, _, h1) = >>=-eq-ok (optional_str peer "net_backend" _) _ b h in
      validate_net_backend-known lib s b (checked-eq-ok _ b h1)

  optional_listen_port-IsPort :
      (peer : Fields) (port : Option ℕ) → optional_listen_port peer ≡ ok port → IsPort port
  unfolding optional_listen_port
  optional_listen_port-IsPort peer port h = port_of-IsPort (get "listen_port" peer) port h

  -- A peer that can be rendered: every field is in its range.
  abbrev pub IsBgpPeer : BgpPeerPayload → Type 0
  IsBgpPeer p =
      ((1 ≤ p.peer_asn) × (p.peer_asn ≤ max_asn))
      × IsKey lib p.peer_public_key
      × ((truthy p.endpoint ≡ false) ⊎ IsEndpoint lib p.endpoint)
      × (is_ipv6 lib p.peer_lla ≡ true)
      × ((p.net_backend ≡ "networkd") ⊎ (p.net_backend ≡ "nm"))
      × IsPort p.listen_port

  -- A BGP payload that is accepted has an AS number of 32 bits that is not 0, a key of 32 bytes,
  -- an empty endpoint or one with a port from 1 to 65535, an IPv6 link-local field, a known back
  -- end, and no listen port or one up to 65535.
  pub parse_bgp_peer-IsBgpPeer :
      (peer : Fields) (p : BgpPeerPayload) → parse_bgp_peer lib peer ≡ ok p → IsBgpPeer p
  unfolding parse_bgp_peer
  parse_bgp_peer-IsBgpPeer peer p h =
      let (asn, e1, h1) = >>=-eq-ok (asn_of lib peer) _ p h in
      let (key, e2, h2) = >>=-eq-ok (key_of lib peer) _ p h1 in
      let (endpoint, e3, h3) = >>=-eq-ok (endpoint_of lib peer) _ p h2 in
      let (lla, e4, h4) = >>=-eq-ok (address_of lib peer "peer_lla") _ p h3 in
      let (backend, e5, h5) = >>=-eq-ok (net_backend_of lib peer) _ p h4 in
      let (port, e6, h6) = >>=-eq-ok (optional_listen_port peer) _ p h5 in
      subst IsBgpPeer (ok_injective _ p h6) (
        asn_of-bounds lib peer asn e1,
        key_of-IsKey peer key e2,
        endpoint_of-IsEndpoint peer endpoint e3,
        address_of-is_ipv6 peer "peer_lla" lla e4,
        net_backend_of-known peer backend e5,
        optional_listen_port-IsPort peer port e6,
      )

  -- The WireGuard fields, for a peer with a tunnel.
  abbrev pub IsTunnel : Bool → Option String → Option String → Type 0
  IsTunnel true (some key) (some lla) = IsKey lib key × (is_ipv6 lib lla ≡ true)
  IsTunnel false none none = Unit
  IsTunnel _ _ _ = ⊥

  tunnel_of-IsTunnel :
      (peer : Fields) (w : Bool) (key lla : Option String)
      → tunnel_of lib peer w ≡ ok (key, lla)
      → IsTunnel w key lla
  unfolding ◌>>=◌
  tunnel_of-IsTunnel peer w key lla h = go w h
    where
      go : (w : Bool) → tunnel_of lib peer w ≡ ok (key, lla) → IsTunnel w key lla
      go false h =
          let same = ok_injective _ _ h in
          subst (λ (t : Option String × Option String). IsTunnel false t.0 t.1) same tt
      go true h =
          let (k, e1, h1) = >>=-eq-ok (key_of lib peer) _ _ h in
          let (a, e2, h2) = >>=-eq-ok (address_of lib peer "peer_lla") _ _ h1 in
          subst (λ (t : Option String × Option String). IsTunnel true t.0 t.1) (ok_injective _ _ h2)
            (key_of-IsKey peer k e1, address_of-is_ipv6 peer "peer_lla" a e2)

  rxcost_of-bounds : (peer : Fields) (n : ℕ) → rxcost_of lib peer ≡ ok n → n ≤ max_port
  unfolding rxcost_of
  rxcost_of-bounds peer n h =
      let (v, _, h1) = >>=-eq-ok (require peer "babel_rxcost") _ n h in
      let (z, _, h2) = >>=-eq-ok (as_int v) _ n h1 in
      validate_rxcost-bounds z n (checked-eq-ok _ n h2)

  babel_type_of-known :
      (peer : Fields) (b : String) → babel_type_of lib peer ≡ ok b → mem b babel_valid_types ≡ true
  unfolding babel_type_of
  babel_type_of-known peer b h =
      let (v, _, h1) = >>=-eq-ok (require peer "babel_type") _ b h in
      let (s, _, h2) = >>=-eq-ok (as_str v) _ b h1 in
      validate_babel_type-known lib s b (checked-eq-ok _ b h2)

  parse_ibgp_key-named :
      (key : Fields) (name : String)
      → parse_ibgp_key lib key ≡ ok name
      → truthy (lib.strip name) ≡ true
  unfolding parse_ibgp_key
  parse_ibgp_key-named key name h =
      let (v, _, h1) = >>=-eq-ok (require key "name") _ name h in
      let (s, _, h2) = >>=-eq-ok (as_str v) _ name h1 in ground arith

  -- The fields that do not depend on a tunnel, and the tunnel.
  abbrev pub IsIbgpPeer : Bool → IbgpPeerPayload → Type 0
  IsIbgpPeer validated p =
      (truthy (lib.strip p.name) ≡ true)
      × (is_ipv6 lib p.peer_ip ≡ true)
      × IsTunnel validated p.peer_public_key p.peer_lla
      × ((p.net_backend ≡ "networkd") ⊎ (p.net_backend ≡ "nm"))
      × (p.babel_rxcost ≤ max_port)
      × (mem p.babel_type babel_valid_types ≡ true)
      × IsPort p.listen_port

  -- An iBGP payload that is accepted has a name, an IPv6 address, a known back end, a cost up to
  -- 65535, a known Babel type and no listen port or one up to 65535; its WireGuard key and link-
  -- local address are both valid or both absent, by the payload's has_wg or by the caller's
  -- require_wg_fields where that is given.
  pub parse_ibgp_peer-IsIbgpPeer :
      (peer : Fields) (require_wg_fields : Option Bool) (p : IbgpPeerPayload)
      → parse_ibgp_peer lib peer require_wg_fields ≡ ok p
      → IsIbgpPeer (validate_wg p.has_wg require_wg_fields) p
  unfolding parse_ibgp_peer
  parse_ibgp_peer-IsIbgpPeer peer r p h =
      let (name, e1, h1) = >>=-eq-ok (parse_ibgp_key lib peer) _ p h in
      let (w, e2, h2) = >>=-eq-ok (has_wg_of lib peer r) _ p h1 in
      let ((key, lla), e3, h3) = >>=-eq-ok (tunnel_of lib peer (validate_wg w r)) _ p h2 in
      let (ip, e4, h4) = >>=-eq-ok (address_of lib peer "peer_ip") _ p h3 in
      let (endpoint, e5, h5) = >>=-eq-ok (endpoint_of lib peer) _ p h4 in
      let (backend, e6, h6) = >>=-eq-ok (net_backend_of lib peer) _ p h5 in
      let (rxcost, e7, h7) = >>=-eq-ok (rxcost_of lib peer) _ p h6 in
      let (type, e8, h8) = >>=-eq-ok (babel_type_of lib peer) _ p h7 in
      let (port, e9, h9) = >>=-eq-ok (optional_listen_port peer) _ p h8 in
      subst (λ (q : IbgpPeerPayload). IsIbgpPeer (validate_wg q.has_wg r) q) (ok_injective _ p h9)
        (
          parse_ibgp_key-named peer name e1,
          address_of-is_ipv6 peer "peer_ip" ip e4,
          tunnel_of-IsTunnel peer (validate_wg w r) key lla e3,
          net_backend_of-known peer backend e6,
          rxcost_of-bounds peer rxcost e7,
          babel_type_of-known peer type e8,
          optional_listen_port-IsPort peer port e9,
        )
