-- ===== src/Validators/Bounds.antt =====
-- What the validators promise of an accepted value.
use dn42_utils.Base.{
  ℕ, String, ◌≡◌, ◌≤◌, Option, none, some, arith, true, false, ◌⊎◌, inl, inr, Bool, Bool-cases,
  refl,
}
use dn42_utils.Base.Text.{truthy, mem}
use dn42_utils.Json.{ℤ, pos, negsuc}
use dn42_utils.Constants.{max_port, max_asn, wg_key_bytes, babel_valid_types}
use dn42_utils.Validators.{
  TextLibrary, valid, validate_listen_port, validate_rxcost, validate_asn, validate_pubkey,
  validate_endpoint, validate_ipv6_address, validate_net_backend, validate_babel_type, is_ipv6,
  check_key, check_endpoint,
}

pub validate_asn-bounds : (v : ℤ) (n : ℕ) → validate_asn v ≡ valid n → (1 ≤ n) × (n ≤ max_asn)
unfolding validate_asn
validate_asn-bounds (pos k) n h = ground arith
validate_asn-bounds (negsuc k) n h = ground arith

pub validate_listen_port-bounds :
    (allow_zero : Bool) (v : ℤ) (n : ℕ) → validate_listen_port allow_zero v ≡ valid n → n ≤ max_port
unfolding validate_listen_port
validate_listen_port-bounds allow_zero (pos k) n h = ground arith
validate_listen_port-bounds allow_zero (negsuc k) n h = ground arith

pub validate_rxcost-bounds : (v : ℤ) (n : ℕ) → validate_rxcost v ≡ valid n → n ≤ max_port
unfolding validate_rxcost
validate_rxcost-bounds (pos k) n h = ground arith
validate_rxcost-bounds (negsuc k) n h = ground arith

module _ (lib : TextLibrary) where
  -- A WireGuard key: base64 text of 32 bytes.
  abbrev pub IsKey : String → Type 0
  IsKey key = lib.b64decode key ≡ some wg_key_bytes

  check_key-IsKey :
      (value key : String) (o : Option ℕ)
      → lib.b64decode value ≡ o
      → check_key lib value o ≡ valid key
      → IsKey key
  check_key-IsKey value key none got h = ground arith
  check_key-IsKey value key (some n) got h = ground arith

  pub validate_pubkey-IsKey : (text key : String) → validate_pubkey lib text ≡ valid key → IsKey key
  unfolding validate_pubkey
  validate_pubkey-IsKey text key h = elim (Bool-cases (truthy (lib.strip text))) [
    | inl full ↦ check_key-IsKey (lib.strip text) key _ refl (rw full at h)
    | inr empty ↦ ground arith
  ]

  -- An endpoint whose port is in 1..65535.
  abbrev pub IsEndpoint : String → Type 0
  IsEndpoint e =
      (host : String) × (digits : String) × (lib.endpoint_match e ≡ some (host, digits))
      × (1 ≤ lib.to_int digits)
      × (lib.to_int digits ≤ max_port)

  check_endpoint-IsEndpoint :
      (value e : String) (o : Option (String × String))
      → lib.endpoint_match value ≡ o
      → check_endpoint lib value o ≡ valid e
      → IsEndpoint e
  check_endpoint-IsEndpoint value e none got h = ground arith
  check_endpoint-IsEndpoint value e (some (host, digits)) got h =
      let same : value ≡ e = ground arith in
      (host, digits, rw (← same) got, ground arith, ground arith)

  pub validate_endpoint-IsEndpoint :
      (allow_empty : Bool) (text e : String)
      → validate_endpoint lib allow_empty text ≡ valid e
      → (truthy e ≡ false) ⊎ IsEndpoint e
  unfolding validate_endpoint
  validate_endpoint-IsEndpoint allow_empty text e h = elim (Bool-cases (truthy (lib.strip text))) [
    | inl full ↦ inr (check_endpoint-IsEndpoint (lib.strip text) e _ refl (rw full at h))
    | inr empty ↦ inl (ground arith)
  ]

  pub validate_ipv6_address-is_ipv6 :
      (text a : String) → validate_ipv6_address lib text ≡ valid a → is_ipv6 lib a ≡ true
  unfolding validate_ipv6_address
  validate_ipv6_address-is_ipv6 text a h = ground arith

  pub validate_net_backend-known :
      (text b : String) → validate_net_backend lib text ≡ valid b → (b ≡ "networkd") ⊎ (b ≡ "nm")
  unfolding validate_net_backend
  validate_net_backend-known text b h = ground arith

  pub validate_babel_type-known :
      (text b : String) → validate_babel_type lib text ≡ valid b → mem b babel_valid_types ≡ true
  unfolding validate_babel_type
  validate_babel_type-known text b h =
      elim (Bool-cases (mem (lib.lower (lib.strip text)) babel_valid_types)) [
        | inl known ↦ let same : lib.lower (lib.strip text) ≡ b = ground arith in rw (← same) known
        | inr unknown ↦ ground arith
      ]
