-- ===== src/Validators.antt =====
-- src/dn42ctl/validators.py. What its functions take from Python is a parameter: `str` methods,
-- `base64`, `ipaddress`, and `re` with the two patterns of the file.
pub mod Bounds
use Prim.Native.String.{◌++◌ as text_append}
use dn42_utils.Base.{
  ℕ, String, Bool, true, false, not, ◌&&◌, ◌||◌, Option, none, some, List, [], ◌∷◌, ltb, leb,
  nat_eq, if◌then◌else◌, ◌==◌,
}
use dn42_utils.Base.Text.{mem, truthy}
use dn42_utils.Json.{ℤ, pos, negsuc}
use dn42_utils.Constants.{max_port, max_asn, wg_key_bytes, babel_valid_types}

pub data IpVersion : Type 0 where
  v4 v6 : IpVersion

pub record TextLibrary : Type 0 where
  pub strip : String → String
  pub lower : String → String
  pub startswith : String → String → Bool
  pub endswith : String → String → Bool
  -- `needle in text`
  pub contains : String → String → Bool
  pub split : String → String → List String
  -- `len(text)`
  pub text_length : String → ℕ
  -- `text[1:-1]`
  pub inner : String → String
  -- `int(digits)` and its inverse
  pub to_int : String → ℕ
  pub from_int : ℕ → String
  -- the number of bytes that `base64.b64decode(value, validate=True)` gives
  pub b64decode : String → Option ℕ
  -- the groups of `_ENDPOINT_RE.match`
  pub endpoint_match : String → Option (String × String)
  pub hostname_match : String → Bool
  -- whether the constructors of `ipaddress` accept a text
  pub is_ipv6_address : String → Bool
  pub is_ipv6_interface : String → Bool
  pub is_ipv4_address : String → Bool
  -- `str(ipaddress.IPv6Network(value, strict=False))`
  pub ipv6_network : String → Option String
  pub ip_address : String → Option IpVersion

-- A value, or a `ValidationError`.
pub data Checked (A : Type 0) : Type 0 where
  valid : A → Checked A
  invalid : String → Checked A

unfoldable pub then_check : {A B : Type 0} → (A → Checked B) → Checked A → Checked B
then_check f (valid a) = f a
then_check f (invalid e) = invalid e

abbrev max_port_digits : ℕ
max_port_digits = 5

-- A number that is accepted is not negative.
unfoldable pub validate_listen_port : Bool → ℤ → Checked ℕ
validate_listen_port allow_zero (negsuc n) = invalid "ListenPort 超出范围"
validate_listen_port allow_zero (pos n) =
    let lo : ℕ = if allow_zero then 0 else 1 in
    if ltb n lo || ltb max_port n then invalid "ListenPort 超出范围" else valid n

unfoldable pub validate_rxcost : ℤ → Checked ℕ
validate_rxcost (negsuc n) = invalid "rxcost 超出范围"
validate_rxcost (pos n) = if ltb max_port n then invalid "rxcost 超出范围" else valid n

unfoldable pub validate_asn : ℤ → Checked ℕ
validate_asn (negsuc n) = invalid "ASN 必须是正整数"
validate_asn (pos n) =
    if leb n 0
    then invalid "ASN 必须是正整数"
    else if ltb max_asn n
    then invalid "ASN 超出 32 位范围"
    else valid n

module _ (lib : TextLibrary) where
  abbrev check_key : String → Option ℕ → Checked String
  check_key value none = invalid "公钥不是合法的 base64"
  check_key value (some bytes) =
      if not (nat_eq bytes wg_key_bytes) then invalid "公钥长度不对" else valid value

  unfoldable pub validate_pubkey : String → Checked String
  validate_pubkey text =
      let value = lib.strip text in
      if not (truthy value) then invalid "公钥不能为空" else check_key value (lib.b64decode value)

  abbrev check_endpoint : String → Option (String × String) → Checked String
  check_endpoint value none = invalid "Endpoint 格式错误"
  check_endpoint value (some (host, digits)) =
      if ltb max_port_digits (lib.text_length digits)
      then invalid "Endpoint 端口超出范围"
      else if not (leb 1 (lib.to_int digits) && leb (lib.to_int digits) max_port)
      then invalid "Endpoint 端口超出范围"
      else valid value

  unfoldable pub validate_endpoint : Bool → String → Checked String
  validate_endpoint allow_empty text =
      let value = lib.strip text in
      if not (truthy value)
      then (if allow_empty then valid value else invalid "Endpoint 不能为空")
      else check_endpoint value (lib.endpoint_match value)

  abbrev pub is_ipv6 : String → Bool
  is_ipv6 value =
      if lib.contains "/" value then lib.is_ipv6_interface value else lib.is_ipv6_address value

  unfoldable pub validate_ipv6_address : String → Checked String
  validate_ipv6_address text =
      let value = lib.strip text in
      if not (truthy value)
      then invalid "不能为空"
      else if is_ipv6 value
      then valid value
      else invalid "不是合法的 IPv6 地址"

  unfoldable pub validate_ipv4_address : String → Checked String
  validate_ipv4_address text =
      let value = lib.strip text in
      if not (truthy value)
      then invalid "不能为空"
      else if lib.is_ipv4_address value
      then valid value
      else invalid "不是合法的 IPv4 地址"

  abbrev is_network : Option String → Bool
  is_network none = false
  is_network (some net) = true

  unfoldable pub validate_ipv6_network : String → Checked String
  validate_ipv6_network text =
      let value = lib.strip text in
      if not (truthy value)
      then invalid "不能为空"
      else if is_network (lib.ipv6_network value)
      then valid value
      else invalid "不是合法的 IPv6 CIDR 前缀"

  unfoldable pub validate_babel_type : String → Checked String
  validate_babel_type text =
      let value = lib.lower (lib.strip text) in
      if mem value babel_valid_types
      then valid value
      else invalid "type 必须是 wired, wireless, tunnel 之一"

  unfoldable pub validate_net_backend : String → Checked String
  validate_net_backend text =
      let backend = lib.lower (lib.strip text) in
      if backend == "networkd"
      then valid "networkd"
      else if mem backend ("nm" ∷ "networkmanager" ∷ [])
      then valid "nm"
      else invalid "net_backend 必须是 networkd 或 nm"

  unfoldable pub validate_ownnetset_v6 : String → Checked String
  validate_ownnetset_v6 text =
      let value = lib.strip text in
      if not (truthy value)
      then invalid "OWNNETSETv6 不能为空"
      else if not (lib.startswith value "[" && (lib.endswith value "]" && lib.contains "+" value))
      then invalid "OWNNETSETv6 格式不合法"
      else valid value

  abbrev checked_network : Option String → Checked String
  checked_network none = invalid "不是合法的 IPv6 CIDR"
  checked_network (some net) = valid net

  abbrev checked_cons : Checked String → Checked (List String) → Checked (List String)
  checked_cons (invalid e) rest = invalid e
  checked_cons (valid net) (invalid e) = invalid e
  checked_cons (valid net) (valid nets) = valid (net ∷ nets)

  -- the loop of `validate_allowed_ips`
  unfoldable pub parse_networks : List String → Checked (List String)
  parse_networks [] = valid []
  parse_networks (item ∷ items) =
      checked_cons (checked_network (lib.ipv6_network item)) (parse_networks items)

  -- `[s.strip() for s in …]`, without the empty ones
  unfoldable pub stripped_items : List String → List String
  stripped_items [] = []
  stripped_items (s ∷ ss) =
      let rest = stripped_items ss in if truthy (lib.strip s) then lib.strip s ∷ rest else rest

  abbrev parse_some : List String → Checked (List String)
  parse_some [] = invalid "AllowedIPs 不能为空，至少需要一个合法的 IPv6 CIDR"
  parse_some (item ∷ items) = parse_networks (item ∷ items)

  unfoldable pub validate_allowed_ips : String → Checked (List String)
  unfolding parse_networks stripped_items
  validate_allowed_ips text = parse_some (stripped_items (lib.split "," text))

  abbrev check_item : String → Checked String
  check_item item =
      if not (truthy (lib.strip item))
      then invalid "AllowedIPs 包含空字符串"
      else checked_network (lib.ipv6_network (lib.strip item))

  unfoldable pub check_items : List String → Checked (List String)
  check_items [] = valid []
  check_items (item ∷ items) = checked_cons (check_item item) (check_items items)

  unfoldable pub validate_allowed_ips_list : List String → Checked (List String)
  unfolding check_items
  validate_allowed_ips_list [] = invalid "AllowedIPs 不能为空，至少需要一个合法的 IPv6 CIDR"
  validate_allowed_ips_list (item ∷ items) = check_items (item ∷ items)

  unfoldable pub validate_router_id : String → Checked String
  unfolding validate_ipv4_address
  validate_router_id value = validate_ipv4_address value

  abbrev check_hostname : String → Option IpVersion → Checked String
  check_hostname value (some version) = valid value
  check_hostname value none =
      if lib.contains ":" value
      then invalid "endpoint_host 不能包含端口"
      else if not (lib.hostname_match value)
      then invalid "endpoint_host 不是合法的主机名"
      else valid value

  unfoldable pub validate_endpoint_host : String → Checked String
  validate_endpoint_host text =
      let value = lib.strip text in
      if not (truthy value)
      then invalid "endpoint_host 不能为空"
      else if lib.startswith value "["
      then invalid "endpoint_host 是裸主机名/地址，不要带方括号或端口"
      else check_hostname value (lib.ip_address value)

  -- without the brackets of an IPv6 literal
  abbrev pub bare_host : String → String
  bare_host host = if lib.startswith host "[" && lib.endswith host "]" then lib.inner host else host

  abbrev host_and_port : Option (String × String) → Checked (String × ℕ)
  host_and_port none = invalid "Endpoint 格式错误"
  host_and_port (some (host, digits)) = valid (bare_host host, lib.to_int digits)

  unfoldable pub split_endpoint : String → Checked (String × ℕ)
  unfolding then_check validate_endpoint
  split_endpoint text =
      then_check (λ value. host_and_port (lib.endpoint_match value)) (validate_endpoint false text)

  abbrev needs_brackets : Option IpVersion → Bool
  needs_brackets (some v6) = true
  needs_brackets (some v4) = false
  needs_brackets none = false

  unfoldable pub format_endpoint : String → ℕ → String
  format_endpoint text port =
      let host = bare_host (lib.strip text) in
      let rest = text_append ":" (lib.from_int port) in
      if needs_brackets (lib.ip_address host)
      then text_append "[" (text_append host (text_append "]" rest))
      else text_append host rest
