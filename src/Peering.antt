-- ===== src/Peering.antt =====
-- The helpers of src/dn42ctl/services/core.py that bgp.py and ibgp.py share, with
-- `render_files=False`: a call that writes to the database and to no file.
pub mod Ports
pub mod Names
pub mod Bgp
pub mod Ibgp
pub mod Created
pub mod Free
pub mod Keeps
pub mod Services
pub mod Tests
pub mod Apart
use dn42_utils.Base.{
  ℕ, String, Bool, true, false, not, ◌&&◌, Option, none, some, List, [], ◌∷◌, if◌then◌else◌, any,
  nat_eq, delete_where,
}
use dn42_utils.Base.Text.{truthy, truthy?}
use dn42_utils.Database.Connection.{
  M, Outcome, ok, raised, Exception, database_error, dn42ctl_error, pure, raise, ◌>>=◌,
}
use dn42_utils.Database.Peers.{ensure_node}
use dn42_utils.Validators.{TextLibrary, Checked, valid, invalid, validate_net_backend}

abbrev pub default_allowed_ips : List String
default_allowed_ips = "fe80::/64" ∷ "fd00::/8" ∷ []

abbrev pub ibgp_allowed_ips : List String
ibgp_allowed_ips = "fe80::/64" ∷ "fd00::/8" ∷ "ff02::/16" ∷ []

pub record PeerResult : Type 0 where
  pub ifname : String
  pub listen_port : ℕ
  pub wg_public_key : String
  pub local_lla : String

pub record DeleteResult : Type 0 where
  pub kind : String
  pub peer_asn : Option ℕ
  pub name : Option String

-- What the `wg` command and the random generator give to one call.
pub record Draws : Type 0 where
  -- nothing where `wg` fails
  pub wg_keypair : Option (String × String)
  pub random_lla : String
  -- the results of `random.randint(*WG_PORT_RANGE)`, in order
  pub random_port : ℕ → ℕ

-- `except DatabaseError as exc: raise Dn42CtlError(str(exc))`
abbrev pub handle_database : {A : Type 0} → Outcome A → M A
handle_database (ok a) = pure a
handle_database (raised (database_error message)) = raise (dn42ctl_error message)
handle_database (raised e) = raise e

unfoldable pub as_dn42ctl : {A : Type 0} → M A → M A
unfolding pure raise
as_dn42ctl m c = handle_database (m c).0 (m c).1

-- `except ValidationError as exc: raise Dn42CtlError(str(exc))`
unfoldable pub require_valid : {A : Type 0} → Checked A → M A
require_valid (valid a) = pure a
require_valid (invalid message) = raise (dn42ctl_error message)

unfoldable pub normalize_net_backend : TextLibrary → String → M String
unfolding require_valid
normalize_net_backend lib net_backend = require_valid (validate_net_backend lib net_backend)

-- The `Database.open` of it is the connection.
unfoldable pub open_db_and_ensure_node : String → String → M (Unit {0})
unfolding as_dn42ctl
open_db_and_ensure_node now node_id = as_dn42ctl (ensure_node now node_id)

abbrev pub generated : Option (String × String) → M (String × String)
generated (some keys) = pure keys
generated none = raise (dn42ctl_error "wg 命令执行失败")

unfoldable pub resolve_wg_keypair : Draws → Option String → Option String → M (String × String)
resolve_wg_keypair draws none none = generated draws.wg_keypair
resolve_wg_keypair draws (some private_key) (some public_key) = pure (private_key, public_key)
resolve_wg_keypair draws none (some public_key) =
    raise (dn42ctl_error "内部错误: 必须同时提供 wg_private_key 与 wg_public_key")
resolve_wg_keypair draws (some private_key) none =
    raise (dn42ctl_error "内部错误: 必须同时提供 wg_private_key 与 wg_public_key")

-- `local_lla or generate_random_lla()`
abbrev pub lla_or_random : Draws → Option String → String
lla_or_random draws none = draws.random_lla
lla_or_random draws (some lla) = if truthy lla then lla else draws.random_lla

-- `node_id or config.node_id`
abbrev pub node_or : Option String → String → String
node_or none config_node_id = config_node_id
node_or (some node_id) config_node_id = if truthy node_id then node_id else config_node_id

abbrev pub ips_or : Option (List String) → List String → List String
ips_or none default = default
ips_or (some ips) default = ips

-- `used.discard(port)`
abbrev pub discard : ℕ → List ℕ → List ℕ
discard port used = delete_where (λ p. nat_eq p port) used

abbrev pub is_used : ℕ → List ℕ → Bool
is_used port used = any (λ p. nat_eq p port) used
