-- ===== src/DesiredState.antt =====
-- src/dn42ctl/services/desired_state.py. The digest (`json.dumps`, SHA-256, the first 8 digits) and
-- `str.rpartition("-")` are parameters.
pub mod Quiet
pub mod Tests
pub mod Wire
use Prim.Native.String.{◌++◌ as text_append}
use dn42_utils.Base.{
  ℕ, String, Bool, true, false, ◌&&◌, ◌||◌, Option, none, some, List, [], ◌∷◌, if◌then◌else◌,
  is_some,
}
use dn42_utils.Base.Text.{truthy, truthy?, option_eq}
use dn42_utils.Database.Schema.{
  BgpEntry, IbgpEntry, BgpRow, IbgpRow, NodeBlock, Content, ConfigRevision, ManagedNode,
}
use dn42_utils.Database.Connection.{M, dn42ctl_error, pure, raise, closing, ◌>>=◌, ◌>>◌}
use dn42_utils.Database.Peers.{list_bgp_peers, list_ibgp_peers}
use dn42_utils.Managed.Nodes
use dn42_utils.Managed.Revisions.{latest_revision, get_by_revision, record_revision, trim, get_pin}

pub record DesiredState : Type 0 where
  pub node_id : String
  pub revision : String
  pub generated_at : String
  pub bgp_peers : List BgpEntry
  pub ibgp_peers : List IbgpEntry
  pub node : NodeBlock

-- A field that is missing or empty is not pushed.
abbrev truthy_only : Option String → Option String
truthy_only o = if truthy? o then o else none

unfoldable pub node_block : Option ManagedNode → NodeBlock
node_block none = record { own_ipv6 = none; router_id = none }
node_block (some row) = record {
  own_ipv6 = truthy_only row.own_ipv6;
  router_id = truthy_only row.router_id;
}

unfoldable pub load_node_block : String → M NodeBlock
unfolding node_block
load_node_block node_id = do row ← Nodes.get node_id; pure (node_block row)

unfoldable pub bgp_row_to_dict : BgpRow → BgpEntry
bgp_row_to_dict r = record {
  peer_asn = r.peer_asn;
  ifname = r.ifname;
  wg_private_key = r.wg_private_key;
  wg_public_key = r.wg_public_key;
  peer_public_key = r.peer_public_key;
  endpoint = r.endpoint;
  local_lla = r.local_lla;
  peer_lla = r.peer_lla;
  listen_port = r.listen_port;
  allowed_ips = r.allowed_ips;
  net_backend = r.net_backend;
}

unfoldable pub ibgp_row_to_dict : IbgpRow → IbgpEntry
ibgp_row_to_dict r = record {
  name = r.name;
  ifname = r.ifname;
  wg_private_key = r.wg_private_key;
  wg_public_key = r.wg_public_key;
  peer_public_key = r.peer_public_key;
  endpoint = r.endpoint;
  local_lla = r.local_lla;
  peer_lla = r.peer_lla;
  peer_ip = r.peer_ip;
  has_wg = r.has_wg;
  listen_port = r.listen_port;
  allowed_ips = r.allowed_ips;
  net_backend = r.net_backend;
  babel_rxcost = r.babel_rxcost;
  babel_type = r.babel_type;
}

abbrev pub map_rows : {A B : Type 0} → (A → B) → List A → List B
map_rows f [] = []
map_rows f (x ∷ xs) = f x ∷ map_rows f xs

-- The block of the canonical JSON, which is left out when it is empty.
abbrev pub canonical_node : NodeBlock → Option NodeBlock
canonical_node b = if is_some b.own_ipv6 || is_some b.router_id then some b else none

-- What the connection is asked for before anything is written.
unfoldable pub read_content : String → M Content
unfolding load_node_block
read_content node_id = do
  bgp_rows ← list_bgp_peers node_id
  ibgp_rows ← list_ibgp_peers node_id
  node ← load_node_block node_id
  pure (record {
    node_id = node_id;
    bgp_peers = map_rows bgp_row_to_dict bgp_rows;
    ibgp_peers = map_rows ibgp_row_to_dict ibgp_rows;
    node = node;
  })

pub record Fingerprint : Type 0 where
  pub node_id : String
  pub content_hash : String
  pub pinned_revision : Option String

-- `hexdigest` stands for the digest of the canonical JSON of its arguments.
module _ (hexdigest : String → List BgpEntry → List IbgpEntry → Option NodeBlock → String)
    (rpartition : String → String × (String × String)) where
  unfoldable pub compute_content_digest : Content → String
  compute_content_digest k = hexdigest k.node_id k.bgp_peers k.ibgp_peers (canonical_node k.node)

  unfoldable pub compute_revision : Content → String → String
  unfolding compute_content_digest
  compute_revision k generated_at =
      text_append generated_at (text_append "-" (compute_content_digest k))

  unfoldable pub digest_of_revision : String → Option String
  digest_of_revision revision =
      let (_, (sep, digest)) = rpartition revision in
      if truthy sep && truthy digest then some digest else none

  abbrev fingerprint_of : String → Content → Option ConfigRevision → Fingerprint
  fingerprint_of node_id live (some pin) = record {
    node_id = node_id;
    content_hash = compute_content_digest pin.payload;
    pinned_revision = some pin.revision;
  }
  fingerprint_of node_id live none = record {
    node_id = node_id;
    content_hash = compute_content_digest live;
    pinned_revision = none;
  }

  unfoldable pub compute_desired_fingerprint : String → M Fingerprint
  unfolding read_content compute_content_digest
  compute_desired_fingerprint node_id = closing (do
    live ← read_content node_id
    pin ← get_pin node_id
    pure (fingerprint_of node_id live pin))

  -- The revision and the time of a stored snapshot, where it is there.
  abbrev stored_or : String → String → Option ConfigRevision → M (String × String)
  stored_or revision generated_at none = pure (revision, generated_at)
  stored_or revision generated_at (some existing) = pure (existing.revision, existing.generated_at)

  abbrev same_digest : Option String → String → Bool
  same_digest none revision = false
  same_digest (some previous) revision =
      option_eq (digest_of_revision previous) (digest_of_revision revision)

  abbrev reuse : String → String → String → Option String → M (String × String)
  reuse node_id revision generated_at none = pure (revision, generated_at)
  reuse node_id revision generated_at (some previous) = do
    existing ← get_by_revision node_id previous
    stored_or revision generated_at existing

  -- The latest snapshot when its content is the same, and a new one otherwise.
  unfoldable pub record_changed : String → String → Content → ℕ → M (String × String)
  unfolding compute_revision digest_of_revision
  record_changed node_id generated_at k keep_latest =
      let revision = compute_revision k generated_at in
      do
        previous ← latest_revision node_id
        if same_digest previous revision then reuse node_id revision generated_at previous else (do
          record_revision node_id revision generated_at k
          trim node_id keep_latest
          pure (revision, generated_at))

  abbrev state_of : Content → String → String → DesiredState
  state_of k revision generated_at = record {
    node_id = k.node_id;
    revision = revision;
    generated_at = generated_at;
    bgp_peers = k.bgp_peers;
    ibgp_peers = k.ibgp_peers;
    node = k.node;
  }

  abbrev pub choose : Content → String × String → Option ConfigRevision → DesiredState
  choose k (revision, generated_at) none = state_of k revision generated_at
  choose k chosen (some pin) = state_of pin.payload pin.revision pin.generated_at

  -- `now` is `_now_iso()`.
  unfoldable pub build_desired_state : String → String → Bool → ℕ → M DesiredState
  unfolding read_content record_changed compute_revision
  build_desired_state now node_id do_record keep_latest = do
    k ← closing (read_content node_id)
    if do_record
        then closing (do
          chosen ← record_changed node_id now k keep_latest
          pin ← get_pin node_id
          pure (choose k chosen pin))
        else pure (state_of k (compute_revision k now) now)

abbrev require_node : Option ManagedNode → M (Unit {0})
require_node none = raise (dn42ctl_error "managed node 不存在")
require_node (some n) = pure tt

unfoldable pub require_managed_node_exists : String → M (Unit {0})
require_managed_node_exists node_id = do node ← closing (Nodes.get node_id); require_node node
