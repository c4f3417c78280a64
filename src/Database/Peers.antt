-- ===== src/Database/Peers.antt =====
-- The methods of `Database` in src/dn42ctl/db.py on `nodes`, `bgp_peers` and `ibgp_peers`. `now` is
-- `_now_iso()`.
pub mod Apart
pub mod Atomic
pub mod Effects
pub mod Invariant
use dn42_utils.Base.{
  ℕ, String, Bool, not, ◌&&◌, ◌||◌, Option, none, some, List, [], ◌∷◌, ◌++◌, map, leb, nat_eq,
  if◌then◌else◌, select, select_one, update_where, delete_where, any, sort_by, ◌==◌, length,
}
use dn42_utils.Base.Text.{text_le, option_eq}
use dn42_utils.Constants.{sync_event_desired, Update, unset, given}
use dn42_utils.Database.Schema.{
  PeerRecordBase, BgpPeerRecord, IbgpPeerRecord, BgpRow, IbgpRow, NodeRow, Tables,
}
use dn42_utils.Database.Connection.{
  M, Statement, done, violated, database_error, execute, query, commit, abort, or_abort,
  or_abort_clash, or_raise, pure, ◌>>=◌, ◌>>◌,
}
use dn42_utils.Database.Events.{emit_sync_event}

-- INSERT INTO nodes … ON CONFLICT(node_id) DO UPDATE SET updated_at
abbrev pub upsert_node : String → String → Statement (Unit {0})
upsert_node now node_id t = done tt (record t {
  nodes =
      if any (λ (n : NodeRow). n.node_id == node_id) t.nodes
      then update_where (λ n. n.node_id == node_id) (λ n. record n { updated_at = now }) t.nodes
      else t.nodes ++ record { node_id = node_id; created_at = now; updated_at = now } ∷ [];
})

unfoldable pub ensure_node : String → String → M (Unit {0})
ensure_node now node_id =
    or_abort (do execute (upsert_node now node_id); commit) "Failed to upsert node"

abbrev pub has_node : String → Tables → Bool
has_node node_id t = any (λ (n : NodeRow). n.node_id == node_id) t.nodes

-- WHERE node_id=? AND peer_asn=?
abbrev pub is_bgp : String → ℕ → BgpRow → Bool
is_bgp node_id peer_asn r = r.node_id == node_id && nat_eq r.peer_asn peer_asn

-- UNIQUE(node_id, peer_asn), UNIQUE(node_id, ifname)
abbrev pub bgp_clash : BgpPeerRecord → BgpRow → Bool
bgp_clash p r = r.node_id == p.node_id && (nat_eq r.peer_asn p.peer_asn || r.ifname == p.ifname)

abbrev pub is_ibgp : String → String → IbgpRow → Bool
is_ibgp node_id name r = r.node_id == node_id && r.name == name

abbrev pub ibgp_clash : IbgpPeerRecord → IbgpRow → Bool
ibgp_clash p r = r.node_id == p.node_id && (r.name == p.name || r.ifname == p.ifname)

unfoldable pub get_bgp_peer : String → ℕ → M (Option BgpRow)
get_bgp_peer node_id peer_asn =
    or_raise (query (λ t. select_one (is_bgp node_id peer_asn) t.bgp_peers))
      "Failed to query BGP peer"

-- ORDER BY peer_asn
unfoldable pub bgp_of : String → Tables → List BgpRow
bgp_of node_id t =
    sort_by (λ a b. leb a.peer_asn b.peer_asn) (select (λ r. r.node_id == node_id) t.bgp_peers)

unfoldable pub list_bgp_peers : String → M (List BgpRow)
unfolding bgp_of
list_bgp_peers node_id = or_raise (query (bgp_of node_id)) "Failed to list BGP peers"

abbrev pub bgp_row : String → BgpPeerRecord → BgpRow
bgp_row now p = record { peer = p; created_at = now; updated_at = now }

abbrev pub insert_bgp : String → BgpPeerRecord → Statement (Unit {0})
insert_bgp now p t =
    if has_node p.node_id t && not (any (bgp_clash p) t.bgp_peers)
    then done tt (record t { bgp_peers = t.bgp_peers ++ bgp_row now p ∷ [] })
    else violated

unfoldable pub insert_bgp_peer : String → BgpPeerRecord → M (Unit {0})
insert_bgp_peer now p =
    or_abort_clash
      (do execute (insert_bgp now p); emit_sync_event now p.node_id sync_event_desired; commit)
      "BGP peer already exists" "Failed to insert BGP peer"

-- The columns that `update_bgp_peer` sets.
pub record BgpChange : Type 0 where
  pub peer_public_key : Option String
  pub endpoint : Option String
  pub peer_lla : Option String
  pub listen_port : ℕ
  pub allowed_ips : List String
  pub net_backend : String

abbrev pub set_base : BgpChange → PeerRecordBase → PeerRecordBase
set_base u b = record b {
  peer_public_key = u.peer_public_key;
  endpoint = u.endpoint;
  peer_lla = u.peer_lla;
  listen_port = u.listen_port;
  allowed_ips = u.allowed_ips;
  net_backend = u.net_backend;
}

abbrev pub set_bgp : String → BgpChange → BgpRow → BgpRow
set_bgp now u r = record r {
  peer = record (r.peer) { base = set_base u r.peer.base };
  updated_at = now;
}

-- an UPDATE; the result is `rowcount`
abbrev pub update_bgp : String → String → ℕ → BgpChange → Statement ℕ
update_bgp now node_id peer_asn u t =
    done (length (select (is_bgp node_id peer_asn) t.bgp_peers))
      (record t { bgp_peers = update_where (is_bgp node_id peer_asn) (set_bgp now u) t.bgp_peers })

-- `if cur.rowcount == 0`, with its look at the row
abbrev require_row : ℕ → (Tables → Bool) → String → M (Unit {0})
require_row rowcount exists_row message =
    if nat_eq rowcount 0
    then (do found ← query exists_row; if found then pure tt else abort (database_error message))
    else pure tt

unfoldable pub update_bgp_peer : String → String → ℕ → BgpChange → M (Unit {0})
update_bgp_peer now node_id peer_asn u =
    or_abort
      (do
        rowcount ← execute (update_bgp now node_id peer_asn u)
        require_row rowcount (λ t. any (is_bgp node_id peer_asn) t.bgp_peers) "BGP peer not found"
        emit_sync_event now node_id sync_event_desired
        commit)
      "Failed to update BGP peer"

abbrev pub list_ibgp : String → Tables → List IbgpRow
list_ibgp node_id t = select (λ r. r.node_id == node_id) t.ibgp_peers

-- ORDER BY name
unfoldable pub ibgp_of : String → Tables → List IbgpRow
ibgp_of node_id t =
    sort_by (λ a b. text_le a.name b.name) (select (λ r. r.node_id == node_id) t.ibgp_peers)

unfoldable pub list_ibgp_peers : String → M (List IbgpRow)
unfolding ibgp_of
list_ibgp_peers node_id = or_raise (query (ibgp_of node_id)) "Failed to list iBGP peers"

-- ORDER BY node_id, name
unfoldable pub list_ibgp_peers_by_remote : String → M (List IbgpRow)
list_ibgp_peers_by_remote remote =
    or_raise
      (query (λ t.
        sort_by
          (λ a b.
            if a.node_id == b.node_id then text_le a.name b.name else text_le a.node_id b.node_id)
          (select (λ r. option_eq r.remote_node_id (some remote)) t.ibgp_peers)))
      "Failed to list iBGP peers by remote node"

unfoldable pub get_ibgp_peer : String → String → M (Option IbgpRow)
get_ibgp_peer node_id name =
    or_raise (query (λ t. select_one (is_ibgp node_id name) t.ibgp_peers))
      "Failed to query iBGP peer"

-- `_delete_peer`: the row that was deleted, or `none` where there was no row
abbrev delete_found :
    {R : Type 0} → Statement (Unit {0}) → String → String → Option R → M (Option R)
delete_found delete now node_id none = pure none
delete_found delete now node_id (some row) = do
  execute delete
  emit_sync_event now node_id sync_event_desired
  commit
  pure (some row)

abbrev delete_peer :
    {R : Type 0} → M (Option R) → Statement (Unit {0}) → String → String → String → M (Option R)
delete_peer get delete message now node_id =
    or_abort (do row ← get; delete_found delete now node_id row) message

unfoldable pub delete_bgp_peer : String → String → ℕ → M (Option BgpRow)
unfolding get_bgp_peer
delete_bgp_peer now node_id peer_asn =
    delete_peer (get_bgp_peer node_id peer_asn)
      (λ t. done tt (record t { bgp_peers = delete_where (is_bgp node_id peer_asn) t.bgp_peers }))
      "Failed to delete BGP peer" now node_id

unfoldable pub delete_ibgp_peer : String → String → String → M (Option IbgpRow)
unfolding get_ibgp_peer
delete_ibgp_peer now node_id name =
    delete_peer (get_ibgp_peer node_id name)
      (λ t. done tt (record t { ibgp_peers = delete_where (is_ibgp node_id name) t.ibgp_peers }))
      "Failed to delete iBGP peer" now node_id

abbrev pub ibgp_row : String → IbgpPeerRecord → IbgpRow
ibgp_row now p = record { peer = p; created_at = now; updated_at = now }

abbrev pub insert_ibgp : String → IbgpPeerRecord → Statement (Unit {0})
insert_ibgp now p t =
    if has_node p.node_id t && not (any (ibgp_clash p) t.ibgp_peers)
    then done tt (record t { ibgp_peers = t.ibgp_peers ++ ibgp_row now p ∷ [] })
    else violated

unfoldable pub insert_ibgp_peer : String → IbgpPeerRecord → M (Unit {0})
insert_ibgp_peer now p =
    or_abort_clash
      (do execute (insert_ibgp now p); emit_sync_event now p.node_id sync_event_desired; commit)
      "iBGP peer already exists" "Failed to insert iBGP peer"

-- The columns that `update_ibgp_peer` sets; an unset `remote_node_id` stays out of the SET clause.
pub record IbgpChange : Type 0 where
  pub base : BgpChange
  pub babel_rxcost : ℕ
  pub peer_ip : Option String
  pub babel_type : String
  pub remote_node_id : Update (Option String)

abbrev pub or_kept {ℓ} : {A : Type ℓ} → Update A → A → A
or_kept unset old = old
or_kept (given new) old = new

abbrev pub set_ibgp : String → IbgpChange → IbgpRow → IbgpRow
set_ibgp now u r = record r {
  peer = record (r.peer) {
    base = set_base u.base r.peer.base;
    babel_rxcost = u.babel_rxcost;
    peer_ip = u.peer_ip;
    babel_type = u.babel_type;
    remote_node_id = or_kept u.remote_node_id r.peer.remote_node_id;
  };
  updated_at = now;
}

abbrev pub update_ibgp : String → String → String → IbgpChange → Statement ℕ
update_ibgp now node_id name u t =
    done (length (select (is_ibgp node_id name) t.ibgp_peers))
      (record t { ibgp_peers = update_where (is_ibgp node_id name) (set_ibgp now u) t.ibgp_peers })

unfoldable pub update_ibgp_peer : String → String → String → IbgpChange → M (Unit {0})
update_ibgp_peer now node_id name u =
    or_abort
      (do
        rowcount ← execute (update_ibgp now node_id name u)
        require_row rowcount (λ t. any (is_ibgp node_id name) t.ibgp_peers) "iBGP peer not found"
        emit_sync_event now node_id sync_event_desired
        commit)
      "Failed to update iBGP peer"

-- The set of ports, as a list: both tables' ports, with what repeats.
unfoldable pub get_used_listen_ports : String → M (List ℕ)
get_used_listen_ports node_id =
    or_raise
      (do
        bgp ← query (λ t.
            map (λ (r : BgpRow). r.listen_port) (select (λ r. r.node_id == node_id) t.bgp_peers))
        ibgp ← query (λ t. map (λ (r : IbgpRow). r.listen_port) (list_ibgp node_id t))
        pure (bgp ++ ibgp))
      "Failed to query listen ports"
