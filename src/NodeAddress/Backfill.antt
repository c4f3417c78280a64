-- ===== src/NodeAddress/Backfill.antt =====
-- `backfill_remote_node_ids` of src/dn42ctl/services/node_address.py: which peer rows stand for which node.
use Prim.Native.String.{◌++◌ as text_append}
use dn42_utils.Base.{
  String, Bool, true, false, not, ◌&&◌, ◌||◌, some, List, [], ◌∷◌, ◌++◌, if◌then◌else◌, ◌==◌,
  update_where, sort_by,
}
use dn42_utils.Base.Text.{truthy?, or_empty, option_eq, text_le}
use dn42_utils.Database.Schema.{ManagedNode, IbgpRow, Tables}
use dn42_utils.Database.Connection.{
  M, Statement, done, pure, closing, execute, query, commit, ◌>>=◌, ◌>>◌,
}
use dn42_utils.Database.Peers.{is_ibgp}
use dn42_utils.Managed.Nodes.{list_all}
use dn42_utils.NodeAddress.{or_refuse, label_of}

-- `backfill_remote_node_ids`: the nodes with an address.
abbrev pub candidates : String → List ManagedNode → List String
candidates address [] = []
candidates address (n ∷ ns) =
    let rest = candidates address ns in
    if truthy? n.own_ipv6 && option_eq n.own_ipv6 (some address) then n.node_id ∷ rest else rest

-- What becomes of one row: it is skipped, with the reason, or linked to a node.
pub data Link : Type 0 where
  skip : String → Link
  link : String → Link

abbrev only_candidate : List String → Link
only_candidate [] = skip "没有匹配的受管节点"
only_candidate (target ∷ []) = link target
only_candidate (a ∷ b ∷ rest) = skip "匹配到多个节点,不唯一"

unfoldable pub link_of : List ManagedNode → IbgpRow → Link
link_of nodes row =
    if truthy? row.remote_node_id
    then skip "已有 remote_node_id,未改动"
    else if not (truthy? row.peer_ip)
    then skip "peer_ip 为空,无法匹配"
    else only_candidate (candidates (or_empty row.peer_ip) nodes)

-- SELECT … FROM ibgp_peers ORDER BY node_id, name
abbrev all_rows : Tables → List IbgpRow
all_rows t =
    sort_by
      (λ a b. if a.node_id == b.node_id then text_le a.name b.name else text_le a.node_id b.node_id)
      t.ibgp_peers

abbrev pub set_remote : String → IbgpRow → IbgpRow
set_remote target r = record r { peer = record (r.peer) { remote_node_id = some target } }

-- UPDATE ibgp_peers SET remote_node_id=? WHERE node_id=? AND name=?
abbrev write_link : IbgpRow → String → Statement (Unit {0})
write_link row target t = done tt (record t {
  ibgp_peers = update_where (is_ibgp row.node_id row.name) (set_remote target) t.ibgp_peers;
})

abbrev write_one : IbgpRow → Link → M (Unit {0})
write_one row (skip reason) = pure tt
write_one row (link target) = execute (write_link row target)

unfoldable pub write_links : List ManagedNode → List IbgpRow → M (Unit {0})
unfolding link_of
write_links nodes [] = pure tt
write_links nodes (row ∷ rows) = do write_one row (link_of nodes row); write_links nodes rows

abbrev linked_text : IbgpRow → Link → List String
linked_text row (skip reason) = []
linked_text row (link target) = text_append (label_of row) (text_append " -> " target) ∷ []

abbrev skipped_text : IbgpRow → Link → List String
skipped_text row (skip reason) = text_append (label_of row) (text_append ": " reason) ∷ []
skipped_text row (link target) = []

unfoldable pub linked_of : List ManagedNode → List IbgpRow → List String
unfolding link_of
linked_of nodes [] = []
linked_of nodes (row ∷ rows) = linked_text row (link_of nodes row) ++ linked_of nodes rows

unfoldable pub skipped_of : List ManagedNode → List IbgpRow → List String
unfolding link_of
skipped_of nodes [] = []
skipped_of nodes (row ∷ rows) = skipped_text row (link_of nodes row) ++ skipped_of nodes rows

abbrev is_empty : List String → Bool
is_empty [] = true
is_empty (s ∷ ss) = false

unfoldable pub backfill_remote_node_ids : Bool → M (List String × List String)
unfolding write_links or_refuse linked_of skipped_of
backfill_remote_node_ids dry_run = closing (do
  nodes ← list_all
  rows ← query all_rows
  if is_empty (linked_of nodes rows) || dry_run
      then pure tt
      else or_refuse (do write_links nodes rows; commit) "写入 remote_node_id 失败"
  pure (linked_of nodes rows, skipped_of nodes rows))
