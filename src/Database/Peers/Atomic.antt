-- ===== src/Database/Peers/Atomic.antt =====
-- Every write of the peer tables is one transaction.
use dn42_utils.Base.{ℕ, String, Option, none, some}
use dn42_utils.Database.Schema.{BgpPeerRecord, IbgpPeerRecord}
use dn42_utils.Database.Connection.{Statement}
use dn42_utils.Database.Connection.Atomic.{
  IsAtomic, Pending, Ending, Ending-bind, Ending-pure, Ending-Finishing, Reading-query,
  or_abort-IsAtomic, or_abort_clash-IsAtomic, transaction_rules,
}
use dn42_utils.Database.Events.{emit_sync_event}
use dn42_utils.Database.Peers.{
  ensure_node, insert_bgp_peer, delete_bgp_peer, update_bgp_peer, BgpChange, insert_ibgp_peer,
  delete_ibgp_peer, update_ibgp_peer, IbgpChange, delete_found,
}

pub emit_sync_event-Pending :
    (now node_id kind : String) → Pending (emit_sync_event now node_id kind)
unfolding emit_sync_event
emit_sync_event-Pending now node_id kind = search transaction_rules

pub ruleset write_rules =
    (transaction_rules, emit_sync_event-Pending, Ending-Finishing, Ending-pure)

pub ensure_node-IsAtomic : (now node_id : String) → IsAtomic (ensure_node now node_id)
unfolding ensure_node
ensure_node-IsAtomic now node_id = or_abort-IsAtomic _ _ (search write_rules depth 8)

pub insert_bgp_peer-IsAtomic : (now : String) (p : BgpPeerRecord) → IsAtomic (insert_bgp_peer now p)
unfolding insert_bgp_peer
insert_bgp_peer-IsAtomic now p = or_abort_clash-IsAtomic _ _ _ (search write_rules depth 8)

pub update_bgp_peer-IsAtomic :
    (now node_id : String) (asn : ℕ) (u : BgpChange) → IsAtomic (update_bgp_peer now node_id asn u)
unfolding update_bgp_peer
update_bgp_peer-IsAtomic now node_id asn u = or_abort-IsAtomic _ _ (search write_rules depth 8)

delete_found-Ending :
    {R : Type 0} (s : Statement (Unit {0})) (now node_id : String) (row : Option R)
    → Ending (delete_found s now node_id row)
delete_found-Ending s now node_id none = search write_rules
delete_found-Ending s now node_id (some row) = search write_rules depth 8

pub delete_bgp_peer-IsAtomic :
    (now node_id : String) (asn : ℕ) → IsAtomic (delete_bgp_peer now node_id asn)
unfolding delete_bgp_peer
delete_bgp_peer-IsAtomic now node_id asn =
    or_abort-IsAtomic _ _ (Ending-bind _ _ (Reading-query _ _) (delete_found-Ending _ now node_id))

pub insert_ibgp_peer-IsAtomic :
    (now : String) (p : IbgpPeerRecord) → IsAtomic (insert_ibgp_peer now p)
unfolding insert_ibgp_peer
insert_ibgp_peer-IsAtomic now p = or_abort_clash-IsAtomic _ _ _ (search write_rules depth 8)

pub update_ibgp_peer-IsAtomic :
    (now node_id name : String) (u : IbgpChange) → IsAtomic (update_ibgp_peer now node_id name u)
unfolding update_ibgp_peer
update_ibgp_peer-IsAtomic now node_id name u = or_abort-IsAtomic _ _ (search write_rules depth 8)

pub delete_ibgp_peer-IsAtomic :
    (now node_id name : String) → IsAtomic (delete_ibgp_peer now node_id name)
unfolding delete_ibgp_peer
delete_ibgp_peer-IsAtomic now node_id name =
    or_abort-IsAtomic _ _ (Ending-bind _ _ (Reading-query _ _) (delete_found-Ending _ now node_id))
