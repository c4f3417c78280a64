-- ===== src/Database/Peers/Invariant.antt =====
-- Every write of the peer tables keeps the change queue in order.
use dn42_utils.Base.{ℕ, String, arith, Option, none, some}
use dn42_utils.Database.Schema.{BgpPeerRecord, IbgpPeerRecord}
use dn42_utils.Database.Connection.{execute, Statement}
use dn42_utils.Database.Connection.Keeps.{
  Keeps, Keeps-execute, Keeps-or_abort, Keeps-bind, keeps_rules,
}
use dn42_utils.Database.Events.Queue.{IsQueue}
use dn42_utils.Database.Events.Invariant.{emit_sync_event-IsQueue}
use dn42_utils.Database.Peers.{
  insert_bgp, insert_bgp_peer, update_bgp, update_bgp_peer, delete_bgp_peer, insert_ibgp,
  insert_ibgp_peer, update_ibgp, update_ibgp_peer, delete_ibgp_peer, BgpChange, IbgpChange,
  delete_found, upsert_node, ensure_node,
}

insert_bgp-IsQueue : (now : String) (p : BgpPeerRecord) → Keeps IsQueue (execute (insert_bgp now p))
insert_bgp-IsQueue now p = Keeps-execute _ (λ t h. ground arith)

update_bgp-IsQueue :
    (now node_id : String) (asn : ℕ) (u : BgpChange)
    → Keeps IsQueue (execute (update_bgp now node_id asn u))
update_bgp-IsQueue now node_id asn u = Keeps-execute _ (λ t h. h)

insert_ibgp-IsQueue :
    (now : String) (p : IbgpPeerRecord) → Keeps IsQueue (execute (insert_ibgp now p))
insert_ibgp-IsQueue now p = Keeps-execute _ (λ t h. ground arith)

update_ibgp-IsQueue :
    (now node_id name : String) (u : IbgpChange)
    → Keeps IsQueue (execute (update_ibgp now node_id name u))
update_ibgp-IsQueue now node_id name u = Keeps-execute _ (λ t h. h)

pub upsert_node-IsQueue : (now node_id : String) → Keeps IsQueue (execute (upsert_node now node_id))
upsert_node-IsQueue now node_id = Keeps-execute _ (λ t h. h)

pub insert_bgp_peer-IsQueue :
    (now : String) (p : BgpPeerRecord) → Keeps IsQueue (insert_bgp_peer now p)
unfolding insert_bgp_peer
insert_bgp_peer-IsQueue now p = search (keeps_rules, insert_bgp-IsQueue, emit_sync_event-IsQueue)

pub ensure_node-IsQueue : (now node_id : String) → Keeps IsQueue (ensure_node now node_id)
unfolding ensure_node
ensure_node-IsQueue now node_id = search (keeps_rules, upsert_node-IsQueue)

pub update_bgp_peer-IsQueue :
    (now node_id : String) (asn : ℕ) (u : BgpChange)
    → Keeps IsQueue (update_bgp_peer now node_id asn u)
unfolding update_bgp_peer
update_bgp_peer-IsQueue now node_id asn u =
    search (keeps_rules, update_bgp-IsQueue, emit_sync_event-IsQueue) depth 7

pub insert_ibgp_peer-IsQueue :
    (now : String) (p : IbgpPeerRecord) → Keeps IsQueue (insert_ibgp_peer now p)
unfolding insert_ibgp_peer
insert_ibgp_peer-IsQueue now p = search (keeps_rules, insert_ibgp-IsQueue, emit_sync_event-IsQueue)

pub update_ibgp_peer-IsQueue :
    (now node_id name : String) (u : IbgpChange)
    → Keeps IsQueue (update_ibgp_peer now node_id name u)
unfolding update_ibgp_peer
update_ibgp_peer-IsQueue now node_id name u =
    search (keeps_rules, update_ibgp-IsQueue, emit_sync_event-IsQueue) depth 7

delete_found-IsQueue :
    {R : Type 0} (s : Statement (Unit {0})) (now node_id : String) (row : Option R)
    → Keeps IsQueue (execute s)
    → Keeps IsQueue (delete_found s now node_id row)
delete_found-IsQueue s now node_id none h = search keeps_rules
delete_found-IsQueue s now node_id (some row) h = search (keeps_rules, emit_sync_event-IsQueue)

pub delete_bgp_peer-IsQueue :
    (now node_id : String) (asn : ℕ) → Keeps IsQueue (delete_bgp_peer now node_id asn)
unfolding delete_bgp_peer
delete_bgp_peer-IsQueue now node_id asn = Keeps-or_abort _ _ (
    Keeps-bind _ _ (search keeps_rules)
      (λ row. delete_found-IsQueue _ now node_id row (Keeps-execute _ (λ t h. h))))

pub delete_ibgp_peer-IsQueue :
    (now node_id name : String) → Keeps IsQueue (delete_ibgp_peer now node_id name)
unfolding delete_ibgp_peer
delete_ibgp_peer-IsQueue now node_id name = Keeps-or_abort _ _ (
    Keeps-bind _ _ (search keeps_rules)
      (λ row. delete_found-IsQueue _ now node_id row (Keeps-execute _ (λ t h. h))))

pub ruleset queue_rules = (
  keeps_rules, insert_bgp_peer-IsQueue, update_bgp_peer-IsQueue, delete_bgp_peer-IsQueue,
  insert_ibgp_peer-IsQueue, update_ibgp_peer-IsQueue, delete_ibgp_peer-IsQueue, ensure_node-IsQueue,
)
