-- ===== src/Managed/Nodes/SelfNode.antt =====
-- The mark of the central host's own node.
use dn42_utils.Base.{
  String, ◌≡◌, refl, arith, Bool, true, false, ◌&&◌, List, [], ◌∷◌, ◌++◌, ◌==◌, eq_iff, any,
  update_where, if◌then◌else◌, All, Bool-cases, inl, inr, eq_refl,
}
use dn42_utils.Database.Schema.{ManagedNode}
use dn42_utils.Database.Connection.{later_faults, Connection, ok, ◌>>=◌, execute, commit, or_abort}
use dn42_utils.Database.Connection.Quiet.{no_fault, no_fault-parts}
use dn42_utils.Database.Connection.Atomic.{IsClosed}
use dn42_utils.Managed.Nodes.{register_self, demote, other_self, is_node, new_node}

-- Only `node_id` is a self row.
abbrev pub OnlySelf : String → List ManagedNode → Type 0
OnlySelf node_id ns = All (λ (n : ManagedNode). n.is_self ≡ true → n.node_id ≡ node_id) ns

demote-OnlySelf :
    (now node_id : String) (ns : List ManagedNode)
    → OnlySelf node_id (update_where (λ n. true) (demote now node_id) ns)
demote-OnlySelf now node_id [] = tt
demote-OnlySelf now node_id (n ∷ ns) =
    (λ h. ground (arith, eq_iff n.node_id node_id), demote-OnlySelf now node_id ns)

promote-OnlySelf :
    (now node_id : String) (ns : List ManagedNode)
    → OnlySelf node_id ns
    → OnlySelf node_id (
        update_where
          (is_node node_id)
          (λ n. record n { is_self = true; enabled = true; updated_at = now })
          ns)
promote-OnlySelf now node_id [] h = tt
promote-OnlySelf now node_id (n ∷ ns) h =
    (λ s. ground (arith, eq_iff n.node_id node_id, h.0), promote-OnlySelf now node_id ns h.1)

-- The rows after a registration.
abbrev self_rows : String → String → String → List ManagedNode → List ManagedNode
self_rows now node_id name ns =
    let others = update_where (λ (n : ManagedNode). true) (demote now node_id) ns in
    if any (is_node node_id) others
    then update_where (is_node node_id)
        (λ n. record n { is_self = true; enabled = true; updated_at = now }) others
    else others ++ new_node now node_id name true ∷ []

register_self-effect :
    (now node_id name : String) (c : Connection)
    → IsClosed c
    → (register_self now node_id name c).0 ≡ ok tt
    → (register_self now node_id name c).1.committed.managed_nodes
      ≡ self_rows now node_id name c.committed.managed_nodes
unfolding register_self ◌>>=◌ execute commit or_abort
register_self-effect now node_id name c closed h = rw (← closed) (ground arith)

OnlySelf-append :
    (node_id : String) (ns : List ManagedNode) (n : ManagedNode)
    → OnlySelf node_id ns
    → n.node_id ≡ node_id
    → OnlySelf node_id (ns ++ n ∷ [])
OnlySelf-append node_id [] n h same = ((λ _. same), tt)
OnlySelf-append node_id (x ∷ ns) n h same = (h.0, OnlySelf-append node_id ns n h.1 same)

self_rows-OnlySelf :
    (now node_id name : String) (ns : List ManagedNode)
    → OnlySelf node_id (self_rows now node_id name ns)
self_rows-OnlySelf now node_id name ns =
    let others = update_where (λ (n : ManagedNode). true) (demote now node_id) ns in
    let only = demote-OnlySelf now node_id ns in
    elim (Bool-cases (any (is_node node_id) others)) [
      | inl known ↦ rw known (promote-OnlySelf now node_id others only)
      | inr new ↦ rw new (OnlySelf-append node_id others _ only refl)
    ]

abbrev pub is_self_row : String → ManagedNode → Bool
is_self_row node_id n = n.is_self && n.node_id == node_id

any-promote :
    (now node_id : String) (ns : List ManagedNode)
    → any (is_node node_id) ns ≡ true
    → any (is_self_row node_id) (
        update_where
          (is_node node_id)
          (λ n. record n { is_self = true; enabled = true; updated_at = now })
          ns)
      ≡ true
any-promote now node_id [] h = cc
any-promote now node_id (n ∷ ns) h = ground (arith, any-promote now node_id ns)

any-append_self :
    (node_id : String) (ns : List ManagedNode) (n : ManagedNode)
    → is_self_row node_id n ≡ true
    → any (is_self_row node_id) (ns ++ n ∷ []) ≡ true
any-append_self node_id [] n h = rw h
any-append_self node_id (x ∷ ns) n h = ground (arith, any-append_self node_id ns n h)

self_rows-marked :
    (now node_id name : String) (ns : List ManagedNode)
    → any (is_self_row node_id) (self_rows now node_id name ns) ≡ true
self_rows-marked now node_id name ns =
    let others = update_where (λ (n : ManagedNode). true) (demote now node_id) ns in
    elim (Bool-cases (any (is_node node_id) others)) [
      | inl known ↦ rw known (any-promote now node_id others known)
      | inr new ↦
          rw new (any-append_self node_id others (new_node now node_id name true) (eq_refl node_id))
    ]

not_other_self :
    (node_id : String) (ns : List ManagedNode)
    → OnlySelf node_id ns
    → any (other_self node_id) ns ≡ false
not_other_self node_id [] h = refl
not_other_self node_id (n ∷ ns) h =
    ground (arith, not_other_self node_id ns h.1, h.0, eq_iff n.node_id node_id)

-- Once no other row is marked, no statement of a registration is refused.
register_self_returns :
    (now node_id name : String) (c : Connection)
    → no_fault c.faults ≡ true
    → (register_self now node_id name c).0 ≡ ok tt
unfolding register_self ◌>>=◌ execute commit or_abort
register_self_returns now node_id name c live =
    let others =
      update_where (λ (n : ManagedNode). true) (demote now node_id) c.working.managed_nodes in
    let alone : any (other_self node_id) others ≡ false =
      not_other_self node_id others (demote-OnlySelf now node_id c.working.managed_nodes) in
    let (first, after_first) = no_fault-parts c.faults live in
    let (second, after_second) = no_fault-parts (later_faults c.faults) after_first in
    let (third, after_third) = no_fault-parts (later_faults (later_faults c.faults)) after_second in
    let (last, _) =
      no_fault-parts (later_faults (later_faults (later_faults c.faults))) after_third in
    rw first (ground (arith, alone, second, third, last))

-- A registration of the host's own node, on a connection with no open transaction of which no
-- statement fails, returns whatever rows were marked before, and then that node has a marked row
-- and no other node has one.
pub register_self-single :
    (now node_id name : String) (c : Connection)
    → IsClosed c
    → no_fault c.faults ≡ true
    → ((register_self now node_id name c).0 ≡ ok tt)
      × (any (other_self node_id) (register_self now node_id name c).1.committed.managed_nodes
          ≡ false)
      × (any (is_self_row node_id) (register_self now node_id name c).1.committed.managed_nodes
          ≡ true)
register_self-single now node_id name c closed live =
    let returns = register_self_returns now node_id name c live in
    rw (register_self-effect now node_id name c closed returns) (
      returns,
      not_other_self node_id (self_rows now node_id name c.committed.managed_nodes)
          (self_rows-OnlySelf now node_id name c.committed.managed_nodes),
      self_rows-marked now node_id name c.committed.managed_nodes,
    )
