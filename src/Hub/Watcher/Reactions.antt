-- ===== src/Hub/Watcher/Reactions.antt =====
-- What the events of a round do to the connections.
use dn42_utils.Base.{
  ℕ, String, ◌≡◌, refl, ◌∙◌, arith, Bool, true, false, not, ◌&&◌, List, [], ◌∷◌, ◌++◌, any, All,
  Has, if◌then◌else◌, ◌==◌, eq_iff, update_where, Bool-cases, inl, inr,
}
use dn42_utils.Base.Text.{mem}
use dn42_utils.Constants.{sync_event_desired, sync_event_access_revoked}
use dn42_utils.Database.Schema.{SyncEvent}
use dn42_utils.Ws.{close_revoked}
use dn42_utils.Hub.Registry.{NodeConnection, Registry, connections_for, notify}
use dn42_utils.Hub.Registry.Refines.{set_woken, connections_for-notify}
use dn42_utils.Hub.Watcher.{
  Watcher, node_ids, without, close_conns, close_nodes, notify_nodes, react,
}

abbrev pub wake : List NodeConnection → List NodeConnection
wake cs = update_where (λ c. true) set_woken cs

wake_idem : (cs : List NodeConnection) → wake (wake cs) ≡ wake cs
wake_idem [] = refl
wake_idem (c ∷ cs) = rw (wake_idem cs)

-- An event of a kind for a node.
abbrev pub concerns : String → String → SyncEvent → Bool
concerns kind node_id e = e.kind == kind && e.node_id == node_id

mem-node_ids :
    (kind n : String) (es : List SyncEvent) → mem n (node_ids kind es) ≡ any (concerns kind n) es
unfolding node_ids
mem-node_ids kind n [] = refl
mem-node_ids kind n (e ∷ es) = ground (arith, mem-node_ids kind n es, eq_iff e.node_id n)

mem-without :
    (n : String) (xs ys : List String) → mem n (without xs ys) ≡ (mem n xs && not (mem n ys))
unfolding without
mem-without n [] ys = refl
mem-without n (x ∷ xs) ys = ground (arith, mem-without n xs ys, eq_iff x n)

connections_for-notify_nodes :
    (n : String) (ns : List String) (r : Registry)
    → connections_for n (notify_nodes ns r)
      ≡ (if mem n ns then wake (connections_for n r) else connections_for n r)
unfolding notify_nodes
connections_for-notify_nodes n [] r = refl
connections_for-notify_nodes n (m ∷ ns) r = ground (
  arith,
  connections_for-notify_nodes n ns (notify m r),
  connections_for-notify n m r,
  wake_idem (connections_for n r),
  eq_iff n m,
  eq_iff m n,
)

-- The nodes that are notified.
abbrev targets : List SyncEvent → List String
targets events =
    without (node_ids sync_event_desired events) (node_ids sync_event_access_revoked events)

Has-append_left : {A : Type 0} (x : A) (xs ys : List A) → Has x xs → Has x (xs ++ ys)
Has-append_left x [] zs h = absurd h
Has-append_left x (y ∷ ys) zs (inl h) = inl h
Has-append_left x (y ∷ ys) zs (inr h) = inr (Has-append_left x ys zs h)

Has-append_right : {A : Type 0} (x : A) (xs ys : List A) → Has x ys → Has x (xs ++ ys)
Has-append_right x [] ys h = h
Has-append_right x (y ∷ xs) ys h = inr (Has-append_right x xs ys h)

All-map :
    {A : Type 0} (P Q : A → Type 0) (xs : List A) → ((x : A) → P x → Q x) → All P xs → All Q xs
All-map P Q [] f h = tt
All-map P Q (x ∷ xs) f h = (f x h.0, All-map P Q xs f h.1)

-- Each connection is among the closed ones, with the code of a revocation.
abbrev pub AllClosed : List NodeConnection → List (String × ℕ) → Type 0
AllClosed cs closed = All (λ (c : NodeConnection). Has (c.conn_id, close_revoked) closed) cs

close_conns-AllClosed : (cs : List NodeConnection) → AllClosed cs (close_conns close_revoked cs)
unfolding close_conns
close_conns-AllClosed [] = tt
close_conns-AllClosed (c ∷ cs) =
    (inl refl, All-map _ _ cs (λ d h. inr h) (close_conns-AllClosed cs))

close_nodes-AllClosed :
    (n : String) (ns : List String) (r : Registry)
    → mem n ns ≡ true
    → AllClosed (connections_for n r) (close_nodes ns r)
unfolding close_nodes
close_nodes-AllClosed n [] r h = cc
close_nodes-AllClosed n (m ∷ ns) r h = elim (Bool-cases (m == n)) [
  | inl this ↦
      let same : m ≡ n = (eq_iff m n).0 this in
      All-map _ _ (connections_for n r)
        (λ c.
          Has-append_left (c.conn_id, close_revoked)
            (close_conns close_revoked (connections_for m r)) (close_nodes ns r))
        (rw same (close_conns-AllClosed (connections_for n r)))
  | inr other ↦
      All-map _ _ (connections_for n r)
        (λ c.
          Has-append_right (c.conn_id, close_revoked)
            (close_conns close_revoked (connections_for m r)) (close_nodes ns r))
        (close_nodes-AllClosed n ns r (ground arith))
]

-- When the events of a round revoke a node, every connection of the node is closed with the code
-- of a revocation and none of them is woken, whatever other events of the node are there.
pub react-revoked :
    (n : String) (events : List SyncEvent) (w : Watcher)
    → any (concerns sync_event_access_revoked n) events ≡ true
    → AllClosed (connections_for n w.registry) (react events w).closed
      × (connections_for n (react events w).registry ≡ connections_for n w.registry)
unfolding react
react-revoked n events w revoked =
    let listed : mem n (node_ids sync_event_access_revoked events) ≡ true =
      mem-node_ids sync_event_access_revoked n events ∙ revoked in
    (
      All-map _ _ (connections_for n w.registry)
          (λ c.
            Has-append_right (c.conn_id, close_revoked) w.closed
              (close_nodes (node_ids sync_event_access_revoked events) w.registry))
          (close_nodes-AllClosed n (node_ids sync_event_access_revoked events) w.registry listed),
      connections_for-notify_nodes n (targets events) w.registry
          ∙ rw
              (
                mem-without n (node_ids sync_event_desired events)
                    (node_ids sync_event_access_revoked events),
                listed,
              )
              (ground arith),
    )

-- A node that the events of a round do not revoke has all of its connections woken when one of
-- them says that its desired state may have changed, and none otherwise.
pub react-desired :
    (n : String) (events : List SyncEvent) (w : Watcher)
    → any (concerns sync_event_access_revoked n) events ≡ false
    → connections_for n (react events w).registry ≡ (
        if any (concerns sync_event_desired n) events
        then wake (connections_for n w.registry)
        else connections_for n w.registry)
unfolding react
react-desired n events w kept =
    connections_for-notify_nodes n (targets events) w.registry
    ∙ ground (
      arith,
      mem-without n (node_ids sync_event_desired events)
          (node_ids sync_event_access_revoked events),
      mem-node_ids sync_event_desired n events,
      mem-node_ids sync_event_access_revoked n events,
    )
