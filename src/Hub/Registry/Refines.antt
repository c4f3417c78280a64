-- ===== src/Hub/Registry/Refines.antt =====
-- The registry as a map from nodes to connections.
use dn42_utils.Base.{
  String, ◌≡◌, refl, arith, Bool, true, false, List, [], ◌∷◌, ◌++◌, any, ◌==◌, eq_iff, eq_refl,
  update_where, delete_where, Bool-cases, inl, inr, All, if◌then◌else◌, ap, sym, ◌∙◌, subst,
  fun_ext,
}
use dn42_utils.Hub.Registry.{
  NodeConnection, NodeConnections, Registry, no_conns, is_conn, is_entry, put_conn, pop_conn,
  is_empty_entry, connections_for, register, unregister, notify,
}
use dn42_utils.Hub.Registry.Bounds.{connections_for-register}

-- Each node has one entry.
abbrev pub IsUnique : Registry → Type 0
IsUnique [] = Unit
IsUnique (e ∷ es) = (any (is_entry e.node_id) es ≡ false) × IsUnique es

abbrev pub IsFull : Registry → Type 0
IsFull r = All (λ (e : NodeConnections). no_conns e.conns ≡ false) r

-- And no entry is empty.
abbrev pub IsRegistry : Registry → Type 0
IsRegistry r = IsUnique r × IsFull r

pub data RegistryCall : Type 0 where
  registers unregisters : NodeConnection → RegistryCall
  notifies : String → RegistryCall

abbrev pub step : RegistryCall → Registry → Registry
step (registers conn) r = (register conn r).0
step (unregisters conn) r = unregister conn r
step (notifies node_id) r = notify node_id r

pub run : List RegistryCall → Registry → Registry
run [] r = r
run (call ∷ calls) r = run calls (step call r)

abbrev pub set_woken : NodeConnection → NodeConnection
set_woken c = record c { woken = true }

-- The same calls on a function from nodes to connections.
abbrev pub spec_step : RegistryCall → (String → List NodeConnection) → String → List NodeConnection
spec_step (registers conn) f n = if n == conn.node_id then put_conn conn (f n) else f n
spec_step (unregisters conn) f n =
    if n == conn.node_id then delete_where (is_conn conn.conn_id) (f n) else f n
spec_step (notifies node_id) f n =
    if n == node_id then update_where (λ c. true) set_woken (f n) else f n

pub replay : List RegistryCall → (String → List NodeConnection) → String → List NodeConnection
replay [] f = f
replay (call ∷ calls) f = replay calls (spec_step call f)

any-update_entry :
    (n m : String) (f : NodeConnections → NodeConnections) (r : Registry)
    → ((e : NodeConnections) → (f e).node_id ≡ e.node_id)
    → any (is_entry n) (update_where (is_entry m) f r) ≡ any (is_entry n) r
any-update_entry n m f [] same = refl
any-update_entry n m f (e ∷ es) same = ground (arith, any-update_entry n m f es same, same e)

IsUnique-update :
    (m : String) (f : NodeConnections → NodeConnections) (r : Registry)
    → ((e : NodeConnections) → (f e).node_id ≡ e.node_id)
    → IsUnique r
    → IsUnique (update_where (is_entry m) f r)
IsUnique-update m f [] same h = tt
IsUnique-update m f (e ∷ es) same h = (
  ground (arith, same e, any-update_entry e.node_id m f es same, h.0),
  IsUnique-update m f es same h.1,
)

IsFull-update :
    (m : String) (f : NodeConnections → NodeConnections) (r : Registry)
    → ((e : NodeConnections) → no_conns e.conns ≡ false → no_conns (f e).conns ≡ false)
    → IsFull r
    → IsFull (update_where (is_entry m) f r)
IsFull-update m f [] full h = tt
IsFull-update m f (e ∷ es) full h = (ground (arith, full e h.0, h.0), IsFull-update m f es full h.1)

any-delete_entry :
    (n : String) (p : NodeConnections → Bool) (r : Registry)
    → any (is_entry n) r ≡ false
    → any (is_entry n) (delete_where p r) ≡ false
any-delete_entry n p [] h = refl
any-delete_entry n p (e ∷ es) h = ground (arith, any-delete_entry n p es)

IsUnique-delete :
    (p : NodeConnections → Bool) (r : Registry) → IsUnique r → IsUnique (delete_where p r)
IsUnique-delete p [] h = tt
IsUnique-delete p (e ∷ es) h = elim (Bool-cases (p e)) [
  | inl gone ↦ rw gone (IsUnique-delete p es h.1)
  | inr kept ↦ rw kept (any-delete_entry e.node_id p es h.0, IsUnique-delete p es h.1)
]

IsFull-unregister : (conn : NodeConnection) (r : Registry) → IsFull r → IsFull (unregister conn r)
unfolding unregister
IsFull-unregister conn [] h = tt
IsFull-unregister conn (e ∷ es) h = ground (arith, h.0, IsFull-unregister conn es h.1)

IsUnique-append :
    (new : NodeConnections) (r : Registry)
    → any (is_entry new.node_id) r ≡ false
    → IsUnique r
    → IsUnique (r ++ new ∷ [])
IsUnique-append new [] h u = (refl, tt)
IsUnique-append new (e ∷ es) h u =
    (any-append_other es ∙ u.0, IsUnique-append new es (ground arith) u.1)
  where
    apart : is_entry e.node_id new ≡ false
    apart = ground (arith, eq_iff e.node_id new.node_id, eq_iff new.node_id e.node_id)

    any-append_other :
        (xs : Registry) → any (is_entry e.node_id) (xs ++ new ∷ []) ≡ any (is_entry e.node_id) xs
    any-append_other [] = rw apart
    any-append_other (x ∷ xs) = rw (any-append_other xs)

no_conns-put_conn :
    (conn : NodeConnection) (cs : List NodeConnection) → no_conns (put_conn conn cs) ≡ false
no_conns-put_conn conn [] = refl
no_conns-put_conn conn (c ∷ cs) = ground arith

no_conns-set_woken :
    (cs : List NodeConnection)
    → no_conns cs ≡ false
    → no_conns (update_where (λ c. true) set_woken cs) ≡ false
no_conns-set_woken [] h = cc
no_conns-set_woken (c ∷ cs) h = refl

IsFull-append :
    (new : NodeConnections) (r : Registry)
    → no_conns new.conns ≡ false
    → IsFull r
    → IsFull (r ++ new ∷ [])
IsFull-append new [] n h = (n, tt)
IsFull-append new (e ∷ es) n h = (h.0, IsFull-append new es n h.1)

step-IsRegistry : (call : RegistryCall) (r : Registry) → IsRegistry r → IsRegistry (step call r)
unfolding register unregister notify
step-IsRegistry (registers conn) r (u, f) = elim (Bool-cases (any (is_entry conn.node_id) r)) [
  | inl known ↦ rw known (
    IsUnique-update conn.node_id _ r (λ e. refl) u,
    IsFull-update conn.node_id _ r (λ e h. no_conns-put_conn conn e.conns) f,
  )
  | inr new ↦ rw new (IsUnique-append _ r new u, IsFull-append _ r refl f)
]
step-IsRegistry (unregisters conn) r (u, f) = (
  IsUnique-delete _ _ (IsUnique-update conn.node_id _ r (λ e. refl) u),
  IsFull-unregister conn r f,
)
step-IsRegistry (notifies node_id) r (u, f) = (
  IsUnique-update node_id _ r (λ e. refl) u,
  IsFull-update node_id _ r (λ e. no_conns-set_woken e.conns) f,
)

connections_for-update_other :
    (n m : String) (f : NodeConnections → NodeConnections) (r : Registry)
    → ((e : NodeConnections) → (f e).node_id ≡ e.node_id)
    → (n == m) ≡ false
    → connections_for n (update_where (is_entry m) f r) ≡ connections_for n r
unfolding connections_for
connections_for-update_other n m f [] same apart = refl
connections_for-update_other n m f (e ∷ es) same apart = ground (
  arith,
  connections_for-update_other n m f es same apart,
  same e,
  eq_iff e.node_id n,
  eq_iff e.node_id m,
  eq_iff n m,
)

connections_for-update_this :
    (m : String) (f : NodeConnections → NodeConnections)
    (g : List NodeConnection → List NodeConnection) (r : Registry)
    → ((e : NodeConnections) → (f e).node_id ≡ e.node_id)
    → ((e : NodeConnections) → (f e).conns ≡ g e.conns)
    → g [] ≡ []
    → connections_for m (update_where (is_entry m) f r) ≡ g (connections_for m r)
unfolding connections_for
connections_for-update_this m f g [] same on nil = sym nil
connections_for-update_this m f g (e ∷ es) same on nil =
    ground (arith, connections_for-update_this m f g es same on nil, same e, on e)

connections_for-append_other :
    (n : String) (new : NodeConnections) (r : Registry)
    → is_entry n new ≡ false
    → connections_for n (r ++ new ∷ []) ≡ connections_for n r
unfolding connections_for
connections_for-append_other n new [] h = rw h
connections_for-append_other n new (e ∷ es) h =
    ground (arith, connections_for-append_other n new es h)

connections_for-absent :
    (n : String) (r : Registry) → any (is_entry n) r ≡ false → connections_for n r ≡ []
unfolding connections_for
connections_for-absent n [] h = refl
connections_for-absent n (e ∷ es) h = ground (arith, connections_for-absent n es)

no_conns-eq-true : (cs : List NodeConnection) → no_conns cs ≡ true → cs ≡ []
no_conns-eq-true [] h = refl
no_conns-eq-true (c ∷ cs) h = cc

connections_for-delete :
    (n m : String) (r : Registry)
    → IsUnique r
    → connections_for n (delete_where (is_empty_entry m) r) ≡ connections_for n r
unfolding connections_for
connections_for-delete n m [] u = refl
connections_for-delete n m (e ∷ es) u =
    let rest = connections_for-delete n m es u.1 in
    elim (Bool-cases (is_entry n e)) [
      | inr other ↦ ground (arith, rest)
      | inl this ↦
          let absent : any (is_entry n) es ≡ false =
            subst (λ k. any (is_entry k) es ≡ false) ((eq_iff e.node_id n).0 this) u.0 in
          ground (arith, rest, connections_for-absent n es absent, no_conns-eq-true e.conns)
    ]

connections_for-register_at :
    (n : String) (conn : NodeConnection) (r : Registry)
    → connections_for n (register conn r).0
      ≡ spec_step (registers conn) (λ m. connections_for m r) n
unfolding register
connections_for-register_at n conn r = elim (Bool-cases (n == conn.node_id)) [
  | inl this ↦
      let same : n ≡ conn.node_id = (eq_iff n conn.node_id).0 this in
      rw (same, eq_refl conn.node_id) (connections_for-register conn r)
  | inr other ↦ rw other (elim (Bool-cases (any (is_entry conn.node_id) r)) [
    | inl known ↦ rw known (connections_for-update_other n conn.node_id _ r (λ e. refl) other)
    | inr new ↦ rw new (
        connections_for-append_other n (record { node_id = conn.node_id; conns = conn ∷ [] }) r
          (ground (arith, eq_iff conn.node_id n, eq_iff n conn.node_id)))
  ])
]

connections_for-unregister :
    (n : String) (conn : NodeConnection) (r : Registry)
    → IsUnique r
    → connections_for n (unregister conn r)
      ≡ spec_step (unregisters conn) (λ m. connections_for m r) n
unfolding unregister
connections_for-unregister n conn r u =
    let after_pop =
      connections_for-delete n conn.node_id _
        (IsUnique-update conn.node_id (pop_conn conn) r (λ e. refl) u) in
    after_pop ∙ (elim (Bool-cases (n == conn.node_id)) [
      | inl this ↦
          let same : n ≡ conn.node_id = (eq_iff n conn.node_id).0 this in
          rw (same, eq_refl conn.node_id)
            (connections_for-update_this conn.node_id (pop_conn conn)
              (delete_where (is_conn conn.conn_id)) r (λ e. refl) (λ e. refl) refl)
      | inr other ↦
          rw other (connections_for-update_other n conn.node_id (pop_conn conn) r (λ e. refl) other)
    ])

pub connections_for-notify :
    (n node_id : String) (r : Registry)
    → connections_for n (notify node_id r)
      ≡ spec_step (notifies node_id) (λ m. connections_for m r) n
unfolding notify
connections_for-notify n node_id r = elim (Bool-cases (n == node_id)) [
  | inl this ↦
      let same : n ≡ node_id = (eq_iff n node_id).0 this in
      rw (same, eq_refl node_id)
        (connections_for-update_this node_id _ (update_where (λ c. true) set_woken) r (λ e. refl)
          (λ e. refl) refl)
  | inr other ↦ rw other (connections_for-update_other n node_id _ r (λ e. refl) other)
]

connections_for-step :
    (call : RegistryCall) (r : Registry) (n : String)
    → IsUnique r
    → connections_for n (step call r) ≡ spec_step call (λ m. connections_for m r) n
connections_for-step (registers conn) r n u = connections_for-register_at n conn r
connections_for-step (unregisters conn) r n u = connections_for-unregister n conn r u
connections_for-step (notifies node_id) r n u = connections_for-notify n node_id r

-- After any calls in sequence, on a registry in which each node has one entry and none is empty,
-- this holds again, and the connections of every node are those that the same calls give on a
-- plain map from nodes to connections, where each call changes its own node only.
pub run_refines :
    (calls : List RegistryCall) (r : Registry) (n : String)
    → IsRegistry r
    → IsRegistry (run calls r)
      × (connections_for n (run calls r) ≡ replay calls (λ m. connections_for m r) n)
unfolding run replay
run_refines [] r n h = (h, refl)
run_refines (call ∷ calls) r n h =
    let (h', e) = run_refines calls (step call r) n (step-IsRegistry call r h) in
    (h', e ∙ ap (λ f. replay calls f n) (fun_ext (λ m. connections_for-step call r m h.0)))
