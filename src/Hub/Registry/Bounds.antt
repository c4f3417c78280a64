-- ===== src/Hub/Registry/Bounds.antt =====
-- How many connections of a node stay open.
use dn42_utils.Base.{
  ℕ, zero, suc, ◌+◌, ◌-◌, ◌≤◌, String, ◌≡◌, refl, arith, Bool, true, false, List, [], ◌∷◌, ◌++◌,
  length, take, any, eq_refl, update_where, Bool-cases, inl, inr, length-append,
}
use dn42_utils.Hub.Registry.{
  NodeConnection, NodeConnections, Registry, is_conn, is_entry, put_conn, put_entry,
  connections_for, surplus_of, register, max_connections_per_node,
}

connections_for-update :
    (node_id : String) (f : NodeConnections → NodeConnections)
    (g : List NodeConnection → List NodeConnection) (r : Registry)
    → ((e : NodeConnections) → (f e).node_id ≡ e.node_id)
    → ((e : NodeConnections) → (f e).conns ≡ g e.conns)
    → any (is_entry node_id) r ≡ true
    → connections_for node_id (update_where (is_entry node_id) f r) ≡ g (connections_for node_id r)
unfolding connections_for
connections_for-update node_id f g [] same on h = cc
connections_for-update node_id f g (e ∷ es) same on h =
    ground (arith, connections_for-update node_id f g es same on, same e, on e)

connections_for-none :
    (node_id : String) (r : Registry)
    → any (is_entry node_id) r ≡ false
    → connections_for node_id r ≡ []
unfolding connections_for
connections_for-none node_id [] h = refl
connections_for-none node_id (e ∷ es) h = ground (arith, connections_for-none node_id es)

connections_for-new :
    (node_id : String) (new : NodeConnections) (r : Registry)
    → any (is_entry node_id) r ≡ false
    → is_entry node_id new ≡ true
    → connections_for node_id (r ++ new ∷ []) ≡ new.conns
unfolding connections_for
connections_for-new node_id new [] h this = rw this
connections_for-new node_id new (e ∷ es) h this = ground (arith, connections_for-new node_id new es)

-- What the node's connections are after one is registered.
pub connections_for-register :
    (conn : NodeConnection) (r : Registry)
    → connections_for conn.node_id (register conn r).0
      ≡ put_conn conn (connections_for conn.node_id r)
unfolding register
connections_for-register conn r = elim (Bool-cases (any (is_entry conn.node_id) r)) [
  | inl known ↦
      rw known
        (connections_for-update conn.node_id _ (put_conn conn) r (λ e. refl) (λ e. refl) known)
  | inr new ↦ rw (
    new,
    connections_for-none conn.node_id r new,
    connections_for-new conn.node_id (record { node_id = conn.node_id; conns = conn ∷ [] }) r new
        (eq_refl conn.node_id),
  )
]

take-append_left :
    {A : Type 0} (n : ℕ) (xs ys : List A) → n ≤ length xs → take n (xs ++ ys) ≡ take n xs
take-append_left zero xs ys h = refl
take-append_left (suc n) [] ys h = ground arith
take-append_left (suc n) (x ∷ xs) ys h = rw (take-append_left n xs ys (omega arith))

any-take :
    {A : Type 0} (p : A → Bool) (n : ℕ) (xs : List A) → any p xs ≡ false → any p (take n xs) ≡ false
any-take p zero xs h = refl
any-take p (suc n) [] h = refl
any-take p (suc n) (x ∷ xs) h = ground (arith, any-take p n xs)

length-take : {A : Type 0} (n : ℕ) (xs : List A) → n ≤ length xs → length (take n xs) ≡ n
length-take zero xs h = refl
length-take (suc n) [] h = ground arith
length-take (suc n) (x ∷ xs) h = rw (length-take n xs (omega arith))

surplus_of-length :
    (conns : List NodeConnection)
    → length conns ≤ length (surplus_of conns) + max_connections_per_node
surplus_of-length conns =
    rw (length-take (length conns - max_connections_per_node) conns (omega arith)) (omega arith)

surplus_of-new :
    (conn : NodeConnection) (conns : List NodeConnection)
    → any (is_conn conn.conn_id) conns ≡ false
    → any (is_conn conn.conn_id) (surplus_of (conns ++ conn ∷ [])) ≡ false
surplus_of-new conn conns new =
    let count = length-append conns (conn ∷ []) in
    let few : length (conns ++ conn ∷ []) - max_connections_per_node ≤ length conns = omega arith in
    rw
      (take-append_left (length (conns ++ conn ∷ []) - max_connections_per_node) conns (conn ∷ [])
        few)
      (any-take (is_conn conn.conn_id) _ conns new)

any-append_new :
    (conn : NodeConnection) (conns : List NodeConnection)
    → any (is_conn conn.conn_id) (conns ++ conn ∷ []) ≡ true
any-append_new conn [] = rw (eq_refl conn.conn_id)
any-append_new conn (c ∷ cs) = ground (arith, any-append_new conn cs)

-- After a connection with a new id is registered, all of its node's connections but at most 4 are
-- to be closed, the new one is not among these, and it is registered.
pub register-surplus :
    (conn : NodeConnection) (r : Registry)
    → any (is_conn conn.conn_id) (connections_for conn.node_id r) ≡ false
    → (length (connections_for conn.node_id (register conn r).0)
        ≤ length (register conn r).1 + max_connections_per_node)
      × (any (is_conn conn.conn_id) (register conn r).1 ≡ false)
      × (any (is_conn conn.conn_id) (connections_for conn.node_id (register conn r).0) ≡ true)
unfolding register
register-surplus conn r new =
    let conns = connections_for conn.node_id r in
    let is : connections_for conn.node_id (put_entry conn r) ≡ conns ++ conn ∷ [] =
      rw new at (connections_for-register conn r) in
    rw is (
      surplus_of-length (conns ++ conn ∷ []),
      surplus_of-new conn conns new,
      any-append_new conn conns,
    )
