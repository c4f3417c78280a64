-- ===== src/NodeAddress/Plan.antt =====
-- What a plan of propagation changes.
use dn42_utils.Base.{
  ℕ, String, ◌≡◌, refl, arith, true, not, ◌&&◌, Option, none, some, List, [], ◌∷◌, ◌==◌, All,
  All-append, Has, Bool-cases, inl, inr,
}
use dn42_utils.Base.Text.{truthy, option_eq}
use dn42_utils.Database.Schema.{IbgpRow}
use dn42_utils.Managed.Nodes.Fields.{PeerColumn, peer_ip, endpoint, PropagatedChange}
use dn42_utils.Validators.{TextLibrary, Checked, valid, invalid, split_endpoint, format_endpoint}
use dn42_utils.NodeAddress.{
  plan_propagation, ip_plan, endpoint_plan, moved_endpoint, current_endpoint,
}

module _ (lib : TextLibrary) where
  -- The new value of a column: the node's address, or its host with the port that the row has now.
  abbrev pub Derived : Option String → Option String → IbgpRow → PeerColumn → String → Type 0
  Derived own_ipv6 endpoint_host row peer_ip new = (own_ipv6 ≡ some new) × (truthy new ≡ true)
  Derived own_ipv6 endpoint_host row endpoint new =
      (old_host : String) × (port : ℕ) × (host : String) × (endpoint_host ≡ some host)
      × (split_endpoint lib (current_endpoint lib row) ≡ valid (old_host, port))
      × (new ≡ format_endpoint lib host port)

  -- A change of one of the rows.
  abbrev pub IsPlanned : Option String → Option String → List IbgpRow → PropagatedChange → Type 0
  IsPlanned own_ipv6 endpoint_host rows change =
      (row : IbgpRow) × Has row rows
      × (change.node_id ≡ row.node_id)
      × (change.name ≡ row.name)
      × Derived own_ipv6 endpoint_host row change.field change.new

  ip_plan-IsPlanned :
      (own_ipv6 endpoint_host : Option String) (row : IbgpRow) (rows : List IbgpRow)
      → All (IsPlanned own_ipv6 endpoint_host (row ∷ rows)) (ip_plan own_ipv6 row)
  ip_plan-IsPlanned none endpoint_host row rows = tt
  ip_plan-IsPlanned (some own) endpoint_host row rows =
      elim (Bool-cases (truthy own && not (option_eq row.peer_ip (some own)))) [
        | inl differs ↦ rw differs ((row, inl refl, refl, refl, (refl, ground arith)), tt)
        | inr same ↦ rw same tt
      ]

  moved_endpoint-IsPlanned :
      (own_ipv6 : Option String) (host : String) (row : IbgpRow) (rows : List IbgpRow)
      (split : Checked (String × ℕ))
      → split_endpoint lib (current_endpoint lib row) ≡ split
      → All (IsPlanned own_ipv6 (some host) (row ∷ rows)) (moved_endpoint lib host row split).0
  moved_endpoint-IsPlanned own_ipv6 host row rows (invalid e) parsed = tt
  moved_endpoint-IsPlanned own_ipv6 host row rows (valid (old_host, port)) parsed =
      elim (Bool-cases (format_endpoint lib host port == current_endpoint lib row)) [
        | inl same ↦ rw same tt
        | inr differs ↦
            rw differs ((row, inl refl, refl, refl, (old_host, port, host, refl, parsed, refl)), tt)
      ]

  endpoint_plan-IsPlanned :
      (own_ipv6 endpoint_host : Option String) (row : IbgpRow) (rows : List IbgpRow)
      → All (IsPlanned own_ipv6 endpoint_host (row ∷ rows)) (endpoint_plan lib endpoint_host row).0
  endpoint_plan-IsPlanned own_ipv6 none row rows = tt
  endpoint_plan-IsPlanned own_ipv6 (some host) row rows = elim (Bool-cases (truthy host)) [
    | inr empty_host ↦ rw empty_host tt
    | inl given_host ↦ rw given_host (elim (Bool-cases (truthy (current_endpoint lib row))) [
      | inr passive ↦ rw passive tt
      | inl active ↦ rw active (moved_endpoint-IsPlanned own_ipv6 host row rows _ refl)
    ])
  ]

  All-wider :
      (own_ipv6 endpoint_host : Option String) (row : IbgpRow) (rows : List IbgpRow)
      (changes : List PropagatedChange)
      → All (IsPlanned own_ipv6 endpoint_host rows) changes
      → All (IsPlanned own_ipv6 endpoint_host (row ∷ rows)) changes
  All-wider own_ipv6 endpoint_host row rows [] h = tt
  All-wider own_ipv6 endpoint_host row rows (change ∷ changes)
        ((r, has, same_node, same_name, derived), h) =
      (
        (r, inr has, same_node, same_name, derived),
        All-wider own_ipv6 endpoint_host row rows changes h,
      )

  -- Every change of a plan is for one of the rows; it sets the peer's address to the node's own,
  -- which is not empty, or the endpoint to the node's host with the port that the row's endpoint
  -- has now.
  pub plan_propagation-IsPlanned :
      (rows : List IbgpRow) (own_ipv6 endpoint_host : Option String)
      → All
          (IsPlanned own_ipv6 endpoint_host rows)
          (plan_propagation lib rows own_ipv6 endpoint_host).0
  unfolding plan_propagation
  plan_propagation-IsPlanned [] own_ipv6 endpoint_host = tt
  plan_propagation-IsPlanned (row ∷ rows) own_ipv6 endpoint_host =
      All-append (IsPlanned own_ipv6 endpoint_host (row ∷ rows)) (ip_plan own_ipv6 row) _
        (ip_plan-IsPlanned own_ipv6 endpoint_host row rows)
        (All-append (IsPlanned own_ipv6 endpoint_host (row ∷ rows))
          (endpoint_plan lib endpoint_host row).0 _
          (endpoint_plan-IsPlanned own_ipv6 endpoint_host row rows)
          (All-wider own_ipv6 endpoint_host row rows _
            (plan_propagation-IsPlanned rows own_ipv6 endpoint_host)))
