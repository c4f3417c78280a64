-- ===== src/Peering/Free.antt =====
-- The listen ports that the services choose.
use dn42_utils.Base.{
  ℕ, String, ◌≡◌, refl, ap, sym, ◌∙◌, subst, arith, true, false, Option, none, some, List, [], ◌∷◌,
  ◌++◌, map, select, ltb, nat_eq, ◌==◌, Bool-cases, inl, inr, ◌⊎◌,
}
use dn42_utils.Json.{ℤ}
use dn42_utils.Database.Schema.{BgpRow, IbgpRow, Tables}
use dn42_utils.Database.Connection.{
  M, Connection, Outcome, ok, raised, sql, database_error, dn42ctl_error, value_error, pure, raise,
  ◌>>=◌, execute, or_raise,
}
use dn42_utils.Database.Connection.Inversion.{>>=-eq-ok, ok_injective}
use dn42_utils.Database.Peers.{get_used_listen_ports}
use dn42_utils.Validators.{Checked, valid, invalid, validate_listen_port}
use dn42_utils.Peering.{as_dn42ctl, handle_database, require_valid, discard, is_used, Draws}
use dn42_utils.Peering.Ports.{
  pick_unused_port, pick_unused_port-Picked, picked, Picked, draws_tried,
}
use dn42_utils.Peering.Ibgp.{port_of, refuse_used}

-- The ports of a node's rows.
abbrev pub listen_ports : String → Tables → List ℕ
listen_ports node_id t =
    map (λ (r : BgpRow). r.listen_port) (select (λ r. r.node_id == node_id) t.bgp_peers)
    ++ map (λ (r : IbgpRow). r.listen_port) (select (λ r. r.node_id == node_id) t.ibgp_peers)

handle_database-eq-ok :
    {A : Type 0} (r : Outcome A) (c : Connection) {a : A}
    → (handle_database r c).0 ≡ ok a
    → (r ≡ ok a) × ((handle_database r c).1 ≡ c)
unfolding pure raise
handle_database-eq-ok (ok a) c h = (h, refl)
handle_database-eq-ok (raised (sql e)) c h = cc
handle_database-eq-ok (raised (database_error e)) c h = cc
handle_database-eq-ok (raised (dn42ctl_error e)) c h = cc
handle_database-eq-ok (raised (value_error e)) c h = cc

pub as_dn42ctl-eq-ok :
    {A : Type 0} (m : M A) (c : Connection) {a : A}
    → (as_dn42ctl m c).0 ≡ ok a
    → ((m c).0 ≡ ok a) × ((as_dn42ctl m c).1 ≡ (m c).1)
unfolding as_dn42ctl
as_dn42ctl-eq-ok m c h = handle_database-eq-ok (m c).0 (m c).1 h

used_ports-eq-ok :
    (node_id : String) (c : Connection) (ports : List ℕ)
    → (as_dn42ctl (get_used_listen_ports node_id) c).0 ≡ ok ports
    → ports ≡ listen_ports node_id c.working
unfolding get_used_listen_ports or_raise ◌>>=◌ pure execute
used_ports-eq-ok node_id c ports h =
    let (ran, same) = as_dn42ctl-eq-ok (get_used_listen_ports node_id) c h in ground (arith, ran)

is_used-discard :
    (port other : ℕ) (used : List ℕ)
    → nat_eq port other ≡ false
    → is_used port (discard other used) ≡ is_used port used
is_used-discard port other [] apart = refl
is_used-discard port other (p ∷ ps) apart = ground (arith, is_used-discard port other ps apart)

-- No port, or one that no row of the node has.
abbrev pub IsFreeOf : ℕ → List ℕ → Type 0
IsFreeOf port used = (port ≡ 0) ⊎ (is_used port used ≡ false)

abbrev pub IsFree : String → ℕ → Tables → Type 0
IsFree node_id port t = IsFreeOf port (listen_ports node_id t)

IsFree-discard :
    (node_id : String) (port : ℕ) (t : Tables)
    → is_used port (discard 0 (listen_ports node_id t)) ≡ false
    → IsFree node_id port t
IsFree-discard node_id port t h = elim (Bool-cases (nat_eq port 0)) [
  | inl none_given ↦ inl (ground arith)
  | inr other ↦ inr (sym (is_used-discard port 0 (listen_ports node_id t) other) ∙ h)
]

refuse_used-eq-ok :
    (node_id : String) (port : ℕ) (c : Connection)
    → (refuse_used node_id port c).0 ≡ ok tt
    → IsFree node_id port c.working
unfolding refuse_used pure raise
refuse_used-eq-ok node_id port c h = elim (Bool-cases (ltb 0 port)) [
  | inr zero_port ↦ inl (ground arith)
  | inl positive ↦
      let (used, ran, rest, _) =
        >>=-eq-ok (as_dn42ctl (get_used_listen_ports node_id)) _ c (rw positive at h) in
      let same = used_ports-eq-ok node_id c used ran in
      let unused : is_used port (discard 0 used) ≡ false = ground arith in
      IsFree-discard node_id port c.working (rw same at unused)
]

picked-eq-ok : (o : Option ℕ) (c : Connection) (port : ℕ) → (picked o c).0 ≡ ok port → o ≡ some port
unfolding pure raise
picked-eq-ok none c port h = cc
picked-eq-ok (some p) c port h = ap some (ok_injective p port h)

pub require_valid-eq-ok :
    {A : Type 0} (r : Checked A) (c : Connection) {a : A}
    → (require_valid r c).0 ≡ ok a
    → (r ≡ valid a) × ((require_valid r c).1 ≡ c)
unfolding require_valid pure raise
require_valid-eq-ok (valid a) c h = (ap valid (ok_injective _ _ h), refl)
require_valid-eq-ok (invalid e) c h = cc

pub port_of-IsFree :
    (node_id : String) (draws : Draws) (z : Option ℤ) (c : Connection) (port : ℕ)
    → (port_of node_id draws z c).0 ≡ ok port
    → IsFree node_id port c.working
unfolding port_of pure
port_of-IsFree node_id draws none c port h =
    let (used, ran, rest, _) = >>=-eq-ok (as_dn42ctl (get_used_listen_ports node_id)) _ c h in
    let same = used_ports-eq-ok node_id c used ran in
    let chosen = picked-eq-ok (pick_unused_port draws.random_port (discard 0 used)) _ port rest in
    let unused : is_used port (discard 0 used) ≡ false =
      (subst (Picked draws.random_port (discard 0 used) 0 draws_tried) chosen
        (pick_unused_port-Picked draws.random_port (discard 0 used))).0 in
    IsFree-discard node_id port c.working (rw same at unused)
port_of-IsFree node_id draws (some z) c port h =
    let (p, ran, rest, _) = >>=-eq-ok (require_valid (validate_listen_port true z)) _ c h in
    let (_, same) = require_valid-eq-ok _ c ran in
    let (_, refused, last, _) = >>=-eq-ok (refuse_used node_id p) _ _ rest in
    subst (λ k. IsFree node_id k c.working) (ok_injective _ _ last)
      (refuse_used-eq-ok node_id p c (rw same at refused))
