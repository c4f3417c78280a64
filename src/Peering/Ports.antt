-- ===== src/Peering/Ports.antt =====
-- `pick_unused_port` of src/dn42ctl/services/core.py, and how a modification checks its port.
use dn42_utils.Base.{
  ℕ, zero, suc, ◌+◌, ◌≤◌, ◌<◌, ◌≡◌, refl, subst, arith, Bool, true, false, Option, none, some, not,
  ◌&&◌, String, ltb, nat_eq, List, if◌then◌else◌, Bool-cases, inl, inr, ◌⊎◌,
}
use dn42_utils.Json.{ℤ, pos}
use dn42_utils.Database.Connection.{M, dn42ctl_error, pure, raise, ◌>>=◌}
use dn42_utils.Database.Peers.{get_used_listen_ports}
use dn42_utils.Peering.{is_used, discard, as_dn42ctl}

-- The first 2001 draws are looked at; the draw after them raises, whatever it is.
abbrev pub draws_tried : ℕ
draws_tried = 2001

-- The draws from the `k`-th on, `n` of them.
unfoldable pub pick_from : ℕ → ℕ → (ℕ → ℕ) → List ℕ → Option ℕ
pick_from zero k random_port used = none
pick_from (suc n) k random_port used =
    let later = pick_from n (suc k) random_port used in
    if is_used (random_port k) used then later else some (random_port k)

-- None stands for the `Dn42CtlError`.
unfoldable pub pick_unused_port : (ℕ → ℕ) → List ℕ → Option ℕ
unfolding pick_from
pick_unused_port random_port used = pick_from draws_tried 0 random_port used

abbrev pub picked : Option ℕ → M ℕ
picked none = raise (dn42ctl_error "无法自动选择未占用端口，请手动指定")
picked (some port) = pure port

-- `listen_port is None` keeps the port of the row.
abbrev pub wanted_port : ℕ → Option ℤ → ℤ
wanted_port current none = pos current
wanted_port current (some z) = z

abbrev pub is_given : Option ℤ → Bool
is_given none = false
is_given (some z) = true

-- A port of its own, or one that no other row of the node uses.
unfoldable pub require_free : String → ℕ → Option ℤ → ℕ → M (Unit {0})
unfolding as_dn42ctl
require_free node_id current given_port port =
    if is_given given_port && (ltb 0 port && not (nat_eq port current))
    then (do
      used_ports ← as_dn42ctl (get_used_listen_ports node_id)
      if is_used port (discard current (discard 0 used_ports))
          then raise (dn42ctl_error "ListenPort 已被占用")
          else pure tt)
    else pure tt

-- A port that was drawn and that no row uses, or none of the draws from `low` to `high` is free.
abbrev pub Picked : (ℕ → ℕ) → List ℕ → ℕ → ℕ → Option ℕ → Type 0
Picked random_port used low high (some port) =
    (is_used port used ≡ false) × ((k : ℕ) × (low ≤ k) × (k < high) × (random_port k ≡ port))
Picked random_port used low high none =
    (k : ℕ) → low ≤ k → k < high → is_used (random_port k) used ≡ true

at_or_after : (low k : ℕ) → low ≤ k → (low ≡ k) ⊎ (suc low ≤ k)
at_or_after low k le = ground arith

Picked-later :
    (random_port : ℕ → ℕ) (used : List ℕ) (low high : ℕ) (o : Option ℕ)
    → is_used (random_port low) used ≡ true
    → Picked random_port used (suc low) high o
    → Picked random_port used low high o
Picked-later random_port used low high (some port) busy (free, (k, le, lt, same)) =
    (free, (k, omega arith, lt, same))
Picked-later random_port used low high none busy rest = λ k le lt. elim (at_or_after low k le) [
  | inl same ↦ subst (λ j. is_used (random_port j) used ≡ true) same busy
  | inr after ↦ rest k after lt
]

pick_from-Picked :
    (n k : ℕ) (random_port : ℕ → ℕ) (used : List ℕ)
    → Picked random_port used k (k + n) (pick_from n k random_port used)
unfolding pick_from
pick_from-Picked zero k random_port used = λ j le lt. ground arith
pick_from-Picked (suc n) k random_port used = elim (Bool-cases (is_used (random_port k) used)) [
  | inl busy ↦ rw busy (
      Picked-later random_port used k (k + suc n) (pick_from n (suc k) random_port used) busy (
        subst (λ h. Picked random_port used (suc k) h (pick_from n (suc k) random_port used))
          (omega arith) (pick_from-Picked n (suc k) random_port used)))
  | inr free ↦ rw free (free, (k, omega arith, omega arith, refl))
]

-- The port that is picked was drawn and is not used; when none is picked, all of the first 2001
-- draws are used.
pub pick_unused_port-Picked :
    (random_port : ℕ → ℕ) (used : List ℕ)
    → Picked random_port used 0 draws_tried (pick_unused_port random_port used)
unfolding pick_unused_port
pick_unused_port-Picked random_port used = pick_from-Picked draws_tried 0 random_port used
