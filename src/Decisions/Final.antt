-- ===== src/Decisions/Final.antt =====
-- A decision on a proposal is final.
use dn42_utils.Base.{
  ℕ, String, ◌≡◌, arith, true, false, some, List, [], ◌∷◌, nat_eq, select_one, Bool-cases, inl, inr,
  ◌==◌,
}
use dn42_utils.Database.Schema.{ConfigProposal}
use dn42_utils.Database.Connection.{
  Connection, closing, rollback, or_raise, pure, raise, execute, ◌>>=◌,
}
use dn42_utils.Database.Connection.Atomic.{IsClosed}
use dn42_utils.Validators.{TextLibrary}
use dn42_utils.Managed.Proposals.{
  or_missing, is_proposal, update_proposal, decide, set_status, write_status, read_back,
}
use dn42_utils.Managed.Proposals
use dn42_utils.Decisions.Interface.{PeerServices}
use dn42_utils.Decisions.{accept_proposal, reject_proposal}
use dn42_utils.Decisions.Apart.{
  Stored, AreApart, accept_other-Stored, reject_other-Stored, accept_proposal-Closes,
  reject_proposal-Closes,
}

module _ (lib : TextLibrary) (services : PeerServices) where
  accept_decided :
      (now : String) (id : ℕ) (p : ConfigProposal) (c : Connection)
      → IsClosed c
      → Stored id p c.committed
      → (p.status == "pending") ≡ false
      → (accept_proposal lib services now id c).1.committed ≡ c.committed
  unfolding accept_proposal Proposals.get closing rollback or_raise execute ◌>>=◌ raise pure
  accept_decided now id p c closed h decided =
      let h' : select_one (is_proposal id) c.working.proposals ≡ some p = rw closed h in
      ground arith

  reject_decided :
      (now reason : String) (id : ℕ) (p : ConfigProposal) (c : Connection)
      → IsClosed c
      → Stored id p c.committed
      → (p.status == "pending") ≡ false
      → (reject_proposal lib services now id reason c).1.committed ≡ c.committed
  unfolding reject_proposal Proposals.get closing rollback or_raise execute ◌>>=◌ raise pure
  reject_decided now reason id p c closed h decided =
      let h' : select_one (is_proposal id) c.working.proposals ≡ some p = rw closed h in
      ground arith

pub data Decision : Type 0 where
  accept : String → ℕ → Decision
  reject : String → ℕ → String → Decision

abbrev pub after : TextLibrary → PeerServices → Decision → Connection → Connection
after lib services (accept now id) c = (accept_proposal lib services now id c).1
after lib services (reject now id reason) c = (reject_proposal lib services now id reason c).1

-- Decisions in sequence, whatever each of them answers.
pub after_decisions : TextLibrary → PeerServices → List Decision → Connection → Connection
after_decisions lib services [] c = c
after_decisions lib services (d ∷ ds) c = after_decisions lib services ds (after lib services d c)

same_proposal : (id other : ℕ) → nat_eq id other ≡ true → id ≡ other
same_proposal id other h = ground arith

module _ (lib : TextLibrary) (services : PeerServices) (laws : AreApart services) where
  after-Stored :
      (d : Decision) (id : ℕ) (p : ConfigProposal) (c : Connection)
      → IsClosed c
      → Stored id p c.committed
      → (p.status == "pending") ≡ false
      → Stored id p (after lib services d c).committed × IsClosed (after lib services d c)
  after-Stored (accept now k) id p c closed h decided = (
    elim (Bool-cases (nat_eq k id)) [
      | inl this ↦
          let same : k ≡ id = same_proposal k id this in
          rw (same, accept_decided lib services now id p c closed h decided) h
      | inr other ↦
          ((accept_other-Stored lib services laws now k id p other).at c (rw closed h) h).1
    ],
    (accept_proposal-Closes lib services laws now k).at c closed,
  )
  after-Stored (reject now k reason) id p c closed h decided = (
    elim (Bool-cases (nat_eq k id)) [
      | inl this ↦
          let same : k ≡ id = same_proposal k id this in
          rw (same, reject_decided lib services now reason id p c closed h decided) h
      | inr other ↦
          ((reject_other-Stored lib services laws now reason k id p other).at c (rw closed h) h).1
    ],
    (reject_proposal-Closes lib services laws now k reason).at c closed,
  )

  -- On a connection with no open transaction, a proposal that is not pending stays as it is
  -- stored, its status, time and message included, whatever decisions are taken after, on it or on
  -- others, and whichever statements of them fail, if the peer services leave the proposals alone
  -- and close their connections.
  pub after_decisions-Stored :
      (ds : List Decision) (id : ℕ) (p : ConfigProposal) (c : Connection)
      → IsClosed c
      → Stored id p c.committed
      → (p.status == "pending") ≡ false
      → Stored id p (after_decisions lib services ds c).committed
  unfolding after_decisions
  after_decisions-Stored [] id p c closed h decided = h
  after_decisions-Stored (d ∷ ds) id p c closed h decided =
      let (h', closed') = after-Stored d id p c closed h decided in
      after_decisions-Stored ds id p (after lib services d c) closed' h' decided
