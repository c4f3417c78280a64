-- ===== src/Decisions/Apart.antt =====
-- Decisions leave the other proposals alone and close their connections, if the peer services do.
use dn42_utils.Base.{
  ℕ, String, ◌≡◌, refl, arith, false, Option, none, some, List, [], ◌∷◌, nat_eq, select_one,
  update_where,
}
use dn42_utils.Json.{Fields}
use dn42_utils.Database.Schema.{ConfigProposal, Tables}
use dn42_utils.Database.Connection.{M, Outcome, execute}
use dn42_utils.Database.Connection.Keeps.{Keeps, keeps_rules, Keeps-execute, Keeps-bind}
use dn42_utils.Database.Connection.Closes.{Closes, closes_rules, Closes-bind}
use dn42_utils.Validators.{TextLibrary}
use dn42_utils.Payload.{BgpPeerPayload, IbgpPeerPayload}
use dn42_utils.Managed.Proposals.{
  or_missing, is_proposal, update_proposal, decide, set_status, write_status, read_back,
}
use dn42_utils.Managed.Proposals
use dn42_utils.Decisions.Interface.{PeerServices, IbgpModification}
use dn42_utils.Decisions.{
  lift, PeerKind, bgp, ibgp, require_found, add_peer, modify_peer, delete_peer, apply_peer_add,
  apply_peer_modify, apply_peer_delete, apply_proposal, accept_proposal, reject_proposal,
}

-- The proposal with an id, as it is stored.
abbrev pub Stored : ℕ → ConfigProposal → Tables → Type 0
Stored id p t = select_one (is_proposal id) t.proposals ≡ some p

-- A peer service leaves the proposals alone, and closes the connection that it opens.
pub record IsApart (m : M (Unit {0})) : Type 0 where
  pub keeps : (id : ℕ) (p : ConfigProposal) → Keeps (Stored id p) m
  pub closes : Closes m

pub record AreApart (services : PeerServices) : Type 0 where
  pub create_bgp_peer : (n : String) (a : BgpPeerPayload) → IsApart (services.create_bgp_peer n a)
  pub modify_bgp_peer : (n : String) (a : BgpPeerPayload) → IsApart (services.modify_bgp_peer n a)
  pub delete_bgp_peer : (n : String) (a : ℕ) → IsApart (services.delete_bgp_peer n a)
  pub create_ibgp_peer :
      (n : String) (a : IbgpPeerPayload) → IsApart (services.create_ibgp_peer n a)
  pub modify_ibgp_peer :
      (n : String) (a : IbgpModification) → IsApart (services.modify_ibgp_peer n a)
  pub delete_ibgp_peer : (n a : String) → IsApart (services.delete_ibgp_peer n a)

Keeps-lift : {P : Tables → Type 0} {A : Type 0} (r : Outcome A) → Keeps P (lift r)
Keeps-lift r = record { at = λ c w k. (w, k) }

Closes-lift : {A : Type 0} (r : Outcome A) → Closes (lift r)
Closes-lift r = record { at = λ c h. h }

require_found-Closes : (o : Option ConfigProposal) → Closes (require_found o)
require_found-Closes none = search closes_rules
require_found-Closes (some q) = search closes_rules

select_one-update_other :
    (id other : ℕ) (f : ConfigProposal → ConfigProposal) (p : ConfigProposal)
    (ps : List ConfigProposal)
    → nat_eq id other ≡ false
    → ((q : ConfigProposal) → (f q).id ≡ q.id)
    → select_one (is_proposal other) ps ≡ some p
    → select_one (is_proposal other) (update_where (is_proposal id) f ps) ≡ some p
select_one-update_other id other f p [] apart same h = h
select_one-update_other id other f p (q ∷ qs) apart same h =
    ground (arith, select_one-update_other id other f p qs apart same, same q)

or_missing-Keeps :
    {P : Tables → Type 0} (message : String) (o : Option ConfigProposal)
    → Keeps P (or_missing message o)
or_missing-Keeps message none = search keeps_rules
or_missing-Keeps message (some p) = search keeps_rules

module _ (id other : ℕ) (p : ConfigProposal) (apart : nat_eq id other ≡ false) where
  update_proposal-Stored :
      (now status : String) (message : Option String)
      → Keeps (Stored other p) (execute (update_proposal id (decide now status message)))
  update_proposal-Stored now status message =
      Keeps-execute _ (λ t h. select_one-update_other id other _ p t.proposals apart (λ q. refl) h)

  set_status-Stored :
      (now status : String) (message : Option String)
      → Keeps (Stored other p) (set_status now id status message)
  unfolding set_status write_status
  set_status-Stored now status message =
      search (keeps_rules, update_proposal-Stored, or_missing-Keeps) depth 9

require_found-Keeps : {P : Tables → Type 0} (o : Option ConfigProposal) → Keeps P (require_found o)
require_found-Keeps none = search keeps_rules
require_found-Keeps (some q) = search keeps_rules

module _ (lib : TextLibrary) (services : PeerServices) (laws : AreApart services) where
  module _ (id : ℕ) (p : ConfigProposal) where
    add_peer-Stored :
        (target : String) (kind : PeerKind) (peer : Fields)
        → Keeps (Stored id p) (add_peer lib services target kind peer)
    add_peer-Stored target bgp peer =
        Keeps-bind _ _ (Keeps-lift _) (λ a. (laws.create_bgp_peer target a).keeps id p)
    add_peer-Stored target ibgp peer =
        Keeps-bind _ _ (Keeps-lift _) (λ a. (laws.create_ibgp_peer target a).keeps id p)

    modify_peer-Stored :
        (target : String) (kind : PeerKind) (peer : Fields)
        → Keeps (Stored id p) (modify_peer lib services target kind peer)
    modify_peer-Stored target bgp peer =
        Keeps-bind _ _ (Keeps-lift _) (λ a. (laws.modify_bgp_peer target a).keeps id p)
    modify_peer-Stored target ibgp peer =
        Keeps-bind _ _ (Keeps-lift _) (λ a. (laws.modify_ibgp_peer target _).keeps id p)

    delete_peer-Stored :
        (target : String) (kind : PeerKind) (peer : Fields)
        → Keeps (Stored id p) (delete_peer lib services target kind peer)
    delete_peer-Stored target bgp peer =
        Keeps-bind _ _ (Keeps-lift _) (λ a. (laws.delete_bgp_peer target a).keeps id p)
    delete_peer-Stored target ibgp peer =
        Keeps-bind _ _ (Keeps-lift _) (λ a. (laws.delete_ibgp_peer target a).keeps id p)

    apply_proposal-Stored :
        (q : ConfigProposal) → Keeps (Stored id p) (apply_proposal lib services q)
    unfolding apply_proposal apply_peer_add apply_peer_modify apply_peer_delete
    apply_proposal-Stored q =
        search (keeps_rules, Keeps-lift, add_peer-Stored, modify_peer-Stored, delete_peer-Stored)
          depth 9

  pub accept_other-Stored :
      (now : String) (id other : ℕ) (p : ConfigProposal)
      → nat_eq id other ≡ false
      → Keeps (Stored other p) (accept_proposal lib services now id)
  unfolding accept_proposal Proposals.get
  accept_other-Stored now id other p apart =
      search
        (
          keeps_rules,
          require_found-Keeps,
          apply_proposal-Stored other p,
          set_status-Stored id other p apart,
        )
        depth 9

  pub reject_other-Stored :
      (now reason : String) (id other : ℕ) (p : ConfigProposal)
      → nat_eq id other ≡ false
      → Keeps (Stored other p) (reject_proposal lib services now id reason)
  unfolding reject_proposal Proposals.get
  reject_other-Stored now reason id other p apart =
      search (keeps_rules, require_found-Keeps, set_status-Stored id other p apart) depth 9

  add_peer-Closes :
      (target : String) (kind : PeerKind) (peer : Fields)
      → Closes (add_peer lib services target kind peer)
  add_peer-Closes target bgp peer =
      Closes-bind _ _ (Closes-lift _) (λ a. (laws.create_bgp_peer target a).closes)
  add_peer-Closes target ibgp peer =
      Closes-bind _ _ (Closes-lift _) (λ a. (laws.create_ibgp_peer target a).closes)

  modify_peer-Closes :
      (target : String) (kind : PeerKind) (peer : Fields)
      → Closes (modify_peer lib services target kind peer)
  modify_peer-Closes target bgp peer =
      Closes-bind _ _ (Closes-lift _) (λ a. (laws.modify_bgp_peer target a).closes)
  modify_peer-Closes target ibgp peer =
      Closes-bind _ _ (Closes-lift _) (λ a. (laws.modify_ibgp_peer target _).closes)

  delete_peer-Closes :
      (target : String) (kind : PeerKind) (peer : Fields)
      → Closes (delete_peer lib services target kind peer)
  delete_peer-Closes target bgp peer =
      Closes-bind _ _ (Closes-lift _) (λ a. (laws.delete_bgp_peer target a).closes)
  delete_peer-Closes target ibgp peer =
      Closes-bind _ _ (Closes-lift _) (λ a. (laws.delete_ibgp_peer target a).closes)

  apply_proposal-Closes : (q : ConfigProposal) → Closes (apply_proposal lib services q)
  unfolding apply_proposal apply_peer_add apply_peer_modify apply_peer_delete
  apply_proposal-Closes q =
      search (closes_rules, Closes-lift, add_peer-Closes, modify_peer-Closes, delete_peer-Closes)
        depth 9

  pub accept_proposal-Closes :
      (now : String) (id : ℕ) → Closes (accept_proposal lib services now id)
  unfolding accept_proposal
  accept_proposal-Closes now id =
      search (closes_rules, require_found-Closes, apply_proposal-Closes) depth 9

  pub reject_proposal-Closes :
      (now : String) (id : ℕ) (reason : String)
      → Closes (reject_proposal lib services now id reason)
  unfolding reject_proposal
  reject_proposal-Closes now id reason = search closes_rules depth 9
