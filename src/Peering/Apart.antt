-- ===== src/Peering/Apart.antt =====
-- The peer services leave the proposals alone and close their connections.
use dn42_utils.Base.{ℕ, String, ◌≡◌, false, Option, some, List, ◌==◌}
use dn42_utils.Database.Schema.{ConfigProposal, Tables}
use dn42_utils.Database.Connection.{M, Connection, ◌>>=◌, pure}
use dn42_utils.Database.Connection.Atomic.{IsClosed}
use dn42_utils.Database.Connection.Keeps.{Keeps, Keeps-bind, Keeps-pure}
use dn42_utils.Database.Connection.Closes.{Closes, closes_rules, Closes-bind, Closes-pure}
use dn42_utils.Validators.{TextLibrary, Checked, valid, invalid}
use dn42_utils.Decisions.Apart.{Stored, AreApart}
use dn42_utils.Decisions.Final.{Decision, after_decisions, after_decisions-Stored}
use dn42_utils.Peering.{Draws, require_valid, normalize_net_backend, open_db_and_ensure_node}
use dn42_utils.Peering.Bgp.{
  BgpCreation, BgpModification, create_bgp_peer, modify_bgp_peer, delete_bgp_peer,
}
use dn42_utils.Peering.Ibgp.{
  IbgpCreation, IbgpUpdate, create_ibgp_peer, modify_ibgp_peer, delete_ibgp_peer,
}
use dn42_utils.Peering.Keeps.{steps_rules}
use dn42_utils.Database.Peers.Apart.{OnProposals, apart_rules}
use dn42_utils.Peering.Services.{
  services, bgp_creation, bgp_modification, ibgp_creation, ibgp_update,
}

module _ (lib : TextLibrary) (config_node_id : String) where
  module _ (P : List ConfigProposal → Type 0) where
    create_bgp_peer-Keeps :
        (now : String) (draws : Draws) (a : BgpCreation)
        → Keeps (OnProposals P) (create_bgp_peer lib config_node_id now draws a)
    unfolding create_bgp_peer open_db_and_ensure_node
    create_bgp_peer-Keeps now draws a = search (steps_rules, apart_rules) depth 14

    modify_bgp_peer-Keeps :
        (now : String) (a : BgpModification)
        → Keeps (OnProposals P) (modify_bgp_peer lib config_node_id now a)
    unfolding modify_bgp_peer open_db_and_ensure_node
    modify_bgp_peer-Keeps now a = search (steps_rules, apart_rules) depth 14

    delete_bgp_peer-Keeps :
        (now : String) (k : ℕ) (n : Option String)
        → Keeps (OnProposals P) (delete_bgp_peer lib config_node_id now k n)
    unfolding delete_bgp_peer
    delete_bgp_peer-Keeps now k n = search (steps_rules, apart_rules) depth 14

    create_ibgp_peer-Keeps :
        (now : String) (draws : Draws) (a : IbgpCreation)
        → Keeps (OnProposals P) (create_ibgp_peer lib config_node_id now draws a)
    unfolding create_ibgp_peer open_db_and_ensure_node
    create_ibgp_peer-Keeps now draws a = search (steps_rules, apart_rules) depth 14

    modify_ibgp_peer-Keeps :
        (now : String) (a : IbgpUpdate)
        → Keeps (OnProposals P) (modify_ibgp_peer lib config_node_id now a)
    unfolding modify_ibgp_peer open_db_and_ensure_node
    modify_ibgp_peer-Keeps now a = search (steps_rules, apart_rules) depth 16

    delete_ibgp_peer-Keeps :
        (now name : String) (n : Option String)
        → Keeps (OnProposals P) (delete_ibgp_peer lib config_node_id now name n)
    unfolding delete_ibgp_peer
    delete_ibgp_peer-Keeps now name n = search (steps_rules, apart_rules) depth 14

  module _ (clock : Connection → String) (draws : Connection → Draws) where
    -- What the steps of a call keep, its result dropped.
    Keeps-dropped :
        {P : Tables → Type 0} {A : Type 0} (m : Connection → M A)
        → ((c : Connection) → Keeps P (m c))
        → Keeps P (λ c. (m c >>= λ _. pure tt) c)
    Keeps-dropped m km = record { at = λ c. (Keeps-bind (m c) _ (km c) (λ _. Keeps-pure tt)).at c }

    Closes-dropped :
        {A : Type 0} (m : Connection → M A)
        → ((c : Connection) → Closes (m c))
        → Closes (λ c. (m c >>= λ _. pure tt) c)
    Closes-dropped m cm = record {
      at = λ c. (Closes-bind (m c) _ (cm c) (λ _. Closes-pure tt)).at c;
    }

    Closes-require_valid : {A : Type 0} (r : Checked A) → Closes (require_valid r)
    unfolding require_valid
    Closes-require_valid (valid a) = search closes_rules
    Closes-require_valid (invalid e) = search closes_rules

    services-AreApart : AreApart (services lib config_node_id clock draws)
    unfolding services create_bgp_peer modify_bgp_peer delete_bgp_peer create_ibgp_peer
        modify_ibgp_peer delete_ibgp_peer normalize_net_backend
    services-AreApart = record {
      create_bgp_peer = λ n a. record {
        keeps = λ id p.
            Keeps-dropped _ (λ c. create_bgp_peer-Keeps _ (clock c) (draws c) (bgp_creation n a));
        closes = Closes-dropped _ (λ c. search (closes_rules, Closes-require_valid) depth 8);
      };
      modify_bgp_peer = λ n a. record {
        keeps =
            λ id p. Keeps-dropped _ (λ c. modify_bgp_peer-Keeps _ (clock c) (bgp_modification n a));
        closes = Closes-dropped _ (λ c. search (closes_rules, Closes-require_valid) depth 8);
      };
      delete_bgp_peer = λ n k. record {
        keeps = λ id p. Keeps-dropped _ (λ c. delete_bgp_peer-Keeps _ (clock c) k (some n));
        closes = Closes-dropped _ (λ c. search closes_rules depth 8);
      };
      create_ibgp_peer = λ n a. record {
        keeps = λ id p.
            Keeps-dropped _ (λ c. create_ibgp_peer-Keeps _ (clock c) (draws c) (ibgp_creation n a));
        closes = Closes-dropped _ (λ c. search closes_rules depth 8);
      };
      modify_ibgp_peer = λ n a. record {
        keeps = λ id p. Keeps-dropped _ (λ c. modify_ibgp_peer-Keeps _ (clock c) (ibgp_update n a));
        closes = Closes-dropped _ (λ c. search (closes_rules, Closes-require_valid) depth 8);
      };
      delete_ibgp_peer = λ n k. record {
        keeps = λ id p. Keeps-dropped _ (λ c. delete_ibgp_peer-Keeps _ (clock c) k (some n));
        closes = Closes-dropped _ (λ c. search closes_rules depth 8);
      };
    }

    -- With the program's own peer services, whatever their clock and their random draws, on a
    -- connection with no open transaction, a proposal that is not pending stays as it is stored,
    -- whatever decisions are taken after and whichever statements fail.
    pub decisions_stay :
        (ds : List Decision) (id : ℕ) (p : ConfigProposal) (c : Connection)
        → IsClosed c
        → Stored id p c.committed
        → (p.status == "pending") ≡ false
        → Stored id p (after_decisions lib (services lib config_node_id clock draws) ds c).committed
    decisions_stay ds id p c closed h decided =
        after_decisions-Stored lib (services lib config_node_id clock draws) services-AreApart ds id
          p c closed h decided
