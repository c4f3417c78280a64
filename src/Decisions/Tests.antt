-- ===== src/Decisions/Tests.antt =====
-- The theorem on decisions at a concrete proposal.
use dn42_utils.Base.{ℕ, String, none, [], ◌∷◌, List, refl}
use dn42_utils.Json.{Json, end, field}
use dn42_utils.Database.Schema.{ConfigProposal, Tables, empty_tables}
use dn42_utils.Database.Connection.{M, Connection, closing}
use dn42_utils.Database.Connection.Keeps.{Keeps-execute, Keeps-closing, keeps_rules}
use dn42_utils.Database.Connection.Closes.{Closes-closing}
use dn42_utils.Database.Peers.{ensure_node}
use dn42_utils.Payload.Tests.{some_texts}
use dn42_utils.Decisions.Interface.{PeerServices}
use dn42_utils.Decisions.Apart.{Stored, AreApart, IsApart}
use dn42_utils.Decisions.Final.{Decision, accept, reject, after_decisions, after_decisions-Stored}

abbrev pub t0 : String
t0 = "2026-01-01T00:00:00+00:00"

-- Peer services that only make the node known.
abbrev make_known : String → M (Unit {0})
make_known node_id = closing (ensure_node t0 node_id)

abbrev services : PeerServices
services = record {
  create_bgp_peer = λ n a. make_known n;
  modify_bgp_peer = λ n a. make_known n;
  delete_bgp_peer = λ n a. make_known n;
  create_ibgp_peer = λ n a. make_known n;
  modify_ibgp_peer = λ n a. make_known n;
  delete_ibgp_peer = λ n a. make_known n;
}

make_known-IsApart : (node_id : String) → IsApart (make_known node_id)
unfolding ensure_node
make_known-IsApart node_id = record {
  keeps = λ id p. Keeps-closing _ (search (keeps_rules, Keeps-execute) depth 8);
  closes = Closes-closing _;
}

services-AreApart : AreApart services
services-AreApart = record {
  create_bgp_peer = λ n a. make_known-IsApart n;
  modify_bgp_peer = λ n a. make_known-IsApart n;
  delete_bgp_peer = λ n a. make_known-IsApart n;
  create_ibgp_peer = λ n a. make_known-IsApart n;
  modify_ibgp_peer = λ n a. make_known-IsApart n;
  delete_ibgp_peer = λ n a. make_known-IsApart n;
}

abbrev pub proposal : ℕ → String → ConfigProposal
proposal id status = record {
  id = id;
  node_id = "edge";
  source = "push";
  kind = "peer_delete";
  payload =
      field "peer_kind" (Json.str "ibgp")
        (field "key" (Json.obj (field "name" (Json.str "hub") end)) end);
  status = status;
  received_at = t0;
  decided_at = none;
  message = none;
}

abbrev tables : Tables
tables = record empty_tables {
  nodes = record { node_id = "edge"; created_at = t0; updated_at = t0 } ∷ [];
  proposals = proposal 1 "rejected" ∷ proposal 2 "pending" ∷ [];
  proposals_seq = 2;
}

abbrev pub start : Connection
start = record { committed = tables; working = tables; faults = [] }

abbrev pub decisions : List Decision
decisions = accept t0 2 ∷ accept t0 1 ∷ reject t0 1 "no" ∷ []

after_decisions-Stored_example :
    Stored 1 (proposal 1 "rejected") (after_decisions some_texts services decisions start).committed
after_decisions-Stored_example =
    after_decisions-Stored some_texts services services-AreApart decisions 1 (proposal 1 "rejected")
      start refl refl refl
