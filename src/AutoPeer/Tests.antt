-- ===== src/AutoPeer/Tests.antt =====
-- The theorems on sessions at concrete ones.
use dn42_utils.Base.{true, false, none, List, [], ◌∷◌, ◌≡◌, refl, arith, any}
use dn42_utils.AutoPeer.{
  Store, Identity, open_session, claim_session, is_token, PeerRequest, SubmitResult, submit_peer,
}
use dn42_utils.Database.Schema.{Tables, empty_tables}
use dn42_utils.Database.Connection.{
  Connection, closing, ◌>>=◌, or_raise, execute, rollback, or_abort, commit,
}
use dn42_utils.Decisions.{submit_proposal}
use dn42_utils.Managed.Proposals.{add}
use dn42_utils.Managed.Nodes.{new_node, list_auto_peer, get}
use dn42_utils.Payload.Tests.{some_texts}
use dn42_utils.Hub.Tests.{services}
use dn42_utils.AutoPeer.Submits.{is_open_node, submit_peer-Submitted}
use dn42_utils.AutoPeer.{granted, peer_add_payload}
use dn42_utils.AutoPeer.Calls.{Call, opens, claims, pops, run, is_granted}
use dn42_utils.AutoPeer.Single.{open_session_once}
use dn42_utils.AutoPeer.Claims.{claim_session_once}

abbrev empty : Store
empty = record { sessions = []; consumed = [] }

abbrev alice : Identity
alice = record { asn = 4242421080; mntner = "ALICE-MNT"; digest = "d1" }

abbrev bob : Identity
bob = record { asn = 4242422000; mntner = "BOB-MNT"; digest = "d2" }

abbrev between : List Call
between = claims 2000 "t1" ∷ opens 61000 "t2" bob ∷ pops "t1" ∷ []

open_session_once_example :
    is_granted
      (open_session 119000 "t3" alice (run between (open_session 1000 "t1" alice empty).1)).0
    ≡ false
unfolding open_session
open_session_once_example =
    open_session_once 1000 "t1" alice between 119000 "t3" alice empty refl
      (omega arith, (omega arith, tt)) (omega arith) refl

abbrev with_alice : Store
unfolding open_session
with_alice = (open_session 1000 "t1" alice empty).1

claim_session_once_example :
    is_granted
      (claim_session 3000 "t1"
        (run (opens 2500 "t2" bob ∷ []) (claim_session 2000 "t1" with_alice).1)).0
    ≡ false
unfolding open_session claim_session
claim_session_once_example =
    claim_session_once "t1" 2000 (opens 2500 "t2" bob ∷ []) 3000 with_alice refl (refl, tt)

abbrev tables : Tables
tables = record empty_tables {
  nodes = record { node_id = "edge"; created_at = "t0"; updated_at = "t0" } ∷ [];
  managed_nodes = record (new_node "t0" "edge" "Edge" false) { auto_peer = true } ∷ [];
}

abbrev start : Connection
start = record { committed = tables; working = tables; faults = [] }

abbrev request : PeerRequest
request = record {
  node_id = "edge";
  wg_public_key = "key";
  endpoint = "a.example:51820";
  peer_lla = "fe80::2";
  net_backend = "networkd";
  listen_port = none;
}

abbrev result : SubmitResult
result = record {
  proposal = record {
    id = 1;
    node_id = "edge";
    source = "push";
    kind = "peer_add";
    payload = peer_add_payload 4242421080 request;
    status = "pending";
    received_at = "t1";
    decided_at = none;
    message = none;
  };
  node_id = "edge";
  node_name = "Edge";
}

submit_peer-Submitted_example :
    (any
        (is_token "t1")
        (submit_peer some_texts services 3000 "t1" "t1" request with_alice start).1.sessions
      ≡ false)
    × (any (is_open_node "edge") tables.managed_nodes ≡ true)
    × (result.node_id ≡ request.node_id)
unfolding open_session submit_peer ◌>>=◌ closing list_auto_peer or_raise execute submit_proposal get
    rollback add or_abort commit
submit_peer-Submitted_example =
    submit_peer-Submitted some_texts services 3000 "t1" "t1" request with_alice start result
      returned
  where
    returned :
        (submit_peer some_texts services 3000 "t1" "t1" request with_alice start).0 ≡ granted result
    returned = refl
