-- ===== src/NodeAddress/Tests.antt =====
-- The theorems on addresses at concrete rows.
use dn42_utils.Base.{true, false, some, [], ◌∷◌, refl, All}
use dn42_utils.Database.Schema.{IbgpRow, Tables, empty_tables}
use dn42_utils.Database.Connection.{Connection}
use dn42_utils.Payload.Tests.{some_texts}
use dn42_utils.NodeAddress.{plan_propagation}
use dn42_utils.NodeAddress.Adopt.{move_partition}
use dn42_utils.NodeAddress.Plan.{IsPlanned, plan_propagation-IsPlanned}
use dn42_utils.NodeAddress.Moves.{MovedOrKept, move_partition-Moved}

abbrev row : IbgpRow
row = record {
  peer = record {
    base = record {
      node_id = "edge";
      ifname = "wg_hub";
      wg_private_key = "private";
      wg_public_key = "public";
      peer_public_key = some "key";
      endpoint = some "a.example:51820";
      local_lla = "fe80::1";
      peer_lla = some "fe80::2";
      listen_port = 30000;
      allowed_ips = "fe80::/64" ∷ [];
      net_backend = "networkd";
    };
    name = "hub";
    babel_rxcost = 96;
    peer_ip = some "fd00::1";
    has_wg = true;
    babel_type = "tunnel";
    remote_node_id = some "hub";
  };
  created_at = "t0";
  updated_at = "t0";
}

plan_propagation-IsPlanned_example :
    All
      (IsPlanned some_texts (some "fd00::2") (some "b.example") (row ∷ []))
      (plan_propagation some_texts (row ∷ []) (some "fd00::2") (some "b.example")).0
plan_propagation-IsPlanned_example =
    plan_propagation-IsPlanned some_texts (row ∷ []) (some "fd00::2") (some "b.example")

abbrev tables : Tables
tables = record empty_tables {
  nodes =
      record { node_id = "edge"; created_at = "t0"; updated_at = "t0" }
      ∷ record { node_id = "self"; created_at = "t0"; updated_at = "t0" }
      ∷ [];
  ibgp_peers = row ∷ [];
}

abbrev start : Connection
start = record { committed = tables; working = tables; faults = false ∷ false ∷ true ∷ [] }

move_partition-Moved_example :
    MovedOrKept "self" "edge" tables
      (move_partition "t1" "self" "edge" start).0
      (move_partition "t1" "self" "edge" start).1
move_partition-Moved_example = move_partition-Moved "t1" "self" "edge" start refl refl
