-- ===== src/Peering/Tests.antt =====
-- The theorems on the peer services at concrete peers.
use dn42_utils.Base.{ℕ, ◌+◌, true, none, some, [], ◌∷◌, ◌≡◌, refl}
use dn42_utils.Database.Connection.{
  ok, ◌>>=◌, execute, commit, or_abort, or_abort_clash, or_raise, closing,
}
use dn42_utils.Database.Peers.{ensure_node, get_used_listen_ports, insert_ibgp_peer}
use dn42_utils.Database.Events.{emit_sync_event}
use dn42_utils.Validators.{
  TextLibrary, valid, validate_net_backend, validate_rxcost, validate_babel_type,
  validate_allowed_ips_list,
}
use dn42_utils.Payload.Tests.{some_texts}
use dn42_utils.Decisions.Tests.{t0, proposal, start, decisions}
use dn42_utils.Decisions.Apart.{Stored}
use dn42_utils.Decisions.Final.{after_decisions}
use dn42_utils.Peering.{Draws, PeerResult}
use dn42_utils.Peering.Names.{sanitize_name}
use dn42_utils.Peering.Names.Sanitized.{IsClean, sanitize_name_idem}
use dn42_utils.Peering.Ports.{pick_unused_port, Picked, draws_tried, pick_unused_port-Picked}
use dn42_utils.Peering.Services.{services}
use dn42_utils.Peering.Apart.{decisions_stay}
use dn42_utils.Peering.Free.{IsFree}
use dn42_utils.Peering.Created.{create_ibgp_peer-IsFree}
use dn42_utils.Peering.Ibgp.{IbgpCreation, create_ibgp_peer}

abbrev random_port : ℕ → ℕ
random_port k = 30000 + k

pick_unused_port-Picked_example :
    Picked random_port
      (30000 ∷ 30001 ∷ [])
      0
      draws_tried
      (pick_unused_port random_port (30000 ∷ 30001 ∷ []))
pick_unused_port-Picked_example = pick_unused_port-Picked random_port (30000 ∷ 30001 ∷ [])

sanitize_name_idem_example :
    IsClean "edge_node_7" × (sanitize_name some_texts "edge_node_7" ≡ valid "edge_node_7")
unfolding sanitize_name
sanitize_name_idem_example =
    sanitize_name_idem some_texts "Edge -- Node_.7!" "edge_node_7" (λ s h. refl) sanitized
  where
    sanitized : sanitize_name some_texts "Edge -- Node_.7!" ≡ valid "edge_node_7"
    sanitized = refl

abbrev draws : Draws
draws = record {
  wg_keypair = some ("private", "public");
  random_lla = "fe80::1:2";
  random_port = random_port;
}

decisions_stay_example :
    Stored 1
      (proposal 1 "rejected")
      (after_decisions some_texts
        (services some_texts "hub" (λ c. t0) (λ c. draws))
        decisions
        start).committed
decisions_stay_example =
    decisions_stay some_texts "hub" (λ c. t0) (λ c. draws) decisions 1 (proposal 1 "rejected") start
      refl refl refl

-- A library that takes every text for a network.
abbrev networks : TextLibrary
networks = record some_texts { ipv6_network = λ s. some s }

abbrev creation : IbgpCreation
creation = record {
  name = "Far";
  peer_ip = "fd00::2";
  has_wg = true;
  peer_public_key = some "key";
  endpoint = none;
  peer_lla = some "fe80::2";
  net_backend = some "networkd";
  babel_rxcost = 96;
  babel_type = "tunnel";
  listen_port = none;
  wg_private_key = none;
  wg_public_key = none;
  local_lla = none;
  node_id = some "edge";
  allowed_ips = none;
  remote_node_id = none;
}

abbrev created : PeerResult
created = record {
  ifname = "wg_far";
  listen_port = 30000;
  wg_public_key = "public";
  local_lla = "fe80::1:2";
}

create_ibgp_peer-IsFree_example : IsFree "edge" 30000 start.committed
unfolding create_ibgp_peer closing ◌>>=◌ ensure_node or_abort execute commit sanitize_name
    validate_net_backend get_used_listen_ports or_raise validate_rxcost validate_babel_type
    validate_allowed_ips_list insert_ibgp_peer or_abort_clash emit_sync_event
create_ibgp_peer-IsFree_example =
    create_ibgp_peer-IsFree networks "hub" t0 draws creation created start refl returned
  where
    returned : (create_ibgp_peer networks "hub" t0 draws creation start).0 ≡ ok created
    returned = refl
