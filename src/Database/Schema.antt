-- ===== src/Database/Schema.antt =====
-- The tables of src/dn42ctl/migrations.py, with the record types of db.py and db_managed.py. A
-- column that holds JSON text holds the value that the text encodes.
use dn42_utils.Base.{ℕ, String, Bool, Option, List, []}
use dn42_utils.Json.{Fields}

-- `_PeerRecordBase`
pub record PeerRecordBase : Type 0 where
  pub node_id : String
  pub ifname : String
  pub wg_private_key : String
  pub wg_public_key : String
  pub peer_public_key : Option String
  pub endpoint : Option String
  pub local_lla : String
  pub peer_lla : Option String
  pub listen_port : ℕ
  pub allowed_ips : List String
  pub net_backend : String

pub record BgpPeerRecord : Type 0 where
  pub base : PeerRecordBase
  pub open base use *
  pub peer_asn : ℕ

pub record IbgpPeerRecord : Type 0 where
  pub base : PeerRecordBase
  pub open base use *
  pub name : String
  pub babel_rxcost : ℕ
  pub peer_ip : Option String
  pub has_wg : Bool
  pub babel_type : String
  pub remote_node_id : Option String

-- Rows of `bgp_peers` and `ibgp_peers`.
pub record BgpRow : Type 0 where
  pub peer : BgpPeerRecord
  pub open peer use *
  pub created_at : String
  pub updated_at : String

pub record IbgpRow : Type 0 where
  pub peer : IbgpPeerRecord
  pub open peer use *
  pub created_at : String
  pub updated_at : String

pub record NodeRow : Type 0 where
  pub node_id : String
  pub created_at : String
  pub updated_at : String

-- The keys of `write_policy`.
pub record WritePolicy : Type 0 where
  pub peer_add : String
  pub peer_modify : String
  pub peer_delete : String
  pub report : String

pub record ManagedNode : Type 0 where
  pub node_id : String
  pub name : String
  pub api_token_hash : Option String
  pub write_policy : WritePolicy
  pub enabled : Bool
  pub is_self : Bool
  pub last_seen_at : Option String
  pub created_at : String
  pub updated_at : String
  pub endpoint_host : Option String
  pub own_ipv6 : Option String
  pub router_id : Option String
  pub auto_peer : Bool

pub record ConfigProposal : Type 0 where
  pub id : ℕ
  pub node_id : String
  pub source : String
  pub kind : String
  pub payload : Fields
  pub status : String
  pub received_at : String
  pub decided_at : Option String
  pub message : Option String

pub record NodeReport : Type 0 where
  pub id : ℕ
  pub node_id : String
  pub kind : String
  pub payload : Fields
  pub received_at : String
  pub imported_at : Option String

-- The node block of a desired state.
pub record NodeBlock : Type 0 where
  pub own_ipv6 : Option String
  pub router_id : Option String

-- A peer in a desired state.
pub record BgpEntry : Type 0 where
  pub peer_asn : ℕ
  pub ifname : String
  pub wg_private_key : String
  pub wg_public_key : String
  pub peer_public_key : Option String
  pub endpoint : Option String
  pub local_lla : String
  pub peer_lla : Option String
  pub listen_port : ℕ
  pub allowed_ips : List String
  pub net_backend : String

pub record IbgpEntry : Type 0 where
  pub name : String
  pub ifname : String
  pub wg_private_key : String
  pub wg_public_key : String
  pub peer_public_key : Option String
  pub endpoint : Option String
  pub local_lla : String
  pub peer_lla : Option String
  pub peer_ip : Option String
  pub has_wg : Bool
  pub listen_port : ℕ
  pub allowed_ips : List String
  pub net_backend : String
  pub babel_rxcost : ℕ
  pub babel_type : String

-- What a revision's payload holds beside its revision string and time. Every snapshot is written by
-- `build_desired_state`, so its fields have these types.
pub record Content : Type 0 where
  pub node_id : String
  pub bgp_peers : List BgpEntry
  pub ibgp_peers : List IbgpEntry
  pub node : NodeBlock

pub record ConfigRevision : Type 0 where
  pub id : ℕ
  pub node_id : String
  pub revision : String
  pub generated_at : String
  pub payload : Content

-- A row of `node_desired_pin`.
pub record Pin : Type 0 where
  pub node_id : String
  pub revision : String
  pub pinned_at : String

pub record SyncEvent : Type 0 where
  pub id : ℕ
  pub node_id : String
  pub kind : String
  pub created_at : String

-- All tables, in insertion order. A `_seq` is the last id that AUTOINCREMENT gave.
pub record Tables : Type 0 where
  pub nodes : List NodeRow
  pub bgp_peers : List BgpRow
  pub ibgp_peers : List IbgpRow
  pub managed_nodes : List ManagedNode
  pub proposals : List ConfigProposal
  pub proposals_seq : ℕ
  pub reports : List NodeReport
  pub reports_seq : ℕ
  pub revisions : List ConfigRevision
  pub revisions_seq : ℕ
  pub pins : List Pin
  pub sync_events : List SyncEvent
  pub sync_events_seq : ℕ

-- A database after its migrations.
abbrev pub empty_tables : Tables
empty_tables = record {
  nodes = [];
  bgp_peers = [];
  ibgp_peers = [];
  managed_nodes = [];
  proposals = [];
  proposals_seq = 0;
  reports = [];
  reports_seq = 0;
  revisions = [];
  revisions_seq = 0;
  pins = [];
  sync_events = [];
  sync_events_seq = 0;
}
