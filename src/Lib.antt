-- ===== src/Lib.antt =====
-- dn42ctl: the tool that keeps the peers of a DN42 network. A central host (the hub) holds the peers
-- of all nodes in one SQLite database; each node fetches its desired state, and what a node says is
-- stored as proposals and reports that an operator reviews.
--
-- The parts and the files that model them:
--   Constants        src/dn42ctl/constants.py
--   Database.Schema  the tables of src/dn42ctl/migrations.py and the records of db.py, db_managed.py
--   Database.Connection  a `sqlite3.Connection`: `execute`, `commit`, `rollback`, and the `try …
--                    except sqlite3.Error` blocks around them (`or_abort`, `or_raise`)
--   Database.Events  `emit_sync_event` of src/dn42ctl/db.py and `SyncEventStore` of db_managed.py
--   Database.Peers   the peer methods of `Database` in src/dn42ctl/db.py, under the same names
--   Database.Writes  histories of those methods
--   Managed.Policy, Nodes, Proposals, Reports, Revisions  the stores of src/dn42ctl/db_managed.py
--   Validators       src/dn42ctl/validators.py
--   Payload          src/dn42ctl/services/peer_payload.py
--   Decisions        src/dn42ctl/services/proposal_decisions.py and proposals.py; Decisions.Interface is
--                    what they call of services/bgp.py and ibgp.py
--   Peering          src/dn42ctl/services/bgp.py, ibgp.py and what they use of core.py, as the hub calls
--                    them: `sanitize_name` is in Names, `pick_unused_port` in Ports
--   AutoPeer         src/dn42ctl/services/auto_peer.py; Calls are its critical sections in any order
--   NodeAddress      src/dn42ctl/services/node_address.py: `set_node_addresses`, and in its children
--                    `backfill_remote_node_ids` and `adopt_self_partition`
--   DesiredState     src/dn42ctl/services/desired_state.py
--   Reporting        src/dn42ctl/services/reports.py and revisions.py
--   Ws               src/dn42ctl/ws_protocol.py: the envelope, `encode` and `decode`
--   Hub.Registry     `ConnectionRegistry` of src/dn42ctl/ws_hub.py
--   Hub.Watcher      `run_sync_watcher`, one round at a time
--   Hub.Session      a connection of the hub: its state, its database, the frames sent on it; in
--                    Handlers the handshake, the push, `_dispatch` and `_reader_loop`
--   Json             the values of Python's `json`
--
-- A method is a function from a connection to an outcome and a connection. A connection has the
-- committed tables, those of the open transaction, and a list that says which of the coming
-- statements fail; a theorem over all connections so covers every failure. Tables are lists of rows
-- in insertion order, `now` is the result of `_now_iso()`, and a JSON column holds its value.
-- Numbers are natural numbers: ids, ports and AS numbers are never negative in the tables, and a
-- number from outside is an integer until a validator has accepted it. The search for a free port looks
-- at 2001 draws, as the loop does; the other loops run over lists.
--
-- Parameters: SHA-256; the digest of a desired state and `str.rpartition`, in DesiredState; the keys
-- that `wg` makes and the draws of `random`; Python's `str` methods, `re`, `base64` and `ipaddress`,
-- as the record `TextLibrary`; `json.dumps` and `json.loads` as the record `JsonLibrary`. What
-- asyncio does between two awaits is one step: a round of the watcher, or one frame of a connection.
--
-- Not modelled: the file and the PRAGMAs of `Database.open`, and the run of the migrations; the files
-- that the services write; the other services; the tasks and time-outs of the hub's connections, and
-- the agent; the HTTP API, the command line and the web pages.
pub mod Base
pub mod Json
pub mod Constants
pub mod Database
pub mod Managed
pub mod Validators
pub mod Payload
pub mod Decisions
pub mod DesiredState
pub mod Reporting
pub mod Ws
pub mod Hub
pub mod Peering
pub mod AutoPeer
pub mod NodeAddress
pub mod Tests
