-- ===== src/Database.antt =====
-- src/dn42ctl/db.py: the tables, the connection with its transaction, and the peer tables' methods.
pub mod Schema
pub mod Connection
pub mod Events
pub mod Peers
pub mod Writes
