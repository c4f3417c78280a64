-- ===== src/Hub.antt =====
-- src/dn42ctl/ws_hub.py: the hub's side of the WebSocket channel.
pub mod Registry
pub mod Session
pub mod Watcher
pub mod Tests
