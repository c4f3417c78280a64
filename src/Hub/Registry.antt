-- ===== src/Hub/Registry.antt =====
-- `ConnectionRegistry` of src/dn42ctl/ws_hub.py. Its dictionaries keep the order of insertion.
pub mod Bounds
pub mod Refines
use dn42_utils.Base.{
  ℕ, suc, ◌-◌, String, Bool, true, false, not, ◌&&◌, Option, none, some, List, [], ◌∷◌, ◌++◌,
  if◌then◌else◌, ◌==◌, length, take, any, update_where, delete_where, select,
}

pub record NodeConnection : Type 0 where
  pub node_id : String
  pub conn_id : String
  -- whether the one-place buffer of `wake_tx` is full
  pub woken : Bool
  pub last_pushed_hash : Option String
  -- `time.monotonic()` in milliseconds
  pub last_seen_touched_at : Option ℕ
  pub agent_version : String

abbrev pub max_connections_per_node : ℕ
max_connections_per_node = 4

-- The connections of one node, and all of them.
pub record NodeConnections : Type 0 where
  pub node_id : String
  pub conns : List NodeConnection

abbrev pub Registry : Type 0
Registry = List NodeConnections

abbrev pub no_conns : List NodeConnection → Bool
no_conns [] = true
no_conns (c ∷ cs) = false

abbrev pub is_conn : String → NodeConnection → Bool
is_conn conn_id c = c.conn_id == conn_id

abbrev pub is_entry : String → NodeConnections → Bool
is_entry node_id e = e.node_id == node_id

-- `conns[conn_id] = conn`
abbrev pub put_conn : NodeConnection → List NodeConnection → List NodeConnection
put_conn conn conns =
    if any (is_conn conn.conn_id) conns
    then update_where (is_conn conn.conn_id) (λ c. conn) conns
    else conns ++ conn ∷ []

-- `self._by_node.get(node_id, {})`
unfoldable pub connections_for : String → Registry → List NodeConnection
connections_for node_id [] = []
connections_for node_id (e ∷ es) =
    let rest = connections_for node_id es in if is_entry node_id e then e.conns else rest

-- `list(conns.values())[:-MAX_CONNECTIONS_PER_NODE]`
abbrev pub surplus_of : List NodeConnection → List NodeConnection
surplus_of conns = take (length conns - max_connections_per_node) conns

abbrev put_entry : NodeConnection → Registry → Registry
put_entry conn r =
    if any (is_entry conn.node_id) r
    then update_where (is_entry conn.node_id) (λ e. record e { conns = put_conn conn e.conns }) r
    else r ++ record { node_id = conn.node_id; conns = conn ∷ [] } ∷ []

-- The registry, and the connections that are to be closed.
unfoldable pub register : NodeConnection → Registry → Registry × List NodeConnection
unfolding connections_for
register conn r = (put_entry conn r, surplus_of (connections_for conn.node_id (put_entry conn r)))

abbrev is_empty_entry : String → NodeConnections → Bool
is_empty_entry node_id e = is_entry node_id e && no_conns e.conns

abbrev pop_conn : NodeConnection → NodeConnections → NodeConnections
pop_conn conn e = record e { conns = delete_where (is_conn conn.conn_id) e.conns }

unfoldable pub unregister : NodeConnection → Registry → Registry
unregister conn r =
    delete_where (is_empty_entry conn.node_id)
      (update_where (is_entry conn.node_id) (pop_conn conn) r)

unfoldable pub all_connections : Registry → List NodeConnection
all_connections [] = []
all_connections (e ∷ es) = e.conns ++ all_connections es

unfoldable pub is_connected : String → Registry → Bool
unfolding connections_for
is_connected node_id r = not (no_conns (connections_for node_id r))

-- `wake_tx.send_nowait(None)`: a full buffer stays full
unfoldable pub notify : String → Registry → Registry
notify node_id r =
    update_where (is_entry node_id)
      (λ e. record e { conns = update_where (λ c. true) (λ c. record c { woken = true }) e.conns })
      r
