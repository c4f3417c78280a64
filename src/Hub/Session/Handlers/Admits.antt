-- ===== src/Hub/Session/Handlers/Admits.antt =====
-- Who gets a connection.
use dn42_utils.Base.{String, ◌≡◌, refl, ap, ◌∙◌, arith, Option, none, some, List, eq_iff, Has}
use dn42_utils.Database.Schema.{ManagedNode}
use dn42_utils.Database.Connection.{Connection, ok, closing, pure}
use dn42_utils.Database.Connection.Inversion.{>>=-eq-ok, ok_injective}
use dn42_utils.Validators.{TextLibrary}
use dn42_utils.Ws.{Envelope, JsonLibrary}
use dn42_utils.Managed.Nodes.Tokens.{authenticate}
use dn42_utils.Managed.Nodes.Auth.{authenticate_exact, IsAdmitted}
use dn42_utils.Hub.Session.Handlers.{
  greeted, AuthResult, admitted, refused, handshake, identify, admit, authenticate_sync, check_node,
  extract_bearer,
}

check_node-eq-admitted :
    (node_id : String) (o : Option ManagedNode)
    → check_node node_id o ≡ admitted
    → (n : ManagedNode) × (o ≡ some n) × (n.node_id ≡ node_id)
check_node-eq-admitted node_id none h = ground arith
check_node-eq-admitted node_id (some n) h = (n, refl, ground (arith, eq_iff n.node_id node_id))

module _ (sha256 : String → String) where
  authenticate_sync-eq-admitted :
      (token node_id : String) (c : Connection)
      → (authenticate_sync sha256 token node_id c).0 ≡ ok admitted
      → (n : ManagedNode) × IsAdmitted sha256 token n
        × Has n c.working.managed_nodes
        × (n.node_id ≡ node_id)
  unfolding authenticate_sync closing pure
  authenticate_sync-eq-admitted token node_id c h =
      let (o, ran, h1, _) = >>=-eq-ok (closing (authenticate sha256 token)) _ c h in
      let (n, found, same) = check_node-eq-admitted node_id o (ok_injective _ _ h1) in
      let (a, m) = authenticate_exact sha256 token c (some n) (ran ∙ ap ok found) in (n, a, m, same)

  module _ (lib : TextLibrary) (partition : String → String × String) (json : JsonLibrary) where
    -- The token of a header, and an enabled row with this node's id and that token's hash.
    abbrev pub Entitled : Option String → String → List ManagedNode → Type 0
    Entitled header node_id rows =
        (token : String) × (extract_bearer lib partition header ≡ some token)
        × ((n : ManagedNode) × IsAdmitted sha256 token n × Has n rows × (n.node_id ≡ node_id))

    identify-eq-greeted :
        (now node_id raw : String) (t : Option String) (hello : Envelope) (c : Connection)
        → (identify json sha256 now node_id raw t c).0 ≡ ok (greeted hello)
        → (token : String) × (t ≡ some token)
          × ((n : ManagedNode) × IsAdmitted sha256 token n
              × Has n c.working.managed_nodes
              × (n.node_id ≡ node_id))
    unfolding pure
    identify-eq-greeted now node_id raw none hello c h = ground arith
    identify-eq-greeted now node_id raw (some token) hello c h =
        let (r, ran, h1, _) = >>=-eq-ok (authenticate_sync sha256 token node_id) _ c h in
        (token, refl, authenticate_sync-eq-admitted token node_id c (ran ∙ ap ok (go r _ h1)))
      where
        go :
            (r : AuthResult) (d : Connection)
            → (admit json now node_id raw r d).0 ≡ ok (greeted hello)
            → r ≡ admitted
        go admitted d k = refl
        go (refused code err message) d k = ground arith

    -- A node is greeted only if its header has a Bearer token that is that of an enabled row with
    -- the node's own id, whatever the first frame says and whichever reads fail.
    pub handshake-Entitled :
        (now node_id raw : String) (header : Option String) (hello : Envelope) (c : Connection)
        → (handshake lib partition json sha256 now node_id raw header c).0 ≡ ok (greeted hello)
        → Entitled header node_id c.working.managed_nodes
    unfolding handshake
    handshake-Entitled now node_id raw header hello c h =
        identify-eq-greeted now node_id raw (extract_bearer lib partition header) hello c h
