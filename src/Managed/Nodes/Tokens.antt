-- ===== src/Managed/Nodes/Tokens.antt =====
-- The tokens of `ManagedNodeStore`: rotation and authentication.
use Prim.Native.String.{◌++◌ as text_append}
use dn42_utils.Base.{String, Bool, false, ◌&&◌, Option, none, some, select_one, ◌==◌}
use dn42_utils.Constants.{sync_event_access_revoked}
use dn42_utils.Database.Schema.{ManagedNode}
use dn42_utils.Database.Connection.{M, execute, query, commit, or_abort, or_raise, ◌>>=◌, ◌>>◌}
use dn42_utils.Database.Events.{emit_sync_event}
use dn42_utils.Managed.Nodes.{require_updated, update_node}

unfoldable pub set_token_hash : String → String → String → M (Unit {0})
set_token_hash now node_id token_hash =
    or_abort
      (do
        rowcount ← execute (
            update_node node_id
              (λ n. record n { api_token_hash = some token_hash; updated_at = now }))
        require_updated rowcount "节点不存在"
        emit_sync_event now node_id sync_event_access_revoked
        commit)
      "更新 token hash 失败"

-- `sha256` is the hexadecimal digest of a text.
module _ (sha256 : String → String) where
  unfoldable pub hash_token : String → String
  hash_token token = text_append "sha256$" (sha256 token)

  unfoldable pub verify_token : String → String → Bool
  unfolding hash_token
  verify_token stored_hash token = stored_hash == hash_token token

  unfoldable pub rotate_token : String → String → String → M (Unit {0})
  unfolding set_token_hash hash_token
  rotate_token now node_id new_plaintext = set_token_hash now node_id (hash_token new_plaintext)

  abbrev pub matches : String → Option String → Bool
  matches token none = false
  matches token (some stored) = verify_token stored token

  -- WHERE api_token_hash IS NOT NULL AND enabled=1, and the loop
  abbrev pub accepts : String → ManagedNode → Bool
  accepts token n = n.enabled && matches token n.api_token_hash

  unfoldable pub authenticate : String → M (Option ManagedNode)
  authenticate token =
      or_raise (query (λ t. select_one (accepts token) t.managed_nodes))
        "查询 managed_nodes (auth) 失败"
