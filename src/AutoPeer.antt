-- ===== src/AutoPeer.antt =====
-- src/dn42ctl/services/auto_peer.py. Times are `time.monotonic()` in milliseconds; each block under `_lock`
-- is one function on the two dictionaries.
pub mod Calls
pub mod Single
pub mod Claims
pub mod Submits
pub mod Tests
use dn42_utils.Base.{
  ℕ, ◌+◌, String, Bool, true, false, not, Option, none, some, List, [], ◌∷◌, ◌++◌, if◌then◌else◌,
  leb, ltb, ◌==◌, any, select, select_one, update_where, delete_where, map,
}
use dn42_utils.Base.Text.{truthy}
use dn42_utils.Json.{pos, Json, Fields, end, field}
use dn42_utils.Database.Schema.{ManagedNode, ConfigProposal}
use dn42_utils.Database.Connection.{
  M, Connection, Outcome, ok, raised, Exception, dn42ctl_error, pure, raise, closing, ◌>>=◌,
}
use dn42_utils.Managed.Nodes.{list_auto_peer}
use dn42_utils.Validators.{TextLibrary}
use dn42_utils.Decisions.{submit_proposal}
use dn42_utils.Decisions.Interface.{PeerServices}

abbrev pub session_ttl : ℕ
session_ttl = 900000

-- Twice the age that a verified response may have.
abbrev pub consumed_ttl : ℕ
consumed_ttl = 120000

-- `KioubitIdentity`, as far as it is read here.
pub record Identity : Type 0 where
  pub asn : ℕ
  pub mntner : String
  pub digest : String

pub record Session : Type 0 where
  pub token : String
  pub asn : ℕ
  pub mntner : String
  pub expires_at : ℕ
  pub in_flight : Bool

-- A consumed signature with its deadline.
pub record Consumed : Type 0 where
  pub digest : String
  pub deadline : ℕ

-- `_sessions` and `_consumed`
pub record Store : Type 0 where
  pub sessions : List Session
  pub consumed : List Consumed

-- The exceptions of the flow; the last is one of the services.
pub data Refusal : Type 0 where
  expired_error session_error auto_peer_error : String → Refusal
  service_error : Exception → Refusal

pub data Attempt (A : Type 0) : Type 0 where
  granted : A → Attempt A
  refused : Refusal → Attempt A

abbrev pub is_token : String → Session → Bool
is_token token s = s.token == token

abbrev pub is_digest : String → Consumed → Bool
is_digest digest b = b.digest == digest

-- `_purge_expired_locked`
unfoldable pub purge : ℕ → Store → Store
purge now st = record {
  sessions = delete_where (λ (s : Session). leb s.expires_at now) st.sessions;
  consumed = delete_where (λ (b : Consumed). leb b.deadline now) st.consumed;
}

pub record SessionIssued : Type 0 where
  pub peer_session_token : String
  pub verified_asn : ℕ
  pub verified_mntner : String
  pub expires_at : ℕ

abbrev pub new_session : ℕ → String → Identity → Session
new_session now token identity = record {
  token = token;
  asn = identity.asn;
  mntner = identity.mntner;
  expires_at = now + session_ttl;
  in_flight = false;
}

-- `_sessions[token] = session`
abbrev pub put_session : Session → List Session → List Session
put_session s ss =
    if any (is_token s.token) ss
    then update_where (is_token s.token) (λ old. s) ss
    else ss ++ s ∷ []

abbrev pub issued : ℕ → String → Identity → SessionIssued
issued now token identity = record {
  peer_session_token = token;
  verified_asn = identity.asn;
  verified_mntner = identity.mntner;
  expires_at = now + session_ttl;
}

-- The store with a session for an identity whose digest is not there.
abbrev pub with_session : ℕ → String → Identity → Store → Store
with_session now token identity st = record {
  sessions = put_session (new_session now token identity) st.sessions;
  consumed = st.consumed ++ record { digest = identity.digest; deadline = now + consumed_ttl } ∷ [];
}

-- `token` is fresh of `secrets.token_urlsafe`.
unfoldable pub open_session : ℕ → String → Identity → Store → Attempt SessionIssued × Store
unfolding purge
open_session now token identity st =
    if any (is_digest identity.digest) (purge now st).consumed
    then (refused (expired_error "该认证响应已被使用，请重新认证"), purge now st)
    else (granted (issued now token identity), with_session now token identity (purge now st))

abbrev pub set_in_flight : Bool → String → Store → Store
set_in_flight b token st = record st {
  sessions = update_where (is_token token) (λ s. record s { in_flight = b }) st.sessions;
}

abbrev pub claim_found : ℕ → String → Option Session → Store → Attempt Session × Store
claim_found now token none st = (refused (expired_error "peer-session 已过期或无效"), st)
claim_found now token (some s) st =
    if leb s.expires_at now
    then (refused (expired_error "peer-session 已过期或无效"), st)
    else if s.in_flight
    then (refused (auto_peer_error "该 peer-session 正在处理中，请稍候重试"), st)
    else (granted (record s { in_flight = true }), set_in_flight true token st)

-- `_claim_session`
unfoldable pub claim_session : ℕ → String → Store → Attempt Session × Store
unfolding purge
claim_session now token st =
    if not (truthy token)
    then (refused (session_error "缺少 peer-session token"), st)
    else claim_found now token (select_one (is_token token) (purge now st).sessions) (purge now st)

-- `_release_session`
unfoldable pub release_session : String → Store → Store
release_session token st = set_in_flight false token st

-- `_sessions.pop(session_token, None)`
unfoldable pub pop_session : String → Store → Store
pop_session token st = record st { sessions = delete_where (is_token token) st.sessions }

pub record PeerTarget : Type 0 where
  pub node_id : String
  pub name : String
  pub endpoint_host : Option String

abbrev pub target_of : ManagedNode → PeerTarget
target_of n = record { node_id = n.node_id; name = n.name; endpoint_host = n.endpoint_host }

unfoldable pub list_peer_targets : M (List PeerTarget)
list_peer_targets = do nodes ← closing list_auto_peer; pure (map target_of nodes)

abbrev pub is_target : String → PeerTarget → Bool
is_target node_id t = t.node_id == node_id

abbrev pub require_target : Option PeerTarget → M PeerTarget
require_target none = raise (dn42ctl_error "节点不接受 auto-peer 请求")
require_target (some t) = pure t

unfoldable pub resolve_target : String → M PeerTarget
unfolding list_peer_targets
resolve_target node_id = do
  targets ← list_peer_targets
  require_target (select_one (is_target node_id) targets)

-- The fields of the request.
pub record PeerRequest : Type 0 where
  pub node_id : String
  pub wg_public_key : String
  pub endpoint : String
  pub peer_lla : String
  pub net_backend : String
  pub listen_port : Option ℕ

pub record SubmitResult : Type 0 where
  pub proposal : ConfigProposal
  pub node_id : String
  pub node_name : String

abbrev port_json : Option ℕ → Json
port_json none = Json.null
port_json (some port) = Json.int (pos port)

-- `build_peer_add_payload` of a BGP peer, with the AS number of the session.
abbrev pub peer_add_payload : ℕ → PeerRequest → Fields
peer_add_payload asn a = field "peer_kind" (Json.str "bgp") (
    field "peer"
      (Json.obj (
        field "peer_asn" (Json.int (pos asn)) (
          field "peer_public_key" (Json.str a.wg_public_key) (
            field "endpoint" (Json.str a.endpoint) (
              field "peer_lla" (Json.str a.peer_lla) (
                field "net_backend" (Json.str a.net_backend)
                  (field "listen_port" (port_json a.listen_port) end)))))))
      end)

module _ (lib : TextLibrary) (services : PeerServices) where
  -- The body of the `try`, without a config.
  unfoldable pub submission : String → Session → PeerRequest → M SubmitResult
  unfolding resolve_target
  submission stamp session a = do
    target ← resolve_target a.node_id
    proposal ←
        submit_proposal lib services false stamp target.node_id "push" "peer_add"
          (peer_add_payload session.asn a)
    pure (record { proposal = proposal; node_id = target.node_id; node_name = target.name })

  -- The session stays after an exception, and is gone after a proposal.
  abbrev pub settle : String → Outcome SubmitResult → Store → Attempt SubmitResult × Store
  settle token (ok r) st = (granted r, pop_session token st)
  settle token (raised e) st = (refused (service_error e), release_session token st)

  abbrev pub submit_claimed :
      String
      → String
      → PeerRequest
      → Attempt Session
      → Store
      → Connection
      → Attempt SubmitResult × Store × Connection
  submit_claimed stamp token a (refused r) st c = (refused r, st, c)
  submit_claimed stamp token a (granted session) st c =
      let (answer, c') = submission stamp session a c in
      let (attempt, st') = settle token answer st in (attempt, st', c')

  -- `now` is the clock of the sessions, `stamp` that of the database.
  unfoldable pub submit_peer :
      ℕ
      → String
      → String
      → PeerRequest
      → Store
      → Connection
      → Attempt SubmitResult × Store × Connection
  unfolding claim_session submission pop_session release_session
  submit_peer now stamp token a st c =
      submit_claimed stamp token a (claim_session now token st).0 (claim_session now token st).1 c
