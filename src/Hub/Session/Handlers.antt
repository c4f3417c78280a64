-- ===== src/Hub/Session/Handlers.antt =====
-- The handlers of src/dn42ctl/ws_hub.py: the handshake, the push, one frame.
pub mod Admits
pub mod Replies
pub mod Talks
pub mod Throttle
use dn42_utils.Base.{
  ℕ, ◌-◌, ◌+◌, String, Bool, true, false, not, ◌&&◌, ◌||◌, Option, none, some, List, [], ◌∷◌,
  if◌then◌else◌, ◌==◌, ltb, nat_eq,
}
use dn42_utils.Base.Text.{truthy, truthy?, option_eq}
use dn42_utils.Json.{ℤ, pos, Json, Fields, end, field, get}
use dn42_utils.Database.Schema.{
  ManagedNode, ConfigProposal, NodeReport, BgpEntry, IbgpEntry, NodeBlock, ConfigRevision,
}
use dn42_utils.Database.Connection as Db
use dn42_utils.Database.Connection.{M, closing}
use dn42_utils.Validators.{TextLibrary}
use dn42_utils.Managed.Nodes.{touch_last_seen}
use dn42_utils.Managed.Nodes.Tokens.{authenticate}
use dn42_utils.Managed.Revisions.{get_pin, latest_revision}
use dn42_utils.DesiredState.{
  DesiredState, build_desired_state, compute_desired_fingerprint, require_managed_node_exists,
}
use dn42_utils.DesiredState.Wire.{to_dict}
use dn42_utils.Decisions.{submit_proposal, try_service as try_db}
use dn42_utils.Decisions.Interface.{PeerServices}
use dn42_utils.Reporting.{submit_report}
use dn42_utils.Ws.{
  Envelope, JsonLibrary, Decoded, decoded, malformed, decode, protocol_version, msg_hello,
  msg_hello_ack, msg_desired_push, msg_desired_request, msg_proposal_submit, msg_report_submit,
  msg_ping, msg_pong, close_unauthorized, close_forbidden, close_not_found, close_handshake_timeout,
  close_version_mismatch,
}
use dn42_utils.Hub.Registry.{NodeConnection}
use dn42_utils.Hub.Session.{
  Frame, error_frame, ack_frame, H, Answer, done, failed, pure, ◌>>=◌, ◌>>◌, send, to_thread,
  try_service, suppress, change_conn, get_conn,
}

abbrev pub last_seen_throttle : ℕ
last_seen_throttle = 60000

-- The outcome of a check of a token against a node.
pub data AuthResult : Type 0 where
  admitted : AuthResult
  refused : ℕ → String → String → AuthResult

abbrev check_node : String → Option ManagedNode → AuthResult
check_node node_id none = refused close_unauthorized "unauthorized" "token 无效"
check_node node_id (some node) =
    if node.node_id == node_id
    then admitted
    else refused close_forbidden "forbidden" "node_id 与 token 不匹配"

unfoldable pub authenticate_sync : (String → String) → String → String → M AuthResult
authenticate_sync sha256 token node_id =
    Db.◌>>=◌ (closing (authenticate sha256 token)) (λ node. Db.pure (check_node node_id node))

-- `header_value.partition(" ")` gives the scheme and the rest.
unfoldable pub extract_bearer :
    TextLibrary → (String → String × String) → Option String → Option String
extract_bearer lib partition none = none
extract_bearer lib partition (some header) =
    let (scheme, token) = partition header in
    if not (truthy header)
    then none
    else if not (lib.lower scheme == "bearer") || not (truthy (lib.strip token))
    then none
    else some (lib.strip token)

abbrev same_version : ℤ → Bool
same_version (pos n) = nat_eq n 1
same_version z = false

-- The hello, or a close code with its error.
pub data Greeting : Type 0 where
  greeted : Envelope → Greeting
  rejected : ℕ → String → String → Greeting

-- `_await_hello` after a frame has come.
abbrev check_hello : Decoded Envelope → Greeting
check_hello (malformed message) = rejected close_handshake_timeout "bad_envelope" message
check_hello (decoded env) =
    if not (same_version env.v)
    then rejected close_version_mismatch "version_mismatch" "协议版本不匹配"
    else if not (env.type == msg_hello)
    then rejected close_handshake_timeout "unknown_type" "首条消息必须是 hello"
    else greeted env

abbrev greet : JsonLibrary → String → String → Unit {0} → M Greeting
greet json now raw known = Db.pure (check_hello (decode json now raw))

abbrev admit : JsonLibrary → String → String → String → AuthResult → M Greeting
admit json now node_id raw (refused code err message) = Db.pure (rejected code err message)
admit json now node_id raw admitted =
    try_db (Db.◌>>=◌ (require_managed_node_exists node_id) (greet json now raw))
      (λ message. Db.pure (rejected close_not_found "not_found" message))

abbrev identify :
    JsonLibrary → (String → String) → String → String → String → Option String → M Greeting
identify json sha256 now node_id raw none =
    Db.pure (rejected close_unauthorized "unauthorized" "缺少 Bearer token")
identify json sha256 now node_id raw (some token) =
    Db.◌>>=◌ (authenticate_sync sha256 token node_id) (admit json now node_id raw)

-- `serve_node_connection` up to the registration, for a node whose first frame is `raw`. The frame is
-- looked at last, so it makes no difference that it has come before the checks.
unfoldable pub handshake :
    TextLibrary
    → (String → String × String)
    → JsonLibrary
    → (String → String)
    → String
    → String
    → String
    → Option String
    → M Greeting
unfolding authenticate_sync extract_bearer
handshake lib partition json sha256 now node_id raw header =
    identify json sha256 now node_id raw (extract_bearer lib partition header)

abbrev pub touch_conn : ℕ → NodeConnection → NodeConnection
touch_conn clock c = record c { last_seen_touched_at = some clock }

-- Whether the last write was less than a minute ago.
abbrev pub throttled : ℕ → Option ℕ → Bool
throttled clock none = false
throttled clock (some touched) = ltb clock (touched + last_seen_throttle)

-- `clock` is `time.monotonic()`, `now` is `_now_iso()`.
unfoldable pub touch : String → ℕ → H (Unit {0})
touch now clock = do
  conn ← get_conn
  if throttled clock conn.last_seen_touched_at then pure tt else (do
    change_conn (touch_conn clock)
    suppress (to_thread (closing (touch_last_seen now conn.node_id))))

module _ (hexdigest : String → List BgpEntry → List IbgpEntry → Option NodeBlock → String)
    (rpartition : String → String × (String × String)) where
  abbrev pub push_frame : DesiredState → Option String → Frame
  push_frame state re = record {
    type = msg_desired_push;
    payload = field "revision" (Json.str state.revision) (
        field "generated_at" (Json.str state.generated_at)
          (field "desired" (Json.obj (to_dict state)) end));
    re = re;
  }

  unfoldable pub maybe_push_desired : String → Bool → Option String → H (Unit {0})
  unfolding to_dict
  maybe_push_desired now force re = do
    conn ← get_conn
    fingerprint ← to_thread (compute_desired_fingerprint hexdigest rpartition conn.node_id)
    if not force && option_eq (some fingerprint.content_hash) conn.last_pushed_hash
        then pure tt
        else (do
          state ← to_thread (build_desired_state hexdigest rpartition now conn.node_id true 50)
          send (push_frame state re)
          change_conn (λ c. record c { last_pushed_hash = some fingerprint.content_hash }))

  abbrev pinned_or_latest : String → Option ConfigRevision → M (Option String)
  pinned_or_latest node_id (some pin) = Db.pure (some pin.revision)
  pinned_or_latest node_id none = latest_revision node_id

  unfoldable pub current_revision : String → M (Option String)
  current_revision node_id = closing (Db.◌>>=◌ (get_pin node_id) (pinned_or_latest node_id))

  -- `isinstance(cached_revision, str) and cached_revision == revision`
  abbrev is_in_sync : Option Json → Option String → Bool
  is_in_sync (some (Json.str cached)) (some revision) = cached == revision
  is_in_sync o r = false

  abbrev nullable : Option String → Json
  nullable none = Json.null
  nullable (some s) = Json.str s

  unfoldable pub send_hello_ack : String → Option Json → String → H Bool
  unfolding current_revision
  send_hello_ack server_version cached_revision re = do
    conn ← get_conn
    fingerprint ← to_thread (compute_desired_fingerprint hexdigest rpartition conn.node_id)
    revision ← to_thread (current_revision conn.node_id)
    if is_in_sync cached_revision revision
        then change_conn (λ c. record c { last_pushed_hash = some fingerprint.content_hash })
        else pure tt
    send (record {
      type = msg_hello_ack;
      payload = field "node_id" (Json.str conn.node_id) (
          field "server_version" (Json.str server_version) (
            field "revision" (nullable revision)
              (field "in_sync" (Json.bool (is_in_sync cached_revision revision)) end)));
      re = some re;
    })
    pure (is_in_sync cached_revision revision)

  module _ (lib : TextLibrary) (services : PeerServices) (json : JsonLibrary)
      (with_config : Bool) where
    -- `kind`, `payload` and `source` of a proposal
    abbrev proposal_parts :
        Option Json → Option Json → Option Json → Option (String × (Fields × String))
    proposal_parts (some (Json.str kind)) (some (Json.obj payload)) none =
        some (kind, (payload, "push"))
    proposal_parts (some (Json.str kind)) (some (Json.obj payload)) (some (Json.str source)) =
        some (kind, (payload, source))
    proposal_parts k p s = none

    abbrev proposal_ack : ConfigProposal → Fields
    proposal_ack p =
        field "proposal_id" (Json.int (pos p.id)) (field "status" (Json.str p.status) end)

    abbrev answer_proposal : String → ℕ → String → Option ConfigProposal → H (Unit {0})
    answer_proposal now clock re none = pure tt
    answer_proposal now clock re (some p) = do send (ack_frame (proposal_ack p) re); touch now clock

    abbrev submit_parts : String → ℕ → Envelope → Option (String × (Fields × String)) → H (Unit {0})
    submit_parts now clock env none =
        send (error_frame "payload_invalid" "proposal_submit 需要 kind/payload/source" (some env.id))
    submit_parts now clock env (some (kind, (payload, source))) = do
      conn ← get_conn
      proposal ←
          try_service
            (do
              p ←
                  to_thread
                    (submit_proposal lib services with_config now conn.node_id source kind payload)
              pure (some p))
            (λ message. do send (error_frame "service_error" message (some env.id)); pure none)
      answer_proposal now clock env.id proposal

    unfoldable pub handle_proposal : String → ℕ → Envelope → H (Unit {0})
    unfolding touch
    handle_proposal now clock env = submit_parts now clock env (
        proposal_parts (get "kind" env.payload) (get "payload" env.payload)
          (get "source" env.payload))

    abbrev report_parts : Option Json → Option Json → Option (String × Fields)
    report_parts (some (Json.str kind)) (some (Json.obj payload)) = some (kind, payload)
    report_parts k p = none

    abbrev report_ack : NodeReport → Fields
    report_ack r =
        field "report_id" (Json.int (pos r.id)) (field "received_at" (Json.str r.received_at) end)

    abbrev answer_report : String → ℕ → String → Option NodeReport → H (Unit {0})
    answer_report now clock re none = pure tt
    answer_report now clock re (some r) = do send (ack_frame (report_ack r) re); touch now clock

    abbrev submit_report_parts : String → ℕ → Envelope → Option (String × Fields) → H (Unit {0})
    submit_report_parts now clock env none =
        send (error_frame "payload_invalid" "report_submit 需要 kind/payload" (some env.id))
    submit_report_parts now clock env (some (kind, payload)) = do
      conn ← get_conn
      report ←
          try_service
            (do r ← to_thread (submit_report now conn.node_id kind payload); pure (some r))
            (λ message. do send (error_frame "service_error" message (some env.id)); pure none)
      answer_report now clock env.id report

    unfoldable pub handle_report : String → ℕ → Envelope → H (Unit {0})
    unfolding touch
    handle_report now clock env =
        submit_report_parts now clock env
          (report_parts (get "kind" env.payload) (get "payload" env.payload))

    abbrev pong : String → Frame
    pong re = record { type = msg_pong; payload = end; re = some re }

    abbrev dispatch_envelope : String → ℕ → Decoded Envelope → H (Unit {0})
    dispatch_envelope now clock (malformed message) = send (error_frame "bad_envelope" message none)
    dispatch_envelope now clock (decoded env) =
        if not (same_version env.v)
        then send (error_frame "version_mismatch" "协议版本不匹配" (some env.id))
        else if env.type == msg_ping
        then (do send (pong env.id); touch now clock)
        else if env.type == msg_desired_request
        then maybe_push_desired now true (some env.id)
        else if env.type == msg_proposal_submit
        then handle_proposal now clock env
        else if env.type == msg_report_submit
        then handle_report now clock env
        else send (error_frame "unknown_type" "未知消息类型" (some env.id))

    unfoldable pub dispatch : String → ℕ → String → H (Unit {0})
    unfolding touch maybe_push_desired handle_proposal handle_report
    dispatch now clock raw = dispatch_envelope now clock (decode json now raw)

    abbrev or_internal : Answer (Unit {0}) → H (Unit {0})
    or_internal (done a) = pure tt
    or_internal (failed e) = suppress (send (error_frame "internal" "服务端内部错误" none))

    -- One frame in `_reader_loop`.
    unfoldable pub read_frame : String → ℕ → String → H (Unit {0})
    unfolding dispatch
    read_frame now clock raw s =
        or_internal (dispatch now clock raw s).0 (dispatch now clock raw s).1

    -- `_reader_loop` over the frames that `receive_text` gives, each with its times, until it raises.
    unfoldable pub reader_loop : List (String × (ℕ × String)) → H (Unit {0})
    unfolding read_frame
    reader_loop [] = pure tt
    reader_loop ((now, (clock, raw)) ∷ frames) = do read_frame now clock raw; reader_loop frames
