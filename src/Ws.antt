-- ===== src/Ws.antt =====
-- src/dn42ctl/ws_protocol.py: the envelope of the WebSocket channel. `json.dumps`, `json.loads` and the
-- length of a text's UTF-8 are parameters.
pub mod RoundTrip
pub mod Tests
use dn42_utils.Base.{ℕ, String, Bool, Option, none, some, List, [], ◌∷◌, ltb, if◌then◌else◌, not}
use dn42_utils.Base.Text.{truthy}
use dn42_utils.Json.{ℤ, pos, Json, Fields, end, field, get}

abbrev pub protocol_version : ℤ
protocol_version = pos 1

abbrev pub max_frame_bytes : ℕ
max_frame_bytes = 8388608

abbrev pub msg_hello : String
msg_hello = "hello"

abbrev pub msg_desired_request : String
msg_desired_request = "desired_request"

abbrev pub msg_proposal_submit : String
msg_proposal_submit = "proposal_submit"

abbrev pub msg_report_submit : String
msg_report_submit = "report_submit"

abbrev pub msg_ping : String
msg_ping = "ping"

abbrev pub msg_hello_ack : String
msg_hello_ack = "hello_ack"

abbrev pub msg_desired_push : String
msg_desired_push = "desired_push"

abbrev pub msg_ack : String
msg_ack = "ack"

abbrev pub msg_error : String
msg_error = "error"

abbrev pub msg_pong : String
msg_pong = "pong"

abbrev pub msg_shutdown : String
msg_shutdown = "shutdown"

abbrev pub close_normal : ℕ
close_normal = 1000

abbrev pub close_shutting_down : ℕ
close_shutting_down = 4000

abbrev pub close_revoked : ℕ
close_revoked = 4003

abbrev pub close_node_removed : ℕ
close_node_removed = 4004

abbrev pub close_version_mismatch : ℕ
close_version_mismatch = 4008

abbrev pub close_too_many_connections : ℕ
close_too_many_connections = 4009

abbrev pub close_unauthorized : ℕ
close_unauthorized = 4401

abbrev pub close_forbidden : ℕ
close_forbidden = 4403

abbrev pub close_not_found : ℕ
close_not_found = 4404

abbrev pub close_handshake_timeout : ℕ
close_handshake_timeout = 4408

-- Closes that the agent must not retry quickly.
abbrev pub auth_fatal_close_codes : List ℕ
auth_fatal_close_codes =
    close_revoked ∷ close_node_removed ∷ close_version_mismatch ∷ close_unauthorized
    ∷ close_forbidden ∷ close_not_found ∷ []

pub record Envelope : Type 0 where
  pub type : String
  pub payload : Fields
  pub id : String
  pub re : Option String
  pub v : ℤ
  pub ts : String

-- An envelope, or an `EnvelopeError`.
pub data Decoded (A : Type 0) : Type 0 where
  decoded : A → Decoded A
  malformed : String → Decoded A

infixl 5 ◌>>=◌
unfoldable pub ◌>>=◌ : {A B : Type 0} → Decoded A → (A → Decoded B) → Decoded B
decoded a >>= f = f a
malformed e >>= f = malformed e

-- `str | None`
abbrev pub nullable : Option String → Json
nullable none = Json.null
nullable (some s) = Json.str s

unfoldable pub to_dict : Envelope → Fields
to_dict e = field "v" (Json.int e.v) (
    field "type" (Json.str e.type) (
      field "id" (Json.str e.id) (
        field "re" (nullable e.re)
          (field "ts" (Json.str e.ts) (field "payload" (Json.obj e.payload) end)))))

abbrev object_of : Json → Decoded Fields
object_of (Json.obj fields) = decoded fields
object_of v = malformed "信封顶层必须是对象"

abbrev version_of : Option Json → Decoded ℤ
version_of (some (Json.int z)) = decoded z
version_of o = malformed "缺少或非法的 v 字段"

-- A text that is there and not empty.
abbrev text_of : String → Option Json → Decoded String
text_of message (some (Json.str s)) = if truthy s then decoded s else malformed message
text_of message o = malformed message

-- A text, null or nothing.
abbrev nullable_of : String → Option Json → Decoded (Option String)
nullable_of message none = decoded none
nullable_of message (some Json.null) = decoded none
nullable_of message (some (Json.str s)) = decoded (some s)
nullable_of message (some v) = malformed message

abbrev payload_of : Option Json → Decoded Fields
payload_of none = decoded end
payload_of (some (Json.obj fields)) = decoded fields
payload_of (some v) = malformed "payload 必须是对象"

abbrev or_now : String → Option String → String
or_now now none = now
or_now now (some ts) = ts

-- The checks of `decode`, in their order.
unfoldable pub envelope_of : String → Json → Decoded Envelope
unfolding ◌>>=◌
envelope_of now json = do
  data_ ← object_of json
  version ← version_of (get "v" data_)
  msg_type ← text_of "缺少或非法的 type 字段" (get "type" data_)
  msg_id ← text_of "缺少或非法的 id 字段" (get "id" data_)
  re_id ← nullable_of "re 字段必须是字符串或 null" (get "re" data_)
  payload ← payload_of (get "payload" data_)
  ts ← nullable_of "ts 字段必须是字符串" (get "ts" data_)
  decoded (record {
    type = msg_type;
    payload = payload;
    id = msg_id;
    re = re_id;
    v = version;
    ts = or_now now ts;
  })

pub record JsonLibrary : Type 0 where
  pub dumps : Json → String
  pub loads : String → Option Json
  -- `len(raw.encode("utf-8"))`
  pub byte_length : String → ℕ

module _ (json : JsonLibrary) where
  unfoldable pub encode : Envelope → String
  unfolding to_dict
  encode envelope = json.dumps (Json.obj (to_dict envelope))

  abbrev parsed : String → Option Json → Decoded Envelope
  parsed now none = malformed "不是合法 JSON"
  parsed now (some data_) = envelope_of now data_

  unfoldable pub decode : String → String → Decoded Envelope
  unfolding envelope_of
  decode now raw =
      if ltb max_frame_bytes (json.byte_length raw)
      then malformed "消息超过字节上限"
      else parsed now (json.loads raw)

-- `new_id()` and `_now_iso()` give the last two arguments.
unfoldable pub make_error : String → String → Option String → String → String → Envelope
make_error code message re id ts = record {
  type = msg_error;
  payload = field "code" (Json.str code) (field "message" (Json.str message) end);
  id = id;
  re = re;
  v = protocol_version;
  ts = ts;
}

unfoldable pub make_ack : Fields → String → String → String → Envelope
make_ack payload re id ts = record {
  type = msg_ack;
  payload = payload;
  id = id;
  re = some re;
  v = protocol_version;
  ts = ts;
}
