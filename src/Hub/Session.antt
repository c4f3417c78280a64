-- ===== src/Hub/Session.antt =====
-- A connection of the hub as src/dn42ctl/ws_hub.py serves it: its state, the frames sent on it, the
-- database behind it. Any `send` may fail, as `send_faults` says of the coming ones.
pub mod Handlers
use dn42_utils.Base.{
  ℕ, String, Bool, true, false, Option, none, some, List, [], ◌∷◌, ◌++◌, if◌then◌else◌,
}
use dn42_utils.Json.{Json, Fields, end, field}
use dn42_utils.Database.Connection.{M, Exception, dn42ctl_error, Connection, Outcome, ok, raised}
use dn42_utils.Ws.{msg_error, msg_ack}
use dn42_utils.Hub.Registry.{NodeConnection}

-- An envelope without its fresh id and its time.
pub record Frame : Type 0 where
  pub type : String
  pub payload : Fields
  pub re : Option String

abbrev pub error_frame : String → String → Option String → Frame
error_frame code message re = record {
  type = msg_error;
  payload = field "code" (Json.str code) (field "message" (Json.str message) end);
  re = re;
}

abbrev pub ack_frame : Fields → String → Frame
ack_frame payload re = record { type = msg_ack; payload = payload; re = some re }

pub record Session : Type 0 where
  pub conn : NodeConnection
  pub sent : List Frame
  pub send_faults : List Bool
  pub database : Connection

-- What ends a handler: an exception of a service, or of the socket.
pub data Failure : Type 0 where
  service : Exception → Failure
  transport : Failure

pub data Answer (A : Type 0) : Type 0 where
  done : A → Answer A
  failed : Failure → Answer A

abbrev pub H : Type 0 → Type 0
H A = Session → Answer A × Session

unfoldable pub pure : {A : Type 0} → A → H A
pure a s = (done a, s)

abbrev pub continue : {A B : Type 0} → Answer A → (A → H B) → H B
continue (done a) f s = f a s
continue (failed e) f s = (failed e, s)

infixl 5 ◌>>=◌ ◌>>◌
unfoldable pub ◌>>=◌ : {A B : Type 0} → H A → (A → H B) → H B
◌>>=◌ m f s = continue (m s).0 f (m s).1

abbrev pub ◌>>◌ : {A B : Type 0} → H A → H B → H B
m >> n = m >>= λ _. n

abbrev next_fault : List Bool → Bool
next_fault [] = false
next_fault (b ∷ bs) = b

abbrev later_faults : List Bool → List Bool
later_faults [] = []
later_faults (b ∷ bs) = bs

unfoldable pub send : Frame → H (Unit {0})
send frame s =
    if next_fault s.send_faults
    then (failed transport, record s { send_faults = later_faults s.send_faults })
    else (
      done tt,
      record s { sent = s.sent ++ frame ∷ []; send_faults = later_faults s.send_faults },
    )

abbrev answer_of : {A : Type 0} → Outcome A → Answer A
answer_of (ok a) = done a
answer_of (raised e) = failed (service e)

-- A service call in a worker thread.
unfoldable pub to_thread : {A : Type 0} → M A → H A
to_thread m s = (answer_of (m s.database).0, record s { database = (m s.database).1 })

-- `except Dn42CtlError as exc`
abbrev caught : {A : Type 0} → (String → H A) → Answer A → H A
caught h (failed (service (dn42ctl_error message))) = h message
caught h r = λ s. (r, s)

unfoldable pub try_service : {A : Type 0} → H A → (String → H A) → H A
try_service m h s = caught h (m s).0 (m s).1

-- `contextlib.suppress(Exception)`
unfoldable pub suppress : H (Unit {0}) → H (Unit {0})
suppress m s = (done tt, (m s).1)

unfoldable pub change_conn : (NodeConnection → NodeConnection) → H (Unit {0})
change_conn f s = (done tt, record s { conn = f s.conn })

unfoldable pub get_conn : H NodeConnection
get_conn s = (done s.conn, s)
