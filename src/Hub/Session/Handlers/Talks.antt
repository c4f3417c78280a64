-- ===== src/Hub/Session/Handlers/Talks.antt =====
-- Calls on a socket that lives: those that take no frame back, and those that send one.
use dn42_utils.Base.{
  ℕ, suc, ◌≤◌, String, ◌≡◌, refl, arith, Bool, true, false, Option, none, some, [], ◌∷◌, length,
  length-append, if◌then◌else◌,
}
use dn42_utils.Database.Connection.{
  M, Outcome, ok, raised, sql, database_error, dn42ctl_error, value_error,
}
use dn42_utils.Hub.Registry.{NodeConnection}
use dn42_utils.Hub.Session.{
  Session, Frame, H, Answer, done, failed, pure, continue, ◌>>=◌, send, to_thread, try_service,
  suppress, change_conn, get_conn,
}
use dn42_utils.Hub.Session.Handlers.{touch}

-- The socket is alive, and no frame was taken back.
abbrev pub After : Session → Session → Type 0
After s s' = (s'.send_faults ≡ []) × (length s.sent ≤ length s'.sent)

pub record Calm {A : Type 0} (m : H A) : Type 0 where
  pub at : (s : Session) → s.send_faults ≡ [] → After s (m s).1

-- A call that returns has sent a frame.
abbrev pub Sent : {A : Type 0} → Answer A → ℕ → Session → Type 0
Sent (done a) before s' = suc before ≤ length s'.sent
Sent (failed e) before s' = Unit

pub record Talks {A : Type 0} (m : H A) : Type 0 where
  pub at :
      (s : Session) → s.send_faults ≡ [] → After s (m s).1 × Sent (m s).0 (length s.sent) (m s).1

module _ {A : Type 0} where
  pub Calm-pure : (a : A) → Calm (pure a)
  unfolding pure
  Calm-pure a = record { at = λ s h. (h, omega arith) }

  pub Calm-to_thread : (m : M A) → Calm (to_thread m)
  unfolding to_thread
  Calm-to_thread m = record { at = λ s h. (h, omega arith) }

  Calm-if : (b : Bool) (m n : H A) → Calm m → Calm n → Calm (if b then m else n)
  Calm-if true m n cm cn = cm
  Calm-if false m n cm cn = cn

  pub Talks-if : (b : Bool) (m n : H A) → Talks m → Talks n → Talks (if b then m else n)
  Talks-if true m n tm tn = tm
  Talks-if false m n tm tn = tn

pub Calm-get_conn : Calm get_conn
unfolding get_conn
Calm-get_conn = record { at = λ s h. (h, omega arith) }

pub Calm-change_conn : (f : NodeConnection → NodeConnection) → Calm (change_conn f)
unfolding change_conn
Calm-change_conn f = record { at = λ s h. (h, omega arith) }

Calm-suppress : (m : H (Unit {0})) → Calm m → Calm (suppress m)
unfolding suppress
Calm-suppress m cm = record { at = λ s h. cm.at s h }

pub Talks-send : (f : Frame) → Talks (send f)
unfolding send
Talks-send f = record {
  at = λ s h. let count = length-append s.sent (f ∷ []) in rw h ((refl, omega arith), omega arith);
}

module _ {A B : Type 0} where
  continue-After :
      (r : Answer A) (f : A → H B) (s s' : Session)
      → ((a : A) → Calm (f a))
      → After s s'
      → After s (continue r f s').1
  continue-After (done a) f s s' cf h = let k = (cf a).at s' h.0 in (k.0, omega arith)
  continue-After (failed e) f s s' cf h = h

  Calm-bind : (m : H A) (f : A → H B) → Calm m → ((a : A) → Calm (f a)) → Calm (m >>= f)
  unfolding ◌>>=◌
  Calm-bind m f cm cf = record { at = λ s h. continue-After (m s).0 f s (m s).1 cf (cm.at s h) }

  first-sent :
      (r : Answer A) (f : A → H B) (s s' : Session)
      → ((a : A) → Calm (f a))
      → After s s' × Sent r (length s.sent) s'
      → After s (continue r f s').1 × Sent (continue r f s').0 (length s.sent) (continue r f s').1
  first-sent (done a) f s s' cf (h, k) =
      let later = (cf a).at s' h.0 in ((later.0, omega arith), sent (f a s').0 (omega arith))
    where
      sent :
          (o : Answer B)
          → suc (length s.sent) ≤ length (f a s').1.sent
          → Sent o (length s.sent) (f a s').1
      sent (done b) le = le
      sent (failed e) le = tt
  first-sent (failed e) f s s' cf (h, k) = (h, tt)

  pub Talks-first : (m : H A) (f : A → H B) → Talks m → ((a : A) → Calm (f a)) → Talks (m >>= f)
  unfolding ◌>>=◌
  Talks-first m f tm cf = record { at = λ s h. first-sent (m s).0 f s (m s).1 cf (tm.at s h) }

  then-sent :
      (r : Answer A) (f : A → H B) (s s' : Session)
      → ((a : A) → Talks (f a))
      → After s s'
      → After s (continue r f s').1 × Sent (continue r f s').0 (length s.sent) (continue r f s').1
  then-sent (done a) f s s' tf h =
      let (k, l) = (tf a).at s' h.0 in ((k.0, omega arith), sent (f a s').0 l)
    where
      sent : (o : Answer B) → Sent o (length s'.sent) (f a s').1 → Sent o (length s.sent) (f a s').1
      sent (done b) le = omega arith
      sent (failed e) le = tt
  then-sent (failed e) f s s' tf h = (h, tt)

  pub Talks-then : (m : H A) (f : A → H B) → Calm m → ((a : A) → Talks (f a)) → Talks (m >>= f)
  unfolding ◌>>=◌
  Talks-then m f cm tf = record { at = λ s h. then-sent (m s).0 f s (m s).1 tf (cm.at s h) }

Calm-of_Talks : {A : Type 0} (m : H A) → Talks m → Calm m
Calm-of_Talks m tm = record { at = λ s h. (tm.at s h).0 }

Calm-send : (f : Frame) → Calm (send f)
Calm-send f = Calm-of_Talks (send f) (Talks-send f)

ruleset calm_rules = (
  Calm-pure, Calm-to_thread, Calm-if, Calm-get_conn, Calm-change_conn, Calm-suppress, Calm-bind,
  Calm-send,
)

pub touch-Calm : (now : String) (clock : ℕ) → Calm (touch now clock)
unfolding touch
touch-Calm now clock = search calm_rules depth 9

-- A refused service call has been answered; of the others, the answer comes after.
pub Talks-try :
    {B : Type 0} (m : M B) (f : String → Frame) (answer : Option B → H (Unit {0}))
    → ((b : B) → Talks (answer (some b)))
    → Calm (answer none)
    → Talks (
        try_service
          (to_thread m >>= (λ b. pure (some b)))
          (λ message. send (f message) >>= (λ _. pure none))
        >>= answer)
unfolding try_service to_thread ◌>>=◌ pure
Talks-try {B} m f answer given missing = record { at = λ s h. go s h (m s.database).0 refl }
  where
    calm : (o : Option B) → Calm (answer o)
    calm none = missing
    calm (some b) = Calm-of_Talks (answer (some b)) (given b)

    go :
        (s : Session)
        → s.send_faults ≡ []
        → (o : Outcome B) → (m s.database).0 ≡ o
        → After s
            ((try_service
                  (to_thread m >>= (λ b. pure (some b)))
                  (λ message. send (f message) >>= (λ _. pure none))
                >>= answer)
              s).1
          × Sent
              ((try_service
                    (to_thread m >>= (λ b. pure (some b)))
                    (λ message. send (f message) >>= (λ _. pure none))
                  >>= answer)
                s).0
              (length s.sent)
              ((try_service
                    (to_thread m >>= (λ b. pure (some b)))
                    (λ message. send (f message) >>= (λ _. pure none))
                  >>= answer)
                s).1
    go s h (ok b) got = rw got ((given b).at (record s { database = (m s.database).1 }) h)
    go s h (raised (dn42ctl_error e)) got = rw got (
        (Talks-first (send (f e) >>= (λ _. pure none)) answer
            (Talks-first (send (f e)) _ (Talks-send (f e)) (λ _. Calm-pure none)) calm).at
          (record s { database = (m s.database).1 }) h)
    go s h (raised (sql e)) got = rw got ((h, omega arith), tt)
    go s h (raised (database_error e)) got = rw got ((h, omega arith), tt)
    go s h (raised (value_error e)) got = rw got ((h, omega arith), tt)
