-- ===== src/Hub/Session/Handlers/Throttle.antt =====
-- How often a connection writes `last_seen_at`.
use dn42_utils.Base.{
  ℕ, ◌+◌, ◌≤◌, ◌<◌, String, ◌≡◌, refl, ap, subst, arith, true, false, Option, none, some, List, [],
  ◌∷◌, Bool-cases, ◌⊎◌, inl, inr,
}
use dn42_utils.Database.Connection.{closing}
use dn42_utils.Managed.Nodes.{touch_last_seen}
use dn42_utils.Hub.Session.{Session, pure, ◌>>=◌, get_conn, change_conn, suppress, to_thread}
use dn42_utils.Hub.Session.Handlers.{touch, throttled, last_seen_throttle}

-- Less than a minute after the last write, or not.
abbrev pub IsEarly : Option ℕ → ℕ → Type 0
IsEarly none clock = ⊥
IsEarly (some last) clock = clock < last + last_seen_throttle

abbrev pub IsDue : Option ℕ → ℕ → Type 0
IsDue none clock = Unit
IsDue (some last) clock = last + last_seen_throttle ≤ clock

-- One touch of the database: none, or the statement and the commit that set `last_seen_at`.
abbrev pub Spared : String → ℕ → Session → Type 0
Spared now clock s = (touch now clock s).1.database ≡ s.database

abbrev pub Written : String → ℕ → Session → Type 0
Written now clock s =
    (touch now clock s).1.database ≡ (closing (touch_last_seen now s.conn.node_id) s.database).1

-- Touches one after the other, where `last` is the time of the last one that called the database.
abbrev pub Spaced : Option ℕ → List (String × ℕ) → Session → Type 0
Spaced last [] s = Unit
Spaced last ((now, clock) ∷ ts) s =
    (IsEarly last clock × Spared now clock s × Spaced last ts (touch now clock s).1)
    ⊎ (IsDue last clock × Written now clock s × Spaced (some clock) ts (touch now clock s).1)

touch-throttled :
    (now : String) (clock : ℕ) (s : Session)
    → throttled clock s.conn.last_seen_touched_at ≡ true
    → (touch now clock s).1 ≡ s
unfolding touch ◌>>=◌ get_conn pure
touch-throttled now clock s h = rw h refl

touch-Written :
    (now : String) (clock : ℕ) (s : Session)
    → throttled clock s.conn.last_seen_touched_at ≡ false
    → ((touch now clock s).1.conn.last_seen_touched_at ≡ some clock) × Written now clock s
unfolding touch ◌>>=◌ get_conn pure change_conn suppress to_thread
touch-Written now clock s h = rw h (refl, refl)

throttled-IsEarly : (clock : ℕ) (last : Option ℕ) → throttled clock last ≡ true → IsEarly last clock
throttled-IsEarly clock none h = cc
throttled-IsEarly clock (some l) h = ground arith

throttled-IsDue : (clock : ℕ) (last : Option ℕ) → throttled clock last ≡ false → IsDue last clock
throttled-IsDue clock none h = tt
throttled-IsDue clock (some l) h = ground arith

-- Of the touches of a connection, one after the other and at any times, each that comes less than
-- a minute after the last one that called the database leaves the database connection as it is,
-- its coming faults included; each other one, the first ever included, leaves it as the write of
-- the node's last_seen_at does.
pub touches-Spaced :
    (ts : List (String × ℕ)) (s : Session) → Spaced s.conn.last_seen_touched_at ts s
touches-Spaced [] s = tt
touches-Spaced ((now, clock) ∷ ts) s =
    let rest = touches-Spaced ts (touch now clock s).1 in
    let last = s.conn.last_seen_touched_at in
    elim (Bool-cases (throttled clock last)) [
      | inl early ↦
          let same = touch-throttled now clock s early in
          inl (
            throttled-IsEarly clock last early,
            ap (λ u. u.database) same,
            subst (λ o. Spaced o ts (touch now clock s).1)
                (ap (λ u. u.conn.last_seen_touched_at) same) rest,
          )
      | inr due ↦
          let (time, written) = touch-Written now clock s due in
          inr (
            throttled-IsDue clock last due,
            written,
            subst (λ o. Spaced o ts (touch now clock s).1) time rest,
          )
    ]
