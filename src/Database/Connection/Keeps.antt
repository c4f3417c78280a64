-- ===== src/Database/Connection/Keeps.antt =====
-- Invariants of the tables: what every call keeps, in the open transaction and in what is committed,
-- whichever of its statements fail.
use dn42_utils.Base.{String, Bool, true, false, if◌then◌else◌, Bool-cases, inl, inr}
use dn42_utils.Database.Schema.{Tables}
use dn42_utils.Database.Connection.{
  SqlError, Exception, sql, database_error, dn42ctl_error, value_error, Outcome, ok, raised,
  Connection, M, Executed, done, violated, Statement, execute, executed, commit, rollback, pure,
  raise, continue, handle, abort, or_abort, or_abort_clash, or_raise, closing, ◌>>=◌, query,
  next_fault,
}

pub record Keeps (P : Tables → Type 0) {A : Type 0} (m : M A) : Type 0 where
  pub at : (c : Connection) → P c.working → P c.committed → P (m c).1.working × P (m c).1.committed

-- A statement that keeps the invariant where it succeeds.
abbrev pub After : (Tables → Type 0) → {A : Type 0} → Executed A → Type 0
After P (done a t) = P t
After P violated = Unit

executed-keeps :
    (P : Tables → Type 0) {A : Type 0} (r : Executed A) (c : Connection)
    → After P r
    → P c.working
    → P c.committed
    → P (executed r c).1.working × P (executed r c).1.committed
executed-keeps P (done a t) c s w k = (s, k)
executed-keeps P violated c s w k = (w, k)

module _ {P : Tables → Type 0} {A : Type 0} where
  pub Keeps-pure : (a : A) → Keeps P (pure a)
  unfolding pure
  Keeps-pure a = record { at = λ c w k. (w, k) }

  pub Keeps-raise : (e : Exception) → Keeps P (raise {A = A} e)
  unfolding raise
  Keeps-raise e = record { at = λ c w k. (w, k) }

  pub Keeps-execute : (s : Statement A) → ((t : Tables) → P t → After P (s t)) → Keeps P (execute s)
  unfolding execute
  Keeps-execute s step = record {
    at = λ c w k. elim (Bool-cases (next_fault c.faults)) [
      | inl fault ↦ rw fault (w, k)
      | inr fine ↦ rw fine (executed-keeps P (s c.working) _ (step c.working w) w k)
    ];
  }

  pub Keeps-query : (q : Tables → A) → Keeps P (query q)
  Keeps-query q = Keeps-execute _ (λ t h. h)

  pub Keeps-abort : (e : Exception) → Keeps P (abort {A = A} e)
  unfolding abort
  Keeps-abort e = record { at = λ c w k. (k, k) }

  pub Keeps-if : (b : Bool) (m n : M A) → Keeps P m → Keeps P n → Keeps P (if b then m else n)
  Keeps-if true m n km kn = km
  Keeps-if false m n km kn = kn

  handled-keeps :
      (h : SqlError → M A) (r : Outcome A) (c : Connection)
      → ((e : SqlError) → Keeps P (h e))
      → P c.working
      → P c.committed
      → P (handle h r c).1.working × P (handle h r c).1.committed
  unfolding pure raise
  handled-keeps h (ok a) c kh w k = (w, k)
  handled-keeps h (raised (sql e)) c kh w k = (kh e).at c w k
  handled-keeps h (raised (database_error e)) c kh w k = (w, k)
  handled-keeps h (raised (dn42ctl_error e)) c kh w k = (w, k)
  handled-keeps h (raised (value_error e)) c kh w k = (w, k)

  pub Keeps-or_abort : (m : M A) (message : String) → Keeps P m → Keeps P (or_abort m message)
  unfolding or_abort
  Keeps-or_abort m message km = record {
    at = λ c w k.
        let (w', k') = km.at c w k in handled-keeps _ (m c).0 (m c).1 (λ e. Keeps-abort _) w' k';
  }

  pub Keeps-or_abort_clash :
      (m : M A) (clash message : String) → Keeps P m → Keeps P (or_abort_clash m clash message)
  unfolding or_abort_clash
  Keeps-or_abort_clash m clash message km = record {
    at = λ c w k.
        let (w', k') = km.at c w k in handled-keeps _ (m c).0 (m c).1 (λ e. Keeps-abort _) w' k';
  }

  pub Keeps-or_raise : (m : M A) (message : String) → Keeps P m → Keeps P (or_raise m message)
  unfolding or_raise
  Keeps-or_raise m message km = record {
    at = λ c w k.
        let (w', k') = km.at c w k in handled-keeps _ (m c).0 (m c).1 (λ e. Keeps-raise _) w' k';
  }

  pub Keeps-closing : (m : M A) → Keeps P m → Keeps P (closing m)
  unfolding closing rollback
  Keeps-closing m km = record { at = λ c w k. let (_, k') = km.at c w k in (k', k') }

module _ {P : Tables → Type 0} where
  pub Keeps-commit : Keeps P commit
  unfolding commit
  Keeps-commit = record {
    at = λ c w k. elim (Bool-cases (next_fault c.faults)) [
      | inl fault ↦ rw fault (w, k)
      | inr fine ↦ rw fine (w, w)
    ];
  }

module _ {P : Tables → Type 0} {A B : Type 0} where
  continue-keeps :
      (r : Outcome A) (f : A → M B) (c : Connection)
      → ((a : A) → Keeps P (f a))
      → P c.working
      → P c.committed
      → P (continue r f c).1.working × P (continue r f c).1.committed
  continue-keeps (ok a) f c kf w k = (kf a).at c w k
  continue-keeps (raised e) f c kf w k = (w, k)

  pub Keeps-bind :
      (m : M A) (f : A → M B) → Keeps P m → ((a : A) → Keeps P (f a)) → Keeps P (m >>= f)
  unfolding ◌>>=◌
  Keeps-bind m f km kf = record {
    at = λ c w k. let (w', k') = km.at c w k in continue-keeps (m c).0 f (m c).1 kf w' k';
  }

pub ruleset keeps_rules = (
  Keeps-pure, Keeps-raise, Keeps-query, Keeps-abort, Keeps-if, Keeps-or_abort, Keeps-or_abort_clash,
  Keeps-or_raise, Keeps-closing, Keeps-commit, Keeps-bind,
)
