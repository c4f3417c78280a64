-- ===== src/Database/Connection/Atomic.antt =====
-- Transactions: what a method leaves behind, whichever of its statements fail.
use dn42_utils.Base.{
  ◌≡◌, refl, arith, String, Bool, true, false, ◌∙◌, sym, Bool-cases, inl, inr, if◌then◌else◌,
}
use dn42_utils.Database.Schema.{Tables}
use dn42_utils.Database.Connection.{
  SqlError, Exception, sql, database_error, dn42ctl_error, value_error, Outcome, ok, raised,
  Connection, M, Statement, execute, commit, pure, raise, continue, handle, abort, or_abort,
  or_abort_clash, or_raise, ◌>>=◌, query, next_fault,
}

-- No transaction is open.
abbrev pub IsClosed : Connection → Type 0
IsClosed c = c.working ≡ c.committed

-- Where a call ends: no open transaction, and after an exception nothing has changed.
abbrev pub Settled : {A : Type 0} → Tables → Outcome A → Connection → Type 0
Settled t (ok a) c = IsClosed c
Settled t (raised e) c = (c.working ≡ c.committed) × (c.committed ≡ t)

pub record IsAtomic {A : Type 0} (m : M A) : Type 0 where
  pub at : (c : Connection) → IsClosed c → Settled c.committed (m c).0 (m c).1

-- The body of a `try` up to its `commit`: it writes to the transaction alone, and an exception of
-- its own comes after a rollback.
abbrev Unwound : Tables → Exception → Connection → Type 0
Unwound t (sql e) c = (c.committed ≡ t)
Unwound t _ c = (c.working ≡ t) × (c.committed ≡ t)

abbrev Open : {A : Type 0} → Tables → Outcome A → Connection → Type 0
Open t (ok a) c = (c.committed ≡ t)
Open t (raised e) c = Unwound t e c

pub record Pending {A : Type 0} (m : M A) : Type 0 where
  at : (t : Tables) (c : Connection) → c.committed ≡ t → Open t (m c).0 (m c).1

abbrev Ended : {A : Type 0} → Tables → Outcome A → Connection → Type 0
Ended t (ok a) c = IsClosed c
Ended t (raised e) c = Unwound t e c

-- The whole body of a `try`, its `commit` included.
pub record Finishing {A : Type 0} (m : M A) : Type 0 where
  at : (t : Tables) (c : Connection) → c.committed ≡ t → Ended t (m c).0 (m c).1

pub Pending-pure : {A : Type 0} (a : A) → Pending (pure a)
unfolding pure
Pending-pure a = record { at = λ t c h. h }

pub Pending-execute : {A : Type 0} (s : Statement A) → Pending (execute s)
unfolding execute
Pending-execute s = record { at = λ t c h. ground arith }

pub Pending-abort :
    {A : Type 0} (message : String) → Pending {A = A} (abort (database_error message))
unfolding abort
Pending-abort message = record { at = λ t c h. ground arith }

pub Pending-if :
    {A : Type 0} (b : Bool) (m n : M A) → Pending m → Pending n → Pending (if b then m else n)
Pending-if true m n pm pn = pm
Pending-if false m n pm pn = pn

Open-continue :
    {A B : Type 0} (f : A → M B) (t : Tables) (r : Outcome A) (c : Connection)
    → Open t r c
    → ((a : A) → Pending (f a))
    → Open t (continue r f c).0 (continue r f c).1
Open-continue f t (ok a) c h pf = (pf a).at t c h
Open-continue f t (raised e) c h pf = h

pub Pending-bind :
    {A B : Type 0} (m : M A) (f : A → M B)
    → Pending m
    → ((a : A) → Pending (f a))
    → Pending (m >>= f)
unfolding ◌>>=◌
Pending-bind m f pm pf = record { at = λ t c h. Open-continue f t (m c).0 (m c).1 (pm.at t c h) pf }

Ended-continue :
    {A B : Type 0} (f : A → M B) (t : Tables) (r : Outcome A) (c : Connection)
    → Open t r c
    → ((a : A) → Finishing (f a))
    → Ended t (continue r f c).0 (continue r f c).1
Ended-continue f t (ok a) c h pf = (pf a).at t c h
Ended-continue f t (raised e) c h pf = h

pub Finishing-commit : Finishing commit
unfolding commit
Finishing-commit = record { at = λ t c h. ground arith }

pub Finishing-commit-pure : {A : Type 0} (a : A) → Finishing (commit >>= λ _. pure a)
unfolding commit ◌>>=◌
Finishing-commit-pure a = record { at = λ t c h. ground arith }

pub Finishing-bind :
    {A B : Type 0} (m : M A) (f : A → M B)
    → Pending m
    → ((a : A) → Finishing (f a))
    → Finishing (m >>= f)
unfolding ◌>>=◌
Finishing-bind m f pm pf = record {
  at = λ t c h. Ended-continue f t (m c).0 (m c).1 (pm.at t c h) pf;
}

pub ruleset transaction_rules = (
  Pending-pure, Pending-execute, Pending-abort, Pending-if, Pending-bind, Finishing-commit,
  Finishing-commit-pure, Finishing-bind,
)

-- A read, wherever it stands.
pub record Reading {A : Type 0} (m : M A) : Type 0 where
  pub at : (c : Connection) → ((m c).1.working ≡ c.working) × ((m c).1.committed ≡ c.committed)

pub Reading-query :
    {A : Type 0} (q : Tables → A) (message : String) → Reading (or_raise (query q) message)
unfolding or_raise execute raise
Reading-query q message = record {
  at = λ c. elim (Bool-cases (next_fault c.faults)) [
    | inl e ↦ rw e (refl, refl)
    | inr e ↦ rw e (refl, refl)
  ];
}

-- A whole body that starts with no transaction open.
pub record Ending {A : Type 0} (m : M A) : Type 0 where
  pub at : (c : Connection) → IsClosed c → Ended c.committed (m c).0 (m c).1

pub Ending-pure : {A : Type 0} (a : A) → Ending (pure a)
unfolding pure
Ending-pure a = record { at = λ c h. h }

pub Ending-Finishing : {A : Type 0} (m : M A) → Finishing m → Ending m
Ending-Finishing m fm = record { at = λ c h. fm.at c.committed c refl }

Ended-after :
    {A B : Type 0} (f : A → M B) (t : Tables) (r : Outcome A) (c : Connection)
    → c.working ≡ t
    → c.committed ≡ t
    → ((a : A) → Ending (f a))
    → Ended t (continue r f c).0 (continue r f c).1
Ended-after f t (ok a) c hw hc pf = rw (← hc) ((pf a).at c (hw ∙ sym hc))
Ended-after f t (raised (sql e)) c hw hc pf = hc
Ended-after f t (raised (database_error s)) c hw hc pf = (hw, hc)
Ended-after f t (raised (dn42ctl_error s)) c hw hc pf = (hw, hc)
Ended-after f t (raised (value_error s)) c hw hc pf = (hw, hc)

pub Ending-bind :
    {A B : Type 0} (m : M A) (f : A → M B) → Reading m → ((a : A) → Ending (f a)) → Ending (m >>= f)
unfolding ◌>>=◌
Ending-bind m f rm pf = record {
  at = λ c h. let (w, k) = rm.at c in Ended-after f c.committed (m c).0 (m c).1 (w ∙ h) k pf;
}

pub Settled-handle :
    {A : Type 0} (x : SqlError → Exception) (t : Tables) (r : Outcome A) (c : Connection)
    → Ended t r c
    → Settled t (handle (λ e. abort (x e)) r c).0 (handle (λ e. abort (x e)) r c).1
unfolding abort
Settled-handle x t (ok a) c h = h
Settled-handle x t (raised (sql e)) c h = (refl, h)
Settled-handle x t (raised (database_error s)) c h = (cc, h.1)
Settled-handle x t (raised (dn42ctl_error s)) c h = (cc, h.1)
Settled-handle x t (raised (value_error s)) c h = (cc, h.1)

pub or_abort-IsAtomic :
    {A : Type 0} (m : M A) (message : String) → Ending m → IsAtomic (or_abort m message)
unfolding or_abort
or_abort-IsAtomic m message fm = record {
  at = λ c h. Settled-handle _ c.committed (m c).0 (m c).1 (fm.at c h);
}

pub or_abort_clash-IsAtomic :
    {A : Type 0} (m : M A) (clash message : String)
    → Ending m
    → IsAtomic (or_abort_clash m clash message)
unfolding or_abort_clash
or_abort_clash-IsAtomic m clash message fm = record {
  at = λ c h. Settled-handle _ c.committed (m c).0 (m c).1 (fm.at c h);
}

Settled-continue :
    {A B : Type 0} (t : Tables) (r : Outcome A) (c : Connection) (b : B)
    → Settled t r c
    → Settled t (continue r (λ _. pure b) c).0 (continue r (λ _. pure b) c).1
unfolding pure
Settled-continue t (ok a) c b h = h
Settled-continue t (raised e) c b h = h

pub IsAtomic-then_pure :
    {A B : Type 0} (m : M A) (b : B) → IsAtomic m → IsAtomic (m >>= λ _. pure b)
unfolding ◌>>=◌
IsAtomic-then_pure m b am = record {
  at = λ c h. Settled-continue c.committed (m c).0 (m c).1 b (am.at c h);
}

-- A call that is atomic leaves no transaction open.
pub Settled-IsClosed :
    {A : Type 0} (t : Tables) (r : Outcome A) (c : Connection) → Settled t r c → IsClosed c
Settled-IsClosed t (ok a) c h = h
Settled-IsClosed t (raised e) c h = h.0
