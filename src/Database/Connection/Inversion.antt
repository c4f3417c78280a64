-- ===== src/Database/Connection/Inversion.antt =====
-- What a call that returned says of its parts.
use dn42_utils.Base.{◌≡◌, refl, arith, String, Bool-cases, inl, inr}
use dn42_utils.Database.Schema.{Tables}
use dn42_utils.Database.Connection.{
  SqlError, Exception, sql, database_error, dn42ctl_error, value_error, Outcome, ok, raised,
  Connection, M, continue, handle, abort, or_abort, or_abort_clash, or_raise, raise, pure, ◌>>=◌,
  Executed, done, violated, executed, Statement, execute, commit, next_fault, operational, query,
}

continue-eq-ok :
    {A B : Type 0} (r : Outcome A) (f : A → M B) (c : Connection) {b : B}
    → (continue r f c).0 ≡ ok b
    → (a : A) × (r ≡ ok a) × ((f a c).0 ≡ ok b) × ((continue r f c).1 ≡ (f a c).1)
continue-eq-ok (ok a) f c h = (a, refl, h, refl)
continue-eq-ok (raised e) f c h = cc

pub >>=-eq-ok :
    {A B : Type 0} (m : M A) (f : A → M B) (c : Connection) {b : B}
    → ((m >>= f) c).0 ≡ ok b
    → (a : A) × ((m c).0 ≡ ok a) × ((f a (m c).1).0 ≡ ok b) × (((m >>= f) c).1 ≡ (f a (m c).1).1)
unfolding ◌>>=◌
>>=-eq-ok m f c h = continue-eq-ok (m c).0 f (m c).1 h

pub handle-abort-eq-ok :
    {A : Type 0} (x : SqlError → Exception) (r : Outcome A) (c : Connection) {a : A}
    → (handle (λ e. abort (x e)) r c).0 ≡ ok a
    → (r ≡ ok a) × ((handle (λ e. abort (x e)) r c).1 ≡ c)
unfolding abort pure
handle-abort-eq-ok x (ok a) c h = (h, refl)
handle-abort-eq-ok x (raised (sql e)) c h = cc
handle-abort-eq-ok x (raised (database_error e)) c h = cc
handle-abort-eq-ok x (raised (dn42ctl_error e)) c h = cc
handle-abort-eq-ok x (raised (value_error e)) c h = cc

pub or_abort-eq-ok :
    {A : Type 0} (m : M A) (message : String) (c : Connection) {a : A}
    → (or_abort m message c).0 ≡ ok a
    → ((m c).0 ≡ ok a) × ((or_abort m message c).1 ≡ (m c).1)
unfolding or_abort
or_abort-eq-ok m message c h = handle-abort-eq-ok _ (m c).0 (m c).1 h

pub or_abort_clash-eq-ok :
    {A : Type 0} (m : M A) (clash message : String) (c : Connection) {a : A}
    → (or_abort_clash m clash message c).0 ≡ ok a
    → ((m c).0 ≡ ok a) × ((or_abort_clash m clash message c).1 ≡ (m c).1)
unfolding or_abort_clash
or_abort_clash-eq-ok m clash message c h = handle-abort-eq-ok _ (m c).0 (m c).1 h

executed-eq-ok :
    {A : Type 0} (r : Executed A) (c : Connection) {a : A}
    → (executed r c).0 ≡ ok a
    → r ≡ done a (executed r c).1.working
executed-eq-ok (done a t) c h = cc
executed-eq-ok violated c h = cc

pub execute-eq-ok :
    {A : Type 0} (s : Statement A) (c : Connection) {a : A}
    → (execute s c).0 ≡ ok a
    → s c.working ≡ done a (execute s c).1.working
unfolding execute
execute-eq-ok {A} s c {a} h = elim (Bool-cases (next_fault c.faults)) [
  | inl fault ↦ let e : ◌≡◌ {A = Outcome A} (raised (sql operational)) (ok a) = rw fault at h in cc
  | inr fine ↦ rw fine (executed-eq-ok (s c.working) _ (rw fine at h))
]

pub commit-eq-ok :
    (c : Connection)
    → (commit c).0 ≡ ok tt
    → ((commit c).1.committed ≡ c.working) × ((commit c).1.working ≡ c.working)
unfolding commit
commit-eq-ok c h = ground arith

handle-raise-eq-ok :
    {A : Type 0} (e : Exception) (r : Outcome A) (c : Connection) {a : A}
    → (handle (λ _. raise e) r c).0 ≡ ok a
    → (r ≡ ok a) × ((handle (λ _. raise e) r c).1 ≡ c)
unfolding raise pure
handle-raise-eq-ok x (ok a) c h = (h, refl)
handle-raise-eq-ok x (raised (sql e)) c h = cc
handle-raise-eq-ok x (raised (database_error e)) c h = cc
handle-raise-eq-ok x (raised (dn42ctl_error e)) c h = cc
handle-raise-eq-ok x (raised (value_error e)) c h = cc

-- What a read method returns.
pub or_raise-query-eq-ok :
    {A : Type 0} (q : Tables → A) (message : String) (c : Connection) {a : A}
    → (or_raise (query q) message c).0 ≡ ok a
    → q c.working ≡ a
unfolding or_raise
or_raise-query-eq-ok q message c h =
    let (ran, _) = handle-raise-eq-ok _ (query q c).0 (query q c).1 h in
    let e = execute-eq-ok (λ t. done (q t) t) c ran in cc e

pub ok_injective : {A : Type 0} (a b : A) → ◌≡◌ {A = Outcome A} (ok a) (ok b) → a ≡ b
ok_injective a b h = ground arith
