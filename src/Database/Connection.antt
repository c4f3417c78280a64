-- ===== src/Database/Connection.antt =====
-- A `sqlite3.Connection` as the program uses it: statements change the open transaction, `commit`
-- makes it durable, `rollback` drops it. Any statement may fail (a full disk, a lock held too long):
-- `faults` says which of the coming ones do.
pub mod Atomic
pub mod Closes
pub mod Inversion
pub mod Keeps
pub mod Quiet
pub mod Reads
use dn42_utils.Base.{String, Bool, false, List, [], ◌∷◌, if◌then◌else◌}
use dn42_utils.Database.Schema.{Tables}

-- sqlite3.IntegrityError, and the other subclasses of sqlite3.Error
pub data SqlError : Type 0 where
  integrity operational : SqlError

-- Python's exceptions; a message is the text of its `raise` without the interpolated values
pub data Exception : Type 0 where
  sql : SqlError → Exception
  database_error : String → Exception
  dn42ctl_error : String → Exception
  value_error : String → Exception

pub data Outcome {ℓ} (A : Type ℓ) : Type ℓ where
  ok : A → Outcome A
  raised : Exception → Outcome A

pub record Connection : Type 0 where
  pub committed : Tables
  pub working : Tables
  pub faults : List Bool

abbrev pub M : Type 0 → Type 0
M A = Connection → Outcome A × Connection

unfoldable pub pure : {A : Type 0} → A → M A
pure a c = (ok a, c)

unfoldable pub raise : {A : Type 0} → Exception → M A
raise e c = (raised e, c)

abbrev pub continue : {A B : Type 0} → Outcome A → (A → M B) → M B
continue (ok a) f c = f a c
continue (raised e) f c = (raised e, c)

infixl 5 ◌>>=◌ ◌>>◌
-- Opening this opens `pure` and `raise` too.
unfoldable pub ◌>>=◌ : {A B : Type 0} → M A → (A → M B) → M B
unfolding pure raise
◌>>=◌ m f c = continue (m c).0 f (m c).1

abbrev pub ◌>>◌ : {A B : Type 0} → M A → M B → M B
m >> n = m >>= λ _. n

-- The result of one SQL statement: a value and the tables after it, or a violated constraint.
pub data Executed (A : Type 0) : Type 0 where
  done : A → Tables → Executed A
  violated : Executed A

abbrev pub Statement : Type 0 → Type 0
Statement A = Tables → Executed A

abbrev pub next_fault : List Bool → Bool
next_fault [] = false
next_fault (b ∷ bs) = b

abbrev pub later_faults : List Bool → List Bool
later_faults [] = []
later_faults (b ∷ bs) = bs

abbrev pub executed : {A : Type 0} → Executed A → Connection → Outcome A × Connection
executed (done a t) c = (ok a, record c { working = t })
executed violated c = (raised (sql integrity), c)

unfoldable pub execute : {A : Type 0} → Statement A → M A
execute s c =
    let c' : Connection = record c { faults = later_faults c.faults } in
    if next_fault c.faults then (raised (sql operational), c') else executed (s c.working) c'

-- A SELECT
abbrev pub query : {A : Type 0} → (Tables → A) → M A
query q = execute (λ t. done (q t) t)

unfoldable pub commit : M (Unit {0})
commit c =
    let c' : Connection = record c { faults = later_faults c.faults } in
    if next_fault c.faults
    then (raised (sql operational), c')
    else (ok tt, record c' { committed = c.working })

unfoldable pub rollback : M (Unit {0})
rollback c = (ok tt, record c { working = c.committed })

-- `except sqlite3.Error`; what is no `sqlite3.Error` passes
abbrev pub handle : {A : Type 0} → (SqlError → M A) → Outcome A → M A
handle h (ok a) = pure a
handle h (raised (sql e)) = h e
handle h (raised e) = raise e

abbrev pub try_sql : {A : Type 0} → M A → (SqlError → M A) → M A
try_sql m h c = handle h (m c).0 (m c).1

-- `conn.rollback(); raise …`
unfoldable pub abort : {A : Type 0} → Exception → M A
unfolding ◌>>=◌ rollback
abort e = rollback >> raise e

-- `except sqlite3.Error: rollback; raise DatabaseError(message)`
unfoldable pub or_abort : {A : Type 0} → M A → String → M A
unfolding abort
or_abort m message = try_sql m (λ _. abort (database_error message))

-- The same with `except sqlite3.IntegrityError` in front.
abbrev pub on_error : String → String → SqlError → Exception
on_error clash message integrity = database_error clash
on_error clash message operational = database_error message

unfoldable pub or_abort_clash : {A : Type 0} → M A → String → String → M A
unfolding abort
or_abort_clash m clash message = try_sql m (λ e. abort (on_error clash message e))

-- A read method: `except sqlite3.Error: raise DatabaseError(message)`
unfoldable pub or_raise : {A : Type 0} → M A → String → M A
unfolding raise pure
or_raise m message = try_sql m (λ _. raise (database_error message))

-- `db.close()` drops an open transaction
unfoldable pub closing : {A : Type 0} → M A → M A
closing m c = ((m c).0, (rollback (m c).1).1)
