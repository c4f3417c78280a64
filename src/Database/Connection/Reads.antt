-- ===== src/Database/Connection/Reads.antt =====
-- Reads in sequence change no table.
use dn42_utils.Base.{◌≡◌, refl, ◌∙◌}
use dn42_utils.Database.Connection.{
  Connection, M, Outcome, ok, raised, continue, pure, closing, rollback, raise, Exception, ◌>>=◌,
}
use dn42_utils.Database.Connection.Atomic.{Reading, IsClosed}

pub Reading-pure : {A : Type 0} (a : A) → Reading (pure a)
unfolding pure
Reading-pure a = record { at = λ c. (refl, refl) }

pub Reading-continue :
    {A B : Type 0} (r : Outcome A) (f : A → M B) (d : Connection)
    → ((a : A) → Reading (f a))
    → ((continue r f d).1.working ≡ d.working) × ((continue r f d).1.committed ≡ d.committed)
Reading-continue (ok a) f d rf = (rf a).at d
Reading-continue (raised e) f d rf = (refl, refl)

pub Reading-bind :
    {A B : Type 0} (m : M A) (f : A → M B)
    → Reading m
    → ((a : A) → Reading (f a))
    → Reading (m >>= f)
unfolding ◌>>=◌
Reading-bind m f rm rf = record {
  at = λ c.
      let (w, k) = rm.at c in
      let (w', k') = Reading-continue (m c).0 f (m c).1 rf in (w' ∙ w, k' ∙ k);
}

pub Reading-raise : {A : Type 0} (e : Exception) → Reading (raise {A = A} e)
unfolding raise
Reading-raise e = record { at = λ c. (refl, refl) }

-- A read on a connection of its own.
pub Reading-closing :
    {A : Type 0} (m : M A) (c : Connection)
    → Reading m
    → ((closing m c).1.committed ≡ c.committed) × IsClosed (closing m c).1
unfolding closing rollback
Reading-closing m c rm = ((rm.at c).1, refl)
