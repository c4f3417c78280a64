-- ===== src/Database/Connection/Closes.antt =====
-- Calls that leave no transaction open, built from reads and from whole transactions.
use dn42_utils.Base.{refl, ◌∙◌, sym, String, Bool, true, false, if◌then◌else◌}
use dn42_utils.Database.Schema.{Tables}
use dn42_utils.Database.Connection.{
  Exception, Outcome, ok, raised, Connection, M, pure, raise, continue, closing, rollback, or_raise,
  query, ◌>>=◌,
}
use dn42_utils.Database.Connection.Atomic.{IsClosed, IsAtomic, Settled-IsClosed, Reading-query}

pub record Closes {A : Type 0} (m : M A) : Type 0 where
  pub at : (c : Connection) → IsClosed c → IsClosed (m c).1

module _ {A : Type 0} where
  pub Closes-pure : (a : A) → Closes (pure a)
  unfolding pure
  Closes-pure a = record { at = λ c h. h }

  pub Closes-raise : (e : Exception) → Closes (raise {A = A} e)
  unfolding raise
  Closes-raise e = record { at = λ c h. h }

  pub Closes-query : (q : Tables → A) (message : String) → Closes (or_raise (query q) message)
  Closes-query q message = record {
    at = λ c h. let (w, k) = (Reading-query q message).at c in w ∙ h ∙ sym k;
  }

  pub Closes-atomic : (m : M A) → IsAtomic m → Closes m
  Closes-atomic m am = record { at = λ c h. Settled-IsClosed _ (m c).0 (m c).1 (am.at c h) }

  pub Closes-closing : (m : M A) → Closes (closing m)
  unfolding closing rollback
  Closes-closing m = record { at = λ c h. refl }

  pub Closes-if : (b : Bool) (m n : M A) → Closes m → Closes n → Closes (if b then m else n)
  Closes-if true m n cm cn = cm
  Closes-if false m n cm cn = cn

module _ {A B : Type 0} where
  continue-Closes :
      (r : Outcome A) (f : A → M B) (c : Connection)
      → ((a : A) → Closes (f a))
      → IsClosed c
      → IsClosed (continue r f c).1
  continue-Closes (ok a) f c cf h = (cf a).at c h
  continue-Closes (raised e) f c cf h = h

  pub Closes-bind : (m : M A) (f : A → M B) → Closes m → ((a : A) → Closes (f a)) → Closes (m >>= f)
  unfolding ◌>>=◌
  Closes-bind m f cm cf = record { at = λ c h. continue-Closes (m c).0 f (m c).1 cf (cm.at c h) }

pub ruleset closes_rules =
    (Closes-pure, Closes-raise, Closes-query, Closes-closing, Closes-if, Closes-bind, Closes-atomic)
