-- ===== src/Database/Session/Durable.antt =====
-- Actions that end with a commit when they return: what they have written is kept.
use freelancing_platform.Prelude.{◌≡◌, refl, arith, Bool, true, false, if◌then◌else◌}
use freelancing_platform.Database.Environment.{Error, Result, ok, err}
use freelancing_platform.Database.Session.{
  Session, Action, pure, raise, continue, ◌>>=◌, ◌>>◌, commit,
}

-- If `m` returns, what is committed is what it sees.
pub record IsDurable {A : Type 0} (m : Action A) : Type 0 where
  pub at : (s : Session) (a : A) → (m s).0 ≡ ok a → (m s).1.saved ≡ (m s).1.live

module _ {A : Type 0} where
  pub IsDurable-raise : (x : Error) → IsDurable (raise {A = A} x)
  unfolding ◌>>=◌
  IsDurable-raise x = record { at = λ s a h. ground arith }

  pub IsDurable-if :
      (b : Bool) (m n : Action A) → IsDurable m → IsDurable n → IsDurable (if b then m else n)
  IsDurable-if true m n hm hn = hm
  IsDurable-if false m n hm hn = hn

  pub IsDurable-commit : (a : A) → IsDurable (commit >> pure a)
  unfolding ◌>>=◌
  IsDurable-commit a = record { at = λ s b h. refl }

module _ {A B : Type 0} where
  IsDurable-continue :
      (r : Result A) (f : A → Action B) (s : Session)
      → ((a : A) → IsDurable (f a))
      → (b : B) → (continue r f s).0 ≡ ok b
      → (continue r f s).1.saved ≡ (continue r f s).1.live
  IsDurable-continue (ok a) f s hf b returned = (hf a).at s b returned
  IsDurable-continue (err x) f s hf b returned = ground arith

  pub IsDurable-bind :
      (m : Action A) (f : A → Action B) → ((a : A) → IsDurable (f a)) → IsDurable (m >>= f)
  unfolding ◌>>=◌
  IsDurable-bind m f hf = record {
    at = λ s b returned. IsDurable-continue (m s).0 f (m s).1 hf b returned;
  }

pub ruleset durable_rules = (IsDurable-raise, IsDurable-if, IsDurable-commit, IsDurable-bind)
