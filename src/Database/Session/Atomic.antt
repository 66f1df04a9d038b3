-- ===== src/Database/Session/Atomic.antt =====
-- Actions that commit at most once, as the last thing they do: one that raises has committed nothing.
use freelancing_platform.Prelude.{◌≡◌, ◌∙◌, refl, Bool, true, false, arith, if◌then◌else◌}
use freelancing_platform.Database.Tables.{Db}
use freelancing_platform.Database.Environment.{Error, Result, ok, err}
use freelancing_platform.Database.Session.{
  Arriving, Session, Action, pure, raise, continue, ◌>>=◌, ◌>>◌, commit, run,
}
use freelancing_platform.Database.Session.Keeps.{Keeps}

abbrev pub SavedIs : Db → Session → Type 0
SavedIs db s = s.saved ≡ db

-- If `m` raises, what is committed is what was.
pub record IsAtomic {A : Type 0} (m : Action A) : Type 0 where
  pub at : (s : Session) (e : Error) → (m s).0 ≡ err e → (m s).1.saved ≡ s.saved

module _ {A : Type 0} where
  pub IsAtomic-pure : (a : A) → IsAtomic (pure a)
  unfolding ◌>>=◌
  IsAtomic-pure a = record { at = λ s e h. refl }

  pub IsAtomic-raise : (x : Error) → IsAtomic (raise {A = A} x)
  unfolding ◌>>=◌
  IsAtomic-raise x = record { at = λ s e h. refl }

  pub IsAtomic-if :
      (b : Bool) (m n : Action A) → IsAtomic m → IsAtomic n → IsAtomic (if b then m else n)
  IsAtomic-if true m n hm hn = hm
  IsAtomic-if false m n hm hn = hn

  -- The end of an operation: nothing raises after its commit.
  pub IsAtomic-commit : (a : A) → IsAtomic (commit >> pure a)
  unfolding ◌>>=◌
  IsAtomic-commit a = record { at = λ s e h. ground arith }

module _ {A B : Type 0} where
  IsAtomic-continue :
      (r : Result A) (f : A → Action B) (s : Session) (db : Db)
      → ((a : A) → IsAtomic (f a))
      → s.saved ≡ db
      → (e : Error) → (continue r f s).0 ≡ err e
      → (continue r f s).1.saved ≡ db
  IsAtomic-continue (ok a) f s db hf h e raised = (hf a).at s e raised ∙ h
  IsAtomic-continue (err x) f s db hf h e raised = h

  -- What comes before the commit keeps what is committed, whatever that is.
  pub IsAtomic-bind :
      (m : Action A) (f : A → Action B)
      → ((db : Db) → Keeps (SavedIs db) m)
      → ((a : A) → IsAtomic (f a))
      → IsAtomic (m >>= f)
  unfolding ◌>>=◌
  IsAtomic-bind m f hm hf = record {
    at = λ s e raised.
        IsAtomic-continue (m s).0 f (m s).1 s.saved hf ((hm s.saved).at s refl) e raised;
  }

-- A request that raises leaves the committed rows as they were.
pub run_raises :
    {A : Type 0} (a : Arriving) (m : Action A) (db : Db) (e : Error)
    → IsAtomic m
    → (run a m db).0 ≡ err e
    → (run a m db).1 ≡ db
unfolding run
run_raises a m db e h raised = h.at (record { saved = db; live = db; arriving = a }) e raised

pub ruleset atomic_rules =
    (IsAtomic-pure, IsAtomic-raise, IsAtomic-if, IsAtomic-commit, IsAtomic-bind)
