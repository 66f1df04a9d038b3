-- ===== src/Database/Session/Keeps.antt =====
-- Properties of the session under actions, one rule for each way to build an action.
use freelancing_platform.Prelude.{Bool, true, false, Option, none, some, if◌then◌else◌}
use freelancing_platform.Database.Tables.{Db}
use freelancing_platform.Database.Environment.{Error, Result, ok, err}
use freelancing_platform.Database.Session.{
  Arriving, Session, Action, pure, raise, gets, lift, require, continue, ◌>>=◌, raise_if, modify,
  arriving, commit, rollback, handle, catch, run,
}

-- `m` keeps `Q`, whether it returns or raises.
pub record Keeps {A : Type 0} (Q : Session → Type 0) (m : Action A) : Type 0 where
  pub at : (s : Session) → Q s → Q (m s).1

-- A property of the store, of the committed and of the visible rows.
abbrev pub Holds : (Db → Type 0) → Session → Type 0
Holds P s = P s.saved × P s.live

module _ {A : Type 0} {Q : Session → Type 0} where
  pub Keeps-pure : (a : A) → Keeps Q (pure a)
  unfolding pure
  Keeps-pure a = record { at = λ s h. h }

  pub Keeps-raise : (e : Error) → Keeps Q (raise {A = A} e)
  unfolding raise
  Keeps-raise e = record { at = λ s h. h }

  pub Keeps-gets : (f : Db → A) → Keeps Q (gets f)
  unfolding gets
  Keeps-gets f = record { at = λ s h. h }

  pub Keeps-lift : (r : Result A) → Keeps Q (lift r)
  unfolding lift
  Keeps-lift r = record { at = λ s h. h }

  pub Keeps-require : (o : Option A) (e : Error) → Keeps Q (require o e)
  unfolding require
  Keeps-require none e = Keeps-raise e
  Keeps-require (some a) e = Keeps-pure a

  pub Keeps-if : (b : Bool) (m n : Action A) → Keeps Q m → Keeps Q n → Keeps Q (if b then m else n)
  Keeps-if true m n km kn = km
  Keeps-if false m n km kn = kn

module _ {A B : Type 0} {Q : Session → Type 0} where
  Keeps-continue :
      (r : Result A) (f : A → Action B) (s : Session)
      → ((a : A) → Keeps Q (f a))
      → Q s
      → Q (continue r f s).1
  Keeps-continue (ok a) f s kf h = (kf a).at s h
  Keeps-continue (err e) f s kf h = h

  pub Keeps-bind :
      (m : Action A) (f : A → Action B) → Keeps Q m → ((a : A) → Keeps Q (f a)) → Keeps Q (m >>= f)
  unfolding ◌>>=◌
  Keeps-bind m f km kf = record { at = λ s h. Keeps-continue (m s).0 f (m s).1 kf (km.at s h) }

module _ {Q : Session → Type 0} where
  pub Keeps-raise_if : (b : Bool) (e : Error) → Keeps Q (raise_if b e)
  unfolding raise_if
  Keeps-raise_if true e = Keeps-raise e
  Keeps-raise_if false e = Keeps-pure tt

  pub Keeps-arriving : Keeps Q arriving
  unfolding arriving
  Keeps-arriving = record { at = λ s h. h }

  pub Keeps-modify :
      (f : Db → Db) → ((s : Session) → Q s → Q (record s { live = f s.live })) → Keeps Q (modify f)
  unfolding modify
  Keeps-modify f kf = record { at = kf }

pub Keeps-commit : (P : Db → Type 0) → Keeps (Holds P) commit
unfolding commit
Keeps-commit P = record { at = λ s h. (h.1, h.1) }

pub Keeps-rollback : (P : Db → Type 0) → Keeps (Holds P) rollback
unfolding rollback
Keeps-rollback P = record { at = λ s h. (h.0, h.0) }

module _ {A : Type 0} {Q : Session → Type 0} where
  Keeps-handle :
      (r : Result A) (handler : Error → Action A) (s : Session)
      → ((e : Error) → Keeps Q (handler e))
      → Q s
      → Q (handle r handler s).1
  Keeps-handle (ok a) handler s kh h = h
  Keeps-handle (err e) handler s kh h = (kh e).at s h

  pub Keeps-catch :
      (m : Action A) (handler : Error → Action A)
      → Keeps Q m
      → ((e : Error) → Keeps Q (handler e))
      → Keeps Q (catch m handler)
  unfolding catch
  Keeps-catch m handler km kh = record {
    at = λ s h. Keeps-handle (m s).0 handler (m s).1 kh (km.at s h);
  }

-- What an action keeps, the request that runs it keeps.
pub Keeps-run :
    {A : Type 0} (P : Db → Type 0) (a : Arriving) (m : Action A) (db : Db)
    → Keeps (Holds P) m
    → P db
    → P (run a m db).1
unfolding run
Keeps-run P a m db km h = (km.at (record { saved = db; live = db; arriving = a }) (h, h)).0

pub ruleset keeps_rules = (
  Keeps-pure, Keeps-raise, Keeps-gets, Keeps-lift, Keeps-require, Keeps-if, Keeps-bind,
  Keeps-raise_if, Keeps-arriving,
)
