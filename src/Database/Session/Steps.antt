-- ===== src/Database/Session/Steps.antt =====
-- A bind taken apart: forwards by what its first action does, backwards from a result.
use freelancing_platform.Prelude.{
  suc, Bool, true, false, Option, none, some, refl, ◌∙◌, ◌≡◌, ap, inl, inr, arith,
}
use freelancing_platform.Database.Environment.{Error, Result, ok, err, Result-cases}
use freelancing_platform.Database.Rows.Texts.{Uuid}
use freelancing_platform.Database.Tables.{Db}
use freelancing_platform.Database.Session.Keeps.{Keeps}
use freelancing_platform.Database.Session.{
  commit, handle, catch, pure, Session, Action, continue, ◌>>=◌, raise, raise_if, require, gets,
  lift, fresh_id, arriving, Arriving,
}

module _ {A B : Type 0} (m : Action A) (f : A → Action B) where
  pub bind-ok : {s s' : Session} {a : A} → m s ≡ (ok a, s') → (m >>= f) s ≡ f a s'
  unfolding ◌>>=◌
  bind-ok h = ap (λ (x : Result A × Session). continue x.0 f x.1) h

  pub bind-err : {s s' : Session} {e : Error} → m s ≡ (err e, s') → (m >>= f) s ≡ (err e, s')
  unfolding ◌>>=◌
  bind-err h = ap (λ (x : Result A × Session). continue x.0 f x.1) h

  -- A bind that returns: its first action returned, and the rest did.
  pub bind_inv :
      (s : Session) (b : B)
      → ((m >>= f) s).0 ≡ ok b
      → (a : A) × ((m s).0 ≡ ok a) × ((m >>= f) s ≡ f a (m s).1)
  unfolding ◌>>=◌
  bind_inv s b h = elim (Result-cases (m s).0) [
    | inl (a, e) ↦ (a, e, ap (λ (r : Result A). continue r f (m s).1) e)
    | inr (x, e) ↦ ground arith
  ]

module _ {A : Type 0} where
  -- A check that passed.
  pub bind-raise_if :
      (t : Bool) (e : Error) (f : Unit {0} → Action A) (s : Session) (a : A)
      → ((raise_if t e >>= f) s).0 ≡ ok a
      → (t ≡ false) × ((raise_if t e >>= f) s ≡ f tt s)
  unfolding ◌>>=◌
  bind-raise_if true e f s a h = ground arith
  bind-raise_if false e f s a h = (refl, refl)

  -- A row that was found.
  pub bind-require :
      {R : Type 0} (o : Option R) (e : Error) (f : R → Action A) (s : Session) (a : A)
      → ((require o e >>= f) s).0 ≡ ok a
      → (row : R) × (o ≡ some row) × ((require o e >>= f) s ≡ f row s)
  unfolding ◌>>=◌
  bind-require none e f s a h = ground arith
  bind-require (some row) e f s a h = (row, refl, refl)

  pub bind-gets :
      {R : Type 0} (g : Db → R) (f : R → Action A) (s : Session) → (gets g >>= f) s ≡ f (g s.live) s
  unfolding ◌>>=◌
  bind-gets g f s = refl

-- A reply of a provider.
pub bind-lift :
    {A R : Type 0} (r : Result R) (f : R → Action A) (s : Session) (a : A)
    → ((lift r >>= f) s).0 ≡ ok a
    → (x : R) × (r ≡ ok x) × ((lift r >>= f) s ≡ f x s)
unfolding ◌>>=◌
bind-lift r f s a h = let (x, e, to) = bind_inv (lift r) f s a h in (x, e, to)

pub ok_only : {A : Type 0} (a b : A) → ok a ≡ ok b → a ≡ b
ok_only a b h = ground arith

pub pure_returned : {A : Type 0} (v a : A) (s : Session) → (pure v s).0 ≡ ok a → a ≡ v
unfolding ◌>>=◌
pure_returned v a s h = ground arith

-- An action that only returns.
pub pure_run : {A : Type 0} (a : A) (s : Session) → pure a s ≡ (ok a, s)
unfolding ◌>>=◌
pure_run a s = refl

pub commit_run : (s : Session) → commit s ≡ (ok tt, record s { saved = s.live })
unfolding ◌>>=◌
commit_run s = refl

pub require_returned :
    {R : Type 0} (o : Option R) (e : Error) (s : Session) (row : R)
    → (require o e s).0 ≡ ok row
    → (o ≡ some row) × ((require o e s).1 ≡ s)
unfolding ◌>>=◌
require_returned none e s row h = ground arith
require_returned (some r) e s row h = (ground arith, refl)

-- A select of one row, by `require`.
pub bind-lookup :
    {A R : Type 0} (g : Db → Option R) (e : Error) (f : R → Action A) (s : Session) (a : A)
    → (((gets g >>= λ o. require o e) >>= f) s).0 ≡ ok a
    → (row : R) × (g s.live ≡ some row) × (((gets g >>= λ o. require o e) >>= f) s ≡ f row s)
unfolding ◌>>=◌
bind-lookup g e f s a h = bind-require (g s.live) e f s a h

-- A select of one row that returns.
pub lookup_returned :
    {R : Type 0} (g : Db → Option R) (e : Error) (s : Session) (row : R)
    → ((gets g >>= λ o. require o e) s).0 ≡ ok row
    → g s.live ≡ some row
unfolding ◌>>=◌
lookup_returned g e s row returned = (require_returned (g s.live) e s row returned).0

-- A select of one row that is there.
pub lookup_found :
    {R : Type 0} (g : Db → Option R) (e : Error) (s : Session) (row : R)
    → g s.live ≡ some row
    → (gets g >>= λ o. require o e) s ≡ (ok row, s)
unfolding ◌>>=◌
lookup_found g e s row h = ap (λ o. require o e s) h

-- A check that passes.
pub raise_if_passes : (t : Bool) (e : Error) (s : Session) → t ≡ false → raise_if t e s ≡ (ok tt, s)
unfolding ◌>>=◌
raise_if_passes t e s h = ap (λ (t : Bool). raise_if t e s) h

-- A check that fails.
pub raise_if_fails : (t : Bool) (e : Error) (s : Session) → t ≡ true → raise_if t e s ≡ (err e, s)
unfolding ◌>>=◌
raise_if_fails t e s h = ap (λ (t : Bool). raise_if t e s) h

-- An action that writes nothing, inside one that returns.
pub bind-reader :
    {A R : Type 0} (m : Action R) (f : R → Action A) (s : Session) (a : A)
    → Keeps (λ x. x ≡ s) m
    → ((m >>= f) s).0 ≡ ok a
    → (row : R) × (m s ≡ (ok row, s)) × ((m >>= f) s ≡ f row s)
bind-reader m f s a reads returned =
    let (row, e, to) = bind_inv m f s a returned in
    let same = reads.at s refl in (row, λ i. (e i, same i), to ∙ ap (f row) same)

pub raise_if_returned :
    (t : Bool) (e : Error) (s : Session) (u : Unit {0}) → (raise_if t e s).0 ≡ ok u → t ≡ false
unfolding ◌>>=◌
raise_if_returned true e s u h = ground arith
raise_if_returned false e s u h = refl

pub raise_returned :
    {A : Type 0} (e : Error) (s : Session) (a : A) → (raise {A = A} e s).0 ≡ ok a → ⊥
unfolding ◌>>=◌
raise_returned e s a h = ground arith

-- The session once an id has been handed out.
abbrev pub after_id : Session → Session
after_id s = record s { live = record s.live { next_id = suc s.live.next_id } }

pub bind-fresh_id :
    {A : Type 0} (f : Uuid → Action A) (s : Session)
    → (fresh_id >>= f) s ≡ f s.live.next_id (after_id s)
unfolding ◌>>=◌
bind-fresh_id f s = refl

pub bind-arriving :
    {A : Type 0} (f : Arriving → Action A) (s : Session) → (arriving >>= f) s ≡ f s.arriving s
unfolding ◌>>=◌
bind-arriving f s = refl

-- A `try` block that returns under clauses that all raise.
module _ {A : Type 0} (handler : Error → Action A) (a : A)
    (raises : (e : Error) (s : Session) → (handler e s).0 ≡ ok a → ⊥) where
  handled :
      (r : Result A) (s : Session)
      → (handle r handler s).0 ≡ ok a
      → (r ≡ ok a) × (handle r handler s ≡ (r, s))
  handled (ok b) s h = (h, refl)
  handled (err e) s h = elim (raises e s h) [ ]

  pub catch_returned :
      (m : Action A) (s : Session)
      → (catch m handler s).0 ≡ ok a
      → ((m s).0 ≡ ok a) × (catch m handler s ≡ m s)
  unfolding catch
  catch_returned m s h = handled (m s).0 (m s).1 h
