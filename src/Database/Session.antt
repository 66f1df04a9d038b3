-- ===== src/Database/Session.antt =====
-- A request's database session: a state monad with exceptions over the rows that the request sees
-- (`live`) and the rows that are committed (`saved`). A request that raises, or that ends without a
-- commit, leaves `saved` only: the session is removed and rolled back when the request ends.
pub mod Keeps
pub mod Atomic
pub mod Durable
pub mod Steps
use freelancing_platform.Prelude.{
  ℕ, suc, Bool, true, false, Option, none, some, List, [], ◌∷◌, find?, if◌then◌else◌,
}
use freelancing_platform.Database.Rows.Texts.{Uuid}
use freelancing_platform.Database.Rows.Ledger.{LedgerAccount}
use freelancing_platform.Database.Rows.Payment.{FinancialIdempotencyKey, ProviderEvent}
use freelancing_platform.Database.Rows.Contract.{Contract, ContractSignature}
use freelancing_platform.Database.Rows.Dispute.{Dispute}
use freelancing_platform.Database.Rows.Proposal.{Proposal}
use freelancing_platform.Database.Rows.Payout.{PayoutProviderAccount}
use freelancing_platform.Database.Tables.{Db}
use freelancing_platform.Database.Environment.{Environment, Error, Result, ok, err}

-- Rows that concurrent transactions commit between a `SELECT` of this request that finds nothing and
-- its `INSERT`. They make the insert fail on a unique constraint, and the second `SELECT` sees them.
pub record Arriving : Type 0 where
  pub keys : List FinancialIdempotencyKey
  pub accounts : List LedgerAccount
  pub events : List ProviderEvent
  pub signatures : List ContractSignature
  pub disputes : List Dispute
  pub proposals : List Proposal
  pub contracts : List Contract
  pub destinations : List PayoutProviderAccount

pub record Session : Type 0 where
  pub saved : Db
  pub live : Db
  pub arriving : Arriving

abbrev pub Action : Type 0 → Type 0
Action A = Session → Result A × Session

module _ {A : Type 0} where
  pub pure : A → Action A
  pure a s = (ok a, s)

  pub raise : Error → Action A
  raise e s = (err e, s)

  pub gets : (Db → A) → Action A
  gets f s = (ok (f s.live), s)

  pub lift : Result A → Action A
  lift r s = (r, s)

  -- `if row is None: raise …`
  pub require : Option A → Error → Action A
  unfolding pure raise
  require none e = raise e
  require (some a) e = pure a

pub raise_if : Bool → Error → Action (Unit {0})
unfolding pure raise
raise_if true e = raise e
raise_if false e = pure tt

pub modify : (Db → Db) → Action (Unit {0})
modify f s = (ok tt, record s { live = f s.live })

pub arriving : Action Arriving
arriving s = (ok s.arriving, s)

-- `uuid.uuid4()`
pub fresh_id : Action Uuid
fresh_id s = (ok s.live.next_id, record s { live = record s.live { next_id = suc s.live.next_id } })

-- `db.session.commit()`
pub commit : Action (Unit {0})
commit s = (ok tt, record s { saved = s.live })

-- `db.session.rollback()`
pub rollback : Action (Unit {0})
rollback s = (ok tt, record s { live = s.saved })

-- A wait for a provider after a commit: other transactions commit meanwhile.
pub await_provider : Environment → Action (Unit {0})
await_provider env s =
    (ok tt, record s { saved = env.meanwhile s.saved; live = env.meanwhile s.live })

abbrev continue : {A B : Type 0} → Result A → (A → Action B) → Action B
continue (ok a) f s = f a s
continue (err e) f s = (err e, s)

infixl 5 ◌>>=◌ ◌>>◌
-- Opening this opens the basic actions too.
unfoldable pub ◌>>=◌ : {A B : Type 0} → Action A → (A → Action B) → Action B
unfolding pure raise gets lift require raise_if modify arriving fresh_id commit await_provider
◌>>=◌ m f s = let (r, s') = m s in continue r f s'

abbrev pub ◌>>◌ : {A B : Type 0} → Action A → Action B → Action B
m >> k = m >>= λ _. k

abbrev pub handle : {A : Type 0} → Result A → (Error → Action A) → Action A
handle (ok a) handler s = (ok a, s)
handle (err e) handler s = handler e s

-- `try … except`: the handler goes on from the state at the raise.
unfoldable pub catch : {A : Type 0} → Action A → (Error → Action A) → Action A
catch m handler s = let (r, s') = m s in handle r handler s'

-- A request: what it answers, and what is committed when its session has gone.
unfoldable pub run : {A : Type 0} → Arriving → Action A → Db → Result A × Db
run a m db = let (r, s) = m (record { saved = db; live = db; arriving = a }) in (r, s.saved)
