-- ===== src/Payments/Queries/Found.antt =====
-- The selects of the payment service inside an operation that returns: the row was there, and the
-- operation went on with it from the same session.
use freelancing_platform.Prelude.{true, ◌≡◌, ◌∙◌, ap, sym, refl, Option, some, find?, ◌==◌, arith}
use freelancing_platform.Prelude.Int.{ℤ}
use freelancing_platform.Database.Rows.Texts.{Text, Uuid}
use freelancing_platform.Database.Rows.Ledger.{LedgerAccount}
use freelancing_platform.Database.Rows.Contract.{
  Contract, ContractVersion, Milestone, active, same_contract_status,
}
use freelancing_platform.Database.Rows.Payment.{MilestoneEscrow}
use freelancing_platform.Database.Tables.{Db}
use freelancing_platform.Database.Environment.{Environment, ok}
use freelancing_platform.Database.Session.{Session, Action, ◌>>=◌}
use freelancing_platform.Database.Session.Keeps.{Keeps, keeps_rules}
use freelancing_platform.Database.Session.Steps.{
  bind-raise_if, bind-ok, bind-lookup, lookup_found, lookup_returned,
}
use freelancing_platform.Ledger.{balance, account_balance_minor}
use freelancing_platform.Payments.Queries.{
  get_provider, get_milestone, contract_of, version_of, require_active_contract, is_employer,
  require_employer, find_escrow, require_escrow, find_account, escrow_account_of,
}

abbrev pub milestone_in : Uuid → Db → Option Milestone
milestone_in id db = find? (λ m. m.id == id) db.milestones

abbrev pub escrow_in : Uuid → Db → Option MilestoneEscrow
escrow_in milestone db = find? (λ e. e.milestone_id == milestone) db.milestone_escrows

abbrev pub account_in : Uuid → Db → Option LedgerAccount
account_in id db = find? (λ a. a.id == id) db.ledger_accounts

pub get_provider-reads :
    (env : Environment) (name : Text) (s : Session) → Keeps (λ x. x ≡ s) (get_provider env name)
unfolding get_provider
get_provider-reads env name s = search keeps_rules

module _ {A : Type 0} (s : Session) (a : A) where
  pub bind-get_milestone :
      (id : Uuid) (f : Milestone → Action A)
      → ((get_milestone id >>= f) s).0 ≡ ok a
      → (m : Milestone) × (milestone_in id s.live ≡ some m) × ((get_milestone id >>= f) s ≡ f m s)
  unfolding get_milestone
  bind-get_milestone id f h = bind-lookup _ _ f s a h

  pub bind-require_escrow :
      (id : Uuid) (f : MilestoneEscrow → Action A)
      → ((require_escrow id >>= f) s).0 ≡ ok a
      → (e : MilestoneEscrow) × (escrow_in id s.live ≡ some e)
        × ((require_escrow id >>= f) s ≡ f e s)
  unfolding require_escrow find_escrow
  bind-require_escrow id f h = bind-lookup _ _ f s a h

  pub bind-escrow_account_of :
      (e : MilestoneEscrow) (f : LedgerAccount → Action A)
      → ((escrow_account_of e >>= f) s).0 ≡ ok a
      → (x : LedgerAccount) × (account_in e.escrow_account_id s.live ≡ some x)
        × ((escrow_account_of e >>= f) s ≡ f x s)
  unfolding escrow_account_of find_account
  bind-escrow_account_of e f h = bind-lookup _ _ f s a h

  pub bind-require_active :
      (c : Contract) (f : Unit {0} → Action A)
      → ((require_active_contract c >>= f) s).0 ≡ ok a
      → (same_contract_status c.status active ≡ true)
        × ((require_active_contract c >>= f) s ≡ f tt s)
  unfolding require_active_contract
  bind-require_active c f h = let (passed, e) = bind-raise_if _ _ f s a h in (ground arith, e)

  pub bind-require_employer :
      (user : Uuid) (c : Contract) (f : Unit {0} → Action A)
      → ((require_employer user c >>= f) s).0 ≡ ok a
      → (is_employer user c ≡ true) × ((require_employer user c >>= f) s ≡ f tt s)
  unfolding require_employer
  bind-require_employer user c f h =
      let (passed, e) = bind-raise_if _ _ f s a h in (ground arith, e)

  pub bind-balance :
      (x : LedgerAccount) (f : ℤ → Action A)
      → (account_balance_minor x >>= f) s ≡ f (balance x.id s.live) s
  unfolding account_balance_minor ◌>>=◌
  bind-balance x f = refl

module _ (s : Session) where
  pub contract_of-reads : (m : Milestone) → Keeps (λ x. x ≡ s) (contract_of m)
  unfolding contract_of version_of
  contract_of-reads m = search keeps_rules depth 9

  pub get_milestone-reads : (id : Uuid) → Keeps (λ x. x ≡ s) (get_milestone id)
  unfolding get_milestone
  get_milestone-reads id = search keeps_rules

-- The contract of a milestone in the rows: that of the version which the milestone belongs to.
pub record IsContractOf (m : Milestone) (c : Contract) (db : Db) : Type 0 where
  pub version : ContractVersion
  pub version_found : find? (λ v. v.id == m.contract_version_id) db.contract_versions ≡ some version
  pub contract_found : find? (λ x. x.id == version.contract_id) db.contracts ≡ some c

pub contract_of-IsContractOf :
    (m : Milestone) (c : Contract) (s : Session)
    → (contract_of m s).0 ≡ ok c
    → IsContractOf m c s.live
unfolding contract_of version_of
contract_of-IsContractOf m c s returned =
    let (v, found, e1) = bind-lookup _ _ _ s c returned in
    record {
      version = v;
      version_found = found;
      contract_found = lookup_returned _ _ s c (sym (ap (λ x. x.0) e1) ∙ returned);
    }

pub contract_of_found :
    (m : Milestone) (c : Contract) (s : Session)
    → IsContractOf m c s.live
    → contract_of m s ≡ (ok c, s)
unfolding contract_of version_of
contract_of_found m c s h =
    bind-ok _ _ (lookup_found _ _ s h.version h.version_found)
    ∙ lookup_found _ _ s c h.contract_found
