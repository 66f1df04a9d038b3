-- ===== src/Ledger.antt =====
-- app/ledger/service.py: accounts, journals and balances of the double-entry ledger.
pub mod Balance
pub mod Journal
pub mod Outcome
pub mod Account
pub mod Frame
pub mod Fresh
pub mod Untouched
pub mod Abstract
pub mod Transfer
pub mod Invariant
use freelancing_platform.Prelude.{
  ℕ, Bool, true, false, not, Option, none, some, List, [], ◌∷◌, map, ◌&&◌, ◌||◌, ◌==◌, all, find?,
  same_id, if◌then◌else◌,
}
use freelancing_platform.Prelude.Int.{ℤ, pos, ◌+ℤ◌, ◌-ℤ◌, leb_ℤ, ltb_ℤ, ◌==ℤ◌}
use freelancing_platform.Database.Rows.Texts.{Text, Uuid}
use freelancing_platform.Database.Rows.Ledger.{
  AccountType, freelancer_wallet, same_account_type, AccountKey, same_key, LedgerAccount, Direction,
  debit, credit, other_direction, Operation, same_operation, ReferenceType, same_reference_type,
  LedgerEntry, JournalTransaction,
}
use freelancing_platform.Database.Tables.{Db, add_journal}
use freelancing_platform.Database.Environment.{
  Result, ok, err, value_error, runtime_error, integrity_error, api, insufficient_funds,
  no_postings, mixed_currencies, nonpositive_amount, bad_direction, unbalanced,
}
use freelancing_platform.Database.Session.{
  Arriving, Action, pure, raise, gets, lift, require, ◌>>=◌, ◌>>◌, raise_if, modify, arriving,
  fresh_id,
}

pub record Posting : Type 0 where
  pub account : LedgerAccount
  pub direction : Direction
  pub amount_minor : ℤ

-- The identity that a caller of `get_or_create_account` asks for.
pub record Identity : Type 0 where
  pub account_key : AccountKey
  pub account_type : AccountType
  pub currency : Text
  pub owner_user_id : Option Uuid
  pub milestone_id : Option Uuid

abbrev pub has_key : AccountKey → LedgerAccount → Bool
has_key k a = same_key a.account_key k

-- The comparison of a found account with the requested identity.
abbrev pub same_identity : Identity → LedgerAccount → Bool
same_identity want a =
    same_account_type a.account_type want.account_type
    && (a.currency == want.currency
        && (same_id a.owner_user_id want.owner_user_id && same_id a.milestone_id want.milestone_id))

check_identity : Identity → LedgerAccount → Action LedgerAccount
check_identity want a = if same_identity want a then pure a else raise runtime_error

abbrev add_account : LedgerAccount → Db → Db
add_account a db = record db { ledger_accounts = a ∷ db.ledger_accounts }

abbrev pub new_account : Identity → Uuid → LedgerAccount
new_account want id = record {
  id = id;
  account_key = want.account_key;
  account_type = want.account_type;
  owner_user_id = want.owner_user_id;
  milestone_id = want.milestone_id;
  currency = want.currency;
}

-- The insert in a savepoint. An account that another transaction has committed under the key makes
-- it fail with `IntegrityError`; the second select finds that account and compares it.
insert_account : Identity → Option LedgerAccount → Action LedgerAccount
unfolding check_identity
insert_account want (some rival) = do modify (add_account rival); check_identity want rival
insert_account want none = do
  id ← fresh_id
  modify (add_account (new_account want id))
  pure (new_account want id)

create_account : Identity → Action LedgerAccount
unfolding insert_account
create_account want = do
  others ← arriving
  insert_account want (find? (has_key want.account_key) others.accounts)

found_or_create : Identity → Option LedgerAccount → Action LedgerAccount
unfolding check_identity create_account
found_or_create want (some account) = check_identity want account
found_or_create want none = create_account want

unfoldable pub get_or_create_account : Identity → Action LedgerAccount
unfolding found_or_create
get_or_create_account want = do
  found ← gets (λ db. find? (has_key want.account_key) db.ledger_accounts)
  found_or_create want found

-- The totals of the loop in `post_journal`, from the totals so far.
unfoldable pub add_postings : List Posting → ℤ → ℤ → Result (ℤ × ℤ)
add_postings [] debits credits = ok (debits, credits)
add_postings (p ∷ ps) debits credits = elim (leb_ℤ p.amount_minor (pos 0)) [
  | true ↦ err (value_error nonpositive_amount)
  | false ↦ elim p.direction [
    | debit ↦ add_postings ps (debits +ℤ p.amount_minor) credits
    | credit ↦ add_postings ps debits (credits +ℤ p.amount_minor)
    | other_direction ↦ err (value_error bad_direction)
  ]
]

abbrev pub uses_currency : Text → Posting → Bool
uses_currency c p = p.account.currency == c

-- The checks of `post_journal`, in the order of the code; the result is the one currency.
unfoldable pub check_postings : List Posting → Action Text
check_postings [] = raise (value_error no_postings)
check_postings (p ∷ ps) = do
  let currency = p.account.currency
  raise_if (not (all (uses_currency currency) ps)) (value_error mixed_currencies)
  totals ← lift (add_postings (p ∷ ps) (pos 0) (pos 0))
  raise_if (not (totals.0 ==ℤ totals.1)) (value_error unbalanced)
  pure currency

pub record JournalRequest : Type 0 where
  pub operation : Operation
  pub reference_type : ReferenceType
  pub reference_id : Uuid
  pub reversal_of_id : Option Uuid
  pub postings : List Posting

abbrev pub is_journal_of : JournalRequest → JournalTransaction → Bool
is_journal_of r j =
    same_reference_type j.reference_type r.reference_type
    && (j.reference_id == r.reference_id && same_operation j.operation r.operation)

abbrev pub entry_of : Text → Posting → LedgerEntry
entry_of currency p = record {
  ledger_account_id = p.account.id;
  direction = p.direction;
  amount_minor = p.amount_minor;
  currency = currency;
}

abbrev pub entries_of : Text → List Posting → List LedgerEntry
entries_of currency [] = []
entries_of currency (p ∷ ps) = entry_of currency p ∷ entries_of currency ps

unfoldable pub insert_journal : JournalRequest → Text → Action JournalTransaction
insert_journal r currency = do
  id ← fresh_id
  let journal : JournalTransaction = record {
    id = id;
    operation = r.operation;
    reference_type = r.reference_type;
    reference_id = r.reference_id;
    reversal_of_id = r.reversal_of_id;
    entries = entries_of currency r.postings;
  }
  modify (add_journal journal)
  pure journal

unfoldable pub existing_or_insert :
    JournalRequest → Text → Option JournalTransaction → Action JournalTransaction
unfolding insert_journal
existing_or_insert r currency (some existing) = pure existing
existing_or_insert r currency none = insert_journal r currency

unfoldable pub post_journal : JournalRequest → Action JournalTransaction
post_journal r = do
  currency ← check_postings r.postings
  existing ← gets (λ db. find? (is_journal_of r) db.journal_transactions)
  existing_or_insert r currency existing

-- `case((direction == "CREDIT", amount), else_=-amount)`
abbrev pub signed : LedgerEntry → ℤ
signed e = elim e.direction [ credit ↦ e.amount_minor | _ ↦ pos 0 -ℤ e.amount_minor ]

-- The `SUM` over the entries of an account, journal by journal.
abbrev pub sum_entries : Uuid → List LedgerEntry → ℤ
sum_entries a [] = pos 0
sum_entries a (e ∷ es) = (if e.ledger_account_id == a then signed e else pos 0) +ℤ sum_entries a es

abbrev pub sum_journals : Uuid → List JournalTransaction → ℤ
sum_journals a [] = pos 0
sum_journals a (j ∷ js) = sum_entries a j.entries +ℤ sum_journals a js

-- The balance of an account, by its id.
abbrev pub balance : Uuid → Db → ℤ
balance a db = sum_journals a db.journal_transactions

unfoldable pub account_balance_minor : LedgerAccount → Action ℤ
account_balance_minor a = gets (balance a.id)

unfoldable pub require_sufficient_balance : LedgerAccount → ℤ → Action (Unit {0})
unfolding account_balance_minor
require_sufficient_balance a amount = do
  raise_if (ltb_ℤ (← account_balance_minor a) amount) (api insufficient_funds 409)

abbrev is_wallet_of : Uuid → Text → LedgerAccount → Bool
is_wallet_of user currency a =
    same_account_type a.account_type freelancer_wallet
    && (same_id a.owner_user_id (some user) && a.currency == currency)

-- `wallet_balances` groups by currency: this is its value at one currency.
sum_wallets : Uuid → Text → List LedgerAccount → Db → ℤ
sum_wallets user currency [] db = pos 0
sum_wallets user currency (a ∷ rest) db =
    (if is_wallet_of user currency a then balance a.id db else pos 0)
    +ℤ sum_wallets user currency rest db

unfoldable pub wallet_balance : Uuid → Text → Db → ℤ
unfolding sum_wallets
wallet_balance user currency db = sum_wallets user currency db.ledger_accounts db
