-- ===== src/Ledger/Frame.antt =====
-- What the actions of the ledger do to a property of the session. Such a property is quiet if writes
-- outside the journals keep it, and framed if posting a journal keeps it too.
use freelancing_platform.Prelude.{suc, ◌≡◌, refl, Option, none, some}
use freelancing_platform.Database.Rows.Ledger.{LedgerAccount}
use freelancing_platform.Database.Tables.{Db}
use freelancing_platform.Database.Session.{Session, modify, fresh_id, ◌>>=◌}
use freelancing_platform.Database.Session.Keeps.{Keeps, keeps_rules, Keeps-modify}
use freelancing_platform.Ledger.{
  account_balance_minor, JournalRequest, post_journal, Identity, get_or_create_account,
  found_or_create, create_account, insert_account, check_identity, add_account,
}

pub record Quiet (Q : Session → Type 0) : Type 0 where
  pub write :
      (f : Db → Db)
      → ((db : Db) → (f db).journal_transactions ≡ db.journal_transactions)
      → (s : Session) → Q s
      → Q (record s { live = f s.live })

pub record Frame (Q : Session → Type 0) : Type 0 where
  pub quiet : Quiet Q
  pub post : (r : JournalRequest) → Keeps Q (post_journal r)

abbrev skip_id : Db → Db
skip_id db = record db { next_id = suc db.next_id }

module _ {Q : Session → Type 0} (frame : Frame Q) where
  pub Frame-Quiet : Quiet Q
  Frame-Quiet = frame.quiet

  pub post_journal-Keeps : (r : JournalRequest) → Keeps Q (post_journal r)
  post_journal-Keeps = frame.post

-- What the accounts' operations keep, if adding an account and handing out an id do.
module _ {Q : Session → Type 0} (adds : (a : LedgerAccount) → Keeps Q (modify (add_account a)))
    (fresh : Keeps Q fresh_id) where
  check_identity-Keeps : (want : Identity) (a : LedgerAccount) → Keeps Q (check_identity want a)
  unfolding check_identity
  check_identity-Keeps want a = search keeps_rules

  added-Keeps : (a : LedgerAccount) → Keeps Q (modify (add_account a))
  added-Keeps = adds

  numbered-Keeps : Keeps Q fresh_id
  numbered-Keeps = fresh

  ruleset account_rules = (keeps_rules, check_identity-Keeps, added-Keeps, numbered-Keeps)

  insert_account-Keeps :
      (want : Identity) (rival : Option LedgerAccount) → Keeps Q (insert_account want rival)
  unfolding insert_account
  insert_account-Keeps want (some rival) = search account_rules
  insert_account-Keeps want none = search account_rules

  found_or_create-Keeps :
      (want : Identity) (found : Option LedgerAccount) → Keeps Q (found_or_create want found)
  unfolding found_or_create create_account
  found_or_create-Keeps want (some a) = search account_rules
  found_or_create-Keeps want none = search (account_rules, insert_account-Keeps)

  pub get_or_create_account-Keeps_by : (want : Identity) → Keeps Q (get_or_create_account want)
  unfolding get_or_create_account
  get_or_create_account-Keeps_by want = search (keeps_rules, found_or_create-Keeps)

module _ {Q : Session → Type 0} (quiet : Quiet Q) where
  pub modify-Keeps :
      (f : Db → Db)
      → ((db : Db) → (f db).journal_transactions ≡ db.journal_transactions)
      → Keeps Q (modify f)
  modify-Keeps f same = Keeps-modify f (quiet.write f same)

  pub fresh_id-Keeps : Keeps Q fresh_id
  unfolding ◌>>=◌
  fresh_id-Keeps = record { at = λ s h. quiet.write skip_id (λ db. refl) s h }

  add_account-Keeps : (a : LedgerAccount) → Keeps Q (modify (add_account a))
  add_account-Keeps a = modify-Keeps (add_account a) (λ db. refl)

  pub get_or_create_account-Keeps : (want : Identity) → Keeps Q (get_or_create_account want)
  get_or_create_account-Keeps want =
      get_or_create_account-Keeps_by add_account-Keeps fresh_id-Keeps want

  pub account_balance_minor-Keeps : (a : LedgerAccount) → Keeps Q (account_balance_minor a)
  unfolding account_balance_minor
  account_balance_minor-Keeps a = search keeps_rules

pub ruleset ledger_rules = (
  keeps_rules, Frame-Quiet, fresh_id-Keeps, post_journal-Keeps, get_or_create_account-Keeps,
  account_balance_minor-Keeps,
)
