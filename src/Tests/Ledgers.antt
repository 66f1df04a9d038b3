-- ===== src/Tests/Ledgers.antt =====
-- The ledger's theorems on three accounts.
use freelancing_platform.Prelude.{◌≡◌, ◌↔◌, refl, ◌⊎◌, none}
use freelancing_platform.Prelude.Int.{pos, ◌+ℤ◌, ◌≤ℤ◌}
use freelancing_platform.Database.Rows.Texts.{Uuid}
use freelancing_platform.Database.Rows.Ledger.{LedgerAccount, milestone_fund, ref_payment_intent}
use freelancing_platform.Database.Environment.{ok}
use freelancing_platform.Database.Session.{Session}
use freelancing_platform.Ledger.{
  check_postings, JournalRequest, post_journal, balance, new_account, get_or_create_account,
}
use freelancing_platform.Ledger.Journal.{IsAccepted, check_postings_iff}
use freelancing_platform.Ledger.Outcome.{
  journal_of, after_insert, posted_before, post_journal_cases,
}
use freelancing_platform.Ledger.Account.{IsStored, get_or_create_account-IsStored}
use freelancing_platform.Ledger.Transfer.{transfer, moved, transfer_posted}
use freelancing_platform.Payments.Capture.{clearing_identity, escrow_identity}
use freelancing_platform.Tests.Opened.{services_run}
use freelancing_platform.Tests.Fixtures.{demo_milestone, demo_db, session_at}

abbrev clearing : LedgerAccount
clearing = new_account (clearing_identity 1 9) 1

abbrev escrow : LedgerAccount
escrow = new_account (escrow_identity demo_milestone) 2

abbrev demo_request : JournalRequest
demo_request = record {
  operation = milestone_fund;
  reference_type = ref_payment_intent;
  reference_id = 40;
  reversal_of_id = none;
  postings = transfer clearing escrow (pos 100);
}

check_postings_iff_example :
    ((check_postings (transfer clearing escrow (pos 100)) (session_at demo_db)).0 ≡ ok 9)
    ↔ IsAccepted 9 (transfer clearing escrow (pos 100))
check_postings_iff_example =
    check_postings_iff 9 (transfer clearing escrow (pos 100)) (session_at demo_db)

post_journal_cases_example :
    ((post_journal demo_request (session_at demo_db)).1 ≡ session_at demo_db)
    ⊎ ((c : Uuid) × IsAccepted c demo_request.postings
        × (posted_before demo_request (session_at demo_db) ≡ none)
        × ((post_journal demo_request (session_at demo_db)).1
            ≡ after_insert demo_request c (session_at demo_db)))
post_journal_cases_example = post_journal_cases demo_request (session_at demo_db)

transfer-IsAccepted : IsAccepted 9 (transfer clearing escrow (pos 100))
unfolding services_run
transfer-IsAccepted = check_postings_iff_example.0 refl

abbrev posted_session : Session
posted_session = after_insert demo_request 9 (session_at demo_db)

transfer_posted_example :
    (pos 1 ≤ℤ pos 100)
    × ((x : Uuid)
        → balance x (post_journal demo_request (session_at demo_db)).1.live
          ≡ moved x clearing escrow (pos 100) +ℤ balance x demo_db)
unfolding services_run
transfer_posted_example =
    transfer_posted demo_request clearing escrow (pos 100) (session_at demo_db)
      (journal_of demo_request 9 (session_at demo_db)) refl refl refl

get_or_create_account-IsStored_example :
    IsStored
      (escrow_identity demo_milestone)
      (new_account (escrow_identity demo_milestone) 1000)
      (get_or_create_account (escrow_identity demo_milestone) (session_at demo_db)).1
unfolding services_run
get_or_create_account-IsStored_example =
    get_or_create_account-IsStored (escrow_identity demo_milestone)
      (new_account (escrow_identity demo_milestone) 1000) (session_at demo_db) refl
