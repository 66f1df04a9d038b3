-- ===== src/Tests/Funding.antt =====
-- The theorems on histories of calls, and on the capture of a payment of 100.
use freelancing_platform.Prelude.{◌≡◌, refl, none, some, []}
use freelancing_platform.Prelude.Int.{pos}
use freelancing_platform.Database.Rows.Ledger.{LedgerAccount}
use freelancing_platform.Database.Rows.Contract.{funded}
use freelancing_platform.Database.Rows.Payment.{PaymentIntent, intent_pending, financial_body}
use freelancing_platform.Database.Environment.{api, forbidden}
use freelancing_platform.Ledger.{new_account}
use freelancing_platform.Payments.Capture.{OpenEscrow, escrow_identity, book_capture}
use freelancing_platform.Payments.Capture.Booked.{IsBooked, book_capture-IsBooked}
use freelancing_platform.Payments.Requests.{fund, reconcile, serve}
use freelancing_platform.Payments.Quiet.{asking_moves_no_money}
use freelancing_platform.Payments.Atomic.{raised_calls_write_nothing}
use freelancing_platform.Tests.Opened.{services_run}
use freelancing_platform.Tests.Fixtures.{demo_env, demo_db, demo_milestone, nobody, session_at}

-- The freelancer may not fund.
raised_calls_write_nothing_example : serve demo_env nobody (fund 20 3 1 5) demo_db ≡ demo_db
unfolding services_run
raised_calls_write_nothing_example =
    raised_calls_write_nothing demo_env nobody (fund 20 3 1 5) demo_db (api forbidden 403) refl refl

abbrev demo_intent : PaymentIntent
demo_intent = record {
  id = 40;
  milestone_id = 3;
  employer_user_id = 10;
  provider = 1;
  provider_reference = some 50;
  idempotency_key_id = 500;
  amount_minor = pos 100;
  currency = 9;
  status = intent_pending;
  captured_at = none;
}

abbrev opened : OpenEscrow
opened = record {
  escrow = record { id = 4; milestone_id = 3; escrow_account_id = 1; commission_bps = 1000 };
  account = new_account (escrow_identity demo_milestone) 1;
}

book_capture-IsBooked_example :
    (clearing : LedgerAccount) × IsBooked demo_intent demo_milestone opened.account clearing demo_db
      (book_capture demo_env demo_intent none demo_milestone opened (session_at demo_db)).1.live
unfolding services_run
book_capture-IsBooked_example =
    book_capture-IsBooked demo_env demo_intent none demo_milestone opened (session_at demo_db)
      (financial_body 3 funded (pos 100) 9 (pos 0) none) refl refl

asking_moves_no_money_example :
    ((serve demo_env nobody (fund 10 3 1 5) demo_db).journal_transactions ≡ [])
    × ((serve demo_env nobody (reconcile 1) demo_db).journal_transactions ≡ [])
asking_moves_no_money_example = asking_moves_no_money demo_env nobody demo_db 10 3 1 5
