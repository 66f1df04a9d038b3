-- ===== src/Tests/Reconciliation.antt =====
-- The theorems on reconciliation, on one captured payment that the provider confirms.
use freelancing_platform.Prelude.{◌≡◌, refl, some, [], ◌∷◌}
use freelancing_platform.Prelude.Int.{pos}
use freelancing_platform.Database.Rows.Payment.{
  PaymentIntent, captured, ReconciliationRun, run_succeeded,
}
use freelancing_platform.Database.Tables.{Db}
use freelancing_platform.Database.Environment.{PaymentProvider, ok}
use freelancing_platform.Database.Session.{Session}
use freelancing_platform.Payments.Queries.{get_provider}
use freelancing_platform.Payments.Reconcile.Reported.{IsReport, reconcile_provider-IsReport}
use freelancing_platform.Tests.Opened.{services_run}
use freelancing_platform.Tests.Fixtures.{demo_env, demo_db, nobody}

abbrev paid_intent : PaymentIntent
paid_intent = record {
  id = 40;
  milestone_id = 3;
  employer_user_id = 10;
  provider = 1;
  provider_reference = some 50;
  idempotency_key_id = 500;
  amount_minor = pos 100;
  currency = 9;
  status = captured;
  captured_at = some 7;
}

abbrev paid_db : Db
paid_db = record demo_db {
  payment_intents = paid_intent ∷ [];
  milestone_fundings =
      record {
        id = 41;
        escrow_id = 4;
        payment_intent_id = 40;
        journal_transaction_id = 42;
        amount_minor = pos 100;
      }
      ∷ [];
}

abbrev paid_session : Session
paid_session = record { saved = paid_db; live = paid_db; arriving = nobody }

abbrev clean_run : ReconciliationRun
clean_run = record {
  id = paid_db.next_id;
  provider = 1;
  status = run_succeeded;
  checked_count = 1;
  discrepancy_count = 0;
  details = [];
  completed_at = some demo_env.now;
}

reconcile_provider-IsReport_example :
    (p : PaymentProvider) × (get_provider demo_env 1 paid_session ≡ (ok p, paid_session))
    × IsReport p (paid_intent ∷ []) paid_db.milestone_fundings clean_run
unfolding services_run
reconcile_provider-IsReport_example =
    reconcile_provider-IsReport demo_env 1 paid_session clean_run refl
