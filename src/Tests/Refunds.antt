-- ===== src/Tests/Refunds.antt =====
-- The refund theorems: 100 reserved out of the escrow, and given back when the provider fails.
use freelancing_platform.Prelude.{◌≡◌, refl, true, none, some, [], ◌∷◌}
use freelancing_platform.Prelude.Int.{pos}
use freelancing_platform.Database.Rows.Ledger.{
  LedgerAccount, JournalTransaction, milestone_fund, ref_payment_intent, milestone_refund,
  ref_refund,
}
use freelancing_platform.Database.Rows.Contract.{funded, same_status}
use freelancing_platform.Database.Rows.Payment.{
  PaymentIntent, captured, MilestoneEscrow, Refund, refund_failed_body,
}
use freelancing_platform.Database.Tables.{Db}
use freelancing_platform.Ledger.{balance, new_account, entries_of}
use freelancing_platform.Ledger.Transfer.{transfer}
use freelancing_platform.Payments.Queries.Found.{escrow_in, account_in}
use freelancing_platform.Payments.Capture.{clearing_identity, escrow_identity}
use freelancing_platform.Payments.Refund.{new_refund, reserve_refund}
use freelancing_platform.Payments.Refund.Reservation.{IsReserved, reserve_refund-IsReserved}
use freelancing_platform.Payments.Settle.{restore_escrow}
use freelancing_platform.Payments.Settle.Restored.{
  IsReversed, clearing_in, restore_escrow-IsReversed,
}
use freelancing_platform.Tests.Opened.{services_run}
use freelancing_platform.Tests.Fixtures.{
  demo_env, demo_milestone, demo_db, funded_milestone, open_key, session_at,
}

abbrev paid_intent : PaymentIntent
paid_intent = record {
  id = 1001;
  milestone_id = 3;
  employer_user_id = 10;
  provider = 1;
  provider_reference = some 50;
  idempotency_key_id = 1000;
  amount_minor = pos 100;
  currency = 9;
  status = captured;
  captured_at = some 100;
}

abbrev demo_escrow : MilestoneEscrow
demo_escrow = record {
  id = 1004;
  milestone_id = 3;
  escrow_account_id = 1003;
  commission_bps = 1000;
}

abbrev escrow : LedgerAccount
escrow = new_account (escrow_identity demo_milestone) 1003

abbrev clearing : LedgerAccount
clearing = new_account (clearing_identity 1 9) 1005

abbrev capture_journal : JournalTransaction
capture_journal = record {
  id = 1006;
  operation = milestone_fund;
  reference_type = ref_payment_intent;
  reference_id = 1001;
  reversal_of_id = none;
  entries = entries_of 9 (transfer clearing escrow (pos 100));
}

-- The rows once the payment is in escrow.
abbrev escrowed_db : Db
escrowed_db = record demo_db {
  milestones = funded_milestone ∷ [];
  ledger_accounts = clearing ∷ escrow ∷ [];
  milestone_escrows = demo_escrow ∷ [];
  payment_intents = paid_intent ∷ [];
  journal_transactions = capture_journal ∷ [];
  next_id = 1010;
}

abbrev reservation : JournalTransaction
reservation = record {
  id = 1011;
  operation = milestone_refund;
  reference_type = ref_refund;
  reference_id = 1010;
  reversal_of_id = none;
  entries = entries_of 9 (transfer escrow clearing (pos 100));
}

abbrev reserved_refund : Refund
reserved_refund = new_refund 1010 funded_milestone 10 reservation open_key 1 (pos 100)

reserve_refund-IsReserved_example :
    (same_status funded_milestone.status funded ≡ true)
    × (e : MilestoneEscrow) × (a : LedgerAccount) × (c : LedgerAccount) × (escrow_in 3 escrowed_db
        ≡ some e)
    × (account_in e.escrow_account_id escrowed_db ≡ some a)
    × IsReserved funded_milestone 1
        (balance a.id escrowed_db)
        a
        c
        escrowed_db
        (reserve_refund demo_env open_key funded_milestone 10 1 (session_at escrowed_db)).1.saved
unfolding services_run
reserve_refund-IsReserved_example =
    reserve_refund-IsReserved demo_env open_key funded_milestone 10 1 (session_at escrowed_db)
      (record { refund = reserved_refund; funding_intent = paid_intent }) refl (λ id h. refl)

abbrev pending_db : Db
pending_db = record escrowed_db {
  journal_transactions = reservation ∷ capture_journal ∷ [];
  refunds = reserved_refund ∷ [];
  idempotency_keys = open_key ∷ [];
  next_id = 1012;
}

restore_escrow-IsReversed_example :
    (row : MilestoneEscrow) × (a : LedgerAccount) × (c : LedgerAccount) × (escrow_in 3 pending_db
      ≡ some row)
    × (account_in row.escrow_account_id pending_db ≡ some a)
    × (clearing_in reserved_refund pending_db ≡ some c)
    × IsReversed reserved_refund a c pending_db
        (restore_escrow demo_env reserved_refund 10 (session_at pending_db)).1.saved
unfolding services_run
restore_escrow-IsReversed_example =
    restore_escrow-IsReversed demo_env reserved_refund 10 (session_at pending_db)
      (refund_failed_body 1010, 502) refl refl
