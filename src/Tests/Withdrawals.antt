-- ===== src/Tests/Withdrawals.antt =====
-- The payout theorems: 40 of a wallet with 90, and given back when the provider fails.
use freelancing_platform.Prelude.{◌≡◌, refl, none, some, [], ◌∷◌}
use freelancing_platform.Prelude.Int.{pos}
use freelancing_platform.Database.Rows.Ledger.{
  LedgerAccount, JournalTransaction, milestone_release, ref_milestone, payout, ref_payout,
}
use freelancing_platform.Database.Rows.Payment.{payout_failed_body}
use freelancing_platform.Database.Rows.Payout.{Payout}
use freelancing_platform.Database.Tables.{Db}
use freelancing_platform.Ledger.{new_account, entries_of}
use freelancing_platform.Ledger.Transfer.{transfer}
use freelancing_platform.Payments.Capture.{clearing_identity, escrow_identity}
use freelancing_platform.Payments.Release.{wallet_identity}
use freelancing_platform.Payouts.{PayoutOrder, new_payout, wallet_in, reserve_payout}
use freelancing_platform.Payouts.Settle.{restore_wallet}
use freelancing_platform.Payouts.Reserved.{IsTakenOut, reserve_payout-IsTakenOut}
use freelancing_platform.Payouts.Restored.{
  IsGivenBack, payout_wallet_in, payout_clearing_in, restore_wallet-IsGivenBack,
}
use freelancing_platform.Tests.Opened.{services_run}
use freelancing_platform.Tests.Fixtures.{demo_env, demo_milestone, demo_db, open_key, session_at}

abbrev wallet : LedgerAccount
wallet = new_account (wallet_identity 20 9) 1007

abbrev clearing : LedgerAccount
clearing = new_account (clearing_identity 1 9) 1005

abbrev earned : JournalTransaction
earned = record {
  id = 1009;
  operation = milestone_release;
  reference_type = ref_milestone;
  reference_id = 3;
  reversal_of_id = none;
  entries =
      entries_of 9 (transfer (new_account (escrow_identity demo_milestone) 1003) wallet (pos 90));
}

abbrev earned_db : Db
earned_db = record demo_db {
  ledger_accounts = wallet ∷ clearing ∷ [];
  journal_transactions = earned ∷ [];
  next_id = 1010;
}

abbrev demo_order : PayoutOrder
demo_order = record { user = 20; amount = pos 40; currency = 9; provider_name = 1 }

abbrev taken : JournalTransaction
taken = record {
  id = 1011;
  operation = payout;
  reference_type = ref_payout;
  reference_id = 1010;
  reversal_of_id = none;
  entries = entries_of 9 (transfer wallet clearing (pos 40));
}

abbrev demo_payout : Payout
demo_payout = new_payout 1010 demo_order 20 open_key taken

reserve_payout-IsTakenOut_example :
    (w : LedgerAccount) × (c : LedgerAccount) × (wallet_in 20 9 earned_db ≡ some w)
    × IsTakenOut demo_order w c earned_db
        (reserve_payout demo_env open_key demo_order (session_at earned_db)).1.saved
unfolding services_run
reserve_payout-IsTakenOut_example =
    reserve_payout-IsTakenOut demo_env open_key demo_order (session_at earned_db) demo_payout refl
      (λ id h. refl)

abbrev paying_db : Db
paying_db = record earned_db {
  journal_transactions = taken ∷ earned ∷ [];
  payouts = demo_payout ∷ [];
  idempotency_keys = open_key ∷ [];
  next_id = 1012;
}

restore_wallet-IsGivenBack_example :
    (w : LedgerAccount) × (c : LedgerAccount) × (payout_wallet_in demo_payout paying_db ≡ some w)
    × (payout_clearing_in demo_payout paying_db ≡ some c)
    × IsGivenBack demo_payout w c paying_db
        (restore_wallet demo_env demo_payout 20 (session_at paying_db)).1.saved
unfolding services_run
restore_wallet-IsGivenBack_example =
    restore_wallet-IsGivenBack demo_env demo_payout 20 (session_at paying_db)
      (payout_failed_body 1010, 502) refl refl
