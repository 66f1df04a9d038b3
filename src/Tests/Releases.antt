-- ===== src/Tests/Releases.antt =====
-- The release theorems on a milestone of 100 at a commission of 10 %.
use freelancing_platform.Prelude.{
  ◌≡◌, ◌≢◌, ◌↔◌, refl, true, some, ◌∷◌, ◌<◌, ◌≤◌, ◌*◌, ◌+◌, ℕ, arith,
}
use freelancing_platform.Prelude.Int.{pos}
use freelancing_platform.Database.Rows.Contract.{released, approved, same_status}
use freelancing_platform.Database.Rows.Payment.{MilestoneEscrow, financial_body}
use freelancing_platform.Database.Environment.{ok}
use freelancing_platform.Ledger.{new_account}
use freelancing_platform.Ledger.Journal.{IsAccepted}
use freelancing_platform.Payments.Queries.{Answer}
use freelancing_platform.Payments.Capture.{escrow_identity}
use freelancing_platform.Payments.Release.{
  ReleaseAccounts, commission, release_postings, wallet_identity, platform_identity, book_release,
  release_approved,
}
use freelancing_platform.Payments.Release.Split.{commission_bounds, release-IsAccepted_iff}
use freelancing_platform.Payments.Release.Guards.{
  IsReleased, release_approved-IsPaid, full_commission_blocks,
}
use freelancing_platform.Payments.Release.Progress.{HasReleased, release_goes_through}
use freelancing_platform.Database.Tables.{Db}
use freelancing_platform.Tests.Opened.{services_run}
use freelancing_platform.Tests.Fixtures.{
  demo_env, demo_contract, demo_milestone, approved_milestone, approved_db, open_key, session_at,
}

abbrev pub released_answer : Answer
released_answer = (financial_body 3 released (pos 100) 9 (pos 0) (some 1000), 200)

release_approved-IsPaid_example :
    (same_status approved_milestone.status approved ≡ true)
    × IsReleased approved_milestone demo_contract approved_db
        (release_approved demo_env open_key approved_milestone demo_contract 10
          (session_at approved_db)).1.saved
unfolding services_run
release_approved-IsPaid_example =
    release_approved-IsPaid demo_env open_key approved_milestone demo_contract 10
      (session_at approved_db) released_answer refl refl

commission_bounds_example :
    (fee : ℕ) × (commission (pos 105) 1000 ≡ pos fee)
    × (fee * 10000 ≤ 105 * 1000)
    × (105 * 1000 < fee * 10000 + 10000)
    × (fee ≤ 105)
commission_bounds_example = commission_bounds 105 1000 (omega arith)

abbrev demo_accounts : ReleaseAccounts
demo_accounts = record {
  escrow = new_account (escrow_identity demo_milestone) 1;
  wallet = new_account (wallet_identity 20 9) 2;
  platform = new_account (platform_identity 9) 3;
}

release-IsAccepted_iff_example :
    IsAccepted 9 (release_postings demo_accounts (pos 100) (commission (pos 100) 10000))
    ↔ ((0 < 100) × (10000 < 10000))
release-IsAccepted_iff_example =
    release-IsAccepted_iff 9 demo_accounts 100 10000 (refl, refl, refl) (omega arith)

abbrev full_commission : MilestoneEscrow
full_commission = record {
  id = 4;
  milestone_id = 3;
  escrow_account_id = 1003;
  commission_bps = 10000;
}

full_commission_blocks_example :
    (book_release demo_env open_key approved_milestone demo_contract full_commission
      demo_accounts.escrow 10
      (session_at approved_db)).0
    ≢ ok released_answer
full_commission_blocks_example =
    full_commission_blocks demo_env open_key approved_milestone demo_contract 10
      (session_at approved_db) released_answer full_commission demo_accounts.escrow 100 refl refl

abbrev releasable_db : Db
releasable_db = record approved_db {
  ledger_accounts = demo_accounts.wallet ∷ demo_accounts.platform ∷ approved_db.ledger_accounts;
}

abbrev demo_escrow : MilestoneEscrow
demo_escrow = record {
  id = 1004;
  milestone_id = 3;
  escrow_account_id = 1003;
  commission_bps = 1000;
}

abbrev releasable_accounts : ReleaseAccounts
releasable_accounts = record demo_accounts {
  escrow = new_account (escrow_identity demo_milestone) 1003;
}

release_goes_through_example :
    HasReleased approved_milestone (
      release_approved demo_env open_key approved_milestone demo_contract 10
        (session_at releasable_db))
    × IsReleased approved_milestone demo_contract releasable_db
        (release_approved demo_env open_key approved_milestone demo_contract 10
          (session_at releasable_db)).1.saved
unfolding services_run
release_goes_through_example =
    release_goes_through demo_env open_key approved_milestone demo_contract 100 demo_escrow
      releasable_accounts 10 (session_at releasable_db)
      (record {
        is_approved = refl;
        row = refl;
        unposted = refl;
        amount = refl;
        positive = omega arith;
        has_escrow = record { escrow = refl; account = refl };
        full = refl;
        wallet = record { found = refl; identity = refl };
        platform = record { found = refl; identity = refl };
        one_currency = (refl, refl, refl);
        commission = omega arith;
      })
