-- ===== src/Tests/Disputes.antt =====
-- The theorems on disputes, on a milestone of 100 that is disputed and split 60 to 40.
use freelancing_platform.Prelude.{◌≡◌, ◌↔◌, refl, true, none, some, [], ◌∷◌}
use freelancing_platform.Prelude.Int.{pos}
use freelancing_platform.Database.Rows.Ledger.{
  JournalTransaction, debit, credit, milestone_fund, ref_payment_intent,
}
use freelancing_platform.Database.Rows.Contract.{Contract, Milestone, submitted, disputed}
use freelancing_platform.Database.Rows.Dispute.{
  User, admin, Dispute, DisputeDecision, dispute_open, evidence_collection, under_review, resolved,
  same_dispute_status, split,
}
use freelancing_platform.Database.Rows.Payment.{
  PaymentIntent, captured, FinancialIdempotencyKey, dispute_operation, dispute_body,
}
use freelancing_platform.Database.Tables.{Db}
use freelancing_platform.Database.Environment.{ok}
use freelancing_platform.Ledger.{new_account}
use freelancing_platform.Payments.Queries.{Answer}
use freelancing_platform.Payments.Queries.Found.{milestone_in, IsContractOf}
use freelancing_platform.Payments.Capture.{escrow_identity}
use freelancing_platform.Disputes.{open_dispute, new_dispute}
use freelancing_platform.Disputes.Review.{admin_transition, moved_to}
use freelancing_platform.Disputes.Amounts.{Amounts, resolution_amounts}
use freelancing_platform.Disputes.Split.{Divides, Asks, resolution_amounts_iff}
use freelancing_platform.Disputes.Resolve.{
  Resolution, resolved_dispute, serialize_dispute, resolve_claimed,
}
use freelancing_platform.Disputes.Decided.{IsDecided, resolve_claimed-IsDecided}
use freelancing_platform.Disputes.Frozen.{IsOpened, open_dispute-IsOpened}
use freelancing_platform.Disputes.Blocked.{IsBlocked, disputed-IsBlocked}
use freelancing_platform.Disputes.Reviewed.{
  Resolving, resolve, admin_step, resolve_step, History, done, step, Visits, resolved_was_reviewed,
  dispute_in, IsReviewed, admin_transition-IsReviewed,
}
use freelancing_platform.Tests.Opened.{services_run}
use freelancing_platform.Tests.Fixtures.{
  demo_env, demo_contract, demo_db, demo_milestone, open_key, session_at,
}

abbrev split_60_40 : Amounts
split_60_40 = record { award = pos 60; refund = pos 40 }

resolution_amounts_iff_example :
    ((resolution_amounts split (pos 100) (some (pos 60)) (some (pos 40)) (session_at demo_db)).0
      ≡ ok split_60_40)
    ↔ (Divides split (pos 100) split_60_40 × Asks split (some (pos 60)) (some (pos 40)) split_60_40)
resolution_amounts_iff_example =
    resolution_amounts_iff (pos 100) split_60_40 (session_at demo_db) split (some (pos 60))
      (some (pos 40))

abbrev late_milestone : Milestone
late_milestone = record demo_milestone { status = submitted }

abbrev frozen_milestone : Milestone
frozen_milestone = record demo_milestone { status = disputed }

disputed-IsBlocked_example :
    IsBlocked demo_env open_key demo_contract 10 1 (session_at demo_db) frozen_milestone
disputed-IsBlocked_example =
    disputed-IsBlocked demo_env open_key demo_contract 10 1 (session_at demo_db) frozen_milestone
      refl

abbrev employer : User
employer = record { id = 10; roles = [] }

abbrev administrator : User
administrator = record { id = 30; roles = admin ∷ [] }

abbrev late_db : Db
late_db = record demo_db { milestones = late_milestone ∷ [] }

abbrev filed_dispute : Dispute
filed_dispute = new_dispute 1000 employer late_milestone demo_contract 8

open_dispute-IsOpened_example :
    (m : Milestone) × (c : Contract) × (milestone_in 3 late_db ≡ some m)
    × IsContractOf m c late_db
    × IsOpened employer m c 8 filed_dispute late_db
        (open_dispute demo_env employer 3 8 (session_at late_db)).1.saved
unfolding services_run
open_dispute-IsOpened_example =
    open_dispute-IsOpened demo_env employer 3 8 (session_at late_db) filed_dispute refl

abbrev filed_db : Db
filed_db = record demo_db { milestones = frozen_milestone ∷ []; disputes = filed_dispute ∷ [] }

abbrev opened_evidence : Dispute
opened_evidence = moved_to administrator evidence_collection frozen_milestone 8 filed_dispute

admin_transition-IsReviewed_example :
    (d : Dispute) × (dispute_in 1000 filed_db ≡ some d)
    × IsReviewed demo_env administrator 41 d opened_evidence filed_db
        (admin_transition demo_env administrator 1000 41 8 (session_at filed_db)).1.saved
unfolding services_run
admin_transition-IsReviewed_example =
    admin_transition-IsReviewed demo_env administrator 1000 41 8 (session_at filed_db)
      opened_evidence refl

abbrev reviewed_dispute : Dispute
reviewed_dispute = record filed_dispute { status = under_review }

abbrev funding_journal : JournalTransaction
funding_journal = record {
  id = 42;
  operation = milestone_fund;
  reference_type = ref_payment_intent;
  reference_id = 40;
  reversal_of_id = none;
  entries =
      record { ledger_account_id = 5; direction = debit; amount_minor = pos 100; currency = 9 }
      ∷ record { ledger_account_id = 6; direction = credit; amount_minor = pos 100; currency = 9 }
      ∷ [];
}

abbrev paid_intent : PaymentIntent
paid_intent = record {
  id = 40;
  milestone_id = 3;
  employer_user_id = 10;
  provider = 1;
  provider_reference = some 50;
  idempotency_key_id = 499;
  amount_minor = pos 100;
  currency = 9;
  status = captured;
  captured_at = some 7;
}

abbrev disputed_db : Db
disputed_db = record demo_db {
  milestones = frozen_milestone ∷ [];
  ledger_accounts = new_account (escrow_identity demo_milestone) 6 ∷ [];
  journal_transactions = funding_journal ∷ [];
  payment_intents = paid_intent ∷ [];
  milestone_escrows =
      record { id = 4; milestone_id = 3; escrow_account_id = 6; commission_bps = 1000 } ∷ [];
  disputes = reviewed_dispute ∷ [];
  next_id = 2000;
}

abbrev resolving_key : FinancialIdempotencyKey
resolving_key = record open_key { user_id = 30; operation = dispute_operation }

abbrev the_resolution : Resolution
the_resolution = record {
  key = resolving_key;
  administrator = administrator;
  dispute = reviewed_dispute;
  milestone = frozen_milestone;
  outcome = split;
  reason = 8;
  idempotency_key = 5;
}

-- The accounts take the ids 2000 to 2002, the journal 2003, the refund 2004.
abbrev the_decision : DisputeDecision
the_decision = record {
  id = 2005;
  administrator_user_id = 30;
  outcome = split;
  freelancer_award_minor = pos 60;
  freelancer_net_minor = pos 54;
  client_refund_minor = pos 40;
  commission_minor = pos 6;
  currency = 9;
  journal_transaction_id = 2003;
  refund_id = some 2004;
  reason = 8;
}

abbrev resolved_answer : Answer
resolved_answer =
    (dispute_body (serialize_dispute (resolved_dispute demo_env the_resolution the_decision)), 200)

resolve_claimed-IsDecided_example :
    (reviewed_dispute.decision ≡ none)
    × (same_dispute_status reviewed_dispute.status under_review ≡ true)
    × (o : Resolution) × (o.dispute ≡ reviewed_dispute)
    × (demo_env.outcome_named 33 ≡ some o.outcome)
    × (milestone_in 3 disputed_db ≡ some o.milestone)
    × IsDecided demo_env o
        (some (pos 60))
        (some (pos 40))
        disputed_db
        (resolve_claimed demo_env resolving_key administrator reviewed_dispute 33 8
          (some (pos 60))
          (some (pos 40))
          5
          (session_at disputed_db)).1.saved
unfolding services_run
resolve_claimed-IsDecided_example =
    resolve_claimed-IsDecided demo_env (session_at disputed_db) resolved_answer (some (pos 60))
      (some (pos 40)) resolving_key administrator reviewed_dispute 33 8 5 refl refl

abbrev demo_resolving : Resolving
demo_resolving = record {
  env = demo_env;
  key = resolving_key;
  administrator = administrator;
  dispute = reviewed_dispute;
  outcome = 33;
  reason = 8;
  award = some (pos 60);
  refund = some (pos 40);
  idempotency_key = 5;
  session = session_at disputed_db;
}

resolving_returns : (resolve demo_resolving).0 ≡ ok resolved_answer
unfolding services_run
resolving_returns = refl

abbrev short_dispute : History dispute_open resolved
short_dispute =
    step dispute_open evidence_collection resolved
      (admin_step dispute_open evidence_collection refl)
      (step evidence_collection under_review resolved
        (admin_step evidence_collection under_review refl)
        (step under_review resolved resolved
          (resolve_step under_review demo_resolving resolved_answer refl resolving_returns)
          (done resolved)))

resolved_was_reviewed_example :
    Visits evidence_collection dispute_open resolved short_dispute
    × Visits under_review dispute_open resolved short_dispute
resolved_was_reviewed_example = resolved_was_reviewed short_dispute
