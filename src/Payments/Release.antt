-- ===== src/Payments/Release.antt =====
-- `release_milestone` of app/payments/service.py.
pub mod Split
pub mod Paid
pub mod Guards
pub mod Progress
pub mod Completed
pub mod Retried
use freelancing_platform.Prelude.{
  ℕ, not, none, some, List, [], ◌∷◌, ◌++◌, ◌*◌, ◌/◌, ◌+◌, suc, if◌then◌else◌,
}
use freelancing_platform.Prelude.Int.{ℤ, pos, negsuc, sub_ℕ, ◌-ℤ◌, ◌==ℤ◌}
use freelancing_platform.Database.Rows.Texts.{Text, Uuid}
use freelancing_platform.Database.Rows.Ledger.{
  freelancer_wallet, platform_commission, wallet_key, commission_key, LedgerAccount,
  JournalTransaction, debit, credit, milestone_release, ref_milestone,
}
use freelancing_platform.Database.Rows.Contract.{
  Contract, approved, release_pending, released, same_status, Milestone,
}
use freelancing_platform.Database.Rows.Payment.{
  FinancialIdempotencyKey, MilestoneEscrow, release_operation,
}
use freelancing_platform.Database.Rows.Event.{milestone_released, milestone_released_action}
use freelancing_platform.Database.Environment.{
  Environment, api, invalid_transition, escrow_not_fully_funded, release_payload,
}
use freelancing_platform.Database.Session.{Action, pure, ◌>>=◌, ◌>>◌, raise_if, commit}
use freelancing_platform.Ledger.{
  Posting, Identity, get_or_create_account, JournalRequest, post_journal, account_balance_minor,
}
use freelancing_platform.Payments.Effects.{save_milestone, enqueue_outbox_event, record_audit_event}
use freelancing_platform.Payments.Queries.{
  Answer, get_milestone, contract_of, require_active_contract, require_employer, require_escrow,
  escrow_account_of, financial_state, milestone_audit_state,
}
use freelancing_platform.Payments.Idempotency.{
  claim_idempotency, complete_idempotency, stored_answer, answer_or,
}

-- `amount_minor * commission_bps // 10000`, which rounds down, below zero too.
unfoldable pub commission : ℤ → ℕ → ℤ
commission (pos n) bps = pos (n * bps / 10000)
commission (negsuc n) bps = sub_ℕ 0 ((suc n * bps + 9999) / 10000)

abbrev pub wallet_identity : Uuid → Text → Identity
wallet_identity user currency = record {
  account_key = wallet_key user currency;
  account_type = freelancer_wallet;
  currency = currency;
  owner_user_id = some user;
  milestone_id = none;
}

abbrev pub platform_identity : Text → Identity
platform_identity currency = record {
  account_key = commission_key currency;
  account_type = platform_commission;
  currency = currency;
  owner_user_id = none;
  milestone_id = none;
}

-- The accounts of a release.
pub record ReleaseAccounts : Type 0 where
  pub escrow : LedgerAccount
  pub wallet : LedgerAccount
  pub platform : LedgerAccount

-- The three postings, or two where there is no fee.
abbrev pub release_postings : ReleaseAccounts → ℤ → ℤ → List Posting
release_postings accounts amount fee =
    record { account = accounts.escrow; direction = debit; amount_minor = amount }
    ∷ record { account = accounts.wallet; direction = credit; amount_minor = amount -ℤ fee }
    ∷ (if fee ==ℤ pos 0
        then []
        else record { account = accounts.platform; direction = credit; amount_minor = fee } ∷ [])

abbrev pub release_request : Milestone → ReleaseAccounts → ℕ → JournalRequest
release_request m accounts bps = record {
  operation = milestone_release;
  reference_type = ref_milestone;
  reference_id = m.id;
  reversal_of_id = none;
  postings = release_postings accounts m.amount_minor (commission m.amount_minor bps);
}

-- Two events, through RELEASE_PENDING to RELEASED.
abbrev pub released_by : Uuid → Milestone → Milestone
released_by user m = record m {
  status = released;
  events =
      m.events
      ++ record { actor_user_id = some user; from_status = approved; to_status = release_pending }
        ∷ record { actor_user_id = some user; from_status = release_pending; to_status = released }
        ∷ [];
}

module _ (env : Environment) where
  -- The part of `release_milestone` from the posted journal on.
  unfoldable pub finish_release :
      FinancialIdempotencyKey → Milestone → Uuid → JournalTransaction → Action Answer
  finish_release idem m user journal = do
    let m' = released_by user m
    save_milestone m'
    enqueue_outbox_event (milestone_released m.id journal.id)
    record_audit_event env milestone_released_action m.id (some user)
        (some (milestone_audit_state m)) (some (milestone_audit_state m'))
    body ← financial_state m'
    complete_idempotency idem 200 body
    commit
    pure (body, 200)

  -- The part from the accounts to the journal.
  unfoldable pub book_release :
      FinancialIdempotencyKey
      → Milestone
      → Contract
      → MilestoneEscrow
      → LedgerAccount
      → Uuid
      → Action Answer
  book_release idem m c escrow escrow_account user = do
    wallet ← get_or_create_account (wallet_identity c.freelancer_user_id m.currency)
    platform ← get_or_create_account (platform_identity m.currency)
    let accounts : ReleaseAccounts = record {
      escrow = escrow_account;
      wallet = wallet;
      platform = platform;
    }
    journal ← post_journal (release_request m accounts escrow.commission_bps)
    finish_release idem m user journal

  unfoldable pub release_approved :
      FinancialIdempotencyKey → Milestone → Contract → Uuid → Action Answer
  release_approved idem m c user = do
    raise_if (not (same_status m.status approved)) (api invalid_transition 409)
    escrow ← require_escrow m.id
    escrow_account ← escrow_account_of escrow
    balance ← account_balance_minor escrow_account
    raise_if (not (balance ==ℤ m.amount_minor)) (api escrow_not_fully_funded 409)
    book_release idem m c escrow escrow_account user

  unfoldable pub report_released : FinancialIdempotencyKey → Milestone → Action Answer
  report_released idem m = do
    body ← financial_state m
    complete_idempotency idem 200 body
    commit
    pure (body, 200)

  unfoldable pub release_claimed :
      FinancialIdempotencyKey → Milestone → Contract → Uuid → Action Answer
  release_claimed idem m c user =
      if same_status m.status released
      then report_released idem m
      else release_approved idem m c user

  -- user, milestone, idempotency key
  unfoldable pub release_milestone : Uuid → Uuid → Text → Action Answer
  release_milestone user milestone_id idempotency_key = do
    m ← get_milestone milestone_id
    c ← contract_of m
    require_active_contract c
    require_employer user c
    claim ← claim_idempotency env user release_operation idempotency_key (release_payload m.id)
    answer_or (stored_answer claim) (release_claimed claim.key m c user)
