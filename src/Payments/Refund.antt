-- ===== src/Payments/Refund.antt =====
-- `refund_milestone` of app/payments/service.py: reserve, ask the provider, then settle or restore.
pub mod Reservation
use freelancing_platform.Prelude.{false, not, Option, none, some, [], ◌∷◌, ◌==◌, find?}
use freelancing_platform.Prelude.Int.{ℤ, pos, leb_ℤ}
use freelancing_platform.Database.Rows.Texts.{Text, Uuid}
use freelancing_platform.Database.Rows.Ledger.{
  LedgerAccount, debit, credit, milestone_refund, ref_refund, JournalTransaction,
}
use freelancing_platform.Database.Rows.Contract.{funded, same_status, Milestone}
use freelancing_platform.Database.Rows.Payment.{
  FinancialIdempotencyKey, PaymentIntent, refund_pending, Refund, refund_operation,
}
use freelancing_platform.Database.Rows.Event.{exists_state, both_states, refund_reserved}
use freelancing_platform.Database.Environment.{
  Environment, api, invalid_transition, nothing_to_refund, refund_payload,
}
use freelancing_platform.Database.Session.{
  Action, pure, gets, ◌>>=◌, ◌>>◌, raise_if, fresh_id, commit,
}
use freelancing_platform.Ledger.{
  get_or_create_account, JournalRequest, post_journal, account_balance_minor,
}
use freelancing_platform.Payments.Effects.{add_refund, record_audit_event}
use freelancing_platform.Payments.Queries.{
  Answer, get_milestone, contract_of, require_active_contract, require_employer, require_escrow,
  escrow_account_of, milestone_audit_state,
}
use freelancing_platform.Payments.Idempotency.{claim_idempotency, stored_answer, answer_or}
use freelancing_platform.Payments.Capture.{clearing_identity}
use freelancing_platform.Payments.Settle.{
  refund_audit_state, captured_funding_intent, complete_refund_replay, settle_refund,
}

abbrev pub reserve_request : Uuid → LedgerAccount → LedgerAccount → ℤ → JournalRequest
reserve_request refund_id escrow_account clearing amount = record {
  operation = milestone_refund;
  reference_type = ref_refund;
  reference_id = refund_id;
  reversal_of_id = none;
  postings =
      record { account = escrow_account; direction = debit; amount_minor = amount }
      ∷ record { account = clearing; direction = credit; amount_minor = amount }
      ∷ [];
}

abbrev pub new_refund :
    Uuid → Milestone → Uuid → JournalTransaction → FinancialIdempotencyKey → Text → ℤ → Refund
new_refund id m user journal idem provider_name amount = record {
  id = id;
  milestone_id = m.id;
  employer_user_id = user;
  journal_transaction_id = journal.id;
  idempotency_key_id = idem.id;
  provider = provider_name;
  provider_reference = none;
  amount_minor = amount;
  currency = m.currency;
  status = refund_pending;
}

-- The reservation, and the captured payment that it gives back.
pub record Reserved : Type 0 where
  pub refund : Refund
  pub funding_intent : PaymentIntent

module _ (env : Environment) where
  -- The reservation from the posted journal on.
  unfoldable pub finish_reservation :
      FinancialIdempotencyKey
      → Milestone
      → Uuid
      → Text
      → ℤ
      → PaymentIntent
      → Uuid
      → JournalTransaction
      → Action Reserved
  finish_reservation idem m user provider_name amount funding_intent refund_id journal = do
    let refund = new_refund refund_id m user journal idem provider_name amount
    add_refund refund
    record_audit_event env refund_reserved refund_id (some user) (some (exists_state false))
        (some (both_states (refund_audit_state refund) (milestone_audit_state m)))
    commit
    pure (record { refund = refund; funding_intent = funding_intent })

  -- The reservation from the balance on: the escrow is emptied in favour of the provider's account.
  unfoldable pub book_reservation :
      FinancialIdempotencyKey → Milestone → Uuid → Text → LedgerAccount → ℤ → Action Reserved
  book_reservation idem m user provider_name escrow_account amount = do
    funding_intent ← captured_funding_intent m.id provider_name
    clearing ← get_or_create_account (clearing_identity provider_name m.currency)
    refund_id ← fresh_id
    journal ← post_journal (reserve_request refund_id escrow_account clearing amount)
    finish_reservation idem m user provider_name amount funding_intent refund_id journal

  unfoldable pub reserve_refund :
      FinancialIdempotencyKey → Milestone → Uuid → Text → Action Reserved
  reserve_refund idem m user provider_name = do
    raise_if (not (same_status m.status funded)) (api invalid_transition 409)
    escrow ← require_escrow m.id
    escrow_account ← escrow_account_of escrow
    amount ← account_balance_minor escrow_account
    raise_if (leb_ℤ amount (pos 0)) (api nothing_to_refund 409)
    book_reservation idem m user provider_name escrow_account amount

  -- A refund that an earlier call of the key reserved is settled again, unless it has ended.
  unfoldable pub resume_refund :
      FinancialIdempotencyKey → Uuid → Uuid → Text → Refund → Action Answer
  resume_refund idem user milestone_id idempotency_key refund = do
    terminal ← complete_refund_replay refund idem
    answer_or terminal do
      funding_intent ← captured_funding_intent refund.milestone_id refund.provider
      settle_refund env user milestone_id idempotency_key refund funding_intent

  unfoldable pub resume_or_reserve :
      FinancialIdempotencyKey → Milestone → Uuid → Text → Text → Option Refund → Action Answer
  resume_or_reserve idem m user provider_name idempotency_key (some refund) =
      resume_refund idem user m.id idempotency_key refund
  resume_or_reserve idem m user provider_name idempotency_key none = do
    reserved ← reserve_refund idem m user provider_name
    settle_refund env user m.id idempotency_key reserved.refund reserved.funding_intent

  unfoldable pub refund_claimed :
      FinancialIdempotencyKey → Milestone → Uuid → Text → Text → Action Answer
  refund_claimed idem m user provider_name idempotency_key = do
    existing ← gets (λ db. find? (λ r. r.idempotency_key_id == idem.id) db.refunds)
    resume_or_reserve idem m user provider_name idempotency_key existing

  -- user, milestone, provider name, idempotency key
  unfoldable pub refund_milestone : Uuid → Uuid → Text → Text → Action Answer
  refund_milestone user milestone_id provider_name idempotency_key = do
    m ← get_milestone milestone_id
    c ← contract_of m
    require_active_contract c
    require_employer user c
    let name = env.lower (env.strip provider_name)
    claim ← claim_idempotency env user refund_operation idempotency_key (refund_payload m.id name)
    answer_or (stored_answer claim) (refund_claimed claim.key m user name idempotency_key)
