-- ===== src/Payments/Settle.antt =====
-- The second half of `refund_milestone`: the provider's reply, `_fail_refund`,
-- `_complete_refund_replay`, `_pending_refund` and `_captured_funding_intent`.
pub mod Restored
use freelancing_platform.Prelude.{
  ℕ, Bool, true, false, not, Option, none, some, List, [], ◌∷◌, ◌++◌, ◌&&◌, ◌||◌, ◌==◌, ltb, find?,
  any, select, same_id, is_some, if◌then◌else◌,
}
use freelancing_platform.Prelude.Int.{◌==ℤ◌}
use freelancing_platform.Database.Rows.Texts.{Text, Uuid}
use freelancing_platform.Database.Rows.Ledger.{
  clearing_key, LedgerAccount, debit, credit, reversal, ref_refund, JournalTransaction,
}
use freelancing_platform.Database.Rows.Contract.{created, funded, same_status, Milestone}
use freelancing_platform.Database.Rows.Payment.{
  FinancialIdempotencyKey, PaymentIntent, captured, same_intent_status, refund_pending,
  refund_succeeded, refund_failed, RefundStatus, same_refund_status, Refund, refund_body,
  refund_failed_body,
}
use freelancing_platform.Database.Rows.Event.{
  AuditState, refund_state, both_states, milestone_refunded, milestone_refunded_action,
  refund_failed_action,
}
use freelancing_platform.Database.Environment.{
  Environment, Result, ok, err, ProviderResult, ProviderStatus, status_pending, status_succeeded,
  PaymentProvider, api, runtime_error, integrity_error, provider_temporary,
  refund_provider_mismatch,
}
use freelancing_platform.Database.Session.{
  Action, pure, raise, gets, require, ◌>>=◌, ◌>>◌, raise_if, commit, await_provider,
}
use freelancing_platform.Ledger.{has_key, JournalRequest, post_journal}
use freelancing_platform.Payments.Effects.{
  save_refund, save_milestone, enqueue_outbox_event, record_audit_event,
}
use freelancing_platform.Payments.Queries.{
  Answer, get_milestone, require_escrow, find_account, get_provider, milestone_audit_state,
}
use freelancing_platform.Payments.Idempotency.{complete_idempotency}

abbrev pub refund_audit_state : Refund → AuditState
refund_audit_state r =
    refund_state r.status r.amount_minor r.currency r.provider (is_some r.provider_reference)

abbrev pub is_captured_by : Uuid → Text → PaymentIntent → Bool
is_captured_by milestone provider i =
    i.milestone_id == milestone && (same_intent_status i.status captured && i.provider == provider)

-- `order_by(captured_at.desc())`, in which the database puts NULL first.
abbrev later : Option ℕ → Option ℕ → Bool
later none (some _) = true
later (some a) (some b) = ltb b a
later _ none = false

abbrev pub latest : List PaymentIntent → Option PaymentIntent
latest [] = none
latest (i ∷ rest) = elim (latest rest) [
  | none ↦ some i
  | some j ↦ some (if later j.captured_at i.captured_at then j else i)
]

unfoldable pub captured_funding_intent : Uuid → Text → Action PaymentIntent
captured_funding_intent milestone provider = do
  found ← gets (λ db. latest (select (is_captured_by milestone provider) db.payment_intents))
  require found (api refund_provider_mismatch 409)

unfoldable pub replay_terminal :
    RefundStatus → Refund → FinancialIdempotencyKey → Action (Option Answer)
replay_terminal refund_succeeded r idem = do
  complete_idempotency idem 200 (refund_body r)
  commit
  pure (some (refund_body r, 200))
replay_terminal refund_failed r idem = do
  complete_idempotency idem 502 (refund_failed_body r.id)
  commit
  pure (some (refund_failed_body r.id, 502))
replay_terminal refund_pending r idem = pure none

-- `_complete_refund_replay`
unfoldable pub complete_refund_replay : Refund → FinancialIdempotencyKey → Action (Option Answer)
complete_refund_replay r idem = replay_terminal r.status r idem

-- `_pending_refund`
unfoldable pub pending_refund : Refund → Action Answer
pending_refund r = pure (refund_body (record r { status = refund_pending }), 202)

unfoldable pub get_refund : Uuid → Action Refund
get_refund id = do
  found ← gets (λ db. find? (λ r. r.id == id) db.refunds)
  require found runtime_error

unfoldable pub persisted_key : Refund → Action FinancialIdempotencyKey
persisted_key r = do
  found ← gets (λ db. find? (λ k. k.id == r.idempotency_key_id) db.idempotency_keys)
  require found runtime_error

-- A refund that has ended meanwhile is answered by its end.
unfoldable pub terminal_answer : Refund → Action Answer
terminal_answer r = do
  idem ← persisted_key r
  terminal ← complete_refund_replay r idem
  require terminal runtime_error

abbrev pub fail_request :
    Refund → JournalTransaction → LedgerAccount → LedgerAccount → JournalRequest
fail_request r journal provider_account escrow_account = record {
  operation = reversal;
  reference_type = ref_refund;
  reference_id = r.id;
  reversal_of_id = some journal.id;
  postings =
      record { account = provider_account; direction = debit; amount_minor = r.amount_minor }
      ∷ record { account = escrow_account; direction = credit; amount_minor = r.amount_minor }
      ∷ [];
}

module _ (env : Environment) where
  -- `_fail_refund` from the posted reversal on.
  unfoldable pub finish_failure : Refund → Uuid → Action Answer
  finish_failure r actor = do
    let failed : Refund = record r { status = refund_failed }
    save_refund failed
    record_audit_event env refund_failed_action r.id (some actor) (some (refund_audit_state r))
        (some (refund_audit_state failed))
    idem ← persisted_key r
    complete_idempotency idem 502 (refund_failed_body r.id)
    commit
    pure (refund_failed_body r.id, 502)

  -- `_fail_refund` from the three selects on.
  unfoldable pub reverse_reservation :
      Refund
      → Uuid
      → Option JournalTransaction
      → Option LedgerAccount
      → Option LedgerAccount
      → Action Answer
  reverse_reservation r actor found_journal found_escrow found_provider = do
    journal ← require found_journal runtime_error
    escrow_account ← require found_escrow runtime_error
    provider_account ← require found_provider runtime_error
    post_journal (fail_request r journal provider_account escrow_account)
    finish_failure r actor

  -- `_fail_refund` for a pending refund.
  unfoldable pub restore_escrow : Refund → Uuid → Action Answer
  restore_escrow r actor = do
    found_journal ←
        gets (λ db. find? (λ j. j.id == r.journal_transaction_id) db.journal_transactions)
    escrow ← require_escrow r.milestone_id
    found_escrow ← find_account escrow.escrow_account_id
    found_provider ←
        gets (λ db. find? (has_key (clearing_key r.provider r.currency)) db.ledger_accounts)
    reverse_reservation r actor found_journal found_escrow found_provider

  unfoldable pub fail_refund : Uuid → Uuid → Action Answer
  fail_refund refund_id actor = do
    r ← get_refund refund_id
    if same_refund_status r.status refund_pending then restore_escrow r actor else terminal_answer r

  abbrev pub refunded_by : Uuid → Milestone → Milestone
  refunded_by user m = record m {
    status = created;
    events =
        m.events
        ++ record { actor_user_id = some user; from_status = funded; to_status = created } ∷ [];
  }

  abbrev pub cleared : Refund → Text → Refund
  cleared r reference = record r { provider_reference = some reference }

  -- The provider has paid the money back: the milestone is unfunded again.
  unfoldable pub book_refund : Refund → Refund → Milestone → Uuid → Action Answer
  book_refund before r m user = do
    raise_if (not (same_status m.status funded)) runtime_error
    let done : Refund = record r { status = refund_succeeded }
    let m' = refunded_by user m
    save_refund done
    save_milestone m'
    enqueue_outbox_event (milestone_refunded m.id r.id)
    record_audit_event env milestone_refunded_action r.id (some user)
        (some (both_states (refund_audit_state before) (milestone_audit_state m)))
        (some (both_states (refund_audit_state done) (milestone_audit_state m')))
    idem ← persisted_key done
    complete_idempotency idem 200 (refund_body done)
    commit
    pure (refund_body done, 200)

  abbrev is_other : Refund → Refund → Bool
  is_other r x =
      not (x.id == r.id)
      && (x.provider == r.provider && same_id x.provider_reference r.provider_reference)

  -- The unique constraint `uq_refunds_provider_reference`, as the changed row is flushed.
  unfoldable pub flush_refund : Refund → Action (Unit {0})
  flush_refund r = do
    taken ← gets (λ db. any (is_other r) db.refunds)
    raise_if taken integrity_error
    save_refund r

  unfoldable pub apply_result : ProviderStatus → Refund → Refund → Milestone → Uuid → Action Answer
  apply_result status_pending before r m user = do commit; pending_refund r
  apply_result status_succeeded before r m user = book_refund before r m user
  apply_result _ before r m user = fail_refund r.id user

  unfoldable pub accept_result : ProviderResult → Refund → Milestone → Uuid → Action Answer
  accept_result result r m user =
      if not (result.amount_minor ==ℤ r.amount_minor) || not (result.currency == r.currency)
      then fail_refund r.id user
      else do
        flush_refund (cleared r result.reference)
        apply_result result.status r (cleared r result.reference) m user

  -- After the provider's reply both rows are read again.
  unfoldable pub finish_refund : ProviderResult → Uuid → Uuid → Uuid → Action Answer
  finish_refund result refund_id milestone_id user = do
    found ← gets (λ db. find? (λ r. r.id == refund_id) db.refunds)
    m ← get_milestone milestone_id
    r ← require found runtime_error
    if same_refund_status r.status refund_pending
        then accept_result result r m user
        else terminal_answer r

  -- The `except` clauses: of `provider.refund`, and of `provider.verify_refund`, which has one only.
  unfoldable pub handle_reply : Bool → Result ProviderResult → Refund → Uuid → Uuid → Action Answer
  handle_reply asked_before (ok result) r milestone_id user =
      finish_refund result r.id milestone_id user
  handle_reply asked_before (err provider_temporary) r milestone_id user = pending_refund r
  handle_reply true (err e) r milestone_id user = raise e
  handle_reply false (err e) r milestone_id user = fail_refund r.id user

  abbrev ask_provider : PaymentProvider → Option Text → Refund → Text → Text → Result ProviderResult
  ask_provider provider none r reference key =
      provider.refund reference r.amount_minor r.currency key
  ask_provider provider (some refund_reference) r reference key =
      provider.verify_refund refund_reference

  -- user, milestone, idempotency key, refund, captured payment
  unfoldable pub settle_refund : Uuid → Uuid → Text → Refund → PaymentIntent → Action Answer
  settle_refund user milestone_id key r funding_intent = do
    reference ← require funding_intent.provider_reference runtime_error
    provider ← get_provider env r.provider
    await_provider env
    handle_reply (is_some r.provider_reference)
        (ask_provider provider r.provider_reference r reference key) r milestone_id user
