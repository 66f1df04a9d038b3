-- ===== src/Payouts/Settle.antt =====
-- `create_payout` of app/payouts/service.py, with its second half: the provider's reply,
-- `_fail_payout`, `_complete_terminal_replay` and `_upgrade_legacy_destination_snapshot`.
use freelancing_platform.Prelude.{
  Bool, not, Option, none, some, [], ◌∷◌, ◌&&◌, ◌||◌, ◌==◌, find?, any, same_id, if◌then◌else◌,
}
use freelancing_platform.Prelude.Int.{ℤ, pos, leb_ℤ, ◌==ℤ◌}
use freelancing_platform.Database.Rows.Texts.{Text, Uuid}
use freelancing_platform.Database.Rows.Ledger.{
  LedgerAccount, wallet_key, clearing_key, reversal, ref_payout, debit, credit, JournalTransaction,
}
use freelancing_platform.Database.Rows.Payment.{
  FinancialIdempotencyKey, payout_operation, payout_body, payout_failed_body, payout_pending_body,
}
use freelancing_platform.Database.Rows.Payout.{
  Payout, PayoutStatus, payout_pending, payout_succeeded, payout_failed, same_payout_status,
}
use freelancing_platform.Database.Rows.Event.{
  payout_succeeded_event, payout_succeeded_action, payout_failed_action,
}
use freelancing_platform.Database.Environment.{
  Environment, Result, ok, err, ProviderResult, api, runtime_error, integrity_error,
  provider_temporary, validation_error, payout_payload,
}
use freelancing_platform.Database.Session.{
  Action, pure, gets, require, ◌>>=◌, ◌>>◌, raise_if, commit, rollback, await_provider,
}
use freelancing_platform.Ledger.{has_key, JournalRequest, post_journal}
use freelancing_platform.Payments.Effects.{save_payout, enqueue_outbox_event, record_audit_event}
use freelancing_platform.Payments.Queries.{Answer, get_provider}
use freelancing_platform.Payments.Idempotency.{
  claim_idempotency, complete_idempotency, stored_answer, answer_or,
}
use freelancing_platform.Payouts.{state_of_payout, PayoutOrder, reserve_payout}

unfoldable pub replay_payout :
    PayoutStatus → Payout → FinancialIdempotencyKey → Action (Option Answer)
replay_payout payout_succeeded p idem = do
  complete_idempotency idem 200 (payout_body p)
  commit
  pure (some (payout_body p, 200))
replay_payout payout_failed p idem = do
  complete_idempotency idem 502 (payout_failed_body p.id)
  commit
  pure (some (payout_failed_body p.id, 502))
replay_payout payout_pending p idem = pure none

-- `_complete_terminal_replay`
unfoldable pub complete_terminal_replay : Payout → FinancialIdempotencyKey → Action (Option Answer)
complete_terminal_replay p idem = replay_payout p.status p idem

unfoldable pub get_payout : Uuid → Action Payout
get_payout id = do
  found ← gets (λ db. find? (λ p. p.id == id) db.payouts)
  require found runtime_error

unfoldable pub payout_key : Payout → Action FinancialIdempotencyKey
payout_key p = do
  found ← gets (λ db. find? (λ k. k.id == p.idempotency_key_id) db.idempotency_keys)
  require found runtime_error

-- A payout that has ended meanwhile is answered by its end.
unfoldable pub ended_answer : Payout → Action Answer
ended_answer p = do
  idem ← payout_key p
  terminal ← complete_terminal_replay p idem
  require terminal runtime_error

abbrev pub payout_reversal :
    Payout → JournalTransaction → LedgerAccount → LedgerAccount → JournalRequest
payout_reversal p original clearing wallet = record {
  operation = reversal;
  reference_type = ref_payout;
  reference_id = p.id;
  reversal_of_id = some original.id;
  postings =
      record { account = clearing; direction = debit; amount_minor = p.amount_minor }
      ∷ record { account = wallet; direction = credit; amount_minor = p.amount_minor }
      ∷ [];
}

module _ (env : Environment) where
  abbrev pub failed_payout : Payout → JournalTransaction → Payout
  failed_payout p journal = record p {
    reversal_journal_transaction_id = some journal.id;
    status = payout_failed;
    completed_at = some env.now;
  }

  -- `_fail_payout` from the posted reversal on.
  unfoldable pub finish_payout_failure : Payout → Uuid → JournalTransaction → Action Answer
  finish_payout_failure p actor journal = do
    save_payout (failed_payout p journal)
    record_audit_event env payout_failed_action p.id (some actor) (some (state_of_payout p))
        (some (state_of_payout (failed_payout p journal)))
    idem ← payout_key p
    complete_idempotency idem 502 (payout_failed_body p.id)
    commit
    pure (payout_failed_body p.id, 502)

  -- `_fail_payout` from the three selects on.
  unfoldable pub reverse_payout :
      Payout
      → Uuid
      → Option LedgerAccount
      → Option LedgerAccount
      → Option JournalTransaction
      → Action Answer
  reverse_payout p actor found_wallet found_clearing found_journal = do
    wallet ← require found_wallet runtime_error
    clearing ← require found_clearing runtime_error
    original ← require found_journal runtime_error
    journal ← post_journal (payout_reversal p original clearing wallet)
    finish_payout_failure p actor journal

  -- `_fail_payout` for a pending payout.
  unfoldable pub restore_wallet : Payout → Uuid → Action Answer
  restore_wallet p actor = do
    found_wallet ←
        gets (λ db. find? (has_key (wallet_key p.freelancer_user_id p.currency)) db.ledger_accounts)
    found_clearing ←
        gets (λ db. find? (has_key (clearing_key p.provider p.currency)) db.ledger_accounts)
    found_journal ←
        gets (λ db. find? (λ j. j.id == p.journal_transaction_id) db.journal_transactions)
    reverse_payout p actor found_wallet found_clearing found_journal

  unfoldable pub fail_payout : Uuid → Uuid → Action Answer
  fail_payout payout_id actor = do
    p ← get_payout payout_id
    if same_payout_status p.status payout_pending then restore_wallet p actor else ended_answer p

  abbrev pub paid_payout : Payout → Text → Payout
  paid_payout p reference = record p {
    provider_reference = some reference;
    status = payout_succeeded;
    completed_at = some env.now;
  }

  abbrev is_other_payout : Payout → Payout → Bool
  is_other_payout p x =
      not (x.id == p.id)
      && (x.provider == p.provider && same_id x.provider_reference p.provider_reference)

  -- The unique constraint `uq_payouts_provider_reference`, as the changed row is flushed.
  unfoldable pub flush_payout : Payout → Action (Unit {0})
  flush_payout p = do
    taken ← gets (λ db. any (is_other_payout p) db.payouts)
    raise_if taken integrity_error
    save_payout p

  unfoldable pub complete_payout : Payout → Text → Uuid → Action Answer
  complete_payout p reference user = do
    let paid = paid_payout p reference
    flush_payout paid
    enqueue_outbox_event (payout_succeeded_event p.id reference)
    record_audit_event env payout_succeeded_action p.id (some user) (some (state_of_payout p))
        (some (state_of_payout paid))
    idem ← payout_key paid
    complete_idempotency idem 200 (payout_body paid)
    commit
    pure (payout_body paid, 200)

  -- The status of the provider's result is not looked at.
  unfoldable pub accept_payout : ProviderResult → Payout → Uuid → Action Answer
  accept_payout result p user =
      if not (result.amount_minor ==ℤ p.amount_minor) || not (result.currency == p.currency)
      then fail_payout p.id user
      else complete_payout p result.reference user

  unfoldable pub finish_payout : ProviderResult → Uuid → Uuid → Action Answer
  finish_payout result payout_id user = do
    p ← get_payout payout_id
    if same_payout_status p.status payout_pending
        then accept_payout result p user
        else ended_answer p

  -- The `except` clauses.
  unfoldable pub handle_payout_reply : Result ProviderResult → Uuid → Uuid → Action Answer
  handle_payout_reply (ok result) payout_id user = finish_payout result payout_id user
  handle_payout_reply (err provider_temporary) payout_id user = do
    rollback
    p ← get_payout payout_id
    pure (payout_pending_body p.id, 503)
  handle_payout_reply (err e) payout_id user = fail_payout payout_id user

  unfoldable pub settle_payout : Uuid → Text → Payout → Action Answer
  settle_payout user key p = do
    destination ← require p.provider_destination_reference runtime_error
    provider ← get_provider env p.provider
    await_provider env
    handle_payout_reply (provider.payout destination p.amount_minor p.currency key) p.id user

  -- `_upgrade_legacy_destination_snapshot`
  unfoldable pub upgrade_destination : Option Text → Payout → Action Payout
  upgrade_destination (some destination) p = pure p
  upgrade_destination none p = do
    raise_if (not (p.provider == env.sandbox_name)) runtime_error
    let upgraded : Payout = record p {
      provider_destination_reference = some (env.uuid_text p.freelancer_user_id);
    }
    save_payout upgraded
    commit
    pure upgraded

  unfoldable pub resume_or_reserve_payout :
      FinancialIdempotencyKey → PayoutOrder → Text → Option Payout → Action Answer
  resume_or_reserve_payout idem order key (some p) = do
    terminal ← complete_terminal_replay p idem
    answer_or terminal do
      upgraded ← upgrade_destination p.provider_destination_reference p
      settle_payout order.user key upgraded
  resume_or_reserve_payout idem order key none = do
    p ← reserve_payout env idem order
    settle_payout order.user key p

  unfoldable pub payout_claimed : FinancialIdempotencyKey → PayoutOrder → Text → Action Answer
  payout_claimed idem order key = do
    existing ← gets (λ db. find? (λ p. p.idempotency_key_id == idem.id) db.payouts)
    resume_or_reserve_payout idem order key existing

  -- user, amount, currency, provider name, idempotency key
  unfoldable pub create_payout : Uuid → ℤ → Text → Text → Text → Action Answer
  create_payout user amount raw_currency raw_provider key = do
    raise_if (leb_ℤ amount (pos 0)) (api validation_error 422)
    let currency = env.upper (env.strip raw_currency)
    raise_if (not (env.text_length currency == 3)) (api validation_error 422)
    let name = env.lower (env.strip raw_provider)
    let order : PayoutOrder = record {
      user = user;
      amount = amount;
      currency = currency;
      provider_name = name;
    }
    claim ← claim_idempotency env user payout_operation key (payout_payload amount currency name)
    answer_or (stored_answer claim) (payout_claimed claim.key order key)
