-- ===== src/Payments/Fund.antt =====
-- `fund_milestone` of app/payments/service.py.
use freelancing_platform.Prelude.{
  ℕ, Bool, not, Option, none, some, ◌&&◌, ◌||◌, ◌==◌, find?, any, same_id, if◌then◌else◌,
}
use freelancing_platform.Prelude.Int.{pos, leb_ℤ}
use freelancing_platform.Database.Rows.Texts.{Text, Uuid}
use freelancing_platform.Database.Rows.Contract.{created, same_status, Milestone}
use freelancing_platform.Database.Rows.Payment.{
  FinancialIdempotencyKey, PaymentIntent, intent_pending, captured, same_intent_status,
  fund_operation, payment_body,
}
use freelancing_platform.Database.Rows.Event.{payment_created}
use freelancing_platform.Database.Environment.{
  Environment, ProviderResult, PaymentProvider, api, integrity_error, invalid_transition,
  payment_in_progress, fund_payload,
}
use freelancing_platform.Database.Session.{
  Action, pure, gets, lift, ◌>>=◌, ◌>>◌, raise_if, fresh_id, commit,
}
use freelancing_platform.Payments.Effects.{add_intent, record_audit_event}
use freelancing_platform.Payments.Queries.{
  Answer, get_milestone, version_of, locked_contract, require_active_contract, require_employer,
  get_provider,
}
use freelancing_platform.Payments.Idempotency.{
  claim_idempotency, complete_idempotency, stored_answer, answer_or,
}

-- The unique constraints of `payment_intents`.
abbrev pub clashes : PaymentIntent → PaymentIntent → Bool
clashes i j =
    (j.provider == i.provider && same_id j.provider_reference i.provider_reference)
    || j.idempotency_key_id == i.idempotency_key_id

-- `flush`: the unique constraints, and `ck_payment_intents_amount_positive`.
unfoldable pub flush_intent : PaymentIntent → Action (Unit {0})
flush_intent i = do
  taken ← gets (λ db. any (clashes i) db.payment_intents)
  raise_if (taken || leb_ℤ i.amount_minor (pos 0)) integrity_error
  add_intent i

abbrev pub new_intent :
    Uuid
    → Milestone
    → Uuid
    → PaymentProvider
    → ProviderResult
    → FinancialIdempotencyKey
    → PaymentIntent
new_intent id m user provider result idem = record {
  id = id;
  milestone_id = m.id;
  employer_user_id = user;
  provider = provider.name;
  provider_reference = some result.reference;
  idempotency_key_id = idem.id;
  amount_minor = m.amount_minor;
  currency = m.currency;
  status = intent_pending;
  captured_at = none;
}

module _ (env : Environment) where
  unfoldable pub create_intent :
      FinancialIdempotencyKey → Milestone → Uuid → Text → Text → Action Answer
  create_intent idem m user provider_name idempotency_key = do
    provider ← get_provider env provider_name
    result ← lift (provider.create_payment m.amount_minor m.currency idempotency_key)
    id ← fresh_id
    let intent = new_intent id m user provider result idem
    flush_intent intent
    record_audit_event env payment_created id (some user) none none
    complete_idempotency idem 202 (payment_body intent)
    commit
    pure (payment_body intent, 202)

  -- A pending payment of the milestone is answered again, unless the provider changes.
  unfoldable pub join_active :
      FinancialIdempotencyKey
      → Milestone
      → Uuid
      → Text
      → Text
      → Option PaymentIntent
      → Action Answer
  join_active idem m user provider_name idempotency_key none =
      create_intent idem m user provider_name idempotency_key
  join_active idem m user provider_name idempotency_key (some intent) = do
    raise_if (not (intent.provider == provider_name)) (api payment_in_progress 409)
    complete_idempotency idem 202 (payment_body intent)
    commit
    pure (payment_body intent, 202)

  abbrev status_of_existing : PaymentIntent → ℕ
  status_of_existing i = if same_intent_status i.status captured then 200 else 202

  abbrev is_active_of : Milestone → PaymentIntent → Bool
  is_active_of m i = i.milestone_id == m.id && same_intent_status i.status intent_pending

  unfoldable pub join_existing :
      FinancialIdempotencyKey
      → Milestone
      → Uuid
      → Text
      → Text
      → Option PaymentIntent
      → Action Answer
  join_existing idem m user provider_name idempotency_key (some intent) = do
    complete_idempotency idem (status_of_existing intent) (payment_body intent)
    commit
    pure (payment_body intent, status_of_existing intent)
  join_existing idem m user provider_name idempotency_key none = do
    active ← gets (λ db. find? (is_active_of m) db.payment_intents)
    join_active idem m user provider_name idempotency_key active

  unfoldable pub fund_claimed :
      FinancialIdempotencyKey → Milestone → Uuid → Text → Text → Action Answer
  fund_claimed idem m user provider_name idempotency_key = do
    raise_if (not (same_status m.status created)) (api invalid_transition 409)
    existing ← gets (λ db. find? (λ i. i.idempotency_key_id == idem.id) db.payment_intents)
    join_existing idem m user provider_name idempotency_key existing

  -- user, milestone, provider name, idempotency key
  unfoldable pub fund_milestone : Uuid → Uuid → Text → Text → Action Answer
  fund_milestone user milestone_id provider_name idempotency_key = do
    m ← get_milestone milestone_id
    version ← version_of m
    c ← locked_contract version.contract_id
    require_active_contract c
    require_employer user c
    let name = env.lower (env.strip provider_name)
    claim ← claim_idempotency env user fund_operation idempotency_key (fund_payload m.id name)
    answer_or (stored_answer claim) (fund_claimed claim.key m user name idempotency_key)
