-- ===== src/Payments/Webhook.antt =====
-- `process_provider_webhook` of app/payments/service.py.
pub mod Redelivery
use freelancing_platform.Prelude.{
  Bool, not, Option, none, some, ◌&&◌, ◌||◌, ◌==◌, find?, same_id, if◌then◌else◌,
}
use freelancing_platform.Prelude.Int.{ℤ, ◌==ℤ◌}
use freelancing_platform.Database.Rows.Texts.{Text, Uuid}
use freelancing_platform.Database.Rows.Payment.{
  PaymentIntent, captured, intent_failed, same_intent_status, processed_body, duplicate_body,
  payment_captured, payment_failed, other_event, EventType, ProviderEvent,
}
use freelancing_platform.Database.Environment.{
  Environment, PaymentProvider, VerifiedWebhook, JsonValue, json_string, json_int, api,
  payment_not_found, payment_mismatch, provider_event_conflict, invalid_webhook,
}
use freelancing_platform.Database.Session.{
  Action, pure, raise, gets, lift, require, ◌>>=◌, ◌>>◌, raise_if, arriving, fresh_id, commit,
}
use freelancing_platform.Payments.Effects.{add_event, save_event, save_intent}
use freelancing_platform.Payments.Queries.{Answer, get_provider}
use freelancing_platform.Payments.Capture.{capture_intent}

-- `_duplicate_provider_event`
unfoldable pub duplicate_event : Text → ProviderEvent → Action Answer
duplicate_event payload_hash e = do
  raise_if (not (e.payload_hash == payload_hash)) (api provider_event_conflict 409)
  pure (duplicate_body e.external_event_id, 200)

abbrev pub is_event : Text → Text → ProviderEvent → Bool
is_event provider external_id e = e.provider == provider && e.external_event_id == external_id

abbrev pub has_reference : Text → Text → PaymentIntent → Bool
has_reference provider reference i =
    i.provider == provider && same_id i.provider_reference (some reference)

module _ (env : Environment) where
  -- `_webhook_string` and `_webhook_int`
  unfoldable pub webhook_string : JsonValue → Action Text
  webhook_string (json_string t) = do
    raise_if (env.text_length t == 0) (api invalid_webhook 400)
    pure t
  webhook_string _ = raise (api invalid_webhook 400)

  unfoldable pub webhook_int : JsonValue → Action ℤ
  webhook_int (json_int n) = pure n
  webhook_int _ = raise (api invalid_webhook 400)

  unfoldable pub apply_captured : PaymentProvider → VerifiedWebhook → Action (Unit {0})
  apply_captured provider w = do
    reference ← webhook_string w.provider_reference
    amount ← webhook_int w.amount_minor
    raw_currency ← webhook_string w.currency
    found ← gets (λ db. find? (has_reference provider.name reference) db.payment_intents)
    intent ← require found (api payment_not_found 404)
    raise_if
        (not (intent.amount_minor ==ℤ amount) || not (intent.currency == env.upper raw_currency))
        (api payment_mismatch 409)
    capture_intent env intent none
    pure tt

  unfoldable pub mark_failed : Option PaymentIntent → Action (Unit {0})
  mark_failed none = pure tt
  mark_failed (some i) =
      if same_intent_status i.status captured
      then pure tt
      else save_intent (record i { status = intent_failed })

  unfoldable pub apply_failed : PaymentProvider → VerifiedWebhook → Action (Unit {0})
  apply_failed provider w = do
    reference ← webhook_string w.provider_reference
    found ← gets (λ db. find? (has_reference provider.name reference) db.payment_intents)
    mark_failed found

  unfoldable pub apply_event : EventType → PaymentProvider → VerifiedWebhook → Action (Unit {0})
  apply_event payment_captured provider w = apply_captured provider w
  apply_event payment_failed provider w = apply_failed provider w
  apply_event (other_event t) provider w = pure tt

  abbrev pub new_event : PaymentProvider → VerifiedWebhook → Text → Uuid → ProviderEvent
  new_event provider w payload_hash id = record {
    id = id;
    provider = provider.name;
    external_event_id = w.external_event_id;
    event_type = w.event_type;
    payload_hash = payload_hash;
    processed_at = none;
  }

  -- The event row in a savepoint: a concurrent delivery of the event makes the insert fail.
  unfoldable pub process_event :
      PaymentProvider → VerifiedWebhook → Text → Option ProviderEvent → Action Answer
  process_event provider w payload_hash (some rival) = do
    add_event rival
    duplicate_event payload_hash rival
  process_event provider w payload_hash none = do
    id ← fresh_id
    let event = new_event provider w payload_hash id
    add_event event
    apply_event w.event_type provider w
    save_event (record event { processed_at = some env.now })
    commit
    pure (processed_body w.external_event_id, 200)

  unfoldable pub deduplicate :
      PaymentProvider → VerifiedWebhook → Text → Option ProviderEvent → Action Answer
  deduplicate provider w payload_hash (some existing) = duplicate_event payload_hash existing
  deduplicate provider w payload_hash none = do
    others ← arriving
    process_event provider w payload_hash
        (find? (is_event provider.name w.external_event_id) others.events)

  -- provider name, payload, signature
  unfoldable pub process_provider_webhook : Text → Text → Text → Action Answer
  process_provider_webhook provider_name payload signature = do
    provider ← get_provider env provider_name
    w ← lift (provider.verify_webhook payload signature)
    existing ← gets (λ db. find? (is_event provider.name w.external_event_id) db.provider_events)
    deduplicate provider w (env.sha256 payload) existing
