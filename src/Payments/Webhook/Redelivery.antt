-- ===== src/Payments/Webhook/Redelivery.antt =====
-- A webhook that is delivered again.
use freelancing_platform.Prelude.{
  List, Any, All, All-map, find?-only, both_true, ==_iff, arith, Bool, true, false, not, ◌≡◌, ◌∙◌,
  refl, ap, some, find?, ◌==◌, if◌then◌else◌,
}
use freelancing_platform.Database.Rows.Texts.{Text}
use freelancing_platform.Database.Rows.Payment.{ProviderEvent, duplicate_body}
use freelancing_platform.Database.Environment.{
  Environment, PaymentProvider, VerifiedWebhook, Result, ok, err, api, provider_event_conflict,
}
use freelancing_platform.Database.Session.{Session, raise_if, lift, ◌>>=◌}
use freelancing_platform.Database.Session.Steps.{bind-ok, bind-err, raise_if_passes, raise_if_fails}
use freelancing_platform.Payments.Queries.{Answer, get_provider}
use freelancing_platform.Payments.Webhook.{
  duplicate_event, is_event, deduplicate, process_provider_webhook,
}

-- The event of a verified webhook is stored already, and there is one row of it, as the unique
-- constraint on the provider and its event id has it.
pub record IsKnown (env : Environment) (name payload signature : Text) (provider : PaymentProvider)
    (w : VerifiedWebhook) (e : ProviderEvent) (s : Session) : Type 0 where
  pub provider_found : get_provider env name s ≡ (ok provider, s)
  pub verified : provider.verify_webhook payload signature ≡ ok w
  pub of_provider : e.provider ≡ provider.name
  pub of_event : e.external_event_id ≡ w.external_event_id
  pub stored : Any (λ x. x ≡ e) s.live.provider_events
  pub unique :
      All
        (λ (x : ProviderEvent).
          x.provider ≡ provider.name → x.external_event_id ≡ w.external_event_id → x ≡ e)
        s.live.provider_events

-- What a second delivery is answered: by whether it is the same payload.
abbrev pub redelivery_answer : Text → ProviderEvent → Result Answer
redelivery_answer payload_hash e =
    if e.payload_hash == payload_hash
    then ok (duplicate_body e.external_event_id, 200)
    else err (api provider_event_conflict 409)

duplicate_answer :
    (h : Text) (e : ProviderEvent) (s : Session) (b : Bool)
    → (e.payload_hash == h) ≡ b
    → duplicate_event h e s ≡ (
      (if b
          then ok (duplicate_body e.external_event_id, 200)
          else err (api provider_event_conflict 409)),
      s,
    )
unfolding duplicate_event ◌>>=◌
duplicate_answer h e s true same = bind-ok (raise_if _ _) _ (raise_if_passes _ _ s (ap not same))
duplicate_answer h e s false other = bind-err (raise_if _ _) _ (raise_if_fails _ _ s (ap not other))

-- The row of the event is the one that the code finds.
found_event :
    (name event : Text) (e : ProviderEvent) (xs : List ProviderEvent)
    → e.provider ≡ name
    → e.external_event_id ≡ event
    → Any (λ x. x ≡ e) xs
    → All (λ (x : ProviderEvent). x.provider ≡ name → x.external_event_id ≡ event → x ≡ e) xs
    → find? (is_event name event) xs ≡ some e
found_event name event e xs of_provider of_event stored unique =
    find?-only (is_event name event) e
      (let p = (==_iff e.provider name).1 of_provider in
        let q = (==_iff e.external_event_id event).1 of_event in ground arith)
      xs stored
      (All-map _ _
        (λ x only passes.
          let (p, q) = both_true _ _ passes in
          only ((==_iff x.provider name).0 p) ((==_iff x.external_event_id event).0 q))
        xs unique)

-- If one of the rows is an event of the provider under the id of the verified webhook, and no other row
-- is, then that row decides: the same payload is answered as a duplicate, another one as a conflict,
-- and nothing is written, whatever events other providers have under the same id.
pub redelivery_writes_nothing :
    (env : Environment) (name payload signature : Text) (provider : PaymentProvider)
    (w : VerifiedWebhook) (e : ProviderEvent) (s : Session)
    → IsKnown env name payload signature provider w e s
    → process_provider_webhook env name payload signature s
      ≡ (redelivery_answer (env.sha256 payload) e, s)
unfolding process_provider_webhook deduplicate ◌>>=◌
redelivery_writes_nothing env name payload signature provider w e s known =
    bind-ok (get_provider env name) _ known.provider_found
    ∙ bind-ok (lift (provider.verify_webhook payload signature)) _ (ap (λ r. (r, s)) known.verified)
    ∙ ap (λ o. deduplicate env provider w (env.sha256 payload) o s)
        (found_event provider.name w.external_event_id e s.live.provider_events known.of_provider
          known.of_event known.stored known.unique)
    ∙ duplicate_answer (env.sha256 payload) e s _ refl
