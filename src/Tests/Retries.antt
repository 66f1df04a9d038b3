-- ===== src/Tests/Retries.antt =====
-- A release that is asked for twice, and a webhook that is delivered twice.
use freelancing_platform.Prelude.{◌≡◌, refl, inl, inr, arith, some, [], ◌∷◌}
use freelancing_platform.Prelude.Int.{pos}
use freelancing_platform.Database.Rows.Payment.{duplicate_body, ProviderEvent, payment_captured}
use freelancing_platform.Database.Tables.{Db}
use freelancing_platform.Database.Environment.{ok, VerifiedWebhook, json_string, json_int}
use freelancing_platform.Payments.Webhook.{process_provider_webhook}
use freelancing_platform.Payments.Webhook.Redelivery.{redelivery_writes_nothing}
use freelancing_platform.Database.Session.{Session}
use freelancing_platform.Payments.Release.{released_by, release_milestone}
use freelancing_platform.Tests.Opened.{services_run}
use freelancing_platform.Tests.Fixtures.{
  approved_db, approved_milestone, demo_provider, demo_env, demo_db, session_at,
}

-- A later session: the records are those that the first release leaves, and the milestone is released.
abbrev later_session : Session
later_session = session_at (record demo_db {
  milestones = released_by 10 approved_milestone ∷ [];
  idempotency_keys =
      (release_milestone demo_env 10 3 5 (session_at approved_db)).1.live.idempotency_keys;
})

abbrev demo_webhook : VerifiedWebhook
demo_webhook = record {
  external_event_id = 70;
  event_type = payment_captured;
  provider_reference = json_string 50;
  amount_minor = json_int (pos 100);
  currency = json_string 9;
}

abbrev demo_event : ProviderEvent
demo_event = record {
  id = 1002;
  provider = 1;
  external_event_id = 70;
  event_type = payment_captured;
  payload_hash = 8;
  processed_at = some 100;
}

-- Another provider has an event under the same id.
abbrev foreign_event : ProviderEvent
foreign_event = record demo_event { id = 1003; provider = 2; payload_hash = 9 }

abbrev known_db : Db
known_db = record demo_db { provider_events = foreign_event ∷ demo_event ∷ [] }

redelivery_writes_nothing_example :
    process_provider_webhook demo_env 1 8 0 (session_at known_db)
    ≡ (ok (duplicate_body 70, 200), session_at known_db)
unfolding services_run
redelivery_writes_nothing_example =
    redelivery_writes_nothing demo_env 1 8 0 demo_provider demo_webhook demo_event
      (session_at known_db)
      (record {
        provider_found = refl;
        verified = refl;
        of_provider = refl;
        of_event = refl;
        stored = inr (inl refl);
        unique = ((λ p q. ground arith), ((λ p q. refl), tt));
      })
