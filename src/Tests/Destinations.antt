-- ===== src/Tests/Destinations.antt =====
-- The theorem on payout destinations at concrete rows: an administrator sets the account 900 for user 20.
use freelancing_platform.Prelude.{◌≡◌, refl, [], ◌∷◌}
use freelancing_platform.Database.Rows.Dispute.{User, admin, freelancer_account}
use freelancing_platform.Database.Environment.{Environment, PaymentProvider, ok}
use freelancing_platform.Database.Session.{Session}
use freelancing_platform.Payments.Queries.{get_provider}
use freelancing_platform.Payouts.{resolve_payout_destination}
use freelancing_platform.Payouts.Destinations.{configure_payout_provider_account, first_account}
use freelancing_platform.Payouts.Destinations.Resolved.{resolve_payout_destination-configure}
use freelancing_platform.Tests.Opened.{services_run}
use freelancing_platform.Tests.Fixtures.{demo_env, demo_provider, demo_db, session_at}

abbrev stripe_provider : PaymentProvider
stripe_provider = record demo_provider { name = 2 }

abbrev stripe_env : Environment
stripe_env = record demo_env { stripe = stripe_provider }

abbrev administrator : User
administrator = record { id = 30; roles = admin ∷ [] }

abbrev staffed : Session
staffed =
    session_at (record demo_db { users = record { id = 20; roles = freelancer_account ∷ [] } ∷ [] })

abbrev configured : Session
configured = (configure_payout_provider_account stripe_env administrator 20 2 900 staffed).1

resolve_payout_destination-configure_example :
    (p : PaymentProvider) × (get_provider stripe_env 2 staffed ≡ (ok p, staffed))
    × (p.validate_payout_destination 900 ≡ ok 900)
    × (configured.saved ≡ configured.live)
    × (resolve_payout_destination stripe_env 20 2 configured ≡ (ok 900, configured))
unfolding services_run
resolve_payout_destination-configure_example =
    resolve_payout_destination-configure stripe_env administrator 20 2 900 staffed
      (first_account 1000 20 2 900) refl 2 refl refl
