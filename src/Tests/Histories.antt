-- ===== src/Tests/Histories.antt =====
-- The theorems on the platform's histories: a milestone is funded, started and disputed.
use freelancing_platform.Prelude.{◌≡◌, refl, [], ◌∷◌, List}
use freelancing_platform.Prelude.Int.{pos}
use freelancing_platform.Database.Rows.Dispute.{User}
use freelancing_platform.Database.Environment.{Environment}
use freelancing_platform.Database.Session.{Arriving}
use freelancing_platform.Ledger.Balance.{total_of_balances}
use freelancing_platform.Ledger.Invariant.{UniqueReferences}
use freelancing_platform.Milestones.{start}
use freelancing_platform.Payments.Requests.{fund, webhook}
use freelancing_platform.Payments.Books.{Extends}
use freelancing_platform.PartyActions.{move}
use freelancing_platform.Platform.{Call, payment, party_action, dispute_opening, answer_all}
use freelancing_platform.Platform.Books.{platform_books_balance, platform_append_only}
use freelancing_platform.Platform.Refined.{platform_moves_by_bookings}
use freelancing_platform.Ledger.Abstract.{Reaches, view}
use freelancing_platform.Tests.Opened.{services_run}
use freelancing_platform.Tests.Fixtures.{demo_env, demo_db, nobody}

abbrev employer : User
employer = record { id = 10; roles = [] }

abbrev disputed_history : List (Environment × Arriving × Call)
disputed_history =
    (demo_env, nobody, payment (fund 10 3 1 5))
    ∷ (demo_env, nobody, payment (webhook 1 8 0))
    ∷ (demo_env, nobody, party_action (move start 20 3))
    ∷ (demo_env, nobody, dispute_opening employer 3 8)
    ∷ []

platform_books_balance_example :
    (total_of_balances (1005 ∷ 1003 ∷ []) (answer_all disputed_history demo_db) ≡ pos 0)
    × UniqueReferences (answer_all disputed_history demo_db).journal_transactions
unfolding services_run
platform_books_balance_example =
    platform_books_balance disputed_history demo_db (1005 ∷ 1003 ∷ [])
      (record { balanced = tt; unique = tt })
      ((λ d h. h), ((λ d h. h), ((λ d h. h), ((λ d h. h), tt)))) ((refl, (refl, tt)), tt)

platform_append_only_example :
    Extends demo_db.journal_transactions (answer_all disputed_history demo_db)
platform_append_only_example =
    platform_append_only disputed_history demo_db
      ((λ d h. h), ((λ d h. h), ((λ d h. h), ((λ d h. h), tt))))

platform_moves_by_bookings_example :
    Reaches (view demo_db) (view (answer_all disputed_history demo_db))
platform_moves_by_bookings_example =
    platform_moves_by_bookings disputed_history demo_db
      ((λ d h. h), ((λ d h. h), ((λ d h. h), ((λ d h. h), tt))))
