-- ===== src/Tests/Steps.antt =====
-- The milestone theorems on a start, and on the shortest life that ends in a release.
use freelancing_platform.Prelude.{refl, ◌⊎◌, ◌≡◌, none}
use freelancing_platform.Prelude.Int.{pos}
use freelancing_platform.Database.Tables.{Db}
use freelancing_platform.Database.Environment.{ok}
use freelancing_platform.Payments.Release.{release_approved}
use freelancing_platform.Database.Rows.Contract.{
  Contract, Milestone, created, funded, in_progress, submitted, disputed, approved, released,
}
use freelancing_platform.Milestones.{start, submit, approve, moved_by, take_step, transition}
use freelancing_platform.Milestones.Steps.{Releasing, user_step, capture_step, release_step}
use freelancing_platform.Milestones.Lifecycle.{History, done, step, Visits, released_was_earned}
use freelancing_platform.Milestones.Moved.{MayMove, IsTaken, transition_returned}
use freelancing_platform.Tests.Opened.{services_run}
use freelancing_platform.Tests.Fixtures.{
  demo_env, demo_contract, demo_milestone, funded_milestone, submitted_milestone,
  approved_milestone, funded_db, approved_db, open_key, session_at, work,
}
use freelancing_platform.Tests.Releases.{released_answer}

transition_returned_example :
    (m : Milestone) × (c : Contract) × MayMove start 20 3 m c (session_at funded_db)
    × IsTaken demo_env start 20
        (session_at funded_db)
        m
        (transition demo_env start 20 3 (session_at funded_db))
unfolding services_run
transition_returned_example =
    transition_returned demo_env start 20 3 (session_at funded_db)
      (moved_by 20 start funded_milestone) refl

-- The steps of a milestone of the fixtures, each from the rows that the one before it has left.
abbrev started_milestone : Milestone
started_milestone = moved_by 20 start funded_milestone

abbrev started_db : Db
started_db = work start 20 funded_db

abbrev submitted_db : Db
submitted_db = work submit 20 started_db

start_returns :
    (take_step demo_env start 20 funded_milestone (session_at funded_db)).0 ≡ ok started_milestone
unfolding services_run
start_returns = refl

submit_returns :
    (take_step demo_env submit 20 started_milestone (session_at started_db)).0
    ≡ ok submitted_milestone
unfolding services_run
submit_returns = refl

approve_returns :
    (take_step demo_env approve 10 submitted_milestone (session_at submitted_db)).0
    ≡ ok approved_milestone
unfolding services_run
approve_returns = refl

abbrev demo_releasing : Releasing
demo_releasing = record {
  env = demo_env;
  key = open_key;
  milestone = approved_milestone;
  contract = demo_contract;
  user = 10;
  session = session_at approved_db;
}

release_returns :
    (release_approved demo_env open_key approved_milestone demo_contract 10
      (session_at approved_db)).0
    ≡ ok released_answer
unfolding services_run
release_returns = refl

abbrev short_life : History created released
short_life =
    step created funded released
      (capture_step created funded demo_milestone none (pos 100) refl refl)
      (step funded in_progress released
        (user_step funded in_progress demo_env start 20 funded_milestone started_milestone
          (session_at funded_db) refl refl start_returns)
        (step in_progress submitted released
          (user_step in_progress submitted demo_env submit 20 started_milestone submitted_milestone
            (session_at started_db) refl refl submit_returns)
          (step submitted approved released
            (user_step submitted approved demo_env approve 10 submitted_milestone approved_milestone
              (session_at submitted_db) refl refl approve_returns)
            (step approved released released
              (release_step approved released demo_releasing released_answer refl refl
                release_returns)
              (done released)))))

released_was_earned_example :
    Visits funded created released short_life
    × (Visits disputed created released short_life
        ⊎ (Visits submitted created released short_life
            × Visits approved created released short_life))
released_was_earned_example = released_was_earned short_life
