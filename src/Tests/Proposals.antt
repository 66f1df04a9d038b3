-- ===== src/Tests/Proposals.antt =====
-- The theorems on proposals at concrete rows: a freelancer offers two milestones of 40 and 60, and the
-- employer accepts.
use freelancing_platform.Prelude.{◌≡◌, refl, some, [], ◌∷◌, List, find?, ◌==◌}
use freelancing_platform.Prelude.Int.{pos}
use freelancing_platform.Database.Rows.Dispute.{User, employer_account, freelancer_account}
use freelancing_platform.Database.Rows.Proposal.{
  Project, project_open, Proposal, proposed, accepted,
}
use freelancing_platform.Database.Tables.{Db}
use freelancing_platform.Database.Environment.{Environment}
use freelancing_platform.Database.Session.{Arriving}
use freelancing_platform.Proposals.{Offer, proposal_in, version_from, first_draft}
use freelancing_platform.Proposals.Transition.{with_status, transition_proposal}
use freelancing_platform.Proposals.Requests.{
  ProposalCall, creation, proposal_move, answer_proposals,
}
use freelancing_platform.Proposals.Kept.{AreConsistent, proposals_stay_consistent}
use freelancing_platform.Proposals.Accepted.{IsAccepted, transition_proposal-IsAccepted}
use freelancing_platform.Tests.Opened.{services_run}
use freelancing_platform.Tests.Fixtures.{demo_env, demo_db, nobody, session_at}

abbrev client : User
client = record { id = 10; roles = employer_account ∷ [] }

abbrev worker : User
worker = record { id = 20; roles = freelancer_account ∷ [] }

abbrev demo_project : Project
demo_project = record {
  id = 77;
  employer_user_id = 10;
  title = 1;
  description = 2;
  currency = some 9;
  status = project_open;
}

abbrev project_db : Db
project_db = record demo_db { projects = demo_project ∷ [] }

abbrev demo_offer : Offer
demo_offer = record {
  amount_minor = pos 100;
  currency = 9;
  delivery_days = pos 30;
  cover_letter = 3;
  milestones =
      record { title = 5; amount_minor = pos 40; delivery_days = pos 10 }
      ∷ record { title = 6; amount_minor = pos 60; delivery_days = pos 20 }
      ∷ [];
}

abbrev offering : List (Environment × Arriving × ProposalCall)
offering =
    (demo_env, nobody, creation worker 77 demo_offer)
    ∷ (demo_env, nobody, proposal_move worker 1001 51)
    ∷ []

abbrev offered_db : Db
offered_db = answer_proposals offering project_db

abbrev submitted_proposal : Proposal
submitted_proposal =
    with_status proposed (first_draft 1001 demo_project worker (version_from 1000 1 demo_offer))

proposals_stay_consistent_example : AreConsistent (answer_proposals offering project_db)
proposals_stay_consistent_example = proposals_stay_consistent offering project_db tt

transition_proposal-IsAccepted_example :
    (p : Proposal) × (project : Project) × (proposal_in 1001 offered_db ≡ some p)
    × (find? (λ x. x.id == p.project_id) offered_db.projects ≡ some project)
    × IsAccepted demo_env client project p offered_db
        (transition_proposal demo_env client 1001 55 (session_at offered_db)).1.saved
unfolding services_run
transition_proposal-IsAccepted_example =
    transition_proposal-IsAccepted demo_env client (session_at offered_db)
      (with_status accepted submitted_proposal) 1001 55 refl refl
      (proposals_stay_consistent offering project_db tt)
