-- ===== src/Proposals/Requests.antt =====
-- The calls of app/proposals/service.py that write, as data.
use freelancing_platform.Prelude.{List, [], ◌∷◌}
use freelancing_platform.Database.Rows.Texts.{Text, Uuid}
use freelancing_platform.Database.Rows.Dispute.{User}
use freelancing_platform.Database.Tables.{Db}
use freelancing_platform.Database.Environment.{Environment}
use freelancing_platform.Database.Session.{Arriving, run}
use freelancing_platform.Proposals.{Offer}
use freelancing_platform.Proposals.Submission.{create_proposal, add_proposal_version}
use freelancing_platform.Proposals.Transition.{transition_proposal}

pub data ProposalCall : Type 0 where
  -- user, project, terms
  creation : User → Uuid → Offer → ProposalCall
  -- user, proposal, terms
  revision : User → Uuid → Offer → ProposalCall
  -- user, proposal, target
  proposal_move : User → Uuid → Text → ProposalCall

-- What is committed when the call has ended.
unfoldable pub answer_proposal : Environment → Arriving → ProposalCall → Db → Db
answer_proposal env a (creation user project o) db =
    (run a (create_proposal env user project o) db).1
answer_proposal env a (revision user id o) db = (run a (add_proposal_version env user id o) db).1
answer_proposal env a (proposal_move user id target) db =
    (run a (transition_proposal env user id target) db).1

unfoldable pub answer_proposals : List (Environment × Arriving × ProposalCall) → Db → Db
answer_proposals [] db = db
answer_proposals ((env, a, call) ∷ rest) db = answer_proposals rest (answer_proposal env a call db)
