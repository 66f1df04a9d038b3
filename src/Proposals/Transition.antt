-- ===== src/Proposals/Transition.antt =====
-- `transition_proposal` of app/proposals/service.py.
use freelancing_platform.Prelude.{
  Bool, true, false, not, Option, none, some, ◌||◌, any, if◌then◌else◌,
}
use freelancing_platform.Database.Rows.Texts.{Text, Uuid}
use freelancing_platform.Database.Rows.Dispute.{User}
use freelancing_platform.Database.Rows.Proposal.{
  Project, project_open, same_project_status, Proposal, ProposalStatus, proposed, withdrawn,
  accepted, same_proposal_status,
}
use freelancing_platform.Database.Rows.Event.{proposal_moved}
use freelancing_platform.Database.Environment.{
  Environment, Error, api, integrity_error, forbidden, invalid_state, invalid_transition,
  proposal_already_accepted,
}
use freelancing_platform.Database.Session.{
  Action, pure, raise, gets, require, ◌>>=◌, ◌>>◌, raise_if, arriving, commit, rollback, catch,
}
use freelancing_platform.Payments.Effects.{save_proposal, record_audit_event}
use freelancing_platform.Contracts.Creation.{create_contract_from_accepted_proposal}
use freelancing_platform.Proposals.{
  get_project, get_proposal, can_edit_proposal, can_manage_proposal, allows, is_rival,
}

-- The target, if it is one of the transitions from the proposal's status.
abbrev pub allowed_target : ProposalStatus → Option ProposalStatus → Option ProposalStatus
allowed_target from none = none
allowed_target from (some to) = if allows from to then some to else none

-- Submitting and withdrawing are the freelancer's, the other transitions the employer's.
abbrev pub may_move : User → Proposal → Project → ProposalStatus → Bool
may_move user p project proposed = can_edit_proposal user p
may_move user p project withdrawn = can_edit_proposal user p
may_move user p project _ = can_manage_proposal user p project

abbrev pub with_status : ProposalStatus → Proposal → Proposal
with_status to p = record p { status = to }

-- The commit flushes the status: another accepted proposal makes it fail.
unfoldable pub commit_move : Bool → Proposal → Action (Unit {0})
commit_move accepting p = do
  standing ← gets (λ db. any (is_rival p) db.proposals)
  others ← arriving
  let rival = standing || any (is_rival p) others.proposals
  raise_if (if accepting then rival else false) integrity_error
  commit

-- The `except` clauses.
unfoldable pub undo_move : ProposalStatus → Error → Action (Unit {0})
undo_move to integrity_error = do
  rollback
  raise (
      if same_proposal_status to accepted
      then api proposal_already_accepted 409
      else integrity_error)
undo_move to (api kind status) = rollback >> raise (api kind status)
undo_move to e = raise e

module _ (env : Environment) where
  unfoldable pub contract_if : Bool → User → Project → Proposal → Action (Unit {0})
  contract_if true user project p =
      create_contract_from_accepted_proposal env p project user.id >> pure tt
  contract_if false user project p = pure tt

  -- The `try` block.
  unfoldable pub move_proposal : User → Project → Proposal → ProposalStatus → Action (Unit {0})
  move_proposal user project p to = do
    let accepting = same_proposal_status to accepted
    contract_if accepting user project p
    save_proposal (with_status to p)
    record_audit_event env (proposal_moved to) p.id (some user.id) none none
    commit_move accepting p

  unfoldable pub move_checked : User → Project → Proposal → ProposalStatus → Action Proposal
  move_checked user project p to = do
    raise_if (not (may_move user p project to)) (api forbidden 403)
    raise_if (not (same_project_status project.status project_open)) (api invalid_state 409)
    catch (move_proposal user project p to) (undo_move to)
    get_proposal p.id

  unfoldable pub transition_proposal : User → Uuid → Text → Action Proposal
  transition_proposal user id target = do
    p ← get_proposal id
    project ← get_project p.project_id
    to ←
        require (allowed_target p.status (env.proposal_status_named (env.upper target)))
          (api invalid_transition 409)
    move_checked user project p to
