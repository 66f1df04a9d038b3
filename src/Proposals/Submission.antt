-- ===== src/Proposals/Submission.antt =====
-- `create_proposal` and `add_proposal_version` of app/proposals/service.py.
use freelancing_platform.Prelude.{
  ℕ, Bool, true, false, not, none, some, ◌||◌, ◌==◌, any, ◌+◌, if◌then◌else◌,
}
use freelancing_platform.Database.Rows.Texts.{Uuid}
use freelancing_platform.Database.Rows.Dispute.{User}
use freelancing_platform.Database.Rows.Proposal.{
  Project, Proposal, ProposalStatus, draft, under_negotiation, ProposalVersion,
}
use freelancing_platform.Database.Rows.Event.{proposal_draft_created, proposal_version_created}
use freelancing_platform.Database.Environment.{
  Environment, api, integrity_error, other_exception, forbidden, invalid_transition,
  validation_error, proposal_exists,
}
use freelancing_platform.Database.Session.{
  Action, pure, raise, gets, require, ◌>>=◌, ◌>>◌, raise_if, arriving, fresh_id, commit, rollback,
}
use freelancing_platform.Payments.Effects.{add_proposal, save_proposal, record_audit_event}
use freelancing_platform.Proposals.{
  Offer, get_project, get_proposal, can_submit_proposal, can_edit_proposal, other_currency,
  new_version, version_fits, is_offer_of, first_draft, last_version, revised,
}

abbrev pub can_be_revised : ProposalStatus → Bool
can_be_revised draft = true
can_be_revised under_negotiation = true
can_be_revised _ = false

-- `uq_proposal_version_number`
abbrev pub has_number : ℕ → ProposalVersion → Bool
has_number n v = v.version_number == n

-- The project is asked only when the currency changes.
unfoldable pub check_currency : Proposal → ProposalVersion → Offer → Action (Unit {0})
check_currency p current o = if current.currency == o.currency then pure tt else (do
  project ← get_project p.project_id
  raise_if (other_currency project o.currency) (api validation_error 422))

module _ (env : Environment) where
  -- From the flushed row on.
  unfoldable pub keep_draft : User → Proposal → Action Proposal
  keep_draft user p = do
    add_proposal p
    record_audit_event env proposal_draft_created p.id (some user.id) none none
    commit
    get_proposal p.id

  -- The flush. Any constraint that fails is reported as an earlier proposal.
  unfoldable pub flush_draft : User → Project → ProposalVersion → Action Proposal
  flush_draft user project v = do
    taken ← gets (λ db. any (is_offer_of project.id user.id) db.proposals)
    others ← arriving
    if taken || any (is_offer_of project.id user.id) others.proposals || not (version_fits v)
        then rollback >> raise (api proposal_exists 409)
        else (do id ← fresh_id; keep_draft user (first_draft id project user v))

  unfoldable pub create_proposal : User → Uuid → Offer → Action Proposal
  create_proposal user project_id o = do
    project ← get_project project_id
    raise_if (not (can_submit_proposal user project)) (api forbidden 403)
    raise_if (other_currency project o.currency) (api validation_error 422)
    v ← new_version 1 o
    flush_draft user project v

  unfoldable pub append_version : User → Proposal → Offer → Action Proposal
  append_version user p o = do
    v ← new_version (p.current_version + 1) o
    record_audit_event env proposal_version_created p.id (some user.id) none none
    raise_if (any (has_number (p.current_version + 1)) p.versions || not (version_fits v))
        integrity_error
    save_proposal (revised v p)
    commit
    get_proposal p.id

  unfoldable pub add_proposal_version : User → Uuid → Offer → Action Proposal
  add_proposal_version user id o = do
    p ← get_proposal id
    raise_if (not (can_edit_proposal user p)) (api forbidden 403)
    raise_if (not (can_be_revised p.status)) (api invalid_transition 409)
    current ← require (last_version p.versions) other_exception
    check_currency p current o
    append_version user p o
