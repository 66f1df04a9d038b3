-- ===== src/Proposals.antt =====
-- app/proposals/service.py and app/proposals/policies.py, with `get_project` of
-- app/projects/service.py: rows, checks and reads. The calls that write are in Proposals/Submission and
-- Proposals/Transition.
pub mod Submission
pub mod Transition
pub mod Requests
pub mod Consistent
pub mod Rules
pub mod Kept
pub mod Contracted
pub mod Accepted
pub mod Framing
use freelancing_platform.Prelude.{
  ℕ, Bool, true, false, not, Option, none, some, List, [], ◌∷◌, ◌++◌, ◌||◌, ◌&&◌, ◌==◌, ltb, find?,
  all, any, select, ◌+◌, if◌then◌else◌,
}
use freelancing_platform.Prelude.Int.{ℤ, pos, ◌+ℤ◌, ◌==ℤ◌, ltb_ℤ}
use freelancing_platform.Database.Rows.Texts.{Text, Uuid}
use freelancing_platform.Database.Rows.Contract.{Contract}
use freelancing_platform.Database.Rows.Dispute.{is_freelancer_role, User, Role, freelancer_account}
use freelancing_platform.Database.Rows.Proposal.{
  Project, project_open, same_project_status, Proposal, ProposalStatus, draft, proposed,
  under_negotiation, withdrawn, turned_down, accepted, same_proposal_status, ProposalVersion,
  ProposalMilestone,
}
use freelancing_platform.Database.Rows.Event.{
  proposal_draft_created, proposal_version_created, proposal_moved,
}
use freelancing_platform.Database.Tables.{Db}
use freelancing_platform.Database.Environment.{
  Environment, Error, api, value_error, runtime_error, integrity_error, provider_temporary,
  other_exception, forbidden, invalid_state, invalid_transition, validation_error,
  project_not_found, proposal_not_found, proposal_exists, proposal_already_accepted,
}
use freelancing_platform.Database.Session.{
  Action, pure, raise, gets, require, ◌>>=◌, ◌>>◌, raise_if, arriving, fresh_id, commit, rollback,
  catch,
}
use freelancing_platform.Payments.Effects.{add_proposal, save_proposal, record_audit_event}
use freelancing_platform.Contracts.Creation.{fits_checks, create_contract_from_accepted_proposal}

-- The terms that a freelancer offers; `MilestoneInput` is a milestone without its number.
pub record MilestoneInput : Type 0 where
  pub title : Text
  pub amount_minor : ℤ
  pub delivery_days : ℤ

pub record Offer : Type 0 where
  pub amount_minor : ℤ
  pub currency : Text
  pub delivery_days : ℤ
  pub cover_letter : Text
  pub milestones : List MilestoneInput

unfoldable pub get_project : Uuid → Action Project
get_project id = do
  found ← gets (λ db. find? (λ x. x.id == id) db.projects)
  require found (api project_not_found 404)

abbrev pub proposal_in : Uuid → Db → Option Proposal
proposal_in id db = find? (λ p. p.id == id) db.proposals

unfoldable pub get_proposal : Uuid → Action Proposal
get_proposal id = do found ← gets (proposal_in id); require found (api proposal_not_found 404)

-- Oldest first, as `created_at.asc()` has it.
abbrev reversed : List Proposal → List Proposal
reversed [] = []
reversed (p ∷ ps) = reversed ps ++ p ∷ []

unfoldable pub list_project_proposals : User → Uuid → Action (List Proposal)
list_project_proposals user project_id = do
  project ← get_project project_id
  raise_if (not (project.employer_user_id == user.id)) (api forbidden 403)
  gets (λ db. reversed (select (λ p. p.project_id == project.id) db.proposals))

abbrev pub can_submit_proposal : User → Project → Bool
can_submit_proposal user project =
    same_project_status project.status project_open
    && (not (project.employer_user_id == user.id) && any is_freelancer_role user.roles)

abbrev pub can_edit_proposal : User → Proposal → Bool
can_edit_proposal user p = p.freelancer_user_id == user.id

abbrev pub can_manage_proposal : User → Proposal → Project → Bool
can_manage_proposal user p project =
    p.project_id == project.id && project.employer_user_id == user.id

-- A project without a currency takes any.
abbrev pub other_currency : Project → Text → Bool
other_currency project currency = differs project.currency
  where
    differs : Option Text → Bool
    differs none = false
    differs (some c) = not (c == currency)

-- `ALLOWED_TRANSITIONS`
abbrev pub allows : ProposalStatus → ProposalStatus → Bool
allows draft proposed = true
allows proposed under_negotiation = true
allows proposed withdrawn = true
allows proposed turned_down = true
allows proposed accepted = true
allows under_negotiation withdrawn = true
allows under_negotiation turned_down = true
allows under_negotiation accepted = true
allows _ _ = false

unfoldable pub total : List MilestoneInput → ℤ
total [] = pos 0
total (m ∷ ms) = m.amount_minor +ℤ total ms

-- `enumerate(milestones, start=…)`
unfoldable pub numbered : ℕ → List MilestoneInput → List ProposalMilestone
numbered n [] = []
numbered n (m ∷ ms) =
    record {
      sequence = n;
      title = m.title;
      amount_minor = m.amount_minor;
      delivery_days = m.delivery_days;
    }
    ∷ numbered (n + 1) ms

abbrev is_given : List MilestoneInput → Bool
is_given [] = false
is_given (_ ∷ _) = true

-- Milestones that do not add up to the price.
abbrev pub misses_price : Offer → Bool
misses_price o = is_given o.milestones && not (total o.milestones ==ℤ o.amount_minor)

abbrev pub version_from : Uuid → ℕ → Offer → ProposalVersion
version_from id number o = record {
  id = id;
  version_number = number;
  amount_minor = o.amount_minor;
  currency = o.currency;
  delivery_days = o.delivery_days;
  cover_letter = o.cover_letter;
  milestones = numbered 1 o.milestones;
}

-- `_new_version`
unfoldable pub new_version : ℕ → Offer → Action ProposalVersion
new_version number o = do
  raise_if (misses_price o) (api validation_error 422)
  id ← fresh_id
  pure (version_from id number o)

-- The CHECKs of `proposal_versions` and `proposal_milestones`.
abbrev pub version_fits : ProposalVersion → Bool
version_fits v =
    not (ltb_ℤ v.amount_minor (pos 0))
    && (not (ltb_ℤ v.delivery_days (pos 1)) && all fits_checks v.milestones)

-- `uq_proposal_project_freelancer`
abbrev pub is_offer_of : Uuid → Uuid → Proposal → Bool
is_offer_of project freelancer p = p.project_id == project && p.freelancer_user_id == freelancer

abbrev pub first_draft : Uuid → Project → User → ProposalVersion → Proposal
first_draft id project user v = record {
  id = id;
  project_id = project.id;
  freelancer_user_id = user.id;
  status = draft;
  current_version = 1;
  versions = v ∷ [];
}

abbrev pub last_version : List ProposalVersion → Option ProposalVersion
last_version [] = none
last_version (v ∷ []) = some v
last_version (v ∷ w ∷ vs) = last_version (w ∷ vs)

abbrev pub revised : ProposalVersion → Proposal → Proposal
revised v p = record p { current_version = p.current_version + 1; versions = p.versions ++ v ∷ [] }

-- The index `uq_proposals_one_accepted_per_project`, for another proposal than this one.
abbrev pub is_rival : Proposal → Proposal → Bool
is_rival p q =
    q.project_id == p.project_id && (same_proposal_status q.status accepted && not (q.id == p.id))
