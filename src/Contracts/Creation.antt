-- ===== src/Contracts/Creation.antt =====
-- How a contract comes from an accepted proposal: app/contracts/service.py.
use freelancing_platform.Prelude.{
  Bool, true, false, not, Option, none, some, List, [], ◌∷◌, ◌||◌, ◌&&◌, ◌==◌, find?, all, any,
  select, if◌then◌else◌,
}
use freelancing_platform.Prelude.Int.{ℤ, pos, ltb_ℤ}
use freelancing_platform.Database.Rows.Texts.{Text, Uuid}
use freelancing_platform.Database.Rows.Contract.{
  Contract, ContractVersion, pending_signatures, platform_bps, Milestone, created,
}
use freelancing_platform.Database.Rows.Proposal.{
  Project, ProjectAttachment, Proposal, ProposalVersion, ProposalMilestone, ContractDocument,
}
use freelancing_platform.Database.Rows.Event.{contract_created, exists_state}
use freelancing_platform.Database.Tables.{Db}
use freelancing_platform.Database.Environment.{
  Environment, api, runtime_error, integrity_error, contract_exists,
}
use freelancing_platform.Database.Session.{
  Action, pure, raise, gets, require, ◌>>=◌, ◌>>◌, raise_if, arriving, fresh_id,
}
use freelancing_platform.Payments.Effects.{
  add_contract, add_version, add_milestone, record_audit_event,
}
use freelancing_platform.Contracts.{state_of}

abbrev pub version_of_proposal : Proposal → Option ProposalVersion
version_of_proposal p = find? (λ v. v.version_number == p.current_version) p.versions

-- `_current_proposal_version`
unfoldable pub current_proposal_version : Proposal → Action ProposalVersion
current_proposal_version p = require (version_of_proposal p) runtime_error

-- `_milestone_terms`: the proposal's own milestones, or one for all of it.
abbrev pub terms_or : Text → ProposalVersion → List ProposalMilestone → List ProposalMilestone
terms_or title v [] =
    record {
      sequence = 1;
      title = title;
      amount_minor = v.amount_minor;
      delivery_days = v.delivery_days;
    }
    ∷ []
terms_or title v (m ∷ ms) = m ∷ ms

abbrev pub milestone_terms : Text → ProposalVersion → List ProposalMilestone
milestone_terms title v = terms_or title v v.milestones

-- `_commission_bps`
unfoldable pub commission_bps : Environment → Action ℤ
commission_bps env = do
  value ← require env.platform_commission_bps runtime_error
  raise_if (ltb_ℤ value (pos 0) || ltb_ℤ (pos 10000) value) runtime_error
  pure value

-- `order_by(ProjectAttachment.object_key.asc())`
abbrev insert_attachment :
    (Text → Text → Bool) → ProjectAttachment → List ProjectAttachment → List ProjectAttachment
insert_attachment before a [] = a ∷ []
insert_attachment before a (b ∷ bs) =
    let rest = insert_attachment before a bs in
    if before b.object_key a.object_key then b ∷ rest else a ∷ b ∷ bs

abbrev in_order : (Text → Text → Bool) → List ProjectAttachment → List ProjectAttachment
in_order before [] = []
in_order before (a ∷ rest) = insert_attachment before a (in_order before rest)

abbrev pub attachments_of : (Text → Text → Bool) → Uuid → Db → List ProjectAttachment
attachments_of before project db =
    in_order before (select (λ a. a.project_id == project) db.project_attachments)

-- `_build_snapshot`
abbrev pub document_of :
    Project
    → Proposal
    → ProposalVersion
    → List ProposalMilestone
    → List ProjectAttachment
    → ℤ
    → ContractDocument
document_of project p v terms attachments bps = record {
  project_id = project.id;
  proposal_id = p.id;
  proposal_version_id = v.id;
  proposal_version = v.version_number;
  project_title = project.title;
  project_description = project.description;
  proposal_cover_letter = v.cover_letter;
  amount_minor = v.amount_minor;
  currency = v.currency;
  delivery_days = v.delivery_days;
  milestones = terms;
  platform_bps = bps;
  attachments = attachments;
}

abbrev pub new_contract : Uuid → Project → Proposal → Contract
new_contract id project p = record {
  id = id;
  project_id = project.id;
  accepted_proposal_id = p.id;
  employer_user_id = project.employer_user_id;
  freelancer_user_id = p.freelancer_user_id;
  status = pending_signatures;
  current_version = 1;
  activated_at = none;
  cancelled_at = none;
  parties =
      record { user_id = project.employer_user_id; required_signature = true }
      ∷ record { user_id = p.freelancer_user_id; required_signature = true }
      ∷ [];
}

-- The version of a document: of the document, only the commission is read back later.
abbrev pub new_contract_version : Environment → Uuid → Uuid → ContractDocument → ContractVersion
new_contract_version env id contract document = record {
  id = id;
  contract_id = contract;
  version_number = 1;
  commission = platform_bps document.platform_bps;
  document_hash = env.document_hash document;
}

abbrev pub new_milestone : Uuid → Uuid → Text → ProposalMilestone → Milestone
new_milestone id version currency term = record {
  id = id;
  contract_version_id = version;
  sequence = term.sequence;
  amount_minor = term.amount_minor;
  currency = currency;
  status = created;
  events = [];
}

unfoldable pub create_milestones : Uuid → Text → List ProposalMilestone → Action (Unit {0})
create_milestones version currency [] = pure tt
create_milestones version currency (term ∷ rest) = do
  id ← fresh_id
  add_milestone (new_milestone id version currency term)
  create_milestones version currency rest

-- `uq_contracts_project_id` and `uq_contracts_accepted_proposal_id`
abbrev pub contract_clashes : Uuid → Uuid → Contract → Bool
contract_clashes project proposal c = c.project_id == project || c.accepted_proposal_id == proposal

-- The CHECKs of `milestones` and `proposal_milestones`, whose sequence numbers begin at 1.
abbrev pub fits_checks : ProposalMilestone → Bool
fits_checks m = not (ltb_ℤ m.amount_minor (pos 0)) && not (ltb_ℤ m.delivery_days (pos 1))

module _ (env : Environment) where
  -- The rows of the flush, and the audit event.
  unfoldable pub insert_contract : Project → Proposal → Uuid → ContractDocument → Action Contract
  insert_contract project p actor document = do
    id ← fresh_id
    version_id ← fresh_id
    let c = new_contract id project p
    let version = new_contract_version env version_id id document
    add_contract c
    add_version version
    create_milestones version_id document.currency document.milestones
    record_audit_event env contract_created id (some actor) (some (exists_state false))
        (some (state_of c version none))
    pure c

  -- The flush: a constraint may fail, also on what another transaction has committed.
  unfoldable pub flush_contract : Project → Proposal → Uuid → ContractDocument → Action Contract
  flush_contract project p actor document = do
    taken ← gets (λ db. any (contract_clashes project.id p.id) db.contracts)
    others ← arriving
    raise_if (taken || any (contract_clashes project.id p.id) others.contracts) integrity_error
    raise_if (not (all fits_checks document.milestones)) integrity_error
    insert_contract project p actor document

  unfoldable pub create_contract : Project → Proposal → Uuid → Action Contract
  create_contract project p actor = do
    v ← current_proposal_version p
    attachments ← gets (attachments_of env.text_before project.id)
    bps ← commission_bps env
    flush_contract project p actor
        (document_of project p v (milestone_terms env.full_delivery v) attachments bps)

  unfoldable pub existing_or_create : Option Contract → Project → Proposal → Uuid → Action Contract
  existing_or_create (some c) project p actor =
      if c.accepted_proposal_id == p.id then pure c else raise (api contract_exists 409)
  existing_or_create none project p actor = create_contract project p actor

  unfoldable pub create_contract_from_accepted_proposal :
      Proposal → Project → Uuid → Action Contract
  create_contract_from_accepted_proposal p project actor = do
    existing ← gets (λ db. find? (λ c. c.project_id == project.id) db.contracts)
    existing_or_create existing project p actor
