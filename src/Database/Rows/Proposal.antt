-- ===== src/Database/Rows/Proposal.antt =====
-- app/projects/models.py and app/proposals/models.py, with the document of a contract
-- (`_build_snapshot` of app/contracts/service.py). Budgets, skills, invitations and times, which no
-- modelled code reads, are left out.
use freelancing_platform.Prelude.{ℕ, Bool, Option, List, ◌==◌}
use freelancing_platform.Prelude.Int.{ℤ}
use freelancing_platform.Database.Rows.Texts.{Text, Uuid}
use freelancing_platform.Database.Rows.Dispute.{FileStatus}

pub data ProjectStatus : Type 0 where
  project_open project_closed project_cancelled : ProjectStatus

abbrev project_rank : ProjectStatus → ℕ
project_rank project_open = 0
project_rank project_closed = 1
project_rank project_cancelled = 2

abbrev pub same_project_status : ProjectStatus → ProjectStatus → Bool
same_project_status a b = project_rank a == project_rank b

pub record Project : Type 0 where
  pub id : Uuid
  pub employer_user_id : Uuid
  pub title : Text
  pub description : Text
  pub currency : Option Text
  pub status : ProjectStatus

pub record ProjectAttachment : Type 0 where
  pub id : Uuid
  pub project_id : Uuid
  pub object_key : Text
  pub mime_type : Text
  pub file_size_bytes : ℤ
  pub scan_status : FileStatus

pub data ProposalStatus : Type 0 where
  draft proposed under_negotiation withdrawn turned_down accepted : ProposalStatus

abbrev proposal_rank : ProposalStatus → ℕ
proposal_rank draft = 0
proposal_rank proposed = 1
proposal_rank under_negotiation = 2
proposal_rank withdrawn = 3
proposal_rank turned_down = 4
proposal_rank accepted = 5

abbrev pub same_proposal_status : ProposalStatus → ProposalStatus → Bool
same_proposal_status a b = proposal_rank a == proposal_rank b

pub record ProposalMilestone : Type 0 where
  pub sequence : ℕ
  pub title : Text
  pub amount_minor : ℤ
  pub delivery_days : ℤ

pub record ProposalVersion : Type 0 where
  pub id : Uuid
  pub version_number : ℕ
  pub amount_minor : ℤ
  pub currency : Text
  pub delivery_days : ℤ
  pub cover_letter : Text
  pub milestones : List ProposalMilestone

-- A proposal owns its versions, in the order of their numbers.
pub record Proposal : Type 0 where
  pub id : Uuid
  pub project_id : Uuid
  pub freelancer_user_id : Uuid
  pub status : ProposalStatus
  pub current_version : ℕ
  pub versions : List ProposalVersion

-- The document that a contract's version fixes.
pub record ContractDocument : Type 0 where
  pub project_id : Uuid
  pub proposal_id : Uuid
  pub proposal_version_id : Uuid
  pub proposal_version : ℕ
  pub project_title : Text
  pub project_description : Text
  pub proposal_cover_letter : Text
  pub amount_minor : ℤ
  pub currency : Text
  pub delivery_days : ℤ
  pub milestones : List ProposalMilestone
  pub platform_bps : ℤ
  pub attachments : List ProjectAttachment
