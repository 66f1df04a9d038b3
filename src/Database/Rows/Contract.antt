-- ===== src/Database/Rows/Contract.antt =====
-- app/contracts/models.py and app/milestones/models.py. Titles, notes, metadata and creation times,
-- which no modelled code reads, are left out.
use freelancing_platform.Prelude.{ℕ, Bool, Option, List, ◌==◌}
use freelancing_platform.Prelude.Int.{ℤ}
use freelancing_platform.Database.Rows.Texts.{Text, Uuid}

pub data ContractStatus : Type 0 where
  pending_signatures active cancelled : ContractStatus

abbrev contract_rank : ContractStatus → ℕ
contract_rank pending_signatures = 0
contract_rank active = 1
contract_rank cancelled = 2

abbrev pub same_contract_status : ContractStatus → ContractStatus → Bool
same_contract_status a b = contract_rank a == contract_rank b

pub record ContractParty : Type 0 where
  pub user_id : Uuid
  pub required_signature : Bool

pub record Contract : Type 0 where
  pub id : Uuid
  pub project_id : Uuid
  pub accepted_proposal_id : Uuid
  pub employer_user_id : Uuid
  pub freelancer_user_id : Uuid
  pub status : ContractStatus
  pub current_version : ℕ
  pub activated_at : Option ℕ
  pub cancelled_at : Option ℕ
  pub parties : List ContractParty

-- The value at `snapshot["commission"]`: no entry, something that is no object, or an object whose
-- `platform_bps` is an int or something else (a bool, a text, nothing).
pub data Commission : Type 0 where
  no_commission not_an_object bps_not_an_int : Commission
  platform_bps : ℤ → Commission

pub record ContractVersion : Type 0 where
  pub id : Uuid
  pub contract_id : Uuid
  pub version_number : ℕ
  pub commission : Commission
  pub document_hash : Text

pub record ContractSignature : Type 0 where
  pub id : Uuid
  pub contract_version_id : Uuid
  pub user_id : Uuid
  pub document_hash : Text
  pub idempotency_key_hash : Text

pub data MilestoneStatus : Type 0 where
  created funded in_progress submitted changes_requested disputed approved : MilestoneStatus
  release_pending released : MilestoneStatus

abbrev milestone_rank : MilestoneStatus → ℕ
milestone_rank created = 0
milestone_rank funded = 1
milestone_rank in_progress = 2
milestone_rank submitted = 3
milestone_rank changes_requested = 4
milestone_rank disputed = 5
milestone_rank approved = 6
milestone_rank release_pending = 7
milestone_rank released = 8

abbrev pub same_status : MilestoneStatus → MilestoneStatus → Bool
same_status a b = milestone_rank a == milestone_rank b

pub record MilestoneEvent : Type 0 where
  pub actor_user_id : Option Uuid
  pub from_status : MilestoneStatus
  pub to_status : MilestoneStatus

pub record Milestone : Type 0 where
  pub id : Uuid
  pub contract_version_id : Uuid
  pub sequence : ℕ
  pub amount_minor : ℤ
  pub currency : Text
  pub status : MilestoneStatus
  pub events : List MilestoneEvent
