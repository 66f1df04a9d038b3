-- ===== src/Database/Rows/Dispute.antt =====
-- app/disputes/models.py, with the users who act on disputes (app/identity/models.py) and the files
-- that are evidence (app/files/models.py). A dispute owns its parties, evidence, events and decision.
-- Creation times, which no modelled code reads, are left out.
use freelancing_platform.Prelude.{ℕ, Bool, true, false, Option, List, ◌==◌}
use freelancing_platform.Prelude.Int.{ℤ}
use freelancing_platform.Database.Rows.Texts.{Text, Uuid}
use freelancing_platform.Database.Rows.Contract.{MilestoneStatus}

pub data Role : Type 0 where
  admin employer_account freelancer_account other_role : Role

abbrev pub is_freelancer_role : Role → Bool
is_freelancer_role freelancer_account = true
is_freelancer_role _ = false

pub record User : Type 0 where
  pub id : Uuid
  pub roles : List Role

pub data FilePurpose : Type 0 where
  dispute_evidence other_purpose : FilePurpose

pub data FileStatus : Type 0 where
  quarantined scanning safe rejected : FileStatus

pub record FileObject : Type 0 where
  pub id : Uuid
  pub owner_user_id : Uuid
  pub purpose : FilePurpose
  pub status : FileStatus

pub data DisputeStatus : Type 0 where
  dispute_open evidence_collection under_review need_more_info resolved : DisputeStatus

abbrev dispute_rank : DisputeStatus → ℕ
dispute_rank dispute_open = 0
dispute_rank evidence_collection = 1
dispute_rank under_review = 2
dispute_rank need_more_info = 3
dispute_rank resolved = 4

abbrev pub same_dispute_status : DisputeStatus → DisputeStatus → Bool
same_dispute_status a b = dispute_rank a == dispute_rank b

pub data Outcome : Type 0 where
  release_to_freelancer refund_client split : Outcome

pub data PartyRole : Type 0 where
  employer_role freelancer_role : PartyRole

pub record DisputeParty : Type 0 where
  pub user_id : Uuid
  pub role : PartyRole

pub record DisputeEvidence : Type 0 where
  pub id : Uuid
  pub submitted_by_user_id : Uuid
  pub file_id : Uuid
  pub note : Text

pub data DisputeEventType : Type 0 where
  opened_event evidence_added admin_transition_event resolved_event : DisputeEventType

-- `before_state` and `after_state`.
pub data Snapshot : Type 0 where
  state_snapshot : MilestoneStatus → Option DisputeStatus → Option Outcome → Snapshot
  evidence_count : ℕ → Snapshot

pub record DisputeEvent : Type 0 where
  pub actor_user_id : Uuid
  pub event_type : DisputeEventType
  pub from_status : Option DisputeStatus
  pub to_status : Option DisputeStatus
  pub reason : Text
  pub before_state : Snapshot
  pub after_state : Snapshot

pub record DisputeDecision : Type 0 where
  pub id : Uuid
  pub administrator_user_id : Uuid
  pub outcome : Outcome
  pub freelancer_award_minor : ℤ
  pub freelancer_net_minor : ℤ
  pub client_refund_minor : ℤ
  pub commission_minor : ℤ
  pub currency : Text
  pub journal_transaction_id : Uuid
  pub refund_id : Option Uuid
  pub reason : Text

pub record Dispute : Type 0 where
  pub id : Uuid
  pub milestone_id : Uuid
  pub contract_id : Uuid
  pub opened_by_user_id : Uuid
  pub status : DisputeStatus
  pub reason : Text
  pub resolved_at : Option ℕ
  pub parties : List DisputeParty
  pub evidence : List DisputeEvidence
  pub events : List DisputeEvent
  pub decision : Option DisputeDecision

-- `_serialize_event`
pub record EventView : Type 0 where
  pub event_type : DisputeEventType
  pub from_status : Option DisputeStatus
  pub to_status : Option DisputeStatus
  pub reason : Text

-- What `serialize_dispute` answers with: evidence and decision are shown whole.
pub record DisputeView : Type 0 where
  pub id : Uuid
  pub milestone_id : Uuid
  pub contract_id : Uuid
  pub opened_by_user_id : Uuid
  pub status : DisputeStatus
  pub reason : Text
  pub resolved_at : Option ℕ
  pub parties : List DisputeParty
  pub evidence : List DisputeEvidence
  pub events : List EventView
  pub decision : Option DisputeDecision
