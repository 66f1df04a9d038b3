-- ===== src/Database/Rows/Event.antt =====
-- Outbox rows (app/common/models.py) and audit rows (app/audit/models.py).
use freelancing_platform.Prelude.{ℕ, Bool, true, false, Option}
use freelancing_platform.Prelude.Int.{ℤ}
use freelancing_platform.Database.Rows.Texts.{Text, Uuid}
use freelancing_platform.Database.Rows.Contract.{MilestoneStatus, ContractStatus}
use freelancing_platform.Database.Rows.Payment.{RefundStatus}
use freelancing_platform.Database.Rows.Dispute.{Outcome, Snapshot}
use freelancing_platform.Database.Rows.Proposal.{ProposalStatus}
use freelancing_platform.Database.Rows.Payout.{PayoutStatus}

-- What a party to a dispute is told: the event, whose title and body are fixed but for the outcome.
pub data DisputeNotice : Type 0 where
  dispute_opened_notice : DisputeNotice
  dispute_resolved_notice : Outcome → DisputeNotice

-- One constructor for each event type, with the aggregate's id and the payload.
pub data OutboxEvent : Type 0 where
  milestone_funded : Uuid → Uuid → Uuid → ℤ → OutboxEvent
  milestone_released : Uuid → Uuid → OutboxEvent
  milestone_refunded : Uuid → Uuid → OutboxEvent
  payout_succeeded_event : Uuid → Text → OutboxEvent
  reconciliation_mismatch : Uuid → Text → ℕ → OutboxEvent
  notification_requested : Uuid → Uuid → DisputeNotice → OutboxEvent

-- The dicts whose hashes an audit event stores.
pub data AuditState : Type 0 where
  exists_state : Bool → AuditState
  milestone_state : MilestoneStatus → ℤ → Text → AuditState
  refund_state : RefundStatus → ℤ → Text → Text → Bool → AuditState
  payout_state : PayoutStatus → ℤ → Text → Text → Bool → Bool → Bool → AuditState
  both_states : AuditState → AuditState → AuditState
  contract_state : ContractStatus → ℕ → Text → Option Bool → AuditState
  snapshot_state : Snapshot → AuditState
  -- exists, provider, is active, reference
  destination_state : Bool → Text → Option Bool → Option Text → AuditState

pub data AuditAction : Type 0 where
  audit_milestone_step : MilestoneStatus → AuditAction
  payment_created payments_reconciled milestone_funded_action : AuditAction
  contract_signed contract_activated contract_cancelled : AuditAction
  milestone_released_action refund_reserved milestone_refunded_action : AuditAction
  refund_failed_action : AuditAction
  payout_reserved_action payout_succeeded_action payout_failed_action : AuditAction
  dispute_opened_action dispute_transitioned dispute_resolved_action : AuditAction
  dispute_evidence_added : AuditAction
  contract_created proposal_draft_created proposal_version_created : AuditAction
  proposal_moved : ProposalStatus → AuditAction
  destination_configured destination_disabled : AuditAction

-- Membership in `_STATE_HASH_REQUIRED_ACTIONS`. `start`, `submit`, `request_changes` and `approve`
-- record `milestone.{target}`, and none of those four is in the set.
abbrev pub state_hash_required : AuditAction → Bool
state_hash_required destination_configured = true
state_hash_required destination_disabled = true
state_hash_required contract_created = true
state_hash_required contract_signed = true
state_hash_required contract_activated = true
state_hash_required contract_cancelled = true
state_hash_required milestone_released_action = true
state_hash_required refund_reserved = true
state_hash_required milestone_refunded_action = true
state_hash_required refund_failed_action = true
state_hash_required payout_reserved_action = true
state_hash_required payout_succeeded_action = true
state_hash_required payout_failed_action = true
state_hash_required dispute_opened_action = true
state_hash_required dispute_transitioned = true
state_hash_required dispute_resolved_action = true
state_hash_required _ = false

pub record AuditEvent : Type 0 where
  pub actor_user_id : Option Uuid
  pub action : AuditAction
  pub resource_id : Uuid
  pub previous_state_hash : Option Text
  pub new_state_hash : Option Text
