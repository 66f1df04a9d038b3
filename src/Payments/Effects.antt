-- ===== src/Payments/Effects.antt =====
-- Writes that the services share: audit events (app/audit/service.py), outbox events
-- (app/common/outbox.py), and rows added to or put back into a table.
pub mod Framed
use freelancing_platform.Prelude.{Bool, not, Option, none, some, List, ◌∷◌, ◌&&◌, is_some}
use freelancing_platform.Database.Rows.Texts.{Text, Uuid}
use freelancing_platform.Database.Rows.Contract.{
  Contract, ContractVersion, ContractSignature, Milestone,
}
use freelancing_platform.Database.Rows.Proposal.{Proposal}
use freelancing_platform.Database.Rows.Dispute.{Dispute}
use freelancing_platform.Database.Rows.Payment.{
  FinancialIdempotencyKey, PaymentIntent, MilestoneEscrow, MilestoneFunding, Refund, ProviderEvent,
  ReconciliationRun,
}
use freelancing_platform.Database.Rows.Payout.{Payout, PayoutProviderAccount}
use freelancing_platform.Database.Rows.Event.{
  OutboxEvent, AuditState, AuditAction, state_hash_required, AuditEvent,
}
use freelancing_platform.Database.Tables.{
  Db, put_milestone, put_contract, put_intent, put_refund, put_payout, put_dispute, put_proposal,
  put_destination, put_key, put_event, put_run,
}
use freelancing_platform.Database.Environment.{Environment, value_error, missing_audit_state}
use freelancing_platform.Database.Session.{Action, ◌>>=◌, ◌>>◌, raise_if, modify}

-- `audit_state_hash`
abbrev hash_of_state : Environment → Option AuditState → Option Text
hash_of_state env none = none
hash_of_state env (some state) = some (env.state_hash state)

abbrev pub add_audit_event : AuditEvent → Db → Db
add_audit_event e db = record db { audit_events = e ∷ db.audit_events }

-- The states are those that the call passes or, where it passes none, those under `before` and `after`
-- in its metadata, as the disputes service does.
unfoldable pub record_audit_event :
    Environment
    → AuditAction
    → Uuid
    → Option Uuid
    → Option AuditState
    → Option AuditState
    → Action (Unit {0})
record_audit_event env action resource actor previous new = do
  raise_if (state_hash_required action && not (is_some previous && is_some new))
      (value_error missing_audit_state)
  modify (
      add_audit_event (record {
        actor_user_id = actor;
        action = action;
        resource_id = resource;
        previous_state_hash = hash_of_state env previous;
        new_state_hash = hash_of_state env new;
      }))

abbrev add_outbox_event : OutboxEvent → Db → Db
add_outbox_event e db = record db { outbox_events = e ∷ db.outbox_events }

unfoldable pub enqueue_outbox_event : OutboxEvent → Action (Unit {0})
enqueue_outbox_event e = modify (add_outbox_event e)

unfoldable pub save_milestone : Milestone → Action (Unit {0})
save_milestone m = modify (put_milestone m)

unfoldable pub save_contract : Contract → Action (Unit {0})
save_contract c = modify (put_contract c)

unfoldable pub save_intent : PaymentIntent → Action (Unit {0})
save_intent i = modify (put_intent i)

unfoldable pub save_refund : Refund → Action (Unit {0})
save_refund r = modify (put_refund r)

unfoldable pub save_payout : Payout → Action (Unit {0})
save_payout p = modify (put_payout p)

unfoldable pub save_key : FinancialIdempotencyKey → Action (Unit {0})
save_key k = modify (put_key k)

unfoldable pub save_event : ProviderEvent → Action (Unit {0})
save_event e = modify (put_event e)

unfoldable pub save_run : ReconciliationRun → Action (Unit {0})
save_run r = modify (put_run r)

abbrev with_key : FinancialIdempotencyKey → Db → Db
with_key k db = record db { idempotency_keys = k ∷ db.idempotency_keys }

unfoldable pub add_key : FinancialIdempotencyKey → Action (Unit {0})
add_key k = modify (with_key k)

abbrev with_intent : PaymentIntent → Db → Db
with_intent i db = record db { payment_intents = i ∷ db.payment_intents }

unfoldable pub add_intent : PaymentIntent → Action (Unit {0})
add_intent i = modify (with_intent i)

abbrev with_escrow : MilestoneEscrow → Db → Db
with_escrow e db = record db { milestone_escrows = e ∷ db.milestone_escrows }

unfoldable pub add_escrow : MilestoneEscrow → Action (Unit {0})
add_escrow e = modify (with_escrow e)

abbrev with_funding : MilestoneFunding → Db → Db
with_funding f db = record db { milestone_fundings = f ∷ db.milestone_fundings }

unfoldable pub add_funding : MilestoneFunding → Action (Unit {0})
add_funding f = modify (with_funding f)

abbrev with_refund : Refund → Db → Db
with_refund r db = record db { refunds = r ∷ db.refunds }

unfoldable pub add_refund : Refund → Action (Unit {0})
add_refund r = modify (with_refund r)

abbrev with_signature : ContractSignature → Db → Db
with_signature s db = record db { contract_signatures = s ∷ db.contract_signatures }

unfoldable pub add_signature : ContractSignature → Action (Unit {0})
add_signature s = modify (with_signature s)

abbrev with_payout : Payout → Db → Db
with_payout p db = record db { payouts = p ∷ db.payouts }

unfoldable pub add_payout : Payout → Action (Unit {0})
add_payout p = modify (with_payout p)

unfoldable pub save_dispute : Dispute → Action (Unit {0})
save_dispute d = modify (put_dispute d)

abbrev with_dispute : Dispute → Db → Db
with_dispute d db = record db { disputes = d ∷ db.disputes }

unfoldable pub add_dispute : Dispute → Action (Unit {0})
add_dispute d = modify (with_dispute d)

unfoldable pub save_proposal : Proposal → Action (Unit {0})
save_proposal p = modify (put_proposal p)

abbrev with_proposal : Proposal → Db → Db
with_proposal p db = record db { proposals = p ∷ db.proposals }

unfoldable pub add_proposal : Proposal → Action (Unit {0})
add_proposal p = modify (with_proposal p)

abbrev with_contract : Contract → Db → Db
with_contract c db = record db { contracts = c ∷ db.contracts }

unfoldable pub add_contract : Contract → Action (Unit {0})
add_contract c = modify (with_contract c)

abbrev with_version : ContractVersion → Db → Db
with_version v db = record db { contract_versions = v ∷ db.contract_versions }

unfoldable pub add_version : ContractVersion → Action (Unit {0})
add_version v = modify (with_version v)

abbrev with_milestone : Milestone → Db → Db
with_milestone m db = record db { milestones = m ∷ db.milestones }

unfoldable pub add_milestone : Milestone → Action (Unit {0})
add_milestone m = modify (with_milestone m)

unfoldable pub save_destination : PayoutProviderAccount → Action (Unit {0})
save_destination a = modify (put_destination a)

abbrev with_destination : PayoutProviderAccount → Db → Db
with_destination a db = record db { payout_provider_accounts = a ∷ db.payout_provider_accounts }

unfoldable pub add_destination : PayoutProviderAccount → Action (Unit {0})
add_destination a = modify (with_destination a)

abbrev with_event : ProviderEvent → Db → Db
with_event e db = record db { provider_events = e ∷ db.provider_events }

unfoldable pub add_event : ProviderEvent → Action (Unit {0})
add_event e = modify (with_event e)

abbrev with_run : ReconciliationRun → Db → Db
with_run r db = record db { reconciliation_runs = r ∷ db.reconciliation_runs }

unfoldable pub add_run : ReconciliationRun → Action (Unit {0})
add_run r = modify (with_run r)
