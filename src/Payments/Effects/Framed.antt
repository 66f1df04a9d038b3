-- ===== src/Payments/Effects/Framed.antt =====
-- The shared writes leave the ledger alone, and keep every framed property.
use freelancing_platform.Prelude.{Option, refl}
use freelancing_platform.Database.Rows.Texts.{Uuid}
use freelancing_platform.Database.Rows.Contract.{
  Contract, ContractVersion, ContractSignature, Milestone,
}
use freelancing_platform.Database.Rows.Proposal.{Proposal}
use freelancing_platform.Database.Rows.Dispute.{Dispute}
use freelancing_platform.Database.Rows.Payment.{
  FinancialIdempotencyKey, PaymentIntent, MilestoneEscrow, MilestoneFunding, Refund, ProviderEvent,
  ReconciliationRun,
}
use freelancing_platform.Database.Rows.Payout.{Payout, PayoutProviderAccount}
use freelancing_platform.Database.Rows.Event.{OutboxEvent, AuditState, AuditAction, AuditEvent}
use freelancing_platform.Database.Environment.{Environment}
use freelancing_platform.Database.Session.{modify}
use freelancing_platform.Database.Session.Keeps.{Keeps, keeps_rules}
use freelancing_platform.Payments.Effects.{
  add_audit_event, record_audit_event, enqueue_outbox_event, save_milestone, save_contract,
  save_intent, save_refund, save_key, save_event, save_run, add_key, add_intent, add_escrow,
  add_funding, add_refund, add_event, add_run, add_payout, save_payout, add_dispute, save_dispute,
  add_signature, save_destination, add_destination, save_proposal, add_proposal, add_contract,
  add_version, add_milestone,
}
use freelancing_platform.Database.Session.{Session}
use freelancing_platform.Ledger.Frame.{Quiet, modify-Keeps}

module _ {Q : Session → Type 0} (quiet : Quiet Q) where
  pub audit_row-Keeps : (e : AuditEvent) → Keeps Q (modify (add_audit_event e))
  audit_row-Keeps e = modify-Keeps quiet _ (λ db. refl)

  pub record_audit_event-Keeps :
      (env : Environment) (action : AuditAction) (resource : Uuid) (actor : Option Uuid)
      (previous new : Option AuditState)
      → Keeps Q (record_audit_event env action resource actor previous new)
  unfolding record_audit_event
  record_audit_event-Keeps env action resource actor previous new =
      search (keeps_rules, audit_row-Keeps)

  pub outbox-Keeps : (e : OutboxEvent) → Keeps Q (enqueue_outbox_event e)
  unfolding enqueue_outbox_event
  outbox-Keeps e = modify-Keeps quiet _ (λ db. refl)

  pub save_milestone-Keeps : (m : Milestone) → Keeps Q (save_milestone m)
  unfolding save_milestone
  save_milestone-Keeps m = modify-Keeps quiet _ (λ db. refl)

  pub save_contract-Keeps : (c : Contract) → Keeps Q (save_contract c)
  unfolding save_contract
  save_contract-Keeps c = modify-Keeps quiet _ (λ db. refl)

  pub save_intent-Keeps : (i : PaymentIntent) → Keeps Q (save_intent i)
  unfolding save_intent
  save_intent-Keeps i = modify-Keeps quiet _ (λ db. refl)

  pub save_refund-Keeps : (r : Refund) → Keeps Q (save_refund r)
  unfolding save_refund
  save_refund-Keeps r = modify-Keeps quiet _ (λ db. refl)

  pub save_key-Keeps : (k : FinancialIdempotencyKey) → Keeps Q (save_key k)
  unfolding save_key
  save_key-Keeps k = modify-Keeps quiet _ (λ db. refl)

  pub save_event-Keeps : (e : ProviderEvent) → Keeps Q (save_event e)
  unfolding save_event
  save_event-Keeps e = modify-Keeps quiet _ (λ db. refl)

  pub save_run-Keeps : (r : ReconciliationRun) → Keeps Q (save_run r)
  unfolding save_run
  save_run-Keeps r = modify-Keeps quiet _ (λ db. refl)

  pub add_key-Keeps : (k : FinancialIdempotencyKey) → Keeps Q (add_key k)
  unfolding add_key
  add_key-Keeps k = modify-Keeps quiet _ (λ db. refl)

  pub add_intent-Keeps : (i : PaymentIntent) → Keeps Q (add_intent i)
  unfolding add_intent
  add_intent-Keeps i = modify-Keeps quiet _ (λ db. refl)

  pub add_escrow-Keeps : (e : MilestoneEscrow) → Keeps Q (add_escrow e)
  unfolding add_escrow
  add_escrow-Keeps e = modify-Keeps quiet _ (λ db. refl)

  pub add_funding-Keeps : (f : MilestoneFunding) → Keeps Q (add_funding f)
  unfolding add_funding
  add_funding-Keeps f = modify-Keeps quiet _ (λ db. refl)

  pub add_refund-Keeps : (r : Refund) → Keeps Q (add_refund r)
  unfolding add_refund
  add_refund-Keeps r = modify-Keeps quiet _ (λ db. refl)

  pub add_event-Keeps : (e : ProviderEvent) → Keeps Q (add_event e)
  unfolding add_event
  add_event-Keeps e = modify-Keeps quiet _ (λ db. refl)

  pub add_run-Keeps : (r : ReconciliationRun) → Keeps Q (add_run r)
  unfolding add_run
  add_run-Keeps r = modify-Keeps quiet _ (λ db. refl)

  pub add_signature-Keeps : (s : ContractSignature) → Keeps Q (add_signature s)
  unfolding add_signature
  add_signature-Keeps s = modify-Keeps quiet _ (λ db. refl)

  pub add_payout-Keeps : (p : Payout) → Keeps Q (add_payout p)
  unfolding add_payout
  add_payout-Keeps p = modify-Keeps quiet _ (λ db. refl)

  pub save_payout-Keeps : (p : Payout) → Keeps Q (save_payout p)
  unfolding save_payout
  save_payout-Keeps p = modify-Keeps quiet _ (λ db. refl)

  pub add_dispute-Keeps : (d : Dispute) → Keeps Q (add_dispute d)
  unfolding add_dispute
  add_dispute-Keeps d = modify-Keeps quiet _ (λ db. refl)

  pub save_dispute-Keeps : (d : Dispute) → Keeps Q (save_dispute d)
  unfolding save_dispute
  save_dispute-Keeps d = modify-Keeps quiet _ (λ db. refl)

  pub save_proposal-Keeps : (p : Proposal) → Keeps Q (save_proposal p)
  unfolding save_proposal
  save_proposal-Keeps p = modify-Keeps quiet _ (λ db. refl)

  pub add_proposal-Keeps : (p : Proposal) → Keeps Q (add_proposal p)
  unfolding add_proposal
  add_proposal-Keeps p = modify-Keeps quiet _ (λ db. refl)

  pub add_contract-Keeps : (c : Contract) → Keeps Q (add_contract c)
  unfolding add_contract
  add_contract-Keeps c = modify-Keeps quiet _ (λ db. refl)

  pub add_version-Keeps : (v : ContractVersion) → Keeps Q (add_version v)
  unfolding add_version
  add_version-Keeps v = modify-Keeps quiet _ (λ db. refl)

  pub add_milestone-Keeps : (m : Milestone) → Keeps Q (add_milestone m)
  unfolding add_milestone
  add_milestone-Keeps m = modify-Keeps quiet _ (λ db. refl)

  pub save_destination-Keeps : (a : PayoutProviderAccount) → Keeps Q (save_destination a)
  unfolding save_destination
  save_destination-Keeps a = modify-Keeps quiet _ (λ db. refl)

  pub add_destination-Keeps : (a : PayoutProviderAccount) → Keeps Q (add_destination a)
  unfolding add_destination
  add_destination-Keeps a = modify-Keeps quiet _ (λ db. refl)

pub ruleset effect_rules = (
  record_audit_event-Keeps, outbox-Keeps, save_milestone-Keeps, save_contract-Keeps,
  save_intent-Keeps, save_refund-Keeps, save_key-Keeps, save_event-Keeps, save_run-Keeps,
  add_key-Keeps, add_intent-Keeps, add_escrow-Keeps, add_funding-Keeps, add_refund-Keeps,
  add_event-Keeps, add_run-Keeps, add_signature-Keeps, add_payout-Keeps, save_payout-Keeps,
  add_dispute-Keeps, save_dispute-Keeps, save_proposal-Keeps, add_proposal-Keeps,
  add_contract-Keeps, add_version-Keeps, add_milestone-Keeps, save_destination-Keeps,
  add_destination-Keeps,
)
