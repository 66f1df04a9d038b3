-- ===== src/Payments/Framing/Movements.antt =====
-- Funding, webhooks, release and reconciliation keep what the ledger and commits keep.
use freelancing_platform.Prelude.{Option, none, some}
use freelancing_platform.Database.Rows.Texts.{Text, Uuid}
use freelancing_platform.Database.Rows.Ledger.{LedgerAccount}
use freelancing_platform.Database.Rows.Contract.{Contract, Milestone}
use freelancing_platform.Database.Rows.Payment.{
  FinancialIdempotencyKey, PaymentIntent, MilestoneEscrow, ProviderEvent,
}
use freelancing_platform.Database.Environment.{Environment, PaymentProvider, VerifiedWebhook}
use freelancing_platform.Database.Session.Keeps.{Keeps}
use freelancing_platform.Payments.Framing.Shared.{shared_rules}
use freelancing_platform.Payments.Fund.{
  create_intent, join_active, join_existing, fund_claimed, fund_milestone,
}
use freelancing_platform.Payments.Webhook.{process_event, deduplicate, process_provider_webhook}
use freelancing_platform.Payments.Release.{
  book_release, finish_release, release_approved, report_released, release_claimed,
  release_milestone,
}
use freelancing_platform.Payments.Reconcile.{reconcile_provider}
use freelancing_platform.Database.Session.{Session, commit}
use freelancing_platform.Ledger.Frame.{Quiet, Frame}
use freelancing_platform.Payments.Framing.Parts.{
  flush_intent-Keeps, apply_event-Keeps, duplicate_event-Keeps, check_intents-Keeps,
  report_discrepancies-Keeps,
}

module _ {Q : Session → Type 0} (quiet : Quiet Q) (commits : Keeps Q commit) where
  module _ (env : Environment) (idem : FinancialIdempotencyKey) (m : Milestone) (user : Uuid) where
    create_intent-Keeps : (name key : Text) → Keeps Q (create_intent env idem m user name key)
    unfolding create_intent
    create_intent-Keeps name key = search (shared_rules, flush_intent-Keeps) depth 12

    join_active-Keeps :
        (name key : Text) (active : Option PaymentIntent)
        → Keeps Q (join_active env idem m user name key active)
    unfolding join_active
    join_active-Keeps name key none = create_intent-Keeps name key
    join_active-Keeps name key (some i) = search shared_rules

    join_existing-Keeps :
        (name key : Text) (existing : Option PaymentIntent)
        → Keeps Q (join_existing env idem m user name key existing)
    unfolding join_existing
    join_existing-Keeps name key none = search (shared_rules, join_active-Keeps)
    join_existing-Keeps name key (some i) = search shared_rules

    fund_claimed-Keeps : (name key : Text) → Keeps Q (fund_claimed env idem m user name key)
    unfolding fund_claimed
    fund_claimed-Keeps name key = search (shared_rules, join_existing-Keeps)

  -- Funding a milestone keeps what the ledger and commits keep, however it ends.
  pub fund_milestone-Keeps :
      (env : Environment) (user milestone_id : Uuid) (name key : Text)
      → Keeps Q (fund_milestone env user milestone_id name key)
  unfolding fund_milestone
  fund_milestone-Keeps env user milestone_id name key =
      search (shared_rules, fund_claimed-Keeps) depth 9

  -- Reconciliation keeps what the ledger and commits keep.
  pub reconcile_provider-Keeps :
      (env : Environment) (name : Text) → Keeps Q (reconcile_provider env name)
  unfolding reconcile_provider
  reconcile_provider-Keeps env name =
      search (shared_rules, check_intents-Keeps, report_discrepancies-Keeps) depth 12

module _ {Q : Session → Type 0} (frame : Frame Q) (commits : Keeps Q commit) where
  module _ (env : Environment) where
    process_event-Keeps :
        (p : PaymentProvider) (w : VerifiedWebhook) (h : Text) (e : Option ProviderEvent)
        → Keeps Q (process_event env p w h e)
    unfolding process_event
    process_event-Keeps p w h none = search (shared_rules, apply_event-Keeps) depth 9
    process_event-Keeps p w h (some e) = search (shared_rules, duplicate_event-Keeps)

    deduplicate-Keeps :
        (p : PaymentProvider) (w : VerifiedWebhook) (h : Text) (e : Option ProviderEvent)
        → Keeps Q (deduplicate env p w h e)
    unfolding deduplicate
    deduplicate-Keeps p w h none = search (shared_rules, process_event-Keeps)
    deduplicate-Keeps p w h (some e) = duplicate_event-Keeps frame env h e

    -- A webhook keeps what the ledger and commits keep, however it ends.
    pub process_provider_webhook-Keeps :
        (name payload signature : Text)
        → Keeps Q (process_provider_webhook env name payload signature)
    unfolding process_provider_webhook
    process_provider_webhook-Keeps name payload signature = search (shared_rules, deduplicate-Keeps)

    book_release-Keeps :
        (k : FinancialIdempotencyKey) (m : Milestone) (c : Contract) (e : MilestoneEscrow)
        (a : LedgerAccount) (user : Uuid)
        → Keeps Q (book_release env k m c e a user)
    unfolding book_release finish_release
    book_release-Keeps k m c e a user = search shared_rules depth 14

    release_claimed-Keeps :
        (k : FinancialIdempotencyKey) (m : Milestone) (c : Contract) (user : Uuid)
        → Keeps Q (release_claimed env k m c user)
    unfolding release_claimed release_approved report_released
    release_claimed-Keeps k m c user = search (shared_rules, book_release-Keeps) depth 10

    -- A release keeps what the ledger and commits keep, however it ends.
    pub release_milestone-Keeps :
        (user milestone_id : Uuid) (key : Text)
        → Keeps Q (release_milestone env user milestone_id key)
    unfolding release_milestone
    release_milestone-Keeps user milestone_id key =
        search (shared_rules, release_claimed-Keeps) depth 9
