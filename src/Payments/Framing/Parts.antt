-- ===== src/Payments/Framing/Parts.antt =====
-- The steps of funding and capture that do not commit keep every framed property.
use freelancing_platform.Prelude.{Option, none, some, List, [], ◌∷◌}
use freelancing_platform.Database.Rows.Texts.{Text, Uuid}
use freelancing_platform.Database.Rows.Ledger.{JournalTransaction}
use freelancing_platform.Database.Rows.Contract.{ContractVersion, Milestone}
use freelancing_platform.Database.Rows.Payment.{
  PaymentIntent, MilestoneEscrow, EventType, payment_captured, payment_failed, other_event,
  ProviderEvent, Discrepancy, ReconciliationRun,
}
use freelancing_platform.Database.Environment.{
  Environment, PaymentProvider, VerifiedWebhook, JsonValue, json_string, json_int,
}
use freelancing_platform.Payments.Reconcile.{
  compare_remote, check_reference, check_intents, report_discrepancies,
}
use freelancing_platform.Database.Session.Keeps.{Keeps, Keeps-pure, Keeps-bind}
use freelancing_platform.Payments.Framing.Shared.{shared_rules}
use freelancing_platform.Payments.Fund.{flush_intent}
use freelancing_platform.Payments.Capture.{
  OpenEscrow, open_escrow, record_funding, book_capture, finish_capture, capture_pending,
  report_captured, capture_intent,
}
use freelancing_platform.Payments.Webhook.{
  duplicate_event, webhook_string, webhook_int, apply_captured, mark_failed, apply_failed,
  apply_event,
}
use freelancing_platform.Payments.Reconcile.{
  compare_remote, check_reference, check_intents, report_discrepancies,
}
use freelancing_platform.Database.Session.{Session}
use freelancing_platform.Ledger.Frame.{Quiet, Frame}

module _ {Q : Session → Type 0} (quiet : Quiet Q) where
  pub flush_intent-Keeps : (i : PaymentIntent) → Keeps Q (flush_intent i)
  unfolding flush_intent
  flush_intent-Keeps i = search shared_rules

  pub open_escrow-Keeps :
      (m : Milestone) (v : ContractVersion) (e : Option MilestoneEscrow)
      → Keeps Q (open_escrow m v e)
  unfolding open_escrow
  open_escrow-Keeps m v none = search shared_rules depth 7
  open_escrow-Keeps m v (some e) = search shared_rules

  pub record_funding-Keeps :
      (e : MilestoneEscrow) (i : PaymentIntent) (j : JournalTransaction)
      → Keeps Q (record_funding e i j)
  unfolding record_funding
  record_funding-Keeps e i j = search shared_rules depth 7

module _ {Q : Session → Type 0} (frame : Frame Q) where
  module _ (env : Environment) where
    pub book_capture-Keeps :
        (i : PaymentIntent) (actor : Option Uuid) (m : Milestone) (o : OpenEscrow)
        → Keeps Q (book_capture env i actor m o)
    unfolding book_capture finish_capture
    book_capture-Keeps i actor m o = search (shared_rules, record_funding-Keeps) depth 13

    pub capture_pending-Keeps :
        (i : PaymentIntent) (actor : Option Uuid) → Keeps Q (capture_pending env i actor)
    unfolding capture_pending
    capture_pending-Keeps i actor =
        search (shared_rules, open_escrow-Keeps, book_capture-Keeps) depth 12

    pub report_captured-Keeps : (i : PaymentIntent) → Keeps Q (report_captured env i)
    unfolding report_captured
    report_captured-Keeps i = search shared_rules

    pub capture_intent-Keeps :
        (i : PaymentIntent) (actor : Option Uuid) → Keeps Q (capture_intent env i actor)
    unfolding capture_intent
    capture_intent-Keeps i actor =
        search (shared_rules, capture_pending-Keeps, report_captured-Keeps)

    pub webhook_string-Keeps : (v : JsonValue) → Keeps Q (webhook_string env v)
    unfolding webhook_string
    webhook_string-Keeps (json_string t) = search shared_rules
    webhook_string-Keeps _ = search shared_rules

    pub webhook_int-Keeps : (v : JsonValue) → Keeps Q (webhook_int env v)
    unfolding webhook_int
    webhook_int-Keeps (json_int n) = search shared_rules
    webhook_int-Keeps _ = search shared_rules

    ruleset webhook_rules =
        (shared_rules, capture_intent-Keeps, webhook_string-Keeps, webhook_int-Keeps)

    pub apply_captured-Keeps :
        (p : PaymentProvider) (w : VerifiedWebhook) → Keeps Q (apply_captured env p w)
    unfolding apply_captured
    apply_captured-Keeps p w = search webhook_rules depth 10

    pub mark_failed-Keeps : (i : Option PaymentIntent) → Keeps Q (mark_failed env i)
    unfolding mark_failed
    mark_failed-Keeps none = search shared_rules
    mark_failed-Keeps (some i) = search shared_rules

    pub apply_event-Keeps :
        (t : EventType) (p : PaymentProvider) (w : VerifiedWebhook)
        → Keeps Q (apply_event env t p w)
    unfolding apply_event apply_failed
    apply_event-Keeps payment_captured p w = apply_captured-Keeps p w
    apply_event-Keeps payment_failed p w = search (webhook_rules, mark_failed-Keeps)
    apply_event-Keeps (other_event t) p w = search shared_rules

    pub duplicate_event-Keeps : (h : Text) (e : ProviderEvent) → Keeps Q (duplicate_event h e)
    unfolding duplicate_event
    duplicate_event-Keeps h e = search shared_rules

module _ {Q : Session → Type 0} (quiet : Quiet Q) where
  check_reference-Keeps :
      (p : PaymentProvider) (i : PaymentIntent) (r : Option Text) → Keeps Q (check_reference p i r)
  unfolding check_reference compare_remote
  check_reference-Keeps p i none = search shared_rules
  check_reference-Keeps p i (some r) = search shared_rules

  pub check_intents-Keeps :
      (p : PaymentProvider) (is : List PaymentIntent) → Keeps Q (check_intents p is)
  unfolding check_intents
  check_intents-Keeps p [] = search shared_rules
  check_intents-Keeps p (i ∷ rest) =
      Keeps-bind _ _ (check_reference-Keeps p i i.provider_reference)
        (λ first. Keeps-bind _ _ (check_intents-Keeps p rest) (λ others. Keeps-pure _))

  pub report_discrepancies-Keeps :
      (ds : List Discrepancy) (r : ReconciliationRun) → Keeps Q (report_discrepancies ds r)
  unfolding report_discrepancies
  report_discrepancies-Keeps [] r = search shared_rules
  report_discrepancies-Keeps (d ∷ ds) r = search shared_rules
