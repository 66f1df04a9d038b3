-- ===== src/Payments/Reconcile.antt =====
-- `reconcile_provider` of app/payments/service.py.
pub mod Agreement
pub mod Reported
use freelancing_platform.Prelude.{
  Bool, true, false, Option, none, some, List, [], ◌∷◌, ◌++◌, ◌&&◌, ◌==◌, find?, select, is_some,
  length, if◌then◌else◌,
}
use freelancing_platform.Prelude.Int.{◌==ℤ◌}
use freelancing_platform.Database.Rows.Texts.{Text, Uuid}
use freelancing_platform.Database.Rows.Payment.{
  PaymentIntent, captured, same_intent_status, MilestoneFunding, Discrepancy, missing_reference,
  provider_or_ledger_mismatch, RunStatus, running, run_succeeded, mismatch, ReconciliationRun,
}
use freelancing_platform.Database.Rows.Event.{reconciliation_mismatch, payments_reconciled}
use freelancing_platform.Database.Environment.{
  Environment, PaymentProvider, ProviderResult, ProviderStatus, status_succeeded, status_captured,
}
use freelancing_platform.Database.Session.{Action, pure, gets, lift, ◌>>=◌, ◌>>◌, fresh_id, commit}
use freelancing_platform.Payments.Effects.{
  add_run, save_run, enqueue_outbox_event, record_audit_event,
}
use freelancing_platform.Payments.Queries.{get_provider}

abbrev pub is_settled : ProviderStatus → Bool
is_settled status_captured = true
is_settled status_succeeded = true
is_settled _ = false

-- The test on a captured intent, the provider's transaction and the funding row.
abbrev pub agrees : PaymentIntent → ProviderResult → Option MilestoneFunding → Bool
agrees i remote funding =
    is_some funding
    && ((remote.amount_minor ==ℤ i.amount_minor)
        && (remote.currency == i.currency && is_settled remote.status))

unfoldable pub compare_remote : PaymentProvider → PaymentIntent → Text → Action (List Discrepancy)
compare_remote provider i reference = do
  remote ← lift (provider.get_transaction reference)
  funding ← gets (λ db. find? (λ f. f.payment_intent_id == i.id) db.milestone_fundings)
  pure (
      if agrees i remote funding
      then []
      else record {
        payment_intent_id = i.id;
        provider_reference = some reference;
        reason = provider_or_ledger_mismatch;
      }
        ∷ [])

-- One round of the loop.
unfoldable pub check_reference :
    PaymentProvider → PaymentIntent → Option Text → Action (List Discrepancy)
check_reference provider i none = pure (
    record { payment_intent_id = i.id; provider_reference = none; reason = missing_reference } ∷ [])
check_reference provider i (some reference) = compare_remote provider i reference

unfoldable pub check_intents : PaymentProvider → List PaymentIntent → Action (List Discrepancy)
check_intents provider [] = pure []
check_intents provider (i ∷ rest) = do
  first ← check_reference provider i i.provider_reference
  others ← check_intents provider rest
  pure (first ++ others)

abbrev pub status_of : List Discrepancy → RunStatus
status_of [] = run_succeeded
status_of (_ ∷ _) = mismatch

-- The outbox event of a run that has found something.
unfoldable pub report_discrepancies : List Discrepancy → ReconciliationRun → Action (Unit {0})
report_discrepancies [] run = pure tt
report_discrepancies (_ ∷ _) run =
    enqueue_outbox_event (reconciliation_mismatch run.id run.provider run.discrepancy_count)

abbrev pub finished_run :
    Environment → Uuid → Text → List PaymentIntent → List Discrepancy → ReconciliationRun
finished_run env id provider intents discrepancies = record {
  id = id;
  provider = provider;
  status = status_of discrepancies;
  checked_count = length intents;
  discrepancy_count = length discrepancies;
  details = discrepancies;
  completed_at = some env.now;
}

abbrev new_run : Uuid → Text → ReconciliationRun
new_run id provider = record {
  id = id;
  provider = provider;
  status = running;
  checked_count = 0;
  discrepancy_count = 0;
  details = [];
  completed_at = none;
}

abbrev pub is_captured_at : Text → PaymentIntent → Bool
is_captured_at provider i = i.provider == provider && same_intent_status i.status captured

module _ (env : Environment) where
  unfoldable pub reconcile_provider : Text → Action ReconciliationRun
  reconcile_provider provider_name = do
    provider ← get_provider env provider_name
    id ← fresh_id
    add_run (new_run id provider.name)
    intents ← gets (λ db. select (is_captured_at provider.name) db.payment_intents)
    discrepancies ← check_intents provider intents
    let run = finished_run env id provider.name intents discrepancies
    save_run run
    report_discrepancies discrepancies run
    record_audit_event env payments_reconciled id none none none
    commit
    pure run
