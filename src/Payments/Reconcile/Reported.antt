-- ===== src/Payments/Reconcile/Reported.antt =====
-- The report of `reconcile_provider` of app/payments/service.py.
use freelancing_platform.Payments.Queries.Found.{get_provider-reads}
use freelancing_platform.Prelude.{
  ◌≡◌, ◌↔◌, refl, sym, ap, subst, ◌∙◌, none, List, [], ◌∷◌, select, length, All, arith,
}
use freelancing_platform.Database.Rows.Texts.{Text, Uuid}
use freelancing_platform.Database.Rows.Event.{payments_reconciled}
use freelancing_platform.Database.Rows.Payment.{
  PaymentIntent, MilestoneFunding, Discrepancy, ReconciliationRun, run_succeeded,
}
use freelancing_platform.Database.Environment.{Environment, PaymentProvider, ok}
use freelancing_platform.Database.Session.{Session, Action, pure, commit, ◌>>=◌, ◌>>◌}
use freelancing_platform.Database.Session.Steps.{pure_returned, ok_only, bind_inv, bind-reader}
use freelancing_platform.Payments.Effects.{add_run, save_run, record_audit_event}
use freelancing_platform.Payments.Queries.{get_provider}
use freelancing_platform.Payments.Reconcile.{
  status_of, finished_run, is_captured_at, check_intents, report_discrepancies, reconcile_provider,
}
use freelancing_platform.Payments.Reconcile.Agreement.{IsConfirmed, check_intents-IsConfirmed_iff}

-- An action returns one value only, if it returns.
abbrev ReturnsOnly : {A : Type 0} → A → Action A → Type 0
ReturnsOnly {A} v m = (s : Session) (a : A) → (m s).0 ≡ ok a → a ≡ v

after :
    {A B : Type 0} (v : B) (m : Action A) (f : A → Action B)
    → ((a : A) → ReturnsOnly v (f a))
    → ReturnsOnly v (m >>= f)
after v m f only s b h =
    let (a, e, to) = bind_inv m f s b h in only a (m s).1 b (sym (ap (λ x. x.0) to) ∙ h)

abbrev pub captured_at : PaymentProvider → List PaymentIntent → List PaymentIntent
captured_at p intents = select (is_captured_at p.name) intents

-- What a run says of the captured payments of a provider.
pub record IsReport (p : PaymentProvider) (intents : List PaymentIntent)
    (fundings : List MilestoneFunding) (run : ReconciliationRun) : Type 0 where
  pub counted : run.checked_count ≡ length (captured_at p intents)
  pub listed : run.discrepancy_count ≡ length run.details
  pub verdict : (run.status ≡ run_succeeded) ↔ All (IsConfirmed p fundings) (captured_at p intents)

succeeded_only : (ds : List Discrepancy) → status_of ds ≡ run_succeeded → ds ≡ []
succeeded_only [] h = refl
succeeded_only (d ∷ ds) h = ground arith

-- The end of a run, and the run from the select on.
module _ (env : Environment) (id : Uuid) (p : PaymentProvider) where
  abbrev finish_run : List PaymentIntent → List Discrepancy → Action ReconciliationRun
  finish_run is ds =
      let run = finished_run env id p.name is ds in
      save_run run
      >> (report_discrepancies ds run
          >> (record_audit_event env payments_reconciled id none none none >> (commit >> pure run)))

  finish_run_returned :
      (is : List PaymentIntent) (ds : List Discrepancy)
      → ReturnsOnly (finished_run env id p.name is ds) (finish_run is ds)
  finish_run_returned is ds =
      let run = finished_run env id p.name is ds in
      after run (save_run run) _ (λ _. after run (report_discrepancies ds run) _ (λ _.
        after run (record_audit_event env payments_reconciled id none none none) _
          (λ _. after run commit _ (λ _ s a h. pure_returned run a s h))))

  finished-IsReport :
      (s : Session) (ds : List Discrepancy)
      → (check_intents p (captured_at p s.live.payment_intents) s).0 ≡ ok ds
      → IsReport p s.live.payment_intents s.live.milestone_fundings
          (finished_run env id p.name (captured_at p s.live.payment_intents) ds)
  finished-IsReport s ds e =
      let (only, back) = check_intents-IsConfirmed_iff p s (captured_at p s.live.payment_intents) in
      record {
        counted = refl;
        listed = refl;
        verdict = (
          (λ succeeded. only (e ∙ ap ok (succeeded_only ds succeeded))),
          λ all_confirmed. ap status_of (ok_only ds [] (sym e ∙ back all_confirmed)),
        );
      }

  checked-IsReport :
      (s : Session) (run : ReconciliationRun)
      → ((check_intents p (captured_at p s.live.payment_intents)
            >>= finish_run (captured_at p s.live.payment_intents))
          s).0
        ≡ ok run
      → IsReport p s.live.payment_intents s.live.milestone_fundings run
  checked-IsReport s run h =
      let is = captured_at p s.live.payment_intents in
      let (ds, e, to) = bind_inv (check_intents p is) (finish_run is) s run h in
      subst (IsReport p s.live.payment_intents s.live.milestone_fundings)
        (sym (finish_run_returned is ds _ run (sym (ap (λ x. x.0) to) ∙ h)))
        (finished-IsReport s ds e)

module _ (env : Environment) (name : Text) (s : Session) (run : ReconciliationRun) where
  -- A reconciliation that returns has counted the captured payments of its provider and lists as many
  -- discrepancies as it says; its status is SUCCEEDED exactly when the provider confirms every one of
  -- these payments: a settled transaction of the same amount and currency, and a funded milestone.
  pub reconcile_provider-IsReport :
      (reconcile_provider env name s).0 ≡ ok run
      → (p : PaymentProvider) × (get_provider env name s ≡ (ok p, s))
        × IsReport p s.live.payment_intents s.live.milestone_fundings run
  unfolding reconcile_provider add_run ◌>>=◌
  reconcile_provider-IsReport returned =
      let (p, known, e) =
        bind-reader (get_provider env name) _ s run (get_provider-reads env name s) returned in
      (p, known, checked-IsReport env s.live.next_id p _ run (sym (ap (λ x. x.0) e) ∙ returned))
