-- ===== src/Payments/Atomic.antt =====
-- All or nothing: funding, webhooks, release and reconciliation commit at their very end, so a call
-- that raises has written nothing.
use freelancing_platform.Prelude.{
  arith, true, false, ◌≡◌, ◌∙◌, ap, inl, inr, Bool, Option, none, some,
}
use freelancing_platform.Database.Rows.Texts.{Text, Uuid}
use freelancing_platform.Database.Rows.Ledger.{LedgerAccount}
use freelancing_platform.Database.Rows.Contract.{Contract, Milestone}
use freelancing_platform.Database.Rows.Payment.{
  FinancialIdempotencyKey, PaymentIntent, MilestoneEscrow, ProviderEvent,
}
use freelancing_platform.Database.Tables.{Db}
use freelancing_platform.Database.Environment.{Environment, PaymentProvider, VerifiedWebhook, Error}
use freelancing_platform.Database.Session.{Arriving, Action}
use freelancing_platform.Database.Session.Keeps.{Keeps}
use freelancing_platform.Database.Session.Atomic.{
  SavedIs, IsAtomic, IsAtomic-pure, atomic_rules, run_raises,
}
use freelancing_platform.Ledger.{JournalRequest, post_journal}
use freelancing_platform.Ledger.Outcome.{post_journal_cases}
use freelancing_platform.Ledger.Frame.{Frame}
use freelancing_platform.Payments.Queries.{Answer}
use freelancing_platform.Payments.Idempotency.{answer_or}
use freelancing_platform.Payments.Fund.{
  create_intent, join_active, join_existing, fund_claimed, fund_milestone,
}
use freelancing_platform.Payments.Webhook.{
  duplicate_event, process_event, deduplicate, process_provider_webhook,
}
use freelancing_platform.Payments.Release.{
  book_release, finish_release, release_approved, report_released, release_claimed,
  release_milestone,
}
use freelancing_platform.Payments.Reconcile.{reconcile_provider}
use freelancing_platform.Payments.Requests.{
  Request, fund, webhook, release, refund, reconcile, serve, raised, error_of-err,
}
use freelancing_platform.Payments.Framing.Shared.{shared_rules}
use freelancing_platform.Payments.Framing.Parts.{
  flush_intent-Keeps, apply_event-Keeps, check_intents-Keeps, report_discrepancies-Keeps,
}

post_journal-SavedIs : (db : Db) (r : JournalRequest) → Keeps (SavedIs db) (post_journal r)
post_journal-SavedIs db r = record {
  at = λ s h. elim (post_journal_cases r s) [
    | inl same ↦ ap (λ s. s.saved) same ∙ h
    | inr (c, accepted, absent, after) ↦ ap (λ s. s.saved) after ∙ h
  ];
}

-- No step but a commit writes the committed rows.
pub SavedIs-frame : (db : Db) → Frame (SavedIs db)
SavedIs-frame db = record {
  quiet = record { write = λ f same s h. h };
  post = post_journal-SavedIs db;
}

answer_or-IsAtomic :
    (a : Option Answer) (rest : Action Answer) → IsAtomic rest → IsAtomic (answer_or a rest)
unfolding answer_or
answer_or-IsAtomic none rest h = h
answer_or-IsAtomic (some a) rest h = IsAtomic-pure a

ruleset steps = (shared_rules, atomic_rules, SavedIs-frame, answer_or-IsAtomic)

module _ (env : Environment) where
  module _ (idem : FinancialIdempotencyKey) (m : Milestone) (user : Uuid) (name key : Text) where
    create_intent-IsAtomic : IsAtomic (create_intent env idem m user name key)
    unfolding create_intent
    create_intent-IsAtomic = search (steps, flush_intent-Keeps) depth 14

    join_active-IsAtomic :
        (active : Option PaymentIntent) → IsAtomic (join_active env idem m user name key active)
    unfolding join_active
    join_active-IsAtomic none = create_intent-IsAtomic
    join_active-IsAtomic (some i) = search steps depth 8

    join_existing-IsAtomic :
        (existing : Option PaymentIntent)
        → IsAtomic (join_existing env idem m user name key existing)
    unfolding join_existing
    join_existing-IsAtomic none = search (steps, join_active-IsAtomic) depth 8
    join_existing-IsAtomic (some i) = search steps depth 8

    fund_claimed-IsAtomic : IsAtomic (fund_claimed env idem m user name key)
    unfolding fund_claimed
    fund_claimed-IsAtomic = search (steps, join_existing-IsAtomic) depth 8

  fund_milestone-IsAtomic :
      (user milestone_id : Uuid) (name key : Text)
      → IsAtomic (fund_milestone env user milestone_id name key)
  unfolding fund_milestone
  fund_milestone-IsAtomic user milestone_id name key =
      search (steps, fund_claimed-IsAtomic) depth 12

  book_release-IsAtomic :
      (k : FinancialIdempotencyKey) (m : Milestone) (c : Contract) (e : MilestoneEscrow)
      (a : LedgerAccount) (user : Uuid)
      → IsAtomic (book_release env k m c e a user)
  unfolding book_release finish_release
  book_release-IsAtomic k m c e a user = search steps depth 16

  release_claimed-IsAtomic :
      (k : FinancialIdempotencyKey) (m : Milestone) (c : Contract) (user : Uuid)
      → IsAtomic (release_claimed env k m c user)
  unfolding release_claimed release_approved report_released
  release_claimed-IsAtomic k m c user = search (steps, book_release-IsAtomic) depth 12

  release_milestone-IsAtomic :
      (user milestone_id : Uuid) (key : Text)
      → IsAtomic (release_milestone env user milestone_id key)
  unfolding release_milestone
  release_milestone-IsAtomic user milestone_id key =
      search (steps, release_claimed-IsAtomic) depth 11

  duplicate_event-IsAtomic : (h : Text) (e : ProviderEvent) → IsAtomic (duplicate_event h e)
  unfolding duplicate_event
  duplicate_event-IsAtomic h e = search steps depth 8

  process_event-IsAtomic :
      (p : PaymentProvider) (w : VerifiedWebhook) (h : Text) (e : Option ProviderEvent)
      → IsAtomic (process_event env p w h e)
  unfolding process_event
  process_event-IsAtomic p w h none = search (steps, apply_event-Keeps) depth 11
  process_event-IsAtomic p w h (some e) = search (steps, duplicate_event-IsAtomic) depth 8

  deduplicate-IsAtomic :
      (p : PaymentProvider) (w : VerifiedWebhook) (h : Text) (e : Option ProviderEvent)
      → IsAtomic (deduplicate env p w h e)
  unfolding deduplicate
  deduplicate-IsAtomic p w h none = search (steps, process_event-IsAtomic) depth 8
  deduplicate-IsAtomic p w h (some e) = duplicate_event-IsAtomic h e

  process_provider_webhook-IsAtomic :
      (name payload signature : Text)
      → IsAtomic (process_provider_webhook env name payload signature)
  unfolding process_provider_webhook
  process_provider_webhook-IsAtomic name payload signature =
      search (steps, deduplicate-IsAtomic) depth 9

  reconcile_provider-IsAtomic : (name : Text) → IsAtomic (reconcile_provider env name)
  unfolding reconcile_provider
  reconcile_provider-IsAtomic name =
      search (steps, check_intents-Keeps, report_discrepancies-Keeps) depth 15

abbrev pub is_refund : Request → Bool
is_refund (refund _ _ _ _) = true
is_refund _ = false

-- A call to fund or to release a milestone, a webhook or a reconciliation that raises, wherever in
-- the call, leaves every committed row as it was.
pub raised_calls_write_nothing :
    (env : Environment) (a : Arriving) (request : Request) (db : Db) (e : Error)
    → is_refund request ≡ false
    → raised env a request db ≡ some e
    → serve env a request db ≡ db
unfolding serve raised
raised_calls_write_nothing env a (fund user m name key) db e other h =
    run_raises a _ db e (fund_milestone-IsAtomic env user m name key) (error_of-err _ e h)
raised_calls_write_nothing env a (webhook name payload signature) db e other h =
    run_raises a _ db e (process_provider_webhook-IsAtomic env name payload signature)
      (error_of-err _ e h)
raised_calls_write_nothing env a (release user m key) db e other h =
    run_raises a _ db e (release_milestone-IsAtomic env user m key) (error_of-err _ e h)
raised_calls_write_nothing env a (reconcile name) db e other h =
    run_raises a _ db e (reconcile_provider-IsAtomic env name) (error_of-err _ e h)
raised_calls_write_nothing env a (refund user m name key) db e other h = ground arith
