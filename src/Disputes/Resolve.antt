-- ===== src/Disputes/Resolve.antt =====
-- `resolve_dispute` of app/disputes/service.py: the escrow is split between the parties.
use freelancing_platform.Prelude.{
  Bool, true, not, Option, none, some, List, [], ◌∷◌, ◌++◌, map, ◌||◌, ◌&&◌, ◌==◌, any, same_id,
  is_some, if◌then◌else◌,
}
use freelancing_platform.Prelude.Int.{ℤ, pos, ◌-ℤ◌, ◌==ℤ◌, leb_ℤ}
use freelancing_platform.Database.Rows.Texts.{Text, Uuid}
use freelancing_platform.Database.Rows.Ledger.{
  LedgerAccount, JournalTransaction, debit, dispute_resolution, ref_dispute,
}
use freelancing_platform.Database.Rows.Contract.{
  Contract, Milestone, disputed, released, same_status,
}
use freelancing_platform.Database.Rows.Dispute.{
  User, Dispute, under_review, resolved, same_dispute_status, Outcome, DisputeDecision,
  DisputeEvent, resolved_event, state_snapshot, EventView, DisputeView,
}
use freelancing_platform.Database.Rows.Payment.{
  FinancialIdempotencyKey, MilestoneEscrow, Refund, refund_succeeded, dispute_operation,
  dispute_body,
}
use freelancing_platform.Database.Rows.Event.{dispute_resolved_action, dispute_resolved_notice}
use freelancing_platform.Database.Environment.{
  Environment, api, runtime_error, integrity_error, invalid_state, invalid_transition,
  validation_error, escrow_not_fully_funded, dispute_already_resolved, dispute_payload,
}
use freelancing_platform.Database.Session.{
  Action, pure, gets, require, ◌>>=◌, ◌>>◌, raise_if, fresh_id, commit,
}
use freelancing_platform.Ledger.{Posting, JournalRequest, post_journal, account_balance_minor}
use freelancing_platform.Payments.Effects.{save_dispute, save_milestone, add_refund}
use freelancing_platform.Payments.Queries.{
  Answer, get_milestone, contract_of, require_escrow, escrow_account_of,
}
use freelancing_platform.Payments.Idempotency.{
  claim_idempotency, complete_idempotency, stored_answer, answer_or,
}
use freelancing_platform.Payments.Release.{commission}
use freelancing_platform.Disputes.Amounts.{
  Amounts, resolution_amounts, freelancer_postings, Confirmed, confirm_unless_zero, posting_of,
}
use freelancing_platform.Disputes.{
  require_admin, required_text, get_dispute, notify_parties, audit_state_change,
}

abbrev view_event : DisputeEvent → EventView
view_event e = record {
  event_type = e.event_type;
  from_status = e.from_status;
  to_status = e.to_status;
  reason = e.reason;
}

unfoldable pub serialize_dispute : Dispute → DisputeView
serialize_dispute d = record {
  id = d.id;
  milestone_id = d.milestone_id;
  contract_id = d.contract_id;
  opened_by_user_id = d.opened_by_user_id;
  status = d.status;
  reason = d.reason;
  resolved_at = d.resolved_at;
  parties = d.parties;
  evidence = d.evidence;
  events = map view_event d.events;
  decision = d.decision;
}

-- `_require_reviewable_dispute`
unfoldable pub require_reviewable : Dispute → Action (Unit {0})
require_reviewable d = do
  raise_if (same_dispute_status d.status resolved || is_some d.decision)
      (api dispute_already_resolved 409)
  raise_if (not (same_dispute_status d.status under_review)) (api invalid_transition 409)

-- A call to resolve, with the rows that it is about.
pub record Resolution : Type 0 where
  pub key : FinancialIdempotencyKey
  pub administrator : User
  pub dispute : Dispute
  pub milestone : Milestone
  pub outcome : Outcome
  pub reason : Text
  pub idempotency_key : Text

abbrev pub resolution_request : Uuid → List Posting → JournalRequest
resolution_request dispute postings = record {
  operation = dispute_resolution;
  reference_type = ref_dispute;
  reference_id = dispute;
  reversal_of_id = none;
  postings = postings;
}

abbrev is_refund_of : Confirmed → Refund → Bool
is_refund_of c r = r.provider == c.provider && same_id r.provider_reference (some c.reference)

-- `_persist_resolution_refund`, with `uq_refunds_provider_reference` and the unique idempotency key.
unfoldable pub insert_refund : Resolution → Contract → Uuid → ℤ → Confirmed → Action (Option Refund)
insert_refund o c journal amount confirmed = do
  taken ←
      gets
        (λ db. any (λ r. is_refund_of confirmed r || r.idempotency_key_id == o.key.id) db.refunds)
  raise_if taken integrity_error
  id ← fresh_id
  let refund : Refund = record {
    id = id;
    milestone_id = o.milestone.id;
    employer_user_id = c.employer_user_id;
    journal_transaction_id = journal;
    idempotency_key_id = o.key.id;
    provider = confirmed.provider;
    provider_reference = some confirmed.reference;
    amount_minor = amount;
    currency = o.milestone.currency;
    status = refund_succeeded;
  }
  add_refund refund
  pure (some refund)

unfoldable pub persist_refund :
    Resolution → Contract → Uuid → ℤ → Option Confirmed → Action (Option Refund)
persist_refund o c journal amount confirmed =
    if amount ==ℤ pos 0
    then pure none
    else (do found ← require confirmed runtime_error; insert_refund o c journal amount found)

abbrev pub released_after_dispute : User → Milestone → Milestone
released_after_dispute user m = record m {
  status = released;
  events =
      m.events
      ++ record { actor_user_id = some user.id; from_status = disputed; to_status = released } ∷ [];
}

abbrev id_of_refund : Option Refund → Option Uuid
id_of_refund none = none
id_of_refund (some r) = some r.id

abbrev pub decision_of :
    Resolution → Uuid → Amounts → ℤ → JournalTransaction → Option Refund → DisputeDecision
decision_of o id amounts fee journal refund = record {
  id = id;
  administrator_user_id = o.administrator.id;
  outcome = o.outcome;
  freelancer_award_minor = amounts.award;
  freelancer_net_minor = amounts.award -ℤ fee;
  client_refund_minor = amounts.refund;
  commission_minor = fee;
  currency = o.milestone.currency;
  journal_transaction_id = journal.id;
  refund_id = id_of_refund refund;
  reason = o.reason;
}

abbrev pub resolved_dispute : Environment → Resolution → DisputeDecision → Dispute
resolved_dispute env o decision = record o.dispute {
  status = resolved;
  resolved_at = some env.now;
  decision = some decision;
  events =
      o.dispute.events
      ++ record {
        actor_user_id = o.administrator.id;
        event_type = resolved_event;
        from_status = some under_review;
        to_status = some resolved;
        reason = o.reason;
        before_state = state_snapshot o.milestone.status (some o.dispute.status) none;
        after_state = state_snapshot released (some resolved) (some o.outcome);
      }
        ∷ [];
}

module _ (env : Environment) where
  -- The call from the decision on.
  unfoldable pub close_dispute : Resolution → DisputeDecision → Action Answer
  close_dispute o decision = do
    save_milestone (released_after_dispute o.administrator o.milestone)
    let d = resolved_dispute env o decision
    save_dispute d
    audit_state_change env dispute_resolved_action d.id o.administrator.id
        (state_snapshot o.milestone.status (some o.dispute.status) none)
        (state_snapshot released (some resolved) (some o.outcome))
    notify_parties (λ p. true) d.id (dispute_resolved_notice o.outcome) d.parties
    complete_idempotency o.key 200 (dispute_body (serialize_dispute d))
    commit
    pure (dispute_body (serialize_dispute d), 200)

  -- The call from the posted journal on.
  unfoldable pub finish_resolution :
      Resolution → Contract → Amounts → ℤ → Option Confirmed → JournalTransaction → Action Answer
  finish_resolution o c amounts fee confirmed journal = do
    refund ← persist_refund o c journal.id amounts.refund confirmed
    id ← fresh_id
    close_dispute o (decision_of o id amounts fee journal refund)

  -- The call from the amounts to the journal.
  unfoldable pub book_resolution :
      Resolution → Contract → MilestoneEscrow → LedgerAccount → ℤ → Amounts → Action Answer
  book_resolution o c escrow account funded amounts = do
    let fee = commission amounts.award escrow.commission_bps
    credits ←
        freelancer_postings c.freelancer_user_id o.milestone.currency (amounts.award -ℤ fee) fee
    confirmed ← confirm_unless_zero env o.dispute.id o.milestone amounts.refund o.idempotency_key
    journal ← post_journal (
        resolution_request o.dispute.id (
          record { account = account; direction = debit; amount_minor = funded }
          ∷ (credits ++ posting_of confirmed)))
    finish_resolution o c amounts fee confirmed journal

  unfoldable pub resolve_funded :
      Resolution → MilestoneEscrow → LedgerAccount → ℤ → Option ℤ → Option ℤ → Action Answer
  resolve_funded o escrow account funded award refund = do
    amounts ← resolution_amounts o.outcome funded award refund
    c ← contract_of o.milestone
    book_resolution o c escrow account funded amounts

  unfoldable pub resolve_disputed : Resolution → Option ℤ → Option ℤ → Action Answer
  resolve_disputed o award refund = do
    raise_if (not (same_status o.milestone.status disputed)) (api invalid_state 409)
    escrow ← require_escrow o.milestone.id
    account ← escrow_account_of escrow
    funded ← account_balance_minor account
    raise_if (not (funded ==ℤ o.milestone.amount_minor) || leb_ℤ funded (pos 0))
        (api escrow_not_fully_funded 409)
    resolve_funded o escrow account funded award refund

  unfoldable pub resolve_claimed :
      FinancialIdempotencyKey
      → User
      → Dispute
      → Text
      → Text
      → Option ℤ
      → Option ℤ
      → Text
      → Action Answer
  resolve_claimed key administrator d outcome reason award refund idempotency_key = do
    require_reviewable d
    named ← require (env.outcome_named outcome) (api validation_error 422)
    m ← get_milestone d.milestone_id
    let o : Resolution = record {
      key = key;
      administrator = administrator;
      dispute = d;
      milestone = m;
      outcome = named;
      reason = reason;
      idempotency_key = idempotency_key;
    }
    resolve_disputed o award refund

  -- administrator, dispute, outcome, reason, award, refund, idempotency key
  unfoldable pub resolve_dispute :
      User → Uuid → Text → Text → Option ℤ → Option ℤ → Text → Action Answer
  resolve_dispute administrator dispute_id outcome reason award refund idempotency_key = do
    require_admin administrator
    d ← get_dispute dispute_id
    let normalized = env.upper (env.strip outcome)
    why ← required_text env reason 4000
    claim ←
        claim_idempotency env administrator.id dispute_operation idempotency_key
          (dispute_payload d.id normalized why award refund)
    answer_or (stored_answer claim)
        (resolve_claimed claim.key administrator d normalized why award refund idempotency_key)
