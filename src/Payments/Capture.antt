-- ===== src/Payments/Capture.antt =====
-- `_capture_intent` of app/payments/service.py: a captured payment becomes escrow.
pub mod Booked
use freelancing_platform.Prelude.{
  not, Option, none, some, [], ◌∷◌, ◌++◌, ◌&&◌, ◌||◌, ◌==◌, find?, is_some, if◌then◌else◌,
}
use freelancing_platform.Prelude.Int.{ℤ, ◌+ℤ◌, ltb_ℤ, ◌==ℤ◌}
use freelancing_platform.Database.Rows.Texts.{Text, Uuid}
use freelancing_platform.Database.Rows.Ledger.{
  provider_clearing, milestone_escrow, clearing_key, escrow_key, LedgerAccount, debit, credit,
  milestone_fund, ref_payment_intent, JournalTransaction,
}
use freelancing_platform.Database.Rows.Contract.{
  ContractVersion, created, funded, same_status, Milestone,
}
use freelancing_platform.Database.Rows.Payment.{
  PaymentIntent, captured, same_intent_status, MilestoneEscrow, Body,
}
use freelancing_platform.Database.Rows.Event.{milestone_funded, milestone_funded_action}
use freelancing_platform.Database.Environment.{
  Environment, api, runtime_error, invalid_transition, escrow_overfund,
}
use freelancing_platform.Database.Session.{Action, pure, gets, ◌>>=◌, ◌>>◌, raise_if, fresh_id}
use freelancing_platform.Ledger.{
  Identity, get_or_create_account, JournalRequest, post_journal, account_balance_minor,
}
use freelancing_platform.Payments.Effects.{
  add_escrow, add_funding, save_intent, save_milestone, enqueue_outbox_event, record_audit_event,
}
use freelancing_platform.Payments.Queries.{
  get_milestone, version_of, locked_contract, require_active_contract, find_escrow,
  escrow_account_of, financial_state, contract_commission_bps,
}

-- An escrow and its ledger account.
pub record OpenEscrow : Type 0 where
  pub escrow : MilestoneEscrow
  pub account : LedgerAccount

abbrev pub escrow_identity : Milestone → Identity
escrow_identity m = record {
  account_key = escrow_key m.id m.currency;
  account_type = milestone_escrow;
  currency = m.currency;
  owner_user_id = none;
  milestone_id = some m.id;
}

abbrev pub clearing_identity : Text → Text → Identity
clearing_identity provider currency = record {
  account_key = clearing_key provider currency;
  account_type = provider_clearing;
  currency = currency;
  owner_user_id = none;
  milestone_id = none;
}

-- The escrow of a milestone, opened with the commission of its contract if there is none.
unfoldable pub open_escrow :
    Milestone → ContractVersion → Option MilestoneEscrow → Action OpenEscrow
open_escrow m version (some escrow) = do
  account ← escrow_account_of escrow
  pure (record { escrow = escrow; account = account })
open_escrow m version none = do
  account ← get_or_create_account (escrow_identity m)
  bps ← contract_commission_bps version.commission
  id ← fresh_id
  let escrow : MilestoneEscrow = record {
    id = id;
    milestone_id = m.id;
    escrow_account_id = account.id;
    commission_bps = bps;
  }
  add_escrow escrow
  pure (record { escrow = escrow; account = account })

abbrev pub fund_request : PaymentIntent → LedgerAccount → LedgerAccount → JournalRequest
fund_request i clearing escrow_account = record {
  operation = milestone_fund;
  reference_type = ref_payment_intent;
  reference_id = i.id;
  reversal_of_id = none;
  postings =
      record { account = clearing; direction = debit; amount_minor = i.amount_minor }
      ∷ record { account = escrow_account; direction = credit; amount_minor = i.amount_minor }
      ∷ [];
}

-- The funding row, unless the intent has one.
unfoldable pub record_funding :
    MilestoneEscrow → PaymentIntent → JournalTransaction → Action (Unit {0})
record_funding escrow i journal = do
  existing ← gets (λ db. find? (λ f. f.payment_intent_id == i.id) db.milestone_fundings)
  if is_some existing then pure tt else do
    id ← fresh_id
    add_funding (record {
      id = id;
      escrow_id = escrow.id;
      payment_intent_id = i.id;
      journal_transaction_id = journal.id;
      amount_minor = i.amount_minor;
    })

abbrev pub funded_by : Option Uuid → Milestone → Milestone
funded_by actor m = record m {
  status = funded;
  events =
      m.events ++ record { actor_user_id = actor; from_status = m.status; to_status = funded } ∷ [];
}

-- The milestone once its escrow holds `after`.
abbrev pub after_capture : Option Uuid → ℤ → Milestone → Milestone
after_capture actor after m =
    if (after ==ℤ m.amount_minor) && not (same_status m.status funded) then funded_by actor m else m

module _ (env : Environment) where
  abbrev captured_intent : PaymentIntent → PaymentIntent
  captured_intent i = record i { status = captured; captured_at = some env.now }

  -- The part of `_capture_intent` from the posted journal on.
  unfoldable pub finish_capture :
      PaymentIntent → Option Uuid → Milestone → OpenEscrow → ℤ → JournalTransaction → Action Body
  finish_capture i actor m opened after journal = do
    record_funding opened.escrow i journal
    save_intent (captured_intent i)
    save_milestone (after_capture actor after m)
    enqueue_outbox_event (milestone_funded m.id i.id journal.id after)
    record_audit_event env milestone_funded_action m.id actor none none
    financial_state (after_capture actor after m)

  -- The part from the balance to the journal.
  unfoldable pub book_capture : PaymentIntent → Option Uuid → Milestone → OpenEscrow → Action Body
  book_capture i actor m opened = do
    before ← account_balance_minor opened.account
    raise_if (ltb_ℤ m.amount_minor (before +ℤ i.amount_minor)) (api escrow_overfund 409)
    clearing ← get_or_create_account (clearing_identity i.provider i.currency)
    journal ← post_journal (fund_request i clearing opened.account)
    finish_capture i actor m opened (before +ℤ i.amount_minor) journal

  unfoldable pub capture_pending : PaymentIntent → Option Uuid → Action Body
  capture_pending i actor = do
    m ← get_milestone i.milestone_id
    version ← version_of m
    c ← locked_contract version.contract_id
    require_active_contract c
    raise_if (not (same_status m.status created || same_status m.status funded))
        (api invalid_transition 409)
    raise_if (not (is_some i.provider_reference)) runtime_error
    escrow ← find_escrow m.id
    opened ← open_escrow m version escrow
    book_capture i actor m opened

  unfoldable pub report_captured : PaymentIntent → Action Body
  report_captured i = do m ← get_milestone i.milestone_id; financial_state m

  unfoldable pub capture_intent : PaymentIntent → Option Uuid → Action Body
  capture_intent i actor =
      if same_intent_status i.status captured then report_captured i else capture_pending i actor
