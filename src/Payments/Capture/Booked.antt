-- ===== src/Payments/Capture/Booked.antt =====
-- What a capture that returns has booked: the payment is in escrow, and the escrow is not overfunded.
use freelancing_platform.Prelude.{
  Bool, true, false, ◌≡◌, ◌∙◌, refl, ap, sym, Option, none, List, find?, ◌==◌, ◌&&◌, arith,
}
use freelancing_platform.Prelude.Int.{ℤ, pos, ◌+ℤ◌, ◌≤ℤ◌, ltb_ℤ}
use freelancing_platform.Database.Tables.{Db}
use freelancing_platform.Database.Rows.Texts.{Uuid}
use freelancing_platform.Database.Rows.Ledger.{
  LedgerAccount, JournalTransaction, same_reference_type, ref_payment_intent, same_operation,
  milestone_fund,
}
use freelancing_platform.Database.Rows.Contract.{Milestone}
use freelancing_platform.Database.Rows.Payment.{PaymentIntent, Body}
use freelancing_platform.Database.Environment.{Environment, ok}
use freelancing_platform.Database.Session.{Session}
use freelancing_platform.Database.Session.Keeps.{Keeps}
use freelancing_platform.Database.Session.Steps.{bind_inv, bind-raise_if}
use freelancing_platform.Ledger.{
  same_identity, sum_journals, balance, get_or_create_account, post_journal,
}
use freelancing_platform.Ledger.Account.{get_or_create_account-IsStored}
use freelancing_platform.Ledger.Frame.{get_or_create_account-Keeps}
use freelancing_platform.Ledger.Transfer.{moved, transfer_posted}
use freelancing_platform.Ledger.Untouched.{LiveJournals, LiveJournals-Quiet}
use freelancing_platform.Payments.Queries.Found.{bind-balance}
use freelancing_platform.Payments.Framing.Shared.{shared_rules}
use freelancing_platform.Payments.Framing.Parts.{record_funding-Keeps}
use freelancing_platform.Payments.Capture.{
  OpenEscrow, clearing_identity, fund_request, finish_capture, book_capture,
}

finish_capture-LiveJournals :
    (env : Environment) (i : PaymentIntent) (actor : Option Uuid) (m : Milestone) (o : OpenEscrow)
    (after : ℤ) (j : JournalTransaction) (js : List JournalTransaction)
    → Keeps (LiveJournals js) (finish_capture env i actor m o after j)
unfolding finish_capture
finish_capture-LiveJournals env i actor m o after j js =
    search (shared_rules, record_funding-Keeps, LiveJournals-Quiet) depth 14

-- A capture of the payment has been posted.
abbrev pub is_capture_of : PaymentIntent → JournalTransaction → Bool
is_capture_of i j =
    same_reference_type j.reference_type ref_payment_intent
    && (j.reference_id == i.id && same_operation j.operation milestone_fund)

-- The payment has gone from the provider's account into the escrow, within the milestone's amount.
pub record IsBooked (i : PaymentIntent) (m : Milestone) (escrow clearing : LedgerAccount)
    (before after : Db) : Type 0 where
  pub provider_account : same_identity (clearing_identity i.provider i.currency) clearing ≡ true
  pub positive : pos 1 ≤ℤ i.amount_minor
  pub within : balance escrow.id before +ℤ i.amount_minor ≤ℤ m.amount_minor
  pub balances :
      (x : Uuid) → balance x after ≡ moved x clearing escrow i.amount_minor +ℤ balance x before

within_of : (a b : ℤ) → ltb_ℤ a b ≡ false → b ≤ℤ a
within_of a b h = ground arith

module _ (env : Environment) (i : PaymentIntent) (actor : Option Uuid) (m : Milestone)
    (o : OpenEscrow) (s : Session) (body : Body) where
  -- A capture that returns moves the payment from the provider's clearing account into the escrow and
  -- changes no other balance, and what the escrow then holds is at most the milestone's amount; given
  -- that the payment was not posted before.
  pub book_capture-IsBooked :
      (book_capture env i actor m o s).0 ≡ ok body
      → find? (is_capture_of i) s.live.journal_transactions ≡ none
      → (clearing : LedgerAccount) × IsBooked i m o.account clearing s.live
          (book_capture env i actor m o s).1.live
  unfolding book_capture
  book_capture-IsBooked returned absent =
      let e1 = bind-balance s body o.account _ in
      let r1 = sym (ap (λ x. x.0) e1) ∙ returned in
      let (p2, e2) = bind-raise_if _ _ _ s body r1 in
      let r2 = sym (ap (λ x. x.0) e2) ∙ r1 in
      let (clearing, ec, e3) = bind_inv _ _ s body r2 in
      let r3 = sym (ap (λ x. x.0) e3) ∙ r2 in
      let (j, ej, e4) = bind_inv _ _ _ body r3 in
      let s1 = (get_or_create_account (clearing_identity i.provider i.currency) s).1 in
      let request = fund_request i clearing o.account in
      let s2 = (post_journal request s1).1 in
      let same =
        (get_or_create_account-Keeps (LiveJournals-Quiet s.live.journal_transactions) _).at s
          refl in
      let after = balance o.account.id s.live +ℤ i.amount_minor in
      let kept =
        (finish_capture-LiveJournals env i actor m o after j s2.live.journal_transactions).at s2
          refl in
      let (positive, effect) =
        transfer_posted request clearing o.account i.amount_minor s1 j refl ej
          (ap (find? (is_capture_of i)) same ∙ absent) in
      (
        clearing,
        record {
          provider_account = (get_or_create_account-IsStored _ clearing s ec).identity;
          positive = positive;
          within = within_of m.amount_minor after p2;
          balances = λ x.
              ap (λ r. balance x r.1.live) (e1 ∙ e2 ∙ e3 ∙ e4)
              ∙ ap (sum_journals x) kept
              ∙ effect x
              ∙ ap (λ js. moved x clearing o.account i.amount_minor +ℤ sum_journals x js) same;
        },
      )
