-- ===== src/Payments/Refund/Reservation.antt =====
-- What a reservation takes out of escrow.
use freelancing_platform.Prelude.{
  ℕ, Bool, true, not-false, ◌≡◌, ◌∙◌, refl, ap, sym, subst, ◌≤◌, none, some, List, find?, ◌==◌,
  ◌&&◌, arith,
}
use freelancing_platform.Prelude.Int.{ℤ, pos, ◌+ℤ◌, ◌≤ℤ◌}
use freelancing_platform.Database.Tables.{Db}
use freelancing_platform.Database.Rows.Texts.{Text, Uuid}
use freelancing_platform.Database.Rows.Ledger.{
  LedgerAccount, JournalTransaction, same_reference_type, ref_refund, same_operation,
  milestone_refund,
}
use freelancing_platform.Database.Rows.Contract.{Milestone, funded, same_status}
use freelancing_platform.Database.Rows.Payment.{
  FinancialIdempotencyKey, PaymentIntent, MilestoneEscrow,
}
use freelancing_platform.Database.Environment.{Environment, ok}
use freelancing_platform.Database.Session.{Session}
use freelancing_platform.Database.Session.Keeps.{Keeps, keeps_rules}
use freelancing_platform.Database.Session.Durable.{IsDurable, durable_rules}
use freelancing_platform.Database.Session.Steps.{
  bind_inv, bind-reader, bind-raise_if, bind-fresh_id, after_id,
}
use freelancing_platform.Ledger.{
  same_identity, balance, sum_journals, get_or_create_account, post_journal,
}
use freelancing_platform.Ledger.Account.{get_or_create_account-IsStored}
use freelancing_platform.Ledger.Frame.{get_or_create_account-Keeps}
use freelancing_platform.Ledger.Fresh.{get_or_create_account-UsedBelow}
use freelancing_platform.Ledger.Transfer.{moved, transfer_posted}
use freelancing_platform.Ledger.Untouched.{LiveJournals, LiveJournals-Quiet, LiveJournals-commit}
use freelancing_platform.Payments.Queries.Found.{
  escrow_in, account_in, bind-require_escrow, bind-escrow_account_of, bind-balance,
}
use freelancing_platform.Payments.Framing.Shared.{shared_rules}
use freelancing_platform.Payments.Capture.{clearing_identity}
use freelancing_platform.Payments.Settle.{captured_funding_intent}
use freelancing_platform.Payments.Refund.{
  Reserved, reserve_request, finish_reservation, book_reservation, reserve_refund,
}

captured_funding_intent-reads :
    (s : Session) (m : Uuid) (p : Text) → Keeps (λ x. x ≡ s) (captured_funding_intent m p)
unfolding captured_funding_intent
captured_funding_intent-reads s m p = search keeps_rules

module _ (env : Environment) (k : FinancialIdempotencyKey) (m : Milestone) (user : Uuid)
    (name : Text) (amount : ℤ) (i : PaymentIntent) (id : Uuid) (j : JournalTransaction) where
  finish_reservation-LiveJournals :
      (js : List JournalTransaction)
      → Keeps (LiveJournals js) (finish_reservation env k m user name amount i id j)
  unfolding finish_reservation
  finish_reservation-LiveJournals js =
      search (shared_rules, LiveJournals-Quiet, LiveJournals-commit) depth 14

  finish_reservation-IsDurable : IsDurable (finish_reservation env k m user name amount i id j)
  unfolding finish_reservation
  finish_reservation-IsDurable = search durable_rules depth 14

-- The reservation of the refund `id` has been posted.
abbrev pub is_reservation_of : Uuid → JournalTransaction → Bool
is_reservation_of id j =
    same_reference_type j.reference_type ref_refund
    && (j.reference_id == id && same_operation j.operation milestone_refund)

le_refl : (n : ℕ) → n ≤ n
le_refl n = omega arith

-- No journal stands for a refund whose id is not handed out yet.
abbrev pub NoneAhead : Db → Type 0
NoneAhead db =
    (id : Uuid) → db.next_id ≤ id → find? (is_reservation_of id) db.journal_transactions ≡ none

-- The amount has gone from the escrow into the provider's account.
pub record IsReserved (m : Milestone) (name : Text) (amount : ℤ) (escrow clearing : LedgerAccount)
    (before after : Db) : Type 0 where
  pub provider_account : same_identity (clearing_identity name m.currency) clearing ≡ true
  pub positive : pos 1 ≤ℤ amount
  pub balances : (x : Uuid) → balance x after ≡ moved x escrow clearing amount +ℤ balance x before

module _ (env : Environment) (k : FinancialIdempotencyKey) (m : Milestone) (user : Uuid)
    (name : Text) (s : Session) (reserved : Reserved) where
  module _ (escrow : LedgerAccount) (amount : ℤ) where
    book_reservation-IsReserved :
        (book_reservation env k m user name escrow amount s).0 ≡ ok reserved
        → NoneAhead s.live
        → (clearing : LedgerAccount) × IsReserved m name amount escrow clearing s.live
            (book_reservation env k m user name escrow amount s).1.saved
    unfolding book_reservation
    book_reservation-IsReserved returned ahead =
        let (i, e0, e1) =
          bind-reader _ _ s reserved (captured_funding_intent-reads s _ _) returned in
        let r1 = sym (ap (λ x. x.0) e1) ∙ returned in
        let (clearing, ec, e2) = bind_inv _ _ s reserved r1 in
        let r2 = sym (ap (λ x. x.0) e2) ∙ r1 in
        let s1 = (get_or_create_account (clearing_identity name m.currency) s).1 in
        let e3 = bind-fresh_id _ s1 in
        let r3 = sym (ap (λ x. x.0) e3) ∙ r2 in
        let id = s1.live.next_id in
        let (j, ej, e4) = bind_inv _ _ _ reserved r3 in
        let r4 = sym (ap (λ x. x.0) e4) ∙ r3 in
        let request = reserve_request id escrow clearing amount in
        let s2 = (post_journal request (after_id s1)).1 in
        let same =
          (get_or_create_account-Keeps (LiveJournals-Quiet s.live.journal_transactions) _).at s
            refl in
        let unused =
          (get_or_create_account-UsedBelow s.live.next_id _).at s (le_refl s.live.next_id) in
        let kept =
          (finish_reservation-LiveJournals env k m user name amount i id j
              s2.live.journal_transactions).at
            s2 refl in
        let saved =
          (finish_reservation-IsDurable env k m user name amount i id j).at s2 reserved r4 in
        let (positive, effect) =
          transfer_posted request escrow clearing amount (after_id s1) j refl ej
            (ap (find? (is_reservation_of id)) same ∙ ahead id unused) in
        (
          clearing,
          record {
            provider_account = (get_or_create_account-IsStored _ clearing s ec).identity;
            positive = positive;
            balances = λ x.
                ap (λ y. balance x y.1.saved) (e1 ∙ e2 ∙ e3 ∙ e4)
                ∙ ap (balance x) saved
                ∙ ap (sum_journals x) kept
                ∙ effect x
                ∙ ap (λ js. moved x escrow clearing amount +ℤ sum_journals x js) same;
          },
        )

  -- A reservation that returns was of a milestone whose work has not started, takes everything that
  -- its escrow holds, once and for good, into the provider's clearing account, and changes no other
  -- balance; given that no refund was journalled under an id that is not handed out yet.
  pub reserve_refund-IsReserved :
      (reserve_refund env k m user name s).0 ≡ ok reserved
      → NoneAhead s.live
      → (same_status m.status funded ≡ true)
        × (e : MilestoneEscrow) × (escrow : LedgerAccount) × (clearing : LedgerAccount) × (escrow_in
              m.id s.live
            ≡ some e)
        × (account_in e.escrow_account_id s.live ≡ some escrow)
        × IsReserved m name
            (balance escrow.id s.live)
            escrow
            clearing
            s.live
            (reserve_refund env k m user name s).1.saved
  unfolding reserve_refund
  reserve_refund-IsReserved returned ahead =
      let (p1, e1) = bind-raise_if _ _ _ s reserved returned in
      let r1 = sym (ap (λ x. x.0) e1) ∙ returned in
      let (e, found_escrow, e2) = bind-require_escrow s reserved _ _ r1 in
      let r2 = sym (ap (λ x. x.0) e2) ∙ r1 in
      let (escrow, found_account, e3) = bind-escrow_account_of s reserved _ _ r2 in
      let r3 = sym (ap (λ x. x.0) e3) ∙ r2 in
      let e4 = bind-balance s reserved escrow _ in
      let r4 = sym (ap (λ x. x.0) e4) ∙ r3 in
      let (p5, e5) = bind-raise_if _ _ _ s reserved r4 in
      let r5 = sym (ap (λ x. x.0) e5) ∙ r4 in
      let (clearing, done) =
        book_reservation-IsReserved escrow (balance escrow.id s.live) r5 ahead in
      (
        not-false _ p1,
        e,
        escrow,
        clearing,
        found_escrow,
        found_account,
        subst (λ x. IsReserved m name (balance escrow.id s.live) escrow clearing s.live x.1.saved)
            (sym (e1 ∙ e2 ∙ e3 ∙ e4 ∙ e5)) done,
      )
