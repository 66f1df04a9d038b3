-- ===== src/Payments/Release/Guards.antt =====
-- When a release goes through, and when it never can.
use freelancing_platform.Prelude.{
  ◌*◌, ◌/◌, true, not-false, ◌≡◌, ◌≢◌, ◌∙◌, ap, sym, subst, none, some, find?, arith, ℕ,
}
use freelancing_platform.Prelude.Int.{pos, ==ℤ_true}
use freelancing_platform.Database.Rows.Texts.{Text, Uuid}
use freelancing_platform.Database.Rows.Ledger.{LedgerAccount}
use freelancing_platform.Database.Rows.Contract.{Contract, Milestone, approved, same_status}
use freelancing_platform.Database.Rows.Payment.{FinancialIdempotencyKey, MilestoneEscrow}
use freelancing_platform.Database.Tables.{Db}
use freelancing_platform.Database.Environment.{Environment, ok}
use freelancing_platform.Database.Session.{Session}
use freelancing_platform.Database.Session.Steps.{bind_inv, bind-raise_if}
use freelancing_platform.Ledger.{balance}
use freelancing_platform.Ledger.Journal.{IsAccepted}
use freelancing_platform.Ledger.Outcome.{post_journal-IsAccepted}
use freelancing_platform.Payments.Queries.{Answer}
use freelancing_platform.Payments.Queries.Found.{
  escrow_in, account_in, bind-require_escrow, bind-escrow_account_of, bind-balance,
}
use freelancing_platform.Payments.Release.{
  commission, ReleaseAccounts, release_postings, book_release, release_approved,
}
use freelancing_platform.Payments.Release.Paid.{IsPaid, is_release_of, book_release-IsPaid}
use freelancing_platform.Payments.Release.Split.{split-IsAccepted_only, full_fee}

-- The escrow of a milestone and its account, in the rows `db`.
pub record HasEscrow (m : Milestone) (e : MilestoneEscrow) (a : LedgerAccount) (db : Db)
    : Type 0 where
  pub escrow : escrow_in m.id db ≡ some e
  pub account : account_in e.escrow_account_id db ≡ some a

-- The escrow of `m` held exactly its amount in the rows `before`, and `after` has it paid out.
abbrev pub IsReleased : Milestone → Contract → Db → Db → Type 0
IsReleased m c before after =
    (e : MilestoneEscrow) × (a : ReleaseAccounts) × HasEscrow m e a.escrow before
    × (balance a.escrow.id before ≡ m.amount_minor)
    × IsPaid m c e.commission_bps a before after

full_split :
    (a : ReleaseAccounts) (n : ℕ) (cur : Text)
    → IsAccepted cur (release_postings a (pos n) (commission (pos n) 10000))
    → ⊥
unfolding commission
full_split a n cur accepted =
    let below = (split-IsAccepted_only cur a n (n * 10000 / 10000) accepted).1 in
    ground (arith, full_fee n)

module _ (env : Environment) (k : FinancialIdempotencyKey) (m : Milestone) (c : Contract)
    (user : Uuid) (s : Session) (answer : Answer) where
  -- A release that returns, where no release of the milestone was posted before, was of an approved
  -- milestone whose escrow held exactly its amount, and has paid it out: see `IsPaid`.
  pub release_approved-IsPaid :
      (release_approved env k m c user s).0 ≡ ok answer
      → find? (is_release_of m) s.live.journal_transactions ≡ none
      → (same_status m.status approved ≡ true)
        × IsReleased m c s.live (release_approved env k m c user s).1.saved
  unfolding release_approved
  release_approved-IsPaid returned absent =
      let (p1, e1) = bind-raise_if _ _ _ s answer returned in
      let r1 = sym (ap (λ x. x.0) e1) ∙ returned in
      let (e, found_escrow, e2) = bind-require_escrow s answer _ _ r1 in
      let r2 = sym (ap (λ x. x.0) e2) ∙ r1 in
      let (account, found_account, e3) = bind-escrow_account_of s answer _ _ r2 in
      let r3 = sym (ap (λ x. x.0) e3) ∙ r2 in
      let e4 = bind-balance s answer account _ in
      let r4 = sym (ap (λ x. x.0) e4) ∙ r3 in
      let (p5, e5) = bind-raise_if _ _ _ s answer r4 in
      let to_book = e1 ∙ e2 ∙ e3 ∙ e4 ∙ e5 in
      let (a, is_account, paid) =
        book_release-IsPaid env k m c e account user s answer
          (sym (ap (λ x. x.0) to_book) ∙ returned) absent in
      (
        not-false _ p1,
        (
          e,
          a,
          subst (λ x. HasEscrow m e x s.live) (sym is_account)
              (record { escrow = found_escrow; account = found_account }),
          ap (λ x. balance x.id s.live) is_account ∙ ==ℤ_true _ _ (not-false _ p5),
          subst (λ x. IsPaid m c e.commission_bps a s.live x.1.saved) (sym to_book) paid,
        ),
      )

  -- At a commission of 10000 basis points no release ever returns an answer, whatever the amount.
  pub full_commission_blocks :
      (e : MilestoneEscrow) (account : LedgerAccount) (n : ℕ)
      → e.commission_bps ≡ 10000
      → m.amount_minor ≡ pos n
      → (book_release env k m c e account user s).0 ≢ ok answer
  unfolding book_release
  full_commission_blocks e account n full amount returned =
      let (w, ew, e1) = bind_inv _ _ s answer returned in
      let r1 = sym (ap (λ x. x.0) e1) ∙ returned in
      let (p, ep, e2) = bind_inv _ _ _ answer r1 in
      let r2 = sym (ap (λ x. x.0) e2) ∙ r1 in
      let (j, ej, e3) = bind_inv _ _ _ answer r2 in
      let (cur, accepted) = post_journal-IsAccepted _ _ j ej in
      let accounts : ReleaseAccounts = record { escrow = account; wallet = w; platform = p } in
      full_split accounts n cur (rw (sym amount, sym full) accepted)
