-- ===== src/Payments/Release/Paid.antt =====
-- What a release that returns has paid: every balance after it, in terms of the balance before.
use freelancing_platform.Database.Tables.{Db}
use freelancing_platform.Prelude.{
  ℕ, Bool, true, false, ◌≡◌, ◌∙◌, refl, ap, sym, subst, none, List, [], ◌∷◌, find?, ◌==◌, ◌&&◌,
  if◌then◌else◌, arith,
}
use freelancing_platform.Prelude.Int.{ℤ, pos, ◌+ℤ◌, ◌-ℤ◌, ◌==ℤ◌, +ℤ-zero}
use freelancing_platform.Database.Rows.Texts.{Text, Uuid}
use freelancing_platform.Database.Rows.Ledger.{
  credit, same_reference_type, ref_milestone, same_operation, milestone_release, LedgerAccount,
  JournalTransaction,
}
use freelancing_platform.Database.Rows.Contract.{Contract, Milestone}
use freelancing_platform.Database.Rows.Payment.{FinancialIdempotencyKey, MilestoneEscrow}
use freelancing_platform.Database.Environment.{Environment, ok}
use freelancing_platform.Database.Session.{Session}
use freelancing_platform.Database.Session.Keeps.{Keeps}
use freelancing_platform.Database.Session.Steps.{bind_inv}
use freelancing_platform.Database.Session.Durable.{IsDurable, durable_rules}
use freelancing_platform.Ledger.{
  same_identity, sum_entries, entries_of, balance, get_or_create_account, post_journal,
  JournalRequest, sum_journals,
}
use freelancing_platform.Ledger.Account.{get_or_create_account-IsStored}
use freelancing_platform.Ledger.Outcome.{post_journal_returned}
use freelancing_platform.Ledger.Frame.{get_or_create_account-Keeps}
use freelancing_platform.Ledger.Untouched.{LiveJournals, LiveJournals-Quiet, LiveJournals-commit}
use freelancing_platform.Payments.Queries.{Answer}
use freelancing_platform.Payments.Framing.Shared.{shared_rules}
use freelancing_platform.Payments.Release.{
  commission, ReleaseAccounts, release_postings, release_request, wallet_identity,
  platform_identity, finish_release, book_release,
}

-- What a release adds to the balance of the account `x`.
abbrev pub share : Uuid → ReleaseAccounts → ℤ → ℤ → ℤ
share x a amount fee =
    (if a.escrow.id == x then pos 0 -ℤ amount else pos 0)
    +ℤ ((if a.wallet.id == x then amount -ℤ fee else pos 0)
        +ℤ (if a.platform.id == x then fee else pos 0))

module _ (c : Text) (x : Uuid) (a : ReleaseAccounts) (amount fee : ℤ) where
  platform_entry :
      (b : Bool)
      → (fee ==ℤ pos 0) ≡ b
      → sum_entries x (
          entries_of c (
            if b
            then []
            else record { account = a.platform; direction = credit; amount_minor = fee } ∷ []))
        ≡ (if a.platform.id == x then fee else pos 0)
  platform_entry true test = let no_fee : fee ≡ pos 0 = ground arith in ground arith
  platform_entry false test = +ℤ-zero _

  share-entries :
      sum_entries x (entries_of c (release_postings a amount fee)) ≡ share x a amount fee
  share-entries =
      ap
        (λ t.
          (if a.escrow.id == x then pos 0 -ℤ amount else pos 0)
          +ℤ ((if a.wallet.id == x then amount -ℤ fee else pos 0) +ℤ t))
        (platform_entry _ refl)

finish_release-LiveJournals :
    (env : Environment) (k : FinancialIdempotencyKey) (m : Milestone) (user : Uuid)
    (j : JournalTransaction) (js : List JournalTransaction)
    → Keeps (LiveJournals js) (finish_release env k m user j)
unfolding finish_release
finish_release-LiveJournals env k m user j js =
    search (shared_rules, LiveJournals-Quiet, LiveJournals-commit) depth 14

finish_release-IsDurable :
    (env : Environment) (k : FinancialIdempotencyKey) (m : Milestone) (user : Uuid)
    (j : JournalTransaction)
    → IsDurable (finish_release env k m user j)
unfolding finish_release
finish_release-IsDurable env k m user j = search durable_rules depth 14

-- A release of `m` has been posted.
abbrev pub is_release_of : Milestone → JournalTransaction → Bool
is_release_of m j =
    same_reference_type j.reference_type ref_milestone
    && (j.reference_id == m.id && same_operation j.operation milestone_release)

-- What a release has paid out, between the rows `before` and the rows `after`.
pub record IsPaid (m : Milestone) (c : Contract) (bps : ℕ) (a : ReleaseAccounts) (before after : Db)
    : Type 0 where
  pub wallet_owner : same_identity (wallet_identity c.freelancer_user_id m.currency) a.wallet ≡ true
  pub platform_account : same_identity (platform_identity m.currency) a.platform ≡ true
  pub balances :
      (x : Uuid)
      → balance x after
        ≡ share x a m.amount_minor (commission m.amount_minor bps) +ℤ balance x before

module _ (env : Environment) (k : FinancialIdempotencyKey) (m : Milestone) (c : Contract)
    (e : MilestoneEscrow) (escrow : LedgerAccount) (user : Uuid) (s : Session)
    (answer : Answer) where
  -- The accounts are found first: s1 and s2 are the sessions after them.
  module _ (w p : LedgerAccount) (j : JournalTransaction) where
    abbrev s1 : Session
    s1 = (get_or_create_account (wallet_identity c.freelancer_user_id m.currency) s).1

    abbrev s2 : Session
    s2 = (get_or_create_account (platform_identity m.currency) s1).1

    abbrev accounts : ReleaseAccounts
    accounts = record { escrow = escrow; wallet = w; platform = p }

    abbrev request : JournalRequest
    request = release_request m accounts e.commission_bps

    same_journals : s2.live.journal_transactions ≡ s.live.journal_transactions
    same_journals =
        (get_or_create_account-Keeps (LiveJournals-Quiet s.live.journal_transactions) _).at s1 (
          (get_or_create_account-Keeps (LiveJournals-Quiet s.live.journal_transactions) _).at s
            refl)

    IsPaid-by :
        (get_or_create_account (wallet_identity c.freelancer_user_id m.currency) s).0 ≡ ok w
        → (get_or_create_account (platform_identity m.currency) s1).0 ≡ ok p
        → (post_journal request s2).0 ≡ ok j
        → (finish_release env k m user j (post_journal request s2).1).0 ≡ ok answer
        → find? (is_release_of m) s.live.journal_transactions ≡ none
        → IsPaid m c e.commission_bps accounts s.live
            (finish_release env k m user j (post_journal request s2).1).1.saved
    IsPaid-by ew ep ej ef absent =
        let (cur, accepted, posted) =
          post_journal_returned request s2 j ej
            (ap (find? (is_release_of m)) same_journals ∙ absent) in
        let s3 = (post_journal request s2).1 in
        let kept =
          (finish_release-LiveJournals env k m user j s3.live.journal_transactions).at s3 refl in
        let saved = (finish_release-IsDurable env k m user j).at s3 answer ef in
        record {
          wallet_owner = (get_or_create_account-IsStored _ w s ew).identity;
          platform_account = (get_or_create_account-IsStored _ p s1 ep).identity;
          balances = λ x.
              ap (balance x) saved
              ∙ ap (sum_journals x) kept
              ∙ ap (λ r. balance x r.1.live) posted
              ∙ ap (λ t. t +ℤ balance x s2.live)
                  (share-entries cur x accounts m.amount_minor
                    (commission m.amount_minor e.commission_bps))
              ∙ ap
                  (λ js.
                    share x accounts m.amount_minor (commission m.amount_minor e.commission_bps)
                    +ℤ sum_journals x js)
                  same_journals;
        }

  -- A release that returns moves, once and for good, the amount out of the escrow account, the
  -- commission into the platform's account and all the rest into the freelancer's wallet, and changes
  -- no other balance; given that no release of the milestone was posted before.
  pub book_release-IsPaid :
      (book_release env k m c e escrow user s).0 ≡ ok answer
      → find? (is_release_of m) s.live.journal_transactions ≡ none
      → (a : ReleaseAccounts) × (a.escrow ≡ escrow)
        × IsPaid m c e.commission_bps a s.live (book_release env k m c e escrow user s).1.saved
  unfolding book_release
  book_release-IsPaid returned absent =
      let (w, ew, e1) = bind_inv _ _ s answer returned in
      let r1 = sym (ap (λ x. x.0) e1) ∙ returned in
      let (p, ep, e2) = bind_inv _ _ _ answer r1 in
      let r2 = sym (ap (λ x. x.0) e2) ∙ r1 in
      let (j, ej, e3) = bind_inv _ _ _ answer r2 in
      let r3 = sym (ap (λ x. x.0) e3) ∙ r2 in
      (
        accounts w p j,
        refl,
        subst (λ x. IsPaid m c e.commission_bps (accounts w p j) s.live x.1.saved)
            (sym (e1 ∙ e2 ∙ e3)) (IsPaid-by w p j ew ep ej r3 absent),
      )
