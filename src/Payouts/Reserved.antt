-- ===== src/Payouts/Reserved.antt =====
-- What a payout takes out of the wallet, and what its failure gives back.
use freelancing_platform.Prelude.{
  ℕ, Bool, true, false, ◌≡◌, ◌∙◌, refl, ap, sym, subst, ◌≤◌, none, some, List, find?, ◌==◌, ◌&&◌,
  arith,
}
use freelancing_platform.Prelude.Int.{ℤ, pos, ◌+ℤ◌, ◌≤ℤ◌, ltb_ℤ}
use freelancing_platform.Database.Tables.{Db}
use freelancing_platform.Database.Rows.Texts.{Text, Uuid}
use freelancing_platform.Database.Rows.Ledger.{
  LedgerAccount, JournalTransaction, same_reference_type, ref_payout, same_operation, payout,
}
use freelancing_platform.Database.Rows.Payment.{FinancialIdempotencyKey}
use freelancing_platform.Database.Rows.Payout.{Payout}
use freelancing_platform.Database.Environment.{Environment, ok}
use freelancing_platform.Database.Session.{Session}
use freelancing_platform.Database.Session.Keeps.{Keeps, keeps_rules}
use freelancing_platform.Database.Session.Durable.{IsDurable, durable_rules}
use freelancing_platform.Database.Session.Steps.{
  bind_inv, bind-reader, bind-require, bind-gets, bind-fresh_id, after_id, raise_if_returned,
}
use freelancing_platform.Ledger.{
  same_identity, balance, sum_journals, get_or_create_account, post_journal,
  require_sufficient_balance, account_balance_minor,
}
use freelancing_platform.Ledger.Account.{get_or_create_account-IsStored}
use freelancing_platform.Ledger.Frame.{get_or_create_account-Keeps}
use freelancing_platform.Ledger.Fresh.{get_or_create_account-UsedBelow}
use freelancing_platform.Ledger.Transfer.{moved, transfer_posted}
use freelancing_platform.Ledger.Untouched.{LiveJournals, LiveJournals-Quiet, LiveJournals-commit}
use freelancing_platform.Payments.Framing.Shared.{shared_rules}
use freelancing_platform.Payments.Capture.{clearing_identity}
use freelancing_platform.Payouts.{
  configured_destination, resolve_payout_destination, wallet_in, payout_request, PayoutOrder,
  finish_payout_reservation, book_payout, reserve_payout,
}

-- A payout `id` has been posted.
abbrev pub is_payout_of : Uuid → JournalTransaction → Bool
is_payout_of id j =
    same_reference_type j.reference_type ref_payout
    && (j.reference_id == id && same_operation j.operation payout)

-- No journal stands for a payout whose id is not handed out yet.
abbrev pub NoPayoutAhead : Db → Type 0
NoPayoutAhead db =
    (id : Uuid) → db.next_id ≤ id → find? (is_payout_of id) db.journal_transactions ≡ none

-- The amount, covered by the wallet, has gone from the wallet into the provider's account.
pub record IsTakenOut (order : PayoutOrder) (wallet clearing : LedgerAccount) (before after : Db)
    : Type 0 where
  pub provider_account :
      same_identity (clearing_identity order.provider_name order.currency) clearing ≡ true
  pub positive : pos 1 ≤ℤ order.amount
  pub covered : order.amount ≤ℤ balance wallet.id before
  pub balances :
      (x : Uuid) → balance x after ≡ moved x wallet clearing order.amount +ℤ balance x before

n_le_n : (n : ℕ) → n ≤ n
n_le_n n = omega arith

covered_by : (a b : ℤ) → ltb_ℤ b a ≡ false → a ≤ℤ b
covered_by a b h = ground arith

sufficient-reads :
    (w : LedgerAccount) (amount : ℤ) (s : Session)
    → Keeps (λ x. x ≡ s) (require_sufficient_balance w amount)
unfolding require_sufficient_balance account_balance_minor
sufficient-reads w amount s = search keeps_rules

sufficient_returned :
    (w : LedgerAccount) (amount : ℤ) (s : Session) (u : Unit {0})
    → (require_sufficient_balance w amount s).0 ≡ ok u
    → amount ≤ℤ balance w.id s.live
unfolding require_sufficient_balance account_balance_minor
sufficient_returned w amount s u h =
    covered_by amount (balance w.id s.live)
      (raise_if_returned _ _ s u (sym (ap (λ x. x.0) (bind-gets _ _ s)) ∙ h))

destination-reads :
    (env : Environment) (user : Uuid) (name : Text) (s : Session)
    → Keeps (λ x. x ≡ s) (resolve_payout_destination env user name)
unfolding resolve_payout_destination configured_destination
destination-reads env user name s = search keeps_rules depth 8

module _ (env : Environment) (k : FinancialIdempotencyKey) (order : PayoutOrder) (s : Session)
    (p : Payout) where
  finish-LiveJournals :
      (d : Text) (id : Uuid) (j : JournalTransaction) (js : List JournalTransaction)
      → Keeps (LiveJournals js) (finish_payout_reservation env k order d id j)
  unfolding finish_payout_reservation
  finish-LiveJournals d id j js =
      search (shared_rules, LiveJournals-Quiet, LiveJournals-commit) depth 10

  finish-IsDurable :
      (d : Text) (id : Uuid) (j : JournalTransaction)
      → IsDurable (finish_payout_reservation env k order d id j)
  unfolding finish_payout_reservation
  finish-IsDurable d id j = search durable_rules depth 10

  book_payout-IsTakenOut :
      (d : Text) (wallet : LedgerAccount)
      → (book_payout env k order d wallet s).0 ≡ ok p
      → NoPayoutAhead s.live
      → (clearing : LedgerAccount) × IsTakenOut order wallet clearing s.live
          (book_payout env k order d wallet s).1.saved
  unfolding book_payout
  book_payout-IsTakenOut d wallet returned ahead =
      let (u, e0, e1) = bind-reader _ _ s p (sufficient-reads wallet order.amount s) returned in
      let r1 = sym (ap (λ x. x.0) e1) ∙ returned in
      let (clearing, ec, e2) = bind_inv _ _ s p r1 in
      let r2 = sym (ap (λ x. x.0) e2) ∙ r1 in
      let s1 = (get_or_create_account (clearing_identity order.provider_name order.currency) s).1 in
      let e3 = bind-fresh_id _ s1 in
      let r3 = sym (ap (λ x. x.0) e3) ∙ r2 in
      let id = s1.live.next_id in
      let (j, ej, e4) = bind_inv _ _ _ p r3 in
      let r4 = sym (ap (λ x. x.0) e4) ∙ r3 in
      let request = payout_request id wallet clearing order.amount in
      let s2 = (post_journal request (after_id s1)).1 in
      let same =
        (get_or_create_account-Keeps (LiveJournals-Quiet s.live.journal_transactions) _).at s
          refl in
      let unused =
        (get_or_create_account-UsedBelow s.live.next_id _).at s (n_le_n s.live.next_id) in
      let kept = (finish-LiveJournals d id j s2.live.journal_transactions).at s2 refl in
      let saved = (finish-IsDurable d id j).at s2 p r4 in
      let (positive, effect) =
        transfer_posted request wallet clearing order.amount (after_id s1) j refl ej
          (ap (find? (is_payout_of id)) same ∙ ahead id unused) in
      (
        clearing,
        record {
          provider_account = (get_or_create_account-IsStored _ clearing s ec).identity;
          positive = positive;
          covered = sufficient_returned wallet order.amount s u (ap (λ x. x.0) e0);
          balances = λ x.
              ap (λ y. balance x y.1.saved) (e1 ∙ e2 ∙ e3 ∙ e4)
              ∙ ap (balance x) saved
              ∙ ap (sum_journals x) kept
              ∙ effect x
              ∙ ap (λ js. moved x wallet clearing order.amount +ℤ sum_journals x js) same;
        },
      )

  -- A reservation that returns is of the freelancer's wallet in the currency, which covered the
  -- amount: it moves the amount, once and for good, into the provider's clearing account, and changes
  -- no other balance; given that no payout was journalled under an id that is not handed out yet.
  pub reserve_payout-IsTakenOut :
      (reserve_payout env k order s).0 ≡ ok p
      → NoPayoutAhead s.live
      → (wallet : LedgerAccount) × (clearing : LedgerAccount) × (wallet_in order.user order.currency
            s.live
          ≡ some wallet)
        × IsTakenOut order wallet clearing s.live (reserve_payout env k order s).1.saved
  unfolding reserve_payout
  reserve_payout-IsTakenOut returned ahead =
      let (d, e0, e1) =
        bind-reader _ _ s p (destination-reads env order.user order.provider_name s) returned in
      let r1 = sym (ap (λ x. x.0) e1) ∙ returned in
      let e2 = bind-gets _ _ s in
      let r2 = sym (ap (λ x. x.0) e2) ∙ r1 in
      let (wallet, found, e3) = bind-require _ _ _ s p r2 in
      let r3 = sym (ap (λ x. x.0) e3) ∙ r2 in
      let (clearing, taken) = book_payout-IsTakenOut d wallet r3 ahead in
      (
        wallet,
        clearing,
        found,
        subst (λ x. IsTakenOut order wallet clearing s.live x.1.saved) (sym (e1 ∙ e2 ∙ e3)) taken,
      )
