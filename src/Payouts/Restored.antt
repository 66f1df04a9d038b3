-- ===== src/Payouts/Restored.antt =====
-- What the failure of a payout gives back.
use freelancing_platform.Prelude.{
  Bool, ◌≡◌, ◌∙◌, refl, ap, sym, subst, Option, none, some, List, find?, ◌==◌, ◌&&◌,
}
use freelancing_platform.Prelude.Int.{pos, ◌+ℤ◌, ◌≤ℤ◌}
use freelancing_platform.Database.Tables.{Db}
use freelancing_platform.Database.Rows.Texts.{Uuid}
use freelancing_platform.Database.Rows.Ledger.{
  LedgerAccount, JournalTransaction, same_reference_type, ref_payout, same_operation, reversal,
  wallet_key, clearing_key,
}
use freelancing_platform.Database.Rows.Payout.{Payout}
use freelancing_platform.Database.Environment.{Environment, ok}
use freelancing_platform.Database.Session.{Session}
use freelancing_platform.Database.Session.Keeps.{Keeps}
use freelancing_platform.Database.Session.Durable.{IsDurable, durable_rules}
use freelancing_platform.Database.Session.Steps.{bind_inv, bind-require, bind-gets}
use freelancing_platform.Ledger.{has_key, balance, sum_journals, post_journal}
use freelancing_platform.Ledger.Transfer.{moved, transfer_posted}
use freelancing_platform.Ledger.Untouched.{LiveJournals, LiveJournals-Quiet, LiveJournals-commit}
use freelancing_platform.Payments.Queries.{Answer}
use freelancing_platform.Payments.Framing.Shared.{shared_rules}
use freelancing_platform.Payouts.Settle.{
  payout_key, payout_reversal, finish_payout_failure, reverse_payout, restore_wallet,
}

-- The reversal of the payout has been posted.
abbrev pub is_payout_reversal : Payout → JournalTransaction → Bool
is_payout_reversal p j =
    same_reference_type j.reference_type ref_payout
    && (j.reference_id == p.id && same_operation j.operation reversal)

-- The wallet and the clearing account of the payout.
abbrev pub payout_wallet_in : Payout → Db → Option LedgerAccount
payout_wallet_in p db =
    find? (has_key (wallet_key p.freelancer_user_id p.currency)) db.ledger_accounts

abbrev pub payout_clearing_in : Payout → Db → Option LedgerAccount
payout_clearing_in p db = find? (has_key (clearing_key p.provider p.currency)) db.ledger_accounts

-- The amount has gone back from the provider's account into the wallet.
pub record IsGivenBack (p : Payout) (wallet clearing : LedgerAccount) (before after : Db)
    : Type 0 where
  pub positive : pos 1 ≤ℤ p.amount_minor
  pub balances :
      (x : Uuid) → balance x after ≡ moved x clearing wallet p.amount_minor +ℤ balance x before

module _ (env : Environment) (p : Payout) (actor : Uuid) (s : Session) (answer : Answer) where
  failure-LiveJournals :
      (j : JournalTransaction) (js : List JournalTransaction)
      → Keeps (LiveJournals js) (finish_payout_failure env p actor j)
  unfolding finish_payout_failure payout_key
  failure-LiveJournals j js =
      search (shared_rules, LiveJournals-Quiet, LiveJournals-commit) depth 14

  failure-IsDurable : (j : JournalTransaction) → IsDurable (finish_payout_failure env p actor j)
  unfolding finish_payout_failure
  failure-IsDurable j = search durable_rules depth 14

  reverse_payout-IsGivenBack :
      (ow oc : Option LedgerAccount) (oj : Option JournalTransaction)
      → (reverse_payout env p actor ow oc oj s).0 ≡ ok answer
      → find? (is_payout_reversal p) s.live.journal_transactions ≡ none
      → (wallet : LedgerAccount) × (clearing : LedgerAccount) × (ow ≡ some wallet)
        × (oc ≡ some clearing)
        × IsGivenBack p wallet clearing s.live (reverse_payout env p actor ow oc oj s).1.saved
  unfolding reverse_payout
  reverse_payout-IsGivenBack ow oc oj returned absent =
      let (wallet, found_wallet, e1) = bind-require ow _ _ s answer returned in
      let r1 = sym (ap (λ x. x.0) e1) ∙ returned in
      let (clearing, found_clearing, e2) = bind-require oc _ _ s answer r1 in
      let r2 = sym (ap (λ x. x.0) e2) ∙ r1 in
      let (original, found_journal, e3) = bind-require oj _ _ s answer r2 in
      let r3 = sym (ap (λ x. x.0) e3) ∙ r2 in
      let (j, ej, e4) = bind_inv _ _ s answer r3 in
      let r4 = sym (ap (λ x. x.0) e4) ∙ r3 in
      let request = payout_reversal p original clearing wallet in
      let s2 = (post_journal request s).1 in
      let kept = (failure-LiveJournals j s2.live.journal_transactions).at s2 refl in
      let saved = (failure-IsDurable j).at s2 answer r4 in
      let (positive, effect) =
        transfer_posted request clearing wallet p.amount_minor s j refl ej absent in
      (
        wallet,
        clearing,
        found_wallet,
        found_clearing,
        record {
          positive = positive;
          balances = λ x.
              ap (λ y. balance x y.1.saved) (e1 ∙ e2 ∙ e3 ∙ e4)
              ∙ ap (balance x) saved
              ∙ ap (sum_journals x) kept
              ∙ effect x;
        },
      )

  -- A pending payout that fails gives the amount back: it moves, once and for good, from the
  -- provider's clearing account into the freelancer's wallet, and no other balance changes; given that
  -- its reversal was not posted before.
  pub restore_wallet-IsGivenBack :
      (restore_wallet env p actor s).0 ≡ ok answer
      → find? (is_payout_reversal p) s.live.journal_transactions ≡ none
      → (wallet : LedgerAccount) × (clearing : LedgerAccount) × (payout_wallet_in p s.live
          ≡ some wallet)
        × (payout_clearing_in p s.live ≡ some clearing)
        × IsGivenBack p wallet clearing s.live (restore_wallet env p actor s).1.saved
  unfolding restore_wallet
  restore_wallet-IsGivenBack returned absent =
      let e1 = bind-gets _ _ s in
      let r1 = sym (ap (λ x. x.0) e1) ∙ returned in
      let e2 = bind-gets _ _ s in
      let r2 = sym (ap (λ x. x.0) e2) ∙ r1 in
      let e3 = bind-gets _ _ s in
      let r3 = sym (ap (λ x. x.0) e3) ∙ r2 in
      let (wallet, clearing, found_wallet, found_clearing, given) =
        reverse_payout-IsGivenBack _ _ _ r3 absent in
      (
        wallet,
        clearing,
        found_wallet,
        found_clearing,
        subst (λ y. IsGivenBack p wallet clearing s.live y.1.saved) (sym (e1 ∙ e2 ∙ e3)) given,
      )
