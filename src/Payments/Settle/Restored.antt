-- ===== src/Payments/Settle/Restored.antt =====
-- What the failure of a refund restores.
use freelancing_platform.Prelude.{
  Bool, ◌≡◌, ◌∙◌, refl, ap, sym, subst, Option, none, some, List, find?, ◌==◌, ◌&&◌,
}
use freelancing_platform.Prelude.Int.{pos, ◌+ℤ◌, ◌≤ℤ◌}
use freelancing_platform.Database.Tables.{Db}
use freelancing_platform.Database.Rows.Texts.{Uuid}
use freelancing_platform.Database.Rows.Ledger.{
  LedgerAccount, JournalTransaction, clearing_key, same_reference_type, ref_refund, same_operation,
  reversal,
}
use freelancing_platform.Database.Rows.Payment.{Refund, MilestoneEscrow}
use freelancing_platform.Database.Environment.{Environment, ok}
use freelancing_platform.Database.Session.{Session}
use freelancing_platform.Database.Session.Keeps.{Keeps}
use freelancing_platform.Database.Session.Durable.{IsDurable, durable_rules}
use freelancing_platform.Database.Session.Steps.{bind_inv, bind-gets, bind-require}
use freelancing_platform.Ledger.{has_key, balance, sum_journals, post_journal}
use freelancing_platform.Ledger.Transfer.{moved, transfer_posted}
use freelancing_platform.Ledger.Untouched.{LiveJournals, LiveJournals-Quiet, LiveJournals-commit}
use freelancing_platform.Payments.Queries.{Answer, find_account}
use freelancing_platform.Payments.Queries.Found.{escrow_in, account_in, bind-require_escrow}
use freelancing_platform.Payments.Framing.Shared.{shared_rules}
use freelancing_platform.Payments.Settle.{
  fail_request, finish_failure, reverse_reservation, restore_escrow, persisted_key,
}

module _ (env : Environment) (r : Refund) (actor : Uuid) where
  finish_failure-LiveJournals :
      (js : List JournalTransaction) → Keeps (LiveJournals js) (finish_failure env r actor)
  unfolding finish_failure persisted_key
  finish_failure-LiveJournals js =
      search (shared_rules, LiveJournals-Quiet, LiveJournals-commit) depth 14

  finish_failure-IsDurable : IsDurable (finish_failure env r actor)
  unfolding finish_failure
  finish_failure-IsDurable = search durable_rules depth 14

-- The reversal of the refund has been posted.
abbrev pub is_reversal_of : Refund → JournalTransaction → Bool
is_reversal_of r j =
    same_reference_type j.reference_type ref_refund
    && (j.reference_id == r.id && same_operation j.operation reversal)

-- The clearing account of the refund's provider.
abbrev pub clearing_in : Refund → Db → Option LedgerAccount
clearing_in r db = find? (has_key (clearing_key r.provider r.currency)) db.ledger_accounts

-- The reserved amount has gone back from the provider's account into the escrow.
pub record IsReversed (r : Refund) (escrow provider : LedgerAccount) (before after : Db)
    : Type 0 where
  pub positive : pos 1 ≤ℤ r.amount_minor
  pub balances :
      (x : Uuid) → balance x after ≡ moved x provider escrow r.amount_minor +ℤ balance x before

module _ (env : Environment) (r : Refund) (actor : Uuid) (s : Session) (answer : Answer) where
  reverse_reservation-IsReversed :
      (oj : Option JournalTransaction) (oe op : Option LedgerAccount)
      → (reverse_reservation env r actor oj oe op s).0 ≡ ok answer
      → find? (is_reversal_of r) s.live.journal_transactions ≡ none
      → (escrow : LedgerAccount) × (provider : LedgerAccount) × (oe ≡ some escrow)
        × (op ≡ some provider)
        × IsReversed r escrow provider s.live (reverse_reservation env r actor oj oe op s).1.saved
  unfolding reverse_reservation
  reverse_reservation-IsReversed oj oe op returned absent =
      let (reserved, found_journal, e5) = bind-require oj _ _ s answer returned in
      let r5 = sym (ap (λ x. x.0) e5) ∙ returned in
      let (escrow, found_escrow, e6) = bind-require oe _ _ s answer r5 in
      let r6 = sym (ap (λ x. x.0) e6) ∙ r5 in
      let (provider, found_provider, e7) = bind-require op _ _ s answer r6 in
      let r7 = sym (ap (λ x. x.0) e7) ∙ r6 in
      let (j, ej, e8) = bind_inv _ _ s answer r7 in
      let r8 = sym (ap (λ x. x.0) e8) ∙ r7 in
      let request = fail_request r reserved provider escrow in
      let s2 = (post_journal request s).1 in
      let kept =
        (finish_failure-LiveJournals env r actor s2.live.journal_transactions).at s2 refl in
      let saved = (finish_failure-IsDurable env r actor).at s2 answer r8 in
      let (positive, effect) =
        transfer_posted request provider escrow r.amount_minor s j refl ej absent in
      (
        escrow,
        provider,
        found_escrow,
        found_provider,
        record {
          positive = positive;
          balances = λ x.
              ap (λ y. balance x y.1.saved) (e5 ∙ e6 ∙ e7 ∙ e8)
              ∙ ap (balance x) saved
              ∙ ap (sum_journals x) kept
              ∙ effect x;
        },
      )

  -- A pending refund that fails gives the reserved amount back: it moves, once and for good, from the
  -- provider's clearing account into the milestone's escrow, and no other balance changes; given that
  -- its reversal was not posted before.
  pub restore_escrow-IsReversed :
      (restore_escrow env r actor s).0 ≡ ok answer
      → find? (is_reversal_of r) s.live.journal_transactions ≡ none
      → (row : MilestoneEscrow) × (escrow : LedgerAccount) × (provider : LedgerAccount) × (escrow_in
            r.milestone_id s.live
          ≡ some row)
        × (account_in row.escrow_account_id s.live ≡ some escrow)
        × (clearing_in r s.live ≡ some provider)
        × IsReversed r escrow provider s.live (restore_escrow env r actor s).1.saved
  unfolding restore_escrow find_account
  restore_escrow-IsReversed returned absent =
      let e1 = bind-gets _ _ s in
      let r1 = sym (ap (λ x. x.0) e1) ∙ returned in
      let (row, escrow_row, e2) = bind-require_escrow s answer _ _ r1 in
      let r2 = sym (ap (λ x. x.0) e2) ∙ r1 in
      let e3 = bind-gets _ _ s in
      let r3 = sym (ap (λ x. x.0) e3) ∙ r2 in
      let e4 = bind-gets _ _ s in
      let r4 = sym (ap (λ x. x.0) e4) ∙ r3 in
      let (escrow, provider, found_escrow, found_provider, reversed) =
        reverse_reservation-IsReversed _ _ _ r4 absent in
      (
        row,
        escrow,
        provider,
        escrow_row,
        found_escrow,
        found_provider,
        subst (λ y. IsReversed r escrow provider s.live y.1.saved) (sym (e1 ∙ e2 ∙ e3 ∙ e4))
            reversed,
      )
