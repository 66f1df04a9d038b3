-- ===== src/Disputes/Decided.antt =====
-- When a dispute is resolved, and what its resolution pays: `resolve_dispute` of
-- app/disputes/service.py from the claimed key on.
use freelancing_platform.Prelude.{
  Bool, true, false, not, not-false, ◌≡◌, ◌∙◌, refl, ap, sym, subst, Option, none, some, find?,
  ◌||◌, is_some, arith,
}
use freelancing_platform.Prelude.Int.{ℤ, pos, ◌≤ℤ◌, ◌==ℤ◌, leb_ℤ, ==ℤ_true}
use freelancing_platform.Database.Rows.Texts.{Text}
use freelancing_platform.Database.Rows.Ledger.{LedgerAccount}
use freelancing_platform.Database.Rows.Contract.{Contract, disputed, same_status}
use freelancing_platform.Database.Rows.Dispute.{
  User, Dispute, DisputeDecision, under_review, same_dispute_status, Outcome, release_to_freelancer,
  refund_client, split,
}
use freelancing_platform.Database.Rows.Payment.{FinancialIdempotencyKey, MilestoneEscrow}
use freelancing_platform.Database.Tables.{Db}
use freelancing_platform.Database.Environment.{Environment, ok}
use freelancing_platform.Database.Session.{Session}
use freelancing_platform.Database.Session.Keeps.{Keeps, keeps_rules}
use freelancing_platform.Database.Session.Steps.{
  bind-reader, bind-require, bind-raise_if, raise_if_returned,
}
use freelancing_platform.Ledger.{balance}
use freelancing_platform.Payments.Queries.{Answer}
use freelancing_platform.Payments.Queries.Found.{
  milestone_in, bind-get_milestone, bind-require_escrow, bind-escrow_account_of, bind-balance,
  contract_of-reads, IsContractOf, contract_of-IsContractOf,
}
use freelancing_platform.Payments.Release.Guards.{HasEscrow}
use freelancing_platform.Disputes.Amounts.{Amounts, split_amounts, resolution_amounts}
use freelancing_platform.Disputes.Split.{Divides, Asks, resolution_amounts_iff}
use freelancing_platform.Disputes.Settled.{
  Payees, IsSettled, is_resolution_of, book_resolution-IsSettled,
}
use freelancing_platform.Disputes.Resolve.{
  Resolution, require_reviewable, resolve_funded, resolve_disputed, resolve_claimed,
}

-- A resolution of a frozen milestone whose escrow held exactly its amount, which it has divided.
pub record IsDecided (env : Environment) (o : Resolution) (award refund : Option ℤ)
    (before after : Db) : Type 0 where
  pub frozen : same_status o.milestone.status disputed ≡ true
  pub escrow : MilestoneEscrow
  pub account : LedgerAccount
  pub has_escrow : HasEscrow o.milestone escrow account before
  pub full : balance account.id before ≡ o.milestone.amount_minor
  pub positive : pos 1 ≤ℤ o.milestone.amount_minor
  pub amounts : Amounts
  pub divides : Divides o.outcome o.milestone.amount_minor amounts
  pub asks : Asks o.outcome award refund amounts
  pub contract : Contract
  pub is_contract : IsContractOf o.milestone contract before
  pub payees : Payees
  pub settled :
      IsSettled env o contract escrow.commission_bps account o.milestone.amount_minor amounts payees
        before after

resolution_amounts-reads :
    (x : Outcome) (funded : ℤ) (award refund : Option ℤ) (s : Session)
    → Keeps (λ t. t ≡ s) (resolution_amounts x funded award refund)
unfolding resolution_amounts split_amounts
resolution_amounts-reads release_to_freelancer funded award refund s = search keeps_rules
resolution_amounts-reads refund_client funded award refund s = search keeps_rules
resolution_amounts-reads split funded award refund s = search keeps_rules depth 9

require_reviewable-reads : (d : Dispute) (s : Session) → Keeps (λ t. t ≡ s) (require_reviewable d)
unfolding require_reviewable
require_reviewable-reads d s = search keeps_rules

full_of : (a b : ℤ) → (not (a ==ℤ b) || leb_ℤ a (pos 0)) ≡ false → (a ==ℤ b) ≡ true
full_of a b h = ground arith

positive_of : (a b : ℤ) → (not (a ==ℤ b) || leb_ℤ a (pos 0)) ≡ false → pos 1 ≤ℤ a
positive_of a b h = ground arith

undecided_of : (b : Bool) (d : Option DisputeDecision) → (b || is_some d) ≡ false → d ≡ none
undecided_of b none h = refl
undecided_of b (some d) h = ground arith

reviewable_returned :
    (d : Dispute) (s : Session) (u : Unit {0})
    → (require_reviewable d s).0 ≡ ok u
    → (d.decision ≡ none) × (same_dispute_status d.status under_review ≡ true)
unfolding require_reviewable
reviewable_returned d s u h =
    let (p, e) = bind-raise_if _ _ _ s u h in
    (
      undecided_of _ d.decision p,
      not-false _ (raise_if_returned _ _ s u (sym (ap (λ x. x.0) e) ∙ h)),
    )

-- A call that returns was about a dispute under review.
pub resolve_claimed_reviewed :
    (env : Environment) (key : FinancialIdempotencyKey) (user : User) (d : Dispute)
    (outcome reason : Text) (award refund : Option ℤ) (raw : Text) (s : Session) (answer : Answer)
    → (resolve_claimed env key user d outcome reason award refund raw s).0 ≡ ok answer
    → same_dispute_status d.status under_review ≡ true
unfolding resolve_claimed
resolve_claimed_reviewed env key user d outcome reason award refund raw s answer returned =
    let (u, eu, e1) = bind-reader _ _ s answer (require_reviewable-reads d s) returned in
    (reviewable_returned d s u (ap (λ x. x.0) eu)).1

module _ (env : Environment) (s : Session) (answer : Answer) (award refund : Option ℤ) where
  -- The part from the amounts on, at an escrow that holds `funded`.
  abbrev IsDivided : Resolution → MilestoneEscrow → LedgerAccount → ℤ → Db → Type 0
  IsDivided o e account funded after =
      (a : Amounts) × (c : Contract) × (p : Payees) × IsContractOf o.milestone c s.live
      × Divides o.outcome funded a
      × Asks o.outcome award refund a
      × IsSettled env o c e.commission_bps account funded a p s.live after

  resolve_funded-IsDivided :
      (o : Resolution) (e : MilestoneEscrow) (account : LedgerAccount) (funded : ℤ)
      → (resolve_funded env o e account funded award refund s).0 ≡ ok answer
      → find? (is_resolution_of o.dispute.id) s.live.journal_transactions ≡ none
      → IsDivided o e account funded (resolve_funded env o e account funded award refund s).1.saved
  unfolding resolve_funded
  resolve_funded-IsDivided o e account funded returned absent =
      let (a, ea, e1) =
        bind-reader _ _ s answer (resolution_amounts-reads o.outcome funded award refund s)
          returned in
      let r1 = sym (ap (λ x. x.0) e1) ∙ returned in
      let (c, ec, e2) = bind-reader _ _ s answer (contract_of-reads s o.milestone) r1 in
      let r2 = sym (ap (λ x. x.0) e2) ∙ r1 in
      let (p, settled) = book_resolution-IsSettled env o c e account funded a s answer r2 absent in
      let (divides, asks) =
        (resolution_amounts_iff funded a s o.outcome award refund).0 (ap (λ x. x.0) ea) in
      (
        a,
        c,
        p,
        contract_of-IsContractOf o.milestone c s (ap (λ x. x.0) ec),
        divides,
        asks,
        subst (λ x. IsSettled env o c e.commission_bps account funded a p s.live x.1.saved)
            (sym (e1 ∙ e2)) settled,
      )

  resolve_disputed-IsDecided :
      (o : Resolution)
      → (resolve_disputed env o award refund s).0 ≡ ok answer
      → find? (is_resolution_of o.dispute.id) s.live.journal_transactions ≡ none
      → IsDecided env o award refund s.live (resolve_disputed env o award refund s).1.saved
  unfolding resolve_disputed
  resolve_disputed-IsDecided o returned absent =
      let (p1, e1) = bind-raise_if _ _ _ s answer returned in
      let r1 = sym (ap (λ x. x.0) e1) ∙ returned in
      let (e, found_escrow, e2) = bind-require_escrow s answer _ _ r1 in
      let r2 = sym (ap (λ x. x.0) e2) ∙ r1 in
      let (account, found_account, e3) = bind-escrow_account_of s answer _ _ r2 in
      let r3 = sym (ap (λ x. x.0) e3) ∙ r2 in
      let e4 = bind-balance s answer account _ in
      let r4 = sym (ap (λ x. x.0) e4) ∙ r3 in
      let (p5, e5) = bind-raise_if _ _ _ s answer r4 in
      let r5 = sym (ap (λ x. x.0) e5) ∙ r4 in
      let funded = balance account.id s.live in
      let full =
        ==ℤ_true funded o.milestone.amount_minor (full_of funded o.milestone.amount_minor p5) in
      let divided =
        subst (λ x. IsDivided o e account funded x.1.saved) (sym (e1 ∙ e2 ∙ e3 ∙ e4 ∙ e5))
          (resolve_funded-IsDivided o e account funded r5 absent) in
      let (a, c, p, is_contract, divides, asks, settled) =
        subst (λ n. IsDivided o e account n (resolve_disputed env o award refund s).1.saved) full
          divided in
      record {
        frozen = not-false _ p1;
        escrow = e;
        account = account;
        has_escrow = record { escrow = found_escrow; account = found_account };
        full = full;
        positive = subst (λ n. pos 1 ≤ℤ n) full (positive_of funded o.milestone.amount_minor p5);
        amounts = a;
        divides = divides;
        asks = asks;
        contract = c;
        is_contract = is_contract;
        payees = p;
        settled = settled;
      }

  -- A resolution that returns was of a dispute under review without a decision and of a milestone
  -- that it had frozen. The escrow held exactly the milestone's positive amount. The resolution
  -- divides that amount as the outcome says and the request asks, and moves it out of the escrow once
  -- and for good: the award less the commission into the wallet of the freelancer of the milestone's
  -- contract, the commission to the platform, and the refund, which the provider has confirmed, into its clearing account; no other
  -- balance changes. This is given that no resolution of the dispute was posted before.
  pub resolve_claimed-IsDecided :
      (key : FinancialIdempotencyKey) (user : User) (d : Dispute) (outcome reason : Text)
      (raw : Text)
      → (resolve_claimed env key user d outcome reason award refund raw s).0 ≡ ok answer
      → find? (is_resolution_of d.id) s.live.journal_transactions ≡ none
      → (d.decision ≡ none)
        × (same_dispute_status d.status under_review ≡ true)
        × (o : Resolution) × (o.dispute ≡ d)
        × (env.outcome_named outcome ≡ some o.outcome)
        × (milestone_in d.milestone_id s.live ≡ some o.milestone)
        × IsDecided env o award refund s.live
            (resolve_claimed env key user d outcome reason award refund raw s).1.saved
  unfolding resolve_claimed
  resolve_claimed-IsDecided key user d outcome reason raw returned absent =
      let (u, eu, e1) = bind-reader _ _ s answer (require_reviewable-reads d s) returned in
      let r1 = sym (ap (λ x. x.0) e1) ∙ returned in
      let (named, is_named, e2) = bind-require (env.outcome_named outcome) _ _ s answer r1 in
      let r2 = sym (ap (λ x. x.0) e2) ∙ r1 in
      let (m, found, e3) = bind-get_milestone s answer d.milestone_id _ r2 in
      let r3 = sym (ap (λ x. x.0) e3) ∙ r2 in
      let o : Resolution = record {
        key = key;
        administrator = user;
        dispute = d;
        milestone = m;
        outcome = named;
        reason = reason;
        idempotency_key = raw;
      } in
      let (undecided, reviewed) = reviewable_returned d s u (ap (λ x. x.0) eu) in
      (
        undecided,
        reviewed,
        o,
        refl,
        is_named,
        found,
        subst (λ x. IsDecided env o award refund s.live x.1.saved) (sym (e1 ∙ e2 ∙ e3))
            (resolve_disputed-IsDecided o r3 absent),
      )
