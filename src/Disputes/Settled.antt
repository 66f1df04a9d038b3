-- ===== src/Disputes/Settled.antt =====
-- What a resolution that returns has paid: `resolve_dispute` of app/disputes/service.py.
use freelancing_platform.Prelude.{
  ℕ, Bool, ◌≡◌, ◌∙◌, refl, ap, sym, subst, Option, none, List, [], ◌∷◌, ◌++◌, ◌==◌, ◌&&◌, find?,
  if◌then◌else◌,
}
use freelancing_platform.Prelude.Int.{ℤ, pos, ◌+ℤ◌, ◌-ℤ◌, +ℤ-zero}
use freelancing_platform.Database.Rows.Texts.{Text, Uuid}
use freelancing_platform.Database.Rows.Ledger.{
  LedgerAccount, JournalTransaction, debit, same_reference_type, ref_dispute, same_operation,
  dispute_resolution,
}
use freelancing_platform.Database.Rows.Contract.{Contract}
use freelancing_platform.Database.Rows.Dispute.{DisputeDecision}
use freelancing_platform.Database.Rows.Payment.{MilestoneEscrow}
use freelancing_platform.Database.Tables.{Db}
use freelancing_platform.Database.Environment.{Environment, ok}
use freelancing_platform.Database.Session.{Session}
use freelancing_platform.Database.Session.Keeps.{Keeps}
use freelancing_platform.Database.Session.Steps.{bind_inv}
use freelancing_platform.Database.Session.Durable.{IsDurable, durable_rules}
use freelancing_platform.Ledger.{
  Posting, sum_entries, entries_of, sum_journals, balance, post_journal, JournalRequest,
}
use freelancing_platform.Ledger.Outcome.{post_journal_returned}
use freelancing_platform.Ledger.Untouched.{LiveJournals, LiveJournals-Quiet, LiveJournals-commit}
use freelancing_platform.Payments.Queries.{Answer}
use freelancing_platform.Payments.Release.{commission, wallet_identity, platform_identity}
use freelancing_platform.Disputes.Amounts.{
  Amounts, freelancer_postings, Confirmed, confirm_unless_zero, posting_of,
}
use freelancing_platform.Disputes.Credits.{
  Credits, postings_to, gained, entries_gain, freelancer_postings_returned,
  freelancer_postings-HasIntents,
}
use freelancing_platform.Disputes.Confirmation.{
  Refunded, confirm_unless_zero_returned, clearing_of, posting_of-postings_to,
}
use freelancing_platform.Disputes.Resolve.{
  Resolution, resolution_request, close_dispute, finish_resolution, book_resolution,
}
use freelancing_platform.Disputes.Framing.{
  freelancer_postings-Keeps, confirm_unless_zero-Keeps, finish_resolution-Keeps,
}

-- A resolution of the dispute has been posted.
abbrev pub is_resolution_of : Uuid → JournalTransaction → Bool
is_resolution_of id j =
    same_reference_type j.reference_type ref_dispute
    && (j.reference_id == id && same_operation j.operation dispute_resolution)

-- Who is credited, as far as anything is.
pub record Payees : Type 0 where
  pub wallet : Option LedgerAccount
  pub platform : Option LedgerAccount
  pub confirmed : Option Confirmed

-- What a resolution adds to the balance of the account `x`.
abbrev pub shares : Uuid → LedgerAccount → ℤ → Payees → Amounts → ℤ → ℤ
shares x escrow funded p a fee =
    (if escrow.id == x then pos 0 -ℤ funded else pos 0)
    +ℤ (gained x p.wallet (a.award -ℤ fee)
        +ℤ (gained x p.platform fee +ℤ gained x (clearing_of p.confirmed) a.refund))

-- Between the rows `before` and `after`, the funded amount has left the escrow: the award less the
-- commission is in the freelancer's wallet, the commission with the platform, and the refund, which
-- the provider has confirmed, in its clearing account.
pub record IsSettled (env : Environment) (o : Resolution) (c : Contract) (bps : ℕ)
    (escrow : LedgerAccount) (funded : ℤ) (a : Amounts) (p : Payees) (before after : Db)
    : Type 0 where
  pub wallet_owner :
      Credits
        (wallet_identity c.freelancer_user_id o.milestone.currency)
        (a.award -ℤ commission a.award bps)
        p.wallet
  pub platform_account :
      Credits (platform_identity o.milestone.currency) (commission a.award bps) p.platform
  pub refunded :
      Refunded env o.dispute.id o.milestone a.refund o.idempotency_key before.payment_intents
        p.confirmed
  pub balances :
      (x : Uuid)
      → balance x after ≡ shares x escrow funded p a (commission a.award bps) +ℤ balance x before

append_assoc_two : (xs ys zs : List Posting) → (xs ++ ys) ++ zs ≡ xs ++ (ys ++ zs)
append_assoc_two [] ys zs = refl
append_assoc_two (x ∷ xs) ys zs = ap (λ l. x ∷ l) (append_assoc_two xs ys zs)

append_nil : (xs : List Posting) → xs ++ [] ≡ xs
append_nil [] = refl
append_nil (x ∷ xs) = ap (λ l. x ∷ l) (append_nil xs)

abbrev credit_list : Payees → Amounts → ℤ → List Posting
credit_list p a fee =
    postings_to p.wallet (a.award -ℤ fee)
    ++ (postings_to p.platform fee ++ (postings_to (clearing_of p.confirmed) a.refund ++ []))

module _ (cur : Text) (x : Uuid) (escrow : LedgerAccount) (funded : ℤ) (p : Payees) (a : Amounts)
    (fee : ℤ) where
  shares-entries :
      sum_entries x (
        entries_of cur (
          record { account = escrow; direction = debit; amount_minor = funded }
          ∷ credit_list p a fee))
      ≡ shares x escrow funded p a fee
  shares-entries =
      ap (λ t. (if escrow.id == x then pos 0 -ℤ funded else pos 0) +ℤ t)
        (entries_gain cur x p.wallet _ _
          ∙ ap (λ t. gained x p.wallet (a.award -ℤ fee) +ℤ t)
              (entries_gain cur x p.platform _ _
                ∙ ap (λ t. gained x p.platform fee +ℤ t)
                    (entries_gain cur x (clearing_of p.confirmed) _ [] ∙ +ℤ-zero _)))

close_dispute-IsDurable :
    (env : Environment) (o : Resolution) (d : DisputeDecision) → IsDurable (close_dispute env o d)
unfolding close_dispute
close_dispute-IsDurable env o d = search durable_rules depth 14

module _ (env : Environment) (o : Resolution) (c : Contract) (a : Amounts) (fee : ℤ)
    (confirmed : Option Confirmed) (j : JournalTransaction) where
  finish_resolution-LiveJournals :
      (js : List JournalTransaction)
      → Keeps (LiveJournals js) (finish_resolution env o c a fee confirmed j)
  finish_resolution-LiveJournals js =
      finish_resolution-Keeps (LiveJournals-Quiet js) (LiveJournals-commit js) env o c a fee
        confirmed j

  finish_resolution-IsDurable : IsDurable (finish_resolution env o c a fee confirmed j)
  unfolding finish_resolution
  finish_resolution-IsDurable = search (durable_rules, close_dispute-IsDurable) depth 14

same_postings :
    (p : Payees) (a : Amounts) (fee : ℤ) (credits last : List Posting)
    → credits ≡ postings_to p.wallet (a.award -ℤ fee) ++ postings_to p.platform fee
    → last ≡ postings_to (clearing_of p.confirmed) a.refund
    → credits ++ last ≡ credit_list p a fee
same_postings p a fee credits last ec el =
    (λ i. ec i ++ el i)
    ∙ append_assoc_two (postings_to p.wallet (a.award -ℤ fee)) _ _
    ∙ ap (λ l. postings_to p.wallet (a.award -ℤ fee) ++ (postings_to p.platform fee ++ l))
        (sym (append_nil (postings_to (clearing_of p.confirmed) a.refund)))

module _ (env : Environment) (o : Resolution) (c : Contract) (e : MilestoneEscrow)
    (escrow : LedgerAccount) (funded : ℤ) (a : Amounts) (s : Session) (answer : Answer) where
  abbrev fee : ℤ
  fee = commission a.award e.commission_bps

  -- The accounts come first, then the provider: s1 and s2 are the sessions after them.
  abbrev s1 : Session
  s1 = (freelancer_postings c.freelancer_user_id o.milestone.currency (a.award -ℤ fee) fee s).1

  abbrev s2 : Session
  s2 = (confirm_unless_zero env o.dispute.id o.milestone a.refund o.idempotency_key s1).1

  abbrev request : List Posting → Option Confirmed → JournalRequest
  request credits confirmed = resolution_request o.dispute.id (
      record { account = escrow; direction = debit; amount_minor = funded }
      ∷ (credits ++ posting_of confirmed))

  same_journals : s2.live.journal_transactions ≡ s.live.journal_transactions
  same_journals =
      (confirm_unless_zero-Keeps (LiveJournals-Quiet s.live.journal_transactions) env _ _ _ _).at s1
        ((freelancer_postings-Keeps (LiveJournals-Quiet s.live.journal_transactions) _ _ _ _).at s
          refl)

  same_intents : s1.live.payment_intents ≡ s.live.payment_intents
  same_intents = (freelancer_postings-HasIntents s.live.payment_intents _ _ _ _).at s refl

  IsSettled-by :
      (credits : List Posting) (confirmed : Option Confirmed) (j : JournalTransaction)
      → (freelancer_postings c.freelancer_user_id o.milestone.currency (a.award -ℤ fee) fee s).0
        ≡ ok credits
      → (confirm_unless_zero env o.dispute.id o.milestone a.refund o.idempotency_key s1).0
        ≡ ok confirmed
      → (post_journal (request credits confirmed) s2).0 ≡ ok j
      → (finish_resolution env o c a fee confirmed j
          (post_journal (request credits confirmed) s2).1).0
        ≡ ok answer
      → find? (is_resolution_of o.dispute.id) s.live.journal_transactions ≡ none
      → (p : Payees) × IsSettled env o c e.commission_bps escrow funded a p s.live
          (finish_resolution env o c a fee confirmed j
            (post_journal (request credits confirmed) s2).1).1.saved
  IsSettled-by credits confirmed j ec ex ej ef absent =
      let (wallet, platform, is_wallet, is_platform, list) =
        freelancer_postings_returned _ _ _ _ s credits ec in
      let refunded = confirm_unless_zero_returned env _ _ _ _ s1 confirmed ex in
      let p : Payees = record { wallet = wallet; platform = platform; confirmed = confirmed } in
      let (cur, accepted, posted) =
        post_journal_returned (request credits confirmed) s2 j ej
          (ap (find? (is_resolution_of o.dispute.id)) same_journals ∙ absent) in
      let s3 = (post_journal (request credits confirmed) s2).1 in
      let kept =
        (finish_resolution-LiveJournals env o c a fee confirmed j s3.live.journal_transactions).at
          s3 refl in
      let saved = (finish_resolution-IsDurable env o c a fee confirmed j).at s3 answer ef in
      let is_list =
        same_postings p a fee credits (posting_of confirmed) list
          (posting_of-postings_to env _ _ _ _ _ confirmed refunded) in
      (
        p,
        record {
          wallet_owner = is_wallet;
          platform_account = is_platform;
          refunded =
              subst
                (λ is.
                  Refunded env o.dispute.id o.milestone a.refund o.idempotency_key is confirmed)
                same_intents refunded;
          balances = λ x.
              ap (balance x) saved
              ∙ ap (sum_journals x) kept
              ∙ ap (λ r. balance x r.1.live) posted
              ∙ ap
                  (λ l.
                    sum_entries x (
                      entries_of cur
                        (record { account = escrow; direction = debit; amount_minor = funded } ∷ l))
                    +ℤ balance x s2.live)
                  is_list
              ∙ ap (λ t. t +ℤ balance x s2.live) (shares-entries cur x escrow funded p a fee)
              ∙ ap (λ js. shares x escrow funded p a fee +ℤ sum_journals x js) same_journals;
        },
      )

  pub book_resolution-IsSettled :
      (book_resolution env o c e escrow funded a s).0 ≡ ok answer
      → find? (is_resolution_of o.dispute.id) s.live.journal_transactions ≡ none
      → (p : Payees) × IsSettled env o c e.commission_bps escrow funded a p s.live
          (book_resolution env o c e escrow funded a s).1.saved
  unfolding book_resolution
  book_resolution-IsSettled returned absent =
      let (credits, ec, e1) = bind_inv _ _ s answer returned in
      let r1 = sym (ap (λ x. x.0) e1) ∙ returned in
      let (confirmed, ex, e2) = bind_inv _ _ _ answer r1 in
      let r2 = sym (ap (λ x. x.0) e2) ∙ r1 in
      let (j, ej, e3) = bind_inv _ _ _ answer r2 in
      let r3 = sym (ap (λ x. x.0) e3) ∙ r2 in
      let (p, settled) = IsSettled-by credits confirmed j ec ex ej r3 absent in
      (
        p,
        subst (λ x. IsSettled env o c e.commission_bps escrow funded a p s.live x.1.saved)
            (sym (e1 ∙ e2 ∙ e3)) settled,
      )
