-- ===== src/Ledger/Transfer.antt =====
-- Journals of two postings, which carry one amount from one account to another: funding, the
-- reservation of a refund and its reversal.
use freelancing_platform.Prelude.{◌≡◌, ◌∙◌, ap, subst, none, [], ◌∷◌, ◌==◌, if◌then◌else◌, List}
use freelancing_platform.Prelude.Int.{ℤ, pos, ◌+ℤ◌, ◌-ℤ◌, ◌≤ℤ◌, +ℤ-zero}
use freelancing_platform.Database.Rows.Texts.{Text, Uuid}
use freelancing_platform.Database.Rows.Ledger.{LedgerAccount, debit, credit, JournalTransaction}
use freelancing_platform.Database.Environment.{ok}
use freelancing_platform.Database.Session.{Session}
use freelancing_platform.Ledger.{
  Posting, entries_of, sum_entries, balance, JournalRequest, post_journal,
}
use freelancing_platform.Ledger.Journal.{IsAccepted}
use freelancing_platform.Ledger.Outcome.{posted_before, post_journal_returned}

abbrev pub transfer : LedgerAccount → LedgerAccount → ℤ → List Posting
transfer source target amount =
    record { account = source; direction = debit; amount_minor = amount }
    ∷ record { account = target; direction = credit; amount_minor = amount }
    ∷ []

-- What a transfer adds to the balance of the account `x`.
abbrev pub moved : Uuid → LedgerAccount → LedgerAccount → ℤ → ℤ
moved x source target amount =
    (if source.id == x then pos 0 -ℤ amount else pos 0)
    +ℤ (if target.id == x then amount else pos 0)

transfer-entries :
    (c : Text) (x : Uuid) (source target : LedgerAccount) (amount : ℤ)
    → sum_entries x (entries_of c (transfer source target amount)) ≡ moved x source target amount
transfer-entries c x source target amount =
    ap (λ t. (if source.id == x then pos 0 -ℤ amount else pos 0) +ℤ t) (+ℤ-zero _)

-- A transfer that is posted for the first time moves its amount, and is of a positive amount.
pub transfer_posted :
    (r : JournalRequest) (source target : LedgerAccount) (amount : ℤ) (s : Session)
    (j : JournalTransaction)
    → r.postings ≡ transfer source target amount
    → (post_journal r s).0 ≡ ok j
    → posted_before r s ≡ none
    → (pos 1 ≤ℤ amount)
      × ((x : Uuid)
          → balance x (post_journal r s).1.live ≡ moved x source target amount +ℤ balance x s.live)
transfer_posted r source target amount s j is_transfer returned absent =
    let (c, accepted, posted) = post_journal_returned r s j returned absent in
    (
      (subst (λ ps. IsAccepted c ps) is_transfer accepted).balanced.proper.0.1,
      λ x.
          ap (λ r. balance x r.1.live) posted
          ∙ ap (λ ps. sum_entries x (entries_of c ps) +ℤ balance x s.live) is_transfer
          ∙ ap (λ t. t +ℤ balance x s.live) (transfer-entries c x source target amount),
    )
