-- ===== src/Ledger/Outcome.antt =====
-- `post_journal`: the three ways in which a call ends.
use freelancing_platform.Prelude.{
  suc, ◌≡◌, ◌∙◌, ap, ◌⊎◌, inl, inr, Option, none, some, arith, find?, Option-cases,
}
use freelancing_platform.Database.Rows.Texts.{Text}
use freelancing_platform.Database.Rows.Ledger.{JournalTransaction}
use freelancing_platform.Database.Tables.{add_journal}
use freelancing_platform.Database.Environment.{Error, ok, err, Result-cases}
use freelancing_platform.Database.Session.{Session, Action, gets, ◌>>=◌}
use freelancing_platform.Database.Session.Steps.{bind-ok}
use freelancing_platform.Ledger.{
  check_postings, JournalRequest, is_journal_of, entries_of, existing_or_insert, post_journal,
}
use freelancing_platform.Ledger.Journal.{IsAccepted, check_postings_iff, check_postings_session}

-- The journal that a request becomes.
abbrev pub journal_of : JournalRequest → Text → Session → JournalTransaction
journal_of r c s = record {
  id = s.live.next_id;
  operation = r.operation;
  reference_type = r.reference_type;
  reference_id = r.reference_id;
  reversal_of_id = r.reversal_of_id;
  entries = entries_of c r.postings;
}

-- The session after the insert.
abbrev pub after_insert : JournalRequest → Text → Session → Session
after_insert r c s = record s {
  live = add_journal (journal_of r c s) (record s.live { next_id = suc s.live.next_id });
}

abbrev pub posted_before : JournalRequest → Session → Option JournalTransaction
posted_before r s = find? (is_journal_of r) s.live.journal_transactions

-- What `post_journal` does once its checks have passed.
abbrev look_up_journal : JournalRequest → Text → Action JournalTransaction
look_up_journal r currency = do
  existing ← gets (λ db. find? (is_journal_of r) db.journal_transactions)
  existing_or_insert r currency existing

module _ (r : JournalRequest) (c : Text) (s : Session) where
  look_up_found :
      (j : JournalTransaction) → posted_before r s ≡ some j → look_up_journal r c s ≡ (ok j, s)
  unfolding ◌>>=◌ existing_or_insert
  look_up_found j found = ap (λ o. existing_or_insert r c o s) found

  look_up_absent :
      posted_before r s ≡ none → look_up_journal r c s ≡ (ok (journal_of r c s), after_insert r c s)
  unfolding ◌>>=◌ existing_or_insert
  look_up_absent absent = ap (λ o. existing_or_insert r c o s) absent

module _ (r : JournalRequest) (s : Session) where
  checks_pass : (c : Text) → IsAccepted c r.postings → check_postings r.postings s ≡ (ok c, s)
  checks_pass c h =
      λ i. ((check_postings_iff c r.postings s).1 h i, check_postings_session r.postings s i)

  -- Rejected postings leave the session as it was.
  pub post_journal_rejected :
      {e : Error} → (check_postings r.postings s).0 ≡ err e → post_journal r s ≡ (err e, s)
  unfolding post_journal ◌>>=◌
  post_journal_rejected h = ground (arith, check_postings_session r.postings s)

  -- A journal posted before under the same reference and operation is returned, and nothing written.
  pub post_journal_replay :
      (c : Text) (j : JournalTransaction)
      → IsAccepted c r.postings
      → posted_before r s ≡ some j
      → post_journal r s ≡ (ok j, s)
  unfolding post_journal ◌>>=◌
  post_journal_replay c j h found =
      bind-ok (check_postings r.postings) (look_up_journal r) (checks_pass c h)
      ∙ look_up_found r c s j found

  -- A new journal holds one entry for each posting.
  pub post_journal_new :
      (c : Text)
      → IsAccepted c r.postings
      → posted_before r s ≡ none
      → post_journal r s ≡ (ok (journal_of r c s), after_insert r c s)
  unfolding post_journal ◌>>=◌
  post_journal_new c h absent =
      bind-ok (check_postings r.postings) (look_up_journal r) (checks_pass c h)
      ∙ look_up_absent r c s absent

  -- Every call either leaves the session as it was, or inserts an accepted journal.
  pub post_journal_cases :
      ((post_journal r s).1 ≡ s)
      ⊎ ((c : Text) × IsAccepted c r.postings
          × (posted_before r s ≡ none)
          × ((post_journal r s).1 ≡ after_insert r c s))
  post_journal_cases = elim (Result-cases (check_postings r.postings s).0) [
    | inr (e, rejected) ↦ inl (ap (λ x. x.1) (post_journal_rejected rejected))
    | inl (c, accepted) ↦
        let h = (check_postings_iff c r.postings s).0 accepted in
        elim (Option-cases (posted_before r s)) [
          | inr (j, found) ↦ inl (ap (λ x. x.1) (post_journal_replay c j h found))
          | inl absent ↦ inr (c, h, absent, ap (λ x. x.1) (post_journal_new c h absent))
        ]
  ]

  -- What a call that returns has found or done.
  pub post_journal_returned :
      (j : JournalTransaction)
      → (post_journal r s).0 ≡ ok j
      → posted_before r s ≡ none
      → (c : Text) × IsAccepted c r.postings
        × (post_journal r s ≡ (ok (journal_of r c s), after_insert r c s))
  post_journal_returned j returned absent = elim (Result-cases (check_postings r.postings s).0) [
    | inr (e, rejected) ↦ let stuck = ap (λ x. x.0) (post_journal_rejected rejected) in ground arith
    | inl (c, accepted) ↦
        let h = (check_postings_iff c r.postings s).0 accepted in
        (c, h, post_journal_new c h absent)
  ]

  -- Whatever it finds, a call that returns has accepted its postings.
  pub post_journal-IsAccepted :
      (j : JournalTransaction) → (post_journal r s).0 ≡ ok j → (c : Text) × IsAccepted c r.postings
  post_journal-IsAccepted j returned = elim (Result-cases (check_postings r.postings s).0) [
    | inr (e, rejected) ↦ let stuck = ap (λ x. x.0) (post_journal_rejected rejected) in ground arith
    | inl (c, accepted) ↦ (c, (check_postings_iff c r.postings s).0 accepted)
  ]
