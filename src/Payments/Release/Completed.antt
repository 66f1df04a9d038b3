-- ===== src/Payments/Release/Completed.antt =====
-- What a release that returns leaves in its idempotency record: the answer.
use freelancing_platform.Prelude.{
  Bool, true, false, ◌≡◌, ◌∙◌, refl, ap, sym, Option, none, some, List, if◌then◌else◌,
}
use freelancing_platform.Database.Rows.Texts.{Uuid}
use freelancing_platform.Database.Rows.Ledger.{LedgerAccount, JournalTransaction}
use freelancing_platform.Database.Rows.Contract.{Contract, Milestone, released, same_status}
use freelancing_platform.Database.Rows.Payment.{FinancialIdempotencyKey, MilestoneEscrow}
use freelancing_platform.Database.Tables.{Db, replace}
use freelancing_platform.Database.Environment.{Environment, ok}
use freelancing_platform.Database.Session.{Session, Action, commit, pure, ◌>>=◌, ◌>>◌}
use freelancing_platform.Database.Session.Keeps.{Keeps, keeps_rules}
use freelancing_platform.Database.Session.Steps.{bind_inv, bind-raise_if, bind-reader, ok_only}
use freelancing_platform.Ledger.Untouched.{get_or_create_account-LiveKeys, post_journal-LiveKeys}
use freelancing_platform.Payments.Effects.{
  save_milestone, enqueue_outbox_event, record_audit_event, save_key,
}
use freelancing_platform.Payments.Queries.{
  Answer, find_escrow, escrow_balance, escrow_account_of, find_account, financial_state,
}
use freelancing_platform.Payments.Queries.Found.{
  bind-require_escrow, bind-escrow_account_of, bind-balance,
}
use freelancing_platform.Ledger.{account_balance_minor}
use freelancing_platform.Payments.Idempotency.{complete_idempotency}
use freelancing_platform.Payments.Release.{
  released_by, finish_release, book_release, release_approved, report_released, release_claimed,
}

escrow_balance-reads :
    (e : Option MilestoneEscrow) (s : Session) → Keeps (λ x. x ≡ s) (escrow_balance e)
unfolding escrow_balance escrow_account_of find_account account_balance_minor
escrow_balance-reads none s = search keeps_rules
escrow_balance-reads (some e) s = search keeps_rules depth 9

financial_state-reads : (m : Milestone) (s : Session) → Keeps (λ x. x ≡ s) (financial_state m)
unfolding financial_state find_escrow
financial_state-reads m s = search (keeps_rules, escrow_balance-reads)

-- The record with the answer.
abbrev pub completed : FinancialIdempotencyKey → Answer → FinancialIdempotencyKey
completed k answer = record k { response_status = some answer.1; response_body = some answer.0 }

-- The answer that stands in the record of the key, among the rows `after`.
abbrev pub IsCompleted :
    FinancialIdempotencyKey → Answer → List FinancialIdempotencyKey → Db → Type 0
IsCompleted k answer before after =
    after.idempotency_keys ≡ replace (λ r. r.id) (completed k answer) before

-- The last steps of a release.
abbrev ending : FinancialIdempotencyKey → Milestone → Action Answer
ending k m = do body ← financial_state m; complete_idempotency k 200 body; commit; pure (body, 200)

ending-IsCompleted :
    (k : FinancialIdempotencyKey) (m : Milestone) (s : Session) (answer : Answer)
    → (ending k m s).0 ≡ ok answer
    → IsCompleted k answer s.live.idempotency_keys (ending k m s).1.live
unfolding complete_idempotency save_key ◌>>=◌
ending-IsCompleted k m s answer returned =
    let (body, is_body, e1) =
      bind-reader (financial_state m)
        (λ body. do complete_idempotency k 200 body; commit; pure (body, 200)) s answer
        (financial_state-reads m s) returned in
    let same = ok_only (body, 200) answer (sym (ap (λ x. x.0) e1) ∙ returned) in
    ap (λ x. x.1.live.idempotency_keys) e1
    ∙ ap (λ a. replace (λ r. r.id) (completed k a) s.live.idempotency_keys) same

module _ (env : Environment) (k : FinancialIdempotencyKey) (m : Milestone) (c : Contract)
    (user : Uuid) (answer : Answer) where
  finish_release-IsCompleted :
      (j : JournalTransaction) (s : Session)
      → (finish_release env k m user j s).0 ≡ ok answer
      → IsCompleted k answer s.live.idempotency_keys (finish_release env k m user j s).1.live
  unfolding finish_release save_milestone enqueue_outbox_event record_audit_event ◌>>=◌
  finish_release-IsCompleted j s returned =
      ending-IsCompleted k (released_by user m) _ answer returned

  book_release-IsCompleted :
      (e : MilestoneEscrow) (escrow : LedgerAccount) (s : Session)
      → (book_release env k m c e escrow user s).0 ≡ ok answer
      → IsCompleted k answer s.live.idempotency_keys (book_release env k m c e escrow user s).1.live
  unfolding book_release
  book_release-IsCompleted e escrow s returned =
      let ks = s.live.idempotency_keys in
      let (w, ew, e1) = bind_inv _ _ s answer returned in
      let r1 = sym (ap (λ x. x.0) e1) ∙ returned in
      let k1 = (get_or_create_account-LiveKeys ks _).at s refl in
      let (p, ep, e2) = bind_inv _ _ _ answer r1 in
      let r2 = sym (ap (λ x. x.0) e2) ∙ r1 in
      let k2 = (get_or_create_account-LiveKeys ks _).at _ k1 in
      let (j, ej, e3) = bind_inv _ _ _ answer r2 in
      let r3 = sym (ap (λ x. x.0) e3) ∙ r2 in
      let k3 = (post_journal-LiveKeys ks _).at _ k2 in
      ap (λ x. x.1.live.idempotency_keys) (e1 ∙ e2 ∙ e3)
      ∙ finish_release-IsCompleted j _ r3
      ∙ ap (λ l. replace (λ r. r.id) (completed k answer) l) k3

  release_approved-IsCompleted :
      (s : Session)
      → (release_approved env k m c user s).0 ≡ ok answer
      → IsCompleted k answer s.live.idempotency_keys (release_approved env k m c user s).1.live
  unfolding release_approved
  release_approved-IsCompleted s returned =
      let (p1, e1) = bind-raise_if _ _ _ s answer returned in
      let r1 = sym (ap (λ x. x.0) e1) ∙ returned in
      let (e, found_escrow, e2) = bind-require_escrow s answer _ _ r1 in
      let r2 = sym (ap (λ x. x.0) e2) ∙ r1 in
      let (account, found_account, e3) = bind-escrow_account_of s answer _ _ r2 in
      let r3 = sym (ap (λ x. x.0) e3) ∙ r2 in
      let e4 = bind-balance s answer account _ in
      let r4 = sym (ap (λ x. x.0) e4) ∙ r3 in
      let (p5, e5) = bind-raise_if _ _ _ s answer r4 in
      let r5 = sym (ap (λ x. x.0) e5) ∙ r4 in
      ap (λ x. x.1.live.idempotency_keys) (e1 ∙ e2 ∙ e3 ∙ e4 ∙ e5)
      ∙ book_release-IsCompleted e account s r5

  pub release_claimed-IsCompleted :
      (s : Session)
      → (release_claimed env k m c user s).0 ≡ ok answer
      → IsCompleted k answer s.live.idempotency_keys (release_claimed env k m c user s).1.live
  unfolding release_claimed report_released
  release_claimed-IsCompleted s returned = by_test (same_status m.status released) returned
    where
      by_test :
          (b : Bool)
          → ((if b then ending k m else release_approved env k m c user) s).0 ≡ ok answer
          → IsCompleted k answer s.live.idempotency_keys
              ((if b then ending k m else release_approved env k m c user) s).1.live
      by_test true r = ending-IsCompleted k m s answer r
      by_test false r = release_approved-IsCompleted s r
