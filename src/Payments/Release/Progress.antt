-- ===== src/Payments/Release/Progress.antt =====
-- A release that nothing stands in the way of: every step of app/payments/service.py goes through.
use freelancing_platform.Prelude.{
  ◌<◌, ℕ, true, ◌≡◌, ◌∙◌, ap, sym, subst, refl, none, find?, Option, some, not, arith,
}
use freelancing_platform.Prelude.Int.{ℤ, pos, ◌==ℤ◌}
use freelancing_platform.Database.Rows.Texts.{Uuid}
use freelancing_platform.Database.Rows.Ledger.{LedgerAccount, JournalTransaction}
use freelancing_platform.Database.Rows.Contract.{
  Contract, Milestone, approved, released, same_status,
}
use freelancing_platform.Database.Rows.Payment.{
  Body, FinancialIdempotencyKey, MilestoneEscrow, financial_body,
}
use freelancing_platform.Database.Tables.Replaced.{find?-replace}
use freelancing_platform.Database.Environment.{Environment, Result, ok}
use freelancing_platform.Database.Session.{Session, ◌>>=◌, ◌>>◌, pure, commit}
use freelancing_platform.Database.Session.Steps.{bind-ok, lookup_found, raise_if_passes}
use freelancing_platform.Ledger.{balance, account_balance_minor}
use freelancing_platform.Ledger.Account.{IsStored, get_or_create_account_again}
use freelancing_platform.Ledger.Journal.{IsAccepted}
use freelancing_platform.Ledger.Outcome.{post_journal_new, journal_of, after_insert}
use freelancing_platform.Payments.Queries.{
  Answer, find_escrow, escrow_balance, escrow_account_of, find_account, financial_state, bps_of,
  require_escrow, milestone_audit_state,
}
use freelancing_platform.Payments.Queries.Found.{milestone_in, escrow_in, account_in, bind-balance}
use freelancing_platform.Database.Rows.Event.{milestone_released, milestone_released_action}
use freelancing_platform.Payments.Effects.{
  save_milestone, enqueue_outbox_event, record_audit_event, save_key,
}
use freelancing_platform.Payments.Idempotency.{complete_idempotency}
use freelancing_platform.Payments.Release.{
  commission, ReleaseAccounts, release_postings, release_request, wallet_identity,
  platform_identity, released_by, finish_release, book_release, release_approved,
}
use freelancing_platform.Payments.Release.Split.{release-IsAccepted_iff, InCurrency}
use freelancing_platform.Payments.Release.Guards.{HasEscrow, IsReleased, release_approved-IsPaid}
use freelancing_platform.Payments.Release.Paid.{is_release_of}

escrow_balance_found :
    (m : Milestone) (e : MilestoneEscrow) (a : LedgerAccount) (s : Session)
    → HasEscrow m e a s.live
    → escrow_balance (some e) s ≡ (ok (balance a.id s.live), s)
unfolding escrow_balance escrow_account_of find_account account_balance_minor ◌>>=◌
escrow_balance_found m e a s h =
    bind-ok (escrow_account_of e) account_balance_minor {s = s} {s' = s} {a = a}
      (lookup_found (account_in e.escrow_account_id) _ s a h.account)

-- The state of a milestone whose escrow and its account are there.
financial_state_found :
    (m : Milestone) (e : MilestoneEscrow) (a : LedgerAccount) (s : Session)
    → HasEscrow m e a s.live
    → (body : Body) × (financial_state m s ≡ (ok body, s))
unfolding financial_state find_escrow ◌>>=◌
financial_state_found m e a s h = (
  financial_body m.id m.status m.amount_minor m.currency (balance a.id s.live)
      (some e.commission_bps),
  bind-ok (find_escrow m.id) (λ o. do balance ← escrow_balance o; pure (shown balance o)) {s = s}
        {s' = s} {a = some e} (ap (λ o. (ok o, s)) h.escrow)
      ∙ bind-ok (escrow_balance (some e)) (λ balance. pure (shown balance (some e)))
          (escrow_balance_found m e a s h),
)
  where
    shown : ℤ → Option MilestoneEscrow → Body
    shown balance o = financial_body m.id m.status m.amount_minor m.currency balance (bps_of o)

-- A call that has answered 200, and that has left the milestone RELEASED in the committed rows.
abbrev pub HasReleased : Milestone → Result Answer × Session → Type 0
HasReleased m x =
    (body : Body) × (m' : Milestone) × (x.0 ≡ ok (body, 200))
    × (milestone_in m.id x.1.saved ≡ some m')
    × (m'.status ≡ released)

module _ (env : Environment) (k : FinancialIdempotencyKey) (m : Milestone) (e : MilestoneEscrow)
    (user : Uuid) where
  finish_release_goes_through :
      (a : LedgerAccount) (j : JournalTransaction) (s : Session)
      → HasEscrow m e a s.live
      → milestone_in m.id s.live ≡ some m
      → HasReleased m (finish_release env k m user j s)
  unfolding finish_release save_milestone enqueue_outbox_event record_audit_event
      complete_idempotency save_key ◌>>=◌
  finish_release_goes_through a j s h row =
      let s' =
        (do
          save_milestone (released_by user m)
          enqueue_outbox_event (milestone_released m.id j.id)
          record_audit_event env milestone_released_action m.id (some user)
              (some (milestone_audit_state m)) (some (milestone_audit_state (released_by user m))))
          s in
      let (body, e1) =
        financial_state_found (released_by user m) e a s'.1
          (record { escrow = h.escrow; account = h.account }) in
      let to_end =
        bind-ok (financial_state (released_by user m))
          (λ body. do complete_idempotency k 200 body; commit; pure (body, 200)) e1 in
      (
        body,
        released_by user m,
        ap (λ r. r.0) to_end,
        ap (λ r. milestone_in m.id r.1.saved) to_end
            ∙ find?-replace (λ (r : Milestone). r.id) (released_by user m) m.id s.live.milestones m
                refl row,
        refl,
      )

-- What a release of `n` needs besides the approval: no release was posted before, the escrow holds
-- exactly the amount, the three accounts are there, of one currency, and the commission leaves
-- something for the freelancer.
pub record IsReleasable (m : Milestone) (c : Contract) (n : ℕ) (e : MilestoneEscrow)
    (a : ReleaseAccounts) (s : Session) : Type 0 where
  pub is_approved : same_status m.status approved ≡ true
  pub row : milestone_in m.id s.live ≡ some m
  pub unposted : find? (is_release_of m) s.live.journal_transactions ≡ none
  pub amount : m.amount_minor ≡ pos n
  pub positive : 0 < n
  pub has_escrow : HasEscrow m e a.escrow s.live
  pub full : (balance a.escrow.id s.live ==ℤ m.amount_minor) ≡ true
  pub wallet : IsStored (wallet_identity c.freelancer_user_id m.currency) a.wallet s
  pub platform : IsStored (platform_identity m.currency) a.platform s
  pub one_currency : InCurrency m.currency a
  pub commission : e.commission_bps < 10000

module _ (env : Environment) (k : FinancialIdempotencyKey) (m : Milestone) (c : Contract) (n : ℕ)
    (e : MilestoneEscrow) (a : ReleaseAccounts) (user : Uuid) (s : Session) where
  book_release_goes_through :
      IsReleasable m c n e a s → HasReleased m (book_release env k m c e a.escrow user s)
  unfolding book_release
  book_release_goes_through h =
      let request = release_request m a e.commission_bps in
      let accepted : IsAccepted m.currency request.postings =
        subst (λ x. IsAccepted m.currency (release_postings a x (commission x e.commission_bps)))
          (sym h.amount)
          ((release-IsAccepted_iff m.currency a n e.commission_bps h.one_currency
              (let small = h.commission in omega arith)).1
            (h.positive, h.commission)) in
      let posted = post_journal_new request s m.currency accepted h.unposted in
      let e1 = bind-ok _ _ (get_or_create_account_again _ _ s h.wallet) in
      let e2 = bind-ok _ _ (get_or_create_account_again _ _ s h.platform) in
      let e3 = bind-ok _ _ posted in
      let finished =
        finish_release_goes_through env k m e user a.escrow (journal_of request m.currency s)
          (after_insert request m.currency s)
          (record { escrow = h.has_escrow.escrow; account = h.has_escrow.account }) h.row in
      subst (HasReleased m) (sym (e1 ∙ e2 ∙ e3)) finished

  -- Nothing stands in the way of a release: an approved milestone of a positive amount, with exactly
  -- that amount in escrow, no release posted before, a commission below 100 % and its three accounts
  -- there under their identity and in its currency, is released. The call answers 200, the milestone
  -- is found RELEASED in the committed rows, and the escrow is paid out in full: see `IsPaid`.
  pub release_goes_through :
      IsReleasable m c n e a s
      → HasReleased m (release_approved env k m c user s)
        × IsReleased m c s.live (release_approved env k m c user s).1.saved
  unfolding release_approved require_escrow escrow_account_of find_escrow find_account
  release_goes_through h =
      let booked = book_release_goes_through h in
      let e1 = bind-ok _ _ (raise_if_passes _ _ s (ap not h.is_approved)) in
      let e2 = bind-ok _ _ (lookup_found (escrow_in m.id) _ s e h.has_escrow.escrow) in
      let e3 =
        bind-ok _ _
          (lookup_found (account_in e.escrow_account_id) _ s a.escrow h.has_escrow.account) in
      let e4 = bind-balance s (booked.0, 200) a.escrow _ in
      let e5 = bind-ok _ _ (raise_if_passes _ _ s (ap not h.full)) in
      let done = subst (HasReleased m) (sym (e1 ∙ e2 ∙ e3 ∙ e4 ∙ e5)) booked in
      let (body, m', returned, stored, is_released) = done in
      (done, (release_approved-IsPaid env k m c user s (body, 200) returned h.unposted).1)
