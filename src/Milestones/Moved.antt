-- ===== src/Milestones/Moved.antt =====
-- What a milestone action that returns has done.
use freelancing_platform.Prelude.{
  Bool, true, false, inl, inr, ◌⊎◌, not-false, ◌≡◌, ◌∙◌, refl, ap, sym, subst, Option, none, some,
  if◌then◌else◌, arith,
}
use freelancing_platform.Prelude.Int.{==ℤ_true}
use freelancing_platform.Database.Tables.{Db, put_milestone}
use freelancing_platform.Database.Tables.Replaced.{found_by_own_id, find?-replace}
use freelancing_platform.Database.Rows.Texts.{Uuid}
use freelancing_platform.Database.Rows.Ledger.{LedgerAccount}
use freelancing_platform.Database.Rows.Contract.{
  Contract, Milestone, MilestoneStatus, same_status, active, same_contract_status,
}
use freelancing_platform.Database.Rows.Payment.{MilestoneEscrow}
use freelancing_platform.Database.Rows.Event.{audit_milestone_step}
use freelancing_platform.Database.Environment.{Environment, Result, ok}
use freelancing_platform.Database.Session.{Session, ◌>>=◌, ◌>>◌, commit}
use freelancing_platform.Database.Session.Keeps.{Keeps, keeps_rules}
use freelancing_platform.Database.Session.Steps.{
  bind-raise_if, bind-reader, bind-gets, raise_if_returned, raise_returned, lookup_found,
}
use freelancing_platform.Ledger.{balance, account_balance_minor}
use freelancing_platform.Payments.Effects.{save_milestone, record_audit_event, add_audit_event}
use freelancing_platform.Payments.Queries.{
  get_milestone, contract_of, require_escrow, find_escrow, find_account,
}
use freelancing_platform.Payments.Queries.Found.{
  milestone_in, escrow_in, account_in, bind-require_active, bind-get_milestone, bind-require_escrow,
  contract_of-reads,
}
use freelancing_platform.Milestones.{
  UserAction, start, submit, request_changes, approve, user_transitions, target, is_allowed,
  require_full_balance, require_milestone_fully_funded, funding_check, moved_by, take_step,
  transition,
}

full_balance-reads :
    (m : Milestone) (a : Option LedgerAccount) (s : Session)
    → Keeps (λ x. x ≡ s) (require_full_balance m a)
unfolding require_full_balance account_balance_minor
full_balance-reads m none s = search keeps_rules
full_balance-reads m (some a) s = search keeps_rules

funding_check-reads :
    (action : UserAction) (m : Milestone) (s : Session)
    → Keeps (λ x. x ≡ s) (funding_check action m)
unfolding funding_check require_milestone_fully_funded require_escrow find_escrow find_account
funding_check-reads start m s = search (keeps_rules, full_balance-reads) depth 9
funding_check-reads submit m s = search keeps_rules
funding_check-reads request_changes m s = search keeps_rules
funding_check-reads approve m s = search keeps_rules

module _ (env : Environment) (action : UserAction) (user : Uuid) (m : Milestone) where
  -- The rows once the step is written.
  abbrev moved_rows : Db → Db
  moved_rows db =
      add_audit_event
        (record {
          actor_user_id = some user;
          action = audit_milestone_step (target action);
          resource_id = m.id;
          previous_state_hash = none;
          new_state_hash = none;
        })
        (put_milestone (moved_by user action m) db)

  abbrev moved_session : Session → Session
  moved_session s = record s { saved = moved_rows s.live; live = moved_rows s.live }

  write_step :
      (s : Session)
      → milestone_in m.id s.live ≡ some m
      → (do
        save_milestone (moved_by user action m)
        record_audit_event env (audit_milestone_step (target action)) m.id (some user) none none
        commit
        get_milestone m.id)
          s
        ≡ (ok (moved_by user action m), moved_session s)
  unfolding ◌>>=◌ save_milestone record_audit_event get_milestone
  write_step s found =
      lookup_found (milestone_in m.id) _ (moved_session s) (moved_by user action m)
        (find?-replace (λ r. r.id) (moved_by user action m) m.id s.live.milestones m refl found)

-- `start` asks for an escrow that holds exactly the amount of the milestone; the others ask nothing.
abbrev pub FundsAsked : UserAction → Milestone → Db → Type 0
FundsAsked start m db =
    (e : MilestoneEscrow) × (a : LedgerAccount) × (escrow_in m.id db ≡ some e)
    × (account_in e.escrow_account_id db ≡ some a)
    × (balance a.id db ≡ m.amount_minor)
FundsAsked _ m db = Unit

full_balance_returned :
    (m : Milestone) (found : Option LedgerAccount) (s : Session) (u : Unit {0})
    → (require_full_balance m found s).0 ≡ ok u
    → (a : LedgerAccount) × (found ≡ some a) × (balance a.id s.live ≡ m.amount_minor)
unfolding require_full_balance account_balance_minor
full_balance_returned m none s u h = absurd (raise_returned _ s u h)
full_balance_returned m (some a) s u h = (
  a,
  refl,
  ==ℤ_true _ _
      (not-false _ (raise_if_returned _ _ s u (sym (ap (λ x. x.0) (bind-gets _ _ s)) ∙ h))),
)

funding_check_returned :
    (action : UserAction) (m : Milestone) (s : Session) (u : Unit {0})
    → (funding_check action m s).0 ≡ ok u
    → FundsAsked action m s.live
unfolding funding_check require_milestone_fully_funded find_account
funding_check_returned start m s u h =
    let (e, found_escrow, e1) = bind-require_escrow s u m.id _ h in
    let r1 = sym (ap (λ x. x.0) e1) ∙ h in
    let (a, found_account, full) =
      full_balance_returned m _ s u (sym (ap (λ x. x.0) (bind-gets _ _ s)) ∙ r1) in
    (e, a, found_escrow, found_account, full)
funding_check_returned submit m s u h = tt
funding_check_returned request_changes m s u h = tt
funding_check_returned approve m s u h = tt

same_status_eq : (a b : MilestoneStatus) → same_status a b ≡ true → a ≡ b
same_status_eq a b h = ground arith

module _ (env : Environment) (action : UserAction) (user : Uuid) (s : Session) (m' : Milestone)
    (m : Milestone) (found : milestone_in m.id s.live ≡ some m) where
  -- What `take_step` does when it returns.
  take_step_returned :
      (take_step env action user m s).0 ≡ ok m'
      → (user_transitions action m.status ≡ true)
        × FundsAsked action m s.live
        × (take_step env action user m s
            ≡ (ok (moved_by user action m), moved_session env action user m s))
  unfolding take_step
  take_step_returned returned =
      let (p1, e1) = bind-raise_if _ _ _ s m' returned in
      let r1 = sym (ap (λ x. x.0) e1) ∙ returned in
      let (u, e2, e3) = bind-reader _ _ s m' (funding_check-reads action m s) r1 in
      (
        not-false _ p1,
        funding_check_returned action m s u (ap (λ x. x.0) e2),
        e1 ∙ e3 ∙ write_step env action user m s found,
      )

-- How an action on the milestone `m` ended: it had the wanted status already and nothing was written,
-- or the action is allowed at the milestone's status, what it asks of the escrow held, and the row
-- with its new event, returned and committed, is all that changed beside one audit event.
abbrev pub IsTaken :
    Environment → UserAction → Uuid → Session → Milestone → Result Milestone × Session → Type 0
IsTaken env action user s m x =
    ((m.status ≡ target action) × (x ≡ (ok m, s)))
    ⊎ ((user_transitions action m.status ≡ true)
        × FundsAsked action m s.live
        × (x ≡ (ok (moved_by user action m), moved_session env action user m s)))

module _ (env : Environment) (action : UserAction) (user : Uuid) (s : Session) (m' : Milestone)
    (m : Milestone) (found : milestone_in m.id s.live ≡ some m) where
  taken :
      (b : Bool)
      → same_status m.status (target action) ≡ b
      → ((if b then get_milestone m.id else take_step env action user m) s).0 ≡ ok m'
      → IsTaken env action user s m
          ((if b then get_milestone m.id else take_step env action user m) s)
  unfolding get_milestone
  taken true same returned = inl (same_status_eq _ _ same, lookup_found _ _ s m found)
  taken false other returned =
      let (allowed, funds, to) = take_step_returned env action user s m' m found returned in
      inr (allowed, funds, to)

-- The user may take the action on the milestone, whose contract is active.
pub record MayMove (action : UserAction) (user id : Uuid) (m : Milestone) (c : Contract)
    (s : Session) : Type 0 where
  pub milestone : milestone_in id s.live ≡ some m
  pub contract : contract_of m s ≡ (ok c, s)
  pub is_active : same_contract_status c.status active ≡ true
  pub allowed : is_allowed action user c ≡ true

module _ (env : Environment) (action : UserAction) (user id : Uuid) (s : Session)
    (m' : Milestone) where
  -- A milestone action that returns was taken by the right party of an active contract. Either
  -- the milestone had the wanted status already and nothing is written, or the action is one that the
  -- status of the milestone allows, an escrow with exactly its amount was there if the work starts, and the row
  -- with its new event, returned and committed, is all that changes beside one audit event.
  pub transition_returned :
      (transition env action user id s).0 ≡ ok m'
      → (m : Milestone) × (c : Contract) × MayMove action user id m c s
        × IsTaken env action user s m (transition env action user id s)
  unfolding transition
  transition_returned returned =
      let (m, found, e1) = bind-get_milestone s m' id _ returned in
      let r1 = sym (ap (λ x. x.0) e1) ∙ returned in
      let (c, e2, e3) = bind-reader _ _ s m' (contract_of-reads s m) r1 in
      let r3 = sym (ap (λ x. x.0) e3) ∙ r1 in
      let (is_active, e4) = bind-require_active s m' c _ r3 in
      let r4 = sym (ap (λ x. x.0) e4) ∙ r3 in
      let (p5, e5) = bind-raise_if _ _ _ s m' r4 in
      let r5 = sym (ap (λ x. x.0) e5) ∙ r4 in
      let own = found_by_own_id (λ (r : Milestone). r.id) id s.live.milestones m found in
      let to = e1 ∙ e3 ∙ e4 ∙ e5 in
      (
        m,
        c,
        record {
          milestone = found;
          contract = e2;
          is_active = is_active;
          allowed = not-false _ p5;
        },
        subst (IsTaken env action user s m) (sym to)
            (taken env action user s m' m own (same_status m.status (target action)) refl r5),
      )
