-- ===== src/Contracts/Cancelled.antt =====
-- What a cancellation that returns has done.
use freelancing_platform.Prelude.{
  Bool, true, false, not-false, inl, inr, ◌⊎◌, ◌≡◌, ◌∙◌, refl, ap, sym, subst, none, some, ◌==◌,
  if◌then◌else◌,
}
use freelancing_platform.Database.Rows.Texts.{Uuid}
use freelancing_platform.Database.Rows.Contract.{
  Contract, ContractVersion, active, cancelled, same_contract_status,
}
use freelancing_platform.Database.Rows.Event.{contract_cancelled}
use freelancing_platform.Database.Tables.{Db, put_contract}
use freelancing_platform.Database.Tables.Replaced.{found_by_own_id, find?-replace}
use freelancing_platform.Database.Environment.{Environment, Result, ok}
use freelancing_platform.Database.Session.{Session, pure, commit, ◌>>=◌, ◌>>◌}
use freelancing_platform.Database.Session.Keeps.{Keeps, keeps_rules}
use freelancing_platform.Database.Session.Steps.{
  bind-lookup, bind-raise_if, bind-gets, bind-reader, raise_if_returned, lookup_found,
}
use freelancing_platform.Payments.Effects.{save_contract, record_audit_event, add_audit_event}
use freelancing_platform.Contracts.{
  contract_in, get_contract, version_in, current_contract_version, state_of, has_started,
  awaits_payment, check_unstarted, require_unstarted, cancelled_contract, cancel_open,
  cancel_contract,
}

-- No work on the version has started, and no payment for it is pending.
abbrev pub IsUntouched : ContractVersion → Db → Type 0
IsUntouched v db = (has_started v db ≡ false) × (awaits_payment v db ≡ false)

require_unstarted-reads :
    (c : Contract) (v : ContractVersion) (s : Session) → Keeps (λ x. x ≡ s) (require_unstarted c v)
unfolding require_unstarted check_unstarted
require_unstarted-reads c v s = search keeps_rules depth 9

check_unstarted_returned :
    (v : ContractVersion) (s : Session) (u : Unit {0})
    → (check_unstarted v s).0 ≡ ok u
    → IsUntouched v s.live
unfolding check_unstarted
check_unstarted_returned v s u returned =
    let e1 = bind-gets _ _ s in
    let r1 = sym (ap (λ x. x.0) e1) ∙ returned in
    let (p2, e2) = bind-raise_if _ _ _ s u r1 in
    let r2 = sym (ap (λ x. x.0) e2) ∙ r1 in
    let e3 = bind-gets _ _ s in
    let r3 = sym (ap (λ x. x.0) e3) ∙ r2 in (p2, raise_if_returned _ _ s u r3)

-- An active contract must be untouched to be cancelled.
abbrev pub MayEnd : Bool → ContractVersion → Db → Type 0
MayEnd true v db = IsUntouched v db
MayEnd false v db = Unit

unstarted_returned :
    (b : Bool) (v : ContractVersion) (s : Session) (u : Unit {0})
    → ((if b then check_unstarted v else pure tt) s).0 ≡ ok u
    → MayEnd b v s.live
unstarted_returned true v s u returned = check_unstarted_returned v s u returned
unstarted_returned false v s u returned = tt

unstarted :
    (c : Contract) (v : ContractVersion) (s : Session) (u : Unit {0})
    → (require_unstarted c v s).0 ≡ ok u
    → MayEnd (same_contract_status c.status active) v s.live
unfolding require_unstarted
unstarted c v s u returned = unstarted_returned _ v s u returned

module _ (env : Environment) (c : Contract) (v : ContractVersion) (user : Uuid) (s : Session) where
  abbrev pub cancelled_rows : Db
  cancelled_rows =
      add_audit_event
        (record {
          actor_user_id = some user;
          action = contract_cancelled;
          resource_id = c.id;
          previous_state_hash = some (env.state_hash (state_of c v none));
          new_state_hash = some (env.state_hash (state_of (cancelled_contract env c) v none));
        })
        (put_contract (cancelled_contract env c) s.live)

  abbrev pub cancelled_session : Session
  cancelled_session = record s { saved = cancelled_rows; live = cancelled_rows }

  write_cancellation :
      contract_in c.id s.live ≡ some c
      → (do
        save_contract (cancelled_contract env c)
        record_audit_event env contract_cancelled c.id
            (some user)
            (some (state_of c v none))
            (some (state_of (cancelled_contract env c) v none))
        commit
        get_contract c.id)
          s
        ≡ (ok (cancelled_contract env c), cancelled_session)
  unfolding save_contract record_audit_event get_contract ◌>>=◌
  write_cancellation found =
      lookup_found (contract_in c.id) _ cancelled_session (cancelled_contract env c)
        (find?-replace (λ r. r.id) (cancelled_contract env c) c.id s.live.contracts c refl found)

-- How a cancellation ended: the contract was cancelled before and nothing is written, or it was
-- untouched if it was active, and is cancelled now, with one audit event.
abbrev pub IsEnded : Environment → Contract → Uuid → Session → Result Contract × Session → Type 0
IsEnded env c user s x =
    ((same_contract_status c.status cancelled ≡ true) × (x ≡ (ok c, s)))
    ⊎ ((v : ContractVersion) × (version_in c s.live ≡ some v)
        × MayEnd (same_contract_status c.status active) v s.live
        × (x ≡ (ok (cancelled_contract env c), cancelled_session env c v user s)))

module _ (env : Environment) (user : Uuid) (s : Session) (c' : Contract) (c : Contract)
    (found : contract_in c.id s.live ≡ some c) where
  cancel_open-IsEnded :
      (cancel_open env c user s).0 ≡ ok c' → IsEnded env c user s (cancel_open env c user s)
  unfolding cancel_open current_contract_version
  cancel_open-IsEnded returned =
      let (v, version, e1) = bind-lookup _ _ _ s c' returned in
      let r1 = sym (ap (λ x. x.0) e1) ∙ returned in
      let (u, e2, e3) = bind-reader _ _ s c' (require_unstarted-reads c v s) r1 in
      inr (
        v,
        version,
        unstarted c v s u (ap (λ x. x.0) e2),
        e1 ∙ e3 ∙ write_cancellation env c v user s found,
      )

  ended :
      (b : Bool)
      → same_contract_status c.status cancelled ≡ b
      → ((if b then get_contract c.id else cancel_open env c user) s).0 ≡ ok c'
      → IsEnded env c user s ((if b then get_contract c.id else cancel_open env c user) s)
  unfolding get_contract
  ended true is returned = inl (is, lookup_found (contract_in c.id) _ s c found)
  ended false isnt returned = cancel_open-IsEnded returned

module _ (env : Environment) (user id : Uuid) (s : Session) (c' : Contract) where
  -- A cancellation that returns came from the employer. Either the contract was cancelled before and
  -- nothing is written, or it is cancelled now; and if it was active, no milestone of its current
  -- version had left CREATED and no payment for one was pending.
  pub cancel_contract-IsEnded :
      (cancel_contract env user id s).0 ≡ ok c'
      → (c : Contract) × (contract_in id s.live ≡ some c)
        × ((user == c.employer_user_id) ≡ true)
        × IsEnded env c user s (cancel_contract env user id s)
  unfolding cancel_contract get_contract
  cancel_contract-IsEnded returned =
      let (c, found, e1) = bind-lookup _ _ _ s c' returned in
      let r1 = sym (ap (λ x. x.0) e1) ∙ returned in
      let (p2, e2) = bind-raise_if _ _ _ s c' r1 in
      let r2 = sym (ap (λ x. x.0) e2) ∙ r1 in
      let own = found_by_own_id (λ (r : Contract). r.id) id s.live.contracts c found in
      (
        c,
        found,
        not-false _ p2,
        subst (IsEnded env c user s) (sym (e1 ∙ e2)) (ended env user s c' c own _ refl r2),
      )
