-- ===== src/Proposals/Contracted.antt =====
-- The `try` block of an acceptance: `transition_proposal` of app/proposals/service.py, with the contract
-- that it draws up.
use freelancing_platform.Prelude.{
  suc, if◌then◌else◌, Bool, true, false, ◌≡◌, refl, sym, ap, ◌∙◌, ◌⊎◌, inl, inr, Option, none, some,
  List, ◌∷◌, ◌++◌, ◌==◌, find?, find?-All, All,
}
use freelancing_platform.Prelude.Int.{ℤ}
use freelancing_platform.Database.Rows.Texts.{Uuid}
use freelancing_platform.Database.Rows.Contract.{Contract, Milestone}
use freelancing_platform.Database.Rows.Dispute.{User}
use freelancing_platform.Database.Rows.Proposal.{
  Project, Proposal, ProposalStatus, accepted, ProposalVersion,
}
use freelancing_platform.Database.Rows.Event.{AuditEvent, proposal_moved}
use freelancing_platform.Database.Tables.{Db, replace}
use freelancing_platform.Database.Environment.{
  Environment, Error, ok, api, value_error, runtime_error, integrity_error, provider_temporary,
  other_exception, contract_exists,
}
use freelancing_platform.Database.Session.{Session, Action, pure, raise, rollback, ◌>>=◌, ◌>>◌}
use freelancing_platform.Database.Session.Steps.{
  pure_run, pure_returned, ok_only, commit_run, bind_inv, bind-ok, bind-gets, bind-arriving,
  bind-raise_if, raise_returned,
}
use freelancing_platform.Payments.Effects.{save_proposal, record_audit_event}
use freelancing_platform.Contracts.Creation.{
  version_of_proposal, new_contract, new_contract_version, existing_or_create,
  create_contract_from_accepted_proposal,
}
use freelancing_platform.Contracts.Created.{
  total_amount, IsScheduled, made-IsScheduled, with_new_contract,
}
use freelancing_platform.Contracts.Drawn.{IsSetting, drawn, create_contract_returned}
use freelancing_platform.Proposals.Transition.{
  with_status, contract_if, commit_move, move_proposal, undo_move,
}
use freelancing_platform.Proposals.Consistent.{IsConsistent, IsPriced}

-- The `except` clauses all raise.
pub undo_raises :
    (to : ProposalStatus) (u : Unit {0}) (e : Error) (s : Session) → (undo_move to e s).0 ≡ ok u → ⊥
unfolding undo_move
undo_raises to u integrity_error s h =
    let (x, ex, at) = bind_inv rollback _ s u h in
    raise_returned _ (rollback s).1 u (sym (ap (λ x. x.0) at) ∙ h)
undo_raises to u (api kind status) s h =
    let (x, ex, at) = bind_inv rollback _ s u h in
    raise_returned _ (rollback s).1 u (sym (ap (λ x. x.0) at) ∙ h)
undo_raises to u (value_error fault) s h = raise_returned _ s u h
undo_raises to u runtime_error s h = raise_returned _ s u h
undo_raises to u provider_temporary s h = raise_returned _ s u h
undo_raises to u other_exception s h = raise_returned _ s u h

module _ (env : Environment) (user : User) (project : Project) (p : Proposal) where
  -- The contract that stands already was made from the proposal, and stays the only one.
  pub record HasContract (before after : Db) : Type 0 where
    pub contract : Contract
    pub found : find? (λ c. c.project_id == project.id) before.contracts ≡ some contract
    pub from_proposal : (contract.accepted_proposal_id == p.id) ≡ true
    pub same_contracts : after.contracts ≡ before.contracts
    pub same_milestones : after.milestones ≡ before.milestones

  -- A contract is added, awaiting both signatures, with the document of the proposal's current version
  -- as its first version and with new milestones that add up to the price of that version.
  pub record IsContracted (before after : Db) : Type 0 where
    pub version : ProposalVersion
    pub is_current : version_of_proposal p ≡ some version
    pub bps : ℤ
    pub setting : IsSetting env bps
    pub id : Uuid
    pub version_id : Uuid
    pub contract : after.contracts ≡ new_contract id project p ∷ before.contracts
    pub document :
        after.contract_versions
        ≡ new_contract_version env version_id id (drawn env project p user.id version bps before)
          ∷ before.contract_versions
    pub milestones : List Milestone
    pub added : after.milestones ≡ milestones ++ before.milestones
    pub scheduled : All (IsScheduled version_id version.currency) milestones
    pub full_price : total_amount milestones ≡ version.amount_minor

  abbrev pub Contracted : Db → Db → Type 0
  Contracted before after = HasContract before after ⊎ IsContracted before after

  -- The session after the `try` block, from the one after the contract.
  abbrev accepted_row : AuditEvent
  accepted_row = record {
    actor_user_id = some user.id;
    action = proposal_moved accepted;
    resource_id = p.id;
    previous_state_hash = none;
    new_state_hash = none;
  }

  abbrev pub accepting : Session → Session
  accepting s = record s {
    live = record s.live {
      proposals = replace (λ r. r.id) (with_status accepted p) s.live.proposals;
      audit_events = accepted_row ∷ s.live.audit_events;
    };
  }

  abbrev pub committed : Session → Session
  committed s = record s { saved = s.live }

  commit_move_returned :
      (s : Session) (u : Unit {0})
      → (commit_move true p s).0 ≡ ok u
      → commit_move true p s ≡ (ok tt, committed s)
  unfolding commit_move
  commit_move_returned s u returned =
      let e1 = bind-gets _ _ s in
      let r1 = sym (ap (λ x. x.0) e1) ∙ returned in
      let e2 = bind-arriving _ s in
      let r2 = sym (ap (λ x. x.0) e2) ∙ r1 in
      let (no_rival, e3) = bind-raise_if _ _ _ s u r2 in e1 ∙ e2 ∙ e3 ∙ commit_run s

  existing_returned :
      (d c : Contract) (s : Session) (b : Bool)
      → (d.accepted_proposal_id == p.id) ≡ b
      → find? (λ c. c.project_id == project.id) s.live.contracts ≡ some d
      → ((if b then pure d else raise (api contract_exists 409)) s).0 ≡ ok c
      → ((if b then pure d else raise (api contract_exists 409)) s ≡ (ok c, s))
        × HasContract s.live (accepting s).live
  existing_returned d c s true same found returned = (
    pure_run d s ∙ ap (λ (x : Contract). (ok x, s)) (sym (pure_returned d c s returned)),
    record {
      contract = d;
      found = found;
      from_proposal = same;
      same_contracts = refl;
      same_milestones = refl;
    },
  )
  existing_returned d c s false other found returned = elim (raise_returned _ s c returned) [ ]

  contracted :
      (v : ProposalVersion) (bps : ℤ) (s : Session)
      → version_of_proposal p ≡ some v
      → IsSetting env bps
      → IsConsistent p
      → IsContracted s.live
          (accepting (
            with_new_contract env project p user.id
              (drawn env project p user.id v bps s.live)
              s)).live
  contracted v bps s current setting c =
      let d = drawn env project p user.id v bps s.live in
      let version = suc s.live.next_id in
      let (ms, split, scheduled, total) =
        made-IsScheduled version v.currency (suc version) d.milestones s.live.milestones in
      record {
        version = v;
        is_current = current;
        bps = bps;
        setting = setting;
        id = s.live.next_id;
        version_id = version;
        contract = refl;
        document = refl;
        milestones = ms;
        added = split;
        scheduled = scheduled;
        full_price =
            total
            ∙ find?-All IsPriced (λ v. v.version_number == p.current_version) p.versions v c.priced
                current env.full_delivery;
      }

  -- What stands once the contract is there.
  abbrev Settled : Action Contract → Session → Contract → Type 0
  Settled m s c =
      (s' : Session) × (m s ≡ (ok c, s'))
      × (s'.live.proposals ≡ s.live.proposals)
      × Contracted s.live (accepting s').live

  existing_or_create_returned :
      (found : Option Contract) (s : Session) (c : Contract)
      → (existing_or_create env found project p user.id s).0 ≡ ok c
      → find? (λ c. c.project_id == project.id) s.live.contracts ≡ found
      → IsConsistent p
      → Settled (existing_or_create env found project p user.id) s c
  unfolding existing_or_create
  existing_or_create_returned (some d) s c returned found consistent =
      let (to, has) =
        existing_returned d c s (d.accepted_proposal_id == p.id) refl found returned in
      (s, to, refl, inl has)
  existing_or_create_returned none s c returned found consistent =
      let (v, current, bps, setting, to) =
        create_contract_returned env project p user.id s c returned in
      let made = ok_only _ c (sym (ap (λ x. x.0) to) ∙ returned) in
      let s' =
        with_new_contract env project p user.id (drawn env project p user.id v bps s.live) s in
      (
        s',
        to ∙ ap (λ (x : Contract). (ok x, s')) made,
        refl,
        inr (contracted v bps s current setting consistent),
      )

  contract_returned :
      (s : Session) (c : Contract)
      → (create_contract_from_accepted_proposal env p project user.id s).0 ≡ ok c
      → IsConsistent p
      → Settled (create_contract_from_accepted_proposal env p project user.id) s c
  unfolding create_contract_from_accepted_proposal
  contract_returned s c returned consistent =
      let e1 = bind-gets _ _ s in
      let r1 = sym (ap (λ x. x.0) e1) ∙ returned in
      let (s', to, same, contract) = existing_or_create_returned _ s c r1 refl consistent in
      (s', e1 ∙ to, same, contract)

  -- The `try` block after the contract.
  abbrev record_acceptance : Action (Unit {0})
  record_acceptance = do
    save_proposal (with_status accepted p)
    record_audit_event env (proposal_moved accepted) p.id (some user.id) none none
    commit_move true p

  record_acceptance_run : (s : Session) → record_acceptance s ≡ commit_move true p (accepting s)
  unfolding save_proposal record_audit_event ◌>>=◌
  record_acceptance_run s = refl

  pub move_proposal_returned :
      (s : Session) (u : Unit {0})
      → (move_proposal env user project p accepted s).0 ≡ ok u
      → IsConsistent p
      → (s' : Session) × (move_proposal env user project p accepted s
          ≡ (ok tt, committed (accepting s')))
        × (s'.live.proposals ≡ s.live.proposals)
        × Contracted s.live (accepting s').live
  unfolding move_proposal contract_if
  move_proposal_returned s u returned consistent =
      let (x, ex, e1) = bind_inv (contract_if env true user project p) _ s u returned in
      let (c, ec, e2) =
        bind_inv (create_contract_from_accepted_proposal env p project user.id) _ s x ex in
      let (s', to, same, contract) = contract_returned s c ec consistent in
      let drawn_up : contract_if env true user project p s ≡ (ok tt, s') =
        bind-ok (create_contract_from_accepted_proposal env p project user.id) _ to
        ∙ pure_run tt s' in
      let moved : move_proposal env user project p accepted s ≡ commit_move true p (accepting s') =
        bind-ok (contract_if env true user project p) (λ _. record_acceptance) drawn_up
        ∙ record_acceptance_run s' in
      (
        s',
        moved ∙ commit_move_returned (accepting s') u (sym (ap (λ x. x.0) moved) ∙ returned),
        same,
        contract,
      )
