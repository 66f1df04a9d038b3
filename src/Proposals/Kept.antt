-- ===== src/Proposals/Kept.antt =====
-- The proposals service keeps all proposals consistent, whatever is called and however it ends.
use freelancing_platform.Prelude.{
  Bool, true, false, Option, none, some, List, [], ◌∷◌, ◌≡◌, refl, sym, subst, All, ◌+◌, arith,
}
use freelancing_platform.Database.Rows.Texts.{Text, Uuid}
use freelancing_platform.Database.Rows.Contract.{Contract}
use freelancing_platform.Database.Rows.Dispute.{User}
use freelancing_platform.Database.Rows.Proposal.{
  Project, Proposal, ProposalStatus, ProposalVersion, ProposalMilestone, ContractDocument,
}
use freelancing_platform.Database.Tables.{Db}
use freelancing_platform.Database.Tables.Replaced.{All-replace}
use freelancing_platform.Payments.Effects.{add_proposal, save_proposal}
use freelancing_platform.Database.Environment.{
  Environment, Error, api, value_error, runtime_error, integrity_error, provider_temporary,
  other_exception,
}
use freelancing_platform.Database.Session.{Arriving, Session}
use freelancing_platform.Database.Session.Keeps.{
  Keeps, Holds, Keeps-modify, Keeps-commit, Keeps-rollback, Keeps-bind, Keeps-catch, Keeps-run,
  Keeps-raise_if, keeps_rules,
}
use freelancing_platform.Contracts.Creation.{
  current_proposal_version, commission_bps, create_milestones, insert_contract, flush_contract,
  create_contract, existing_or_create, create_contract_from_accepted_proposal,
}
use freelancing_platform.Proposals.{Offer, get_project, get_proposal}
use freelancing_platform.Proposals.Submission.{
  keep_draft, flush_draft, create_proposal, check_currency, append_version, add_proposal_version,
}
use freelancing_platform.Proposals.Transition.{
  contract_if, commit_move, move_proposal, undo_move, move_checked, transition_proposal,
}
use freelancing_platform.Proposals.Requests.{
  ProposalCall, creation, revision, proposal_move, answer_proposal, answer_proposals,
}
use freelancing_platform.Proposals.Consistent.{IsConsistent, IsPriced, revised-IsConsistent}
use freelancing_platform.Proposals.Rules.{
  Tends, proposal_rules, other_rules, get_proposal_then, new_version_then, fresh_id-Keeps,
  add_milestone-Keeps,
}

module _ {Good : Proposal → Type 0} {Q : Session → Type 0} (tends : Tends Good Q) where
  get_project-Keeps : (id : Uuid) → Keeps Q (get_project id)
  unfolding get_project
  get_project-Keeps id = search keeps_rules

  get_proposal-Keeps : (id : Uuid) → Keeps Q (get_proposal id)
  unfolding get_proposal
  get_proposal-Keeps id = search keeps_rules

module _ {Good : Proposal → Type 0} {Q : Session → Type 0} (tends : Tends Good Q)
    (env : Environment) where
  flush_draft-Keeps :
      (user : User) (project : Project) (v : ProposalVersion)
      → v.version_number ≡ 1
      → IsPriced v
      → Keeps Q (flush_draft env user project v)
  unfolding flush_draft keep_draft
  flush_draft-Keeps user project v first priced =
      let good = λ (id : Uuid). tends.drafts id project user v first priced in
      search (proposal_rules, get_proposal-Keeps, good) depth 12

  create_proposal-Keeps :
      (user : User) (project : Uuid) (o : Offer) → Keeps Q (create_proposal env user project o)
  unfolding create_proposal
  create_proposal-Keeps user project o =
      search (proposal_rules, get_project-Keeps, flush_draft-Keeps) depth 12

  check_currency-Keeps :
      (p : Proposal) (v : ProposalVersion) (o : Offer) → Keeps Q (check_currency p v o)
  unfolding check_currency
  check_currency-Keeps p v o = search (proposal_rules, get_project-Keeps) depth 8

  append_version-Keeps :
      (user : User) (p : Proposal) (o : Offer) → Good p → Keeps Q (append_version env user p o)
  unfolding append_version
  append_version-Keeps user p o c =
      new_version_then tends (p.current_version + 1) o _ (λ v next priced.
        let good = tends.revises v p c next priced in
        search (proposal_rules, get_proposal-Keeps, good) depth 12)

  add_proposal_version-Keeps :
      (user : User) (id : Uuid) (o : Offer) → Keeps Q (add_proposal_version env user id o)
  unfolding add_proposal_version
  add_proposal_version-Keeps user id o =
      get_proposal_then tends id _
        (λ p c. search (keeps_rules, check_currency-Keeps, append_version-Keeps) depth 12)

  commission_bps-Keeps : Keeps Q (commission_bps env)
  unfolding commission_bps
  commission_bps-Keeps = search keeps_rules

  current-Keeps : (p : Proposal) → Keeps Q (current_proposal_version p)
  unfolding current_proposal_version
  current-Keeps p = search keeps_rules

  milestones-Keeps :
      (v : Uuid) (currency : Text) (terms : List ProposalMilestone)
      → Keeps Q (create_milestones v currency terms)
  unfolding create_milestones
  milestones-Keeps v currency [] = search keeps_rules
  milestones-Keeps v currency (t ∷ ts) =
      Keeps-bind _ _ (fresh_id-Keeps tends)
        (λ id. Keeps-bind _ _ (add_milestone-Keeps tends _) (λ _. milestones-Keeps v currency ts))

  flush_contract-Keeps :
      (project : Project) (p : Proposal) (actor : Uuid) (d : ContractDocument)
      → Keeps Q (flush_contract env project p actor d)
  unfolding flush_contract insert_contract
  flush_contract-Keeps project p actor d = search (other_rules, milestones-Keeps) depth 14

  create_contract-Keeps :
      (project : Project) (p : Proposal) (actor : Uuid)
      → Keeps Q (create_contract env project p actor)
  unfolding create_contract
  create_contract-Keeps project p actor =
      search (keeps_rules, current-Keeps, commission_bps-Keeps, flush_contract-Keeps) depth 8

  existing_or_create-Keeps :
      (found : Option Contract) (project : Project) (p : Proposal) (actor : Uuid)
      → Keeps Q (existing_or_create env found project p actor)
  unfolding existing_or_create
  existing_or_create-Keeps (some c) project p actor = search keeps_rules
  existing_or_create-Keeps none project p actor = create_contract-Keeps project p actor

  contract_if-Keeps :
      (b : Bool) (user : User) (project : Project) (p : Proposal)
      → Keeps Q (contract_if env b user project p)
  unfolding contract_if create_contract_from_accepted_proposal
  contract_if-Keeps true user project p = search (keeps_rules, existing_or_create-Keeps) depth 8
  contract_if-Keeps false user project p = search keeps_rules

  commit_move-Keeps : (b : Bool) (p : Proposal) → Keeps Q (commit_move b p)
  unfolding commit_move
  commit_move-Keeps b p = search other_rules depth 8

  move_proposal-Keeps :
      (user : User) (project : Project) (p : Proposal) (to : ProposalStatus)
      → Good p
      → Keeps Q (move_proposal env user project p to)
  unfolding move_proposal
  move_proposal-Keeps user project p to c =
      let moved = tends.moves to p c in
      search (proposal_rules, contract_if-Keeps, commit_move-Keeps, moved) depth 12

  undo_move-Keeps : (to : ProposalStatus) (e : Error) → Keeps Q (undo_move to e)
  unfolding undo_move
  undo_move-Keeps to integrity_error = search other_rules
  undo_move-Keeps to (api kind status) = search other_rules
  undo_move-Keeps to (value_error fault) = search other_rules
  undo_move-Keeps to runtime_error = search other_rules
  undo_move-Keeps to provider_temporary = search other_rules
  undo_move-Keeps to other_exception = search other_rules

  move_checked-Keeps :
      (user : User) (project : Project) (p : Proposal) (to : ProposalStatus)
      → Good p
      → Keeps Q (move_checked env user project p to)
  unfolding move_checked
  move_checked-Keeps user project p to c =
      let caught =
        Keeps-catch _ _ (move_proposal-Keeps user project p to c) (λ e. undo_move-Keeps to e) in
      Keeps-bind _ _ (Keeps-raise_if _ _) (λ _.
        Keeps-bind _ _ (Keeps-raise_if _ _)
          (λ _. Keeps-bind _ _ caught (λ _. get_proposal-Keeps tends p.id)))

  transition_proposal-Keeps :
      (user : User) (id : Uuid) (target : Text) → Keeps Q (transition_proposal env user id target)
  unfolding transition_proposal
  transition_proposal-Keeps user id target =
      get_proposal_then tends id _
        (λ p c. search (keeps_rules, get_project-Keeps, move_checked-Keeps) depth 8)

-- A call of the service keeps such a property, however it ends.
module _ {Good : Proposal → Type 0} (P : Db → Type 0) (tends : Tends Good (Holds P))
    (env : Environment) (a : Arriving) where
  pub answer_proposal-Keeps :
      (call : ProposalCall) (db : Db) → P db → P (answer_proposal env a call db)
  unfolding answer_proposal
  answer_proposal-Keeps (creation user project o) db h =
      Keeps-run P a _ db (create_proposal-Keeps tends env user project o) h
  answer_proposal-Keeps (revision user id o) db h =
      Keeps-run P a _ db (add_proposal_version-Keeps tends env user id o) h
  answer_proposal-Keeps (proposal_move user id target) db h =
      Keeps-run P a _ db (transition_proposal-Keeps tends env user id target) h

abbrev pub AreConsistent : Db → Type 0
AreConsistent db = All IsConsistent db.proposals

IsConsistent-Tends : Tends IsConsistent (Holds AreConsistent)
unfolding add_proposal save_proposal
IsConsistent-Tends = record {
  write = λ f same_journals same_proposals s h.
      (h.0, subst (λ ps. All IsConsistent ps) (sym (same_proposals s.live)) h.1);
  adds = λ p c. Keeps-modify _ (λ s h. (h.0, (c, h.1)));
  saves = λ p c.
      Keeps-modify _ (λ s h. (h.0, All-replace (λ r. r.id) p IsConsistent s.live.proposals c h.1));
  known = λ s h. h.1;
  commits = Keeps-commit AreConsistent;
  rolls_back = Keeps-rollback AreConsistent;
  drafts = λ id project user v first priced. record {
    nonempty = omega arith;
    counted = refl;
    in_sequence = (first, tt);
    priced = (priced, tt);
  };
  revises = revised-IsConsistent;
  moves = λ to p c. record {
    nonempty = c.nonempty;
    counted = c.counted;
    in_sequence = c.in_sequence;
    priced = c.priced;
  };
}

-- Through any history of calls, however each ends: the versions of every proposal are numbered from 1
-- without a gap, the last number is its current version, and the milestones of each version add up to
-- the version's price; given that all proposals were so before.
pub proposals_stay_consistent :
    (history : List (Environment × Arriving × ProposalCall)) (db : Db)
    → AreConsistent db
    → AreConsistent (answer_proposals history db)
unfolding answer_proposals
proposals_stay_consistent [] db h = h
proposals_stay_consistent ((env, a, call) ∷ rest) db h =
    proposals_stay_consistent rest (answer_proposal env a call db)
      (answer_proposal-Keeps AreConsistent IsConsistent-Tends env a call db h)
