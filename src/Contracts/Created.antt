-- ===== src/Contracts/Created.antt =====
-- The rows that `create_contract_from_accepted_proposal` of app/contracts/service.py adds.
use freelancing_platform.Prelude.{
  All-snoc, suc, false, none, ◌≡◌, refl, sym, ap, ◌∙◌, some, List, [], ◌∷◌, ◌++◌, All,
}
use freelancing_platform.Prelude.Int.{ℤ, pos, ◌+ℤ◌, int_laws}
use freelancing_platform.Database.Rows.Texts.{Text, Uuid}
use freelancing_platform.Database.Rows.Contract.{Contract, ContractVersion, Milestone, created}
use freelancing_platform.Database.Rows.Proposal.{
  Project, Proposal, ProposalMilestone, ContractDocument,
}
use freelancing_platform.Database.Rows.Event.{AuditEvent, contract_created, exists_state}
use freelancing_platform.Database.Environment.{Environment, Result, ok}
use freelancing_platform.Database.Session.{Session, pure, ◌>>=◌, ◌>>◌}
use freelancing_platform.Payments.Effects.{
  add_contract, add_version, add_milestone, record_audit_event,
}
use freelancing_platform.Contracts.{state_of}
use freelancing_platform.Contracts.Creation.{
  new_contract, new_contract_version, new_milestone, create_milestones, insert_contract,
}

unfoldable pub total_amount : List Milestone → ℤ
total_amount [] = pos 0
total_amount (m ∷ ms) = m.amount_minor +ℤ total_amount ms

total_amount-snoc :
    (ms : List Milestone) (m : Milestone)
    → total_amount (ms ++ m ∷ []) ≡ m.amount_minor +ℤ total_amount ms
unfolding total_amount
total_amount-snoc [] m = refl
total_amount-snoc (n ∷ ms) m =
    ap (λ t. n.amount_minor +ℤ t) (total_amount-snoc ms m)
    ∙ swap n.amount_minor m.amount_minor (total_amount ms)
  where
    swap : (a b c : ℤ) → a +ℤ (b +ℤ c) ≡ b +ℤ (a +ℤ c)
    swap a b c = omega int_laws

snoc-++ :
    (ms : List Milestone) (m : Milestone) (rest : List Milestone)
    → (ms ++ m ∷ []) ++ rest ≡ ms ++ m ∷ rest
snoc-++ [] m rest = refl
snoc-++ (n ∷ ms) m rest = ap (λ x. n ∷ x) (snoc-++ ms m rest)

unfoldable pub total_of : List ProposalMilestone → ℤ
total_of [] = pos 0
total_of (m ∷ ms) = m.amount_minor +ℤ total_of ms

module _ (version : Uuid) (currency : Text) where
  -- The milestone table once the terms are in it.
  abbrev pub made : Uuid → List ProposalMilestone → List Milestone → List Milestone
  made next [] table = table
  made next (t ∷ ts) table = made (suc next) ts (new_milestone next version currency t ∷ table)

  abbrev pub id_after : Uuid → List ProposalMilestone → Uuid
  id_after next [] = next
  id_after next (_ ∷ ts) = id_after (suc next) ts

  pub create_milestones_run :
      (terms : List ProposalMilestone) (s : Session)
      → create_milestones version currency terms s ≡ (
        ok tt,
        record s {
          live = record s.live {
            milestones = made s.live.next_id terms s.live.milestones;
            next_id = id_after s.live.next_id terms;
          };
        },
      )
  unfolding create_milestones add_milestone ◌>>=◌
  create_milestones_run [] s = refl
  create_milestones_run (t ∷ ts) s = create_milestones_run ts _

  abbrev pub IsScheduled : Milestone → Type 0
  IsScheduled m = (m.contract_version_id ≡ version) × (m.currency ≡ currency) × (m.status ≡ created)

  -- The new milestones stand in front of the others and add up to what the terms add up to.
  pub made-IsScheduled :
      (next : Uuid) (terms : List ProposalMilestone) (table : List Milestone)
      → (ms : List Milestone) × (made next terms table ≡ ms ++ table)
        × All IsScheduled ms
        × (total_amount ms ≡ total_of terms)
  unfolding total_amount total_of
  made-IsScheduled next [] table = ([], refl, tt, refl)
  made-IsScheduled next (t ∷ ts) table =
      let m = new_milestone next version currency t in
      let (ms, split, scheduled, total) = made-IsScheduled (suc next) ts (m ∷ table) in
      (
        ms ++ m ∷ [],
        split ∙ sym (snoc-++ ms m table),
        All-snoc IsScheduled ms m scheduled (refl, refl, refl),
        total_amount-snoc ms m ∙ ap (λ x. t.amount_minor +ℤ x) total,
      )

module _ (env : Environment) (project : Project) (p : Proposal) (actor : Uuid)
    (document : ContractDocument) (s : Session) where
  abbrev pub made_contract : Contract
  made_contract = new_contract s.live.next_id project p

  abbrev pub made_version : ContractVersion
  made_version = new_contract_version env (suc s.live.next_id) s.live.next_id document

  abbrev audit_row : AuditEvent
  audit_row = record {
    actor_user_id = some actor;
    action = contract_created;
    resource_id = s.live.next_id;
    previous_state_hash = some (env.state_hash (exists_state false));
    new_state_hash = some (env.state_hash (state_of made_contract made_version none));
  }

  abbrev pub with_new_contract : Session
  with_new_contract = record s {
    live = record s.live {
      contracts = made_contract ∷ s.live.contracts;
      contract_versions = made_version ∷ s.live.contract_versions;
      milestones =
          made (suc s.live.next_id) document.currency (suc (suc s.live.next_id)) document.milestones
            s.live.milestones;
      audit_events = audit_row ∷ s.live.audit_events;
      next_id =
          id_after (suc s.live.next_id) document.currency (suc (suc s.live.next_id))
            document.milestones;
    };
  }

  pub insert_contract_run :
      insert_contract env project p actor document s ≡ (ok made_contract, with_new_contract)
  unfolding insert_contract add_contract add_version record_audit_event ◌>>=◌
  insert_contract_run =
      ap
        (λ (x : Result (Unit {0}) × Session).
          ((λ _. x) >>= λ _.
          record_audit_event env contract_created s.live.next_id (some actor)
            (some (exists_state false)) (some (state_of made_contract made_version none))
          >> pure made_contract)
            s)
        (create_milestones_run (suc s.live.next_id) document.currency document.milestones _)
