-- ===== src/Contracts/Drawn.antt =====
-- A contract that is drawn up from a proposal: `create_contract_from_accepted_proposal` of
-- app/contracts/service.py.
use freelancing_platform.Prelude.{◌≡◌, sym, ap, subst, ◌∙◌, some, arith}
use freelancing_platform.Prelude.Int.{ℤ, pos, ◌≤ℤ◌}
use freelancing_platform.Database.Rows.Texts.{Uuid}
use freelancing_platform.Database.Rows.Contract.{Contract}
use freelancing_platform.Database.Rows.Proposal.{
  Project, Proposal, ProposalVersion, ContractDocument,
}
use freelancing_platform.Database.Tables.{Db}
use freelancing_platform.Database.Environment.{Environment, ok}
use freelancing_platform.Database.Session.{Session}
use freelancing_platform.Database.Session.Keeps.{Keeps, keeps_rules}
use freelancing_platform.Database.Session.Steps.{
  bind-require, bind-raise_if, bind-reader, pure_returned, bind-gets, bind-arriving,
}
use freelancing_platform.Contracts.Creation.{
  version_of_proposal, current_proposal_version, commission_bps, milestone_terms, document_of,
  attachments_of, flush_contract, create_contract,
}
use freelancing_platform.Contracts.Created.{made_contract, with_new_contract, insert_contract_run}

pub record IsSetting (env : Environment) (bps : ℤ) : Type 0 where
  pub configured : env.platform_commission_bps ≡ some bps
  pub nonnegative : pos 0 ≤ℤ bps
  pub at_most_all : bps ≤ℤ pos 10000

commission_bps-reads : (env : Environment) (s : Session) → Keeps (λ x. x ≡ s) (commission_bps env)
unfolding commission_bps
commission_bps-reads env s = search keeps_rules

commission_bps_returned :
    (env : Environment) (s : Session) (bps : ℤ)
    → (commission_bps env s).0 ≡ ok bps
    → IsSetting env bps
unfolding commission_bps
commission_bps_returned env s bps returned =
    let (value, set, e1) = bind-require _ _ _ s bps returned in
    let (p, e2) = bind-raise_if _ _ _ s bps (sym (ap (λ x. x.0) e1) ∙ returned) in
    let same = pure_returned value bps s (sym (ap (λ x. x.0) (e1 ∙ e2)) ∙ returned) in
    subst (IsSetting env) (sym same)
      (record { configured = set; nonnegative = ground arith; at_most_all = ground arith })

module _ (env : Environment) (project : Project) (p : Proposal) (actor : Uuid) where
  -- The document that the current version of the proposal becomes.
  abbrev pub drawn : ProposalVersion → ℤ → Db → ContractDocument
  drawn v bps db =
      document_of project p v (milestone_terms env.full_delivery v)
        (attachments_of env.text_before project.id db) bps

  flush_contract_returned :
      (d : ContractDocument) (s : Session) (c : Contract)
      → (flush_contract env project p actor d s).0 ≡ ok c
      → flush_contract env project p actor d s
        ≡ (ok (made_contract env project p actor d s), with_new_contract env project p actor d s)
  unfolding flush_contract
  flush_contract_returned d s c returned =
      let e1 = bind-gets _ _ s in
      let r1 = sym (ap (λ x. x.0) e1) ∙ returned in
      let e2 = bind-arriving _ s in
      let r2 = sym (ap (λ x. x.0) e2) ∙ r1 in
      let (p1, e3) = bind-raise_if _ _ _ s c r2 in
      let r3 = sym (ap (λ x. x.0) e3) ∙ r2 in
      let (p2, e4) = bind-raise_if _ _ _ s c r3 in
      e1 ∙ e2 ∙ e3 ∙ e4 ∙ insert_contract_run env project p actor d s

  pub create_contract_returned :
      (s : Session) (c : Contract)
      → (create_contract env project p actor s).0 ≡ ok c
      → (v : ProposalVersion) × (version_of_proposal p ≡ some v)
        × (bps : ℤ) × IsSetting env bps
        × (create_contract env project p actor s ≡ (
          ok (made_contract env project p actor (drawn v bps s.live) s),
          with_new_contract env project p actor (drawn v bps s.live) s,
        ))
  unfolding create_contract current_proposal_version
  create_contract_returned s c returned =
      let (v, current, e1) = bind-require _ _ _ s c returned in
      let r1 = sym (ap (λ x. x.0) e1) ∙ returned in
      let e2 = bind-gets _ _ s in
      let r2 = sym (ap (λ x. x.0) e2) ∙ r1 in
      let (bps, set, e3) = bind-reader _ _ s c (commission_bps-reads env s) r2 in
      let r3 = sym (ap (λ x. x.0) e3) ∙ r2 in
      (
        v,
        current,
        bps,
        commission_bps_returned env s bps (ap (λ x. x.0) set),
        e1 ∙ e2 ∙ e3 ∙ flush_contract_returned (drawn v bps s.live) s c r3,
      )
