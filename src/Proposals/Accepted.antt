-- ===== src/Proposals/Accepted.antt =====
-- An acceptance that returns: `transition_proposal` of app/proposals/service.py to ACCEPTED.
use freelancing_platform.Prelude.{
  if◌then◌else◌, Bool, true, false, ◌≡◌, refl, sym, ap, subst, ◌∙◌, ◌⊎◌, Option, none, some, ◌==◌,
  find?, find?-All, not-false, arith,
}
use freelancing_platform.Database.Rows.Texts.{Text, Uuid}
use freelancing_platform.Database.Rows.Dispute.{User}
use freelancing_platform.Database.Rows.Proposal.{
  Project, project_open, same_project_status, Proposal, ProposalStatus, accepted,
}
use freelancing_platform.Database.Tables.{Db}
use freelancing_platform.Database.Tables.Replaced.{found_by_own_id, find?-replace}
use freelancing_platform.Database.Environment.{Environment, ok}
use freelancing_platform.Database.Session.{Session, catch}
use freelancing_platform.Database.Session.Keeps.{Keeps, keeps_rules}
use freelancing_platform.Database.Session.Steps.{
  bind_inv, bind-raise_if, bind-require, bind-lookup, catch_returned,
}
use freelancing_platform.Proposals.{proposal_in, get_project, get_proposal, allows}
use freelancing_platform.Proposals.Transition.{
  allowed_target, may_move, with_status, move_proposal, undo_move, move_checked,
  transition_proposal,
}
use freelancing_platform.Proposals.Consistent.{IsConsistent}
use freelancing_platform.Proposals.Kept.{AreConsistent}
use freelancing_platform.Proposals.Contracted.{
  undo_raises, HasContract, IsContracted, accepting, committed, move_proposal_returned,
}

-- What an acceptance that returns has found and done.
pub record IsAccepted (env : Environment) (user : User) (project : Project) (p : Proposal)
    (before after : Db) : Type 0 where
  pub employer : (project.employer_user_id == user.id) ≡ true
  pub is_open : same_project_status project.status project_open ≡ true
  pub offered : allows p.status accepted ≡ true
  pub stands : proposal_in p.id after ≡ some (with_status accepted p)
  pub contract :
      HasContract env user project p before after ⊎ IsContracted env user project p before after

get_project-reads : (id : Uuid) (s : Session) → Keeps (λ x. x ≡ s) (get_project id)
unfolding get_project
get_project-reads id s = search keeps_rules

get_proposal-reads : (id : Uuid) (s : Session) → Keeps (λ x. x ≡ s) (get_proposal id)
unfolding get_proposal
get_proposal-reads id s = search keeps_rules

may_manage :
    (user : User) (p : Proposal) (project : Project)
    → may_move user p project accepted ≡ true
    → (project.employer_user_id == user.id) ≡ true
may_manage user p project may = ground arith

some_only : {A : Type 0} (a b : A) → some a ≡ some b → a ≡ b
some_only a b h = ground arith

target_returned :
    (from : ProposalStatus) (o : Option ProposalStatus) (to : ProposalStatus)
    → allowed_target from o ≡ some to
    → (o ≡ some to) × (allows from to ≡ true)
target_returned from none to h = ground arith
target_returned from (some t) to h = by_test (allows from t) refl h
  where
    by_test :
        (b : Bool)
        → allows from t ≡ b
        → (if b then some t else none) ≡ some to
        → (some t ≡ some to) × (allows from to ≡ true)
    by_test true is h =
        (h, subst (λ x. allows from x ≡ true) (let same : t ≡ to = ground arith in same) is)
    by_test false is h = ground arith

module _ (env : Environment) (user : User) (s : Session) (p' : Proposal) where
  move_checked-IsAccepted :
      (project : Project) (p : Proposal)
      → (move_checked env user project p accepted s).0 ≡ ok p'
      → allows p.status accepted ≡ true
      → proposal_in p.id s.live ≡ some p
      → IsConsistent p
      → IsAccepted env user project p s.live (move_checked env user project p accepted s).1.saved
  unfolding move_checked
  move_checked-IsAccepted project p returned offered found consistent =
      let (p1, e1) = bind-raise_if _ _ _ s p' returned in
      let r1 = sym (ap (λ x. x.0) e1) ∙ returned in
      let (p2, e2) = bind-raise_if _ _ _ s p' r1 in
      let r2 = sym (ap (λ x. x.0) e2) ∙ r1 in
      let (u, eu, e3) = bind_inv (catch (move_proposal env user project p accepted) _) _ s p' r2 in
      let (inner, same_run) =
        catch_returned (undo_move accepted) u (undo_raises accepted u) _ s eu in
      let (s', to, same, contract) =
        move_proposal_returned env user project p s u inner consistent in
      let done = committed env user project p (accepting env user project p s') in
      let caught = catch (move_proposal env user project p accepted) (undo_move accepted) in
      let whole : (move_checked env user project p accepted s).1 ≡ done =
        ap (λ x. x.1) (e1 ∙ e2 ∙ e3)
        ∙ (get_proposal-reads p.id (caught s).1).at (caught s).1 refl
        ∙ ap (λ x. x.1) (same_run ∙ to) in
      subst (λ (x : Session). IsAccepted env user project p s.live x.saved) (sym whole)
        (record {
          employer = may_manage user p project (not-false _ p1);
          is_open = not-false _ p2;
          offered = offered;
          stands =
              find?-replace (λ (r : Proposal). r.id) (with_status accepted p) p.id s'.live.proposals
                p refl (ap (find? (λ r. r.id == p.id)) same ∙ found);
          contract = contract;
        })

  -- An acceptance that returns was asked for by the employer of an open project, of a proposal that was
  -- submitted or under negotiation; it stands ACCEPTED in the committed rows. Either the contract of the
  -- project had been made from it before, or a contract is added that awaits both parties' signatures,
  -- fixes the platform's commission between 0 and 10000 basis points, and has new milestones of the
  -- accepted version that are CREATED and add up to exactly its price. This is given that the proposals
  -- are consistent, which the service keeps.
  pub transition_proposal-IsAccepted :
      (id : Uuid) (target : Text)
      → (transition_proposal env user id target s).0 ≡ ok p'
      → env.proposal_status_named (env.upper target) ≡ some accepted
      → AreConsistent s.live
      → (p : Proposal) × (project : Project) × (proposal_in id s.live ≡ some p)
        × (find? (λ x. x.id == p.project_id) s.live.projects ≡ some project)
        × IsAccepted env user project p s.live (transition_proposal env user id target s).1.saved
  unfolding transition_proposal get_proposal get_project
  transition_proposal-IsAccepted id target returned spelled consistent =
      let (p, found, e1) = bind-lookup _ _ _ s p' returned in
      let r1 = sym (ap (λ x. x.0) e1) ∙ returned in
      let (project, of_project, e2) = bind-lookup _ _ _ s p' r1 in
      let r2 = sym (ap (λ x. x.0) e2) ∙ r1 in
      let (to, is_to, e3) = bind-require _ _ _ s p' r2 in
      let (named, allowed) = target_returned p.status _ to is_to in
      let same : to ≡ accepted = some_only to accepted (sym named ∙ spelled) in
      let whole = e1 ∙ e2 ∙ e3 ∙ ap (λ t. move_checked env user project p t s) same in
      (
        p,
        project,
        found,
        of_project,
        subst (λ x. IsAccepted env user project p s.live x.1.saved) (sym whole)
            (move_checked-IsAccepted project p (sym (ap (λ x. x.0) whole) ∙ returned)
              (subst (λ x. allows p.status x ≡ true) same allowed)
              (found_by_own_id (λ (r : Proposal). r.id) id s.live.proposals p found)
              (find?-All IsConsistent (λ p. p.id == id) s.live.proposals p consistent found)),
      )
