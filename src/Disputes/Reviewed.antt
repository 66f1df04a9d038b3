-- ===== src/Disputes/Reviewed.antt =====
-- The life of a dispute, and the administrator's steps in it: `admin_transition` and
-- `resolve_dispute` of app/disputes/service.py.
use freelancing_platform.Prelude.{
  true, false, not-false, ◌≡◌, ◌∙◌, refl, ap, sym, subst, Option, none, some, ◌==◌, find?, ◌⊎◌, inl,
  inr, arith,
}
use freelancing_platform.Database.Rows.Texts.{Text, Uuid}
use freelancing_platform.Database.Rows.Contract.{Milestone}
use freelancing_platform.Database.Rows.Dispute.{
  User, Dispute, DisputeStatus, dispute_open, evidence_collection, under_review, resolved,
  same_dispute_status,
}
use freelancing_platform.Database.Tables.{Db}
use freelancing_platform.Database.Tables.Replaced.{found_by_own_id, find?-replace}
use freelancing_platform.Database.Environment.{Environment, Result, ok}
use freelancing_platform.Database.Session.{Session, ◌>>=◌}
use freelancing_platform.Database.Session.Steps.{
  ok_only, bind-reader, bind-require, bind-raise_if, bind-lookup,
}
use freelancing_platform.Payments.Effects.{save_dispute, record_audit_event}
use freelancing_platform.Payments.Queries.Found.{bind-get_milestone}
use freelancing_platform.Disputes.{
  is_admin, require_admin, get_dispute, admin_allows, audit_state_change,
}
use freelancing_platform.Disputes.Review.{moved_to, allowed_step, apply_step, admin_transition}
use freelancing_platform.Disputes.Frozen.{required_text-reads}
use freelancing_platform.Disputes.Decided.{resolve_claimed_reviewed}
use freelancing_platform.Disputes.Resolve.{resolve_claimed}
use freelancing_platform.Payments.Queries.{Answer}
use freelancing_platform.Database.Rows.Payment.{FinancialIdempotencyKey}
use freelancing_platform.Prelude.Int.{ℤ}

-- A call of `resolve_dispute` past its claimed key.
pub record Resolving : Type 0 where
  pub env : Environment
  pub key : FinancialIdempotencyKey
  pub administrator : User
  pub dispute : Dispute
  pub outcome : Text
  pub reason : Text
  pub award : Option ℤ
  pub refund : Option ℤ
  pub idempotency_key : Text
  pub session : Session

abbrev pub resolve : Resolving → Result Answer × Session
resolve r =
    resolve_claimed r.env r.key r.administrator r.dispute r.outcome r.reason r.award r.refund
      r.idempotency_key r.session

-- An administrator's step that the table allows, or a resolution that returns.
pub data Step : DisputeStatus → DisputeStatus → Type 0 where
  admin_step : (a b : DisputeStatus) → admin_allows a b ≡ true → Step a b
  resolve_step :
      (a : DisputeStatus) (r : Resolving) (answer : Answer)
      → r.dispute.status ≡ a
      → (resolve r).0 ≡ ok answer
      → Step a resolved

resolved_from_review :
    (a : DisputeStatus) (r : Resolving) (answer : Answer)
    → r.dispute.status ≡ a
    → (resolve r).0 ≡ ok answer
    → same_dispute_status a under_review ≡ true
resolved_from_review a r answer at_a returned =
    subst (λ x. same_dispute_status x under_review ≡ true) at_a
      (resolve_claimed_reviewed r.env r.key r.administrator r.dispute r.outcome r.reason r.award
        r.refund r.idempotency_key r.session answer returned)

pub data History : DisputeStatus → DisputeStatus → Type 0 where
  done : (s : DisputeStatus) → History s s
  step : (a b c : DisputeStatus) → Step a b → History b c → History a c

abbrev pub Visits : DisputeStatus → (a b : DisputeStatus) → History a b → Type 0
Visits x a b (done _) = same_dispute_status a x ≡ true
Visits x a b (step _ c _ _ rest) = (same_dispute_status a x ≡ true) ⊎ Visits x c b rest

Visits-now :
    (x a b : DisputeStatus) (h : History a b) → same_dispute_status a x ≡ true → Visits x a b h
Visits-now x a b (done s) now = now
Visits-now x a b (step s c t first rest) now = inl now

-- A dispute that ends RESOLVED was UNDER_REVIEW just before.
ends_reviewed :
    (a b : DisputeStatus) (h : History a b)
    → same_dispute_status a resolved ≡ false
    → same_dispute_status b resolved ≡ true
    → Visits under_review a b h
ends_reviewed a b (done s) before after = ground arith
ends_reviewed a b (step s c t (admin_step x y allowed) rest) before after =
    inr (ends_reviewed c b rest (ground arith) after)
ends_reviewed a b (step s c t (resolve_step x r answer at_a returned) rest) before after =
    inl (resolved_from_review x r answer at_a returned)

leaves_open :
    (a b : DisputeStatus) (h : History a b)
    → same_dispute_status a dispute_open ≡ true
    → same_dispute_status b resolved ≡ true
    → Visits evidence_collection a b h
leaves_open a b (done s) before after = ground arith
leaves_open a b (step s c t (admin_step x y allowed) rest) before after =
    inr (Visits-now evidence_collection c b rest (ground arith))
leaves_open a b (step s c t (resolve_step x r answer at_a returned) rest) before after =
    let reviewed = resolved_from_review x r answer at_a returned in ground arith

-- However a dispute comes from OPEN to RESOLVED, by steps that an administrator may take and by calls to
-- resolve it that return, it was in EVIDENCE_COLLECTION and UNDER_REVIEW on the way.
pub resolved_was_reviewed :
    (h : History dispute_open resolved)
    → Visits evidence_collection dispute_open resolved h
      × Visits under_review dispute_open resolved h
resolved_was_reviewed h =
    (leaves_open dispute_open resolved h refl refl, ends_reviewed dispute_open resolved h refl refl)

abbrev pub dispute_in : Uuid → Db → Option Dispute
dispute_in id db = find? (λ d. d.id == id) db.disputes

allowed_step_returned :
    (from : DisputeStatus) (target : Option DisputeStatus) (to : DisputeStatus)
    → allowed_step from target ≡ some to
    → (target ≡ some to) × (admin_allows from to ≡ true)
allowed_step_returned from none to h = ground arith
allowed_step_returned from (some x) to h = ground arith

-- An administrator's step of the dispute `d`, between the rows `before` and `after`.
pub record IsReviewed (env : Environment) (user : User) (to_status : Text) (d d' : Dispute)
    (before after : Db) : Type 0 where
  pub by_admin : is_admin user ≡ true
  pub spelled : env.dispute_status_named (env.upper (env.strip to_status)) ≡ some d'.status
  pub is_allowed : admin_allows d.status d'.status ≡ true
  pub milestone : Milestone
  pub reason : Text
  pub moved : d' ≡ moved_to user d'.status milestone reason d
  pub stored : dispute_in d.id after ≡ some d'
  pub same_milestones : after.milestones ≡ before.milestones
  pub same_journals : after.journal_transactions ≡ before.journal_transactions

module _ (env : Environment) (user : User) (d : Dispute) (to : DisputeStatus) (reason : Text)
    (s : Session) (d' : Dispute) where
  apply_step_returned :
      (apply_step env user d to reason s).0 ≡ ok d'
      → dispute_in d.id s.live ≡ some d
      → (m : Milestone) × (d' ≡ moved_to user to m reason d)
        × (dispute_in d.id (apply_step env user d to reason s).1.saved ≡ some d')
        × ((apply_step env user d to reason s).1.saved.milestones ≡ s.live.milestones)
        × ((apply_step env user d to reason s).1.saved.journal_transactions
            ≡ s.live.journal_transactions)
  unfolding apply_step save_dispute audit_state_change record_audit_event ◌>>=◌
  apply_step_returned returned found =
      let (m, is_m, e1) = bind-get_milestone s d' d.milestone_id _ returned in
      let row = moved_to user to m reason d in
      let is_row = ok_only row d' (sym (ap (λ x. x.0) e1) ∙ returned) in
      (
        m,
        sym is_row,
        ap (λ x. dispute_in d.id x.1.saved) e1
            ∙ find?-replace (λ (r : Dispute). r.id) row d.id s.live.disputes d refl found
            ∙ ap some is_row,
        ap (λ x. x.1.saved.milestones) e1,
        ap (λ x. x.1.saved.journal_transactions) e1,
      )

module _ (env : Environment) (user : User) (id : Uuid) (to_status reason : Text) (s : Session)
    (d' : Dispute) where
  -- A transition that returns was asked for by an administrator and is one that the table allows, to the
  -- status that the request spells; the dispute stands under it in the committed rows, with the
  -- event that records the step, and neither a milestone nor the ledger is touched.
  pub admin_transition-IsReviewed :
      (admin_transition env user id to_status reason s).0 ≡ ok d'
      → (d : Dispute) × (dispute_in id s.live ≡ some d)
        × IsReviewed env user to_status d d' s.live
            (admin_transition env user id to_status reason s).1.saved
  unfolding admin_transition require_admin get_dispute
  admin_transition-IsReviewed returned =
      let (p1, e1) = bind-raise_if _ _ _ s d' returned in
      let r1 = sym (ap (λ x. x.0) e1) ∙ returned in
      let (d, found, e2) = bind-lookup _ _ _ s d' r1 in
      let r2 = sym (ap (λ x. x.0) e2) ∙ r1 in
      let (t, et, e3) = bind-reader _ _ s d' (required_text-reads env reason 4000 s) r2 in
      let r3 = sym (ap (λ x. x.0) e3) ∙ r2 in
      let (to, is_to, e4) = bind-require _ _ _ s d' r3 in
      let r4 = sym (ap (λ x. x.0) e4) ∙ r3 in
      let (spelled, allowed) = allowed_step_returned d.status _ to is_to in
      let (m, moved, stored, ms, js) =
        apply_step_returned env user d to t s d' r4
          (found_by_own_id (λ (r : Dispute). r.id) id s.live.disputes d found) in
      let to_step = e1 ∙ e2 ∙ e3 ∙ e4 in
      let status : d'.status ≡ to = ap (λ (x : Dispute). x.status) moved in
      (
        d,
        found,
        record {
          by_admin = not-false _ p1;
          spelled = spelled ∙ ap some (sym status);
          is_allowed = subst (λ x. admin_allows d.status x ≡ true) (sym status) allowed;
          milestone = m;
          reason = t;
          moved = moved ∙ ap (λ x. moved_to user x m t d) (sym status);
          stored = ap (λ x. dispute_in d.id x.1.saved) to_step ∙ stored;
          same_milestones = ap (λ x. x.1.saved.milestones) to_step ∙ ms;
          same_journals = ap (λ x. x.1.saved.journal_transactions) to_step ∙ js;
        },
      )
