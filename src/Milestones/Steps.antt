-- ===== src/Milestones/Steps.antt =====
-- The life of a milestone, as a step relation over its statuses: the users' steps of
-- app/milestones/service.py, and the calls of app/payments/service.py and app/disputes/service.py that
-- write one.
use freelancing_platform.Prelude.{
  Bool, true, false, inl, inr, ◌⊎◌, ◌≡◌, ◌∙◌, sym, ap, subst, not-false, Option, if◌then◌else◌,
}
use freelancing_platform.Database.Rows.Contract.{
  Contract, Milestone, MilestoneStatus, funded, disputed, approved, same_status,
}
use freelancing_platform.Milestones.{UserAction, user_transitions, moved_by, take_step}
use freelancing_platform.Prelude.Int.{ℤ}
use freelancing_platform.Database.Rows.Texts.{Text, Uuid}
use freelancing_platform.Database.Rows.Dispute.{User, Dispute}
use freelancing_platform.Database.Rows.Payment.{FinancialIdempotencyKey}
use freelancing_platform.Database.Environment.{Environment, ok}
use freelancing_platform.Database.Session.{Session}
use freelancing_platform.Database.Session.Steps.{bind-raise_if}
use freelancing_platform.Payments.Queries.{Answer}
use freelancing_platform.Payments.Capture.{funded_by, after_capture}
use freelancing_platform.Payments.Settle.{refunded_by}
use freelancing_platform.Payments.Release.{released_by, release_approved}
use freelancing_platform.Disputes.{is_openable, frozen_by, open_checked}
use freelancing_platform.Disputes.Resolve.{Resolution, released_after_dispute, resolve_disputed}

-- A call of `release_milestone` past its claimed key, of a milestone that is not yet released.
pub record Releasing : Type 0 where
  pub env : Environment
  pub key : FinancialIdempotencyKey
  pub milestone : Milestone
  pub contract : Contract
  pub user : Uuid
  pub session : Session

-- A call of `open_dispute` past its rows.
pub record Opening : Type 0 where
  pub env : Environment
  pub user : User
  pub milestone : Milestone
  pub contract : Contract
  pub reason : Text
  pub session : Session

-- A status comes after another by a call that returns: the calls are those that write a milestone, with
-- what they write. Captures and refunds are let in at any status.
pub data Step : MilestoneStatus → MilestoneStatus → Type 0 where
  user_step :
      (a b : MilestoneStatus) (env : Environment) (action : UserAction) (user : Uuid)
      (m m' : Milestone) (s : Session)
      → m.status ≡ a
      → (moved_by user action m).status ≡ b
      → (take_step env action user m s).0 ≡ ok m'
      → Step a b
  capture_step :
      (a b : MilestoneStatus) (m : Milestone) (actor : Option Uuid) (held : ℤ)
      → m.status ≡ a
      → (after_capture actor held m).status ≡ b
      → Step a b
  refund_step :
      (a b : MilestoneStatus) (env : Environment) (m : Milestone) (user : Uuid)
      → m.status ≡ a
      → (refunded_by env user m).status ≡ b
      → Step a b
  release_step :
      (a b : MilestoneStatus) (r : Releasing) (answer : Answer)
      → r.milestone.status ≡ a
      → (released_by r.user r.milestone).status ≡ b
      → (release_approved r.env r.key r.milestone r.contract r.user r.session).0 ≡ ok answer
      → Step a b
  dispute_step :
      (a b : MilestoneStatus) (o : Opening) (d : Dispute)
      → o.milestone.status ≡ a
      → (frozen_by o.user.id o.milestone).status ≡ b
      → (open_checked o.env o.user o.milestone o.contract o.reason o.session).0 ≡ ok d
      → Step a b
  resolve_step :
      (a b : MilestoneStatus) (env : Environment) (o : Resolution) (award refund : Option ℤ)
      (s : Session) (answer : Answer)
      → o.milestone.status ≡ a
      → (released_after_dispute o.administrator o.milestone).status ≡ b
      → (resolve_disputed env o award refund s).0 ≡ ok answer
      → Step a b

pub user_step_allowed :
    (a : MilestoneStatus) (env : Environment) (action : UserAction) (user : Uuid) (m m' : Milestone)
    (s : Session)
    → m.status ≡ a
    → (take_step env action user m s).0 ≡ ok m'
    → user_transitions action a ≡ true
unfolding take_step
user_step_allowed a env action user m m' s at_a returned =
    subst (λ x. user_transitions action x ≡ true) at_a
      (not-false _ (bind-raise_if _ _ _ s m' returned).0)

pub release_from_approved :
    (a : MilestoneStatus) (r : Releasing) (answer : Answer)
    → r.milestone.status ≡ a
    → (release_approved r.env r.key r.milestone r.contract r.user r.session).0 ≡ ok answer
    → same_status a approved ≡ true
unfolding release_approved
release_from_approved a r answer at_a returned =
    subst (λ x. same_status x approved ≡ true) at_a
      (not-false _ (bind-raise_if _ _ _ r.session answer returned).0)

pub dispute_from_openable :
    (a : MilestoneStatus) (o : Opening) (d : Dispute)
    → o.milestone.status ≡ a
    → (open_checked o.env o.user o.milestone o.contract o.reason o.session).0 ≡ ok d
    → is_openable a ≡ true
unfolding open_checked
dispute_from_openable a o d at_a returned =
    let (p1, e1) = bind-raise_if _ _ _ o.session d returned in
    let r1 = sym (ap (λ x. x.0) e1) ∙ returned in
    let (p2, e2) = bind-raise_if _ _ _ o.session d r1 in
    let (p3, e3) = bind-raise_if _ _ _ o.session d (sym (ap (λ x. x.0) e2) ∙ r1) in
    subst (λ x. is_openable x ≡ true) at_a (not-false _ p3)

pub resolve_from_disputed :
    (a : MilestoneStatus) (env : Environment) (o : Resolution) (award refund : Option ℤ)
    (s : Session) (answer : Answer)
    → o.milestone.status ≡ a
    → (resolve_disputed env o award refund s).0 ≡ ok answer
    → same_status a disputed ≡ true
unfolding resolve_disputed
resolve_from_disputed a env o award refund s answer at_a returned =
    subst (λ x. same_status x disputed ≡ true) at_a
      (not-false _ (bind-raise_if _ _ _ s answer returned).0)

-- A capture funds the milestone, or leaves its status.
pub capture_to :
    (t : Bool) (a b : MilestoneStatus) (m : Milestone) (actor : Option Uuid)
    → m.status ≡ a
    → (if t then funded_by actor m else m).status ≡ b
    → (funded ≡ b) ⊎ (a ≡ b)
capture_to true a b m actor at_a at_b = inl at_b
capture_to false a b m actor at_a at_b = inr (sym at_a ∙ at_b)
