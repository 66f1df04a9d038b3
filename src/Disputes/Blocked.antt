-- ===== src/Disputes/Blocked.antt =====
-- What a dispute keeps from happening to its milestone: the guards on DISPUTED in
-- app/payments/service.py and app/milestones/service.py.
use freelancing_platform.Prelude.{◌≡◌, refl, sym, subst}
use freelancing_platform.Database.Rows.Texts.{Text, Uuid}
use freelancing_platform.Database.Rows.Contract.{Contract, Milestone, MilestoneStatus, disputed}
use freelancing_platform.Database.Rows.Payment.{FinancialIdempotencyKey}
use freelancing_platform.Database.Environment.{Environment, err, api, invalid_transition}
use freelancing_platform.Database.Session.{Session, ◌>>=◌}
use freelancing_platform.Payments.Release.{release_approved, release_claimed}
use freelancing_platform.Payments.Refund.{reserve_refund}
use freelancing_platform.Milestones.{UserAction, start, submit, request_changes, approve, take_step}

-- Release, the reservation of a refund and every user's step are refused, and write nothing.
abbrev pub IsBlocked :
    Environment → FinancialIdempotencyKey → Contract → Uuid → Text → Session → Milestone → Type 0
IsBlocked env k c user name s m =
    (release_claimed env k m c user s ≡ (err (api invalid_transition 409), s))
    × (reserve_refund env k m user name s ≡ (err (api invalid_transition 409), s))
    × ((action : UserAction)
        → take_step env action user m s ≡ (err (api invalid_transition 409), s))

module _ (env : Environment) (k : FinancialIdempotencyKey) (c : Contract) (user : Uuid)
    (name : Text) (s : Session) (m : Milestone) where
  step_blocked :
      (action : UserAction)
      → take_step env action user (record m { status = disputed }) s
        ≡ (err (api invalid_transition 409), s)
  unfolding take_step ◌>>=◌
  step_blocked start = refl
  step_blocked submit = refl
  step_blocked request_changes = refl
  step_blocked approve = refl

  IsBlocked-at_disputed : IsBlocked env k c user name s (record m { status = disputed })
  unfolding release_claimed release_approved reserve_refund ◌>>=◌
  IsBlocked-at_disputed = (refl, refl, step_blocked)

  -- While a milestone is DISPUTED, no release, no reservation of a refund and no step of a user goes
  -- through: each is refused as an invalid transition and writes nothing.
  pub disputed-IsBlocked : m.status ≡ disputed → IsBlocked env k c user name s m
  disputed-IsBlocked frozen =
      subst (λ (x : MilestoneStatus). IsBlocked env k c user name s (record m { status = x }))
        (sym frozen) IsBlocked-at_disputed
