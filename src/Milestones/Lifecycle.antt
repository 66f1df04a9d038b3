-- ===== src/Milestones/Lifecycle.antt =====
-- What every history of a milestone passes on its way: the steps are those of Milestones/Steps.
use freelancing_platform.Prelude.{Bool, true, false, ◌||◌, inl, inr, ◌⊎◌, ◌≡◌, refl, subst, arith}
use freelancing_platform.Database.Rows.Contract.{
  MilestoneStatus, created, funded, in_progress, submitted, changes_requested, disputed, approved,
  released, same_status,
}
use freelancing_platform.Milestones.{UserAction, user_transitions, target}
use freelancing_platform.Disputes.{is_openable}
use freelancing_platform.Milestones.Steps.{
  Step, user_step, capture_step, refund_step, release_step, dispute_step, resolve_step,
  user_step_allowed, release_from_approved, dispute_from_openable, resolve_from_disputed,
  capture_to,
}

-- Any number of steps.
pub data History : MilestoneStatus → MilestoneStatus → Type 0 where
  done : (s : MilestoneStatus) → History s s
  step : (a b c : MilestoneStatus) → Step a b → History b c → History a c

-- The history comes to a status that passes the test.
abbrev pub Meets : (MilestoneStatus → Bool) → (a b : MilestoneStatus) → History a b → Type 0
Meets test a b (done _) = test a ≡ true
Meets test a b (step _ c _ _ rest) = (test a ≡ true) ⊎ Meets test c b rest

-- The history comes to `x` at some point.
abbrev pub Visits : MilestoneStatus → (a b : MilestoneStatus) → History a b → Type 0
Visits x = Meets (λ s. same_status s x)

module _ (test : MilestoneStatus → Bool) where
  Meets-now : (a b : MilestoneStatus) (h : History a b) → test a ≡ true → Meets test a b h
  Meets-now a b (done s) now = now
  Meets-now a b (step s c t first rest) now = inl now

  -- A region that can only be left through a status that passes.
  abbrev Guards : (MilestoneStatus → Bool) → Type 0
  Guards inside =
      (a b : MilestoneStatus) → Step a b → inside a ≡ true → (inside b ≡ true) ⊎ (test b ≡ true)

  must_pass :
      (inside : MilestoneStatus → Bool)
      → Guards inside
      → (a b : MilestoneStatus) (h : History a b) → inside a ≡ true
      → inside b ≡ false
      → Meets test a b h
  must_pass inside guards a b (done s) here out = ground arith
  must_pass inside guards a b (step s c t first rest) here out = elim (guards a c first here) [
    | inl still ↦ inr (must_pass inside guards c b rest still out)
    | inr at_x ↦ inr (Meets-now c b rest at_x)
  ]

or_true : (p q : Bool) → (p || q) ≡ true → (p ≡ true) ⊎ (q ≡ true)
or_true true q h = inl refl
or_true false q h = inr h

-- A history that meets one of two statuses.
Meets-or :
    (p q : MilestoneStatus → Bool) (a b : MilestoneStatus) (h : History a b)
    → Meets (λ s. p s || q s) a b h
    → Meets p a b h ⊎ Meets q a b h
Meets-or p q a b (done s) met = or_true (p a) (q a) met
Meets-or p q a b (step s c t first rest) (inl now) = elim (or_true (p a) (q a) now) [
  | inl at_p ↦ inl (inl at_p)
  | inr at_q ↦ inr (inl at_q)
]
Meets-or p q a b (step s c t first rest) (inr later) = elim (Meets-or p q c b rest later) [
  | inl at_p ↦ inl (inr at_p)
  | inr at_q ↦ inr (inr at_q)
]

-- What a region needs: the capture's statuses, and those of the other steps.
module _ (test inside : MilestoneStatus → Bool) where
  -- The statuses at which the steps of the services leave a region, apart from the users' own.
  pub record IsRegion : Type 0 where
    pub on_funded : (inside funded ≡ true) ⊎ (test funded ≡ true)
    pub on_created : (inside created ≡ true) ⊎ (test created ≡ true)
    pub on_release : (a : MilestoneStatus) → same_status a approved ≡ true → inside a ≡ false
    pub on_resolve : (a : MilestoneStatus) → same_status a disputed ≡ true → inside a ≡ false
    pub on_dispute :
        (a : MilestoneStatus)
        → is_openable a ≡ true
        → inside a ≡ true
        → (inside disputed ≡ true) ⊎ (test disputed ≡ true)
    pub on_user :
        (action : UserAction) (s : MilestoneStatus)
        → user_transitions action s ≡ true
        → inside s ≡ true
        → (inside (target action) ≡ true) ⊎ (test (target action) ≡ true)

  at_status :
      (a b : MilestoneStatus)
      → a ≡ b
      → (inside a ≡ true) ⊎ (test a ≡ true)
      → (inside b ≡ true) ⊎ (test b ≡ true)
  at_status a b same h = subst (λ x. (inside x ≡ true) ⊎ (test x ≡ true)) same h

  clash : {A : Type 0} (b : Bool) → b ≡ false → b ≡ true → A
  clash b fails holds = ground arith

  region-Guards : IsRegion → Guards test inside
  region-Guards h a b (user_step x y env action user m m' s at_x at_y returned) here =
      at_status (target action) y at_y
        (h.on_user action x (user_step_allowed x env action user m m' s at_x returned) here)
  region-Guards h a b (capture_step x y m actor held at_x at_y) here =
      elim (capture_to _ x y m actor at_x at_y) [
        | inl same ↦ at_status funded y same h.on_funded
        | inr same ↦ at_status x y same (inl here)
      ]
  region-Guards h a b (refund_step x y env m user at_x at_y) here =
      at_status created y at_y h.on_created
  region-Guards h a b (release_step x y r answer at_x at_y returned) here =
      clash _ (h.on_release x (release_from_approved x r answer at_x returned)) here
  region-Guards h a b (dispute_step x y o d at_x at_y returned) here =
      at_status disputed y at_y (h.on_dispute x (dispute_from_openable x o d at_x returned) here)
  region-Guards h a b (resolve_step x y env o award refund s answer at_x at_y returned) here =
      clash _ (h.on_resolve x (resolve_from_disputed x env o award refund s answer at_x returned))
        here

abbrev before_funded : MilestoneStatus → Bool
before_funded created = true
before_funded _ = false

abbrev before_submitted : MilestoneStatus → Bool
before_submitted created = true
before_submitted funded = true
before_submitted in_progress = true
before_submitted _ = false

abbrev before_approved : MilestoneStatus → Bool
before_approved created = true
before_approved funded = true
before_approved in_progress = true
before_approved submitted = true
before_approved changes_requested = true
before_approved _ = false

abbrev or_disputed : MilestoneStatus → MilestoneStatus → Bool
or_disputed x s = same_status s x || same_status s disputed

funded-Guards : Guards (λ s. same_status s funded) before_funded
funded-Guards =
    region-Guards (λ s. same_status s funded) before_funded
      (record {
        on_funded = inr refl;
        on_created = inl refl;
        on_release = λ a h. ground arith;
        on_resolve = λ a h. ground arith;
        on_dispute = λ a h k. ground arith;
        on_user = λ action s h k. ground arith;
      })

submitted-Guards : Guards (or_disputed submitted) before_submitted
submitted-Guards = region-Guards (or_disputed submitted) before_submitted (record {
  on_funded = inl refl;
  on_created = inl refl;
  on_release = λ a h. ground arith;
  on_resolve = λ a h. ground arith;
  on_dispute = λ a h k. inr refl;
  on_user = λ action s h k. ground arith;
})

approved-Guards : Guards (or_disputed approved) before_approved
approved-Guards = region-Guards (or_disputed approved) before_approved (record {
  on_funded = inl refl;
  on_created = inl refl;
  on_release = λ a h. ground arith;
  on_resolve = λ a h. ground arith;
  on_dispute = λ a h k. inr refl;
  on_user = λ action s h k. ground arith;
})

-- However a milestone comes from CREATED to RELEASED by calls that return, it was FUNDED on the way, and
-- either it was DISPUTED, or it was SUBMITTED and APPROVED.
pub released_was_earned :
    (h : History created released)
    → Visits funded created released h
      × (Visits disputed created released h
          ⊎ (Visits submitted created released h × Visits approved created released h))
released_was_earned h = (
  must_pass (λ s. same_status s funded) before_funded funded-Guards created released h refl refl,
  earned
      (Meets-or (λ s. same_status s submitted) (λ s. same_status s disputed) created released h
        (must_pass (or_disputed submitted) before_submitted submitted-Guards created released h refl
          refl))
      (Meets-or (λ s. same_status s approved) (λ s. same_status s disputed) created released h
        (must_pass (or_disputed approved) before_approved approved-Guards created released h refl
          refl)),
)
  where
    earned :
        Visits submitted created released h ⊎ Visits disputed created released h
        → Visits approved created released h ⊎ Visits disputed created released h
        → Visits disputed created released h
          ⊎ (Visits submitted created released h × Visits approved created released h)
    earned (inr d) _ = inl d
    earned (inl s) (inr d) = inl d
    earned (inl s) (inl a) = inr (s, a)
