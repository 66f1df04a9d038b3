-- ===== src/Proposals/Consistent.antt =====
-- When a proposal's rows fit together: app/proposals/service.py numbers the versions from 1, keeps the
-- last number, and lets milestones in only if they add up to the price.
use freelancing_platform.Prelude.{
  All-snoc, ℕ, false, ◌≡◌, refl, ap, ◌∙◌, inl, inr, some, List, [], ◌∷◌, ◌++◌, ◌==◌, ◌≤◌, ◌+◌,
  length, find?, All, any, Bool-cases, not-false, arith,
}
use freelancing_platform.Prelude.Int.{◌+ℤ◌, ==ℤ_true, +ℤ-zero}
use freelancing_platform.Database.Rows.Texts.{Text, Uuid}
use freelancing_platform.Database.Rows.Proposal.{Proposal, ProposalVersion}
use freelancing_platform.Contracts.Created.{total_of}
use freelancing_platform.Contracts.Creation.{milestone_terms, version_of_proposal}
use freelancing_platform.Proposals.{
  MilestoneInput, Offer, total, numbered, misses_price, version_from, revised,
}
use freelancing_platform.Proposals.Submission.{has_number}

-- The milestones of a contract on this version add up to its price.
abbrev pub IsPriced : ProposalVersion → Type 0
IsPriced v = (title : Text) → total_of (milestone_terms title v) ≡ v.amount_minor

abbrev pub IsNumbered : ℕ → List ProposalVersion → Type 0
IsNumbered n [] = Unit
IsNumbered n (v ∷ vs) = (v.version_number ≡ n) × IsNumbered (n + 1) vs

pub record IsConsistent (p : Proposal) : Type 0 where
  pub nonempty : 1 ≤ p.current_version
  pub counted : p.current_version ≡ length p.versions
  pub in_sequence : IsNumbered 1 p.versions
  pub priced : All IsPriced p.versions

total_of-numbered : (n : ℕ) (ms : List MilestoneInput) → total_of (numbered n ms) ≡ total ms
unfolding total_of total numbered
total_of-numbered n [] = refl
total_of-numbered n (m ∷ ms) = ap (λ t. m.amount_minor +ℤ t) (total_of-numbered (n + 1) ms)

pub offered-IsPriced :
    (id : Uuid) (number : ℕ) (o : Offer)
    → misses_price o ≡ false
    → IsPriced (version_from id number o)
unfolding total_of numbered
offered-IsPriced id number o fits title = by_milestones o.milestones fits
  where
    by_milestones :
        (ms : List MilestoneInput)
        → misses_price (record o { milestones = ms }) ≡ false
        → total_of (milestone_terms title (version_from id number (record o { milestones = ms })))
          ≡ o.amount_minor
    by_milestones [] fits = +ℤ-zero o.amount_minor
    by_milestones (m ∷ ms) fits =
        total_of-numbered 1 (m ∷ ms) ∙ ==ℤ_true (total (m ∷ ms)) o.amount_minor (not-false _ fits)

-- A number in the range of a numbered list finds a version of it.
finds_number :
    (P : ProposalVersion → Type 0) (n k : ℕ) (vs : List ProposalVersion)
    → IsNumbered n vs
    → All P vs
    → n ≤ k
    → k + 1 ≤ n + length vs
    → (v : ProposalVersion) × (find? (λ v. v.version_number == k) vs ≡ some v) × P v
finds_number P n k [] numbers all_P above below = elim (absurd n k above below) [ ]
  where
    absurd : (n k : ℕ) → n ≤ k → k + 1 ≤ n + 0 → ⊥
    absurd n k above below = omega arith
finds_number P n k (v ∷ vs) (first, numbers) (here, all_P) above below =
    elim (Bool-cases (v.version_number == k)) [
      | inl same ↦ (v, ground arith, here)
      | inr other ↦
          let (w, found, Pw) =
            finds_number P (n + 1) k vs numbers all_P (ground arith) (ground arith) in
          (w, ground arith, Pw)
    ]

-- A number beyond the range finds none.
beyond_number :
    (n k : ℕ) (vs : List ProposalVersion)
    → IsNumbered n vs
    → n + length vs ≤ k
    → any (has_number k) vs ≡ false
beyond_number n k [] numbers above = refl
beyond_number n k (v ∷ vs) (first, numbers) above =
    let rest = beyond_number (n + 1) k vs numbers (ground arith) in ground arith

IsNumbered-++ :
    (n : ℕ) (vs : List ProposalVersion) (v : ProposalVersion)
    → IsNumbered n vs
    → v.version_number ≡ n + length vs
    → IsNumbered n (vs ++ v ∷ [])
IsNumbered-++ n [] v numbers last = (ground arith, tt)
IsNumbered-++ n (w ∷ vs) v (first, numbers) last =
    (first, IsNumbered-++ (n + 1) vs v numbers (ground arith))

length-snoc :
    (vs : List ProposalVersion) (v : ProposalVersion) → length (vs ++ v ∷ []) ≡ length vs + 1
length-snoc [] v = refl
length-snoc (w ∷ vs) v = let rest = length-snoc vs v in ground arith

-- The current version of a consistent proposal is found, and its milestones add up to its price.
pub current-IsPriced :
    (p : Proposal)
    → IsConsistent p
    → (v : ProposalVersion) × (version_of_proposal p ≡ some v) × IsPriced v
current-IsPriced p c =
    finds_number IsPriced 1 p.current_version p.versions c.in_sequence c.priced c.nonempty
      (ground (arith, c.counted))

-- The next number is free, so that a new version violates no constraint.
pub next_number_free :
    (p : Proposal) → IsConsistent p → any (has_number (p.current_version + 1)) p.versions ≡ false
next_number_free p c =
    beyond_number 1 (p.current_version + 1) p.versions c.in_sequence (ground (arith, c.counted))

pub revised-IsConsistent :
    (v : ProposalVersion) (p : Proposal)
    → IsConsistent p
    → v.version_number ≡ p.current_version + 1
    → IsPriced v
    → IsConsistent (revised v p)
revised-IsConsistent v p c next priced = record {
  nonempty = omega arith;
  counted = ground (arith, c.counted, length-snoc p.versions v);
  in_sequence = IsNumbered-++ 1 p.versions v c.in_sequence (ground (arith, c.counted));
  priced = All-snoc IsPriced p.versions v c.priced priced;
}
