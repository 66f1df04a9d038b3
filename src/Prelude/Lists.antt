-- ===== src/Prelude/Lists.antt =====
-- Lists that can be searched and counted in a test.
use Prim.Native.Nat.{ℕ, suc}
use mathlib.Core.Path.{◌≡◌, subst, sym}
use mathlib.Core.Logic.{◌⊎◌, inl, inr}
use mathlib.Core.Bool.{Bool, true, false, ◌&&◌, ◌||◌}
use mathlib.Core.Option.{Option, none, some}
use mathlib.Core.List.{List, [], ◌∷◌, ◌++◌}
use native.Mathlib.Omega.{arith}
use freelancing_platform.Prelude.Tests.{if◌then◌else◌}

pub both_true : (b c : Bool) → (b && c) ≡ true → (b ≡ true) × (c ≡ true)
both_true b c h = (ground arith, ground arith)

module _ {ℓ} {A : Type ℓ} where
  abbrev pub length : List A → ℕ
  length [] = 0
  length (_ ∷ xs) = suc (length xs)

  -- The first element that passes.
  abbrev pub find? : (A → Bool) → List A → Option A
  find? p [] = none
  find? p (x ∷ xs) = if p x then some x else find? p xs

  abbrev pub all : (A → Bool) → List A → Bool
  all p [] = true
  all p (x ∷ xs) = p x && all p xs

  abbrev pub any : (A → Bool) → List A → Bool
  any p [] = false
  any p (x ∷ xs) = p x || any p xs

  -- The elements that pass, in order.
  abbrev pub select : (A → Bool) → List A → List A
  select p [] = []
  select p (x ∷ xs) = let rest = select p xs in if p x then x ∷ rest else rest

  -- A predicate that holds of every element.
  abbrev pub All {κ} : (A → Type κ) → List A → Type κ
  All P [] = Unit
  All P (x ∷ xs) = P x × All P xs

  -- What a search finds passes its test.
  pub find?_passes : (p : A → Bool) (xs : List A) {a : A} → find? p xs ≡ some a → p a ≡ true
  find?_passes p [] h = ground arith
  find?_passes p (x ∷ xs) {a} h = ground (arith, find?_passes p xs {a = a})

  -- and what holds of all elements holds of it.
  pub find?-All {κ} :
      (P : A → Type κ) (p : A → Bool) (xs : List A) (a : A) → All P xs → find? p xs ≡ some a → P a
  find?-All P p [] a all_P h = ground arith
  find?-All P p (x ∷ xs) a (here, all_P) h = by_test (p x) h (find?-All P p xs a all_P)
    where
      by_test :
          (b : Bool)
          → (if b then some x else find? p xs) ≡ some a
          → (find? p xs ≡ some a → P a)
          → P a
      by_test true h later = let same : x ≡ a = ground arith in subst P same here
      by_test false h later = later h

  pub All-snoc {κ} : (P : A → Type κ) (xs : List A) (x : A) → All P xs → P x → All P (xs ++ x ∷ [])
  All-snoc P [] x all_P h = (h, tt)
  All-snoc P (y ∷ xs) x (here, all_P) h = (here, All-snoc P xs x all_P h)

  -- What a search does not find passes nowhere.
  pub any-none : (p : A → Bool) (xs : List A) → find? p xs ≡ none → any p xs ≡ false
  any-none p [] h = λ i. false
  any-none p (x ∷ xs) h = by_test (p x) h (any-none p xs)
    where
      by_test :
          (b : Bool)
          → (if b then some x else find? p xs) ≡ none
          → (find? p xs ≡ none → any p xs ≡ false)
          → (b || any p xs) ≡ false
      by_test true h later = ground arith
      by_test false h later = later h

  -- A predicate that holds of some element.
  abbrev pub Any : (A → Type 0) → List A → Type 0
  Any P [] = ⊥
  Any P (x ∷ xs) = P x ⊎ Any P xs

  -- What a search finds is an element.
  pub find?-Any :
      (P : A → Type 0) (p : A → Bool) (xs : List A) (a : A) → find? p xs ≡ some a → P a → Any P xs
  find?-Any P p [] a found h = ground arith
  find?-Any P p (x ∷ xs) a found h = by_test (p x) found (λ later. find?-Any P p xs a later h)
    where
      by_test :
          (b : Bool)
          → (if b then some x else find? p xs) ≡ some a
          → (find? p xs ≡ some a → Any P xs)
          → P x ⊎ Any P xs
      by_test true here later = let same : x ≡ a = ground arith in inl (subst P (sym same) h)
      by_test false here later = inr (later here)

  pub All-map : (P Q : A → Type 0) → ((x : A) → P x → Q x) → (xs : List A) → All P xs → All Q xs
  All-map P Q means [] h = tt
  All-map P Q means (x ∷ xs) (here, rest) = (means x here, All-map P Q means xs rest)

  -- Tests that come out true, and what they test.
  module _ (p : A → Bool) (P : A → Type 0) where
    pub any-Any : ((x : A) → p x ≡ true → P x) → (xs : List A) → any p xs ≡ true → Any P xs
    any-Any means [] h = ground arith
    any-Any means (x ∷ xs) h = by_test (p x) (means x) h (any-Any means xs)
      where
        by_test :
            (b : Bool)
            → (b ≡ true → P x)
            → (b || any p xs) ≡ true
            → (any p xs ≡ true → Any P xs)
            → P x ⊎ Any P xs
        by_test true here h later = inl (here (λ i. true))
        by_test false here h later = inr (later h)

    pub Any-any : ((x : A) → P x → p x ≡ true) → (xs : List A) → Any P xs → any p xs ≡ true
    Any-any means [] h = elim h [ ]
    Any-any means (x ∷ xs) (inl here) = let passes = means x here in ground arith
    Any-any means (x ∷ xs) (inr later) = let passes = Any-any means xs later in ground arith

  -- The same for all elements that a test selects.
  module _ (r p : A → Bool) (P : A → Type 0) where
    pub all-All :
        ((x : A) → p x ≡ true → P x)
        → (xs : List A) → all p (select r xs) ≡ true
        → All (λ x. r x ≡ true → P x) xs
    all-All means [] h = tt
    all-All means (x ∷ xs) h = by_test (r x) h (all-All means xs)
      where
        by_test :
            (b : Bool)
            → all p (if b then x ∷ select r xs else select r xs) ≡ true
            → (all p (select r xs) ≡ true → All (λ y. r y ≡ true → P y) xs)
            → (b ≡ true → P x) × All (λ y. r y ≡ true → P y) xs
        by_test true h later =
            let (here, rest) = both_true (p x) _ h in ((λ t. means x here), later rest)
        by_test false h later = ((λ t. ground arith), later h)

    pub All-all :
        ((x : A) → P x → p x ≡ true)
        → (xs : List A) → All (λ x. r x ≡ true → P x) xs
        → all p (select r xs) ≡ true
    All-all means [] h = λ i. true
    All-all means (x ∷ xs) (here, rest) = by_test (r x) here (All-all means xs rest)
      where
        by_test :
            (b : Bool)
            → (b ≡ true → P x)
            → all p (select r xs) ≡ true
            → all p (if b then x ∷ select r xs else select r xs) ≡ true
        by_test true here h = let passes = means x (here (λ i. true)) in ground arith
        by_test false here h = h

module _ {A : Type 0} where
  -- An element that passes is found, if no other passes.
  pub find?-only :
      (p : A → Bool) (a : A)
      → p a ≡ true
      → (xs : List A) → Any (λ x. x ≡ a) xs
      → All (λ x. p x ≡ true → x ≡ a) xs
      → find? p xs ≡ some a
  find?-only p a passes [] stored only = elim stored [ ]
  find?-only p a passes (x ∷ xs) stored (here, only) =
      by_test (p x) here (λ is_a. subst (λ y. p y ≡ true) (sym is_a) passes) stored
        (λ later. find?-only p a passes xs later only)
    where
      by_test :
          (b : Bool)
          → (b ≡ true → x ≡ a)
          → (x ≡ a → b ≡ true)
          → (x ≡ a) ⊎ Any (λ y. y ≡ a) xs
          → (Any (λ y. y ≡ a) xs → find? p xs ≡ some a)
          → (if b then some x else find? p xs) ≡ some a
      by_test true same back stored later = λ i. some (same (λ j. true) i)
      by_test false same back (inl is_a) later = let passes = back is_a in ground arith
      by_test false same back (inr rest) later = later rest
