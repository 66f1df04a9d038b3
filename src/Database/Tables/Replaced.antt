-- ===== src/Database/Tables/Replaced.antt =====
-- A row that is put back is the row that is found.
use freelancing_platform.Prelude.{
  ==_iff, All, Bool, Bool-cases, List, [], ap, arith, false, find?, find?_passes, if◌then◌else◌,
  inl, inr, some, subst, sym, true, ◌==◌, ◌∷◌, ◌≡◌,
}
use freelancing_platform.Database.Rows.Texts.{Uuid}
use freelancing_platform.Database.Tables.{replace}

module _ {A : Type 0} (id_of : A → Uuid) (row : A) where
  pub find?-replace :
      (i : Uuid) (xs : List A) (m : A)
      → id_of row ≡ i
      → find? (λ r. id_of r == i) xs ≡ some m
      → find? (λ r. id_of r == i) (replace id_of row xs) ≡ some row
  find?-replace i [] m same found = ground arith
  find?-replace i (x ∷ xs) m same found = elim (Bool-cases (id_of x == i)) [
    | inl here ↦ ground arith
    | inr there ↦ ground (arith, find?-replace i xs m same)
  ]

  -- What holds of the row and of all rows holds of all once it is put back.
  pub All-replace : (P : A → Type 0) (xs : List A) → P row → All P xs → All P (replace id_of row xs)
  All-replace P [] h all_P = tt
  All-replace P (x ∷ xs) h (here, all_P) =
      (by_test (id_of x == id_of row), All-replace P xs h all_P)
    where
      by_test : (b : Bool) → P (if b then row else x)
      by_test true = h
      by_test false = here

  -- A row that is put back is found by each test that it passes and that implies the one that found it.
  pub find?-replace_by :
      (old_test new_test : A → Bool) (xs : List A) (old : A)
      → id_of row ≡ id_of old
      → find? old_test xs ≡ some old
      → new_test row ≡ true
      → ((x : A) → new_test x ≡ true → old_test x ≡ true)
      → find? new_test (replace id_of row xs) ≡ some row
  find?-replace_by old_test new_test [] old same found passes implies = ground arith
  find?-replace_by old_test new_test (x ∷ xs) old same found passes implies =
      elim (Bool-cases (id_of x == id_of row)) [
        | inl here ↦ ground arith
        | inr there ↦ elim (Bool-cases (old_test x)) [
          | inl hit ↦
              let is_old : x ≡ old = ground arith in elim (absurd x old same is_old there) [ ]
          | inr miss ↦
              let later =
                find?-replace_by old_test new_test xs old same (ground arith) passes implies in
              let passed = implies x in
              elim (Bool-cases (new_test x)) [
                | inl hit ↦ ground (arith, passed)
                | inr miss ↦ ground arith
              ]
        ]
      ]
    where
      absurd : (x old : A) → id_of row ≡ id_of old → x ≡ old → (id_of x == id_of row) ≡ false → ⊥
      absurd x old same is_old there =
          let ids : id_of x ≡ id_of old = ap id_of is_old in ground arith

-- A row that is found under an id is found under its own.
pub found_by_own_id :
    {A : Type 0} (id_of : A → Uuid) (id : Uuid) (rows : List A) (row : A)
    → find? (λ r. id_of r == id) rows ≡ some row
    → find? (λ r. id_of r == id_of row) rows ≡ some row
found_by_own_id id_of id rows row found =
    let same = (==_iff (id_of row) id).0 (find?_passes (λ r. id_of r == id) rows {a = row} found) in
    subst (λ i. find? (λ r. id_of r == i) rows ≡ some row) (sym same) found
