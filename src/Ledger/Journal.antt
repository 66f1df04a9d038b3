-- ===== src/Ledger/Journal.antt =====
-- `post_journal`: what its checks accept, and what it writes.
use freelancing_platform.Prelude.{
  Bool, true, false, ◌≢◌, ◌≡◌, refl, List, [], ◌∷◌, arith, all, All, inl, inr, ◌⊎◌, ◌↔◌, subst, ap,
  sym, ◌∙◌,
}
use freelancing_platform.Prelude.Int.{
  ℤ, pos, eq_of_parts, ◌+ℤ◌, ◌≤ℤ◌, int_laws, +ℤ-zero, zero-+ℤ, +ℤ_assoc,
}
use freelancing_platform.Database.Rows.Texts.{Text}
use freelancing_platform.Database.Rows.Ledger.{
  Direction, debit, credit, other_direction, LedgerEntry,
}
use freelancing_platform.Database.Environment.{ok, Result-cases}
use freelancing_platform.Database.Session.{Session, ◌>>=◌}
use freelancing_platform.Ledger.{Posting, add_postings, uses_currency, check_postings, entries_of}

abbrev debit_of : Direction → ℤ → ℤ
debit_of debit a = a
debit_of _ a = pos 0

abbrev credit_of : Direction → ℤ → ℤ
credit_of credit a = a
credit_of _ a = pos 0

-- The debits and the credits of a list of entries.
abbrev pub debits : List LedgerEntry → ℤ
debits [] = pos 0
debits (e ∷ es) = debit_of e.direction e.amount_minor +ℤ debits es

abbrev pub credits : List LedgerEntry → ℤ
credits [] = pos 0
credits (e ∷ es) = credit_of e.direction e.amount_minor +ℤ credits es

abbrev is_side : Direction → Bool
is_side other_direction = false
is_side _ = true

-- A positive amount on one of the two sides.
abbrev pub IsProper : LedgerEntry → Type 0
IsProper e = (is_side e.direction ≡ true) × (pos 1 ≤ℤ e.amount_minor)

-- What the database's deferred trigger demands too: proper entries, as much debit as credit.
pub record IsBalanced (es : List LedgerEntry) : Type 0 where
  pub proper : All IsProper es
  pub sides_agree : debits es ≡ credits es

module _ (c : Text) where
  add_postings_sound :
      (ps : List Posting) (d k d' k' : ℤ)
      → add_postings ps d k ≡ ok (d', k')
      → All IsProper (entries_of c ps)
        × (d' ≡ d +ℤ debits (entries_of c ps))
        × (k' ≡ k +ℤ credits (entries_of c ps))
  unfolding add_postings
  add_postings_sound [] d k d' k' h = grind int_laws
  add_postings_sound (p ∷ ps) d k d' k' h = grind (
    int_laws,
    add_postings_sound ps (d +ℤ p.amount_minor) k d' k',
    add_postings_sound ps d (k +ℤ p.amount_minor) d' k',
  )

  add_postings-debit :
      (p : Posting) (ps : List Posting) (d k : ℤ)
      → p.direction ≡ debit
      → pos 1 ≤ℤ p.amount_minor
      → add_postings (p ∷ ps) d k ≡ add_postings ps (d +ℤ p.amount_minor) k
  unfolding add_postings
  add_postings-debit p ps d k e h = ground arith

  add_postings-credit :
      (p : Posting) (ps : List Posting) (d k : ℤ)
      → p.direction ≡ credit
      → pos 1 ≤ℤ p.amount_minor
      → add_postings (p ∷ ps) d k ≡ add_postings ps d (k +ℤ p.amount_minor)
  unfolding add_postings
  add_postings-credit p ps d k e h = ground arith

  is_side-cases : (d : Direction) → is_side d ≡ true → (d ≡ debit) ⊎ (d ≡ credit)
  is_side-cases d h = ground arith

  add_postings_complete :
      (ps : List Posting) (d k : ℤ)
      → All IsProper (entries_of c ps)
      → add_postings ps d k ≡ ok (d +ℤ debits (entries_of c ps), k +ℤ credits (entries_of c ps))
  unfolding add_postings
  add_postings_complete [] d k h = simp +ℤ-zero
  add_postings_complete (p ∷ ps) d k h = elim (is_side-cases p.direction h.0.0) [
    | inl e ↦ rw (add_postings-debit p ps d k e h.0.1) (
        rw (add_postings_complete ps (d +ℤ p.amount_minor) k h.1) (
          ground (
            arith,
            +ℤ_assoc d p.amount_minor (debits (entries_of c ps)),
            zero-+ℤ (credits (entries_of c ps)),
          )))
    | inr e ↦ rw (add_postings-credit p ps d k e h.0.1) (
        rw (add_postings_complete ps d (k +ℤ p.amount_minor) h.1) (
          ground (
            arith,
            +ℤ_assoc k p.amount_minor (credits (entries_of c ps)),
            zero-+ℤ (debits (entries_of c ps)),
          )))
  ]

-- The postings that `post_journal` accepts in the currency `c`.
pub record IsAccepted (c : Text) (ps : List Posting) : Type 0 where
  pub nonempty : ps ≢ []
  pub one_currency : all (uses_currency c) ps ≡ true
  pub balanced : IsBalanced (entries_of c ps)

sides_agree_of_totals : (d k x y : ℤ) → d ≡ pos 0 +ℤ x → k ≡ pos 0 +ℤ y → d ≡ k → x ≡ y
sides_agree_of_totals d k x y p q r = sym (zero-+ℤ x) ∙ sym p ∙ r ∙ q ∙ zero-+ℤ y

no_postings_rejected : (s : Session) (c : Text) → (check_postings [] s).0 ≢ ok c
unfolding check_postings ◌>>=◌
no_postings_rejected s c = ground arith

module _ (p : Posting) (ps : List Posting) (s : Session) (c : Text) where
  check_postings_cons :
      (check_postings (p ∷ ps) s).0 ≡ ok c
      → (d k : ℤ) × (all (uses_currency p.account.currency) ps ≡ true)
        × (add_postings (p ∷ ps) (pos 0) (pos 0) ≡ ok (d, k))
        × (d ≡ k)
        × (p.account.currency ≡ c)
  unfolding check_postings ◌>>=◌
  check_postings_cons h = elim (Result-cases (add_postings (p ∷ ps) (pos 0) (pos 0))) [
    | inr (f, e) ↦ ground arith
    | inl ((d, k), e) ↦ (d, k, ground arith, e, ground (arith, eq_of_parts d k), ground arith)
  ]

  same_currency :
      all (uses_currency p.account.currency) ps ≡ true
      → all (uses_currency p.account.currency) (p ∷ ps) ≡ true
  same_currency one = ground arith

  first_currency : all (uses_currency c) (p ∷ ps) ≡ true → c ≡ p.account.currency
  first_currency one = ground arith

  IsAccepted-cons :
      (d k : ℤ)
      → all (uses_currency p.account.currency) ps ≡ true
      → add_postings (p ∷ ps) (pos 0) (pos 0) ≡ ok (d, k)
      → d ≡ k
      → p.account.currency ≡ c
      → IsAccepted c (p ∷ ps)
  IsAccepted-cons d k one e same cur =
      let (proper, left, right) = add_postings_sound c (p ∷ ps) (pos 0) (pos 0) d k e in
      record {
        nonempty = λ q. cc;
        one_currency = subst (λ x. all (uses_currency x) (p ∷ ps) ≡ true) cur (same_currency one);
        balanced = record {
          proper = proper;
          sides_agree = sides_agree_of_totals d k _ _ left right same;
        };
      }

module _ (p : Posting) (ps : List Posting) (s : Session) where
  accepts_own_currency :
      IsAccepted p.account.currency (p ∷ ps)
      → check_postings (p ∷ ps) s ≡ (ok p.account.currency, s)
  unfolding check_postings ◌>>=◌
  accepts_own_currency h =
      let c = p.account.currency in
      ground (
        arith,
        add_postings_complete c (p ∷ ps) (pos 0) (pos 0) h.balanced.proper,
        zero-+ℤ (debits (entries_of c (p ∷ ps))),
        zero-+ℤ (credits (entries_of c (p ∷ ps))),
      )

-- The checks of `post_journal` return a currency exactly when the postings are accepted in it: there
-- is a posting, all accounts have that currency, every amount is positive and on one of the two
-- sides, and the debits equal the credits.
pub check_postings_iff :
    (c : Text) (ps : List Posting) (s : Session)
    → ((check_postings ps s).0 ≡ ok c) ↔ IsAccepted c ps
check_postings_iff c ps s = (sound ps, complete ps)
  where
    sound : (qs : List Posting) → (check_postings qs s).0 ≡ ok c → IsAccepted c qs
    sound [] h = absurd (no_postings_rejected s c h)
    sound (p ∷ qs) h =
        let (d, k, one, e, same, cur) = check_postings_cons p qs s c h in
        IsAccepted-cons p qs s c d k one e same cur

    complete : (qs : List Posting) → IsAccepted c qs → (check_postings qs s).0 ≡ ok c
    complete [] h = absurd (h.nonempty refl)
    complete (p ∷ qs) h =
        let cur = first_currency p qs s c h.one_currency in
        ap (λ r. r.0) (accepts_own_currency p qs s (subst (λ x. IsAccepted x (p ∷ qs)) cur h))
        ∙ ap ok (sym cur)

-- The checks write nothing.
pub check_postings_session : (ps : List Posting) (s : Session) → (check_postings ps s).1 ≡ s
unfolding check_postings ◌>>=◌
check_postings_session [] s = refl
check_postings_session (p ∷ ps) s = ground arith
