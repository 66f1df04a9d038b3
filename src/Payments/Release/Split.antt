-- ===== src/Payments/Release/Split.antt =====
-- The split of a release between the freelancer and the platform, and when the ledger accepts it.
use Prim.Native.Nat.{◌≤◌, ◌<◌}
use freelancing_platform.Prelude.{
  ℕ, ◌≡◌, refl, ◌↔◌, ◌*◌, ◌/◌, ◌+◌, List, [], ◌∷◌, arith, Bool, true, false, Bool-cases, inl, inr,
  ◌==◌, if◌then◌else◌,
}
use freelancing_platform.Prelude.Int.{pos, ◌-ℤ◌, ◌==ℤ◌, int_laws}
use freelancing_platform.Database.Rows.Texts.{Text}
use freelancing_platform.Database.Rows.Ledger.{debit, credit}
use freelancing_platform.Ledger.{Posting}
use freelancing_platform.Ledger.Journal.{IsAccepted}
use freelancing_platform.Payments.Release.{commission, ReleaseAccounts, release_postings}

mul_bound : (n bps : ℕ) → bps ≤ 10000 → n * bps ≤ n * 10000
mul_bound n bps h = grind arith

fee_bound : (n bps : ℕ) → bps ≤ 10000 → n * bps / 10000 ≤ n
fee_bound n bps h = ground (arith, mul_bound n bps h)

mul_strict : (n bps : ℕ) → bps < 10000 → 0 < n → n * bps < n * 10000
mul_strict n bps h p = grind arith

fee_strict : (n bps : ℕ) → bps < 10000 → 0 < n → n * bps / 10000 < n
fee_strict n bps h p = ground (arith, mul_strict n bps h p)

pub full_fee : (n : ℕ) → n * 10000 / 10000 ≡ n
full_fee n = ground arith

below_next : (x : ℕ) → x < x / 10000 * 10000 + 10000
below_next x = omega arith

not_above : (x : ℕ) → x / 10000 * 10000 ≤ x
not_above x = omega arith

-- For at most 10000 basis points, the commission on an amount is the exact share rounded down to whole
-- minor units, and it is at most the amount.
pub commission_bounds :
    (n bps : ℕ)
    → bps ≤ 10000
    → (fee : ℕ) × (commission (pos n) bps ≡ pos fee)
      × (fee * 10000 ≤ n * bps)
      × (n * bps < fee * 10000 + 10000)
      × (fee ≤ n)
unfolding commission
commission_bounds n bps h =
    (n * bps / 10000, refl, not_above (n * bps), below_next (n * bps), fee_bound n bps h)

-- All three accounts of a release keep one currency.
abbrev pub InCurrency : Text → ReleaseAccounts → Type 0
InCurrency c a = (a.escrow.currency ≡ c) × (a.wallet.currency ≡ c) × (a.platform.currency ≡ c)

module _ (c : Text) (a : ReleaseAccounts) (n f : ℕ) where
  pub split-IsAccepted_only : IsAccepted c (release_postings a (pos n) (pos f)) → (0 < n) × (f < n)
  split-IsAccepted_only h =
      let positive = h.balanced.proper.0.1 in
      let rest = h.balanced.proper.1.0.1 in (omega int_laws, omega int_laws)

module _ (c : Text) (a : ReleaseAccounts) (same : InCurrency c a) (n f : ℕ) where
  split_postings : Bool → List Posting
  split_postings b =
      record { account = a.escrow; direction = debit; amount_minor = pos n }
      ∷ record { account = a.wallet; direction = credit; amount_minor = pos n -ℤ pos f }
      ∷ (if b
          then []
          else record { account = a.platform; direction = credit; amount_minor = pos f } ∷ [])

  split-IsAccepted_if :
      (b : Bool) → (pos f ==ℤ pos 0) ≡ b → 0 < n → f < n → IsAccepted c (split_postings b)
  unfolding split_postings
  split-IsAccepted_if true test pn pf =
      let zero_fee : f ≡ 0 = ground arith in
      record {
        nonempty = λ p. cc;
        one_currency = ground arith;
        balanced = record {
          proper = ((refl, ground arith), ((refl, omega int_laws), tt));
          sides_agree = omega int_laws;
        };
      }
  split-IsAccepted_if false test pn pf =
      let some_fee : 0 < f = ground arith in
      record {
        nonempty = λ p. cc;
        one_currency = ground arith;
        balanced = record {
          proper = ((refl, ground arith), ((refl, omega int_laws), ((refl, ground arith), tt)));
          sides_agree = omega int_laws;
        };
      }

-- The ledger accepts the postings of a release exactly if the amount is positive and the commission
-- is below 100 %, for a commission of at most 100 % and three accounts of one currency. At 10000
-- basis points, which the code and the database allow, no release is ever accepted.
pub release-IsAccepted_iff :
    (c : Text) (a : ReleaseAccounts) (n bps : ℕ)
    → InCurrency c a
    → bps ≤ 10000
    → IsAccepted c (release_postings a (pos n) (commission (pos n) bps)) ↔ ((0 < n) × (bps < 10000))
unfolding commission split_postings
release-IsAccepted_iff c a n bps same h = (
  λ accepted.
      let r = split-IsAccepted_only c a n (n * bps / 10000) accepted in
      (r.0, fee_below n bps h r.1),
  λ r. split-IsAccepted_if c a same n (n * bps / 10000) _ refl r.0 (fee_strict n bps r.1 r.0),
)
  where
    fee_below : (n bps : ℕ) → bps ≤ 10000 → n * bps / 10000 < n → bps < 10000
    fee_below n bps h below = elim (Bool-cases (bps == 10000)) [
      | inl e ↦ let full : bps ≡ 10000 = ground arith in grind (arith, full_fee n)
      | inr e ↦ ground arith
    ]
