-- ===== src/Disputes/Split.antt =====
-- Which amounts a resolution may set: `_resolution_amounts` of app/disputes/service.py.
use freelancing_platform.Prelude.{◌≡◌, ◌↔◌, Option, none, some, arith}
use freelancing_platform.Prelude.Int.{ℤ, pos, ◌+ℤ◌, ◌≤ℤ◌, eq_of_parts}
use freelancing_platform.Database.Rows.Dispute.{
  Outcome, release_to_freelancer, refund_client, split,
}
use freelancing_platform.Database.Environment.{ok}
use freelancing_platform.Database.Session.{Session, ◌>>=◌}
use freelancing_platform.Disputes.Amounts.{Amounts, split_amounts, resolution_amounts}

-- How an outcome divides the funded amount.
abbrev pub Divides : Outcome → ℤ → Amounts → Type 0
Divides release_to_freelancer funded a = (a.award ≡ funded) × (a.refund ≡ pos 0)
Divides refund_client funded a = (a.award ≡ pos 0) × (a.refund ≡ funded)
Divides split funded a = (pos 1 ≤ℤ a.award) × (pos 1 ≤ℤ a.refund) × (a.award +ℤ a.refund ≡ funded)

-- An amount in the request that is left out or agrees.
abbrev pub Allows : Option ℤ → ℤ → Type 0
Allows none amount = Unit
Allows (some asked) amount = asked ≡ amount

-- A split names both amounts.
abbrev pub Asks : Outcome → Option ℤ → Option ℤ → Amounts → Type 0
Asks split award refund a = (award ≡ some a.award) × (refund ≡ some a.refund)
Asks _ award refund a = Allows award a.award × Allows refund a.refund

module _ (funded : ℤ) (a : Amounts) (s : Session) where
  -- The amounts are set exactly when they divide the funded amount as the outcome says (all to the
  -- freelancer, all to the client, or two positive shares that add up to it) and are those that the
  -- request names, if it names any; a split has to name both.
  pub resolution_amounts_iff :
      (o : Outcome) (award refund : Option ℤ)
      → ((resolution_amounts o funded award refund s).0 ≡ ok a)
        ↔ (Divides o funded a × Asks o award refund a)
  unfolding resolution_amounts split_amounts ◌>>=◌
  resolution_amounts_iff release_to_freelancer none none =
      ((λ h. ground arith), (λ h. ground arith))
  resolution_amounts_iff release_to_freelancer (some x) none =
      ((λ h. ground (arith, eq_of_parts x funded)), (λ h. ground arith))
  resolution_amounts_iff release_to_freelancer none (some y) =
      ((λ h. ground (arith, eq_of_parts y (pos 0))), (λ h. ground arith))
  resolution_amounts_iff release_to_freelancer (some x) (some y) =
      ((λ h. ground (arith, eq_of_parts x funded, eq_of_parts y (pos 0))), (λ h. ground arith))
  resolution_amounts_iff refund_client none none = ((λ h. ground arith), (λ h. ground arith))
  resolution_amounts_iff refund_client (some x) none =
      ((λ h. ground (arith, eq_of_parts x (pos 0))), (λ h. ground arith))
  resolution_amounts_iff refund_client none (some y) =
      ((λ h. ground (arith, eq_of_parts y funded)), (λ h. ground arith))
  resolution_amounts_iff refund_client (some x) (some y) =
      ((λ h. ground (arith, eq_of_parts x (pos 0), eq_of_parts y funded)), (λ h. ground arith))
  resolution_amounts_iff split none refund = ((λ h. ground arith), (λ h. ground arith))
  resolution_amounts_iff split (some x) none = ((λ h. ground arith), (λ h. ground arith))
  resolution_amounts_iff split (some x) (some y) =
      ((λ h. ground (arith, eq_of_parts (x +ℤ y) funded)), (λ h. ground arith))
