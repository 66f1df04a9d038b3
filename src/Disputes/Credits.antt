-- ===== src/Disputes/Credits.antt =====
-- The credits of a resolution: who is credited, and what that adds to each balance.
use freelancing_platform.Prelude.{
  Bool, true, false, ◌≡◌, ◌∙◌, refl, ap, sym, Option, none, some, List, [], ◌∷◌, ◌++◌, ◌==◌,
  if◌then◌else◌,
}
use freelancing_platform.Prelude.Int.{ℤ, pos, ◌+ℤ◌, ◌==ℤ◌, ==ℤ_true, zero-+ℤ}
use freelancing_platform.Database.Rows.Texts.{Text, Uuid}
use freelancing_platform.Database.Rows.Ledger.{LedgerAccount, credit}
use freelancing_platform.Database.Rows.Payment.{PaymentIntent}
use freelancing_platform.Database.Environment.{ok}
use freelancing_platform.Database.Session.{Session, Action, pure, ◌>>=◌}
use freelancing_platform.Database.Session.Keeps.{Keeps, keeps_rules}
use freelancing_platform.Database.Session.Steps.{pure_returned, bind_inv}
use freelancing_platform.Ledger.{
  Posting, Identity, same_identity, sum_entries, entries_of, get_or_create_account,
}
use freelancing_platform.Ledger.Account.{get_or_create_account-IsStored}
use freelancing_platform.Ledger.Fresh.{HasIntents, get_or_create_account-HasIntents}
use freelancing_platform.Payments.Release.{wallet_identity, platform_identity}
use freelancing_platform.Disputes.Amounts.{credit_unless_zero, freelancer_postings}

-- The account that is credited with the amount has the identity asked for; there is none for nothing.
abbrev pub Credits : Identity → ℤ → Option LedgerAccount → Type 0
Credits want amount none = amount ≡ pos 0
Credits want amount (some a) = same_identity want a ≡ true

abbrev pub postings_to : Option LedgerAccount → ℤ → List Posting
postings_to none amount = []
postings_to (some a) amount = record { account = a; direction = credit; amount_minor = amount } ∷ []

-- What the credit adds to the balance of the account `x`.
abbrev pub gained : Uuid → Option LedgerAccount → ℤ → ℤ
gained x none amount = pos 0
gained x (some a) amount = if a.id == x then amount else pos 0

module _ (c : Text) (x : Uuid) where
  pub entries_gain :
      (o : Option LedgerAccount) (amount : ℤ) (rest : List Posting)
      → sum_entries x (entries_of c (postings_to o amount ++ rest))
        ≡ gained x o amount +ℤ sum_entries x (entries_of c rest)
  entries_gain none amount rest = sym (zero-+ℤ _)
  entries_gain (some a) amount rest = refl

abbrev account_posting : ℤ → LedgerAccount → Action (List Posting)
account_posting amount a =
    pure (record { account = a; direction = credit; amount_minor = amount } ∷ [])

module _ (want : Identity) (amount : ℤ) (s : Session) (ps : List Posting) where
  Credits-by_test :
      (b : Bool)
      → (amount ==ℤ pos 0) ≡ b
      → ((if b then pure [] else (get_or_create_account want >>= account_posting amount)) s).0
        ≡ ok ps
      → (o : Option LedgerAccount) × Credits want amount o × (ps ≡ postings_to o amount)
  Credits-by_test true zero h = (none, ==ℤ_true amount (pos 0) zero, pure_returned [] ps s h)
  Credits-by_test false nonzero h =
      let (a, found, to) = bind_inv (get_or_create_account want) (account_posting amount) s ps h in
      (
        some a,
        (get_or_create_account-IsStored want a s found).identity,
        pure_returned _ ps _ (sym (ap (λ x. x.0) to) ∙ h),
      )

  pub credit_unless_zero_returned :
      (credit_unless_zero want amount s).0 ≡ ok ps
      → (o : Option LedgerAccount) × Credits want amount o × (ps ≡ postings_to o amount)
  unfolding credit_unless_zero
  credit_unless_zero_returned h = Credits-by_test (amount ==ℤ pos 0) refl h

module _ (user : Uuid) (currency : Text) (net fee : ℤ) (s : Session) (ps : List Posting) where
  -- The freelancer's wallet and the platform's account, as far as they are credited.
  pub freelancer_postings_returned :
      (freelancer_postings user currency net fee s).0 ≡ ok ps
      → (wallet : Option LedgerAccount) × (platform : Option LedgerAccount) × Credits
          (wallet_identity user currency)
          net
          wallet
        × Credits (platform_identity currency) fee platform
        × (ps ≡ postings_to wallet net ++ postings_to platform fee)
  unfolding freelancer_postings
  freelancer_postings_returned h =
      let (w, ew, e1) = bind_inv _ _ s ps h in
      let r1 = sym (ap (λ x. x.0) e1) ∙ h in
      let (p, ep, e2) = bind_inv _ _ _ ps r1 in
      let r2 = sym (ap (λ x. x.0) e2) ∙ r1 in
      let (wallet, is_wallet, sw) = credit_unless_zero_returned _ _ s w ew in
      let (platform, is_platform, sp) = credit_unless_zero_returned _ _ _ p ep in
      (wallet, platform, is_wallet, is_platform, pure_returned _ ps _ r2 ∙ (λ i. sw i ++ sp i))

credit_unless_zero-HasIntents :
    (is : List PaymentIntent) (want : Identity) (amount : ℤ)
    → Keeps (HasIntents is) (credit_unless_zero want amount)
unfolding credit_unless_zero
credit_unless_zero-HasIntents is want amount =
    search (keeps_rules, get_or_create_account-HasIntents)

pub freelancer_postings-HasIntents :
    (is : List PaymentIntent) (user : Uuid) (currency : Text) (net fee : ℤ)
    → Keeps (HasIntents is) (freelancer_postings user currency net fee)
unfolding freelancer_postings
freelancer_postings-HasIntents is user currency net fee =
    search (keeps_rules, credit_unless_zero-HasIntents)
