-- ===== src/Disputes/Amounts.antt =====
-- What a resolution pays and to whom: `_resolution_amounts`, `_append_freelancer_postings` and
-- `_confirm_provider_refund` of app/disputes/service.py.
use freelancing_platform.Prelude.{
  Bool, true, false, not, Option, none, some, List, [], ◌∷◌, ◌++◌, ◌||◌, ◌&&◌, ◌==◌, select,
  if◌then◌else◌,
}
use freelancing_platform.Prelude.Int.{ℤ, pos, ◌+ℤ◌, ◌==ℤ◌, leb_ℤ}
use freelancing_platform.Database.Rows.Texts.{Text, Uuid}
use freelancing_platform.Database.Rows.Ledger.{credit}
use freelancing_platform.Database.Rows.Contract.{Milestone}
use freelancing_platform.Database.Rows.Dispute.{
  Outcome, release_to_freelancer, refund_client, split,
}
use freelancing_platform.Database.Rows.Payment.{PaymentIntent, captured, same_intent_status}
use freelancing_platform.Database.Environment.{
  Environment, ProviderResult, ProviderStatus, status_succeeded, api, runtime_error,
  validation_error, refund_failed,
}
use freelancing_platform.Database.Session.{Action, pure, gets, lift, require, ◌>>=◌, ◌>>◌, raise_if}
use freelancing_platform.Ledger.{Posting, Identity, get_or_create_account}
use freelancing_platform.Payments.Queries.{get_provider}
use freelancing_platform.Payments.Capture.{clearing_identity}
use freelancing_platform.Payments.Release.{wallet_identity, platform_identity}
use freelancing_platform.Payments.Settle.{latest}

-- What the two parties get.
pub record Amounts : Type 0 where
  pub award : ℤ
  pub refund : ℤ

-- `value not in (None, expected)`
abbrev pub conflicts : Option ℤ → ℤ → Bool
conflicts none expected = false
conflicts (some value) expected = not (value ==ℤ expected)

unfoldable pub split_amounts : ℤ → Option ℤ → Option ℤ → Action Amounts
split_amounts funded award refund = do
  a ← require award (api validation_error 422)
  r ← require refund (api validation_error 422)
  raise_if (leb_ℤ a (pos 0) || leb_ℤ r (pos 0)) (api validation_error 422)
  raise_if (not ((a +ℤ r) ==ℤ funded)) (api validation_error 422)
  pure (record { award = a; refund = r })

-- `_resolution_amounts`
unfoldable pub resolution_amounts : Outcome → ℤ → Option ℤ → Option ℤ → Action Amounts
resolution_amounts release_to_freelancer funded award refund = do
  raise_if (conflicts award funded || conflicts refund (pos 0)) (api validation_error 422)
  pure (record { award = funded; refund = pos 0 })
resolution_amounts refund_client funded award refund = do
  raise_if (conflicts award (pos 0) || conflicts refund funded) (api validation_error 422)
  pure (record { award = pos 0; refund = funded })
resolution_amounts split funded award refund = split_amounts funded award refund

-- An account that is credited, unless the amount is zero.
unfoldable pub credit_unless_zero : Identity → ℤ → Action (List Posting)
credit_unless_zero want amount = if amount ==ℤ pos 0 then pure [] else (do
  account ← get_or_create_account want
  pure (record { account = account; direction = credit; amount_minor = amount } ∷ []))

-- `_append_freelancer_postings`
unfoldable pub freelancer_postings : Uuid → Text → ℤ → ℤ → Action (List Posting)
freelancer_postings user currency net fee = do
  to_wallet ← credit_unless_zero (wallet_identity user currency) net
  to_platform ← credit_unless_zero (platform_identity currency) fee
  pure (to_wallet ++ to_platform)

abbrev pub funding_of : Uuid → List PaymentIntent → Option PaymentIntent
funding_of milestone intents =
    latest
      (select (λ i. i.milestone_id == milestone && same_intent_status i.status captured) intents)

-- `_captured_funding_intent`
unfoldable pub captured_intent_of : Uuid → Action PaymentIntent
captured_intent_of milestone = do
  found ← gets (λ db. funding_of milestone db.payment_intents)
  require found runtime_error

-- A refund that the provider has confirmed, with the posting to its clearing account.
pub record Confirmed : Type 0 where
  pub provider : Text
  pub reference : Text
  pub posting : Posting

abbrev has_succeeded : ProviderStatus → Bool
has_succeeded status_succeeded = true
has_succeeded _ = false

abbrev pub confirms : ProviderResult → ℤ → Text → Bool
confirms r amount currency =
    has_succeeded r.status && (r.amount_minor ==ℤ amount && r.currency == currency)

unfoldable pub clearing_posting : Text → Text → ℤ → Action Posting
clearing_posting provider currency amount = do
  clearing ← get_or_create_account (clearing_identity provider currency)
  pure (record { account = clearing; direction = credit; amount_minor = amount })

module _ (env : Environment) where
  -- `_confirm_provider_refund` from the provider on: it pays back at once, while the rows are locked.
  unfoldable pub pay_back : Uuid → Milestone → ℤ → Text → PaymentIntent → Text → Action Confirmed
  pay_back dispute m amount idempotency_key intent reference = do
    provider ← get_provider env intent.provider
    result ← lift (
        provider.refund reference amount m.currency
          (env.sha256 (env.dispute_key_text dispute idempotency_key)))
    raise_if (not (confirms result amount m.currency)) (api refund_failed 502)
    posting ← clearing_posting intent.provider m.currency amount
    pure (record { provider = intent.provider; reference = result.reference; posting = posting })

  unfoldable pub confirm_refund : Uuid → Milestone → ℤ → Text → Action Confirmed
  confirm_refund dispute m amount idempotency_key = do
    intent ← captured_intent_of m.id
    reference ← require intent.provider_reference runtime_error
    pay_back dispute m amount idempotency_key intent reference

  unfoldable pub confirm_unless_zero : Uuid → Milestone → ℤ → Text → Action (Option Confirmed)
  confirm_unless_zero dispute m amount idempotency_key =
      if amount ==ℤ pos 0
      then pure none
      else (do confirmed ← confirm_refund dispute m amount idempotency_key; pure (some confirmed))

abbrev pub posting_of : Option Confirmed → List Posting
posting_of none = []
posting_of (some c) = c.posting ∷ []
