-- ===== src/Disputes/Confirmation.antt =====
-- The refund of a resolution: `_confirm_provider_refund` of app/disputes/service.py.
use freelancing_platform.Prelude.{
  arith, Bool, true, false, not-false, ◌≡◌, ◌∙◌, refl, ap, sym, subst, Option, none, some, List, [],
  ◌∷◌, if◌then◌else◌,
}
use freelancing_platform.Prelude.Int.{ℤ, pos, ◌==ℤ◌, ==ℤ_true}
use freelancing_platform.Database.Rows.Texts.{Text, Uuid}
use freelancing_platform.Database.Rows.Ledger.{LedgerAccount, credit}
use freelancing_platform.Database.Rows.Contract.{Milestone}
use freelancing_platform.Database.Rows.Payment.{PaymentIntent}
use freelancing_platform.Database.Environment.{Environment, PaymentProvider, ProviderResult, ok}
use freelancing_platform.Database.Session.{Session, pure, ◌>>=◌}
use freelancing_platform.Database.Session.Steps.{
  pure_returned, bind_inv, bind-reader, bind-lookup, bind-require, bind-raise_if, bind-lift,
}
use freelancing_platform.Ledger.{Posting, same_identity}
use freelancing_platform.Ledger.Account.{get_or_create_account-IsStored}
use freelancing_platform.Payments.Queries.{get_provider}
use freelancing_platform.Payments.Capture.{clearing_identity}
use freelancing_platform.Payments.Queries.Found.{get_provider-reads}
use freelancing_platform.Disputes.Amounts.{
  funding_of, captured_intent_of, Confirmed, confirms, clearing_posting, pay_back, confirm_refund,
  confirm_unless_zero, posting_of,
}
use freelancing_platform.Disputes.Credits.{postings_to}

-- The provider of the payment that funded the milestone has paid the amount back, and its clearing
-- account is credited with it.
pub record IsConfirmedRefund (env : Environment) (dispute : Uuid) (m : Milestone) (amount : ℤ)
    (key : Text) (intents : List PaymentIntent) (c : Confirmed) : Type 0 where
  pub intent : PaymentIntent
  pub funded_by : funding_of m.id intents ≡ some intent
  pub reference : Text
  pub referenced : intent.provider_reference ≡ some reference
  pub provider : PaymentProvider
  pub known : (s : Session) → (get_provider env intent.provider s).0 ≡ ok provider
  pub result : ProviderResult
  pub answered :
      provider.refund reference amount m.currency (env.sha256 (env.dispute_key_text dispute key))
      ≡ ok result
  pub confirmed : confirms result amount m.currency ≡ true
  pub clearing_account :
      same_identity (clearing_identity intent.provider m.currency) c.posting.account ≡ true
  pub posted :
      c.posting ≡ record { account = c.posting.account; direction = credit; amount_minor = amount }

-- The registry reads no rows.
get_provider_anywhere :
    (env : Environment) (name : Text) (p : PaymentProvider) (s t : Session)
    → (get_provider env name s).0 ≡ ok p
    → (get_provider env name t).0 ≡ ok p
unfolding get_provider ◌>>=◌
get_provider_anywhere env name p s t h = ground arith

clearing_posting_returned :
    (provider currency : Text) (amount : ℤ) (s : Session) (p : Posting)
    → (clearing_posting provider currency amount s).0 ≡ ok p
    → (same_identity (clearing_identity provider currency) p.account ≡ true)
      × (p ≡ record { account = p.account; direction = credit; amount_minor = amount })
unfolding clearing_posting
clearing_posting_returned provider currency amount s p h =
    let (a, found, to) = bind_inv _ _ s p h in
    let is_posting = pure_returned _ p _ (sym (ap (λ x. x.0) to) ∙ h) in
    (
      ap (λ (q : Posting). same_identity (clearing_identity provider currency) q.account) is_posting
          ∙ (get_or_create_account-IsStored _ a s found).identity,
      is_posting
          ∙ ap
              (λ (q : Posting). record {
                account = q.account;
                direction = credit;
                amount_minor = amount;
              })
              (sym is_posting),
    )

-- A refund is confirmed by the provider, unless nothing is to be refunded.
abbrev pub Refunded :
    Environment → Uuid → Milestone → ℤ → Text → List PaymentIntent → Option Confirmed → Type 0
Refunded env dispute m amount key intents none = amount ≡ pos 0
Refunded env dispute m amount key intents (some c) =
    IsConfirmedRefund env dispute m amount key intents c

module _ (env : Environment) (dispute : Uuid) (m : Milestone) (amount : ℤ) (key : Text)
    (s : Session) where
  abbrev RefundedHere : Option Confirmed → Type 0
  RefundedHere = Refunded env dispute m amount key s.live.payment_intents

  pay_back_returned :
      (i : PaymentIntent) (reference : Text) (c : Confirmed)
      → funding_of m.id s.live.payment_intents ≡ some i
      → i.provider_reference ≡ some reference
      → (pay_back env dispute m amount key i reference s).0 ≡ ok c
      → IsConfirmedRefund env dispute m amount key s.live.payment_intents c
  unfolding pay_back
  pay_back_returned i reference c funded referenced h =
      let (p, known, e3) = bind-reader _ _ s c (get_provider-reads env i.provider s) h in
      let r3 = sym (ap (λ x. x.0) e3) ∙ h in
      let (result, answered, e4) = bind-lift _ _ s c r3 in
      let r4 = sym (ap (λ x. x.0) e4) ∙ r3 in
      let (p5, e5) = bind-raise_if _ _ _ s c r4 in
      let r5 = sym (ap (λ x. x.0) e5) ∙ r4 in
      let (posting, ep, e6) = bind_inv _ _ s c r5 in
      let is_c = pure_returned _ c _ (sym (ap (λ x. x.0) e6) ∙ r5) in
      let (account, posted) = clearing_posting_returned i.provider m.currency amount s posting ep in
      subst (IsConfirmedRefund env dispute m amount key s.live.payment_intents) (sym is_c) (record {
        intent = i;
        funded_by = funded;
        reference = reference;
        referenced = referenced;
        provider = p;
        known = λ t. get_provider_anywhere env i.provider p s t (ap (λ x. x.0) known);
        result = result;
        answered = answered;
        confirmed = not-false _ p5;
        clearing_account = account;
        posted = posted;
      })

  confirm_refund_returned :
      (c : Confirmed)
      → (confirm_refund env dispute m amount key s).0 ≡ ok c
      → IsConfirmedRefund env dispute m amount key s.live.payment_intents c
  unfolding confirm_refund captured_intent_of
  confirm_refund_returned c h =
      let (i, funded, e1) = bind-lookup _ _ _ s c h in
      let r1 = sym (ap (λ x. x.0) e1) ∙ h in
      let (reference, referenced, e2) = bind-require i.provider_reference _ _ s c r1 in
      pay_back_returned i reference c funded referenced (sym (ap (λ x. x.0) e2) ∙ r1)

  confirms_by_test :
      (b : Bool)
      → (amount ==ℤ pos 0) ≡ b
      → (x : Option Confirmed)
      → ((if b then pure none else (confirm_refund env dispute m amount key >>= λ c. pure (some c)))
          s).0
        ≡ ok x
      → RefundedHere x
  confirms_by_test true zero x h =
      subst RefundedHere (sym (pure_returned none x s h)) (==ℤ_true amount (pos 0) zero)
  confirms_by_test false nonzero x h =
      let (c, found, to) =
        bind_inv (confirm_refund env dispute m amount key) (λ c. pure (some c)) s x h in
      subst RefundedHere (sym (pure_returned (some c) x _ (sym (ap (λ x. x.0) to) ∙ h)))
        (confirm_refund_returned c found)

  pub confirm_unless_zero_returned :
      (x : Option Confirmed)
      → (confirm_unless_zero env dispute m amount key s).0 ≡ ok x
      → RefundedHere x
  unfolding confirm_unless_zero
  confirm_unless_zero_returned x h = confirms_by_test (amount ==ℤ pos 0) refl x h

-- The clearing account that a confirmed refund credits.
abbrev pub clearing_of : Option Confirmed → Option LedgerAccount
clearing_of none = none
clearing_of (some c) = some c.posting.account

pub posting_of-postings_to :
    (env : Environment) (dispute : Uuid) (m : Milestone) (amount : ℤ) (key : Text)
    (intents : List PaymentIntent) (x : Option Confirmed)
    → Refunded env dispute m amount key intents x
    → posting_of x ≡ postings_to (clearing_of x) amount
posting_of-postings_to env dispute m amount key intents none r = refl
posting_of-postings_to env dispute m amount key intents (some c) r = ap (λ p. p ∷ []) r.posted
