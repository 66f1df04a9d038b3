-- ===== src/Payments/Reconcile/Agreement.antt =====
-- What a reconciliation finds: `reconcile_provider` of app/payments/service.py compares each captured
-- payment with the provider's transaction and with the funding row.
use freelancing_platform.Prelude.{
  Bool, true, false, if◌then◌else◌, ◌≡◌, ◌↔◌, refl, sym, ap, ◌∙◌, Option, none, some, List, [], ◌∷◌,
  ◌++◌, ◌==◌, find?, All, arith,
}
use freelancing_platform.Prelude.Int.{==ℤ_true}
use freelancing_platform.Database.Rows.Texts.{Text}
use freelancing_platform.Database.Rows.Payment.{
  PaymentIntent, MilestoneFunding, Discrepancy, provider_or_ledger_mismatch,
}
use freelancing_platform.Database.Environment.{PaymentProvider, ProviderResult, ok}
use freelancing_platform.Database.Session.{Session, pure, lift, ◌>>=◌}
use freelancing_platform.Database.Session.Steps.{ok_only, bind_inv, bind-ok, bind-reader}
use freelancing_platform.Database.Session.Keeps.{Keeps, keeps_rules}
use freelancing_platform.Payments.Reconcile.{
  is_settled, agrees, compare_remote, check_reference, check_intents,
}

abbrev pub funding_row : PaymentIntent → List MilestoneFunding → Option MilestoneFunding
funding_row i fundings = find? (λ f. f.payment_intent_id == i.id) fundings

-- A payment that the provider confirms: it has a reference, the provider's transaction under it has
-- the amount and currency of the payment and is settled, and a milestone was funded with it.
pub record IsConfirmed (p : PaymentProvider) (fundings : List MilestoneFunding) (i : PaymentIntent)
    : Type 0 where
  pub reference : Text
  pub referenced : i.provider_reference ≡ some reference
  pub remote : ProviderResult
  pub answered : p.get_transaction reference ≡ ok remote
  pub row : MilestoneFunding
  pub funded : funding_row i fundings ≡ some row
  pub amount : remote.amount_minor ≡ i.amount_minor
  pub currency : remote.currency ≡ i.currency
  pub settled : is_settled remote.status ≡ true

agrees_only :
    (i : PaymentIntent) (remote : ProviderResult) (o : Option MilestoneFunding)
    → agrees i remote o ≡ true
    → ((row : MilestoneFunding) × (o ≡ some row))
      × (remote.amount_minor ≡ i.amount_minor)
      × (remote.currency ≡ i.currency)
      × (is_settled remote.status ≡ true)
agrees_only i remote none h = ground arith
agrees_only i remote (some row) h = (
  (row, refl),
  ==ℤ_true remote.amount_minor i.amount_minor (ground arith),
  ground arith,
  ground arith,
)

agrees_if :
    (i : PaymentIntent) (remote : ProviderResult) (row : MilestoneFunding)
    → remote.amount_minor ≡ i.amount_minor
    → remote.currency ≡ i.currency
    → is_settled remote.status ≡ true
    → agrees i remote (some row) ≡ true
agrees_if i remote row amount currency settled = ground arith

no_discrepancy : (t : Bool) (d : Discrepancy) → (if t then [] else d ∷ []) ≡ [] → t ≡ true
no_discrepancy true d h = refl
no_discrepancy false d h = ground arith

module _ (p : PaymentProvider) (i : PaymentIntent) (s : Session) where
  compared_only :
      (r : Text)
      → i.provider_reference ≡ some r
      → (compare_remote p i r s).0 ≡ ok []
      → IsConfirmed p s.live.milestone_fundings i
  unfolding compare_remote ◌>>=◌
  compared_only r reference h =
      let (remote, e, to) = bind_inv (lift (p.get_transaction r)) _ s [] h in
      let ((row, found), amount, currency, settled) =
        agrees_only i remote (funding_row i s.live.milestone_fundings)
          (no_discrepancy _ _ (ok_only _ [] (sym (ap (λ x. x.0) to) ∙ h))) in
      record {
        reference = r;
        referenced = reference;
        remote = remote;
        answered = e;
        row = row;
        funded = found;
        amount = amount;
        currency = currency;
        settled = settled;
      }

  checked_only :
      (o : Option Text)
      → i.provider_reference ≡ o
      → (check_reference p i o s).0 ≡ ok []
      → IsConfirmed p s.live.milestone_fundings i
  unfolding check_reference ◌>>=◌
  checked_only none e h = ground arith
  checked_only (some r) e h = compared_only r e h

  checked_if :
      IsConfirmed p s.live.milestone_fundings i
      → check_reference p i i.provider_reference s ≡ (ok [], s)
  unfolding check_reference compare_remote ◌>>=◌
  checked_if c =
      let verdict = agrees_if i c.remote c.row c.amount c.currency c.settled in
      ap (λ o. check_reference p i o s) c.referenced
      ∙ bind-ok (lift (p.get_transaction c.reference)) _ (λ j. (c.answered j, s))
      ∙ ap
          (λ (t : Bool). (
            ok (
                if t
                then []
                else record {
                  payment_intent_id = i.id;
                  provider_reference = some c.reference;
                  reason = provider_or_ledger_mismatch;
                }
                  ∷ []),
            s,
          ))
          (ap (agrees i c.remote) c.funded ∙ verdict)

nil_both : (xs ys : List Discrepancy) → xs ++ ys ≡ [] → (xs ≡ []) × (ys ≡ [])
nil_both [] ys h = (refl, h)
nil_both (x ∷ xs) ys h = ground arith

module _ (p : PaymentProvider) (s : Session) where
  check_reference_reads :
      (i : PaymentIntent) (o : Option Text) → Keeps (λ x. x ≡ s) (check_reference p i o)
  unfolding check_reference compare_remote
  check_reference_reads i none = search keeps_rules
  check_reference_reads i (some r) = search keeps_rules

  intents_only :
      (is : List PaymentIntent)
      → (check_intents p is s).0 ≡ ok []
      → All (IsConfirmed p s.live.milestone_fundings) is
  unfolding check_intents ◌>>=◌
  intents_only [] h = tt
  intents_only (i ∷ rest) h =
      let (first, e1, to1) =
        bind-reader _ _ s [] (check_reference_reads i i.provider_reference) h in
      let r1 = sym (ap (λ x. x.0) to1) ∙ h in
      let (others, e2, to2) = bind_inv (check_intents p rest) _ s [] r1 in
      let r2 = sym (ap (λ x. x.0) to2) ∙ r1 in
      let (none_first, none_later) = nil_both first others (ok_only (first ++ others) [] r2) in
      (
        checked_only p i s i.provider_reference refl (ap (λ x. x.0) e1 ∙ ap ok none_first),
        intents_only rest (e2 ∙ ap ok none_later),
      )

  intents_if :
      (is : List PaymentIntent)
      → All (IsConfirmed p s.live.milestone_fundings) is
      → check_intents p is s ≡ (ok [], s)
  unfolding check_intents ◌>>=◌
  intents_if [] _ = refl
  intents_if (i ∷ rest) (c, cs) =
      bind-ok (check_reference p i i.provider_reference)
        (λ first. check_intents p rest >>= λ others. pure (first ++ others)) (checked_if p i s c)
      ∙ bind-ok (check_intents p rest) (λ others. pure others) (intents_if rest cs)

  -- The loop of a reconciliation returns an empty list of discrepancies exactly when the provider
  -- confirms every payment of the list.
  pub check_intents-IsConfirmed_iff :
      (is : List PaymentIntent)
      → ((check_intents p is s).0 ≡ ok []) ↔ All (IsConfirmed p s.live.milestone_fundings) is
  check_intents-IsConfirmed_iff is =
      (intents_only is, λ all_confirmed. ap (λ x. x.0) (intents_if is all_confirmed))
