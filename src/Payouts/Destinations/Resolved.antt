-- ===== src/Payouts/Destinations/Resolved.antt =====
-- A destination that is configured is the one that payouts go to: app/payouts/provider_accounts.py.
use freelancing_platform.Payments.Queries.Found.{get_provider-reads}
use freelancing_platform.Prelude.{
  true, false, Option, none, some, List, ◌∷◌, ◌≡◌, refl, sym, ap, subst, ◌∙◌, ◌==◌, find?,
  find?_passes, if◌then◌else◌, arith,
}
use freelancing_platform.Database.Rows.Texts.{Text, Uuid}
use freelancing_platform.Database.Rows.Dispute.{User}
use freelancing_platform.Database.Rows.Payout.{PayoutProviderAccount}
use freelancing_platform.Database.Rows.Event.{AuditState, destination_state}
use freelancing_platform.Database.Tables.{replace}
use freelancing_platform.Database.Tables.Replaced.{find?-replace_by}
use freelancing_platform.Database.Environment.{
  Environment, PaymentProvider, ok, api, payout_destination_not_configured,
}
use freelancing_platform.Database.Session.{Session, Action, pure, require, ◌>>=◌, ◌>>◌}
use freelancing_platform.Database.Session.Steps.{
  bind-gets, bind-arriving, bind-raise_if, bind-reader, bind-lift, bind-fresh_id, after_id, ok_only,
}
use freelancing_platform.Payments.Effects.{save_destination, add_destination, record_audit_event}
use freelancing_platform.Payments.Queries.{get_provider}
use freelancing_platform.Payouts.{
  is_destination_of, configured_destination, resolve_payout_destination,
}
use freelancing_platform.Payouts.Destinations.{
  is_account_of, first_account, reassigned, state_of_destination, audit_configured,
  write_destination, assign_destination, configure_payout_provider_account,
}

destination_found :
    (user : Uuid) (name : Text) (s : Session) (a : PayoutProviderAccount)
    → find? (is_destination_of user name) s.live.payout_provider_accounts ≡ some a
    → configured_destination user name s ≡ (ok a.external_account_reference, s)
unfolding configured_destination ◌>>=◌
destination_found user name s a found =
    ap
      (λ (o : Option PayoutProviderAccount).
        (require o (api payout_destination_not_configured 409) >>= λ account.
        pure account.external_account_reference)
          s)
      found

-- The row stands committed and is found as the destination.
pub record IsDestination (user : Uuid) (provider reference : Text) (a : PayoutProviderAccount)
    (s : Session) : Type 0 where
  pub is_of : a.provider ≡ provider
  pub refers : a.external_account_reference ≡ reference
  pub found : find? (is_destination_of user provider) s.live.payout_provider_accounts ≡ some a
  pub committed : s.saved ≡ s.live

module _ (env : Environment) (administrator : User) where
  abbrev after_write :
      Action (Unit {0}) → AuditState → PayoutProviderAccount → Action PayoutProviderAccount
  after_write write before a = write >> audit_configured env administrator before a

  abbrev Stores :
      Action PayoutProviderAccount
      → PayoutProviderAccount
      → List PayoutProviderAccount
      → Session
      → Type 0
  Stores m a accounts s =
      ((m s).0 ≡ ok a)
      × ((m s).1.live.payout_provider_accounts ≡ accounts)
      × ((m s).1.saved ≡ (m s).1.live)

  add_run :
      (a : PayoutProviderAccount) (before : AuditState) (s : Session)
      → Stores (after_write (add_destination a) before a) a (a ∷ s.live.payout_provider_accounts) s
  unfolding add_destination audit_configured record_audit_event ◌>>=◌
  add_run a before s = (refl, refl, refl)

  save_run :
      (a : PayoutProviderAccount) (before : AuditState) (s : Session)
      → Stores
          (after_write (save_destination a) before a)
          a
          (replace (λ r. r.id) a s.live.payout_provider_accounts)
          s
  unfolding save_destination audit_configured record_audit_event ◌>>=◌
  save_run a before s = (refl, refl, refl)

  -- A stored row that is found as the destination.
  stored-IsDestination :
      (user : Uuid) (provider reference : Text) (row a : PayoutProviderAccount)
      (m : Action PayoutProviderAccount) (accounts : List PayoutProviderAccount) (s : Session)
      → Stores m row accounts s
      → (m s).0 ≡ ok a
      → row.provider ≡ provider
      → row.external_account_reference ≡ reference
      → find? (is_destination_of user provider) accounts ≡ some row
      → IsDestination user provider reference a (m s).1
  stored-IsDestination user provider reference row a m accounts s (stored, table, committed)
        returned is_of refers found =
      let same : row ≡ a = ok_only row a (sym stored ∙ returned) in
      subst (λ r. IsDestination user provider reference r (m s).1) same
        (record {
          is_of = is_of;
          refers = refers;
          found = ap (find? (is_destination_of user provider)) table ∙ found;
          committed = committed;
        })

  first_found :
      (id user : Uuid) (provider reference : Text) (rest : List PayoutProviderAccount)
      → find? (is_destination_of user provider) (first_account id user provider reference ∷ rest)
        ≡ some (first_account id user provider reference)
  first_found id user provider reference rest = ground arith

  write_destination_returned :
      (user : Uuid) (provider reference : Text) (found : Option PayoutProviderAccount) (s : Session)
      (a : PayoutProviderAccount)
      → find? (is_account_of user provider) s.live.payout_provider_accounts ≡ found
      → (write_destination env administrator user provider reference found s).0 ≡ ok a
      → IsDestination user provider reference a
          (write_destination env administrator user provider reference found s).1
  unfolding write_destination
  write_destination_returned user provider reference none s a found returned =
      let e1 = bind-fresh_id _ s in
      let r1 = sym (ap (λ x. x.0) e1) ∙ returned in
      let e2 = bind-arriving _ _ in
      let r2 = sym (ap (λ x. x.0) e2) ∙ r1 in
      let (p3, e3) = bind-raise_if _ _ _ _ a r2 in
      let r3 = sym (ap (λ x. x.0) e3) ∙ r2 in
      let row = first_account s.live.next_id user provider reference in
      let before = destination_state false provider none none in
      subst (λ x. IsDestination user provider reference a x.1) (sym (e1 ∙ e2 ∙ e3))
        (stored-IsDestination user provider reference row a
          (after_write (add_destination row) before row) _ (after_id s)
          (add_run row before (after_id s)) r3 refl refl
          (first_found s.live.next_id user provider reference _))
  write_destination_returned user provider reference (some old) s a found returned =
      let e1 = bind-arriving _ s in
      let r1 = sym (ap (λ x. x.0) e1) ∙ returned in
      let (p2, e2) = bind-raise_if _ _ _ s a r1 in
      let r2 = sym (ap (λ x. x.0) e2) ∙ r1 in
      let row = reassigned reference old in
      let before = state_of_destination old in
      let test = find?_passes (is_account_of user provider) s.live.payout_provider_accounts found in
      subst (λ x. IsDestination user provider reference a x.1) (sym (e1 ∙ e2))
        (stored-IsDestination user provider reference row a
          (after_write (save_destination row) before row) _ s (save_run row before s) r2
          (provider_of user provider old test) refl
          (find?-replace_by (λ (r : PayoutProviderAccount). r.id) row (is_account_of user provider)
            (is_destination_of user provider) s.live.payout_provider_accounts old refl found
            (active_destination user provider reference old test)
            (destination_is_account user provider)))
    where
      provider_of :
          (user : Uuid) (provider : Text) (old : PayoutProviderAccount)
          → is_account_of user provider old ≡ true
          → old.provider ≡ provider
      provider_of user provider old test = ground arith

      active_destination :
          (user : Uuid) (provider reference : Text) (old : PayoutProviderAccount)
          → is_account_of user provider old ≡ true
          → is_destination_of user provider (reassigned reference old) ≡ true
      active_destination user provider reference old test = ground arith

      destination_is_account :
          (user : Uuid) (provider : Text) (x : PayoutProviderAccount)
          → is_destination_of user provider x ≡ true
          → is_account_of user provider x ≡ true
      destination_is_account user provider x test = ground arith

of_own_fields :
    {user : Uuid} {provider reference : Text} {a : PayoutProviderAccount} {s : Session}
    → IsDestination user provider reference a s
    → IsDestination user a.provider a.external_account_reference a s
of_own_fields {user = user} {a = a} {s = s} d = record {
  is_of = refl;
  refers = refl;
  found =
      subst (λ n. find? (is_destination_of user n) s.live.payout_provider_accounts ≡ some a)
        (sym d.is_of) d.found;
  committed = d.committed;
}

module _ (env : Environment) (administrator : User) (user : Uuid) (name reference : Text)
    (s : Session) (a : PayoutProviderAccount) where
  assign_destination_returned :
      (provider verified : Text)
      → (assign_destination env administrator user provider verified s).0 ≡ ok a
      → IsDestination user provider verified a
          (assign_destination env administrator user provider verified s).1
  unfolding assign_destination
  assign_destination_returned provider verified returned =
      let e1 = bind-gets _ _ s in
      let r1 = sym (ap (λ x. x.0) e1) ∙ returned in
      let (p2, e2) = bind-raise_if _ _ _ s a r1 in
      let r2 = sym (ap (λ x. x.0) e2) ∙ r1 in
      let e3 = bind-gets _ _ s in
      let r3 = sym (ap (λ x. x.0) e3) ∙ r2 in
      subst (λ x. IsDestination user provider verified a x.1) (sym (e1 ∙ e2 ∙ e3))
        (write_destination_returned env administrator user provider verified _ s a refl r3)

  configured-IsDestination :
      (configure_payout_provider_account env administrator user name reference s).0 ≡ ok a
      → (p : PaymentProvider) × (get_provider env name s ≡ (ok p, s))
        × (p.validate_payout_destination (env.strip reference) ≡ ok a.external_account_reference)
        × IsDestination user a.provider a.external_account_reference a
            (configure_payout_provider_account env administrator user name reference s).1
  unfolding configure_payout_provider_account
  configured-IsDestination returned =
      let e1 = bind-gets _ _ s in
      let r1 = sym (ap (λ x. x.0) e1) ∙ returned in
      let (p2, e2) = bind-raise_if _ _ _ s a r1 in
      let r2 = sym (ap (λ x. x.0) e2) ∙ r1 in
      let (p, is_p, e3) = bind-reader _ _ s a (get_provider-reads env name s) r2 in
      let r3 = sym (ap (λ x. x.0) e3) ∙ r2 in
      let (verified, valid, e4) = bind-lift _ _ s a r3 in
      let r4 = sym (ap (λ x. x.0) e4) ∙ r3 in
      let d = assign_destination_returned p.name verified r4 in
      (
        p,
        is_p,
        valid ∙ ap ok (sym d.refers),
        subst (λ x. IsDestination user a.provider a.external_account_reference a x.1)
            (sym (e1 ∙ e2 ∙ e3 ∙ e4)) (of_own_fields d),
      )

  -- An account that is configured is one that its provider has verified; it is committed, and every
  -- later lookup of the destination under the provider's name returns its reference and writes nothing.
  -- This is given that the name is not the sandbox's, under which a payout goes to the user's own id.
  pub resolve_payout_destination-configure :
      (configure_payout_provider_account env administrator user name reference s).0 ≡ ok a
      → (lookup : Text) → env.lower (env.strip lookup) ≡ a.provider
      → (a.provider == env.sandbox_name) ≡ false
      → let after = (configure_payout_provider_account env administrator user name reference s).1 in
        (p : PaymentProvider) × (get_provider env name s ≡ (ok p, s))
        × (p.validate_payout_destination (env.strip reference) ≡ ok a.external_account_reference)
        × (after.saved ≡ after.live)
        × (resolve_payout_destination env user lookup after
            ≡ (ok a.external_account_reference, after))
  unfolding resolve_payout_destination
  resolve_payout_destination-configure returned lookup named other =
      let after = (configure_payout_provider_account env administrator user name reference s).1 in
      let (p, is_p, valid, d) = configured-IsDestination returned in
      (
        p,
        is_p,
        valid,
        d.committed,
        ap
              (λ n.
                (if n == env.sandbox_name
                    then pure (env.uuid_text user)
                    else configured_destination user n)
                  after)
              named
            ∙ ap
                (λ b.
                  (if b then pure (env.uuid_text user) else configured_destination user a.provider)
                    after)
                other
            ∙ destination_found user a.provider after a d.found,
      )
