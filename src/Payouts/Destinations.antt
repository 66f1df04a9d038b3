-- ===== src/Payouts/Destinations.antt =====
-- app/payouts/provider_accounts.py: an administrator sets or disables the account that a freelancer's
-- payouts go to. Its lookup is `resolve_payout_destination` in Payouts.
pub mod Resolved
use freelancing_platform.Prelude.{
  Bool, true, false, not, Option, none, some, List, [], ◌∷◌, ◌&&◌, ◌||◌, ◌==◌, find?, any,
}
use freelancing_platform.Database.Rows.Texts.{Text, Uuid}
use freelancing_platform.Database.Rows.Dispute.{is_freelancer_role, User, Role, freelancer_account}
use freelancing_platform.Database.Rows.Payout.{PayoutProviderAccount}
use freelancing_platform.Database.Rows.Event.{
  AuditState, destination_state, destination_configured, destination_disabled,
}
use freelancing_platform.Database.Tables.{Db}
use freelancing_platform.Database.Environment.{
  Environment, api, integrity_error, freelancer_not_found, payout_destination_conflict,
  payout_account_not_found,
}
use freelancing_platform.Database.Session.{
  Action, pure, raise, gets, lift, require, ◌>>=◌, ◌>>◌, raise_if, arriving, fresh_id, commit,
}
use freelancing_platform.Payments.Effects.{save_destination, add_destination, record_audit_event}
use freelancing_platform.Payments.Queries.{get_provider}

abbrev pub is_freelancer : Uuid → User → Bool
is_freelancer id u = u.id == id && any is_freelancer_role u.roles

abbrev pub is_account_of : Uuid → Text → PayoutProviderAccount → Bool
is_account_of user provider a = a.freelancer_user_id == user && a.provider == provider

abbrev pub is_taken_by_other : Uuid → Text → Text → PayoutProviderAccount → Bool
is_taken_by_other user provider reference a =
    a.provider == provider
    && (a.external_account_reference == reference && not (a.freelancer_user_id == user))

-- Both unique constraints of `payout_provider_accounts`.
abbrev pub destination_clashes : PayoutProviderAccount → PayoutProviderAccount → Bool
destination_clashes a b =
    is_account_of a.freelancer_user_id a.provider b
    || (b.provider == a.provider && b.external_account_reference == a.external_account_reference)

-- `_provider_account_state`
abbrev pub state_of_destination : PayoutProviderAccount → AuditState
state_of_destination a =
    destination_state true a.provider (some a.is_active) (some a.external_account_reference)

abbrev pub first_account : Uuid → Uuid → Text → Text → PayoutProviderAccount
first_account id user provider reference = record {
  id = id;
  freelancer_user_id = user;
  provider = provider;
  external_account_reference = reference;
  is_active = true;
}

abbrev pub reassigned : Text → PayoutProviderAccount → PayoutProviderAccount
reassigned reference a = record a { external_account_reference = reference; is_active = true }

module _ (env : Environment) where
  unfoldable pub audit_configured :
      User → AuditState → PayoutProviderAccount → Action PayoutProviderAccount
  audit_configured administrator before a = do
    record_audit_event env destination_configured a.id (some administrator.id) (some before)
        (some (state_of_destination a))
    commit
    pure a

  -- The row that is flushed: a new one, which another call may have forestalled, or the old one.
  unfoldable pub write_destination :
      User → Uuid → Text → Text → Option PayoutProviderAccount → Action PayoutProviderAccount
  write_destination administrator user provider reference none = do
    id ← fresh_id
    let a = first_account id user provider reference
    others ← arriving
    raise_if (any (destination_clashes a) others.destinations) integrity_error
    add_destination a
    audit_configured administrator (destination_state false provider none none) a
  write_destination administrator user provider reference (some old) = do
    others ← arriving
    raise_if (any (destination_clashes (reassigned reference old)) others.destinations)
        integrity_error
    save_destination (reassigned reference old)
    audit_configured administrator (state_of_destination old) (reassigned reference old)

  unfoldable pub assign_destination : User → Uuid → Text → Text → Action PayoutProviderAccount
  assign_destination administrator user provider reference = do
    taken ← gets (λ db. any (is_taken_by_other user provider reference) db.payout_provider_accounts)
    raise_if taken (api payout_destination_conflict 409)
    found ← gets (λ db. find? (is_account_of user provider) db.payout_provider_accounts)
    write_destination administrator user provider reference found

  -- administrator, freelancer, provider, reference
  unfoldable pub configure_payout_provider_account :
      User → Uuid → Text → Text → Action PayoutProviderAccount
  configure_payout_provider_account administrator user provider_name reference = do
    known ← gets (λ db. any (is_freelancer user) db.users)
    raise_if (not known) (api freelancer_not_found 404)
    provider ← get_provider env provider_name
    verified ← lift (provider.validate_payout_destination (env.strip reference))
    assign_destination administrator user provider.name verified

  unfoldable pub disable_payout_provider_account : User → Uuid → Text → Action PayoutProviderAccount
  disable_payout_provider_account administrator user provider_name = do
    let name = env.lower (env.strip provider_name)
    found ← gets (λ db. find? (is_account_of user name) db.payout_provider_accounts)
    old ← require found (api payout_account_not_found 404)
    let a = record old { is_active = false }
    save_destination a
    record_audit_event env destination_disabled a.id (some administrator.id)
        (some (state_of_destination old)) (some (state_of_destination a))
    commit
    pure a
