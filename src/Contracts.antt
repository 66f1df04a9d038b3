-- ===== src/Contracts.antt =====
-- app/contracts/service.py and app/contracts/policies.py: reading, signing and cancelling a contract.
pub mod FullySigned
pub mod Signed
pub mod Cancelled
pub mod Creation
pub mod Created
pub mod Drawn
use freelancing_platform.Prelude.{
  Bool, true, false, not, Option, none, some, List, [], ◌∷◌, ◌&&◌, ◌||◌, ◌==◌, find?, all, any,
  select, if◌then◌else◌,
}
use freelancing_platform.Database.Rows.Texts.{Text, Uuid}
use freelancing_platform.Database.Rows.Contract.{
  Contract, ContractParty, ContractVersion, ContractSignature, active, cancelled,
  same_contract_status, Milestone, created, same_status,
}
use freelancing_platform.Database.Rows.Payment.{PaymentIntent, intent_pending, same_intent_status}
use freelancing_platform.Database.Rows.Event.{
  AuditState, contract_state, contract_signed, contract_activated, contract_cancelled,
}
use freelancing_platform.Database.Tables.{Db}
use freelancing_platform.Database.Environment.{
  Environment, api, runtime_error, contract_not_found, forbidden, invalid_state, document_changed,
  idempotency_key_reused, signature_conflict,
}
use freelancing_platform.Database.Session.{
  Action, pure, gets, require, ◌>>=◌, ◌>>◌, raise_if, arriving, fresh_id, commit,
}
use freelancing_platform.Payments.Effects.{save_contract, add_signature, record_audit_event}

abbrev pub contract_in : Uuid → Db → Option Contract
contract_in id db = find? (λ c. c.id == id) db.contracts

-- `get_contract` and `_get_contract_for_update`
unfoldable pub get_contract : Uuid → Action Contract
get_contract id = do found ← gets (contract_in id); require found (api contract_not_found 404)

abbrev pub is_contract_party : Uuid → Contract → Bool
is_contract_party user c = user == c.employer_user_id || user == c.freelancer_user_id

unfoldable pub get_contract_for_user : Uuid → Uuid → Action Contract
get_contract_for_user user id = do
  c ← get_contract id
  raise_if (not (is_contract_party user c)) (api forbidden 403)
  pure c

unfoldable pub get_project_contract : Uuid → Action Contract
get_project_contract project = do
  found ← gets (λ db. find? (λ c. c.project_id == project) db.contracts)
  require found (api contract_not_found 404)

unfoldable pub get_project_contract_for_user : Uuid → Uuid → Action Contract
get_project_contract_for_user user project = do
  c ← get_project_contract project
  raise_if (not (is_contract_party user c)) (api forbidden 403)
  pure c

abbrev pub version_in : Contract → Db → Option ContractVersion
version_in c db =
    find? (λ v. v.contract_id == c.id && v.version_number == c.current_version) db.contract_versions

-- `_current_contract_version`
unfoldable pub current_contract_version : Contract → Action ContractVersion
current_contract_version c = do found ← gets (version_in c); require found runtime_error

-- `_contract_state`
abbrev pub state_of : Contract → ContractVersion → Option Bool → AuditState
state_of c v signer = contract_state c.status c.current_version v.document_hash signer

-- Both unique constraints of `contract_signatures`.
abbrev pub signature_clashes : ContractSignature → ContractSignature → Bool
signature_clashes s t =
    (t.contract_version_id == s.contract_version_id && t.user_id == s.user_id)
    || (t.user_id == s.user_id && t.idempotency_key_hash == s.idempotency_key_hash)

abbrev pub is_signed_by : ContractVersion → Uuid → Db → Bool
is_signed_by v user db =
    any (λ s. s.contract_version_id == v.id && s.user_id == user) db.contract_signatures

abbrev pub required_parties : Contract → List ContractParty
required_parties c = select (λ p. p.required_signature) c.parties

abbrev pub is_empty : List ContractParty → Bool
is_empty [] = true
is_empty (_ ∷ _) = false

-- `required_user_ids and required_user_ids <= signed_user_ids`
abbrev pub is_fully_signed : Contract → ContractVersion → Db → Bool
is_fully_signed c v db =
    not (is_empty (required_parties c))
    && all (λ p. is_signed_by v p.user_id db) (required_parties c)

abbrev pub new_signature : Uuid → ContractVersion → Uuid → Text → ContractSignature
new_signature id v user key_hash = record {
  id = id;
  contract_version_id = v.id;
  user_id = user;
  document_hash = v.document_hash;
  idempotency_key_hash = key_hash;
}

-- The check of the milestones and payments of an active contract.
abbrev pub has_started : ContractVersion → Db → Bool
has_started v db =
    any (λ m. m.contract_version_id == v.id && not (same_status m.status created)) db.milestones

abbrev pub awaits_payment : ContractVersion → Db → Bool
awaits_payment v db =
    any
      (λ i.
        same_intent_status i.status intent_pending
        && any (λ m. m.contract_version_id == v.id && m.id == i.milestone_id) db.milestones)
      db.payment_intents

unfoldable pub check_unstarted : ContractVersion → Action (Unit {0})
check_unstarted v = do
  started ← gets (has_started v)
  raise_if started (api invalid_state 409)
  awaiting ← gets (awaits_payment v)
  raise_if awaiting (api invalid_state 409)

unfoldable pub require_unstarted : Contract → ContractVersion → Action (Unit {0})
require_unstarted c v = if same_contract_status c.status active then check_unstarted v else pure tt

module _ (env : Environment) where
  abbrev pub activated : Contract → Contract
  activated c = record c { status = active; activated_at = some env.now }

  unfoldable pub activate_if : Bool → Contract → ContractVersion → Uuid → Action (Unit {0})
  activate_if true c v user = do
    save_contract (activated c)
    record_audit_event env contract_activated c.id (some user) (some (state_of c v none))
        (some (state_of (activated c) v none))
  activate_if false c v user = pure tt

  -- From the flushed signature on.
  unfoldable pub complete_signature :
      Contract → ContractVersion → Uuid → ContractSignature → Action Contract
  complete_signature c v user signature = do
    add_signature signature
    record_audit_event env contract_signed c.id (some user) (some (state_of c v (some false)))
        (some (state_of c v (some true)))
    complete ← gets (is_fully_signed c v)
    activate_if complete c v user
    commit
    get_contract c.id

  -- A new signature: a concurrent one with the same key makes the insert fail.
  unfoldable pub record_signature : Contract → ContractVersion → Uuid → Text → Action Contract
  record_signature c v user key_hash = do
    id ← fresh_id
    others ← arriving
    let signature = new_signature id v user key_hash
    raise_if (any (signature_clashes signature) others.signatures) (api signature_conflict 409)
    complete_signature c v user signature

  unfoldable pub sign_unless_signed :
      Bool → Contract → ContractVersion → Uuid → Text → Action Contract
  sign_unless_signed true c v user key_hash = get_contract c.id
  sign_unless_signed false c v user key_hash = record_signature c v user key_hash

  -- A signature under the same key must be of this version.
  unfoldable pub sign_unless_prior :
      Option ContractSignature → Contract → ContractVersion → Uuid → Text → Action Contract
  sign_unless_prior (some prior) c v user key_hash = do
    raise_if (not (prior.contract_version_id == v.id)) (api idempotency_key_reused 409)
    get_contract c.id
  sign_unless_prior none c v user key_hash = do
    signed ← gets (is_signed_by v user)
    sign_unless_signed signed c v user key_hash

  -- user, contract, idempotency key, expected document hash
  unfoldable pub sign_contract : Uuid → Uuid → Text → Text → Action Contract
  sign_contract user contract_id idempotency_key expected_document_hash = do
    c ← get_contract contract_id
    raise_if (not (is_contract_party user c)) (api forbidden 403)
    raise_if (same_contract_status c.status cancelled) (api invalid_state 409)
    v ← current_contract_version c
    raise_if (not (expected_document_hash == v.document_hash)) (api document_changed 409)
    let key_hash = env.sha256 idempotency_key
    prior ← gets (λ db.
        find? (λ s. s.user_id == user && s.idempotency_key_hash == key_hash) db.contract_signatures)
    sign_unless_prior prior c v user key_hash

  abbrev pub cancelled_contract : Contract → Contract
  cancelled_contract c = record c { status = cancelled; cancelled_at = some env.now }

  unfoldable pub cancel_open : Contract → Uuid → Action Contract
  cancel_open c user = do
    v ← current_contract_version c
    require_unstarted c v
    save_contract (cancelled_contract c)
    record_audit_event env contract_cancelled c.id (some user) (some (state_of c v none))
        (some (state_of (cancelled_contract c) v none))
    commit
    get_contract c.id

  -- user, contract
  unfoldable pub cancel_contract : Uuid → Uuid → Action Contract
  cancel_contract user contract_id = do
    c ← get_contract contract_id
    raise_if (not (user == c.employer_user_id)) (api forbidden 403)
    if same_contract_status c.status cancelled then get_contract c.id else cancel_open c user
