-- ===== src/PartyActions.antt =====
-- What the contract's parties do outside app/payments: milestone actions, signatures, cancellations.
use freelancing_platform.Prelude.{Bool, true, false, Option, none, some}
use freelancing_platform.Database.Rows.Texts.{Text, Uuid}
use freelancing_platform.Database.Rows.Ledger.{LedgerAccount}
use freelancing_platform.Database.Rows.Contract.{
  Contract, ContractVersion, ContractSignature, Milestone,
}
use freelancing_platform.Database.Tables.{Db}
use freelancing_platform.Database.Environment.{Environment}
use freelancing_platform.Database.Session.{Arriving, Session, commit, run}
use freelancing_platform.Database.Session.Keeps.{Keeps, Holds, Keeps-commit, Keeps-run}
use freelancing_platform.Ledger.Frame.{Quiet}
use freelancing_platform.Payments.Framing.Shared.{shared_rules}
use freelancing_platform.Milestones.{
  UserAction, start, submit, request_changes, approve, require_full_balance,
  require_milestone_fully_funded, funding_check, take_step, transition,
}
use freelancing_platform.Contracts.{
  get_contract, current_contract_version, activate_if, complete_signature, record_signature,
  sign_unless_signed, sign_unless_prior, sign_contract, check_unstarted, require_unstarted,
  cancel_open, cancel_contract,
}

pub data PartyAction : Type 0 where
  move : UserAction → Uuid → Uuid → PartyAction
  sign : Uuid → Uuid → Text → Text → PartyAction
  cancel : Uuid → Uuid → PartyAction

-- What is committed when the call has ended.
unfoldable pub perform : Environment → Arriving → PartyAction → Db → Db
perform env a (move action user id) db = (run a (transition env action user id) db).1
perform env a (sign user id key hash) db = (run a (sign_contract env user id key hash) db).1
perform env a (cancel user id) db = (run a (cancel_contract env user id) db).1

module _ {Q : Session → Type 0} (quiet : Quiet Q) where
  full_balance-Keeps :
      (m : Milestone) (a : Option LedgerAccount) → Keeps Q (require_full_balance m a)
  unfolding require_full_balance
  full_balance-Keeps m none = search shared_rules
  full_balance-Keeps m (some a) = search shared_rules

  funding_check-Keeps : (action : UserAction) (m : Milestone) → Keeps Q (funding_check action m)
  unfolding funding_check require_milestone_fully_funded
  funding_check-Keeps start m = search (shared_rules, full_balance-Keeps) depth 8
  funding_check-Keeps submit m = search shared_rules
  funding_check-Keeps request_changes m = search shared_rules
  funding_check-Keeps approve m = search shared_rules

  get_contract-Keeps : (id : Uuid) → Keeps Q (get_contract id)
  unfolding get_contract
  get_contract-Keeps id = search shared_rules

  current_version-Keeps : (c : Contract) → Keeps Q (current_contract_version c)
  unfolding current_contract_version
  current_version-Keeps c = search shared_rules

  require_unstarted-Keeps : (c : Contract) (v : ContractVersion) → Keeps Q (require_unstarted c v)
  unfolding require_unstarted check_unstarted
  require_unstarted-Keeps c v = search shared_rules depth 9

  activate_if-Keeps :
      (env : Environment) (b : Bool) (c : Contract) (v : ContractVersion) (user : Uuid)
      → Keeps Q (activate_if env b c v user)
  unfolding activate_if
  activate_if-Keeps env true c v user = search shared_rules
  activate_if-Keeps env false c v user = search shared_rules

ruleset party_rules = (
  shared_rules, funding_check-Keeps, get_contract-Keeps, current_version-Keeps,
  require_unstarted-Keeps, activate_if-Keeps,
)

module _ {Q : Session → Type 0} (quiet : Quiet Q) (commits : Keeps Q commit)
    (env : Environment) where
  transition-Keeps :
      (action : UserAction) (user id : Uuid) → Keeps Q (transition env action user id)
  unfolding transition take_step
  transition-Keeps action user id = search party_rules depth 15

  record_signature-Keeps :
      (c : Contract) (v : ContractVersion) (user : Uuid) (key : Text)
      → Keeps Q (record_signature env c v user key)
  unfolding record_signature complete_signature
  record_signature-Keeps c v user key = search party_rules depth 15

  sign_unless_signed-Keeps :
      (b : Bool) (c : Contract) (v : ContractVersion) (user : Uuid) (key : Text)
      → Keeps Q (sign_unless_signed env b c v user key)
  unfolding sign_unless_signed
  sign_unless_signed-Keeps true c v user key = search party_rules
  sign_unless_signed-Keeps false c v user key = record_signature-Keeps c v user key

  sign_unless_prior-Keeps :
      (prior : Option ContractSignature) (c : Contract) (v : ContractVersion) (user : Uuid)
      (key : Text)
      → Keeps Q (sign_unless_prior env prior c v user key)
  unfolding sign_unless_prior
  sign_unless_prior-Keeps none c v user key = search (party_rules, sign_unless_signed-Keeps)
  sign_unless_prior-Keeps (some prior) c v user key = search party_rules

  sign_contract-Keeps :
      (user id : Uuid) (key hash : Text) → Keeps Q (sign_contract env user id key hash)
  unfolding sign_contract
  sign_contract-Keeps user id key hash = search (party_rules, sign_unless_prior-Keeps) depth 12

  cancel_contract-Keeps : (user id : Uuid) → Keeps Q (cancel_contract env user id)
  unfolding cancel_contract cancel_open
  cancel_contract-Keeps user id = search party_rules depth 13

module _ (P : Db → Type 0) (quiet : Quiet (Holds P)) where
  pub perform-Keeps :
      (env : Environment) (a : Arriving) (action : PartyAction) (db : Db)
      → P db
      → P (perform env a action db)
  unfolding perform
  perform-Keeps env a (move action user id) db h =
      Keeps-run P a _ db (transition-Keeps quiet (Keeps-commit P) env action user id) h
  perform-Keeps env a (sign user id key hash) db h =
      Keeps-run P a _ db (sign_contract-Keeps quiet (Keeps-commit P) env user id key hash) h
  perform-Keeps env a (cancel user id) db h =
      Keeps-run P a _ db (cancel_contract-Keeps quiet (Keeps-commit P) env user id) h
