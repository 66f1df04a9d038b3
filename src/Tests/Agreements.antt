-- ===== src/Tests/Agreements.antt =====
-- The contract theorems: the second signature activates, and the employer cancels.
use freelancing_platform.Prelude.{◌≡◌, ◌==◌, refl, true, some, [], ◌∷◌}
use freelancing_platform.Database.Rows.Contract.{
  Contract, ContractVersion, ContractSignature, pending_signatures,
}
use freelancing_platform.Database.Tables.{Db}
use freelancing_platform.Contracts.{
  contract_in, activated, cancelled_contract, sign_contract, cancel_contract,
}
use freelancing_platform.Contracts.Signed.{MaySign, IsSigned, sign_contract-IsSigned}
use freelancing_platform.Contracts.Cancelled.{IsEnded, cancel_contract-IsEnded}
use freelancing_platform.Tests.Opened.{services_run}
use freelancing_platform.Tests.Fixtures.{demo_env, demo_contract, demo_db, session_at}

abbrev unsigned_contract : Contract
unsigned_contract = record demo_contract {
  status = pending_signatures;
  parties =
      record { user_id = 10; required_signature = true }
      ∷ record { user_id = 20; required_signature = true }
      ∷ [];
}

abbrev first_signature : ContractSignature
first_signature = record {
  id = 600;
  contract_version_id = 2;
  user_id = 10;
  document_hash = 0;
  idempotency_key_hash = 5;
}

abbrev half_signed_db : Db
half_signed_db = record demo_db {
  contracts = unsigned_contract ∷ [];
  contract_signatures = first_signature ∷ [];
}

sign_contract-IsSigned_example :
    (c : Contract) × (v : ContractVersion) × MaySign 20 1 0 c v half_signed_db
    × IsSigned demo_env c v 20
        (session_at half_signed_db)
        (sign_contract demo_env 20 1 6 0 (session_at half_signed_db))
unfolding services_run
sign_contract-IsSigned_example =
    sign_contract-IsSigned demo_env 20 1 6 0 (session_at half_signed_db)
      (activated demo_env unsigned_contract) refl

cancel_contract-IsEnded_example :
    (c : Contract) × (contract_in 1 demo_db ≡ some c)
    × ((10 == c.employer_user_id) ≡ true)
    × IsEnded demo_env c 10
        (session_at demo_db)
        (cancel_contract demo_env 10 1 (session_at demo_db))
unfolding services_run
cancel_contract-IsEnded_example =
    cancel_contract-IsEnded demo_env 10 1 (session_at demo_db)
      (cancelled_contract demo_env demo_contract) refl
