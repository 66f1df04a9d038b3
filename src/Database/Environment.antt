-- ===== src/Database/Environment.antt =====
-- What the services are given: errors, the payment provider interface
-- (app/payments/providers/base.py) and the environment, with the clock and the text functions.
use freelancing_platform.Prelude.{ℕ, Bool, Option, ◌≡◌, refl, ◌⊎◌, inl, inr}
use freelancing_platform.Prelude.Int.{ℤ}
use freelancing_platform.Database.Rows.Texts.{Text, Uuid}
use freelancing_platform.Database.Rows.Dispute.{Outcome, DisputeStatus}
use freelancing_platform.Database.Rows.Proposal.{ProposalStatus, ContractDocument}
use freelancing_platform.Database.Rows.Payment.{EventType}
use freelancing_platform.Database.Rows.Event.{AuditState}
use freelancing_platform.Database.Tables.{Db}

-- The `type` of an `ApiError`.
pub data ErrorType : Type 0 where
  milestone_not_found contract_not_found payment_not_found : ErrorType
  forbidden invalid_state invalid_transition : ErrorType
  escrow_not_fully_funded escrow_not_found escrow_overfund : ErrorType
  invalid_idempotency_key idempotency_conflict idempotency_key_reused : ErrorType
  payment_in_progress payment_mismatch insufficient_funds nothing_to_refund : ErrorType
  refund_provider_mismatch provider_event_conflict invalid_webhook : ErrorType
  payment_runtime_disabled unsupported_payment_provider : ErrorType
  document_changed signature_conflict invalid_webhook_signature : ErrorType
  dispute_exists dispute_not_found dispute_already_resolved refund_failed : ErrorType
  file_not_found invalid_evidence_file evidence_exists : ErrorType
  validation_error payout_destination_not_configured : ErrorType
  project_not_found proposal_not_found proposal_exists : ErrorType
  contract_exists proposal_already_accepted : ErrorType
  freelancer_not_found payout_destination_conflict payout_account_not_found : ErrorType

-- The reasons of the `ValueError`s of `post_journal` and `record_audit_event`.
pub data ValueFault : Type 0 where
  no_postings mixed_currencies nonpositive_amount bad_direction unbalanced : ValueFault
  missing_audit_state : ValueFault

-- Everything that ends a request early: an `ApiError` with its type and HTTP status, a `ValueError`,
-- a `RuntimeError`, a violated constraint, `ProviderTemporaryError`, any other exception.
pub data Error : Type 0 where
  api : ErrorType → ℕ → Error
  value_error : ValueFault → Error
  runtime_error integrity_error provider_temporary other_exception : Error

pub data Result (A : Type 0) : Type 0 where
  ok : A → Result A
  err : Error → Result A

pub data ProviderStatus : Type 0 where
  status_pending status_succeeded status_captured : ProviderStatus
  other_status : Text → ProviderStatus

pub record ProviderResult : Type 0 where
  pub reference : Text
  pub status : ProviderStatus
  pub amount_minor : ℤ
  pub currency : Text

-- A value in the `data` of a webhook, or its absence.
pub data JsonValue : Type 0 where
  absent other_json : JsonValue
  json_bool : Bool → JsonValue
  json_string : Text → JsonValue
  json_int : ℤ → JsonValue

pub record VerifiedWebhook : Type 0 where
  pub external_event_id : Text
  pub event_type : EventType
  pub provider_reference : JsonValue
  pub amount_minor : JsonValue
  pub currency : JsonValue

-- `PaymentProvider`: what a provider answers is outside the program.
pub record PaymentProvider : Type 0 where
  pub name : Text
  -- amount, currency, idempotency key
  pub create_payment : ℤ → Text → Text → Result ProviderResult
  -- reference, amount, currency, idempotency key
  pub refund : Text → ℤ → Text → Text → Result ProviderResult
  pub verify_refund : Text → Result ProviderResult
  -- destination, amount, currency, idempotency key
  pub payout : Text → ℤ → Text → Text → Result ProviderResult
  pub validate_payout_destination : Text → Result Text
  pub get_transaction : Text → Result ProviderResult
  -- payload, signature
  pub verify_webhook : Text → Text → Result VerifiedWebhook

-- The dicts over which `claim_idempotency` hashes a request.
pub data RequestPayload : Type 0 where
  fund_payload refund_payload : Uuid → Text → RequestPayload
  release_payload : Uuid → RequestPayload
  payout_payload : ℤ → Text → Text → RequestPayload
  -- dispute, outcome, reason, award, refund
  dispute_payload : Uuid → Text → Text → Option ℤ → Option ℤ → RequestPayload

pub record Environment : Type 0 where
  pub now : ℕ
  pub strip : Text → Text
  pub lower : Text → Text
  pub upper : Text → Text
  pub text_length : Text → ℕ
  pub sha256 : Text → Text
  -- `str` of a UUID
  pub uuid_text : Uuid → Text
  pub request_hash : RequestPayload → Text
  pub state_hash : AuditState → Text
  -- `PAYMENT_RUNTIME_ENABLED`, and the two adapters under their names
  pub payment_runtime_enabled : Bool
  pub sandbox : PaymentProvider
  pub stripe : PaymentProvider
  pub sandbox_name : Text
  pub stripe_name : Text
  -- the outcome and the status that a text spells, if it does
  pub outcome_named : Text → Option Outcome
  pub dispute_status_named : Text → Option DisputeStatus
  -- the text `dispute:{id}:{idempotency_key}`, and the text `Evidence submitted`
  pub dispute_key_text : Uuid → Text → Text
  pub evidence_submitted : Text
  -- the status that a text spells, `PLATFORM_COMMISSION_BPS` if it is an integer, the title
  -- `Full contract delivery`, the order of texts, and the hash of a contract's document
  pub proposal_status_named : Text → Option ProposalStatus
  pub platform_commission_bps : Option ℤ
  pub full_delivery : Text
  pub text_before : Text → Text → Bool
  pub document_hash : ContractDocument → Text
  -- what other transactions commit while this one waits for a provider with no lock held
  pub meanwhile : Db → Db

pub Result-cases :
    {A : Type 0} (r : Result A) → ((a : A) × (r ≡ ok a)) ⊎ ((e : Error) × (r ≡ err e))
Result-cases (ok a) = inl (a, refl)
Result-cases (err e) = inr (e, refl)
