-- ===== src/Tests/Fixtures.antt =====
-- One contract with one milestone of 100, and a provider that accepts everything.
use freelancing_platform.Prelude.{true, Option, none, some, [], ◌∷◌, List, ◌==◌, ltb, if◌then◌else◌}
use freelancing_platform.Prelude.Int.{pos}
use freelancing_platform.Database.Rows.Contract.{
  Contract, active, ContractVersion, platform_bps, Milestone, created,
}
use freelancing_platform.Database.Rows.Dispute.{
  Outcome, release_to_freelancer, refund_client, split, DisputeStatus, evidence_collection,
  under_review, need_more_info,
}
use freelancing_platform.Database.Rows.Proposal.{
  ProposalStatus, proposed, under_negotiation, withdrawn, turned_down, accepted,
}
use freelancing_platform.Database.Rows.Payment.{
  payment_captured, FinancialIdempotencyKey, release_operation,
}
use freelancing_platform.Database.Tables.{Db}
use freelancing_platform.Database.Environment.{
  ok, status_pending, status_succeeded, status_captured, json_string, json_int, PaymentProvider,
  Environment,
}
use freelancing_platform.Database.Session.{Arriving, Session, run}
use freelancing_platform.Database.Rows.Texts.{Uuid, Text}
use freelancing_platform.Payments.Capture.{funded_by}
use freelancing_platform.Milestones.{UserAction, start, submit, approve, moved_by, transition}
use freelancing_platform.Payments.Requests.{Request, fund, webhook, serve_all}

abbrev pub demo_provider : PaymentProvider
demo_provider = record {
  name = 1;
  create_payment = λ amount currency key. ok (record {
    reference = 50;
    status = status_pending;
    amount_minor = amount;
    currency = currency;
  });
  refund = λ reference amount currency key. ok (record {
    reference = 60;
    status = status_succeeded;
    amount_minor = amount;
    currency = currency;
  });
  verify_refund = λ reference.
      ok (record {
        reference = 60;
        status = status_succeeded;
        amount_minor = pos 100;
        currency = 9;
      });
  payout = λ destination amount currency key. ok (record {
    reference = 90;
    status = status_succeeded;
    amount_minor = amount;
    currency = currency;
  });
  validate_payout_destination = λ reference. ok reference;
  get_transaction = λ reference.
      ok
        (record { reference = 50; status = status_captured; amount_minor = pos 100; currency = 9 });
  verify_webhook = λ payload signature. ok (record {
    external_event_id = 70;
    event_type = payment_captured;
    provider_reference = json_string 50;
    amount_minor = json_int (pos 100);
    currency = json_string 9;
  });
}

-- The texts 31, 32, 33 spell the outcomes, 41, 42, 43 the statuses that an administrator may set.
abbrev spelled_outcome : Text → Option Outcome
spelled_outcome t =
    if t == 31
    then some release_to_freelancer
    else if t == 32
    then some refund_client
    else if t == 33
    then some split
    else none

abbrev spelled_status : Text → Option DisputeStatus
spelled_status t =
    if t == 41
    then some evidence_collection
    else if t == 42
    then some under_review
    else if t == 43
    then some need_more_info
    else none

-- 51, 52, 53, 54 and 55 spell the statuses of a proposal after DRAFT.
abbrev spelled_proposal : Text → Option ProposalStatus
spelled_proposal t =
    if t == 51
    then some proposed
    else if t == 52
    then some under_negotiation
    else if t == 53
    then some withdrawn
    else if t == 54
    then some turned_down
    else if t == 55
    then some accepted
    else none

abbrev pub demo_env : Environment
demo_env = record {
  now = 100;
  strip = λ t. t;
  lower = λ t. t;
  upper = λ t. t;
  text_length = λ t. t;
  sha256 = λ t. t;
  uuid_text = λ u. u;
  request_hash = λ p. 7;
  state_hash = λ s. 0;
  payment_runtime_enabled = true;
  sandbox = demo_provider;
  stripe = demo_provider;
  sandbox_name = 1;
  stripe_name = 2;
  outcome_named = spelled_outcome;
  dispute_status_named = spelled_status;
  dispute_key_text = λ id key. key;
  evidence_submitted = 6;
  proposal_status_named = spelled_proposal;
  platform_commission_bps = some (pos 1000);
  full_delivery = 4;
  text_before = λ a b. ltb a b;
  document_hash = λ d. 0;
  meanwhile = λ db. db;
}

abbrev pub demo_contract : Contract
demo_contract = record {
  id = 1;
  project_id = 7;
  accepted_proposal_id = 8;
  employer_user_id = 10;
  freelancer_user_id = 20;
  status = active;
  current_version = 1;
  activated_at = none;
  cancelled_at = none;
  parties = [];
}

abbrev pub demo_milestone : Milestone
demo_milestone = record {
  id = 3;
  contract_version_id = 2;
  sequence = 1;
  amount_minor = pos 100;
  currency = 9;
  status = created;
  events = [];
}

abbrev pub demo_version : ContractVersion
demo_version = record {
  id = 2;
  contract_id = 1;
  version_number = 1;
  commission = platform_bps (pos 1000);
  document_hash = 0;
}

abbrev pub demo_db : Db
demo_db = record {
  contracts = demo_contract ∷ [];
  contract_versions = demo_version ∷ [];
  contract_signatures = [];
  milestones = demo_milestone ∷ [];
  ledger_accounts = [];
  journal_transactions = [];
  idempotency_keys = [];
  payment_intents = [];
  milestone_escrows = [];
  milestone_fundings = [];
  refunds = [];
  provider_events = [];
  reconciliation_runs = [];
  payouts = [];
  payout_provider_accounts = [];
  users = [];
  file_objects = [];
  disputes = [];
  projects = [];
  project_attachments = [];
  proposals = [];
  outbox_events = [];
  audit_events = [];
  next_id = 1000;
}

abbrev pub nobody : Arriving
nobody = record {
  keys = [];
  accounts = [];
  events = [];
  signatures = [];
  disputes = [];
  proposals = [];
  contracts = [];
  destinations = [];
}

abbrev pub session_at : Db → Session
session_at db = record { saved = db; live = db; arriving = nobody }

-- The employer funds the milestone, and the provider reports the payment.
abbrev pub funding_history : List (Environment × Arriving × Request)
funding_history = (demo_env, nobody, fund 10 3 1 5) ∷ (demo_env, nobody, webhook 1 8 0) ∷ []

-- What is committed after a party's action on the milestone.
abbrev pub work : UserAction → Uuid → Db → Db
work action user db = (run nobody (transition demo_env action user 3) db).1

abbrev pub funded_db : Db
funded_db = serve_all funding_history demo_db

abbrev pub approved_db : Db
approved_db = work approve 10 (work submit 20 (work start 20 funded_db))

abbrev pub funded_milestone : Milestone
funded_milestone = funded_by none demo_milestone

abbrev pub submitted_milestone : Milestone
submitted_milestone = moved_by 20 submit (moved_by 20 start funded_milestone)

abbrev pub approved_milestone : Milestone
approved_milestone = moved_by 10 approve submitted_milestone

-- The key of a request that has no answer yet.
abbrev pub open_key : FinancialIdempotencyKey
open_key = record {
  id = 500;
  user_id = 10;
  operation = release_operation;
  key_hash = 5;
  request_hash = 7;
  response_status = none;
  response_body = none;
}
