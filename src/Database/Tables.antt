-- ===== src/Database/Tables.antt =====
-- The tables, and the store as a record of them. A new row goes to the front of its table, so that
-- a table reads newest first, the order of `created_at.desc()`.
pub mod Replaced
use freelancing_platform.Prelude.{ℕ, List, [], ◌∷◌, ◌==◌, if◌then◌else◌}
use freelancing_platform.Database.Rows.Texts.{Uuid}
use freelancing_platform.Database.Rows.Ledger.{LedgerAccount, JournalTransaction}
use freelancing_platform.Database.Rows.Contract.{
  Contract, ContractVersion, ContractSignature, Milestone,
}
use freelancing_platform.Database.Rows.Dispute.{User, FileObject, Dispute}
use freelancing_platform.Database.Rows.Payment.{
  FinancialIdempotencyKey, PaymentIntent, MilestoneEscrow, MilestoneFunding, Refund, ProviderEvent,
  ReconciliationRun,
}
use freelancing_platform.Database.Rows.Proposal.{Project, ProjectAttachment, Proposal}
use freelancing_platform.Database.Rows.Payout.{Payout, PayoutProviderAccount}
use freelancing_platform.Database.Rows.Event.{OutboxEvent, AuditEvent}

pub record Db : Type 0 where
  pub contracts : List Contract
  pub contract_versions : List ContractVersion
  pub contract_signatures : List ContractSignature
  pub milestones : List Milestone
  pub ledger_accounts : List LedgerAccount
  pub journal_transactions : List JournalTransaction
  pub idempotency_keys : List FinancialIdempotencyKey
  pub payment_intents : List PaymentIntent
  pub milestone_escrows : List MilestoneEscrow
  pub milestone_fundings : List MilestoneFunding
  pub refunds : List Refund
  pub provider_events : List ProviderEvent
  pub reconciliation_runs : List ReconciliationRun
  pub payouts : List Payout
  pub payout_provider_accounts : List PayoutProviderAccount
  pub users : List User
  pub file_objects : List FileObject
  pub disputes : List Dispute
  pub projects : List Project
  pub project_attachments : List ProjectAttachment
  pub proposals : List Proposal
  pub outbox_events : List OutboxEvent
  pub audit_events : List AuditEvent
  -- the ids that `uuid4` has not handed out yet begin here
  pub next_id : ℕ

-- Writes a row back under its id.
abbrev pub replace {ℓ} : {A : Type ℓ} → (A → Uuid) → A → List A → List A
replace id_of row [] = []
replace id_of row (x ∷ xs) = (if id_of x == id_of row then row else x) ∷ replace id_of row xs

abbrev pub put_milestone : Milestone → Db → Db
put_milestone m db = record db { milestones = replace (λ r. r.id) m db.milestones }

abbrev pub put_contract : Contract → Db → Db
put_contract c db = record db { contracts = replace (λ r. r.id) c db.contracts }

abbrev pub put_intent : PaymentIntent → Db → Db
put_intent i db = record db { payment_intents = replace (λ r. r.id) i db.payment_intents }

abbrev pub put_refund : Refund → Db → Db
put_refund r db = record db { refunds = replace (λ r. r.id) r db.refunds }

abbrev pub put_dispute : Dispute → Db → Db
put_dispute d db = record db { disputes = replace (λ r. r.id) d db.disputes }

abbrev pub put_proposal : Proposal → Db → Db
put_proposal p db = record db { proposals = replace (λ r. r.id) p db.proposals }

abbrev pub put_payout : Payout → Db → Db
put_payout p db = record db { payouts = replace (λ r. r.id) p db.payouts }

abbrev pub put_destination : PayoutProviderAccount → Db → Db
put_destination a db = record db {
  payout_provider_accounts = replace (λ r. r.id) a db.payout_provider_accounts;
}

abbrev pub put_key : FinancialIdempotencyKey → Db → Db
put_key k db = record db { idempotency_keys = replace (λ r. r.id) k db.idempotency_keys }

abbrev pub add_journal : JournalTransaction → Db → Db
add_journal j db = record db { journal_transactions = j ∷ db.journal_transactions }

abbrev pub put_event : ProviderEvent → Db → Db
put_event e db = record db { provider_events = replace (λ r. r.id) e db.provider_events }

abbrev pub put_run : ReconciliationRun → Db → Db
put_run r db = record db { reconciliation_runs = replace (λ x. x.id) r db.reconciliation_runs }
