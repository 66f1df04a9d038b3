-- ===== src/Lib.antt =====
-- The core of the freelancing platform: from a proposal over its contract to the escrow of milestones on a
-- double-entry ledger.
--
-- The program (app/) is a Flask service over PostgreSQL. A freelancer makes a proposal for a client's
-- project (app/proposals/service.py); if it is accepted it becomes a contract between the two
-- (app/contracts/service.py), whose versions have milestones. The employer funds a milestone (app/payments/service.py): a payment
-- provider is asked for a payment, and its webhook captures it into the escrow account of the
-- milestone (app/ledger/service.py). The freelancer starts and submits, the employer asks for changes
-- or approves (app/milestones/service.py), and the release pays the escrow out, less the platform's
-- commission. Before work starts the employer may have the escrow refunded. Either party may dispute a
-- funded milestone (app/disputes/service.py), which freezes it until an administrator divides the
-- escrow; a freelancer pays a wallet out (app/payouts/service.py). Every call that moves money claims an
-- idempotency key (app/payments/idempotency.py), writes an audit event (app/audit/service.py) and
-- mostly an outbox event (app/common/outbox.py), and commits.
--
-- Files:
--   * Prelude: Boolean tests, lists, integers over the native numbers, passed on to all others.
--   * Database: the rows (Rows: the models of app/*/models.py), the tables (Tables), what the
--     services are given (Environment: errors, the provider interface of
--     app/payments/providers/base.py, the clock, text functions), and the session of a request
--     (Session: a state monad with exceptions, `commit`, and rollback when the request ends), with
--     the rules for what an action keeps (Session/Keeps), does step by step (Session/Steps), writes
--     if it raises (Session/Atomic) and has committed if it returns (Session/Durable).
--   * Ledger: app/ledger/service.py. `get_or_create_account`, `post_journal`,
--     `account_balance_minor`, `wallet_balance` (one currency of `wallet_balances`),
--     `require_sufficient_balance`. Its children hold the theorems on each; Ledger/Abstract is a
--     ledger without journals that the rows are seen as.
--   * Payments: app/payments. Fund is `fund_milestone`, Webhook `process_provider_webhook`, Capture
--     `_capture_intent`, Release `release_milestone`, Refund and Settle the two halves of
--     `refund_milestone` with `_fail_refund`, Reconcile `reconcile_provider`, Queries the selects and
--     `get_provider` (app/payments/providers/registry.py), Idempotency its records, Effects the
--     audit and outbox writes. Requests has the calls as data, Framing what every call keeps, Books,
--     Atomic and Quiet what follows for whole calls; Release/Retried is about a call made twice.
--   * Milestones: app/milestones/service.py, with the life of a milestone as a step relation (Steps) and its
--     histories (Lifecycle).
--   * Contracts: app/contracts/service.py, signing and cancelling, and the reads; Contracts/Creation
--     is `create_contract_from_accepted_proposal`.
--   * Proposals: app/proposals. Rows, checks and reads are here, `create_proposal` and
--     `add_proposal_version` in Proposals/Submission, `transition_proposal` in Proposals/Transition.
--   * Payouts: app/payouts/service.py, `create_payout` in two halves: the reservation here, the
--     provider's reply and `_fail_payout` in Payouts/Settle; the lookup of the destination is here, and
--     Payouts/Destinations is the rest of app/payouts/provider_accounts.py.
--   * Disputes: app/disputes/service.py. Opening and the reads are here, `add_evidence` and
--     `admin_transition` in Disputes/Review, `_resolution_amounts`, `_append_freelancer_postings` and
--     `_confirm_provider_refund` in Disputes/Amounts, `resolve_dispute` in Disputes/Resolve. The other
--     children hold the theorems; Blocked is about the guards of the other services.
--   * PartyActions: the calls of Milestones and Contracts as data, and what they all keep.
--   * Platform: the calls of all these services as one history, and what follows for the ledger;
--     Platform/Refined sees it on the abstract ledger.
--   * Tests: concrete rows, and the theorems applied to them.
--
-- How the code is written: a function of the source is a function of the same name, a private one
-- without its underscore; a long function is several, cut where the code branches or goes on with a
-- row it has found, and each is named for that part. A loop is recursion on the list it goes through,
-- so no fuel is needed. `raise` is an error value that ends the request; what was not committed is
-- lost then. Amounts are unbounded integers, as in Python; the width of the BIGINT columns is left
-- out. Tables are lists, newest row first, and a save puts a row back under its id.
--
-- Conventions and bounds of the model:
--   * A text or a UUID is a number: the services compare, store and hand on texts, and what Python
--     computes of them (strip, lower, upper, len, SHA-256, the JSON of a request) is a function of the
--     environment, about which nothing is assumed. `uuid4` hands out the next unused number.
--   * Requests run one after the other, as the row locks make them do on one milestone. Concurrency
--     is modelled where the code handles it: rows that another transaction commits between a select
--     and an insert (`Arriving`, the `IntegrityError` branches), and whatever others commit while a
--     refund or a payout waits for the provider (`meanwhile`).
--   * Providers are any functions of the interface's shape; the adapters are not modelled.
--   * Titles, notes, metadata, creation times and JSON are left out, since no modelled code reads them.
--   * Not modelled: the writes to projects, identity, messaging, calls,
--     files, search, the HTTP layer and the migrations.
pub mod Prelude
pub mod Database
pub mod Ledger
pub mod Payments
pub mod Milestones
pub mod Contracts
pub mod PartyActions
pub mod Proposals
pub mod Payouts
pub mod Disputes
pub mod Platform
pub mod Tests
