-- ===== src/Tests/Opened.antt =====
-- The code opened, for runs that are computed.
use freelancing_platform.Contracts.{
  get_contract, get_contract_for_user, get_project_contract, get_project_contract_for_user,
  current_contract_version, check_unstarted, require_unstarted, activate_if, complete_signature,
  record_signature, sign_unless_signed, sign_unless_prior, sign_contract, cancel_open,
  cancel_contract,
}
use freelancing_platform.Contracts.Created.{total_amount, total_of}
use freelancing_platform.Contracts.Creation.{
  current_proposal_version, commission_bps, create_milestones, insert_contract, flush_contract,
  create_contract, existing_or_create, create_contract_from_accepted_proposal,
}
use freelancing_platform.Database.Session.{◌>>=◌, catch, run}
use freelancing_platform.Disputes.{
  require_admin, required_text, get_dispute, notify_parties, audit_state_change, announce_dispute,
  file_dispute, insert_dispute, open_checked, open_dispute, get_dispute_for_user,
}
use freelancing_platform.Disputes.Amounts.{
  split_amounts, resolution_amounts, credit_unless_zero, freelancer_postings, captured_intent_of,
  clearing_posting, pay_back, confirm_refund, confirm_unless_zero,
}
use freelancing_platform.Disputes.Resolve.{
  serialize_dispute, require_reviewable, insert_refund, persist_refund, close_dispute,
  finish_resolution, book_resolution, resolve_funded, resolve_disputed, resolve_claimed,
  resolve_dispute,
}
use freelancing_platform.Disputes.Review.{
  get_file, attach_evidence, add_evidence, apply_step, admin_transition,
}
use freelancing_platform.Ledger.{
  get_or_create_account, add_postings, check_postings, insert_journal, existing_or_insert,
  post_journal, account_balance_minor, require_sufficient_balance, wallet_balance,
}
use freelancing_platform.Ledger.Abstract.{moved, sum_of_parts, book}
use freelancing_platform.Milestones.{
  require_full_balance, require_milestone_fully_funded, funding_check, take_step, transition,
  start_milestone, submit_milestone, request_milestone_changes, approve_milestone,
  get_milestone_for_user,
}
use freelancing_platform.PartyActions.{perform}
use freelancing_platform.Payments.Capture.{
  open_escrow, record_funding, finish_capture, book_capture, capture_pending, report_captured,
  capture_intent,
}
use freelancing_platform.Payments.Effects.{
  record_audit_event, enqueue_outbox_event, save_milestone, save_contract, save_intent, save_refund,
  save_payout, save_key, save_event, save_run, add_key, add_intent, add_escrow, add_funding,
  add_refund, add_signature, add_payout, save_dispute, add_dispute, save_proposal, add_proposal,
  add_contract, add_version, add_milestone, save_destination, add_destination, add_event, add_run,
}
use freelancing_platform.Payments.Fund.{
  flush_intent, create_intent, join_active, join_existing, fund_claimed, fund_milestone,
}
use freelancing_platform.Payments.Idempotency.{
  reuse_key, insert_key, create_key, reuse_or_create, claim_idempotency, complete_idempotency,
  answer_or,
}
use freelancing_platform.Payments.Queries.{
  get_milestone, version_of, locked_contract, contract_of, require_active_contract,
  require_employer, find_escrow, require_escrow, find_account, escrow_account_of, escrow_balance,
  financial_state, get_milestone_financial_state, contract_commission_bps, get_provider,
}
use freelancing_platform.Payments.Reconcile.{
  compare_remote, check_reference, check_intents, report_discrepancies, reconcile_provider,
}
use freelancing_platform.Payments.Refund.{
  finish_reservation, book_reservation, reserve_refund, resume_refund, resume_or_reserve,
  refund_claimed, refund_milestone,
}
use freelancing_platform.Payments.Release.{
  commission, finish_release, book_release, release_approved, report_released, release_claimed,
  release_milestone,
}
use freelancing_platform.Payments.Requests.{serve, serve_all, raised}
use freelancing_platform.Payments.Settle.{
  captured_funding_intent, replay_terminal, complete_refund_replay, pending_refund, get_refund,
  persisted_key, terminal_answer, finish_failure, reverse_reservation, restore_escrow, fail_refund,
  book_refund, flush_refund, apply_result, accept_result, finish_refund, handle_reply,
  settle_refund,
}
use freelancing_platform.Payments.Webhook.{
  duplicate_event, webhook_string, webhook_int, apply_captured, mark_failed, apply_failed,
  apply_event, process_event, deduplicate, process_provider_webhook,
}
use freelancing_platform.Payouts.{
  configured_destination, resolve_payout_destination, finish_payout_reservation, book_payout,
  reserve_payout,
}
use freelancing_platform.Payouts.Destinations.{
  audit_configured, write_destination, assign_destination, configure_payout_provider_account,
  disable_payout_provider_account,
}
use freelancing_platform.Payouts.Settle.{
  replay_payout, complete_terminal_replay, get_payout, payout_key, ended_answer,
  finish_payout_failure, reverse_payout, restore_wallet, fail_payout, flush_payout, complete_payout,
  accept_payout, finish_payout, handle_payout_reply, settle_payout, upgrade_destination,
  resume_or_reserve_payout, payout_claimed, create_payout,
}
use freelancing_platform.Platform.{answer_call, answer_all}
use freelancing_platform.Prelude.Int.{◌+ℤ◌, ◌-ℤ◌}
use freelancing_platform.Proposals.{
  get_project, get_proposal, list_project_proposals, total, numbered, new_version,
}
use freelancing_platform.Proposals.Requests.{answer_proposal, answer_proposals}
use freelancing_platform.Proposals.Submission.{
  check_currency, keep_draft, flush_draft, create_proposal, append_version, add_proposal_version,
}
use freelancing_platform.Proposals.Transition.{
  commit_move, undo_move, contract_if, move_proposal, move_checked, transition_proposal,
}

-- Unfolding this computes the services on concrete rows.
unfoldable pub services_run : Unit {0}
unfolding get_contract get_contract_for_user get_project_contract get_project_contract_for_user
    current_contract_version check_unstarted require_unstarted activate_if complete_signature
    record_signature sign_unless_signed sign_unless_prior sign_contract cancel_open cancel_contract
    total_amount total_of current_proposal_version commission_bps create_milestones insert_contract
    flush_contract create_contract existing_or_create create_contract_from_accepted_proposal ◌>>=◌
    catch run require_admin required_text get_dispute notify_parties audit_state_change
    announce_dispute file_dispute insert_dispute open_checked open_dispute get_dispute_for_user
    split_amounts resolution_amounts credit_unless_zero freelancer_postings captured_intent_of
    clearing_posting pay_back confirm_refund confirm_unless_zero serialize_dispute
    require_reviewable insert_refund persist_refund close_dispute finish_resolution book_resolution
    resolve_funded resolve_disputed resolve_claimed resolve_dispute get_file attach_evidence
    add_evidence apply_step admin_transition get_or_create_account add_postings check_postings
    insert_journal existing_or_insert post_journal account_balance_minor require_sufficient_balance
    wallet_balance moved sum_of_parts book require_full_balance require_milestone_fully_funded
    funding_check take_step transition start_milestone submit_milestone request_milestone_changes
    approve_milestone get_milestone_for_user perform open_escrow record_funding finish_capture
    book_capture capture_pending report_captured capture_intent record_audit_event
    enqueue_outbox_event save_milestone save_contract save_intent save_refund save_payout save_key
    save_event save_run add_key add_intent add_escrow add_funding add_refund add_signature
    add_payout save_dispute add_dispute save_proposal add_proposal add_contract add_version
    add_milestone save_destination add_destination add_event add_run flush_intent create_intent
    join_active join_existing fund_claimed fund_milestone reuse_key insert_key create_key
    reuse_or_create claim_idempotency complete_idempotency answer_or get_milestone version_of
    locked_contract contract_of require_active_contract require_employer find_escrow require_escrow
    find_account escrow_account_of escrow_balance financial_state get_milestone_financial_state
    contract_commission_bps get_provider compare_remote check_reference check_intents
    report_discrepancies reconcile_provider finish_reservation book_reservation reserve_refund
    resume_refund resume_or_reserve refund_claimed refund_milestone commission finish_release
    book_release release_approved report_released release_claimed release_milestone serve serve_all
    raised captured_funding_intent replay_terminal complete_refund_replay pending_refund get_refund
    persisted_key terminal_answer finish_failure reverse_reservation restore_escrow fail_refund
    book_refund flush_refund apply_result accept_result finish_refund handle_reply settle_refund
    duplicate_event webhook_string webhook_int apply_captured mark_failed apply_failed apply_event
    process_event deduplicate process_provider_webhook configured_destination
    resolve_payout_destination finish_payout_reservation book_payout reserve_payout audit_configured
    write_destination assign_destination configure_payout_provider_account
    disable_payout_provider_account replay_payout complete_terminal_replay get_payout payout_key
    ended_answer finish_payout_failure reverse_payout restore_wallet fail_payout flush_payout
    complete_payout accept_payout finish_payout handle_payout_reply settle_payout
    upgrade_destination resume_or_reserve_payout payout_claimed create_payout answer_call answer_all
    ◌+ℤ◌ ◌-ℤ◌ get_project get_proposal list_project_proposals total numbered new_version
    answer_proposal answer_proposals check_currency keep_draft flush_draft create_proposal
    append_version add_proposal_version commit_move undo_move contract_if move_proposal move_checked
    transition_proposal
services_run = tt
