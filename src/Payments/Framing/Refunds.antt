-- ===== src/Payments/Framing/Refunds.antt =====
-- Refunds keep what the ledger and commits keep, if what other transactions commit during the provider call keeps it too.
use freelancing_platform.Prelude.{Bool, true, false, Option, none, some}
use freelancing_platform.Prelude.Int.{ℤ}
use freelancing_platform.Database.Rows.Texts.{Text, Uuid}
use freelancing_platform.Database.Rows.Ledger.{LedgerAccount}
use freelancing_platform.Database.Rows.Contract.{Milestone}
use freelancing_platform.Database.Rows.Payment.{
  FinancialIdempotencyKey, PaymentIntent, RefundStatus, refund_pending, Refund,
}
use freelancing_platform.Database.Environment.{
  Environment, Result, ok, err, provider_temporary, ProviderResult, ProviderStatus, status_pending,
  status_succeeded,
}
use freelancing_platform.Database.Session.{await_provider}
use freelancing_platform.Database.Session.Keeps.{Keeps}
use freelancing_platform.Payments.Framing.Shared.{shared_rules}
use freelancing_platform.Payments.Settle.{
  captured_funding_intent, replay_terminal, complete_refund_replay, pending_refund, get_refund,
  persisted_key, terminal_answer, restore_escrow, reverse_reservation, finish_failure, fail_refund,
  book_refund, flush_refund, apply_result, accept_result, finish_refund, handle_reply,
  settle_refund,
}
use freelancing_platform.Payments.Refund.{
  book_reservation, finish_reservation, reserve_refund, resume_refund, resume_or_reserve,
  refund_claimed, refund_milestone,
}
use freelancing_platform.Database.Session.{Session, commit}
use freelancing_platform.Ledger.Frame.{Frame}

module _ {Q : Session → Type 0} (frame : Frame Q) (commits : Keeps Q commit) where
  captured_funding_intent-Keeps : (m : Uuid) (p : Text) → Keeps Q (captured_funding_intent m p)
  unfolding captured_funding_intent
  captured_funding_intent-Keeps m p = search shared_rules

  replay_terminal-Keeps :
      (s : RefundStatus) (r : Refund) (k : FinancialIdempotencyKey)
      → Keeps Q (replay_terminal s r k)
  unfolding replay_terminal
  replay_terminal-Keeps refund_pending r k = search shared_rules
  replay_terminal-Keeps _ r k = search shared_rules

  complete_refund_replay-Keeps :
      (r : Refund) (k : FinancialIdempotencyKey) → Keeps Q (complete_refund_replay r k)
  unfolding complete_refund_replay
  complete_refund_replay-Keeps r k = replay_terminal-Keeps r.status r k

  pending_refund-Keeps : (r : Refund) → Keeps Q (pending_refund r)
  unfolding pending_refund
  pending_refund-Keeps r = search shared_rules

  get_refund-Keeps : (id : Uuid) → Keeps Q (get_refund id)
  unfolding get_refund
  get_refund-Keeps id = search shared_rules

  persisted_key-Keeps : (r : Refund) → Keeps Q (persisted_key r)
  unfolding persisted_key
  persisted_key-Keeps r = search shared_rules

  terminal_answer-Keeps : (r : Refund) → Keeps Q (terminal_answer r)
  unfolding terminal_answer
  terminal_answer-Keeps r = search (shared_rules, persisted_key-Keeps, complete_refund_replay-Keeps)

  flush_refund-Keeps : (env : Environment) (r : Refund) → Keeps Q (flush_refund env r)
  unfolding flush_refund
  flush_refund-Keeps env r = search shared_rules

  ruleset refund_rules = (
    shared_rules, captured_funding_intent-Keeps, complete_refund_replay-Keeps, pending_refund-Keeps,
    get_refund-Keeps, persisted_key-Keeps, terminal_answer-Keeps, flush_refund-Keeps,
  )

  module _ (env : Environment) where
    restore_escrow-Keeps : (r : Refund) (actor : Uuid) → Keeps Q (restore_escrow env r actor)
    unfolding restore_escrow reverse_reservation finish_failure
    restore_escrow-Keeps r actor = search refund_rules depth 17

    fail_refund-Keeps : (id actor : Uuid) → Keeps Q (fail_refund env id actor)
    unfolding fail_refund
    fail_refund-Keeps id actor = search (refund_rules, restore_escrow-Keeps)

    book_refund-Keeps :
        (before r : Refund) (m : Milestone) (user : Uuid)
        → Keeps Q (book_refund env before r m user)
    unfolding book_refund
    book_refund-Keeps before r m user = search refund_rules depth 12

    apply_result-Keeps :
        (s : ProviderStatus) (before r : Refund) (m : Milestone) (user : Uuid)
        → Keeps Q (apply_result env s before r m user)
    unfolding apply_result
    apply_result-Keeps status_pending before r m user = search refund_rules
    apply_result-Keeps status_succeeded before r m user = book_refund-Keeps before r m user
    apply_result-Keeps _ before r m user = fail_refund-Keeps r.id user

    accept_result-Keeps :
        (result : ProviderResult) (r : Refund) (m : Milestone) (user : Uuid)
        → Keeps Q (accept_result env result r m user)
    unfolding accept_result
    accept_result-Keeps result r m user =
        search (refund_rules, fail_refund-Keeps, apply_result-Keeps)

    finish_refund-Keeps :
        (result : ProviderResult) (id milestone_id user : Uuid)
        → Keeps Q (finish_refund env result id milestone_id user)
    unfolding finish_refund
    finish_refund-Keeps result id milestone_id user =
        search (refund_rules, accept_result-Keeps) depth 7

    handle_reply-Keeps :
        (asked : Bool) (result : Result ProviderResult) (r : Refund) (milestone_id user : Uuid)
        → Keeps Q (handle_reply env asked result r milestone_id user)
    unfolding handle_reply
    handle_reply-Keeps asked (ok result) r milestone_id user =
        finish_refund-Keeps result r.id milestone_id user
    handle_reply-Keeps asked (err provider_temporary) r milestone_id user = pending_refund-Keeps r
    handle_reply-Keeps true (err _) r milestone_id user = search refund_rules
    handle_reply-Keeps false (err _) r milestone_id user = fail_refund-Keeps r.id user

    book_reservation-Keeps :
        (k : FinancialIdempotencyKey) (m : Milestone) (user : Uuid) (name : Text)
        (a : LedgerAccount) (amount : ℤ)
        → Keeps Q (book_reservation env k m user name a amount)
    unfolding book_reservation finish_reservation
    book_reservation-Keeps k m user name a amount = search refund_rules depth 12

    reserve_refund-Keeps :
        (k : FinancialIdempotencyKey) (m : Milestone) (user : Uuid) (name : Text)
        → Keeps Q (reserve_refund env k m user name)
    unfolding reserve_refund
    reserve_refund-Keeps k m user name = search (refund_rules, book_reservation-Keeps) depth 9

    module _ (awaits : Keeps Q (await_provider env)) where
      settle_refund-Keeps :
          (user milestone_id : Uuid) (key : Text) (r : Refund) (i : PaymentIntent)
          → Keeps Q (settle_refund env user milestone_id key r i)
      unfolding settle_refund
      settle_refund-Keeps user milestone_id key r i =
          search (refund_rules, handle_reply-Keeps) depth 7

      resume_or_reserve-Keeps :
          (k : FinancialIdempotencyKey) (m : Milestone) (user : Uuid) (name key : Text)
          (found : Option Refund)
          → Keeps Q (resume_or_reserve env k m user name key found)
      unfolding resume_or_reserve resume_refund
      resume_or_reserve-Keeps k m user name key none =
          search (refund_rules, reserve_refund-Keeps, settle_refund-Keeps)
      resume_or_reserve-Keeps k m user name key (some r) =
          search (refund_rules, settle_refund-Keeps) depth 7

      refund_claimed-Keeps :
          (k : FinancialIdempotencyKey) (m : Milestone) (user : Uuid) (name key : Text)
          → Keeps Q (refund_claimed env k m user name key)
      unfolding refund_claimed
      refund_claimed-Keeps k m user name key = search (refund_rules, resume_or_reserve-Keeps)

      -- A refund keeps what the ledger and commits keep, however it ends.
      pub refund_milestone-Keeps :
          (user milestone_id : Uuid) (name key : Text)
          → Keeps Q (refund_milestone env user milestone_id name key)
      unfolding refund_milestone
      refund_milestone-Keeps user milestone_id name key =
          search (refund_rules, refund_claimed-Keeps) depth 9
