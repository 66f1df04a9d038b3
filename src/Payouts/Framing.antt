-- ===== src/Payouts/Framing.antt =====
-- Framed properties under `create_payout`, as in Payments/Framing.
use freelancing_platform.Prelude.{Option, none, some}
use freelancing_platform.Prelude.Int.{ℤ}
use freelancing_platform.Database.Rows.Texts.{Text, Uuid}
use freelancing_platform.Database.Rows.Ledger.{LedgerAccount, JournalTransaction}
use freelancing_platform.Database.Rows.Payment.{FinancialIdempotencyKey}
use freelancing_platform.Database.Rows.Payout.{
  Payout, PayoutProviderAccount, PayoutStatus, payout_pending, payout_succeeded, payout_failed,
}
use freelancing_platform.Database.Environment.{
  Environment, ProviderResult, Result, ok, err, provider_temporary,
}
use freelancing_platform.Database.Session.{Session, commit, rollback, await_provider}
use freelancing_platform.Database.Session.Keeps.{Keeps}
use freelancing_platform.Ledger.{require_sufficient_balance}
use freelancing_platform.Ledger.Frame.{Quiet, Frame}
use freelancing_platform.Payments.Framing.Shared.{shared_rules}
use freelancing_platform.Database.Rows.Dispute.{User}
use freelancing_platform.Payouts.Destinations.{
  audit_configured, write_destination, assign_destination, configure_payout_provider_account,
  disable_payout_provider_account,
}
use freelancing_platform.Payouts.{
  configured_destination, resolve_payout_destination, PayoutOrder, finish_payout_reservation,
  book_payout, reserve_payout,
}
use freelancing_platform.Payouts.Settle.{
  replay_payout, complete_terminal_replay, get_payout, payout_key, ended_answer,
  finish_payout_failure, reverse_payout, restore_wallet, fail_payout, flush_payout, complete_payout,
  accept_payout, finish_payout, handle_payout_reply, settle_payout, upgrade_destination,
  resume_or_reserve_payout, payout_claimed, create_payout,
}

module _ {Q : Session → Type 0} (quiet : Quiet Q) where
  pub sufficient-Keeps :
      (a : LedgerAccount) (amount : ℤ) → Keeps Q (require_sufficient_balance a amount)
  unfolding require_sufficient_balance
  sufficient-Keeps a amount = search shared_rules

  pub get_payout-Keeps : (id : Uuid) → Keeps Q (get_payout id)
  unfolding get_payout
  get_payout-Keeps id = search shared_rules

  pub payout_key-Keeps : (p : Payout) → Keeps Q (payout_key p)
  unfolding payout_key
  payout_key-Keeps p = search shared_rules

  pub flush_payout-Keeps : (env : Environment) (p : Payout) → Keeps Q (flush_payout env p)
  unfolding flush_payout
  flush_payout-Keeps env p = search shared_rules

ruleset lookup_rules =
    (shared_rules, sufficient-Keeps, get_payout-Keeps, payout_key-Keeps, flush_payout-Keeps)

module _ {Q : Session → Type 0} (quiet : Quiet Q) (commits : Keeps Q commit) where
  replay_payout-Keeps :
      (status : PayoutStatus) (p : Payout) (k : FinancialIdempotencyKey)
      → Keeps Q (replay_payout status p k)
  unfolding replay_payout
  replay_payout-Keeps payout_pending p k = search lookup_rules
  replay_payout-Keeps payout_succeeded p k = search lookup_rules
  replay_payout-Keeps payout_failed p k = search lookup_rules

  pub terminal_replay-Keeps :
      (p : Payout) (k : FinancialIdempotencyKey) → Keeps Q (complete_terminal_replay p k)
  unfolding complete_terminal_replay
  terminal_replay-Keeps p k = replay_payout-Keeps p.status p k

  pub ended_answer-Keeps : (p : Payout) → Keeps Q (ended_answer p)
  unfolding ended_answer
  ended_answer-Keeps p = search (lookup_rules, terminal_replay-Keeps) depth 8

  pub upgrade-Keeps :
      (env : Environment) (d : Option Text) (p : Payout) → Keeps Q (upgrade_destination env d p)
  unfolding upgrade_destination
  upgrade-Keeps env none p = search lookup_rules depth 9
  upgrade-Keeps env (some d) p = search lookup_rules

ruleset payout_rules = (lookup_rules, terminal_replay-Keeps, ended_answer-Keeps, upgrade-Keeps)

module _ {Q : Session → Type 0} (frame : Frame Q) (commits : Keeps Q commit)
    (env : Environment) where
  finish_failure-Keeps :
      (p : Payout) (actor : Uuid) (j : JournalTransaction)
      → Keeps Q (finish_payout_failure env p actor j)
  unfolding finish_payout_failure
  finish_failure-Keeps p actor j = search payout_rules depth 11

  reverse_payout-Keeps :
      (p : Payout) (actor : Uuid) (w c : Option LedgerAccount) (j : Option JournalTransaction)
      → Keeps Q (reverse_payout env p actor w c j)
  unfolding reverse_payout
  reverse_payout-Keeps p actor w c j = search (payout_rules, finish_failure-Keeps) depth 9

  restore_wallet-Keeps : (p : Payout) (actor : Uuid) → Keeps Q (restore_wallet env p actor)
  unfolding restore_wallet
  restore_wallet-Keeps p actor = search (payout_rules, reverse_payout-Keeps) depth 9

  fail_payout-Keeps : (id actor : Uuid) → Keeps Q (fail_payout env id actor)
  unfolding fail_payout
  fail_payout-Keeps id actor = search (payout_rules, restore_wallet-Keeps) depth 8

  complete_payout-Keeps :
      (p : Payout) (r : Text) (user : Uuid) → Keeps Q (complete_payout env p r user)
  unfolding complete_payout
  complete_payout-Keeps p r user = search payout_rules depth 12

  finish_payout-Keeps :
      (r : ProviderResult) (id user : Uuid) → Keeps Q (finish_payout env r id user)
  unfolding finish_payout accept_payout
  finish_payout-Keeps r id user =
      search (payout_rules, complete_payout-Keeps, fail_payout-Keeps) depth 9

  book_payout-Keeps :
      (k : FinancialIdempotencyKey) (o : PayoutOrder) (d : Text) (w : LedgerAccount)
      → Keeps Q (book_payout env k o d w)
  unfolding book_payout finish_payout_reservation
  book_payout-Keeps k o d w = search payout_rules depth 12

  destination-Keeps :
      (user : Uuid) (name : Text) → Keeps Q (resolve_payout_destination env user name)
  unfolding resolve_payout_destination configured_destination
  destination-Keeps user name = search payout_rules depth 8

  reserve_payout-Keeps :
      (k : FinancialIdempotencyKey) (o : PayoutOrder) → Keeps Q (reserve_payout env k o)
  unfolding reserve_payout
  reserve_payout-Keeps k o = search (payout_rules, destination-Keeps, book_payout-Keeps) depth 9

  module _ (awaits : Keeps Q (await_provider env)) (rolls : Keeps Q rollback) where
    handle_reply-Keeps :
        (r : Result ProviderResult) (id user : Uuid) → Keeps Q (handle_payout_reply env r id user)
    unfolding handle_payout_reply
    handle_reply-Keeps (ok result) id user = finish_payout-Keeps result id user
    handle_reply-Keeps (err provider_temporary) id user = search payout_rules depth 8
    handle_reply-Keeps (err _) id user = fail_payout-Keeps id user

    settle_payout-Keeps :
        (user : Uuid) (key : Text) (p : Payout) → Keeps Q (settle_payout env user key p)
    unfolding settle_payout
    settle_payout-Keeps user key p = search (payout_rules, handle_reply-Keeps) depth 9

    resume-Keeps :
        (k : FinancialIdempotencyKey) (o : PayoutOrder) (key : Text) (found : Option Payout)
        → Keeps Q (resume_or_reserve_payout env k o key found)
    unfolding resume_or_reserve_payout
    resume-Keeps k o key none =
        search (payout_rules, reserve_payout-Keeps, settle_payout-Keeps) depth 8
    resume-Keeps k o key (some p) = search (payout_rules, settle_payout-Keeps) depth 9

    payout_claimed-Keeps :
        (k : FinancialIdempotencyKey) (o : PayoutOrder) (key : Text)
        → Keeps Q (payout_claimed env k o key)
    unfolding payout_claimed
    payout_claimed-Keeps k o key = search (payout_rules, resume-Keeps) depth 8

    -- A payout keeps what the ledger, commits and rollbacks keep, however it ends.
    pub create_payout-Keeps :
        (user : Uuid) (amount : ℤ) (currency name key : Text)
        → Keeps Q (create_payout env user amount currency name key)
    unfolding create_payout
    create_payout-Keeps user amount currency name key =
        search (payout_rules, payout_claimed-Keeps) depth 11

module _ {Q : Session → Type 0} (quiet : Quiet Q) (commits : Keeps Q commit) (env : Environment)
    (administrator : User) where
  write_destination-Keeps :
      (user : Uuid) (provider reference : Text) (found : Option PayoutProviderAccount)
      → Keeps Q (write_destination env administrator user provider reference found)
  unfolding write_destination audit_configured
  write_destination-Keeps user provider reference none = search shared_rules depth 12
  write_destination-Keeps user provider reference (some old) = search shared_rules depth 12

  -- Setting and disabling a destination leaves the ledger alone.
  pub configure-Keeps :
      (user : Uuid) (name reference : Text)
      → Keeps Q (configure_payout_provider_account env administrator user name reference)
  unfolding configure_payout_provider_account assign_destination
  configure-Keeps user name reference = search (shared_rules, write_destination-Keeps) depth 13

  pub disable-Keeps :
      (user : Uuid) (name : Text)
      → Keeps Q (disable_payout_provider_account env administrator user name)
  unfolding disable_payout_provider_account
  disable-Keeps user name = search shared_rules depth 11
