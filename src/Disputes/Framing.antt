-- ===== src/Disputes/Framing.antt =====
-- Framed properties under the disputes service, as in Payments/Framing.
use freelancing_platform.Prelude.{ℕ, Bool, Option, List, [], ◌∷◌}
use freelancing_platform.Prelude.Int.{ℤ}
use freelancing_platform.Database.Rows.Texts.{Text, Uuid}
use freelancing_platform.Database.Rows.Ledger.{LedgerAccount, JournalTransaction}
use freelancing_platform.Database.Rows.Contract.{Contract, Milestone}
use freelancing_platform.Database.Rows.Dispute.{
  User, Dispute, DisputeStatus, DisputeParty, DisputeDecision, FileObject, Outcome, Snapshot,
  release_to_freelancer, refund_client, split,
}
use freelancing_platform.Database.Rows.Event.{AuditAction, DisputeNotice}
use freelancing_platform.Database.Rows.Payment.{FinancialIdempotencyKey, MilestoneEscrow}
use freelancing_platform.Database.Environment.{Environment}
use freelancing_platform.Database.Session.{Session, commit}
use freelancing_platform.Database.Session.Keeps.{Keeps, Keeps-pure, Keeps-if, Keeps-bind}
use freelancing_platform.Ledger.{Identity}
use freelancing_platform.Ledger.Frame.{Quiet, Frame}
use freelancing_platform.Payments.Effects.Framed.{outbox-Keeps}
use freelancing_platform.Payments.Framing.Shared.{shared_rules}
use freelancing_platform.Disputes.{
  require_admin, required_text, get_dispute, notify_parties, audit_state_change, announce_dispute,
  file_dispute, insert_dispute, open_checked, open_dispute,
}
use freelancing_platform.Disputes.Review.{
  get_file, attach_evidence, add_evidence, apply_step, admin_transition,
}
use freelancing_platform.Disputes.Amounts.{
  Amounts, split_amounts, resolution_amounts, credit_unless_zero, freelancer_postings,
  captured_intent_of, Confirmed, clearing_posting, pay_back, confirm_refund, confirm_unless_zero,
}
use freelancing_platform.Disputes.Resolve.{
  require_reviewable, Resolution, insert_refund, persist_refund, close_dispute, finish_resolution,
  book_resolution, resolve_funded, resolve_disputed, resolve_claimed, resolve_dispute,
}

module _ {Q : Session → Type 0} (quiet : Quiet Q) where
  pub require_admin-Keeps : (u : User) → Keeps Q (require_admin u)
  unfolding require_admin
  require_admin-Keeps u = search shared_rules

  pub required_text-Keeps : (env : Environment) (t : Text) (n : ℕ) → Keeps Q (required_text env t n)
  unfolding required_text
  required_text-Keeps env t n = search shared_rules

  pub get_dispute-Keeps : (id : Uuid) → Keeps Q (get_dispute id)
  unfolding get_dispute
  get_dispute-Keeps id = search shared_rules

  pub notify-Keeps :
      (told : DisputeParty → Bool) (d : Uuid) (n : DisputeNotice) (ps : List DisputeParty)
      → Keeps Q (notify_parties told d n ps)
  unfolding notify_parties
  notify-Keeps told d n [] = search shared_rules
  notify-Keeps told d n (p ∷ ps) =
      Keeps-bind _ _ (Keeps-if (told p) _ _ (outbox-Keeps quiet _) (Keeps-pure tt))
        (λ _. notify-Keeps told d n ps)

  pub audit_state_change-Keeps :
      (env : Environment) (a : AuditAction) (d u : Uuid) (x y : Snapshot)
      → Keeps Q (audit_state_change env a d u x y)
  unfolding audit_state_change
  audit_state_change-Keeps env a d u x y = search shared_rules

  pub get_file-Keeps : (id : Uuid) → Keeps Q (get_file id)
  unfolding get_file
  get_file-Keeps id = search shared_rules

  pub reviewable-Keeps : (d : Dispute) → Keeps Q (require_reviewable d)
  unfolding require_reviewable
  reviewable-Keeps d = search shared_rules

  pub resolution_amounts-Keeps :
      (o : Outcome) (funded : ℤ) (a r : Option ℤ) → Keeps Q (resolution_amounts o funded a r)
  unfolding resolution_amounts split_amounts
  resolution_amounts-Keeps release_to_freelancer funded a r = search shared_rules
  resolution_amounts-Keeps refund_client funded a r = search shared_rules
  resolution_amounts-Keeps split funded a r = search shared_rules depth 10

  pub credit_unless_zero-Keeps :
      (want : Identity) (amount : ℤ) → Keeps Q (credit_unless_zero want amount)
  unfolding credit_unless_zero
  credit_unless_zero-Keeps want amount = search shared_rules

  pub freelancer_postings-Keeps :
      (user : Uuid) (currency : Text) (net fee : ℤ)
      → Keeps Q (freelancer_postings user currency net fee)
  unfolding freelancer_postings
  freelancer_postings-Keeps user currency net fee = search (shared_rules, credit_unless_zero-Keeps)

  pub captured_intent-Keeps : (m : Uuid) → Keeps Q (captured_intent_of m)
  unfolding captured_intent_of
  captured_intent-Keeps m = search shared_rules

  pub clearing_posting-Keeps : (p c : Text) (amount : ℤ) → Keeps Q (clearing_posting p c amount)
  unfolding clearing_posting
  clearing_posting-Keeps p c amount = search shared_rules

  pub confirm_refund-Keeps :
      (env : Environment) (d : Uuid) (m : Milestone) (amount : ℤ) (key : Text)
      → Keeps Q (confirm_refund env d m amount key)
  unfolding confirm_refund pay_back
  confirm_refund-Keeps env d m amount key =
      search (shared_rules, captured_intent-Keeps, clearing_posting-Keeps) depth 11

  pub confirm_unless_zero-Keeps :
      (env : Environment) (d : Uuid) (m : Milestone) (amount : ℤ) (key : Text)
      → Keeps Q (confirm_unless_zero env d m amount key)
  unfolding confirm_unless_zero
  confirm_unless_zero-Keeps env d m amount key = search (shared_rules, confirm_refund-Keeps)

  pub insert_refund-Keeps :
      (o : Resolution) (c : Contract) (j : Uuid) (amount : ℤ) (x : Confirmed)
      → Keeps Q (insert_refund o c j amount x)
  unfolding insert_refund
  insert_refund-Keeps o c j amount x = search shared_rules depth 9

  pub persist_refund-Keeps :
      (o : Resolution) (c : Contract) (j : Uuid) (amount : ℤ) (x : Option Confirmed)
      → Keeps Q (persist_refund o c j amount x)
  unfolding persist_refund
  persist_refund-Keeps o c j amount x = search (shared_rules, insert_refund-Keeps)

pub ruleset dispute_rules = (
  shared_rules, require_admin-Keeps, required_text-Keeps, get_dispute-Keeps, notify-Keeps,
  audit_state_change-Keeps, get_file-Keeps, reviewable-Keeps, resolution_amounts-Keeps,
  freelancer_postings-Keeps, confirm_unless_zero-Keeps, persist_refund-Keeps,
)

module _ {Q : Session → Type 0} (quiet : Quiet Q) (commits : Keeps Q commit)
    (env : Environment) where
  insert_dispute-Keeps :
      (u : User) (m : Milestone) (c : Contract) (t : Text) → Keeps Q (insert_dispute env u m c t)
  unfolding insert_dispute file_dispute announce_dispute
  insert_dispute-Keeps u m c t = search dispute_rules depth 15

  -- Opening a dispute keeps what writes outside the ledger and commits keep.
  pub open_dispute-Keeps : (u : User) (m : Uuid) (t : Text) → Keeps Q (open_dispute env u m t)
  unfolding open_dispute open_checked
  open_dispute-Keeps u m t = search (dispute_rules, insert_dispute-Keeps) depth 13

  attach_evidence-Keeps :
      (u : User) (d : Dispute) (f : FileObject) (t : Text) → Keeps Q (attach_evidence env u d f t)
  unfolding attach_evidence
  attach_evidence-Keeps u d f t = search dispute_rules depth 11

  -- So does evidence,
  pub add_evidence-Keeps : (u : User) (d f : Uuid) (t : Text) → Keeps Q (add_evidence env u d f t)
  unfolding add_evidence
  add_evidence-Keeps u d f t = search (dispute_rules, attach_evidence-Keeps) depth 12

  apply_step-Keeps :
      (u : User) (d : Dispute) (to : DisputeStatus) (t : Text) → Keeps Q (apply_step env u d to t)
  unfolding apply_step
  apply_step-Keeps u d to t = search dispute_rules depth 9

  -- and so does a step of the administrator.
  pub admin_transition-Keeps :
      (u : User) (d : Uuid) (to t : Text) → Keeps Q (admin_transition env u d to t)
  unfolding admin_transition
  admin_transition-Keeps u d to t = search (dispute_rules, apply_step-Keeps) depth 10

  pub close_dispute-Keeps : (o : Resolution) (d : DisputeDecision) → Keeps Q (close_dispute env o d)
  unfolding close_dispute
  close_dispute-Keeps o d = search dispute_rules depth 13

  pub finish_resolution-Keeps :
      (o : Resolution) (c : Contract) (a : Amounts) (fee : ℤ) (x : Option Confirmed)
      (j : JournalTransaction)
      → Keeps Q (finish_resolution env o c a fee x j)
  unfolding finish_resolution
  finish_resolution-Keeps o c a fee x j = search (dispute_rules, close_dispute-Keeps) depth 9

module _ {Q : Session → Type 0} (frame : Frame Q) (commits : Keeps Q commit)
    (env : Environment) where
  book_resolution-Keeps :
      (o : Resolution) (c : Contract) (e : MilestoneEscrow) (x : LedgerAccount) (funded : ℤ)
      (a : Amounts)
      → Keeps Q (book_resolution env o c e x funded a)
  unfolding book_resolution
  book_resolution-Keeps o c e x funded a = search (dispute_rules, finish_resolution-Keeps) depth 11

  resolve_disputed-Keeps : (o : Resolution) (a r : Option ℤ) → Keeps Q (resolve_disputed env o a r)
  unfolding resolve_disputed resolve_funded
  resolve_disputed-Keeps o a r = search (dispute_rules, book_resolution-Keeps) depth 13

  resolve_claimed-Keeps :
      (k : FinancialIdempotencyKey) (u : User) (d : Dispute) (t why : Text) (a r : Option ℤ)
      (key : Text)
      → Keeps Q (resolve_claimed env k u d t why a r key)
  unfolding resolve_claimed
  resolve_claimed-Keeps k u d t why a r key =
      search (dispute_rules, resolve_disputed-Keeps) depth 10

  -- A resolution keeps what the ledger and commits keep, however it ends.
  pub resolve_dispute-Keeps :
      (u : User) (d : Uuid) (t why : Text) (a r : Option ℤ) (key : Text)
      → Keeps Q (resolve_dispute env u d t why a r key)
  unfolding resolve_dispute
  resolve_dispute-Keeps u d t why a r key = search (dispute_rules, resolve_claimed-Keeps) depth 12
