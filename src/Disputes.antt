-- ===== src/Disputes.antt =====
-- app/disputes/service.py: opening, evidence, the administrator's steps and the reads. Resolution, which
-- moves the money, is in Disputes/Resolve. Row locks are not written out.
pub mod Review
pub mod Amounts
pub mod Resolve
pub mod Framing
pub mod Split
pub mod Credits
pub mod Settled
pub mod Decided
pub mod Frozen
pub mod Reviewed
pub mod Blocked
pub mod Confirmation
use freelancing_platform.Prelude.{
  ℕ, Bool, true, false, not, Option, none, some, List, [], ◌∷◌, ◌++◌, map, ◌||◌, ◌&&◌, ◌==◌, ltb,
  length, find?, any, is_some, if◌then◌else◌,
}
use freelancing_platform.Database.Rows.Texts.{Text, Uuid}
use freelancing_platform.Database.Rows.Contract.{
  Contract, active, same_contract_status, Milestone, MilestoneStatus, funded, in_progress,
  submitted, changes_requested, disputed, approved,
}
use freelancing_platform.Database.Rows.Dispute.{
  User, Role, admin, FileObject, FilePurpose, dispute_evidence, FileStatus, safe, Dispute,
  DisputeStatus, dispute_open, evidence_collection, under_review, need_more_info, resolved, Outcome,
  DisputeParty, employer_role, freelancer_role, DisputeEvidence, DisputeEvent, opened_event,
  evidence_added, admin_transition_event, Snapshot, state_snapshot, evidence_count,
}
use freelancing_platform.Database.Rows.Event.{
  snapshot_state, AuditAction, DisputeNotice, dispute_opened_notice, notification_requested,
  dispute_opened_action, dispute_transitioned, dispute_evidence_added,
}
use freelancing_platform.Database.Environment.{
  Environment, api, forbidden, invalid_state, invalid_transition, validation_error, dispute_exists,
  dispute_not_found, file_not_found, invalid_evidence_file, evidence_exists,
}
use freelancing_platform.Database.Session.{
  Action, pure, raise, gets, require, ◌>>=◌, ◌>>◌, raise_if, arriving, fresh_id, commit,
}
use freelancing_platform.Payments.Effects.{
  add_dispute, save_dispute, save_milestone, enqueue_outbox_event, record_audit_event,
}
use freelancing_platform.Payments.Queries.{get_milestone, contract_of}

abbrev is_admin_role : Role → Bool
is_admin_role admin = true
is_admin_role _ = false

-- `_is_admin`
abbrev pub is_admin : User → Bool
is_admin u = any is_admin_role u.roles

-- `_require_admin`
unfoldable pub require_admin : User → Action (Unit {0})
require_admin u = raise_if (not (is_admin u)) (api forbidden 403)

-- `_require_party`
abbrev pub is_contract_side : User → Contract → Bool
is_contract_side u c = u.id == c.employer_user_id || u.id == c.freelancer_user_id

-- `_required_text`
unfoldable pub required_text : Environment → Text → ℕ → Action Text
required_text env value max_length = do
  let normalized = env.strip value
  let size = env.text_length normalized
  raise_if (size == 0 || ltb max_length size) (api validation_error 422)
  pure normalized

-- `_dispute` and `_locked_dispute`
unfoldable pub get_dispute : Uuid → Action Dispute
get_dispute id = do
  found ← gets (λ db. find? (λ d. d.id == id) db.disputes)
  require found (api dispute_not_found 404)

-- `_OPENABLE_MILESTONE_STATES`
abbrev pub is_openable : MilestoneStatus → Bool
is_openable funded = true
is_openable in_progress = true
is_openable submitted = true
is_openable changes_requested = true
is_openable approved = true
is_openable _ = false

-- `_EVIDENCE_STATES`
abbrev pub takes_evidence : DisputeStatus → Bool
takes_evidence dispute_open = true
takes_evidence evidence_collection = true
takes_evidence need_more_info = true
takes_evidence _ = false

-- `_ADMIN_TRANSITIONS`
abbrev pub admin_allows : DisputeStatus → DisputeStatus → Bool
admin_allows dispute_open evidence_collection = true
admin_allows evidence_collection under_review = true
admin_allows under_review need_more_info = true
admin_allows need_more_info evidence_collection = true
admin_allows need_more_info under_review = true
admin_allows _ _ = false

abbrev pub is_party : Uuid → Dispute → Bool
is_party user d = any (λ p. p.user_id == user) d.parties

-- `_notify_other_party` and `_notify_all_parties`: one event for each party that is told.
unfoldable pub notify_parties :
    (DisputeParty → Bool) → Uuid → DisputeNotice → List DisputeParty → Action (Unit {0})
notify_parties told dispute notice [] = pure tt
notify_parties told dispute notice (p ∷ rest) = do
  if told p then enqueue_outbox_event (notification_requested dispute p.user_id notice) else pure tt
  notify_parties told dispute notice rest

-- `_audit_state_change`
unfoldable pub audit_state_change :
    Environment → AuditAction → Uuid → Uuid → Snapshot → Snapshot → Action (Unit {0})
audit_state_change env action dispute actor before after =
    record_audit_event env action dispute (some actor) (some (snapshot_state before))
      (some (snapshot_state after))

abbrev pub for_milestone : Uuid → Dispute → Bool
for_milestone milestone d = d.milestone_id == milestone

abbrev pub frozen_by : Uuid → Milestone → Milestone
frozen_by user m = record m {
  status = disputed;
  events =
      m.events
      ++ record { actor_user_id = some user; from_status = m.status; to_status = disputed } ∷ [];
}

-- The dispute with its two parties and the event of its opening.
abbrev pub new_dispute : Uuid → User → Milestone → Contract → Text → Dispute
new_dispute id user m c reason = record {
  id = id;
  milestone_id = m.id;
  contract_id = c.id;
  opened_by_user_id = user.id;
  status = dispute_open;
  reason = reason;
  resolved_at = none;
  parties =
      record { user_id = c.employer_user_id; role = employer_role }
      ∷ record { user_id = c.freelancer_user_id; role = freelancer_role }
      ∷ [];
  evidence = [];
  events =
      record {
        actor_user_id = user.id;
        event_type = opened_event;
        from_status = none;
        to_status = some dispute_open;
        reason = reason;
        before_state = state_snapshot m.status none none;
        after_state = state_snapshot disputed (some dispute_open) none;
      }
      ∷ [];
  decision = none;
}

unfoldable pub announce_dispute : User → Dispute → Action Dispute
announce_dispute user d = do
  notify_parties (λ p. not (p.user_id == user.id)) d.id dispute_opened_notice d.parties
  commit
  pure d

module _ (env : Environment) where
  -- The insert and what follows it.
  unfoldable pub file_dispute : User → Milestone → Contract → Text → Action Dispute
  file_dispute user m c reason = do
    id ← fresh_id
    let d = new_dispute id user m c reason
    add_dispute d
    save_milestone (frozen_by user.id m)
    audit_state_change env dispute_opened_action id user.id (state_snapshot m.status none none)
        (state_snapshot disputed (some dispute_open) none)
    announce_dispute user d

  -- `UniqueConstraint("milestone_id")`: another transaction's dispute makes the insert fail.
  unfoldable pub insert_dispute : User → Milestone → Contract → Text → Action Dispute
  insert_dispute user m c reason = do
    taken ← gets (λ db. any (for_milestone m.id) db.disputes)
    raise_if taken (api dispute_exists 409)
    others ← arriving
    raise_if (any (for_milestone m.id) others.disputes) (api dispute_exists 409)
    file_dispute user m c reason

  unfoldable pub open_checked : User → Milestone → Contract → Text → Action Dispute
  open_checked user m c reason = do
    raise_if (not (is_contract_side user c)) (api forbidden 403)
    raise_if (not (same_contract_status c.status active)) (api invalid_state 409)
    raise_if (not (is_openable m.status)) (api invalid_transition 409)
    insert_dispute user m c reason

  unfoldable pub open_dispute : User → Uuid → Text → Action Dispute
  open_dispute user milestone_id reason = do
    normalized ← required_text env reason 4000
    m ← get_milestone milestone_id
    c ← contract_of m
    open_checked user m c normalized

  unfoldable pub get_dispute_for_user : User → Uuid → Action Dispute
  get_dispute_for_user user id = do
    d ← get_dispute id
    raise_if (not (is_admin user) && not (is_party user.id d)) (api forbidden 403)
    pure d
