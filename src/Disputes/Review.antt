-- ===== src/Disputes/Review.antt =====
-- Evidence and the administrator's steps of a dispute: app/disputes/service.py.
use freelancing_platform.Prelude.{
  Bool, true, false, not, Option, none, some, [], ◌∷◌, ◌++◌, ◌==◌, ltb, length, find?, any,
  if◌then◌else◌, ◌+◌,
}
use freelancing_platform.Database.Rows.Texts.{Text, Uuid}
use freelancing_platform.Database.Rows.Contract.{Milestone}
use freelancing_platform.Database.Rows.Dispute.{
  User, FileObject, FilePurpose, dispute_evidence, FileStatus, safe, Dispute, DisputeStatus,
  DisputeEvidence, evidence_added, admin_transition_event, state_snapshot, evidence_count,
}
use freelancing_platform.Database.Rows.Event.{dispute_transitioned, dispute_evidence_added}
use freelancing_platform.Database.Environment.{
  Environment, api, forbidden, invalid_state, invalid_transition, validation_error, file_not_found,
  invalid_evidence_file, evidence_exists,
}
use freelancing_platform.Database.Session.{
  Action, pure, gets, require, ◌>>=◌, ◌>>◌, raise_if, fresh_id, commit,
}
use freelancing_platform.Payments.Effects.{save_dispute, record_audit_event}
use freelancing_platform.Payments.Queries.{get_milestone}
use freelancing_platform.Disputes.{
  require_admin, required_text, get_dispute, takes_evidence, admin_allows, is_party,
  audit_state_change,
}

abbrev is_evidence_purpose : FilePurpose → Bool
is_evidence_purpose dispute_evidence = true
is_evidence_purpose _ = false

abbrev is_safe : FileStatus → Bool
is_safe safe = true
is_safe _ = false

abbrev pub is_clean_evidence : FileObject → Bool
is_clean_evidence f = if is_evidence_purpose f.purpose then is_safe f.status else false

unfoldable pub get_file : Uuid → Action FileObject
get_file id = do
  found ← gets (λ db. find? (λ f. f.id == id) db.file_objects)
  require found (api file_not_found 404)

abbrev pub attached : Environment → Uuid → User → FileObject → Text → Dispute → Dispute
attached env id user f note d = record d {
  evidence =
      d.evidence
      ++ record { id = id; submitted_by_user_id = user.id; file_id = f.id; note = note } ∷ [];
  events =
      d.events
      ++ record {
        actor_user_id = user.id;
        event_type = evidence_added;
        from_status = some d.status;
        to_status = some d.status;
        reason = if env.text_length note == 0 then env.evidence_submitted else note;
        before_state = evidence_count (length d.evidence);
        after_state = evidence_count (length d.evidence + 1);
      }
        ∷ [];
}

-- The target of a transition: a text that spells no status is in no set of `_ADMIN_TRANSITIONS`.
abbrev pub allowed_step : DisputeStatus → Option DisputeStatus → Option DisputeStatus
allowed_step from none = none
allowed_step from (some to) = if admin_allows from to then some to else none

abbrev pub moved_to : User → DisputeStatus → Milestone → Text → Dispute → Dispute
moved_to user to m reason d = record d {
  status = to;
  events =
      d.events
      ++ record {
        actor_user_id = user.id;
        event_type = admin_transition_event;
        from_status = some d.status;
        to_status = some to;
        reason = reason;
        before_state = state_snapshot m.status (some d.status) none;
        after_state = state_snapshot m.status (some to) none;
      }
        ∷ [];
}

module _ (env : Environment) where
  -- `UniqueConstraint("dispute_id", "file_id")`, as the new row is flushed.
  unfoldable pub attach_evidence : User → Dispute → FileObject → Text → Action DisputeEvidence
  attach_evidence user d f note = do
    raise_if (any (λ e. e.file_id == f.id) d.evidence) (api evidence_exists 409)
    id ← fresh_id
    save_dispute (attached env id user f note d)
    record_audit_event env dispute_evidence_added d.id (some user.id) none none
    commit
    pure (record { id = id; submitted_by_user_id = user.id; file_id = f.id; note = note })

  unfoldable pub add_evidence : User → Uuid → Uuid → Text → Action DisputeEvidence
  add_evidence user dispute_id file_id note = do
    d ← get_dispute dispute_id
    raise_if (not (is_party user.id d)) (api forbidden 403)
    raise_if (not (takes_evidence d.status)) (api invalid_state 409)
    let normalized = env.strip note
    raise_if (ltb 4000 (env.text_length normalized)) (api validation_error 422)
    f ← get_file file_id
    raise_if (not (f.owner_user_id == user.id)) (api forbidden 403)
    raise_if (not (is_clean_evidence f)) (api invalid_evidence_file 409)
    attach_evidence user d f normalized

  unfoldable pub apply_step : User → Dispute → DisputeStatus → Text → Action Dispute
  apply_step administrator d to reason = do
    m ← get_milestone d.milestone_id
    let d' = moved_to administrator to m reason d
    save_dispute d'
    audit_state_change env dispute_transitioned d.id administrator.id
        (state_snapshot m.status (some d.status) none) (state_snapshot m.status (some to) none)
    commit
    pure d'

  unfoldable pub admin_transition : User → Uuid → Text → Text → Action Dispute
  admin_transition administrator dispute_id to_status reason = do
    require_admin administrator
    d ← get_dispute dispute_id
    normalized ← required_text env reason 4000
    let target = env.dispute_status_named (env.upper (env.strip to_status))
    to ← require (allowed_step d.status target) (api invalid_transition 409)
    apply_step administrator d to normalized
