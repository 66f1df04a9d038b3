-- ===== src/Disputes/Frozen.antt =====
-- Opening a dispute freezes its milestone: `open_dispute` of app/disputes/service.py.
use freelancing_platform.Prelude.{
  ℕ, Bool, true, false, not-false, ◌≡◌, ◌∙◌, refl, ap, sym, subst, some, List, [], ◌∷◌, ◌==◌, find?,
  any,
}
use freelancing_platform.Database.Rows.Texts.{Text, Uuid}
use freelancing_platform.Database.Rows.Contract.{Contract, Milestone, active, same_contract_status}
use freelancing_platform.Database.Rows.Dispute.{User, Dispute, DisputeParty}
use freelancing_platform.Database.Rows.Event.{DisputeNotice}
use freelancing_platform.Database.Tables.{Db, replace}
use freelancing_platform.Database.Tables.Replaced.{found_by_own_id, find?-replace}
use freelancing_platform.Database.Environment.{Environment, ok}
use freelancing_platform.Database.Session.{Session, ◌>>=◌, commit}
use freelancing_platform.Database.Session.Keeps.{
  Keeps, keeps_rules, Keeps-bind, Keeps-if, Keeps-pure, Keeps-modify,
}
use freelancing_platform.Database.Session.Durable.{IsDurable, durable_rules}
use freelancing_platform.Database.Session.Steps.{
  pure_returned, bind_inv, bind-reader, bind-raise_if, bind-gets, bind-arriving,
}
use freelancing_platform.Payments.Effects.{
  enqueue_outbox_event, add_dispute, save_milestone, record_audit_event,
}
use freelancing_platform.Payments.Queries.Found.{
  milestone_in, bind-get_milestone, contract_of-reads, IsContractOf, contract_of-IsContractOf,
}
use freelancing_platform.Disputes.{
  required_text, notify_parties, audit_state_change, announce_dispute, file_dispute, insert_dispute,
  open_checked, open_dispute, is_contract_side, is_openable, for_milestone, frozen_by, new_dispute,
}

-- The milestones and the disputes of the live rows.
abbrev Shows : List Milestone → List Dispute → Session → Type 0
Shows ms ds s = (s.live.milestones ≡ ms) × (s.live.disputes ≡ ds)

module _ (ms : List Milestone) (ds : List Dispute) where
  notify-Shows :
      (told : DisputeParty → Bool) (d : Uuid) (n : DisputeNotice) (ps : List DisputeParty)
      → Keeps (Shows ms ds) (notify_parties told d n ps)
  unfolding notify_parties enqueue_outbox_event
  notify-Shows told d n [] = Keeps-pure tt
  notify-Shows told d n (p ∷ ps) =
      Keeps-bind _ _ (Keeps-if (told p) _ _ (Keeps-modify _ (λ s h. h)) (Keeps-pure tt))
        (λ _. notify-Shows told d n ps)

announce-IsDurable : (u : User) (d : Dispute) → IsDurable (announce_dispute u d)
unfolding announce_dispute
announce-IsDurable u d = search durable_rules depth 9

announce-Shows :
    (ms : List Milestone) (ds : List Dispute) (u : User) (d : Dispute)
    → Keeps (Shows ms ds) (announce_dispute u d)
unfolding announce_dispute ◌>>=◌
announce-Shows ms ds u d =
    Keeps-bind _ _ (notify-Shows ms ds _ _ _ d.parties)
      (λ _. Keeps-bind commit _ (record { at = λ s h. h }) (λ _. Keeps-pure d))

announce_returned :
    (u : User) (d d' : Dispute) (s : Session) → (announce_dispute u d s).0 ≡ ok d' → d' ≡ d
unfolding announce_dispute
announce_returned u d d' s h =
    let (x, ex, e1) = bind_inv _ _ s d' h in
    let r1 = sym (ap (λ x. x.0) e1) ∙ h in
    let (y, ey, e2) = bind_inv commit _ _ d' r1 in
    pure_returned d d' _ (sym (ap (λ x. x.0) e2) ∙ r1)

announced :
    (u : User) (d d' : Dispute) (s : Session)
    → (announce_dispute u d s).0 ≡ ok d'
    → (d' ≡ d)
      × ((announce_dispute u d s).1.saved.milestones ≡ s.live.milestones)
      × ((announce_dispute u d s).1.saved.disputes ≡ s.live.disputes)
announced u d d' s h =
    let saved = (announce-IsDurable u d).at s d' h in
    let (ms, ds) = (announce-Shows s.live.milestones s.live.disputes u d).at s (refl, refl) in
    (
      announce_returned u d d' s h,
      ap (λ (db : Db). db.milestones) saved ∙ ms,
      ap (λ (db : Db). db.disputes) saved ∙ ds,
    )

-- A dispute of a party to an active contract, the first of its milestone, which it freezes.
pub record IsOpened (user : User) (m : Milestone) (c : Contract) (reason : Text) (d : Dispute)
    (before after : Db) : Type 0 where
  pub side : is_contract_side user c ≡ true
  pub in_force : same_contract_status c.status active ≡ true
  pub openable : is_openable m.status ≡ true
  pub first : any (for_milestone m.id) before.disputes ≡ false
  pub made : d ≡ new_dispute before.next_id user m c reason
  pub filed : after.disputes ≡ d ∷ before.disputes
  pub frozen : milestone_in m.id after ≡ some (frozen_by user.id m)

module _ (env : Environment) (user : User) (m : Milestone) (c : Contract) (reason : Text)
    (s : Session) (d : Dispute) where
  abbrev made : Dispute
  made = new_dispute s.live.next_id user m c reason

  file_dispute-Shows :
      (file_dispute env user m c reason s).0 ≡ ok d
      → (d ≡ made)
        × ((file_dispute env user m c reason s).1.saved.milestones
            ≡ replace (λ r. r.id) (frozen_by user.id m) s.live.milestones)
        × ((file_dispute env user m c reason s).1.saved.disputes ≡ made ∷ s.live.disputes)
  unfolding file_dispute add_dispute save_milestone audit_state_change record_audit_event ◌>>=◌
  file_dispute-Shows returned = announced user made d _ returned

  insert_dispute-IsOpened :
      (insert_dispute env user m c reason s).0 ≡ ok d
      → (any (for_milestone m.id) s.live.disputes ≡ false)
        × (d ≡ made)
        × ((insert_dispute env user m c reason s).1.saved.milestones
            ≡ replace (λ r. r.id) (frozen_by user.id m) s.live.milestones)
        × ((insert_dispute env user m c reason s).1.saved.disputes ≡ made ∷ s.live.disputes)
  unfolding insert_dispute
  insert_dispute-IsOpened returned =
      let e1 = bind-gets _ _ s in
      let r1 = sym (ap (λ x. x.0) e1) ∙ returned in
      let (first, e2) = bind-raise_if _ _ _ s d r1 in
      let r2 = sym (ap (λ x. x.0) e2) ∙ r1 in
      let e3 = bind-arriving _ s in
      let r3 = sym (ap (λ x. x.0) e3) ∙ r2 in
      let (no_rival, e4) = bind-raise_if _ _ _ s d r3 in
      let r4 = sym (ap (λ x. x.0) e4) ∙ r3 in
      let (is_made, ms, ds) = file_dispute-Shows r4 in
      let to_file = e1 ∙ e2 ∙ e3 ∙ e4 in
      (
        first,
        is_made,
        ap (λ x. x.1.saved.milestones) to_file ∙ ms,
        ap (λ x. x.1.saved.disputes) to_file ∙ ds,
      )

  open_checked-IsOpened :
      (open_checked env user m c reason s).0 ≡ ok d
      → milestone_in m.id s.live ≡ some m
      → IsOpened user m c reason d s.live (open_checked env user m c reason s).1.saved
  unfolding open_checked
  open_checked-IsOpened returned found =
      let (p1, e1) = bind-raise_if _ _ _ s d returned in
      let r1 = sym (ap (λ x. x.0) e1) ∙ returned in
      let (p2, e2) = bind-raise_if _ _ _ s d r1 in
      let r2 = sym (ap (λ x. x.0) e2) ∙ r1 in
      let (p3, e3) = bind-raise_if _ _ _ s d r2 in
      let r3 = sym (ap (λ x. x.0) e3) ∙ r2 in
      let (first, is_made, ms, ds) = insert_dispute-IsOpened r3 in
      let to_insert = e1 ∙ e2 ∙ e3 in
      record {
        side = not-false _ p1;
        in_force = not-false _ p2;
        openable = not-false _ p3;
        first = first;
        made = is_made;
        filed =
            ap (λ x. x.1.saved.disputes) to_insert
            ∙ ds
            ∙ ap (λ (x : Dispute). x ∷ s.live.disputes) (sym is_made);
        frozen =
            ap (find? (λ r. r.id == m.id)) (ap (λ x. x.1.saved.milestones) to_insert ∙ ms)
            ∙ find?-replace (λ (r : Milestone). r.id) (frozen_by user.id m) m.id s.live.milestones m
                refl found;
      }

pub required_text-reads :
    (env : Environment) (t : Text) (n : ℕ) (s : Session)
    → Keeps (λ x. x ≡ s) (required_text env t n)
unfolding required_text
required_text-reads env t n s = search keeps_rules

module _ (env : Environment) (user : User) (id : Uuid) (reason : Text) (s : Session)
    (d : Dispute) where
  -- A dispute that is opened is the first on its milestone, and whoever opens it is a party to the
  -- contract that the milestone belongs to, which is active; the milestone, whose escrow is still to be released, is found DISPUTED in the committed rows from
  -- then on, and the dispute stands there OPEN with both parties.
  pub open_dispute-IsOpened :
      (open_dispute env user id reason s).0 ≡ ok d
      → (m : Milestone) × (c : Contract) × (milestone_in id s.live ≡ some m)
        × IsContractOf m c s.live
        × IsOpened user m c d.reason d s.live (open_dispute env user id reason s).1.saved
  unfolding open_dispute
  open_dispute-IsOpened returned =
      let (t, et, e1) = bind-reader _ _ s d (required_text-reads env reason 4000 s) returned in
      let r1 = sym (ap (λ x. x.0) e1) ∙ returned in
      let (m, found, e2) = bind-get_milestone s d id _ r1 in
      let r2 = sym (ap (λ x. x.0) e2) ∙ r1 in
      let (c, ec, e3) = bind-reader _ _ s d (contract_of-reads s m) r2 in
      let r3 = sym (ap (λ x. x.0) e3) ∙ r2 in
      let opened =
        open_checked-IsOpened env user m c t s d r3
          (found_by_own_id (λ (r : Milestone). r.id) id s.live.milestones m found) in
      (
        m,
        c,
        found,
        contract_of-IsContractOf m c s (ap (λ x. x.0) ec),
        subst (λ x. IsOpened user m c d.reason d s.live x.1.saved) (sym (e1 ∙ e2 ∙ e3))
            (subst (λ w. IsOpened user m c w d s.live (open_checked env user m c t s).1.saved)
              (sym (ap (λ (x : Dispute). x.reason) opened.made)) opened),
      )
