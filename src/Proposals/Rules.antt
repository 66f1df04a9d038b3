-- ===== src/Proposals/Rules.antt =====
-- What the proposals service does to a property of the session that every write outside its table and
-- the ledger keeps: the writes to proposals keep it if the row written is good, and so is every row read.
use freelancing_platform.Prelude.{
  ℕ, suc, ◌+◌, Bool, true, false, Option, none, some, ◌≡◌, refl, ◌==◌, All, find?-All,
}
use freelancing_platform.Database.Rows.Texts.{Uuid}
use freelancing_platform.Database.Rows.Contract.{Contract, ContractVersion, Milestone}
use freelancing_platform.Database.Rows.Event.{AuditState, AuditAction, AuditEvent}
use freelancing_platform.Database.Rows.Proposal.{Project, Proposal, ProposalStatus, ProposalVersion}
use freelancing_platform.Database.Rows.Dispute.{User}
use freelancing_platform.Database.Tables.{Db}
use freelancing_platform.Database.Environment.{Environment, Error, api, validation_error}
use freelancing_platform.Database.Session.{
  Session, Action, pure, require, modify, raise_if, fresh_id, commit, rollback, ◌>>=◌, ◌>>◌,
}
use freelancing_platform.Database.Session.Keeps.{
  Keeps, Holds, Keeps-bind, Keeps-modify, Keeps-commit, Keeps-rollback, Keeps-catch, Keeps-run,
  Keeps-raise_if, keeps_rules,
}
use freelancing_platform.Payments.Effects.{
  add_audit_event, record_audit_event, add_proposal, save_proposal, add_contract, add_version,
  add_milestone,
}
use freelancing_platform.Proposals.{
  Offer, proposal_in, get_proposal, misses_price, version_from, new_version, first_draft, revised,
}
use freelancing_platform.Proposals.Transition.{with_status}
use freelancing_platform.Proposals.Consistent.{IsPriced, offered-IsPriced}

pub record Tends (Good : Proposal → Type 0) (Q : Session → Type 0) : Type 0 where
  pub write :
      (f : Db → Db)
      → ((db : Db) → (f db).journal_transactions ≡ db.journal_transactions)
      → ((db : Db) → (f db).proposals ≡ db.proposals)
      → (s : Session) → Q s
      → Q (record s { live = f s.live })
  pub adds : (p : Proposal) → Good p → Keeps Q (add_proposal p)
  pub saves : (p : Proposal) → Good p → Keeps Q (save_proposal p)
  pub known : (s : Session) → Q s → All Good s.live.proposals
  pub commits : Keeps Q commit
  pub rolls_back : Keeps Q rollback
  pub drafts :
      (id : Uuid) (project : Project) (user : User) (v : ProposalVersion)
      → v.version_number ≡ 1
      → IsPriced v
      → Good (first_draft id project user v)
  pub revises :
      (v : ProposalVersion) (p : Proposal)
      → Good p
      → v.version_number ≡ p.current_version + 1
      → IsPriced v
      → Good (revised v p)
  pub moves : (to : ProposalStatus) (p : Proposal) → Good p → Good (with_status to p)

abbrev skip_id : Db → Db
skip_id db = record db { next_id = suc db.next_id }

module _ {Good : Proposal → Type 0} {Q : Session → Type 0} (tends : Tends Good Q) where
  modify-Keeps :
      (f : Db → Db)
      → ((db : Db) → (f db).journal_transactions ≡ db.journal_transactions)
      → ((db : Db) → (f db).proposals ≡ db.proposals)
      → Keeps Q (modify f)
  modify-Keeps f same_journals same_proposals =
      Keeps-modify f (tends.write f same_journals same_proposals)

  pub fresh_id-Keeps : Keeps Q fresh_id
  unfolding ◌>>=◌
  fresh_id-Keeps = record { at = λ s h. tends.write skip_id (λ db. refl) (λ db. refl) s h }

  audit_row-Keeps : (e : AuditEvent) → Keeps Q (modify (add_audit_event e))
  audit_row-Keeps e = modify-Keeps _ (λ db. refl) (λ db. refl)

  pub audit-Keeps :
      (env : Environment) (a : AuditAction) (r : Uuid) (u : Option Uuid) (x y : Option AuditState)
      → Keeps Q (record_audit_event env a r u x y)
  unfolding record_audit_event
  audit-Keeps env a r u x y = search (keeps_rules, audit_row-Keeps)

  pub add_contract-Keeps : (c : Contract) → Keeps Q (add_contract c)
  unfolding add_contract
  add_contract-Keeps c = modify-Keeps _ (λ db. refl) (λ db. refl)

  pub add_version-Keeps : (v : ContractVersion) → Keeps Q (add_version v)
  unfolding add_version
  add_version-Keeps v = modify-Keeps _ (λ db. refl) (λ db. refl)

  pub add_milestone-Keeps : (m : Milestone) → Keeps Q (add_milestone m)
  unfolding add_milestone
  add_milestone-Keeps m = modify-Keeps _ (λ db. refl) (λ db. refl)

  pub commit-Keeps : Keeps Q commit
  commit-Keeps = tends.commits

  pub rollback-Keeps : Keeps Q rollback
  rollback-Keeps = tends.rolls_back

  pub add_proposal-Keeps : (p : Proposal) → Good p → Keeps Q (add_proposal p)
  add_proposal-Keeps = tends.adds

  pub save_proposal-Keeps : (p : Proposal) → Good p → Keeps Q (save_proposal p)
  save_proposal-Keeps = tends.saves

  -- What is known of a proposal that is found, and of a new version.
  module _ {A : Type 0} where
    required_then :
        (found : Option Proposal) (e : Error) (f : Proposal → Action A) (s : Session)
        → ((p : Proposal) → found ≡ some p → Good p)
        → ((p : Proposal) → Good p → Keeps Q (f p))
        → Q s
        → Q ((require found e >>= f) s).1
    unfolding ◌>>=◌
    required_then none e f s known kf h = h
    required_then (some p) e f s known kf h = (kf p (known p refl)).at s h

    pub get_proposal_then :
        (id : Uuid) (f : Proposal → Action A)
        → ((p : Proposal) → Good p → Keeps Q (f p))
        → Keeps Q (get_proposal id >>= f)
    unfolding get_proposal ◌>>=◌
    get_proposal_then id f kf = record {
      at = λ s h.
          required_then (proposal_in id s.live) _ f s
            (λ p found. find?-All Good (λ p. p.id == id) s.live.proposals p (tends.known s h) found)
            kf h;
    }

    priced_then :
        (b : Bool) (number : ℕ) (o : Offer) (f : ProposalVersion → Action A) (s : Session)
        → misses_price o ≡ b
        → ((v : ProposalVersion) → v.version_number ≡ number → IsPriced v → Keeps Q (f v))
        → Q s
        → Q
            ((raise_if b (api validation_error 422)
                >> (fresh_id >>= λ id. pure (version_from id number o))
                >>= f)
              s).1
    unfolding ◌>>=◌
    priced_then true number o f s fits kf h = h
    priced_then false number o f s fits kf h =
        (kf (version_from s.live.next_id number o) refl
            (offered-IsPriced s.live.next_id number o fits)).at
          (record s { live = skip_id s.live }) (tends.write skip_id (λ db. refl) (λ db. refl) s h)

    pub new_version_then :
        (number : ℕ) (o : Offer) (f : ProposalVersion → Action A)
        → ((v : ProposalVersion) → v.version_number ≡ number → IsPriced v → Keeps Q (f v))
        → Keeps Q (new_version number o >>= f)
    unfolding new_version
    new_version_then number o f kf = record {
      at = λ s h. priced_then (misses_price o) number o f s refl kf h;
    }

pub ruleset other_rules = (
  keeps_rules, fresh_id-Keeps, audit-Keeps, add_contract-Keeps, add_version-Keeps,
  add_milestone-Keeps, commit-Keeps, rollback-Keeps,
)

pub ruleset proposal_rules =
    (other_rules, add_proposal-Keeps, save_proposal-Keeps, get_proposal_then, new_version_then)
