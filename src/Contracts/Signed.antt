-- ===== src/Contracts/Signed.antt =====
-- What a signature that returns has done.
use freelancing_platform.Prelude.{
  Bool, true, false, not-false, inl, inr, ◌⊎◌, ◌≡◌, ◌∙◌, refl, ap, sym, subst, Option, none, some,
  ◌∷◌, ==_iff, ◌==◌, ◌&&◌, List, find?, find?_passes, find?-Any, both_true, Any, arith,
}
use freelancing_platform.Database.Rows.Texts.{Text, Uuid}
use freelancing_platform.Database.Rows.Contract.{
  Contract, ContractVersion, ContractSignature, cancelled, same_contract_status,
}
use freelancing_platform.Database.Rows.Event.{contract_signed, contract_activated}
use freelancing_platform.Database.Tables.{Db, put_contract}
use freelancing_platform.Database.Tables.Replaced.{found_by_own_id, find?-replace}
use freelancing_platform.Database.Environment.{Environment, Result, ok}
use freelancing_platform.Database.Session.{Session, commit, ◌>>=◌, ◌>>◌}
use freelancing_platform.Database.Session.Steps.{
  bind-lookup, bind-raise_if, bind-gets, bind-fresh_id, bind-arriving, after_id, lookup_found,
}
use freelancing_platform.Payments.Effects.{
  save_contract, add_signature, record_audit_event, add_audit_event,
}
use freelancing_platform.Contracts.FullySigned.{
  HasSigned, AllHaveSigned, is_signed_by_iff, is_fully_signed_iff,
}
use freelancing_platform.Contracts.{
  contract_in, get_contract, is_contract_party, version_in, current_contract_version, is_signed_by,
  is_fully_signed, new_signature, state_of, activated, activate_if, complete_signature,
  record_signature, sign_unless_signed, sign_unless_prior, sign_contract,
}

-- The signature is among the committed rows, and the contract is active now exactly if some party has
-- to sign and every party that has to has signed its version.
abbrev pub IsRecorded :
    Environment → Contract → ContractVersion → Uuid → Result Contract × Session → Type 0
IsRecorded env c v user x =
    HasSigned v user x.1.saved
    × ((AllHaveSigned c v x.1.saved
          × (x.0 ≡ ok (activated env c))
          × (contract_in c.id x.1.saved ≡ some (activated env c)))
        ⊎ ((¬ AllHaveSigned c v x.1.saved) × (x.0 ≡ ok c) × (contract_in c.id x.1.saved ≡ some c)))

module _ (env : Environment) (c : Contract) (v : ContractVersion) (user : Uuid) (id : Uuid)
    (key : Text) (s : Session) (found : contract_in c.id s.live ≡ some c) where
  abbrev signature : ContractSignature
  signature = new_signature id v user key

  abbrev signed_rows : Db
  signed_rows = record s.live { contract_signatures = signature ∷ s.live.contract_signatures }

  is_signed_now : HasSigned v user signed_rows
  is_signed_now = inl (refl, refl)

  -- The rows with the audit event of the signature, and those of the activation.
  abbrev audited_rows : Db
  audited_rows =
      add_audit_event
        (record {
          actor_user_id = some user;
          action = contract_signed;
          resource_id = c.id;
          previous_state_hash = some (env.state_hash (state_of c v (some false)));
          new_state_hash = some (env.state_hash (state_of c v (some true)));
        })
        signed_rows

  abbrev activated_rows : Db
  activated_rows =
      add_audit_event
        (record {
          actor_user_id = some user;
          action = contract_activated;
          resource_id = c.id;
          previous_state_hash = some (env.state_hash (state_of c v none));
          new_state_hash = some (env.state_hash (state_of (activated env c) v none));
        })
        (put_contract (activated env c) audited_rows)

  abbrev both_at : Db → Session
  both_at db = record s { saved = db; live = db }

  abbrev finish : Bool → Result Contract × Session
  finish b =
      (do activate_if env b c v user; commit; get_contract c.id) (record s { live = audited_rows })

  activated_found : contract_in c.id activated_rows ≡ some (activated env c)
  activated_found = find?-replace (λ r. r.id) (activated env c) c.id s.live.contracts c refl found

  finish_active : finish true ≡ (ok (activated env c), both_at activated_rows)
  unfolding activate_if save_contract record_audit_event get_contract ◌>>=◌
  finish_active =
      lookup_found (contract_in c.id) _ (both_at activated_rows) (activated env c) activated_found

  finish_open : finish false ≡ (ok c, both_at audited_rows)
  unfolding activate_if get_contract ◌>>=◌
  finish_open = lookup_found (contract_in c.id) _ (both_at audited_rows) c found

  to_finish : complete_signature env c v user signature s ≡ finish (is_fully_signed c v signed_rows)
  unfolding complete_signature add_signature record_audit_event ◌>>=◌
  to_finish = refl

  recorded :
      (b : Bool)
      → is_fully_signed c v signed_rows ≡ b
      → IsRecorded env c v user (complete_signature env c v user signature s)
  recorded true full =
      subst (IsRecorded env c v user) (sym (to_finish ∙ ap finish full ∙ finish_active))
        (is_signed_now, inl ((is_fully_signed_iff c v signed_rows).0 full, refl, activated_found))
  recorded false partial =
      subst (IsRecorded env c v user) (sym (to_finish ∙ ap finish partial ∙ finish_open)) (
        is_signed_now,
        inr (
          (λ all. let full = (is_fully_signed_iff c v signed_rows).1 all in ground arith),
          refl,
          found,
        ),
      )

-- The signature that a key of the user stands for.
abbrev is_prior : Uuid → Text → ContractSignature → Bool
is_prior user key s = s.user_id == user && s.idempotency_key_hash == key

prior_has_signed :
    (v : ContractVersion) (user : Uuid) (key : Text) (prior : ContractSignature)
    (xs : List ContractSignature)
    → find? (is_prior user key) xs ≡ some prior
    → prior.contract_version_id ≡ v.id
    → Any (λ (s : ContractSignature). (s.contract_version_id ≡ v.id) × (s.user_id ≡ user)) xs
prior_has_signed v user key prior xs found of_version =
    let passes = find?_passes (is_prior user key) xs {a = prior} found in
    find?-Any _ (is_prior user key) xs prior found
      (of_version, (==_iff prior.user_id user).0 (both_true _ _ passes).0)

-- A signature that returns: the user had signed the version before, and nothing is written, or the
-- signature is recorded now.
abbrev pub IsSigned :
    Environment → Contract → ContractVersion → Uuid → Session → Result Contract × Session → Type 0
IsSigned env c v user s x = (HasSigned v user s.live × (x ≡ (ok c, s))) ⊎ IsRecorded env c v user x

module _ (env : Environment) (user : Uuid) (s : Session) (c' : Contract) (c : Contract)
    (v : ContractVersion) (key_hash : Text) (found : contract_in c.id s.live ≡ some c) where
  get_again : get_contract c.id s ≡ (ok c, s)
  unfolding get_contract
  get_again = lookup_found (contract_in c.id) _ s c found

  record_signature_returned :
      (record_signature env c v user key_hash s).0 ≡ ok c'
      → IsRecorded env c v user (record_signature env c v user key_hash s)
  unfolding record_signature
  record_signature_returned returned =
      let e1 = bind-fresh_id _ s in
      let r1 = sym (ap (λ x. x.0) e1) ∙ returned in
      let e2 = bind-arriving _ (after_id s) in
      let r2 = sym (ap (λ x. x.0) e2) ∙ r1 in
      let (p3, e3) = bind-raise_if _ _ _ (after_id s) c' r2 in
      subst (IsRecorded env c v user) (sym (e1 ∙ e2 ∙ e3))
        (recorded env c v user s.live.next_id key_hash (after_id s) found _ refl)

  sign_unless_signed_returned :
      (b : Bool)
      → is_signed_by v user s.live ≡ b
      → (sign_unless_signed env b c v user key_hash s).0 ≡ ok c'
      → IsSigned env c v user s (sign_unless_signed env b c v user key_hash s)
  unfolding sign_unless_signed
  sign_unless_signed_returned true before returned =
      inl ((is_signed_by_iff v user s.live).0 before, get_again)
  sign_unless_signed_returned false before returned = inr (record_signature_returned returned)

  sign_unless_prior_returned :
      (prior : Option ContractSignature)
      → find? (is_prior user key_hash) s.live.contract_signatures ≡ prior
      → (sign_unless_prior env prior c v user key_hash s).0 ≡ ok c'
      → IsSigned env c v user s (sign_unless_prior env prior c v user key_hash s)
  unfolding sign_unless_prior
  sign_unless_prior_returned (some prior) found_prior returned =
      let (other, e1) = bind-raise_if _ _ _ s c' returned in
      inl (
        prior_has_signed v user key_hash prior s.live.contract_signatures found_prior
            ((==_iff prior.contract_version_id v.id).0 (not-false _ other)),
        e1 ∙ get_again,
      )
  sign_unless_prior_returned none absent returned =
      let e1 = bind-gets _ _ s in
      let r1 = sym (ap (λ x. x.0) e1) ∙ returned in
      subst (IsSigned env c v user s) (sym e1) (sign_unless_signed_returned _ refl r1)

-- The user is a party of the contract, which is not cancelled, and has seen its current version.
pub record MaySign (user id : Uuid) (hash : Text) (c : Contract) (v : ContractVersion) (db : Db)
    : Type 0 where
  pub contract : contract_in id db ≡ some c
  pub party : is_contract_party user c ≡ true
  pub uncancelled : same_contract_status c.status cancelled ≡ false
  pub version : version_in c db ≡ some v
  pub document : (hash == v.document_hash) ≡ true

module _ (env : Environment) (user id : Uuid) (key hash : Text) (s : Session) (c' : Contract) where
  -- A signature that returns came from a party of a contract that is not cancelled, for the document
  -- of its current version. Either the party had signed the version before and nothing is written, or
  -- the signature is among the committed rows, and the contract with it becomes active exactly if some
  -- party has to sign and now every party that has to has signed the version.
  pub sign_contract-IsSigned :
      (sign_contract env user id key hash s).0 ≡ ok c'
      → (c : Contract) × (v : ContractVersion) × MaySign user id hash c v s.live
        × IsSigned env c v user s (sign_contract env user id key hash s)
  unfolding sign_contract current_contract_version get_contract
  sign_contract-IsSigned returned =
      let (c, found, e1) = bind-lookup _ _ _ s c' returned in
      let r1 = sym (ap (λ x. x.0) e1) ∙ returned in
      let (p2, e2) = bind-raise_if _ _ _ s c' r1 in
      let r2 = sym (ap (λ x. x.0) e2) ∙ r1 in
      let (p3, e3) = bind-raise_if _ _ _ s c' r2 in
      let r3 = sym (ap (λ x. x.0) e3) ∙ r2 in
      let (v, version, e4) = bind-lookup _ _ _ s c' r3 in
      let r4 = sym (ap (λ x. x.0) e4) ∙ r3 in
      let (p5, e5) = bind-raise_if _ _ _ s c' r4 in
      let r5 = sym (ap (λ x. x.0) e5) ∙ r4 in
      let e6 = bind-gets _ _ s in
      let r6 = sym (ap (λ x. x.0) e6) ∙ r5 in
      let own = found_by_own_id (λ (r : Contract). r.id) id s.live.contracts c found in
      (
        c,
        v,
        record {
          contract = found;
          party = not-false _ p2;
          uncancelled = p3;
          version = version;
          document = not-false _ p5;
        },
        subst (IsSigned env c v user s) (sym (e1 ∙ e2 ∙ e3 ∙ e4 ∙ e5 ∙ e6))
            (sign_unless_prior_returned env user s c' c v _ own _ refl r6),
      )
