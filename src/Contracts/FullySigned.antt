-- ===== src/Contracts/FullySigned.antt =====
-- When a contract is signed by all, said of the rows: what `is_fully_signed` and `is_signed_by` of
-- app/contracts/service.py test.
use freelancing_platform.Prelude.{
  Bool, true, false, not, ◌≡◌, ◌↔◌, ◌⊎◌, refl, inl, inr, List, [], ◌∷◌, ◌==◌, ◌&&◌, ==_iff,
  both_true, select, if◌then◌else◌, Any, All, any-Any, Any-any, all-All, All-all, arith,
}
use freelancing_platform.Database.Rows.Texts.{Uuid}
use freelancing_platform.Database.Rows.Contract.{
  Contract, ContractVersion, ContractParty, ContractSignature,
}
use freelancing_platform.Database.Tables.{Db}
use freelancing_platform.Contracts.{is_signed_by, is_empty, is_fully_signed}

-- A signature of the version by the user is among the rows.
abbrev pub HasSigned : ContractVersion → Uuid → Db → Type 0
HasSigned v user db =
    Any (λ (s : ContractSignature). (s.contract_version_id ≡ v.id) × (s.user_id ≡ user))
      db.contract_signatures

-- Some party has to sign, and every party that has to sign has signed the version.
abbrev pub AllHaveSigned : Contract → ContractVersion → Db → Type 0
AllHaveSigned c v db =
    Any (λ (p : ContractParty). p.required_signature ≡ true) c.parties
    × All (λ (p : ContractParty). p.required_signature ≡ true → HasSigned v p.user_id db) c.parties

pub is_signed_by_iff :
    (v : ContractVersion) (user : Uuid) (db : Db)
    → (is_signed_by v user db ≡ true) ↔ HasSigned v user db
is_signed_by_iff v user db = (
  any-Any (λ s. s.contract_version_id == v.id && s.user_id == user) _
      (λ s h.
        let (of_version, by_user) = both_true _ _ h in
        ((==_iff s.contract_version_id v.id).0 of_version, (==_iff s.user_id user).0 by_user))
      db.contract_signatures,
  Any-any (λ s. s.contract_version_id == v.id && s.user_id == user) _
      (λ s h.
        let of_version = (==_iff s.contract_version_id v.id).1 h.0 in
        let by_user = (==_iff s.user_id user).1 h.1 in ground arith)
      db.contract_signatures,
)

abbrev asked : List ContractParty → List ContractParty
asked ps = select (λ p. p.required_signature) ps

asked-Any :
    (ps : List ContractParty)
    → (not (is_empty (asked ps)) ≡ true) ↔ Any (λ p. p.required_signature ≡ true) ps
asked-Any [] = ((λ h. ground arith), (λ h. elim h [ ]))
asked-Any (p ∷ ps) = by_test p.required_signature (asked-Any ps)
  where
    by_test :
        (b : Bool)
        → ((not (is_empty (asked ps)) ≡ true) ↔ Any (λ p. p.required_signature ≡ true) ps)
        → (not (is_empty (if b then p ∷ asked ps else asked ps)) ≡ true)
          ↔ ((b ≡ true) ⊎ Any (λ p. p.required_signature ≡ true) ps)
    by_test true later = ((λ h. inl refl), (λ h. refl))
    by_test false later =
        ((λ h. inr (later.0 h)), (λ h. elim h [ inl t ↦ ground arith | inr rest ↦ later.1 rest ]))

-- The test of the code is true exactly if all have signed.
pub is_fully_signed_iff :
    (c : Contract) (v : ContractVersion) (db : Db)
    → (is_fully_signed c v db ≡ true) ↔ AllHaveSigned c v db
is_fully_signed_iff c v db = (
  λ h.
      let (some_asked, all_signed) = both_true _ _ h in
      (
        (asked-Any c.parties).0 some_asked,
        all-All (λ p. p.required_signature) (λ p. is_signed_by v p.user_id db) _
            (λ p t. (is_signed_by_iff v p.user_id db).0 t) c.parties all_signed,
      ),
  λ h.
      let some_asked = (asked-Any c.parties).1 h.0 in
      let all_signed =
        All-all (λ p. p.required_signature) (λ p. is_signed_by v p.user_id db) _
          (λ p t. (is_signed_by_iff v p.user_id db).1 t) c.parties h.1 in
      ground arith,
)
