-- ===== src/Ledger/Account.antt =====
-- `get_or_create_account`: the account that it returns, and that a second call returns it again.
use freelancing_platform.Prelude.{
  Bool, true, false, ◌≡◌, ◌∙◌, refl, ap, subst, ℕ, Option, none, some, arith, same_id, find?,
  find?_passes, if◌then◌else◌,
}
use freelancing_platform.Database.Rows.Ledger.{
  LedgerAccount, AccountKey, AccountType, same_key, same_account_type,
}
use freelancing_platform.Database.Rows.Texts.{Uuid}
use freelancing_platform.Database.Environment.{ok, runtime_error}
use freelancing_platform.Database.Session.{Session, pure, raise, ◌>>=◌}
use freelancing_platform.Ledger.{
  Identity, has_key, new_account, same_identity, check_identity, add_account, insert_account,
  create_account, found_or_create, get_or_create_account,
}

same_key_refl : (k : AccountKey) → same_key k k ≡ true
same_key_refl k = ground arith

same_account_type_refl : (t : AccountType) → same_account_type t t ≡ true
same_account_type_refl t = ground arith

-- The account stands under its key in the table, and has the identity that was asked for.
pub record IsStored (want : Identity) (a : LedgerAccount) (s : Session) : Type 0 where
  pub found : find? (has_key want.account_key) s.live.ledger_accounts ≡ some a
  pub identity : same_identity want a ≡ true

ok_injective : (a b : LedgerAccount) → ok a ≡ ok b → a ≡ b
ok_injective a b h = ground arith

checked_ok :
    (t : Bool) (a b : LedgerAccount) (s : Session)
    → ((if t then pure a else raise runtime_error) s).0 ≡ ok b
    → (t ≡ true) × (b ≡ a) × (((if t then pure a else raise runtime_error) s).1 ≡ s)
unfolding ◌>>=◌
checked_ok true a b s h = (refl, ground arith, refl)
checked_ok false a b s h = ground arith

check_identity-ok :
    (want : Identity) (a b : LedgerAccount) (s : Session)
    → (check_identity want a s).0 ≡ ok b
    → (same_identity want a ≡ true) × (b ≡ a) × ((check_identity want a s).1 ≡ s)
unfolding check_identity
check_identity-ok want a b s h = checked_ok (same_identity want a) a b s h

check_identity_passes :
    (want : Identity) (a : LedgerAccount) (s : Session)
    → same_identity want a ≡ true
    → check_identity want a s ≡ (ok a, s)
unfolding check_identity ◌>>=◌
check_identity_passes want a s h =
    ap (λ (t : Bool). (if t then pure a else raise runtime_error) s) h

same_id_refl : (o : Option ℕ) → same_id o o ≡ true
same_id_refl o = ground arith

same_identity-new_account :
    (want : Identity) (id : Uuid) → same_identity want (new_account want id) ≡ true
same_identity-new_account want id = ground (
  arith,
  same_account_type_refl want.account_type,
  same_id_refl want.owner_user_id,
  same_id_refl want.milestone_id,
)

-- The session in which an account has been added to the table.
abbrev with_account : LedgerAccount → Session → Session
with_account a s = record s { live = add_account a s.live }

with_account-IsStored :
    (want : Identity) (a : LedgerAccount) (s : Session)
    → has_key want.account_key a ≡ true
    → same_identity want a ≡ true
    → IsStored want a (with_account a s)
with_account-IsStored want a s key same = record {
  found =
      ap (λ t. if t then some a else find? (has_key want.account_key) s.live.ledger_accounts) key;
  identity = same;
}

insert_account-IsStored :
    (want : Identity) (a : LedgerAccount) (s : Session) (rival : Option LedgerAccount)
    → find? (has_key want.account_key) s.arriving.accounts ≡ rival
    → (insert_account want rival s).0 ≡ ok a
    → IsStored want a (insert_account want rival s).1
unfolding insert_account ◌>>=◌
insert_account-IsStored want a s (some b) e h =
    let (same, is, after) = check_identity-ok want b a (with_account b s) h in
    rw (is, after)
      (with_account-IsStored want b s
        (find?_passes (has_key want.account_key) s.arriving.accounts e) same)
insert_account-IsStored want a s none e h =
    let new = new_account want s.live.next_id in
    subst (λ x. IsStored want x (insert_account want none s).1) (ok_injective new a h)
      (with_account-IsStored want new _ (same_key_refl want.account_key)
        (same_identity-new_account want s.live.next_id))

module _ (want : Identity) (a : LedgerAccount) (s : Session) where
  found_or_create-IsStored :
      (found : Option LedgerAccount)
      → find? (has_key want.account_key) s.live.ledger_accounts ≡ found
      → (found_or_create want found s).0 ≡ ok a
      → IsStored want a (found_or_create want found s).1
  unfolding found_or_create create_account ◌>>=◌
  found_or_create-IsStored (some b) e h =
      let (same, is, after) = check_identity-ok want b a s h in
      record { found = rw (is, after) e; identity = rw is same }
  found_or_create-IsStored none e h =
      insert_account-IsStored want a s (find? (has_key want.account_key) s.arriving.accounts) refl h

  -- The account that `get_or_create_account` returns is stored under its key, with the identity
  -- asked for, whether it was there, was created, or was committed by another transaction meanwhile.
  pub get_or_create_account-IsStored :
      (get_or_create_account want s).0 ≡ ok a → IsStored want a (get_or_create_account want s).1
  unfolding get_or_create_account ◌>>=◌
  get_or_create_account-IsStored h = found_or_create-IsStored _ refl h

  -- A second call returns the same account and writes nothing.
  pub get_or_create_account_again : IsStored want a s → get_or_create_account want s ≡ (ok a, s)
  unfolding get_or_create_account ◌>>=◌ found_or_create
  get_or_create_account_again h =
      ap (λ o. found_or_create want o s) h.found ∙ check_identity_passes want a s h.identity
