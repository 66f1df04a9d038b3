-- ===== src/Ledger/Fresh.antt =====
-- `get_or_create_account` keeps what handing out an id and adding an account keep: it hands no id back,
-- and leaves the payments alone.
use freelancing_platform.Prelude.{ℕ, ◌≤◌, ◌≡◌, Option, none, some, List, arith}
use freelancing_platform.Database.Rows.Ledger.{LedgerAccount}
use freelancing_platform.Database.Rows.Payment.{PaymentIntent}
use freelancing_platform.Database.Session.{Session, modify, fresh_id, ◌>>=◌}
use freelancing_platform.Database.Session.Keeps.{
  Keeps, keeps_rules, Keeps-modify, Keeps-bind, Keeps-pure,
}
use freelancing_platform.Ledger.{
  Identity, get_or_create_account, found_or_create, create_account, insert_account, check_identity,
  add_account, new_account,
}

module _ {Q : Session → Type 0} (ids : Keeps Q fresh_id)
    (rows : (a : LedgerAccount) → Keeps Q (modify (add_account a))) where
  check_identity-kept : (want : Identity) (a : LedgerAccount) → Keeps Q (check_identity want a)
  unfolding check_identity
  check_identity-kept want a = search keeps_rules

  insert_account-kept :
      (want : Identity) (rival : Option LedgerAccount) → Keeps Q (insert_account want rival)
  unfolding insert_account
  insert_account-kept want (some rival) = search (keeps_rules, rows, check_identity-kept)
  insert_account-kept want none =
      Keeps-bind _ _ ids (λ id. Keeps-bind _ _ (rows (new_account want id)) (λ _. Keeps-pure _))

  found_or_create-kept :
      (want : Identity) (found : Option LedgerAccount) → Keeps Q (found_or_create want found)
  unfolding found_or_create create_account
  found_or_create-kept want (some a) = search (keeps_rules, check_identity-kept)
  found_or_create-kept want none = search (keeps_rules, insert_account-kept)

  get_or_create_account-kept : (want : Identity) → Keeps Q (get_or_create_account want)
  unfolding get_or_create_account
  get_or_create_account-kept want = search (keeps_rules, found_or_create-kept)

-- Every id below `n` has been handed out.
abbrev pub UsedBelow : ℕ → Session → Type 0
UsedBelow n s = n ≤ s.live.next_id

fresh_id-UsedBelow : (n : ℕ) → Keeps (UsedBelow n) fresh_id
unfolding ◌>>=◌
fresh_id-UsedBelow n = record { at = λ s h. omega arith }

pub get_or_create_account-UsedBelow :
    (n : ℕ) (want : Identity) → Keeps (UsedBelow n) (get_or_create_account want)
get_or_create_account-UsedBelow n want =
    get_or_create_account-kept (fresh_id-UsedBelow n) (λ a. Keeps-modify (add_account a) (λ s h. h))
      want

-- The payments are those of the list.
abbrev pub HasIntents : List PaymentIntent → Session → Type 0
HasIntents is s = s.live.payment_intents ≡ is

fresh_id-HasIntents : (is : List PaymentIntent) → Keeps (HasIntents is) fresh_id
unfolding ◌>>=◌
fresh_id-HasIntents is = record { at = λ s h. h }

pub get_or_create_account-HasIntents :
    (is : List PaymentIntent) (want : Identity) → Keeps (HasIntents is) (get_or_create_account want)
get_or_create_account-HasIntents is want =
    get_or_create_account-kept (fresh_id-HasIntents is)
      (λ a. Keeps-modify (add_account a) (λ s h. h)) want
