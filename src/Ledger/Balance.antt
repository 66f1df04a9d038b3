-- ===== src/Ledger/Balance.antt =====
-- Balances: what a journal adds to each account, and that all balances together are zero.
use freelancing_platform.Prelude.{
  ℕ, suc, ◌≡◌, refl, sym, ◌∙◌, ap, List, [], ◌∷◌, arith, ◌==◌, All, if◌then◌else◌,
}
use freelancing_platform.Prelude.Int.{ℤ, pos, ◌+ℤ◌, ◌-ℤ◌, int_laws, zero-+ℤ, +ℤ-zero}
use freelancing_platform.Database.Rows.Texts.{Uuid}
use freelancing_platform.Database.Rows.Ledger.{LedgerEntry, JournalTransaction}
use freelancing_platform.Database.Tables.{Db}
use freelancing_platform.Ledger.{signed, sum_entries, sum_journals, balance}
use freelancing_platform.Ledger.Journal.{debits, credits, IsProper, IsBalanced}

-- How often an account stands in a list of accounts.
abbrev pub count : Uuid → List Uuid → ℕ
count a [] = 0
count a (b ∷ bs) = let rest = count a bs in if a == b then suc rest else rest

-- The accounts of the list are all that the entries name, each once.
abbrev pub Covers : List Uuid → List LedgerEntry → Type 0
Covers accounts = All (λ e. count e.ledger_account_id accounts ≡ 1)

abbrev pub total_of_entries : List Uuid → List LedgerEntry → ℤ
total_of_entries [] es = pos 0
total_of_entries (a ∷ rest) es = sum_entries a es +ℤ total_of_entries rest es

-- An amount booked on one account, summed over accounts that hold it `count` times.
spread : Uuid → ℤ → List Uuid → ℤ
spread x v [] = pos 0
spread x v (a ∷ rest) = (if x == a then v else pos 0) +ℤ spread x v rest

spread_absent :
    (x : Uuid) (v : ℤ) (accounts : List Uuid) → count x accounts ≡ 0 → spread x v accounts ≡ pos 0
unfolding spread
spread_absent x v [] h = refl
spread_absent x v (a ∷ rest) h = ground (arith, spread_absent x v rest, zero-+ℤ (pos 0))

spread_once :
    (x : Uuid) (v : ℤ) (accounts : List Uuid) → count x accounts ≡ 1 → spread x v accounts ≡ v
unfolding spread
spread_once x v [] h = absurd (omega arith)
spread_once x v (a ∷ rest) h =
    ground (arith, spread_once x v rest, spread_absent x v rest, zero-+ℤ v, +ℤ-zero v)

total_of_entries-cons :
    (e : LedgerEntry) (es : List LedgerEntry) (accounts : List Uuid)
    → total_of_entries accounts (e ∷ es)
      ≡ spread e.ledger_account_id (signed e) accounts +ℤ total_of_entries accounts es
unfolding spread
total_of_entries-cons e es [] = sym (zero-+ℤ (pos 0))
total_of_entries-cons e es (a ∷ rest) = rw (total_of_entries-cons e es rest) (omega int_laws)

total_of_entries-nil : (accounts : List Uuid) → total_of_entries accounts [] ≡ pos 0
total_of_entries-nil [] = refl
total_of_entries-nil (a ∷ rest) = rw (total_of_entries-nil rest) (zero-+ℤ (pos 0))

difference_zero : (a b : ℤ) → b ≡ a → a -ℤ b ≡ pos 0
difference_zero a b h = rw h (omega int_laws)

-- The sum of the signed entries is credits less debits, where every entry is proper.
abbrev pub sum_signed : List LedgerEntry → ℤ
sum_signed [] = pos 0
sum_signed (e ∷ es) = signed e +ℤ sum_signed es

sum_signed-credits :
    (es : List LedgerEntry) → All IsProper es → sum_signed es ≡ credits es -ℤ debits es
sum_signed-credits [] h = omega int_laws
sum_signed-credits (e ∷ es) h = grind (int_laws, sum_signed-credits es h.1)

-- The entries of a balanced journal cancel.
pub sum_signed-zero : (es : List LedgerEntry) → IsBalanced es → sum_signed es ≡ pos 0
sum_signed-zero es b =
    sum_signed-credits es b.proper ∙ difference_zero (credits es) (debits es) b.sides_agree

total_of_entries-signed :
    (accounts : List Uuid) (es : List LedgerEntry)
    → Covers accounts es
    → total_of_entries accounts es ≡ sum_signed es
total_of_entries-signed accounts [] h = total_of_entries-nil accounts
total_of_entries-signed accounts (e ∷ es) h = rw (
  total_of_entries-cons e es accounts,
  spread_once e.ledger_account_id (signed e) accounts h.0,
  total_of_entries-signed accounts es h.1,
)

-- The entries of one balanced journal cancel over all accounts.
pub balanced_cancels :
    (accounts : List Uuid) (es : List LedgerEntry)
    → IsBalanced es
    → Covers accounts es
    → total_of_entries accounts es ≡ pos 0
balanced_cancels accounts es b h = total_of_entries-signed accounts es h ∙ sum_signed-zero es b

-- Every entry of the ledger is on one of the accounts, which are listed once.
abbrev pub CoversAll : List Uuid → List JournalTransaction → Type 0
CoversAll accounts = All (λ j. Covers accounts j.entries)

pub total_of_sums : List Uuid → List JournalTransaction → ℤ
total_of_sums [] js = pos 0
total_of_sums (a ∷ rest) js = sum_journals a js +ℤ total_of_sums rest js

total_of_sums-nil : (accounts : List Uuid) → total_of_sums accounts [] ≡ pos 0
unfolding total_of_sums
total_of_sums-nil [] = refl
total_of_sums-nil (a ∷ rest) = rw (total_of_sums-nil rest) (zero-+ℤ (pos 0))

total_of_sums-cons :
    (accounts : List Uuid) (j : JournalTransaction) (js : List JournalTransaction)
    → total_of_sums accounts (j ∷ js)
      ≡ total_of_entries accounts j.entries +ℤ total_of_sums accounts js
unfolding total_of_sums
total_of_sums-cons [] j js = sym (zero-+ℤ (pos 0))
total_of_sums-cons (a ∷ rest) j js = rw (total_of_sums-cons rest j js) (omega int_laws)

-- Balanced journals add up to nothing over all accounts.
pub total_of_sums-zero :
    (accounts : List Uuid) (js : List JournalTransaction)
    → All (λ j. IsBalanced j.entries) js
    → CoversAll accounts js
    → total_of_sums accounts js ≡ pos 0
total_of_sums-zero accounts [] b h = total_of_sums-nil accounts
total_of_sums-zero accounts (j ∷ js) b h =
    rw
      (
        total_of_sums-cons accounts j js,
        balanced_cancels accounts j.entries b.0 h.0,
        total_of_sums-zero accounts js b.1 h.1,
      )
      (zero-+ℤ (pos 0))

-- The sum of the balances of some accounts.
pub total_of_balances : List Uuid → Db → ℤ
total_of_balances [] db = pos 0
total_of_balances (a ∷ rest) db = balance a db +ℤ total_of_balances rest db

pub total_of_balances-sums :
    (accounts : List Uuid) (db : Db)
    → total_of_balances accounts db ≡ total_of_sums accounts db.journal_transactions
unfolding total_of_balances total_of_sums
total_of_balances-sums [] db = refl
total_of_balances-sums (a ∷ rest) db = ap (λ x. balance a db +ℤ x) (total_of_balances-sums rest db)
