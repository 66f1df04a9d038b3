-- ===== src/Ledger/Abstract.antt =====
-- An abstract ledger without journals: what each account holds, and which operations are booked. The
-- rows of app/ledger/models.py are seen as such a ledger, and `post_journal` moves from one to the next.
use freelancing_platform.Prelude.{
  Bool, false, ◌≡◌, refl, sym, ap, subst, ◌∙◌, inl, inr, none, List, [], ◌∷◌, ◌&&◌, ◌||◌, ◌==◌, any,
  any-none, find?, if◌then◌else◌,
}
use freelancing_platform.Prelude.Int.{ℤ, pos, ◌+ℤ◌}
use freelancing_platform.Database.Rows.Texts.{Uuid}
use freelancing_platform.Database.Rows.Ledger.{
  Operation, ReferenceType, same_operation, same_reference_type, LedgerEntry, JournalTransaction,
}
use freelancing_platform.Database.Tables.{Db}
use freelancing_platform.Database.Session.Keeps.{Keeps, Holds}
use freelancing_platform.Ledger.{
  signed, sum_entries, sum_journals, JournalRequest, is_journal_of, post_journal,
}
use freelancing_platform.Ledger.Balance.{sum_signed, sum_signed-zero}
use freelancing_platform.Ledger.Frame.{Frame}
use freelancing_platform.Ledger.Outcome.{journal_of, post_journal_cases}

pub record Books : Type 0 where
  pub holds : Uuid → ℤ
  pub is_booked : Operation → ReferenceType → Uuid → Bool

-- Amounts that are added to accounts, for one operation on one reference.
pub record Movement : Type 0 where
  pub operation : Operation
  pub reference_type : ReferenceType
  pub reference_id : Uuid
  pub parts : List (Uuid × ℤ)

unfoldable pub moved : Uuid → List (Uuid × ℤ) → ℤ
moved a [] = pos 0
moved a ((b, amount) ∷ rest) = (if b == a then amount else pos 0) +ℤ moved a rest

unfoldable pub sum_of_parts : List (Uuid × ℤ) → ℤ
sum_of_parts [] = pos 0
sum_of_parts ((b, amount) ∷ rest) = amount +ℤ sum_of_parts rest

unfoldable pub book : Movement → Books → Books
book m b = record {
  holds = λ a. moved a m.parts +ℤ b.holds a;
  is_booked = λ o t i.
      (same_reference_type m.reference_type t
        && (m.reference_id == i && same_operation m.operation o))
      || b.is_booked o t i;
}

-- Bookings one after the other: each moves nothing in total, and each operation on each reference is
-- booked once at most.
pub data Reaches : Books → Books → Type 0 where
  stay : (b : Books) → Reaches b b
  booking :
      (m : Movement) (b c : Books)
      → sum_of_parts m.parts ≡ pos 0
      → c.is_booked m.operation m.reference_type m.reference_id ≡ false
      → Reaches b c
      → Reaches b (book m c)

-- The journals as an abstract ledger.
abbrev is_for : Operation → ReferenceType → Uuid → JournalTransaction → Bool
is_for o t i j =
    same_reference_type j.reference_type t && (j.reference_id == i && same_operation j.operation o)

abbrev pub view_of : List JournalTransaction → Books
view_of js = record { holds = λ a. sum_journals a js; is_booked = λ o t i. any (is_for o t i) js }

abbrev pub view : Db → Books
view db = view_of db.journal_transactions

abbrev parts_of : List LedgerEntry → List (Uuid × ℤ)
parts_of [] = []
parts_of (e ∷ es) = (e.ledger_account_id, signed e) ∷ parts_of es

abbrev movement_of : JournalTransaction → Movement
movement_of j = record {
  operation = j.operation;
  reference_type = j.reference_type;
  reference_id = j.reference_id;
  parts = parts_of j.entries;
}

moved-entries : (a : Uuid) (es : List LedgerEntry) → moved a (parts_of es) ≡ sum_entries a es
unfolding moved
moved-entries a [] = refl
moved-entries a (e ∷ es) =
    ap (λ x. (if e.ledger_account_id == a then signed e else pos 0) +ℤ x) (moved-entries a es)

parts-signed : (es : List LedgerEntry) → sum_of_parts (parts_of es) ≡ sum_signed es
unfolding sum_of_parts
parts-signed [] = refl
parts-signed (e ∷ es) = ap (λ x. signed e +ℤ x) (parts-signed es)

book-view :
    (j : JournalTransaction) (js : List JournalTransaction)
    → book (movement_of j) (view_of js) ≡ view_of (j ∷ js)
unfolding book
book-view j js = λ i. record {
  holds = λ a. moved-entries a j.entries i +ℤ sum_journals a js;
  is_booked = λ o t k. any (is_for o t k) (j ∷ js);
}

none_booked :
    (r : JournalRequest) (js : List JournalTransaction)
    → find? (is_journal_of r) js ≡ none
    → (view_of js).is_booked r.operation r.reference_type r.reference_id ≡ false
none_booked r js h = any-none (is_journal_of r) js h

module _ (old : Books) where
  -- Whatever has come about by bookings alone.
  abbrev pub Refines : Db → Type 0
  Refines db = Reaches old (view db)

  post_journal-Refines : (r : JournalRequest) → Keeps (Holds Refines) (post_journal r)
  post_journal-Refines r = record {
    at = λ s h. elim (post_journal_cases r s) [
      | inl same ↦ subst (Holds Refines) (sym same) h
      | inr (c, accepted, absent, after) ↦
          let j = journal_of r c s in
          let js = s.live.journal_transactions in
          subst (Holds Refines) (sym after) (
            h.0,
            subst (Reaches old) (book-view j js) (
                booking (movement_of j) old (view_of js)
                  (parts-signed j.entries ∙ sum_signed-zero j.entries accepted.balanced)
                  (none_booked r js absent) h.1),
          )
    ];
  }

  pub Refines-frame : Frame (Holds Refines)
  Refines-frame = record {
    quiet = record {
      write = λ f same s h. (h.0, subst (λ js. Reaches old (view_of js)) (sym (same s.live)) h.1);
    };
    post = post_journal-Refines;
  }
