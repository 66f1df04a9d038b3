-- ===== src/Ledger/Invariant.antt =====
-- The invariant of the ledger, what keeps it, and the trial balance that follows from it.
use freelancing_platform.Prelude.{
  Bool, ◌≡◌, ◌∙◌, sym, subst, inl, inr, none, List, [], ◌∷◌, ◌&&◌, ◌==◌, find?, All,
}
use freelancing_platform.Prelude.Int.{pos}
use freelancing_platform.Database.Rows.Texts.{Uuid}
use freelancing_platform.Database.Rows.Ledger.{
  same_reference_type, same_operation, JournalTransaction,
}
use freelancing_platform.Database.Tables.{Db}
use freelancing_platform.Database.Session.Keeps.{Keeps, Holds}
use freelancing_platform.Ledger.{JournalRequest, post_journal}
use freelancing_platform.Ledger.Frame.{Frame}
use freelancing_platform.Ledger.Journal.{IsBalanced}
use freelancing_platform.Ledger.Outcome.{post_journal_cases}
use freelancing_platform.Ledger.Balance.{
  CoversAll, total_of_balances, total_of_balances-sums, total_of_sums-zero,
}

abbrev same_reference : JournalTransaction → JournalTransaction → Bool
same_reference j k =
    same_reference_type k.reference_type j.reference_type
    && (k.reference_id == j.reference_id && same_operation k.operation j.operation)

-- No two journals of a list stand for the same operation on the same reference.
abbrev pub UniqueReferences : List JournalTransaction → Type 0
UniqueReferences [] = Unit
UniqueReferences (j ∷ js) = (find? (same_reference j) js ≡ none) × UniqueReferences js

abbrev HasBalance : JournalTransaction → Type 0
HasBalance j = IsBalanced j.entries

-- Every committed journal is balanced, and stands alone for its reference and operation.
pub record LedgerIsSound (db : Db) : Type 0 where
  pub balanced : All HasBalance db.journal_transactions
  pub unique : UniqueReferences db.journal_transactions

pub post_journal-LedgerIsSound : (r : JournalRequest) → Keeps (Holds LedgerIsSound) (post_journal r)
post_journal-LedgerIsSound r = record {
  at = λ s h. elim (post_journal_cases r s) [
    | inl same ↦ subst (Holds LedgerIsSound) (sym same) h
    | inr (c, accepted, absent, after) ↦ subst (Holds LedgerIsSound) (sym after) (
      h.0,
      record { balanced = (accepted.balanced, h.1.balanced); unique = (absent, h.1.unique) },
    )
  ];
}

-- The trial balance: over accounts that carry every entry of a sound ledger, each listed once, the
-- balances add up to zero.
pub trial_balance :
    (accounts : List Uuid) (db : Db)
    → LedgerIsSound db
    → CoversAll accounts db.journal_transactions
    → total_of_balances accounts db ≡ pos 0
trial_balance accounts db h covers =
    total_of_balances-sums accounts db
    ∙ total_of_sums-zero accounts db.journal_transactions h.balanced covers

-- Soundness is a property that the ledger's actions keep, so every service keeps it.
pub LedgerIsSound-frame : Frame (Holds LedgerIsSound)
LedgerIsSound-frame = record {
  quiet = record {
    write = λ f same s h. (
      h.0,
      record {
        balanced = subst (All HasBalance) (sym (same s.live)) h.1.balanced;
        unique = subst UniqueReferences (sym (same s.live)) h.1.unique;
      },
    );
  };
  post = post_journal-LedgerIsSound;
}
