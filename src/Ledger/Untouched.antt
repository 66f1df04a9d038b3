-- ===== src/Ledger/Untouched.antt =====
-- The journals under actions that do not post, and the idempotency records under those of the ledger:
-- they stay what they are.
use freelancing_platform.Prelude.{◌≡◌, ◌∙◌, List, sym, subst, inl, inr}
use freelancing_platform.Database.Rows.Payment.{FinancialIdempotencyKey}
use freelancing_platform.Database.Rows.Ledger.{JournalTransaction}
use freelancing_platform.Database.Tables.{Db}
use freelancing_platform.Database.Session.{Session, commit, fresh_id, ◌>>=◌}
use freelancing_platform.Database.Session.Keeps.{Keeps, Holds, Keeps-modify}
use freelancing_platform.Ledger.Frame.{Quiet, get_or_create_account-Keeps_by}
use freelancing_platform.Ledger.{
  Identity, get_or_create_account, JournalRequest, post_journal, add_account,
}
use freelancing_platform.Ledger.Outcome.{post_journal_cases}

abbrev pub HasJournals : List JournalTransaction → Db → Type 0
HasJournals js db = db.journal_transactions ≡ js

-- Of the visible rows only.
abbrev pub LiveJournals : List JournalTransaction → Session → Type 0
LiveJournals js s = HasJournals js s.live

pub LiveJournals-Quiet : (js : List JournalTransaction) → Quiet (LiveJournals js)
LiveJournals-Quiet js = record { write = λ f same s h. same s.live ∙ h }

pub LiveJournals-commit : (js : List JournalTransaction) → Keeps (LiveJournals js) commit
unfolding ◌>>=◌
LiveJournals-commit js = record { at = λ s h. h }

pub HasJournals-Quiet : (js : List JournalTransaction) → Quiet (Holds (HasJournals js))
HasJournals-Quiet js = record { write = λ f same s h. (h.0, same s.live ∙ h.1) }

-- The idempotency records among the visible rows.
abbrev pub LiveKeys : List FinancialIdempotencyKey → Session → Type 0
LiveKeys ks s = s.live.idempotency_keys ≡ ks

module _ (ks : List FinancialIdempotencyKey) where
  fresh_id-LiveKeys : Keeps (LiveKeys ks) fresh_id
  unfolding ◌>>=◌
  fresh_id-LiveKeys = record { at = λ s h. h }

  pub get_or_create_account-LiveKeys :
      (want : Identity) → Keeps (LiveKeys ks) (get_or_create_account want)
  get_or_create_account-LiveKeys want =
      get_or_create_account-Keeps_by (λ a. Keeps-modify (add_account a) (λ s h. h))
        fresh_id-LiveKeys want

  pub post_journal-LiveKeys : (r : JournalRequest) → Keeps (LiveKeys ks) (post_journal r)
  post_journal-LiveKeys r = record {
    at = λ s h. elim (post_journal_cases r s) [
      | inl same ↦ subst (LiveKeys ks) (sym same) h
      | inr (c, accepted, absent, after) ↦ subst (LiveKeys ks) (sym after) h
    ];
  }
