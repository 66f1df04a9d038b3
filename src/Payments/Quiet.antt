-- ===== src/Payments/Quiet.antt =====
-- Calls that never move money: asking for a payment, and reconciliation.
use freelancing_platform.Prelude.{◌≡◌, refl}
use freelancing_platform.Database.Rows.Texts.{Text, Uuid}
use freelancing_platform.Database.Tables.{Db}
use freelancing_platform.Database.Environment.{Environment}
use freelancing_platform.Database.Session.{Arriving}
use freelancing_platform.Database.Session.Keeps.{Keeps-commit, Keeps-run}
use freelancing_platform.Ledger.Untouched.{HasJournals, HasJournals-Quiet}
use freelancing_platform.Payments.Requests.{fund, reconcile, serve}
use freelancing_platform.Payments.Framing.Movements.{fund_milestone-Keeps, reconcile_provider-Keeps}

module _ (env : Environment) (a : Arriving) (db : Db) where
  -- Asking a provider for a payment and reconciling with it leave the ledger as it was, however the
  -- call ends: only the report that the payment was captured moves money.
  pub asking_moves_no_money :
      (user milestone_id : Uuid) (name key : Text)
      → ((serve env a (fund user milestone_id name key) db).journal_transactions
          ≡ db.journal_transactions)
        × ((serve env a (reconcile name) db).journal_transactions ≡ db.journal_transactions)
  unfolding serve
  asking_moves_no_money user milestone_id name key = (
    Keeps-run (HasJournals db.journal_transactions) a _ db
        (fund_milestone-Keeps (HasJournals-Quiet _) (Keeps-commit _) env user milestone_id name key)
        refl,
    Keeps-run (HasJournals db.journal_transactions) a _ db
        (reconcile_provider-Keeps (HasJournals-Quiet _) (Keeps-commit _) env name) refl,
  )
