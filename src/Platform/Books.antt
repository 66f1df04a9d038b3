-- ===== src/Platform/Books.antt =====
-- The books over any history of calls to the platform.
use freelancing_platform.Prelude.{◌≡◌, refl, List, [], ◌∷◌}
use freelancing_platform.Prelude.Int.{pos}
use freelancing_platform.Database.Rows.Texts.{Uuid}
use freelancing_platform.Database.Tables.{Db}
use freelancing_platform.Database.Environment.{Environment}
use freelancing_platform.Database.Session.{Arriving}
use freelancing_platform.Database.Session.Keeps.{Holds, Keeps-commit, Keeps-rollback, Keeps-run}
use freelancing_platform.Ledger.Balance.{CoversAll, total_of_balances}
use freelancing_platform.Ledger.Frame.{Frame}
use freelancing_platform.Ledger.Invariant.{
  UniqueReferences, LedgerIsSound, LedgerIsSound-frame, trial_balance,
}
use freelancing_platform.Payments.Books.{serve-Keeps, await-Keeps, Extends, Extends-frame}
use freelancing_platform.PartyActions.{perform-Keeps}
use freelancing_platform.Proposals.Kept.{answer_proposal-Keeps}
use freelancing_platform.Proposals.Framing.{Quiet-Tends}
use freelancing_platform.Payouts.Framing.{create_payout-Keeps, configure-Keeps, disable-Keeps}
use freelancing_platform.Disputes.Framing.{
  open_dispute-Keeps, add_evidence-Keeps, admin_transition-Keeps, resolve_dispute-Keeps,
}
use freelancing_platform.Platform.{
  Call, payment, party_action, proposal, withdrawal, destination, disabling, dispute_opening,
  evidence, review, resolution, answer_call, answer_all,
}

-- Other transactions keep `P` in every call of a history.
abbrev pub OthersKeep : (Db → Type 0) → List (Environment × Arriving × Call) → Type 0
OthersKeep P [] = Unit
OthersKeep P ((env, a, call) ∷ rest) = ((d : Db) → P d → P (env.meanwhile d)) × OthersKeep P rest

module _ (P : Db → Type 0) (frame : Frame (Holds P)) where
  answer_call-Keeps :
      (env : Environment) (a : Arriving) (call : Call) (db : Db)
      → ((d : Db) → P d → P (env.meanwhile d))
      → P db
      → P (answer_call env a call db)
  unfolding answer_call
  answer_call-Keeps env a (payment request) db stays h =
      serve-Keeps P frame env a request db stays h
  answer_call-Keeps env a (party_action action) db stays h =
      perform-Keeps P frame.quiet env a action db h
  answer_call-Keeps env a (proposal call) db stays h =
      answer_proposal-Keeps P (Quiet-Tends P frame.quiet) env a call db h
  answer_call-Keeps env a (withdrawal user amount currency name key) db stays h =
      Keeps-run P a _ db
        (create_payout-Keeps frame (Keeps-commit P) env (await-Keeps P env stays) (Keeps-rollback P)
          user amount currency name key)
        h
  answer_call-Keeps env a (destination administrator user name reference) db stays h =
      Keeps-run P a _ db
        (configure-Keeps frame.quiet (Keeps-commit P) env administrator user name reference) h
  answer_call-Keeps env a (disabling administrator user name) db stays h =
      Keeps-run P a _ db (disable-Keeps frame.quiet (Keeps-commit P) env administrator user name) h
  answer_call-Keeps env a (dispute_opening user milestone reason) db stays h =
      Keeps-run P a _ db (open_dispute-Keeps frame.quiet (Keeps-commit P) env user milestone reason)
        h
  answer_call-Keeps env a (evidence user dispute file note) db stays h =
      Keeps-run P a _ db
        (add_evidence-Keeps frame.quiet (Keeps-commit P) env user dispute file note) h
  answer_call-Keeps env a (review user dispute status reason) db stays h =
      Keeps-run P a _ db
        (admin_transition-Keeps frame.quiet (Keeps-commit P) env user dispute status reason) h
  answer_call-Keeps env a (resolution user dispute outcome reason award refund key) db stays h =
      Keeps-run P a _ db
        (resolve_dispute-Keeps frame (Keeps-commit P) env user dispute outcome reason award refund
          key)
        h

  pub answer_all-Keeps :
      (history : List (Environment × Arriving × Call)) (db : Db)
      → OthersKeep P history
      → P db
      → P (answer_all history db)
  unfolding answer_all
  answer_all-Keeps [] db stays h = h
  answer_all-Keeps ((env, a, call) ∷ rest) db stays h =
      answer_all-Keeps rest (answer_call env a call db) stays.1
        (answer_call-Keeps env a call db stays.0 h)

-- After any history of payments, payouts, disputes, proposals and actions of the parties, whatever each
-- call answered, over accounts that carry every entry the balances add up to zero, and no two journals
-- stand for one operation on one reference; given that the ledger was sound before, and that other
-- transactions kept it sound.
pub platform_books_balance :
    (history : List (Environment × Arriving × Call)) (db : Db) (accounts : List Uuid)
    → LedgerIsSound db
    → OthersKeep LedgerIsSound history
    → CoversAll accounts (answer_all history db).journal_transactions
    → (total_of_balances accounts (answer_all history db) ≡ pos 0)
      × UniqueReferences (answer_all history db).journal_transactions
platform_books_balance history db accounts h stays covers =
    let sound = answer_all-Keeps LedgerIsSound LedgerIsSound-frame history db stays h in
    (trial_balance accounts (answer_all history db) sound covers, sound.unique)

-- No history of such calls changes or removes a journal, if other transactions only append too.
pub platform_append_only :
    (history : List (Environment × Arriving × Call)) (db : Db)
    → OthersKeep (Extends db.journal_transactions) history
    → Extends db.journal_transactions (answer_all history db)
platform_append_only history db stays =
    answer_all-Keeps (Extends db.journal_transactions) (Extends-frame db.journal_transactions)
      history db stays ([], refl)
