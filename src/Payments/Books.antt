-- ===== src/Payments/Books.antt =====
-- The books over any history of requests to the payment service.
use freelancing_platform.Prelude.{◌≡◌, ◌∙◌, refl, sym, ap, subst, inl, inr, List, [], ◌∷◌, ◌++◌}
use freelancing_platform.Prelude.Int.{pos}
use freelancing_platform.Database.Rows.Texts.{Uuid}
use freelancing_platform.Database.Rows.Ledger.{JournalTransaction}
use freelancing_platform.Database.Tables.{Db}
use freelancing_platform.Database.Environment.{Environment}
use freelancing_platform.Database.Session.{Arriving, await_provider, ◌>>=◌}
use freelancing_platform.Database.Session.Keeps.{Keeps, Holds, Keeps-commit, Keeps-run}
use freelancing_platform.Ledger.{JournalRequest, post_journal}
use freelancing_platform.Ledger.Outcome.{journal_of, post_journal_cases}
use freelancing_platform.Ledger.Balance.{CoversAll, total_of_balances}
use freelancing_platform.Ledger.Frame.{Frame}
use freelancing_platform.Ledger.Invariant.{
  UniqueReferences, LedgerIsSound, LedgerIsSound-frame, trial_balance,
}
use freelancing_platform.Payments.Requests.{
  Request, fund, webhook, release, refund, reconcile, serve, serve_all,
}
use freelancing_platform.Payments.Framing.Movements.{
  fund_milestone-Keeps, process_provider_webhook-Keeps, release_milestone-Keeps,
  reconcile_provider-Keeps,
}
use freelancing_platform.Payments.Framing.Refunds.{refund_milestone-Keeps}

-- Other transactions keep `P` in every call of a history.
abbrev pub AllStay : (Db → Type 0) → List (Environment × Arriving × Request) → Type 0
AllStay P [] = Unit
AllStay P ((env, a, request) ∷ rest) = ((d : Db) → P d → P (env.meanwhile d)) × AllStay P rest

pub await-Keeps :
    (P : Db → Type 0) (env : Environment)
    → ((d : Db) → P d → P (env.meanwhile d))
    → Keeps (Holds P) (await_provider env)
unfolding ◌>>=◌
await-Keeps P env stays = record { at = λ s h. (stays s.saved h.0, stays s.live h.1) }

module _ (P : Db → Type 0) (frame : Frame (Holds P)) where
  pub serve-Keeps :
      (env : Environment) (a : Arriving) (request : Request) (db : Db)
      → ((d : Db) → P d → P (env.meanwhile d))
      → P db
      → P (serve env a request db)
  unfolding serve
  serve-Keeps env a (fund user m name key) db stays h =
      Keeps-run P a _ db (fund_milestone-Keeps frame.quiet (Keeps-commit P) env user m name key) h
  serve-Keeps env a (webhook name payload signature) db stays h =
      Keeps-run P a _ db
        (process_provider_webhook-Keeps frame (Keeps-commit P) env name payload signature) h
  serve-Keeps env a (release user m key) db stays h =
      Keeps-run P a _ db (release_milestone-Keeps frame (Keeps-commit P) env user m key) h
  serve-Keeps env a (refund user m name key) db stays h =
      Keeps-run P a _ db
        (refund_milestone-Keeps frame (Keeps-commit P) env (await-Keeps P env stays) user m name
          key)
        h
  serve-Keeps env a (reconcile name) db stays h =
      Keeps-run P a _ db (reconcile_provider-Keeps frame.quiet (Keeps-commit P) env name) h

  serve_all-Keeps :
      (history : List (Environment × Arriving × Request)) (db : Db)
      → AllStay P history
      → P db
      → P (serve_all history db)
  unfolding serve_all
  serve_all-Keeps [] db stays h = h
  serve_all-Keeps ((env, a, request) ∷ rest) db stays h =
      serve_all-Keeps rest (serve env a request db) stays.1 (serve-Keeps env a request db stays.0 h)

-- After any history of calls, whatever each answered, over accounts that carry every entry the
-- balances still add up to zero, and no two journals stand for one operation on one reference; given
-- that the ledger was sound before, and that other transactions kept it sound.
pub books_balance :
    (history : List (Environment × Arriving × Request)) (db : Db) (accounts : List Uuid)
    → LedgerIsSound db
    → AllStay LedgerIsSound history
    → CoversAll accounts (serve_all history db).journal_transactions
    → (total_of_balances accounts (serve_all history db) ≡ pos 0)
      × UniqueReferences (serve_all history db).journal_transactions
books_balance history db accounts h stays covers =
    let sound = serve_all-Keeps LedgerIsSound LedgerIsSound-frame history db stays h in
    (trial_balance accounts (serve_all history db) sound covers, sound.unique)

-- The journals of `db` are all that was there, below what came later.
abbrev pub Extends : List JournalTransaction → Db → Type 0
Extends old db = (newer : List JournalTransaction) × (db.journal_transactions ≡ newer ++ old)

post_journal-Extends :
    (old : List JournalTransaction) (r : JournalRequest)
    → Keeps (Holds (Extends old)) (post_journal r)
post_journal-Extends old r = record {
  at = λ s h. elim (post_journal_cases r s) [
    | inl same ↦ subst (Holds (Extends old)) (sym same) h
    | inr (c, accepted, absent, after) ↦
        subst (Holds (Extends old)) (sym after)
          (h.0, (journal_of r c s ∷ h.1.0, ap (λ js. journal_of r c s ∷ js) h.1.1))
  ];
}

pub Extends-frame : (old : List JournalTransaction) → Frame (Holds (Extends old))
Extends-frame old = record {
  quiet = record { write = λ f same s h. (h.0, (h.1.0, same s.live ∙ h.1.1)) };
  post = post_journal-Extends old;
}

-- The ledger is append-only: after any history of calls, the journals that were there are there
-- still, unchanged and in their order, if other transactions only append too.
pub ledger_append_only :
    (history : List (Environment × Arriving × Request)) (db : Db)
    → AllStay (Extends db.journal_transactions) history
    → Extends db.journal_transactions (serve_all history db)
ledger_append_only history db stays =
    serve_all-Keeps (Extends db.journal_transactions) (Extends-frame db.journal_transactions)
      history db stays ([], refl)
