-- ===== src/Payments/Requests.antt =====
-- The calls of the payment service as data: by a user (app/payments/api.py), by a provider's webhook,
-- or by the reconciliation task (app/payments/tasks.py).
use freelancing_platform.Prelude.{◌≡◌, arith, Option, none, some, List, [], ◌∷◌}
use freelancing_platform.Database.Rows.Texts.{Text, Uuid}
use freelancing_platform.Database.Tables.{Db}
use freelancing_platform.Database.Environment.{Environment, Error, Result, ok, err}
use freelancing_platform.Database.Session.{Arriving, run}
use freelancing_platform.Payments.Fund.{fund_milestone}
use freelancing_platform.Payments.Webhook.{process_provider_webhook}
use freelancing_platform.Payments.Release.{release_milestone}
use freelancing_platform.Payments.Refund.{refund_milestone}
use freelancing_platform.Payments.Reconcile.{reconcile_provider}

-- A call of the service: by a user, by a provider's webhook, or by the reconciliation task.
pub data Request : Type 0 where
  fund : Uuid → Uuid → Text → Text → Request
  webhook : Text → Text → Text → Request
  release : Uuid → Uuid → Text → Request
  refund : Uuid → Uuid → Text → Text → Request
  reconcile : Text → Request

-- What is committed when the call has ended.
unfoldable pub serve : Environment → Arriving → Request → Db → Db
serve env a (fund user m name key) db = (run a (fund_milestone env user m name key) db).1
serve env a (webhook name payload signature) db =
    (run a (process_provider_webhook env name payload signature) db).1
serve env a (release user m key) db = (run a (release_milestone env user m key) db).1
serve env a (refund user m name key) db = (run a (refund_milestone env user m name key) db).1
serve env a (reconcile name) db = (run a (reconcile_provider env name) db).1

-- The calls one after the other, each in its own environment.
unfoldable pub serve_all : List (Environment × Arriving × Request) → Db → Db
serve_all [] db = db
serve_all ((env, a, request) ∷ rest) db = serve_all rest (serve env a request db)

abbrev error_of : {A : Type 0} → Result A → Option Error
error_of (ok a) = none
error_of (err e) = some e

-- What the call raises, if it does.
unfoldable pub raised : Environment → Arriving → Request → Db → Option Error
raised env a (fund user m name key) db = error_of (run a (fund_milestone env user m name key) db).0
raised env a (webhook name payload signature) db =
    error_of (run a (process_provider_webhook env name payload signature) db).0
raised env a (release user m key) db = error_of (run a (release_milestone env user m key) db).0
raised env a (refund user m name key) db =
    error_of (run a (refund_milestone env user m name key) db).0
raised env a (reconcile name) db = error_of (run a (reconcile_provider env name) db).0

pub error_of-err : {A : Type 0} (r : Result A) (e : Error) → error_of r ≡ some e → r ≡ err e
error_of-err r e h = ground arith
