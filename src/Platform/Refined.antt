-- ===== src/Platform/Refined.antt =====
-- The platform's histories, seen on the abstract ledger.
use freelancing_platform.Prelude.{List}
use freelancing_platform.Database.Tables.{Db}
use freelancing_platform.Database.Environment.{Environment}
use freelancing_platform.Database.Session.{Arriving}
use freelancing_platform.Ledger.Abstract.{Reaches, stay, view, Refines, Refines-frame}
use freelancing_platform.Platform.{Call, answer_all}
use freelancing_platform.Platform.Books.{OthersKeep, answer_all-Keeps}

-- Any history of payments, payouts, disputes, proposals and actions of the parties, whatever each call
-- answered, takes the abstract ledger from its books to the new ones by bookings alone: each moves
-- amounts between accounts that add up to zero, for an operation on a reference that was not booked
-- before; given that other transactions do so too.
pub platform_moves_by_bookings :
    (history : List (Environment × Arriving × Call)) (db : Db)
    → OthersKeep (Refines (view db)) history
    → Reaches (view db) (view (answer_all history db))
platform_moves_by_bookings history db stays =
    answer_all-Keeps (Refines (view db)) (Refines-frame (view db)) history db stays (stay (view db))
