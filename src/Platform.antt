-- ===== src/Platform.antt =====
-- The calls of all services that move money or touch what the money depends on, as one history: those of
-- app/payments, app/payouts, app/disputes and app/proposals, and what the contract's parties do.
pub mod Books
pub mod Refined
use freelancing_platform.Prelude.{Option, List, [], ◌∷◌}
use freelancing_platform.Prelude.Int.{ℤ}
use freelancing_platform.Database.Rows.Texts.{Text, Uuid}
use freelancing_platform.Database.Rows.Dispute.{User}
use freelancing_platform.Database.Tables.{Db}
use freelancing_platform.Database.Environment.{Environment}
use freelancing_platform.Database.Session.{Arriving, run}
use freelancing_platform.Payments.Requests.{Request, serve}
use freelancing_platform.PartyActions.{PartyAction, perform}
use freelancing_platform.Proposals.Requests.{ProposalCall, answer_proposal}
use freelancing_platform.Payouts.Settle.{create_payout}
use freelancing_platform.Payouts.Destinations.{
  configure_payout_provider_account, disable_payout_provider_account,
}
use freelancing_platform.Disputes.{open_dispute}
use freelancing_platform.Disputes.Review.{add_evidence, admin_transition}
use freelancing_platform.Disputes.Resolve.{resolve_dispute}

pub data Call : Type 0 where
  payment : Request → Call
  party_action : PartyAction → Call
  proposal : ProposalCall → Call
  -- user, amount, currency, provider, idempotency key
  withdrawal : Uuid → ℤ → Text → Text → Text → Call
  -- administrator, freelancer, provider, reference
  destination : User → Uuid → Text → Text → Call
  -- administrator, freelancer, provider
  disabling : User → Uuid → Text → Call
  -- user, milestone, reason
  dispute_opening : User → Uuid → Text → Call
  -- user, dispute, file, note
  evidence : User → Uuid → Uuid → Text → Call
  -- administrator, dispute, status, reason
  review : User → Uuid → Text → Text → Call
  -- administrator, dispute, outcome, reason, award, refund, idempotency key
  resolution : User → Uuid → Text → Text → Option ℤ → Option ℤ → Text → Call

-- What is committed when the call has ended.
unfoldable pub answer_call : Environment → Arriving → Call → Db → Db
answer_call env a (payment request) db = serve env a request db
answer_call env a (party_action action) db = perform env a action db
answer_call env a (proposal call) db = answer_proposal env a call db
answer_call env a (withdrawal user amount currency name key) db =
    (run a (create_payout env user amount currency name key) db).1
answer_call env a (destination administrator user name reference) db =
    (run a (configure_payout_provider_account env administrator user name reference) db).1
answer_call env a (disabling administrator user name) db =
    (run a (disable_payout_provider_account env administrator user name) db).1
answer_call env a (dispute_opening user milestone reason) db =
    (run a (open_dispute env user milestone reason) db).1
answer_call env a (evidence user dispute file note) db =
    (run a (add_evidence env user dispute file note) db).1
answer_call env a (review administrator dispute status reason) db =
    (run a (admin_transition env administrator dispute status reason) db).1
answer_call env a (resolution administrator dispute outcome reason award refund key) db =
    (run a (resolve_dispute env administrator dispute outcome reason award refund key) db).1

-- The calls one after the other, each in its own environment.
unfoldable pub answer_all : List (Environment × Arriving × Call) → Db → Db
answer_all [] db = db
answer_all ((env, a, call) ∷ rest) db = answer_all rest (answer_call env a call db)
