-- ===== src/Payments/Idempotency.antt =====
-- app/payments/idempotency.py.
pub mod Claimed
use freelancing_platform.Prelude.{
  ℕ, Bool, true, false, not, Option, none, some, ◌&&◌, ◌||◌, ◌==◌, ltb, find?, if◌then◌else◌,
}
use freelancing_platform.Database.Rows.Texts.{Text, Uuid}
use freelancing_platform.Database.Rows.Payment.{
  FinancialIdempotencyKey, Body, ScopedOperation, same_scope,
}
use freelancing_platform.Database.Environment.{
  Environment, RequestPayload, api, invalid_idempotency_key, idempotency_conflict,
}
use freelancing_platform.Database.Session.{
  Action, pure, gets, ◌>>=◌, ◌>>◌, raise_if, arriving, fresh_id,
}
use freelancing_platform.Payments.Effects.{add_key, save_key}
use freelancing_platform.Payments.Queries.{Answer}

-- What `claim_idempotency` returns: the record, and whether this call created it.
pub record Claim : Type 0 where
  pub key : FinancialIdempotencyKey
  pub created : Bool

pub record ClaimScope : Type 0 where
  pub user_id : Uuid
  pub operation : ScopedOperation
  pub key_hash : Text
  pub request_hash : Text

abbrev pub in_scope : ClaimScope → FinancialIdempotencyKey → Bool
in_scope c k =
    k.user_id == c.user_id && (same_scope k.operation c.operation && k.key_hash == c.key_hash)

abbrev pub new_key : ClaimScope → Uuid → FinancialIdempotencyKey
new_key c id = record {
  id = id;
  user_id = c.user_id;
  operation = c.operation;
  key_hash = c.key_hash;
  request_hash = c.request_hash;
  response_status = none;
  response_body = none;
}

-- A record that is there already must be of the same request.
unfoldable pub reuse_key : ClaimScope → FinancialIdempotencyKey → Action Claim
reuse_key c k = do
  raise_if (not (k.request_hash == c.request_hash)) (api idempotency_conflict 409)
  pure (record { key = k; created = false })

-- The insert in a savepoint, which another transaction's record makes fail.
unfoldable pub insert_key : ClaimScope → Option FinancialIdempotencyKey → Action Claim
insert_key c (some rival) = do add_key rival; reuse_key c rival
insert_key c none = do
  id ← fresh_id
  add_key (new_key c id)
  pure (record { key = new_key c id; created = true })

unfoldable pub create_key : ClaimScope → Action Claim
create_key c = do others ← arriving; insert_key c (find? (in_scope c) others.keys)

unfoldable pub reuse_or_create : ClaimScope → Option FinancialIdempotencyKey → Action Claim
reuse_or_create c (some k) = reuse_key c k
reuse_or_create c none = create_key c

abbrev pub scope_of : Environment → Uuid → ScopedOperation → Text → RequestPayload → ClaimScope
scope_of env user operation raw_key payload = record {
  user_id = user;
  operation = operation;
  key_hash = env.sha256 (env.strip raw_key);
  request_hash = env.request_hash payload;
}

unfoldable pub claim_idempotency :
    Environment → Uuid → ScopedOperation → Text → RequestPayload → Action Claim
claim_idempotency env user operation raw_key payload = do
  let length = env.text_length (env.strip raw_key)
  raise_if (length == 0 || ltb 200 length) (api invalid_idempotency_key 422)
  let c = scope_of env user operation raw_key payload
  existing ← gets (λ db. find? (in_scope c) db.idempotency_keys)
  reuse_or_create c existing

-- `complete_idempotency`
unfoldable pub complete_idempotency : FinancialIdempotencyKey → ℕ → Body → Action (Unit {0})
complete_idempotency k status body =
    save_key (record k { response_status = some status; response_body = some body })

abbrev pub both : Option Body → Option ℕ → Option Answer
both (some body) (some status) = some (body, status)
both _ _ = none

-- `if not created and idem.response_body is not None and idem.response_status is not None`
abbrev pub stored_answer : Claim → Option Answer
stored_answer claim =
    if claim.created then none else both claim.key.response_body claim.key.response_status

-- An answer that is there already, or the rest of the operation.
unfoldable pub answer_or : Option Answer → Action Answer → Action Answer
answer_or (some answer) rest = pure answer
answer_or none rest = rest
