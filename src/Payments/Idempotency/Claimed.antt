-- ===== src/Payments/Idempotency/Claimed.antt =====
-- A claim of an idempotency key: what a claim that returns leaves, and what the next one is answered.
use freelancing_platform.Prelude.{
  Bool, true, false, not, not-false, ◌||◌, ◌≡◌, ◌∙◌, refl, ap, sym, subst, Option, none, some, List,
  ◌∷◌, find?, find?_passes, ltb, ◌==◌, ==_iff, if◌then◌else◌, arith,
}
use freelancing_platform.Database.Rows.Texts.{Text, Uuid}
use freelancing_platform.Database.Rows.Payment.{
  FinancialIdempotencyKey, ScopedOperation, same_scope,
}
use freelancing_platform.Database.Tables.{Db}
use freelancing_platform.Database.Environment.{Environment, RequestPayload, ok}
use freelancing_platform.Database.Session.{Session, raise_if, ◌>>=◌}
use freelancing_platform.Database.Session.Steps.{
  bind-ok, bind-raise_if, bind-gets, bind-arriving, raise_if_passes, pure_returned, pure_run,
  ok_only,
}
use freelancing_platform.Payments.Effects.{add_key}
use freelancing_platform.Payments.Idempotency.{
  Claim, ClaimScope, in_scope, new_key, scope_of, reuse_key, insert_key, create_key,
  reuse_or_create, claim_idempotency,
}

-- `1 <= len(key) <= 200` once stripped.
abbrev pub is_valid_key : Environment → Text → Bool
is_valid_key env raw =
    not (env.text_length (env.strip raw) == 0 || ltb 200 (env.text_length (env.strip raw)))

stands_false : (b : Bool) → not b ≡ true → b ≡ false
stands_false b h = ground arith

module _ (env : Environment) (user : Uuid) (operation : ScopedOperation) (raw : Text)
    (payload : RequestPayload) (k : FinancialIdempotencyKey) (s : Session) where
  reuse_path :
      is_valid_key env raw ≡ true
      → find? (in_scope (scope_of env user operation raw payload)) s.live.idempotency_keys ≡ some k
      → claim_idempotency env user operation raw payload s
        ≡ reuse_key (scope_of env user operation raw payload) k s
  unfolding claim_idempotency reuse_or_create ◌>>=◌
  reuse_path valid found =
      bind-ok (raise_if _ _) _ (raise_if_passes _ _ s (stands_false _ valid))
      ∙ ap (λ o. reuse_or_create (scope_of env user operation raw payload) o s) found

  -- A key of the same request is handed back, and nothing is written.
  pub claim_replayed :
      is_valid_key env raw ≡ true
      → find? (in_scope (scope_of env user operation raw payload)) s.live.idempotency_keys ≡ some k
      → (k.request_hash == env.request_hash payload) ≡ true
      → claim_idempotency env user operation raw payload s
        ≡ (ok (record { key = k; created = false }), s)
  unfolding reuse_key ◌>>=◌
  claim_replayed valid found same =
      reuse_path valid found ∙ bind-ok (raise_if _ _) _ (raise_if_passes _ _ s (ap not same))

-- The record of a scope among the rows, of the same request.
pub record IsClaimed (c : ClaimScope) (k : FinancialIdempotencyKey) (db : Db) : Type 0 where
  pub found : find? (in_scope c) db.idempotency_keys ≡ some k
  pub same_request : (k.request_hash == c.request_hash) ≡ true

first_found :
    (c : ClaimScope) (k : FinancialIdempotencyKey) (ks : List FinancialIdempotencyKey)
    → in_scope c k ≡ true
    → find? (in_scope c) (k ∷ ks) ≡ some k
first_found c k ks passes = ap (λ b. if b then some k else find? (in_scope c) ks) passes

scope_refl : (o : ScopedOperation) → same_scope o o ≡ true
scope_refl o = ground arith

new_in_scope : (c : ClaimScope) (id : Uuid) → in_scope c (new_key c id) ≡ true
new_in_scope c id =
    let user = (==_iff c.user_id c.user_id).1 refl in
    let operation = scope_refl c.operation in
    let key = (==_iff c.key_hash c.key_hash).1 refl in ground arith

module _ (c : ClaimScope) (claim : Claim) where
  reuse_key_returned :
      (k : FinancialIdempotencyKey) (s : Session)
      → find? (in_scope c) s.live.idempotency_keys ≡ some k
      → (reuse_key c k s).0 ≡ ok claim
      → IsClaimed c claim.key (reuse_key c k s).1.live
  unfolding reuse_key
  reuse_key_returned k s found returned =
      let (p, e1) = bind-raise_if _ _ _ s claim returned in
      let is_claim = pure_returned _ claim s (sym (ap (λ x. x.0) e1) ∙ returned) in
      let same : claim.key ≡ k = ap (λ (x : Claim). x.key) is_claim in
      subst (λ x. IsClaimed c claim.key x.1.live) (sym (e1 ∙ pure_run _ s))
        (subst (λ x. IsClaimed c x s.live) (sym same)
          (record { found = found; same_request = not-false _ p }))

  insert_key_returned :
      (rival : Option FinancialIdempotencyKey) (others : List FinancialIdempotencyKey) (s : Session)
      → find? (in_scope c) others ≡ rival
      → (insert_key c rival s).0 ≡ ok claim
      → IsClaimed c claim.key (insert_key c rival s).1.live
  unfolding insert_key add_key ◌>>=◌
  insert_key_returned (some rival) others s is_rival returned =
      reuse_key_returned rival _
        (first_found c rival s.live.idempotency_keys
          (find?_passes (in_scope c) others {a = rival} is_rival))
        returned
  insert_key_returned none others s is_rival returned =
      let made = new_key c s.live.next_id in
      let is_claim = ok_only (record { key = made; created = true }) claim returned in
      subst (λ x. IsClaimed c x.key (insert_key c none s).1.live) is_claim
        (record {
          found = first_found c made s.live.idempotency_keys (new_in_scope c s.live.next_id);
          same_request = (==_iff c.request_hash c.request_hash).1 refl;
        })

  reuse_or_create_returned :
      (o : Option FinancialIdempotencyKey) (s : Session)
      → find? (in_scope c) s.live.idempotency_keys ≡ o
      → (reuse_or_create c o s).0 ≡ ok claim
      → IsClaimed c claim.key (reuse_or_create c o s).1.live
  unfolding reuse_or_create create_key
  reuse_or_create_returned (some k) s found returned = reuse_key_returned k s found returned
  reuse_or_create_returned none s absent returned =
      let e1 = bind-arriving _ s in
      let r1 = sym (ap (λ x. x.0) e1) ∙ returned in
      subst (λ x. IsClaimed c claim.key x.1.live) (sym e1)
        (insert_key_returned (find? (in_scope c) s.arriving.keys) s.arriving.keys s refl r1)

-- A claim that returns was of a valid key, and its record is the one of its scope from then on.
pub claim_idempotency_returned :
    (env : Environment) (user : Uuid) (operation : ScopedOperation) (raw : Text)
    (payload : RequestPayload) (s : Session) (claim : Claim)
    → (claim_idempotency env user operation raw payload s).0 ≡ ok claim
    → (is_valid_key env raw ≡ true)
      × IsClaimed
          (scope_of env user operation raw payload)
          claim.key
          (claim_idempotency env user operation raw payload s).1.live
unfolding claim_idempotency
claim_idempotency_returned env user operation raw payload s claim returned =
    let c = scope_of env user operation raw payload in
    let (p, e1) = bind-raise_if _ _ _ s claim returned in
    let r1 = sym (ap (λ x. x.0) e1) ∙ returned in
    let e2 = bind-gets _ _ s in
    let r2 = sym (ap (λ x. x.0) e2) ∙ r1 in
    (
      ap not p,
      subst (λ x. IsClaimed c claim.key x.1.live) (sym (e1 ∙ e2))
          (reuse_or_create_returned c claim (find? (in_scope c) s.live.idempotency_keys) s refl r2),
    )
