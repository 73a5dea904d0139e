-- ===== src/Idempotency.antt =====
-- backend/internal/app/idempotency.go: an operation with an `Idempotency-Key` claims the key in its
-- own transaction, and a request that finds the key claimed is answered from the stored response.
pub mod Laws
pub mod Replay
pub mod Once
use text.Mathlib.Text.{◌==◌ as str_eq}
use second_hand_market_backe.Base.{
  ℕ, String, Bool, true, false, not, ◌&&◌, ◌||◌, Option, none, some, List, [], ◌∷◌, ◌==◌,
  if◌then◌else◌,
}
use second_hand_market_backe.Base.Text.{codes, same_bytes}
use second_hand_market_backe.Errors.{
  Error, biz, db, claim_conflict, DbKind, duplicated_key, mysql, sqlite, internal, duplicate_submit,
  Result, ok, err, code_ok,
}
use second_hand_market_backe.Model.Shop.{IdempotencyRecord, Value, flag}
use second_hand_market_backe.Database.Tables.{idempotency_records}
use second_hand_market_backe.Database.Gorm.{Action, Gorm}
use second_hand_market_backe.Database.Actions.{
  pure, raise, lift, ◌>>=◌, ◌>>◌, fail_if, map_error, attempt, first, create, update, transaction,
}
use second_hand_market_backe.Request.{Actor, Context, Codec, Fields}

-- `type idempotentOperation`; its map may be nil.
abbrev pub Operation : Type 0
Operation = Action (Option Fields)

-- `type idempotencyScope`
pub record Scope : Type 0 where
  pub key : String
  pub operator_id : ℕ
  pub path : String
  pub request_hash : List ℕ

unfoldable pub is_duplicate_kind : DbKind → Bool
is_duplicate_kind duplicated_key = true
is_duplicate_kind (mysql n) = n == 1062
is_duplicate_kind (sqlite n) = n == 2067 || n == 1555
is_duplicate_kind _ = false

-- `isIdempotencyDuplicate`
unfoldable pub is_idempotency_duplicate : Error → Bool
unfolding is_duplicate_kind
is_idempotency_duplicate (db e) = is_duplicate_kind e.kind
is_idempotency_duplicate _ = false

-- The answer to a failed claim.
unfoldable pub claim_error : Error → Error
unfolding is_idempotency_duplicate
claim_error e = if is_idempotency_duplicate e then claim_conflict else biz internal

-- `data["idempotent"] = true`
unfoldable pub set_idempotent : Fields → Fields
set_idempotent [] = ("idempotent", flag true) ∷ []
set_idempotent ((k, v) ∷ m) =
    if str_eq k "idempotent" then (k, flag true) ∷ m else (k, v) ∷ set_idempotent m

-- A value that must be there.
unfoldable pub required : {A : Type 0} → Option A → Action A
required none = raise (biz internal)
required (some a) = pure a

-- The row that claims a scope, and the test by which the claim is found again.
unfoldable pub claim_row : Scope → IdempotencyRecord
claim_row s = record {
  id = 0;
  idem_key = s.key;
  operator_id = s.operator_id;
  path = s.path;
  request_hash = s.request_hash;
  result_code = code_ok;
  response_raw = codes "null";
}

unfoldable pub in_scope : Scope → IdempotencyRecord → Bool
in_scope s r = str_eq r.idem_key s.key && r.operator_id == s.operator_id && str_eq r.path s.path

-- The scope of a request: its key, its actor, its route and the hash of its payload.
unfoldable pub scope_of : Codec → Context → Actor → List ℕ → Scope
scope_of j c actor raw = record {
  key = c.idempotency_key;
  operator_id = actor.user_id;
  path = c.full_path;
  request_hash = j.sha256 raw;
}

module _ (g : Gorm) (j : Codec) where
  -- `runIdempotentTransaction`
  unfoldable pub run_idempotent_transaction : Operation → Action Fields
  run_idempotent_transaction fn = transaction g (do result ← fn; required result)

  -- The body of the transaction that claims the key and runs the operation.
  unfoldable pub claim_and_run : Scope → Operation → Action Fields
  claim_and_run scope fn = do
    claim ← map_error claim_error (create g idempotency_records (claim_row scope))
    answer ← fn
    result ← required answer
    encoded ← required (j.marshal result)
    affected ←
        map_error (λ _. biz internal)
          (update g idempotency_records (λ r. r.id == claim.id)
            (λ r. record r { result_code = code_ok; response_raw = encoded }))
    fail_if (not (affected == 1)) internal
    pure result

  -- `replayIdempotencyResult`
  unfoldable pub replay_idempotency_result : Scope → Action Fields
  replay_idempotency_result scope = do
    r ← map_error (λ _. biz internal) (first g idempotency_records (in_scope scope))
    fail_if (not (same_bytes r.request_hash scope.request_hash)) duplicate_submit
    fail_if (not (r.result_code == code_ok)) internal
    stored ← required (j.unmarshal r.response_raw)
    m ← required stored
    pure (set_idempotent m)

  -- What follows the transaction: a claim that was taken is replayed.
  unfoldable pub replay_on_conflict : Scope → Result Fields → Action Fields
  replay_on_conflict scope (ok m) = pure m
  replay_on_conflict scope (err claim_conflict) = replay_idempotency_result scope
  replay_on_conflict scope (err (biz e)) = raise (biz e)
  replay_on_conflict scope (err (db e)) = raise (db e)

  unfoldable pub run_scoped : Scope → Operation → Action Fields
  run_scoped scope fn = do
    r ← attempt (transaction g (claim_and_run scope fn))
    replay_on_conflict scope r

  -- `runWithIdempotency`
  unfoldable pub run_with_idempotency : Context → Fields → Operation → Action Fields
  run_with_idempotency c payload fn =
      if str_eq c.idempotency_key "" then run_idempotent_transaction fn else (do
        actor ← required c.actor
        raw ← required (j.marshal payload)
        run_scoped (scope_of j c actor raw) fn)
