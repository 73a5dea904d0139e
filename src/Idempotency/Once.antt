-- ===== src/Idempotency/Once.antt =====
-- One run for a key: what a second request with the same key is answered
-- (backend/internal/app/idempotency.go).
use second_hand_market_backe.Base.{
  ℕ, ◌≡◌, refl, sym, ◌∙◌, ap, Bool, not, true, false, some, List, [], ◌∷◌, arith, keep, any, ◌==◌,
}
use second_hand_market_backe.Base.Text.{same_bytes, same_bytes_refl}
use second_hand_market_backe.Errors.{
  Error, Result, ok, err, biz, db, claim_conflict, duplicate_submit, internal, code_ok,
}
use second_hand_market_backe.Model.Shop.{IdempotencyRecord}
use second_hand_market_backe.Database.Tables.{Db, idempotency_records}
use second_hand_market_backe.Database.Gorm.{Gorm, IsGorm}
use second_hand_market_backe.Database.Actions.{pure, raise, ◌>>=◌, fail_if, attempt, transaction}
use second_hand_market_backe.Database.Invert.{
  bind-ok, map_error-ok, first-ok, first-found, bind-step, map_error-step, fail_if-step, bind-fail,
  map_error-fail, create-fail,
}
use second_hand_market_backe.Request.{Codec, Fields}
use second_hand_market_backe.Idempotency.{
  Operation, Scope, is_idempotency_duplicate, claim_error, set_idempotent, required, claim_row,
  in_scope, claim_and_run, replay_idempotency_result, replay_on_conflict, run_scoped,
}
use second_hand_market_backe.Idempotency.Laws.{IsUniqueScope, Spares}
use second_hand_market_backe.Idempotency.Replay.{IsStored, claim_and_run-IsStored}

keep-none : {A : Type 0} (p : A → Bool) (xs : List A) → any p xs ≡ false → keep p xs ≡ []
keep-none p [] h = refl
keep-none p (x ∷ xs) h = ground (arith, keep-none p xs)

module _ (g : Gorm) (laws : IsGorm g) (j : Codec) (scope : Scope) where
  -- Nothing is replayed from a key that is not claimed.
  replay-unclaimed :
      (s t : Db) (m : Fields)
      → any (in_scope scope) (s idempotency_records) ≡ false
      → replay_idempotency_result g j scope s ≡ (ok m, t)
      → ⊥
  unfolding replay_idempotency_result
  replay-unclaimed s t m free h = bind-ok _ _ h λ r u found rest.
      let (more, there, same) =
        first-ok g laws idempotency_records (in_scope scope) r s u (map_error-ok _ _ r s u found) in
      let none_there = keep-none (in_scope scope) (s idempotency_records) free in cc

  -- The second request: what it is answered from a row that is stored.
  replay-stored :
      (s : Db) (m : Fields) (rows : List IdempotencyRecord) (stored : IsStored g j scope m s)
      → g.select idempotency_records (in_scope scope) (s idempotency_records) ≡ ok rows
      → j.unmarshal stored.raw ≡ some (some m)
      → replay_idempotency_result g j scope s ≡ (ok (set_idempotent m), s)
  unfolding replay_idempotency_result required pure
  replay-stored s m rows stored read decoded =
      let same : rows ≡ stored.row ∷ [] =
        laws.select_lem idempotency_records (in_scope scope) (s idempotency_records) rows read
        ∙ stored.found in
      let found =
        first-found g idempotency_records (in_scope scope) stored.row [] s (read ∙ ap ok same) in
      let matching : not (same_bytes stored.row.request_hash scope.request_hash) ≡ false =
        rw (stored.payload, same_bytes_refl) refl in
      let succeeded : not (stored.row.result_code == code_ok) ≡ false = rw stored.success refl in
      bind-step _ _ (map_error-step _ _ found)
      ∙ bind-step _ _ (fail_if-step _ duplicate_submit s matching)
      ∙ bind-step _ _ (fail_if-step _ internal s succeeded)
      ∙ bind-step _ _ (ap (λ o. required o s) (ap j.unmarshal stored.response ∙ decoded))
      ∙ bind-step (required (some m)) (λ x. pure (set_idempotent x)) refl

  -- A claim that is refused ends the transaction before the operation runs.
  claim-refused :
      (s : Db) (fn : Operation) (e : Error)
      → g.create idempotency_records (claim_row scope) (s idempotency_records) ≡ err e
      → is_idempotency_duplicate e ≡ true
      → (claim_and_run g j scope fn s).0 ≡ err claim_conflict
  unfolding claim_and_run claim_error
  claim-refused s fn e refused duplicate = bind-fail _ _ s claim_conflict (
      map_error-fail claim_error _ s e
        (create-fail g idempotency_records (claim_row scope) s e refused)
      ∙ ap err (rw duplicate refl))

  run_scoped-claimed :
      (unique : IsUniqueScope g) (s : Db) (fn : Operation)
      → any (in_scope scope) (s idempotency_records) ≡ true
      → run_scoped g j scope fn s ≡ replay_idempotency_result g j scope s
  unfolding run_scoped ◌>>=◌ attempt transaction replay_on_conflict
  run_scoped-claimed unique s fn taken =
      let (e, refused, duplicate) = unique.refuses scope (s idempotency_records) taken in
      rw
        (laws.body_error (claim_and_run g j scope fn) s claim_conflict
          (claim-refused s fn e refused duplicate))
        refl

module _ (g : Gorm) (laws : IsGorm g) (j : Codec) (scope : Scope) (fn : Operation)
    (spares : Spares fn) where
  run_scoped-IsStored :
      (s t : Db) (m : Fields)
      → any (in_scope scope) (s idempotency_records) ≡ false
      → run_scoped g j scope fn s ≡ (ok m, t)
      → IsStored g j scope m t
  unfolding run_scoped ◌>>=◌ attempt transaction replay_on_conflict raise pure
  run_scoped-IsStored s t m free h =
      let r = (g.transaction (claim_and_run g j scope fn) s).0 in
      let u = (g.transaction (claim_and_run g j scope fn) s).1 in go r u refl h
    where
      go :
          (r : Result Fields) (u : Db)
          → g.transaction (claim_and_run g j scope fn) s ≡ (r, u)
          → replay_on_conflict g j scope r u ≡ (ok m, t)
          → IsStored g j scope m t
      go (ok n) u e x =
          claim_and_run-IsStored g laws j scope fn spares s t m free
            (laws.commit (claim_and_run g j scope fn) s u n e ∙ x)
      go (err claim_conflict) u e x = absurd (
          replay-unclaimed g laws j scope s t m free (
            ap (replay_idempotency_result g j scope)
              (sym (laws.abort (claim_and_run g j scope fn) s u claim_conflict e))
            ∙ x))
      go (err (biz y)) u e x = cc
      go (err (db y)) u e x = cc

  -- A request that repeats an unclaimed key's first success, with the same payload, is answered the
  -- same fields, marked as a repetition; its own operation does not run and nothing changes. This
  -- holds where gorm has its laws and the unique index of the keys, the first operation does not
  -- touch their table, the codec reads back this answer and the read of the stored row succeeds.
  pub run_scoped-once :
      (unique : IsUniqueScope g) (s t : Db) (m : Fields) (fn' : Operation)
      (rows : List IdempotencyRecord)
      → ((raw : List ℕ) → j.marshal m ≡ some raw → j.unmarshal raw ≡ some (some m))
      → any (in_scope scope) (s idempotency_records) ≡ false
      → run_scoped g j scope fn s ≡ (ok m, t)
      → g.select idempotency_records (in_scope scope) (t idempotency_records) ≡ ok rows
      → run_scoped g j scope fn' t ≡ (ok (set_idempotent m), t)
  run_scoped-once unique s t m fn' rows trips free h read =
      let stored = run_scoped-IsStored s t m free h in
      run_scoped-claimed g laws j scope unique t fn' stored.taken
      ∙ replay-stored g laws j scope t m rows stored read (trips stored.raw stored.encoded)

module _ (g : Gorm) (laws : IsGorm g) (unique : IsUniqueScope g) (j : Codec) (scope : Scope) where
  -- A request whose key was claimed with another payload is refused as a duplicate, whatever its
  -- operation, where the first row of the key is read, gorm has its laws and the keys are unique.
  pub run_scoped-other_payload :
      (s : Db) (fn : Operation) (r : IdempotencyRecord) (rest : List IdempotencyRecord)
      → any (in_scope scope) (s idempotency_records) ≡ true
      → g.select idempotency_records (in_scope scope) (s idempotency_records) ≡ ok (r ∷ rest)
      → same_bytes r.request_hash scope.request_hash ≡ false
      → (run_scoped g j scope fn s).0 ≡ err (biz duplicate_submit)
  unfolding replay_idempotency_result fail_if
  run_scoped-other_payload s fn r rest taken read other =
      let found = first-found g idempotency_records (in_scope scope) r rest s read in
      ap (λ (x : Result Fields × Db). x.0)
        (run_scoped-claimed g laws j scope unique s fn taken
          ∙ bind-step _ _ (map_error-step _ _ found))
      ∙ bind-fail _ _ s (biz duplicate_submit) (rw other refl)
