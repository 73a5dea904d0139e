-- ===== src/Idempotency/Replay.antt =====
-- A key that has been used answers again from what was stored (backend/internal/app/idempotency.go).
use text.Mathlib.TextPositions.{eq_refl}
use second_hand_market_backe.Base.{
  ℕ, ◌≡◌, refl, sym, ◌∙◌, ap, true, false, Option, none, some, List, [], ◌∷◌, ◌++◌, arith, ◌==◌,
  ==-refl, keep, any, map_if, keep-map_if_new, any-map_if_new,
}
use second_hand_market_backe.Errors.{Result, ok, code_ok}
use second_hand_market_backe.Model.Shop.{IdempotencyRecord}
use second_hand_market_backe.Database.Tables.{Db, idempotency_records, put, with_id}
use second_hand_market_backe.Database.Gorm.{Gorm, IsGorm}
use second_hand_market_backe.Database.Actions.{pure, raise}
use second_hand_market_backe.Database.Invert.{
  bind-ok, map_error-ok, create-ok, update-ok, fail_if-ok, pure-ok,
}
use second_hand_market_backe.Request.{Codec, Fields}
use second_hand_market_backe.Idempotency.{
  Operation, Scope, required, claim_row, in_scope, claim_and_run,
}
use second_hand_market_backe.Idempotency.Laws.{Spares}

required-ok :
    {A : Type 0} (o : Option A) (a : A) (s t : Db)
    → required o s ≡ (ok a, t)
    → (o ≡ some a) × (t ≡ s)
unfolding required raise pure
required-ok none a s t h = cc
required-ok (some x) a s t h = (ground arith, ground arith)

-- What a claim that went through has left: the stored row, with the answer of the operation in it.
pub record IsStored (g : Gorm) (j : Codec) (scope : Scope) (m : Fields) (t : Db) : Type 0 where
  pub row : IdempotencyRecord
  pub raw : List ℕ
  pub encoded : j.marshal m ≡ some raw
  pub payload : row.request_hash ≡ scope.request_hash
  pub success : row.result_code ≡ code_ok
  pub response : row.response_raw ≡ raw
  pub found : keep (in_scope scope) (t idempotency_records) ≡ row ∷ []
  pub taken : any (in_scope scope) (t idempotency_records) ≡ true

-- The update of `claim_and_run`.
abbrev filled : List ℕ → IdempotencyRecord → IdempotencyRecord
filled raw r = record r { result_code = code_ok; response_raw = raw }

claim_row-in_scope :
    (scope : Scope) (i : ℕ)
    → in_scope scope (with_id idempotency_records i (claim_row scope)) ≡ true
unfolding in_scope claim_row
claim_row-in_scope scope i = simp (eq_refl, ==-refl)

filled-in_scope :
    (scope : Scope) (raw : List ℕ) (x : IdempotencyRecord)
    → in_scope scope (filled raw x) ≡ in_scope scope x
unfolding in_scope
filled-in_scope scope raw x = refl

module _ (g : Gorm) (laws : IsGorm g) (j : Codec) (scope : Scope) (fn : Operation)
    (spares : Spares fn) where
  -- The rows after the claim, the operation and the update of the claim.
  IsStored-rows :
      (m : Fields) (raw : List ℕ) (i : ℕ) (claim : IdempotencyRecord)
      (xs rows old after : List IdempotencyRecord) (t : Db)
      → any (in_scope scope) xs ≡ false
      → j.marshal m ≡ some raw
      → claim ≡ with_id idempotency_records i (claim_row scope)
      → rows ≡ xs ++ (claim ∷ [])
      → old ≡ rows
      → after ≡ map_if (λ r. r.id == claim.id) (filled raw) old
      → t idempotency_records ≡ after
      → IsStored g j scope m t
  unfolding claim_row
  IsStored-rows m raw i claim xs rows old after t free e same appended kept updated left =
      let p : in_scope scope claim ≡ true = rw same (claim_row-in_scope scope i) in
      let now : t idempotency_records
          ≡ map_if (λ r. r.id == claim.id) (filled raw) (xs ++ (claim ∷ [])) =
        left ∙ updated ∙ ap (map_if (λ r. r.id == claim.id) (filled raw)) (kept ∙ appended) in
      record {
        row = filled raw claim;
        raw = raw;
        encoded = e;
        payload = rw same refl;
        success = refl;
        response = refl;
        found = rw now (
            keep-map_if_new (in_scope scope) _ (filled raw) (filled-in_scope scope raw) claim xs
              free (==-refl claim.id) p);
        taken = rw now (
            any-map_if_new (in_scope scope) _ (filled raw) (filled-in_scope scope raw) claim xs
              (==-refl claim.id) p);
      }

  pub claim_and_run-IsStored :
      (s t : Db) (m : Fields)
      → any (in_scope scope) (s idempotency_records) ≡ false
      → claim_and_run g j scope fn s ≡ (ok m, t)
      → IsStored g j scope m t
  unfolding claim_and_run put
  claim_and_run-IsStored s t m free h = bind-ok _ _ h λ claim s1 made h1.
      bind-ok _ _ h1 λ answer s2 ran h2. bind-ok _ _ h2 λ result s3 there h3.
        bind-ok _ _ h3 λ raw s4 encoded h4. bind-ok _ _ h4 λ affected s5 updated h5.
          bind-ok _ _ h5 λ u s6 counted h6.
            let (rows, created, e1) =
              create-ok g idempotency_records _ claim s s1 (map_error-ok _ _ claim s s1 made) in
            let (e3, same3) = required-ok answer result s2 s3 there in
            let (e4, same4) = required-ok (j.marshal result) raw s3 s4 encoded in
            let (after, written, e5) =
              update-ok g idempotency_records _ _ affected s4 s5
                (map_error-ok _ _ affected s4 s5 updated) in
            let (one, same6) = fail_if-ok _ _ u s5 s6 counted in
            let (final, same7) = pure-ok result m s6 t h6 in
            let (i, keyed, appended, fits, fresh) =
              laws.create_lem idempotency_records _ claim _ rows created in
            let (mapped, number, fit) =
              laws.update_lem idempotency_records _ _ _ after affected written in
            IsStored-rows m raw i claim (s idempotency_records) rows (s4 idempotency_records) after
              t free (ap j.marshal (sym final) ∙ e4) keyed appended
              (ap (λ (d : Db). d idempotency_records) (same4 ∙ same3)
                ∙ ap (λ (x : Result (Option Fields) × Db). x.1 idempotency_records) (sym ran)
                ∙ spares s1
                ∙ ap (λ (d : Db). d idempotency_records) e1)
              mapped (ap (λ (d : Db). d idempotency_records) (same7 ∙ same6 ∙ e5))
