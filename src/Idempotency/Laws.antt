-- ===== src/Idempotency/Laws.antt =====
-- What the idempotency of backend/internal/app/idempotency.go promises: one run for a key, the same
-- answer afterwards, and no trace of a failure.
use text.Mathlib.Text.{◌==◌ as str_eq}
use second_hand_market_backe.Base.{◌≡◌, refl, ◌∙◌, true, Option, none, some, List, arith, any}
use second_hand_market_backe.Errors.{Error, Result, ok, err, biz, db, claim_conflict, internal}
use second_hand_market_backe.Model.Shop.{IdempotencyRecord}
use second_hand_market_backe.Database.Tables.{Db, idempotency_records}
use second_hand_market_backe.Database.Gorm.{Gorm, IsGorm}
use second_hand_market_backe.Database.Actions.{
  pure, raise, lift, ◌>>=◌, fail_if, map_error, attempt, first, find_rows, transaction,
}
use second_hand_market_backe.Database.Keeps.{
  RowProperty, Keeps, Any, Keeps-bind, Keeps-pure, Keeps-raise, Keeps-fail_if, Keeps-if,
  Keeps-map_error, Keeps-attempt, Keeps-first, Keeps-create, Keeps-update, Keeps-transaction,
}
use second_hand_market_backe.Request.{Context, Codec, Fields}
use second_hand_market_backe.Idempotency.{
  Operation, Scope, is_idempotency_duplicate, required, claim_row, in_scope,
  run_idempotent_transaction, claim_and_run, replay_idempotency_result, replay_on_conflict,
  run_scoped, run_with_idempotency, scope_of,
}

-- `uniqueIndex:uk_idem_scope` of models.go: a scope is claimed once, and a second claim is refused
-- as a duplicate.
pub record IsUniqueScope (g : Gorm) : Type 0 where
  pub refuses :
      (scope : Scope) (xs : List IdempotencyRecord)
      → any (in_scope scope) xs ≡ true
      → (e : Error) × (g.create idempotency_records (claim_row scope) xs ≡ err e)
        × (is_idempotency_duplicate e ≡ true)

-- The operation does not touch the table of the keys.
abbrev pub Spares : Operation → Type 0
Spares fn = (s : Db) → (fn s).1 idempotency_records ≡ s idempotency_records

module _ {I : RowProperty} where
  Keeps-required :
      {A : Type 0} (Q : A → Type 0) (o : Option A) → ((a : A) → Q a) → Keeps I (required o) Q
  unfolding required
  Keeps-required Q none q = Keeps-raise (biz internal)
  Keeps-required Q (some a) q = Keeps-pure a (q a)

module _ (g : Gorm) (laws : IsGorm g) (j : Codec) (I : RowProperty)
    (keys : (r : IdempotencyRecord) → I idempotency_records r) where
  Keeps-replay : (scope : Scope) → Keeps I (replay_idempotency_result g j scope) Any
  unfolding replay_idempotency_result
  Keeps-replay scope =
      Keeps-bind (Keeps-map_error _ (Keeps-first g laws I idempotency_records _)) (λ r _.
        Keeps-bind (Keeps-fail_if _ _) (λ _ _. Keeps-bind (Keeps-fail_if _ _) (λ _ _.
          Keeps-bind (Keeps-required Any _ (λ _. tt))
            (λ stored _. Keeps-bind (Keeps-required Any _ (λ _. tt)) (λ m _. Keeps-pure _ tt)))))

  Keeps-replay_on_conflict :
      (scope : Scope) (r : Result Fields) → Keeps I (replay_on_conflict g j scope r) Any
  unfolding replay_on_conflict
  Keeps-replay_on_conflict scope (ok m) = Keeps-pure m tt
  Keeps-replay_on_conflict scope (err claim_conflict) = Keeps-replay scope
  Keeps-replay_on_conflict scope (err (biz e)) = Keeps-raise _
  Keeps-replay_on_conflict scope (err (db e)) = Keeps-raise _

  module _ (fn : Operation) (kept : Keeps I fn Any) where
    Keeps-claim_and_run : (scope : Scope) → Keeps I (claim_and_run g j scope fn) Any
    unfolding claim_and_run
    Keeps-claim_and_run scope =
        Keeps-bind (Keeps-map_error _ (Keeps-create g laws I idempotency_records _ (λ i _. keys _)))
          (λ claim _. Keeps-bind kept (λ answer _.
            Keeps-bind (Keeps-required Any _ (λ _. tt)) (λ result _.
              Keeps-bind (Keeps-required Any _ (λ _. tt)) (λ encoded _.
                Keeps-bind
                  (Keeps-map_error _ (
                    Keeps-update g laws I idempotency_records _ _ (λ x _ _ _. keys _)
                      (λ x _. refl)))
                  (λ affected _. Keeps-bind (Keeps-fail_if _ _) (λ _ _. Keeps-pure _ tt))))))

    -- Whatever an operation keeps, it keeps when it runs under an idempotency key.
    pub Keeps-run_with_idempotency :
        (c : Context) (payload : Fields) → Keeps I (run_with_idempotency g j c payload fn) Any
    unfolding run_with_idempotency run_idempotent_transaction run_scoped
    Keeps-run_with_idempotency c payload =
        Keeps-if (str_eq c.idempotency_key "") _ _
          (λ _.
            Keeps-transaction g laws I
              (Keeps-bind kept (λ answer _. Keeps-required Any _ (λ _. tt))))
          (λ _. Keeps-bind (Keeps-required Any _ (λ _. tt)) (λ actor _.
            Keeps-bind (Keeps-required Any _ (λ _. tt)) (λ raw _.
              Keeps-bind
                (Keeps-attempt
                  (Keeps-transaction g laws I (Keeps-claim_and_run (scope_of j c actor raw))))
                (λ r _. Keeps-replay_on_conflict (scope_of j c actor raw) r))))

-- The replay only reads.
module _ (g : Gorm) (j : Codec) where
  replay-reads : (scope : Scope) (s : Db) → (replay_idempotency_result g j scope s).1 ≡ s
  unfolding replay_idempotency_result ◌>>=◌ map_error first find_rows lift fail_if required pure
      raise
  replay-reads scope s = ground arith

  replay_on_conflict-reads :
      (scope : Scope) (r : Result Fields) (s : Db) → (replay_on_conflict g j scope r s).1 ≡ s
  unfolding replay_on_conflict pure raise
  replay_on_conflict-reads scope (ok m) s = refl
  replay_on_conflict-reads scope (err claim_conflict) s = replay-reads scope s
  replay_on_conflict-reads scope (err (biz e)) s = refl
  replay_on_conflict-reads scope (err (db e)) s = refl

module _ (g : Gorm) (laws : IsGorm g) (j : Codec) (scope : Scope) (fn : Operation) where
  -- A request under a key that fails leaves the database as it was, the claim included.
  pub run_scoped-failure :
      (s : Db) (e : Error)
      → (run_scoped g j scope fn s).0 ≡ err e
      → (run_scoped g j scope fn s).1 ≡ s
  unfolding run_scoped ◌>>=◌ attempt transaction replay_on_conflict pure
  run_scoped-failure s e h =
      go (g.transaction (claim_and_run g j scope fn) s).0
        (g.transaction (claim_and_run g j scope fn) s).1 refl h
    where
      go :
          (r : Result Fields) (t : Db)
          → g.transaction (claim_and_run g j scope fn) s ≡ (r, t)
          → (replay_on_conflict g j scope r t).0 ≡ err e
          → (replay_on_conflict g j scope r t).1 ≡ s
      go (ok m) t q x = cc
      go (err y) t q x =
          replay_on_conflict-reads g j scope (err y) t
          ∙ laws.abort (claim_and_run g j scope fn) s t y q
