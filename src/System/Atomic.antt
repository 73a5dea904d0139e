-- ===== src/System/Atomic.antt =====
-- A request that fails has changed nothing.
use second_hand_market_backe.Base.{ℕ, ◌≡◌, Bool, Option, none, some}
use second_hand_market_backe.Errors.{Error, err}
use second_hand_market_backe.Database.Tables.{Db, categories}
use second_hand_market_backe.Database.Gorm.{Gorm, IsGorm}
use second_hand_market_backe.Database.Atomic.{
  Atomic, Reads, Reads-pure, Reads-raise, Reads-lift, Reads-map_error, Reads-fail_if, Reads-first,
  Reads-bind, Atomic-if, Atomic-bind, Atomic-answer, Atomic-transaction,
}
use second_hand_market_backe.Request.{Actor, Context, Codec, Fields}
use second_hand_market_backe.Idempotency.{
  Operation, run_with_idempotency, run_idempotent_transaction, required, scope_of,
}
use second_hand_market_backe.Idempotency.Laws.{run_scoped-failure}
use second_hand_market_backe.Inventory.Orders.{create_order}
use second_hand_market_backe.Products.Delete.{delete_product}
use second_hand_market_backe.Products.Edit.{
  ensure_merchant_level2_category, create_product, update_product,
}
use second_hand_market_backe.System.{
  Call, stock_adjustment, order_create, order_complete, order_close, on_shelf, off_shelf,
  product_delete, product_create, product_update, intent_contacted, intent_close, serve, handle,
}

Reads-required : {A : Type 0} (o : Option A) → Reads (required o)
unfolding required
Reads-required none = Reads-raise _
Reads-required (some a) = Reads-pure a

module _ (g : Gorm) (laws : IsGorm g) (j : Codec) (c : Context) where
  pub Atomic-run_with_idempotency :
      (payload : Fields) (fn : Operation) → Atomic (run_with_idempotency g j c payload fn)
  unfolding run_with_idempotency run_idempotent_transaction
  Atomic-run_with_idempotency payload fn = Atomic-if _ (Atomic-transaction g laws _) (
      Atomic-bind (Reads-required _) (λ actor. Atomic-bind (Reads-required _) (λ raw. record {
        undone = λ s e h. run_scoped-failure g laws j (scope_of j c actor raw) fn s e h;
      })))

module _ (g : Gorm) (laws : IsGorm g) (j : Codec) (strict : Bool) (c : Context) where
  Reads-ensure_category :
      (merchant_id category_id : ℕ)
      → Reads (ensure_merchant_level2_category g merchant_id category_id)
  unfolding ensure_merchant_level2_category
  Reads-ensure_category merchant_id category_id =
      Reads-bind (Reads-map_error _ (Reads-first g categories _)) (λ category. Reads-fail_if _ _)

  Atomic-serve : (actor : Actor) (call : Call) → Atomic (serve g j strict c actor call)
  unfolding serve delete_product create_order create_product update_product
  Atomic-serve actor (order_create req) = Atomic-answer _ (Atomic-transaction g laws _)
  Atomic-serve actor (product_delete id) = Atomic-answer _ (Atomic-transaction g laws _)
  Atomic-serve actor (product_create req) = Atomic-answer _ (
      Atomic-bind (Reads-fail_if _ _)
        (λ _. Atomic-bind (Reads-ensure_category _ _) (λ _. Atomic-transaction g laws _)))
  Atomic-serve actor (product_update id req) = Atomic-answer _ (Atomic-transaction g laws _)
  Atomic-serve actor (stock_adjustment id req) =
      Atomic-bind (Reads-fail_if _ _) (λ _. Atomic-run_with_idempotency g laws j c _ _)
  Atomic-serve actor (order_complete id reason) = Atomic-run_with_idempotency g laws j c _ _
  Atomic-serve actor (order_close id reason) = Atomic-run_with_idempotency g laws j c _ _
  Atomic-serve actor (on_shelf id) = Atomic-run_with_idempotency g laws j c _ _
  Atomic-serve actor (off_shelf id) = Atomic-run_with_idempotency g laws j c _ _
  Atomic-serve actor (intent_contacted id) = Atomic-run_with_idempotency g laws j c _ _
  Atomic-serve actor (intent_close id req) = Atomic-run_with_idempotency g laws j c _ _

  -- A request that ends in an error leaves every table as it was, where gorm has its laws.
  pub handle-failure :
      (call : Call) (s : Db) (e : Error)
      → (handle g j strict c call s).0 ≡ err e
      → (handle g j strict c call s).1 ≡ s
  unfolding handle
  handle-failure call s e h =
      (Atomic-bind (Reads-lift _)
          (λ allowed. Atomic-bind (Reads-lift _) (λ actor. Atomic-serve actor call))).undone
        s e h
