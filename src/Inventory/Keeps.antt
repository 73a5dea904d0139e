-- ===== src/Inventory/Keeps.antt =====
-- Every operation of the inventory service keeps the rows sound, on success and on failure.
use second_hand_market_backe.Base.{ℕ, ◌≡◌, refl, ◌≢◌, String, Bool, false, not, ◌||◌, Option, arith}
use second_hand_market_backe.Base.Int.{In64}
use second_hand_market_backe.Model.Status.{
  ProductStatus, OrderStatus, same_product_status, same_order_status,
}
use second_hand_market_backe.Model.Shop.{Product, Order}
use second_hand_market_backe.Database.Tables.{orders, order_events, stock_adjustments}
use second_hand_market_backe.Database.Gorm.{Gorm, IsGorm}
use second_hand_market_backe.Database.Keeps.{
  Keeps, Any, Keeps-bind, Keeps-pure, Keeps-lift, Keeps-if, Keeps-fail_if, Keeps-map_error,
  Keeps-create, Keeps-transaction,
}
use second_hand_market_backe.Request.{Actor, Context, Audit}
use second_hand_market_backe.Request.Keeps.{
  KeepsAudit, Keeps-load_owned_product, Keeps-load_owned_order, Keeps-save_product,
  Keeps-save_order,
}
use second_hand_market_backe.Stateflow.{can_transition_product, can_transition_order}
use second_hand_market_backe.Invariant.{IsSound, IsUnit, Sound}
use second_hand_market_backe.Inventory.Adjust.{
  AdjustProductStockRequest, adjust_stock_body, adjust_stock,
}
use second_hand_market_backe.Inventory.Orders.{
  CreateOrderRequest, order_insert_error, new_order, finish_order, create_order_body, create_order,
  transition_order_body, transition_order,
}
use second_hand_market_backe.Inventory.Pure.{
  adjusted_product-IsSound, movement_of-IsBalanced, locked_product-IsSound,
  released_product-IsSound, finished_order-IsUnit,
}

to_locked :
    (s : ProductStatus)
    → not (can_transition_product s ProductStatus.locked) ≡ false
    → s ≡ ProductStatus.on_shelf
unfolding can_transition_product
to_locked s h = ground arith

still_locked :
    (s : ProductStatus) (b : Bool)
    → (not (same_product_status s ProductStatus.locked) || b) ≡ false
    → s ≡ ProductStatus.locked
unfolding same_product_status
still_locked s b h = ground arith

leaves_created :
    (from to : OrderStatus) → not (can_transition_order from to) ≡ false → to ≢ OrderStatus.created
unfolding can_transition_order
leaves_created from to h = ground arith

module _ (g : Gorm) (laws : IsGorm g) (audit : Audit) (logged : KeepsAudit Sound audit)
    (c : Context) (actor : Actor) where
  pub Keeps-adjust_stock :
      (req : AdjustProductStockRequest) (id : ℕ)
      → In64 req.quantity
      → Keeps Sound (adjust_stock c actor req g audit id) Any
  unfolding adjust_stock adjust_stock_body
  Keeps-adjust_stock req id w = Keeps-transaction g laws Sound (
      Keeps-bind (Keeps-load_owned_product g laws Sound id actor.merchant_id) (λ p loaded.
        Keeps-bind (Keeps-lift _ (λ a e. e)) (λ a e.
          Keeps-bind
            (Keeps-save_product g laws Sound _
              (adjusted_product-IsSound c actor req p a loaded.good w e))
            (λ _ _.
              Keeps-bind
                (Keeps-create g laws Sound stock_adjustments _
                  (λ i _. movement_of-IsBalanced c actor req p a loaded.good e i))
                (λ m _. Keeps-bind (logged _) (λ _ _. Keeps-pure _ tt))))))

  pub Keeps-create_order :
      (req : CreateOrderRequest) → Keeps Sound (create_order c actor g audit req) IsUnit
  unfolding create_order create_order_body new_order
  Keeps-create_order req = Keeps-transaction g laws Sound (
      Keeps-bind (Keeps-load_owned_product g laws Sound req.product_id actor.merchant_id)
        (λ p loaded. Keeps-bind (Keeps-fail_if _ _) (λ _ _.
          Keeps-bind (Keeps-fail_if _ _) (λ _ offered. Keeps-bind (Keeps-fail_if _ _) (λ _ _.
            Keeps-bind
              (Keeps-map_error order_insert_error (
                Keeps-create g laws Sound orders _ (λ i _. record { one = refl; activity = refl })))
              (λ o new.
                Keeps-bind
                  (Keeps-save_product g laws Sound _ (λ _.
                    locked_product-IsSound c actor p o loaded.good new.2.one
                      (to_locked p.status offered)))
                  (λ _ _. Keeps-bind (Keeps-create g laws Sound order_events _ (λ _ _. tt)) (λ _ _.
                    Keeps-bind (logged _)
                      (λ _ _. Keeps-bind (logged _) (λ _ _. Keeps-pure o new.2))))))))))

  finish_order-Keeps :
      (o : Order) (p : Product) (to : OrderStatus) (action : String) (reason : Option String)
      → IsUnit o
      → IsSound p
      → p.status ≡ ProductStatus.locked
      → to ≢ OrderStatus.created
      → Keeps Sound (finish_order c actor g audit o p to action reason) Any
  unfolding finish_order
  finish_order-Keeps o p to action reason u s locked n =
      Keeps-bind (Keeps-save_order g laws Sound _ (finished_order-IsUnit c actor o to reason u n))
        (λ _ _.
          Keeps-bind
            (Keeps-save_product g laws Sound _
              (λ _. released_product-IsSound c actor p o to s u.one locked))
            (λ _ _. Keeps-bind (Keeps-create g laws Sound order_events _ (λ _ _. tt)) (λ _ _.
              Keeps-bind (logged _) (λ _ _. Keeps-bind (logged _) (λ _ _. Keeps-pure _ tt)))))

  pub Keeps-transition_order :
      (id : ℕ) (to : OrderStatus) (action : String) (reason : Option String)
      → Keeps Sound (transition_order c actor g audit id to action reason) Any
  unfolding transition_order transition_order_body
  Keeps-transition_order id to action reason = Keeps-transaction g laws Sound (
      Keeps-bind (Keeps-load_owned_order g laws Sound id actor.merchant_id) (λ o found.
        Keeps-if (same_order_status o.status to) _ _
          (λ _.
            Keeps-bind (Keeps-load_owned_product g laws Sound o.product_id actor.merchant_id)
              (λ p _. Keeps-pure _ tt))
          (λ _. Keeps-bind (Keeps-fail_if _ _) (λ _ allowed.
            Keeps-bind (Keeps-load_owned_product g laws Sound o.product_id actor.merchant_id)
              (λ p loaded. Keeps-bind (Keeps-fail_if _ _) (λ _ held.
                Keeps-bind (Keeps-fail_if _ _) (λ _ _.
                  finish_order-Keeps o p to action reason found.good loaded.good
                    (still_locked p.status _ held) (leaves_created o.status to allowed))))))))
