-- ===== src/Inventory/Adjust.antt =====
-- Stock adjustment: `calculateStockAdjustment` and `adjustStock` of
-- backend/internal/app/inventory_service.go, and the request that carries it.
use second_hand_market_backe.Base.{
  ℕ, String, Bool, true, false, not, ◌&&◌, ◌||◌, none, some, List, [], ◌∷◌, if◌then◌else◌,
}
use second_hand_market_backe.Base.Int.{ℤ, pos, leb_ℤ, ltb_ℤ, eqb_ℤ, ◌+64◌, ◌-64◌}
use second_hand_market_backe.Errors.{
  Result, ok, err, biz, invalid_transition, invalid_argument, code_ok,
}
use second_hand_market_backe.Model.Status.{
  ProductStatus, product_status_text, same_product_status, StockAdjustmentType,
}
use second_hand_market_backe.Model.Shop.{
  Product, ProductStockAdjustment, number, text, bytes, moment,
}
use second_hand_market_backe.Database.Tables.{stock_adjustments}
use second_hand_market_backe.Database.Gorm.{Action, Gorm}
use second_hand_market_backe.Database.Actions.{pure, lift, ◌>>=◌, ◌>>◌, create, transaction}
use second_hand_market_backe.Request.{
  Actor, Context, Fields, Audit, is_some, load_owned_product_for_update, save_product,
}

unfoldable pub can_adjust_product_stock : ProductStatus → Bool
can_adjust_product_stock ProductStatus.draft = true
can_adjust_product_stock ProductStatus.on_shelf = true
can_adjust_product_stock ProductStatus.off_shelf = true
can_adjust_product_stock ProductStatus.sold = true
can_adjust_product_stock _ = false

-- The results of `calculateStockAdjustment`.
pub record Adjustment : Type 0 where
  pub applied : ℤ
  pub stock_after : ℤ
  pub status_after : ProductStatus

abbrev is_increase : StockAdjustmentType → Bool
is_increase StockAdjustmentType.increase = true
is_increase _ = false

abbrev is_mark_sold : StockAdjustmentType → Bool
is_mark_sold StockAdjustmentType.mark_sold = true
is_mark_sold _ = false

-- The `switch` on the kind of adjustment, for a product that is not sold.
switch_adjustment : StockAdjustmentType → Product → ℤ → Bool → Result Adjustment
switch_adjustment StockAdjustmentType.increase p quantity all =
    ok (record { applied = quantity; stock_after = p.stock +64 quantity; status_after = p.status })
switch_adjustment StockAdjustmentType.decrease p quantity all =
    if ltb_ℤ p.stock quantity
    then err (biz invalid_transition)
    else let after = p.stock -64 quantity in
      ok (record {
        applied = quantity;
        stock_after = after;
        status_after =
            if same_product_status p.status ProductStatus.on_shelf && eqb_ℤ after (pos 0)
            then ProductStatus.off_shelf
            else p.status;
      })
switch_adjustment StockAdjustmentType.mark_sold p requested all =
    if (not (same_product_status p.status ProductStatus.on_shelf)
        && not (same_product_status p.status ProductStatus.off_shelf))
      || leb_ℤ p.stock (pos 0)
      || not (eqb_ℤ p.reserved_stock (pos 0))
    then err (biz invalid_transition)
    else let quantity = (if all then p.stock else requested) in
      let after = p.stock -64 quantity in
      if ltb_ℤ p.stock quantity
      then err (biz invalid_transition)
      else ok (record {
        applied = quantity;
        stock_after = after;
        status_after = if eqb_ℤ after (pos 0) then ProductStatus.sold else p.status;
      })
switch_adjustment (StockAdjustmentType.other t) p quantity all = err (biz invalid_argument)

unfoldable pub calculate_stock_adjustment :
    Product → StockAdjustmentType → ℤ → Bool → Result Adjustment
unfolding switch_adjustment can_adjust_product_stock same_product_status
calculate_stock_adjustment p kind quantity all =
    if not (can_adjust_product_stock p.status) || is_some p.active_order_id
    then err (biz invalid_transition)
    else if same_product_status p.status ProductStatus.sold
    then (if not (is_increase kind) || leb_ℤ quantity (pos 0) || all
        then err (biz invalid_transition)
        else ok (record {
          applied = quantity;
          stock_after = p.stock +64 quantity;
          status_after = ProductStatus.off_shelf;
        }))
    else if all && not (is_mark_sold kind)
    then err (biz invalid_argument)
    else if leb_ℤ quantity (pos 0) && not all
    then err (biz invalid_argument)
    else switch_adjustment kind p quantity all

-- `dto.AdjustProductStockRequest`
pub record AdjustProductStockRequest : Type 0 where
  pub adjustment_type : StockAdjustmentType
  pub quantity : ℤ
  pub all_remaining : Bool
  pub reason : List ℕ

abbrev pub kind_text : StockAdjustmentType → String
kind_text StockAdjustmentType.increase = "INCREASE"
kind_text StockAdjustmentType.decrease = "DECREASE"
kind_text StockAdjustmentType.mark_sold = "MARK_SOLD"
kind_text (StockAdjustmentType.other s) = s

module _ (c : Context) (actor : Actor) (req : AdjustProductStockRequest) where
  -- The product as `adjustStock` saves it.
  unfoldable pub adjusted_product : Product → Adjustment → Product
  unfolding same_product_status
  adjusted_product p a =
      let turned_off =
        same_product_status a.status_after ProductStatus.off_shelf
        && not (same_product_status p.status ProductStatus.off_shelf) in
      let turned_sold =
        same_product_status a.status_after ProductStatus.sold
        && not (same_product_status p.status ProductStatus.sold) in
      record p {
        stock = a.stock_after;
        status = a.status_after;
        updated_by = actor.user_id;
        version = p.version +64 pos 1;
        off_shelf_at = if turned_off then some (c.now 0) else p.off_shelf_at;
        sold_at = if turned_sold then some (c.now 0) else p.sold_at;
        active_order_id = if turned_sold then none else p.active_order_id;
      }

  -- The movement that `adjustStock` records.
  unfoldable pub movement_of : Product → Adjustment → ProductStockAdjustment
  movement_of p a = record {
    id = 0;
    product_id = p.id;
    merchant_id = actor.merchant_id;
    adjustment_type = req.adjustment_type;
    quantity = a.applied;
    stock_before = p.stock;
    stock_after = a.stock_after;
    status_before = p.status;
    status_after = a.status_after;
    reason = req.reason;
    operator_id = actor.user_id;
    created_at = c.now 0;
  }

  abbrev adjust_detail : Product → Adjustment → ℕ → Fields
  adjust_detail p a movement_id =
      ("adjustment_type", text (kind_text req.adjustment_type))
      ∷ ("quantity", number a.applied)
      ∷ ("stock_before", number p.stock)
      ∷ ("stock_after", number a.stock_after)
      ∷ ("reason", bytes req.reason)
      ∷ ("movement_id", number (pos movement_id))
      ∷ []

  abbrev adjust_response : Product → Adjustment → ℕ → Fields
  adjust_response p a movement_id =
      ("product_id", number (pos p.id))
      ∷ ("movement_id", number (pos movement_id))
      ∷ ("adjustment_type", text (kind_text req.adjustment_type))
      ∷ ("quantity", number a.applied)
      ∷ ("stock_before", number p.stock)
      ∷ ("stock_after", number a.stock_after)
      ∷ ("status_before", text (product_status_text p.status))
      ∷ ("status_after", text (product_status_text a.status_after))
      ∷ ("adjusted_at", moment (c.now 0))
      ∷ []

  -- `inventoryService.adjustStock`; the body of its transaction.
  unfoldable pub adjust_stock_body : Gorm → Audit → ℕ → Action Fields
  adjust_stock_body g audit id = do
    p ← load_owned_product_for_update g id actor.merchant_id
    a ← lift (calculate_stock_adjustment p req.adjustment_type req.quantity req.all_remaining)
    save_product g (adjusted_product p a)
    movement ← create g stock_adjustments (movement_of p a)
    audit (record {
      resource_type = "product";
      resource_id = p.id;
      action = "product_stock_adjust";
      from_status = some (product_status_text p.status);
      to_status = some (product_status_text a.status_after);
      code = code_ok;
      merchant_id = some actor.merchant_id;
      detail = adjust_detail p a movement.id;
    })
    pure (adjust_response p a movement.id)

  unfoldable pub adjust_stock : Gorm → Audit → ℕ → Action Fields
  adjust_stock g audit id = transaction g (adjust_stock_body g audit id)
