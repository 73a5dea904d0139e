-- ===== src/Inventory/Pure.antt =====
-- What `calculateStockAdjustment` and the changes of the rows compute, with no database.
use second_hand_market_backe.Base.{ℕ, ◌≡◌, ◌≢◌, String, Bool, Option, none, arith}
use second_hand_market_backe.Base.Int.{
  ℤ, pos, ◌<ℤ◌, ◌+ℤ◌, ◌-ℤ◌, In64, +64-exact, -64-exact, +64-fits, +ℤ_parts, -ℤ_parts, eq_of_parts,
}
use second_hand_market_backe.Errors.{ok}
use second_hand_market_backe.Model.Status.{ProductStatus, OrderStatus, StockAdjustmentType}
use second_hand_market_backe.Model.Shop.{Product, Order}
use second_hand_market_backe.Database.Tables.{Fits, products}
use second_hand_market_backe.Request.{Actor, Context}
use second_hand_market_backe.Invariant.{IsSound, IsUnit, IsBalanced, Moved}
use second_hand_market_backe.Inventory.Adjust.{
  Adjustment, AdjustProductStockRequest, calculate_stock_adjustment, adjusted_product, movement_of,
}
use second_hand_market_backe.Inventory.Orders.{locked_product, released_product, finished_order}

-- What a successful adjustment says: which movement it is, and the status that goes with the stock.
pub record IsAdjustment (p : Product) (kind : StockAdjustmentType) (a : Adjustment) : Type 0 where
  pub positive : pos 0 <ℤ a.applied
  pub free : p.active_order_id ≡ none
  pub moved : Moved kind p.stock a.applied a.stock_after

-- An adjustment of a sound product that is allowed moves a positive quantity, the stock after it is
-- the stock before it more or less that quantity, and no order holds the product.
pub calculate-IsAdjustment :
    (p : Product) (kind : StockAdjustmentType) (quantity : ℤ) (all : Bool) (a : Adjustment)
    → IsSound p
    → calculate_stock_adjustment p kind quantity all ≡ ok a
    → IsAdjustment p kind a
unfolding calculate_stock_adjustment
calculate-IsAdjustment p kind quantity all a s e = ground (
  arith,
  -64-exact p.stock quantity,
  -64-exact p.stock p.stock,
  -ℤ_parts p.stock quantity,
  -ℤ_parts p.stock p.stock,
  +ℤ_parts (p.stock -ℤ quantity) quantity,
  +ℤ_parts (p.stock -ℤ p.stock) p.stock,
)

module _ (c : Context) (actor : Actor) (req : AdjustProductStockRequest) where
  -- An allowed adjustment of a sound product by a 64-bit quantity leaves it sound, where the columns
  -- of 32 bits hold the new values.
  pub adjusted_product-IsSound :
      (p : Product) (a : Adjustment)
      → IsSound p
      → In64 req.quantity
      → calculate_stock_adjustment p req.adjustment_type req.quantity req.all_remaining ≡ ok a
      → Fits products (adjusted_product c actor req p a)
      → IsSound (adjusted_product c actor req p a)
  unfolding calculate_stock_adjustment adjusted_product
  adjusted_product-IsSound p a s w e f = ground (
    arith,
    -64-exact p.stock req.quantity,
    -64-exact p.stock p.stock,
    -ℤ_parts p.stock req.quantity,
    -ℤ_parts p.stock p.stock,
    +64-fits p.stock req.quantity,
    +ℤ_parts p.stock req.quantity,
  )

  pub movement_of-IsBalanced :
      (p : Product) (a : Adjustment)
      → IsSound p
      → calculate_stock_adjustment p req.adjustment_type req.quantity req.all_remaining ≡ ok a
      → (i : ℕ) → IsBalanced (record (movement_of c actor req p a) { id = i })
  unfolding movement_of
  movement_of-IsBalanced p a s e i =
      let h = calculate-IsAdjustment p req.adjustment_type req.quantity req.all_remaining a s e in
      record { positive = h.positive; moved = h.moved }

module _ (c : Context) (actor : Actor) where
  pub locked_product-IsSound :
      (p : Product) (o : Order)
      → IsSound p
      → o.quantity ≡ pos 1
      → p.status ≡ ProductStatus.on_shelf
      → IsSound (locked_product c actor p o)
  unfolding locked_product
  locked_product-IsSound p o s q e = ground (
    arith,
    +64-exact p.reserved_stock o.quantity,
    +ℤ_parts p.reserved_stock o.quantity,
    eq_of_parts (p.reserved_stock +ℤ o.quantity) (pos 1),
  )

  pub released_product-IsSound :
      (p : Product) (o : Order) (to : OrderStatus)
      → IsSound p
      → o.quantity ≡ pos 1
      → p.status ≡ ProductStatus.locked
      → IsSound (released_product c actor p o to)
  unfolding released_product
  released_product-IsSound p o to s q e = ground (
    arith,
    -64-exact p.reserved_stock o.quantity,
    -ℤ_parts p.reserved_stock o.quantity,
    -64-exact p.stock o.quantity,
    -ℤ_parts p.stock o.quantity,
  )

  pub finished_order-IsUnit :
      (o : Order) (to : OrderStatus) (note : Option String)
      → IsUnit o
      → to ≢ OrderStatus.created
      → IsUnit (finished_order c actor o to note)
  unfolding finished_order
  finished_order-IsUnit o to _ u n = ground arith
