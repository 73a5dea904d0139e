-- ===== src/Invariant.antt =====
-- What holds of every row between two requests.
use second_hand_market_backe.Base.{ℕ, ◌≡◌, Bool, true, false, Option, none, some, List}
use second_hand_market_backe.Base.Int.{ℤ, pos, ◌+64◌, ◌≤ℤ◌, ◌<ℤ◌, ◌+ℤ◌}
use second_hand_market_backe.Model.Status.{
  ProductStatus, OrderStatus, StockAdjustmentType, IntentStatus,
}
use second_hand_market_backe.Model.Shop.{Product, Order, ProductStockAdjustment}
use second_hand_market_backe.Model.Buyer.{
  OwnerType, OwnerKey, of_buyer, of_device, BuyerFavorite, BuyerHistory,
}
use second_hand_market_backe.Database.Tables.{
  products, orders, stock_adjustments, intents, favorites, histories,
}
use second_hand_market_backe.Database.Keeps.{RowProperty}

-- A locked product holds one unit for the order that it names; any other holds none.
abbrev pub Reservation : ProductStatus → ℤ → Option ℕ → Type 0
Reservation ProductStatus.locked reserved (some o) = reserved ≡ pos 1
Reservation ProductStatus.locked reserved none = ⊥
Reservation _ reserved none = reserved ≡ pos 0
Reservation _ reserved (some o) = ⊥

-- A product that is offered has stock, one that is sold has none.
abbrev pub Shelf : ProductStatus → ℤ → Type 0
Shelf ProductStatus.on_shelf stock = pos 0 <ℤ stock
Shelf ProductStatus.sold stock = stock ≡ pos 0
Shelf _ stock = Unit

pub record IsSound (p : Product) : Type 0 where
  pub reserved_nonneg : pos 0 ≤ℤ p.reserved_stock
  pub reserved_within : p.reserved_stock ≤ℤ p.stock
  pub stock_bounded : p.stock <ℤ pos 2147483648
  pub reservation : Reservation p.status p.reserved_stock p.active_order_id
  pub shelf : Shelf p.status p.stock

-- An order is active exactly while it is open.
abbrev pub Activity : OrderStatus → Bool → Type 0
Activity OrderStatus.created active = active ≡ true
Activity _ active = active ≡ false

pub record IsUnit (o : Order) : Type 0 where
  pub one : o.quantity ≡ pos 1
  pub activity : Activity o.status o.is_active

-- A recorded movement: the stock after it is the stock before it, more or less its quantity.
abbrev pub Moved : StockAdjustmentType → ℤ → ℤ → ℤ → Type 0
Moved StockAdjustmentType.increase before quantity after = after ≡ before +64 quantity
Moved _ before quantity after = (after +ℤ quantity ≡ before) × (pos 0 ≤ℤ after)

pub record IsBalanced (m : ProductStockAdjustment) : Type 0 where
  pub positive : pos 0 <ℤ m.quantity
  pub moved : Moved m.adjustment_type m.stock_before m.quantity m.stock_after

-- An intent is open until it is closed.
abbrev pub Openness : IntentStatus → Bool → Type 0
Openness IntentStatus.new open_flag = open_flag ≡ true
Openness IntentStatus.contacted open_flag = open_flag ≡ true
Openness IntentStatus.closed open_flag = open_flag ≡ false
Openness (IntentStatus.other s) open_flag = ⊥

-- The columns of an owner agree with the owner's key.
abbrev pub Owned : OwnerType → OwnerKey → Option ℕ → Option (List ℕ) → Type 0
Owned OwnerType.buyer (of_buyer b) buyer_id device_id = (buyer_id ≡ some b) × (device_id ≡ none)
Owned OwnerType.device (of_device d) buyer_id device_id = (buyer_id ≡ none) × (device_id ≡ some d)
Owned _ _ buyer_id device_id = ⊥

pub record IsOwnFavorite (f : BuyerFavorite) : Type 0 where
  pub owned : Owned f.owner_type f.owner_key f.buyer_id f.device_id

-- The first view is not after the last.
pub record IsOwnHistory (h : BuyerHistory) : Type 0 where
  pub owned : Owned h.owner_type h.owner_key h.buyer_id h.device_id
  pub ordered : h.first_viewed_at ≤ℤ h.last_viewed_at

abbrev pub Sound : RowProperty
Sound products p = IsSound p
Sound orders o = IsUnit o
Sound stock_adjustments m = IsBalanced m
Sound intents i = Openness i.status i.is_open
Sound favorites f = IsOwnFavorite f
Sound histories h = IsOwnHistory h
Sound _ _ = Unit
