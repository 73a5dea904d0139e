-- ===== src/System.antt =====
-- The requests of merchants that change products, orders and intents, as their handlers in
-- backend/internal/app serve them once the body is bound: which operation, under which idempotency payload, with which
-- log. A request that fails has the effect that is left in the database.
pub mod Buyers
pub mod Trace
pub mod Sound
pub mod Atomic
use second_hand_market_backe.Base.{
  ℕ, String, Bool, true, Option, none, some, List, [], ◌∷◌, ◌||◌, ltb, length,
}
use second_hand_market_backe.Base.Int.{pos, In64}
use second_hand_market_backe.Base.Text.{trim_space, byte_length}
use second_hand_market_backe.Errors.{Result, ok, err, invalid_argument}
use second_hand_market_backe.Session.{require_auth, require_full_merchant_scope}
use second_hand_market_backe.Model.Status.{
  UserType, OrderStatus, order_status_text, ProductStatus, product_status_text, IntentStatus,
  intent_status_text,
}
use second_hand_market_backe.Model.Shop.{Order, Product, Value, number, text, bytes, flag, null}
use second_hand_market_backe.Model.Buyer.{BuyerIntent}
use second_hand_market_backe.Database.Tables.{Db}
use second_hand_market_backe.Database.Gorm.{Action, Gorm}
use second_hand_market_backe.Database.Actions.{pure, lift, ◌>>=◌, ◌>>◌, fail_if}
use second_hand_market_backe.Request.{
  Actor, Context, Codec, Fields, actor_from_context, inventory_audit, write_operation_log,
}
use second_hand_market_backe.Idempotency.{Operation, run_with_idempotency}
use second_hand_market_backe.Inventory.Adjust.{AdjustProductStockRequest, kind_text, adjust_stock}
use second_hand_market_backe.Inventory.Orders.{CreateOrderRequest, create_order, transition_order}
use second_hand_market_backe.Products.{product_on_shelf, product_off_shelf}
use second_hand_market_backe.Products.Edit.{
  CreateProductRequest, UpdateProductRequest, create_product, update_product,
}
use second_hand_market_backe.Products.Delete.{delete_product}
use second_hand_market_backe.Intents.{
  MerchantIntentCloseRequest, contact_intent, close_intent, create_buyer_intent,
}

pub data Call : Type 0 where
  stock_adjustment : ℕ → AdjustProductStockRequest → Call
  order_create : CreateOrderRequest → Call
  order_complete order_close : ℕ → Option String → Call
  on_shelf off_shelf : ℕ → Call
  product_delete : ℕ → Call
  product_create : CreateProductRequest → Call
  product_update : ℕ → UpdateProductRequest → Call
  intent_contacted : ℕ → Call
  intent_close : ℕ → MerchantIntentCloseRequest → Call

abbrev pub optional : Option String → Value
optional none = null
optional (some s) = text s

-- The nil map is never the answer of an operation that succeeds.
abbrev pub answered : Action Fields → Operation
answered m = m >>= λ x. pure (some x)

-- The answers, less the `created_at` that gorm fills in.
abbrev order_response : Order → Fields
order_response o =
    ("order_id", number (pos o.id))
    ∷ ("order_no", text o.order_no)
    ∷ ("status", text (order_status_text o.status))
    ∷ ("product_status", text (product_status_text ProductStatus.locked))
    ∷ []

abbrev product_response : Product → Fields
product_response p =
    ("product_id", number (pos p.id))
    ∷ ("product_no", text p.product_no)
    ∷ ("status", text (product_status_text p.status))
    ∷ ("stock", number p.stock)
    ∷ ("original_price_cent", elim p.original_price_cent [ none ↦ null | some x ↦ number x ])
    ∷ []

-- The answer of a deletion, less the list of the ids that were deleted.
abbrev deleted_response : ℕ → List ℕ → Fields
deleted_response id ids =
    ("product_id", number (pos id))
    ∷ ("deleted", flag true)
    ∷ ("deleted_file_count", number (pos (length ids)))
    ∷ []

abbrev id_and : ℕ → Fields → Fields
id_and i rest = ("id", number (pos i)) ∷ rest

module _ (g : Gorm) (j : Codec) (strict : Bool) (c : Context) where
  -- `s.runWithIdempotency(c, payload, …)`
  abbrev pub under_key : Fields → Action Fields → Action Fields
  under_key payload m = run_with_idempotency g j c payload (answered m)

  -- `handleProductStockAdjustment`
  abbrev pub handle_product_stock_adjustment : Actor → ℕ → AdjustProductStockRequest → Action Fields
  handle_product_stock_adjustment actor id sent = do
    let req = record sent { reason = trim_space sent.reason }
    fail_if (ltb (byte_length req.reason) 2 || ltb 255 (byte_length req.reason)) invalid_argument
    under_key
        (id_and id (
          ("adjustment_type", text (kind_text req.adjustment_type))
          ∷ ("quantity", number req.quantity)
          ∷ ("all_remaining", flag req.all_remaining)
          ∷ ("reason", bytes req.reason)
          ∷ []))
        (adjust_stock c actor req g (inventory_audit g j c) id)

  -- `doOrderAction`
  abbrev pub do_order_action : Actor → ℕ → OrderStatus → String → Option String → Action Fields
  do_order_action actor id to action note =
      under_key
        (id_and id (("to_status", text (order_status_text to)) ∷ ("note", optional note) ∷ []))
        (transition_order c actor g (inventory_audit g j c) id to action note)

  -- One handler, for the actor of the request.
  unfoldable pub serve : Actor → Call → Action Fields
  serve actor (stock_adjustment id req) = handle_product_stock_adjustment actor id req
  serve actor (order_create req) =
      create_order c actor g (inventory_audit g j c) req >>= λ o. pure (order_response o)
  serve actor (order_complete id note) =
      do_order_action actor id OrderStatus.completed "order_complete" note
  serve actor (order_close id reason) =
      do_order_action actor id OrderStatus.closed "order_close" reason
  serve actor (on_shelf id) =
      under_key (id_and id (("to_status", text (product_status_text ProductStatus.on_shelf)) ∷ []))
        (product_on_shelf c actor g (write_operation_log g j c) id)
  serve actor (off_shelf id) =
      under_key (id_and id (("to_status", text (product_status_text ProductStatus.off_shelf)) ∷ []))
        (product_off_shelf c actor g (write_operation_log g j c) id)
  serve actor (product_delete id) =
      delete_product g c actor (write_operation_log g j c) id >>= λ removed.
      pure (deleted_response id removed.0)
  serve actor (product_create req) =
      create_product c actor g strict (write_operation_log g j c) req >>= λ p.
      pure (product_response p)
  serve actor (product_update id req) =
      update_product c actor g strict (write_operation_log g j c) id req
  serve actor (intent_contacted id) =
      under_key (id_and id (("to_status", text (intent_status_text IntentStatus.contacted)) ∷ []))
        (contact_intent c actor g (write_operation_log g j c) id)
  serve actor (intent_close id req) =
      under_key
        (id_and id (
          ("to_status", text (intent_status_text IntentStatus.closed))
          ∷ ("reason", optional req.reason)
          ∷ ("merchant_note", optional req.merchant_note)
          ∷ []))
        (close_intent c actor g (write_operation_log g j c) id req)

  -- The guards of `registerRoutes` before each handler.
  unfoldable pub guard : Call → Option Actor → Result Actor
  guard _ actor = elim (require_auth (UserType.merchant ∷ []) actor) [
    | err e ↦ err e
    | ok a ↦ require_full_merchant_scope (some a)
  ]

  -- A request with the actor that the session guard has set, or none.
  unfoldable pub handle : Call → Action Fields
  handle call = do
    allowed ← lift (guard call c.actor)
    actor ← lift (actor_from_context c)
    serve actor call

-- A quantity is Go's `int`.
abbrev pub IsBound : Call → Type 0
IsBound (stock_adjustment id req) = In64 req.quantity
IsBound _ = Unit
