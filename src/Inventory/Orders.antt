-- ===== src/Inventory/Orders.antt =====
-- Orders: `createOrder` and `transitionOrder` of backend/internal/app/inventory_service.go.
use second_hand_market_backe.Base.{
  ℕ, String, Bool, true, false, not, ◌&&◌, ◌||◌, Option, none, some, List, [], ◌∷◌, ◌==◌,
  if◌then◌else◌,
}
use second_hand_market_backe.Base.Int.{ℤ, pos, leb_ℤ, ltb_ℤ, eqb_ℤ, ◌+64◌, ◌-64◌}
use second_hand_market_backe.Base.Text.{codes, contains, to_lower}
use second_hand_market_backe.Errors.{
  Error, biz, db, claim_conflict, new_biz_error, invalid_transition, conflict, code_conflict,
  code_ok, message_of,
}
use second_hand_market_backe.Model.Status.{
  ProductStatus, OrderStatus, UserType, product_status_text, order_status_text, same_product_status,
  same_order_status,
}
use second_hand_market_backe.Model.Shop.{Product, Order, OrderEvent, number, text, flag, moment}
use second_hand_market_backe.Database.Tables.{orders, order_events}
use second_hand_market_backe.Database.Gorm.{Action, Gorm}
use second_hand_market_backe.Database.Actions.{
  pure, ◌>>=◌, ◌>>◌, fail_if, map_error, create, transaction,
}
use second_hand_market_backe.Request.{
  Actor, Context, Fields, Audit, is_some, load_owned_product_for_update,
  load_owned_order_for_update, save_product, save_order,
}
use second_hand_market_backe.Stateflow.{can_transition_product, can_transition_order}

-- The text of an error, as `err.Error()` gives it.
error_text : Error → List ℕ
error_text (biz e) = codes (message_of e)
error_text (db e) = e.message
error_text claim_conflict = codes "idempotency claim conflict"

unfoldable pub is_unique_active_order_err : Error → Bool
unfolding error_text contains to_lower
is_unique_active_order_err e =
    let msg = to_lower (error_text e) in
    contains msg (codes "uk_product_active") || contains msg (codes "unique")

-- What `createOrder` answers to a failed insert of the order.
unfoldable pub order_insert_error : Error → Error
unfolding is_unique_active_order_err
order_insert_error e = if is_unique_active_order_err e then biz conflict else e

-- `dto.CreateOrderRequest`
pub record CreateOrderRequest : Type 0 where
  pub product_id : ℕ
  pub deal_price_cent : ℤ
  pub buyer_contact_masked : Option String
  pub remark : Option String

abbrev points_to : Option ℕ → ℕ → Bool
points_to none i = false
points_to (some n) i = n == i

module _ (c : Context) (actor : Actor) where
  unfoldable pub new_order : CreateOrderRequest → Product → Order
  new_order req p = record {
    id = 0;
    order_no = c.biz_no;
    merchant_id = actor.merchant_id;
    product_id = p.id;
    quantity = pos 1;
    deal_price_cent = req.deal_price_cent;
    buyer_contact_masked = req.buyer_contact_masked;
    remark = req.remark;
    status = OrderStatus.created;
    is_active = true;
    close_reason = none;
    created_by = actor.user_id;
    completed_at = none;
    closed_at = none;
    deleted_at = none;
  }

  -- The product as `createOrder` saves it.
  unfoldable pub locked_product : Product → Order → Product
  locked_product p o = record p {
    status = ProductStatus.locked;
    reserved_stock = p.reserved_stock +64 o.quantity;
    active_order_id = some o.id;
    locked_at = some (c.now 0);
    updated_by = actor.user_id;
    version = p.version +64 pos 1;
  }

  abbrev order_event : ℕ → String → Option OrderStatus → OrderStatus → Option String → OrderEvent
  order_event order_id kind from to note = record {
    id = 0;
    order_id = order_id;
    event_type = kind;
    from_status = from;
    to_status = to;
    operator_type = UserType.merchant;
    operator_id = actor.user_id;
    note = note;
  }

  -- The body of the transaction of `createOrder`.
  unfoldable pub create_order_body : Gorm → Audit → CreateOrderRequest → Action Order
  create_order_body g audit req = do
    p ← load_owned_product_for_update g req.product_id actor.merchant_id
    fail_if (same_product_status p.status ProductStatus.locked && is_some p.active_order_id)
        (new_biz_error code_conflict "product has active order" 409)
    fail_if (not (can_transition_product p.status ProductStatus.locked)) invalid_transition
    fail_if (ltb_ℤ (p.stock -64 p.reserved_stock) (pos 1)) invalid_transition
    o ← map_error order_insert_error (create g orders (new_order req p))
    save_product g (locked_product p o)
    create g order_events (order_event o.id "CREATE" none OrderStatus.created req.remark)
    audit (record {
      resource_type = "order";
      resource_id = o.id;
      action = "order_create";
      from_status = none;
      to_status = some (order_status_text o.status);
      code = code_ok;
      merchant_id = some actor.merchant_id;
      detail = [];
    })
    audit (record {
      resource_type = "product";
      resource_id = p.id;
      action = "product_lock";
      from_status = some (product_status_text p.status);
      to_status = some (product_status_text ProductStatus.locked);
      code = code_ok;
      merchant_id = some actor.merchant_id;
      detail = ("order_id", number (pos o.id)) ∷ [];
    })
    pure o

  unfoldable pub create_order : Gorm → Audit → CreateOrderRequest → Action Order
  create_order g audit req = transaction g (create_order_body g audit req)

  -- The order and the product as `transitionOrder` saves them.
  unfoldable pub finished_order : Order → OrderStatus → Option String → Order
  unfolding same_order_status
  finished_order o to note =
      if same_order_status to OrderStatus.completed
      then record o { status = to; is_active = false; completed_at = some (c.now 0) }
      else record o {
        status = to;
        is_active = false;
        closed_at = some (c.now 0);
        close_reason = note;
      }

  unfoldable pub released_product : Product → Order → OrderStatus → Product
  unfolding same_order_status
  released_product p o to =
      let q = record p {
        active_order_id = none;
        updated_by = actor.user_id;
        version = p.version +64 pos 1;
        reserved_stock = p.reserved_stock -64 o.quantity;
      } in
      let rest = p.stock -64 o.quantity in
      if same_order_status to OrderStatus.completed
      then (if eqb_ℤ rest (pos 0)
          then record q { stock = rest; status = ProductStatus.sold; sold_at = some (c.now 0) }
          else record q { stock = rest; status = ProductStatus.on_shelf })
      else record q { status = ProductStatus.off_shelf; off_shelf_at = some (c.now 0) }

  abbrev pub transition_response : Order → OrderStatus → ProductStatus → Bool → Fields
  transition_response o to product_status idempotent =
      ("order_id", number (pos o.id))
      ∷ ("from_status", text (order_status_text o.status))
      ∷ ("to_status", text (order_status_text to))
      ∷ ("product_status", text (product_status_text product_status))
      ∷ ("idempotent", flag idempotent)
      ∷ []

  -- `completed_at` or `closed_at`, which the response carries as well.
  abbrev finished_at : OrderStatus → Fields
  finished_at to =
      (
        if same_order_status to OrderStatus.completed then "completed_at" else "closed_at",
        moment (c.now 0),
      )
      ∷ []

  abbrev appended : Fields → Fields → Fields
  appended [] ys = ys
  appended (x ∷ xs) ys = x ∷ appended xs ys

  -- The part of `transitionOrder` that changes rows.
  unfoldable pub finish_order :
      Gorm → Audit → Order → Product → OrderStatus → String → Option String → Action Fields
  finish_order g audit o p to action note = do
    let p' = released_product p o to
    save_order g (finished_order o to note)
    save_product g p'
    create g order_events (
        order_event o.id (if same_order_status to OrderStatus.closed then "CLOSE" else "COMPLETE")
          (some o.status) to note)
    audit (record {
      resource_type = "order";
      resource_id = o.id;
      action = action;
      from_status = some (order_status_text o.status);
      to_status = some (order_status_text to);
      code = code_ok;
      merchant_id = some actor.merchant_id;
      detail = [];
    })
    audit (record {
      resource_type = "product";
      resource_id = p.id;
      action = "product_order_link";
      from_status = some (product_status_text ProductStatus.locked);
      to_status = some (product_status_text p'.status);
      code = code_ok;
      merchant_id = some actor.merchant_id;
      detail = ("order_id", number (pos o.id)) ∷ [];
    })
    pure (appended (finished_at to) (transition_response o to p'.status false))

  unfoldable pub transition_order_body :
      Gorm → Audit → ℕ → OrderStatus → String → Option String → Action Fields
  transition_order_body g audit id to action note = do
    o ← load_owned_order_for_update g id actor.merchant_id
    if same_order_status o.status to
        then (do
          p ← load_owned_product_for_update g o.product_id actor.merchant_id
          pure (transition_response o o.status p.status true))
        else (do
          fail_if (not (can_transition_order o.status to)) invalid_transition
          p ← load_owned_product_for_update g o.product_id actor.merchant_id
          fail_if
              (not (same_product_status p.status ProductStatus.locked)
                || not (points_to p.active_order_id o.id))
              invalid_transition
          fail_if
              (leb_ℤ o.quantity (pos 0)
                || ltb_ℤ p.reserved_stock o.quantity
                || ltb_ℤ p.stock o.quantity)
              invalid_transition
          finish_order g audit o p to action note)

  unfoldable pub transition_order :
      Gorm → Audit → ℕ → OrderStatus → String → Option String → Action Fields
  transition_order g audit id to action note =
      transaction g (transition_order_body g audit id to action note)
