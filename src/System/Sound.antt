-- ===== src/System/Sound.antt =====
-- Whatever requests are made, in whatever order and by whomever, the rows stay sound.
use second_hand_market_backe.Base.{Bool, some}
use second_hand_market_backe.Base.Text.{trim_space}
use second_hand_market_backe.Database.Tables.{Db, Holds}
use second_hand_market_backe.Database.Gorm.{Action, Gorm, IsGorm}
use second_hand_market_backe.Database.Keeps.{
  Keeps, Any, Keeps-bind, Keeps-pure, Keeps-lift, Keeps-fail_if,
}
use second_hand_market_backe.Request.{Actor, Context, Codec, Fields}
use second_hand_market_backe.Request.Keeps.{Keeps-inventory_audit, Keeps-write_operation_log}
use second_hand_market_backe.Idempotency.Laws.{Keeps-run_with_idempotency}
use second_hand_market_backe.Inventory.Keeps.{
  Keeps-adjust_stock, Keeps-create_order, Keeps-transition_order,
}
use second_hand_market_backe.Products.Keeps.{Keeps-product_on_shelf, Keeps-product_off_shelf}
use second_hand_market_backe.Products.Edit.Sound.{Keeps-create_product, Keeps-update_product}
use second_hand_market_backe.Intents.Keeps.{Keeps-contact_intent, Keeps-close_intent}
use second_hand_market_backe.Products.Delete.Keeps.{Keeps-delete_product}
use second_hand_market_backe.Invariant.{Sound}
use second_hand_market_backe.System.{
  Call, stock_adjustment, order_create, order_complete, order_close, on_shelf, off_shelf,
  product_delete, product_create, product_update, intent_contacted, intent_close, serve, handle,
  IsBound, under_key,
}
use second_hand_market_backe.System.Trace.{Reaches, start, request, buyer_request}
use second_hand_market_backe.System.Buyers.Keeps.{Serves-serve_buyer}

module _ (g : Gorm) (laws : IsGorm g) (j : Codec) (strict : Bool) (c : Context) where
  Keeps-under_key :
      (payload : Fields) {m : Action Fields}
      → Keeps Sound m Any
      → Keeps Sound (under_key g j strict c payload m) Any
  Keeps-under_key payload k =
      Keeps-run_with_idempotency g laws j Sound (λ _. tt) _
        (Keeps-bind k (λ x _. Keeps-pure (some x) tt)) c payload

  Keeps-serve :
      (actor : Actor) (call : Call) → IsBound call → Keeps Sound (serve g j strict c actor call) Any
  unfolding serve
  Keeps-serve actor (stock_adjustment id req) w = Keeps-bind (Keeps-fail_if _ _) (λ _ _.
      Keeps-under_key _ (
        Keeps-adjust_stock g laws _ (Keeps-inventory_audit g laws Sound j c (λ _. tt)) c actor
          (record req { reason = trim_space req.reason }) id w))
  Keeps-serve actor (order_create req) w =
      Keeps-bind
        (Keeps-create_order g laws _ (Keeps-inventory_audit g laws Sound j c (λ _. tt)) c actor req)
        (λ o _. Keeps-pure _ tt)
  Keeps-serve actor (order_complete id reason) w = Keeps-under_key _ (
      Keeps-transition_order g laws _ (Keeps-inventory_audit g laws Sound j c (λ _. tt)) c actor id
        _ _ reason)
  Keeps-serve actor (order_close id reason) w = Keeps-under_key _ (
      Keeps-transition_order g laws _ (Keeps-inventory_audit g laws Sound j c (λ _. tt)) c actor id
        _ _ reason)
  Keeps-serve actor (on_shelf id) w = Keeps-under_key _ (
      Keeps-product_on_shelf g laws _ (Keeps-write_operation_log g laws Sound j c (λ _. tt)) c actor
        id)
  Keeps-serve actor (off_shelf id) w = Keeps-under_key _ (
      Keeps-product_off_shelf g laws _ (Keeps-write_operation_log g laws Sound j c (λ _. tt)) c
        actor id)
  Keeps-serve actor (product_delete id) w =
      Keeps-bind
        (Keeps-delete_product g laws c actor _
          (Keeps-write_operation_log g laws Sound j c (λ _. tt)) id)
        (λ removed _. Keeps-pure _ tt)
  Keeps-serve actor (product_create req) w =
      Keeps-bind
        (Keeps-create_product g laws strict actor c _
          (Keeps-write_operation_log g laws Sound j c (λ _. tt)) req)
        (λ p _. Keeps-pure _ tt)
  Keeps-serve actor (product_update id req) w =
      Keeps-update_product g laws strict actor c _
        (Keeps-write_operation_log g laws Sound j c (λ _. tt)) id req
  Keeps-serve actor (intent_contacted id) w = Keeps-under_key _ (
      Keeps-contact_intent g laws _ (Keeps-write_operation_log g laws Sound j c (λ _. tt)) c actor
        id)
  Keeps-serve actor (intent_close id req) w = Keeps-under_key _ (
      Keeps-close_intent g laws _ (Keeps-write_operation_log g laws Sound j c (λ _. tt)) c actor id
        req)

  -- A request keeps every row sound, whether it succeeds or fails.
  pub Keeps-handle : (call : Call) → IsBound call → Keeps Sound (handle g j strict c call) Any
  unfolding handle
  Keeps-handle call w = Keeps-bind (Keeps-lift {Q = Any} _ (λ _ _. tt)) (λ allowed _.
      Keeps-bind (Keeps-lift {Q = Any} _ (λ _ _. tt)) (λ actor _. Keeps-serve actor call w))

-- From a database whose rows are all sound, any sequence of requests by anyone, of buyers and guests
-- and failing ones included, leads to one whose rows are all sound, where gorm has its laws and the quantities of
-- stock adjustments are 64-bit integers.
pub Reaches-Sound :
    (g : Gorm) (laws : IsGorm g) (j : Codec) (s0 s : Db)
    → Holds Sound s0
    → Reaches g j s0 s
    → Holds Sound s
Reaches-Sound g laws j s0 s h start = h
Reaches-Sound g laws j s0 s h (request {s = t} strict c call w r) =
    ((Keeps-handle g laws j strict c call w).at t (Reaches-Sound g laws j s0 t h r)).0
Reaches-Sound g laws j s0 s h (buyer_request {s = t} l rd c v call r) =
    Serves-serve_buyer g laws c v j rd call l t (Reaches-Sound g laws j s0 t h r)
