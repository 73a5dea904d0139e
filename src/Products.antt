-- ===== src/Products.antt =====
-- backend/internal/app/product_handlers.go: products are created and edited (`Edit`), put on the
-- shelf and taken from it.
pub mod Delete
pub mod Images
pub mod Edit
pub mod Keeps
use second_hand_market_backe.Base.{
  ℕ, String, Bool, true, false, not, ◌&&◌, ◌||◌, Option, none, some, List, [], ◌∷◌, ◌==◌,
  if◌then◌else◌,
}
use second_hand_market_backe.Base.Int.{ℤ, pos, leb_ℤ, ◌+64◌, ◌-64◌}
use second_hand_market_backe.Errors.{ok, err, biz, invalid_argument, invalid_transition, code_ok}
use second_hand_market_backe.Model.Status.{ProductStatus, product_status_text, same_product_status}
use second_hand_market_backe.Model.Shop.{Product, number, text, flag, moment}
use second_hand_market_backe.Stateflow.{can_transition_product}
use second_hand_market_backe.Database.Tables.{products, product_images}
use second_hand_market_backe.Database.Gorm.{Action, Gorm}
use second_hand_market_backe.Database.Actions.{pure, ◌>>=◌, ◌>>◌, fail_if, count, transaction}
use second_hand_market_backe.Request.{
  Actor, Context, Fields, Audit, is_some, load_owned_product_for_update, save_product,
}

unfoldable pub check_product_ready_for_on_shelf : Gorm → Product → Action (Unit {0})
check_product_ready_for_on_shelf g p = do
  n ← count g product_images (λ r. r.product_id == p.id)
  fail_if (n == 0) invalid_argument
  fail_if (leb_ℤ (p.stock -64 p.reserved_stock) (pos 0) || is_some p.active_order_id)
      invalid_transition

unfoldable pub can_delete_product_by_status : ProductStatus → Bool
can_delete_product_by_status ProductStatus.draft = true
can_delete_product_by_status ProductStatus.off_shelf = true
can_delete_product_by_status _ = false

module _ (c : Context) (actor : Actor) where
  -- The product as `doProductStatusChange` saves it.
  unfoldable pub shelved_product : Product → ProductStatus → Product
  unfolding same_product_status
  shelved_product p to = record p {
    status = to;
    updated_by = actor.user_id;
    version = p.version +64 pos 1;
    shelf_at = if same_product_status to ProductStatus.on_shelf then some (c.now 0) else p.shelf_at;
    off_shelf_at =
        if same_product_status to ProductStatus.off_shelf then some (c.now 0) else p.off_shelf_at;
  }

  abbrev status_response : Product → ProductStatus → ℕ → Bool → Fields
  status_response p to reading idempotent =
      ("product_id", number (pos p.id))
      ∷ ("from_status", text (product_status_text p.status))
      ∷ ("to_status", text (product_status_text to))
      ∷ ("changed_at", moment (c.now reading))
      ∷ ("idempotent", flag idempotent)
      ∷ []

  -- What `doProductStatusChange` runs under the key.
  unfoldable pub do_product_status_change :
      Gorm → Audit → ℕ → ProductStatus → String → Action Fields
  do_product_status_change g audit id to action = transaction g (do
    p ← load_owned_product_for_update g id actor.merchant_id
    if same_product_status p.status to then pure (status_response p p.status 0 true) else (do
      fail_if (not (can_transition_product p.status to)) invalid_transition
      if same_product_status to ProductStatus.on_shelf
          then check_product_ready_for_on_shelf g p
          else pure tt
      save_product g (shelved_product p to)
      audit (record {
        resource_type = "product";
        resource_id = p.id;
        action = action;
        from_status = some (product_status_text p.status);
        to_status = some (product_status_text to);
        code = code_ok;
        merchant_id = some actor.merchant_id;
        detail = [];
      })
      pure (status_response p to 1 false)))

  unfoldable pub product_on_shelf : Gorm → Audit → ℕ → Action Fields
  product_on_shelf g audit id =
      do_product_status_change g audit id ProductStatus.on_shelf "product_on_shelf"

  unfoldable pub product_off_shelf : Gorm → Audit → ℕ → Action Fields
  product_off_shelf g audit id =
      do_product_status_change g audit id ProductStatus.off_shelf "product_off_shelf"
