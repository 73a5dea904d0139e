-- ===== src/Products/Edit.antt =====
-- `handleCreateProduct` and `handleUpdateProduct` of backend/internal/app/product_handlers.go, after
-- the body of the request has been bound, and `ensureMerchantLevel2Category` of
-- category_handlers.go.
pub mod Sound
use second_hand_market_backe.Base.{
  ℕ, suc, String, Bool, true, false, not, ◌&&◌, ◌||◌, Option, none, some, List, [], ◌∷◌, ◌==◌,
  if◌then◌else◌, length, ltb,
}
use second_hand_market_backe.Base.Int.{ℤ, pos, ltb_ℤ, leb_ℤ, eqb_ℤ, ◌+64◌}
use second_hand_market_backe.Errors.{biz, invalid_argument, invalid_transition, code_ok}
use second_hand_market_backe.Model.Status.{ProductStatus, product_status_text, CategoryStatus}
use second_hand_market_backe.Model.Shop.{Product, ProductImage, number, text, moment}
use second_hand_market_backe.Stateflow.{EditableField, editable_fields_by_product_status}
use second_hand_market_backe.Database.Tables.{products, product_images, categories}
use second_hand_market_backe.Database.Gorm.{Action, Gorm}
use second_hand_market_backe.Database.Actions.{
  pure, ◌>>=◌, ◌>>◌, fail_if, map_error, first, create, delete, transaction,
}
use second_hand_market_backe.Request.{
  Actor, Context, Fields, Audit, is_live, load_owned_product_for_update, save_product,
}
use second_hand_market_backe.Products.Images.{validate_merchant_product_image_files}

abbrev same_id : Option ℕ → ℕ → Bool
same_id none m = false
same_id (some i) m = i == m

abbrev is_enabled : CategoryStatus → Bool
is_enabled CategoryStatus.enabled = true
is_enabled _ = false

unfoldable pub ensure_merchant_level2_category : Gorm → ℕ → ℕ → Action (Unit {0})
ensure_merchant_level2_category g merchant_id category_id = do
  category ←
      map_error (λ _. biz invalid_argument)
        (first g categories
          (λ r. r.id == category_id && same_id r.merchant_id merchant_id && is_live r.deleted_at))
  fail_if (not (eqb_ℤ category.level (pos 2)) || not (is_enabled category.status)) invalid_argument

-- The images of a product in their order, from a position on.
unfoldable pub create_images : Gorm → ℕ → ℕ → List ℕ → Action (Unit {0})
create_images g product_id n [] = pure tt
create_images g product_id n (f ∷ fs) = do
  create g product_images
      (record { id = 0; product_id = product_id; file_id = f; sort_order = pos n })
  create_images g product_id (suc n) fs

-- `dto.CreateProductRequest` and `dto.UpdateProductRequest`
pub record CreateProductRequest : Type 0 where
  pub title : String
  pub description : String
  pub category_id : ℕ
  pub price_cent : ℤ
  pub original_price_cent : ℤ
  pub condition_level : String
  pub stock : ℤ
  pub image_file_ids : List ℕ

pub record UpdateProductRequest : Type 0 where
  pub title : Option String
  pub description : Option String
  pub category_id : Option ℕ
  pub price_cent : Option ℤ
  pub original_price_cent : Option ℤ
  pub condition_level : Option String
  pub stock : Option ℤ
  pub image_file_ids : Option (List ℕ)

abbrev first_of : List ℕ → Option ℕ
first_of [] = none
first_of (x ∷ xs) = some x

-- A field that the request may set: refused where `bad` holds of its value.
unfoldable pub edit_field :
    {A : Type 0} → Option A → (A → Bool) → (A → Product → Product) → Product → Action Product
edit_field none bad set p = pure p
edit_field (some v) bad set p = do fail_if (bad v) invalid_transition; pure (set v p)

module _ (c : Context) (actor : Actor) where
  unfoldable pub new_product : CreateProductRequest → Product
  new_product req = record {
    id = 0;
    product_no = c.biz_no;
    merchant_id = actor.merchant_id;
    title = req.title;
    description = req.description;
    category_id = req.category_id;
    price_cent = req.price_cent;
    original_price_cent = some req.original_price_cent;
    condition_level = req.condition_level;
    stock = req.stock;
    reserved_stock = pos 0;
    cover_file_id = first_of req.image_file_ids;
    status = ProductStatus.draft;
    active_order_id = none;
    locked_at = none;
    shelf_at = none;
    off_shelf_at = none;
    sold_at = none;
    closed_at = none;
    created_by = actor.user_id;
    updated_by = actor.user_id;
    version = pos 1;
    deleted_at = none;
  }

  -- The transaction of `handleCreateProduct`, then the handler.
  unfoldable pub create_product_body : Gorm → Bool → Audit → CreateProductRequest → Action Product
  create_product_body g strict audit req = do
    validate_merchant_product_image_files g strict actor req.image_file_ids
    p ← create g products (new_product req)
    create_images g p.id 1 req.image_file_ids
    audit (record {
      resource_type = "product";
      resource_id = p.id;
      action = "product_create";
      from_status = none;
      to_status = some (product_status_text p.status);
      code = code_ok;
      merchant_id = some actor.merchant_id;
      detail = ("title", text p.title) ∷ [];
    })
    pure p

  unfoldable pub create_product : Gorm → Bool → Audit → CreateProductRequest → Action Product
  create_product g strict audit req = do
    fail_if (ltb_ℤ req.original_price_cent req.price_cent || leb_ℤ req.stock (pos 0))
        invalid_argument
    ensure_merchant_level2_category g actor.merchant_id req.category_id
    transaction g (create_product_body g strict audit req)

  unfoldable pub edit_category : Gorm → (EditableField → Bool) → Option ℕ → Product → Action Product
  edit_category g may none p = pure p
  edit_category g may (some i) p = do
    fail_if (not (may EditableField.category_id)) invalid_transition
    ensure_merchant_level2_category g actor.merchant_id i
    pure (record p { category_id = i })

  -- The fields of the request before its images, in the order of the source.
  unfoldable pub edit_fields :
      Gorm → (EditableField → Bool) → UpdateProductRequest → Product → Action Product
  edit_fields g may req p = do
    p1 ← edit_field req.title (λ _. not (may EditableField.title)) (λ v q. record q { title = v }) p
    p2 ←
        edit_field req.description (λ _. not (may EditableField.description))
          (λ v q. record q { description = v }) p1
    p3 ← edit_category g may req.category_id p2
    p4 ←
        edit_field req.price_cent (λ v. not (may EditableField.price_cent) || leb_ℤ v (pos 0))
          (λ v q. record q { price_cent = v }) p3
    p5 ←
        edit_field req.original_price_cent
          (λ v. not (may EditableField.original_price_cent) || leb_ℤ v (pos 0))
          (λ v q. record q { original_price_cent = some v }) p4
    p6 ←
        edit_field req.condition_level (λ _. not (may EditableField.condition_level))
          (λ v q. record q { condition_level = v }) p5
    edit_field req.stock (λ v. not (may EditableField.stock) || leb_ℤ v (pos 0))
        (λ v q. record q { stock = v }) p6

  abbrev below_price : Option ℤ → ℤ → Bool
  below_price none price = false
  below_price (some o) price = ltb_ℤ o price

  unfoldable pub edit_images :
      Gorm → Bool → (EditableField → Bool) → Option (List ℕ) → Product → Action Product
  edit_images g strict may none p = pure p
  edit_images g strict may (some ids) p = do
    fail_if (not (may EditableField.image_file_ids) || length ids == 0 || ltb 5 (length ids))
        invalid_transition
    validate_merchant_product_image_files g strict actor ids
    delete g product_images (λ r. r.product_id == p.id)
    create_images g p.id 1 ids
    pure (record p { cover_file_id = first_of ids })

  unfoldable pub update_product_body :
      Gorm → Bool → Audit → ℕ → UpdateProductRequest → Action (Unit {0})
  update_product_body g strict audit id req = do
    p ← load_owned_product_for_update g id actor.merchant_id
    let may = editable_fields_by_product_status p.status
    q ← edit_fields g may req p
    fail_if (below_price q.original_price_cent q.price_cent) invalid_argument
    r ← edit_images g strict may req.image_file_ids q
    save_product g (record r { updated_by = actor.user_id; version = r.version +64 pos 1 })
    audit (record {
      resource_type = "product";
      resource_id = r.id;
      action = "product_update";
      from_status = none;
      to_status = none;
      code = code_ok;
      merchant_id = some actor.merchant_id;
      detail = [];
    })

  -- `handleUpdateProduct`
  unfoldable pub update_product : Gorm → Bool → Audit → ℕ → UpdateProductRequest → Action Fields
  update_product g strict audit id req = do
    transaction g (update_product_body g strict audit id req)
    pure (
        ("product_id", number (pos id))
        ∷ ("status", text "UPDATED")
        ∷ ("updated_at", moment (c.now 0))
        ∷ [])
