-- ===== src/Products/Delete.antt =====
-- `handleDeleteProduct` of backend/internal/app/product_handlers.go.
pub mod Refused
pub mod Keeps
pub mod Unused
use second_hand_market_backe.Base.{
  ℕ, Bool, true, false, not, ◌&&◌, ◌||◌, Option, none, some, List, [], ◌∷◌, ◌++◌, ◌==◌,
  if◌then◌else◌, map, keep, elem, length, ltb,
}
use second_hand_market_backe.Base.Int.{pos}
use second_hand_market_backe.Base.Text.{trim_space, is_blank}
use second_hand_market_backe.Errors.{invalid_transition, code_ok}
use second_hand_market_backe.Model.Status.{UserType, same_user_type, product_status_text}
use second_hand_market_backe.Model.Shop.{Product, ProductImage, FileRecord, Value, number}
use second_hand_market_backe.Model.People.{MerchantAccount}
use second_hand_market_backe.Database.Tables.{products, product_images, orders, intents, files}
use second_hand_market_backe.Database.Gorm.{Action, Gorm}
use second_hand_market_backe.Database.Actions.{
  pure, ◌>>=◌, ◌>>◌, fail_if, find_rows, count, delete, update, transaction,
}
use second_hand_market_backe.Request.{
  Actor, Context, Audit, is_live, is_some, load_owned_product_for_update,
}
use second_hand_market_backe.Products.{can_delete_product_by_status}
use second_hand_market_backe.Products.Images.{
  uploader_ids, merchant_by_account, merchant_ids_for_accounts, is_product_image,
}

-- The keys of a map of ids, in some order: the order does not matter to the statements.
unfoldable pub file_id_set : List ℕ → List ℕ
file_id_set [] = []
file_id_set (i ∷ ids) =
    let rest = file_id_set ids in if i == 0 || elem i rest then rest else i ∷ rest

abbrev cover_of : Product → List ℕ
cover_of p = elim p.cover_file_id [ none ↦ [] | some i ↦ i ∷ [] ]

abbrev covers : List Product → List ℕ
covers [] = []
covers (p ∷ ps) = cover_of p ++ covers ps

abbrev has_cover : List ℕ → Product → Bool
has_cover ids p = elim p.cover_file_id [ none ↦ false | some i ↦ elem i ids ]

-- `merchantByAccountID[*file.UploaderID] != actor.MerchantID`, where a missing key gives zero.
unfoldable pub is_own_file : Actor → List MerchantAccount → FileRecord → Bool
is_own_file actor accounts f = elim f.uploader_id [
  | none ↦ false
  | some u ↦ (elim (merchant_by_account u accounts) [ none ↦ 0 | some m ↦ m ]) == actor.merchant_id
]

-- The texts that name something.
abbrev object_keys : List FileRecord → List (List ℕ)
object_keys [] = []
object_keys (f ∷ fs) =
    let rest = object_keys fs in
    if is_blank f.object_key then rest else trim_space f.object_key ∷ rest

-- `if len(xs) > 0 { … }`
unfoldable pub unless_empty : {A B : Type 0} → List A → B → Action B → Action B
unless_empty [] b m = pure b
unless_empty (x ∷ xs) b m = m

module _ (g : Gorm) where
  -- The files of a list of ids that no other product uses.
  unfoldable pub unused_file_ids : Product → List ℕ → Action (List ℕ)
  unused_file_ids product ids = do
    refs ← find_rows g product_images (λ r. elem r.file_id ids && not (r.product_id == product.id))
    cover_refs ←
        find_rows g products
          (λ r. has_cover ids r && not (r.id == product.id) && is_live r.deleted_at)
    pure (
        keep (λ i. not (elem i (map (λ (x : ProductImage). x.file_id) refs ++ covers cover_refs)))
          ids)

  unfoldable pub deletable_file_ids : Product → List ProductImage → Action (List ℕ)
  deletable_file_ids product images =
      let ids = file_id_set (map (λ (x : ProductImage). x.file_id) images ++ cover_of product) in
      unless_empty ids [] (unused_file_ids product ids)

  -- What is deleted: the ids and the names of the stored objects.
  unfoldable pub delete_own_files : Actor → List FileRecord → Action (List ℕ × List (List ℕ))
  delete_own_files actor found = do
    accounts ← merchant_ids_for_accounts g (uploader_ids found)
    let own = keep (is_own_file actor accounts) found
    let ids = map (λ (x : FileRecord). x.id) own
    unless_empty ids ([], object_keys own)
        (delete g files (λ r. elem r.id ids) >> pure (ids, object_keys own))

  unfoldable pub delete_found_files : Actor → List ℕ → Action (List ℕ × List (List ℕ))
  delete_found_files actor deletable = do
    found ← find_rows g files (λ r.
        elem r.id deletable
        && is_product_image r.biz_type
        && same_user_type r.uploader_type UserType.merchant)
    unless_empty found ([], []) (delete_own_files actor found)

  unfoldable pub delete_files : Actor → List ℕ → Action (List ℕ × List (List ℕ))
  delete_files actor deletable =
      unless_empty deletable ([], []) (delete_found_files actor deletable)

  unfoldable pub delete_product_body : Context → Actor → Audit → ℕ → Action (List ℕ × List (List ℕ))
  delete_product_body c actor audit id = do
    product ← load_owned_product_for_update g id actor.merchant_id
    fail_if (not (can_delete_product_by_status product.status) || is_some product.active_order_id)
        invalid_transition
    order_count ← count g orders (λ r. r.product_id == product.id && is_live r.deleted_at)
    fail_if (ltb 0 order_count) invalid_transition
    intent_count ← count g intents (λ r. r.product_id == product.id)
    fail_if (ltb 0 intent_count) invalid_transition
    images ← find_rows g product_images (λ r. r.product_id == product.id)
    deletable ← deletable_file_ids product images
    removed ← delete_files actor deletable
    delete g product_images (λ r. r.product_id == product.id)
    update g products (λ r. r.id == product.id && is_live r.deleted_at)
        (λ r. record r { deleted_at = some (c.now 0) })
    audit (record {
      resource_type = "product";
      resource_id = product.id;
      action = "product_delete";
      from_status = some (product_status_text product.status);
      to_status = none;
      code = code_ok;
      merchant_id = some actor.merchant_id;
      detail = ("deleted_file_count", number (pos (length removed.0))) ∷ [];
    })
    pure removed

  -- The stored objects are removed after the transaction.
  unfoldable pub delete_product : Context → Actor → Audit → ℕ → Action (List ℕ × List (List ℕ))
  delete_product c actor audit id = transaction g (delete_product_body c actor audit id)
