-- ===== src/Buyers/Favorites.antt =====
-- `handleBuyerFavoriteAdd` and `handleBuyerFavoriteDelete`.
pub mod View
pub mod Forgotten
use second_hand_market_backe.Base.{ℕ, Bool, true, false, ◌&&◌, Option, none, some, [], ◌∷◌, ◌==◌}
use second_hand_market_backe.Base.Int.{pos}
use second_hand_market_backe.Base.Text.{codes}
use second_hand_market_backe.Errors.{Result, biz, internal}
use second_hand_market_backe.Model.Status.{Time}
use second_hand_market_backe.Model.Shop.{Product, number, flag}
use second_hand_market_backe.Model.People.{Merchant}
use second_hand_market_backe.Model.Buyer.{BuyerFavorite}
use second_hand_market_backe.Database.Tables.{Db, favorites}
use second_hand_market_backe.Database.Gorm.{Action, Gorm}
use second_hand_market_backe.Database.Actions.{
  pure, lift, ◌>>=◌, ◌>>◌, map_error, look_up, create, update, transaction,
}
use second_hand_market_backe.Request.{Context, Fields}
use second_hand_market_backe.RateLimiter.{MemoryRateLimiter}
use second_hand_market_backe.Buyers.Owner.{
  Visit, BuyerOwner, Gate, same_owner, owner_key_text, required_owner, resolve_buyer_merchant_scope,
  load_buyer_visible_product, limited,
}

-- The row that a first favourite creates.
unfoldable pub new_favorite : BuyerOwner → ℕ → ℕ → BuyerFavorite
new_favorite o product_id merchant_id = record {
  id = 0;
  owner_type = o.owner_type;
  owner_key = o.owner_key;
  buyer_id = o.buyer_id;
  device_id = o.device_id;
  product_id = product_id;
  merchant_id = merchant_id;
  is_active = true;
  merge_target_buyer_id = none;
  merged_at = none;
}

-- The update of the row that is there.
unfoldable pub renewed_favorite : BuyerOwner → ℕ → BuyerFavorite → BuyerFavorite
renewed_favorite o merchant_id r = record r {
  owner_type = o.owner_type;
  buyer_id = o.buyer_id;
  device_id = o.device_id;
  merchant_id = merchant_id;
  is_active = true;
}

module _ (g : Gorm) where
  -- What the transaction does once the owner's row was looked up.
  unfoldable pub put_favorite : BuyerOwner → ℕ → ℕ → Option BuyerFavorite → Action (Unit {0})
  put_favorite o product_id merchant_id none =
      create g favorites (new_favorite o product_id merchant_id) >> pure tt
  put_favorite o product_id merchant_id (some fav) =
      update g favorites (λ r. r.id == fav.id) (renewed_favorite o merchant_id) >> pure tt

  unfoldable pub add_favorite : BuyerOwner → ℕ → ℕ → Action (Unit {0})
  add_favorite o product_id merchant_id =
      map_error (λ _. biz internal)
        (transaction g (do
          fav ←
              look_up g favorites
                (λ r. same_owner r.owner_key o.owner_key && r.product_id == product_id)
          put_favorite o product_id merchant_id fav))

  unfoldable pub delete_favorite : BuyerOwner → ℕ → ℕ → Action (Unit {0})
  delete_favorite o merchant_id product_id =
      map_error (λ _. biz internal)
        (update g favorites
          (λ r.
            same_owner r.owner_key o.owner_key
            && r.merchant_id == merchant_id
            && r.product_id == product_id)
          (λ r. record r { is_active = false }))
      >> pure tt

  module _ (c : Context) (v : Visit) where
    -- The owner and the merchant's shop, which every handler of this file resolves first.
    unfoldable pub owner_and_merchant : Action (BuyerOwner × Merchant)
    owner_and_merchant = do
      owner ← lift (required_owner c v)
      merchant ← resolve_buyer_merchant_scope g v
      pure (owner, merchant)

    -- The body of the request is bound after the rate limit.
    unfoldable pub handle_buyer_favorite_add :
        Result ℕ → MemoryRateLimiter → Db → (Result Fields × Db) × MemoryRateLimiter
    handle_buyer_favorite_add bound =
        limited owner_and_merchant
          (λ x.
            record {
              scope = codes "buyer:favorites:add";
              key = owner_key_text x.0.owner_key;
              limit = pos 60;
              window = pos 60000000000;
              time = c.now 0;
            }
            ∷ [])
          (λ x. do
            product_id ← lift bound
            product ← load_buyer_visible_product g product_id x.1.id
            add_favorite x.0 product_id product.merchant_id
            pure (("product_id", number (pos product_id)) ∷ ("is_favorited", flag true) ∷ []))

    -- The id of the path is parsed after the rate limit.
    unfoldable pub handle_buyer_favorite_delete :
        Result ℕ → MemoryRateLimiter → Db → (Result Fields × Db) × MemoryRateLimiter
    handle_buyer_favorite_delete parsed =
        limited owner_and_merchant
          (λ x.
            record {
              scope = codes "buyer:favorites:delete";
              key = owner_key_text x.0.owner_key;
              limit = pos 60;
              window = pos 60000000000;
              time = c.now 0;
            }
            ∷ [])
          (λ x. do
            product_id ← lift parsed
            delete_favorite x.0 x.1.id product_id
            pure (("product_id", number (pos product_id)) ∷ ("is_favorited", flag false) ∷ []))
