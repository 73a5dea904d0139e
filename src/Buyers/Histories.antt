-- ===== src/Buyers/Histories.antt =====
-- `handleBuyerHistoryView` and `handleBuyerHistoryDelete`.
use second_hand_market_backe.Base.{
  ℕ, Bool, true, false, ◌&&◌, Option, none, some, List, [], ◌∷◌, ◌==◌, if◌then◌else◌,
}
use second_hand_market_backe.Base.Int.{ℤ, pos, ltb_ℤ, ◌-ℤ◌, ◌+64◌}
use second_hand_market_backe.Base.Text.{codes, is_blank, trim_space}
use second_hand_market_backe.Errors.{Result, ok, err, biz, internal, invalid_argument}
use second_hand_market_backe.Model.Status.{Time}
use second_hand_market_backe.Model.Shop.{number, flag, moment}
use second_hand_market_backe.Model.Buyer.{BuyerHistory}
use second_hand_market_backe.Database.Tables.{Db, histories}
use second_hand_market_backe.Database.Gorm.{Action, Gorm}
use second_hand_market_backe.Database.Actions.{
  pure, lift, ◌>>=◌, ◌>>◌, map_error, look_up, create, update, transaction,
}
use second_hand_market_backe.Request.{Context, Fields}
use second_hand_market_backe.RateLimiter.{MemoryRateLimiter}
use second_hand_market_backe.Buyers.Owner.{
  Visit, BuyerOwner, same_owner, owner_key_text, load_buyer_visible_product, limited,
}
use second_hand_market_backe.Buyers.Favorites.{owner_and_merchant}

-- `dto.BuyerHistoryViewRequest`
pub record BuyerHistoryViewRequest : Type 0 where
  pub product_id : ℕ
  pub viewed_at : Option (List ℕ)

-- `parseViewedAt`; `time.Parse` at the layout RFC 3339 is a parameter.
unfoldable pub parse_viewed_at : (List ℕ → Option Time) → Time → Option (List ℕ) → Result Time
parse_viewed_at parse now none = ok now
parse_viewed_at parse now (some raw) =
    if is_blank raw
    then ok now
    else elim (parse raw) [ none ↦ err (biz invalid_argument) | some ts ↦ ok ts ]

-- The row that a first view creates.
unfoldable pub new_history : BuyerOwner → ℕ → ℕ → Time → BuyerHistory
new_history o product_id merchant_id viewed_at = record {
  id = 0;
  owner_type = o.owner_type;
  owner_key = o.owner_key;
  buyer_id = o.buyer_id;
  device_id = o.device_id;
  product_id = product_id;
  merchant_id = merchant_id;
  first_viewed_at = viewed_at;
  last_viewed_at = viewed_at;
  view_count = pos 1;
  is_active = true;
  merge_target_buyer_id = none;
  merged_at = none;
}

-- The update for a view, computed from the row `h` that was read.
unfoldable pub viewed_history : BuyerHistory → ℕ → Time → BuyerHistory → BuyerHistory
viewed_history h merchant_id viewed_at r = record r {
  first_viewed_at = if h.is_active then r.first_viewed_at else viewed_at;
  last_viewed_at = viewed_at;
  view_count = if h.is_active then h.view_count +64 pos 1 else pos 1;
  is_active = true;
  merchant_id = merchant_id;
  merge_target_buyer_id = none;
  merged_at = none;
}

-- A view within 30 seconds of the last one is the same view.
unfoldable pub is_same_view : BuyerHistory → Time → Bool
is_same_view h viewed_at = h.is_active && ltb_ℤ (viewed_at -ℤ h.last_viewed_at) (pos 30000000000)

module _ (g : Gorm) where
  -- What the transaction does with the row that was looked up: the count and the last view.
  unfoldable pub put_view : BuyerOwner → ℕ → ℕ → Time → Option BuyerHistory → Action (ℤ × Time)
  put_view o product_id merchant_id viewed_at none =
      create g histories (new_history o product_id merchant_id viewed_at) >> pure (pos 1, viewed_at)
  put_view o product_id merchant_id viewed_at (some h) =
      let view =
        update g histories (λ r. r.id == h.id) (viewed_history h merchant_id viewed_at)
        >> pure (if h.is_active then h.view_count +64 pos 1 else pos 1, viewed_at) in
      if is_same_view h viewed_at then pure (h.view_count, h.last_viewed_at) else view

  unfoldable pub view_history : BuyerOwner → ℕ → ℕ → Time → Action (ℤ × Time)
  view_history o product_id merchant_id viewed_at =
      map_error (λ _. biz internal)
        (transaction g (do
          h ←
              look_up g histories
                (λ r. same_owner r.owner_key o.owner_key && r.product_id == product_id)
          put_view o product_id merchant_id viewed_at h))

  -- All the owner's rows of the shop, or those of one product. How MySQL compares the column with
  -- the text of the query is a parameter of the handler.
  unfoldable pub delete_histories : BuyerOwner → ℕ → (ℕ → Bool) → Action (Unit {0})
  delete_histories o merchant_id matches =
      map_error (λ _. biz internal)
        (update g histories
          (λ r.
            same_owner r.owner_key o.owner_key
            && r.merchant_id == merchant_id
            && matches r.product_id)
          (λ r. record r { is_active = false }))
      >> pure tt

  module _ (c : Context) (v : Visit) where
    unfoldable pub handle_buyer_history_view :
        (List ℕ → Option Time)
        → Result BuyerHistoryViewRequest
        → MemoryRateLimiter
        → Db
        → (Result Fields × Db) × MemoryRateLimiter
    handle_buyer_history_view parse bound =
        limited (owner_and_merchant g c v)
          (λ x.
            record {
              scope = codes "buyer:histories:view";
              key = owner_key_text x.0.owner_key;
              limit = pos 120;
              window = pos 60000000000;
              time = c.now 0;
            }
            ∷ [])
          (λ x. do
            req ← lift bound
            viewed_at ← lift (parse_viewed_at parse (c.now 1) req.viewed_at)
            product ← load_buyer_visible_product g req.product_id x.1.id
            seen ← view_history x.0 req.product_id product.merchant_id viewed_at
            pure (
                ("product_id", number (pos req.product_id))
                ∷ ("last_viewed_at", moment seen.1)
                ∷ ("view_count", number seen.0)
                ∷ []))

    -- The query's `product_id`, and how the database reads it.
    unfoldable pub handle_buyer_history_delete :
        (List ℕ → ℕ → Bool)
        → List ℕ
        → MemoryRateLimiter
        → Db
        → (Result Fields × Db) × MemoryRateLimiter
    handle_buyer_history_delete equals query =
        limited (owner_and_merchant g c v)
          (λ x.
            record {
              scope = codes "buyer:histories:delete";
              key = owner_key_text x.0.owner_key;
              limit = pos 30;
              window = pos 60000000000;
              time = c.now 0;
            }
            ∷ [])
          (λ x. do
            delete_histories x.0 x.1.id (λ product_id.
                if is_blank query then true else equals (trim_space query) product_id)
            pure (("success", flag true) ∷ []))
