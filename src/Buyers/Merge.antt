-- ===== src/Buyers/Merge.antt =====
-- `handleBuyerGuestMerge`: the favourites and the views of a device become those of a buyer.
pub mod Taken
pub mod Loop
pub mod Guest
use second_hand_market_backe.Base.{
  ℕ, Bool, true, false, not, ◌&&◌, Option, none, some, List, [], ◌∷◌, ◌==◌, if◌then◌else◌, length,
}
use second_hand_market_backe.Base.Int.{ℤ, pos, ltb_ℤ, ◌+64◌}
use second_hand_market_backe.Base.Text.{codes, same_bytes}
use second_hand_market_backe.Errors.{Result, biz, internal, forbidden}
use second_hand_market_backe.Model.Status.{Time, UserType, same_user_type}
use second_hand_market_backe.Model.Shop.{number, moment}
use second_hand_market_backe.Model.Buyer.{
  OwnerType, OwnerKey, of_buyer, of_device, BuyerDeviceBinding, BuyerFavorite, BuyerHistory,
}
use second_hand_market_backe.Database.Tables.{Db, favorites, histories, device_bindings}
use second_hand_market_backe.Database.Gorm.{Action, Gorm}
use second_hand_market_backe.Database.Actions.{
  pure, lift, ◌>>=◌, ◌>>◌, fail_if, map_error, find_rows, look_up, create, update, transaction,
}
use second_hand_market_backe.Request.{Actor, Context, Fields, actor_from_context, is_some}
use second_hand_market_backe.RateLimiter.{MemoryRateLimiter}
use second_hand_market_backe.Buyers.Owner.{same_owner, decimal, limited}

-- The rows of a device that are still to be merged.
abbrev pub pending_favorite : OwnerKey → BuyerFavorite → Bool
pending_favorite k r =
    same_owner r.owner_key k && r.is_active && not (is_some r.merge_target_buyer_id)

abbrev pub pending_history : OwnerKey → BuyerHistory → Bool
pending_history k r =
    same_owner r.owner_key k && r.is_active && not (is_some r.merge_target_buyer_id)

unfoldable pub merged_favorite : ℕ → BuyerFavorite → BuyerFavorite
merged_favorite buyer_id src = record {
  id = 0;
  owner_type = OwnerType.buyer;
  owner_key = of_buyer buyer_id;
  buyer_id = some buyer_id;
  device_id = none;
  product_id = src.product_id;
  merchant_id = src.merchant_id;
  is_active = true;
  merge_target_buyer_id = none;
  merged_at = none;
}

unfoldable pub merged_history : ℕ → BuyerHistory → BuyerHistory
merged_history buyer_id src = record {
  id = 0;
  owner_type = OwnerType.buyer;
  owner_key = of_buyer buyer_id;
  buyer_id = some buyer_id;
  device_id = none;
  product_id = src.product_id;
  merchant_id = src.merchant_id;
  first_viewed_at = src.first_viewed_at;
  last_viewed_at = src.last_viewed_at;
  view_count = src.view_count;
  is_active = true;
  merge_target_buyer_id = none;
  merged_at = none;
}

-- The update of the buyer's row `dst`, computed from both rows.
unfoldable pub joined_history : BuyerHistory → BuyerHistory → BuyerHistory → BuyerHistory
joined_history src dst r = record r {
  is_active = true;
  merchant_id = src.merchant_id;
  first_viewed_at =
      if ltb_ℤ src.first_viewed_at dst.first_viewed_at
      then src.first_viewed_at
      else dst.first_viewed_at;
  last_viewed_at =
      if ltb_ℤ dst.last_viewed_at src.last_viewed_at
      then src.last_viewed_at
      else dst.last_viewed_at;
  view_count = dst.view_count +64 src.view_count;
}

unfoldable pub new_binding : List ℕ → ℕ → Time → BuyerDeviceBinding
new_binding device_id buyer_id now = record {
  id = 0;
  device_id = device_id;
  buyer_id = buyer_id;
  first_bind_at = now;
  last_bind_at = now;
  last_merge_at = some now;
}

-- The update of a favourite that has been taken over.
unfoldable pub marked_favorite : ℕ → Time → BuyerFavorite → BuyerFavorite
marked_favorite buyer_id now r = record r {
  is_active = false;
  merge_target_buyer_id = some buyer_id;
  merged_at = some now;
}

-- The update of the buyer's favourite that is out of sight.
unfoldable pub revived_favorite : BuyerFavorite → BuyerFavorite → BuyerFavorite
revived_favorite src r = record r { is_active = true; merchant_id = src.merchant_id }

module _ (g : Gorm) (buyer_id : ℕ) (now : Time) where
  -- The buyer's row for a favourite of the device.
  unfoldable pub take_favorite : BuyerFavorite → Option BuyerFavorite → Action (Unit {0})
  take_favorite src none = create g favorites (merged_favorite buyer_id src) >> pure tt
  take_favorite src (some dst) =
      let revive = update g favorites (λ r. r.id == dst.id) (revived_favorite src) >> pure tt in
      if not dst.is_active then revive else pure tt

  -- One round of the first loop.
  unfoldable pub merge_favorite : BuyerFavorite → Action (Unit {0})
  merge_favorite src = do
    dst ←
        look_up g favorites
          (λ r. same_owner r.owner_key (of_buyer buyer_id) && r.product_id == src.product_id)
    take_favorite src dst
    update g favorites (λ r. r.id == src.id) (marked_favorite buyer_id now)
    pure tt

  unfoldable pub merge_favorites : List BuyerFavorite → Action (Unit {0})
  merge_favorites [] = pure tt
  merge_favorites (src ∷ rest) = merge_favorite src >> merge_favorites rest

  unfoldable pub take_history : BuyerHistory → Option BuyerHistory → Action (Unit {0})
  take_history src none = create g histories (merged_history buyer_id src) >> pure tt
  take_history src (some dst) =
      update g histories (λ r. r.id == dst.id) (joined_history src dst) >> pure tt

  -- One round of the second loop.
  unfoldable pub merge_history : BuyerHistory → Action (Unit {0})
  merge_history src = do
    dst ←
        look_up g histories
          (λ r. same_owner r.owner_key (of_buyer buyer_id) && r.product_id == src.product_id)
    take_history src dst
    update g histories (λ r. r.id == src.id)
        (λ r. record r {
          is_active = false;
          merge_target_buyer_id = some buyer_id;
          merged_at = some now;
        })
    pure tt

  unfoldable pub merge_histories : List BuyerHistory → Action (Unit {0})
  merge_histories [] = pure tt
  merge_histories (src ∷ rest) = merge_history src >> merge_histories rest

  unfoldable pub put_binding : List ℕ → Option BuyerDeviceBinding → Action (Unit {0})
  put_binding device_id none =
      create g device_bindings (new_binding device_id buyer_id now) >> pure tt
  put_binding device_id (some b) =
      update g device_bindings (λ r. r.id == b.id)
        (λ r. record r { last_bind_at = now; last_merge_at = some now })
      >> pure tt

  unfoldable pub bind_device : List ℕ → Action (Unit {0})
  bind_device device_id = do
    b ← look_up g device_bindings (λ r. same_bytes r.device_id device_id && r.buyer_id == buyer_id)
    put_binding device_id b

  -- The body of the transaction; the counts are the lengths of what was read.
  unfoldable pub merge_guest_body : List ℕ → Action (ℕ × ℕ)
  merge_guest_body device_id = do
    favs ← find_rows g favorites (pending_favorite (of_device device_id))
    merge_favorites favs
    views ← find_rows g histories (pending_history (of_device device_id))
    merge_histories views
    bind_device device_id
    pure (length favs, length views)

  unfoldable pub merge_guest : List ℕ → Action (ℕ × ℕ)
  merge_guest device_id = map_error (λ _. biz internal) (transaction g (merge_guest_body device_id))

-- The two counts of the answer stand in a map of their own, `merged`.
unfoldable pub handle_buyer_guest_merge :
    Gorm
    → Context
    → Result (List ℕ)
    → MemoryRateLimiter
    → Db
    → (Result Fields × Db) × MemoryRateLimiter
handle_buyer_guest_merge g c bound =
    limited
      (do
        actor ← lift (actor_from_context c)
        fail_if (not (same_user_type actor.user_type UserType.buyer)) forbidden
        pure actor)
      (λ actor.
        record {
          scope = codes "buyer:guest_merge";
          key = decimal actor.user_id;
          limit = pos 10;
          window = pos 60000000000;
          time = c.now 0;
        }
        ∷ [])
      (λ actor. do
        device_id ← lift bound
        counts ← merge_guest g actor.user_id (c.now 1) device_id
        pure (
            ("favorites_count", number (pos counts.0))
            ∷ ("histories_count", number (pos counts.1))
            ∷ ("merged_at", moment (c.now 1))
            ∷ []))
