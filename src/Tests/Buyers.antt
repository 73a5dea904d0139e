-- ===== src/Tests/Buyers.antt =====
-- The theorems about buyers and guests at concrete rows, on the database in memory.
use second_hand_market_backe.Base.{
  ◌≡◌, refl, not, ℕ, true, false, ◌&&◌, ◌||◌, none, some, List, [], ◌∷◌, ◌==◌, any,
}
use second_hand_market_backe.Base.Int.{pos}
use second_hand_market_backe.Base.Text.{codes, same_bytes, trim_space}
use second_hand_market_backe.Errors.{ok, err, biz, unauthorized, is_record_not_found}
use second_hand_market_backe.Model.Buyer.{OwnerType, of_buyer, of_device, BuyerFavorite}
use second_hand_market_backe.Database.Tables.{Db, Name, Holds, put}
use second_hand_market_backe.Database.Actions.{
  pure, ◌>>=◌, lift, transaction, map_error, first, find_rows, create, attempt, update, look_up,
  found_or_none, head_or_missing, write, missing_row,
}
use second_hand_market_backe.Request.{Context}
use second_hand_market_backe.RateLimiter.{new_memory_rate_limiter}
use second_hand_market_backe.Invariant.{Sound}
use second_hand_market_backe.Session.{require_auth}
use second_hand_market_backe.Buyers.Owner.{
  Visit, same_owner, device_owner, buyer_or_guest, ensure_buyer_or_guest, owner_for,
  resolve_buyer_owner, required_owner, get_device_id, is_empty,
}
use second_hand_market_backe.Buyers.Owner.Resolved.{IsResolved, required_owner-IsResolved}
use second_hand_market_backe.Buyers.Favorites.{put_favorite, add_favorite, delete_favorite}
use second_hand_market_backe.Buyers.Favorites.View.{
  favored, favored_at, add_favorite-favored, delete_favorite-favored,
}
use second_hand_market_backe.Buyers.Favorites.Forgotten.{
  is_row_of, is_pending_for, add_favorite-forgotten,
}
use second_hand_market_backe.Buyers.Merge.{
  pending_favorite, merged_favorite, marked_favorite, new_binding, revived_favorite, take_favorite,
  merge_favorite, merge_favorites, merge_histories, put_binding, bind_device, merge_guest_body,
  merge_guest,
}
use second_hand_market_backe.Buyers.Merge.Guest.{merge_guest-favored}
use second_hand_market_backe.System.Buyers.{Readers, guest_merge, for_buyer, serve_buyer}
use second_hand_market_backe.System.Buyers.Undone.{serve_buyer-failure}
use second_hand_market_backe.Tests.Memory.{memory, memory-IsGorm}
use second_hand_market_backe.Tests.Data.{request_of_ada, one_answer}

abbrev phone : List ℕ
phone = codes "phone-01"

-- The phone's favourite for product 1 of merchant 7.
abbrev liked : BuyerFavorite
liked = record {
  id = 3;
  owner_type = OwnerType.device;
  owner_key = of_device phone;
  buyer_id = none;
  device_id = some phone;
  product_id = 1;
  merchant_id = 7;
  is_active = true;
  merge_target_buyer_id = none;
  merged_at = none;
}

abbrev liked_market : Db
liked_market Name.favorites = liked ∷ []
liked_market n = []

liked_market-Sound : Holds Sound liked_market
liked_market-Sound Name.favorites = ((record { owned = (refl, refl) }, tt), (tt, tt))
liked_market-Sound _ = (tt, tt)

abbrev guest : Context
guest = record request_of_ada { actor = none }

abbrev visit : Visit
visit = record {
  device_header = codes " phone-01";
  merchant_query = codes "M7";
  buyer_default_merchant_no = [];
}

guest_owner : required_owner guest visit ≡ ok (device_owner phone)
unfolding required_owner resolve_buyer_owner ensure_buyer_or_guest buyer_or_guest owner_for is_empty
    get_device_id trim_space
guest_owner = refl

required_owner-IsResolved_example : IsResolved guest visit (device_owner phone)
required_owner-IsResolved_example =
    required_owner-IsResolved guest visit (device_owner phone) guest_owner

added :
    add_favorite memory (device_owner phone) 2 7 liked_market
    ≡ (ok tt, (add_favorite memory (device_owner phone) 2 7 liked_market).1)
unfolding add_favorite map_error transaction memory ◌>>=◌ look_up attempt found_or_none first
    same_owner device_owner same_bytes is_record_not_found put_favorite create pure
added = refl

add_favorite-favored_example :
    any
      (favored (of_device phone) 2)
      ((add_favorite memory (device_owner phone) 2 7 liked_market).1 Name.favorites)
    ≡ (any (favored (of_device phone) 2) (liked_market Name.favorites)
        || (same_owner (device_owner phone).owner_key (of_device phone) && 2 == 2))
add_favorite-favored_example =
    add_favorite-favored memory memory-IsGorm (device_owner phone) 2 7 tt liked_market _ (tt, tt)
      added (of_device phone) 2

removed :
    delete_favorite memory (device_owner phone) 7 1 liked_market
    ≡ (ok tt, (delete_favorite memory (device_owner phone) 7 1 liked_market).1)
unfolding delete_favorite ◌>>=◌ map_error update memory same_owner device_owner same_bytes pure
removed = refl

delete_favorite-favored_example :
    any
      (favored_at (of_device phone) 7 1)
      ((delete_favorite memory (device_owner phone) 7 1 liked_market).1 Name.favorites)
    ≡ (any (favored_at (of_device phone) 7 1) (liked_market Name.favorites)
        && not (same_owner (device_owner phone).owner_key (of_device phone) && 7 == 7 && 1 == 1))
delete_favorite-favored_example =
    delete_favorite-favored memory memory-IsGorm (device_owner phone) 7 1 tt liked_market _ removed
      (of_device phone) 7 1

merged :
    merge_guest memory 12 (pos 5) phone liked_market
    ≡ (ok (1, 0), (merge_guest memory 12 (pos 5) phone liked_market).1)
unfolding merge_guest map_error transaction memory merge_guest_body ◌>>=◌ find_rows merge_favorites
    same_owner same_bytes merge_favorite look_up attempt found_or_none first is_record_not_found
    take_favorite bind_device marked_favorite merge_histories merged_favorite new_binding
    put_binding revived_favorite create head_or_missing lift pure update write put missing_row
merged = refl

merge_guest-favored_example :
    ((q : ℕ)
      → any
          (favored (of_buyer 12) q)
          ((merge_guest memory 12 (pos 5) phone liked_market).1 Name.favorites)
        ≡ (any (favored (of_buyer 12) q) (liked_market Name.favorites)
            || any
                (λ r. pending_favorite (of_device phone) r && r.product_id == q)
                (liked_market Name.favorites)))
    × (any
          (pending_favorite (of_device phone))
          ((merge_guest memory 12 (pos 5) phone liked_market).1 Name.favorites)
        ≡ false)
merge_guest-favored_example =
    merge_guest-favored memory 12 (pos 5) memory-IsGorm phone (1, 0) liked_market _
      liked_market-Sound merged

abbrev readers : Readers
readers = record { parse_time = λ raw. none; equals_text = λ raw n. false }

merge_refused :
    (serve_buyer memory
      (one_answer [])
      readers
      guest
      visit
      (guest_merge (ok phone))
      new_memory_rate_limiter
      liked_market).0.0
    ≡ err (biz unauthorized)
unfolding serve_buyer for_buyer require_auth
merge_refused = refl

serve_buyer-failure_example :
    (serve_buyer memory
      (one_answer [])
      readers
      guest
      visit
      (guest_merge (ok phone))
      new_memory_rate_limiter
      liked_market).0.1
    ≡ liked_market
serve_buyer-failure_example =
    serve_buyer-failure memory memory-IsGorm guest visit (one_answer []) readers
      (guest_merge (ok phone)) new_memory_rate_limiter liked_market (biz unauthorized) merge_refused

-- The same favourite after a merge into buyer 12.
abbrev merged_away : BuyerFavorite
merged_away = record liked {
  is_active = false;
  merge_target_buyer_id = some 12;
  merged_at = some (pos 5);
}

abbrev merged_market : Db
merged_market Name.favorites = merged_away ∷ []
merged_market n = []

added_again :
    add_favorite memory (device_owner phone) 1 7 merged_market
    ≡ (ok tt, (add_favorite memory (device_owner phone) 1 7 merged_market).1)
unfolding add_favorite map_error transaction memory ◌>>=◌ look_up attempt found_or_none first
    same_owner device_owner same_bytes put_favorite update pure
added_again = refl

merged_row :
    memory.select Name.favorites (is_row_of (device_owner phone) 1) (merged_market Name.favorites)
    ≡ ok (merged_away ∷ [])
unfolding memory same_owner device_owner same_bytes
merged_row = refl

add_favorite-forgotten_example :
    (any
        (favored (device_owner phone).owner_key 1)
        ((add_favorite memory (device_owner phone) 1 7 merged_market).1 Name.favorites)
      ≡ true)
    × (any
          (is_pending_for (device_owner phone) 1)
          ((add_favorite memory (device_owner phone) 1 7 merged_market).1 Name.favorites)
        ≡ false)
add_favorite-forgotten_example =
    add_favorite-forgotten memory memory-IsGorm (device_owner phone) 1 7 merged_away [] tt
      merged_market _ (tt, tt) ((λ own. refl), tt) merged_row added_again
