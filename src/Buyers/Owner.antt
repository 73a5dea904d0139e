-- ===== src/Buyers/Owner.antt =====
-- Who owns a row, which merchant's shop is asked, and the rate limits before a handler's work.
pub mod Resolved
use Prim.Native.Nat.{◌/◌, ◌%◌}
use second_hand_market_backe.Base.{
  ℕ, Bool, true, false, not, ◌+◌, ◌&&◌, ◌||◌, Option, none, some, List, [], ◌∷◌, ◌==◌,
  if◌then◌else◌, any, ltb, suc, zero,
}
use second_hand_market_backe.Base.Int.{ℤ}
use second_hand_market_backe.Base.Text.{codes, same_bytes, trim_space, is_blank}
use second_hand_market_backe.Errors.{
  Result, ok, err, biz, forbidden, invalid_argument, not_found, rate_limit, map_database_error,
}
use second_hand_market_backe.Model.Status.{
  Time, ProductStatus, same_product_status, UserType, same_user_type,
}
use second_hand_market_backe.Model.Shop.{Product}
use second_hand_market_backe.Model.People.{Merchant}
use second_hand_market_backe.Model.Buyer.{OwnerType, OwnerKey, of_buyer, of_device, no_key}
use second_hand_market_backe.Database.Tables.{Db, products, merchants}
use second_hand_market_backe.Database.Gorm.{Action, Gorm}
use second_hand_market_backe.Database.Actions.{pure, lift, ◌>>=◌, ◌>>◌, fail_if, map_error, first}
use second_hand_market_backe.Request.{Actor, Context, is_live}
use second_hand_market_backe.RateLimiter.{MemoryRateLimiter, allow}

-- The headers, the query and the setting that the handlers of buyers read besides.
pub record Visit : Type 0 where
  pub device_header : List ℕ
  pub merchant_query : List ℕ
  pub buyer_default_merchant_no : List ℕ

pub record BuyerOwner : Type 0 where
  pub owner_type : OwnerType
  pub owner_key : OwnerKey
  pub buyer_id : Option ℕ
  pub device_id : Option (List ℕ)

-- `getDeviceID`
unfoldable pub get_device_id : Visit → List ℕ
get_device_id v = trim_space v.device_header

-- `==` on owner keys.
unfoldable pub same_owner : OwnerKey → OwnerKey → Bool
same_owner (of_buyer a) (of_buyer b) = a == b
same_owner (of_device d) (of_device e) = same_bytes d e
same_owner no_key no_key = true
same_owner _ _ = false

-- `%d`, with at most as many digits as the first argument says.
abbrev digits : ℕ → ℕ → List ℕ → List ℕ
digits zero n acc = acc
digits (suc f) n acc =
    let more = digits f (n / 10) ((b'0' + n % 10) ∷ acc) in
    if ltb n 10 then (b'0' + n) ∷ acc else more

-- `fmt.Sprintf("%d", n)`: a `uint64` has at most 20 digits.
unfoldable pub decimal : ℕ → List ℕ
decimal n = digits 20 n []

-- The text of `ownerKeyForBuyer` and `ownerKeyForDevice`.
unfoldable pub owner_key_text : OwnerKey → List ℕ
unfolding decimal
owner_key_text (of_buyer b) = b'B' ∷ b':' ∷ decimal b
owner_key_text (of_device d) = b'D' ∷ b':' ∷ d
owner_key_text no_key = []

-- `buyerDetailVisibleStatuses`
abbrev buyer_detail_visible_statuses : List ProductStatus
buyer_detail_visible_statuses =
    ProductStatus.on_shelf ∷ ProductStatus.locked ∷ ProductStatus.off_shelf ∷ ProductStatus.sold
    ∷ []

unfoldable pub is_buyer_product_detail_visible : ProductStatus → Bool
is_buyer_product_detail_visible status =
    any (λ st. same_product_status st status) buyer_detail_visible_statuses

-- No actor is a guest; an actor of another kind is refused.
unfoldable pub buyer_or_guest : Option Actor → Result (Option Actor)
buyer_or_guest none = ok none
buyer_or_guest (some a) =
    if same_user_type a.user_type UserType.buyer then ok (some a) else err (biz forbidden)

unfoldable pub ensure_buyer_or_guest : Context → Result (Option Actor)
ensure_buyer_or_guest c = buyer_or_guest c.actor

unfoldable pub buyer_owner : Actor → BuyerOwner
buyer_owner a = record {
  owner_type = OwnerType.buyer;
  owner_key = of_buyer a.user_id;
  buyer_id = some a.user_id;
  device_id = none;
}

unfoldable pub device_owner : List ℕ → BuyerOwner
device_owner d = record {
  owner_type = OwnerType.device;
  owner_key = of_device d;
  buyer_id = none;
  device_id = some d;
}

unfoldable pub is_empty : List ℕ → Bool
is_empty [] = true
is_empty (c ∷ s) = false

-- `buyerOwner{}`
unfoldable pub zero_owner : BuyerOwner
zero_owner = record {
  owner_type = OwnerType.unset_type;
  owner_key = no_key;
  buyer_id = none;
  device_id = none;
}

-- The owner for an actor, or for a guest.
unfoldable pub owner_for : Visit → Bool → Option Actor → Result BuyerOwner
owner_for v require_device_for_guest (some a) = ok (buyer_owner a)
owner_for v require_device_for_guest none =
    let device = get_device_id v in
    if require_device_for_guest && is_empty device
    then err (biz invalid_argument)
    else if is_empty device
    then ok zero_owner
    else ok (device_owner device)

unfoldable pub resolve_buyer_owner : Context → Visit → Bool → Result BuyerOwner
resolve_buyer_owner c v require_device_for_guest = elim (ensure_buyer_or_guest c) [
  | err e ↦ err e
  | ok actor ↦ owner_for v require_device_for_guest actor
]

-- `s.resolveBuyerOwner(c, true)`
unfoldable pub required_owner : Context → Visit → Result BuyerOwner
required_owner c v = resolve_buyer_owner c v true

module _ (g : Gorm) where
  unfoldable pub resolve_buyer_merchant_scope : Visit → Action Merchant
  resolve_buyer_merchant_scope v = do
    let asked = trim_space v.merchant_query
    let merchant_no = if is_blank asked then trim_space v.buyer_default_merchant_no else asked
    fail_if (is_blank merchant_no) invalid_argument
    map_error map_database_error
        (first g merchants (λ r. same_bytes r.merchant_no merchant_no && is_live r.deleted_at))

  unfoldable pub load_buyer_visible_product : ℕ → ℕ → Action Product
  load_buyer_visible_product product_id merchant_id = do
    product ← map_error map_database_error (
        first g products
          (λ r. r.id == product_id && r.merchant_id == merchant_id && is_live r.deleted_at))
    fail_if (not (is_buyer_product_detail_visible product.status)) not_found
    pure product

-- The arguments of `checkRateLimit`, and when it is called.
pub record Gate : Type 0 where
  pub scope : List ℕ
  pub key : List ℕ
  pub limit : ℤ
  pub window : ℤ
  pub time : Time

-- `checkRateLimit`
unfoldable pub check_rate_limit : Gate → MemoryRateLimiter → Result (Unit {0}) × MemoryRateLimiter
check_rate_limit t l =
    let (allowed, l') = allow t.scope t.key t.limit t.window t.time l in
    (if allowed then ok tt else err (biz rate_limit), l')

-- The limits of a handler in turn: the first that is reached is answered.
unfoldable pub check_rate_limits :
    List Gate → MemoryRateLimiter → Result (Unit {0}) × MemoryRateLimiter
unfolding check_rate_limit
check_rate_limits [] l = (ok tt, l)
check_rate_limits (t ∷ ts) l =
    let (r, l1) = check_rate_limit t l in
    elim r [ err e ↦ (err e, l1) | ok u ↦ check_rate_limits ts l1 ]

-- A handler over the database and the limiter: what is checked first, the rate limits, the rest.
unfoldable pub limited :
    {A B : Type 0}
    → Action A
    → (A → List Gate)
    → (A → Action B)
    → MemoryRateLimiter
    → Db
    → (Result B × Db) × MemoryRateLimiter
unfolding ◌>>=◌ lift
limited checks gates body l s =
    let (r, s1) = checks s in
    elim r [
      | err e ↦ ((err e, s1), l)
      | ok a ↦
          let (passed, l1) = check_rate_limits (gates a) l in ((lift passed >>= λ _. body a) s1, l1)
    ]
