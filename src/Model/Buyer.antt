-- ===== src/Model/Buyer.antt =====
-- Rows of the tables that hold what buyers and guests do: favourites, histories, intents. The column
-- `open_marker`, which MySQL computes and the code only reads in migrations, is left out.
use second_hand_market_backe.Base.{ℕ, String, Bool, Option, List}
use second_hand_market_backe.Base.Int.{ℤ}
use second_hand_market_backe.Model.Status.{Time, IntentStatus}

-- `unset_type` and `no_key` are Go's zero values, the empty texts.
pub data OwnerType : Type 0 where
  buyer device unset_type : OwnerType

-- The key by which rows are owned: `B:<id>` for a buyer, `D:<device>` for a guest's device. The
-- prefixes keep the two apart, and a number is written in one way, so the key is what it encodes.
pub data OwnerKey : Type 0 where
  of_buyer : ℕ → OwnerKey
  of_device : List ℕ → OwnerKey
  no_key : OwnerKey

pub record BuyerDeviceBinding : Type 0 where
  pub id : ℕ
  pub device_id : List ℕ
  pub buyer_id : ℕ
  pub first_bind_at : Time
  pub last_bind_at : Time
  pub last_merge_at : Option Time

pub record BuyerFavorite : Type 0 where
  pub id : ℕ
  pub owner_type : OwnerType
  pub owner_key : OwnerKey
  pub buyer_id : Option ℕ
  pub device_id : Option (List ℕ)
  pub product_id : ℕ
  pub merchant_id : ℕ
  pub is_active : Bool
  pub merge_target_buyer_id : Option ℕ
  pub merged_at : Option Time

pub record BuyerHistory : Type 0 where
  pub id : ℕ
  pub owner_type : OwnerType
  pub owner_key : OwnerKey
  pub buyer_id : Option ℕ
  pub device_id : Option (List ℕ)
  pub product_id : ℕ
  pub merchant_id : ℕ
  pub first_viewed_at : Time
  pub last_viewed_at : Time
  pub view_count : ℤ
  pub is_active : Bool
  pub merge_target_buyer_id : Option ℕ
  pub merged_at : Option Time

pub record BuyerIntent : Type 0 where
  pub id : ℕ
  pub intent_no : String
  pub buyer_id : ℕ
  pub source_device_id : Option (List ℕ)
  pub product_id : ℕ
  pub merchant_id : ℕ
  pub status : IntentStatus
  pub is_open : Bool
  pub contact_name : Option String
  pub contact_phone : Option String
  pub contact_wechat : Option String
  pub message : Option String
  pub handled_by : Option ℕ
  pub handled_at : Option Time
  pub closed_at : Option Time
  pub close_reason : Option String
  pub merchant_note : Option String
