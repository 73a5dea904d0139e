-- ===== src/Products/Images.antt =====
-- Which files may be the images of a merchant's product: `validateMerchantProductImageFiles` of
-- backend/internal/app/product_handlers.go, and `IsDetailProductImageKey` of
-- backend/internal/media/detail_profile.go.
pub mod Usable
pub mod Allowed
use second_hand_market_backe.Base.{
  ℕ, Bool, true, false, not, ◌&&◌, ◌||◌, Option, none, some, List, [], ◌∷◌, ◌==◌, if◌then◌else◌,
  length, elem, ltb,
}
use second_hand_market_backe.Base.Int.{ℤ, pos, leb_ℤ, ltb_ℤ}
use second_hand_market_backe.Base.Text.{
  codes, has_prefix, has_suffix, contains, trim_space, to_lower, same_bytes,
}
use second_hand_market_backe.Errors.{invalid_upload}
use second_hand_market_backe.Model.Status.{FileBizType, ScanStatus, UserType, same_user_type}
use second_hand_market_backe.Model.Shop.{FileRecord}
use second_hand_market_backe.Model.People.{MerchantAccount}
use second_hand_market_backe.Database.Tables.{files, merchant_accounts}
use second_hand_market_backe.Database.Gorm.{Action, Gorm}
use second_hand_market_backe.Database.Actions.{pure, ◌>>=◌, ◌>>◌, fail_if, find_rows}
use second_hand_market_backe.Request.{Actor}

abbrev detail_hard_limit_bytes : ℤ
detail_hard_limit_bytes = pos 512000

-- `filepath.ToSlash` changes nothing where the separator is `/`.
unfoldable pub is_detail_product_image_key : List ℕ → Bool
is_detail_product_image_key key =
    let normalized = trim_space key in
    if same_bytes normalized []
      || has_prefix normalized (codes "/")
      || same_bytes normalized (codes ".")
      || same_bytes normalized (codes "..")
      || contains normalized (codes "../")
      || contains normalized (codes "/../")
      || contains normalized (codes "/..")
    then false
    else has_prefix normalized (codes "product_image/detail-v1/")
      && has_suffix (to_lower normalized) (codes ".jpg")

unfoldable pub is_strict_detail_product_image_record : FileRecord → Bool
is_strict_detail_product_image_record f =
    is_detail_product_image_key f.object_key
    && same_bytes (to_lower (trim_space f.mime_type)) (codes "image/jpeg")
    && ltb_ℤ (pos 0) f.size_bytes
    && leb_ℤ f.size_bytes detail_hard_limit_bytes

-- The different ids, in the order of their first occurrence; a zero is refused.
unfoldable pub unique_ids : List ℕ → List ℕ → Option (List ℕ)
unique_ids seen [] = some []
unique_ids seen (i ∷ ids) =
    let again = unique_ids seen ids in
    let fresh = unique_ids (i ∷ seen) ids in
    if i == 0
    then none
    else if elem i seen
    then again
    else elim fresh [ none ↦ none | some rest ↦ some (i ∷ rest) ]

-- The maps that the rows are read into: a later row of the same key replaces an earlier one.
unfoldable pub file_by_id : ℕ → List FileRecord → Option FileRecord
file_by_id i [] = none
file_by_id i (f ∷ fs) = elim (file_by_id i fs) [
  | some h ↦ some h
  | none ↦ if f.id == i then some f else none
]

unfoldable pub merchant_by_account : ℕ → List MerchantAccount → Option ℕ
merchant_by_account i [] = none
merchant_by_account i (a ∷ rest) = elim (merchant_by_account i rest) [
  | some m ↦ some m
  | none ↦ if a.id == i then some a.merchant_id else none
]

abbrev pub uploader_ids : List FileRecord → List ℕ
uploader_ids [] = []
uploader_ids (f ∷ fs) = elim f.uploader_id [ none ↦ uploader_ids fs | some u ↦ u ∷ uploader_ids fs ]

abbrev pub is_product_image : FileBizType → Bool
is_product_image FileBizType.product_image = true
is_product_image _ = false

abbrev is_pass : ScanStatus → Bool
is_pass ScanStatus.pass = true
is_pass _ = false

-- A file that this merchant may use, under the profile if it is required.
unfoldable pub may_use : Bool → Actor → List MerchantAccount → FileRecord → Bool
may_use strict actor accounts f =
    is_product_image f.biz_type
    && is_pass f.scan_status
    && same_user_type f.uploader_type UserType.merchant
    && elim f.uploader_id [
      | none ↦ false
      | some u ↦ elim (merchant_by_account u accounts) [
        | none ↦ false
        | some m ↦ m == actor.merchant_id
      ]
    ]
    && (not strict || is_strict_detail_product_image_record f)

-- Every id is one of a usable file; a missing key is the zero record, which is not usable.
unfoldable pub all_usable : Bool → Actor → List MerchantAccount → List FileRecord → List ℕ → Bool
all_usable strict actor accounts found [] = true
all_usable strict actor accounts found (i ∷ ids) =
    elim (file_by_id i found) [ none ↦ false | some f ↦ may_use strict actor accounts f ]
    && all_usable strict actor accounts found ids

-- `merchantIDsForAccounts`: the accounts, deleted ones included.
unfoldable pub merchant_ids_for_accounts : Gorm → List ℕ → Action (List MerchantAccount)
merchant_ids_for_accounts g [] = pure []
merchant_ids_for_accounts g (i ∷ ids) = find_rows g merchant_accounts (λ a. elem a.id (i ∷ ids))

-- The part of the check that reads rows.
unfoldable pub check_files : Gorm → Bool → Actor → Option (List ℕ) → Action (Unit {0})
check_files g strict actor none = fail_if true invalid_upload
check_files g strict actor (some ids) = do
  found ← find_rows g files (λ f. elem f.id ids)
  fail_if (not (length found == length ids)) invalid_upload
  accounts ← merchant_ids_for_accounts g (uploader_ids found)
  fail_if (not (all_usable strict actor accounts found ids)) invalid_upload

-- `validateMerchantProductImageFiles`, with `cfg.RequireDetailV1ProductImages`.
unfoldable pub validate_merchant_product_image_files :
    Gorm → Bool → Actor → List ℕ → Action (Unit {0})
validate_merchant_product_image_files g strict actor ids = do
  fail_if (length ids == 0 || ltb 5 (length ids)) invalid_upload
  check_files g strict actor (unique_ids [] ids)
