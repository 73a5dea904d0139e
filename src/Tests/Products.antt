-- ===== src/Tests/Products.antt =====
-- The theorem about deletion at a draft, on the database in memory.
use second_hand_market_backe.Base.{◌≡◌, refl, some, [], ◌∷◌}
use second_hand_market_backe.Base.Text.{is_blank, trim_space}
use second_hand_market_backe.Errors.{ok, is_record_not_found, map_database_error}
use second_hand_market_backe.Model.Status.{ProductStatus, product_status_text, same_user_type}
use second_hand_market_backe.Model.Shop.{Product}
use second_hand_market_backe.Database.Tables.{Db, Name, put}
use second_hand_market_backe.Database.Actions.{
  pure, ◌>>=◌, transaction, map_error, first, fail_if, count, delete, find_rows, head_or_missing,
  lift, missing_row, update, write,
}
use second_hand_market_backe.Request.{Audit, load_owned_product_for_update}
use second_hand_market_backe.Products.{can_delete_product_by_status}
use second_hand_market_backe.Products.Images.{merchant_by_account, merchant_ids_for_accounts}
use second_hand_market_backe.Products.Delete.{
  delete_product, delete_product_body, deletable_file_ids, unless_empty, file_id_set,
  unused_file_ids, delete_files, delete_found_files, delete_own_files, is_own_file,
}
use second_hand_market_backe.Products.Delete.Refused.{IsDeletable, delete_product-IsDeletable}
use second_hand_market_backe.Products.Delete.Unused.{IsUnused, unused_file_ids-IsUnused}
use second_hand_market_backe.Tests.Memory.{memory, memory-IsGorm}
use second_hand_market_backe.Tests.Data.{lamp, market, shop_owner, request_of_ada}

abbrev draft_lamp : Product
draft_lamp = record lamp { status = ProductStatus.draft; cover_file_id = some 8 }

abbrev draft_market : Db
draft_market Name.products = draft_lamp ∷ []
draft_market n = market n

abbrev no_audit : Audit
no_audit e = pure tt

draft_deleted :
    delete_product memory request_of_ada shop_owner no_audit 1 draft_market
    ≡ (ok ([], []), (delete_product memory request_of_ada shop_owner no_audit 1 draft_market).1)
unfolding delete_product transaction memory delete_product_body ◌>>=◌ load_owned_product_for_update
    map_error first fail_if pure can_delete_product_by_status count deletable_file_ids unless_empty
    file_id_set unused_file_ids delete_files delete_found_files is_blank trim_space delete find_rows
    head_or_missing lift missing_row update write put is_record_not_found map_database_error
    product_status_text same_user_type delete_own_files is_own_file merchant_by_account
    merchant_ids_for_accounts
draft_deleted = refl

delete_product-IsDeletable_example : IsDeletable draft_market 7 draft_lamp
delete_product-IsDeletable_example =
    delete_product-IsDeletable memory memory-IsGorm request_of_ada shop_owner no_audit 1 ([], [])
      draft_lamp [] draft_market
      ((delete_product memory request_of_ada shop_owner no_audit 1 draft_market).1) refl
      draft_deleted

cover_unused : unused_file_ids memory draft_lamp (8 ∷ []) draft_market ≡ (ok (8 ∷ []), draft_market)
unfolding unused_file_ids memory ◌>>=◌ pure find_rows
cover_unused = refl

unused_file_ids-IsUnused_example : IsUnused draft_market draft_lamp 8
unused_file_ids-IsUnused_example =
    unused_file_ids-IsUnused memory memory-IsGorm draft_lamp (8 ∷ []) (8 ∷ []) draft_market
      draft_market cover_unused 8 refl
