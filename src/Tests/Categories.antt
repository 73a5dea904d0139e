-- ===== src/Tests/Categories.antt =====
-- The theorems about categories at concrete rows, on the database in memory.
use second_hand_market_backe.Base.{◌≡◌, refl, arith, suc, none, some, [], ◌∷◌, keep, count_if}
use second_hand_market_backe.Base.Int.{pos}
use second_hand_market_backe.Base.Text.{codes, trim_space, same_bytes, is_blank}
use second_hand_market_backe.Errors.{ok}
use second_hand_market_backe.Model.Status.{CategoryStatus}
use second_hand_market_backe.Model.Shop.{Category, Product}
use second_hand_market_backe.Database.Tables.{Db, Name, put}
use second_hand_market_backe.Database.Actions.{
  pure, ◌>>=◌, lift, transaction, map_error, first, find_rows, count, look_up, found_or_none,
  attempt, fail_if, update, head_or_missing, write,
}
use second_hand_market_backe.Categories.{
  CreateCategoryRequest, same_optional_id, is_named, is_child, restored_category, owned_category,
  load_owned_category, checked_parent, put_category, create_owned_category, ensure_children,
  ensure_category_has_no_products, in_category, delete_children, delete_owned_category_body,
  delete_owned_category,
}
use second_hand_market_backe.Categories.Live.{is_live_named, create_owned_category-counts}
use second_hand_market_backe.Categories.Empty.{IsVacant, delete_owned_category-IsVacant}
use second_hand_market_backe.Tests.Memory.{memory, memory-IsGorm}
use second_hand_market_backe.Tests.Data.{lamp, request_of_ada}

-- A category of the first level that was deleted, and a live one that has got its name since.
abbrev old_toys : Category
old_toys = record {
  id = 1;
  merchant_id = some 7;
  parent_id = none;
  level = pos 1;
  name = codes "toys";
  status = CategoryStatus.enabled;
  sort = pos 0;
  deleted_at = some (pos 3);
}

abbrev toys : Category
toys = record old_toys { id = 2; deleted_at = none }

abbrev toy_market : Db
toy_market Name.categories = old_toys ∷ toys ∷ []
toy_market n = []

abbrev create_toys : CreateCategoryRequest
create_toys = record { level = pos 1; parent_id = none; name = codes " toys"; sort = pos 4 }

-- The name is taken by a live category, but the deleted one is found first and restored.
created : create_owned_category memory 7 create_toys toy_market ≡ (
  ok (restored_category (pos 4) old_toys),
  (create_owned_category memory 7 create_toys toy_market).1,
)
unfolding create_owned_category ◌>>=◌ fail_if is_blank trim_space checked_parent pure look_up
    attempt found_or_none first memory is_named same_optional_id same_bytes put_category update
    restored_category find_rows head_or_missing lift write put
created = refl

create_owned_category-counts_example :
    count_if
      (is_live_named 7
        (restored_category (pos 4) old_toys).parent_id
        (pos 1)
        (trim_space (codes " toys")))
      ((create_owned_category memory 7 create_toys toy_market).1 Name.categories)
    ≡ suc (
        count_if
          (is_live_named 7
            (restored_category (pos 4) old_toys).parent_id
            (pos 1)
            (trim_space (codes " toys")))
          (toy_market Name.categories))
create_owned_category-counts_example =
    create_owned_category-counts memory memory-IsGorm 7 create_toys
      (restored_category (pos 4) old_toys) toy_market _ (((λ e. omega arith), tt), (tt, tt)) created

-- A category below the toys, with a product that was deleted, and a lamp elsewhere.
abbrev trains : Category
trains = record toys { id = 5; parent_id = some 2; level = pos 2; name = codes "trains" }

abbrev old_train : Product
old_train = record lamp { id = 2; category_id = 5; deleted_at = some (pos 3) }

abbrev train_market : Db
train_market Name.categories = toys ∷ trains ∷ []
train_market Name.products = old_train ∷ lamp ∷ []
train_market n = []

toys_found : keep (owned_category 2 7) (train_market Name.categories) ≡ toys ∷ []
unfolding same_optional_id
toys_found = refl

toys_deleted :
    delete_owned_category memory request_of_ada 7 2 train_market
    ≡ (ok tt, (delete_owned_category memory request_of_ada 7 2 train_market).1)
unfolding delete_owned_category transaction memory delete_owned_category_body ◌>>=◌
    load_owned_category map_error first same_optional_id delete_children ensure_children is_child
    ensure_category_has_no_products in_category count fail_if find_rows head_or_missing lift write
    put pure update
toys_deleted = refl

delete_owned_category-IsVacant_example : IsVacant train_market 7 toys
delete_owned_category-IsVacant_example =
    delete_owned_category-IsVacant memory memory-IsGorm 7 request_of_ada 2 toys [] tt train_market _
      toys_found toys_deleted
