-- ===== src/Categories.antt =====
-- backend/internal/app/category_handlers.go: a merchant's tree of categories, of two levels.
pub mod Live
pub mod Empty
use second_hand_market_backe.Base.{
  ℕ, Bool, true, false, not, ◌&&◌, ◌||◌, Option, none, some, List, [], ◌∷◌, ◌==◌, if◌then◌else◌,
  map, elem, ltb,
}
use second_hand_market_backe.Base.Int.{ℤ, pos, eqb_ℤ, ltb_ℤ}
use second_hand_market_backe.Base.Text.{codes, same_bytes, trim_space, is_blank}
use second_hand_market_backe.Errors.{
  Error, Result, ok, err, biz, invalid_argument, map_database_error,
}
use second_hand_market_backe.Model.Status.{Time, CategoryStatus}
use second_hand_market_backe.Model.Shop.{Category, Product}
use second_hand_market_backe.Database.Tables.{categories, products}
use second_hand_market_backe.Database.Gorm.{Action, Gorm}
use second_hand_market_backe.Database.Actions.{
  pure, lift, ◌>>=◌, ◌>>◌, fail_if, map_error, first, look_up, find_rows, count, create, update,
  transaction,
}
use second_hand_market_backe.Request.{Context, Actor, actor_from_context, is_live, is_some}

-- `dto.CreateCategoryRequest`
pub record CreateCategoryRequest : Type 0 where
  pub level : ℤ
  pub parent_id : Option ℕ
  pub name : List ℕ
  pub sort : ℤ

-- `dto.UpdateCategoryRequest`
pub record UpdateCategoryRequest : Type 0 where
  pub name : Option (List ℕ)
  pub sort : Option ℤ
  pub status : Option (List ℕ)

-- `x = ?`, or `x IS NULL` for no value.
unfoldable pub same_optional_id : Option ℕ → Option ℕ → Bool
same_optional_id none none = true
same_optional_id (some a) (some b) = a == b
same_optional_id _ _ = false

-- The name is taken among the categories of the merchant with this level and parent.
unfoldable pub is_named : ℕ → Option ℕ → ℤ → List ℕ → Category → Bool
is_named merchant_id parent_id level name r =
    same_optional_id r.merchant_id (some merchant_id)
    && eqb_ℤ r.level level
    && same_bytes r.name name
    && same_optional_id r.parent_id parent_id

unfoldable pub new_category : ℕ → Option ℕ → ℤ → List ℕ → ℤ → Category
new_category merchant_id parent_id level name sort = record {
  id = 0;
  merchant_id = some merchant_id;
  parent_id = parent_id;
  level = level;
  name = name;
  status = CategoryStatus.enabled;
  sort = sort;
  deleted_at = none;
}

-- A deleted category that is created again.
unfoldable pub restored_category : ℤ → Category → Category
restored_category sort r = record r {
  deleted_at = none;
  status = CategoryStatus.enabled;
  sort = sort;
}

-- The columns that an update sets.
pub record Updates : Type 0 where
  pub name : Option (List ℕ)
  pub sort : Option ℤ
  pub status : Option CategoryStatus

abbrev or_else : {A : Type 0} → Option A → A → A
or_else none a = a
or_else (some b) a = b

unfoldable pub set_columns : Updates → Category → Category
set_columns u r = record r {
  name = or_else u.name r.name;
  sort = or_else u.sort r.sort;
  status = or_else u.status r.status;
}

-- `len(updates) == 0`
abbrev is_unchanged : Updates → Bool
is_unchanged u = not (is_some u.name) && not (is_some u.sort) && not (is_some u.status)

unfoldable pub new_sort : Option ℤ → Result (Option ℤ)
new_sort none = ok none
new_sort (some sort) = if ltb_ℤ sort (pos 0) then err (biz invalid_argument) else ok (some sort)

unfoldable pub new_status : Option (List ℕ) → Result (Option CategoryStatus)
new_status none = ok none
new_status (some raw) =
    let status = trim_space raw in
    if same_bytes status (codes "ENABLED")
    then ok (some CategoryStatus.enabled)
    else if same_bytes status (codes "DISABLED")
    then ok (some CategoryStatus.disabled)
    else err (biz invalid_argument)

-- The live products of a merchant in a category.
unfoldable pub in_category : ℕ → ℕ → Product → Bool
in_category merchant_id category_id r =
    r.merchant_id == merchant_id && r.category_id == category_id && is_live r.deleted_at

-- The live categories below one of the first level.
unfoldable pub is_child : ℕ → ℕ → Category → Bool
is_child merchant_id parent_id r =
    same_optional_id r.merchant_id (some merchant_id)
    && same_optional_id r.parent_id (some parent_id)
    && eqb_ℤ r.level (pos 2)
    && is_live r.deleted_at

abbrev pub owned_category : ℕ → ℕ → Category → Bool
owned_category id merchant_id r =
    r.id == id && same_optional_id r.merchant_id (some merchant_id) && is_live r.deleted_at

abbrev deleted : Time → Category → Category
deleted now r = record r { deleted_at = some now }

module _ (g : Gorm) where
  unfoldable pub load_owned_category : ℕ → ℕ → Action Category
  load_owned_category category_id merchant_id =
      map_error map_database_error (first g categories (owned_category category_id merchant_id))

  -- The parent of a category that is to be created.
  unfoldable pub checked_parent : ℕ → CreateCategoryRequest → Action (Option ℕ)
  checked_parent merchant_id req =
      let top = do fail_if (is_some req.parent_id) invalid_argument; pure none
      in let below = do
        parent_id ← lift (elim req.parent_id [ none ↦ err (biz invalid_argument) | some p ↦ ok p ])
        parent ← map_error (λ _. biz invalid_argument) (load_owned_category parent_id merchant_id)
        fail_if (not (eqb_ℤ parent.level (pos 1))) invalid_argument
        pure (some parent_id)
        in if eqb_ℤ req.level (pos 1)
          then top
          else if eqb_ℤ req.level (pos 2)
          then below
          else lift (err (biz invalid_argument))

  -- A category of this name that is there is refused while it is live, and restored otherwise.
  unfoldable pub put_category : ℕ → Option ℕ → ℤ → List ℕ → ℤ → Option Category → Action Category
  put_category merchant_id parent_id level name sort none =
      create g categories (new_category merchant_id parent_id level name sort)
  put_category merchant_id parent_id level name sort (some existing) = do
    fail_if (is_live existing.deleted_at) invalid_argument
    update g categories (λ r. r.id == existing.id) (restored_category sort)
    pure (restored_category sort existing)

  unfoldable pub create_owned_category : ℕ → CreateCategoryRequest → Action Category
  create_owned_category merchant_id req = do
    let name = trim_space req.name
    fail_if (is_blank name) invalid_argument
    fail_if (ltb_ℤ req.sort (pos 0)) invalid_argument
    parent_id ← checked_parent merchant_id req
    existing ← look_up g categories (is_named merchant_id parent_id req.level name)
    put_category merchant_id parent_id req.level name req.sort existing

  unfoldable pub category_name_conflict : ℕ → Option ℕ → ℤ → List ℕ → ℕ → Action Bool
  category_name_conflict merchant_id parent_id level name exclude_id = do
    n ← count g categories (λ r.
        is_named merchant_id parent_id level name r
        && not (r.id == exclude_id)
        && is_live r.deleted_at)
    pure (ltb 0 n)

  -- The name that an update sets, if it is another one.
  unfoldable pub new_name : ℕ → Category → Option (List ℕ) → Action (Option (List ℕ))
  new_name merchant_id category none = pure none
  new_name merchant_id category (some raw) = do
    let name = trim_space raw
    fail_if (is_blank name) invalid_argument
    let other = do
      taken ← category_name_conflict merchant_id category.parent_id category.level name category.id
      fail_if taken invalid_argument
      pure (some name)
    if same_bytes name category.name then pure none else other

  unfoldable pub update_owned_category : ℕ → ℕ → UpdateCategoryRequest → Action Category
  update_owned_category merchant_id category_id req = do
    category ← load_owned_category category_id merchant_id
    name ← new_name merchant_id category req.name
    sort ← lift (new_sort req.sort)
    status ← lift (new_status req.status)
    let updates : Updates = record { name = name; sort = sort; status = status }
    let changed = do
      update g categories (λ r. r.id == category.id && is_live r.deleted_at) (set_columns updates)
      pure (set_columns updates category)
    if is_unchanged updates then pure category else changed

  unfoldable pub ensure_category_has_no_products : ℕ → ℕ → Action (Unit {0})
  ensure_category_has_no_products merchant_id category_id = do
    product_count ← count g products (in_category merchant_id category_id)
    fail_if (ltb 0 product_count) invalid_argument

  unfoldable pub ensure_children : ℕ → List Category → Action (Unit {0})
  ensure_children merchant_id [] = pure tt
  ensure_children merchant_id (child ∷ rest) =
      ensure_category_has_no_products merchant_id child.id >> ensure_children merchant_id rest

  unfoldable pub delete_children : Time → ℕ → Category → Action (Unit {0})
  delete_children now merchant_id category = do
    children ← find_rows g categories (is_child merchant_id category.id)
    ensure_children merchant_id children
    let ids = map (λ (x : Category). x.id) children
    let gone =
        update g categories (λ r. elem r.id ids && is_live r.deleted_at) (deleted now) >> pure tt
    elim children [ [] ↦ pure tt | x ∷ xs ↦ gone ]

  unfoldable pub delete_owned_category_body : Context → ℕ → ℕ → Action (Unit {0})
  delete_owned_category_body c merchant_id category_id = do
    category ← load_owned_category category_id merchant_id
    if eqb_ℤ category.level (pos 1)
        then delete_children (c.now 0) merchant_id category
        else if eqb_ℤ category.level (pos 2)
        then ensure_category_has_no_products merchant_id category.id
        else lift (err (biz invalid_argument))
    update g categories (λ r. r.id == category.id && is_live r.deleted_at) (deleted (c.now 1))
    pure tt

  unfoldable pub delete_owned_category : Context → ℕ → ℕ → Action (Unit {0})
  delete_owned_category c merchant_id category_id =
      transaction g (delete_owned_category_body c merchant_id category_id)
