-- ===== src/Categories/Empty.antt =====
-- What `deleteOwnedCategory` has made sure of.
use second_hand_market_backe.Base.{
  ℕ, ◌≡◌, refl, sym, ◌∙◌, ap, subst, Bool, true, false, none, some, ◌⊎◌, ◌≢◌, List, [], ◌∷◌, arith,
  ==-refl, All, keep, length, ltb, inl, inr, Bool-cases, if◌then◌else◌,
}
use second_hand_market_backe.Base.Int.{pos, eqb_ℤ, eqb_ℤ→≡}
use second_hand_market_backe.Errors.{Result, ok, err, biz, invalid_argument}
use second_hand_market_backe.Model.Shop.{Category, Product}
use second_hand_market_backe.Database.Tables.{Db, categories, products}
use second_hand_market_backe.Database.Gorm.{Gorm, IsGorm}
use second_hand_market_backe.Database.Actions.{lift, transaction}
use second_hand_market_backe.Database.Invert.{
  bind-ok, count-ok, fail_if-ok, map_error-ok, find_rows-ok, first-ok,
}
use second_hand_market_backe.Request.{Context}
use second_hand_market_backe.Categories.{
  same_optional_id, in_category, is_child, owned_category, load_owned_category,
  ensure_category_has_no_products, ensure_children, delete_children, delete_owned_category_body,
  delete_owned_category,
}

-- A live product of the merchant in the category.
pub record IsHeld (merchant_id category_id : ℕ) (r : Product) : Type 0 where
  pub owned : r.merchant_id ≡ merchant_id
  pub inside : r.category_id ≡ category_id
  pub live : r.deleted_at ≡ none

-- No row is one.
abbrev pub IsEmptied : Db → ℕ → ℕ → Type 0
IsEmptied s merchant_id category_id = All (λ r. ¬ IsHeld merchant_id category_id r) (s products)

-- A live category of the merchant right below one of the first level.
pub record IsBelow (merchant_id parent_id : ℕ) (x : Category) : Type 0 where
  pub owned : x.merchant_id ≡ some merchant_id
  pub parent : x.parent_id ≡ some parent_id
  pub second : x.level ≡ pos 2
  pub live : x.deleted_at ≡ none

-- Nothing is left in a category: for the first level in none of those below it, else in itself.
pub record IsVacant (s : Db) (merchant_id : ℕ) (category : Category) : Type 0 where
  pub two_levels : (category.level ≡ pos 1) ⊎ (category.level ≡ pos 2)
  pub below :
      category.level ≡ pos 1
      → All (λ x. IsBelow merchant_id category.id x → IsEmptied s merchant_id x.id) (s categories)
  pub itself : category.level ≡ pos 2 → IsEmptied s merchant_id category.id

held :
    (merchant_id category_id : ℕ) (r : Product)
    → IsHeld merchant_id category_id r
    → in_category merchant_id category_id r ≡ true
unfolding in_category
held merchant_id category_id r h =
    rw (h.owned, h.inside, h.live) (ground (arith, ==-refl merchant_id, ==-refl category_id))

child :
    (merchant_id parent_id : ℕ) (x : Category)
    → IsBelow merchant_id parent_id x
    → is_child merchant_id parent_id x ≡ true
unfolding is_child same_optional_id
child merchant_id parent_id x h =
    rw (h.owned, h.parent, h.second, h.live)
      (ground (arith, ==-refl merchant_id, ==-refl parent_id))

-- Where none is kept, none passes the test.
none_kept :
    {A : Type 0} (p : A → Bool) (P : A → Type 0)
    → ((x : A) → P x → p x ≡ true)
    → (xs : List A) → keep p xs ≡ []
    → All (λ x. ¬ P x) xs
none_kept p P covers [] h = tt
none_kept {A} p P covers (x ∷ xs) h = elim (Bool-cases (p x)) [
  | inl e ↦ absurd (not_empty (rw e at h))
  | inr e ↦ (λ q. apart e (covers x q), none_kept p P covers xs (rw e at h))
]
  where
    not_empty : {ys : List A} → x ∷ ys ≢ []
    not_empty q = cc

    apart : {b : Bool} → b ≡ false → b ≡ true → ⊥
    apart e q = cc

-- What holds of those that are kept holds of those that pass the test.
of_kept :
    {A : Type 0} (p : A → Bool) (P Q : A → Type 0)
    → ((x : A) → P x → p x ≡ true)
    → (xs : List A) → All Q (keep p xs)
    → All (λ x. P x → Q x) xs
of_kept p P Q covers [] h = tt
of_kept p P Q covers (x ∷ xs) h = elim (Bool-cases (p x)) [
  | inl e ↦
      let both : All Q (x ∷ keep p xs) = rw e at h in (λ q. both.0, of_kept p P Q covers xs both.1)
  | inr e ↦ (λ q. absurd (apart e (covers x q)), of_kept p P Q covers xs (rw e at h))
]
  where
    apart : {b : Bool} → b ≡ false → b ≡ true → ⊥
    apart e q = cc

empty_of : {A : Type 0} (xs : List A) → ltb 0 (length xs) ≡ false → xs ≡ []
empty_of [] h = refl
empty_of (x ∷ xs) h = absurd (ground (arith, h))

module _ (g : Gorm) (laws : IsGorm g) (merchant_id : ℕ) where
  emptied :
      (x : Category) (u : Unit {0}) (s t : Db)
      → ensure_category_has_no_products g merchant_id x.id s ≡ (ok u, t)
      → IsEmptied s merchant_id x.id × (t ≡ s)
  unfolding ensure_category_has_no_products
  emptied x u s t h = bind-ok _ _ {b = u} {s = s} {t = t} h λ n s1 counted h1.
      let (size, e1) = count-ok g laws products (in_category merchant_id x.id) n s s1 counted in
      let (none_there, e2) = fail_if-ok _ _ u s1 t h1 in
      (
        none_kept (in_category merchant_id x.id) (IsHeld merchant_id x.id) (held merchant_id x.id)
            (s products)
            (empty_of (keep (in_category merchant_id x.id) (s products))
              (ap (ltb 0) size ∙ none_there)),
        e2 ∙ e1,
      )

  ensure_children-IsEmptied :
      (xs : List Category) (u : Unit {0}) (s t : Db)
      → ensure_children g merchant_id xs s ≡ (ok u, t)
      → All (λ x. IsEmptied s merchant_id x.id) xs
  unfolding ensure_children
  ensure_children-IsEmptied [] u s t h = tt
  ensure_children-IsEmptied (x ∷ xs) u s t h =
      bind-ok _ _ {b = u} {s = s} {t = t} h λ v s1 checked h1.
        let (here, same) = emptied x v s s1 checked in
        (
          here,
          ensure_children-IsEmptied xs u s t
              (ap (ensure_children g merchant_id xs) (sym same) ∙ h1),
        )

  deleted_children :
      (c : Context) (category : Category) (u : Unit {0}) (s t : Db)
      → delete_children g (c.now 0) merchant_id category s ≡ (ok u, t)
      → All
          (λ x. IsEmptied s merchant_id x.id)
          (keep (is_child merchant_id category.id) (s categories))
  unfolding delete_children
  deleted_children c category u s t h = bind-ok _ _ {b = u} {s = s} {t = t} h λ children s1 read h1.
      bind-ok _ _ h1 λ v s2 checked h2.
        let (selected, same) =
          find_rows-ok g categories (is_child merchant_id category.id) children s s1 read in
        let kept =
          laws.select_lem categories (is_child merchant_id category.id) (s categories) children
            selected in
        subst (All (λ (x : Category). IsEmptied s merchant_id x.id)) kept (
          ensure_children-IsEmptied children v s s2
            (ap (ensure_children g merchant_id children) (sym same) ∙ checked))

  checked_products :
      (c : Context) (category : Category) (u : Unit {0}) (s t : Db)
      → (if eqb_ℤ category.level (pos 1)
            then delete_children g (c.now 0) merchant_id category
            else if eqb_ℤ category.level (pos 2)
            then ensure_category_has_no_products g merchant_id category.id
            else lift (err (biz invalid_argument)))
          s
        ≡ (ok u, t)
      → IsVacant s merchant_id category
  unfolding lift
  checked_products c category u s t h = elim (Bool-cases (eqb_ℤ category.level (pos 1))) [
    | inl a ↦
        let first_level : category.level ≡ pos 1 = eqb_ℤ→≡ category.level (pos 1) a in
        record {
          two_levels = inl first_level;
          below = λ e.
              of_kept (is_child merchant_id category.id) (IsBelow merchant_id category.id)
                (λ x. IsEmptied s merchant_id x.id) (child merchant_id category.id) (s categories)
                (deleted_children c category u s t (rw a at h));
          itself = λ e. absurd (not_both (sym first_level ∙ e));
        }
    | inr a ↦ elim (Bool-cases (eqb_ℤ category.level (pos 2))) [
      | inl b ↦
          let second_level : category.level ≡ pos 2 = eqb_ℤ→≡ category.level (pos 2) b in
          record {
            two_levels = inr second_level;
            below = λ e. absurd (not_both (sym e ∙ second_level));
            itself = λ e. (emptied category u s t (rw (a, b) at h)).0;
          }
      | inr b ↦ absurd (refused (rw (a, b) at h))
    ]
  ]
    where
      not_both : pos 1 ≡ pos 2 → ⊥
      not_both q = cc

      refused_value : Result.err (biz invalid_argument) ≡ Result.ok u → ⊥
      refused_value q = cc

      refused : lift {A = Unit {0}} (err (biz invalid_argument)) s ≡ (ok u, t) → ⊥
      refused q = refused_value (ap (λ (x : Result (Unit {0}) × Db). x.0) q)

  -- A category is deleted only when it is of the second level and no live product of its merchant is
  -- in it, or of the first and no live product is in any live category below it, where gorm has its
  -- laws.
  pub delete_owned_category-IsVacant :
      (c : Context) (category_id : ℕ) (category : Category) (rest : List Category) (u : Unit {0})
      (s t : Db)
      → keep (owned_category category_id merchant_id) (s categories) ≡ category ∷ rest
      → delete_owned_category g c merchant_id category_id s ≡ (ok u, t)
      → IsVacant s merchant_id category
  unfolding delete_owned_category delete_owned_category_body load_owned_category transaction
  delete_owned_category-IsVacant c category_id category rest u s t kept h =
      let done = laws.commit _ s t u h in
      bind-ok _ _ {b = u} {s = s} {t = t} done λ found s1 read h1. bind-ok _ _ h1 λ v s2 checked h2.
        let (others, first_found, same) =
          first-ok g laws categories (owned_category category_id merchant_id) found s s1
            (map_error-ok _ _ found s s1 read) in
        let one : found ≡ category = head_of (sym first_found ∙ kept) in
        subst (IsVacant s merchant_id) one (
          checked_products c found v s s2 (
            ap
              (if eqb_ℤ found.level (pos 1)
                then delete_children g (c.now 0) merchant_id found
                else if eqb_ℤ found.level (pos 2)
                then ensure_category_has_no_products g merchant_id found.id
                else lift (err (biz invalid_argument)))
              (sym same)
            ∙ checked))
    where
      head_of : {x y : Category} {xs ys : List Category} → x ∷ xs ≡ y ∷ ys → x ≡ y
      head_of q = cc
