-- ===== src/Categories/Live.antt =====
-- What `createOwnedCategory` adds.
use second_hand_market_backe.Base.{
  ℕ, suc, ◌≡◌, refl, sym, ◌∙◌, ap, subst, Bool, true, false, ◌&&◌, Option, none, some, List, ◌==◌,
  ==→≡, ==-refl, arith, Among, count_if, map_if, count_if-append,
}
use second_hand_market_backe.Base.Int.{ℤ, eqb_ℤ}
use second_hand_market_backe.Base.Text.{same_bytes_refl, trim_space}
use second_hand_market_backe.Errors.{Result, ok}
use second_hand_market_backe.Model.Shop.{Category}
use second_hand_market_backe.Database.Tables.{Db, categories, Keyed, put, with_id}
use second_hand_market_backe.Database.Keys.{count-update_row}
use second_hand_market_backe.Database.Gorm.{Gorm, IsGorm}
use second_hand_market_backe.Database.Atomic.{
  Reads, Reads-bind, Reads-pure, Reads-lift, Reads-first, Reads-fail_if, Reads-map_error,
  Reads-look_up, Reads-if,
}
use second_hand_market_backe.Database.Invert.{bind-ok, fail_if-ok, create-ok, update-ok, pure-ok}
use second_hand_market_backe.Database.Keeps.{AtFound}
use second_hand_market_backe.Database.KeepsAt.{look_up-ok}
use second_hand_market_backe.Request.{is_live}
use second_hand_market_backe.Categories.{
  CreateCategoryRequest, same_optional_id, is_named, new_category, restored_category,
  load_owned_category, checked_parent, put_category, create_owned_category,
}

-- A live category of the merchant with this parent, level and name.
abbrev pub is_live_named : ℕ → Option ℕ → ℤ → List ℕ → Category → Bool
is_live_named merchant_id parent_id level name r =
    is_named merchant_id parent_id level name r && is_live r.deleted_at

same_optional_id_refl : (o : Option ℕ) → same_optional_id o o ≡ true
unfolding same_optional_id
same_optional_id_refl none = refl
same_optional_id_refl (some a) = ==-refl a

same_optional_id→≡ : (o q : Option ℕ) → same_optional_id o q ≡ true → o ≡ q
unfolding same_optional_id
same_optional_id→≡ none none h = refl
same_optional_id→≡ (some a) (some b) h = ap some (==→≡ a b h)
same_optional_id→≡ none (some b) h = cc
same_optional_id→≡ (some a) none h = cc

same_level : (x : ℤ) → eqb_ℤ x x ≡ true
same_level x = ground arith

module _ (g : Gorm) where
  Reads-load_owned_category : (id merchant_id : ℕ) → Reads (load_owned_category g id merchant_id)
  unfolding load_owned_category
  Reads-load_owned_category id merchant_id = Reads-map_error _ (Reads-first g categories _)

  pub Reads-checked_parent :
      (merchant_id : ℕ) (req : CreateCategoryRequest) → Reads (checked_parent g merchant_id req)
  unfolding checked_parent
  Reads-checked_parent merchant_id req =
      Reads-if _ (Reads-bind (Reads-fail_if _ _) (λ _. Reads-pure none)) (
        Reads-if _
          (Reads-bind (Reads-lift _) (λ p.
            Reads-bind (Reads-map_error _ (Reads-load_owned_category p merchant_id))
              (λ parent. Reads-bind (Reads-fail_if _ _) (λ _. Reads-pure (some p)))))
          (Reads-lift _))

new_counts :
    (merchant_id i : ℕ) (parent_id : Option ℕ) (level : ℤ) (name : List ℕ) (sort : ℤ)
    → is_live_named merchant_id parent_id level name
        (with_id categories i (new_category merchant_id parent_id level name sort))
      ≡ true
unfolding is_named new_category
new_counts merchant_id i parent_id level name sort = ground (
  arith,
  same_optional_id_refl (some merchant_id),
  same_optional_id_refl parent_id,
  same_level level,
  same_bytes_refl name,
)

restored_counts :
    (merchant_id : ℕ) (parent_id : Option ℕ) (level : ℤ) (name : List ℕ) (sort : ℤ) (r : Category)
    → is_named merchant_id parent_id level name r ≡ true
    → is_live_named merchant_id parent_id level name (restored_category sort r) ≡ true
unfolding is_named restored_category
restored_counts merchant_id parent_id level name sort r h = ground (arith, h)

-- The category that is made stands under the parent that was checked.
put_category-parent :
    (g : Gorm) (laws : IsGorm g) (merchant_id : ℕ) (parent_id : Option ℕ) (level : ℤ)
    (name : List ℕ) (sort : ℤ) (found : Option Category) (made : Category) (s t : Db)
    → AtFound
        (λ r. Among r (s categories) × (is_named merchant_id parent_id level name r ≡ true))
        found
    → put_category g merchant_id parent_id level name sort found s ≡ (ok made, t)
    → made.parent_id ≡ parent_id
unfolding put_category new_category restored_category is_named
put_category-parent g laws merchant_id parent_id level name sort none made s t here h =
    let (rows, inserted, e) = create-ok g categories _ made s t h in
    let (i, same, appended, fits, fresh) =
      laws.create_lem categories _ made (s categories) rows inserted in
    ap (λ (x : Category). x.parent_id) same
put_category-parent g laws merchant_id parent_id level name sort (some old) made s t here h =
    bind-ok _ _ {b = made} {s = s} {t = t} h λ u s1 gone h1. bind-ok _ _ h1 λ n s2 updated h2.
      ap (λ (x : Category). x.parent_id) (sym (pure-ok _ made s2 t h2).0)
      ∙ same_optional_id→≡ old.parent_id parent_id (last_of _ _ here.1)
  where
    last_of : (b l : Bool) → (b && l) ≡ true → l ≡ true
    last_of b l q = ground arith

put_category-counts :
    (g : Gorm) (laws : IsGorm g) (merchant_id : ℕ) (parent_id : Option ℕ) (level : ℤ)
    (name : List ℕ) (sort : ℤ) (found : Option Category) (made : Category) (s t : Db)
    → Keyed categories (s categories)
    → AtFound
        (λ r. Among r (s categories) × (is_named merchant_id parent_id level name r ≡ true))
        found
    → put_category g merchant_id parent_id level name sort found s ≡ (ok made, t)
    → count_if (is_live_named merchant_id parent_id level name) (t categories)
      ≡ suc (count_if (is_live_named merchant_id parent_id level name) (s categories))
unfolding put_category put restored_category
put_category-counts g laws merchant_id parent_id level name sort none made s t keyed here h =
    let (rows, inserted, e) =
      create-ok g categories (new_category merchant_id parent_id level name sort) made s t h in
    let (i, same, appended, fits, fresh) =
      laws.create_lem categories (new_category merchant_id parent_id level name sort) made
        (s categories) rows inserted in
    ap (λ (d : Db). count_if (is_live_named merchant_id parent_id level name) (d categories)) e
    ∙ ap (count_if (is_live_named merchant_id parent_id level name)) appended
    ∙ count_if-append (is_live_named merchant_id parent_id level name) (s categories) made (
        ap (is_live_named merchant_id parent_id level name) same
        ∙ new_counts merchant_id i parent_id level name sort)
put_category-counts g laws merchant_id parent_id level name sort (some old) made s t keyed here h =
    bind-ok _ _ {b = made} {s = s} {t = t} h λ u s1 gone h1. bind-ok _ _ h1 λ n s2 updated h2.
      let (dead, e1) = fail_if-ok _ _ u s s1 gone in
      let (rows, changed, e2) = update-ok g categories _ (restored_category sort) n s1 s2 updated in
      let (after, counted, fits) = laws.update_lem categories _ _ (s1 categories) rows n changed in
      ap (λ (d : Db). count_if (is_live_named merchant_id parent_id level name) (d categories))
        ((pure-ok _ made s2 t h2).1 ∙ e2)
      ∙ ap (count_if (is_live_named merchant_id parent_id level name)) after
      ∙ ap
          (λ (d : Db).
            count_if (is_live_named merchant_id parent_id level name)
              (map_if (λ r. r.id == old.id) (restored_category sort) (d categories)))
          e1
      ∙ count-update_row categories (is_live_named merchant_id parent_id level name)
          (restored_category sort) old (s categories) keyed here.0 (not_live old dead)
          (restored_counts merchant_id parent_id level name sort old here.1)
  where
    not_live :
        (r : Category)
        → is_live r.deleted_at ≡ false
        → is_live_named merchant_id parent_id level name r ≡ false
    not_live r e = ground (arith, e)

-- A category that is created is one more live category of its merchant, parent, level and trimmed
-- name, also where a deleted one is restored, where gorm has its laws and the keys of the table are
-- unique.
pub create_owned_category-counts :
    (g : Gorm) (laws : IsGorm g) (merchant_id : ℕ) (req : CreateCategoryRequest) (made : Category)
    (s t : Db)
    → Keyed categories (s categories)
    → create_owned_category g merchant_id req s ≡ (ok made, t)
    → count_if
        (is_live_named merchant_id made.parent_id req.level (trim_space req.name))
        (t categories)
      ≡ suc (
          count_if
            (is_live_named merchant_id made.parent_id req.level (trim_space req.name))
            (s categories))
unfolding create_owned_category
create_owned_category-counts g laws merchant_id req made s t keyed h =
    bind-ok _ _ {b = made} {s = s} {t = t} h λ u1 s1 named h1. bind-ok _ _ h1 λ u2 s2 sorted h2.
      bind-ok _ _ h2 λ parent_id s3 checked h3. bind-ok _ _ h3 λ found s4 looked h4.
        let e1 = (fail_if-ok _ _ u1 s s1 named).1 in
        let e2 = (fail_if-ok _ _ u2 s1 s2 sorted).1 in
        let e3 : s3 ≡ s2 =
          ap (λ (x : Result (Option ℕ) × Db). x.1) (sym checked)
          ∙ (Reads-checked_parent g merchant_id req).unchanged s2 in
        let e4 : s4 ≡ s3 =
          ap (λ (x : Result (Option Category) × Db). x.1) (sym looked)
          ∙ (Reads-look_up g categories _).unchanged s3 in
        let same : s3 ≡ s = e3 ∙ e2 ∙ e1 in
        let here = look_up-ok g laws categories _ found s3 s4 looked in
        let put_in =
          ap (put_category g merchant_id parent_id req.level (trim_space req.name) req.sort found)
            (sym e4)
          ∙ h4 in
        let parent =
          put_category-parent g laws merchant_id parent_id req.level (trim_space req.name) req.sort
            found made s3 t here put_in in
        let counts =
          put_category-counts g laws merchant_id parent_id req.level (trim_space req.name) req.sort
            found made s3 t (subst (λ (d : Db). Keyed categories (d categories)) (sym same) keyed)
            here put_in in
        subst
          (λ p.
            count_if (is_live_named merchant_id p req.level (trim_space req.name)) (t categories)
            ≡ suc (
                count_if (is_live_named merchant_id p req.level (trim_space req.name))
                  (s categories)))
          (sym parent)
          (counts
            ∙ ap
                (λ (d : Db). suc (
                  count_if (is_live_named merchant_id parent_id req.level (trim_space req.name))
                    (d categories)))
                same)
