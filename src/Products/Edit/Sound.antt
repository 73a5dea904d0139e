-- ===== src/Products/Edit/Sound.antt =====
-- Creating and editing products keeps the rows sound.
use second_hand_market_backe.Base.{
  ℕ, suc, ◌≡◌, refl, Bool, false, not, ◌||◌, Option, none, some, List, [], ◌∷◌, arith,
}
use second_hand_market_backe.Base.Int.{ℤ, pos, leb_ℤ, ltb_ℤ, ◌≤ℤ◌}
use second_hand_market_backe.Errors.{invalid_transition}
use second_hand_market_backe.Model.Status.{ProductStatus}
use second_hand_market_backe.Model.Shop.{Product}
use second_hand_market_backe.Stateflow.{EditableField, editable_fields_by_product_status}
use second_hand_market_backe.Database.Tables.{
  products, product_images, categories, files, merchant_accounts, Fits,
}
use second_hand_market_backe.Database.Gorm.{Gorm, IsGorm}
use second_hand_market_backe.Database.Keeps.{
  Keeps, Any, Keeps-bind, Keeps-pure, Keeps-fail_if, Keeps-map_error, Keeps-first, Keeps-find_rows,
  Keeps-create, Keeps-delete, Keeps-transaction, Keeps-weaken,
}
use second_hand_market_backe.Request.{Actor, Context, Audit}
use second_hand_market_backe.Request.Keeps.{
  KeepsAudit, Keeps-load_owned_product, Keeps-save_product,
}
use second_hand_market_backe.Invariant.{IsSound, Sound, Reservation, Shelf}
use second_hand_market_backe.Products.Images.{
  merchant_ids_for_accounts, check_files, unique_ids, validate_merchant_product_image_files,
}
use second_hand_market_backe.Products.Edit.{
  ensure_merchant_level2_category, create_images, CreateProductRequest, UpdateProductRequest,
  edit_field, new_product, create_product_body, create_product, edit_category, edit_fields,
  edit_images, update_product_body, update_product,
}

-- A product that is being edited: sound but for the bound of its stock, which the column enforces.
record Consistent (before : ProductStatus) (status : ProductStatus) (stock reserved : ℤ)
    (active : Option ℕ) : Type 0 where
  reserved_nonneg : pos 0 ≤ℤ reserved
  reserved_within : reserved ≤ℤ stock
  reservation : Reservation status reserved active
  shelf : Shelf status stock
  same_status : status ≡ before

abbrev IsEdited : ProductStatus → Product → Type 0
IsEdited before q = Consistent before q.status q.stock q.reserved_stock q.active_order_id

IsSound-IsEdited : (p : Product) → IsSound p → IsEdited p.status p
IsSound-IsEdited p s = record {
  reserved_nonneg = s.reserved_nonneg;
  reserved_within = s.reserved_within;
  reservation = s.reservation;
  shelf = s.shelf;
  same_status = refl;
}

-- What is saved at the end; the columns have held it.
saved :
    (r : Product) (status : ProductStatus) (n : ℕ) (v : ℤ)
    → IsEdited status r
    → Fits products r
    → IsSound (record r { updated_by = n; version = v })
saved r status n v e f = ground arith

-- The stock is edited only where nothing is reserved and no status depends on it.
IsEdited-stock :
    (status : ProductStatus) (v : ℤ) (q : Product)
    → (not (editable_fields_by_product_status status EditableField.stock) || leb_ℤ v (pos 0))
      ≡ false
    → IsEdited status q
    → IsEdited status (record q { stock = v })
unfolding editable_fields_by_product_status
IsEdited-stock status v q h e = ground arith

new_product-IsSound :
    (c : Context) (actor : Actor) (req : CreateProductRequest) (i : ℕ)
    → (ltb_ℤ req.original_price_cent req.price_cent || leb_ℤ req.stock (pos 0)) ≡ false
    → Fits products (record (new_product c actor req) { id = i })
    → IsSound (record (new_product c actor req) { id = i })
unfolding new_product
new_product-IsSound c actor req i h f = ground arith

module _ {A : Type 0} {Q : Product → Type 0} where
  Keeps-edit_field :
      (o : Option A) (bad : A → Bool) (set : A → Product → Product) (p : Product)
      → Q p
      → ((v : A) → bad v ≡ false → Q (set v p))
      → Keeps Sound (edit_field o bad set p) Q
  unfolding edit_field
  Keeps-edit_field none bad set p q step = Keeps-pure p q
  Keeps-edit_field (some v) bad set p q step =
      Keeps-bind (Keeps-fail_if (bad v) invalid_transition) (λ _ fine. Keeps-pure _ (step v fine))

module _ (g : Gorm) (laws : IsGorm g) (strict : Bool) (actor : Actor) where
  Keeps-merchant_ids : (ids : List ℕ) → Keeps Sound (merchant_ids_for_accounts g ids) Any
  unfolding merchant_ids_for_accounts
  Keeps-merchant_ids [] = Keeps-pure [] tt
  Keeps-merchant_ids (i ∷ ids) =
      Keeps-weaken (λ _ _. tt) (Keeps-find_rows g laws Sound merchant_accounts _)

  Keeps-check_files : (o : Option (List ℕ)) → Keeps Sound (check_files g strict actor o) Any
  unfolding check_files
  Keeps-check_files none = Keeps-weaken (λ _ _. tt) (Keeps-fail_if _ _)
  Keeps-check_files (some ids) = Keeps-bind (Keeps-find_rows g laws Sound files _) (λ found _.
      Keeps-bind (Keeps-fail_if _ _) (λ _ _.
        Keeps-bind (Keeps-merchant_ids _)
          (λ accounts _. Keeps-weaken (λ _ _. tt) (Keeps-fail_if _ _))))

  Keeps-validate_images :
      (ids : List ℕ) → Keeps Sound (validate_merchant_product_image_files g strict actor ids) Any
  unfolding validate_merchant_product_image_files
  Keeps-validate_images ids =
      Keeps-bind (Keeps-fail_if _ _) (λ _ _. Keeps-check_files (unique_ids [] ids))

  Keeps-ensure_category :
      (merchant_id category_id : ℕ)
      → Keeps Sound (ensure_merchant_level2_category g merchant_id category_id) Any
  unfolding ensure_merchant_level2_category
  Keeps-ensure_category merchant_id category_id =
      Keeps-bind (Keeps-map_error _ (Keeps-first g laws Sound categories _))
        (λ category _. Keeps-weaken (λ _ _. tt) (Keeps-fail_if _ _))

  Keeps-create_images :
      (product_id n : ℕ) (fs : List ℕ) → Keeps Sound (create_images g product_id n fs) Any
  unfolding create_images
  Keeps-create_images product_id n [] = Keeps-pure tt tt
  Keeps-create_images product_id n (f ∷ fs) =
      Keeps-bind (Keeps-create g laws Sound product_images _ (λ _ _. tt))
        (λ _ _. Keeps-create_images product_id (suc n) fs)

  module _ (c : Context) (audit : Audit) (logged : KeepsAudit Sound audit) where
    pub Keeps-create_product :
        (req : CreateProductRequest) → Keeps Sound (create_product c actor g strict audit req) Any
    unfolding create_product create_product_body
    Keeps-create_product req = Keeps-bind (Keeps-fail_if _ _) (λ _ valid.
        Keeps-bind (Keeps-ensure_category actor.merchant_id req.category_id) (λ _ _.
          Keeps-transaction g laws Sound (
            Keeps-bind (Keeps-validate_images req.image_file_ids) (λ _ _.
              Keeps-bind
                (Keeps-create g laws Sound products (new_product c actor req)
                  (λ i f. new_product-IsSound c actor req i valid f))
                (λ p _.
                  Keeps-bind (Keeps-create_images p.id 1 req.image_file_ids)
                    (λ _ _. Keeps-bind (logged _) (λ _ _. Keeps-pure p tt)))))))

    Keeps-edit_category :
        (status : ProductStatus) (may : EditableField → Bool) (o : Option ℕ) (p : Product)
        → IsEdited status p
        → Keeps Sound (edit_category c actor g may o p) (IsEdited status)
    unfolding edit_category
    Keeps-edit_category status may none p e = Keeps-pure p e
    Keeps-edit_category status may (some i) p e =
        Keeps-bind (Keeps-fail_if _ _)
          (λ _ _. Keeps-bind (Keeps-ensure_category actor.merchant_id i) (λ _ _. Keeps-pure _ e))

    Keeps-edit_fields :
        (status : ProductStatus) (req : UpdateProductRequest) (p : Product)
        → IsEdited status p
        → Keeps Sound
            (edit_fields c actor g (editable_fields_by_product_status status) req p)
            (IsEdited status)
    unfolding edit_fields
    Keeps-edit_fields status req p e =
        Keeps-bind (Keeps-edit_field {Q = IsEdited status} req.title _ _ p e (λ v _. e)) (λ p1 e1.
          Keeps-bind (Keeps-edit_field {Q = IsEdited status} req.description _ _ p1 e1 (λ v _. e1))
            (λ p2 e2. Keeps-bind (Keeps-edit_category status _ req.category_id p2 e2) (λ p3 e3.
              Keeps-bind
                (Keeps-edit_field {Q = IsEdited status} req.price_cent _ _ p3 e3 (λ v _. e3))
                (λ p4 e4.
                  Keeps-bind
                    (Keeps-edit_field {Q = IsEdited status} req.original_price_cent _ _ p4 e4
                      (λ v _. e4))
                    (λ p5 e5.
                      Keeps-bind
                        (Keeps-edit_field {Q = IsEdited status} req.condition_level _ _ p5 e5
                          (λ v _. e5))
                        (λ p6 e6.
                          Keeps-edit_field {Q = IsEdited status} req.stock _ _ p6 e6
                            (λ v fine. IsEdited-stock status v p6 fine e6)))))))

    Keeps-edit_images :
        (status : ProductStatus) (may : EditableField → Bool) (o : Option (List ℕ)) (p : Product)
        → IsEdited status p
        → Keeps Sound (edit_images c actor g strict may o p) (IsEdited status)
    unfolding edit_images
    Keeps-edit_images status may none p e = Keeps-pure p e
    Keeps-edit_images status may (some ids) p e = Keeps-bind (Keeps-fail_if _ _) (λ _ _.
        Keeps-bind (Keeps-validate_images ids) (λ _ _.
          Keeps-bind (Keeps-delete g laws Sound product_images _)
            (λ _ _. Keeps-bind (Keeps-create_images p.id 1 ids) (λ _ _. Keeps-pure _ e))))

    pub Keeps-update_product :
        (id : ℕ) (req : UpdateProductRequest)
        → Keeps Sound (update_product c actor g strict audit id req) Any
    unfolding update_product update_product_body
    Keeps-update_product id req =
        Keeps-bind
          (Keeps-transaction g laws Sound (
            Keeps-bind (Keeps-load_owned_product g laws Sound id actor.merchant_id) (λ p loaded.
              Keeps-bind (Keeps-edit_fields p.status req p (IsSound-IsEdited p loaded.good))
                (λ q edited. Keeps-bind (Keeps-fail_if _ _) (λ _ _.
                  Keeps-bind (Keeps-edit_images p.status _ req.image_file_ids q edited) (λ r done.
                    Keeps-bind
                      (Keeps-save_product g laws Sound _ (λ f. saved r p.status _ _ done f))
                      (λ _ _. logged _)))))))
          (λ _ _. Keeps-pure _ tt)
