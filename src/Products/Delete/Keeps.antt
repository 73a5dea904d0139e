-- ===== src/Products/Delete/Keeps.antt =====
-- A deletion of a product keeps the rows sound.
use second_hand_market_backe.Base.{ℕ, refl, List, [], ◌∷◌}
use second_hand_market_backe.Model.Shop.{Product, ProductImage, FileRecord}
use second_hand_market_backe.Database.Tables.{
  products, product_images, orders, intents, files, merchant_accounts,
}
use second_hand_market_backe.Database.Gorm.{Action, Gorm, IsGorm}
use second_hand_market_backe.Database.Keeps.{
  Keeps, Any, Keeps-bind, Keeps-pure, Keeps-fail_if, Keeps-find_rows, Keeps-count, Keeps-update,
  Keeps-delete, Keeps-transaction, Keeps-weaken,
}
use second_hand_market_backe.Request.{Actor, Context, Audit}
use second_hand_market_backe.Request.Keeps.{KeepsAudit, Keeps-load_owned_product}
use second_hand_market_backe.Invariant.{Sound}
use second_hand_market_backe.Products.Images.{merchant_ids_for_accounts}
use second_hand_market_backe.Products.Delete.{
  unless_empty, unused_file_ids, delete_found_files, deletable_file_ids, delete_own_files,
  delete_files, delete_product_body, delete_product,
}

Keeps-unless_empty :
    {A B : Type 0} (xs : List A) (b : B) {m : Action B}
    → Keeps Sound m Any
    → Keeps Sound (unless_empty xs b m) Any
unfolding unless_empty
Keeps-unless_empty [] b k = Keeps-pure b tt
Keeps-unless_empty (x ∷ xs) b k = k

module _ (g : Gorm) (laws : IsGorm g) where
  Keeps-accounts : (ids : List ℕ) → Keeps Sound (merchant_ids_for_accounts g ids) Any
  unfolding merchant_ids_for_accounts
  Keeps-accounts [] = Keeps-pure [] tt
  Keeps-accounts (i ∷ ids) =
      Keeps-weaken (λ _ _. tt) (Keeps-find_rows g laws Sound merchant_accounts _)

  Keeps-unused_file_ids : (p : Product) (ids : List ℕ) → Keeps Sound (unused_file_ids g p ids) Any
  unfolding unused_file_ids
  Keeps-unused_file_ids p ids =
      Keeps-bind (Keeps-find_rows g laws Sound product_images _) (λ refs _.
        Keeps-bind (Keeps-find_rows g laws Sound products _) (λ covers _. Keeps-pure _ tt))

  Keeps-deletable_file_ids :
      (p : Product) (images : List ProductImage) → Keeps Sound (deletable_file_ids g p images) Any
  unfolding deletable_file_ids
  Keeps-deletable_file_ids p images = Keeps-unless_empty _ _ (Keeps-unused_file_ids p _)

  Keeps-delete_own_files :
      (actor : Actor) (found : List FileRecord) → Keeps Sound (delete_own_files g actor found) Any
  unfolding delete_own_files
  Keeps-delete_own_files actor found = Keeps-bind (Keeps-accounts _) (λ accounts _.
      Keeps-unless_empty _ _
        (Keeps-bind (Keeps-delete g laws Sound files _) (λ _ _. Keeps-pure _ tt)))

  Keeps-delete_files :
      (actor : Actor) (deletable : List ℕ) → Keeps Sound (delete_files g actor deletable) Any
  unfolding delete_files delete_found_files
  Keeps-delete_files actor deletable = Keeps-unless_empty _ _ (
      Keeps-bind (Keeps-find_rows g laws Sound files _)
        (λ found _. Keeps-unless_empty _ _ (Keeps-delete_own_files actor found)))

  pub Keeps-delete_product :
      (c : Context) (actor : Actor) (audit : Audit)
      → KeepsAudit Sound audit
      → (id : ℕ) → Keeps Sound (delete_product g c actor audit id) Any
  unfolding delete_product delete_product_body
  Keeps-delete_product c actor audit logged id = Keeps-transaction g laws Sound (
      Keeps-bind (Keeps-load_owned_product g laws Sound id actor.merchant_id) (λ p loaded.
        Keeps-bind (Keeps-fail_if _ _) (λ _ _.
          Keeps-bind (Keeps-count g laws Sound orders _) (λ n _.
            Keeps-bind (Keeps-fail_if _ _) (λ _ _.
              Keeps-bind (Keeps-count g laws Sound intents _) (λ k _.
                Keeps-bind (Keeps-fail_if _ _) (λ _ _.
                  Keeps-bind (Keeps-find_rows g laws Sound product_images _) (λ images _.
                    Keeps-bind (Keeps-deletable_file_ids p images) (λ deletable _.
                      Keeps-bind (Keeps-delete_files actor deletable) (λ removed _.
                        Keeps-bind (Keeps-delete g laws Sound product_images _) (λ _ _.
                          Keeps-bind
                            (Keeps-update g laws Sound products _ _
                              (λ x _ i _. record {
                                reserved_nonneg = i.reserved_nonneg;
                                reserved_within = i.reserved_within;
                                stock_bounded = i.stock_bounded;
                                reservation = i.reservation;
                                shelf = i.shelf;
                              })
                              (λ x _. refl))
                            (λ _ _. Keeps-bind (logged _) (λ _ _. Keeps-pure removed tt)))))))))))))
