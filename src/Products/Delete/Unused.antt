-- ===== src/Products/Delete/Unused.antt =====
-- The files that a deletion of a product may remove.
use second_hand_market_backe.Base.{
  ℕ, ◌≡◌, refl, sym, ◌∙◌, ap, Bool, true, false, not, ◌&&◌, List, [], ◌∷◌, ◌++◌, ◌==◌, arith, keep,
  elem, any, map,
}
use second_hand_market_backe.Errors.{ok}
use second_hand_market_backe.Model.Shop.{Product, ProductImage}
use second_hand_market_backe.Database.Tables.{Db, products, product_images}
use second_hand_market_backe.Database.Gorm.{Gorm, IsGorm}
use second_hand_market_backe.Database.Invert.{bind-ok, find_rows-ok, pure-ok}
use second_hand_market_backe.Request.{is_live}
use second_hand_market_backe.Products.Delete.{covers, has_cover, unused_file_ids}

-- No image of another product and no cover of another live product is the file.
pub record IsUnused (s : Db) (p : Product) (i : ℕ) : Type 0 where
  pub no_image : any (λ r. r.file_id == i && not (r.product_id == p.id)) (s product_images) ≡ false
  pub no_cover :
      any (λ r. has_cover (i ∷ []) r && not (r.id == p.id) && is_live r.deleted_at) (s products)
      ≡ false

elem-keep :
    (i : ℕ) (q : ℕ → Bool) (xs : List ℕ)
    → elem i (keep q xs) ≡ true
    → (elem i xs ≡ true) × (q i ≡ true)
elem-keep i q [] h = absurd (ground (arith, h))
elem-keep i q (x ∷ xs) h = ground (arith, elem-keep i q xs)

elem-append :
    (i : ℕ) (xs ys : List ℕ) → elem i (xs ++ ys) ≡ false → (elem i xs ≡ false) × (elem i ys ≡ false)
elem-append i [] ys h = (refl, h)
elem-append i (x ∷ xs) ys h = ground (arith, elem-append i xs ys)

unused_image :
    (i pid : ℕ) (ids : List ℕ) (rs : List ProductImage)
    → elem i ids ≡ true
    → elem i (
        map
          (λ (x : ProductImage). x.file_id)
          (keep (λ r. elem r.file_id ids && not (r.product_id == pid)) rs))
      ≡ false
    → any (λ r. r.file_id == i && not (r.product_id == pid)) rs ≡ false
unused_image i pid ids [] inside h = refl
unused_image i pid ids (r ∷ rs) inside h = ground (arith, unused_image i pid ids rs inside)

unused_cover :
    (i pid : ℕ) (ids : List ℕ) (rs : List Product)
    → elem i ids ≡ true
    → elem i (covers (keep (λ r. has_cover ids r && not (r.id == pid) && is_live r.deleted_at) rs))
      ≡ false
    → any (λ r. has_cover (i ∷ []) r && not (r.id == pid) && is_live r.deleted_at) rs ≡ false
unused_cover i pid ids [] inside h = refl
unused_cover i pid ids (r ∷ rs) inside h = ground (arith, unused_cover i pid ids rs inside)

-- A file that a deletion of a product finds unused is an image of no other product and the cover of
-- no other live product, where gorm has its laws.
pub unused_file_ids-IsUnused :
    (g : Gorm) (laws : IsGorm g) (p : Product) (ids unused : List ℕ) (s t : Db)
    → unused_file_ids g p ids s ≡ (ok unused, t)
    → (i : ℕ) → elem i unused ≡ true
    → IsUnused s p i
unfolding unused_file_ids
unused_file_ids-IsUnused g laws p ids unused s t h i there =
    bind-ok _ _ {b = unused} {s = s} {t = t} h λ refs s1 by_image h1.
      bind-ok _ _ h1 λ cs s2 by_cover h2.
        let (images, e1) = find_rows-ok g product_images _ refs s s1 by_image in
        let (covered, e2) = find_rows-ok g products _ cs s1 s2 by_cover in
        let kept = (pure-ok _ unused s2 t h2).0 in
        let (listed, fresh) = elem-keep i _ ids (ap (elem i) kept ∙ there) in
        let (out, uncovered) =
          elem-append i (map (λ (x : ProductImage). x.file_id) refs) (covers cs) (off _ fresh) in
        record {
          no_image = unused_image i p.id ids (s product_images) listed (
              ap (λ (rs : List ProductImage). elem i (map (λ (x : ProductImage). x.file_id) rs))
                (sym (laws.select_lem product_images _ _ refs images))
              ∙ out);
          no_cover = unused_cover i p.id ids (s products) listed (
              ap
                (λ (d : Db). elem i (
                  covers (
                    keep (λ r. has_cover ids r && not (r.id == p.id) && is_live r.deleted_at)
                      (d products))))
                (sym e1)
              ∙ ap (λ (rs : List Product). elem i (covers rs))
                  (sym (laws.select_lem products _ _ cs covered))
              ∙ uncovered);
        }
  where
    off : (b : Bool) → not b ≡ true → b ≡ false
    off b e = ground arith
