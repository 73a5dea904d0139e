-- ===== src/Products/Keeps.antt =====
-- A change of a product's status keeps the rows sound.
use second_hand_market_backe.Base.{
  ℕ, String, ◌≡◌, refl, true, false, not, ◌||◌, arith, ◌⊎◌, inl, inr,
}
use second_hand_market_backe.Base.Int.{pos, leb_ℤ, ◌-64◌, -64-exact, -ℤ_parts}
use second_hand_market_backe.Model.Status.{ProductStatus, same_product_status}
use second_hand_market_backe.Model.Shop.{Product}
use second_hand_market_backe.Stateflow.{can_transition_product}
use second_hand_market_backe.Database.Tables.{product_images}
use second_hand_market_backe.Database.Gorm.{Gorm, IsGorm}
use second_hand_market_backe.Database.Keeps.{
  Keeps, Any, Keeps-bind, Keeps-pure, Keeps-if, Keeps-fail_if, Keeps-count, Keeps-transaction,
  Keeps-weaken,
}
use second_hand_market_backe.Request.{Actor, Context, Audit, is_some}
use second_hand_market_backe.Request.Keeps.{
  KeepsAudit, Keeps-load_owned_product, Keeps-save_product,
}
use second_hand_market_backe.Invariant.{IsSound, Sound}
use second_hand_market_backe.Products.{
  check_product_ready_for_on_shelf, shelved_product, do_product_status_change, product_on_shelf,
  product_off_shelf,
}

-- What the check for the shelf has found.
abbrev Ready : Product → Type 0
Ready p = (leb_ℤ (p.stock -64 p.reserved_stock) (pos 0) || is_some p.active_order_id) ≡ false

shelved_product-IsSound :
    (c : Context) (actor : Actor) (p : Product) (to : ProductStatus)
    → IsSound p
    → (to ≡ ProductStatus.on_shelf) ⊎ (to ≡ ProductStatus.off_shelf)
    → not (can_transition_product p.status to) ≡ false
    → (same_product_status to ProductStatus.on_shelf ≡ true → Ready p)
    → IsSound (shelved_product c actor p to)
unfolding shelved_product can_transition_product
shelved_product-IsSound c actor p to s (inl e) h ready =
    rw e (ground (arith, -64-exact p.stock p.reserved_stock, -ℤ_parts p.stock p.reserved_stock))
shelved_product-IsSound c actor p to s (inr e) h ready = rw e (ground arith)

module _ (g : Gorm) (laws : IsGorm g) where
  Keeps-check : (p : Product) → Keeps Sound (check_product_ready_for_on_shelf g p) (λ _. Ready p)
  unfolding check_product_ready_for_on_shelf
  Keeps-check p =
      Keeps-bind (Keeps-count g laws Sound product_images _)
        (λ n _. Keeps-bind (Keeps-fail_if _ _) (λ _ _. Keeps-fail_if _ _))

  module _ (audit : Audit) (logged : KeepsAudit Sound audit) (c : Context) (actor : Actor) where
    Keeps-do_product_status_change :
        (id : ℕ) (to : ProductStatus) (action : String)
        → (to ≡ ProductStatus.on_shelf) ⊎ (to ≡ ProductStatus.off_shelf)
        → Keeps Sound (do_product_status_change c actor g audit id to action) Any
    unfolding do_product_status_change
    Keeps-do_product_status_change id to action shelf = Keeps-transaction g laws Sound (
        Keeps-bind (Keeps-load_owned_product g laws Sound id actor.merchant_id) (λ p loaded.
          Keeps-if (same_product_status p.status to) _ _ (λ _. Keeps-pure _ tt)
            (λ _. Keeps-bind (Keeps-fail_if _ _) (λ _ allowed.
              Keeps-bind
                (Keeps-if {Q = λ _. same_product_status to ProductStatus.on_shelf ≡ true → Ready p}
                  (same_product_status to ProductStatus.on_shelf) _ _
                  (λ _. Keeps-weaken (λ _ r _. r) (Keeps-check p))
                  (λ off. Keeps-pure tt (λ on. ground arith)))
                (λ _ ready.
                  Keeps-bind
                    (Keeps-save_product g laws Sound _
                      (λ _. shelved_product-IsSound c actor p to loaded.good shelf allowed ready))
                    (λ _ _. Keeps-bind (logged _) (λ _ _. Keeps-pure _ tt)))))))

    pub Keeps-product_on_shelf : (id : ℕ) → Keeps Sound (product_on_shelf c actor g audit id) Any
    unfolding product_on_shelf
    Keeps-product_on_shelf id = Keeps-do_product_status_change id _ _ (inl refl)

    pub Keeps-product_off_shelf : (id : ℕ) → Keeps Sound (product_off_shelf c actor g audit id) Any
    unfolding product_off_shelf
    Keeps-product_off_shelf id = Keeps-do_product_status_change id _ _ (inr refl)
