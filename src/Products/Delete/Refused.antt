-- ===== src/Products/Delete/Refused.antt =====
-- What a deletion of a product has made sure of.
use second_hand_market_backe.Base.{
  ℕ, ◌≡◌, refl, sym, ◌∙◌, ap, Bool, true, false, not, ◌&&◌, ◌||◌, none, List, [], ◌∷◌, ◌==◌, arith,
  keep, length, ltb, subst,
}
use second_hand_market_backe.Errors.{ok}
use second_hand_market_backe.Model.Shop.{Product}
use second_hand_market_backe.Database.Tables.{Db, products, orders, intents}
use second_hand_market_backe.Database.Gorm.{Gorm, IsGorm}
use second_hand_market_backe.Database.Actions.{transaction}
use second_hand_market_backe.Database.Invert.{
  bind-ok, count-ok, fail_if-ok, map_error-ok, first-ok, pure-ok,
}
use second_hand_market_backe.Request.{
  Actor, Context, Audit, is_live, is_some, load_owned_product_for_update,
}
use second_hand_market_backe.Products.{can_delete_product_by_status}
use second_hand_market_backe.Products.Delete.{delete_product_body, delete_product}

-- A product that nothing stands in the way of deleting.
pub record IsDeletable (s : Db) (merchant_id : ℕ) (p : Product) : Type 0 where
  pub owned : p.merchant_id ≡ merchant_id
  pub hidden : can_delete_product_by_status p.status ≡ true
  pub unlocked : p.active_order_id ≡ none
  pub unordered : keep (λ r. r.product_id == p.id && is_live r.deleted_at) (s orders) ≡ []
  pub unwanted : keep (λ r. r.product_id == p.id) (s intents) ≡ []

load_owned_product-ok :
    (g : Gorm) (laws : IsGorm g) (id merchant_id : ℕ) (p : Product) (s t : Db)
    → load_owned_product_for_update g id merchant_id s ≡ (ok p, t)
    → (rest : List Product) × (keep (λ r. r.id == id && is_live r.deleted_at) (s products)
        ≡ p ∷ rest)
      × (p.merchant_id ≡ merchant_id)
      × (t ≡ s)
unfolding load_owned_product_for_update
load_owned_product-ok g laws id merchant_id p s t h =
    bind-ok _ _ {b = p} {s = s} {t = t} h λ r s1 read h1. bind-ok _ _ h1 λ u s2 own h2.
      let (rest, found, e1) = first-ok g laws products _ r s s1 (map_error-ok _ _ r s s1 read) in
      let (mine, e2) = fail_if-ok _ _ u s1 s2 own in
      let (same, e3) = pure-ok r p s2 t h2 in
      (
        rest,
        found ∙ ap (λ x. x ∷ rest) same,
        ap (λ (x : Product). x.merchant_id) (sym same) ∙ own_row r.merchant_id merchant_id mine,
        e3 ∙ e2 ∙ e1,
      )
  where
    own_row : (a b : ℕ) → not (a == b) ≡ false → a ≡ b
    own_row a b q = ground arith

none_of : {A : Type 0} (xs : List A) (k : ℕ) → length xs ≡ k → ltb 0 k ≡ false → xs ≡ []
none_of [] k e h = refl
none_of (x ∷ xs) k e h = absurd (ground (arith, e, h))

-- A product is deleted only by its merchant, while it is a draft or off the shelf without an order
-- that holds it, and while no order and no intent is for it, where gorm has its laws.
pub delete_product-IsDeletable :
    (g : Gorm) (laws : IsGorm g) (c : Context) (actor : Actor) (audit : Audit) (id : ℕ)
    (removed : List ℕ × List (List ℕ)) (p : Product) (rest : List Product) (s t : Db)
    → keep (λ r. r.id == id && is_live r.deleted_at) (s products) ≡ p ∷ rest
    → delete_product g c actor audit id s ≡ (ok removed, t)
    → IsDeletable s actor.merchant_id p
unfolding delete_product delete_product_body transaction
delete_product-IsDeletable g laws c actor audit id removed p rest s t kept h =
    let done = laws.commit _ s t removed h in
    bind-ok _ _ {b = removed} {s = s} {t = t} done λ q s1 loaded h1.
      bind-ok _ _ h1 λ u1 s2 allowed h2. bind-ok _ _ h2 λ n s3 ordered h3.
        bind-ok _ _ h3 λ u2 s4 no_order h4. bind-ok _ _ h4 λ k s5 wanted h5.
          bind-ok _ _ h5 λ u3 s6 no_intent h6.
            let (more, found, mine, e1) =
              load_owned_product-ok g laws id actor.merchant_id q s s1 loaded in
            let one : q ≡ p = head_of (sym found ∙ kept) in
            let (free, e2) = fail_if-ok _ _ u1 s1 s2 allowed in
            let (orders_there, e3) = count-ok g laws orders _ n s2 s3 ordered in
            let (none_ordered, e4) = fail_if-ok _ _ u2 s3 s4 no_order in
            let (intents_there, e5) = count-ok g laws intents _ k s4 s5 wanted in
            let (none_wanted, e6) = fail_if-ok _ _ u3 s5 s6 no_intent in
            subst (IsDeletable s actor.merchant_id) one (record {
              owned = mine;
              hidden =
                  both_off (can_delete_product_by_status q.status) (is_some q.active_order_id) free;
              unlocked = no_order_held q (can_delete_product_by_status q.status) free;
              unordered =
                  ap
                    (λ (d : Db).
                      keep (λ r. r.product_id == q.id && is_live r.deleted_at) (d orders))
                    (sym (e2 ∙ e1))
                  ∙ none_of _ n orders_there none_ordered;
              unwanted =
                  ap (λ (d : Db). keep (λ r. r.product_id == q.id) (d intents))
                    (sym (e4 ∙ e3 ∙ e2 ∙ e1))
                  ∙ none_of _ k intents_there none_wanted;
            })
  where
    head_of : {x y : Product} {xs ys : List Product} → x ∷ xs ≡ y ∷ ys → x ≡ y
    head_of e = cc

    both_off : (a b : Bool) → (not a || b) ≡ false → a ≡ true
    both_off a b e = ground arith

    no_order_held :
        (x : Product) (a : Bool)
        → (not a || is_some x.active_order_id) ≡ false
        → x.active_order_id ≡ none
    no_order_held x a e = ground arith
