-- ===== src/Inventory/Lifecycle.antt =====
-- The life of an order over its product: what locking and releasing do to the stock, and orders
-- that are final (backend/internal/app/inventory_service.go).
use second_hand_market_backe.Base.{
  ℕ, String, ◌≡◌, refl, sym, ◌∙◌, ap, Bool, Bool-cases, inl, inr, false, not, ◌&&◌, Option, none,
  List, [], ◌∷◌, arith, ◌==◌, keep, ◌≢◌,
}
use second_hand_market_backe.Base.Int.{
  pos, ◌+ℤ◌, ◌-ℤ◌, +64-exact, -64-exact, +ℤ_parts, -ℤ_parts, eq_of_parts,
}
use second_hand_market_backe.Errors.{ok}
use second_hand_market_backe.Model.Status.{ProductStatus, OrderStatus, same_order_status}
use second_hand_market_backe.Model.Shop.{Product, Order}
use second_hand_market_backe.Database.Tables.{Db, products, orders}
use second_hand_market_backe.Database.Gorm.{Gorm, IsGorm}
use second_hand_market_backe.Database.Actions.{transaction}
use second_hand_market_backe.Database.Keeps.{Result-cases}
use second_hand_market_backe.Stateflow.{can_transition_order}
use second_hand_market_backe.Database.Invert.{
  bind-ok, map_error-ok, first-ok, fail_if-ok, pure-ok, if-taken,
}
use second_hand_market_backe.Request.{
  Actor, Context, Audit, Fields, is_live, load_owned_product_for_update,
  load_owned_order_for_update,
}
use second_hand_market_backe.Invariant.{IsSound}
use second_hand_market_backe.Inventory.Orders.{
  locked_product, released_product, transition_order_body, transition_order,
}

-- What is left of a product after its order: a closed order gives the unit back and takes the
-- product from the shelf; a completed one takes the unit, and the last unit sells the product.
pub record IsReleased (p : Product) (to : OrderStatus) (q : Product) : Type 0 where
  pub reserved : q.reserved_stock ≡ p.reserved_stock
  pub free : q.active_order_id ≡ none
  pub on_close :
      to ≡ OrderStatus.closed → (q.stock ≡ p.stock) × (q.status ≡ ProductStatus.off_shelf)
  pub on_complete : to ≡ OrderStatus.completed → q.stock +ℤ pos 1 ≡ p.stock
  pub last_unit : to ≡ OrderStatus.completed → p.stock ≡ pos 1 → q.status ≡ ProductStatus.sold
  pub more_units : to ≡ OrderStatus.completed → pos 1 ≢ p.stock → q.status ≡ ProductStatus.on_shelf

module _ (c c' : Context) (actor actor' : Actor) where
  -- A sound product on the shelf that is locked for an order of one unit and then released holds
  -- what it held before: closing the order gives the unit back and takes the product from the shelf,
  -- completing it takes one unit, and sells the product if that was the last.
  pub released_product-locked_product :
      (p : Product) (o : Order) (to : OrderStatus)
      → IsSound p
      → o.quantity ≡ pos 1
      → p.status ≡ ProductStatus.on_shelf
      → IsReleased p to (released_product c' actor' (locked_product c actor p o) o to)
  unfolding released_product locked_product same_order_status
  released_product-locked_product p o to s one shelf = record {
    reserved = ground (
      arith,
      +64-exact p.reserved_stock o.quantity,
      +ℤ_parts p.reserved_stock o.quantity,
      -64-exact (p.reserved_stock +ℤ o.quantity) o.quantity,
      -ℤ_parts (p.reserved_stock +ℤ o.quantity) o.quantity,
      eq_of_parts ((p.reserved_stock +ℤ o.quantity) -ℤ o.quantity) p.reserved_stock,
    );
    free = ground arith;
    on_close = λ e. rw e (refl, refl);
    on_complete = λ e. rw e (
        ground (
          arith,
          -64-exact p.stock o.quantity,
          -ℤ_parts p.stock o.quantity,
          +ℤ_parts (p.stock -ℤ o.quantity) (pos 1),
          eq_of_parts ((p.stock -ℤ o.quantity) +ℤ pos 1) p.stock,
        ));
    last_unit =
        λ e u. rw e (ground (arith, -64-exact p.stock o.quantity, -ℤ_parts p.stock o.quantity));
    more_units = λ e u. rw e (
        ground (
          arith,
          -64-exact p.stock o.quantity,
          -ℤ_parts p.stock o.quantity,
          eq_of_parts (pos 1) p.stock,
        ));
  }

final_status :
    (from to : OrderStatus) → from ≢ OrderStatus.created → can_transition_order from to ≡ false
unfolding can_transition_order
final_status OrderStatus.created to ended = absurd (ended refl)
final_status OrderStatus.completed to ended = refl
final_status OrderStatus.closed to ended = refl
final_status (OrderStatus.other t) to ended = refl

module _ (g : Gorm) (laws : IsGorm g) where
  load_order-ok :
      (id merchant_id : ℕ) (o : Order) (s t : Db)
      → load_owned_order_for_update g id merchant_id s ≡ (ok o, t)
      → (rest : List Order) × (keep (λ r. r.id == id && is_live r.deleted_at) (s orders) ≡ o ∷ rest)
        × (t ≡ s)
  unfolding load_owned_order_for_update
  load_order-ok id merchant_id o s t h = bind-ok _ _ {b = o} {s = s} {t = t} h λ x s1 read h1.
      bind-ok _ _ h1 λ u s2 owned h2.
        let (rest, found, e1) = first-ok g laws orders _ x s s1 (map_error-ok _ _ x s s1 read) in
        let (mine, e2) = fail_if-ok _ _ u s1 s2 owned in
        let (same, e3) = pure-ok x o s2 t h2 in
        (rest, found ∙ ap (λ y. y ∷ rest) same, e3 ∙ e2 ∙ e1)

  load_product-reads :
      (id merchant_id : ℕ) (p : Product) (s t : Db)
      → load_owned_product_for_update g id merchant_id s ≡ (ok p, t)
      → t ≡ s
  unfolding load_owned_product_for_update
  load_product-reads id merchant_id p s t h = bind-ok _ _ {b = p} {s = s} {t = t} h λ x s1 read h1.
      bind-ok _ _ h1 λ u s2 owned h2.
        let (rest, found, e1) = first-ok g laws products _ x s s1 (map_error-ok _ _ x s s1 read) in
        (pure-ok x p s2 t h2).1 ∙ (fail_if-ok _ _ u s1 s2 owned).1 ∙ e1

  head-injective : {A : Type 0} (x y : A) (xs ys : List A) → x ∷ xs ≡ y ∷ ys → x ≡ y
  head-injective x y xs ys h = ap (λ zs. elim zs [ [] ↦ x | z ∷ rest ↦ z ]) h

  answered :
      (c : Context) (actor : Actor) (audit : Audit) (id : ℕ) (to : OrderStatus) (action : String)
      (reason : Option String) (o : Order) (rest : List Order) (s t : Db) (answer : Fields)
      → keep (λ r. r.id == id && is_live r.deleted_at) (s orders) ≡ o ∷ rest
      → o.status ≢ OrderStatus.created
      → transition_order_body c actor g audit id to action reason s ≡ (ok answer, t)
      → t ≡ s
  unfolding transition_order_body
  answered c actor audit id to action reason o rest s t answer found final h =
      bind-ok _ _ {b = answer} {s = s} {t = t} h λ x s1 loaded h1.
        let (others, there, e1) = load_order-ok id actor.merchant_id x s s1 loaded in
        let same : x ≡ o = head-injective x o others rest (sym there ∙ found) in
        elim (Bool-cases (same_order_status x.status to)) [
          | inl already ↦
              bind-ok _ _ {b = answer} {s = s1} {t = t} (if-taken _ _ _ already h1) λ p s2 read h2.
                (pure-ok _ answer s2 t h2).1
                ∙ load_product-reads x.product_id actor.merchant_id p s1 s2 read
                ∙ e1
          | inr another ↦
              bind-ok _ _ {b = answer} {s = s1} {t = t} (rw another at h1) λ u s2 allowed h2.
                absurd (
                  allowed_not (can_transition_order x.status to)
                    (final_status x.status to
                      (λ q. final (ap (λ (y : Order). y.status) (sym same) ∙ q)))
                    (fail_if-ok _ _ u s1 s2 allowed).0)
        ]
    where
      allowed_not : (b : Bool) → b ≡ false → not b ≡ false → ⊥
      allowed_not b e q = ground arith

  -- An order that is no longer open is final: a transition of it to any status, whatever it answers,
  -- leaves every table as it was, where gorm has its laws.
  pub transition_order-final :
      (c : Context) (actor : Actor) (audit : Audit) (id : ℕ) (to : OrderStatus) (action : String)
      (reason : Option String) (o : Order) (rest : List Order) (s : Db)
      → keep (λ r. r.id == id && is_live r.deleted_at) (s orders) ≡ o ∷ rest
      → o.status ≢ OrderStatus.created
      → (transition_order c actor g audit id to action reason s).1 ≡ s
  unfolding transition_order transaction
  transition_order-final c actor audit id to action reason o rest s found final =
      let m = transition_order_body c actor g audit id to action reason in
      elim (Result-cases (g.transaction m s).0) [
        | inl (answer, e) ↦
            answered c actor audit id to action reason o rest s (g.transaction m s).1 answer found
              final
              (laws.commit m s (g.transaction m s).1 answer (λ i. (e i, (g.transaction m s).1)))
        | inr (e, failed) ↦
            laws.abort m s (g.transaction m s).1 e (λ i. (failed i, (g.transaction m s).1))
      ]
