-- ===== src/Intents/Create.antt =====
-- What `createBuyerIntent` of backend/internal/app/buyer_intent_state.go shows when it succeeds.
use second_hand_market_backe.Base.{
  ℕ, ◌≡◌, refl, sym, ◌∙◌, ap, false, not, ◌&&◌, List, [], ◌∷◌, ◌++◌, ◌==◌, arith, keep,
}
use second_hand_market_backe.Errors.{Result, ok, biz, conflict}
use second_hand_market_backe.Model.Status.{ProductStatus, same_product_status}
use second_hand_market_backe.Model.Shop.{Product}
use second_hand_market_backe.Model.Buyer.{BuyerIntent}
use second_hand_market_backe.Database.Tables.{Db, products, intents, with_id, put}
use second_hand_market_backe.Database.Gorm.{Gorm, IsGorm}
use second_hand_market_backe.Database.Actions.{lift, pure, raise}
use second_hand_market_backe.Database.Invert.{
  bind-ok, map_error-ok, first-ok, find_rows-ok, create-ok, fail_if-ok,
}
use second_hand_market_backe.Request.{is_live}
use second_hand_market_backe.Intents.{
  competes, refuse_existing, create_buyer_intent, validate_buyer_intent_state,
}

-- The database after an intent was created, against the one before it.
pub record IsCreated (s : Db) (intent : BuyerIntent) (made : BuyerIntent) (t : Db) : Type 0 where
  pub product : Product
  pub others : List Product
  pub offered :
      keep
        (λ r.
          r.id == intent.product_id && r.merchant_id == intent.merchant_id && is_live r.deleted_at)
        (s products)
      ≡ product ∷ others
  pub on_shelf : product.status ≡ ProductStatus.on_shelf
  pub alone : keep (competes intent) (s intents) ≡ []
  pub key : ℕ
  pub keyed : made ≡ with_id intents key intent
  pub appended : t ≡ put intents (s intents ++ (made ∷ [])) s

is_on_shelf :
    (x : ProductStatus)
    → not (same_product_status x ProductStatus.on_shelf) ≡ false
    → x ≡ ProductStatus.on_shelf
unfolding same_product_status
is_on_shelf x h = ground arith

refuse_existing-ok :
    (rs : List BuyerIntent) (u : Unit {0}) (s t : Db)
    → refuse_existing rs s ≡ (ok u, t)
    → (rs ≡ []) × (t ≡ s)
unfolding refuse_existing raise pure
refuse_existing-ok [] u s t h = (refl, ap (λ (x : Result (Unit {0}) × Db). x.1) (sym h))
refuse_existing-ok (r ∷ rs) u s t h =
    bind-ok (lift (validate_buyer_intent_state r)) (λ _. raise (biz conflict)) {b = u} {s = s}
      {t = t} h λ v s1 valid h1. cc

-- A created intent is for a live product of its merchant that is on the shelf, its buyer had no
-- open intent for that product, and nothing but its row is added, where gorm has its laws.
pub create_buyer_intent-IsCreated :
    (g : Gorm) (laws : IsGorm g) (intent made : BuyerIntent) (s t : Db)
    → create_buyer_intent g intent s ≡ (ok made, t)
    → IsCreated s intent made t
unfolding create_buyer_intent
create_buyer_intent-IsCreated g laws intent made s t h =
    bind-ok _ _ {b = made} {s = s} {t = t} h λ product s1 read h1. bind-ok _ _ h1 λ u s2 offered h2.
      bind-ok _ _ h2 λ existing s3 looked h3. bind-ok _ _ h3 λ v s4 free h4.
        let (others, found, e1) =
          first-ok g laws products _ product s s1 (map_error-ok _ _ product s s1 read) in
        let (shelf, e2) = fail_if-ok _ _ u s1 s2 offered in
        let (selected, e3) =
          find_rows-ok g intents _ existing s2 s3 (map_error-ok _ _ existing s2 s3 looked) in
        let (empty, e4) = refuse_existing-ok existing v s3 s4 free in
        let (rows, inserted, e5) =
          create-ok g intents intent made s4 t (map_error-ok _ _ made s4 t h4) in
        let unchanged : s2 ≡ s = e2 ∙ e1 in
        let before : s4 ≡ s = e4 ∙ e3 ∙ unchanged in
        let (i, keyed, appended, fits, fresh) =
          laws.create_lem intents intent made (s4 intents) rows inserted in
        record {
          product = product;
          others = others;
          offered = found;
          on_shelf = is_on_shelf product.status shelf;
          alone =
              ap (λ (d : Db). keep (competes intent) (d intents)) (sym unchanged)
              ∙ sym (laws.select_lem intents (competes intent) (s2 intents) existing selected)
              ∙ empty;
          key = i;
          keyed = keyed;
          appended =
              e5
              ∙ ap (λ xs. put intents xs s4) appended
              ∙ ap (λ (d : Db). put intents (d intents ++ (made ∷ [])) d) before;
        }
