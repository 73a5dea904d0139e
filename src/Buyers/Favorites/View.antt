-- ===== src/Buyers/Favorites/View.antt =====
-- The favourites as a set: which products an owner has in sight. The handlers' rows implement it.
use second_hand_market_backe.Base.{
  ℕ, ◌≡◌, sym, ◌∙◌, ap, subst, Bool, true, false, not, ◌&&◌, ◌||◌, Option, none, some, List, [],
  ◌∷◌, ◌++◌, ◌==◌, ==→≡, arith, Among, any, map_if, if◌then◌else◌, Among-any, All-every, All-weaken,
  any-append, any-map_if_or, any-map_if_and, ==-refl,
}
use second_hand_market_backe.Errors.{ok, Result}
use second_hand_market_backe.Model.Buyer.{OwnerKey, BuyerFavorite}
use second_hand_market_backe.Database.Tables.{Db, favorites, put, Keyed}
use second_hand_market_backe.Database.Keys.{Keyed-unique}
use second_hand_market_backe.Database.Gorm.{Gorm, IsGorm}
use second_hand_market_backe.Database.Actions.{transaction}
use second_hand_market_backe.Database.Atomic.{Reads-look_up}
use second_hand_market_backe.Database.Invert.{bind-ok, map_error-ok, create-ok, update-ok, pure-ok}
use second_hand_market_backe.Database.Keeps.{AtFound}
use second_hand_market_backe.Database.KeepsAt.{look_up-ok}
use second_hand_market_backe.Buyers.Owner.{BuyerOwner, same_owner}
use second_hand_market_backe.Buyers.Owner.Resolved.{own_row, same_owner_via, same_owner_both}
use second_hand_market_backe.Buyers.Favorites.{
  new_favorite, renewed_favorite, put_favorite, add_favorite, delete_favorite,
}

-- The owner `k` has the product in sight: what the buyers' lists and details ask of the table.
unfoldable pub favored : OwnerKey → ℕ → BuyerFavorite → Bool
favored k product r = same_owner r.owner_key k && r.product_id == product && r.is_active

-- The same, in the shop of one merchant.
unfoldable pub favored_at : OwnerKey → ℕ → ℕ → BuyerFavorite → Bool
favored_at k merchant product r =
    same_owner r.owner_key k && r.merchant_id == merchant && r.product_id == product && r.is_active

-- A row that is looked up is the only one that an update by its key changes.
pub update_row-favored :
    (k : OwnerKey) (q : ℕ) (f : BuyerFavorite → BuyerFavorite) (b : Bool) (r : BuyerFavorite)
    (xs : List BuyerFavorite)
    → Keyed favorites xs
    → Among r xs
    → favored k q (f r) ≡ (favored k q r || b)
    → any (favored k q) (map_if (λ x. x.id == r.id) f xs) ≡ (any (favored k q) xs || b)
update_row-favored k q f b r xs keyed m e =
    let only = Keyed-unique favorites r xs keyed m in
    let changed =
      All-weaken (λ x. x.id ≡ r.id → x ≡ r)
        (λ x. (x.id == r.id) ≡ true → favored k q (f x) ≡ (favored k q x || b))
        (λ x one t.
          subst (λ y. favored k q (f y) ≡ (favored k q y || b)) (sym (one (==→≡ x.id r.id t))) e)
        xs only in
    let here = Among-any (λ x. x.id == r.id) r xs m (==-refl r.id) in
    any-map_if_or (favored k q) (λ x. x.id == r.id) f b xs changed
    ∙ ap (λ c. any (favored k q) xs || (c && b)) here

renewed-favored :
    (o : BuyerOwner) (product_id merchant_id : ℕ) (k : OwnerKey) (q : ℕ) (fav : BuyerFavorite)
    → fav.owner_key ≡ o.owner_key
    → fav.product_id ≡ product_id
    → favored k q (renewed_favorite o merchant_id fav)
      ≡ (favored k q fav || (same_owner o.owner_key k && product_id == q))
unfolding favored renewed_favorite
renewed-favored o product_id merchant_id k q fav e1 e2 = rw (← e1, ← e2) ground arith

put_favorite-favored :
    (g : Gorm) (laws : IsGorm g) (o : BuyerOwner) (product_id merchant_id : ℕ) (k : OwnerKey)
    (q : ℕ) (found : Option BuyerFavorite) (u : Unit {0}) (s t : Db)
    → Keyed favorites (s favorites)
    → AtFound
        (λ r.
          Among r (s favorites)
          × ((same_owner r.owner_key o.owner_key && r.product_id == product_id) ≡ true))
        found
    → put_favorite g o product_id merchant_id found s ≡ (ok u, t)
    → any (favored k q) (t favorites)
      ≡ (any (favored k q) (s favorites) || (same_owner o.owner_key k && product_id == q))
unfolding put_favorite put favored new_favorite
put_favorite-favored g laws o product_id merchant_id k q none u s t keyed here h =
    bind-ok _ _ {b = u} {s = s} {t = t} h λ made s1 created h1.
      let (rows, inserted, e) =
        create-ok g favorites (new_favorite o product_id merchant_id) made s s1 created in
      let (i, same, appended, fits, fresh) =
        laws.create_lem favorites (new_favorite o product_id merchant_id) made (s favorites) rows
          inserted in
      let after : t favorites ≡ s favorites ++ (made ∷ []) =
        ap (λ (d : Db). d favorites) ((pure-ok _ u s1 t h1).1 ∙ e) ∙ appended in
      let last : favored k q made ≡ (same_owner o.owner_key k && product_id == q) =
        rw same ground arith in
      ap (any (favored k q)) after
      ∙ any-append (favored k q) (s favorites) made
      ∙ ap (λ b. any (favored k q) (s favorites) || b) last
put_favorite-favored g laws o product_id merchant_id k q (some fav) u s t keyed here h =
    bind-ok _ _ {b = u} {s = s} {t = t} h λ n s1 updated h1.
      let (rows, changed, e) =
        update-ok g favorites _ (renewed_favorite o merchant_id) n s s1 updated in
      let (same, counted, fits) = laws.update_lem favorites _ _ (s favorites) rows n changed in
      let key = own_row fav.owner_key o.owner_key fav.product_id product_id here.1 in
      ap (λ (d : Db). any (favored k q) (d favorites)) ((pure-ok _ u s1 t h1).1 ∙ e)
      ∙ ap (any (favored k q)) same
      ∙ update_row-favored k q (renewed_favorite o merchant_id) _ fav (s favorites) keyed here.0
          (renewed-favored o product_id merchant_id k q fav key.0 key.1)

-- Adding a favourite puts that product in sight of its owner and changes nothing else of what
-- anyone has in sight, where gorm has its laws and the keys of the table are unique.
pub add_favorite-favored :
    (g : Gorm) (laws : IsGorm g) (o : BuyerOwner) (product_id merchant_id : ℕ) (u : Unit {0})
    (s t : Db)
    → Keyed favorites (s favorites)
    → add_favorite g o product_id merchant_id s ≡ (ok u, t)
    → (k : OwnerKey) (q : ℕ)
    → any (favored k q) (t favorites)
      ≡ (any (favored k q) (s favorites) || (same_owner o.owner_key k && product_id == q))
unfolding add_favorite transaction
add_favorite-favored g laws o product_id merchant_id u s t keyed h k q =
    let done = laws.commit _ s t u (map_error-ok _ _ u s t h) in
    bind-ok _ _ {b = u} {s = s} {t = t} done λ found s1 looked h1.
      let same = (Reads-look_up g favorites _).unchanged s in
      let here = look_up-ok g laws favorites _ found s s1 looked in
      let unchanged : s1 ≡ s =
        ap (λ (x : Result (Option BuyerFavorite) × Db). x.1) (sym looked) ∙ same in
      put_favorite-favored g laws o product_id merchant_id k q found u s t keyed here
        (ap (put_favorite g o product_id merchant_id found) (sym unchanged) ∙ h1)

hidden :
    (o : BuyerOwner) (merchant product : ℕ) (k : OwnerKey) (m q : ℕ) (x : BuyerFavorite)
    → favored_at k m q (
        if same_owner x.owner_key o.owner_key
          && x.merchant_id == merchant
          && x.product_id == product
        then record x { is_active = false }
        else x)
      ≡ (favored_at k m q x && not (same_owner o.owner_key k && merchant == m && product == q))
unfolding favored_at
hidden o merchant product k m q x = ground (
  arith,
  same_owner_via k x.owner_key o.owner_key,
  same_owner_both k x.owner_key o.owner_key,
  ==→≡ x.merchant_id merchant,
  ==→≡ x.merchant_id m,
  ==→≡ x.product_id product,
  ==→≡ x.product_id q,
)

-- Removing a favourite takes that product of that merchant out of sight of its owner and changes
-- nothing else of what anyone has in sight, where gorm has its laws.
pub delete_favorite-favored :
    (g : Gorm) (laws : IsGorm g) (o : BuyerOwner) (merchant product : ℕ) (u : Unit {0}) (s t : Db)
    → delete_favorite g o merchant product s ≡ (ok u, t)
    → (k : OwnerKey) (m q : ℕ)
    → any (favored_at k m q) (t favorites) ≡ (
        any (favored_at k m q) (s favorites)
        && not (same_owner o.owner_key k && merchant == m && product == q))
unfolding delete_favorite put
delete_favorite-favored g laws o merchant product u s t h k m q =
    bind-ok _ _ {b = u} {s = s} {t = t} h λ n s1 updated h1.
      let (rows, changed, e) = update-ok g favorites _ _ n s s1 (map_error-ok _ _ n s s1 updated) in
      let (same, counted, fits) = laws.update_lem favorites _ _ (s favorites) rows n changed in
      ap (λ (d : Db). any (favored_at k m q) (d favorites)) ((pure-ok _ u s1 t h1).1 ∙ e)
      ∙ ap (any (favored_at k m q)) same
      ∙ any-map_if_and (favored_at k m q)
          (λ r.
            same_owner r.owner_key o.owner_key
            && r.merchant_id == merchant
            && r.product_id == product)
          (λ r. record r { is_active = false })
          (not (same_owner o.owner_key k && merchant == m && product == q)) (s favorites)
          (All-every _ (hidden o merchant product k m q) (s favorites))
