-- ===== src/Buyers/Favorites/Forgotten.antt =====
-- A favourite that is added again after a merge: `handleBuyerFavoriteAdd` leaves the columns that
-- `handleBuyerGuestMerge` has set.
use second_hand_market_backe.Base.{
  ℕ, ◌≡◌, refl, sym, ◌∙◌, ap, subst, Bool, true, false, ◌&&◌, ◌||◌, some, List, ◌∷◌, ◌==◌, ==→≡,
  ==-refl, arith, All, any, Among-keep, All-Among, All-weaken, All-zip, inl, inr, Bool-cases,
  if◌then◌else◌, any-map_if_and,
}
use second_hand_market_backe.Errors.{ok}
use second_hand_market_backe.Model.Buyer.{BuyerFavorite}
use second_hand_market_backe.Database.Tables.{Db, favorites, put, Keyed}
use second_hand_market_backe.Database.Keys.{Keyed-unique}
use second_hand_market_backe.Database.Gorm.{Gorm, IsGorm}
use second_hand_market_backe.Database.Actions.{
  ◌>>=◌, transaction, look_up, found_or_none, attempt, lift,
}
use second_hand_market_backe.Database.Invert.{
  bind-ok, map_error-ok, update-ok, pure-ok, first-found, bind-step,
}
use second_hand_market_backe.Request.{is_some}
use second_hand_market_backe.Buyers.Owner.{BuyerOwner, same_owner}
use second_hand_market_backe.Buyers.Owner.Resolved.{same_owner_refl}
use second_hand_market_backe.Buyers.Favorites.{renewed_favorite, put_favorite, add_favorite}
use second_hand_market_backe.Buyers.Favorites.View.{favored, add_favorite-favored}
use second_hand_market_backe.Buyers.Merge.{pending_favorite}

-- The row is the owner's row for the product.
abbrev pub is_row_of : BuyerOwner → ℕ → BuyerFavorite → Bool
is_row_of o product r = same_owner r.owner_key o.owner_key && r.product_id == product

-- The row is to be merged, for the product.
abbrev pub is_pending_for : BuyerOwner → ℕ → BuyerFavorite → Bool
is_pending_for o product r = pending_favorite o.owner_key r && r.product_id == product

-- Every row of the owner for the product has been merged away.
abbrev pub MergedAway : BuyerOwner → ℕ → List BuyerFavorite → Type 0
MergedAway o product =
    All (λ r. is_row_of o product r ≡ true → is_some r.merge_target_buyer_id ≡ true)

still_away :
    (o : BuyerOwner) (product merchant i : ℕ) (x : BuyerFavorite)
    → (x.id ≡ i → is_some x.merge_target_buyer_id ≡ true)
    → (is_row_of o product x ≡ true → is_some x.merge_target_buyer_id ≡ true)
    → is_pending_for o product (if x.id == i then renewed_favorite o merchant x else x)
      ≡ (is_pending_for o product x && false)
unfolding renewed_favorite
still_away o product merchant i x same own = elim (Bool-cases (x.id == i)) [
  | inl t ↦ let away = same (==→≡ x.id i t) in rw t ground (arith, away)
  | inr t ↦ rw t ground (arith, own)
]

look_up-found :
    (g : Gorm) (p : BuyerFavorite → Bool) (fav : BuyerFavorite) (rest : List BuyerFavorite) (s : Db)
    → g.select favorites p (s favorites) ≡ ok (fav ∷ rest)
    → look_up g favorites p s ≡ (ok (some fav), s)
unfolding look_up attempt ◌>>=◌ lift found_or_none
look_up-found g p fav rest s e = rw (first-found g favorites p fav rest s e) refl

-- Where every row of an owner for a product has been merged away, and the table can be read, a
-- favourite that is added again is in sight, but no row for it is to be merged, where gorm has its
-- laws and the keys of the table are unique.
pub add_favorite-forgotten :
    (g : Gorm) (laws : IsGorm g) (o : BuyerOwner) (product merchant : ℕ) (fav : BuyerFavorite)
    (rest : List BuyerFavorite) (u : Unit {0}) (s t : Db)
    → Keyed favorites (s favorites)
    → MergedAway o product (s favorites)
    → g.select favorites (is_row_of o product) (s favorites) ≡ ok (fav ∷ rest)
    → add_favorite g o product merchant s ≡ (ok u, t)
    → (any (favored o.owner_key product) (t favorites) ≡ true)
      × (any (is_pending_for o product) (t favorites) ≡ false)
unfolding add_favorite transaction put_favorite put
add_favorite-forgotten g laws o product merchant fav rest u s t keyed away read h =
    let shown = add_favorite-favored g laws o product merchant u s t keyed h o.owner_key product in
    let done = laws.commit _ s t u (map_error-ok _ _ u s t h) in
    let (m, own) =
      Among-keep (is_row_of o product) fav rest (s favorites)
        (sym (laws.select_lem favorites (is_row_of o product) (s favorites) (fav ∷ rest) read)) in
    let same = Keyed-unique favorites fav (s favorites) keyed m in
    (
      shown
          ∙ ends (any (favored o.owner_key product) (s favorites))
              (same_owner o.owner_key o.owner_key) (product == product)
              (same_owner_refl o.owner_key) (==-refl product),
      bind-ok _ _ {b = u} {s = s} {t = t}
          (sym (
              bind-step _ (put_favorite g o product merchant)
                (look_up-found g (is_row_of o product) fav rest s read))
            ∙ done)
          λ n s1 updated h1.
            let (rows, changed, e) =
              update-ok g favorites _ (renewed_favorite o merchant) n s s1 updated in
            let (after, counted, fits) =
              laws.update_lem favorites _ _ (s favorites) rows n changed in
            ap (λ (d : Db). any (is_pending_for o product) (d favorites))
              ((pure-ok _ u s1 t h1).1 ∙ e)
            ∙ ap (any (is_pending_for o product)) after
            ∙ any-map_if_and (is_pending_for o product) (λ r. r.id == fav.id)
                (renewed_favorite o merchant) false (s favorites)
                (All-weaken
                  (λ x.
                    (x.id ≡ fav.id → x ≡ fav)
                    × (is_row_of o product x ≡ true → is_some x.merge_target_buyer_id ≡ true))
                  (λ x.
                    is_pending_for o product
                      (if x.id == fav.id then renewed_favorite o merchant x else x)
                    ≡ (is_pending_for o product x && false))
                  (λ x k.
                    still_away o product merchant fav.id x
                      (λ q.
                        subst (λ y. is_some y.merge_target_buyer_id ≡ true) (sym (k.0 q))
                          (All-Among
                            (λ r.
                              is_row_of o product r ≡ true → is_some r.merge_target_buyer_id ≡ true)
                            fav (s favorites) away m own))
                      k.1)
                  (s favorites) (All-zip (λ x. x.id ≡ fav.id → x ≡ fav) _ (s favorites) same away))
            ∙ nothing (any (is_pending_for o product) (s favorites)),
    )
  where
    ends : (a b c : Bool) → b ≡ true → c ≡ true → (a || (b && c)) ≡ true
    ends a b c hb hc = ground arith

    nothing : (a : Bool) → (a && false) ≡ false
    nothing a = ground arith
