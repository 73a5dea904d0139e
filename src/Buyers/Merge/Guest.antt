-- ===== src/Buyers/Merge/Guest.antt =====
-- What the merge of a guest does to the favourites, from the first statement to the commit.
use second_hand_market_backe.Base.{
  ℕ, ◌≡◌, refl, sym, ◌∙◌, ap, subst, false, ◌&&◌, ◌||◌, Option, none, some, List, [], ◌∷◌, ◌==◌,
  any, keep, length, any-keep, any_never,
}
use second_hand_market_backe.Errors.{ok, Result}
use second_hand_market_backe.Model.Status.{Time}
use second_hand_market_backe.Model.Buyer.{
  of_buyer, of_device, BuyerFavorite, BuyerHistory, BuyerDeviceBinding,
}
use second_hand_market_backe.Database.Tables.{
  Db, Row, Holds, favorites, histories, device_bindings, put,
}
use second_hand_market_backe.Database.Gorm.{Action, Gorm, IsGorm}
use second_hand_market_backe.Database.Actions.{find_rows, pure, ◌>>=◌, ◌>>◌, transaction}
use second_hand_market_backe.Database.Atomic.{Reads-look_up, Reads-find_rows, Reads-pure}
use second_hand_market_backe.Database.Invert.{bind-ok, find_rows-ok, map_error-ok}
use second_hand_market_backe.Database.Leaves.{
  Leaves, Leaves-bind, Leaves-of_Reads, Leaves-create, Leaves-update,
}
use second_hand_market_backe.Invariant.{Sound}
use second_hand_market_backe.Buyers.Favorites.View.{favored}
use second_hand_market_backe.Buyers.Merge.{
  pending_favorite, pending_history, merge_favorites, take_history, merge_history, merge_histories,
  put_binding, bind_device, merge_guest_body, merge_guest,
}
use second_hand_market_backe.Buyers.Merge.Loop.{
  merge_favorites-IsMerged, pending_rows, keep-Covered,
}

apart_histories : (xs : List (Row histories)) (s : Db) → put histories xs s favorites ≡ s favorites
unfolding put
apart_histories xs s = refl

apart_bindings :
    (xs : List (Row device_bindings)) (s : Db) → put device_bindings xs s favorites ≡ s favorites
unfolding put
apart_bindings xs s = refl

module _ (g : Gorm) (b : ℕ) (now : Time) where
  Leaves-take_history :
      (src : BuyerHistory) (dst : Option BuyerHistory)
      → Leaves favorites (take_history g b now src dst)
  unfolding take_history
  Leaves-take_history src none =
      Leaves-bind (Leaves-create histories apart_histories g _)
        (λ _. Leaves-of_Reads (Reads-pure tt))
  Leaves-take_history src (some dst) =
      Leaves-bind (Leaves-update histories apart_histories g _ _)
        (λ _. Leaves-of_Reads (Reads-pure tt))

  Leaves-merge_history : (src : BuyerHistory) → Leaves favorites (merge_history g b now src)
  unfolding merge_history
  Leaves-merge_history src = Leaves-bind (Leaves-of_Reads (Reads-look_up g histories _)) (λ dst.
      Leaves-bind (Leaves-take_history src dst) (λ _.
        Leaves-bind (Leaves-update histories apart_histories g _ _)
          (λ _. Leaves-of_Reads (Reads-pure tt))))

  Leaves-merge_histories :
      (views : List BuyerHistory) → Leaves favorites (merge_histories g b now views)
  unfolding merge_histories
  Leaves-merge_histories [] = Leaves-of_Reads (Reads-pure tt)
  Leaves-merge_histories (src ∷ rest) =
      Leaves-bind (Leaves-merge_history src) (λ _. Leaves-merge_histories rest)

  Leaves-put_binding :
      (d : List ℕ) (found : Option BuyerDeviceBinding)
      → Leaves favorites (put_binding g b now d found)
  unfolding put_binding
  Leaves-put_binding d none =
      Leaves-bind (Leaves-create device_bindings apart_bindings g _)
        (λ _. Leaves-of_Reads (Reads-pure tt))
  Leaves-put_binding d (some x) =
      Leaves-bind (Leaves-update device_bindings apart_bindings g _ _)
        (λ _. Leaves-of_Reads (Reads-pure tt))

  Leaves-bind_device : (d : List ℕ) → Leaves favorites (bind_device g b now d)
  unfolding bind_device
  Leaves-bind_device d =
      Leaves-bind (Leaves-of_Reads (Reads-look_up g device_bindings _))
        (λ x. Leaves-put_binding d x)

  -- What follows the first loop.
  after_favorites : List ℕ → ℕ → Action (ℕ × ℕ)
  after_favorites d n = do
    views ← find_rows g histories (pending_history (of_device d))
    merge_histories g b now views
    bind_device g b now d
    pure (n, length views)

  Leaves-after_favorites : (d : List ℕ) (n : ℕ) → Leaves favorites (after_favorites d n)
  unfolding after_favorites
  Leaves-after_favorites d n =
      Leaves-bind (Leaves-of_Reads (Reads-find_rows g histories _)) (λ views.
        Leaves-bind (Leaves-merge_histories views) (λ _.
          Leaves-bind (Leaves-bind_device d) (λ _. Leaves-of_Reads (Reads-pure (n, length views)))))

  -- A guest merge that succeeds gives the buyer, besides what was in sight before, exactly the
  -- products of the device's favourites that were still to be merged, and leaves none of these to
  -- be merged again, where gorm has its laws and the rows were sound.
  pub merge_guest-favored :
      (laws : IsGorm g) (d : List ℕ) (counts : ℕ × ℕ) (s t : Db)
      → Holds Sound s
      → merge_guest g b now d s ≡ (ok counts, t)
      → ((q : ℕ)
          → any (favored (of_buyer b) q) (t favorites) ≡ (
              any (favored (of_buyer b) q) (s favorites)
              || any (λ r. pending_favorite (of_device d) r && r.product_id == q) (s favorites)))
        × (any (pending_favorite (of_device d)) (t favorites) ≡ false)
  unfolding merge_guest merge_guest_body after_favorites transaction
  merge_guest-favored laws d counts s t held h =
      let done = laws.commit _ s t counts (map_error-ok _ _ counts s t h) in
      bind-ok _ _ {b = counts} {s = s} {t = t} done λ favs s1 read h1.
        bind-ok _ _ h1 λ u s2 looped h2.
          let (selected, same) = find_rows-ok g favorites _ favs s s1 read in
          let kept = laws.select_lem favorites _ (s favorites) favs selected in
          let looped0 =
            subst (λ (x : List BuyerFavorite). merge_favorites g b now x s ≡ (ok u, s2)) kept
              (ap (merge_favorites g b now favs) (sym same) ∙ looped) in
          let (merged, empty) =
            merge_favorites-IsMerged g laws d b now
              (keep (pending_favorite (of_device d)) (s favorites)) u s s2 held
              (pending_rows d (s favorites) (held favorites).1) (keep-Covered d (s favorites))
              looped0 in
          let rest : t favorites ≡ s2 favorites =
            ap (λ (x : Result (ℕ × ℕ) × Db). x.1 favorites) (sym h2)
            ∙ (Leaves-after_favorites d (length favs)).left s2 in
          (
            (λ q.
                ap (any (favored (of_buyer b) q)) rest
                ∙ merged.shown q
                ∙ ap (λ c. any (favored (of_buyer b) q) (s favorites) || c)
                    (any-keep (pending_favorite (of_device d)) (λ r. r.product_id == q)
                      (s favorites))),
            ap (any (pending_favorite (of_device d))) rest
                ∙ any_never (pending_favorite (of_device d)) (s2 favorites) empty,
          )
