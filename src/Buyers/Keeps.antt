-- ===== src/Buyers/Keeps.antt =====
-- The buyers' handlers keep the rows sound: the columns of an owner agree with the key, and the
-- first view is not after the last.
use second_hand_market_backe.Base.{
  ℕ, ◌≡◌, refl, subst, sym, Bool, true, false, ◌&&◌, not, Option, none, some, List, [], ◌∷◌, ◌==◌,
  ==→≡, arith, All, Among, if◌then◌else◌, Bool-cases, inl, inr,
}
use second_hand_market_backe.Base.Int.{pos, ltb_ℤ, ◌≤ℤ◌, ◌+64◌, -ℤ_parts}
use second_hand_market_backe.Model.Status.{Time}
use second_hand_market_backe.Model.Buyer.{BuyerFavorite, BuyerHistory, BuyerDeviceBinding}
use second_hand_market_backe.Database.Tables.{Db, favorites, histories, device_bindings, Holds}
use second_hand_market_backe.Database.Gorm.{Gorm, IsGorm}
use second_hand_market_backe.Database.Atomic.{Reads-look_up}
use second_hand_market_backe.Database.Keeps.{
  Keeps, Any, AtFound, Keeps-bind, Keeps-pure, Keeps-if, Keeps-map_error, Keeps-find_rows,
  Keeps-look_up, Keeps-create, Keeps-update, Keeps-transaction,
}
use second_hand_market_backe.Database.KeepsAt.{
  KeepsAt, KeepsAt-read, KeepsAt-bind, KeepsAt-here, KeepsAt-update_row, Keeps-everywhere,
  look_up-ok,
}
use second_hand_market_backe.Invariant.{Sound, Owned, IsOwnHistory}
use second_hand_market_backe.Buyers.Owner.{BuyerOwner, same_owner}
use second_hand_market_backe.Buyers.Owner.Resolved.{IsOwner, own_row}
use second_hand_market_backe.Buyers.Favorites.{
  new_favorite, renewed_favorite, put_favorite, add_favorite, delete_favorite,
}
use second_hand_market_backe.Buyers.Histories.{
  new_history, viewed_history, is_same_view, put_view, view_history, delete_histories,
}
use second_hand_market_backe.Buyers.Merge.{
  revived_favorite, marked_favorite, merged_favorite, merged_history, joined_history, take_favorite,
  merge_favorite, merge_favorites, take_history, merge_history, merge_histories, put_binding,
  bind_device, merge_guest_body, merge_guest,
}

not_before : (t : Time) → t ≤ℤ t
not_before t = ground arith

-- An active row is viewed again 30 seconds later or more.
later_view :
    (v : BuyerHistory) (viewed_at : Time)
    → is_same_view v viewed_at ≡ false
    → v.first_viewed_at ≤ℤ v.last_viewed_at
    → (if v.is_active then v.first_viewed_at else viewed_at) ≤ℤ viewed_at
unfolding is_same_view
later_view v viewed_at e h = ground (arith, -ℤ_parts viewed_at v.last_viewed_at)

joined_views :
    (src dst : BuyerHistory)
    → src.first_viewed_at ≤ℤ src.last_viewed_at
    → dst.first_viewed_at ≤ℤ dst.last_viewed_at
    → (if ltb_ℤ src.first_viewed_at dst.first_viewed_at
        then src.first_viewed_at
        else dst.first_viewed_at)
      ≤ℤ (if ltb_ℤ dst.last_viewed_at src.last_viewed_at
          then src.last_viewed_at
          else dst.last_viewed_at)
joined_views src dst h k = ground arith

sound_row :
    (p : BuyerHistory → Bool) (o : Option BuyerHistory)
    → AtFound (λ r. (p r ≡ true) × IsOwnHistory r) o
    → AtFound IsOwnHistory o
sound_row p none q = tt
sound_row p (some r) q = q.1

sound_rows :
    (p : BuyerHistory → Bool) (rs : List BuyerHistory)
    → All (λ r. (p r ≡ true) × IsOwnHistory r) rs
    → All IsOwnHistory rs
sound_rows p [] h = tt
sound_rows p (r ∷ rs) h = (h.0.1, sound_rows p rs h.1)

module _ (g : Gorm) (laws : IsGorm g) where
  module _ (o : BuyerOwner) (owner : IsOwner o) where
    KeepsAt-put_favorite :
        (product_id merchant_id : ℕ) (s : Db) (found : Option BuyerFavorite)
        → Holds Sound s
        → AtFound
            (λ r.
              Among r (s favorites)
              × ((same_owner r.owner_key o.owner_key && r.product_id == product_id) ≡ true))
            found
        → KeepsAt Sound s (put_favorite g o product_id merchant_id found) Any
    unfolding put_favorite new_favorite renewed_favorite
    KeepsAt-put_favorite product_id merchant_id s none h q = KeepsAt-here h (
        Keeps-bind (Keeps-create g laws Sound favorites _ (λ i _. record { owned = owner }))
          (λ _ _. Keeps-pure tt tt))
    KeepsAt-put_favorite product_id merchant_id s (some fav) h q =
        let key = own_row fav.owner_key o.owner_key fav.product_id product_id q.1 in
        KeepsAt-bind
          (KeepsAt-update_row g laws favorites _ _ fav h q.0 (λ x e. ==→≡ x.id fav.id e)
            (λ _ _. record {
              owned = subst (λ k. Owned o.owner_type k o.buyer_id o.device_id) (sym key.0) owner;
            })
            (λ x _. refl))
          (λ _ _. Keeps-pure tt tt)

    pub Keeps-add_favorite :
        (product_id merchant_id : ℕ) → Keeps Sound (add_favorite g o product_id merchant_id) Any
    unfolding add_favorite
    Keeps-add_favorite product_id merchant_id = Keeps-map_error _ (
        Keeps-transaction g laws Sound (
          Keeps-everywhere (λ s h. KeepsAt-read (Reads-look_up g favorites _) h (λ found e.
            KeepsAt-put_favorite product_id merchant_id s found h
              (look_up-ok g laws favorites _ found s s e)))))

    KeepsAt-put_view :
        (product_id merchant_id : ℕ) (viewed_at : Time) (s : Db) (found : Option BuyerHistory)
        → Holds Sound s
        → AtFound
            (λ r.
              Among r (s histories)
              × ((same_owner r.owner_key o.owner_key && r.product_id == product_id) ≡ true))
            found
        → KeepsAt Sound s (put_view g o product_id merchant_id viewed_at found) Any
    unfolding put_view new_history viewed_history
    KeepsAt-put_view product_id merchant_id viewed_at s none h q = KeepsAt-here h (
        Keeps-bind
          (Keeps-create g laws Sound histories (new_history o product_id merchant_id viewed_at)
            (λ i _. record { owned = owner; ordered = not_before viewed_at }))
          (λ _ _. Keeps-pure (pos 1, viewed_at) tt))
    KeepsAt-put_view product_id merchant_id viewed_at s (some v) h q =
        let key = own_row v.owner_key o.owner_key v.product_id product_id q.1 in
        elim (Bool-cases (is_same_view v viewed_at)) [
          | inl e ↦ rw e (KeepsAt-here h (Keeps-pure _ tt))
          | inr e ↦ rw e (
              KeepsAt-bind
                (KeepsAt-update_row g laws histories _ _ v h q.0 (λ x e. ==→≡ x.id v.id e)
                  (λ sound _. record {
                    owned = sound.owned;
                    ordered = later_view v viewed_at e sound.ordered;
                  })
                  (λ x _. refl))
                (λ _ _.
                  Keeps-pure (if v.is_active then v.view_count +64 pos 1 else pos 1, viewed_at) tt))
        ]

    pub Keeps-view_history :
        (product_id merchant_id : ℕ) (viewed_at : Time)
        → Keeps Sound (view_history g o product_id merchant_id viewed_at) Any
    unfolding view_history
    Keeps-view_history product_id merchant_id viewed_at = Keeps-map_error _ (
        Keeps-transaction g laws Sound (
          Keeps-everywhere (λ s h. KeepsAt-read (Reads-look_up g histories _) h (λ found e.
            KeepsAt-put_view product_id merchant_id viewed_at s found h
              (look_up-ok g laws histories _ found s s e)))))

  -- Rows are put out of sight as they are.
  pub Keeps-delete_favorite :
      (o : BuyerOwner) (merchant_id product_id : ℕ)
      → Keeps Sound (delete_favorite g o merchant_id product_id) Any
  unfolding delete_favorite
  Keeps-delete_favorite o merchant_id product_id =
      Keeps-bind
        (Keeps-map_error _ (
          Keeps-update g laws Sound favorites _ _ (λ x _ i _. record { owned = i.owned })
            (λ x _. refl)))
        (λ _ _. Keeps-pure tt tt)

  pub Keeps-delete_histories :
      (o : BuyerOwner) (merchant_id : ℕ) (matches : ℕ → Bool)
      → Keeps Sound (delete_histories g o merchant_id matches) Any
  unfolding delete_histories
  Keeps-delete_histories o merchant_id matches =
      Keeps-bind
        (Keeps-map_error _ (
          Keeps-update g laws Sound histories _ _
            (λ x _ i _. record { owned = i.owned; ordered = i.ordered }) (λ x _. refl)))
        (λ _ _. Keeps-pure tt tt)

  module _ (buyer_id : ℕ) (now : Time) where
    Keeps-take_favorite :
        (src : BuyerFavorite) (dst : Option BuyerFavorite)
        → Keeps Sound (take_favorite g buyer_id now src dst) Any
    unfolding take_favorite merged_favorite revived_favorite
    Keeps-take_favorite src none =
        Keeps-bind (Keeps-create g laws Sound favorites _ (λ i _. record { owned = (refl, refl) }))
          (λ _ _. Keeps-pure tt tt)
    Keeps-take_favorite src (some dst) =
        Keeps-if (not dst.is_active) _ _
          (λ _.
            Keeps-bind
              (Keeps-update g laws Sound favorites _ _ (λ x _ i _. record { owned = i.owned })
                (λ x _. refl))
              (λ _ _. Keeps-pure tt tt))
          (λ _. Keeps-pure tt tt)

    pub Keeps-merge_favorite :
        (src : BuyerFavorite) → Keeps Sound (merge_favorite g buyer_id now src) Any
    unfolding merge_favorite marked_favorite
    Keeps-merge_favorite src = Keeps-bind (Keeps-look_up g laws Sound favorites _) (λ dst _.
        Keeps-bind (Keeps-take_favorite src dst) (λ _ _.
          Keeps-bind
            (Keeps-update g laws Sound favorites _ _ (λ x _ i _. record { owned = i.owned })
              (λ x _. refl))
            (λ _ _. Keeps-pure tt tt)))

    Keeps-merge_favorites :
        (favs : List BuyerFavorite) → Keeps Sound (merge_favorites g buyer_id now favs) Any
    unfolding merge_favorites
    Keeps-merge_favorites [] = Keeps-pure tt tt
    Keeps-merge_favorites (src ∷ rest) =
        Keeps-bind (Keeps-merge_favorite src) (λ _ _. Keeps-merge_favorites rest)

    Keeps-take_history :
        (src : BuyerHistory) (dst : Option BuyerHistory)
        → IsOwnHistory src
        → AtFound IsOwnHistory dst
        → Keeps Sound (take_history g buyer_id now src dst) Any
    unfolding take_history merged_history joined_history
    Keeps-take_history src none i q =
        Keeps-bind
          (Keeps-create g laws Sound histories _
            (λ _ _. record { owned = (refl, refl); ordered = i.ordered }))
          (λ _ _. Keeps-pure tt tt)
    Keeps-take_history src (some dst) i q =
        Keeps-bind
          (Keeps-update g laws Sound histories _ _
            (λ x _ k _. record {
              owned = k.owned;
              ordered = joined_views src dst i.ordered q.ordered;
            })
            (λ x _. refl))
          (λ _ _. Keeps-pure tt tt)

    Keeps-merge_history :
        (src : BuyerHistory) → IsOwnHistory src → Keeps Sound (merge_history g buyer_id now src) Any
    unfolding merge_history
    Keeps-merge_history src h = Keeps-bind (Keeps-look_up g laws Sound histories _) (λ dst q.
        Keeps-bind (Keeps-take_history src dst h (sound_row _ dst q)) (λ _ _.
          Keeps-bind
            (Keeps-update g laws Sound histories _ _
              (λ x _ i _. record { owned = i.owned; ordered = i.ordered }) (λ x _. refl))
            (λ _ _. Keeps-pure tt tt)))

    Keeps-merge_histories :
        (views : List BuyerHistory)
        → All IsOwnHistory views
        → Keeps Sound (merge_histories g buyer_id now views) Any
    unfolding merge_histories
    Keeps-merge_histories [] h = Keeps-pure tt tt
    Keeps-merge_histories (src ∷ rest) h =
        Keeps-bind (Keeps-merge_history src h.0) (λ _ _. Keeps-merge_histories rest h.1)

    Keeps-put_binding :
        (device_id : List ℕ) (b : Option BuyerDeviceBinding)
        → Keeps Sound (put_binding g buyer_id now device_id b) Any
    unfolding put_binding
    Keeps-put_binding device_id none =
        Keeps-bind (Keeps-create g laws Sound device_bindings _ (λ _ _. tt))
          (λ _ _. Keeps-pure tt tt)
    Keeps-put_binding device_id (some b) =
        Keeps-bind (Keeps-update g laws Sound device_bindings _ _ (λ _ _ _ _. tt) (λ x _. refl))
          (λ _ _. Keeps-pure tt tt)

    Keeps-bind_device :
        (device_id : List ℕ) → Keeps Sound (bind_device g buyer_id now device_id) Any
    unfolding bind_device
    Keeps-bind_device device_id =
        Keeps-bind (Keeps-look_up g laws Sound device_bindings _)
          (λ b _. Keeps-put_binding device_id b)

    pub Keeps-merge_guest :
        (device_id : List ℕ) → Keeps Sound (merge_guest g buyer_id now device_id) Any
    unfolding merge_guest merge_guest_body
    Keeps-merge_guest device_id = Keeps-map_error _ (
        Keeps-transaction g laws Sound (
          Keeps-bind (Keeps-find_rows g laws Sound favorites _) (λ favs _.
            Keeps-bind (Keeps-merge_favorites favs) (λ _ _.
              Keeps-bind (Keeps-find_rows g laws Sound histories _) (λ views sound.
                Keeps-bind (Keeps-merge_histories views (sound_rows _ views sound))
                  (λ _ _. Keeps-bind (Keeps-bind_device device_id) (λ _ _. Keeps-pure _ tt)))))))
