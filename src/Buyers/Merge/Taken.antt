-- ===== src/Buyers/Merge/Taken.antt =====
-- One round of the loop that merges favourites, on the rows of the table.
use second_hand_market_backe.Base.{
  ℕ, ◌≡◌, ◌≢◌, refl, sym, ◌∙◌, ap, subst, Bool, true, false, not, ◌&&◌, ◌||◌, Option, none, some,
  List, [], ◌∷◌, ◌++◌, ◌==◌, ==→≡, ==-refl, arith, All, Among, any, map_if, inl, inr, Bool-cases,
  if◌then◌else◌, Among-any, All-every, All-weaken, All-append, All-zip, All-map_if_to, any-append,
  any-map_if_and,
}
use second_hand_market_backe.Errors.{ok}
use second_hand_market_backe.Model.Status.{Time}
use second_hand_market_backe.Model.Buyer.{of_buyer, of_device, BuyerFavorite}
use second_hand_market_backe.Database.Tables.{Db, favorites, with_id, put, Keyed}
use second_hand_market_backe.Database.Keys.{Keyed-unique}
use second_hand_market_backe.Database.Gorm.{Gorm, IsGorm}
use second_hand_market_backe.Database.Invert.{bind-ok, create-ok, update-ok, pure-ok}
use second_hand_market_backe.Database.Keeps.{AtFound}
use second_hand_market_backe.Request.{is_some}
use second_hand_market_backe.Buyers.Owner.{same_owner}
use second_hand_market_backe.Buyers.Owner.Resolved.{own_row}
use second_hand_market_backe.Buyers.Favorites.View.{favored, update_row-favored}
use second_hand_market_backe.Buyers.Merge.{
  pending_favorite, merged_favorite, revived_favorite, marked_favorite, take_favorite,
}

-- There is a row with this key, and such a row is the device's.
pub record IsDeviceRow (d : List ℕ) (xs : List BuyerFavorite) (i : ℕ) : Type 0 where
  pub owned : All (λ x. x.id ≡ i → x.owner_key ≡ of_device d) xs
  pub there : any (λ x. x.id == i) xs ≡ true

-- Every row that is still to be merged is one of these.
abbrev pub Covered : List ℕ → List BuyerFavorite → List BuyerFavorite → Type 0
Covered d todo =
    All (λ x. pending_favorite (of_device d) x ≡ true → any (λ y. y.id == x.id) todo ≡ true)

-- What the buyer's row for `src` has made of the table.
pub record IsTaken (d : List ℕ) (b : ℕ) (src : BuyerFavorite) (xs ys : List BuyerFavorite)
    : Type 0 where
  pub shown :
      (q : ℕ)
      → any (favored (of_buyer b) q) ys ≡ (any (favored (of_buyer b) q) xs || src.product_id == q)
  pub devices : (i : ℕ) → IsDeviceRow d xs i → IsDeviceRow d ys i
  pub covered : (todo : List BuyerFavorite) → Covered d todo xs → Covered d todo ys

not_there :
    (i j : ℕ) (xs : List BuyerFavorite)
    → All (λ x. x.id ≢ i) xs
    → any (λ x. x.id == j) xs ≡ true
    → i ≢ j
not_there i j [] h e q = cc
not_there i j (x ∷ xs) h e q = elim (Bool-cases (x.id == j)) [
  | inl t ↦ h.0 (==→≡ x.id j t ∙ sym q)
  | inr t ↦ not_there i j xs h.1 (rw t at e) q
]

same_test :
    (d : List ℕ) (p : BuyerFavorite → Bool) (f : BuyerFavorite → BuyerFavorite)
    → ((x : BuyerFavorite) → (f x).id ≡ x.id)
    → (i : ℕ) (x : BuyerFavorite) → ((if p x then f x else x).id == i) ≡ (x.id == i && true)
same_test d p f same_id i x = elim (Bool-cases (p x)) [
  | inl t ↦ rw t (ap (λ j. j == i) (same_id x) ∙ plain (x.id == i))
  | inr t ↦ rw t (plain (x.id == i))
]
  where
    plain : (c : Bool) → c ≡ (c && true)
    plain c = ground arith

buyers_row :
    (d : List ℕ) (b : ℕ) (x : BuyerFavorite)
    → x.owner_key ≡ of_buyer b
    → pending_favorite (of_device d) x ≢ true
unfolding same_owner
buyers_row d b x e h = no (rw e at h)
  where
    no : (false && x.is_active && not (is_some x.merge_target_buyer_id)) ≢ true
    no q = ground arith

-- An update that keeps the keys and the owners of the rows.
devices-map_if :
    (d : List ℕ) (p : BuyerFavorite → Bool) (f : BuyerFavorite → BuyerFavorite)
    → ((x : BuyerFavorite) → (f x).id ≡ x.id)
    → ((x : BuyerFavorite) → (f x).owner_key ≡ x.owner_key)
    → (xs : List BuyerFavorite) (i : ℕ) → IsDeviceRow d xs i
    → IsDeviceRow d (map_if p f xs) i
devices-map_if d p f same_id same_key xs i h = record {
  owned =
      All-map_if_to (λ x. x.id ≡ i → x.owner_key ≡ of_device d)
        (λ x. x.id ≡ i → x.owner_key ≡ of_device d) p f
        (λ x t k e. same_key x ∙ k (sym (same_id x) ∙ e)) (λ x t k. k) xs h.owned;
  there =
      any-map_if_and (λ x. x.id == i) p f true xs
        (All-every (λ x. ((if p x then f x else x).id == i) ≡ (x.id == i && true))
          (same_test d p f same_id i) xs)
      ∙ ap (λ c. c && true) h.there;
}

created-IsTaken :
    (d : List ℕ) (b : ℕ) (src made : BuyerFavorite) (i : ℕ) (xs : List BuyerFavorite)
    → made ≡ with_id favorites i (merged_favorite b src)
    → All (λ x. x.id ≢ i) xs
    → IsTaken d b src xs (xs ++ (made ∷ []))
unfolding merged_favorite favored same_owner
created-IsTaken d b src made i xs e fresh = record {
  shown = λ q.
      any-append (favored (of_buyer b) q) xs made
      ∙ ap (λ c. any (favored (of_buyer b) q) xs || c) (rw e ground (arith, ==-refl b));
  devices = λ j h. record {
    owned =
        All-append (λ x. x.id ≡ j → x.owner_key ≡ of_device d) xs (made ∷ []) h.owned
          (
            (λ q.
                absurd
                  (not_there i j xs fresh h.there (ap (λ (x : BuyerFavorite). x.id) (sym e) ∙ q))),
            tt,
          );
    there = any-append (λ x. x.id == j) xs made ∙ ap (λ c. c || made.id == j) h.there;
  };
  covered = λ todo h. All-append _ xs (made ∷ []) h ((rw e (λ q. cc)), tt);
}

revived-IsTaken :
    (d : List ℕ) (b : ℕ) (src dst : BuyerFavorite) (xs : List BuyerFavorite)
    → Keyed favorites xs
    → Among dst xs
    → dst.owner_key ≡ of_buyer b
    → dst.product_id ≡ src.product_id
    → IsTaken d b src xs (map_if (λ r. r.id == dst.id) (revived_favorite src) xs)
unfolding revived_favorite favored same_owner
revived-IsTaken d b src dst xs keyed m e1 e2 = record {
  shown = λ q.
      update_row-favored (of_buyer b) q (revived_favorite src) _ dst xs keyed m
        (rw (e1, e2) ground (arith, ==-refl b));
  devices = devices-map_if d _ _ (λ x. refl) (λ x. refl) xs;
  covered = λ todo h.
      All-map_if_to
        (λ x.
          (x.id ≡ dst.id → x ≡ dst)
          × (pending_favorite (of_device d) x ≡ true → any (λ y. y.id == x.id) todo ≡ true))
        _ _ (revived_favorite src)
        (λ x t k q. absurd (
          buyers_row d b (revived_favorite src x)
            (ap (λ (y : BuyerFavorite). y.owner_key) (k.0 (==→≡ x.id dst.id t)) ∙ e1) q))
        (λ x t k. k.1) xs
        (All-zip (λ x. x.id ≡ dst.id → x ≡ dst) _ xs (Keyed-unique favorites dst xs keyed m) h);
}

kept-IsTaken :
    (d : List ℕ) (b : ℕ) (src dst : BuyerFavorite) (xs : List BuyerFavorite)
    → Among dst xs
    → dst.owner_key ≡ of_buyer b
    → dst.product_id ≡ src.product_id
    → dst.is_active ≡ true
    → IsTaken d b src xs xs
unfolding favored same_owner
kept-IsTaken d b src dst xs m e1 e2 e3 = record {
  shown = λ q. elim (Bool-cases (src.product_id == q)) [
    | inl t ↦
        let there =
          Among-any (favored (of_buyer b) q) dst xs m
            (rw (e1, e2, e3) ground (arith, ==-refl b, t)) in
        ground (arith, there)
    | inr t ↦ ground (arith, t)
  ];
  devices = λ i h. h;
  covered = λ todo h. h;
}

-- The device's row for `src` is marked: nobody's favourites change but the device's.
pub record IsMarked (d : List ℕ) (b : ℕ) (src : BuyerFavorite) (xs ys : List BuyerFavorite)
    : Type 0 where
  pub shown : (q : ℕ) → any (favored (of_buyer b) q) ys ≡ any (favored (of_buyer b) q) xs
  pub devices : (i : ℕ) → IsDeviceRow d xs i → IsDeviceRow d ys i
  pub covered : (todo : List BuyerFavorite) → Covered d (src ∷ todo) xs → Covered d todo ys

out_of_sight :
    (d : List ℕ) (b q i : ℕ) (f : BuyerFavorite → BuyerFavorite) (x : BuyerFavorite)
    → (x.id ≡ i → x.owner_key ≡ of_device d)
    → (f x).is_active ≡ false
    → favored (of_buyer b) q (if x.id == i then f x else x) ≡ (favored (of_buyer b) q x && true)
unfolding favored same_owner
out_of_sight d b q i f x h e = elim (Bool-cases (x.id == i)) [
  | inl t ↦ rw (t, e, h (==→≡ x.id i t)) ground arith
  | inr t ↦ rw t ground arith
]

pub marked_favorite-IsMarked :
    (d : List ℕ) (b : ℕ) (now : Time) (src : BuyerFavorite) (xs : List BuyerFavorite)
    → IsDeviceRow d xs src.id
    → IsMarked d b src xs (map_if (λ r. r.id == src.id) (marked_favorite b now) xs)
unfolding marked_favorite
marked_favorite-IsMarked d b now src xs row = record {
  shown = λ q.
      any-map_if_and (favored (of_buyer b) q) (λ r. r.id == src.id) (marked_favorite b now) true xs
        (All-weaken (λ x. x.id ≡ src.id → x.owner_key ≡ of_device d) _
          (λ x k. out_of_sight d b q src.id (marked_favorite b now) x k refl) xs row.owned)
      ∙ plain (any (favored (of_buyer b) q) xs);
  devices = devices-map_if d _ _ (λ x. refl) (λ x. refl) xs;
  covered = λ todo h.
      All-map_if_to
        (λ x. pending_favorite (of_device d) x ≡ true → any (λ y. y.id == x.id) (src ∷ todo) ≡ true)
        _ _ (marked_favorite b now)
        (λ x t k q. absurd (inactive (same_owner x.owner_key (of_device d)) q))
        (λ x t k q. other x.id todo t (k q)) xs h;
}
  where
    plain : (c : Bool) → (c && true) ≡ c
    plain c = ground arith

    inactive : (c : Bool) → (c && false && false) ≢ true
    inactive c q = ground arith

    other :
        (j : ℕ) (todo : List BuyerFavorite)
        → (j == src.id) ≡ false
        → any (λ y. y.id == j) (src ∷ todo) ≡ true
        → any (λ y. y.id == j) todo ≡ true
    other j todo t q = ground arith

-- What the code does with the row that it has looked up.
pub take_favorite-IsTaken :
    (g : Gorm) (laws : IsGorm g) (d : List ℕ) (b : ℕ) (now : Time) (src : BuyerFavorite)
    (found : Option BuyerFavorite) (u : Unit {0}) (s t : Db)
    → Keyed favorites (s favorites)
    → AtFound
        (λ r.
          Among r (s favorites)
          × ((same_owner r.owner_key (of_buyer b) && r.product_id == src.product_id) ≡ true))
        found
    → take_favorite g b now src found s ≡ (ok u, t)
    → IsTaken d b src (s favorites) (t favorites)
unfolding take_favorite put
take_favorite-IsTaken g laws d b now src none u s t keyed here h =
    bind-ok _ _ {b = u} {s = s} {t = t} h λ made s1 created h1.
      let (rows, inserted, e) = create-ok g favorites (merged_favorite b src) made s s1 created in
      let (i, same, appended, fits, fresh) =
        laws.create_lem favorites (merged_favorite b src) made (s favorites) rows inserted in
      subst (IsTaken d b src (s favorites))
        (sym (ap (λ (x : Db). x favorites) ((pure-ok _ u s1 t h1).1 ∙ e) ∙ appended))
        (created-IsTaken d b src made i (s favorites) same fresh)
take_favorite-IsTaken g laws d b now src (some dst) u s t keyed here h =
    let key = own_row dst.owner_key (of_buyer b) dst.product_id src.product_id here.1 in
    elim (Bool-cases dst.is_active) [
      | inl a ↦
          let same : t ≡ s = (pure-ok tt u s t (rw a at h)).1 in
          subst (λ (x : Db). IsTaken d b src (s favorites) (x favorites)) (sym same)
            (kept-IsTaken d b src dst (s favorites) here.0 key.0 key.1 a)
      | inr a ↦ bind-ok _ _ {b = u} {s = s} {t = t} (rw a at h) λ n s1 updated h1.
          let (rows, changed, e) = update-ok g favorites _ (revived_favorite src) n s s1 updated in
          let (same, counted, fits) = laws.update_lem favorites _ _ (s favorites) rows n changed in
          subst (IsTaken d b src (s favorites))
            (sym (ap (λ (x : Db). x favorites) ((pure-ok _ u s1 t h1).1 ∙ e) ∙ same))
            (revived-IsTaken d b src dst (s favorites) keyed here.0 key.0 key.1)
    ]
