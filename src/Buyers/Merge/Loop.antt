-- ===== src/Buyers/Merge/Loop.antt =====
-- The whole merge of a device's favourites into a buyer's.
use second_hand_market_backe.Base.{
  ℕ, ◌≡◌, sym, ◌∙◌, ap, subst, Bool, true, false, ◌||◌, Option, List, [], ◌∷◌, ◌==◌, arith, All,
  Among, any, keep, All-weaken, All-keep, Among-itself, Among-kept, Among-any, ==-refl,
}
use second_hand_market_backe.Errors.{ok, Result}
use second_hand_market_backe.Model.Status.{Time}
use second_hand_market_backe.Model.Buyer.{of_buyer, of_device, BuyerFavorite}
use second_hand_market_backe.Database.Tables.{Db, Holds, favorites, Keyed, put}
use second_hand_market_backe.Database.Keys.{Keyed-unique}
use second_hand_market_backe.Database.Gorm.{Gorm, IsGorm}
use second_hand_market_backe.Database.Atomic.{Reads-look_up}
use second_hand_market_backe.Database.Invert.{bind-ok, update-ok, pure-ok}
use second_hand_market_backe.Database.KeepsAt.{look_up-ok}
use second_hand_market_backe.Invariant.{Sound}
use second_hand_market_backe.Buyers.Owner.{same_owner}
use second_hand_market_backe.Buyers.Owner.Resolved.{same_owner→≡}
use second_hand_market_backe.Buyers.Favorites.View.{favored}
use second_hand_market_backe.Buyers.Keeps.{Keeps-merge_favorite}
use second_hand_market_backe.Buyers.Merge.{
  pending_favorite, marked_favorite, merge_favorite, merge_favorites, take_favorite,
}
use second_hand_market_backe.Buyers.Merge.Taken.{
  IsDeviceRow, Covered, take_favorite-IsTaken, marked_favorite-IsMarked,
}

-- What a round, or several, have made of the table: the buyer has in sight what is `added` besides,
-- and what was to be merged has become less.
pub record IsMerged (d : List ℕ) (b : ℕ) (done : List BuyerFavorite) (xs ys : List BuyerFavorite)
    : Type 0 where
  pub shown :
      (q : ℕ)
      → any (favored (of_buyer b) q) ys
        ≡ (any (favored (of_buyer b) q) xs || any (λ r. r.product_id == q) done)
  pub devices : (i : ℕ) → IsDeviceRow d xs i → IsDeviceRow d ys i

module _ (g : Gorm) (laws : IsGorm g) (d : List ℕ) (b : ℕ) (now : Time) where
  -- One round of the loop.
  merge_favorite-IsMerged :
      (src : BuyerFavorite) (u : Unit {0}) (s t : Db)
      → Keyed favorites (s favorites)
      → IsDeviceRow d (s favorites) src.id
      → merge_favorite g b now src s ≡ (ok u, t)
      → IsMerged d b (src ∷ []) (s favorites) (t favorites)
        × ((todo : List BuyerFavorite)
            → Covered d (src ∷ todo) (s favorites)
            → Covered d todo (t favorites))
  unfolding merge_favorite put
  merge_favorite-IsMerged src u s t keyed row h =
      bind-ok _ _ {b = u} {s = s} {t = t} h λ found s1 looked h1. bind-ok _ _ h1 λ v s2 put_in h2.
        bind-ok _ _ h2 λ n s3 updated h3.
          let same = (Reads-look_up g favorites _).unchanged s in
          let unchanged : s1 ≡ s =
            ap (λ (x : Result (Option BuyerFavorite) × Db). x.1) (sym looked) ∙ same in
          let taken =
            take_favorite-IsTaken g laws d b now src found v s s2 keyed
              (look_up-ok g laws favorites _ found s s1 looked)
              (ap (take_favorite g b now src found) (sym unchanged) ∙ put_in) in
          let (rows, changed, e) =
            update-ok g favorites _ (marked_favorite b now) n s2 s3 updated in
          let (marks, counted, fits) =
            laws.update_lem favorites _ _ (s2 favorites) rows n changed in
          let after = ap (λ (x : Db). x favorites) ((pure-ok _ u s3 t h3).1 ∙ e) ∙ marks in
          let marked =
            marked_favorite-IsMarked d b now src (s2 favorites) (taken.devices src.id row) in
          (
            record {
              shown = λ q.
                  ap (any (favored (of_buyer b) q)) after
                  ∙ marked.shown q
                  ∙ taken.shown q
                  ∙ ap (λ c. any (favored (of_buyer b) q) (s favorites) || c)
                      (alone (src.product_id == q));
              devices = λ i k.
                  subst (λ ys. IsDeviceRow d ys i) (sym after)
                    (marked.devices i (taken.devices i k));
            },
            λ todo k.
                subst (Covered d todo) (sym after)
                  (marked.covered todo (taken.covered (src ∷ todo) k)),
          )
    where
      alone : (c : Bool) → c ≡ (c || false)
      alone c = ground arith

  -- The loop, over rows of the device that are still to be merged.
  pub merge_favorites-IsMerged :
      (todo : List BuyerFavorite) (u : Unit {0}) (s t : Db)
      → Holds Sound s
      → All (λ r. IsDeviceRow d (s favorites) r.id) todo
      → Covered d todo (s favorites)
      → merge_favorites g b now todo s ≡ (ok u, t)
      → IsMerged d b todo (s favorites) (t favorites) × Covered d [] (t favorites)
  unfolding merge_favorites
  merge_favorites-IsMerged [] u s t held rows todo h =
      let same : t ≡ s = (pure-ok tt u s t h).1 in
      (
        record {
          shown = λ q.
              ap (λ (x : Db). any (favored (of_buyer b) q) (x favorites)) same
              ∙ alone (any (favored (of_buyer b) q) (s favorites));
          devices = λ i k. subst (λ (x : Db). IsDeviceRow d (x favorites) i) (sym same) k;
        },
        subst (λ (x : Db). Covered d [] (x favorites)) (sym same) todo,
      )
    where
      alone : (c : Bool) → c ≡ (c || false)
      alone c = ground arith
  merge_favorites-IsMerged (src ∷ rest) u s t held rows todo h =
      bind-ok _ _ {b = u} {s = s} {t = t} h λ v s1 first_round h1.
        let (one, left) =
          merge_favorite-IsMerged src v s s1 (held favorites).1 rows.0 first_round in
        let held1 =
          subst (Holds Sound) (ap (λ (x : Result (Unit {0}) × Db). x.1) first_round)
            ((Keeps-merge_favorite g laws b now src).at s held).0 in
        let rows1 =
          All-weaken (λ r. IsDeviceRow d (s favorites) r.id)
            (λ r. IsDeviceRow d (s1 favorites) r.id) (λ r. one.devices r.id) rest rows.1 in
        let (more, none_left) =
          merge_favorites-IsMerged rest u s1 t held1 rows1 (left rest todo) h1 in
        (
          record {
            shown = λ q.
                more.shown q
                ∙ ap (λ c. c || any (λ r. r.product_id == q) rest) (one.shown q)
                ∙ joined (any (favored (of_buyer b) q) (s favorites)) (src.product_id == q)
                    (any (λ r. r.product_id == q) rest);
            devices = λ i k. more.devices i (one.devices i k);
          },
          none_left,
        )
    where
      joined : (x y z : Bool) → (x || (y || false) || z) ≡ (x || (y || z))
      joined x y z = ground arith

-- What is read for the loop are rows of the device, and all that is to be merged.
pub pending_rows :
    (d : List ℕ) (xs : List BuyerFavorite)
    → Keyed favorites xs
    → All (λ r. IsDeviceRow d xs r.id) (keep (pending_favorite (of_device d)) xs)
pending_rows d xs keyed =
    All-weaken (λ r. (pending_favorite (of_device d) r ≡ true) × Among r xs)
      (λ r. IsDeviceRow d xs r.id)
      (λ r k. record {
        owned =
            All-weaken (λ x. x.id ≡ r.id → x ≡ r) (λ x. x.id ≡ r.id → x.owner_key ≡ of_device d)
              (λ x one e.
                ap (λ (y : BuyerFavorite). y.owner_key) (one e)
                ∙ same_owner→≡ r.owner_key (of_device d) (owned r k.0))
              xs (Keyed-unique favorites r xs keyed k.1);
        there = Among-any (λ x. x.id == r.id) r xs k.1 (==-refl r.id);
      })
      (keep (pending_favorite (of_device d)) xs)
      (All-keep (λ x. Among x xs) (pending_favorite (of_device d)) xs (Among-itself xs))
  where
    owned :
        (r : BuyerFavorite)
        → pending_favorite (of_device d) r ≡ true
        → same_owner r.owner_key (of_device d) ≡ true
    owned r h = ground arith

pub keep-Covered :
    (d : List ℕ) (xs : List BuyerFavorite) → Covered d (keep (pending_favorite (of_device d)) xs) xs
keep-Covered d xs =
    All-weaken (λ x. Among x xs) _
      (λ x m t.
        Among-any (λ y. y.id == x.id) x (keep (pending_favorite (of_device d)) xs)
          (Among-kept (pending_favorite (of_device d)) x xs t m) (==-refl x.id))
      xs (Among-itself xs)
