-- ===== src/Database/KeepsTable.antt =====
-- Rules for actions that keep a property of one whole table, whether they succeed or fail.
use second_hand_market_backe.Base.{
  ◌≡◌, refl, sym, ap, subst, Bool, true, false, List, inl, inr, map_if, if◌then◌else◌,
}
use second_hand_market_backe.Errors.{Result, ok, err}
use second_hand_market_backe.Database.Tables.{Name, Row, Db, put}
use second_hand_market_backe.Database.Gorm.{Action, Gorm, IsGorm}
use second_hand_market_backe.Database.Actions.{lift, ◌>>=◌, write, update, transaction}
use second_hand_market_backe.Database.Keeps.{Result-cases}
use second_hand_market_backe.Database.Leaves.{Leaves}

pub record KeepsTable (n : Name) (P : List (Row n) → Type 0) {A : Type 0} (m : Action A)
    : Type 0 where
  pub stays : (s : Db) → P (s n) → P ((m s).1 n)

module _ {n : Name} {P : List (Row n) → Type 0} where
  pub KeepsTable-of_Leaves : {A : Type 0} {m : Action A} → Leaves n m → KeepsTable n P m
  KeepsTable-of_Leaves l = record { stays = λ s h. subst P (sym (l.left s)) h }

  after_bind :
      {A B : Type 0} (f : A → Action B) (r : Result A) (t : Db)
      → ((a : A) → KeepsTable n P (f a))
      → P (t n)
      → P (((lift r >>= f) t).1 n)
  unfolding ◌>>=◌ lift
  after_bind f (ok a) t k h = (k a).stays t h
  after_bind f (err e) t k h = h

  pub KeepsTable-bind :
      {A B : Type 0} {m : Action A} {f : A → Action B}
      → KeepsTable n P m
      → ((a : A) → KeepsTable n P (f a))
      → KeepsTable n P (m >>= f)
  unfolding ◌>>=◌ lift
  KeepsTable-bind {m} {f} km kf = record {
    stays = λ s h. after_bind f (m s).0 (m s).1 kf (km.stays s h);
  }

  pub KeepsTable-if :
      {A : Type 0} (b : Bool) {m m' : Action A}
      → KeepsTable n P m
      → KeepsTable n P m'
      → KeepsTable n P (if b then m else m')
  KeepsTable-if true k k' = k
  KeepsTable-if false k k' = k'

  pub KeepsTable-transaction :
      (g : Gorm) (laws : IsGorm g) {A : Type 0} {m : Action A}
      → KeepsTable n P m
      → KeepsTable n P (transaction g m)
  unfolding transaction
  KeepsTable-transaction g laws {m} k = record {
    stays = λ s h. elim (Result-cases (g.transaction m s).0) [
      | inl (a, e) ↦
          subst (λ (d : Db). P (d n))
            (ap (λ x. x.1)
              (laws.commit m s (g.transaction m s).1 a (λ i. (e i, (g.transaction m s).1))))
            (k.stays s h)
      | inr (e, failed) ↦
          subst (λ (d : Db). P (d n))
            (sym (laws.abort m s (g.transaction m s).1 e (λ i. (failed i, (g.transaction m s).1))))
            h
    ];
  }

-- The statement writes this table; that it does is seen by computing.
module _ (n : Name) (P : List (Row n) → Type 0)
    (here : (xs : List (Row n)) (s : Db) → put n xs s n ≡ xs) where
  after_write :
      {A : Type 0} (r : Result (A × List (Row n))) (s : Db)
      → P (s n)
      → ((a : A) (rows : List (Row n)) → r ≡ ok (a, rows) → P rows)
      → P ((write n r s).1 n)
  unfolding write
  after_write (ok (a, rows)) s h k = subst P (sym (here rows s)) (k a rows refl)
  after_write (err e) s h k = h

  pub KeepsTable-update :
      (g : Gorm) (laws : IsGorm g) (p : Row n → Bool) (f : Row n → Row n)
      → ((xs : List (Row n)) → P xs → P (map_if p f xs))
      → KeepsTable n P (update g n p f)
  unfolding update
  KeepsTable-update g laws p f step = record {
    stays = λ s h.
        after_write (g.update n p f (s n)) s h
          (λ k rows e. subst P (sym (laws.update_lem n p f (s n) rows k e).0) (step (s n) h));
  }
