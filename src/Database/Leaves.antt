-- ===== src/Database/Leaves.antt =====
-- Actions that leave one table as it is.
use second_hand_market_backe.Base.{◌≡◌, refl, ◌∙◌, ap, Bool, List}
use second_hand_market_backe.Errors.{Result, ok, err}
use second_hand_market_backe.Database.Tables.{Name, Row, Db, put}
use second_hand_market_backe.Database.Gorm.{Action, Gorm}
use second_hand_market_backe.Database.Actions.{lift, ◌>>=◌, attempt, write, create, update}
use second_hand_market_backe.Database.Atomic.{Reads}

pub record Leaves (n : Name) {A : Type 0} (m : Action A) : Type 0 where
  pub left : (s : Db) → (m s).1 n ≡ s n

module _ {n : Name} where
  pub Leaves-of_Reads : {A : Type 0} {m : Action A} → Reads m → Leaves n m
  Leaves-of_Reads r = record { left = λ s. ap (λ (x : Db). x n) (r.unchanged s) }

  left_from :
      {A B : Type 0} (f : A → Action B) (r : Result A) (t : Db)
      → ((a : A) → Leaves n (f a))
      → ((lift r >>= f) t).1 n ≡ t n
  unfolding ◌>>=◌ lift
  left_from f (ok a) t k = (k a).left t
  left_from f (err e) t k = refl

  pub Leaves-bind :
      {A B : Type 0} {m : Action A} {f : A → Action B}
      → Leaves n m
      → ((a : A) → Leaves n (f a))
      → Leaves n (m >>= f)
  unfolding ◌>>=◌ lift
  Leaves-bind {m} {f} lm lf = record { left = λ s. left_from f (m s).0 (m s).1 lf ∙ lm.left s }

  pub Leaves-attempt : {A : Type 0} {m : Action A} → Leaves n m → Leaves n (attempt m)
  unfolding attempt
  Leaves-attempt l = record { left = l.left }

  -- A statement on another table; that it is another one is seen by computing.
  module _ (other : Name) (apart : (xs : List (Row other)) (s : Db) → put other xs s n ≡ s n) where
    written :
        {A : Type 0} (r : Result (A × List (Row other))) (s : Db) → (write other r s).1 n ≡ s n
    unfolding write
    written (ok (a, rows)) s = apart rows s
    written (err e) s = refl

    pub Leaves-create : (g : Gorm) (r : Row other) → Leaves n (create g other r)
    unfolding create
    Leaves-create g r = record { left = λ s. written (g.create other r (s other)) s }

    pub Leaves-update :
        (g : Gorm) (p : Row other → Bool) (f : Row other → Row other)
        → Leaves n (update g other p f)
    unfolding update
    Leaves-update g p f = record { left = λ s. written (g.update other p f (s other)) s }
