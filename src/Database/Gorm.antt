-- ===== src/Database/Gorm.antt =====
-- What the backend uses of gorm and of the database behind it: a parameter, with its documented
-- behaviour as laws. A statement may fail at any time. A transaction is one action on the database:
-- what runs beside it is not part of the model.
use second_hand_market_backe.Base.{
  ℕ, ◌≡◌, ◌≢◌, Bool, true, List, [], ◌∷◌, ◌++◌, All, keep, map_if, count_if, not,
}
use second_hand_market_backe.Errors.{Error, DbError, Result, ok, err, db}
use second_hand_market_backe.Database.Tables.{Name, Row, row_id, with_id, Db, Fits}

-- A computation over the database that may end in an error.
abbrev pub Action : Type 0 → Type 0
Action A = Db → Result A × Db

pub record Gorm : Type 1 where
  -- SELECT … WHERE p ORDER BY id
  pub select : (n : Name) → (Row n → Bool) → List (Row n) → Result (List (Row n))
  -- INSERT, which gives the row a key
  pub create : (n : Name) → Row n → List (Row n) → Result (Row n × List (Row n))
  -- UPDATE … SET f WHERE p, which answers the number of rows
  pub update :
      (n : Name) → (Row n → Bool) → (Row n → Row n) → List (Row n) → Result (ℕ × List (Row n))
  -- DELETE … WHERE p, which answers the number of rows
  pub delete : (n : Name) → (Row n → Bool) → List (Row n) → Result (ℕ × List (Row n))
  -- `db.Transaction(fn)`, and the savepoint of a nested one
  pub transaction : {A : Type 0} → Action A → Action A

pub record IsGorm (g : Gorm) : Type 1 where
  pub select_lem :
      (n : Name) (p : Row n → Bool) (xs ys : List (Row n))
      → g.select n p xs ≡ ok ys
      → ys ≡ keep p xs
  pub create_lem :
      (n : Name) (r r' : Row n) (xs ys : List (Row n))
      → g.create n r xs ≡ ok (r', ys)
      → (i : ℕ) × (r' ≡ with_id n i r)
        × (ys ≡ xs ++ (r' ∷ []))
        × Fits n r'
        × All (λ x. row_id n x ≢ i) xs
  pub update_lem :
      (n : Name) (p : Row n → Bool) (f : Row n → Row n) (xs ys : List (Row n)) (k : ℕ)
      → g.update n p f xs ≡ ok (k, ys)
      → (ys ≡ map_if p f xs) × (k ≡ count_if p xs) × All (λ x. p x ≡ true → Fits n (f x)) xs
  pub delete_lem :
      (n : Name) (p : Row n → Bool) (xs ys : List (Row n)) (k : ℕ)
      → g.delete n p xs ≡ ok (k, ys)
      → ys ≡ keep (λ x. not (p x)) xs
  -- a transaction that succeeds has done what its body did
  pub commit :
      {A : Type 0} (m : Action A) (s s' : Db) (a : A)
      → g.transaction m s ≡ (ok a, s')
      → m s ≡ (ok a, s')
  -- one that fails, in its body or at the commit, leaves no trace
  pub abort :
      {A : Type 0} (m : Action A) (s s' : Db) (e : Error) → g.transaction m s ≡ (err e, s') → s' ≡ s
  -- an error of the body is the error of the transaction
  pub body_error :
      {A : Type 0} (m : Action A) (s : Db) (e : Error)
      → (m s).0 ≡ err e
      → g.transaction m s ≡ (err e, s)
  -- a failing statement reports a database error
  pub select_error :
      (n : Name) (p : Row n → Bool) (xs : List (Row n)) (e : Error)
      → g.select n p xs ≡ err e
      → (d : DbError) × (e ≡ db d)
