-- ===== src/Database/Actions.antt =====
-- The statements that the handlers write, over the database as a whole.
use second_hand_market_backe.Base.{
  ℕ, Bool, Option, none, some, List, [], ◌∷◌, length, if◌then◌else◌,
}
use second_hand_market_backe.Errors.{
  Error, record_not_found, Result, ok, err, biz, db, BizError, is_record_not_found,
}
use second_hand_market_backe.Database.Tables.{Name, Row, put}
use second_hand_market_backe.Database.Gorm.{Action, Gorm}

module _ {A : Type 0} where
  unfoldable pub pure : A → Action A
  pure a s = (ok a, s)

  unfoldable pub raise : Error → Action A
  raise e s = (err e, s)

  unfoldable pub lift : Result A → Action A
  lift r s = (r, s)

infixl 5 ◌>>=◌ ◌>>◌
unfoldable pub ◌>>=◌ : {A B : Type 0} → Action A → (A → Action B) → Action B
◌>>=◌ m f s = let (r, s') = m s in elim r [ ok a ↦ f a s' | err e ↦ (err e, s') ]

abbrev pub ◌>>◌ : {A B : Type 0} → Action A → Action B → Action B
m >> k = m >>= λ _. k

-- `if b { return e }`
unfoldable pub fail_if : Bool → BizError → Action (Unit {0})
fail_if b e s = (if b then err (biz e) else ok tt, s)

-- The error of a statement, mapped before it is returned.
unfoldable pub map_error : {A : Type 0} → (Error → Error) → Action A → Action A
map_error f m s = let (r, s') = m s in (elim r [ ok a ↦ ok a | err e ↦ err (f e) ], s')

-- `errors.Is(err, …)` on a statement whose error is handled: the result as a value.
unfoldable pub attempt : {A : Type 0} → Action A → Action (Result A)
attempt m s = let (r, s') = m s in (ok r, s')

unfoldable pub missing_row : Error
missing_row = db (record { kind = record_not_found; message = [] })

-- `First`: the first of the rows, or `gorm.ErrRecordNotFound`.
unfoldable pub head_or_missing : {A : Type 0} → List A → Result A
unfolding missing_row
head_or_missing [] = err missing_row
head_or_missing (r ∷ rs) = ok r

-- `if err == gorm.ErrRecordNotFound { … } else if err != nil { return err }`
unfoldable pub found_or_none : {A : Type 0} → Result A → Result (Option A)
found_or_none (ok a) = ok (some a)
found_or_none (err e) = if is_record_not_found e then ok none else err e

-- A statement that writes a table: what it answers, and the new rows.
unfoldable pub write : {A : Type 0} (n : Name) → Result (A × List (Row n)) → Action A
unfolding put
write n (ok (a, rows)) s = (ok a, put n rows s)
write n (err e) s = (err e, s)

module _ (g : Gorm) where
  -- `tx.Where(p).Find(&rows)`
  unfoldable pub find_rows : (n : Name) → (Row n → Bool) → Action (List (Row n))
  find_rows n p s = (g.select n p (s n), s)

  -- `tx.Where(p).First(&row)`
  unfoldable pub first : (n : Name) → (Row n → Bool) → Action (Row n)
  unfolding find_rows head_or_missing ◌>>=◌ lift
  first n p = do rows ← find_rows n p; lift (head_or_missing rows)

  -- `First` whose missing row is a case of its own.
  unfoldable pub look_up : (n : Name) → (Row n → Bool) → Action (Option (Row n))
  unfolding ◌>>=◌ lift
  look_up n p = do found ← attempt (first n p); lift (found_or_none found)

  -- `tx.Model(…).Where(p).Count(&n)`
  unfoldable pub count : (n : Name) → (Row n → Bool) → Action ℕ
  unfolding find_rows ◌>>=◌ pure
  count n p = do rows ← find_rows n p; pure (length rows)

  -- `tx.Create(&row)`; the result is the row with its key.
  unfoldable pub create : (n : Name) → Row n → Action (Row n)
  unfolding write
  create n r s = write n (g.create n r (s n)) s

  -- `tx.Model(…).Where(p).Updates(f)`; the result is `RowsAffected`.
  unfoldable pub update : (n : Name) → (Row n → Bool) → (Row n → Row n) → Action ℕ
  unfolding write
  update n p f s = write n (g.update n p f (s n)) s

  -- `tx.Where(p).Delete(…)`, of a row type without `deleted_at`.
  unfoldable pub delete : (n : Name) → (Row n → Bool) → Action ℕ
  unfolding write
  delete n p s = write n (g.delete n p (s n)) s

  unfoldable pub transaction : {A : Type 0} → Action A → Action A
  transaction m = g.transaction m
