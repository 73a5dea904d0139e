-- ===== src/Database/Invert.antt =====
-- What a step that succeeded has done, statement by statement.
use second_hand_market_backe.Base.{
  ℕ, ◌≡◌, refl, Bool, true, false, List, length, ◌∷◌, [], arith, ap, keep, if◌then◌else◌, sym, ◌∙◌,
}
use second_hand_market_backe.Errors.{Error, Result, ok, err, BizError}
use second_hand_market_backe.Database.Tables.{Name, Row, Db, put}
use second_hand_market_backe.Database.Gorm.{Action, Gorm, IsGorm}
use second_hand_market_backe.Database.Actions.{
  pure, lift, ◌>>=◌, fail_if, map_error, head_or_missing, find_rows, first, write, create, update,
  count,
}

module _ {A : Type 0} where
  pub pure-ok : (a b : A) (s t : Db) → pure a s ≡ (ok b, t) → (a ≡ b) × (t ≡ s)
  unfolding pure
  pure-ok a b s t h = ground arith

  pub lift-ok : (r : Result A) (b : A) (s t : Db) → lift r s ≡ (ok b, t) → (r ≡ ok b) × (t ≡ s)
  unfolding lift
  lift-ok r b s t h = ground arith

  map_error_from :
      (f : Error → Error) (r : Result A) (a : A)
      → (elim r [ ok x ↦ ok x | err e ↦ err (f e) ]) ≡ ok a
      → r ≡ ok a
  map_error_from f (ok x) a h = h
  map_error_from f (err e) a h = cc

  pub map_error-ok :
      (f : Error → Error) (m : Action A) (a : A) (s t : Db)
      → map_error f m s ≡ (ok a, t)
      → m s ≡ (ok a, t)
  unfolding map_error
  map_error-ok f m a s t h =
      let e = map_error_from f (m s).0 a (ap (λ (x : Result A × Db). x.0) h) in λ i. (e i, (h i).1)

pub fail_if-ok :
    (b : Bool) (e : BizError) (u : Unit {0}) (s t : Db)
    → fail_if b e s ≡ (ok u, t)
    → (b ≡ false) × (t ≡ s)
unfolding fail_if
fail_if-ok b e u s t h = ground arith

module _ {A B : Type 0} where
  bind_from :
      (f : A → Action B) (r : Result A) (u : Db) (b : B) (t : Db)
      → (lift r >>= f) u ≡ (ok b, t)
      → (a : A) × (r ≡ ok a) × (f a u ≡ (ok b, t))
  unfolding ◌>>=◌ lift
  bind_from f (ok a) u b t h = (a, refl, h)
  bind_from f (err e) u b t h = cc

  -- A block that succeeds has gone through its first step: what follows may take the values and
  -- states in between as unknowns.
  pub bind-ok :
      {C : Type 0} (m : Action A) (f : A → Action B) {b : B} {s t : Db}
      → (m >>= f) s ≡ (ok b, t)
      → ((a : A) (u : Db) → m s ≡ (ok a, u) → f a u ≡ (ok b, t) → C)
      → C
  unfolding ◌>>=◌ lift
  bind-ok m f {b} {s} {t} h k =
      let (a, e, rest) = bind_from f (m s).0 (m s).1 b t h in k a (m s).1 (λ i. (e i, (m s).1)) rest

write_from :
    {A : Type 0} (n : Name) (r : Result (A × List (Row n))) (a : A) (s t : Db)
    → write n r s ≡ (ok a, t)
    → (rows : List (Row n)) × (r ≡ ok (a, rows)) × (t ≡ put n rows s)
unfolding write
write_from n (ok (x, rows)) a s t h = (rows, ground arith, ground arith)
write_from n (err e) a s t h = cc

module _ (g : Gorm) (n : Name) where
  pub find_rows-ok :
      (p : Row n → Bool) (rows : List (Row n)) (s t : Db)
      → find_rows g n p s ≡ (ok rows, t)
      → (g.select n p (s n) ≡ ok rows) × (t ≡ s)
  unfolding find_rows
  find_rows-ok p rows s t h = ground arith

  pub create-ok :
      (r r' : Row n) (s t : Db)
      → create g n r s ≡ (ok r', t)
      → (rows : List (Row n)) × (g.create n r (s n) ≡ ok (r', rows)) × (t ≡ put n rows s)
  unfolding create
  create-ok r r' s t h = write_from n (g.create n r (s n)) r' s t h

  pub update-ok :
      (p : Row n → Bool) (f : Row n → Row n) (k : ℕ) (s t : Db)
      → update g n p f s ≡ (ok k, t)
      → (rows : List (Row n)) × (g.update n p f (s n) ≡ ok (k, rows)) × (t ≡ put n rows s)
  unfolding update
  update-ok p f k s t h = write_from n (g.update n p f (s n)) k s t h

head_or_missing-ok :
    {A : Type 0} (xs : List A) (a : A)
    → head_or_missing xs ≡ ok a
    → (rest : List A) × (xs ≡ a ∷ rest)
unfolding head_or_missing
head_or_missing-ok [] a h = cc
head_or_missing-ok (x ∷ xs) a h = (xs, ground arith)

-- A row that is found is the first of those that pass the test.
pub first-ok :
    (g : Gorm) (laws : IsGorm g) (n : Name) (p : Row n → Bool) (r : Row n) (s t : Db)
    → first g n p s ≡ (ok r, t)
    → (rest : List (Row n)) × (keep p (s n) ≡ r ∷ rest) × (t ≡ s)
unfolding first
first-ok g laws n p r s t h =
    bind-ok (find_rows g n p) (λ rows. lift (head_or_missing rows)) {b = r} {s = s} {t = t} h
      λ rows u read h1.
        let (selected, same) = find_rows-ok g n p rows s u read in
        let kept = laws.select_lem n p (s n) rows selected in
        let (rest, split) = head_or_missing-ok rows r (lift-ok _ r u t h1).0 in
        (rest, sym kept ∙ split, (lift-ok _ r u t h1).1 ∙ same)

pub first-found :
    (g : Gorm) (n : Name) (p : Row n → Bool) (r : Row n) (rest : List (Row n)) (s : Db)
    → g.select n p (s n) ≡ ok (r ∷ rest)
    → first g n p s ≡ (ok r, s)
unfolding first
first-found g n p r rest s h = rw h refl

-- One step of a block, forwards.
pub bind-step :
    {A B : Type 0} (m : Action A) (f : A → Action B) {s u : Db} {a : A}
    → m s ≡ (ok a, u)
    → (m >>= f) s ≡ f a u
unfolding ◌>>=◌
bind-step m f {s} {u} {a} e =
    ap (λ (x : Result _ × Db). (elim x.0 [ ok b ↦ f b x.1 | err y ↦ (err y, x.1) ])) e

pub map_error-step :
    {A : Type 0} (f : Error → Error) (m : Action A) {s u : Db} {a : A}
    → m s ≡ (ok a, u)
    → map_error f m s ≡ (ok a, u)
unfolding map_error
map_error-step f m e =
    ap (λ (x : Result _ × Db). (elim x.0 [ ok b ↦ ok b | err y ↦ err (f y) ], x.1)) e

pub fail_if-step : (b : Bool) (e : BizError) (s : Db) → b ≡ false → fail_if b e s ≡ (ok tt, s)
unfolding fail_if
fail_if-step b e s h = rw h refl

-- A failing step, forwards.
pub bind-fail :
    {A B : Type 0} (m : Action A) (f : A → Action B) (s : Db) (e : Error)
    → (m s).0 ≡ err e
    → ((m >>= f) s).0 ≡ err e
unfolding ◌>>=◌
bind-fail m f s e h =
    ap (λ x. (elim x as (λ _. Result _ × Db) [ ok b ↦ f b (m s).1 | err y ↦ (err y, (m s).1) ]).0) h

pub map_error-fail :
    {A : Type 0} (f : Error → Error) (m : Action A) (s : Db) (e : Error)
    → (m s).0 ≡ err e
    → (map_error f m s).0 ≡ err (f e)
unfolding map_error
map_error-fail f m s e h = ap (λ x. elim x [ ok b ↦ ok b | err y ↦ err (f y) ]) h

pub create-fail :
    (g : Gorm) (n : Name) (r : Row n) (s : Db) (e : Error)
    → g.create n r (s n) ≡ err e
    → (create g n r s).0 ≡ err e
unfolding create
create-fail g n r s e h = ap (λ x. (write n x s).0) h

-- A branch that is taken.
pub if-taken :
    {A : Type 0} (b : Bool) (m n : Action A) {s : Db} {r : Result A × Db}
    → b ≡ true
    → (if b then m else n) s ≡ r
    → m s ≡ r
if-taken true m n e h = h
if-taken false m n e h = cc

-- The rows that are counted are those that pass the test.
pub count-ok :
    (g : Gorm) (laws : IsGorm g) (n : Name) (p : Row n → Bool) (k : ℕ) (s t : Db)
    → count g n p s ≡ (ok k, t)
    → (length (keep p (s n)) ≡ k) × (t ≡ s)
unfolding count
count-ok g laws n p k s t h =
    bind-ok (find_rows g n p) (λ rows. pure (length rows)) {b = k} {s = s} {t = t} h
      λ rows u read h1.
        let (selected, same) = find_rows-ok g n p rows s u read in
        let kept = laws.select_lem n p (s n) rows selected in
        let (size, e) = pure-ok (length rows) k u t h1 in (ap length (sym kept) ∙ size, e ∙ same)
