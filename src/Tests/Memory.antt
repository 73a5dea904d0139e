-- ===== src/Tests/Memory.antt =====
-- A database in memory: gorm's laws hold of it, so theorems that assume them can be used.
use text.Mathlib.Text.{◌==◌ as str_eq}
use second_hand_market_backe.Base.{
  ℕ, suc, ◌≡◌, ◌≢◌, refl, sym, ap, Bool, true, false, not, ◌&&◌, ◌||◌, List, [], ◌∷◌, ◌++◌, arith,
  ◌==◌, ltb, ◌<◌, All, keep, map_if, count_if, any, if◌then◌else◌, Bool-cases, inl, inr, ◌∙◌,
}
use second_hand_market_backe.Base.Int.{ℤ, pos, negsuc, leb_ℤ, ltb_ℤ}
use second_hand_market_backe.Errors.{Error, Result, ok, err, db, opaque, duplicated_key}
use second_hand_market_backe.Database.Tables.{
  Name, Row, row_id, with_id, Db, Fits, products, idempotency_records,
}
use second_hand_market_backe.Database.Gorm.{Gorm, IsGorm}
use second_hand_market_backe.Idempotency.{in_scope, claim_row, is_idempotency_duplicate}
use second_hand_market_backe.Idempotency.Laws.{IsUniqueScope}

abbrev in32 : ℤ → Bool
in32 x = leb_ℤ (negsuc 2147483647) x && ltb_ℤ x (pos 2147483648)

-- The columns hold a row's values.
fits : (n : Name) → Row n → Bool
fits products p = in32 p.stock && in32 p.reserved_stock
fits _ _ = true

-- A unique index refuses the row.
clashes : (n : Name) → Row n → List (Row n) → Bool
clashes idempotency_records r =
    any
      (λ x. str_eq x.idem_key r.idem_key && x.operator_id == r.operator_id && str_eq x.path r.path)
clashes _ r = λ xs. false

abbrev larger : ℕ → ℕ → ℕ
larger a b = if ltb a b then b else a

abbrev last_key : (n : Name) → List (Row n) → ℕ
last_key n [] = 0
last_key n (x ∷ xs) = larger (row_id n x) (last_key n xs)

abbrev all_fit : (n : Name) → (Row n → Bool) → (Row n → Row n) → List (Row n) → Bool
all_fit n p f [] = true
all_fit n p f (x ∷ xs) = (not (p x) || fits n (f x)) && all_fit n p f xs

abbrev out_of_range : Error
out_of_range = db (record { kind = opaque; message = [] })

abbrev duplicate : Error
duplicate = db (record { kind = duplicated_key; message = [] })

-- INSERT: the next key, unless an index or a column refuses the row.
insert : (n : Name) → Row n → List (Row n) → Result (Row n × List (Row n))
unfolding clashes fits
insert n r xs =
    let r' = with_id n (suc (last_key n xs)) r in
    if clashes n r xs
    then err duplicate
    else if fits n r'
    then ok (r', xs ++ (r' ∷ []))
    else err out_of_range

-- UPDATE, unless a column refuses a new value.
change : (n : Name) → (Row n → Bool) → (Row n → Row n) → List (Row n) → Result (ℕ × List (Row n))
unfolding fits
change n p f xs = if all_fit n p f xs then ok (count_if p xs, map_if p f xs) else err out_of_range

-- A transaction keeps what it has written only when it succeeds.
settle : {A : Type 0} → Db → Result A × Db → Result A × Db
settle s (ok a, t) = (ok a, t)
settle s (err e, t) = (err e, s)

unfoldable pub memory : Gorm
unfolding insert change settle
memory = record {
  select = λ n p xs. ok (keep p xs);
  create = insert;
  update = change;
  delete = λ n p xs. ok (count_if p xs, keep (λ x. not (p x)) xs);
  transaction = λ m s. settle s (m s);
}

fits-Fits : (n : Name) (r : Row n) → fits n r ≡ true → Fits n r
unfolding fits
fits-Fits products r h = ground arith
fits-Fits _ r h = tt

last_key-All :
    (n : Name) (k : ℕ) (xs : List (Row n)) → last_key n xs < k → All (λ x. row_id n x ≢ k) xs
last_key-All n k [] h = tt
last_key-All n k (x ∷ xs) h = (λ e. ground arith, last_key-All n k xs (ground arith))

all_fit-All :
    (n : Name) (p : Row n → Bool) (f : Row n → Row n) (xs : List (Row n))
    → all_fit n p f xs ≡ true
    → All (λ x. p x ≡ true → Fits n (f x)) xs
all_fit-All n p f [] h = tt
all_fit-All n p f (x ∷ xs) h =
    (λ e. fits-Fits n (f x) (ground arith), all_fit-All n p f xs (ground arith))

larger_than_last : (n : Name) (xs : List (Row n)) → last_key n xs < suc (last_key n xs)
larger_than_last n xs = omega arith

ok≢err : {A : Type 0} (a : A) (e : Error) → ok a ≢ err e
ok≢err a e h = cc

ok-injective : {A : Type 0} (a b : A) → ok a ≡ ok b → a ≡ b
ok-injective a b h = ap (λ r. elim r [ ok x ↦ x | err e ↦ a ]) h

insert_lem :
    (n : Name) (r r' : Row n) (xs ys : List (Row n))
    → insert n r xs ≡ ok (r', ys)
    → (i : ℕ) × (r' ≡ with_id n i r)
      × (ys ≡ xs ++ (r' ∷ []))
      × Fits n r'
      × All (λ x. row_id n x ≢ i) xs
unfolding insert
insert_lem n r r' xs ys h =
    let i = suc (last_key n xs) in
    elim (Bool-cases (clashes n r xs)) [
      | inl c ↦ absurd (ok≢err (r', ys) duplicate (sym h ∙ rw c refl))
      | inr c ↦ elim (Bool-cases (fits n (with_id n i r))) [
        | inr f ↦ absurd (ok≢err (r', ys) out_of_range (sym h ∙ rw (c, f) refl))
        | inl f ↦
            let made : ok (with_id n i r, xs ++ (with_id n i r ∷ [])) ≡ ok (r', ys) =
              sym (rw (c, f) refl) ∙ h in
            let pair = ok-injective _ _ made in
            let row : r' ≡ with_id n i r = sym (ap (λ (x : Row n × List (Row n)). x.0) pair) in
            (
              i,
              row,
              sym (ap (λ (x : Row n × List (Row n)). x.1) pair) ∙ rw row refl,
              rw row (fits-Fits n (with_id n i r) f),
              last_key-All n i xs (larger_than_last n xs),
            )
      ]
    ]

change_lem :
    (n : Name) (p : Row n → Bool) (f : Row n → Row n) (xs ys : List (Row n)) (k : ℕ)
    → change n p f xs ≡ ok (k, ys)
    → (ys ≡ map_if p f xs) × (k ≡ count_if p xs) × All (λ x. p x ≡ true → Fits n (f x)) xs
unfolding change
change_lem n p f xs ys k h = elim (Bool-cases (all_fit n p f xs)) [
  | inr c ↦ absurd (ok≢err (k, ys) out_of_range (sym h ∙ rw c refl))
  | inl c ↦
      let made : ok (count_if p xs, map_if p f xs) ≡ ok (k, ys) = sym (rw c refl) ∙ h in
      let pair = ok-injective _ _ made in
      (
        sym (ap (λ (x : ℕ × List (Row n)). x.1) pair),
        sym (ap (λ (x : ℕ × List (Row n)). x.0) pair),
        all_fit-All n p f xs c,
      )
]

settle-commit :
    {A : Type 0} (s : Db) (x : Result A × Db) (t : Db) (a : A)
    → settle s x ≡ (ok a, t)
    → x ≡ (ok a, t)
unfolding settle
settle-commit s (ok b, u) t a h = h
settle-commit s (err e, u) t a h = cc

settle-abort :
    {A : Type 0} (s : Db) (x : Result A × Db) (t : Db) (e : Error) → settle s x ≡ (err e, t) → t ≡ s
unfolding settle
settle-abort s (ok b, u) t e h = cc
settle-abort s (err y, u) t e h = ap (λ (z : Result _ × Db). z.1) (sym h)

settle-error :
    {A : Type 0} (s : Db) (r : Result A) (t : Db) (e : Error)
    → r ≡ err e
    → settle s (r, t) ≡ (err e, s)
unfolding settle
settle-error s r t e h = rw h refl

pub memory-IsGorm : IsGorm memory
unfolding memory
memory-IsGorm = record {
  select_lem = λ n p xs ys h. sym (ok-injective _ _ h);
  create_lem = insert_lem;
  update_lem = change_lem;
  delete_lem = λ n p xs ys k h. sym (ap (λ (x : ℕ × List (Row n)). x.1) (ok-injective _ _ h));
  commit = λ m s s' a h. settle-commit s (m s) s' a h;
  abort = λ m s s' e h. settle-abort s (m s) s' e h;
  body_error = λ m s e h. settle-error s (m s).0 (m s).1 e h;
  select_error = λ n p xs e h. absurd (ok≢err _ e h);
}

pub memory-IsUniqueScope : IsUniqueScope memory
unfolding memory insert clashes in_scope claim_row is_idempotency_duplicate
memory-IsUniqueScope = record { refuses = λ scope xs h. (duplicate, rw h refl, refl) }
