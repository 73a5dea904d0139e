-- ===== src/Base/Lists.antt =====
-- Lists over Boolean tests: what SELECT, UPDATE and DELETE do to the rows of a table.
use Prim.Native.Nat.{ℕ, suc}
use mathlib.Core.Path.{◌≡◌, refl, ap, sym, subst, ◌∙◌}
use mathlib.Core.Bool.{Bool, true, false, ◌||◌, ◌&&◌}
use mathlib.Core.Option.{Option, none, some}
use mathlib.Core.List.{List, [], ◌∷◌, ◌++◌}
use mathlib.Core.Logic.{◌⊎◌, inl, inr}
use native.Mathlib.Omega.{arith}
use second_hand_market_backe.Base.Tests.{if◌then◌else◌, ◌==◌, Bool-cases}

module _ {ℓ} {A : Type ℓ} where
  abbrev pub length : List A → ℕ
  length [] = 0
  length (x ∷ xs) = suc (length xs)

  -- The elements that pass a test, in order.
  abbrev pub keep : (A → Bool) → List A → List A
  keep p [] = []
  keep p (x ∷ xs) = let rest = keep p xs in if p x then x ∷ rest else rest

  -- Every element that passes the test is replaced.
  abbrev pub map_if : (A → Bool) → (A → A) → List A → List A
  map_if p f [] = []
  map_if p f (x ∷ xs) = (if p x then f x else x) ∷ map_if p f xs

  abbrev pub any : (A → Bool) → List A → Bool
  any p [] = false
  any p (x ∷ xs) = p x || any p xs

  abbrev pub count_if : (A → Bool) → List A → ℕ
  count_if p [] = 0
  count_if p (x ∷ xs) = let rest = count_if p xs in if p x then suc rest else rest

  abbrev pub find : (A → Bool) → List A → Option A
  find p [] = none
  find p (x ∷ xs) = let rest = find p xs in if p x then some x else rest

-- `list contains id`, for numbers.
abbrev pub elem : ℕ → List ℕ → Bool
elem n = any (λ m. m == n)

abbrev pub All {ℓ κ} : {A : Type ℓ} → (A → Type κ) → List A → Type κ
All P [] = Unit
All P (x ∷ xs) = P x × All P xs

module _ {ℓ κ} {A : Type ℓ} (P : A → Type κ) where
  pub All-append : (xs ys : List A) → All P xs → All P ys → All P (xs ++ ys)
  All-append [] ys hx hy = hy
  All-append (x ∷ xs) ys hx hy = (hx.0, All-append xs ys hx.1 hy)

  -- What passed the test is known to have passed it.
  pub All-keep : (p : A → Bool) (xs : List A) → All P xs → All (λ x. (p x ≡ true) × P x) (keep p xs)
  All-keep p [] h = h
  All-keep p (x ∷ xs) h = elim (Bool-cases (p x)) [
    | inl e ↦ rw e ((e, h.0), All-keep p xs h.1)
    | inr e ↦ rw e (All-keep p xs h.1)
  ]

  pub All-keep_plain : (p : A → Bool) (xs : List A) → All P xs → All P (keep p xs)
  All-keep_plain p [] h = h
  All-keep_plain p (x ∷ xs) h = elim (Bool-cases (p x)) [
    | inl e ↦ rw e (h.0, All-keep_plain p xs h.1)
    | inr e ↦ rw e (All-keep_plain p xs h.1)
  ]

  pub All-map_if :
      (Q : A → Type κ) (p : A → Bool) (f : A → A)
      → ((x : A) → p x ≡ true → P x → Q (f x) → P (f x))
      → (xs : List A) → All P xs
      → All (λ x. p x ≡ true → Q (f x)) xs
      → All P (map_if p f xs)
  All-map_if Q p f step [] h q = h
  All-map_if Q p f step (x ∷ xs) h q = elim (Bool-cases (p x)) [
    | inl e ↦ rw e (step x e h.0 (q.0 e), All-map_if Q p f step xs h.1 q.1)
    | inr e ↦ rw e (h.0, All-map_if Q p f step xs h.1 q.1)
  ]

  -- A row that is replaced may be known to be more than one of the list.
  pub All-map_if_zip :
      (R Q : A → Type κ) (p : A → Bool) (f : A → A)
      → ((x : A) → p x ≡ true → R x → P x → Q (f x) → P (f x))
      → (xs : List A) → All P xs
      → All R xs
      → All (λ x. p x ≡ true → Q (f x)) xs
      → All P (map_if p f xs)
  All-map_if_zip R Q p f step [] h r q = h
  All-map_if_zip R Q p f step (x ∷ xs) h r q = elim (Bool-cases (p x)) [
    | inl e ↦ rw e (step x e r.0 h.0 (q.0 e), All-map_if_zip R Q p f step xs h.1 r.1 q.1)
    | inr e ↦ rw e (h.0, All-map_if_zip R Q p f step xs h.1 r.1 q.1)
  ]

module _ {ℓ} {A : Type ℓ} (v : A → Bool) where
  pub any-append : (xs : List A) (y : A) → any v (xs ++ (y ∷ [])) ≡ (any v xs || v y)
  any-append [] y = ground arith
  any-append (x ∷ xs) y = ground (arith, any-append xs y)

  module _ (p : A → Bool) (f : A → A) (b : Bool) where
    -- Rows that are changed gain a property, if any row is changed at all.
    pub any-map_if_or :
        (xs : List A)
        → All (λ x. p x ≡ true → v (f x) ≡ (v x || b)) xs
        → any v (map_if p f xs) ≡ (any v xs || (any p xs && b))
    any-map_if_or [] h = ground arith
    any-map_if_or (x ∷ xs) h = ground (arith, h.0, any-map_if_or xs h.1)

    -- Every row keeps a property, or every row loses it.
    pub any-map_if_and :
        (xs : List A)
        → All (λ x. v (if p x then f x else x) ≡ (v x && b)) xs
        → any v (map_if p f xs) ≡ (any v xs && b)
    any-map_if_and [] h = ground arith
    any-map_if_and (x ∷ xs) h = ground (arith, h.0, any-map_if_and xs h.1)

module _ {ℓ} {A : Type ℓ} (v : A → Bool) where
  pub count_if-append :
      (xs : List A) (y : A) → v y ≡ true → count_if v (xs ++ (y ∷ [])) ≡ suc (count_if v xs)
  count_if-append [] y h = ground (arith, h)
  count_if-append (x ∷ xs) y h = ground (arith, count_if-append xs y h)

module _ {ℓ κ} {A : Type ℓ} (P : A → Type κ) where
  pub All-every : ((x : A) → P x) → (xs : List A) → All P xs
  All-every h [] = tt
  All-every h (x ∷ xs) = (h x, All-every h xs)

  pub All-weaken {ι} :
      (Q : A → Type ι) → ((x : A) → P x → Q x) → (xs : List A) → All P xs → All Q xs
  All-weaken Q w [] h = tt
  All-weaken Q w (x ∷ xs) h = (w x h.0, All-weaken Q w xs h.1)

  pub All-zip {ι} : (Q : A → Type ι) (xs : List A) → All P xs → All Q xs → All (λ x. P x × Q x) xs
  All-zip Q [] h k = tt
  All-zip Q (x ∷ xs) h k = ((h.0, k.0), All-zip Q xs h.1 k.1)

  -- What is known of rows becomes something else of what they are after an update.
  pub All-map_if_to {ι} :
      (Q : A → Type ι) (p : A → Bool) (f : A → A)
      → ((x : A) → p x ≡ true → P x → Q (f x))
      → ((x : A) → p x ≡ false → P x → Q x)
      → (xs : List A) → All P xs
      → All Q (map_if p f xs)
  All-map_if_to Q p f hit miss [] h = tt
  All-map_if_to Q p f hit miss (x ∷ xs) h = elim (Bool-cases (p x)) [
    | inl e ↦ rw e (hit x e h.0, All-map_if_to Q p f hit miss xs h.1)
    | inr e ↦ rw e (miss x e h.0, All-map_if_to Q p f hit miss xs h.1)
  ]

-- The elements of a list.
abbrev pub Among : {A : Type 0} → A → List A → Type 0
Among r [] = ⊥
Among r (x ∷ xs) = (r ≡ x) ⊎ Among r xs

module _ {A : Type 0} where
  pub All-Among {κ} : (P : A → Type κ) (r : A) (xs : List A) → All P xs → Among r xs → P r
  All-Among P r [] h m = absurd m
  All-Among P r (x ∷ xs) h (inl e) = subst P (sym e) h.0
  All-Among P r (x ∷ xs) h (inr m) = All-Among P r xs h.1 m

  pub Among-itself : (xs : List A) → All (λ x. Among x xs) xs
  Among-itself [] = tt
  Among-itself (x ∷ xs) = (
    inl refl,
    All-weaken (λ y. Among y xs) (λ y. Among y (x ∷ xs)) (λ y m. inr m) xs (Among-itself xs),
  )

  pub Among-kept :
      (p : A → Bool) (r : A) (xs : List A) → p r ≡ true → Among r xs → Among r (keep p xs)
  Among-kept p r [] t m = m
  Among-kept p r (x ∷ xs) t (inl e) = let here : p x ≡ true = ap p (sym e) ∙ t in rw here (inl e)
  Among-kept p r (x ∷ xs) t (inr m) = elim (Bool-cases (p x)) [
    | inl e ↦ rw e (inr (Among-kept p r xs t m))
    | inr e ↦ rw e (Among-kept p r xs t m)
  ]

  pub any-keep : (p q : A → Bool) (xs : List A) → any q (keep p xs) ≡ any (λ x. p x && q x) xs
  any-keep p q [] = refl
  any-keep p q (x ∷ xs) = ground (arith, any-keep p q xs)

  pub any_never :
      (p : A → Bool) (xs : List A) → All (λ x. p x ≡ true → false ≡ true) xs → any p xs ≡ false
  any_never p [] h = refl
  any_never p (x ∷ xs) h = ground (arith, h.0, any_never p xs h.1)

  pub Among-any : (p : A → Bool) (r : A) (xs : List A) → Among r xs → p r ≡ true → any p xs ≡ true
  Among-any p r [] m h = absurd m
  Among-any p r (x ∷ xs) (inl e) h = let t : p x ≡ true = ap p (sym e) ∙ h in ground (arith, t)
  Among-any p r (x ∷ xs) (inr m) h = ground (arith, Among-any p r xs m h)

  -- What passes a test is one of the list.
  pub Among-keep :
      (p : A → Bool) (r : A) (rest xs : List A) → keep p xs ≡ r ∷ rest → Among r xs × (p r ≡ true)
  Among-keep p r rest [] h = cc
  Among-keep p r rest (x ∷ xs) h = elim (Bool-cases (p x)) [
    | inl e ↦ let same = head_of (rw e at h) in (inl (sym same), rw (← same) e)
    | inr e ↦ let (m, t) = Among-keep p r rest xs (rw e at h) in (inr m, t)
  ]
    where
      head_of : {y : A} {ys : List A} → y ∷ ys ≡ r ∷ rest → y ≡ r
      head_of {y} {ys} q = ap (λ zs. elim zs [ [] ↦ y | z ∷ more ↦ z ]) q

module _ {ℓ} {A : Type ℓ} (p q : A → Bool) (f : A → A) (stable : (x : A) → p (f x) ≡ p x) where
  -- Among rows none of which passes `p`, a new row is found, also after an update.
  pub keep-map_if_new :
      (r : A) (xs : List A)
      → any p xs ≡ false
      → q r ≡ true
      → p r ≡ true
      → keep p (map_if q f (xs ++ (r ∷ []))) ≡ f r ∷ []
  keep-map_if_new r [] h hq hp = ground (arith, stable r)
  keep-map_if_new r (x ∷ xs) h hq hp = ground (arith, stable x, keep-map_if_new r xs)

  pub any-map_if_new :
      (r : A) (xs : List A) → q r ≡ true → p r ≡ true → any p (map_if q f (xs ++ (r ∷ []))) ≡ true
  any-map_if_new r [] hq hp = ground (arith, stable r)
  any-map_if_new r (x ∷ xs) hq hp = ground (arith, any-map_if_new r xs hq hp)
