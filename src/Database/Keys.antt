-- ===== src/Database/Keys.antt =====
-- The keys of a table: what INSERT, UPDATE and DELETE do to them, and what they decide.
use second_hand_market_backe.Base.{
  ℕ, ◌≡◌, ◌≢◌, refl, sym, ◌∙◌, ap, Bool, true, List, [], ◌∷◌, ◌++◌, inl, inr, All, Among, keep,
  map_if, Bool-cases, count_if, false, ◌==◌, suc, if◌then◌else◌, arith, ==→≡, ==-refl, subst,
}
use second_hand_market_backe.Database.Tables.{
  Name, Row, row_id, with_id, Keyed, products, product_images, stock_adjustments, orders,
  order_events, files, categories, operation_logs, idempotency_records, merchants,
  merchant_accounts, admin_users, merchant_audit_logs, auth_sessions, buyer_users, device_bindings,
  favorites, histories, intents,
}

-- The key that is set is the key of the row.
pub row_id-with_id : (n : Name) (i : ℕ) (r : Row n) → row_id n (with_id n i r) ≡ i
row_id-with_id products i r = refl
row_id-with_id product_images i r = refl
row_id-with_id stock_adjustments i r = refl
row_id-with_id orders i r = refl
row_id-with_id order_events i r = refl
row_id-with_id files i r = refl
row_id-with_id categories i r = refl
row_id-with_id operation_logs i r = refl
row_id-with_id idempotency_records i r = refl
row_id-with_id merchants i r = refl
row_id-with_id merchant_accounts i r = refl
row_id-with_id admin_users i r = refl
row_id-with_id merchant_audit_logs i r = refl
row_id-with_id auth_sessions i r = refl
row_id-with_id buyer_users i r = refl
row_id-with_id device_bindings i r = refl
row_id-with_id favorites i r = refl
row_id-with_id histories i r = refl
row_id-with_id intents i r = refl

module _ (n : Name) where
  All-other_append :
      (i : ℕ) (r : Row n) (xs : List (Row n))
      → All (λ y. row_id n y ≢ i) xs
      → row_id n r ≢ i
      → All (λ y. row_id n y ≢ i) (xs ++ (r ∷ []))
  All-other_append i r [] h e = (e, tt)
  All-other_append i r (x ∷ xs) h e = (h.0, All-other_append i r xs h.1 e)

  -- A row with a fresh key may be added.
  pub Keyed-append :
      (r : Row n) (xs : List (Row n))
      → Keyed n xs
      → All (λ x. row_id n x ≢ row_id n r) xs
      → Keyed n (xs ++ (r ∷ []))
  Keyed-append r [] k h = (tt, tt)
  Keyed-append r (x ∷ xs) k h =
      (All-other_append (row_id n x) r xs k.0 (λ e. h.0 (sym e)), Keyed-append r xs k.1 h.1)

  module _ (p : Row n → Bool) where
    All-other_map_if :
        (f : Row n → Row n) (same : (x : Row n) → p x ≡ true → row_id n (f x) ≡ row_id n x) (i : ℕ)
        (xs : List (Row n))
        → All (λ y. row_id n y ≢ i) xs
        → All (λ y. row_id n y ≢ i) (map_if p f xs)
    All-other_map_if f same i [] h = tt
    All-other_map_if f same i (x ∷ xs) h = elim (Bool-cases (p x)) [
      | inl e ↦ rw e ((λ q. h.0 (sym (same x e) ∙ q)), All-other_map_if f same i xs h.1)
      | inr e ↦ rw e (h.0, All-other_map_if f same i xs h.1)
    ]

    -- Rows may be changed that keep their keys.
    pub Keyed-map_if :
        (f : Row n → Row n) (same : (x : Row n) → p x ≡ true → row_id n (f x) ≡ row_id n x)
        (xs : List (Row n))
        → Keyed n xs
        → Keyed n (map_if p f xs)
    Keyed-map_if f same [] k = tt
    Keyed-map_if f same (x ∷ xs) k = elim (Bool-cases (p x)) [
      | inl e ↦
          rw (e, same x e) (All-other_map_if f same (row_id n x) xs k.0, Keyed-map_if f same xs k.1)
      | inr e ↦ rw e (All-other_map_if f same (row_id n x) xs k.0, Keyed-map_if f same xs k.1)
    ]

    All-other_keep :
        (i : ℕ) (xs : List (Row n))
        → All (λ y. row_id n y ≢ i) xs
        → All (λ y. row_id n y ≢ i) (keep p xs)
    All-other_keep i [] h = tt
    All-other_keep i (x ∷ xs) h = elim (Bool-cases (p x)) [
      | inl e ↦ rw e (h.0, All-other_keep i xs h.1)
      | inr e ↦ rw e (All-other_keep i xs h.1)
    ]

    -- Rows may be removed.
    pub Keyed-keep : (xs : List (Row n)) → Keyed n xs → Keyed n (keep p xs)
    Keyed-keep [] k = tt
    Keyed-keep (x ∷ xs) k = elim (Bool-cases (p x)) [
      | inl e ↦ rw e (All-other_keep (row_id n x) xs k.0, Keyed-keep xs k.1)
      | inr e ↦ rw e (Keyed-keep xs k.1)
    ]

  Others :
      (r : Row n) (i : ℕ) (xs : List (Row n))
      → row_id n r ≡ i
      → All (λ y. row_id n y ≢ i) xs
      → All (λ x. row_id n x ≡ row_id n r → x ≡ r) xs
  Others r i [] e h = tt
  Others r i (x ∷ xs) e h = ((λ q. absurd (h.0 (q ∙ e))), Others r i xs e h.1)

  unlike :
      (r : Row n) (i : ℕ) (xs : List (Row n))
      → All (λ y. row_id n y ≢ i) xs
      → Among r xs
      → row_id n r ≢ i
  unlike r i [] h m q = m
  unlike r i (x ∷ xs) h (inl e) q = h.0 (ap (row_id n) (sym e) ∙ q)
  unlike r i (x ∷ xs) h (inr m) q = unlike r i xs h.1 m q

  -- A row with the key of a row of the table is that row.
  pub Keyed-unique :
      (r : Row n) (xs : List (Row n))
      → Keyed n xs
      → Among r xs
      → All (λ x. row_id n x ≡ row_id n r → x ≡ r) xs
  Keyed-unique r [] k m = tt
  Keyed-unique r (x ∷ xs) k (inl e) = ((λ q. sym e), Others r (row_id n x) xs (ap (row_id n) e) k.0)
  Keyed-unique r (x ∷ xs) k (inr m) =
      ((λ q. absurd (unlike r (row_id n x) xs k.0 m (sym q))), Keyed-unique r xs k.1 m)

  -- An update of one row counts that row.
  module _ (v : Row n → Bool) (f : Row n → Row n) where
    count-others :
        (i : ℕ) (xs : List (Row n))
        → All (λ y. row_id n y ≢ i) xs
        → count_if v (map_if (λ x. row_id n x == i) f xs) ≡ count_if v xs
    count-others i [] h = refl
    count-others i (x ∷ xs) h = elim (Bool-cases (row_id n x == i)) [
      | inl e ↦ absurd (h.0 (==→≡ (row_id n x) i e))
      | inr e ↦ rw e (counted (v x) (count-others i xs h.1))
    ]
      where
        counted : (b : Bool) {a c : ℕ} → a ≡ c → (if b then suc a else a) ≡ (if b then suc c else c)
        counted b e = ap (λ k. if b then suc k else k) e

    count-head :
        (x : Row n) (xs : List (Row n))
        → All (λ y. row_id n y ≢ row_id n x) xs
        → v x ≡ false
        → v (f x) ≡ true
        → count_if v (map_if (λ z. row_id n z == row_id n x) f (x ∷ xs)) ≡ suc (count_if v (x ∷ xs))
    count-head x xs h off on =
        rw (==-refl (row_id n x), off, on) (ap suc (count-others (row_id n x) xs h))

    pub count-update_row :
        (r : Row n) (xs : List (Row n))
        → Keyed n xs
        → Among r xs
        → v r ≡ false
        → v (f r) ≡ true
        → count_if v (map_if (λ x. row_id n x == row_id n r) f xs) ≡ suc (count_if v xs)
    count-update_row r [] k m off on = absurd m
    count-update_row r (x ∷ xs) k (inl e) off on =
        subst
          (λ y.
            count_if v (map_if (λ z. row_id n z == row_id n y) f (x ∷ xs))
            ≡ suc (count_if v (x ∷ xs)))
          (sym e) (count-head x xs k.0 (ap v (sym e) ∙ off) (ap (λ y. v (f y)) (sym e) ∙ on))
    count-update_row r (x ∷ xs) k (inr m) off on = elim (Bool-cases (row_id n x == row_id n r)) [
      | inl t ↦ absurd (unlike r (row_id n x) xs k.0 m (sym (==→≡ (row_id n x) (row_id n r) t)))
      | inr t ↦ rw t (more (v x) (count-update_row r xs k.1 m off on))
    ]
      where
        more :
            (b : Bool) {a c : ℕ}
            → a ≡ suc c
            → (if b then suc a else a) ≡ suc (if b then suc c else c)
        more b e = ground (arith, e)
