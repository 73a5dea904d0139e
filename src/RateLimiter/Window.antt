-- ===== src/RateLimiter/Window.antt =====
-- Pruning loses nothing: `allow` of backend/internal/app/rate_limiter.go answers as one that keeps
-- every hit and counts those in the window.
use second_hand_market_backe.Base.{
  ℕ, ◌≡◌, refl, sym, ◌∙◌, ap, Bool, true, false, List, [], ◌∷◌, ◌++◌, keep, length, arith,
  if◌then◌else◌, Bool-cases, inl, inr,
}
use second_hand_market_backe.Base.Int.{ℤ, pos, leb_ℤ, ◌-ℤ◌, ◌≤ℤ◌, ◌<ℤ◌, -ℤ_parts}
use second_hand_market_backe.Base.Text.{same_bytes_refl}
use second_hand_market_backe.Model.Status.{Time}
use second_hand_market_backe.RateLimiter.{MemoryRateLimiter, after, allow, answers, bucket_of}

-- The reference: every allowed call is remembered; a call is allowed while fewer than the limit were
-- allowed in the window before it.
pub reference : ℤ → ℤ → List Time → List Time → List Bool
reference limit window allowed_before [] = []
reference limit window allowed_before (t ∷ ts) =
    let full = leb_ℤ limit (pos (length (keep (after (t -ℤ window)) allowed_before))) in
    let refused = reference limit window allowed_before ts in
    let granted = reference limit window (allowed_before ++ (t ∷ [])) ts in
    if full then false ∷ refused else true ∷ granted

-- The clock does not go back.
abbrev pub Rising : Time → List Time → Type 0
Rising last [] = Unit
Rising last (t ∷ ts) = (last ≤ℤ t) × Rising t ts

keep-append :
    (c : Time) (xs ys : List Time)
    → keep (after c) (xs ++ ys) ≡ keep (after c) xs ++ keep (after c) ys
keep-append c [] ys = refl
keep-append c (x ∷ xs) ys = ground (arith, keep-append c xs ys)

keep-keep :
    (c d : Time) (xs : List Time) → c ≤ℤ d → keep (after d) (keep (after c) xs) ≡ keep (after d) xs
keep-keep c d [] h = refl
keep-keep c d (x ∷ xs) h = ground (arith, keep-keep c d xs h)

later_cutoff : (s t w : ℤ) → s ≤ℤ t → (s -ℤ w) ≤ℤ (t -ℤ w)
later_cutoff s t w h = ground (arith, -ℤ_parts s w, -ℤ_parts t w)

-- Two histories that agree on what is after a time, and later.
abbrev SameAfter : Time → List Time → List Time → Type 0
SameAfter c xs ys = (d : Time) → c ≤ℤ d → keep (after d) xs ≡ keep (after d) ys

SameAfter-pruned :
    (c c' : Time) (xs ys : List Time)
    → c ≤ℤ c'
    → SameAfter c xs ys
    → SameAfter c' (keep (after c') xs) ys
SameAfter-pruned c c' xs ys h same d le = keep-keep c' d xs le ∙ same d (omega arith)

SameAfter-append :
    (c t : Time) (xs ys : List Time)
    → SameAfter c xs ys
    → SameAfter c (xs ++ (t ∷ [])) (ys ++ (t ∷ []))
SameAfter-append c t xs ys same d le =
    keep-append d xs (t ∷ [])
    ∙ ap (λ zs. zs ++ keep (after d) (t ∷ [])) (same d le)
    ∙ sym (keep-append d ys (t ∷ []))

module _ (scope key : List ℕ) (limit window : ℤ) (positive : pos 0 <ℤ limit) where
  abbrev full : Time → List Time → Bool
  full t xs = leb_ℤ limit (pos (length (keep (after (t -ℤ window)) xs)))

  limited : leb_ℤ limit (pos 0) ≡ false
  limited = ground arith

  -- One call, in both of its cases.
  allow-full :
      (t : Time) (l : MemoryRateLimiter)
      → full t (l (bucket_of scope key)) ≡ true
      → ((allow scope key limit window t l).0 ≡ false)
        × ((allow scope key limit window t l).1 (bucket_of scope key)
            ≡ keep (after (t -ℤ window)) (l (bucket_of scope key)))
  unfolding allow
  allow-full t l h = (rw (limited, h) refl, rw (limited, h, same_bytes_refl) refl)

  allow-room :
      (t : Time) (l : MemoryRateLimiter)
      → full t (l (bucket_of scope key)) ≡ false
      → ((allow scope key limit window t l).0 ≡ true)
        × ((allow scope key limit window t l).1 (bucket_of scope key)
            ≡ keep (after (t -ℤ window)) (l (bucket_of scope key)) ++ (t ∷ []))
  unfolding allow
  allow-room t l h = (rw (limited, h) refl, rw (limited, h, same_bytes_refl) refl)

  answers-from :
      (last : Time) (l : MemoryRateLimiter) (before ts : List Time)
      → SameAfter (last -ℤ window) (l (bucket_of scope key)) before
      → Rising last ts
      → answers scope key limit window l ts ≡ reference limit window before ts
  unfolding answers reference
  answers-from last l before [] same up = refl
  answers-from last l before (t ∷ ts) same up =
      let c = t -ℤ window in
      let bucket = bucket_of scope key in
      let le = later_cutoff last t window up.0 in
      let pruned = SameAfter-pruned (last -ℤ window) c (l bucket) before le same in
      let counted : full t (l bucket) ≡ full t before =
        ap (λ xs. leb_ℤ limit (pos (length xs))) (same c le) in
      elim (Bool-cases (full t (l bucket))) [
        | inl f ↦
            let (refused, history) = allow-full t l f in
            let rest =
              answers-from t (allow scope key limit window t l).1 before ts
                (λ d h. ap (keep (after d)) history ∙ pruned d h) up.1 in
            (λ i. refused i ∷ rest i) ∙ rw (sym counted ∙ f) refl
        | inr r ↦
            let (granted, history) = allow-room t l r in
            let rest =
              answers-from t (allow scope key limit window t l).1 (before ++ (t ∷ [])) ts
                (λ d h.
                  ap (keep (after d)) history
                  ∙ SameAfter-append c t (keep (after c) (l bucket)) before pruned d h)
                up.1 in
            (λ i. granted i ∷ rest i) ∙ rw (sym counted ∙ r) refl
      ]

  -- With a positive limit and a clock that does not go back, a bucket without hits answers as the
  -- reference does: a call is allowed exactly while fewer than the limit of those that were allowed
  -- lie in the window before it.
  pub answers-reference :
      (last : Time) (l : MemoryRateLimiter) (ts : List Time)
      → l (bucket_of scope key) ≡ []
      → Rising last ts
      → answers scope key limit window l ts ≡ reference limit window [] ts
  answers-reference last l ts empty up =
      answers-from last l [] ts (λ d h. ap (keep (after d)) empty) up
