-- ===== src/Files/Below.antt =====
-- The paths that are found for object keys lie below the root.
use second_hand_market_backe.Base.{
  ℕ, ◌≡◌, ◌≢◌, refl, sym, ◌∙◌, ap, subst, Bool, Bool-cases, inl, inr, true, false, ◌||◌, List, [],
  ◌∷◌, ◌==◌, arith, All, any, elem,
}
use second_hand_market_backe.Base.Text.{trim_space, is_blank, contains, has_prefix, same_bytes}
use second_hand_market_backe.Errors.{Result, ok, err}
use second_hand_market_backe.Files.{
  Paths, slash, backslash, dot, on_first, split, join_parts, is_bad_part, within, path_below,
  local_object_path,
}

-- The name of one file or folder below another.
pub record IsName (p : List ℕ) : Type 0 where
  pub one_part : elem slash p ≡ false
  pub not_empty : p ≢ []
  pub not_here : p ≢ dot ∷ []
  pub not_above : p ≢ dot ∷ dot ∷ []

pub record IsBelow (paths : Paths) (root key target : List ℕ) : Type 0 where
  pub base : List ℕ
  pub rooted : paths.absolute (trim_space root) ≡ ok base
  pub parts : List (List ℕ)
  pub spelled : join_parts parts ≡ trim_space key
  pub named : All IsName parts
  pub no_backslash : elem backslash (trim_space key) ≡ false
  pub joined : target ≡ paths.join base (trim_space key)

join_on_first : (c : ℕ) (ps : List (List ℕ)) → join_parts (on_first c ps) ≡ c ∷ join_parts ps
join_on_first c [] = refl
join_on_first c (p ∷ []) = refl
join_on_first c (p ∷ q ∷ qs) = refl

split_on_first : (s : List ℕ) → (p : List ℕ) × (ps : List (List ℕ)) × (split s ≡ p ∷ ps)
split_on_first [] = ([], [], refl)
split_on_first (c ∷ s) =
    let (p, ps, e) = split_on_first s in
    elim (Bool-cases (c == slash)) [
      | inl same ↦ ([], split s, rw same refl)
      | inr other ↦ (c ∷ p, ps, rw other (rw e refl))
    ]

join_after :
    (qs : List (List ℕ)) (p : List ℕ) (ps : List (List ℕ))
    → qs ≡ p ∷ ps
    → join_parts ([] ∷ qs) ≡ slash ∷ join_parts qs
join_after [] p ps e = absurd cc
join_after (q ∷ qs) p ps e = refl

join_parts-split : (s : List ℕ) → join_parts (split s) ≡ s
join_parts-split [] = refl
join_parts-split (c ∷ s) = elim (Bool-cases (c == slash)) [
  | inl same ↦
      let (p, ps, e) = split_on_first s in
      let slashed : c ≡ slash = ground (arith, same) in
      rw same (
        join_after (split s) p ps e
        ∙ (ap (λ t. slash ∷ t) (join_parts-split s) ∙ ap (λ d. d ∷ s) (sym slashed)))
  | inr other ↦ rw other (join_on_first c (split s) ∙ ap (λ t. c ∷ t) (join_parts-split s))
]

-- The first part is not yet a whole one when a character goes before it.
one_part_each : (s : List ℕ) → All (λ p. elem slash p ≡ false) (split s)
one_part_each [] = (refl, tt)
one_part_each (c ∷ s) = elim (Bool-cases (c == slash)) [
  | inl same ↦ rw same (refl, one_part_each s)
  | inr other ↦
      let (p, ps, e) = split_on_first s in
      let both : All (λ q. elem slash q ≡ false) (p ∷ ps) =
        subst (All (λ q. elem slash q ≡ false)) e (one_part_each s) in
      rw other (rw e (ground (arith, other, both.0), both.1))
]

is_bad_part-IsName : (p : List ℕ) → elem slash p ≡ false → is_bad_part p ≡ false → IsName p
unfolding same_bytes
is_bad_part-IsName p whole good = record {
  one_part = whole;
  not_empty = λ e. differs (ap is_bad_part (sym e) ∙ good);
  not_here = λ e. differs (ap is_bad_part (sym e) ∙ good);
  not_above = λ e. differs (ap is_bad_part (sym e) ∙ good);
}
  where
    differs : true ≡ false → ⊥
    differs e = cc

names :
    (ps : List (List ℕ))
    → All (λ p. elem slash p ≡ false) ps
    → any is_bad_part ps ≡ false
    → All IsName ps
names [] whole good = tt
names (p ∷ ps) whole good =
    let (first_good, others_good) = halves (is_bad_part p) (any is_bad_part ps) good in
    (is_bad_part-IsName p whole.0 first_good, names ps whole.1 others_good)
  where
    halves : (a b : Bool) → (a || b) ≡ false → (a ≡ false) × (b ≡ false)
    halves a b e = ground arith

no_backslash_in : (s : List ℕ) → contains s (backslash ∷ []) ≡ false → elem backslash s ≡ false
unfolding contains has_prefix
no_backslash_in [] h = refl
no_backslash_in (c ∷ s) h = ground (arith, no_backslash_in s)

within-ok : (paths : Paths) (base target t : List ℕ) → within paths base target ≡ ok t → t ≡ target
unfolding within
within-ok paths base target t h = ground arith

path_below-ok :
    (paths : Paths) (base key t : List ℕ)
    → path_below paths base key ≡ ok t
    → (contains key (backslash ∷ []) ≡ false)
      × (any is_bad_part (split key) ≡ false)
      × (t ≡ paths.join base (join_parts (split key)))
unfolding path_below
path_below-ok paths base key t h =
    ground (arith, within-ok paths base (paths.join base (join_parts (split key))) t)

from_root :
    (paths : Paths) (key target : List ℕ) (base : Result (List ℕ))
    → (elim base [ err e ↦ err e | ok b ↦ path_below paths b (trim_space key) ]) ≡ ok target
    → (b : List ℕ) × (base ≡ ok b) × (path_below paths b (trim_space key) ≡ ok target)
from_root paths key target (ok b) h = (b, refl, h)
from_root paths key target (err e) h = absurd cc

rooted_at :
    (paths : Paths) (root key target : List ℕ)
    → local_object_path paths root key ≡ ok target
    → (b : List ℕ) × (paths.absolute (trim_space root) ≡ ok b)
      × (path_below paths b (trim_space key) ≡ ok target)
unfolding local_object_path
rooted_at paths root key target h = elim (Bool-cases (is_blank root)) [
  | inl blank ↦ absurd (ground (arith, blank, h))
  | inr given ↦
      from_root paths key target (paths.absolute (trim_space root)) (ground (arith, given, h))
]

-- A path that is found for an object key is the root joined with the trimmed key, whose parts are
-- names without a step to a parent or a backslash.
pub local_object_path-IsBelow :
    (paths : Paths) (root key target : List ℕ)
    → local_object_path paths root key ≡ ok target
    → IsBelow paths root key target
local_object_path-IsBelow paths root key target h =
    let (base, rooted, found) = rooted_at paths root key target h in
    let (clean, good, joined) = path_below-ok paths base (trim_space key) target found in
    record {
      base = base;
      rooted = rooted;
      parts = split (trim_space key);
      spelled = join_parts-split (trim_space key);
      named = names (split (trim_space key)) (one_part_each (trim_space key)) good;
      no_backslash = no_backslash_in (trim_space key) clean;
      joined = joined ∙ ap (paths.join base) (join_parts-split (trim_space key));
    }
