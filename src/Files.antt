-- ===== src/Files.antt =====
-- `LocalObjectPath` of backend/internal/media/local_storage.go, on POSIX, where `filepath.FromSlash`
-- and `filepath.ToSlash` change nothing. The functions of path/filepath are parameters.
pub mod Below
use second_hand_market_backe.Base.{
  ℕ, Bool, true, false, ◌||◌, List, [], ◌∷◌, ◌++◌, ◌==◌, any, if◌then◌else◌,
}
use second_hand_market_backe.Base.Text.{trim_space, is_blank, contains, has_prefix, same_bytes}
use second_hand_market_backe.Errors.{Result, ok, err, biz, invalid_upload}

pub record Paths : Type 0 where
  pub absolute : List ℕ → Result (List ℕ)
  pub join : List ℕ → List ℕ → List ℕ
  pub relative : List ℕ → List ℕ → Result (List ℕ)

abbrev slash : ℕ
slash = b'/'

abbrev backslash : ℕ
backslash = 92

abbrev dot : ℕ
dot = b'.'

abbrev on_first : ℕ → List (List ℕ) → List (List ℕ)
on_first c [] = (c ∷ []) ∷ []
on_first c (p ∷ ps) = (c ∷ p) ∷ ps

-- `strings.Split(key, "/")`
abbrev split : List ℕ → List (List ℕ)
split [] = [] ∷ []
split (c ∷ s) = let rest = split s in if c == slash then [] ∷ rest else on_first c rest

-- `strings.Join(parts, "/")`
abbrev join_parts : List (List ℕ) → List ℕ
join_parts [] = []
join_parts (p ∷ ps) = let rest = join_parts ps in elim ps [ [] ↦ p | q ∷ qs ↦ p ++ (slash ∷ rest) ]

abbrev is_bad_part : List ℕ → Bool
is_bad_part p = same_bytes p [] || same_bytes p (dot ∷ []) || same_bytes p (dot ∷ dot ∷ [])

unfoldable pub within : Paths → List ℕ → List ℕ → Result (List ℕ)
within paths base target = elim (paths.relative base target) [
  | err e ↦ err (biz invalid_upload)
  | ok rel ↦
      if same_bytes rel (dot ∷ []) || has_prefix rel (dot ∷ dot ∷ slash ∷ [])
      then err (biz invalid_upload)
      else ok target
]

unfoldable pub path_below : Paths → List ℕ → List ℕ → Result (List ℕ)
path_below paths base key =
    if contains key (backslash ∷ [])
    then err (biz invalid_upload)
    else if same_bytes key [] || has_prefix key (slash ∷ [])
    then err (biz invalid_upload)
    else if any is_bad_part (split key)
    then err (biz invalid_upload)
    else within paths base (paths.join base (join_parts (split key)))

unfoldable pub local_object_path : Paths → List ℕ → List ℕ → Result (List ℕ)
local_object_path paths root object_key =
    if is_blank root then err (biz invalid_upload) else elim (paths.absolute (trim_space root)) [
      | err e ↦ err e
      | ok base ↦ path_below paths base (trim_space object_key)
    ]
