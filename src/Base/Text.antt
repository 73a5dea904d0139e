-- ===== src/Base/Text.antt =====
-- Texts that the program walks are lists of character codes; texts that it only compares are
-- native strings.
use Prim.Native.Char.{code}
use Prim.Native.Nat.{ℕ, ◌+◌}
use Prim.Native.String.{String}
use mathlib.Core.Bool.{Bool, true, false, ◌&&◌, ◌||◌}
use mathlib.Core.Path.{◌≡◌, refl}
use native.Mathlib.Omega.{arith}
use mathlib.Core.List.{List, [], ◌∷◌, map}
use second_hand_market_backe.Base.Tests.{◌==◌, leb, ltb, if◌then◌else◌}
use second_hand_market_backe.Base.Lists.{elem}

abbrev pub codes : String → List ℕ
codes String.[] = []
codes (String.◌∷◌ c s) = code c ∷ codes s

-- `strings.HasPrefix`
unfoldable pub has_prefix : List ℕ → List ℕ → Bool
has_prefix s [] = true
has_prefix [] (c ∷ p) = false
has_prefix (d ∷ s) (c ∷ p) = d == c && has_prefix s p

-- `strings.Contains`
unfoldable pub contains : List ℕ → List ℕ → Bool
unfolding has_prefix
contains [] p = has_prefix [] p
contains (c ∷ s) p = has_prefix (c ∷ s) p || contains s p

-- `strings.ToLower` on ASCII.
unfoldable pub to_lower : List ℕ → List ℕ
to_lower = map (λ c. if leb b'A' c && leb c b'Z' then c + 32 else c)

-- `==` on texts that are lists of codes.
unfoldable pub same_bytes : List ℕ → List ℕ → Bool
same_bytes [] [] = true
same_bytes (c ∷ s) (d ∷ t) = c == d && same_bytes s t
same_bytes _ _ = false

pub same_bytes_refl : (s : List ℕ) → same_bytes s s ≡ true
unfolding same_bytes
same_bytes_refl [] = refl
same_bytes_refl (c ∷ s) = ground (arith, same_bytes_refl s)

pub same_bytes→≡ : (s t : List ℕ) → same_bytes s t ≡ true → s ≡ t
unfolding same_bytes
same_bytes→≡ [] [] h = refl
same_bytes→≡ [] (d ∷ t) h = cc
same_bytes→≡ (c ∷ s) [] h = cc
same_bytes→≡ (c ∷ s) (d ∷ t) h = ground (arith, same_bytes→≡ s t)

-- `unicode.IsSpace`
abbrev is_space : ℕ → Bool
is_space c =
    (leb 9 c && leb c 13)
    || elem c (32 ∷ 133 ∷ 160 ∷ 5760 ∷ 8232 ∷ 8233 ∷ 8239 ∷ 8287 ∷ 12288 ∷ [])
    || (leb 8192 c && leb c 8202)

-- `strings.TrimSpace(s) == ""`
unfoldable pub is_blank : List ℕ → Bool
is_blank [] = true
is_blank (c ∷ s) = is_space c && is_blank s

abbrev reversed : List ℕ → List ℕ → List ℕ
reversed [] acc = acc
reversed (c ∷ s) acc = reversed s (c ∷ acc)

abbrev drop_spaces : List ℕ → List ℕ
drop_spaces [] = []
drop_spaces (c ∷ s) = let rest = drop_spaces s in if is_space c then rest else c ∷ s

-- `strings.TrimSpace`
unfoldable pub trim_space : List ℕ → List ℕ
trim_space s = reversed (drop_spaces (reversed (drop_spaces s) [])) []

-- `strings.HasSuffix`
unfoldable pub has_suffix : List ℕ → List ℕ → Bool
unfolding has_prefix
has_suffix s p = has_prefix (reversed s []) (reversed p [])

-- `len` of a text that is held in UTF-8.
abbrev pub byte_length : List ℕ → ℕ
byte_length [] = 0
byte_length (c ∷ s) =
    (if ltb c 128 then 1 else if ltb c 2048 then 2 else if ltb c 65536 then 3 else 4)
    + byte_length s
