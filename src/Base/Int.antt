-- ===== src/Base/Int.antt =====
-- Go's `int`: signed numbers of 64 bits, whose sums and differences wrap around.
use Prim.Native.Nat.{ℕ, suc, ◌+◌, ◌-◌, ◌≤◌, ◌<◌}
use mathlib.Core.Path.{◌≡◌}
use mathlib.Core.Bool.{Bool, true}
use native.Mathlib.Omega.{arith}
use second_hand_market_backe.Base.Tests.{ltb, leb, ◌==◌, if◌then◌else◌}

-- `negsuc n` is -(n + 1).
pub data ℤ : Type 0 where
  pos : ℕ → ℤ
  negsuc : ℕ → ℤ

abbrev pub pos_part : ℤ → ℕ
pos_part (pos n) = n
pos_part (negsuc n) = 0

abbrev pub neg_part : ℤ → ℕ
neg_part (pos n) = 0
neg_part (negsuc n) = suc n

-- a - b, as an integer.
abbrev pub sub_ℕ : ℕ → ℕ → ℤ
sub_ℕ a b = if leb b a then pos (a - b) else negsuc (b - a - 1)

infixl 65 ◌+ℤ◌ ◌-ℤ◌
infix 50 ◌≤ℤ◌ ◌<ℤ◌
unfoldable pub ◌+ℤ◌ : ℤ → ℤ → ℤ
a +ℤ b = sub_ℕ (pos_part a + pos_part b) (neg_part a + neg_part b)

unfoldable pub ◌-ℤ◌ : ℤ → ℤ → ℤ
a -ℤ b = sub_ℕ (pos_part a + neg_part b) (neg_part a + pos_part b)

abbrev pub ◌≤ℤ◌ : ℤ → ℤ → Type 0
a ≤ℤ b = pos_part a + neg_part b ≤ pos_part b + neg_part a

abbrev pub ◌<ℤ◌ : ℤ → ℤ → Type 0
a <ℤ b = pos_part a + neg_part b < pos_part b + neg_part a

abbrev pub ltb_ℤ : ℤ → ℤ → Bool
ltb_ℤ a b = ltb (pos_part a + neg_part b) (pos_part b + neg_part a)

abbrev pub leb_ℤ : ℤ → ℤ → Bool
leb_ℤ a b = leb (pos_part a + neg_part b) (pos_part b + neg_part a)

abbrev pub eqb_ℤ : ℤ → ℤ → Bool
eqb_ℤ a b = (pos_part a + neg_part b) == (pos_part b + neg_part a)

pub +ℤ_parts :
    (a b : ℤ)
    → pos_part (a +ℤ b) + neg_part a + neg_part b ≡ neg_part (a +ℤ b) + pos_part a + pos_part b
unfolding ◌+ℤ◌
+ℤ_parts a b = ground arith

pub -ℤ_parts :
    (a b : ℤ)
    → pos_part (a -ℤ b) + neg_part a + pos_part b ≡ neg_part (a -ℤ b) + pos_part a + neg_part b
unfolding ◌-ℤ◌
-ℤ_parts a b = ground arith

pub eq_of_parts : (a b : ℤ) → pos_part a + neg_part b ≡ pos_part b + neg_part a → a ≡ b
eq_of_parts a b h = ground arith

pub eqb_ℤ→≡ : (a b : ℤ) → eqb_ℤ a b ≡ true → a ≡ b
eqb_ℤ→≡ a b h = ground (arith, eq_of_parts a b)

pub ruleset int_laws = (arith, +ℤ_parts, -ℤ_parts, eq_of_parts)

abbrev pub half64 : ℤ
half64 = pos 9223372036854775808

abbrev pub mod64 : ℤ
mod64 = pos 18446744073709551616

-- The values of an `int`.
abbrev pub In64 : ℤ → Type 0
In64 x = (negsuc 9223372036854775807 ≤ℤ x) × (x <ℤ half64)

-- The sum or difference of two `int` values passes the range by at most one modulus.
pub wrap64 : ℤ → ℤ
wrap64 x =
    if leb_ℤ half64 x
    then x -ℤ mod64
    else if ltb_ℤ x (negsuc 9223372036854775807)
    then x +ℤ mod64
    else x

infixl 65 ◌+64◌ ◌-64◌
unfoldable pub ◌+64◌ : ℤ → ℤ → ℤ
unfolding wrap64
a +64 b = wrap64 (a +ℤ b)

unfoldable pub ◌-64◌ : ℤ → ℤ → ℤ
unfolding wrap64
a -64 b = wrap64 (a -ℤ b)

-- Within the range nothing wraps.
pub +64-exact : (a b : ℤ) → In64 (a +ℤ b) → a +64 b ≡ a +ℤ b
unfolding ◌+64◌
+64-exact a b h = ground arith

pub -64-exact : (a b : ℤ) → In64 (a -ℤ b) → a -64 b ≡ a -ℤ b
unfolding ◌-64◌
-64-exact a b h = ground arith

-- The column of 32 bits refuses a sum that has wrapped.
pub +64-fits :
    (a b : ℤ)
    → pos 0 ≤ℤ a
    → a <ℤ pos 2147483648
    → pos 0 <ℤ b
    → b <ℤ half64
    → negsuc 2147483647 ≤ℤ (a +64 b)
    → (a +64 b) <ℤ pos 2147483648
    → a +64 b ≡ a +ℤ b
unfolding ◌+64◌ ◌+ℤ◌ ◌-ℤ◌
+64-fits (pos a) (pos b) h1 h2 h3 h4 h5 h6 = ground arith
+64-fits _ _ h1 h2 h3 h4 h5 h6 = absurd (omega arith)
