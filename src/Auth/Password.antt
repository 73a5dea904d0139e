-- ===== src/Auth/Password.antt =====
-- `ValidPassword` of backend/internal/common/password.go. A password is a list of runes; a byte that
-- is no UTF-8 is a rune past ASCII, which is refused like any other.
use second_hand_market_backe.Base.{
  ℕ, ◌≡◌, refl, ◌≤◌, Bool, true, false, ◌&&◌, ◌||◌, List, [], ◌∷◌, arith, All, any, length, leb,
  ltb, inl, inr, Bool-cases, if◌then◌else◌,
}
use second_hand_market_backe.Base.Text.{byte_length}

abbrev pub is_letter : ℕ → Bool
is_letter c = (leb b'A' c && leb c b'Z') || (leb b'a' c && leb c b'z')

abbrev pub is_digit : ℕ → Bool
is_digit c = leb b'0' c && leb c b'9'

abbrev pub is_symbol : ℕ → Bool
is_symbol c = leb 33 c && leb c 126

-- The loop, with what was seen of letters and digits.
unfoldable pub scan_password : Bool → Bool → List ℕ → Bool
scan_password letter digit [] = letter && digit
scan_password letter digit (c ∷ s) =
    let with_letter = scan_password true digit s in
    let with_digit = scan_password letter true s in
    let rest = scan_password letter digit s in
    if is_letter c
    then with_letter
    else if is_digit c
    then with_digit
    else if is_symbol c
    then rest
    else false

unfoldable pub valid_password : List ℕ → Bool
valid_password password =
    if ltb (byte_length password) 12 || ltb 72 (byte_length password)
    then false
    else scan_password false false password

-- A password that bcrypt reads in full: 12 to 72 characters of printable ASCII, among them a letter
-- and a digit.
pub record IsStrong (password : List ℕ) : Type 0 where
  pub long : 12 ≤ length password
  pub short : length password ≤ 72
  pub printable : All (λ c. (33 ≤ c) × (c ≤ 126)) password
  pub letter : any is_letter password ≡ true
  pub digit : any is_digit password ≡ true

prints : (c : ℕ) → (is_letter c || is_digit c || is_symbol c) ≡ true → (33 ≤ c) × (c ≤ 126)
prints c h = (ground arith, ground arith)

scanned :
    (letter digit : Bool) (s : List ℕ)
    → scan_password letter digit s ≡ true
    → All (λ c. (33 ≤ c) × (c ≤ 126)) s
      × ((letter || any is_letter s) ≡ true)
      × ((digit || any is_digit s) ≡ true)
unfolding scan_password
scanned letter digit [] h = (tt, ground arith, ground arith)
scanned letter digit (c ∷ s) h = elim (Bool-cases (is_letter c)) [
  | inl a ↦
      let (p, l, d) = scanned true digit s (rw a at h) in
      ((prints c (ground (arith, a)), p), ground (arith, a), ground (arith, d))
  | inr a ↦ elim (Bool-cases (is_digit c)) [
    | inl b ↦
        let (p, l, d) = scanned letter true s (rw (a, b) at h) in
        ((prints c (ground (arith, b)), p), ground (arith, l), ground (arith, b))
    | inr b ↦ elim (Bool-cases (is_symbol c)) [
      | inl e ↦
          let (p, l, d) = scanned letter digit s (rw (a, b, e) at h) in
          ((prints c (ground (arith, e)), p), ground (arith, l), ground (arith, d))
      | inr e ↦ absurd (refused (rw (a, b, e) at h))
    ]
  ]
]
  where
    refused : false ≡ true → ⊥
    refused q = cc

ascii_length : (s : List ℕ) → All (λ c. (33 ≤ c) × (c ≤ 126)) s → byte_length s ≡ length s
ascii_length [] h = refl
ascii_length (c ∷ s) h = let ih = ascii_length s h.1 in ground (arith, ih, h.0.0, h.0.1)

-- A password is accepted only if it has 12 to 72 characters, all of them printable ASCII, with a
-- letter and a digit.
pub valid_password-IsStrong :
    (password : List ℕ) → valid_password password ≡ true → IsStrong password
unfolding valid_password
valid_password-IsStrong password h =
    let in_range = sized (byte_length password) (scan_password false false password) h in
    let (printable, letter, digit) = scanned false false password in_range.1 in
    let same = ascii_length password printable in
    record {
      long = rw (← same) in_range.0.0;
      short = rw (← same) in_range.0.1;
      printable = printable;
      letter = letter;
      digit = digit;
    }
  where
    sized :
        (n : ℕ) (b : Bool)
        → (if ltb n 12 || ltb 72 n then false else b) ≡ true
        → ((12 ≤ n) × (n ≤ 72)) × (b ≡ true)
    sized n b e = ((ground arith, ground arith), ground arith)
