-- ===== src/Tag/Decimal.antt =====
-- The C library's `%d` and `atoi`, as `tag_to_string` and `string_to_tag` of
-- src/utilities/algo_utils.c use them.
use colas.Common.{
  ℕ, zero, suc, ◌+◌, ◌-◌, ◌*◌, ◌/◌, ◌%◌, ◌^◌, ◌<◌, ◌≤◌, ◌≡◌, refl, ap, ◌∙◌, Bool, true, false, ◌||◌,
  ◌&&◌, arith, [], ◌∷◌, if◌then◌else◌, ltb, leb, ◌==◌, Bytes, codes, length, All,
}
use native.Mathlib.Nat.{pow-suc}
use colas.Common.Int.{ℤ, pos, negsuc}

abbrev pub is_digit : ℕ → Bool
is_digit c = leb b'0' c && leb c b'9'

-- The digits of `n` in front of `out`; the fuel is a number of digits that is enough.
unfoldable pub digits : ℕ → ℕ → Bytes → Bytes
digits zero n out = out
digits (suc f) n out =
    let rest = digits f (n / 10) ((b'0' + n % 10) ∷ out) in
    if ltb n 10 then (b'0' + n) ∷ out else rest

-- Every `int` has at most ten digits.
unfoldable pub print_int : ℤ → Bytes
print_int (pos n) = digits 10 n []
print_int (negsuc n) = b'-' ∷ digits 10 (suc n) []

-- `strtol` reads digits up to the first byte that is none.
unfoldable pub scan : Bytes → ℕ → ℕ
scan [] n = n
scan (c ∷ s) n = let rest = scan s (n * 10 + (c - b'0')) in if is_digit c then rest else n

-- The cast of the `long` that `strtol` returns to `int`.
abbrev pub to_int : ℕ → ℤ
to_int n = if ltb (n % 2 ^ 32) (2 ^ 31) then pos (n % 2 ^ 32) else negsuc (2 ^ 32 - 1 - n % 2 ^ 32)

abbrev pub is_space : ℕ → Bool
is_space c = c == 32 || (leb 9 c && leb c 13)

signed : Bytes → ℤ
signed [] = pos 0
signed (c ∷ s) =
    if c == b'-'
    then to_int (2 ^ 64 - scan s 0)
    else if c == b'+'
    then to_int (scan s 0)
    else to_int (scan (c ∷ s) 0)

skip_spaces : Bytes → Bytes
skip_spaces [] = []
skip_spaces (c ∷ s) = let rest = skip_spaces s in if is_space c then rest else c ∷ s

-- `atoi` of a text of at most 15 bytes, which no `long` overflows.
unfoldable pub atoi : Bytes → ℤ
unfolding signed skip_spaces
atoi s = signed (skip_spaces s)

-- The range of `int`.
abbrev pub IsInt : ℤ → Type 0
IsInt (pos n) = n < 2 ^ 31
IsInt (negsuc n) = n < 2 ^ 31

test_print : print_int (negsuc 119) ≡ codes "-120"
unfolding print_int digits
test_print = refl

test_atoi : atoi (codes "-120x") ≡ negsuc 119
unfolding atoi scan
test_atoi = refl

pub All_digits :
    (f n : ℕ) (out : Bytes)
    → All (λ c. is_digit c ≡ true) out
    → All (λ c. is_digit c ≡ true) (digits f n out)
unfolding digits
All_digits zero n out h = h
All_digits (suc f) n out h = ground (arith, All_digits f (n / 10) ((b'0' + n % 10) ∷ out))

pub scan-digits : (f n : ℕ) (out : Bytes) → n < 10 ^ f → scan (digits f n out) 0 ≡ scan out n
unfolding digits scan
scan-digits zero n out h = ap (scan out) (omega arith)
scan-digits (suc f) n out h =
    ground (arith, scan-digits f (n / 10) ((b'0' + n % 10) ∷ out) (omega (arith, pow-suc 10 f)))

pub length-digits : (f n : ℕ) (out : Bytes) → length (digits f n out) ≤ f + length out
unfolding digits
length-digits zero n out = omega arith
length-digits (suc f) n out = ground (arith, length-digits f (n / 10) ((b'0' + n % 10) ∷ out))

is_digit-plain :
    (c : ℕ)
    → is_digit c ≡ true
    → ((c == b'-') ≡ false) × ((c == b'+') ≡ false) × (is_space c ≡ false) × (0 < c)
is_digit-plain c h = ground arith

-- `atoi` reads a text of digits as its value, if that is an `int`.
signed-digits :
    (s : Bytes) → All (λ c. is_digit c ≡ true) s → scan s 0 < 2 ^ 31 → atoi s ≡ pos (scan s 0)
unfolding atoi
signed-digits [] h lt = unfold scan in refl
signed-digits (c ∷ s) h lt = ground (arith, is_digit-plain c h.0)

read_back : (n : ℕ) → n < 10 ^ 10 → scan (digits 10 n []) 0 ≡ n
unfolding scan
read_back n h = scan-digits 10 n [] h

-- Printing an `int` with `%d` and reading it with `atoi` gives it again.
pub atoi-print_int : (z : ℤ) → IsInt z → atoi (print_int z) ≡ z
unfolding print_int
atoi-print_int (pos n) h =
    signed-digits (digits 10 n []) (All_digits 10 n [] tt)
      (omega (arith, read_back n (omega arith)))
    ∙ ap pos (read_back n (omega arith))
atoi-print_int (negsuc n) h = unfold atoi in ground (arith, read_back (suc n))

-- The bytes that `%d` writes.
abbrev pub InNumber : ℕ → Type 0
InNumber c = (c == b'_') ≡ false

digits-InNumber : (s : Bytes) → All (λ c. is_digit c ≡ true) s → All InNumber s
digits-InNumber [] h = tt
digits-InNumber (c ∷ s) h = (ground arith, digits-InNumber s h.1)

-- A printed `int` holds no underscore.
pub print_int-InNumber : (z : ℤ) → All InNumber (print_int z)
unfolding print_int
print_int-InNumber (pos n) = digits-InNumber (digits 10 n []) (All_digits 10 n [] tt)
print_int-InNumber (negsuc n) =
    (refl, digits-InNumber (digits 10 (suc n) []) (All_digits 10 (suc n) [] tt))

-- A printed `int` has at most eleven bytes.
pub length-print_int : (z : ℤ) → length (print_int z) ≤ 11
unfolding print_int
length-print_int (pos n) = omega (arith, length-digits 10 n [])
length-print_int (negsuc n) = omega (arith, length-digits 10 (suc n) [])

to_int-IsInt : (n : ℕ) → IsInt (to_int n)
to_int-IsInt n = ground arith

signed-IsInt : (s : Bytes) → IsInt (signed s)
unfolding signed
signed-IsInt [] = omega arith
signed-IsInt (c ∷ s) = ground (
  arith,
  to_int-IsInt (2 ^ 64 - scan s 0),
  to_int-IsInt (scan s 0),
  to_int-IsInt (scan (c ∷ s) 0),
)

pub atoi-IsInt : (s : Bytes) → IsInt (atoi s)
unfolding atoi
atoi-IsInt s = signed-IsInt (skip_spaces s)
