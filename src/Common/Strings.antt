-- ===== src/Common/Strings.antt =====
-- C strings as their bytes without the final NUL, and `strcmp`.
use colas.Common.Tests.{◌==◌, if◌then◌else◌, ltb}
use colas.Common.Lists.{length, All}
use colas.Common.Int.{ℤ, pos, sub_ℕ, pos_part, neg_part, ◌<ℤ◌}
use Prim.Native.Nat.{ℕ, ◌<◌}
use Prim.Native.Char.{code}
use Prim.Native.String.{String}
use mathlib.Core.Path.{◌≡◌, refl}
use mathlib.Core.Logic.{◌↔◌, ◌≢◌}
use mathlib.Core.Bool.{Bool, true, false, ◌&&◌}
use mathlib.Core.Option.{Option, none, some}
use mathlib.Core.List.{List, [], ◌∷◌}
use native.Mathlib.Omega.{arith}

abbrev pub Bytes : Type 0
Bytes = List ℕ

-- The bytes of an ASCII literal.
abbrev pub codes : String → Bytes
codes String.[] = []
codes (String.◌∷◌ c s) = code c ∷ codes s

-- `strcmp(a, b) == 0`: the two C strings have the same bytes.
unfoldable pub streq : Bytes → Bytes → Bool
streq [] [] = true
streq [] (y ∷ ys) = false
streq (x ∷ xs) [] = false
streq (x ∷ xs) (y ∷ ys) = x == y && streq xs ys

-- The value that glibc returns: the difference of the first bytes that differ, as `unsigned char`,
-- where the final NUL counts as 0. The C standard fixes its sign alone.
unfoldable pub strcmp : Bytes → Bytes → ℤ
strcmp [] [] = pos 0
strcmp [] (y ∷ ys) = sub_ℕ 0 y
strcmp (x ∷ xs) [] = pos x
strcmp (x ∷ xs) (y ∷ ys) = if x == y then strcmp xs ys else sub_ℕ x y

-- No NUL among the bytes, as in every C string.
abbrev pub IsCString : Bytes → Type 0
IsCString = All (λ c. 0 < c)

-- The C string that starts at the first byte of a buffer: it ends before the first NUL.
unfoldable pub c_str : Bytes → Bytes
c_str [] = []
c_str (c ∷ s) = let rest = c_str s in if c == 0 then [] else c ∷ rest

-- A C string copied into a buffer of `cap` bytes, with its NUL: past the end is a fault.
unfoldable pub fits : ℕ → Bytes → Option Bytes
fits cap s = if ltb (length s) cap then some s else none

pub streq_refl : (a : Bytes) → streq a a ≡ true
unfolding streq
streq_refl [] = refl
streq_refl (x ∷ xs) = ground (arith, streq_refl xs)

pub streq→eq : (a b : Bytes) → streq a b ≡ true → a ≡ b
unfolding streq
streq→eq [] [] h = refl
streq→eq [] (y ∷ ys) h = cc
streq→eq (x ∷ xs) [] h = cc
streq→eq (x ∷ xs) (y ∷ ys) h = ground (arith, streq→eq xs ys)

pub streq_iff : (a b : Bytes) → (streq a b ≡ true) ↔ (a ≡ b)
streq_iff a b = (streq→eq a b, λ e. ground (arith, streq_refl a))

pub streq-ne : (a b : Bytes) → a ≢ b → streq a b ≡ false
streq-ne a b h = ground (arith, streq→eq a b)

pub strcmp-eq-zero : (a b : Bytes) → IsCString a → IsCString b → (strcmp a b ≡ pos 0) ↔ (a ≡ b)
unfolding strcmp
strcmp-eq-zero [] [] ha hb = ground arith
strcmp-eq-zero [] (y ∷ ys) ha hb = ground arith
strcmp-eq-zero (x ∷ xs) [] ha hb = ground arith
strcmp-eq-zero (x ∷ xs) (y ∷ ys) ha hb = ground (arith, strcmp-eq-zero xs ys ha.1 hb.1)

pub strcmp_flip :
    (a b : Bytes)
    → (pos_part (strcmp a b) ≡ neg_part (strcmp b a))
      × (neg_part (strcmp a b) ≡ pos_part (strcmp b a))
unfolding strcmp
strcmp_flip [] [] = ground arith
strcmp_flip [] (y ∷ ys) = ground arith
strcmp_flip (x ∷ xs) [] = ground arith
strcmp_flip (x ∷ xs) (y ∷ ys) = ground (arith, strcmp_flip xs ys)

pub strcmp_trans : (a b c : Bytes) → strcmp a b <ℤ pos 0 → strcmp b c <ℤ pos 0 → strcmp a c <ℤ pos 0
unfolding strcmp
strcmp_trans [] [] c h k = absurd (omega arith)
strcmp_trans (x ∷ xs) [] c h k = absurd (omega arith)
strcmp_trans [] (y ∷ ys) [] h k = absurd (omega arith)
strcmp_trans (x ∷ xs) (y ∷ ys) [] h k = absurd (omega arith)
strcmp_trans [] (y ∷ ys) (z ∷ zs) h k = ground arith
strcmp_trans (x ∷ xs) (y ∷ ys) (z ∷ zs) h k = ground (arith, strcmp_trans xs ys zs)

pub c_str-IsCString : (s : Bytes) → IsCString (c_str s)
unfolding c_str
c_str-IsCString [] = tt
c_str-IsCString (c ∷ s) = ground (arith, c_str-IsCString s)

pub c_str_self : (s : Bytes) → IsCString s → c_str s ≡ s
unfolding c_str
c_str_self [] h = refl
c_str_self (c ∷ s) h = ground (arith, c_str_self s h.1)

pub fits_some : (cap : ℕ) (s : Bytes) → length s < cap → fits cap s ≡ some s
unfolding fits
fits_some cap s h = ground arith

pub strcmp_self : (s : Bytes) → strcmp s s ≡ pos 0
unfolding strcmp
strcmp_self [] = refl
strcmp_self (c ∷ s) = ground (arith, strcmp_self s)
