-- ===== src/Bprintf/Digits.antt =====
-- The digit loops of `vbprintf`: digits are pushed lowest first, so the list's head is
-- `digits_top[-1]`, the digit that is printed first.
use borfos.Common.{
  ℕ, zero, suc, ◌+◌, ◌-◌, ◌*◌, ◌/◌, ◌%◌, ◌^◌, Bool, true, false, List, [], ◌∷◌, ltb, ◌==◌,
  if◌then◌else◌, u8, u16,
}
use borfos.Bprintf.{
  PrintLength, pl_none, pl_char, pl_short, pl_long, pl_longlong, PrintUnsigned, pu_decimal,
  pu_octal, pu_hex, pu_hex_upper,
}

abbrev pub radix : PrintUnsigned → ℕ
radix pu_decimal = 10
radix pu_octal = 8
radix pu_hex = 16
radix pu_hex_upper = 16

-- The byte stored for a digit.
unfoldable pub digit_char : PrintUnsigned → ℕ → ℕ
digit_char pu_decimal d = b'0' + d
digit_char pu_octal d = b'0' + d
digit_char pu_hex d = (if ltb d 10 then b'0' else b'a' - 10) + d
digit_char pu_hex_upper d = (if ltb d 10 then b'0' else b'A' - 10) + d

-- `do { *(digits_top++) = …; num /= radix; } while (num);` for at most `rounds` rounds.
unfoldable pub digit_loop : PrintUnsigned → ℕ → ℕ → List ℕ → List ℕ
unfolding digit_char
digit_loop u zero num digits = digits
digit_loop u (suc rounds) num digits =
    let digits = digit_char u (num % radix u) ∷ digits in
    let rest = digit_loop u rounds (num / radix u) digits in
    if num / radix u == 0 then digits else rest

-- 22 octal digits hold 64 bits.
abbrev pub max_digits : ℕ
max_digits = 22

-- `if (num) do … while (num); else if (!has_precision) *(digits_top++) = '0';`
unfoldable pub digits_of : PrintUnsigned → Bool → ℕ → List ℕ
unfolding digit_loop
digits_of u has_precision num =
    if num == 0 then (if has_precision then [] else b'0' ∷ []) else digit_loop u max_digits num []

-- The digits that are stored for the least `long` and the least `long long`, the last one first.
abbrev pub min_long_digits : List ℕ
min_long_digits = b'2' ∷ b'1' ∷ b'4' ∷ b'7' ∷ b'4' ∷ b'8' ∷ b'3' ∷ b'6' ∷ b'4' ∷ b'8' ∷ []

abbrev pub min_longlong_digits : List ℕ
min_longlong_digits =
    b'9' ∷ b'2' ∷ b'2' ∷ b'3' ∷ b'3' ∷ b'7' ∷ b'2' ∷ b'0' ∷ b'3' ∷ b'6' ∷ b'8' ∷ b'5' ∷ b'4' ∷ b'7'
    ∷ b'7' ∷ b'5' ∷ b'8' ∷ b'0' ∷ b'8' ∷ []

-- `num = (short)num` and `num = (char)num` on the bits of a `long`; `char` is signed.
unfoldable pub narrow_signed : PrintLength → ℕ → ℕ
narrow_signed pl_short num = if ltb (u16 num) (2 ^ 15) then u16 num else u16 num + 2 ^ 32 - 2 ^ 16
narrow_signed pl_char num = if ltb (u8 num) (2 ^ 7) then u8 num else u8 num + 2 ^ 32 - 2 ^ 8
narrow_signed pl_none num = num
narrow_signed pl_long num = num
narrow_signed pl_longlong num = num

unfoldable pub narrow_unsigned : PrintLength → ℕ → ℕ
narrow_unsigned pl_short num = u16 num
narrow_unsigned pl_char num = u8 num
narrow_unsigned pl_none num = num
narrow_unsigned pl_long num = num
narrow_unsigned pl_longlong num = num

-- The sign and the digits of a signed number of `2 * half` bit patterns.
pub record Signed : Type 0 where
  pub is_negative : Bool
  pub digits : List ℕ

unfoldable pub signed_digits : ℕ → List ℕ → Bool → ℕ → Signed
unfolding digits_of
signed_digits half least has_precision num =
    if num == half
    then record { is_negative = true; digits = least }
    else if ltb half num
    then record { is_negative = true; digits = digits_of pu_decimal has_precision (2 * half - num) }
    else record { is_negative = false; digits = digits_of pu_decimal has_precision num }
