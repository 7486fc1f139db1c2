-- ===== src/Bprintf/Roundtrip.antt =====
-- The digits that the conversions store read back as the number, in each radix.
use native.Mathlib.Nat.{pow-suc}
use borfos.Common.{
  ℕ, zero, suc, ◌+◌, ◌-◌, ◌*◌, ◌/◌, ◌%◌, ◌^◌, ◌≤◌, ◌<◌, ◌≡◌, refl, ◌∙◌, Bool, List, [], ◌∷◌, ltb,
  leb, ◌==◌, if◌then◌else◌, length, arith, Bool-cases, inl, inr,
}
use borfos.Bprintf.{PrintUnsigned, pu_decimal, pu_octal, pu_hex, pu_hex_upper}
use borfos.Bprintf.Digits.{
  radix, digit_char, digit_loop, max_digits, digits_of, min_long_digits, min_longlong_digits,
  signed_digits, Signed,
}

-- What a reader of numbers takes a byte for.
unfoldable pub char_value : PrintUnsigned → ℕ → ℕ
char_value pu_decimal c = c - b'0'
char_value pu_octal c = c - b'0'
char_value pu_hex c = if ltb c b'a' then c - b'0' else c - b'a' + 10
char_value pu_hex_upper c = if ltb c b'A' then c - b'0' else c - b'A' + 10

-- The number that a text stands for behind the number `acc`.
unfoldable pub read : PrintUnsigned → ℕ → List ℕ → ℕ
read u acc [] = acc
read u acc (c ∷ cs) = read u (acc * radix u + char_value u c) cs

char_value-digit_char :
    (u : PrintUnsigned) (d : ℕ) → d < radix u → char_value u (digit_char u d) ≡ d
unfolding char_value digit_char
char_value-digit_char pu_decimal d h = omega arith
char_value-digit_char pu_octal d h = omega arith
char_value-digit_char pu_hex d h = ground arith
char_value-digit_char pu_hex_upper d h = ground arith

div-lt-pow : (u : PrintUnsigned) (r num : ℕ) → num < radix u ^ suc r → num / radix u < radix u ^ r
div-lt-pow pu_decimal r num h = omega (arith, pow-suc 10 r)
div-lt-pow pu_octal r num h = omega (arith, pow-suc 8 r)
div-lt-pow pu_hex r num h = omega (arith, pow-suc 16 r)
div-lt-pow pu_hex_upper r num h = omega (arith, pow-suc 16 r)

div-eq-zero : (u : PrintUnsigned) (num : ℕ) → num < radix u ^ 1 → num / radix u ≡ 0
div-eq-zero pu_decimal num h = omega arith
div-eq-zero pu_octal num h = omega arith
div-eq-zero pu_hex num h = omega arith
div-eq-zero pu_hex_upper num h = omega arith

div-mod : (u : PrintUnsigned) (num : ℕ) → num / radix u * radix u + num % radix u ≡ num
div-mod pu_decimal num = omega arith
div-mod pu_octal num = omega arith
div-mod pu_hex num = omega arith
div-mod pu_hex_upper num = omega arith

mod-lt-radix : (u : PrintUnsigned) (num : ℕ) → num % radix u < radix u
mod-lt-radix pu_decimal num = omega arith
mod-lt-radix pu_octal num = omega arith
mod-lt-radix pu_hex num = omega arith
mod-lt-radix pu_hex_upper num = omega arith

-- One digit more in front.
read-digit_char :
    (u : PrintUnsigned) (num : ℕ) (digits : List ℕ)
    → read u (num / radix u) (digit_char u (num % radix u) ∷ digits) ≡ read u num digits
unfolding read
read-digit_char u num digits =
    rw (char_value-digit_char u (num % radix u) (mod-lt-radix u num)) (rw (div-mod u num) refl)

read-digit_loop :
    (u : PrintUnsigned) (r num : ℕ) (digits : List ℕ)
    → num < radix u ^ suc r
    → read u 0 (digit_loop u (suc r) num digits) ≡ read u num digits
unfolding digit_loop
read-digit_loop u zero num digits h =
    let z : num / radix u ≡ 0 = div-eq-zero u num h in rw z (rw z at (read-digit_char u num digits))
read-digit_loop u (suc r) num digits h = elim (Bool-cases (num / radix u == 0)) [
  | inl e ↦
      let z : num / radix u ≡ 0 = ground (arith, e) in rw e (rw z at (read-digit_char u num digits))
  | inr e ↦ rw e (
      read-digit_loop u r (num / radix u) (digit_char u (num % radix u) ∷ digits)
        (div-lt-pow u (suc r) num h)
      ∙ read-digit_char u num digits)
]

length-digit_loop :
    (u : PrintUnsigned) (r num : ℕ) (digits : List ℕ)
    → length (digit_loop u r num digits) ≤ r + length digits
unfolding digit_loop
length-digit_loop u zero num digits = omega arith
length-digit_loop u (suc r) num digits =
    ground (arith, length-digit_loop u r (num / radix u) (digit_char u (num % radix u) ∷ digits))

radix-max_digits : (u : PrintUnsigned) (num : ℕ) → num < 2 ^ 64 → num < radix u ^ max_digits
radix-max_digits pu_decimal num h = omega arith
radix-max_digits pu_octal num h = omega arith
radix-max_digits pu_hex num h = omega arith
radix-max_digits pu_hex_upper num h = omega arith

abbrev zero_text : Bool → List ℕ
zero_text b = if b then [] else b'0' ∷ []

zero_digits :
    (u : PrintUnsigned) (b : Bool)
    → (read u 0 (zero_text b) ≡ 0) × (length (zero_text b) ≤ max_digits)
unfolding read char_value
zero_digits pu_decimal b = ground arith
zero_digits pu_octal b = ground arith
zero_digits pu_hex b = ground arith
zero_digits pu_hex_upper b = ground arith

-- The digits of a number of at most 64 bits read back as the number in each radix, zero with a
-- precision included; there are at most 22 of them, so `digits[23]` has room for all.
pub read-digits_of :
    (u : PrintUnsigned) (has_precision : Bool) (num : ℕ)
    → num < 2 ^ 64
    → (read u 0 (digits_of u has_precision num) ≡ num)
      × (length (digits_of u has_precision num) ≤ max_digits)
unfolding digits_of
read-digits_of u has_precision num h = elim (Bool-cases (num == 0)) [
  | inl e ↦ rw e (let z : num ≡ 0 = ground (arith, e) in rw z (zero_digits u has_precision))
  | inr e ↦ rw e (
    read-digit_loop u 21 num [] (radix-max_digits u num h) ∙ unfold read in refl,
    omega (arith, length-digit_loop u max_digits num []),
  )
]

least_long : read pu_decimal 0 min_long_digits ≡ 2 ^ 31
unfolding read char_value
least_long = refl

least_longlong : read pu_decimal 0 min_longlong_digits ≡ 2 ^ 63
unfolding read char_value
least_longlong = refl

-- For the bits `num` of a signed number of `2 * half` bit patterns: the sign is stored exactly for
-- a negative number, and the digits read back as its absolute value.
abbrev pub IsSigned : ℕ → ℕ → Signed → Type 0
IsSigned half num d =
    (d.is_negative ≡ leb half num)
    × (read pu_decimal 0 d.digits ≡ (if leb half num then 2 * half - num else num))

signed_digits-IsSigned :
    (half num : ℕ) (least : List ℕ) (has_precision : Bool)
    → half ≤ 2 ^ 63
    → num < 2 * half
    → read pu_decimal 0 least ≡ half
    → IsSigned half num (signed_digits half least has_precision num)
unfolding signed_digits
signed_digits-IsSigned half num least b hh hn hl =
    ground (arith, read-digits_of pu_decimal b num, read-digits_of pu_decimal b (2 * half - num))

-- The sign and the digits that are stored for a `long` of 32 bits and for a `long long` of 64 bits,
-- with a precision or without: the sign is stored exactly for a negative number, and the digits read
-- back as its absolute value, the least `long` and the least `long long` included, whose digits are
-- written out in the source.
pub read-signed_digits :
    (has_precision : Bool) (long longlong : ℕ)
    → long < 2 ^ 32
    → longlong < 2 ^ 64
    → IsSigned (2 ^ 31) long (signed_digits (2 ^ 31) min_long_digits has_precision long)
      × IsSigned
          (2 ^ 63)
          longlong
          (signed_digits (2 ^ 63) min_longlong_digits has_precision longlong)
read-signed_digits b long longlong h k = (
  signed_digits-IsSigned (2 ^ 31) long min_long_digits b (omega arith) (omega (arith, h))
      least_long,
  signed_digits-IsSigned (2 ^ 63) longlong min_longlong_digits b (omega arith) (omega (arith, k))
      least_longlong,
)
