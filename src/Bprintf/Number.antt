-- ===== src/Bprintf/Number.antt =====
-- The two blocks of `vbprintf` that print a number: sign or prefix, zeros, digits and padding.
use borfos.Common.{
  ℕ, ◌+◌, ◌-◌, Bool, true, false, List, ltb, leb, ◌==◌, ◌&&◌, ◌||◌, if◌then◌else◌, u32, sub32, not,
  length,
}
use borfos.Bprintf.{
  PrintUnsigned, pu_decimal, pu_octal, pu_hex, pu_hex_upper, Spec, State, put, put_when,
  fill_clamped, print_digits,
}

-- `precision_count = precision_count - digits_count`, where `precision_count` is 0.
unfoldable pub precision_count : Spec → List ℕ → ℕ
precision_count p digits =
    if p.has_precision && ltb (length digits) p.precision then sub32 0 (length digits) else 0

unfoldable pub sign_width : Spec → Bool → ℕ
sign_width p is_negative = if is_negative || p.flags.space || p.flags.sign then 1 else 0

unfoldable pub sign_char : Spec → Bool → ℕ
sign_char p is_negative = if is_negative then b'-' else if p.flags.sign then b'+' else b' '

unfoldable pub pad_char : Spec → ℕ
pad_char p = if p.has_precision || not p.flags.zero_padd then b' ' else b'0'

-- `if (max && min_width > total_width)`: the blanks behind a left-adjusted number.
unfoldable pub pad_right : Spec → ℕ → State → State
pad_right p total_width s =
    if not (s.max == 0) && ltb total_width p.min_width
    then fill_clamped b' ' (p.min_width - total_width) s
    else s

unfoldable pub print_signed : Spec → Bool → List ℕ → State → State
print_signed p is_negative digits s =
    let zeros = precision_count p digits in
    let total_width = u32 (length digits + zeros + sign_width p is_negative) in
    if leb p.min_width total_width || p.flags.left_adjust
    then (let s1 = put_when (not (sign_width p is_negative == 0)) (sign_char p is_negative) s in
        pad_right p total_width (print_digits digits (fill_clamped b'0' zeros s1)))
    else (let s1 = fill_clamped (pad_char p) (p.min_width - total_width) s in
        let s2 =
          put_when (not (s1.max == 0) && not (sign_width p is_negative == 0))
            (sign_char p is_negative) s1 in
        print_digits digits (fill_clamped b'0' zeros s2))

unfoldable pub alternative_width : PrintUnsigned → Bool → ℕ
alternative_width pu_hex true = 2
alternative_width pu_hex_upper true = 2
alternative_width pu_octal true = 1
alternative_width pu_decimal true = 0
alternative_width u false = 0

-- The second byte of the prefix; octal has none.
unfoldable pub put_x : PrintUnsigned → State → State
put_x pu_octal s = s
put_x pu_decimal s = put_when (not (s.max == 0)) b'X' s
put_x pu_hex s = put_when (not (s.max == 0)) b'x' s
put_x pu_hex_upper s = put_when (not (s.max == 0)) b'X' s

-- The prefix `0`, `0x` or `0X`, under a condition.
unfoldable pub put_prefix : Bool → PrintUnsigned → State → State
put_prefix b u s = if b then put_x u (put b'0' s) else s

unfoldable pub print_unsigned : Spec → PrintUnsigned → Bool → List ℕ → State → State
print_unsigned p u alternative digits s =
    let zeros = precision_count p digits in
    let prefix = alternative_width u alternative in
    let total_width = u32 (length digits + zeros + prefix) in
    if leb p.min_width total_width || p.flags.left_adjust
    then (let s1 = put_prefix (not (prefix == 0)) u s in
        pad_right p total_width (print_digits digits (fill_clamped b'0' zeros s1)))
    else (let s1 = fill_clamped (pad_char p) (p.min_width - total_width) s in
        let s2 = put_prefix (not (s1.max == 0) && not (prefix == 0)) u s1 in
        print_digits digits (fill_clamped b'0' zeros s2))
