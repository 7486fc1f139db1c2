-- ===== src/Bprintf/Format.antt =====
-- `vbprintf`: the conversion letters, one round of its loop, and the loop. The fuel is the number
-- of rounds; `overrun` is the step of `*format++` past the terminator.
use borfos.Common.{
  ℕ, zero, suc, ◌+◌, ◌^◌, Bool, true, false, List, [], ◌∷◌, ◌==◌, ◌&&◌, ◌||◌, if◌then◌else◌, not,
  length,
}
use borfos.Bprintf.{
  PrintLength, pl_none, pl_char, pl_short, pl_long, pl_longlong, PrintUnsigned, pu_decimal,
  pu_octal, pu_hex, pu_hex_upper, Spec, State, Inputs, put, va_arg32, va_arg64,
}
use borfos.Bprintf.Digits.{
  digits_of, min_long_digits, min_longlong_digits, narrow_signed, narrow_unsigned, signed_digits,
}
use borfos.Bprintf.Parse.{peek, advance, parse_spec}
use borfos.Bprintf.Number.{print_signed, print_unsigned}
use borfos.Bprintf.Text.{print_char, print_string}

abbrev pub is_longlong : PrintLength → Bool
is_longlong pl_longlong = true
is_longlong pl_none = false
is_longlong pl_char = false
is_longlong pl_short = false
is_longlong pl_long = false

-- `case 'd': case 'i':`
unfoldable pub convert_signed : Inputs → Spec → State → State
convert_signed i p s =
    if is_longlong p.len
    then (let (num, s1) = va_arg64 i s in
        let d = signed_digits (2 ^ 63) min_longlong_digits p.has_precision num in
        print_signed p d.is_negative d.digits s1)
    else (let (num, s1) = va_arg32 i s in
        let d = signed_digits (2 ^ 31) min_long_digits p.has_precision (narrow_signed p.len num) in
        print_signed p d.is_negative d.digits s1)

-- `case 'u'` clears the flag `#` first; `case 'o'`, `'x'` and `'X'` keep it.
abbrev keeps_alternative : PrintUnsigned → Bool
keeps_alternative pu_decimal = false
keeps_alternative pu_octal = true
keeps_alternative pu_hex = true
keeps_alternative pu_hex_upper = true

-- `case 'u': case 'o': case 'x': case 'X':`, with the jump to `PrintUnsigned`.
unfoldable pub convert_unsigned : Inputs → PrintUnsigned → Spec → State → State
convert_unsigned i u p s =
    let alternative = p.flags.alternative && keeps_alternative u in
    if is_longlong p.len
    then (let (num, s1) = va_arg64 i s in
        print_unsigned p u (alternative && not (num == 0 && not p.has_precision))
          (digits_of u p.has_precision num) s1)
    else (let (word, s1) = va_arg32 i s in
        let num = narrow_unsigned p.len word in
        print_unsigned p u (alternative && not (num == 0)) (digits_of u p.has_precision num) s1)

-- The text of a null pointer, the last byte stored first.
abbrev nil_text : List ℕ
nil_text = b'(' ∷ b'n' ∷ b'i' ∷ b'l' ∷ b')' ∷ []

-- `case 'p':`
unfoldable pub convert_pointer : Inputs → Spec → State → State
convert_pointer i p s =
    let (num, s1) = va_arg32 i s in
    if num == 0
    then print_unsigned (record p { flags = record p.flags { zero_padd = false } }) pu_decimal false
        nil_text s1
    else print_unsigned p pu_hex true (digits_of pu_hex p.has_precision num) s1

-- `case 'n': *va_arg(ap, int*) = buffer - buffer_start;`
unfoldable pub convert_count : Inputs → State → State
convert_count i s =
    let (address, s1) = va_arg32 i s in record s1 { stored = (address, length s1.out) ∷ s1.stored }

-- The switch on the conversion letter; an unknown letter prints nothing.
unfoldable pub convert : Inputs → ℕ → Spec → State → State
convert i c p s =
    if c == b'd' || c == b'i'
    then convert_signed i p s
    else if c == b'u'
    then convert_unsigned i pu_decimal p s
    else if c == b'o'
    then convert_unsigned i pu_octal p s
    else if c == b'x'
    then convert_unsigned i pu_hex p s
    else if c == b'X'
    then convert_unsigned i pu_hex_upper p s
    else if c == b'p'
    then convert_pointer i p s
    else if c == b'c'
    then print_char i p s
    else if c == b's'
    then print_string i p s
    else if c == b'n'
    then convert_count i s
    else s

-- The outcome of a round, and of the whole call.
pub data Round : Type 0 where
  stop : Round
  go : List ℕ → State → Round
  past_end : Round

pub data Outcome : Type 0 where
  done : State → Outcome
  overrun : Outcome
  out_of_fuel : Outcome

-- Behind a `%` that no second one follows.
unfoldable pub directive : Inputs → List ℕ → State → Round
directive i fmt s =
    let p = parse_spec i fmt s in
    if peek p.fmt == 0 then past_end else go (advance p.fmt) (convert i (peek p.fmt) p.spec p.state)

unfoldable pub round : Inputs → List ℕ → State → Round
round i fmt s =
    if peek fmt == 0 || s.max == 0
    then stop
    else if not (peek fmt == b'%')
    then go (advance fmt) (put (peek fmt) s)
    else if peek (advance fmt) == b'%'
    then go (advance (advance fmt)) (put b'%' s)
    else directive i (advance fmt) s

unfoldable pub format_loop : Inputs → ℕ → List ℕ → State → Outcome
format_loop i zero fmt s = out_of_fuel
format_loop i (suc fuel) fmt s = elim (round i fmt s) [
  | stop ↦ done s
  | go fmt' s' ↦ format_loop i fuel fmt' s'
  | past_end ↦ overrun
]

-- Each round reads a byte of the format or is the last.
unfoldable pub vbprintf : Inputs → ℕ → List ℕ → ℕ → Outcome
vbprintf i max format ap =
    format_loop i (length format + 1) format (record { out = []; max = max; ap = ap; stored = [] })
