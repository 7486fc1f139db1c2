-- ===== src/Bprintf/Parse.antt =====
-- How `vbprintf` reads a conversion specification. The format is the bytes of its string; at its
-- end `*format` is the terminator, 0.
use borfos.Common.{
  ℕ, ◌+◌, ◌-◌, ◌*◌, ◌^◌, Bool, true, false, List, [], ◌∷◌, leb, ◌==◌, ◌&&◌, if◌then◌else◌, u32,
  Option, none, some,
}
use borfos.Bprintf.{
  pl_none, pl_char, pl_short, pl_long, pl_longlong, Flags, no_flags, Spec, State, Inputs, va_arg32,
}

abbrev pub peek : List ℕ → ℕ
peek [] = 0
peek (c ∷ fmt) = c

-- `++format`, where `*format` is known not to be the terminator.
abbrev pub advance : List ℕ → List ℕ
advance [] = []
advance (c ∷ fmt) = fmt

-- The flag that a byte sets; `none` is the `default: goto DoneFlags`.
unfoldable pub flag : ℕ → Flags → Option Flags
flag c f =
    if c == b'#'
    then some (record f { alternative = true })
    else if c == b'0'
    then some (record f { zero_padd = true })
    else if c == b'-'
    then some (record f { left_adjust = true })
    else if c == b' '
    then some (record f { space = true })
    else if c == b'+'
    then some (record f { sign = true })
    else none

unfoldable pub parse_flags : Flags → List ℕ → Flags × List ℕ
parse_flags f [] = (f, [])
parse_flags f (c ∷ fmt) = elim (flag c f) [ none ↦ (f, c ∷ fmt) | some g ↦ parse_flags g fmt ]

abbrev pub is_digit : ℕ → Bool
is_digit c = leb b'0' c && leb c b'9'

-- `for (; '0' <= *format && *format <= '9'; ++format) { n *= 10; n += *format - '0'; }`
unfoldable pub parse_number : ℕ → List ℕ → ℕ × List ℕ
parse_number n [] = (n, [])
parse_number n (c ∷ fmt) =
    let rest = parse_number (u32 (u32 (n * 10) + (c - b'0'))) fmt in
    if is_digit c then rest else (n, c ∷ fmt)

-- What the parsing of a specification passes on.
pub record Parsed : Type 0 where
  pub spec : Spec
  pub fmt : List ℕ
  pub state : State

abbrev default_spec : Flags → ℕ → Spec
default_spec f w = record {
  flags = f;
  min_width = w;
  has_precision = false;
  precision = 0;
  len = pl_none;
}

-- The minimal width: `*` takes an `int`, and a negative one means left adjustment.
unfoldable pub parse_width : Inputs → Flags → List ℕ → State → Parsed
parse_width i f fmt s =
    let (width, s') = va_arg32 i s in
    let (n, fmt') = parse_number 0 fmt in
    if peek fmt == b'*'
    then record {
      spec =
          if leb (2 ^ 31) width
          then default_spec (record f { left_adjust = true }) (2 ^ 32 - width)
          else default_spec f width;
      fmt = advance fmt;
      state = s';
    }
    else record { spec = default_spec f n; fmt = fmt'; state = s }

unfoldable pub parse_precision : Inputs → Parsed → Parsed
parse_precision i p =
    let fmt = advance p.fmt in
    let (precision, s') = va_arg32 i p.state in
    let (n, fmt') = parse_number 0 fmt in
    if peek p.fmt == b'.'
    then (if peek fmt == b'*'
        then record {
          spec = record p.spec { has_precision = true; precision = precision };
          fmt = advance fmt;
          state = s';
        }
        else record p { spec = record p.spec { has_precision = true; precision = n }; fmt = fmt' })
    else p

unfoldable pub parse_length : Parsed → Parsed
parse_length p =
    let fmt = advance p.fmt in
    if peek p.fmt == b'h'
    then (if peek fmt == b'h'
        then record p { spec = record p.spec { len = pl_char }; fmt = advance fmt }
        else record p { spec = record p.spec { len = pl_short }; fmt = fmt })
    else if peek p.fmt == b'l'
    then (if peek fmt == b'l'
        then record p { spec = record p.spec { len = pl_longlong }; fmt = advance fmt }
        else record p { spec = record p.spec { len = pl_long }; fmt = fmt })
    else p

-- Everything between `%` and the conversion letter.
unfoldable pub parse_spec : Inputs → List ℕ → State → Parsed
parse_spec i fmt s =
    let (f, fmt') = parse_flags no_flags fmt in
    parse_length (parse_precision i (parse_width i f fmt' s))
