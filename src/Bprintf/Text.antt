-- ===== src/Bprintf/Text.antt =====
-- The conversions `%c` and `%s`.
use borfos.Common.{
  ℕ, zero, suc, ◌-◌, List, [], ◌∷◌, ◌++◌, ltb, leb, ◌==◌, ◌&&◌, ◌||◌, if◌then◌else◌, u8, sub32, not,
  length,
}
use borfos.Bprintf.{Spec, State, Inputs, put, fill_clamped, print_digits, va_arg32}

unfoldable pub print_char : Inputs → Spec → State → State
print_char i p s =
    if leb p.min_width 1 || p.flags.left_adjust
    then (let (c, s1) = va_arg32 i s in
        let s2 = put (u8 c) s1 in
        if ltb 1 p.min_width then fill_clamped b' ' (p.min_width - 1) s2 else s2)
    else (let s1 = fill_clamped b' ' (p.min_width - 1) s in
        let (c, s2) = va_arg32 i s1 in if s1.max == 0 then s1 else put (u8 c) s2)

-- `memcpy(buffer, str, len)` for the first `len` bytes of the string.
unfoldable pub take : ℕ → List ℕ → List ℕ
take zero str = []
take (suc n) [] = []
take (suc n) (c ∷ str) = c ∷ take n str

unfoldable pub copy : ℕ → List ℕ → State → State
copy len str s = record s { out = s.out ++ take len str; max = sub32 s.max len }

-- The left-adjusted copy stops at the terminator or at the end of the buffer, as `print_digits`
-- does; `l = p - str` is then the whole length.
unfoldable pub print_string : Inputs → Spec → State → State
print_string i p s =
    let (address, s1) = va_arg32 i s in
    let str = i.string address in
    let len = length str in
    if p.min_width == 0 || p.flags.left_adjust
    then (let s2 = print_digits str s1 in
        if not (s2.max == 0) && ltb len p.min_width
        then fill_clamped b' ' (p.min_width - len) s2
        else s2)
    else (let s2 = if ltb len p.min_width then fill_clamped b' ' (p.min_width - len) s1 else s1 in
        copy (if ltb s2.max len then s2.max else len) str s2)
