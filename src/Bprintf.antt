-- ===== src/Bprintf.antt =====
-- kernel/lib/bprintf.c: the state of a call of `vbprintf` and its writes to the buffer.
-- The buffer is the list of the bytes written so far; `max` is the room left, a `size_t` of 32
-- bits, so a decrement at 0 wraps. Arguments are the 32-bit words of the stack behind `ap`, and
-- a string argument is the bytes at its address.
pub mod Digits
pub mod Parse
pub mod Number
pub mod Text
pub mod Format
pub mod Safety
pub mod Convert
pub mod Loop
pub mod Unfinished
pub mod Wrote
pub mod Printed
pub mod Roundtrip
pub mod Padding
pub mod Tests
use borfos.Common.{
  ℕ, suc, ◌+◌, ◌-◌, ◌*◌, ◌^◌, ◌%◌, Bool, true, false, List, [], ◌∷◌, ◌++◌, sub32, replicate, length,
  ltb, ◌==◌, if◌then◌else◌,
}

pub data PrintLength : Type 0 where
  pl_none pl_char pl_short pl_long pl_longlong : PrintLength

pub data PrintUnsigned : Type 0 where
  pu_decimal pu_octal pu_hex pu_hex_upper : PrintUnsigned

-- The five flag variables of a conversion.
pub record Flags : Type 0 where
  pub alternative : Bool
  pub zero_padd : Bool
  pub left_adjust : Bool
  pub space : Bool
  pub sign : Bool

abbrev pub no_flags : Flags
no_flags = record {
  alternative = false;
  zero_padd = false;
  left_adjust = false;
  space = false;
  sign = false;
}

-- What a conversion specification says before its letter.
pub record Spec : Type 0 where
  pub flags : Flags
  pub min_width : ℕ
  pub has_precision : Bool
  pub precision : ℕ
  pub len : PrintLength

-- The bytes from `buffer_start` to `buffer`, the room left, the position in the argument words,
-- and the writes of `%n`, the last one first.
pub record State : Type 0 where
  pub out : List ℕ
  pub max : ℕ
  pub ap : ℕ
  pub stored : List (ℕ × ℕ)

-- What a call reads: the argument words, and the string at an address.
pub record Inputs : Type 0 where
  pub word : ℕ → ℕ
  pub string : ℕ → List ℕ

-- `*(buffer++) = c; --max;`
unfoldable pub put : ℕ → State → State
put c s = record s { out = s.out ++ c ∷ []; max = sub32 s.max 1 }

-- The same under a condition.
unfoldable pub put_when : Bool → ℕ → State → State
put_when b c s = if b then put c s else s

-- `memset(buffer, c, w); buffer += w; max -= w;`
unfoldable pub fill : ℕ → ℕ → State → State
fill c w s = record s { out = s.out ++ replicate w c; max = sub32 s.max w }

-- `if (w > max) w = max;` and then the same.
unfoldable pub fill_clamped : ℕ → ℕ → State → State
fill_clamped c w s = fill c (if ltb s.max w then s.max else w) s

-- `while (digits_top != digits && max) { *(buffer++) = *(--digits_top); --max; }`
unfoldable pub print_digits : List ℕ → State → State
print_digits [] s = s
print_digits (d ∷ ds) s = let rest = print_digits ds (put d s) in if s.max == 0 then s else rest

-- `va_arg(ap, int)`, and the two words of a `long long`, the low one first.
unfoldable pub va_arg32 : Inputs → State → ℕ × State
va_arg32 i s = (i.word s.ap % 2 ^ 32, record s { ap = s.ap + 1 })

unfoldable pub va_arg64 : Inputs → State → ℕ × State
va_arg64 i s =
    (i.word s.ap % 2 ^ 32 + i.word (s.ap + 1) % 2 ^ 32 * 2 ^ 32, record s { ap = s.ap + 2 })
