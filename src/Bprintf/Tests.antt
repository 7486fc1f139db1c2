-- ===== src/Bprintf/Tests.antt =====
-- Runs of `vbprintf`, and the theorems at concrete inputs.
use Prim.Native.String.{String}
use Prim.Native.Char.{code}
use borfos.Common.{ℕ, zero, suc, ◌^◌, ◌≡◌, refl, arith, true, false, List, [], ◌∷◌}
use borfos.Bprintf.Loop.{EndsWithin, vbprintf-EndsWithin, vbprintf-returns}
use borfos.Bprintf.Safety.{Fits}
use borfos.Bprintf.Unfinished.{ends_open}
use borfos.Bprintf.Wrote.{Wrote, print_signed-right}
use borfos.Bprintf.Padding.{front, IsFilled, print_signed-IsFilled}
use borfos.Bprintf.Roundtrip.{IsSigned, read-signed_digits}
use borfos.Bprintf.{
  Spec, State, pl_none, no_flags, Inputs, put, put_when, fill, fill_clamped, print_digits, va_arg32,
  va_arg64,
}
use borfos.Bprintf.Digits.{
  digit_char, digit_loop, digits_of, min_long_digits, min_longlong_digits, narrow_signed,
  narrow_unsigned, signed_digits,
}
use borfos.Bprintf.Parse.{
  flag, parse_flags, parse_number, parse_width, parse_precision, parse_length, parse_spec,
}
use borfos.Bprintf.Number.{
  precision_count, sign_width, sign_char, pad_char, pad_right, print_signed, alternative_width,
  put_x, put_prefix, print_unsigned,
}
use borfos.Bprintf.Text.{print_char, take, copy, print_string}
use borfos.Bprintf.Format.{
  convert_signed, convert_unsigned, convert_pointer, convert_count, convert, directive, round,
  format_loop, Outcome, done, overrun, vbprintf,
}

abbrev codes : String → List ℕ
codes String.[] = []
codes (String.◌∷◌ c s) = code c ∷ codes s

abbrev words : List ℕ → ℕ → ℕ
words [] n = 0
words (w ∷ ws) zero = w
words (w ∷ ws) (suc n) = words ws n

abbrev inputs : List ℕ → Inputs
inputs ws = record { word = words ws; string = λ a. codes "abc" }

abbrev text : Outcome → List ℕ
text (done s) = s.out
text _ = codes "?"

run : Inputs → ℕ → List ℕ → ℕ → Outcome
unfolding put put_when fill fill_clamped print_digits va_arg32 va_arg64 digit_char digit_loop
    digits_of narrow_signed narrow_unsigned signed_digits flag parse_flags parse_number parse_width
    parse_precision parse_length parse_spec precision_count sign_width sign_char pad_char pad_right
    print_signed alternative_width put_x put_prefix print_unsigned print_char take copy print_string
    convert_signed convert_unsigned convert_pointer convert_count convert directive round
    format_loop vbprintf
run = vbprintf

run_plain :
    text (run (inputs (42 ∷ 255 ∷ 7 ∷ 0 ∷ [])) 100 (codes "%d 0x%04x [%-5s]%%%p") 0)
    ≡ codes "42 0x00ff [abc  ]%(nil)"
unfolding run
run_plain = refl

run_negative : text (run (inputs (4294967254 ∷ [])) 100 (codes "%05d") 0) ≡ codes "00-42"
unfolding run
run_negative = refl

run_least :
    text (run (inputs (2147483648 ∷ 0 ∷ 2147483648 ∷ [])) 100 (codes "%d %lld") 0)
    ≡ codes "-2147483648 -9223372036854775808"
unfolding run
run_least = refl

run_precision : text (run (inputs (42 ∷ [])) 8 (codes "%.5d") 0) ≡ codes "00000000"
unfolding run
run_precision = refl

run_truncated : text (run (inputs (42 ∷ [])) 3 (codes "%5d") 0) ≡ codes "   "
unfolding run
run_truncated = refl

run_overrun : run (inputs []) 8 (codes "a%") 0 ≡ overrun
unfolding run
run_overrun = refl

vbprintf-EndsWithin_example :
    EndsWithin 100 (codes "%05d") (vbprintf (inputs (42 ∷ [])) 100 (codes "%05d") 0)
vbprintf-EndsWithin_example =
    vbprintf-EndsWithin (inputs (42 ∷ [])) 100 (codes "%05d") 0 (omega arith)

-- A format that a letter ends is not one that is stepped past.
returns : (s : State) × (vbprintf (inputs (42 ∷ [])) 100 (codes "%05d") 0 ≡ done s) × Fits 100 s
unfolding ends_open
returns = vbprintf-returns (inputs (42 ∷ [])) 100 (codes "%05d") 0 (omega arith) refl

abbrev room : State
room = record { out = []; max = 16; ap = 0; stored = [] }

abbrev zeros : Spec
zeros = record {
  flags = record no_flags { zero_padd = true };
  min_width = 5;
  has_precision = false;
  precision = 0;
  len = pl_none;
}

print_signed-right_example : Wrote room (codes "00-42") (print_signed zeros true (codes "42") room)
unfolding sign_width sign_char pad_char
print_signed-right_example =
    print_signed-right zeros true (codes "42") room (omega arith) refl refl (omega arith)
      (omega arith)

abbrev left : Spec
left = record zeros { flags = record no_flags { left_adjust = true } }

abbrev precise : Spec
precise = record zeros { has_precision = true; precision = 5 }

print_signed-IsFilled_example :
    IsFilled (front precise true) room (print_signed precise true (codes "42") room)
print_signed-IsFilled_example =
    print_signed-IsFilled precise true (codes "42") room (omega arith) (omega arith) refl
      (omega arith) (omega arith)

read-signed_digits_example :
    IsSigned (2 ^ 31) 4294967254 (signed_digits (2 ^ 31) min_long_digits false 4294967254)
    × IsSigned (2 ^ 63) (2 ^ 63) (signed_digits (2 ^ 63) min_longlong_digits false (2 ^ 63))
read-signed_digits_example =
    read-signed_digits false 4294967254 (2 ^ 63) (omega arith) (omega arith)
