-- ===== src/Bprintf/Convert.antt =====
-- Every conversion of `vbprintf` stays inside the buffer.
use borfos.Common.{
  ℕ, zero, suc, ◌-◌, ◌≤◌, ◌<◌, ◌≡◌, refl, List, [], ◌∷◌, ltb, leb, ◌==◌, ◌&&◌, ◌||◌, u8, not,
  length, arith, length-append, Bool-cases, inl, inr,
}
use borfos.Bprintf.{
  PrintUnsigned, pu_decimal, pu_octal, pu_hex, pu_hex_upper, Spec, State, Inputs, put, fill_clamped,
  print_digits, va_arg32, va_arg64,
}
use borfos.Bprintf.Text.{print_char, print_string, take, copy}
use borfos.Bprintf.Format.{
  is_longlong, convert_signed, convert_unsigned, convert_pointer, convert_count, convert,
}
use borfos.Bprintf.Parse.{parse_spec, parse_width, parse_precision, parse_length}
use borfos.Bprintf.Safety.{
  Fits, put-Fits, fill_clamped-Fits, print_digits-Fits, print_signed-Fits, print_unsigned-Fits,
}

length-take : (m : ℕ) (str : List ℕ) → m ≤ length str → length (take m str) ≡ m
unfolding take
length-take zero str h = refl
length-take (suc m) [] h = absurd (omega arith)
length-take (suc m) (c ∷ str) h = omega (arith, length-take m str (omega arith))

va_arg32-max : (i : Inputs) (s : State) → (va_arg32 i s).1.max ≡ s.max
unfolding va_arg32
va_arg32-max i s = refl

va_arg64-max : (i : Inputs) (s : State) → (va_arg64 i s).1.max ≡ s.max
unfolding va_arg64
va_arg64-max i s = refl

-- Reading a specification writes nothing.
pub parse_spec-out :
    (i : Inputs) (fmt : List ℕ) (s : State)
    → ((parse_spec i fmt s).state.out ≡ s.out) × ((parse_spec i fmt s).state.max ≡ s.max)
unfolding parse_spec parse_length parse_precision parse_width va_arg32
parse_spec-out i fmt s = ground arith

module _ {n : ℕ} where
  copy-Fits :
      (m : ℕ) (str : List ℕ) (s : State)
      → m ≤ length str
      → m ≤ s.max
      → Fits n s
      → Fits n (copy m str s)
  unfolding copy
  copy-Fits m str s h k f = record {
    room = omega (arith, length-append s.out (take m str), length-take m str h, f.room, f.small);
    small = f.small;
  }

  va_arg32-Fits : (i : Inputs) (s : State) → Fits n s → Fits n (va_arg32 i s).1
  unfolding va_arg32
  va_arg32-Fits i s f = record { room = f.room; small = f.small }

  print_char-Fits :
      (i : Inputs) (p : Spec) (s : State) → 0 < s.max → Fits n s → Fits n (print_char i p s)
  unfolding print_char
  print_char-Fits i p s h f =
      let s1 = (va_arg32 i s).1 in
      let c = u8 (va_arg32 i s).0 in
      let t1 = fill_clamped b' ' (p.min_width - 1) s in
      let ft : Fits n t1 = fill_clamped-Fits b' ' (p.min_width - 1) s f in
      let f1 : Fits n (put c s1) =
        put-Fits c s1 (ground (arith, va_arg32-max i s)) (va_arg32-Fits i s f) in
      elim (Bool-cases (leb p.min_width 1 || p.flags.left_adjust)) [
        | inl e ↦ rw e (elim (Bool-cases (ltb 1 p.min_width)) [
          | inl k ↦ rw k (fill_clamped-Fits b' ' (p.min_width - 1) (put c s1) f1)
          | inr k ↦ rw k f1
        ])
        | inr e ↦ rw e (elim (Bool-cases (t1.max == 0)) [
          | inl k ↦ rw k ft
          | inr k ↦ rw k (
              put-Fits _ (va_arg32 i t1).1 (ground (arith, k, va_arg32-max i t1))
                (va_arg32-Fits i t1 ft))
        ])
      ]

  print_string-Fits : (i : Inputs) (p : Spec) (s : State) → Fits n s → Fits n (print_string i p s)
  unfolding print_string
  print_string-Fits i p s f =
      let s1 = (va_arg32 i s).1 in
      let str = i.string (va_arg32 i s).0 in
      let f1 : Fits n s1 = va_arg32-Fits i s f in
      let s2 = print_digits str s1 in
      let f2 : Fits n s2 = print_digits-Fits str s1 f1 in
      let pad = fill_clamped b' ' (p.min_width - length str) in
      elim (Bool-cases (p.min_width == 0 || p.flags.left_adjust)) [
        | inl e ↦ rw e (elim (Bool-cases (not (s2.max == 0) && ltb (length str) p.min_width)) [
          | inl k ↦ rw k (fill_clamped-Fits _ _ s2 f2)
          | inr k ↦ rw k f2
        ])
        | inr e ↦ rw e (elim (Bool-cases (ltb (length str) p.min_width)) [
          | inl k ↦
              rw k (
                copy-Fits _ str (pad s1) (ground arith) (ground arith)
                  (fill_clamped-Fits _ _ s1 f1))
          | inr k ↦ rw k (copy-Fits _ str s1 (ground arith) (ground arith) f1)
        ])
      ]

  va_arg64-Fits : (i : Inputs) (s : State) → Fits n s → Fits n (va_arg64 i s).1
  unfolding va_arg64
  va_arg64-Fits i s f = record { room = f.room; small = f.small }

  convert_signed-Fits :
      (i : Inputs) (p : Spec) (s : State) → 0 < s.max → Fits n s → Fits n (convert_signed i p s)
  unfolding convert_signed
  convert_signed-Fits i p s h f = elim (Bool-cases (is_longlong p.len)) [
    | inl e ↦ rw e (print_signed-Fits p _ _ _ (rw va_arg64-max h) (va_arg64-Fits i s f))
    | inr e ↦ rw e (print_signed-Fits p _ _ _ (rw va_arg32-max h) (va_arg32-Fits i s f))
  ]

  convert_unsigned-Fits :
      (i : Inputs) (u : PrintUnsigned) (p : Spec) (s : State)
      → 0 < s.max
      → Fits n s
      → Fits n (convert_unsigned i u p s)
  unfolding convert_unsigned
  convert_unsigned-Fits i u p s h f = elim (Bool-cases (is_longlong p.len)) [
    | inl e ↦ rw e (print_unsigned-Fits p u _ _ _ (rw va_arg64-max h) (va_arg64-Fits i s f))
    | inr e ↦ rw e (print_unsigned-Fits p u _ _ _ (rw va_arg32-max h) (va_arg32-Fits i s f))
  ]

  convert_pointer-Fits :
      (i : Inputs) (p : Spec) (s : State) → 0 < s.max → Fits n s → Fits n (convert_pointer i p s)
  unfolding convert_pointer
  convert_pointer-Fits i p s h f = elim (Bool-cases ((va_arg32 i s).0 == 0)) [
    | inl e ↦ rw e (print_unsigned-Fits _ _ _ _ _ (rw va_arg32-max h) (va_arg32-Fits i s f))
    | inr e ↦ rw e (print_unsigned-Fits _ _ _ _ _ (rw va_arg32-max h) (va_arg32-Fits i s f))
  ]

  convert_count-Fits : (i : Inputs) (s : State) → Fits n s → Fits n (convert_count i s)
  unfolding convert_count
  convert_count-Fits i s f =
      let f1 = va_arg32-Fits i s f in record { room = f1.room; small = f1.small }

  pub convert-Fits :
      (i : Inputs) (c : ℕ) (p : Spec) (s : State) → 0 < s.max → Fits n s → Fits n (convert i c p s)
  unfolding convert
  convert-Fits i c p s h f = ground (
    arith,
    convert_signed-Fits i p s,
    convert_unsigned-Fits i pu_decimal p s,
    convert_unsigned-Fits i pu_octal p s,
    convert_unsigned-Fits i pu_hex p s,
    convert_unsigned-Fits i pu_hex_upper p s,
    convert_pointer-Fits i p s,
    print_char-Fits i p s,
    print_string-Fits i p s,
    convert_count-Fits i s,
  )
