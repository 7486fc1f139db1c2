-- ===== src/Bprintf/Padding.antt =====
-- What the precision of a number does: the count of the zeros is taken from 0, not from the
-- precision, so it wraps, and the zeros fill the rest of the buffer.
use borfos.Common.{
  ℕ, ◌+◌, ◌-◌, ◌^◌, ◌≤◌, ◌<◌, ◌≡◌, refl, ◌∙◌, Bool, true, List, [], ◌∷◌, ◌++◌, leb, ◌==◌, ◌||◌, not,
  if◌then◌else◌, u32, length, arith, Bool-cases, inl, inr, replicate, length-append,
  length-replicate,
}
use borfos.Bprintf.{Spec, State, fill_clamped, print_digits}
use borfos.Bprintf.Number.{
  precision_count, sign_width, sign_char, pad_char, pad_right, print_signed,
}
use borfos.Bprintf.Text.{take}
use borfos.Bprintf.Printed.{
  Printed, Wrote→Printed, then-Printed, fill_clamped-Printed, put_when-Printed, take-replicate,
  take-append,
}
use borfos.Bprintf.Wrote.{put_when-Wrote, sign_text}

-- Where there is no room left, no digit is printed.
print_digits-full : (ds : List ℕ) (s : State) → s.max ≡ 0 → print_digits ds s ≡ s
unfolding print_digits
print_digits-full [] s h = refl
print_digits-full (d ∷ ds) s h = let e : (s.max == 0) ≡ true = ground (arith, h) in rw e

pad_right-full : (p : Spec) (w : ℕ) (s : State) → s.max ≡ 0 → pad_right p w s ≡ s
unfolding pad_right
pad_right-full p w s h = let e : (s.max == 0) ≡ true = ground (arith, h) in rw e

-- What comes before the zeros. The wrapped sum of the widths of digits, zeros and sign is the width
-- of the sign; if the field is wider and the number is not left-adjusted, there are blanks for the
-- difference. Then follows the sign.
abbrev pub front : Spec → Bool → List ℕ
front p neg =
    if leb p.min_width (sign_width p neg) || p.flags.left_adjust
    then sign_text p neg
    else replicate (p.min_width - sign_width p neg) b' ' ++ sign_text p neg

-- The room that `s` has is filled to its end with `xs` and zeros behind it.
pub record IsFilled (xs : List ℕ) (s r : State) : Type 0 where
  pub no_room : r.max ≡ 0
  pub out : r.out ≡ s.out ++ take s.max (xs ++ replicate s.max b'0')

module _ (ds : List ℕ) (s : State) (room : s.max + length ds ≤ 2 ^ 32)
    (some_digits : 0 < length ds) where
  -- Zeros behind `xs`, as many as the wrapped count says.
  zeros-IsFilled :
      (xs : List ℕ) (t : State)
      → Printed s xs t
      → IsFilled xs s (fill_clamped b'0' (2 ^ 32 - length ds) t)
  zeros-IsFilled xs t f =
      let w = 2 ^ 32 - length ds in
      let small : t.max < 2 ^ 32 = omega (arith, f.room, room, some_digits) in
      let g = then-Printed xs (replicate w b'0') f (fill_clamped-Printed b'0' w t small) in
      let k = s.max - length xs in
      let e1 = take-replicate k w b'0' (omega (arith, room)) in
      let e2 = take-replicate k s.max b'0' (omega arith) in
      record {
        no_room = omega (
          arith,
          g.room,
          length-append xs (replicate w b'0'),
          length-replicate {A = ℕ} w b'0',
          room,
        );
        out =
            g.out
            ∙ rw
                (
                  take-append s.max xs (replicate w b'0'),
                  take-append s.max xs (replicate s.max b'0'),
                  e1,
                  e2,
                )
                refl;
      }

  digits-IsFilled :
      (xs : List ℕ) (t : State)
      → Printed s xs t
      → IsFilled xs s (print_digits ds (fill_clamped b'0' (2 ^ 32 - length ds) t))
  digits-IsFilled xs t f =
      let g = zeros-IsFilled xs t f in
      rw (print_digits-full ds (fill_clamped b'0' (2 ^ 32 - length ds) t) g.no_room) g

  pad_right-IsFilled :
      (p : Spec) (w : ℕ) (xs : List ℕ) (t : State)
      → Printed s xs t
      → IsFilled xs s (pad_right p w (print_digits ds (fill_clamped b'0' (2 ^ 32 - length ds) t)))
  pad_right-IsFilled p w xs t f =
      let g = digits-IsFilled xs t f in
      rw (pad_right-full p w (print_digits ds (fill_clamped b'0' (2 ^ 32 - length ds) t)) g.no_room)
        g

precision_count-wraps :
    (p : Spec) (ds : List ℕ)
    → p.has_precision ≡ true
    → 0 < length ds
    → length ds < p.precision
    → length ds < 2 ^ 32
    → precision_count p ds ≡ 2 ^ 32 - length ds
unfolding precision_count
precision_count-wraps p ds h pos lt small = ground arith

-- A signed number with at least one digit and a precision above the number of its digits, in a
-- buffer with some room, at most 2 ^ 32 less the number of the digits. As far as there is room, the
-- conversion prints: if the field is wider than the sign and the number is not left-adjusted, blanks
-- for the difference; the sign, if there is one; and zeros up to the end of the buffer. It leaves no
-- room and prints no digit.
pub print_signed-IsFilled :
    (p : Spec) (neg : Bool) (ds : List ℕ) (s : State)
    → s.max + length ds ≤ 2 ^ 32
    → 0 < s.max
    → p.has_precision ≡ true
    → 0 < length ds
    → length ds < p.precision
    → IsFilled (front p neg) s (print_signed p neg ds s)
unfolding print_signed
print_signed-IsFilled p neg ds s room pos hp some_digits less =
    let e = precision_count-wraps p ds hp some_digits less (omega (arith, room, pos)) in
    let small : s.max < 2 ^ 32 = omega (arith, room, some_digits) in
    let w = sign_width p neg in
    let one : w ≤ 1 = unfold sign_width in ground arith in
    let ew : u32 (length ds + (2 ^ 32 - length ds) + w) ≡ w = omega (arith, room, one) in
    let b = not (w == 0) in
    let blank : pad_char p ≡ b' ' = unfold pad_char in ground (arith, hp) in
    rw (print_signed, e, ew)
      (elim (Bool-cases (leb p.min_width w || p.flags.left_adjust)) [
        | inl k ↦ rw k (
            pad_right-IsFilled ds s room some_digits p w (sign_text p neg) _ (
              Wrote→Printed (sign_text p neg)
                (put_when-Wrote b (sign_char p neg) s small (λ t. pos))))
        | inr k ↦
            let blanks = replicate (p.min_width - w) b' ' in
            let s1 = fill_clamped b' ' (p.min_width - w) s in
            let a = fill_clamped-Printed b' ' (p.min_width - w) s small in
            let t = put_when-Printed b (sign_char p neg) s1 (omega (arith, a.room, small)) in
            rw (k, blank)
              (digits-IsFilled ds s room some_digits (blanks ++ sign_text p neg) _
                (then-Printed blanks (sign_text p neg) a t))
      ])
