-- ===== src/Bprintf/Safety.antt =====
-- `vbprintf` stays inside its buffer: what is written and the room left are the size together.
use borfos.Common.{
  ℕ, ◌+◌, ◌-◌, ◌^◌, ◌≤◌, ◌<◌, ◌≡◌, refl, Bool, true, false, List, [], ◌∷◌, ltb, leb, ◌==◌, ◌&&◌,
  ◌||◌, if◌then◌else◌, u32, not, length, arith, length-append, length-replicate, replicate,
  Bool-cases, inl, inr,
}
use borfos.Bprintf.{
  PrintUnsigned, pu_decimal, pu_octal, pu_hex, pu_hex_upper, Spec, State, put, put_when, fill,
  fill_clamped, print_digits,
}
use borfos.Bprintf.Number.{
  precision_count, sign_width, pad_char, pad_right, print_signed, alternative_width, put_x,
  put_prefix, print_unsigned,
}

-- `n` is the size of the buffer; every `%n` was given a count within it.
pub record Fits (n : ℕ) (s : State) : Type 0 where
  pub room : length s.out + s.max ≡ n
  pub small : n < 2 ^ 32

module _ {n : ℕ} where
  pub put-Fits : (c : ℕ) (s : State) → 0 < s.max → Fits n s → Fits n (put c s)
  unfolding put
  put-Fits c s h f = record {
    room = omega (arith, length-append s.out (c ∷ []), f.room, f.small);
    small = f.small;
  }

  pub fill_clamped-Fits : (c w : ℕ) (s : State) → Fits n s → Fits n (fill_clamped c w s)
  unfolding fill_clamped fill
  fill_clamped-Fits c w s f =
      let w' = if ltb s.max w then s.max else w in
      let le : w' ≤ s.max = ground arith in
      record {
        room =
            omega
              (arith, length-append s.out (replicate w' c), length-replicate w' c, f.room, f.small);
        small = f.small;
      }

  pub print_digits-Fits : (ds : List ℕ) (s : State) → Fits n s → Fits n (print_digits ds s)
  unfolding print_digits
  print_digits-Fits [] s f = f
  print_digits-Fits (d ∷ ds) s f = elim (Bool-cases (s.max == 0)) [
    | inl e ↦ rw e f
    | inr e ↦ rw e (print_digits-Fits ds (put d s) (put-Fits d s (ground (arith, e)) f))
  ]

  pub pad_right-Fits : (p : Spec) (w : ℕ) (s : State) → Fits n s → Fits n (pad_right p w s)
  unfolding pad_right
  pad_right-Fits p w s f = elim (Bool-cases (not (s.max == 0) && ltb w p.min_width)) [
    | inl e ↦ rw e (fill_clamped-Fits b' ' (p.min_width - w) s f)
    | inr e ↦ rw e f
  ]

  pub put_when-Fits :
      (b : Bool) (c : ℕ) (s : State) → (b ≡ true → 0 < s.max) → Fits n s → Fits n (put_when b c s)
  unfolding put_when
  put_when-Fits true c s h f = put-Fits c s (h refl) f
  put_when-Fits false c s h f = f

  pub print_signed-Fits :
      (p : Spec) (neg : Bool) (ds : List ℕ) (s : State)
      → 0 < s.max
      → Fits n s
      → Fits n (print_signed p neg ds s)
  unfolding print_signed
  print_signed-Fits p neg ds s h f =
      let zeros = precision_count p ds in
      let w = u32 (length ds + zeros + sign_width p neg) in
      let s1 = fill_clamped (pad_char p) (p.min_width - w) s in
      elim (Bool-cases (leb p.min_width w || p.flags.left_adjust)) [
        | inl e ↦ rw e (
            pad_right-Fits p w _ (
              print_digits-Fits ds _
                (fill_clamped-Fits b'0' zeros _ (put_when-Fits _ _ s (λ t. h) f))))
        | inr e ↦ rw e (
            print_digits-Fits ds _ (
              fill_clamped-Fits b'0' zeros _ (
                put_when-Fits _ _ s1 (λ t. ground (arith, t))
                  (fill_clamped-Fits (pad_char p) (p.min_width - w) s f))))
      ]

  pub put_x-Fits : (u : PrintUnsigned) (s : State) → Fits n s → Fits n (put_x u s)
  unfolding put_x
  put_x-Fits pu_octal s f = f
  put_x-Fits pu_decimal s f = put_when-Fits _ _ s (λ t. ground (arith, t)) f
  put_x-Fits pu_hex s f = put_when-Fits _ _ s (λ t. ground (arith, t)) f
  put_x-Fits pu_hex_upper s f = put_when-Fits _ _ s (λ t. ground (arith, t)) f

  pub put_prefix-Fits :
      (b : Bool) (u : PrintUnsigned) (s : State)
      → (b ≡ true → 0 < s.max)
      → Fits n s
      → Fits n (put_prefix b u s)
  unfolding put_prefix
  put_prefix-Fits true u s h f = put_x-Fits u _ (put-Fits b'0' s (h refl) f)
  put_prefix-Fits false u s h f = f

  pub print_unsigned-Fits :
      (p : Spec) (u : PrintUnsigned) (alt : Bool) (ds : List ℕ) (s : State)
      → 0 < s.max
      → Fits n s
      → Fits n (print_unsigned p u alt ds s)
  unfolding print_unsigned
  print_unsigned-Fits p u alt ds s h f =
      let zeros = precision_count p ds in
      let w = u32 (length ds + zeros + alternative_width u alt) in
      let s1 = fill_clamped (pad_char p) (p.min_width - w) s in
      elim (Bool-cases (leb p.min_width w || p.flags.left_adjust)) [
        | inl e ↦ rw e (
            pad_right-Fits p w _ (
              print_digits-Fits ds _
                (fill_clamped-Fits b'0' zeros _ (put_prefix-Fits _ u s (λ t. h) f))))
        | inr e ↦ rw e (
            print_digits-Fits ds _ (
              fill_clamped-Fits b'0' zeros _ (
                put_prefix-Fits _ u s1 (λ t. ground (arith, t))
                  (fill_clamped-Fits (pad_char p) (p.min_width - w) s f))))
      ]
