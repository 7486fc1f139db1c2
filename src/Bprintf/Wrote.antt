-- ===== src/Bprintf/Wrote.antt =====
-- What the writes of `vbprintf` put into a buffer that has room for all of it.
use mathlib.Core.List.{append_assoc, append-nil}
use borfos.Common.{
  ℕ, ◌+◌, ◌-◌, ◌^◌, ◌≤◌, ◌<◌, ◌≡◌, refl, Bool, true, false, List, [], ◌∷◌, ◌++◌, ltb, leb, ◌==◌,
  ◌&&◌, ◌||◌, if◌then◌else◌, u32, not, length, arith, length-append, length-replicate, replicate,
  Bool-cases, inl, inr,
}
use borfos.Bprintf.{Spec, State, put, put_when, fill, fill_clamped, print_digits}
use borfos.Bprintf.Number.{
  precision_count, sign_width, sign_char, pad_char, pad_right, print_signed,
}

-- From `s` to `t` the bytes `xs` were appended and nothing else changed but the room.
pub record Wrote (s : State) (xs : List ℕ) (t : State) : Type 0 where
  pub out : t.out ≡ s.out ++ xs
  pub room : t.max + length xs ≡ s.max

pub then-Wrote :
    {s t u : State} (xs ys : List ℕ) → Wrote s xs t → Wrote t ys u → Wrote s (xs ++ ys) u
then-Wrote {s} xs ys a b = record {
  out = rw (b.out, a.out) (append_assoc s.out xs ys);
  room = omega (arith, length-append xs ys, a.room, b.room);
}

pub none-Wrote : (s : State) → Wrote s [] s
none-Wrote s = record { out = rw append-nil; room = omega arith }

module _ (s : State) (small : s.max < 2 ^ 32) where
  pub put-Wrote : (c : ℕ) → 0 < s.max → Wrote s (c ∷ []) (put c s)
  unfolding put
  put-Wrote c h = record { out = refl; room = omega arith }

  pub fill_clamped-Wrote : (c w : ℕ) → w ≤ s.max → Wrote s (replicate w c) (fill_clamped c w s)
  unfolding fill_clamped fill
  fill_clamped-Wrote c w h =
      let e : (if ltb s.max w then s.max else w) ≡ w = ground arith in
      rw e (record { out = refl; room = omega (arith, length-replicate w c) })

pub print_digits-Wrote :
    (ds : List ℕ) (s : State) → s.max < 2 ^ 32 → length ds ≤ s.max → Wrote s ds (print_digits ds s)
unfolding print_digits
print_digits-Wrote [] s small h = none-Wrote s
print_digits-Wrote (d ∷ ds) s small h =
    let e : (s.max == 0) ≡ false = ground arith in
    let a = put-Wrote s small d (omega arith) in
    rw e (
      then-Wrote (d ∷ []) ds a
        (print_digits-Wrote ds (put d s) (omega (arith, a.room)) (omega (arith, a.room))))

-- A test that decides nothing more once its branch is known.
abbrev pub when : Bool → List ℕ → List ℕ
when b xs = if b then xs else []

pub put_when-Wrote :
    (b : Bool) (c : ℕ) (s : State)
    → s.max < 2 ^ 32
    → (b ≡ true → 0 < s.max)
    → Wrote s (when b (c ∷ [])) (put_when b c s)
unfolding put_when
put_when-Wrote true c s small h = put-Wrote s small c (h refl)
put_when-Wrote false c s small h = none-Wrote s

-- The sign byte of a signed conversion, if there is one.
abbrev pub sign_text : Spec → Bool → List ℕ
sign_text p neg = when (not (sign_width p neg == 0)) (sign_char p neg ∷ [])

precision_count-none : (p : Spec) (ds : List ℕ) → p.has_precision ≡ false → precision_count p ds ≡ 0
unfolding precision_count
precision_count-none p ds h = rw h

-- Sign, no zeros, digits, as both branches print them.
sign_digits-Wrote :
    (b : Bool) (c : ℕ) (ds : List ℕ) (s : State)
    → s.max < 2 ^ 32
    → (b ≡ true → 0 < s.max)
    → length (when b (c ∷ [])) + length ds ≤ s.max
    → Wrote s (when b (c ∷ []) ++ ds) (print_digits ds (fill_clamped b'0' 0 (put_when b c s)))
sign_digits-Wrote b c ds s small h fits =
    let s1 = put_when b c s in
    let a = put_when-Wrote b c s small h in
    let s2 = fill_clamped b'0' 0 s1 in
    let z : Wrote s1 [] s2 = fill_clamped-Wrote s1 (omega (arith, a.room)) b'0' 0 (omega arith) in
    let d =
      print_digits-Wrote ds s2 (omega (arith, a.room, z.room)) (omega (arith, a.room, z.room)) in
    then-Wrote (when b (c ∷ [])) ds a (then-Wrote [] ds z d)

pub length-sign_text : (p : Spec) (neg : Bool) → length (sign_text p neg) ≡ sign_width p neg
unfolding sign_width
length-sign_text p neg = ground arith

-- With room for the field: a signed number in a field that is wider than it, with no precision and no `-`: the padding,
-- of blanks or with the flag `0` of zeros, comes first, then the sign, then the digits.
pub print_signed-right :
    (p : Spec) (neg : Bool) (ds : List ℕ) (s : State)
    → s.max < 2 ^ 32
    → p.has_precision ≡ false
    → p.flags.left_adjust ≡ false
    → length ds + sign_width p neg < p.min_width
    → p.min_width ≤ s.max
    → Wrote s
        (replicate (p.min_width - (length ds + sign_width p neg)) (pad_char p)
          ++ (sign_text p neg ++ ds))
        (print_signed p neg ds s)
unfolding print_signed
print_signed-right p neg ds s small np nl wide fits =
    let w = length ds + sign_width p neg in
    let e : u32 (length ds + 0 + sign_width p neg) ≡ w = omega arith in
    let t : (leb p.min_width w || p.flags.left_adjust) ≡ false = ground arith in
    let s1 = fill_clamped (pad_char p) (p.min_width - w) s in
    let a = fill_clamped-Wrote s small (pad_char p) (p.min_width - w) (omega arith) in
    let r : s1.max + (p.min_width - w) ≡ s.max =
      omega (arith, a.room, length-replicate (p.min_width - w) (pad_char p)) in
    let b = not (s1.max == 0) && not (sign_width p neg == 0) in
    let eb : b ≡ not (sign_width p neg == 0) = ground (arith, r) in
    rw (precision_count-none p ds np) (
      rw e (
        rw t (
          then-Wrote (replicate (p.min_width - w) (pad_char p)) (sign_text p neg ++ ds) a (
            rw eb (
              sign_digits-Wrote (not (sign_width p neg == 0)) (sign_char p neg) ds s1
                (omega (arith, r)) (λ k. ground (arith, k, r))
                (omega (arith, r, length-sign_text p neg)))))))

pad_right-Wrote :
    (p : Spec) (w : ℕ) (s : State)
    → s.max < 2 ^ 32
    → p.min_width - w ≤ s.max
    → Wrote s (replicate (p.min_width - w) b' ') (pad_right p w s)
unfolding pad_right
pad_right-Wrote p w s small fits = elim (Bool-cases (not (s.max == 0) && ltb w p.min_width)) [
  | inl e ↦ rw e (fill_clamped-Wrote s small b' ' (p.min_width - w) fits)
  | inr e ↦ let z : p.min_width - w ≡ 0 = ground (arith, e) in rw e (rw z (none-Wrote s))
]

-- With room for the number and the field: a signed number that fills its field, or with the flag `-`, and with no precision: the sign,
-- the digits, and blanks up to the field's width.
pub print_signed-left :
    (p : Spec) (neg : Bool) (ds : List ℕ) (s : State)
    → s.max < 2 ^ 32
    → p.has_precision ≡ false
    → (leb p.min_width (length ds + sign_width p neg) || p.flags.left_adjust) ≡ true
    → p.min_width ≤ s.max
    → length ds + sign_width p neg ≤ s.max
    → 0 < s.max
    → Wrote s
        ((sign_text p neg ++ ds) ++ replicate (p.min_width - (length ds + sign_width p neg)) b' ')
        (print_signed p neg ds s)
unfolding print_signed
print_signed-left p neg ds s small np t fits room pos =
    let w = length ds + sign_width p neg in
    let e : u32 (length ds + 0 + sign_width p neg) ≡ w = omega arith in
    let b = not (sign_width p neg == 0) in
    let a =
      sign_digits-Wrote b (sign_char p neg) ds s small (λ k. pos)
        (omega (arith, length-sign_text p neg)) in
    let l : length (sign_text p neg ++ ds) ≡ w =
      omega (arith, length-append (sign_text p neg) ds, length-sign_text p neg) in
    rw (precision_count-none p ds np) (
      rw e (
        rw t (
          then-Wrote (sign_text p neg ++ ds) (replicate (p.min_width - w) b' ') a
            (pad_right-Wrote p w _ (omega (arith, a.room)) (omega (arith, a.room, l))))))
