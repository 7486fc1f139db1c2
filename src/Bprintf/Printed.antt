-- ===== src/Bprintf/Printed.antt =====
-- What the writes of `vbprintf` put into a buffer that may be too small for all of it.
use borfos.Common.{
  ℕ, zero, suc, ◌-◌, ◌^◌, ◌≤◌, ◌<◌, ◌≡◌, refl, ap, Bool, List, [], ◌∷◌, ◌++◌, ltb, leb, ◌==◌, ◌&&◌,
  not, if◌then◌else◌, length, arith, Bool-cases, inl, inr, replicate, length-append,
  length-replicate,
}
use mathlib.Core.List.{append_assoc}
use borfos.Bprintf.{State, fill_clamped, put_when}
use borfos.Bprintf.Text.{take}
use borfos.Bprintf.Wrote.{Wrote, fill_clamped-Wrote, put_when-Wrote, none-Wrote, when}

take-all : (n : ℕ) (xs : List ℕ) → length xs ≤ n → take n xs ≡ xs
unfolding take
take-all zero [] h = refl
take-all zero (x ∷ xs) h = absurd (omega (arith, h))
take-all (suc n) [] h = refl
take-all (suc n) (x ∷ xs) h = ap (λ (ys : List ℕ). x ∷ ys) (take-all n xs (omega (arith, h)))

pub take-append :
    (n : ℕ) (xs ys : List ℕ) → take n (xs ++ ys) ≡ take n xs ++ take (n - length xs) ys
unfolding take
take-append zero [] ys = refl
take-append zero (x ∷ xs) ys = let e : 0 - length (x ∷ xs) ≡ 0 = omega arith in rw e refl
take-append (suc n) [] ys = let e : suc n - length {A = ℕ} [] ≡ suc n = omega arith in rw e refl
take-append (suc n) (x ∷ xs) ys =
    let e : suc n - length (x ∷ xs) ≡ n - length xs = omega arith in
    rw e (ap (λ (zs : List ℕ). x ∷ zs) (take-append n xs ys))

pub take-replicate : (n w c : ℕ) → n ≤ w → take n (replicate w c) ≡ replicate n c
unfolding take
take-replicate zero w c h = refl
take-replicate (suc n) zero c h = absurd (omega (arith, h))
take-replicate (suc n) (suc w) c h =
    ap (λ (zs : List ℕ). c ∷ zs) (take-replicate n w c (omega (arith, h)))

-- From `s` to `t` as many bytes of `xs` were appended as there was room for.
pub record Printed (s : State) (xs : List ℕ) (t : State) : Type 0 where
  pub out : t.out ≡ s.out ++ take s.max xs
  pub room : t.max ≡ s.max - length xs

pub Wrote→Printed : {s t : State} (xs : List ℕ) → Wrote s xs t → Printed s xs t
Wrote→Printed {s} xs w = record {
  out = rw (take-all s.max xs (omega (arith, w.room))) w.out;
  room = omega (arith, w.room);
}

pub then-Printed :
    {s t u : State} (xs ys : List ℕ) → Printed s xs t → Printed t ys u → Printed s (xs ++ ys) u
then-Printed {s} xs ys a b = record {
  out =
      rw (b.out, a.out, a.room, take-append s.max xs ys)
        (append_assoc s.out (take s.max xs) (take (s.max - length xs) ys));
  room = omega (arith, a.room, b.room, length-append xs ys);
}

-- A fill that is larger than the room takes all of it.
fill_clamped-least : (c w : ℕ) (s : State) → s.max ≤ w → fill_clamped c w s ≡ fill_clamped c s.max s
unfolding fill_clamped
fill_clamped-least c w s h =
    let e : (if ltb s.max w then s.max else w) ≡ s.max = ground arith in
    let k : (if ltb s.max s.max then s.max else s.max) ≡ s.max = ground arith in rw (e, k) refl

pub fill_clamped-Printed :
    (c w : ℕ) (s : State) → s.max < 2 ^ 32 → Printed s (replicate w c) (fill_clamped c w s)
fill_clamped-Printed c w s small = elim (Bool-cases (leb w s.max)) [
  | inl e ↦ Wrote→Printed (replicate w c) (fill_clamped-Wrote s small c w (ground (arith, e)))
  | inr e ↦
      let h : s.max ≤ w = ground (arith, e) in
      let a = fill_clamped-Wrote s small c s.max (omega arith) in
      rw (fill_clamped-least c w s h) (record {
        out = rw (take-replicate s.max w c h) a.out;
        room = omega (arith, a.room, length-replicate w c, length-replicate s.max c, h);
      })
]

-- A sign that is put only where there is room.
pub put_when-Printed :
    (b : Bool) (c : ℕ) (s : State)
    → s.max < 2 ^ 32
    → Printed s (when b (c ∷ [])) (put_when (not (s.max == 0) && b) c s)
unfolding put_when take
put_when-Printed b c s small = elim (Bool-cases (s.max == 0)) [
  | inl e ↦
      let z : s.max ≡ 0 = ground (arith, e) in
      rw e (record { out = rw (z, take) (none-Wrote s).out; room = rw z (omega arith) })
  | inr e ↦
      rw e (Wrote→Printed (when b (c ∷ [])) (put_when-Wrote b c s small (λ k. ground (arith, e))))
]
