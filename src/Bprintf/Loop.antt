-- ===== src/Bprintf/Loop.antt =====
-- `vbprintf` as a whole: it ends, and it stays inside its buffer.
use borfos.Common.{
  ℕ, zero, suc, ◌+◌, ◌^◌, ◌≤◌, ◌<◌, ◌≡◌, refl, true, false, List, [], ◌∷◌, ◌==◌, ◌||◌, length,
  arith, Bool-cases, inl, inr,
}
use borfos.Bprintf.{State, Inputs}
use borfos.Bprintf.Format.{
  Round, stop, go, past_end, Outcome, done, overrun, out_of_fuel, directive, round, format_loop,
  vbprintf,
}
use borfos.Bprintf.Unfinished.{
  Skips, Skips-le, Unfinished, ends_open, Unfinished-ends_open, last, byte, percent,
  parse_spec-Skips,
}
use borfos.Bprintf.Parse.{peek, advance, parse_spec}
use borfos.Bprintf.Safety.{Fits, put-Fits}
use borfos.Bprintf.Convert.{parse_spec-out, convert-Fits}

advance-le : (fmt : List ℕ) → length (advance fmt) ≤ length fmt
advance-le [] = omega arith
advance-le (c ∷ fmt) = omega arith

advance-lt : (fmt : List ℕ) → (peek fmt == 0) ≡ false → length (advance fmt) < length fmt
advance-lt [] h = ground arith
advance-lt (c ∷ fmt) h = omega arith

-- A round that goes on reads at least one byte of the format, keeps inside the buffer, and reads
-- one piece of the format.
record IsProgress (n : ℕ) (fmt fmt' : List ℕ) (s' : State) : Type 0 where
  shorter : length fmt' < length fmt
  fits : Fits n s'
  back : Unfinished fmt' → Unfinished fmt

abbrev Goes : ℕ → List ℕ → Round → Type 0
Goes n fmt stop = Unit
Goes n fmt (go fmt' s') = IsProgress n fmt fmt' s'
Goes n fmt past_end = Unfinished fmt

-- A specification that a byte other than the terminator follows.
lettered :
    {fmt rest : List ℕ}
    → (peek fmt == b'%') ≡ false
    → Skips fmt rest
    → (peek rest == 0) ≡ false
    → Unfinished (advance rest)
    → Unfinished (b'%' ∷ fmt)
lettered {rest = []} d k e u = absurd (ground (arith, e))
lettered {rest = c ∷ rest} d k e u = Unfinished.directive d k e u

directive-Goes :
    (n : ℕ) (i : Inputs) (fmt : List ℕ) (s : State)
    → (peek fmt == b'%') ≡ false
    → 0 < s.max
    → Fits n s
    → Goes n (b'%' ∷ fmt) (directive i fmt s)
unfolding directive
directive-Goes n i fmt s d h f =
    let p = parse_spec i fmt s in
    let (o, m) = parse_spec-out i fmt s in
    let k = parse_spec-Skips i fmt s in
    let fp : Fits n p.state = record { room = rw o (rw m f.room); small = f.small } in
    let hp : 0 < p.state.max = rw m h in
    elim (Bool-cases (peek p.fmt == 0)) [
      | inl e ↦ rw e (last d k (ground (arith, e)))
      | inr e ↦ rw e (record {
        shorter = omega (arith, advance-lt p.fmt e, Skips-le k);
        fits = convert-Fits i (peek p.fmt) p.spec p.state hp fp;
        back = λ u. lettered d k e u;
      })
    ]

doubled :
    (fmt : List ℕ) → (peek fmt == b'%') ≡ true → Unfinished (advance fmt) → Unfinished (b'%' ∷ fmt)
doubled [] h u = absurd (ground (arith, h))
doubled (c ∷ fmt) h u = let z : c ≡ b'%' = ground (arith, h) in rw z (percent u)

round-Goes : (n : ℕ) (i : Inputs) (fmt : List ℕ) (s : State) → Fits n s → Goes n fmt (round i fmt s)
unfolding round
round-Goes n i [] s f = tt
round-Goes n i (c ∷ fmt) s f = elim (Bool-cases (c == 0 || s.max == 0)) [
  | inl e ↦ rw e tt
  | inr e ↦ rw e (
      let h : 0 < s.max = ground (arith, e) in
      elim (Bool-cases (c == b'%')) [
        | inl k ↦
            let z : c ≡ b'%' = ground (arith, k) in
            rw k (elim (Bool-cases (peek fmt == b'%')) [
              | inl j ↦ rw j (record {
                shorter = omega (arith, advance-le fmt);
                fits = put-Fits b'%' s h f;
                back = rw z (doubled fmt j);
              })
              | inr j ↦ rw j (widen z (directive i fmt s) (directive-Goes n i fmt s j h f))
            ])
        | inr k ↦ rw k (record {
          shorter = omega arith;
          fits = put-Fits c s h f;
          back = λ u. byte (ground (arith, e)) k u;
        })
      ])
]
  where
    widen : c ≡ b'%' → (r : Round) → Goes n (b'%' ∷ fmt) r → Goes n (c ∷ fmt) r
    widen z r g = rw z g

-- The outcomes that a call may have: the final state keeps inside the buffer, or the format has a
-- directive with no letter.
abbrev pub EndsWithin : ℕ → List ℕ → Outcome → Type 0
EndsWithin n fmt (done s) = Fits n s
EndsWithin n fmt overrun = Unfinished fmt
EndsWithin n fmt out_of_fuel = ⊥

EndsWithin-back :
    (n : ℕ) (fmt fmt' : List ℕ)
    → (Unfinished fmt' → Unfinished fmt)
    → (o : Outcome) → EndsWithin n fmt' o
    → EndsWithin n fmt o
EndsWithin-back n fmt fmt' k (done s) e = e
EndsWithin-back n fmt fmt' k overrun e = k e
EndsWithin-back n fmt fmt' k out_of_fuel e = e

format_loop-EndsWithin :
    (n : ℕ) (i : Inputs) (fuel : ℕ) (fmt : List ℕ) (s : State)
    → length fmt < fuel
    → Fits n s
    → EndsWithin n fmt (format_loop i fuel fmt s)
unfolding format_loop
format_loop-EndsWithin n i zero fmt s h f = absurd (omega arith)
format_loop-EndsWithin n i (suc fuel) fmt s h f =
    next (round i fmt s) (round-Goes n i fmt s f)
      (λ fmt' s' h' f'. format_loop-EndsWithin n i fuel fmt' s' h' f')
  where
    next :
        (r : Round)
        → Goes n fmt r
        → ((fmt' : List ℕ) (s' : State)
            → length fmt' < fuel
            → Fits n s'
            → EndsWithin n fmt' (format_loop i fuel fmt' s'))
        → EndsWithin n fmt (elim r [
          | stop ↦ done s
          | go fmt' s' ↦ format_loop i fuel fmt' s'
          | past_end ↦ overrun
        ])
    next stop g k = f
    next (go fmt' s') g k =
        EndsWithin-back n fmt fmt' g.back (format_loop i fuel fmt' s')
          (k fmt' s' (omega (arith, g.shorter, h)) g.fits)
    next past_end g k = g

-- For a size below 2 ^ 32 `vbprintf` ends within one round for each byte of the format and one more.
-- Either it returns, and the bytes that it wrote and the room that is left are together the size
-- `max` that it was given, so it never writes past the buffer; or it steps past the terminator, and
-- then the format, read from its start by plain bytes, doubled `%` and directives, has a `%` that is
-- not doubled and between which and the terminator only flags, digits, `*`, `.`, `h` and `l` stand.
pub vbprintf-EndsWithin :
    (i : Inputs) (max : ℕ) (format : List ℕ) (ap : ℕ)
    → max < 2 ^ 32
    → EndsWithin max format (vbprintf i max format ap)
unfolding vbprintf
vbprintf-EndsWithin i max format ap h =
    format_loop-EndsWithin max i (length format + 1) format _ (omega arith)
      (record { room = omega arith; small = h })

-- A format whose last byte before the terminator is neither `%` nor a modifier: `vbprintf` returns.
pub vbprintf-returns :
    (i : Inputs) (max : ℕ) (format : List ℕ) (ap : ℕ)
    → max < 2 ^ 32
    → ends_open false format ≡ false
    → (s : State) × (vbprintf i max format ap ≡ done s) × Fits max s
vbprintf-returns i max format ap h closed =
    returned (vbprintf i max format ap) (vbprintf-EndsWithin i max format ap h)
  where
    returned : (o : Outcome) → EndsWithin max format o → (s : State) × (o ≡ done s) × Fits max s
    returned (done s) f = (s, refl, f)
    returned overrun u = absurd (ground (arith, Unfinished-ends_open u false, closed))
    returned out_of_fuel e = absurd e
