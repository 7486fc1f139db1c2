-- ===== src/Bprintf/Unfinished.antt =====
-- The formats on which `vbprintf` steps past the terminator: the last directive has no letter. What
-- the parsing of a specification skips.
use borfos.Common.{
  ℕ, ◌+◌, ◌-◌, ◌*◌, ◌≤◌, ◌≡◌, refl, Bool, true, false, List, [], ◌∷◌, ◌==◌, ◌||◌, ◌&&◌, leb, u32,
  length, arith, Bool-cases, Option-cases, inl, inr, some, if◌then◌else◌, ◌∙◌,
}
use borfos.Bprintf.{Flags, no_flags, State, Inputs}
use borfos.Bprintf.Parse.{
  peek, advance, flag, is_digit, parse_number, parse_spec, parse_width, parse_precision,
  parse_length, parse_flags, Parsed,
}

-- A byte that may stand between `%` and the letter: a flag, a digit, `*`, `.`, `h` or `l`.
abbrev pub is_modifier : ℕ → Bool
is_modifier c =
    c == b'#'
    || (c == b'-'
        || (c == b' '
            || (c == b'+'
                || (leb b'0' c && leb c b'9'
                    || (c == b'*' || (c == b'.' || (c == b'h' || c == b'l')))))))

-- `rest` is `fmt` without some such bytes at its start.
pub data Skips : List ℕ → List ℕ → Type 0 where
  nothing : {fmt : List ℕ} → Skips fmt fmt
  more : {c : ℕ} {fmt rest : List ℕ} → is_modifier c ≡ true → Skips fmt rest → Skips (c ∷ fmt) rest

-- Read from its start, the format has a `%` that is not doubled and between which and the
-- terminator only modifiers stand. What is read before it: plain bytes, doubled `%`, and directives,
-- each a `%`, modifiers, and a byte that is not the terminator.
pub data Unfinished : List ℕ → Type 0 where
  last :
      {fmt rest : List ℕ}
      → (peek fmt == b'%') ≡ false
      → Skips fmt rest
      → peek rest ≡ 0
      → Unfinished (b'%' ∷ fmt)
  byte :
      {c : ℕ} {fmt : List ℕ}
      → (c == 0) ≡ false
      → (c == b'%') ≡ false
      → Unfinished fmt
      → Unfinished (c ∷ fmt)
  percent : {fmt : List ℕ} → Unfinished fmt → Unfinished (b'%' ∷ b'%' ∷ fmt)
  directive :
      {c : ℕ} {fmt rest : List ℕ}
      → (peek fmt == b'%') ≡ false
      → Skips fmt (c ∷ rest)
      → (c == 0) ≡ false
      → Unfinished rest
      → Unfinished (b'%' ∷ fmt)

pub Skips-le : {fmt rest : List ℕ} → Skips fmt rest → length rest ≤ length fmt
Skips-le nothing = omega arith
Skips-le (more h s) = omega (arith, Skips-le s)

then-Skips : {a b c : List ℕ} → Skips a b → Skips b c → Skips a c
then-Skips nothing t = t
then-Skips (more h s) t = more h (then-Skips s t)

-- One byte, if it is a modifier.
advance-Skips : (fmt : List ℕ) → is_modifier (peek fmt) ≡ true → Skips fmt (advance fmt)
advance-Skips [] h = nothing
advance-Skips (c ∷ fmt) h = more h nothing

flag-modifier : (c : ℕ) (f g : Flags) → flag c f ≡ some g → is_modifier c ≡ true
unfolding flag
flag-modifier c f g e = ground (arith, e)

parse_flags-Skips : (f : Flags) (fmt : List ℕ) → Skips fmt (parse_flags f fmt).1
unfolding parse_flags
parse_flags-Skips f [] = nothing
parse_flags-Skips f (c ∷ fmt) = elim (Option-cases (flag c f)) [
  | inl e ↦ rw (parse_flags, e) nothing
  | inr (g, e) ↦ rw (parse_flags, e) (more (flag-modifier c f g e) (parse_flags-Skips g fmt))
]

parse_number-Skips : (n : ℕ) (fmt : List ℕ) → Skips fmt (parse_number n fmt).1
unfolding parse_number
parse_number-Skips n [] = nothing
parse_number-Skips n (c ∷ fmt) = elim (Bool-cases (is_digit c)) [
  | inl e ↦
      rw e (more (ground (arith, e)) (parse_number-Skips (u32 (u32 (n * 10) + (c - b'0'))) fmt))
  | inr e ↦ rw e nothing
]

parse_width-Skips :
    (i : Inputs) (f : Flags) (fmt : List ℕ) (s : State) → Skips fmt (parse_width i f fmt s).fmt
unfolding parse_width
parse_width-Skips i f fmt s = elim (Bool-cases (peek fmt == b'*')) [
  | inl e ↦ rw e (advance-Skips fmt (ground (arith, e)))
  | inr e ↦ rw e (parse_number-Skips 0 fmt)
]

parse_precision-Skips : (i : Inputs) (p : Parsed) → Skips p.fmt (parse_precision i p).fmt
unfolding parse_precision
parse_precision-Skips i p = elim (Bool-cases (peek p.fmt == b'.')) [
  | inl e ↦
      let a = advance-Skips p.fmt (ground (arith, e)) in
      rw e (elim (Bool-cases (peek (advance p.fmt) == b'*')) [
        | inl k ↦ rw k (then-Skips a (advance-Skips (advance p.fmt) (ground (arith, k))))
        | inr k ↦ rw k (then-Skips a (parse_number-Skips 0 (advance p.fmt)))
      ])
  | inr e ↦ rw e nothing
]

-- A second byte that is the same as the first.
twice :
    (p : Parsed) (c : ℕ)
    → is_modifier c ≡ true
    → (peek p.fmt == c) ≡ true
    → Skips p.fmt (advance p.fmt)
      × ((peek (advance p.fmt) == c) ≡ true → Skips p.fmt (advance (advance p.fmt)))
twice p c m e =
    let h : is_modifier (peek p.fmt) ≡ true =
      (let z : peek p.fmt ≡ c = ground (arith, e) in rw z m) in
    let a = advance-Skips p.fmt h in
    (
      a,
      λ k.
          let z : peek (advance p.fmt) ≡ c = ground (arith, k) in
          then-Skips a (advance-Skips (advance p.fmt) (rw z m)),
    )

parse_length-Skips : (p : Parsed) → Skips p.fmt (parse_length p).fmt
unfolding parse_length
parse_length-Skips p = elim (Bool-cases (peek p.fmt == b'h')) [
  | inl e ↦
      let (a, b) = twice p b'h' refl e in
      rw e
        (elim (Bool-cases (peek (advance p.fmt) == b'h')) [ inl k ↦ rw k (b k) | inr k ↦ rw k a ])
  | inr e ↦ rw e (elim (Bool-cases (peek p.fmt == b'l')) [
    | inl j ↦
        let (a, b) = twice p b'l' refl j in
        rw j
          (elim (Bool-cases (peek (advance p.fmt) == b'l')) [ inl k ↦ rw k (b k) | inr k ↦ rw k a ])
    | inr j ↦ rw j nothing
  ])
]

-- The parsing of a specification reads modifiers only.
pub parse_spec-Skips : (i : Inputs) (fmt : List ℕ) (s : State) → Skips fmt (parse_spec i fmt s).fmt
unfolding parse_spec
parse_spec-Skips i fmt s =
    let f = (parse_flags no_flags fmt).0 in
    let r = (parse_flags no_flags fmt).1 in
    let w = parse_width i f r s in
    let q = parse_precision i w in
    then-Skips (parse_flags-Skips no_flags fmt) (
      then-Skips (parse_width-Skips i f r s)
        (then-Skips (parse_precision-Skips i w) (parse_length-Skips q)))

-- Whether the last byte before the terminator is `%` or a modifier; `b` stands for the byte before
-- the format.
unfoldable pub ends_open : Bool → List ℕ → Bool
ends_open b [] = b
ends_open b (c ∷ fmt) =
    let rest = ends_open (c == b'%' || is_modifier c) fmt in if c == 0 then b else rest

ends_open-peek : (fmt : List ℕ) → peek fmt ≡ 0 → ends_open true fmt ≡ true
unfolding ends_open
ends_open-peek [] h = refl
ends_open-peek (c ∷ fmt) h = rw h refl

ends_open-modifier :
    (c : ℕ) (fmt : List ℕ) → is_modifier c ≡ true → ends_open true (c ∷ fmt) ≡ ends_open true fmt
unfolding ends_open
ends_open-modifier c fmt h =
    let e : (c == 0) ≡ false = ground (arith, h) in
    let k : (c == b'%' || is_modifier c) ≡ true = ground (arith, h) in rw (e, k) refl

ends_open-byte :
    (b : Bool) (c : ℕ) (fmt : List ℕ)
    → (c == 0) ≡ false
    → ends_open b (c ∷ fmt) ≡ ends_open (c == b'%' || is_modifier c) fmt
unfolding ends_open
ends_open-byte b c fmt h = rw h refl

Skips-ends_open :
    {fmt rest : List ℕ} → Skips fmt rest → ends_open true rest ≡ true → ends_open true fmt ≡ true
Skips-ends_open nothing h = h
Skips-ends_open (more {c} {fmt} m s) h = ends_open-modifier c fmt m ∙ Skips-ends_open s h

-- Such a format ends with `%` or with a modifier.
pub Unfinished-ends_open : {fmt : List ℕ} → Unfinished fmt → (b : Bool) → ends_open b fmt ≡ true
Unfinished-ends_open (last {fmt} {rest} d k e) b =
    ends_open-byte b b'%' fmt refl ∙ Skips-ends_open k (ends_open-peek rest e)
Unfinished-ends_open (byte {c} {fmt} z d u) b =
    ends_open-byte b c fmt z ∙ Unfinished-ends_open u (c == b'%' || is_modifier c)
Unfinished-ends_open (percent {fmt} u) b =
    ends_open-byte b b'%' (b'%' ∷ fmt) refl
    ∙ (ends_open-byte true b'%' fmt refl ∙ Unfinished-ends_open u true)
Unfinished-ends_open (directive {c} {fmt} {rest} d k z u) b =
    ends_open-byte b b'%' fmt refl
    ∙ Skips-ends_open k
        (ends_open-byte true c rest z ∙ Unfinished-ends_open u (c == b'%' || is_modifier c))
