-- ===== src/Interrupts/Allocate.antt =====
-- kernel/drivers/cpu/idt.c: what `allocate_interrupts` returns.
use native.Mathlib.Nat.{mul-le-mul_right, le-mul_of_pos_right}
use borfos.Common.{
  true, ℕ, zero, suc, ◌+◌, ◌*◌, ◌/◌, ◌^◌, ◌<◌, ◌≤◌, ◌≡◌, refl, arith, Bool, false, Option, none,
  some, leb, ltb, ◌==◌, Bool-cases, inl, inr,
}
use borfos.Memory.Pool.Inv.{pow-pos}
use borfos.Memory.Pool.Aligned.{multiple}
use borfos.Interrupts.{Interrupts, used_loop, mark_used, base_loop, allocate_interrupts}

-- The numbers of the block were free.
abbrev pub IsUnused : (ℕ → Bool) → ℕ → ℕ → Type 0
IsUnused used base count = (x : ℕ) → base ≤ x → x < base + count → used x ≡ false

used_loop-bound : (rounds i base : ℕ) (used : ℕ → Bool) → used_loop rounds i base used ≤ i + rounds
unfolding used_loop
used_loop-bound zero i base used = omega arith
used_loop-bound (suc rounds) i base used = ground (arith, used_loop-bound rounds (i + 1) base used)

used_loop-IsUnused :
    (rounds i base : ℕ) (used : ℕ → Bool)
    → used_loop rounds i base used ≡ i + rounds
    → IsUnused used (base + i) rounds
unfolding used_loop
used_loop-IsUnused zero i base used h x a b = absurd (omega arith)
used_loop-IsUnused (suc rounds) i base used h x a b = elim (Bool-cases (used (base + i))) [
  | inl e ↦ absurd (ground (arith, h, e))
  | inr e ↦
      let h' : used_loop rounds (i + 1) base used ≡ i + 1 + rounds = ground (arith, h, e) in
      elim (Bool-cases (x == base + i)) [
        | inl k ↦ let z : x ≡ base + i = ground (arith, k) in rw z e
        | inr k ↦ used_loop-IsUnused rounds (i + 1) base used h' x (ground (arith, k)) (omega arith)
      ]
]

-- The block at `base`: it starts at a multiple of its size, its numbers were free and are now in
-- use, and nothing else changed.
pub record IsReserved (count : ℕ) (s : Interrupts) (base : ℕ) (s' : Interrupts) : Type 0 where
  pub aligned : base ≡ base / count * count
  pub below : base < 0x100
  pub unused : IsUnused s.used_interrupts base count
  pub after : s' ≡ record s { used_interrupts = mark_used base count s.used_interrupts }

abbrev pub ReservationOutcome : ℕ → Interrupts → Option ℕ × Interrupts → Type 0
ReservationOutcome count s (none, s') = s' ≡ s
ReservationOutcome count s (some base, s') = IsReserved count s base s'

base_loop-ReservationOutcome :
    (rounds count base q : ℕ) (s : Interrupts)
    → base ≡ q * count
    → 0 < count
    → ReservationOutcome count s (base_loop rounds count base s)
unfolding base_loop
base_loop-ReservationOutcome zero count base q s a p = refl
base_loop-ReservationOutcome (suc rounds) count base q s a p = elim (Bool-cases (ltb base 0x100)) [
  | inr e ↦ rw e refl
  | inl e ↦ elim (Bool-cases (used_loop count 0 base s.used_interrupts == count)) [
    | inr k ↦
        rw (e, k)
          (base_loop-ReservationOutcome rounds count (base + count) (suc q) s (omega (arith, a)) p)
    | inl k ↦
        let all : used_loop count 0 base s.used_interrupts ≡ 0 + count = ground (arith, k) in
        let free = used_loop-IsUnused count 0 base s.used_interrupts all in
        rw (e, k)
          (record {
            aligned = multiple q base count p a;
            below = ground (arith, e);
            unused = λ x b c. free x (omega (arith, b)) (omega (arith, c));
            after = refl;
          })
  ]
]

-- `allocate_interrupts` either returns -1 and changes nothing, or returns the first of `2 ^ order`
-- numbers, at a multiple of their count, none of which was in use and all of which are now; no
-- other entry changes.
pub allocate_interrupts-ReservationOutcome :
    (order : ℕ) (s : Interrupts) → ReservationOutcome (2 ^ order) s (allocate_interrupts order s)
unfolding allocate_interrupts
allocate_interrupts-ReservationOutcome order s = elim (Bool-cases (leb 0x8 order)) [
  | inl e ↦ rw e refl
  | inr e ↦
      rw e (base_loop-ReservationOutcome 0x100 (2 ^ order) 0 0 s (omega arith) (pow-pos order))
]

used_loop-full :
    (rounds i base : ℕ) (used : ℕ → Bool)
    → IsUnused used (base + i) rounds
    → used_loop rounds i base used ≡ i + rounds
unfolding used_loop
used_loop-full zero i base used h = omega arith
used_loop-full (suc rounds) i base used h =
    let free : used (base + i) ≡ false = h (base + i) (omega arith) (omega arith) in
    rw free (
      omega (
        arith,
        used_loop-full rounds (i + 1) base used
            (λ x a b. h x (omega (arith, a)) (omega (arith, b))),
      ))

base_loop-finds :
    (rounds count q t : ℕ) (s : Interrupts)
    → q ≤ t
    → t < q + rounds
    → 0 < count
    → t * count < 0x100
    → IsUnused s.used_interrupts (t * count) count
    → (base : ℕ) × (s' : Interrupts) × (base_loop rounds count (q * count) s ≡ (some base, s'))
      × (base ≤ t * count)
unfolding base_loop
base_loop-finds zero count q t s a b p below free = absurd (omega (arith, a, b))
base_loop-finds (suc rounds) count q t s a b p below free =
    let first : q * count ≤ t * count = mul-le-mul_right count a in
    let small : ltb (q * count) 0x100 ≡ true = ground (arith, first, below) in
    elim (Bool-cases (used_loop count 0 (q * count) s.used_interrupts == count)) [
      | inl e ↦ (
        q * count,
        record s { used_interrupts = mark_used (q * count) count s.used_interrupts },
        rw (small, e) refl,
        first,
      )
      | inr e ↦ elim (Bool-cases (q == t)) [
        | inl k ↦
            let z : q ≡ t = ground (arith, k) in
            let base : t * count + 0 ≡ t * count = omega arith in
            let full : used_loop count 0 (t * count) s.used_interrupts ≡ 0 + count =
              used_loop-full count 0 (t * count) s.used_interrupts (rw base free) in
            let no : (used_loop count 0 (t * count) s.used_interrupts == count) ≡ false =
              rw z at e in
            absurd (ground (arith, full, no))
        | inr k ↦
            let next : q * count + count ≡ suc q * count = omega arith in
            let (base, s', r, l) =
              base_loop-finds rounds count (suc q) t s (ground (arith, k, a)) (omega (arith, b)) p
                below free in
            (base, s', rw (small, e, next) r, l)
      ]
    ]

-- If a block of `2 ^ order` numbers at a multiple of their count, for an order up to 7, is unused,
-- `allocate_interrupts` finds one, no higher than that.
pub allocate_interrupts-finds :
    (order t : ℕ) (s : Interrupts)
    → order < 8
    → t * 2 ^ order < 0x100
    → IsUnused s.used_interrupts (t * 2 ^ order) (2 ^ order)
    → (base : ℕ) × (s' : Interrupts) × (allocate_interrupts order s ≡ (some base, s'))
      × (base ≤ t * 2 ^ order)
unfolding allocate_interrupts
allocate_interrupts-finds order t s small below free =
    let e : leb 0x8 order ≡ false = ground (arith, small) in
    let pos = pow-pos order in
    let z : 0 * 2 ^ order ≡ 0 = omega arith in
    let bound : t ≤ t * 2 ^ order = le-mul_of_pos_right t pos in
    let (base, s', r, l) =
      base_loop-finds 0x100 (2 ^ order) 0 t s (omega arith) (omega (arith, bound, below)) pos below
        free in
    (base, s', rw e (rw z at r), l)
