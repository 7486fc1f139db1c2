-- ===== src/Cpu/Numbers.antt =====
-- kernel/drivers/cpu/idt.c: `allocate_interrupt` takes a free number.
use borfos.Common.{
  ℕ, zero, suc, ◌+◌, ◌<◌, ◌≤◌, ◌≡◌, ◌≢◌, inl, inr, refl, Bool, true, false, Option, some, ltb, ◌==◌,
  arith, Bool-cases,
}
use borfos.Interrupts.{Interrupts, used_loop, mark_used, base_loop, allocate_interrupts}
use borfos.Cpu.Lapic.{allocate_interrupt}

-- `allocate_interrupt` took the number `n`, which was free.
pub record IsTaken (i : Interrupts) (r : Option ℕ × Interrupts) (n : ℕ) : Type 0 where
  pub result : r ≡ (some n, record i { used_interrupts = mark_used n 1 i.used_interrupts })
  pub was_free : i.used_interrupts n ≡ false
  pub below : n < 0x100

one_free : (base : ℕ) (used : ℕ → Bool) → used base ≡ false → (used_loop 1 0 base used == 1) ≡ true
unfolding used_loop
one_free base used g =
    let z : base + 0 ≡ base = omega arith in let e : used (base + 0) ≡ false = rw z g in rw e refl

one_used : (base : ℕ) (used : ℕ → Bool) → used base ≡ true → (used_loop 1 0 base used == 1) ≡ false
unfolding used_loop
one_used base used g =
    let z : base + 0 ≡ base = omega arith in let e : used (base + 0) ≡ true = rw z g in rw e refl

base_loop-IsTaken :
    (rounds base x : ℕ) (i : Interrupts)
    → x < base + rounds
    → base ≤ x
    → x < 0x100
    → i.used_interrupts x ≡ false
    → (n : ℕ) × (n ≤ x) × IsTaken i (base_loop rounds 1 base i) n
unfolding base_loop used_loop
base_loop-IsTaken zero base x i h l b f = absurd (omega (arith, h, l))
base_loop-IsTaken (suc rounds) base x i h l b f =
    let e : ltb base 0x100 ≡ true = ground (arith, b, l) in
    elim (Bool-cases (i.used_interrupts base)) [
      | inr g ↦ (
        base,
        l,
        record {
          result = rw (e, one_free base i.used_interrupts g) refl;
          was_free = g;
          below = omega (arith, l, b);
        },
      )
      | inl g ↦
          let n : base ≢ x = λ z. absurd (ground (arith, rw z at g, f)) in
          let (m, c, t) =
            base_loop-IsTaken rounds (base + 1) x i (omega (arith, h)) (omega (arith, l, n)) b f in
          (
            m,
            c,
            record {
              result = rw (e, one_used base i.used_interrupts g) t.result;
              was_free = t.was_free;
              below = t.below;
            },
          )
    ]

-- A free number is enough for `allocate_interrupt` to take one.
pub allocate_interrupt-IsTaken :
    (x : ℕ) (i : Interrupts)
    → x < 0x100
    → i.used_interrupts x ≡ false
    → (n : ℕ) × (n ≤ x) × IsTaken i (allocate_interrupt i) n
unfolding allocate_interrupt allocate_interrupts
allocate_interrupt-IsTaken x i b f =
    base_loop-IsTaken 0x100 0 x i (omega (arith, b)) (omega arith) b f
