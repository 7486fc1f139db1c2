-- ===== src/Cpu/Time.antt =====
-- kernel/drivers/cpu/kvm.c: nanoseconds to ticks and back.
use borfos.Common.{
  ℕ, ◌+◌, ◌*◌, ◌/◌, ◌^◌, ◌<◌, ◌≤◌, ◌≡◌, ◌≢◌, inl, inr, refl, ◌∙◌, some, false, ◌==◌, arith,
  Bool-cases, if◌then◌else◌, u64,
}
use native.Mathlib.Nat.{
  div-mul-le_self, lt-div-mul-add, mul-le-mul_right, mul-div_cancel, add-mul, div-le_self,
}
use borfos.Memory.Pool.Inv.{pow-pos}
use borfos.Cpu.Kvm.{VcpuTime, shifts_left, negated_shift, tsc_to_nanoseconds, nanoseconds_to_tsc}

-- Only the low 32 bits of the nanoseconds count: a time of `2 ^ 32` ns more, 4.29 s, gives the same
-- ticks.
pub nanoseconds_to_tsc-wraps :
    (c : VcpuTime) (ns : ℕ) → nanoseconds_to_tsc c (ns + 2 ^ 32) ≡ nanoseconds_to_tsc c ns
unfolding nanoseconds_to_tsc
nanoseconds_to_tsc-wraps c ns =
    let e : u64 ((ns + 2 ^ 32) * 2 ^ 32) ≡ u64 (ns * 2 ^ 32) = omega arith in rw e refl

-- Of `a`, the quotients by `m` and then by `p`, multiplied back, leave no more than `a`, and less than `p * m`
-- is lost.
products :
    (a m p : ℕ)
    → 0 < m
    → 0 < p
    → (a / m / p * p ≤ a / m) × (a / m / p * p * m ≤ a) × (a < a / m / p * p * m + p * m)
products a m p pos_m pos_p =
    let q = a / m in
    let t = q / p in
    let low : t * p ≤ q = div-mul-le_self q p in
    let high : q < t * p + p = lt-div-mul-add pos_p in
    let low_m : q * m ≤ a = div-mul-le_self a m in
    let high_m : a < q * m + m = lt-div-mul-add pos_m in
    let back : t * p * m ≤ q * m = mul-le-mul_right m low in
    let over : (q + 1) * m ≤ (t * p + p) * m = mul-le-mul_right m (omega (arith, high)) in
    let e1 : (q + 1) * m ≡ q * m + m = add-mul q 1 m ∙ omega arith in
    let e2 : (t * p + p) * m ≡ t * p * m + p * m = add-mul (t * p) p m in
    (low, omega (arith, back, low_m), omega (arith, high_m, over, e1, e2))

-- A number of 2^-32 ns that is within `g` of a time below 2^32 ns.
rounded :
    (x ns g : ℕ)
    → x ≤ ns * 2 ^ 32
    → ns * 2 ^ 32 < x + g
    → (x / 2 ^ 32 ≤ ns) × (ns * 2 ^ 32 < (x / 2 ^ 32 + 1) * 2 ^ 32 + g)
rounded x ns g h k = (omega (arith, h), omega (arith, k))

-- The ticks for a step of the clock.
abbrev pub grain : VcpuTime → ℕ
grain c = if shifts_left c then 2 ^ c.tsc_shift else 1

-- What the ticks are multiplied with for a negative shift; for any other they are divided.
abbrev pub scale : VcpuTime → ℕ
scale c = if shifts_left c then 1 else 2 ^ negated_shift c

-- A time below `2 ^ 32` ns on a clock whose multiplier is not 0, with ticks below `2 ^ 64` if the
-- shift is negative; the shift may have any sign. The conversion returns, and read back, its ticks
-- give no more than the time, and less by no more than a nanosecond and the length of a step of the
-- clock.
pub nanoseconds_to_tsc-back :
    (c : VcpuTime) (ns : ℕ)
    → ns < 2 ^ 32
    → c.tsc_to_system_mul ≢ 0
    → ns * 2 ^ 32 / c.tsc_to_system_mul * scale c < 2 ^ 64
    → (t : ℕ) × (nanoseconds_to_tsc c ns ≡ some t)
      × (tsc_to_nanoseconds c t ≤ ns)
      × (ns * 2 ^ 32 < (tsc_to_nanoseconds c t + 1) * 2 ^ 32 + grain c * c.tsc_to_system_mul)
unfolding nanoseconds_to_tsc tsc_to_nanoseconds
nanoseconds_to_tsc-back c ns small n fits =
    let m = c.tsc_to_system_mul in
    let a = ns * 2 ^ 32 in
    let z : m == 0 ≡ false = ground (arith, n) in
    let ua : u64 a ≡ a = omega (arith, small) in
    elim (Bool-cases (shifts_left c)) [
      | inl left ↦
          let p = 2 ^ c.tsc_shift in
          let (x, y, w) = products a m p (omega (arith, n)) (pow-pos c.tsc_shift) in
          let t = a / m / p in
          let e1 : u64 (t * p) ≡ t * p = omega (arith, x, div-le_self a m, small) in
          let e2 : u64 (t * p * m) ≡ t * p * m = omega (arith, y, small) in
          let v : tsc_to_nanoseconds c t ≡ t * p * m / 2 ^ 32 = rw (left, e1, e2) refl in
          let g : grain c ≡ p = rw left refl in
          let (low, high) = rounded (t * p * m) ns (p * m) y w in
          (t, rw (z, left, ua) refl, rw v low, rw (v, g) high)
      | inr right ↦
          let p = 2 ^ negated_shift c in
          let q = a / m in
          let t = q * p in
          let e0 : u64 t ≡ t = omega (arith, rw right at fits) in
          let e1 : t / p ≡ q = mul-div_cancel q (pow-pos (negated_shift c)) in
          let y' : q * m ≤ a = div-mul-le_self a m in
          let w' : a < q * m + 1 * m = omega (arith, a_high a m n) in
          let e2 : u64 (q * m) ≡ q * m = omega (arith, y', small) in
          let v : tsc_to_nanoseconds c t ≡ q * m / 2 ^ 32 = rw (right, e1, e2) refl in
          let g : grain c ≡ 1 = rw right refl in
          let (low, high) = rounded (q * m) ns (1 * m) y' w' in
          (t, rw (z, right, ua, e0) refl, rw v low, rw (v, g) high)
    ]
  where
    a_high : (a m : ℕ) → m ≢ 0 → a < a / m * m + m
    a_high a m n = lt-div-mul-add (omega (arith, n))
