-- ===== src/Common/Bits/Digits.antt =====
-- The binary digits of a mask in which one bit is cleared or set.
use Prim.Native.Nat.{ℕ, zero, suc, ◌+◌, ◌-◌, ◌*◌, ◌/◌, ◌%◌, ◌^◌, ◌<◌, max, bit_and, bit_or}
use mathlib.Core.Path.{◌≡◌, refl}
use mathlib.Core.Bool.{false}
use mathlib.Core.Logic.{inl, inr}
use native.Mathlib.Omega.{arith}
use native.Mathlib.Nat.{pow-suc, one-le-pow, min-zero, max-zero, pow-le-pow_right}
use borfos.Common.Tests.{◌==◌, Bool-cases, if◌then◌else◌}
use borfos.Common.Bits.{bit_and_step, bit_or_step, bit_or-low}
use borfos.Common.Bits.Masks.{min-one}

-- Binary digit `j`.
abbrev pub digit : ℕ → ℕ → ℕ
digit zero x = x % 2
digit (suc j) x = digit j (x / 2)

-- A number's half and its last digit.
abbrev IsStep : ℕ → ℕ → ℕ → Type 0
IsStep z a d = (z / 2 ≡ a) × (z % 2 ≡ d)

IsStep-of : (z a d : ℕ) → d < 2 → z ≡ a * 2 + d → IsStep z a d
IsStep-of z a d h e = (omega (arith, h, e), omega (arith, h, e))

ones-IsStep : (m x : ℕ) → IsStep (bit_and x (2 ^ suc m - 1)) (bit_and (x / 2) (2 ^ m - 1)) (x % 2)
ones-IsStep m x =
    let pos = one-le-pow m 2 (omega arith) in
    let half : (2 ^ suc m - 1) / 2 ≡ 2 ^ m - 1 = omega (arith, pow-suc 2 m, pos) in
    let odd : (2 ^ suc m - 1) % 2 ≡ 1 = omega (arith, pow-suc 2 m, pos) in
    let step = rw (half, odd) at (bit_and_step x (2 ^ suc m - 1)) in
    IsStep-of _ _ _ (omega arith) (omega (arith, step, min-one (x % 2) (omega arith)))

first-IsStep :
    (m x : ℕ) → IsStep (bit_and x (2 ^ suc m - 1 - 2 ^ 0)) (bit_and (x / 2) (2 ^ m - 1)) 0
first-IsStep m x =
    let pos = one-le-pow m 2 (omega arith) in
    let half : (2 ^ suc m - 1 - 2 ^ 0) / 2 ≡ 2 ^ m - 1 = omega (arith, pow-suc 2 m, pos) in
    let even : (2 ^ suc m - 1 - 2 ^ 0) % 2 ≡ 0 = omega (arith, pow-suc 2 m, pos) in
    let step = rw (half, even) at (bit_and_step x (2 ^ suc m - 1 - 2 ^ 0)) in
    IsStep-of _ _ _ (omega arith) (omega (arith, step, min-zero (x % 2)))

clear-IsStep :
    (k m x : ℕ)
    → k < m
    → IsStep (bit_and x (2 ^ suc m - 1 - 2 ^ suc k)) (bit_and (x / 2) (2 ^ m - 1 - 2 ^ k)) (x % 2)
clear-IsStep k m x h =
    let pos = one-le-pow k 2 (omega arith) in
    let more : 2 ^ k < 2 ^ m =
      omega
        (arith, pow-le-pow_right {n = 2} (omega arith) {i = suc k} {j = m} h, pow-suc 2 k, pos) in
    let half : (2 ^ suc m - 1 - 2 ^ suc k) / 2 ≡ 2 ^ m - 1 - 2 ^ k =
      omega (arith, pow-suc 2 m, pow-suc 2 k, pos) in
    let odd : (2 ^ suc m - 1 - 2 ^ suc k) % 2 ≡ 1 = omega (arith, pow-suc 2 m, pow-suc 2 k, more) in
    let step = rw (half, odd) at (bit_and_step x (2 ^ suc m - 1 - 2 ^ suc k)) in
    IsStep-of _ _ _ (omega arith) (omega (arith, step, min-one (x % 2) (omega arith)))

digit-ones : (m j x : ℕ) → j < m → digit j (bit_and x (2 ^ m - 1)) ≡ digit j x
digit-ones zero j x h = absurd (omega (arith, h))
digit-ones (suc m) zero x h = (ones-IsStep m x).1
digit-ones (suc m) (suc j) x h =
    rw ((ones-IsStep m x).0) (digit-ones m j (x / 2) (omega (arith, h)))

suc-same : (j k : ℕ) → (suc j == suc k) ≡ (j == k)
suc-same j k = elim (Bool-cases (j == k)) [ inl e ↦ ground (arith, e) | inr e ↦ ground (arith, e) ]

-- `mask &= ~(1 << k)` clears digit `k` and keeps the others.
pub digit-clear :
    (k n j x : ℕ)
    → k < n
    → j < n
    → digit j (bit_and x (2 ^ n - 1 - 2 ^ k)) ≡ (if j == k then 0 else digit j x)
digit-clear k zero j x h l = absurd (omega (arith, h))
digit-clear zero (suc m) zero x h l = (first-IsStep m x).1
digit-clear zero (suc m) (suc j) x h l =
    let ne : (suc j == 0) ≡ false = ground arith in
    rw (ne, (first-IsStep m x).0) (digit-ones m j (x / 2) (omega (arith, l)))
digit-clear (suc k) (suc m) zero x h l =
    let ne : (0 == suc k) ≡ false = ground arith in
    rw ne ((clear-IsStep k m x (omega (arith, h))).1)
digit-clear (suc k) (suc m) (suc j) x h l =
    rw (suc-same j k, (clear-IsStep k m x (omega (arith, h))).0)
      (digit-clear k m j (x / 2) (omega (arith, h)) (omega (arith, l)))

max-one : (d : ℕ) → d < 2 → max d 1 ≡ 1
max-one zero h = refl
max-one (suc zero) h = refl
max-one (suc (suc d)) h = absurd (omega (arith, h))

bit_or-none : (x : ℕ) → bit_or x 0 ≡ x
bit_or-none x =
    let e : x * 2 ^ 0 ≡ x = omega arith in
    let z : bit_or x 0 ≡ x + 0 = rw e at (bit_or-low 0 x 0 (omega arith)) in omega (arith, z)

set_first-IsStep : (x : ℕ) → IsStep (bit_or x (2 ^ 0)) (x / 2) 1
set_first-IsStep x =
    IsStep-of _ _ _ (omega arith)
      (omega (arith, bit_or_step x 1, bit_or-none (x / 2), max-one (x % 2) (omega arith)))

set-IsStep : (k x : ℕ) → IsStep (bit_or x (2 ^ suc k)) (bit_or (x / 2) (2 ^ k)) (x % 2)
set-IsStep k x =
    let half : 2 ^ suc k / 2 ≡ 2 ^ k = omega (arith, pow-suc 2 k) in
    let even : 2 ^ suc k % 2 ≡ 0 = omega (arith, pow-suc 2 k) in
    let step = rw (half, even) at (bit_or_step x (2 ^ suc k)) in
    IsStep-of _ _ _ (omega arith) (omega (arith, step, max-zero (x % 2)))

-- `mask |= 1 << k` sets digit `k` and keeps the others.
pub digit-set : (k j x : ℕ) → digit j (bit_or x (2 ^ k)) ≡ (if j == k then 1 else digit j x)
digit-set zero zero x = (set_first-IsStep x).1
digit-set zero (suc j) x =
    let ne : (suc j == 0) ≡ false = ground arith in rw (ne, (set_first-IsStep x).0) refl
digit-set (suc k) zero x =
    let ne : (0 == suc k) ≡ false = ground arith in rw ne ((set-IsStep k x).1)
digit-set (suc k) (suc j) x = rw (suc-same j k, (set-IsStep k x).0) (digit-set k j (x / 2))
