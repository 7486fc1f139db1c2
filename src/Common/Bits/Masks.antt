-- ===== src/Common/Bits/Masks.antt =====
-- `&` with a single bit and with the complement of one.
use Prim.Native.Nat.{ℕ, zero, suc, ◌-◌, ◌*◌, ◌/◌, ◌%◌, ◌^◌, ◌<◌, min, bit_and, bit_and-bitwise}
use mathlib.Core.Path.{◌≡◌, refl, ap}
use native.Mathlib.Omega.{arith}
use native.Mathlib.Nat.{pow-suc, one-le-pow, div-div-eq-div-mul, min-zero}
use borfos.Common.Bits.{bit_and_step, bit_and-bound}

pub min-one : (d : ℕ) → d < 2 → min d 1 ≡ d
min-one zero h = refl
min-one (suc zero) h = refl
min-one (suc (suc d)) h = absurd (omega (arith, h))

-- A word of `m` bits is kept by all ones.
pub bit_and-ones : (m x : ℕ) → x < 2 ^ m → bit_and x (2 ^ m - 1) ≡ x
bit_and-ones zero x h = let z : x ≡ 0 = omega (arith, h) in rw z (omega (arith, bit_and-bound 0 0))
bit_and-ones (suc m) x h =
    let pos = one-le-pow m 2 (omega arith) in
    let half : (2 ^ suc m - 1) / 2 ≡ 2 ^ m - 1 = omega (arith, pow-suc 2 m, pos) in
    let odd : (2 ^ suc m - 1) % 2 ≡ 1 = omega (arith, pow-suc 2 m, pos) in
    let step = rw (half, odd) at (bit_and_step x (2 ^ suc m - 1)) in
    omega (
      arith,
      step,
      min-one (x % 2) (omega arith),
      bit_and-ones m (x / 2) (omega (arith, h, pow-suc 2 m)),
    )

-- Clearing bit `k` of a multiple of `2 ^ k` among `n` bits.
pub bit_and-clear :
    (k n q : ℕ)
    → k < n
    → q * 2 ^ k < 2 ^ n
    → bit_and (q * 2 ^ k) (2 ^ n - 1 - 2 ^ k) ≡ q / 2 * 2 ^ suc k
bit_and-clear k zero q h l = absurd (omega (arith, h))
bit_and-clear zero (suc m) q h l =
    let pos = one-le-pow m 2 (omega arith) in
    let e : q * 2 ^ 0 ≡ q = omega arith in
    let half : (2 ^ suc m - 1 - 2 ^ 0) / 2 ≡ 2 ^ m - 1 = omega (arith, pow-suc 2 m, pos) in
    let even : (2 ^ suc m - 1 - 2 ^ 0) % 2 ≡ 0 = omega (arith, pow-suc 2 m, pos) in
    let step = rw (half, even) at (bit_and_step q (2 ^ suc m - 1 - 2 ^ 0)) in
    rw e (
      omega
        (arith, step, min-zero (q % 2), bit_and-ones m (q / 2) (omega (arith, l, e, pow-suc 2 m))))
bit_and-clear (suc k) (suc m) q h l =
    let pos = one-le-pow k 2 (omega arith) in
    let twice : q * 2 ^ suc k ≡ 2 * (q * 2 ^ k) =
      omega (arith, ap (λ (t : ℕ). q * t) (pow-suc 2 k)) in
    let twice' : q / 2 * 2 ^ suc (suc k) ≡ 2 * (q / 2 * 2 ^ suc k) =
      omega (arith, ap (λ (t : ℕ). q / 2 * t) (pow-suc 2 (suc k))) in
    let half : (2 ^ suc m - 1 - 2 ^ suc k) / 2 ≡ 2 ^ m - 1 - 2 ^ k =
      omega (arith, pow-suc 2 m, pow-suc 2 k, pos) in
    let half' : q * 2 ^ suc k / 2 ≡ q * 2 ^ k = omega (arith, twice) in
    let even : q * 2 ^ suc k % 2 ≡ 0 = omega (arith, twice) in
    let step =
      rw (half, half', even) at (bit_and_step (q * 2 ^ suc k) (2 ^ suc m - 1 - 2 ^ suc k)) in
    omega (
      arith,
      step,
      twice',
      bit_and-clear k m q (omega (arith, h)) (omega (arith, l, twice, pow-suc 2 m)),
    )

-- Bit `k` of a number.
pub bit_and-bit : (k x : ℕ) → bit_and (2 ^ k) x ≡ x / 2 ^ k % 2 * 2 ^ k
bit_and-bit zero x =
    let d : x / 2 ^ 0 % 2 * 2 ^ 0 ≡ x % 2 = omega arith in
    rw d (omega (arith, bit_and_step 1 x, none (x / 2), low (x % 2) (omega arith)))
  where
    none : (y : ℕ) → bit_and 0 y ≡ 0
    none y = omega (arith, bit_and-bitwise 0 y)

    low : (d : ℕ) → d < 2 → min 1 d ≡ d
    low zero h = refl
    low (suc zero) h = refl
    low (suc (suc d)) h = absurd (omega (arith, h))
bit_and-bit (suc k) x =
    let half : 2 ^ suc k / 2 ≡ 2 ^ k = omega (arith, pow-suc 2 k) in
    let even : 2 ^ suc k % 2 ≡ 0 = omega (arith, pow-suc 2 k) in
    let step = rw (half, even) at (bit_and_step (2 ^ suc k) x) in
    let two : 2 * 2 ^ k ≡ 2 ^ suc k = omega (arith, pow-suc 2 k) in
    let d : x / 2 / 2 ^ k ≡ x / 2 ^ suc k = rw two at (div-div-eq-div-mul x 2 (2 ^ k)) in
    let ih : bit_and (2 ^ k) (x / 2) ≡ x / 2 ^ suc k % 2 * 2 ^ k =
      rw d at (bit_and-bit k (x / 2)) in
    let t : x / 2 ^ suc k % 2 * 2 ^ suc k ≡ 2 * (x / 2 ^ suc k % 2 * 2 ^ k) =
      omega (arith, ap (λ (t : ℕ). x / 2 ^ suc k % 2 * t) (pow-suc 2 k)) in
    omega (arith, step, ih, t)
