-- ===== src/Common/Bits.antt =====
-- Bit operations at variables, from the law for the lowest digit.
pub mod Masks
pub mod Digits
use Prim.Native.Nat.{
  ℕ, zero, suc, ◌+◌, ◌-◌, ◌*◌, ◌/◌, ◌%◌, ◌^◌, ◌≤◌, ◌<◌, min, max, differ, digits, bitwise, bit_and,
  bit_or, bit_or-bitwise, bit_xor, bit_and-bitwise, bit_xor-bitwise,
}
use mathlib.Core.Path.{◌≡◌, refl, ap}
use native.Mathlib.Omega.{arith}
use native.Mathlib.Nat.{pow-suc}

-- More rounds than digits give the same number.
digits-rounds :
    (z : ℕ → ℕ) (f : ℕ → ℕ → ℕ) (n m a b : ℕ) → a ≤ n → a ≤ m → digits z f n a b ≡ digits z f m a b
digits-rounds z f zero zero a b p q = refl
digits-rounds z f zero (suc m) zero b p q = refl
digits-rounds z f zero (suc m) (suc a) b p q = absurd (omega arith)
digits-rounds z f (suc n) zero zero b p q = refl
digits-rounds z f (suc n) zero (suc a) b p q = absurd (omega arith)
digits-rounds z f (suc n) (suc m) zero b p q = refl
digits-rounds z f (suc n) (suc m) (suc a) b p q =
    omega (arith, digits-rounds z f n m (suc a / 2) (b / 2) (omega arith) (omega arith))

bitwise_step :
    (z : ℕ → ℕ) (f : ℕ → ℕ → ℕ) (a b : ℕ)
    → bitwise z f (suc a) b ≡ bitwise z f (suc a / 2) (b / 2) * 2 + f (suc a % 2) (b % 2)
bitwise_step z f a b =
    omega (arith, digits-rounds z f a (suc a / 2) (suc a / 2) (b / 2) (omega arith) (omega arith))

differ-zero : (b : ℕ) → differ 0 b ≡ b
differ-zero b = refl

pub bit_xor_step : (a b : ℕ) → bit_xor a b ≡ bit_xor (a / 2) (b / 2) * 2 + differ (a % 2) (b % 2)
bit_xor_step zero b =
    omega (arith, bit_xor-bitwise 0 b, bit_xor-bitwise 0 (b / 2), differ-zero (b % 2))
bit_xor_step (suc a) b = omega (
  arith,
  bit_xor-bitwise (suc a) b,
  bit_xor-bitwise (suc a / 2) (b / 2),
  bitwise_step (λ y. y) differ a b,
)

pub bit_and_step : (a b : ℕ) → bit_and a b ≡ bit_and (a / 2) (b / 2) * 2 + min (a % 2) (b % 2)
bit_and_step zero b = omega (arith, bit_and-bitwise 0 b, bit_and-bitwise 0 (b / 2))
bit_and_step (suc a) b = omega (
  arith,
  bit_and-bitwise (suc a) b,
  bit_and-bitwise (suc a / 2) (b / 2),
  bitwise_step (λ y. 0) min a b,
)

differ_zero_right : (d : ℕ) → differ d 0 ≡ d
differ_zero_right zero = refl
differ_zero_right (suc d) = refl

bit_xor-zero_fuel : (n a : ℕ) → a ≤ n → bit_xor a 0 ≡ a
bit_xor-zero_fuel n zero h = bit_xor-bitwise 0 0
bit_xor-zero_fuel zero (suc a) h = absurd (omega arith)
bit_xor-zero_fuel (suc n) (suc a) h = omega (
  arith,
  bit_xor_step (suc a) 0,
  differ_zero_right (suc a % 2),
  bit_xor-zero_fuel n (suc a / 2) (omega arith),
)

pub bit_xor-zero : (a : ℕ) → bit_xor a 0 ≡ a
bit_xor-zero a = bit_xor-zero_fuel a a (omega arith)

-- The lowest bit flips.
pub bit_xor-one : (q : ℕ) → bit_xor q 1 + q % 2 ≡ q / 2 * 2 + 1
bit_xor-one q = omega (arith, bit_xor_step q 1, bit_xor-zero (q / 2), flip (q % 2) (omega arith))
  where
    flip : (d : ℕ) → d < 2 → differ d 1 + d ≡ 1
    flip zero h = refl
    flip (suc zero) h = refl
    flip (suc (suc d)) h = absurd (omega arith)

bit_xor-even : (u v x y : ℕ) → u ≡ 2 * x → v ≡ 2 * y → bit_xor u v ≡ bit_xor x y * 2
bit_xor-even u v x y p q =
    let eu : u / 2 ≡ x = omega arith in
    let ev : v / 2 ≡ y = omega arith in
    let zu : u % 2 ≡ 0 = omega arith in
    let zv : v % 2 ≡ 0 = omega arith in
    let step : bit_xor u v ≡ bit_xor x y * 2 + 0 =
      rw zv at (rw zu at (rw ev at (rw eu at (bit_xor_step u v)))) in
    omega (arith, step)

-- Zeros below stay zeros.
pub bit_xor-shift : (k a b : ℕ) → bit_xor (a * 2 ^ k) (b * 2 ^ k) ≡ bit_xor a b * 2 ^ k
bit_xor-shift zero a b =
    let ea : a * 2 ^ 0 ≡ a = omega arith in
    let eb : b * 2 ^ 0 ≡ b = omega arith in rw ea (rw eb (omega arith))
bit_xor-shift (suc k) a b =
    let p = 2 ^ k in
    let twice : (q : ℕ) → q * 2 ^ suc k ≡ 2 * (q * 2 ^ k) =
      λ q. omega (arith, ap (λ (t : ℕ). q * t) (pow-suc 2 k)) in
    omega (
      arith,
      bit_xor-even (a * 2 ^ suc k) (b * 2 ^ suc k) (a * 2 ^ k) (b * 2 ^ k) (twice a) (twice b),
      bit_xor-shift k a b,
      twice (bit_xor a b),
    )

-- The buddy of a block: bit `k` of a multiple of `2 ^ k` flips.
pub bit_xor-buddy : (k q : ℕ) → bit_xor (q * 2 ^ k) (2 ^ k) ≡ (q / 2 * 2 + 1 - q % 2) * 2 ^ k
bit_xor-buddy k q =
    let one : 1 * 2 ^ k ≡ 2 ^ k = omega arith in
    let e : bit_xor q 1 ≡ q / 2 * 2 + 1 - q % 2 = omega (arith, bit_xor-one q) in
    rw e at (rw one at (bit_xor-shift k q 1))

bit_and-zero_fuel : (n a : ℕ) → a ≤ n → bit_and a 0 ≡ 0
bit_and-zero_fuel n zero h = omega (arith, bit_and-bitwise 0 0)
bit_and-zero_fuel zero (suc a) h = absurd (omega (arith, h))
bit_and-zero_fuel (suc n) (suc a) h =
    omega (arith, bit_and_step (suc a) 0, bit_and-zero_fuel n (suc a / 2) (omega (arith, h)))

-- `&` with a number is no more than it.
bit_and-bound_fuel : (n a b : ℕ) → b ≤ n → bit_and a b ≤ b
bit_and-bound_fuel zero a b h =
    let z : b ≡ 0 = omega (arith, h) in rw z (omega (arith, bit_and-zero_fuel a a (omega arith)))
bit_and-bound_fuel (suc n) a zero h = omega (arith, bit_and-zero_fuel a a (omega arith))
bit_and-bound_fuel (suc n) a (suc b) h =
    omega
      (arith, bit_and_step a (suc b), bit_and-bound_fuel n (a / 2) (suc b / 2) (omega (arith, h)))

pub bit_and-bound : (a b : ℕ) → bit_and a b ≤ b
bit_and-bound a b = bit_and-bound_fuel b a b (omega arith)

pub bit_and-one : (a : ℕ) → bit_and a 1 ≡ a % 2
bit_and-one a = omega (arith, bit_and_step a 1, bit_and-zero_fuel (a / 2) (a / 2) (omega arith))

pub bit_or_step : (a b : ℕ) → bit_or a b ≡ bit_or (a / 2) (b / 2) * 2 + max (a % 2) (b % 2)
bit_or_step zero b = omega (arith, bit_or-bitwise 0 b, bit_or-bitwise 0 (b / 2))
bit_or_step (suc a) b = omega (
  arith,
  bit_or-bitwise (suc a) b,
  bit_or-bitwise (suc a / 2) (b / 2),
  bitwise_step (λ y. y) max a b,
)

bit_or-zero_fuel : (n a : ℕ) → a ≤ n → bit_or a 0 ≡ a
bit_or-zero_fuel n zero h = bit_or-bitwise 0 0
bit_or-zero_fuel zero (suc a) h = absurd (omega arith)
bit_or-zero_fuel (suc n) (suc a) h =
    omega (arith, bit_or_step (suc a) 0, bit_or-zero_fuel n (suc a / 2) (omega arith))

-- `|` of a multiple of `2 ^ k` and a number below `2 ^ k` is their sum.
pub bit_or-low : (k q r : ℕ) → r < 2 ^ k → bit_or (q * 2 ^ k) r ≡ q * 2 ^ k + r
bit_or-low zero q r h =
    let z : r ≡ 0 = omega arith in rw z (omega (arith, bit_or-zero_fuel (q * 1) (q * 1)))
bit_or-low (suc k) q r h =
    let twice : q * 2 ^ suc k ≡ 2 * (q * 2 ^ k) =
      omega (arith, ap (λ (t : ℕ). q * t) (pow-suc 2 k)) in
    let half : q * 2 ^ suc k / 2 ≡ q * 2 ^ k = omega (arith, twice) in
    let step = rw half at (bit_or_step (q * 2 ^ suc k) r) in
    omega (arith, step, twice, bit_or-low k q (r / 2) (omega (arith, pow-suc 2 k)))

max_bits : (c d : ℕ) → c < 2 → d < 2 → max c d ≡ max d c
max_bits zero zero h k = refl
max_bits zero (suc zero) h k = refl
max_bits (suc zero) zero h k = refl
max_bits (suc zero) (suc zero) h k = refl
max_bits (suc (suc c)) d h k = absurd (omega (arith, h))
max_bits zero (suc (suc d)) h k = absurd (omega (arith, k))
max_bits (suc zero) (suc (suc d)) h k = absurd (omega (arith, k))

bit_or_comm_fuel : (n a b : ℕ) → a + b ≤ n → bit_or a b ≡ bit_or b a
bit_or_comm_fuel n zero zero h = refl
bit_or_comm_fuel zero a b h =
    let x : a ≡ 0 = omega (arith, h) in let y : b ≡ 0 = omega (arith, h) in rw (x, y) refl
bit_or_comm_fuel (suc n) a b h =
    let r = bit_or_comm_fuel n (a / 2) (b / 2) (omega (arith, h)) in
    omega (
      arith,
      bit_or_step a b,
      bit_or_step b a,
      r,
      max_bits (a % 2) (b % 2) (omega arith) (omega arith),
    )

pub bit_or_comm : (a b : ℕ) → bit_or a b ≡ bit_or b a
bit_or_comm a b = bit_or_comm_fuel (a + b) a b (omega arith)
