-- ===== src/Memory/Pool/Aligned.antt =====
-- Aligned blocks, their halves, and their buddies.
use native.Mathlib.Nat.{pow-suc, mul-div_cancel, mul-le-mul_right, mul_assoc}
use borfos.Common.{
  ℕ, zero, suc, ◌+◌, ◌-◌, ◌*◌, ◌/◌, ◌%◌, ◌^◌, ◌<◌, ◌≤◌, ◌≡◌, ap, refl, arith, leb, Bool-cases, inl,
  inr, sym, ◌∙◌,
}
use Prim.Native.Nat.{bit_xor}
use borfos.Common.Bits.{bit_xor-buddy}
use borfos.Memory.Pool.Inv.{pow-pos}

-- A multiple of a positive number is its quotient times it.
pub multiple : (q n w : ℕ) → 0 < w → n ≡ q * w → n ≡ n / w * w
multiple q n w pos e = let d : n / w ≡ q = rw e (mul-div_cancel q pos) in rw d e

-- An aligned block's upper half starts where its bit `o` is set, and both halves are aligned.
pub record Halves (o i : ℕ) : Type 0 where
  pub upper : bit_xor i (2 ^ o) ≡ i + 2 ^ o
  pub lower_aligned : i ≡ i / 2 ^ o * 2 ^ o
  pub upper_aligned : i + 2 ^ o ≡ (i + 2 ^ o) / 2 ^ o * 2 ^ o

pub aligned-Halves : (o i : ℕ) → i ≡ i / 2 ^ suc o * 2 ^ suc o → Halves o i
aligned-Halves o i h =
    let q = i / 2 ^ suc o in
    let e : i ≡ 2 * q * 2 ^ o = omega (arith, h, ap (λ (t : ℕ). q * t) (pow-suc 2 o)) in
    let b : bit_xor (2 * q * 2 ^ o) (2 ^ o) ≡ (2 * q / 2 * 2 + 1 - 2 * q % 2) * 2 ^ o =
      bit_xor-buddy o (2 * q) in
    let c : 2 * q / 2 * 2 + 1 - 2 * q % 2 ≡ 2 * q + 1 = omega arith in
    let b' : bit_xor i (2 ^ o) ≡ (2 * q + 1) * 2 ^ o = rw c at (rw (← e) at b) in
    record {
      upper = omega (arith, b', e);
      lower_aligned = multiple (2 * q) i (2 ^ o) (pow-pos o) e;
      upper_aligned = multiple (2 * q + 1) (i + 2 ^ o) (2 ^ o) (pow-pos o) (omega (arith, e));
    }

-- A power of two is a multiple of each lower one.
pub power_multiple : (a d : ℕ) → (c : ℕ) × (2 ^ (a + d) ≡ c * 2 ^ a)
power_multiple a zero = let e : a + 0 ≡ a = omega arith in (1, rw e (omega arith))
power_multiple a (suc d) =
    let (c, h) = power_multiple a d in
    let e : a + suc d ≡ suc (a + d) = omega arith in
    (2 * c, rw e (omega (arith, pow-suc 2 (a + d), h)))

-- Alignment to an order is alignment to those below.
aligned_below : (i a d : ℕ) → i ≡ i / 2 ^ (a + d) * 2 ^ (a + d) → i ≡ i / 2 ^ a * 2 ^ a
aligned_below i a d h =
    let (c, e) = power_multiple a d in
    multiple (i / 2 ^ (a + d) * c) i (2 ^ a) (pow-pos a)
      (omega (arith, h, ap (λ (z : ℕ). i / 2 ^ (a + d) * z) e))

-- No multiple of twice `p` is one of its odd multiples.
odd_multiple : (c d p : ℕ) → 0 < p → c * (p * 2) ≡ d * (p * 2) + p → ⊥
odd_multiple c d p h e = elim (Bool-cases (leb c d)) [
  | inl k ↦
      let l : c * (p * 2) ≤ d * (p * 2) = mul-le-mul_right (p * 2) (ground (arith, k)) in
      omega (arith, l, h, e)
  | inr k ↦
      let l : suc d * (p * 2) ≤ c * (p * 2) = mul-le-mul_right (p * 2) (ground (arith, k)) in
      omega (arith, l, h, e)
]

pow_injective : (a b : ℕ) → 2 ^ a ≡ 2 ^ b → a ≡ b
pow_injective zero zero h = refl
pow_injective zero (suc b) h = absurd (omega (arith, h, pow-suc 2 b, pow-pos b))
pow_injective (suc a) zero h = absurd (omega (arith, h, pow-suc 2 a, pow-pos a))
pow_injective (suc a) (suc b) h =
    ap suc (pow_injective a b (omega (arith, h, pow-suc 2 a, pow-suc 2 b)))

-- The upper half of order `p` of a block is the buddy of no other order.
pub upper_order :
    (i p o : ℕ)
    → i ≡ i / 2 ^ suc p * 2 ^ suc p
    → bit_xor (i / 2 ^ o * 2 ^ o) (2 ^ o) ≡ i + 2 ^ p
    → p ≡ o
upper_order i p o h e = elim (Bool-cases (leb o p)) [
  | inl k ↦
      let s : suc o + (p - o) ≡ suc p = ground (arith, k) in
      let a = aligned-Halves o i (aligned_below i (suc o) (p - o) (rw s h)) in
      let e' : bit_xor i (2 ^ o) ≡ i + 2 ^ p = rw (← a.lower_aligned) at e in
      pow_injective p o (omega (arith, e', a.upper))
  | inr k ↦
      let s : suc p + (o - suc p) ≡ o = ground (arith, k) in
      let (c, m) = power_multiple (suc p) (o - suc p) in
      let q = i / 2 ^ o / 2 * 2 + 1 - i / 2 ^ o % 2 in
      let b : q * 2 ^ o ≡ i + 2 ^ p = omega (arith, e, bit_xor-buddy o (i / 2 ^ o)) in
      let m' : 2 ^ o ≡ c * (2 ^ p * 2) = rw (pow-suc 2 p) at (rw s at m) in
      let h' : i ≡ i / 2 ^ suc p * (2 ^ p * 2) =
        omega (arith, h, ap (λ (z : ℕ). i / 2 ^ suc p * z) (pow-suc 2 p)) in
      let r : q * c * (2 ^ p * 2) ≡ q * 2 ^ o =
        mul_assoc q c (2 ^ p * 2) ∙ ap (λ (z : ℕ). q * z) (sym m') in
      absurd (
        odd_multiple (q * c) (i / 2 ^ suc p) (2 ^ p) (pow-pos p)
          (r ∙ b ∙ ap (λ (z : ℕ). z + 2 ^ p) h'))
]
