-- ===== src/Memory/Pool/Merge.antt =====
-- One round of merging in `page_free` and `vaddr_free`: a block and its buddy become one block.
use native.Mathlib.Nat.{
  pow-suc, div-div-eq-div-mul, div-mul-le_self, div-lt_iff_lt-mul, mul-le-mul_right,
}
use borfos.Common.{
  ◌≤◌, leb, ltb, ◌&&◌, ℕ, suc, ◌+◌, ◌-◌, ◌*◌, ◌/◌, ◌%◌, ◌^◌, ◌≤◌, ◌<◌, ◌≡◌, ◌⊎◌, ◌↔◌, inl, inr, ap,
  true, List, ◌∷◌, ◌++◌, Bool-cases, ◌==◌, arith, has,
}
use Prim.Native.Nat.{bit_xor, bit_and}
use borfos.Common.Bits.{bit_xor-buddy}
use borfos.Common.Bits.Masks.{bit_and-clear}
use borfos.Links.{Links, list_remove}
use borfos.Memory.Pool.{node}
use borfos.Memory.Pool.Inv.{Lists, put, InBlock, IsFree, Inv, pow-pos}
use borfos.Memory.Pool.Aligned.{power_multiple}
use borfos.Memory.Pool.Take.{take-Inv, take-IsFree, put-listed, taken-listed}

-- The block of order `o` that element `i` lies in starts here.
abbrev pub start : ℕ → ℕ → ℕ
start o i = i / 2 ^ o * 2 ^ o

-- What the two assignments of a round make of the block of element `i`.
pub record Merged (o i : ℕ) : Type 0 where
  pub cleared : bit_and (start o i) (2 ^ 32 - 1 - 2 ^ o) ≡ start (suc o) i
  pub union :
      (x : ℕ)
      → InBlock (suc o) (start (suc o) i) x
        ↔ (InBlock o (start o i) x ⊎ InBlock o (bit_xor (start o i) (2 ^ o)) x)

halves_union :
    (p s t b x : ℕ)
    → ((s ≡ t) × (b ≡ t + p)) ⊎ ((s ≡ t + p) × (b ≡ t))
    → ((t ≤ x) × (x < t + p * 2)) ↔ (((s ≤ x) × (x < s + p)) ⊎ ((b ≤ x) × (x < b + p)))
halves_union p s t b x h = ground (arith, h)

pub block-Merged : (o i : ℕ) → o < 32 → i < 2 ^ 32 → Merged o i
block-Merged o i small word =
    let q = i / 2 ^ o in
    let two : 2 ^ o * 2 ≡ 2 ^ suc o = omega (arith, pow-suc 2 o) in
    let d : q / 2 ≡ i / 2 ^ suc o = rw two at (div-div-eq-div-mul i (2 ^ o) 2) in
    let t : i / 2 ^ suc o * 2 ^ suc o ≡ 2 * (q / 2) * 2 ^ o =
      omega (arith, ap (λ (z : ℕ). q / 2 * z) (pow-suc 2 o), ap (λ (z : ℕ). z * 2 ^ suc o) d) in
    let t' : start (suc o) i ≡ q / 2 * 2 ^ o + q / 2 * 2 ^ o = omega (arith, t) in
    let below : start o i < 2 ^ 32 = omega (arith, div-mul-le_self i (2 ^ o), word) in
    record {
      cleared = rw d at (bit_and-clear o 32 q small below);
      union = λ x.
          rw (t', pow-suc 2 o)
            (rw (bit_xor-buddy o q) (
              halves_union (2 ^ o) (start o i) (q / 2 * 2 ^ o + q / 2 * 2 ^ o)
                ((q / 2 * 2 + 1 - q % 2) * 2 ^ o) x (sides q (2 ^ o))));
    }
  where
    sides :
        (q p : ℕ)
        → ((q * p ≡ q / 2 * p + q / 2 * p)
            × ((q / 2 * 2 + 1 - q % 2) * p ≡ q / 2 * p + q / 2 * p + p))
          ⊎ ((q * p ≡ q / 2 * p + q / 2 * p + p)
              × ((q / 2 * 2 + 1 - q % 2) * p ≡ q / 2 * p + q / 2 * p))
    sides q p = elim (Bool-cases (q % 2 == 0)) [
      | inl e ↦
          let a : q ≡ 2 * (q / 2) = ground (arith, e) in
          let b : q / 2 * 2 + 1 - q % 2 ≡ 2 * (q / 2) + 1 = ground (arith, e) in
          inl (omega (arith, ap (λ (z : ℕ). z * p) a), omega (arith, ap (λ (z : ℕ). z * p) b))
      | inr e ↦
          let a : q ≡ 2 * (q / 2) + 1 = ground (arith, e) in
          let b : q / 2 * 2 + 1 - q % 2 ≡ 2 * (q / 2) = ground (arith, e) in
          inr (omega (arith, ap (λ (z : ℕ). z * p) a), omega (arith, ap (λ (z : ℕ). z * p) b))
    ]

-- The buddies of the elements below a power of two are below it.
pub buddy_below :
    (o i d : ℕ)
    → o < 32
    → i < 2 ^ 32
    → i < 2 ^ (suc o + d)
    → bit_xor (start o i) (2 ^ o) < 2 ^ (suc o + d)
buddy_below o i d small word h =
    let (c, e) = power_multiple (suc o) d in
    let q : i / 2 ^ suc o < c = (div-lt_iff_lt-mul (pow-pos (suc o))).1 (omega (arith, h, e)) in
    let l : suc (i / 2 ^ suc o) * 2 ^ suc o ≤ c * 2 ^ suc o = mul-le-mul_right (2 ^ suc o) q in
    let pos = pow-pos o in
    let b =
      ((block-Merged o i small word).union (bit_xor (start o i) (2 ^ o))).1
        (inr (omega arith, omega (arith, pos))) in
    omega (arith, b.1, l, e)

-- Which elements are free or in the block.
abbrev pub IsFreeOr : Lists → ℕ → ℕ → ℕ → Type 0
IsFreeOr f o j x = IsFree f x ⊎ InBlock o j x

module _ {count : ℕ} {l : Links} {f : Lists} (o i : ℕ) (us vs : List ℕ) (v : Inv count l f)
    (small : o < 15) (word : i < 2 ^ 32) (out : (x : ℕ) → IsFree f x → InBlock o (start o i) x → ⊥)
    (e : f o ≡ us ++ bit_xor (start o i) (2 ^ o) ∷ vs) where
  abbrev buddy : ℕ
  buddy = bit_xor (start o i) (2 ^ o)

  abbrev left : Lists
  left = put f o (us ++ vs)

  merged : Merged o i
  merged = block-Merged o i (omega (arith, small)) word

  left-IsFree : (x : ℕ) → IsFree left x ↔ (IsFree f x × (InBlock o buddy x → ⊥))
  left-IsFree = take-IsFree o buddy us vs v (omega (arith, small)) e

  -- The merged block meets no block that is left.
  pub merged-out : (x : ℕ) → IsFree left x → InBlock (suc o) (start (suc o) i) x → ⊥
  merged-out x a b =
      let (old, apart) = (left-IsFree x).0 a in
      elim ((merged.union x).0 b) [ inl c ↦ out x old c | inr c ↦ apart c ]

  -- A round moves the buddy's elements from the free ones to the block.
  pub merged-same : (x : ℕ) → IsFreeOr left (suc o) (start (suc o) i) x ↔ IsFreeOr f o (start o i) x
  merged-same x = (there, back)
    where
      there : IsFreeOr left (suc o) (start (suc o) i) x → IsFreeOr f o (start o i) x
      there (inl a) = inl ((left-IsFree x).0 a).0
      there (inr b) = elim ((merged.union x).0 b) [
        | inl c ↦ inr c
        | inr c ↦ inl (record {
          order = o;
          first = buddy;
          small = omega (arith, small);
          listed = taken-listed o buddy us vs v (omega (arith, small)) e;
          inside = c;
        })
      ]

      back : IsFreeOr f o (start o i) x → IsFreeOr left (suc o) (start (suc o) i) x
      back (inl a) = elim (Bool-cases (leb buddy x && ltb x (buddy + 2 ^ o))) [
        | inl k ↦ inr ((merged.union x).1 (inr (ground (arith, k), ground (arith, k))))
        | inr k ↦ inl ((left-IsFree x).1 (a, λ c. ground (arith, k, c.0, c.1)))
      ]
      back (inr b) = inr ((merged.union x).1 (inl b))

  pub merged-Inv : Inv count (list_remove l (node buddy)) left
  merged-Inv = take-Inv o buddy us vs v (omega (arith, small)) e

  pub merged-listed : (p j : ℕ) → has j (left p) ≡ true → has j (f p) ≡ true
  merged-listed = put-listed o buddy us vs v (omega (arith, small)) e

  -- The merged block lies in the array, as its halves do.
  pub merged-fits : start o i + 2 ^ o ≤ count → start (suc o) i + 2 ^ suc o ≤ count
  merged-fits fits =
      let pos = pow-pos (suc o) in
      let w =
        v.within o buddy (omega (arith, small))
          (taken-listed o buddy us vs v (omega (arith, small)) e) in
      elim ((merged.union (start (suc o) i + 2 ^ suc o - 1)).0
        (omega (arith, pos), omega (arith, pos))) [
          | inl c ↦ omega (arith, c.1, fits, pos)
          | inr c ↦ omega (arith, c.1, w, pos)
        ]
