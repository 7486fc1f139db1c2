-- ===== src/Memory/Pool/Fill.antt =====
-- `add_pages_to_pool` and `add_vaddrs_to_pool`: the blocks that a range is cut into.
use native.Mathlib.Nat.{pow-suc, pow-le-pow_right}
use borfos.Common.{
  ℕ, zero, suc, ◌+◌, ◌-◌, ◌*◌, ◌/◌, ◌%◌, ◌^◌, ◌≤◌, ◌<◌, ◌≡◌, ◌⊎◌, ◌↔◌, inl, inr, refl, ap, true,
  arith, leb, ltb, ◌==◌, Bool-cases, some,
}
use Prim.Native.Nat.{bit_and}
use borfos.Common.Bits.Masks.{bit_and-bit}
use borfos.Links.{list_insert_before}
use borfos.Memory.Pool.{
  Pool, node, length_loop, max_order_for_length, index_loop, max_order_for_index, max_order,
  add_to_pool,
}
use borfos.Memory.Pool.Inv.{Lists, IsFree, Inv, pow-pos}
use borfos.Memory.Pool.Give.{IsApart, given, give-Inv, given-IsFree}
use borfos.Memory.Pool.Aligned.{multiple}
use borfos.Memory.Pool.Merge.{start}

-- The loop over the orders ends behind one whose blocks fit.
length_loop-fits :
    (rounds k length : ℕ)
    → k + rounds < 16
    → 2 ^ k ≤ length
    → (m : ℕ) × (length_loop rounds (suc k) length ≡ suc m) × (2 ^ m ≤ length) × (m < 16)
unfolding length_loop
length_loop-fits zero k length h fits = (k, refl, fits, omega (arith, h))
length_loop-fits (suc rounds) k length h fits = elim (Bool-cases (leb (2 ^ suc k) length)) [
  | inl e ↦
      let (m, q, r, s) =
        length_loop-fits rounds (suc k) length (omega (arith, h)) (ground (arith, e)) in
      let up : suc k + 1 ≡ suc (suc k) = omega arith in (m, rw (e, up) q, r, s)
  | inr e ↦ (k, rw e refl, fits, omega (arith, h))
]

max_order_for_length-fits :
    (length : ℕ)
    → 0 < length
    → (m : ℕ) × (max_order_for_length length ≡ some m) × (2 ^ m ≤ length) × (m < 16)
unfolding max_order_for_length length_loop
max_order_for_length-fits length h =
    let (m, q, r, s) = length_loop-fits 15 0 length (omega arith) (omega (arith, h)) in
    let some_fits : leb (2 ^ 0) length ≡ true = ground (arith, h) in
    (m, rw (some_fits, q) refl, r, s)

-- An even number of blocks is half as many of the next order.
next_aligned : (o i : ℕ) → i ≡ start o i → i / 2 ^ o % 2 ≡ 0 → i ≡ start (suc o) i
next_aligned o i h even =
    let q = i / 2 ^ o in
    let e : q ≡ 2 * (q / 2) = omega (arith, even) in
    multiple (q / 2) i (2 ^ suc o) (pow-pos (suc o))
      (omega (arith, h, ap (λ (z : ℕ). z * 2 ^ o) e, ap (λ (z : ℕ). q / 2 * z) (pow-suc 2 o)))

zero_digit : (d p : ℕ) → 0 < p → d < 2 → d * p ≡ 0 → d ≡ 0
zero_digit zero p h k e = refl
zero_digit (suc zero) p h k e = absurd (omega (arith, h, e))
zero_digit (suc (suc d)) p h k e = absurd (omega (arith, k))

-- The loop over the bits ends at an order that the index is aligned to, and to those below.
index_loop-aligned :
    (rounds order i : ℕ)
    → order + rounds ≤ 15
    → ((o : ℕ) → o ≤ order → i ≡ start o i)
    → (index_loop rounds order i ≤ 15) × ((o : ℕ) → o ≤ index_loop rounds order i → i ≡ start o i)
unfolding index_loop
index_loop-aligned zero order i h a = (omega (arith, h), a)
index_loop-aligned (suc rounds) order i h a = elim (Bool-cases (bit_and (2 ^ order) i == 0)) [
  | inr e ↦ rw e (omega (arith, h), a)
  | inl e ↦
      let up : order + 1 ≡ suc order = omega arith in
      let z : bit_and (2 ^ order) i ≡ 0 = ground (arith, e) in
      let even : i / 2 ^ order % 2 ≡ 0 =
        zero_digit (i / 2 ^ order % 2) (2 ^ order) (pow-pos order) (omega arith)
          (omega (arith, z, bit_and-bit order i)) in
      rw (e, up)
        (index_loop-aligned rounds (suc order) i (omega (arith, h)) (λ o k.
          elim (Bool-cases (o == suc order)) [
            | inl m ↦
                let q : o ≡ suc order = ground (arith, m) in
                rw q (next_aligned order i (a order (omega arith)) even)
            | inr m ↦ a o (ground (arith, m, k))
          ]))
]

-- The order that is chosen for an index and what is left: the block is aligned and fits.
max_order-fits :
    (i length : ℕ)
    → 0 < length
    → (o : ℕ) × (max_order i length ≡ some o) × (o < 16) × (2 ^ o ≤ length) × (i ≡ start o i)
unfolding max_order max_order_for_index
max_order-fits i length h =
    let (m, q, fits, small) = max_order_for_length-fits length h in
    let (low, aligned) =
      index_loop-aligned 15 0 i (omega arith)
        (λ o k. let z : o ≡ 0 = omega (arith, k) in rw z (omega arith)) in
    elim (Bool-cases (ltb m (index_loop 15 0 i))) [
      | inl e ↦ (m, rw (q, e) refl, small, fits, aligned m (ground (arith, e)))
      | inr e ↦ (
        index_loop 15 0 i,
        rw (q, e) refl,
        omega (arith, low),
        omega (
          arith,
          fits,
          pow-le-pow_right {n = 2} (omega arith) {i = index_loop 15 0 i} {j = m}
              (ground (arith, e)),
        ),
        aligned (index_loop 15 0 i) (omega arith),
      )
    ]

-- What adding the elements from `index` to `to` does to a pool.
pub record IsAdded (count : ℕ) (f : Lists) (index to : ℕ) (p p' : Pool) : Type 0 where
  pub lists : Lists
  pub inv : Inv count p'.links lists
  pub now_free : (x : ℕ) → IsFree lists x ↔ (IsFree f x ⊎ ((index ≤ x) × (x < to)))
  pub orders : p'.order ≡ p.order

-- `add_pages_to_pool` and `add_vaddrs_to_pool` on a well-formed pool in which no element from
-- `index` to `to` is free end after at most as many rounds as there are elements. They leave a
-- well-formed pool in which the free elements are the old ones and all of the range, and set no
-- `order`.
pub add_to_pool-IsAdded :
    (count fuel index to : ℕ) (f : Lists) (p : Pool)
    → to - index ≤ fuel
    → to ≤ count
    → Inv count p.links f
    → ((x : ℕ) → index ≤ x → x < to → IsFree f x → ⊥)
    → IsAdded count f index to p (add_to_pool fuel index to p)
unfolding add_to_pool
add_to_pool-IsAdded count zero index to f p enough bound v out = record {
  lists = f;
  inv = v;
  now_free = λ x.
      (λ a. inl a, λ a. elim a [ inl b ↦ b | inr (b, c) ↦ absurd (omega (arith, b, c, enough)) ]);
  orders = refl;
}
add_to_pool-IsAdded count (suc fuel) index to f p enough bound v out =
    elim (Bool-cases (ltb index to)) [
      | inr e ↦ rw e (record {
        lists = f;
        inv = v;
        now_free = λ x.
            (λ a. inl a, λ a. elim a [ inl b ↦ b | inr (b, c) ↦ absurd (ground (arith, b, c, e)) ]);
        orders = refl;
      })
      | inl e ↦
          let (o, q, small, fits, aligned) =
            max_order-fits index (to - index) (ground (arith, e)) in
          let pos = pow-pos o in
          let apart : IsApart f o index = λ r k x s t a b.
            out x b.0 (omega (arith, b.1, fits))
              (record { order = r; first = k; small = s; listed = t; inside = a }) in
          let g = given o index v small aligned (omega (arith, bound, fits)) apart in
          let p1 = record p { links = list_insert_before p.links o (node index) } in
          let same = given-IsFree o index v small aligned (omega (arith, bound, fits)) apart in
          let r =
            add_to_pool-IsAdded count fuel (index + 2 ^ o) to g p1 (omega (arith, enough, pos))
              bound (give-Inv o index v small aligned (omega (arith, bound, fits)) apart)
              (λ x a b c. elim ((same x).0 c) [
                | inl d ↦ out x (omega (arith, a)) b d
                | inr d ↦ omega (arith, a, d.1)
              ]) in
          rw (e, q)
            (record {
              lists = r.lists;
              inv = r.inv;
              now_free = λ x. (
                λ a. elim ((r.now_free x).0 a) [
                  | inl b ↦ elim ((same x).0 b) [
                    | inl c ↦ inl c
                    | inr c ↦ inr (c.0, omega (arith, c.1, fits))
                  ]
                  | inr b ↦ inr (omega (arith, b.0), b.1)
                ],
                λ a. (r.now_free x).1 (elim a [
                  | inl b ↦ inl ((same x).1 (inl b))
                  | inr b ↦ elim (Bool-cases (ltb x (index + 2 ^ o))) [
                    | inl c ↦ inl ((same x).1 (inr (b.0, ground (arith, c))))
                    | inr c ↦ inr (ground (arith, c), b.1)
                  ]
                ]),
              );
              orders = r.orders;
            })
    ]
