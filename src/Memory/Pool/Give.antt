-- ===== src/Memory/Pool/Give.antt =====
-- Putting a block at the end of a free list keeps the pool's invariant.
use borfos.Common.{
  ◌+◌, ◌≤◌, ◌↔◌, ℕ, ◌*◌, ◌/◌, ◌^◌, ◌<◌, ◌≡◌, ◌⊎◌, inl, inr, true, false, [], ◌∷◌, ◌++◌, arith, ◌==◌,
  has, has-append, ==_iff, ==_self, Bool-cases, not-has,
}
use borfos.Links.{Links, list_insert_before}
use borfos.Links.Ring.{list_insert_before-append}
use borfos.Links.Frame.{IsLinked, Ring-IsLinked, list_insert_before-frame}
use borfos.Memory.Pool.{node}
use borfos.Memory.Pool.Inv.{
  Lists, put, nodes, InBlock, IsFree, Inv, has-nodes, nodes-append, head-not-node, pow-pos,
}

-- The block of order `o` at `j` meets no free block.
abbrev pub IsApart : Lists → ℕ → ℕ → Type 0
IsApart f o j = (p i x : ℕ) → p < 16 → has i (f p) ≡ true → InBlock p i x → InBlock o j x → ⊥

module _ {count : ℕ} {l : Links} {f : Lists} (o j : ℕ) (v : Inv count l f) (small : o < 16)
    (aligned : j ≡ j / 2 ^ o * 2 ^ o) (fits : j + 2 ^ o ≤ count) (apart : IsApart f o j) where
  pub given-new : (p : ℕ) → p < 16 → has j (f p) ≡ false
  given-new p hp =
      not-has j (f p) λ h. apart p j j hp h (omega (arith, pow-pos p)) (omega (arith, pow-pos o))

  linked : IsLinked l o
  linked = Ring-IsLinked l o o (nodes (f o)) (ground (arith, ==_self o)) (v.rings o small)

  abbrev pub given : Lists
  given = put f o (f o ++ j ∷ [])

  -- A block of the new lists is the given one or an old one.
  pub given-cases : (p i : ℕ) → has i (given p) ≡ true → ((p ≡ o) × (i ≡ j)) ⊎ (has i (f p) ≡ true)
  given-cases p i h = elim (Bool-cases (p == o)) [
    | inl k ↦
        let q : p ≡ o = ground (arith, k) in
        let h' : has i (f o ++ j ∷ []) ≡ true = rw k at h in
        ground (arith, h', has-append i (f o) (j ∷ []), q)
    | inr k ↦ inr (rw k at h)
  ]

  pub given-old : (p i : ℕ) → has i (f p) ≡ true → has i (given p) ≡ true
  given-old p i h = elim (Bool-cases (p == o)) [
    | inl k ↦
        let q : p ≡ o = ground (arith, k) in
        let h' : has i (f o) ≡ true = rw q at h in
        rw k (ground (arith, h', has-append i (f o) (j ∷ [])))
    | inr k ↦ rw k h
  ]

  pub given_self : has j (given o) ≡ true
  given_self = rw (==_self o) (ground (arith, has-append j (f o) (j ∷ []), ==_self j))

  not-given : (p i : ℕ) → has i (given p) ≡ false → has i (f p) ≡ false
  not-given p i h = not-has i (f p) λ k. ground (arith, h, given-old p i k)

  pub give-Inv : Inv count (list_insert_before l o (node j)) given
  give-Inv = record {
    rings = λ p hp. elim (Bool-cases (p == o)) [
      | inl k ↦
          let q : p ≡ o = ground (arith, k) in
          rw k (
            rw q (
              rw nodes-append (
                list_insert_before-append l o (node j) (nodes (f o))
                  (ground (arith, has-nodes j (f o), given-new o small)) (v.rings o small))))
      | inr k ↦ rw k (
          list_insert_before-frame l o (node j) p (nodes (f p)) linked
            (ground (arith, k, head-not-node o (f p) small, ==_iff o p))
            (ground (arith, has-nodes j (f p), given-new p hp)) (v.rings p hp))
    ];
    aligned = λ p i hp h. elim (given-cases p i h) [
      | inl (a, b) ↦ rw a (rw b aligned)
      | inr h' ↦ v.aligned p i hp h'
    ];
    within = λ p i hp h. elim (given-cases p i h) [
      | inl (a, b) ↦ rw a (rw b fits)
      | inr h' ↦ v.within p i hp h'
    ];
    apart = λ p q i k x hp hq h h' a b.
        meet p q i k x hp hq (given-cases p i h) (given-cases q k h') a b;
    alone = λ i lt h.
        list_insert_before-frame l o (node j) (node i) [] linked (ground arith)
          (ground (arith, h o small, given_self, ==_iff j i))
          (v.alone i lt (λ p hp. not-given p i (h p hp)));
  }
    where
      meet :
          (p q i k x : ℕ)
          → p < 16
          → q < 16
          → ((p ≡ o) × (i ≡ j)) ⊎ (has i (f p) ≡ true)
          → ((q ≡ o) × (k ≡ j)) ⊎ (has k (f q) ≡ true)
          → InBlock p i x
          → InBlock q k x
          → (p ≡ q) × (i ≡ k)
      meet p q i k x hp hq (inl (a, b)) (inl (c, d)) m n = (omega arith, omega arith)
      meet p q i k x hp hq (inl (a, b)) (inr h) m n =
          absurd (apart q k x hq h n (rw a at (rw b at m)))
      meet p q i k x hp hq (inr h) (inl (c, d)) m n =
          absurd (apart p i x hp h m (rw c at (rw d at n)))
      meet p q i k x hp hq (inr h) (inr h') m n = v.apart p q i k x hp hq h h' m n

  -- The free elements are the old ones and the block's.
  pub given-IsFree : (x : ℕ) → IsFree given x ↔ (IsFree f x ⊎ InBlock o j x)
  given-IsFree x = (there, back)
    where
      there : IsFree given x → IsFree f x ⊎ InBlock o j x
      there a = elim (given-cases a.order a.first a.listed) [
        | inl (p, q) ↦ inr (rw p at (rw q at a.inside))
        | inr h ↦ inl (record {
          order = a.order;
          first = a.first;
          small = a.small;
          listed = h;
          inside = a.inside;
        })
      ]

      back : IsFree f x ⊎ InBlock o j x → IsFree given x
      back (inl a) = record {
        order = a.order;
        first = a.first;
        small = a.small;
        listed = given-old a.order a.first a.listed;
        inside = a.inside;
      }
      back (inr b) = record { order = o; first = j; small = small; listed = given_self; inside = b }
