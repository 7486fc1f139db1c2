-- ===== src/Memory/Pool/Inv.antt =====
-- The free blocks of a buddy pool, and what taking one out and putting one in do to them.
use borfos.Common.{
  ℕ, zero, suc, ◌⊎◌, ◌+◌, ◌*◌, ◌/◌, ◌^◌, ◌≤◌, ◌<◌, ◌≡◌, ◌≢◌, inl, inr, refl, true, false, List, [],
  ◌∷◌, ◌++◌, arith, ◌==◌, has, if◌then◌else◌, Bool-cases,
}
use borfos.Links.{Links}
use borfos.Links.Ring.{Ring}
use native.Mathlib.Nat.{one-le-pow}
use borfos.Memory.Pool.{node}

-- The free lists, as the indices of the first elements of their blocks.
abbrev pub Lists : Type 0
Lists = ℕ → List ℕ

abbrev pub put : Lists → ℕ → List ℕ → Lists
put f o xs p = if p == o then xs else f p

abbrev pub nodes : List ℕ → List ℕ
nodes [] = []
nodes (i ∷ is) = node i ∷ nodes is

-- Element `x` lies in the block of order `o` at `i`.
abbrev pub InBlock : ℕ → ℕ → ℕ → Type 0
InBlock o i x = (i ≤ x) × (x < i + 2 ^ o)

-- Element `x` lies in a free block.
pub record IsFree (f : Lists) (x : ℕ) : Type 0 where
  pub order : ℕ
  pub first : ℕ
  pub small : order < 16
  pub listed : has first (f order) ≡ true
  pub inside : InBlock order first x

-- For an array of `count` elements the list store holds the free lists `f`: each is a circular list
-- of nodes, the blocks are aligned, lie in the array and do not meet, and the node of an element
-- that starts no free block is alone.
pub record Inv (count : ℕ) (l : Links) (f : Lists) : Type 0 where
  pub rings : (o : ℕ) → o < 16 → Ring l o (nodes (f o))
  pub aligned : (o i : ℕ) → o < 16 → has i (f o) ≡ true → i ≡ i / 2 ^ o * 2 ^ o
  pub within : (o i : ℕ) → o < 16 → has i (f o) ≡ true → i + 2 ^ o ≤ count
  pub apart :
      (o p i j x : ℕ)
      → o < 16
      → p < 16
      → has i (f o) ≡ true
      → has j (f p) ≡ true
      → InBlock o i x
      → InBlock p j x
      → (o ≡ p) × (i ≡ j)
  pub alone : (i : ℕ) → i < count → ((o : ℕ) → o < 16 → has i (f o) ≡ false) → Ring l (node i) []

pub has-nodes : (i : ℕ) (is : List ℕ) → has (node i) (nodes is) ≡ has i is
has-nodes i [] = refl
has-nodes i (j ∷ is) = ground (arith, has-nodes i is)

pub nodes-append : (is js : List ℕ) → nodes (is ++ js) ≡ nodes is ++ nodes js
nodes-append [] js = refl
nodes-append (i ∷ is) js = rw (nodes-append is js)

pub head-not-node : (o : ℕ) (is : List ℕ) → o < 16 → has o (nodes is) ≡ false
head-not-node o [] h = refl
head-not-node o (i ∷ is) h = ground (arith, head-not-node o is h)

pub pow-pos : (o : ℕ) → 0 < 2 ^ o
pow-pos o = one-le-pow o 2 (omega arith)

-- A free block is in one list only.
pub listed_once :
    {count : ℕ} {l : Links} {f : Lists} (o p i : ℕ)
    → Inv count l f
    → o < 16
    → p < 16
    → has i (f o) ≡ true
    → p ≢ o
    → has i (f p) ≡ false
listed_once {l} {f} o p i v ho hp h ne = elim (Bool-cases (has i (f p))) [
  | inr e ↦ e
  | inl e ↦ absurd (
      ne (
        omega (
          arith,
          (v.apart o p i i i ho hp h e (omega (arith, pow-pos o)) (omega (arith, pow-pos p))).0,
        )))
]

-- Whether one of the first `n` lists has a block at `i`.
pub find-listed :
    (n : ℕ) (f : Lists) (i : ℕ)
    → ((p : ℕ) × (p < n) × (has i (f p) ≡ true)) ⊎ ((p : ℕ) → p < n → has i (f p) ≡ false)
find-listed zero f i = inr λ p h. absurd (omega (arith, h))
find-listed (suc n) f i = elim (Bool-cases (has i (f n))) [
  | inl e ↦ inl (n, omega arith, e)
  | inr e ↦ elim (find-listed n f i) [
    | inl (p, h, k) ↦ inl (p, omega (arith, h), k)
    | inr g ↦ inr λ p h. elim (Bool-cases (p == n)) [
      | inl k ↦ let q : p ≡ n = ground (arith, k) in rw q e
      | inr k ↦ g p (ground (arith, h, k))
    ]
  ]
]

-- A free element is one of the array.
pub bound_of_free :
    {count : ℕ} {l : Links} {f : Lists} → Inv count l f → (x : ℕ) → IsFree f x → x < count
bound_of_free v x a = omega (arith, v.within a.order a.first a.small a.listed, a.inside)
