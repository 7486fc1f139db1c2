-- ===== src/Memory/Tests.antt =====
-- The theorems about the memory at a pool with one free block, of order 2, at the element 4.
use borfos.Common.{
  ◌≤◌, ◌+◌, ◌/◌, some, ℕ, ◌*◌, ◌^◌, ◌<◌, ◌≡◌, refl, arith, true, none, [], ◌∷◌, ◌==◌, has,
  if◌then◌else◌, Bool-cases, inl, inr,
}
use Prim.Native.Nat.{bit_xor}
use native.Mathlib.Nat.{div-mul-le_self, pow-le-pow_right}
use borfos.Common.Bits.{bit_xor-buddy}
use borfos.Common.{leb, ◌-◌, ◌%◌}
use borfos.Links.{list_is_empty, list_insert_before, list_remove}
use borfos.Common.{zero, sym, ◌∙◌, suc}
use borfos.Memory.Pool.Roundtrip.{IsRestored, page_allocate-page_free}
use borfos.Memory.Pool.{page_allocate, find_order, split_loop, split, set_order, page_free}
use borfos.Memory.Pool.Merge.{start}
use borfos.Memory.Pool.Free.{IsOrdered, IsFreed, page_free-IsFreed}
use borfos.Links.Ring.{Ring}
use borfos.Memory.Pool.{Pool, allocate}
use borfos.Memory.Pool.Inv.{Lists, nodes, Inv}
use borfos.Memory.Pool.Allocate.{AllocationOutcome, allocate-AllocationOutcome}
use borfos.Memory.Boot.{BootMemory}
use borfos.Memory.Kernel.{Memory}

abbrev swap : ℕ → ℕ
swap a = if a == 2 then 20 else if a == 20 then 2 else a

abbrev pub lists : Lists
lists o = if o == 2 then 4 ∷ [] else []

abbrev pub pool : Pool
pool = record { links = record { prev = swap; next = swap }; order = λ i. none }

pub listed : (o i : ℕ) → has i (lists o) ≡ true → (o ≡ 2) × (i ≡ 4)
listed o i h = ground arith

ring_of : (o : ℕ) → o < 16 → Ring pool.links o (nodes (lists o))
ring_of o h = elim (Bool-cases (o == 2)) [
  | inl e ↦ rw e (record { chain = ground arith; distinct = ground arith })
  | inr e ↦ rw e (record { chain = ground arith; distinct = (refl, tt) })
]

pub well_formed : (count : ℕ) → 8 ≤ count → Inv count pool.links lists
well_formed count enough = record {
  rings = ring_of;
  aligned = λ o i h k. ground (arith, listed o i k);
  within = λ o i h k. within o i (listed o i k);
  apart = λ o p i j x h k a b c d. ground (arith, listed o i a, listed p j b);
  alone = λ i lt h. record { chain = ground (arith, h 2 (omega arith)); distinct = (refl, tt) };
}
  where
    within : (o i : ℕ) → (o ≡ 2) × (i ≡ 4) → i + 2 ^ o ≤ count
    within o i (a, b) = rw (a, b) enough

allocate-AllocationOutcome_example : AllocationOutcome 8 lists 0 pool (allocate 0 pool)
allocate-AllocationOutcome_example =
    allocate-AllocationOutcome 8 lists 0 pool (well_formed 8 (omega arith)) (omega arith)

abbrev boot : BootMemory
boot = record {
  kernel_page_directory = λ i. 0;
  kernel_page_tables = λ i. 0;
  last_kernel_phaddr = 0x123456;
}

abbrev pub memory : Memory
memory = record {
  pages = pool;
  pages_count = 8;
  kernel_vaddr = λ i. 0;
  kernel_vaddr_refcnt = λ i. 0;
  vaddrs = pool;
  kernel_page_tables = λ i. 0;
}

-- The pool when the elements 0 to 3 are allocated as one block.
abbrev allocated : Pool
allocated = record pool { order = set_order pool.order 0 (some 2) }

zero_start : (o : ℕ) → start o 0 ≡ 0
zero_start o = omega (arith, div-mul-le_self 0 (2 ^ o))

buddy_of_zero : (o : ℕ) → bit_xor (start o 0) (2 ^ o) ≡ 2 ^ o
buddy_of_zero o =
    let z : 0 * 2 ^ o ≡ 0 = omega arith in
    let b : bit_xor 0 (2 ^ o) ≡ (0 / 2 * 2 + 1 - 0 % 2) * 2 ^ o = rw z at (bit_xor-buddy o 0) in
    rw (zero_start o) (omega (arith, b))

ordered : IsOrdered lists 2 0
ordered o p h k m t =
    let (a, b) = listed p (bit_xor (start o 0) (2 ^ o)) t in
    let e : 2 ^ o ≡ 4 = omega (arith, buddy_of_zero o, b) in
    elim (Bool-cases (leb 3 o)) [
      | inr c ↦ ground (arith, a, c, h)
      | inl c ↦ absurd (
          omega
            (arith, e, pow-le-pow_right {n = 2} (omega arith) {i = 3} {j = o} (ground (arith, c))))
    ]

page_free-IsFreed_example : IsFreed 8 lists 2 0 allocated (page_free 8 0 allocated)
page_free-IsFreed_example =
    page_free-IsFreed 8 lists 2 0 allocated (well_formed 8 (omega arith)) refl (omega arith)
      (omega arith) (omega (arith, zero_start 2)) (omega arith)
      (λ x a b. omega (arith, listed a.order a.first a.listed, a.inside, b)) ordered

not_four : (c w : ℕ) → 8 ≤ w → c * w ≡ 4 → ⊥
not_four zero w h e = omega (arith, e)
not_four (suc c) w h e = omega (arith, h, e)

-- No buddy around element 4 starts a free block.
pub apart_from_four : (o : ℕ) → bit_xor (start o 4) (2 ^ o) ≡ 4 → ⊥
apart_from_four zero e = omega (arith, e)
apart_from_four (suc zero) e = omega (arith, e)
apart_from_four (suc (suc zero)) e = omega (arith, e)
apart_from_four (suc (suc (suc o))) e =
    not_four _ (2 ^ suc (suc (suc o)))
      (pow-le-pow_right {n = 2} (omega arith) {i = 3} {j = suc (suc (suc o))} (omega arith))
      (sym (bit_xor-buddy (suc (suc (suc o))) (4 / 2 ^ suc (suc (suc o)))) ∙ e)

page_allocate-page_free_example : IsRestored 8 lists (page_free 8 4 (page_allocate 0 pool).1)
unfolding page_allocate allocate find_order split_loop split list_is_empty list_insert_before
    list_remove
page_allocate-page_free_example =
    page_allocate-page_free 8 lists 0 4 pool (page_allocate 0 pool).1 (well_formed 8 (omega arith))
      (omega arith) (omega arith) refl
      (λ o p h k m t. absurd (apart_from_four o (listed p (bit_xor (start o 4) (2 ^ o)) t).1))
