-- ===== src/Memory/Pool/Roundtrip.antt =====
-- `page_free` behind `page_allocate`.
use Prim.Native.Nat.{bit_xor}
use borfos.Memory.{kernel_memory_pages}
use borfos.Common.{
  suc, Bool, ℕ, ◌+◌, ◌-◌, ◌^◌, ◌≤◌, ◌<◌, ◌≡◌, ◌↔◌, inl, inr, refl, arith, some, ==_self, ltb, leb,
  ◌&&◌, Bool-cases, true,
}
use borfos.Memory.Pool.{Pool, allocate, page_allocate, page_free, free, vaddr_allocate, vaddr_free}
use borfos.Memory.Pool.Inv.{Lists, IsFree, Inv, bound_of_free, pow-pos}
use borfos.Memory.Pool.Aligned.{upper_order}
use borfos.Memory.Pool.Allocate.{IsAllocated, allocate-AllocationOutcome}
use borfos.Memory.Pool.Merge.{start, buddy_below}
use borfos.Memory.Pool.Free.{IsOrdered, IsBounded, free-IsFreed}

-- The blocks that an allocation leaves are ordered around its block if those before it were.
allocated-IsOrdered :
    {count : ℕ} {f : Lists} {order index : ℕ} {p p' : Pool}
    (a : IsAllocated count f order p index p')
    → IsOrdered f order index
    → IsOrdered a.lists order index
allocated-IsOrdered {index = index} a h o q k m n t = elim (a.pieces q _ n t) [
  | inl old ↦ h o q k m n old
  | inr (b, c, d) ↦ upper_order index q o d c
]

-- The pool `p'` has the same free elements as the lists `f`.
pub record IsRestored (count : ℕ) (f : Lists) (p' : Pool) : Type 0 where
  pub lists : Lists
  pub inv : Inv count p'.links lists
  pub same : (x : ℕ) → IsFree lists x ↔ IsFree f x

-- The block that is returned lies in the array.
pub allocated_inside :
    {count : ℕ} {f : Lists} {order index : ℕ} {p' : Pool} (p : Pool)
    → Inv count p.links f
    → order ≤ 16
    → allocate order p ≡ (some index, p')
    → index + 2 ^ order ≤ count
allocated_inside {count = count} {f = f} {order = order} {index = index} {p' = p'} p v small e =
    let a : IsAllocated count f order p index p' =
      rw e at (allocate-AllocationOutcome count f order p v small) in
    let pos = pow-pos order in
    let last =
      bound_of_free v (index + 2 ^ order - 1)
        (a.was_free (index + 2 ^ order - 1) (omega (arith, pos), omega (arith, pos))) in
    omega (arith, last, pos)

-- Freeing a block that has been allocated from a pool with the lists `f`.
pub allocated-IsRestored :
    {count : ℕ} {f : Lists} {order index : ℕ} {p p' : Pool} (inside : ℕ → Bool)
    (a : IsAllocated count f order p index p')
    → index + 2 ^ order ≤ count
    → order < 16
    → count ≤ 2 ^ 32
    → IsOrdered f order index
    → IsBounded count inside order index
    → (p'.order index ≡ some order) × IsRestored count f (free inside index p')
allocated-IsRestored {count = count} {order = order} {index = index} {p' = p'} inside a fits small
      word ordered bounded =
    let marked : p'.order index ≡ some order = rw a.orders (rw (==_self index) refl) in
    let r =
      free-IsFreed count inside a.lists order index p' a.inv marked small
        (omega (arith, fits, word, pow-pos order)) a.aligned fits
        (λ x b c. ((a.now_free x).0 b).1 c) (allocated-IsOrdered a ordered) bounded in
    (
      marked,
      record {
        lists = r.lists;
        inv = r.inv;
        same = λ x. (
          λ b. elim ((r.now_free x).0 b) [
            | inl c ↦ ((a.now_free x).0 c).0
            | inr c ↦ a.was_free x c
          ],
          λ b. (r.now_free x).1 (elim (Bool-cases (leb index x && ltb x (index + 2 ^ order))) [
            | inl c ↦ inr (ground (arith, c), ground (arith, c))
            | inr c ↦ inl ((a.now_free x).1 (b, λ d. ground (arith, c, d.0, d.1)))
          ]),
        );
      },
    )

-- What the two pools have in common.
allocate-free :
    (count : ℕ) (inside : ℕ → Bool) (f : Lists) (order index : ℕ) (p p' : Pool)
    → Inv count p.links f
    → order < 16
    → count ≤ 2 ^ 32
    → allocate order p ≡ (some index, p')
    → IsOrdered f order index
    → (index < count → IsBounded count inside order index)
    → (p'.order index ≡ some order)
      × (index + 2 ^ order ≤ count)
      × IsRestored count f (free inside index p')
allocate-free count inside f order index p p' v small word e ordered bounded =
    let a : IsAllocated count f order p index p' =
      rw e at (allocate-AllocationOutcome count f order p v (omega (arith, small))) in
    let fits : index + 2 ^ order ≤ count = allocated_inside p v (omega (arith, small)) e in
    let (marked, r) =
      allocated-IsRestored inside a fits small word ordered
        (bounded (omega (arith, fits, pow-pos order))) in
    (marked, fits, r)

-- For a block that `page_allocate` has returned from a well-formed pool of at most 2 ^ 32 pages, for
-- an order below 16, where before the allocation a free block at the buddy of a block around the
-- returned one, of its order up to 14, had that buddy's order: `page_free` leaves a well-formed pool
-- with exactly the free pages there were before.
pub page_allocate-page_free :
    (count : ℕ) (f : Lists) (order index : ℕ) (p p' : Pool)
    → Inv count p.links f
    → order < 16
    → count ≤ 2 ^ 32
    → page_allocate order p ≡ (some index, p')
    → IsOrdered f order index
    → IsRestored count f (page_free count index p')
unfolding page_allocate page_free
page_allocate-page_free count f order index p p' v small word e ordered =
    (allocate-free count (λ buddy. ltb buddy count) f order index p p' v small word e ordered
      (λ h o m n t. ground (arith, t))).2

-- No buddy of an element lies behind an array whose size is a power of two.
pub vaddrs-IsBounded :
    (order index : ℕ)
    → index < kernel_memory_pages
    → IsBounded kernel_memory_pages (λ buddy. true) order index
vaddrs-IsBounded order index h o m n t =
    let s : suc o + (17 - o) ≡ 18 = omega (arith, n) in
    let b =
      buddy_below o index (17 - o) (omega (arith, n)) (omega (arith, h))
        (rw s (omega (arith, h))) in
    let b' : bit_xor (start o index) (2 ^ o) < 2 ^ 18 = rw s at b in omega (arith, b')

-- The same for `vaddr_allocate` and `vaddr_free`, which does not test the buddy's index.
pub vaddr_allocate-vaddr_free :
    (f : Lists) (order index : ℕ) (p p' : Pool)
    → Inv kernel_memory_pages p.links f
    → order < 16
    → vaddr_allocate order p ≡ (some index, p')
    → IsOrdered f order index
    → (p'.order index ≡ some order)
      × (index + 2 ^ order ≤ kernel_memory_pages)
      × IsRestored kernel_memory_pages f (vaddr_free index p')
unfolding vaddr_allocate vaddr_free
vaddr_allocate-vaddr_free f order index p p' v small e ordered =
    allocate-free kernel_memory_pages (λ buddy. true) f order index p p' v small (omega arith) e
      ordered (vaddrs-IsBounded order index)
