-- ===== src/Heap/Order.antt =====
-- kernel/libc/heap.c: the order of a request.
use borfos.Common.{
  ℕ, zero, suc, ◌+◌, ◌/◌, ◌^◌, ◌<◌, ◌≤◌, ◌≡◌, inl, inr, arith, ltb, ◌==◌, Bool-cases,
}
use borfos.Memory.{page_size}
use borfos.Heap.{order_loop, mmap_order}

-- The least order from `order` on, of those whose block holds the pages.
pub record IsLeast (order pages least : ℕ) : Type 0 where
  pub enough : pages ≤ 2 ^ least
  pub from : order ≤ least
  pub least_one : (k : ℕ) → order ≤ k → k < least → 2 ^ k < pages

order_loop-IsLeast :
    (rounds order pages : ℕ)
    → pages ≤ 2 ^ (order + rounds)
    → IsLeast order pages (order_loop rounds order pages)
unfolding order_loop
order_loop-IsLeast zero order pages h = record {
  enough = (let z : order + 0 ≡ order = omega arith in rw z at h);
  from = omega arith;
  least_one = λ k a b. absurd (omega arith);
}
order_loop-IsLeast (suc rounds) order pages h = elim (Bool-cases (ltb (2 ^ order) pages)) [
  | inr e ↦ rw e (record {
    enough = ground (arith, e);
    from = omega arith;
    least_one = λ k a b. absurd (omega arith);
  })
  | inl e ↦
      let s : order + 1 + rounds ≡ order + suc rounds = omega arith in
      let r = order_loop-IsLeast rounds (order + 1) pages (rw s h) in
      rw e (record {
        enough = r.enough;
        from = omega (arith, r.from);
        least_one = λ k a b. elim (Bool-cases (k == order)) [
          | inl j ↦ let z : k ≡ order = ground (arith, j) in rw z (ground (arith, e))
          | inr j ↦ r.least_one k (ground (arith, j)) b
        ];
      })
]

-- `__mmap__` asks for the block of the least order that holds the whole pages of the size.
pub mmap_order-IsLeast : (s : ℕ) → s < 2 ^ 32 → IsLeast 0 (s / page_size) (mmap_order s)
unfolding mmap_order
mmap_order-IsLeast s h = order_loop-IsLeast 20 0 (s / page_size) (omega arith)
