-- ===== src/Heap.antt =====
-- kernel/libc/heap.c: the pages that the allocator asks the kernel for.
pub mod Order
mod Tests
use borfos.Common.{ℕ, zero, suc, ◌+◌, ◌-◌, ◌/◌, ◌^◌, Option, none, some, ltb, ◌==◌, if◌then◌else◌}
use borfos.Memory.{page_size}
use borfos.Memory.Kernel.{Memory, kernel_page_allocate, kernel_page_free}

-- `for(; pages > (1u << order); ++order);` with the rounds that are left: 20 are enough for a
-- `size_t`, whose pages are fewer than 2 ^ 20.
unfoldable pub order_loop : ℕ → ℕ → ℕ → ℕ
order_loop zero order pages = order
order_loop (suc rounds) order pages =
    let rest = order_loop rounds (order + 1) pages in if ltb (2 ^ order) pages then rest else order

unfoldable pub mmap_order : ℕ → ℕ
mmap_order s = order_loop 20 0 (s / page_size)

-- `__mmap__`; -1 is its 32 bits.
unfoldable pub mmap : ℕ → Memory → ℕ × Memory
mmap s m =
    let (result, m1) = kernel_page_allocate (mmap_order s) m in
    (if result == 0 then 2 ^ 32 - 1 else result, m1)

-- The state after `__munmap__`, which returns 0.
unfoldable pub munmap : ℕ → ℕ → Memory → Option Memory
munmap addr s m = kernel_page_free addr m
