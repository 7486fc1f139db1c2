-- ===== src/Memory/Started.antt =====
-- kernel/lib/mem.c: `kernel_page_allocate` behind `CONSTRUCTOR(mem)`.
mod Tests
use borfos.Common.{
  ℕ, ◌+◌, ◌*◌, ◌/◌, ◌^◌, ◌≤◌, ◌<◌, ◌≡◌, ◌≢◌, refl, List, [], arith, true, some, has, inl, inr,
}
use borfos.Memory.{page_size, kernel_memory_pages}
use borfos.Memory.Pool.{Pool, page_allocate}
use borfos.Memory.Pool.Inv.{Lists, IsFree, bound_of_free}
use borfos.Memory.Pool.Free.{IsOrdered}
use borfos.Memory.Kernel.{Memory, kernel_page_allocate}
use borfos.Memory.Pages.{PageOutcome, IsGiven, any-PageOutcome}
use borfos.Memory.Setup.{MemoryMap, MemoryState}
use borfos.Memory.Setup.Regions.{InMap}
use borfos.Memory.Setup.Constructor.{IsConstructed}

-- The variables that the rest of mem.c works on.
abbrev pub running : MemoryState → Memory
running s = record {
  pages = s.pages;
  pages_count = s.pages_count;
  kernel_vaddr = s.kernel_vaddr;
  kernel_vaddr_refcnt = s.kernel_vaddr_refcnt;
  vaddrs = s.vaddrs;
  kernel_page_tables = s.boot.kernel_page_tables;
}

-- A pool with a free element has a block.
has_block : (f : Lists) (x : ℕ) → IsFree f x → ((o : ℕ) → 0 ≤ o → o < 16 → f o ≡ []) → ⊥
has_block f x a h =
    let z : has a.first [] ≡ true = rw (h a.order (omega arith) a.small) at a.listed in cc

-- In the state that `CONSTRUCTOR(mem)` leaves, as `mem_constructor-IsConstructed` says, with at most
-- 2 ^ 20 pages and the kernel ending below the end of its addresses: if some page `x` belongs to an
-- available region behind the kernel, then the first `kernel_page_allocate` of a single page succeeds.
-- It takes a page of such a region and a free kernel address, and maps one at the other.
pub constructed-IsGiven :
    (entries : List MemoryMap) (pf_handler x : ℕ) (s s' : MemoryState)
    (c : IsConstructed entries pf_handler s s')
    → s'.pages_count * page_size ≤ 2 ^ 32
    → s'.boot.last_kernel_phaddr / page_size < kernel_memory_pages
    → InMap s'.boot.last_kernel_phaddr s'.memory_size entries x
    → IsGiven c.pools.pages.lists c.pools.vaddrs.lists 0
        (running s')
        (kernel_page_allocate 0 (running s')).0
        (kernel_page_allocate 0 (running s')).1
constructed-IsGiven entries pf_handler x s s' c low room there =
    let p = c.pools.pages in
    let v = c.pools.vaddrs in
    let free = (p.members x).1 there in
    let from = s'.boot.last_kernel_phaddr / page_size in
    let free' = (v.members from).1 (omega arith, room) in
    let o : PageOutcome (λ q. Unit) p.lists v.lists 0 (running s')
        (kernel_page_allocate 0 (running s')) =
      any-PageOutcome p.lists v.lists 0 (running s') p.inv v.inv (omega arith) low
        (λ y h. c.pools.unmapped y (bound_of_free p.inv y h)) (λ q. Unit) tt (λ page pages e. tt) in
    elim o [
      | inr k ↦ k
      | inl r ↦ elim r.reason [
        | inl e ↦ absurd (has_block p.lists x free e)
        | inr e ↦ absurd (has_block v.lists from free' e)
      ]
    ]
