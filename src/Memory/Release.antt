-- ===== src/Memory/Release.antt =====
-- kernel/lib/mem.c: `kernel_page_free` behind `kernel_page_allocate`.
mod Tests
use mathlib.Core.Path.{subst}
use borfos.Common.{
  ℕ, zero, suc, ◌+◌, ◌-◌, ◌*◌, ◌/◌, ◌%◌, ◌^◌, ◌≤◌, ◌<◌, ◌≡◌, ◌≢◌, refl, Bool, true, Option, none,
  some, arith, if◌then◌else◌, u32, sub32, ltb, inl, inr, ◌==◌, ==_self, ◌∙◌,
}
use borfos.Memory.{page_size, kernel_memory_base, kernel_memory_pages, write}
use borfos.Memory.Pool.{Pool, page_allocate, vaddr_allocate, page_free, vaddr_free, free}
use borfos.Memory.Pool.Inv.{Lists, Inv, IsFree, pow-pos}
use borfos.Memory.Pool.Allocate.{IsAllocated}
use borfos.Memory.Pool.Free.{IsOrdered, IsBounded}
use borfos.Memory.Pool.Roundtrip.{IsRestored, allocated-IsRestored, vaddrs-IsBounded}
use borfos.Memory.Kernel.{
  Memory, unmap_loop, page_index_of, page_unmap, kernel_page_allocate, kernel_page_free,
  unmap_phaddr_in_kernel,
}
use borfos.Memory.Unmapping.{unmap_at}
use borfos.Memory.Pages.{IsGiven, PageOutcome, kernel_page_allocate-PageOutcome}

-- The state `m'` is as before the allocation from `m`: as much is free in both pools, and the page
-- `page` is not mapped and has no user.
pub record IsReleased (f g : Lists) (page : ℕ) (m m' : Memory) : Type 0 where
  pub pages : IsRestored m.pages_count f m'.pages
  pub vaddrs : IsRestored kernel_memory_pages g m'.vaddrs
  pub vaddr : m'.kernel_vaddr page ≡ 0
  pub users : m'.kernel_vaddr_refcnt page ≡ 0

-- `page_unmap` by the only user.
page_unmap-last :
    (page addr index order : ℕ) (m : Memory)
    → m.kernel_vaddr page ≡ addr
    → m.kernel_vaddr_refcnt page ≡ 1
    → page_index_of addr ≡ index
    → m.vaddrs.order index ≡ some order
    → page_unmap page m
      ≡ some (record m {
        kernel_vaddr = write m.kernel_vaddr page 0;
        kernel_vaddr_refcnt = write m.kernel_vaddr_refcnt page 0;
        kernel_page_tables = unmap_loop (2 ^ order) 0 index m.kernel_page_tables;
        vaddrs = vaddr_free index m.vaddrs;
      })
unfolding page_unmap
page_unmap-last page addr index order m a b back marked =
    let z : sub32 (m.kernel_vaddr_refcnt page) 1 ≡ 0 = omega (arith, b) in
    let m1 = record m { kernel_vaddr_refcnt = write m.kernel_vaddr_refcnt page 0 } in
    let u = unmap_at addr index order m1 back marked in rw (z, a, u) refl

free_at :
    (addr page : ℕ) (m m1 : Memory)
    → m.kernel_page_tables (page_index_of addr) / page_size ≡ page
    → page_unmap page m ≡ some m1
    → kernel_page_free addr m ≡ some (record m1 { pages = page_free m1.pages_count page m1.pages })
unfolding kernel_page_free
free_at addr page m m1 e =
    subst
      (λ (k : ℕ).
        page_unmap k m ≡ some m1
        → kernel_page_free addr m
          ≡ some (record m1 { pages = page_free m1.pages_count k m1.pages }))
      e (λ u. rw (kernel_page_free, u) refl)

-- `kernel_page_free` of the address that an allocation from `m` has returned.
released :
    (f g : Lists) (order : ℕ) (m : Memory) (addr : ℕ) (m' : Memory)
    (k : IsGiven f g order m addr m')
    → order < 16
    → m.pages_count * page_size ≤ 2 ^ 32
    → IsOrdered f order k.page
    → IsOrdered g order k.index
    → (m'' : Memory) × (kernel_page_free addr m' ≡ some m'') × IsReleased f g k.page m m''
unfolding page_index_of page_free vaddr_free
released f g order m addr m' k small low of og =
    let pos = pow-pos order in
    let back : page_index_of addr ≡ k.index = omega (arith, k.address, k.inside.1, pos) in
    let frame : m'.kernel_page_tables (page_index_of addr) / page_size ≡ k.page =
      rw (back, k.entry) (omega arith) in
    let (marked, vaddrs) =
      allocated-IsRestored (λ buddy. true) k.vaddrs k.inside.1 small (omega arith) og
        (vaddrs-IsBounded order k.index (omega (arith, k.inside.1, pos))) in
    let (marked', pages) =
      allocated-IsRestored (λ buddy. ltb buddy m.pages_count) k.pages k.inside.0 small
        (omega (arith, low)) of (λ o n h t. ground (arith, t)) in
    let u = page_unmap-last k.page addr k.index order m' k.vaddr k.users back marked in
    let m'' = record m' {
      pages = page_free m'.pages_count k.page m'.pages;
      kernel_vaddr = write m'.kernel_vaddr k.page 0;
      kernel_vaddr_refcnt = write m'.kernel_vaddr_refcnt k.page 0;
      kernel_page_tables = unmap_loop (2 ^ order) 0 k.index m'.kernel_page_tables;
      vaddrs = vaddr_free k.index m'.vaddrs;
    } in
    (
      m'',
      free_at addr k.page m' _ frame u,
      record {
        pages = rw k.count pages;
        vaddrs = vaddrs;
        vaddr = rw (==_self k.page) refl;
        users = rw (==_self k.page) refl;
      },
    )

-- `kernel_page_free` of an address that `kernel_page_allocate` has returned and that is not NULL, for
-- an order below 16, with at most 2 ^ 20 pages, both pools well formed, no free page mapped, and
-- before the allocation no free block at the buddy of a block around the page or around the kernel
-- address that is taken, of its order up to 14, that has another order: the page that the
-- allocation took from the pool is mapped at the address, the call succeeds, the free pages and
-- kernel addresses are those of before, in well-formed pools, and this page is mapped no more and
-- has no user.
pub kernel_page_allocate-free :
    (f g : Lists) (order : ℕ) (m : Memory) (addr : ℕ) (m' : Memory)
    → Inv m.pages_count m.pages.links f
    → Inv kernel_memory_pages m.vaddrs.links g
    → order < 16
    → m.pages_count * page_size ≤ 2 ^ 32
    → ((x : ℕ) → IsFree f x → (m.kernel_vaddr x ≡ 0) × (m.kernel_vaddr_refcnt x ≡ 0))
    → ((page : ℕ) (pages : Pool)
        → page_allocate order m.pages ≡ (some page, pages)
        → IsOrdered f order page)
    → ((index : ℕ) (vaddrs : Pool)
        → vaddr_allocate order m.vaddrs ≡ (some index, vaddrs)
        → IsOrdered g order index)
    → kernel_page_allocate order m ≡ (addr, m')
    → addr ≢ 0
    → (page : ℕ) × (page_allocate order m.pages ≡ (some page, m'.pages))
      × (m'.kernel_vaddr page ≡ addr)
      × (m'' : Memory) × (kernel_page_free addr m' ≡ some m'')
      × IsReleased f g page m m''
kernel_page_allocate-free f g order m addr m' v w small low fresh of og e not_null =
    let o : PageOutcome (IsRestored m.pages_count f) f g order m (addr, m') =
      rw e at (kernel_page_allocate-PageOutcome f g order m v w small low fresh of) in
    elim o [
      | inl r ↦ absurd (not_null r.null)
      | inr k ↦
          let (m'', u, r) =
            released f g order m addr m' k small low (of k.page m'.pages k.page_taken)
              (og k.index m'.vaddrs k.vaddr_taken) in
          (k.page, k.page_taken, k.vaddr, m'', u, r)
    ]
