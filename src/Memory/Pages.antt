-- ===== src/Memory/Pages.antt =====
-- kernel/lib/mem.c: `kernel_page_allocate` over both pools.
use borfos.Common.{
  ℕ, ◌+◌, ◌-◌, ◌*◌, ◌^◌, ◌≤◌, ◌<◌, ◌≡◌, ◌≢◌, ◌⊎◌, refl, Option, none, some, [], arith,
  if◌then◌else◌, u32, inl, inr, ◌==◌, ==_self, true, false,
}
use borfos.Memory.{page_size, kernel_memory_base, kernel_memory_pages, write}
use borfos.Memory.Pool.{Pool, vaddr_allocate, page_allocate, page_free, allocate}
use borfos.Memory.Pool.Inv.{Lists, IsFree, Inv, bound_of_free, pow-pos}
use borfos.Memory.Pool.Allocate.{IsAllocated, AllocationOutcome, allocate-AllocationOutcome}
use borfos.Memory.Pool.Free.{IsOrdered}
use borfos.Memory.Pool.Roundtrip.{IsRestored, page_allocate-page_free}
use borfos.Memory.Kernel.{
  Memory, map_loop, place_mapping, map_phaddr_in_kernel, phaddr_of_page, count_user, page_map,
  map_allocated, kernel_page_allocate,
}
use borfos.Memory.Mapping.{map_loop_lem, IsMapping, placed-IsMapping}

-- NULL: one of the pools has no block of the order or above, the pages' pool satisfies `Q`, and
-- the kernel addresses and the mappings are those of before.
pub record IsRefused (Q : Pool → Type 0) (f g : Lists) (order : ℕ) (m : Memory) (addr : ℕ)
    (m' : Memory) : Type 0 where
  pub null : addr ≡ 0
  pub reason : ((o : ℕ) → order ≤ o → o < 16 → f o ≡ []) ⊎ ((o : ℕ) → order ≤ o → o < 16 → g o ≡ [])
  pub pages : Q m'.pages
  pub vaddrs : m'.vaddrs ≡ m.vaddrs
  pub tables : m'.kernel_page_tables ≡ m.kernel_page_tables

-- A block of pages and one of kernel addresses have been taken, the pages are mapped at the
-- addresses, and the first page keeps the address, for one user.
pub record IsGiven (f g : Lists) (order : ℕ) (m : Memory) (addr : ℕ) (m' : Memory) : Type 0 where
  pub page : ℕ
  pub index : ℕ
  pub pages : IsAllocated m.pages_count f order m.pages page m'.pages
  pub vaddrs : IsAllocated kernel_memory_pages g order m.vaddrs index m'.vaddrs
  pub page_taken : page_allocate order m.pages ≡ (some page, m'.pages)
  pub vaddr_taken : vaddr_allocate order m.vaddrs ≡ (some index, m'.vaddrs)
  pub count : m'.pages_count ≡ m.pages_count
  pub address : addr ≡ u32 (kernel_memory_base + index * page_size)
  pub entry : m'.kernel_page_tables index ≡ page * page_size + 3
  pub inside : (page + 2 ^ order ≤ m.pages_count) × (index + 2 ^ order ≤ kernel_memory_pages)
  pub mapping : IsMapping page order addr m'
  pub vaddr : m'.kernel_vaddr page ≡ addr
  pub users : m'.kernel_vaddr_refcnt page ≡ 1

abbrev pub PageOutcome : (Pool → Type 0) → Lists → Lists → ℕ → Memory → ℕ × Memory → Type 0
PageOutcome Q f g order m (addr, m') = IsRefused Q f g order m addr m' ⊎ IsGiven f g order m addr m'

-- What `page_map` does with the result of `map_phaddr_in_kernel`.
abbrev keep_address : ℕ → ℕ × Memory → ℕ × Memory
keep_address page (addr, m) =
    let m2 = record m { kernel_vaddr = write m.kernel_vaddr page addr } in
    if addr == 0 then (0, m2) else count_user page m2

-- What `kernel_page_allocate` does with the result of `page_map`.
abbrev give_back : ℕ → ℕ × Memory → ℕ × Memory
give_back page (result, m) =
    if result == 0
    then (result, record m { pages = page_free m.pages_count page m.pages })
    else (result, m)

-- `page_map` of a page that is not mapped.
page_map-fresh :
    (page order : ℕ) (m : Memory)
    → m.kernel_vaddr page ≡ 0
    → m.pages.order page ≡ some order
    → page * page_size < 2 ^ 32
    → page_map page m ≡ keep_address page (map_phaddr_in_kernel (page * page_size) order m)
unfolding page_map phaddr_of_page
page_map-fresh page order m a b word =
    let e : (m.kernel_vaddr page == 0) ≡ true = ground (arith, a) in
    let w : u32 (page * page_size) ≡ page * page_size = omega (arith, word) in rw (e, b, w) refl

module _ (f g : Lists) (order : ℕ) (m : Memory) (v : Inv m.pages_count m.pages.links f)
    (w : Inv kernel_memory_pages m.vaddrs.links g) (small : order < 16)
    (low : m.pages_count * page_size ≤ 2 ^ 32)
    (fresh : (x : ℕ) → IsFree f x → (m.kernel_vaddr x ≡ 0) × (m.kernel_vaddr_refcnt x ≡ 0))
    (Q : Pool → Type 0) (same : Q m.pages)
    (undone : (page : ℕ) (pages : Pool)
      → page_allocate order m.pages ≡ (some page, pages)
      → Q (page_free m.pages_count page pages)) where
  by_vaddrs :
      (page : ℕ) (pages : Pool) (r : Option ℕ × Pool)
      → page_allocate order m.pages ≡ (some page, pages)
      → IsAllocated m.pages_count f order m.pages page pages
      → vaddr_allocate order m.vaddrs ≡ r
      → AllocationOutcome kernel_memory_pages g order m.vaddrs r
      → PageOutcome Q f g order m (
          give_back page (
            keep_address page
              (place_mapping (page * page_size) order (record m { pages = pages }) r)))
  unfolding place_mapping
  by_vaddrs page pages (none, vaddrs) e a e' b = inl (record {
    null = refl;
    reason = inr b.1;
    pages = undone page pages e;
    vaddrs = b.0;
    tables = refl;
  })
  by_vaddrs page pages (some i, vaddrs) e a e' b =
      let addr = u32 (kernel_memory_base + i * page_size) in
      let pos = pow-pos order in
      let free = a.was_free (page + 2 ^ order - 1) (omega (arith, pos), omega (arith, pos)) in
      let last = bound_of_free v (page + 2 ^ order - 1) free in
      let last_index =
        bound_of_free w (i + 2 ^ order - 1)
          (b.was_free (i + 2 ^ order - 1) (omega (arith, pos), omega (arith, pos))) in
      let zero_users = (fresh page (a.was_free page (omega arith, omega (arith, pos)))).1 in
      let mapping = placed-IsMapping g page order i m vaddrs w (omega (arith, last, low, pos)) b in
      let not_null : addr ≢ 0 =
        (mapping
          (record m {
            kernel_page_tables = map_loop (2 ^ order) 0 i (page * page_size) m.kernel_page_tables;
          })
          refl).not_null in
      let t : (addr == 0) ≡ false = ground (arith, not_null) in
      rw (t, ==_self page, t)
        (inr (record {
          page = page;
          index = i;
          pages = a;
          vaddrs = b;
          page_taken = e;
          vaddr_taken = e';
          count = refl;
          address = refl;
          entry = ground (
            arith,
            map_loop_lem (2 ^ order) 0 i (page * page_size) m.kernel_page_tables i
                (omega (arith, last, low, pos)),
            pos,
          );
          inside = (omega (arith, last, pos), omega (arith, last_index, pos));
          mapping = mapping _ refl;
          vaddr = rw (==_self page) refl;
          users = rw (==_self page, zero_users) refl;
        }))

  by_pages :
      (r : Option ℕ × Pool)
      → page_allocate order m.pages ≡ r
      → AllocationOutcome m.pages_count f order m.pages r
      → PageOutcome Q f g order m (map_allocated m r)
  unfolding map_allocated map_phaddr_in_kernel vaddr_allocate
  by_pages (none, pages) e a =
      inl (record {
        null = refl;
        reason = inl a.1;
        pages = rw a.0 same;
        vaddrs = refl;
        tables = refl;
      })
  by_pages (some page, pages) e a =
      let pos = pow-pos order in
      let free = a.was_free page (omega arith, omega (arith, pos)) in
      let last = bound_of_free v page free in
      let marked : pages.order page ≡ some order = rw a.orders (rw (==_self page) refl) in
      let start =
        page_map-fresh page order (record m { pages = pages }) (fresh page free).0 marked
          (omega (arith, last, low)) in
      rw start (
        by_vaddrs page pages (allocate order m.vaddrs) e a refl (
          allocate-AllocationOutcome kernel_memory_pages g order m.vaddrs w (omega (arith, small))))

  pub any-PageOutcome : PageOutcome Q f g order m (kernel_page_allocate order m)
  unfolding kernel_page_allocate page_allocate
  any-PageOutcome =
      by_pages (allocate order m.pages) refl
        (allocate-AllocationOutcome m.pages_count f order m.pages v (omega (arith, small)))

-- `kernel_page_allocate` for an order below 16, with at most 2 ^ 20 pages, both pools well formed, no
-- free page mapped, and before it no free block at the buddy of a block around the page that is
-- taken, of its order up to 14, that has another order. It returns NULL only if one of the pools has
-- no free block of the order or above, and then the same pages and kernel addresses are free as
-- before and the page tables are the same. Otherwise an aligned block of free pages and one of free
-- kernel addresses have been taken out of well-formed pools, every byte at the addresses reads back
-- as the byte of the pages, and the page has this address and one user.
pub kernel_page_allocate-PageOutcome :
    (f g : Lists) (order : ℕ) (m : Memory)
    → Inv m.pages_count m.pages.links f
    → Inv kernel_memory_pages m.vaddrs.links g
    → order < 16
    → m.pages_count * page_size ≤ 2 ^ 32
    → ((x : ℕ) → IsFree f x → (m.kernel_vaddr x ≡ 0) × (m.kernel_vaddr_refcnt x ≡ 0))
    → ((page : ℕ) (pages : Pool)
        → page_allocate order m.pages ≡ (some page, pages)
        → IsOrdered f order page)
    → PageOutcome (IsRestored m.pages_count f) f g order m (kernel_page_allocate order m)
kernel_page_allocate-PageOutcome f g order m v w small low fresh ordered =
    any-PageOutcome f g order m v w small low fresh (IsRestored m.pages_count f)
      (record { lists = f; inv = v; same = λ x. (λ b. b, λ b. b) })
      (λ page pages e.
        page_allocate-page_free m.pages_count f order page m.pages pages v small
          (omega (arith, low)) e (ordered page pages e))
