-- ===== src/Memory/Kernel.antt =====
-- kernel/lib/mem.c: mappings in the kernel's address range, from `map_phaddr_in_kernel` to
-- `phaddr_of_kernel_vaddr`. A page and a `vaddr_t` are their indices, NULL is 0. `none` is a shift
-- by the order -1, which C leaves undefined.
use Prim.Native.Nat.{bit_or}
use borfos.Common.{
  ℕ, zero, suc, ◌+◌, ◌-◌, ◌*◌, ◌/◌, ◌%◌, ◌^◌, Option, none, some, ◌==◌, if◌then◌else◌, u32, sub32,
}
use borfos.Memory.{page_size, kernel_memory_base, page_start, write}
use borfos.Memory.Pool.{Pool, page_allocate, vaddr_allocate, page_free, vaddr_free}

-- The arrays and counts behind the two pools; `kernel_vaddr` and `kernel_vaddr_refcnt` are fields
-- of a page.
pub record Memory : Type 0 where
  pub pages : Pool
  pub pages_count : ℕ
  pub kernel_vaddr : ℕ → ℕ
  pub kernel_vaddr_refcnt : ℕ → ℕ
  pub vaddrs : Pool
  pub kernel_page_tables : ℕ → ℕ

-- `for (i = 0; i < count; ++i) kernel_page_tables[page_index + i] = phaddr + (i << PAGE_BITS) + 3;`
unfoldable pub map_loop : ℕ → ℕ → ℕ → ℕ → (ℕ → ℕ) → ℕ → ℕ
map_loop zero i page_index phaddr tables = tables
map_loop (suc rounds) i page_index phaddr tables =
    map_loop rounds (i + 1) page_index phaddr
      (write tables (page_index + i) (u32 (phaddr + i * page_size + 3)))

-- What `map_phaddr_in_kernel` does with the result of `vaddr_allocate`.
unfoldable pub place_mapping : ℕ → ℕ → Memory → Option ℕ × Pool → ℕ × Memory
place_mapping phaddr order m (none, vaddrs) = (0, record m { vaddrs = vaddrs })
place_mapping phaddr order m (some page_index, vaddrs) = (
  u32 (kernel_memory_base + page_index * page_size),
  record m {
    vaddrs = vaddrs;
    kernel_page_tables = map_loop (2 ^ order) 0 page_index phaddr m.kernel_page_tables;
  },
)

unfoldable pub map_phaddr_in_kernel : ℕ → ℕ → Memory → ℕ × Memory
map_phaddr_in_kernel phaddr order m = place_mapping phaddr order m (vaddr_allocate order m.vaddrs)

unfoldable pub unmap_loop : ℕ → ℕ → ℕ → (ℕ → ℕ) → ℕ → ℕ
unmap_loop zero i page_index tables = tables
unmap_loop (suc rounds) i page_index tables =
    unmap_loop rounds (i + 1) page_index (write tables (page_index + i) 0)

-- The index of the page table entry of a kernel address.
unfoldable pub page_index_of : ℕ → ℕ
page_index_of addr = sub32 addr kernel_memory_base / page_size

unfoldable pub unmap_phaddr_in_kernel : ℕ → Memory → Option Memory
unmap_phaddr_in_kernel addr m =
    let page_index = page_index_of addr in
    elim (m.vaddrs.order page_index) [
      | none ↦ none
      | some order ↦ some (record m {
        kernel_page_tables = unmap_loop (2 ^ order) 0 page_index m.kernel_page_tables;
        vaddrs = vaddr_free page_index m.vaddrs;
      })
    ]

unfoldable pub phaddr_of_page : ℕ → ℕ
phaddr_of_page page = u32 (page * page_size)

-- An `int` that is passed as `unsigned`.
abbrev order_word : Option ℕ → ℕ
order_word none = 2 ^ 32 - 1
order_word (some order) = order

-- The end of `page_map`: one more user of the mapping.
abbrev pub count_user : ℕ → Memory → ℕ × Memory
count_user page m = (
  m.kernel_vaddr page,
  record m {
    kernel_vaddr_refcnt = write m.kernel_vaddr_refcnt page (u32 (m.kernel_vaddr_refcnt page + 1));
  },
)

unfoldable pub page_map : ℕ → Memory → ℕ × Memory
page_map page m =
    if m.kernel_vaddr page == 0
    then (let (addr, m1) =
          map_phaddr_in_kernel (phaddr_of_page page) (order_word (m.pages.order page)) m in
        let m2 = record m1 { kernel_vaddr = write m1.kernel_vaddr page addr } in
        if addr == 0 then (0, m2) else count_user page m2)
    else count_user page m

unfoldable pub page_unmap : ℕ → Memory → Option Memory
page_unmap page m =
    let refcnt = sub32 (m.kernel_vaddr_refcnt page) 1 in
    let m1 = record m { kernel_vaddr_refcnt = write m.kernel_vaddr_refcnt page refcnt } in
    if refcnt == 0
    then (elim (unmap_phaddr_in_kernel (m1.kernel_vaddr page) m1) [
      | none ↦ none
      | some m2 ↦ some (record m2 { kernel_vaddr = write m2.kernel_vaddr page 0 })
    ])
    else some m1

-- What `kernel_page_allocate` does with the result of `page_allocate`.
unfoldable pub map_allocated : Memory → Option ℕ × Pool → ℕ × Memory
map_allocated m (none, pages) = (0, record m { pages = pages })
map_allocated m (some page, pages) =
    let (result, m1) = page_map page (record m { pages = pages }) in
    if result == 0
    then (result, record m1 { pages = page_free m1.pages_count page m1.pages })
    else (result, m1)

unfoldable pub kernel_page_allocate : ℕ → Memory → ℕ × Memory
kernel_page_allocate order m = map_allocated m (page_allocate order m.pages)

unfoldable pub kernel_page_free : ℕ → Memory → Option Memory
kernel_page_free addr m =
    let page = m.kernel_page_tables (page_index_of addr) / page_size in
    elim (page_unmap page m) [
      | none ↦ none
      | some m1 ↦ some (record m1 { pages = page_free m1.pages_count page m1.pages })
    ]

unfoldable pub phaddr_of_kernel_vaddr : ℕ → Memory → ℕ
phaddr_of_kernel_vaddr vaddr m =
    bit_or (page_start (m.kernel_page_tables (page_index_of vaddr))) (vaddr % page_size)
