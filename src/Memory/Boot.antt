-- ===== src/Memory/Boot.antt =====
-- kernel/lib/mem.c before and during boot: `memory_setup_paging`, `memory_post_setup_paging`,
-- `memory_map_kernel_range`, `bootheap_allocate`, and `reserve_up_to_phaddr_before_paging`.
use borfos.Common.{
  ℕ, zero, suc, ◌+◌, ◌-◌, ◌*◌, ◌/◌, ◌^◌, ◌≤◌, ◌<◌, ◌≡◌, refl, arith, ltb, if◌then◌else◌, u32,
}
use borfos.Memory.{page_size, kernel_memory_pdes, kernel_memory_pde_base, va, pa, page_end, write}

pub record BootMemory : Type 0 where
  pub kernel_page_directory : ℕ → ℕ
  pub kernel_page_tables : ℕ → ℕ
  pub last_kernel_phaddr : ℕ

unfoldable pub reserve_up_to_phaddr_before_paging : ℕ → BootMemory → BootMemory
reserve_up_to_phaddr_before_paging phaddr m =
    if ltb m.last_kernel_phaddr phaddr then record m { last_kernel_phaddr = phaddr } else m

-- `for (value = 3, page_index = 0; …; value += PAGE_SIZE, ++page_index)`
unfoldable pub fill_tables : ℕ → ℕ → ℕ → (ℕ → ℕ) → ℕ → ℕ
fill_tables zero page_index value tables = tables
fill_tables (suc rounds) page_index value tables =
    fill_tables rounds (page_index + 1) (u32 (value + page_size)) (write tables page_index value)

-- The second loop: each entry is written twice, for the identity mapping and for the kernel.
unfoldable pub fill_directory : ℕ → ℕ → ℕ → (ℕ → ℕ) → ℕ → ℕ
fill_directory zero pd_index value directory = directory
fill_directory (suc rounds) pd_index value directory =
    fill_directory rounds (pd_index + 1) (u32 (value + page_size))
      (write (write directory pd_index value) (kernel_memory_pde_base + pd_index) value)

-- `tables` is the address of `kernel_page_tables`.
unfoldable pub memory_setup_paging : ℕ → BootMemory → BootMemory
memory_setup_paging tables m = record m {
  kernel_page_tables =
      fill_tables (u32 (m.last_kernel_phaddr + (page_size - 1)) / page_size) 0 3
        m.kernel_page_tables;
  kernel_page_directory =
      fill_directory kernel_memory_pdes 0 (u32 (pa tables + 3)) m.kernel_page_directory;
}

unfoldable pub clear_entries : ℕ → ℕ → (ℕ → ℕ) → ℕ → ℕ
clear_entries zero pd_index directory = directory
clear_entries (suc rounds) pd_index directory =
    clear_entries rounds (pd_index + 1) (write directory pd_index 0)

unfoldable pub memory_post_setup_paging : BootMemory → BootMemory
memory_post_setup_paging m = record m {
  kernel_page_directory = clear_entries kernel_memory_pdes 0 m.kernel_page_directory;
}

unfoldable pub memory_map_kernel_range : ℕ → ℕ → BootMemory → BootMemory
memory_map_kernel_range phaddr phend m = record m {
  kernel_page_tables =
      fill_tables (phend / page_size - phaddr / page_size) (phaddr / page_size) (u32 (phaddr + 3))
        m.kernel_page_tables;
}

-- The address, and the memory after the call.
unfoldable pub bootheap_allocate : ℕ → BootMemory → ℕ × BootMemory
bootheap_allocate size m =
    let last = u32 (m.last_kernel_phaddr + size) in
    (
      va m.last_kernel_phaddr,
      memory_map_kernel_range (page_end m.last_kernel_phaddr) (page_end last)
          (record m { last_kernel_phaddr = last }),
    )

-- What the first loop leaves in the tables: consecutive frames from the first index on.
pub fill_tables_lem :
    (rounds i value : ℕ) (tables : ℕ → ℕ) (j : ℕ)
    → value + rounds * page_size ≤ 2 ^ 32
    → fill_tables rounds i value tables j ≡ (
        if ltb j i
        then tables j
        else if ltb j (i + rounds)
        then value + (j - i) * page_size
        else tables j)
unfolding fill_tables
fill_tables_lem zero i value tables j h = ground arith
fill_tables_lem (suc rounds) i value tables j h =
    ground
      (arith, fill_tables_lem rounds (i + 1) (u32 (value + page_size)) (write tables i value) j)

-- The kernel's frames below `last_kernel_phaddr`, rounded up to whole pages, are mapped at
-- `kernel_memory_base` one after the other, present and writable.
pub record IsMapped (m : BootMemory) : Type 0 where
  pub mapped :
      (j : ℕ) → j * page_size < m.last_kernel_phaddr → m.kernel_page_tables j ≡ j * page_size + 3

-- `memory_setup_paging` maps every frame of the kernel, if it ends a page below 4 GiB.
pub memory_setup_paging-IsMapped :
    (tables : ℕ) (m : BootMemory)
    → m.last_kernel_phaddr + page_size + 3 ≤ 2 ^ 32
    → IsMapped (memory_setup_paging tables m)
unfolding memory_setup_paging
memory_setup_paging-IsMapped tables m h = record {
  mapped = λ j k. ground (
    arith,
    fill_tables_lem (u32 (m.last_kernel_phaddr + (page_size - 1)) / page_size) 0 3
        m.kernel_page_tables j,
  );
}

-- If the new end is a page below 4 GiB, `bootheap_allocate` returns the old end of the kernel's memory, moves the end by `size`, and
-- keeps every frame below the new end mapped.
pub bootheap_allocate-IsMapped :
    (size : ℕ) (m : BootMemory)
    → m.last_kernel_phaddr + size + page_size + 3 ≤ 2 ^ 32
    → IsMapped m
    → IsMapped (bootheap_allocate size m).1
      × ((bootheap_allocate size m).1.last_kernel_phaddr ≡ m.last_kernel_phaddr + size)
      × ((bootheap_allocate size m).0 ≡ va m.last_kernel_phaddr)
unfolding bootheap_allocate memory_map_kernel_range page_end
bootheap_allocate-IsMapped size m h v = (
  record {
    mapped = λ j k. ground (
      arith,
      v.mapped j,
      fill_tables_lem
          (u32 (u32 (m.last_kernel_phaddr + size) + (page_size - 1))
              / page_size
              * page_size
              / page_size
            - u32 (m.last_kernel_phaddr + (page_size - 1)) / page_size * page_size / page_size)
          (u32 (m.last_kernel_phaddr + (page_size - 1)) / page_size * page_size / page_size)
          (u32 (u32 (m.last_kernel_phaddr + (page_size - 1)) / page_size * page_size + 3))
          m.kernel_page_tables j,
    );
  },
  omega arith,
  refl,
)
