-- ===== src/Memory.antt =====
-- kernel/include/mem.h and kernel/lib/mem.c: the address macros and the state of the page tables.
-- The buddy pools are in `Pool`, the boot-time mapping in `Boot`, `page_map` and the kernel's
-- addresses in `Kernel`.
pub mod Pool
pub mod Boot
pub mod Kernel
pub mod Mapping
pub mod Unmapping
pub mod Pages
pub mod Release
pub mod Started
pub mod Setup
pub mod Tests
use borfos.Common.{ℕ, zero, suc, ◌+◌, ◌-◌, ◌*◌, ◌/◌, ◌%◌, ◌^◌, ◌==◌, if◌then◌else◌, u32, sub32}

abbrev pub page_bits : ℕ
page_bits = 12

abbrev pub page_size : ℕ
page_size = 2 ^ 12

abbrev pub page_table_entries : ℕ
page_table_entries = 2 ^ 10

abbrev pub physical_base_address : ℕ
physical_base_address = 0x100000

abbrev pub kernel_memory_base : ℕ
kernel_memory_base = 0xc0000000

abbrev pub virtual_base_address : ℕ
virtual_base_address = kernel_memory_base + physical_base_address

abbrev pub kernel_memory_size : ℕ
kernel_memory_size = sub32 0 kernel_memory_base

abbrev pub kernel_memory_pages : ℕ
kernel_memory_pages = kernel_memory_size / page_size

abbrev pub kernel_memory_pdes : ℕ
kernel_memory_pdes = kernel_memory_pages / page_table_entries

abbrev pub kernel_memory_pde_base : ℕ
kernel_memory_pde_base = kernel_memory_base / 2 ^ 22

-- PA and VA on `uint32_t`.
unfoldable pub pa : ℕ → ℕ
pa vaddr = u32 (sub32 vaddr virtual_base_address + physical_base_address)

unfoldable pub va : ℕ → ℕ
va paddr = sub32 (u32 (paddr + virtual_base_address)) physical_base_address

-- `addr & ~(PAGE_SIZE-1)` clears the low twelve bits.
unfoldable pub page_start : ℕ → ℕ
page_start addr = addr / page_size * page_size

unfoldable pub page_end : ℕ → ℕ
page_end addr = u32 (addr + (page_size - 1)) / page_size * page_size

-- A write to an array.
abbrev pub write : (ℕ → ℕ) → ℕ → ℕ → ℕ → ℕ
write f i v j = if j == i then v else f j
