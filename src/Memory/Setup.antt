-- ===== src/Memory/Setup.antt =====
-- kernel/lib/mem.c: `CONSTRUCTOR(mem)`, which reads the memory map of the boot loader and fills the
-- two pools. The memory map is a parameter, which gives the entry at an address.
pub mod Init
pub mod Regions
pub mod Entries
pub mod Pools
pub mod Constructor
pub mod Tests
use borfos.Common.{
  ℕ, zero, suc, ◌+◌, ◌-◌, ◌*◌, ◌/◌, ◌^◌, Bool, not, none, List, [], ◌∷◌, ltb, leb, ◌==◌, ◌&&◌,
  if◌then◌else◌, u32, u64,
}
use borfos.Links.{Links, list_init}
use borfos.Interrupts.{Interrupts, set_kernel_interrupt_handler}
use borfos.Multiboot.{MultibootInfo}
use borfos.Memory.{page_size, kernel_memory_pages, page_end, write}
use borfos.Memory.Boot.{BootMemory, bootheap_allocate}
use borfos.Memory.Pool.{Pool, node, set_order, buddy_order_limit, add_to_pool}

-- `memory_map_t`
pub record MemoryMap : Type 0 where
  pub size : ℕ
  pub base_addr : ℕ
  pub length : ℕ
  pub type : ℕ

-- The variables that the constructor writes; `pages_address` is the pointer `pages`, and the fields
-- of the elements behind it stand apart, as those of `vaddrs` do.
pub record MemoryState : Type 0 where
  pub boot : BootMemory
  pub memory_size : ℕ
  pub pages_address : ℕ
  pub pages_count : ℕ
  pub pages : Pool
  pub kernel_vaddr : ℕ → ℕ
  pub kernel_vaddr_refcnt : ℕ → ℕ
  pub vaddrs : Pool
  pub interrupts : Interrupts

-- The entries that the two loops over the memory map go through, for at most `fuel` rounds: `size`
-- does not count its own four bytes.
unfoldable pub map_entries : (ℕ → MemoryMap) → ℕ → ℕ → ℕ → List MemoryMap
map_entries at zero mmap_addr mmap_end = []
map_entries at (suc fuel) mmap_addr mmap_end =
    let rest = map_entries at fuel (u32 (mmap_addr + 4 + (at mmap_addr).size)) mmap_end in
    if ltb mmap_addr mmap_end then at mmap_addr ∷ rest else []

abbrev pub map_end : MemoryMap → ℕ
map_end m = u64 (m.base_addr + m.length)

-- Neither of the first two `continue`s: memory that may be used, and ends below 4 GiB.
abbrev pub is_memory : MemoryMap → Bool
is_memory m = (m.type == 1) && (map_end m / 2 ^ 32 == 0)

-- The first loop.
unfoldable pub memory_size_loop : List MemoryMap → ℕ → ℕ
memory_size_loop [] memory_size = memory_size
memory_size_loop (m ∷ entries) memory_size =
    memory_size_loop entries
      (if is_memory m && ltb memory_size (map_end m) then u32 (map_end m) else memory_size)

-- ARRAY_FOREACH(node, …_free_list) list_init(node);
unfoldable pub init_free_lists : ℕ → ℕ → Links → Links
init_free_lists zero o l = l
init_free_lists (suc rounds) o l = init_free_lists rounds (o + 1) (list_init l o)

unfoldable pub init_element : ℕ → Pool → Pool
init_element i p = record { links = list_init p.links (node i); order = set_order p.order i none }

-- The loop over `pages`.
unfoldable pub init_pages : ℕ → ℕ → MemoryState → MemoryState
init_pages zero i s = s
init_pages (suc rounds) i s = init_pages rounds (i + 1) (record s {
  pages = init_element i s.pages;
  kernel_vaddr = write s.kernel_vaddr i 0;
  kernel_vaddr_refcnt = write s.kernel_vaddr_refcnt i 0;
})

-- The loop over `vaddrs`.
unfoldable pub init_vaddrs : ℕ → ℕ → Pool → Pool
init_vaddrs zero i p = p
init_vaddrs (suc rounds) i p = init_vaddrs rounds (i + 1) (init_element i p)

abbrev pub with_lists : Pool → Pool
with_lists p = record p { links = init_free_lists buddy_order_limit 0 p.links }

-- `add_pages_to_pool` and `add_vaddrs_to_pool`; the range has as many rounds as elements at most.
unfoldable pub add_range : ℕ → ℕ → Pool → Pool
add_range from to p = add_to_pool (to - from) from to p

-- The body of the second loop, from the first `continue` on.
unfoldable pub add_region : MemoryMap → MemoryState → MemoryState
add_region m s =
    let end = map_end m in
    let base = u32 m.base_addr in
    let last = s.boot.last_kernel_phaddr in
    if not (is_memory m)
    then s
    else if leb end last
    then s
    else if leb s.memory_size base
    then s
    else record s {
      pages =
          add_range ((if leb base last then last else base) / page_size)
            (u32 (u64 (end + (page_size - 1)) / page_size)) s.pages;
    }

unfoldable pub add_regions : List MemoryMap → MemoryState → MemoryState
add_regions [] s = s
add_regions (m ∷ entries) s = add_regions entries (add_region m s)

-- The lines from the alignment of `last_kernel_phaddr` to its next one; `page_t` has 20 bytes.
unfoldable pub allocate_pages : MemoryState → MemoryState
allocate_pages s =
    let aligned = u32 (s.boot.last_kernel_phaddr + 3) / 4 * 4 in
    let count = u32 (s.memory_size + (page_size - 1)) / page_size in
    let (address, boot) =
      bootheap_allocate (u32 (20 * count)) (record s.boot { last_kernel_phaddr = aligned }) in
    record s {
      pages_count = count;
      pages_address = address;
      boot = record boot { last_kernel_phaddr = page_end boot.last_kernel_phaddr };
    }

-- The lines behind it: the pages are initialised and added to their pool, and likewise the `vaddrs`.
unfoldable pub fill_pools : List MemoryMap → MemoryState → MemoryState
fill_pools entries s =
    let s1 = init_pages s.pages_count 0 (record s { pages = with_lists s.pages }) in
    let s2 = add_regions entries s1 in
    record s2 {
      vaddrs =
          add_range (s2.boot.last_kernel_phaddr / page_size) kernel_memory_pages
            (init_vaddrs kernel_memory_pages 0 (with_lists s2.vaddrs));
    }

-- CONSTRUCTOR(mem); `pf_handler` is the address of the page fault handler.
unfoldable pub mem_constructor : (ℕ → MemoryMap) → ℕ → ℕ → MultibootInfo → MemoryState → MemoryState
mem_constructor at fuel pf_handler mbi s =
    let entries = map_entries at fuel mbi.mmap_addr (u32 (mbi.mmap_addr + mbi.mmap_length)) in
    let s1 = record s { interrupts = set_kernel_interrupt_handler 0xe pf_handler s.interrupts } in
    let s2 =
      (if s1.memory_size == 0
        then record s1 { memory_size = memory_size_loop entries s1.memory_size }
        else s1) in
    fill_pools entries (allocate_pages s2)
