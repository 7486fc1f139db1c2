-- ===== src/Memory/Setup/Constructor.antt =====
-- `CONSTRUCTOR(mem)` as a whole.
use borfos.Common.{
  ◌<◌, ℕ, ◌+◌, ◌*◌, ◌≤◌, ◌≡◌, ◌⊎◌, inl, inr, refl, arith, Bool, true, false, List, [], ◌∷◌, length,
  u32, ◌==◌, if◌then◌else◌, Bool-cases, ◌∙◌,
}
use borfos.Interrupts.{set_kernel_interrupt_handler, set_interrupt_handler}
use borfos.Multiboot.{MultibootInfo}
use borfos.Memory.{page_size}
use borfos.Memory.Boot.{IsMapped}
use borfos.Memory.Setup.{
  MemoryMap, MemoryState, memory_size_loop, allocate_pages, fill_pools, mem_constructor,
}
use borfos.Memory.Setup.Regions.{InRegion, InMap, IsSeparate, IsCovered}
use borfos.Memory.Setup.Entries.{
  IsMemoryMap, IsWord, map_entries-enough, memory_size_loop-IsCovered,
}
use borfos.Memory.Setup.Pools.{
  HasRoom, IsSetUp, IsPlaced, allocate_pages-IsPlaced, fill_pools-IsSetUp,
}

-- The size of the memory: the boot loader's, or else the end of the highest region.
abbrev pub chosen_size : List MemoryMap → ℕ → ℕ
chosen_size entries memory_size =
    if memory_size == 0 then memory_size_loop entries memory_size else memory_size

InRegion-above :
    (last size : ℕ) (m : MemoryMap) (x : ℕ) → InRegion last size m x → InRegion 0 size m x
InRegion-above last size m x r = record {
  usable = r.usable;
  low = r.low;
  starts = r.starts;
  from = r.from;
  behind = omega arith;
  to = r.to;
}

InMap-above :
    (last size : ℕ) (entries : List MemoryMap) (x : ℕ)
    → InMap last size entries x
    → InMap 0 size entries x
InMap-above last size [] x h = h
InMap-above last size (m ∷ entries) x (inl r) = inl (InRegion-above last size m x r)
InMap-above last size (m ∷ entries) x (inr r) = inr (InMap-above last size entries x r)

IsSeparate-above :
    (last size : ℕ) (entries : List MemoryMap)
    → IsSeparate 0 size entries
    → IsSeparate last size entries
IsSeparate-above last size [] h = tt
IsSeparate-above last size (m ∷ entries) (h, t) = (
  λ x a b. h x (InRegion-above last size m x a) (InMap-above last size entries x b),
  IsSeparate-above last size entries t,
)

-- The memory behind the constructor.
pub record IsConstructed (entries : List MemoryMap) (pf_handler : ℕ) (s s' : MemoryState)
    : Type 0 where
  pub pools : IsSetUp entries s'
  pub mapped : IsMapped s'.boot
  pub size : s'.memory_size ≡ chosen_size entries s.memory_size
  pub behind : s.boot.last_kernel_phaddr + 20 * s'.pages_count ≤ s'.boot.last_kernel_phaddr
  pub close :
      s'.boot.last_kernel_phaddr < s.boot.last_kernel_phaddr + 20 * s'.pages_count + page_size + 4
  pub count : s'.memory_size ≤ s'.pages_count * page_size
  pub exact : s'.pages_count * page_size < s'.memory_size + page_size
  pub handler : s'.interrupts.handlers 0xe ≡ pf_handler

choose :
    (b : Bool) (s : MemoryState) (size : ℕ)
    → (if b then record s { memory_size = size } else s)
      ≡ record s { memory_size = if b then size else s.memory_size }
choose true s size = refl
choose false s size = refl

module _ (entries : List MemoryMap) (pf_handler : ℕ) (s : MemoryState) (word : IsWord entries)
    (covered : (s.memory_size ≡ 0) ⊎ IsCovered s.memory_size entries)
    (separate : IsSeparate 0 (chosen_size entries s.memory_size) entries)
    (room : HasRoom s.boot.last_kernel_phaddr (chosen_size entries s.memory_size))
    (mapped : IsMapped s.boot) where
  chosen-IsCovered : IsCovered (chosen_size entries s.memory_size) entries
  chosen-IsCovered = elim (Bool-cases (s.memory_size == 0)) [
    | inl e ↦ rw e (memory_size_loop-IsCovered entries s.memory_size word).1
    | inr e ↦ rw e (elim covered [ inl z ↦ ground (arith, e, z) | inr c ↦ c ])
  ]

  abbrev installed : MemoryState
  installed = record s { interrupts = set_kernel_interrupt_handler 0xe pf_handler s.interrupts }

  -- The state behind the choice of the size.
  abbrev sized : MemoryState
  sized = record s {
    interrupts = set_kernel_interrupt_handler 0xe pf_handler s.interrupts;
    memory_size = chosen_size entries s.memory_size;
  }

  sized-IsConstructed :
      IsConstructed entries pf_handler s (fill_pools entries (allocate_pages sized))
  unfolding set_kernel_interrupt_handler set_interrupt_handler
  sized-IsConstructed =
      let s1 = allocate_pages sized in
      let a : IsPlaced sized s1 = allocate_pages-IsPlaced sized room mapped in
      let (b, (c, d, e, f)) =
        fill_pools-IsSetUp entries s1 a.aligned a.count (rw a.size chosen-IsCovered)
          (rw a.size (IsSeparate-above s1.boot.last_kernel_phaddr _ entries separate)) in
      record {
        pools = b;
        mapped = rw c a.mapped;
        size = d ∙ a.size;
        behind = rw (c, e) a.behind;
        close = rw (c, e) a.close;
        count = rw (d, e) a.count;
        exact = rw (d, e) a.exact;
        handler = rw (f, a.interrupts) (ground arith);
      }

  -- `CONSTRUCTOR(mem)` where the boot loader's map is the finite list `entries`, whose ends are 64-bit
  -- numbers, the fuel is at least its length, `memory_size` is 0 or no available region below 4 GiB
  -- goes beyond it, no page belongs to two such regions rounded to pages, the kernel with the array
  -- of the pages and two more pages ends below 4 GiB and `memory_size` a page below, and the kernel
  -- is mapped: both pools are well formed, the free pages are those of the available regions below
  -- 4 GiB that do not lie below `last_kernel_phaddr`, the free kernel addresses are those from there
  -- to the end, no element is marked as allocated and no page as mapped, `memory_size` is as given or
  -- else found in the map, `last_kernel_phaddr` has moved behind the array of just as many pages as
  -- the size needs, and less than a page and 4 bytes further, up to it the kernel is
  -- mapped, and `pf_handler` is the handler of the page fault.
  pub mem_constructor-IsConstructed :
      (at : ℕ → MemoryMap) (fuel : ℕ) (mbi : MultibootInfo)
      → IsMemoryMap at (u32 (mbi.mmap_addr + mbi.mmap_length)) mbi.mmap_addr entries
      → length entries ≤ fuel
      → IsConstructed entries pf_handler s (mem_constructor at fuel pf_handler mbi s)
  unfolding mem_constructor
  mem_constructor-IsConstructed at fuel mbi walk enough =
      rw (map_entries-enough at fuel mbi.mmap_addr _ entries walk enough) (
        rw (choose (s.memory_size == 0) installed (memory_size_loop entries s.memory_size))
          sized-IsConstructed)
