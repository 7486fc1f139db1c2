-- ===== src/Memory/Setup/Tests.antt =====
-- `CONSTRUCTOR(mem)` with a memory map of three entries, on a machine of eight mebibytes.
use borfos.Common.{
  ℕ, ◌+◌, ◌*◌, ◌≡◌, inl, inr, refl, arith, List, [], ◌∷◌, ◌==◌, if◌then◌else◌, none, false,
}
use borfos.Multiboot.{MultibootInfo}
use borfos.Memory.Pool.{Pool}
use borfos.Memory.Setup.{MemoryMap, MemoryState, memory_size_loop, mem_constructor}
use borfos.Memory.Setup.Regions.{IsSeparate}
use borfos.Memory.Setup.Entries.{IsMemoryMap, done, entry}
use borfos.Memory.Setup.Constructor.{chosen_size, IsConstructed, mem_constructor-IsConstructed}

abbrev low_memory : MemoryMap
low_memory = record { size = 20; base_addr = 0; length = 0x9fc00; type = 1 }

abbrev reserved : MemoryMap
reserved = record { size = 20; base_addr = 0x9fc00; length = 0x60400; type = 2 }

abbrev pub high_memory : MemoryMap
high_memory = record { size = 20; base_addr = 0x100000; length = 0x700000; type = 1 }

abbrev pub entries : List MemoryMap
entries = low_memory ∷ reserved ∷ high_memory ∷ []

abbrev pub at : ℕ → MemoryMap
at a = if a == 0xc0001000 then low_memory else if a == 0xc0001018 then reserved else high_memory

abbrev pub mbi : MultibootInfo
mbi = record {
  flags = 0x40;
  mem_upper = 0;
  cmdline = 0;
  mods_count = 0;
  mods_addr = 0;
  mmap_length = 72;
  mmap_addr = 0xc0001000;
}

abbrev pool : Pool
pool = record { links = record { prev = λ a. 0; next = λ a. 0 }; order = λ i. none }

abbrev pub start : MemoryState
start = record {
  boot = record {
    kernel_page_directory = λ i. 0;
    kernel_page_tables = λ i. i * 0x1000 + 3;
    last_kernel_phaddr = 0x123456;
  };
  memory_size = 0;
  pages_address = 0;
  pages_count = 0;
  pages = pool;
  kernel_vaddr = λ i. 0;
  kernel_vaddr_refcnt = λ i. 0;
  vaddrs = pool;
  interrupts = record {
    offset_1 = λ i. 0;
    selector = λ i. 0;
    type_attr = λ i. 0;
    offset_2 = λ i. 0;
    handlers = λ i. 0;
    used_interrupts = λ i. false;
  };
}

pub size : chosen_size entries 0 ≡ 0x800000
unfolding memory_size_loop
size = refl

separate : IsSeparate 0 0x800000 entries
separate = (
  λ x a b. elim b [
    | inl r ↦ omega (arith, r.usable)
    | inr (inl r) ↦ omega (arith, a.to, r.from)
    | inr (inr r) ↦ r
  ],
  ((λ x a b. omega (arith, a.usable)), ((λ x a b. b), tt)),
)

walk : IsMemoryMap at 0xc0001048 0xc0001000 entries
walk = entry (omega arith) (entry (omega arith) (entry (omega arith) (done (omega arith))))

pub constructed : IsConstructed entries 0xc0104000 start (mem_constructor at 3 0xc0104000 mbi start)
constructed =
    mem_constructor-IsConstructed entries 0xc0104000 start
      (omega arith, (omega arith, (omega arith, tt))) (inl refl) (rw size separate)
      (rw size (omega arith, omega arith)) (record { mapped = λ j h. refl }) at 3 mbi walk
      (omega arith)

mem_constructor-IsConstructed_example :
    IsConstructed entries 0xc0104000 start (mem_constructor at 3 0xc0104000 mbi start)
mem_constructor-IsConstructed_example =
    mem_constructor-IsConstructed entries 0xc0104000 start
      (omega arith, (omega arith, (omega arith, tt))) (inl refl) (rw size separate)
      (rw size (omega arith, omega arith)) (record { mapped = λ j h. refl }) at 3 mbi walk
      (omega arith)
