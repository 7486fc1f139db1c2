-- ===== src/Memory/Mapping.antt =====
-- What `map_phaddr_in_kernel` maps is what `phaddr_of_kernel_vaddr` reads back.
use Prim.Native.Nat.{bit_or}
use borfos.Common.{
  ℕ, zero, suc, ◌+◌, ◌-◌, ◌*◌, ◌/◌, ◌%◌, ◌^◌, ◌≤◌, ◌<◌, ◌≡◌, ◌≢◌, refl, ◌⊎◌, inl, inr, Option, none,
  some, if◌then◌else◌, u32, arith, ltb,
}
use borfos.Common.Bits.{bit_or-low}
use borfos.Memory.{page_size, kernel_memory_base, kernel_memory_pages, page_start, write}
use borfos.Memory.Pool.{Pool, vaddr_allocate, allocate}
use borfos.Memory.Pool.Inv.{Lists, Inv, bound_of_free, pow-pos}
use borfos.Memory.Pool.Allocate.{IsAllocated, AllocationOutcome, allocate-AllocationOutcome}
use borfos.Memory.Kernel.{
  Memory, map_loop, place_mapping, map_phaddr_in_kernel, page_index_of, phaddr_of_kernel_vaddr,
}

-- The entries that the loop leaves: the frames from `phaddr` on, and the others as they were.
pub map_loop_lem :
    (rounds i page_index phaddr : ℕ) (tables : ℕ → ℕ) (j : ℕ)
    → phaddr + (i + rounds) * page_size ≤ 2 ^ 32
    → map_loop rounds i page_index phaddr tables j ≡ (
        if ltb j (page_index + i)
        then tables j
        else if ltb j (page_index + (i + rounds))
        then phaddr + (j - page_index) * page_size + 3
        else tables j)
unfolding map_loop
map_loop_lem zero i page_index phaddr tables j h = ground arith
map_loop_lem (suc rounds) i page_index phaddr tables j h = ground (
  arith,
  map_loop_lem rounds (i + 1) page_index phaddr
      (write tables (page_index + i) (u32 (phaddr + i * page_size + 3))) j,
)

-- An entry that was stored as `frame + 3`, with an aligned frame, reads back as the frame.
phaddr_of_entry :
    (frame off : ℕ)
    → off < page_size
    → bit_or (page_start (frame * page_size + 3)) off ≡ frame * page_size + off
unfolding page_start
phaddr_of_entry frame off h =
    let e : (frame * page_size + 3) / page_size ≡ frame = omega arith in
    rw e (bit_or-low 12 frame off h)

module _ (frame order page_index off : ℕ) (tables : ℕ → ℕ)
    (fits : (frame + 2 ^ order) * page_size ≤ 2 ^ 32)
    (inside : page_index + 2 ^ order ≤ kernel_memory_pages)
    (within : off < 2 ^ order * page_size) where
  abbrev address : ℕ
  address = u32 (kernel_memory_base + page_index * page_size) + off

  index : page_index_of address ≡ page_index + off / page_size
  unfolding page_index_of
  index = omega arith

  entry :
      map_loop (2 ^ order) 0 page_index (frame * page_size) tables (page_index + off / page_size)
      ≡ (frame + off / page_size) * page_size + 3
  entry = ground (
    arith,
    map_loop_lem (2 ^ order) 0 page_index (frame * page_size) tables (page_index + off / page_size),
  )

  low : address % page_size ≡ off % page_size
  low = omega arith

  read_back :
      (m : Memory)
      → m.kernel_page_tables ≡ map_loop (2 ^ order) 0 page_index (frame * page_size) tables
      → phaddr_of_kernel_vaddr address m ≡ frame * page_size + off
  unfolding phaddr_of_kernel_vaddr
  read_back m e =
      rw (index, e, entry, low)
        (omega (arith, phaddr_of_entry (frame + off / page_size) (off % page_size) (omega arith)))

-- The mapping of `2 ^ order` frames from physical address `frame * PAGE_SIZE` on.
pub record IsMapping (frame order addr : ℕ) (m : Memory) : Type 0 where
  pub not_null : addr ≢ 0
  pub reads :
      (off : ℕ)
      → off < 2 ^ order * page_size
      → phaddr_of_kernel_vaddr (addr + off) m ≡ frame * page_size + off

abbrev pub MappingOutcome : ℕ → ℕ → Memory → ℕ × Memory → Type 0
MappingOutcome frame order m (addr, m') =
    ((addr ≡ 0) × (m'.kernel_page_tables ≡ m.kernel_page_tables)) ⊎ IsMapping frame order addr m'

pub placed-IsMapping :
    (g : Lists) (frame order i : ℕ) (m : Memory) (vaddrs : Pool)
    → Inv kernel_memory_pages m.vaddrs.links g
    → (frame + 2 ^ order) * page_size ≤ 2 ^ 32
    → IsAllocated kernel_memory_pages g order m.vaddrs i vaddrs
    → (m' : Memory)
    → m'.kernel_page_tables ≡ map_loop (2 ^ order) 0 i (frame * page_size) m.kernel_page_tables
    → IsMapping frame order (u32 (kernel_memory_base + i * page_size)) m'
placed-IsMapping g frame order i m vaddrs v fits a m' e =
    let pos = pow-pos order in
    let last =
      bound_of_free v (i + 2 ^ order - 1)
        (a.was_free (i + 2 ^ order - 1) (omega (arith, pos), omega (arith, pos))) in
    record {
      not_null = omega (arith, last, pos);
      reads = λ off h.
          read_back frame order i off m.kernel_page_tables fits (omega (arith, last, pos)) h m' e;
    }

place_mapping-MappingOutcome :
    (g : Lists) (frame order : ℕ) (m : Memory) (r : Option ℕ × Pool)
    → Inv kernel_memory_pages m.vaddrs.links g
    → (frame + 2 ^ order) * page_size ≤ 2 ^ 32
    → AllocationOutcome kernel_memory_pages g order m.vaddrs r
    → MappingOutcome frame order m (place_mapping (frame * page_size) order m r)
unfolding place_mapping
place_mapping-MappingOutcome g frame order m (none, vaddrs) v fits a = inl (refl, refl)
place_mapping-MappingOutcome g frame order m (some i, vaddrs) v fits a =
    inr (placed-IsMapping g frame order i m vaddrs v fits a _ refl)

-- For an order up to 16 and frames below 4 GiB `map_phaddr_in_kernel` on a well-formed pool of kernel
-- addresses either returns NULL and leaves
-- the page tables alone, or returns an address that is not NULL, from which on every byte of the
-- `2 ^ order` frames reads back, by `phaddr_of_kernel_vaddr`, as its physical address.
pub map_phaddr_in_kernel-MappingOutcome :
    (f : Lists) (frame order : ℕ) (m : Memory)
    → Inv kernel_memory_pages m.vaddrs.links f
    → order ≤ 16
    → (frame + 2 ^ order) * page_size ≤ 2 ^ 32
    → MappingOutcome frame order m (map_phaddr_in_kernel (frame * page_size) order m)
unfolding map_phaddr_in_kernel vaddr_allocate
map_phaddr_in_kernel-MappingOutcome f frame order m v small fits =
    place_mapping-MappingOutcome f frame order m (allocate order m.vaddrs) v fits
      (allocate-AllocationOutcome kernel_memory_pages f order m.vaddrs v small)
