-- ===== src/Memory/Unmapping.antt =====
-- `unmap_phaddr_in_kernel` behind `map_phaddr_in_kernel`.
use mathlib.Core.Path.{subst}
use borfos.Common.{
  ◌⊎◌, ap, sym, ℕ, zero, suc, ◌+◌, ◌*◌, ◌^◌, ◌≤◌, ◌<◌, ◌≡◌, ◌≢◌, refl, Option, none, some, arith,
  ltb, leb, ◌&&◌, if◌then◌else◌, u32,
}
use borfos.Memory.{page_size, kernel_memory_base, kernel_memory_pages, write}
use borfos.Memory.Pool.{Pool, vaddr_allocate, vaddr_free, allocate}
use borfos.Memory.Pool.Inv.{Lists, Inv, pow-pos}
use borfos.Memory.Pool.Free.{IsOrdered}
use borfos.Memory.Pool.Roundtrip.{IsRestored, allocated_inside, vaddr_allocate-vaddr_free}
use borfos.Memory.Kernel.{
  Memory, map_loop, unmap_loop, place_mapping, map_phaddr_in_kernel, page_index_of,
  unmap_phaddr_in_kernel,
}
use borfos.Memory.Mapping.{map_loop_lem}

unmap_loop_lem :
    (rounds i page_index : ℕ) (tables : ℕ → ℕ) (j : ℕ)
    → unmap_loop rounds i page_index tables j
      ≡ (if leb (page_index + i) j && ltb j (page_index + (i + rounds)) then 0 else tables j)
unfolding unmap_loop
unmap_loop_lem zero i page_index tables j = ground arith
unmap_loop_lem (suc rounds) i page_index tables j =
    ground (arith, unmap_loop_lem rounds (i + 1) page_index (write tables (page_index + i) 0) j)

-- The memory `m'` behind a mapping of `2 ^ order` frames at `page_index` and its removal.
pub record IsUnmapped (f : Lists) (order page_index : ℕ) (m m' : Memory) : Type 0 where
  pub vaddrs : IsRestored kernel_memory_pages f m'.vaddrs
  pub cleared : (j : ℕ) → page_index ≤ j → j < page_index + 2 ^ order → m'.kernel_page_tables j ≡ 0
  pub kept :
      (j : ℕ)
      → (j < page_index) ⊎ (page_index + 2 ^ order ≤ j)
      → m'.kernel_page_tables j ≡ m.kernel_page_tables j
  pub pages : m'.pages ≡ m.pages

-- The removal of the mapping at an address whose block starts at `i`.
pub unmap_at :
    (addr i order : ℕ) (m : Memory)
    → page_index_of addr ≡ i
    → m.vaddrs.order i ≡ some order
    → unmap_phaddr_in_kernel addr m
      ≡ some (record m {
        kernel_page_tables = unmap_loop (2 ^ order) 0 i m.kernel_page_tables;
        vaddrs = vaddr_free i m.vaddrs;
      })
unfolding unmap_phaddr_in_kernel
unmap_at addr i order m back =
    subst
      (λ (k : ℕ).
        m.vaddrs.order k ≡ some order
        → unmap_phaddr_in_kernel addr m
          ≡ some (record m {
            kernel_page_tables = unmap_loop (2 ^ order) 0 k m.kernel_page_tables;
            vaddrs = vaddr_free k m.vaddrs;
          }))
      back (λ marked. rw (unmap_phaddr_in_kernel, marked) refl)

module _ (f : Lists) (frame order : ℕ) (m : Memory) (v : Inv kernel_memory_pages m.vaddrs.links f)
    (small : order < 16) (fits : (frame + 2 ^ order) * page_size ≤ 2 ^ 32) where
  index_back :
      (i : ℕ)
      → i < kernel_memory_pages
      → page_index_of (u32 (kernel_memory_base + i * page_size)) ≡ i
  unfolding page_index_of
  index_back i h = omega (arith, h)

  placed-IsUnmapped :
      (i : ℕ) (vaddrs : Pool)
      → vaddr_allocate order m.vaddrs ≡ (some i, vaddrs)
      → IsOrdered f order i
      → (m'' : Memory) × (unmap_phaddr_in_kernel
            (u32 (kernel_memory_base + i * page_size))
            (record m {
              vaddrs = vaddrs;
              kernel_page_tables =
                  map_loop (2 ^ order) 0 i (frame * page_size) m.kernel_page_tables;
            })
          ≡ some m'')
        × IsUnmapped f order i m m''
  placed-IsUnmapped i vaddrs e ordered =
      let (marked, inside, restored) =
        vaddr_allocate-vaddr_free f order i m.vaddrs vaddrs v small e ordered in
      let back : page_index_of (u32 (kernel_memory_base + i * page_size)) ≡ i =
        index_back i (omega (arith, inside, pow-pos order)) in
      let placed = map_loop (2 ^ order) 0 i (frame * page_size) m.kernel_page_tables in
      let m1 = record m {
        vaddrs = vaddr_free i vaddrs;
        kernel_page_tables = unmap_loop (2 ^ order) 0 i placed;
      } in
      (
        m1,
        unmap_at _ i order _ back marked,
        record {
          vaddrs = restored;
          cleared = λ j a b. ground (arith, unmap_loop_lem (2 ^ order) 0 i placed j, a, b);
          kept = λ j h. ground (
            arith,
            h,
            unmap_loop_lem (2 ^ order) 0 i placed j,
            map_loop_lem (2 ^ order) 0 i (frame * page_size) m.kernel_page_tables j
                (omega (arith, fits)),
          );
          pages = refl;
        },
      )

  allocated :
      {r : Option ℕ × Pool} → vaddr_allocate order m.vaddrs ≡ r → allocate order m.vaddrs ≡ r
  unfolding vaddr_allocate
  allocated e = e

  by_result :
      (r : Option ℕ × Pool) (addr : ℕ) (m' : Memory)
      → vaddr_allocate order m.vaddrs ≡ r
      → place_mapping (frame * page_size) order m r ≡ (addr, m')
      → addr ≢ 0
      → IsOrdered f order (page_index_of addr)
      → (m'' : Memory) × (unmap_phaddr_in_kernel addr m' ≡ some m'')
        × IsUnmapped f order (page_index_of addr) m m''
  unfolding place_mapping
  by_result (none, vaddrs) addr m' e q ne ordered = absurd (ne (sym (ap (λ x. x.0) q)))
  by_result (some i, vaddrs) addr m' e q ne ordered =
      let a : u32 (kernel_memory_base + i * page_size) ≡ addr = ap (λ x. x.0) q in
      let inside : i + 2 ^ order ≤ kernel_memory_pages =
        allocated_inside m.vaddrs v (omega (arith, small)) (allocated e) in
      let back : page_index_of (u32 (kernel_memory_base + i * page_size)) ≡ i =
        index_back i (omega (arith, inside, pow-pos order)) in
      let same : page_index_of addr ≡ i = rw a at back in
      let (m'', r, u) = placed-IsUnmapped i vaddrs e (rw same at ordered) in
      subst
        (λ (x : ℕ × Memory).
          (m2 : Memory) × (unmap_phaddr_in_kernel x.0 x.1 ≡ some m2)
          × IsUnmapped f order (page_index_of x.0) m m2)
        q (m'', r, rw back u)

  -- For an order below 16, frames below 4 GiB and a well-formed pool of kernel addresses: if
  -- `map_phaddr_in_kernel` returns an address that is not NULL, and before it a free block at the
  -- buddy of a block around the one it takes, of its order up to 14, had that buddy's order, then
  -- `unmap_phaddr_in_kernel` of the address succeeds: the same kernel addresses are free as before,
  -- in a well-formed pool, the entries of the block are 0, and the others are as before the mapping.
  pub map_phaddr_in_kernel-unmap :
      (addr : ℕ) (m' : Memory)
      → map_phaddr_in_kernel (frame * page_size) order m ≡ (addr, m')
      → addr ≢ 0
      → IsOrdered f order (page_index_of addr)
      → (m'' : Memory) × (unmap_phaddr_in_kernel addr m' ≡ some m'')
        × IsUnmapped f order (page_index_of addr) m m''
  unfolding map_phaddr_in_kernel
  map_phaddr_in_kernel-unmap addr m' e ne ordered =
      by_result (vaddr_allocate order m.vaddrs) addr m' refl e ne ordered
