-- ===== src/Memory/Release/Tests.antt =====
-- `kernel_page_allocate` and `kernel_page_free` with one free block of four pages.
use Prim.Native.Nat.{bit_xor}
use borfos.Common.{ℕ, ◌≡◌, ap, refl, arith, ◌^◌, Option, none, some}
use borfos.Links.{list_is_empty, list_insert_before, list_remove}
use borfos.Memory.{kernel_memory_pages}
use borfos.Memory.Pool.{
  Pool, page_allocate, vaddr_allocate, allocate, find_order, split_loop, split,
}
use borfos.Memory.Pool.Roundtrip.{IsRestored}
use borfos.Memory.Pool.Merge.{start}
use borfos.Memory.Pool.Free.{IsOrdered}
use borfos.Memory.Kernel.{
  Memory, kernel_page_allocate, kernel_page_free, map_allocated, page_map, phaddr_of_page,
  map_phaddr_in_kernel, place_mapping,
}
use borfos.Memory.Pages.{PageOutcome, kernel_page_allocate-PageOutcome}
use borfos.Memory.Release.{IsReleased, kernel_page_allocate-free}
use borfos.Memory.Tests.{lists, pool, memory, well_formed, listed, apart_from_four}

abbrev index_of : Option ℕ × Pool → ℕ
index_of (none, p) = 0
index_of (some i, p) = i

-- A block that is taken from the pool starts at element 4.
taken : (i : ℕ) (p : Pool) → allocate 0 pool ≡ (some i, p) → 4 ≡ i
unfolding allocate find_order split_loop split list_is_empty list_insert_before list_remove
taken i p e = ap index_of e

ordered : (i : ℕ) (p : Pool) → allocate 0 pool ≡ (some i, p) → IsOrdered lists 0 i
ordered i p e o q h k m =
    rw (← taken i p e)
      (λ t. absurd (apart_from_four o (listed q (bit_xor (start o 4) (2 ^ o)) t).1))

kernel_page_allocate-PageOutcome_example :
    PageOutcome (IsRestored 8 lists) lists lists 0 memory (kernel_page_allocate 0 memory)
unfolding page_allocate
kernel_page_allocate-PageOutcome_example =
    kernel_page_allocate-PageOutcome lists lists 0 memory (well_formed 8 (omega arith))
      (well_formed kernel_memory_pages (omega arith)) (omega arith) (omega arith)
      (λ x h. (refl, refl)) ordered

address : (kernel_page_allocate 0 memory).0 ≡ 0xc0004000
unfolding kernel_page_allocate map_allocated page_map phaddr_of_page map_phaddr_in_kernel
    place_mapping page_allocate vaddr_allocate allocate find_order split_loop split list_is_empty
    list_insert_before list_remove
address = refl

kernel_page_allocate-free_example :
    (page : ℕ) × (page_allocate 0 memory.pages
      ≡ (some page, (kernel_page_allocate 0 memory).1.pages))
    × ((kernel_page_allocate 0 memory).1.kernel_vaddr page ≡ (kernel_page_allocate 0 memory).0)
    × (m : Memory) × (kernel_page_free
          (kernel_page_allocate 0 memory).0
          (kernel_page_allocate 0 memory).1
        ≡ some m)
    × IsReleased lists lists page memory m
unfolding page_allocate vaddr_allocate
kernel_page_allocate-free_example =
    kernel_page_allocate-free lists lists 0 memory (kernel_page_allocate 0 memory).0
      (kernel_page_allocate 0 memory).1 (well_formed 8 (omega arith))
      (well_formed kernel_memory_pages (omega arith)) (omega arith) (omega arith)
      (λ x h. (refl, refl)) ordered ordered refl (λ z. omega (arith, z, address))
