-- ===== src/Memory/Setup/Entries.antt =====
-- The walk over the memory map of the boot loader, and the memory size that it gives.
use borfos.Common.{
  ℕ, zero, suc, ◌+◌, ◌^◌, ◌≤◌, ◌<◌, ◌≡◌, refl, List, [], ◌∷◌, false, arith, u32, ltb, length, true,
  if◌then◌else◌, ◌&&◌,
}
use borfos.Memory.Setup.{MemoryMap, map_end, is_memory, map_entries, memory_size_loop}
use borfos.Memory.Setup.Regions.{IsCovered}

-- The boot loader's entries from an address up to `mmap_end`, each behind the one before it.
pub data IsMemoryMap (at : ℕ → MemoryMap) (mmap_end : ℕ) : ℕ → List MemoryMap → Type 0 where
  done : {a : ℕ} → mmap_end ≤ a → IsMemoryMap at mmap_end a []
  entry :
      {a : ℕ} {entries : List MemoryMap}
      → a < mmap_end
      → IsMemoryMap at mmap_end (u32 (a + 4 + (at a).size)) entries
      → IsMemoryMap at mmap_end a (at a ∷ entries)

-- As many rounds as there are entries are enough for the loops.
pub map_entries-enough :
    (at : ℕ → MemoryMap) (fuel a mmap_end : ℕ) (entries : List MemoryMap)
    → IsMemoryMap at mmap_end a entries
    → length entries ≤ fuel
    → map_entries at fuel a mmap_end ≡ entries
unfolding map_entries
map_entries-enough at zero a mmap_end [] h k = refl
map_entries-enough at zero a mmap_end (m ∷ entries) h k = absurd (omega (arith, k))
map_entries-enough at (suc fuel) a mmap_end _ (done h) k =
    let e : ltb a mmap_end ≡ false = ground (arith, h) in rw e refl
map_entries-enough at (suc fuel) a mmap_end _ (entry {entries = entries} h w) k =
    let e : ltb a mmap_end ≡ true = ground (arith, h) in
    rw (e, map_entries-enough at fuel _ mmap_end entries w (omega (arith, k))) refl

-- The ends of the entries are 64-bit numbers.
abbrev pub IsWord : List MemoryMap → Type 0
IsWord [] = Unit
IsWord (m ∷ entries) = (m.base_addr + m.length < 2 ^ 64) × IsWord entries

pub IsCovered-more :
    (a b : ℕ) (entries : List MemoryMap) → a ≤ b → IsCovered a entries → IsCovered b entries
IsCovered-more a b [] h c = tt
IsCovered-more a b (m ∷ entries) h c =
    (c.0, λ u l. omega (arith, c.1 u l, h), IsCovered-more a b entries h c.2)

-- The loop finds a size that no region of memory below 4 GiB goes beyond.
pub memory_size_loop-IsCovered :
    (entries : List MemoryMap) (memory_size : ℕ)
    → IsWord entries
    → (memory_size ≤ memory_size_loop entries memory_size)
      × IsCovered (memory_size_loop entries memory_size) entries
unfolding memory_size_loop
memory_size_loop-IsCovered [] memory_size w = (omega arith, tt)
memory_size_loop-IsCovered (m ∷ entries) memory_size w =
    let next =
      if is_memory m && ltb memory_size (map_end m) then u32 (map_end m) else memory_size in
    let (a, b) = memory_size_loop-IsCovered entries next w.1 in
    let grows : memory_size ≤ next = ground (arith, w.0) in
    let covers : m.type ≡ 1 → m.base_addr + m.length < 2 ^ 32 → m.base_addr + m.length ≤ next =
      λ u l. ground (arith, u, l) in
    (omega (arith, a, grows), (w.0, λ u l. omega (arith, covers u l, a), b))
