-- ===== src/Multiboot/Reserved.antt =====
-- kernel/boot/mboot.c: everything that the boot loader hands over is reserved.
use Prim.Native.Nat.{bit_and}
use borfos.Common.{
  ℕ, ◌+◌, ◌*◌, ◌≤◌, ◌≡◌, refl, sym, ap, ◌∙◌, not, inl, inr, List, [], ◌∷◌, ltb, ◌==◌, arith,
  Bool-cases, if◌then◌else◌, u32,
}
use borfos.Memory.Boot.{reserve_up_to_phaddr_before_paging}
use borfos.Multiboot.{
  MultibootModule, MultibootInfo, BootState, has_flag, reserve, take_cmdline, take_mmap,
  take_memory_size, take_modules, take_mods, initial_process_multiboot,
}

-- The first physical address that is not reserved.
abbrev pub limit : BootState → ℕ
limit s = s.memory.last_kernel_phaddr

reserve-limit :
    (a : ℕ) (s : BootState) → (a ≤ limit (reserve a s)) × (limit s ≤ limit (reserve a s))
unfolding reserve_up_to_phaddr_before_paging
reserve-limit a s = elim (Bool-cases (ltb s.memory.last_kernel_phaddr a)) [
  | inl e ↦ rw e (omega arith, ground (arith, e))
  | inr e ↦ rw e (ground (arith, e), omega arith)
]

module _ (strlen : ℕ → ℕ) where
  -- The modules and their command lines lie below the limit.
  abbrev pub AreReserved : List MultibootModule → BootState → Type 0
  AreReserved [] s = Unit
  AreReserved (c ∷ modules) s =
      (c.end ≤ limit s) × (u32 (c.cmdline + strlen c.cmdline + 1) ≤ limit s) × AreReserved modules s

  take_modules-limit :
      (modules : List MultibootModule) (s : BootState)
      → (limit s ≤ limit (take_modules strlen modules s))
        × AreReserved modules (take_modules strlen modules s)
  unfolding take_modules
  take_modules-limit [] s = (omega arith, tt)
  take_modules-limit (c ∷ modules) s =
      let s1 = reserve c.end s in
      let s2 = reserve (u32 (c.cmdline + strlen c.cmdline + 1)) s1 in
      let (a, b) = reserve-limit c.end s in
      let (d, e) = reserve-limit (u32 (c.cmdline + strlen c.cmdline + 1)) s1 in
      let (g, h) = take_modules-limit modules s2 in
      (omega (arith, b, e, g), (omega (arith, a, e, g), omega (arith, d, g), h))

  -- The ends of what the flags announce, or 0.
  abbrev pub cmdline_end : MultibootInfo → ℕ
  cmdline_end mbi = if has_flag 0x4 mbi then u32 (mbi.cmdline + strlen mbi.cmdline + 1) else 0

  abbrev pub mmap_end : MultibootInfo → ℕ
  mmap_end mbi = if has_flag 0x40 mbi then u32 (mbi.mmap_addr + mbi.mmap_length) else 0

  abbrev pub mods_end : MultibootInfo → ℕ
  mods_end mbi = if has_flag 0x8 mbi then u32 (mbi.mods_addr + 16 * mbi.mods_count) else 0

  abbrev pub announced : List MultibootModule → MultibootInfo → List MultibootModule
  announced modules mbi = if has_flag 0x8 mbi then modules else []

  -- What is reserved: the limit does not go down, and what the flags announce lies below it.
  pub record IsReserved (modules : List MultibootModule) (s s' : BootState) : Type 0 where
    pub grows : limit s ≤ limit s'
    pub cmdline : cmdline_end s.mbi ≤ limit s'
    pub map_in : mmap_end s.mbi ≤ limit s'
    pub array : mods_end s.mbi ≤ limit s'
    pub modules_in : AreReserved (announced modules s.mbi) s'

  -- The first two parts: the limit, and the fields that later parts read.
  cmdline-step :
      (s : BootState)
      → (limit s ≤ limit (take_cmdline strlen s))
        × (cmdline_end s.mbi ≤ limit (take_cmdline strlen s))
        × ((take_cmdline strlen s).mbi.flags ≡ s.mbi.flags)
        × ((take_cmdline strlen s).mbi.mmap_addr ≡ s.mbi.mmap_addr)
        × ((take_cmdline strlen s).mbi.mmap_length ≡ s.mbi.mmap_length)
        × ((take_cmdline strlen s).mbi.mods_addr ≡ s.mbi.mods_addr)
        × ((take_cmdline strlen s).mbi.mods_count ≡ s.mbi.mods_count)
  unfolding take_cmdline
  cmdline-step s = elim (Bool-cases (has_flag 0x4 s.mbi)) [
    | inl e ↦
        let (a, b) = reserve-limit (u32 (s.mbi.cmdline + strlen s.mbi.cmdline + 1)) s in
        rw e (b, a, refl, refl, refl, refl, refl)
    | inr e ↦ rw e (omega arith, omega arith, refl, refl, refl, refl, refl)
  ]

  mmap-step :
      (s : BootState)
      → (limit s ≤ limit (take_memory_size strlen (take_mmap strlen s)))
        × (mmap_end s.mbi ≤ limit (take_memory_size strlen (take_mmap strlen s)))
        × ((take_memory_size strlen (take_mmap strlen s)).mbi.flags ≡ s.mbi.flags)
        × ((take_memory_size strlen (take_mmap strlen s)).mbi.mods_addr ≡ s.mbi.mods_addr)
        × ((take_memory_size strlen (take_mmap strlen s)).mbi.mods_count ≡ s.mbi.mods_count)
  unfolding take_mmap take_memory_size
  mmap-step s =
      let (a, b) = reserve-limit (u32 (s.mbi.mmap_addr + s.mbi.mmap_length)) s in
      elim (Bool-cases (has_flag 0x40 s.mbi)) [
        | inl e ↦ elim (Bool-cases (has_flag 0x1 s.mbi)) [
          | inl f ↦ rw (e, f) (b, a, refl, refl, refl)
          | inr f ↦ rw (e, f) (b, a, refl, refl, refl)
        ]
        | inr e ↦ elim (Bool-cases (has_flag 0x1 s.mbi)) [
          | inl f ↦ rw (e, f) (omega arith, omega arith, refl, refl, refl)
          | inr f ↦ rw (e, f) (omega arith, omega arith, refl, refl, refl)
        ]
      ]

  mods-step :
      (modules : List MultibootModule) (s : BootState)
      → (limit s ≤ limit (take_mods strlen modules s))
        × (mods_end s.mbi ≤ limit (take_mods strlen modules s))
        × AreReserved (announced modules s.mbi) (take_mods strlen modules s)
  unfolding take_mods
  mods-step modules s =
      let x = u32 (s.mbi.mods_addr + 16 * s.mbi.mods_count) in
      let (a, b) = reserve-limit x s in
      let (g, h) = take_modules-limit modules (reserve x s) in
      elim (Bool-cases (has_flag 0x8 s.mbi)) [
        | inl e ↦ rw e (
          omega (arith, b, g),
          omega (arith, a, g),
          moved modules (take_modules strlen modules (reserve x s)) _ refl h,
        )
        | inr e ↦ rw e (omega arith, omega arith, tt)
      ]
    where
      moved :
          (modules : List MultibootModule) (s s' : BootState)
          → limit s ≡ limit s'
          → AreReserved modules s
          → AreReserved modules s'
      moved [] s s' e r = tt
      moved (c ∷ modules) s s' e (a, b, r) =
          (omega (arith, a, e), omega (arith, b, e), moved modules s s' e r)

  mods_end_eq :
      (a b : MultibootInfo)
      → a.flags ≡ b.flags
      → a.mods_addr ≡ b.mods_addr
      → a.mods_count ≡ b.mods_count
      → mods_end a ≡ mods_end b
  mods_end_eq a b e f g = rw (e, f, g) refl

  -- The command line, the map of the memory, the array of the modules, and the end and the command
  -- line of each module, as far as the flags announce them, lie below the limit of what is reserved, which
  -- does not go down.
  pub initial_process_multiboot-IsReserved :
      (modules : List MultibootModule) (s : BootState)
      → IsReserved modules s (initial_process_multiboot strlen modules s)
  unfolding initial_process_multiboot
  initial_process_multiboot-IsReserved modules s =
      let s1 = take_cmdline strlen s in
      let s2 = take_memory_size strlen (take_mmap strlen s1) in
      let (grow1, line, flags1, map_addr, map_length, addr1, count1) = cmdline-step s in
      let (grow2, map_end, flags2, addr2, count2) = mmap-step s1 in
      let (grow3, array, inside) = mods-step modules s2 in
      let m : mmap_end s.mbi ≡ mmap_end s1.mbi = rw (flags1, map_addr, map_length) refl in
      let n : mods_end s.mbi ≡ mods_end s2.mbi =
        mods_end_eq s.mbi s2.mbi (sym (flags2 ∙ flags1)) (sym (addr2 ∙ addr1))
          (sym (count2 ∙ count1)) in
      let k : announced modules s.mbi ≡ announced modules s2.mbi =
        ap (λ f. if not (bit_and f 0x8 == 0) then modules else []) (sym (flags2 ∙ flags1)) in
      record {
        grows = omega (arith, grow1, grow2, grow3);
        cmdline = omega (arith, line, grow2, grow3);
        map_in = omega (arith, map_end, m, grow3);
        array = omega (arith, array, n);
        modules_in = rw k inside;
      }
