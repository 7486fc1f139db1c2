-- ===== src/Multiboot.antt =====
-- kernel/boot/mboot.c and kernel/include/multiboot.h: what the kernel keeps of the information of the
-- boot loader. `strlen` is a parameter; the modules are the entries of the array at `mods_addr`.
pub mod Reserved
mod Tests
use Prim.Native.Nat.{bit_and}
use borfos.Common.{ℕ, ◌+◌, ◌*◌, ◌^◌, Bool, not, List, [], ◌∷◌, ◌==◌, if◌then◌else◌, u32}
use borfos.Memory.{va}
use borfos.Memory.Boot.{BootMemory, reserve_up_to_phaddr_before_paging}

-- `multiboot_module_t`, the fields that are read.
pub record MultibootModule : Type 0 where
  pub end : ℕ
  pub cmdline : ℕ

-- `multiboot_info_t`, the fields that are read.
pub record MultibootInfo : Type 0 where
  pub flags : ℕ
  pub mem_upper : ℕ
  pub cmdline : ℕ
  pub mods_count : ℕ
  pub mods_addr : ℕ
  pub mmap_length : ℕ
  pub mmap_addr : ℕ

-- The information, `memory_size`, and the memory that is reserved.
pub record BootState : Type 0 where
  pub mbi : MultibootInfo
  pub memory_size : ℕ
  pub memory : BootMemory

abbrev pub has_flag : ℕ → MultibootInfo → Bool
has_flag flag mbi = not (bit_and mbi.flags flag == 0)

abbrev pub reserve : ℕ → BootState → BootState
reserve phaddr s = record s { memory = reserve_up_to_phaddr_before_paging phaddr s.memory }

module _ (strlen : ℕ → ℕ) where
  unfoldable pub take_cmdline : BootState → BootState
  take_cmdline s =
      let s1 = reserve (u32 (s.mbi.cmdline + strlen s.mbi.cmdline + 1)) s in
      if has_flag 0x4 s.mbi
      then record s1 { mbi = record s1.mbi { cmdline = va s1.mbi.cmdline } }
      else s

  unfoldable pub take_mmap : BootState → BootState
  take_mmap s =
      let s1 = reserve (u32 (s.mbi.mmap_addr + s.mbi.mmap_length)) s in
      if has_flag 0x40 s.mbi
      then record s1 { mbi = record s1.mbi { mmap_addr = va s1.mbi.mmap_addr } }
      else s

  unfoldable pub take_memory_size : BootState → BootState
  take_memory_size s =
      if has_flag 0x1 s.mbi
      then record s { memory_size = u32 (u32 (s.mbi.mem_upper + 1024) * 2 ^ 10) }
      else s

  -- The loop over the modules.
  unfoldable pub take_modules : List MultibootModule → BootState → BootState
  take_modules [] s = s
  take_modules (c ∷ modules) s =
      take_modules modules (reserve (u32 (c.cmdline + strlen c.cmdline + 1)) (reserve c.end s))

  -- An entry of the array has 16 bytes.
  unfoldable pub take_mods : List MultibootModule → BootState → BootState
  take_mods modules s =
      let s1 = take_modules modules (reserve (u32 (s.mbi.mods_addr + 16 * s.mbi.mods_count)) s) in
      if has_flag 0x8 s.mbi
      then record s1 { mbi = record s1.mbi { mods_addr = va s1.mbi.mods_addr } }
      else s

  unfoldable pub initial_process_multiboot : List MultibootModule → BootState → BootState
  initial_process_multiboot modules s =
      take_mods modules (take_memory_size (take_mmap (take_cmdline s)))
