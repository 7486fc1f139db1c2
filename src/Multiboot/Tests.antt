-- ===== src/Multiboot/Tests.antt =====
-- The theorem about the information of the boot loader with a command line and a module.
use borfos.Common.{[], ◌∷◌}
use borfos.Multiboot.{MultibootModule, BootState, initial_process_multiboot}
use borfos.Multiboot.Reserved.{IsReserved, initial_process_multiboot-IsReserved}

abbrev loaded : MultibootModule
loaded = record { end = 0x300000; cmdline = 0x280000 }

abbrev boot : BootState
boot = record {
  mbi = record {
    flags = 0x4d;
    mem_upper = 0xffff;
    cmdline = 0x9000;
    mods_count = 1;
    mods_addr = 0x9100;
    mmap_length = 120;
    mmap_addr = 0x9200;
  };
  memory_size = 0;
  memory = record {
    kernel_page_directory = λ i. 0;
    kernel_page_tables = λ i. 0;
    last_kernel_phaddr = 0x123456;
  };
}

initial_process_multiboot-IsReserved_example :
    IsReserved (λ a. 6) (loaded ∷ []) boot (initial_process_multiboot (λ a. 6) (loaded ∷ []) boot)
initial_process_multiboot-IsReserved_example =
    initial_process_multiboot-IsReserved (λ a. 6) (loaded ∷ []) boot
