-- ===== src/Memory/Started/Tests.antt =====
-- The first page, on a machine of eight mebibytes.
use borfos.Common.{◌≡◌, refl, arith, inl, inr, ◌∙◌}
use borfos.Memory.Kernel.{kernel_page_allocate}
use borfos.Memory.Pages.{IsGiven}
use borfos.Memory.Setup.{mem_constructor}
use borfos.Memory.Setup.Tests.{entries, at, mbi, start, constructed, size}
use borfos.Memory.Started.{running, constructed-IsGiven}

found : (mem_constructor at 3 0xc0104000 mbi start).memory_size ≡ 0x800000
found = constructed.size ∙ size

constructed-IsGiven_example :
    IsGiven constructed.pools.pages.lists constructed.pools.vaddrs.lists 0
      (running (mem_constructor at 3 0xc0104000 mbi start))
      (kernel_page_allocate 0 (running (mem_constructor at 3 0xc0104000 mbi start))).0
      (kernel_page_allocate 0 (running (mem_constructor at 3 0xc0104000 mbi start))).1
constructed-IsGiven_example =
    constructed-IsGiven entries 0xc0104000 0x700 start (mem_constructor at 3 0xc0104000 mbi start)
      constructed (omega (arith, constructed.exact, found))
      (omega (arith, constructed.exact, constructed.close, found))
      (inr (
        inr (
          inl (record {
            usable = refl;
            low = omega arith;
            starts = omega (arith, found);
            from = omega arith;
            behind = omega (arith, constructed.exact, constructed.close, found);
            to = omega arith;
          }))))
