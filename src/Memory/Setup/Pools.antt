-- ===== src/Memory/Setup/Pools.antt =====
-- The state that `CONSTRUCTOR(mem)` leaves.
use borfos.Common.{ℕ, ◌+◌, ◌-◌, u32, ◌*◌, ◌/◌, ◌^◌, ◌≤◌, ◌<◌, ◌≡◌, ◌↔◌, refl, arith, List, none}
use mathlib.Core.Path.{subst}
use borfos.Common.{ap, sym, ◌∙◌, inl, inr}
use borfos.Memory.Pool.{Pool}
use borfos.Memory.Pool.Fill.{add_to_pool-IsAdded}
use borfos.Memory.Setup.{
  MemoryMap, add_range, add_regions, with_lists, init_vaddrs, init_pages, fill_pools,
}
use borfos.Memory.Setup.Init.{
  empty, empty-not-free, init_vaddrs-Inv, init_vaddrs-order, init_pages-pages, init_pages-same,
  init_pages-unmapped,
}
use borfos.Memory.Setup.Regions.{InMap, IsSeparate, IsCovered, add_regions-IsFilled}
use borfos.Memory.{page_size, kernel_memory_pages, page_end}
use borfos.Memory.Pool.Inv.{Lists, IsFree, Inv}
use borfos.Memory.Setup.{MemoryState, allocate_pages}
use borfos.Memory.Boot.{IsMapped, bootheap_allocate-IsMapped}

-- There is room below 4 GiB for the kernel, the array of the pages, and two more pages.
abbrev pub HasRoom : ℕ → ℕ → Type 0
HasRoom last memory_size =
    (memory_size + page_size ≤ 2 ^ 32)
    × (last + 3 + 20 * (memory_size / page_size + 1) + 2 * page_size + 3 ≤ 2 ^ 32)

-- What the allocation of the array of the pages does.
pub record IsPlaced (s s' : MemoryState) : Type 0 where
  pub mapped : IsMapped s'.boot
  pub aligned : s'.boot.last_kernel_phaddr ≡ s'.boot.last_kernel_phaddr / page_size * page_size
  pub behind : s.boot.last_kernel_phaddr + 20 * s'.pages_count ≤ s'.boot.last_kernel_phaddr
  pub close :
      s'.boot.last_kernel_phaddr < s.boot.last_kernel_phaddr + 20 * s'.pages_count + page_size + 4
  pub count : s'.memory_size ≤ s'.pages_count * page_size
  pub exact : s'.pages_count * page_size < s'.memory_size + page_size
  pub size : s'.memory_size ≡ s.memory_size
  pub interrupts : s'.interrupts ≡ s.interrupts

pub allocate_pages-IsPlaced :
    (s : MemoryState)
    → HasRoom s.boot.last_kernel_phaddr s.memory_size
    → IsMapped s.boot
    → IsPlaced s (allocate_pages s)
unfolding allocate_pages page_end
allocate_pages-IsPlaced s (a, b) v =
    let count = u32 (s.memory_size + (page_size - 1)) / page_size in
    let boot = record s.boot { last_kernel_phaddr = u32 (s.boot.last_kernel_phaddr + 3) / 4 * 4 } in
    let (m, e, z) =
      bootheap_allocate-IsMapped (u32 (20 * count)) boot (omega (arith, a, b))
        (record { mapped = λ j k. v.mapped j (omega (arith, b, k)) }) in
    record {
      mapped = record { mapped = λ j k. m.mapped j (omega (arith, e, k, a, b)) };
      aligned = omega arith;
      behind = omega (arith, e, a, b);
      close = omega (arith, e, a, b);
      count = omega (arith, a);
      exact = omega (arith, a);
      size = refl;
      interrupts = refl;
    }

-- A pool in which just the elements of `P` are free and none is marked as allocated.
pub record IsPool (count : ℕ) (P : ℕ → Type 0) (p : Pool) : Type 0 where
  pub lists : Lists
  pub inv : Inv count p.links lists
  pub members : (x : ℕ) → IsFree lists x ↔ P x
  pub unmarked : (x : ℕ) → x < count → p.order x ≡ none

-- The addresses of the kernel that are added to their pool.
vaddrs-IsPool :
    (from : ℕ) (p : Pool)
    → IsPool kernel_memory_pages
        (λ x. (from ≤ x) × (x < kernel_memory_pages))
        (add_range from kernel_memory_pages (init_vaddrs kernel_memory_pages 0 (with_lists p)))
unfolding add_range
vaddrs-IsPool from p =
    let p0 = init_vaddrs kernel_memory_pages 0 (with_lists p) in
    let r =
      add_to_pool-IsAdded kernel_memory_pages (kernel_memory_pages - from) from kernel_memory_pages
        empty p0 (omega arith) (omega arith) (init_vaddrs-Inv kernel_memory_pages p)
        (λ x a b c. empty-not-free x c) in
    record {
      lists = r.lists;
      inv = r.inv;
      members = λ x. (
        λ a. elim ((r.now_free x).0 a) [ inl b ↦ absurd (empty-not-free x b) | inr b ↦ b ],
        λ a. (r.now_free x).1 (inr a),
      );
      unmarked = λ x h. rw r.orders (
          init_vaddrs-order kernel_memory_pages 0 (with_lists p) x
            (λ k l. absurd (omega (arith, l))) (omega (arith, h)));
    }

-- What `CONSTRUCTOR(mem)` makes of the memory, for the entries of the map.
pub record IsSetUp (entries : List MemoryMap) (s' : MemoryState) : Type 0 where
  pub pages :
      IsPool s'.pages_count (InMap s'.boot.last_kernel_phaddr s'.memory_size entries) s'.pages
  pub vaddrs :
      IsPool kernel_memory_pages
        (λ x. (s'.boot.last_kernel_phaddr / page_size ≤ x) × (x < kernel_memory_pages))
        s'.vaddrs
  pub unmapped :
      (x : ℕ) → x < s'.pages_count → (s'.kernel_vaddr x ≡ 0) × (s'.kernel_vaddr_refcnt x ≡ 0)

-- With what the lines leave alone.
abbrev pub IsFinished : List MemoryMap → MemoryState → MemoryState → Type 0
IsFinished entries s s' =
    IsSetUp entries s'
    × ((s'.boot ≡ s.boot)
        × (s'.memory_size ≡ s.memory_size)
        × (s'.pages_count ≡ s.pages_count)
        × (s'.interrupts ≡ s.interrupts))

-- The last lines.
abbrev finish : MemoryState → MemoryState
finish s = record s {
  vaddrs =
      add_range (s.boot.last_kernel_phaddr / page_size) kernel_memory_pages
        (init_vaddrs kernel_memory_pages 0 (with_lists s.vaddrs));
}

pub fill_pools-IsSetUp :
    (entries : List MemoryMap) (s : MemoryState)
    → s.boot.last_kernel_phaddr ≡ s.boot.last_kernel_phaddr / page_size * page_size
    → s.memory_size ≤ s.pages_count * page_size
    → IsCovered s.memory_size entries
    → IsSeparate s.boot.last_kernel_phaddr s.memory_size entries
    → IsFinished entries s (fill_pools entries s)
unfolding fill_pools
fill_pools-IsSetUp entries s aligned room covered separate =
    let s0 = record s { pages = with_lists s.pages } in
    let s1 = init_pages s.pages_count 0 s0 in
    let s1' = record s {
      pages = s1.pages;
      kernel_vaddr = s1.kernel_vaddr;
      kernel_vaddr_refcnt = s1.kernel_vaddr_refcnt;
    } in
    let e : s1 ≡ s1' = init_pages-same s.pages_count 0 s0 in
    let v : Inv s.pages_count s1.pages.links empty =
      rw (init_pages-pages s.pages_count 0 s0) (init_vaddrs-Inv s.pages_count s.pages) in
    let r =
      add_regions-IsFilled entries s1' empty v aligned room covered separate
        (λ x a b. empty-not-free x b) in
    let p = (add_regions entries s1').pages in
    let e2 : add_regions entries s1 ≡ record s1' { pages = p } =
      ap (λ t. add_regions entries t) e ∙ r.same in
    subst (λ t. IsFinished entries s (finish t)) (sym e2)
      (
        record {
          pages = record {
            lists = r.lists;
            inv = r.inv;
            members = λ x. (
              λ a. elim ((r.now_free x).0 a) [ inl b ↦ absurd (empty-not-free x b) | inr b ↦ b ],
              λ a. (r.now_free x).1 (inr a),
            );
            unmarked = λ x h. rw r.orders (
                rw (init_pages-pages s.pages_count 0 s0) (
                  init_vaddrs-order s.pages_count 0 s0.pages x (λ k l. absurd (omega (arith, l)))
                    (omega (arith, h))));
          };
          vaddrs = vaddrs-IsPool (s.boot.last_kernel_phaddr / page_size) s.vaddrs;
          unmapped = λ x h.
              init_pages-unmapped s.pages_count 0 s0 x (λ k l. absurd (omega (arith, l)))
                (omega (arith, h));
        },
        (refl, refl, refl, refl),
      )
