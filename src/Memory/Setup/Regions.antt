-- ===== src/Memory/Setup/Regions.antt =====
-- Which pages the second loop of `CONSTRUCTOR(mem)` adds to their pool.
use mathlib.Core.Path.{subst}
use borfos.Common.{
  ◌∙◌, sym, ℕ, ◌+◌, ◌-◌, ◌*◌, ◌/◌, ◌^◌, ◌≤◌, ◌<◌, ◌≡◌, ◌⊎◌, ◌↔◌, inl, inr, refl, List, [], ◌∷◌,
  arith, Bool-cases, u32, u64, leb, if◌then◌else◌, not,
}
use borfos.Memory.{page_size}
use borfos.Memory.Pool.Inv.{Lists, IsFree, Inv}
use borfos.Memory.Pool.Fill.{add_to_pool-IsAdded}
use borfos.Memory.Setup.{
  MemoryMap, MemoryState, map_end, is_memory, add_range, add_region, add_regions,
}

-- Page `x` belongs to a region of available memory below 4 GiB that starts below `memory_size`,
-- rounded to whole pages on both sides, and does not lie below `last`.
pub record InRegion (last memory_size : ℕ) (m : MemoryMap) (x : ℕ) : Type 0 where
  pub usable : m.type ≡ 1
  pub low : m.base_addr + m.length < 2 ^ 32
  pub starts : m.base_addr < memory_size
  pub from : m.base_addr < (x + 1) * page_size
  pub behind : last < (x + 1) * page_size
  pub to : x * page_size < m.base_addr + m.length

abbrev pub InMap : ℕ → ℕ → List MemoryMap → ℕ → Type 0
InMap last memory_size [] x = ⊥
InMap last memory_size (m ∷ entries) x =
    InRegion last memory_size m x ⊎ InMap last memory_size entries x

-- No page belongs to two regions.
abbrev pub IsSeparate : ℕ → ℕ → List MemoryMap → Type 0
IsSeparate last memory_size [] = Unit
IsSeparate last memory_size (m ∷ entries) =
    ((x : ℕ) → InRegion last memory_size m x → InMap last memory_size entries x → ⊥)
    × IsSeparate last memory_size entries

-- The ends of the entries are 64-bit numbers, and those of available memory below 4 GiB are at most
-- `memory_size`.
abbrev pub IsCovered : ℕ → List MemoryMap → Type 0
IsCovered memory_size [] = Unit
IsCovered memory_size (m ∷ entries) =
    (m.base_addr + m.length < 2 ^ 64)
    × (m.type ≡ 1 → m.base_addr + m.length < 2 ^ 32 → m.base_addr + m.length ≤ memory_size)
    × IsCovered memory_size entries

-- What an addition to the pool of the pages leaves of the rest of the state.
pub record IsFilled (f : Lists) (P : ℕ → Type 0) (s s' : MemoryState) : Type 0 where
  pub lists : Lists
  pub inv : Inv s.pages_count s'.pages.links lists
  pub now_free : (x : ℕ) → IsFree lists x ↔ (IsFree f x ⊎ P x)
  pub orders : s'.pages.order ≡ s.pages.order
  pub same : s' ≡ record s { pages = s'.pages }

eta : (s : MemoryState) → s ≡ record s { pages = s.pages }
eta s = refl

module _ (s : MemoryState) (f : Lists) (m : MemoryMap) (v : Inv s.pages_count s.pages.links f)
    (aligned : s.boot.last_kernel_phaddr ≡ s.boot.last_kernel_phaddr / page_size * page_size)
    (room : s.memory_size ≤ s.pages_count * page_size) (word : m.base_addr + m.length < 2 ^ 64)
    (covered : m.type ≡ 1
      → m.base_addr + m.length < 2 ^ 32
      → m.base_addr + m.length ≤ s.memory_size)
    (out : (x : ℕ) → InRegion s.boot.last_kernel_phaddr s.memory_size m x → IsFree f x → ⊥) where
  abbrev last : ℕ
  last = s.boot.last_kernel_phaddr

  abbrev Region : ℕ → Type 0
  Region = InRegion last s.memory_size m

  skipped : ((x : ℕ) → Region x → ⊥) → IsFilled f Region s s
  skipped h = record {
    lists = f;
    inv = v;
    now_free = λ x. (λ a. inl a, λ a. elim a [ inl b ↦ b | inr b ↦ absurd (h x b) ]);
    orders = refl;
    same = eta s;
  }

  abbrev first_page : ℕ
  first_page = (if leb (u32 m.base_addr) last then last else u32 m.base_addr) / page_size

  abbrev end_page : ℕ
  end_page = u32 (u64 (map_end m + (page_size - 1)) / page_size)

  -- The pages that are added are those of the region.
  range_iff :
      m.type ≡ 1
      → m.base_addr + m.length < 2 ^ 32
      → u32 m.base_addr < s.memory_size
      → (x : ℕ) → ((first_page ≤ x) × (x < end_page)) ↔ Region x
  range_iff usable low starts x = (
    λ (a, b). record {
      usable = usable;
      low = low;
      starts = ground (arith, low, starts);
      from = ground (arith, a, low);
      behind = ground (arith, a, aligned);
      to = ground (arith, b, low);
    },
    λ r. (ground (arith, r.from, r.behind, aligned, low), ground (arith, r.to, low)),
  )

  added :
      m.type ≡ 1
      → (map_end m / 2 ^ 32) ≡ 0
      → u32 m.base_addr < s.memory_size
      → IsFilled f Region s (record s { pages = add_range first_page end_page s.pages })
  unfolding add_range
  added usable high starts =
      let low : m.base_addr + m.length < 2 ^ 32 = omega (arith, high, word) in
      let iff = range_iff usable low starts in
      let r =
        add_to_pool-IsAdded s.pages_count (end_page - first_page) first_page end_page f s.pages
          (omega arith) (omega (arith, covered usable low, room, low)) v
          (λ x a b c. out x ((iff x).0 (a, b)) c) in
      record {
        lists = r.lists;
        inv = r.inv;
        now_free = λ x. (
          λ a. elim ((r.now_free x).0 a) [ inl b ↦ inl b | inr b ↦ inr ((iff x).0 b) ],
          λ a. (r.now_free x).1 (elim a [ inl b ↦ inl b | inr b ↦ inr ((iff x).1 b) ]),
        );
        orders = r.orders;
        same = refl;
      }

  pub add_region-IsFilled : IsFilled f Region s (add_region m s)
  unfolding add_region
  add_region-IsFilled = elim (Bool-cases (not (is_memory m))) [
    | inl e ↦ rw e (skipped (λ x r. ground (arith, e, r.usable, r.low)))
    | inr e ↦ elim (Bool-cases (leb (map_end m) last)) [
      | inl e1 ↦ rw (e, e1) (skipped (λ x r. ground (arith, e1, r.behind, r.to, aligned, word)))
      | inr e1 ↦ elim (Bool-cases (leb s.memory_size (u32 m.base_addr))) [
        | inl e2 ↦ rw (e, e1, e2) (skipped (λ x r. ground (arith, e2, r.starts, r.low)))
        | inr e2 ↦
            rw (e, e1, e2) (added (ground (arith, e)) (ground (arith, e)) (ground (arith, e2)))
      ]
    ]
  ]

-- One addition behind another.
both :
    {f : Lists} {P Q : ℕ → Type 0} {s s1 s2 : MemoryState} (a : IsFilled f P s s1)
    → IsFilled a.lists Q (record s { pages = s1.pages }) s2
    → IsFilled f (λ x. P x ⊎ Q x) s s2
both a r = record {
  lists = r.lists;
  inv = r.inv;
  now_free = λ x. (
    λ b. elim ((r.now_free x).0 b) [
      | inl c ↦ elim ((a.now_free x).0 c) [ inl d ↦ inl d | inr d ↦ inr (inl d) ]
      | inr c ↦ inr (inr c)
    ],
    λ b. (r.now_free x).1 (elim b [
      | inl c ↦ inl ((a.now_free x).1 (inl c))
      | inr (inl c) ↦ inl ((a.now_free x).1 (inr c))
      | inr (inr c) ↦ inr c
    ]),
  );
  orders = r.orders ∙ a.orders;
  same = r.same;
}

-- The free pages behind the loop over the memory map.
pub add_regions-IsFilled :
    (entries : List MemoryMap) (s : MemoryState) (f : Lists)
    → Inv s.pages_count s.pages.links f
    → s.boot.last_kernel_phaddr ≡ s.boot.last_kernel_phaddr / page_size * page_size
    → s.memory_size ≤ s.pages_count * page_size
    → IsCovered s.memory_size entries
    → IsSeparate s.boot.last_kernel_phaddr s.memory_size entries
    → ((x : ℕ) → InMap s.boot.last_kernel_phaddr s.memory_size entries x → IsFree f x → ⊥)
    → IsFilled f (InMap s.boot.last_kernel_phaddr s.memory_size entries) s (add_regions entries s)
unfolding add_regions
add_regions-IsFilled [] s f v aligned room covered separate out = record {
  lists = f;
  inv = v;
  now_free = λ x. (λ a. inl a, λ a. elim a [ inl b ↦ b | inr b ↦ absurd b ]);
  orders = refl;
  same = eta s;
}
add_regions-IsFilled (m ∷ entries) s f v aligned room covered separate out =
    let a = add_region-IsFilled s f m v aligned room covered.0 covered.1 (λ x r. out x (inl r)) in
    subst
      (λ t.
        IsFilled f (InMap s.boot.last_kernel_phaddr s.memory_size (m ∷ entries)) s
          (add_regions entries t))
      (sym a.same)
      (both a (
        add_regions-IsFilled entries (record s { pages = (add_region m s).pages }) a.lists a.inv
          aligned room covered.2 separate.1
          (λ x r b. elim ((a.now_free x).0 b) [
            | inl c ↦ out x (inr r) c
            | inr c ↦ separate.0 x c r
          ])))
