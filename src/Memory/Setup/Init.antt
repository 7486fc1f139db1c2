-- ===== src/Memory/Setup/Init.antt =====
-- The loops of `CONSTRUCTOR(mem)` that initialise the lists and the elements of a pool.
use borfos.Common.{
  ℕ, zero, suc, ◌+◌, ◌≤◌, ◌<◌, ◌≡◌, refl, arith, ==_iff, none, [], ◌==◌, Bool-cases, inl, inr,
}
use borfos.Links.{Links, list_init}
use borfos.Links.Ring.{Ring}
use borfos.Memory.Pool.{Pool, node}
use borfos.Memory.Pool.Inv.{Lists, IsFree, Inv}
use borfos.Memory.Setup.{
  MemoryState, init_free_lists, init_element, init_pages, init_vaddrs, with_lists,
}

-- A node that is a list of its own.
pub record IsAlone (l : Links) (a : ℕ) : Type 0 where
  pub next : l.next a ≡ a
  pub prev : l.prev a ≡ a

list_init-IsAlone : (l : Links) (a : ℕ) → IsAlone (list_init l a) a
unfolding list_init
list_init-IsAlone l a = record { next = ground arith; prev = ground arith }

list_init-keeps : (l : Links) (a b : ℕ) → IsAlone l b → IsAlone (list_init l a) b
unfolding list_init
list_init-keeps l a b h = record {
  next = ground (arith, h.next, ==_iff b a);
  prev = ground (arith, h.prev, ==_iff b a);
}

init_free_lists-keeps :
    (rounds o : ℕ) (l : Links) (b : ℕ) → IsAlone l b → IsAlone (init_free_lists rounds o l) b
unfolding init_free_lists
init_free_lists-keeps zero o l b h = h
init_free_lists-keeps (suc rounds) o l b h =
    init_free_lists-keeps rounds (o + 1) (list_init l o) b (list_init-keeps l o b h)

init_free_lists-IsAlone :
    (rounds o : ℕ) (l : Links) (b : ℕ)
    → o ≤ b
    → b < o + rounds
    → IsAlone (init_free_lists rounds o l) b
unfolding init_free_lists
init_free_lists-IsAlone zero o l b h k = absurd (omega (arith, h, k))
init_free_lists-IsAlone (suc rounds) o l b h k = elim (Bool-cases (b == o)) [
  | inl e ↦
      let z : b ≡ o = ground (arith, e) in
      rw z (init_free_lists-keeps rounds (o + 1) (list_init l o) o (list_init-IsAlone l o))
  | inr e ↦
      init_free_lists-IsAlone rounds (o + 1) (list_init l o) b (ground (arith, e, h))
        (omega (arith, k))
]

init_vaddrs-keeps :
    (rounds i : ℕ) (p : Pool) (b : ℕ) → IsAlone p.links b → IsAlone (init_vaddrs rounds i p).links b
unfolding init_vaddrs init_element
init_vaddrs-keeps zero i p b h = h
init_vaddrs-keeps (suc rounds) i p b h =
    init_vaddrs-keeps rounds (i + 1) (init_element i p) b (list_init-keeps p.links (node i) b h)

init_vaddrs-IsAlone :
    (rounds i : ℕ) (p : Pool) (j : ℕ)
    → i ≤ j
    → j < i + rounds
    → IsAlone (init_vaddrs rounds i p).links (node j)
unfolding init_vaddrs init_element
init_vaddrs-IsAlone zero i p j h k = absurd (omega (arith, h, k))
init_vaddrs-IsAlone (suc rounds) i p j h k = elim (Bool-cases (j == i)) [
  | inl e ↦
      let z : j ≡ i = ground (arith, e) in
      rw z (
        init_vaddrs-keeps rounds (i + 1) (init_element i p) (node i)
          (list_init-IsAlone p.links (node i)))
  | inr e ↦
      init_vaddrs-IsAlone rounds (i + 1) (init_element i p) j (ground (arith, e, h))
        (omega (arith, k))
]

-- No element below `i + rounds` that the loop has reached is marked as allocated.
pub init_vaddrs-order :
    (rounds i : ℕ) (p : Pool) (j : ℕ)
    → ((k : ℕ) → k < i → p.order k ≡ none)
    → j < i + rounds
    → (init_vaddrs rounds i p).order j ≡ none
unfolding init_vaddrs init_element
init_vaddrs-order zero i p j h k = h j (omega (arith, k))
init_vaddrs-order (suc rounds) i p j h k =
    init_vaddrs-order rounds (i + 1) (init_element i p) j
      (λ m n. elim (Bool-cases (m == i)) [
        | inl e ↦ rw e refl
        | inr e ↦ rw e (h m (ground (arith, e, n)))
      ])
      (omega (arith, k))

abbrev pub empty : Lists
empty o = []

pub empty-not-free : (x : ℕ) → IsFree empty x → ⊥
empty-not-free x a = cc

-- An initialised pool is well formed, and nothing in it is free.
pub init_vaddrs-Inv :
    (count : ℕ) (p : Pool) → Inv count (init_vaddrs count 0 (with_lists p)).links empty
init_vaddrs-Inv count p = record {
  rings = λ o h. ring o (
      init_vaddrs-keeps count 0 (with_lists p) o
        (init_free_lists-IsAlone 16 0 p.links o (omega arith) (omega (arith, h))));
  aligned = λ o i h k. cc;
  within = λ o i h k. cc;
  apart = λ o p i j x h k m n. cc;
  alone = λ i h k.
      ring (node i) (init_vaddrs-IsAlone count 0 (with_lists p) i (omega arith) (omega (arith, h)));
}
  where
    ring : {l : Links} (a : ℕ) → IsAlone l a → Ring l a []
    ring a h = record { chain = (h.next, h.prev); distinct = (refl, tt) }

-- The loop over the pages is the same loop, and clears two fields of each.
pub init_pages-pages :
    (rounds i : ℕ) (s : MemoryState) → (init_pages rounds i s).pages ≡ init_vaddrs rounds i s.pages
unfolding init_pages init_vaddrs
init_pages-pages zero i s = refl
init_pages-pages (suc rounds) i s = init_pages-pages rounds (i + 1) _

pub init_pages-same :
    (rounds i : ℕ) (s : MemoryState)
    → init_pages rounds i s ≡ record s {
      pages = (init_pages rounds i s).pages;
      kernel_vaddr = (init_pages rounds i s).kernel_vaddr;
      kernel_vaddr_refcnt = (init_pages rounds i s).kernel_vaddr_refcnt;
    }
unfolding init_pages
init_pages-same zero i s = refl
init_pages-same (suc rounds) i s = init_pages-same rounds (i + 1) _

-- No page below `i + rounds` that the loop has reached is mapped.
pub init_pages-unmapped :
    (rounds i : ℕ) (s : MemoryState) (j : ℕ)
    → ((k : ℕ) → k < i → (s.kernel_vaddr k ≡ 0) × (s.kernel_vaddr_refcnt k ≡ 0))
    → j < i + rounds
    → ((init_pages rounds i s).kernel_vaddr j ≡ 0)
      × ((init_pages rounds i s).kernel_vaddr_refcnt j ≡ 0)
unfolding init_pages
init_pages-unmapped zero i s j h k = h j (omega (arith, k))
init_pages-unmapped (suc rounds) i s j h k =
    init_pages-unmapped rounds (i + 1) _ j
      (λ m n. elim (Bool-cases (m == i)) [
        | inl e ↦ rw e (refl, refl)
        | inr e ↦ rw e (h m (ground (arith, e, n)))
      ])
      (omega (arith, k))
