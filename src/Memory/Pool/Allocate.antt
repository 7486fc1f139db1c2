-- ===== src/Memory/Pool/Allocate.antt =====
-- `page_allocate` and `vaddr_allocate` against the set of the free elements.
use borfos.Common.{
  ==_self, ◌⊎◌, ℕ, zero, suc, ◌+◌, ◌-◌, ◌*◌, ◌/◌, ◌^◌, ◌≤◌, ◌<◌, ◌≡◌, ◌↔◌, inl, inr, refl, true,
  false, List, [], ◌∷◌, arith, ◌==◌, has, Bool-cases, false_of, Option, none, some,
}
use borfos.Links.{Links, list_remove, list_is_empty}
use borfos.Links.Ring.{Ring}
use borfos.Links.Remove.{list_is_empty_iff}
use borfos.Memory.Pool.{Pool, node, element, set_order, find_order, split_loop, allocate}
use borfos.Memory.Pool.Inv.{Lists, put, nodes, InBlock, IsFree, Inv}
use borfos.Memory.Pool.Take.{take-Inv, take-IsFree, not_left, put-listed, taken-listed}
use borfos.Memory.Pool.Ready.{IsUpper, IsReady, split_loop-IsReady}

-- The search ends at the first order from `o` on whose list is not empty, or at 16.
find_order_lem :
    (rounds o : ℕ) (l : Links)
    → o + rounds ≡ 16
    → (o ≤ find_order rounds o l)
      × (find_order rounds o l ≤ 16)
      × ((p : ℕ) → o ≤ p → p < find_order rounds o l → list_is_empty l p ≡ true)
      × (find_order rounds o l < 16 → list_is_empty l (find_order rounds o l) ≡ false)
unfolding find_order
find_order_lem zero o l h =
    (omega arith, omega arith, λ p a b. absurd (omega arith), λ a. absurd (omega arith))
find_order_lem (suc rounds) o l h = elim (Bool-cases (list_is_empty l o)) [
  | inr e ↦ rw e (omega arith, omega arith, λ p a b. absurd (omega arith), λ a. e)
  | inl e ↦
      let (a, b, c, d) = find_order_lem rounds (o + 1) l (omega arith) in
      rw e (
        omega arith,
        b,
        λ p m n. elim (Bool-cases (p == o)) [
          | inl k ↦ let q : p ≡ o = ground (arith, k) in rw q e
          | inr k ↦ c p (ground (arith, k)) n
        ],
        d,
      )
]

-- What an allocation of the block of `order` at `index` does, `p'` being the pool after it.
pub record IsAllocated (count : ℕ) (f : Lists) (order : ℕ) (p : Pool) (index : ℕ) (p' : Pool)
    : Type 0 where
  pub lists : Lists
  pub inv : Inv count p'.links lists
  pub aligned : index ≡ index / 2 ^ order * 2 ^ order
  pub was_free : (x : ℕ) → InBlock order index x → IsFree f x
  pub now_free : (x : ℕ) → IsFree lists x ↔ (IsFree f x × (InBlock order index x → ⊥))
  pub pieces :
      (o k : ℕ) → o < 16 → has k (lists o) ≡ true → (has k (f o) ≡ true) ⊎ IsUpper order index o k
  pub orders : p'.order ≡ set_order p.order index (some order)

abbrev pub AllocationOutcome : ℕ → Lists → ℕ → Pool → Option ℕ × Pool → Type 0
AllocationOutcome count f order p (none, p') = (p' ≡ p) × ((o : ℕ) → order ≤ o → o < 16 → f o ≡ [])
AllocationOutcome count f order p (some index, p') = IsAllocated count f order p index p'

-- The last lines of the allocation, when the list of `order` has a block.
take_first :
    {count : ℕ}
    → (f : Lists) (order : ℕ) (p : Pool) (l : Links) → order < 16
    → IsReady count f order l
    → IsAllocated count f order p (element (l.next order)) (record {
      links = list_remove l (l.next order);
      order = set_order p.order (element (l.next order)) (some order);
    })
take_first f order p l small r =
    let g = r.lists in
    let i = r.first in
    let ring : Ring l order (node i ∷ nodes r.rest) = rw r.head at (r.inv.rings order small) in
    let en : l.next order ≡ node i = ring.chain.0 in
    let ee : element (node i) ≡ i = omega arith in
    let listed : has i (g order) ≡ true = taken-listed order i [] r.rest r.inv small r.head in
    rw en (
      rw ee (record {
        lists = put g order r.rest;
        inv = take-Inv order i [] r.rest r.inv small r.head;
        aligned = r.inv.aligned order i small listed;
        was_free = λ x b.
            (r.same x).1
              (record { order = order; first = i; small = small; listed = listed; inside = b });
        now_free = λ x.
            let t = take-IsFree order i [] r.rest r.inv small r.head x in
            (
              λ a. let (b, out) = t.0 a in ((r.same x).1 b, out),
              λ (a, out). t.1 ((r.same x).0 a, out),
            );
        pieces = λ o k h m.
            elim (r.origin o k h (put-listed order i [] r.rest r.inv small r.head o k m)) [
              | inl a ↦ inl a
              | inr (inr c) ↦ inr c
              | inr (inl (c, d)) ↦ absurd (gone o k c d m)
            ];
        orders = refl;
      }))
  where
    gone : (o k : ℕ) → o ≡ order → k ≡ r.first → has k (put r.lists order r.rest o) ≡ true → ⊥
    gone o k c d m =
        let m' : has r.first (put r.lists order r.rest order) ≡ true = rw c at (rw d at m) in
        false_of (rw (==_self order) at m') (not_left order r.first [] r.rest r.inv small r.head)

-- `page_allocate` (and `vaddr_allocate`, which is the same code) on a well-formed pool, for an
-- order up to 16. NULL is returned only if no list from `order` on has a block, and then nothing
-- changed. Otherwise the block is aligned, every element of it was free, the pool is well formed
-- again, exactly the other free elements are still free, and only the block's `order` was set.
pub allocate-AllocationOutcome :
    (count : ℕ) (f : Lists) (order : ℕ) (p : Pool)
    → Inv count p.links f
    → order ≤ 16
    → AllocationOutcome count f order p (allocate order p)
unfolding allocate
allocate-AllocationOutcome count f order p v h =
    let (a, b, c, d) = find_order_lem (16 - order) order p.links (omega arith) in
    let o = find_order (16 - order) order p.links in
    elim (Bool-cases (o == 16)) [
      | inl e ↦
          let q : o ≡ 16 = ground (arith, e) in
          rw e (refl, λ k m n. empty_of p.links f v k n (c k m (rw q n)))
      | inr e ↦
          let small : o < 16 = ground (arith, e, b) in
          let s : order + (o - order) ≡ o = omega arith in
          rw e (
            take_first f order p (split_loop (o - order) order p.links) (omega arith) (
              split_loop-IsReady (o - order) order p.links f v (omega arith)
                (λ z. false_of (full_of p.links f v o small (rw s at z)) (d small))
                (λ k m n. empty_of p.links f v k (omega (arith, n)) (c k m (rw s at n)))))
    ]
  where
    empty_of :
        {count : ℕ}
        → (l : Links) (f : Lists) → Inv count l f
        → (k : ℕ) → k < 16
        → list_is_empty l k ≡ true
        → f k ≡ []
    empty_of l f v k small t =
        no_nodes (f k) ((list_is_empty_iff l k (nodes (f k)) (v.rings k small)).0 t)
      where
        no_nodes : (xs : List ℕ) → nodes xs ≡ [] → xs ≡ []
        no_nodes [] z = refl
        no_nodes (x ∷ xs) z = absurd (cc)

    full_of :
        {count : ℕ}
        → (l : Links) (f : Lists) → Inv count l f
        → (k : ℕ) → k < 16
        → f k ≡ []
        → list_is_empty l k ≡ true
    full_of l f v k small z = (list_is_empty_iff l k (nodes (f k)) (v.rings k small)).1 (rw z refl)
