-- ===== src/Memory/Pool/Free.antt =====
-- `page_free` and `vaddr_free` against the set of the free elements.
use mathlib.Core.Path.{subst}
use borfos.Common.{ltb, sym}
use borfos.Common.{
  ℕ, zero, suc, ◌+◌, ◌-◌, ◌/◌, ◌^◌, ◌≤◌, ◌<◌, ◌≡◌, ◌↔◌, inl, inr, refl, Bool, true, false, not,
  List, [], ◌∷◌, ◌++◌, arith, has, Bool-cases, has-split, none, some, false_of,
}
use Prim.Native.Nat.{bit_xor}
use borfos.Links.{Links, list_remove, list_is_empty}
use borfos.Links.Remove.{list_is_empty_iff}
use borfos.Memory.Pool.{Pool, node, set_order, merge_loop, put_back, free, page_free}
use borfos.Memory.Pool.Inv.{Lists, put, InBlock, IsFree, Inv, pow-pos, find-listed}
use borfos.Memory.Pool.Give.{IsApart, given, give-Inv, given-IsFree, given_self}
use borfos.Memory.Pool.Aligned.{multiple}
use borfos.Memory.Pool.Merge.{
  start, IsFreeOr, block-Merged, merged-out, merged-same, merged-Inv, merged-listed, merged-fits,
}

-- Wherever the buddy of one of the blocks around `i`, from `order` on, starts a free block, that
-- block has the buddy's order. The code relies on it.
abbrev pub IsOrdered : Lists → ℕ → ℕ → Type 0
IsOrdered f order i =
    (o p : ℕ) → order ≤ o → o < 15 → p < 16 → has (bit_xor (start o i) (2 ^ o)) (f p) ≡ true → p ≡ o

-- The test on a buddy's index lets only elements of the array pass, from `order` on.
abbrev pub IsBounded : ℕ → (ℕ → Bool) → ℕ → ℕ → Type 0
IsBounded count inside order i =
    (o : ℕ)
    → order ≤ o
    → o < 15
    → inside (bit_xor (start o i) (2 ^ o)) ≡ true
    → bit_xor (start o i) (2 ^ o) < count

-- The state behind the loop, for element `i` of the block of `order` that is freed.
record IsMerged (count : ℕ) (f : Lists) (order i : ℕ) (r : (ℕ × ℕ) × Links) : Type 0 where
  lists : Lists
  inv : Inv count r.1 lists
  small : r.0.0 < 16
  first : r.0.1 ≡ start r.0.0 i
  fits : r.0.1 + 2 ^ r.0.0 ≤ count
  out : (x : ℕ) → IsFree lists x → InBlock r.0.0 r.0.1 x → ⊥
  same : (x : ℕ) → IsFreeOr lists r.0.0 r.0.1 x ↔ IsFreeOr f order (start order i) x

-- The list that has the buddy, if its node is in one.
buddy-split :
    {count : ℕ}
    → (l : Links) (f : Lists) (order i : ℕ) → Inv count l f
    → order < 15
    → IsOrdered f order i
    → bit_xor (start order i) (2 ^ order) < count
    → list_is_empty l (node (bit_xor (start order i) (2 ^ order))) ≡ false
    → (us : List ℕ) × (vs : List ℕ) × (f order ≡ us ++ bit_xor (start order i) (2 ^ order) ∷ vs)
buddy-split l f order i v small ordered bound full =
    let b = bit_xor (start order i) (2 ^ order) in
    elim (find-listed 16 f b) [
      | inr none_listed ↦
          absurd
            (false_of ((list_is_empty_iff l (node b) [] (v.alone b bound none_listed)).1 refl) full)
      | inl (p, h, k) ↦
          let q : p ≡ order = ordered order p (omega arith) small h k in
          let k' : has b (f order) ≡ true = rw q at k in has-split b (f order) k'
    ]

-- A round in front of the others.
widen :
    {count : ℕ} {f g : Lists} {o p i : ℕ} {r : (ℕ × ℕ) × Links}
    → IsMerged count g p i r
    → ((x : ℕ) → IsFreeOr g p (start p i) x ↔ IsFreeOr f o (start o i) x)
    → IsMerged count f o i r
widen m h = record {
  lists = m.lists;
  inv = m.inv;
  small = m.small;
  first = m.first;
  fits = m.fits;
  out = m.out;
  same = λ x. (λ a. (h x).0 ((m.same x).0 a), λ a. (m.same x).1 ((h x).1 a));
}

merge_loop-IsMerged :
    {count : ℕ}
    → (inside : ℕ → Bool) (rounds order i : ℕ) (l : Links) (f : Lists) → order + rounds ≡ 15
    → i < 2 ^ 32
    → Inv count l f
    → ((x : ℕ) → IsFree f x → InBlock order (start order i) x → ⊥)
    → IsOrdered f order i
    → IsBounded count inside order i
    → start order i + 2 ^ order ≤ count
    → IsMerged count f order i (merge_loop inside rounds order (start order i) l)
unfolding merge_loop
merge_loop-IsMerged {count = count} inside zero order i l f h word v out ordered bounded fits =
    record {
      lists = f;
      inv = v;
      small = omega (arith, h);
      first = refl;
      fits = fits;
      out = out;
      same = λ x. (λ a. a, λ a. a);
    }
merge_loop-IsMerged {count = count} inside (suc rounds) order i l f h word v out ordered bounded
      fits =
    let b = bit_xor (start order i) (2 ^ order) in
    let stop : IsMerged count f order i ((order, start order i), l) = record {
      lists = f;
      inv = v;
      small = omega (arith, h);
      first = refl;
      fits = fits;
      out = out;
      same = λ x. (λ a. a, λ a. a);
    } in
    elim (Bool-cases (not (inside b))) [
      | inl e ↦ rw e stop
      | inr e ↦ elim (Bool-cases (list_is_empty l (node b))) [
        | inl e' ↦ rw (e, e') stop
        | inr e' ↦
            let small : order < 15 = omega (arith, h) in
            let (us, vs, s) =
              buddy-split l f order i v small ordered
                (bounded order (omega arith) small (ground (arith, e))) e' in
            let r =
              merge_loop-IsMerged inside rounds (suc order) i (list_remove l (node b))
                (put f order (us ++ vs)) (omega (arith, h)) word
                (merged-Inv order i us vs v small word out s)
                (merged-out order i us vs v small word out s)
                (λ o p m n k t.
                  ordered o p (omega (arith, m)) n k
                    (merged-listed order i us vs v small word out s p _ t))
                (λ o m n t. bounded o (omega (arith, m)) n t)
                (merged-fits order i us vs v small word out s fits) in
            let up : order + 1 ≡ suc order = omega arith in
            rw (e, e', (block-Merged order i (omega (arith, h)) word).cleared, up)
              (widen r (merged-same order i us vs v small word out s))
      ]
    ]

-- What freeing the block of `order` at `index` does: it and its free buddies become one free block.
pub record IsFreed (count : ℕ) (f : Lists) (order index : ℕ) (p p' : Pool) : Type 0 where
  pub lists : Lists
  pub merged : ℕ
  pub inv : Inv count p'.links lists
  pub small : merged < 16
  pub listed : has (start merged index) (lists merged) ≡ true
  pub now_free : (x : ℕ) → IsFree lists x ↔ IsFreeOr f order index x
  pub orders : p'.order ≡ set_order p.order (start merged index) none

put_back-IsFreed :
    {count : ℕ}
    → (f : Lists) (order i : ℕ) (p : Pool) (r : (ℕ × ℕ) × Links) → i ≡ start order i
    → IsMerged count f order i r
    → IsFreed count f order i p (put_back r p)
unfolding put_back
put_back-IsFreed {count = count} f order i p ((o, j), l) h m =
    let aligned : j ≡ start o j = multiple (i / 2 ^ o) j (2 ^ o) (pow-pos o) m.first in
    let apart : IsApart m.lists o j = λ q k x s t a b.
      m.out x (record { order = q; first = k; small = s; listed = t; inside = a }) b in
    record {
      lists = given o j m.inv m.small aligned m.fits apart;
      merged = o;
      inv = give-Inv o j m.inv m.small aligned m.fits apart;
      small = m.small;
      listed = rw (← m.first) (given_self o j m.inv m.small aligned m.fits apart);
      now_free = λ x.
          let g = given-IsFree o j m.inv m.small aligned m.fits apart x in
          let s : IsFreeOr m.lists o j x ↔ IsFreeOr f order i x = rw (← h) at (m.same x) in
          (λ a. s.0 (g.0 a), λ a. g.1 (s.1 a));
      orders = rw (← m.first) refl;
    }

-- What the two functions, which differ in `inside`, have in common.
pub free-IsFreed :
    (count : ℕ) (inside : ℕ → Bool) (f : Lists) (order index : ℕ) (p : Pool)
    → Inv count p.links f
    → p.order index ≡ some order
    → order < 16
    → index < 2 ^ 32
    → index ≡ start order index
    → index + 2 ^ order ≤ count
    → ((x : ℕ) → IsFree f x → InBlock order index x → ⊥)
    → IsOrdered f order index
    → IsBounded count inside order index
    → IsFreed count f order index p (free inside index p)
unfolding free
free-IsFreed count inside f order index p v e small word aligned fits out ordered bounded =
    rw (free, e)
      (put_back-IsFreed {count = count} f order index p
        (merge_loop inside (15 - order) order index p.links) aligned
        (subst
          (λ (j : ℕ). IsMerged count f order index (merge_loop inside (15 - order) order j p.links))
          (sym aligned)
          (merge_loop-IsMerged inside (15 - order) order index p.links f (omega (arith, small)) word
            v (λ x a b. out x a (rw (← aligned) at b)) ordered bounded (rw (← aligned) fits))))

-- `page_free` of the block of `order`, below 16, at a page below 2 ^ 32 that is marked with this
-- order, is aligned to it, lies in the array and meets no free block, in a well-formed pool where a
-- free block at the buddy of a block around the page, of the freed block's order up to 14, has that
-- buddy's order: the pool is well formed again, the free pages are the old ones and the block's, and
-- the block that the page has been merged into is in its free list and its `order` is cleared.
pub page_free-IsFreed :
    (count : ℕ) (f : Lists) (order page : ℕ) (p : Pool)
    → Inv count p.links f
    → p.order page ≡ some order
    → order < 16
    → page < 2 ^ 32
    → page ≡ start order page
    → page + 2 ^ order ≤ count
    → ((x : ℕ) → IsFree f x → InBlock order page x → ⊥)
    → IsOrdered f order page
    → IsFreed count f order page p (page_free count page p)
unfolding page_free
page_free-IsFreed count f order page p v e small word aligned fits out ordered =
    free-IsFreed count (λ buddy. ltb buddy count) f order page p v e small word aligned fits out
      ordered (λ o m n t. ground (arith, t))
