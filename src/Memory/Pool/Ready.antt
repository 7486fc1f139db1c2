-- ===== src/Memory/Pool/Ready.antt =====
-- The loop of `page_allocate` and `vaddr_allocate` that splits blocks, and what it leaves in the lists.
use borfos.Common.{
  ℕ, zero, suc, ◌+◌, ◌*◌, ◌/◌, ◌^◌, ◌≤◌, ◌<◌, ◌≡◌, ◌⊎◌, ◌↔◌, inl, inr, refl, true, List, [], ◌∷◌,
  arith, has, ==_self, sym, ◌∙◌,
}
use borfos.Links.{Links}
use borfos.Memory.Pool.{split, split_loop}
use borfos.Memory.Pool.Inv.{Lists, IsFree, Inv, pow-pos}
use borfos.Memory.Pool.Split.{
  halved, halved-both, halved-other, halved-origin, split-Inv, split-IsFree,
}

cons_of_ne : (xs : List ℕ) → (xs ≡ [] → ⊥) → (y : ℕ) × (ys : List ℕ) × (xs ≡ y ∷ ys)
cons_of_ne [] h = absurd (h refl)
cons_of_ne (x ∷ xs) h = (x, xs, refl)

-- An upper half that splitting has left: `k` is the buddy, of order `o`, of the block at `first`.
abbrev pub IsUpper : ℕ → ℕ → ℕ → ℕ → Type 0
IsUpper order first o k =
    (order ≤ o) × (k ≡ first + 2 ^ o) × (first ≡ first / 2 ^ suc o * 2 ^ suc o)

-- A pool in which the list of `order` has a block, and as much is free as in `f`. Its blocks are
-- those of `f`, the first one of `order`, and upper halves.
pub record IsReady (count : ℕ) (f : Lists) (order : ℕ) (l : Links) : Type 0 where
  pub lists : Lists
  pub inv : Inv count l lists
  pub same : (x : ℕ) → IsFree f x ↔ IsFree lists x
  pub first : ℕ
  pub rest : List ℕ
  pub head : lists order ≡ first ∷ rest
  pub origin :
      (o k : ℕ)
      → o < 16
      → has k (lists o) ≡ true
      → (has k (f o) ≡ true) ⊎ (((o ≡ order) × (k ≡ first)) ⊎ IsUpper order first o k)

-- The loop from order `top` down to `order`, on the block at `i`.
split_from :
    {count : ℕ}
    → (rounds order i : ℕ) (is : List ℕ) (l : Links) (f : Lists) → Inv count l f
    → order + rounds < 16
    → f (order + rounds) ≡ i ∷ is
    → ((o : ℕ) → order ≤ o → o < order + rounds → f o ≡ [])
    → (r : IsReady count f order (split_loop rounds order l)) × (r.first ≡ i)
unfolding split_loop
split_from zero order i is l f v small head below =
    let e : order + 0 ≡ order = omega arith in
    (
      record {
        lists = f;
        inv = v;
        same = λ x. (λ g. g, λ g. g);
        first = i;
        rest = is;
        head = rw e at head;
        origin = λ o k h m. inl m;
      },
      refl,
    )
split_from (suc rounds) order i is l f v small head below =
    let o = order + rounds in
    let e : order + suc rounds ≡ suc o = omega arith in
    let small' : suc o < 16 = omega (arith, small) in
    let head' : f (suc o) ≡ i ∷ is = rw e at head in
    let listed : has i (f (suc o)) ≡ true = rw head' (ground (arith, ==_self i)) in
    let aligned : i ≡ i / 2 ^ suc o * 2 ^ suc o = v.aligned (suc o) i small' listed in
    let g = halved o i is v small' head' in
    let (r, z) =
      split_from rounds order i ((i + 2 ^ o) ∷ []) (split o l) g (split-Inv o i is v small' head')
        (omega (arith, small))
        (halved-both o i is v small' head' (below o (omega arith) (omega arith)))
        (λ q a b. halved-other o i is v small' head' q b ∙ below q a (omega (arith, b))) in
    let first_listed : has r.first (r.lists order) ≡ true =
      rw r.head (ground (arith, ==_self r.first)) in
    (
      record {
        lists = r.lists;
        inv = r.inv;
        same = λ x.
            let s = split-IsFree o i is v small' head' x in
            (λ a. (r.same x).0 (s.0 a), λ a. s.1 ((r.same x).1 a));
        first = r.first;
        rest = r.rest;
        head = r.head;
        origin = λ q k h m. elim (r.origin q k h m) [
          | inr a ↦ inr a
          | inl a ↦ elim (halved-origin o i is v small' head' q k a) [
            | inr (inr b) ↦ inl b
            | inl (b, c) ↦ inr (inr (omega (arith, b), rw (z, b) c, rw (z, b) aligned))
            | inr (inl (b, c)) ↦
                let k_first : k ≡ r.first = c ∙ sym z in
                inr (
                  inl (
                    (r.inv.apart q order k r.first k h (omega (arith, small)) m first_listed
                        (omega (arith, pow-pos q)) (omega (arith, k_first, pow-pos order))).0,
                    k_first,
                  ))
          ]
        ];
      },
      z,
    )

pub split_loop-IsReady :
    {count : ℕ}
    → (rounds order : ℕ) (l : Links) (f : Lists) → Inv count l f
    → order + rounds < 16
    → (f (order + rounds) ≡ [] → ⊥)
    → ((o : ℕ) → order ≤ o → o < order + rounds → f o ≡ [])
    → IsReady count f order (split_loop rounds order l)
split_loop-IsReady rounds order l f v small ne below =
    let (i, is, c) = cons_of_ne (f (order + rounds)) ne in
    (split_from rounds order i is l f v small c below).0
