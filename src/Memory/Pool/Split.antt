-- ===== src/Memory/Pool/Split.antt =====
-- One round of splitting: the first block of order `suc o` becomes its two halves.
use native.Mathlib.Nat.{pow-suc}
use borfos.Common.{
  refl, ◌≤◌, ℕ, suc, ◌+◌, ◌^◌, ◌<◌, ◌≡◌, ◌⊎◌, ◌↔◌, inl, inr, true, false, List, [], ◌∷◌, ◌++◌,
  arith, ◌==◌, ltb, ◌&&◌, has, ==_self, Bool-cases, false_of,
}
use Prim.Native.Nat.{bit_xor}
use borfos.Links.{Links, list_insert_before, list_remove}
use borfos.Links.Ring.{Ring}
use borfos.Memory.Pool.{node, element, split}
use borfos.Memory.Pool.Inv.{Lists, put, nodes, InBlock, IsFree, Inv}
use borfos.Memory.Pool.Aligned.{Halves, aligned-Halves}
use borfos.Memory.Pool.Take.{take-Inv, not_left, put-listed, taken-listed}
use borfos.Memory.Pool.Give.{IsApart, give-Inv, given-cases, given-old, given_self}

module _ {count : ℕ} {l : Links} {f : Lists} (o i : ℕ) (rest : List ℕ) (v : Inv count l f)
    (small : suc o < 16) (e : f (suc o) ≡ i ∷ rest) where
  twice : 2 ^ suc o ≡ 2 ^ o + 2 ^ o
  twice = omega (arith, pow-suc 2 o)

  abbrev without : Lists
  without = put f (suc o) rest

  without-Inv : Inv count (list_remove l (node i)) without
  without-Inv = take-Inv (suc o) i [] rest v small e

  listed : has i (f (suc o)) ≡ true
  listed = taken-listed (suc o) i [] rest v small e

  halves : Halves o i
  halves = aligned-Halves o i (v.aligned (suc o) i small listed)

  lower_fits : i + 2 ^ o ≤ count
  lower_fits = omega (arith, v.within (suc o) i small listed, twice)

  upper_fits : i + 2 ^ o + 2 ^ o ≤ count
  upper_fits = omega (arith, v.within (suc o) i small listed, twice)

  -- The block that was taken meets no block that is left.
  taken-IsApart : IsApart without (suc o) i
  taken-IsApart p k x hp h a b =
      let old = put-listed (suc o) i [] rest v small e p k h in
      let (r, s) = v.apart p (suc o) k i x hp small old listed a b in
      false_of
        (let h' : has k (put f (suc o) rest (suc o)) ≡ true = rw r at h in
          let h'' : has i rest ≡ true = rw s at (rw (==_self (suc o)) at h') in h'')
        (not_left (suc o) i [] rest v small e)

  lower-IsApart : IsApart without o i
  lower-IsApart p k x hp h a b = taken-IsApart p k x hp h a (omega (arith, twice))

  abbrev with_lower : Lists
  with_lower = put without o (without o ++ i ∷ [])

  lower-Inv : Inv count (list_insert_before (list_remove l (node i)) o (node i)) with_lower
  lower-Inv = give-Inv o i without-Inv (omega arith) halves.lower_aligned lower_fits lower-IsApart

  upper-IsApart : IsApart with_lower o (i + 2 ^ o)
  upper-IsApart p k x hp h a b =
      elim (given-cases o i without-Inv (omega arith) halves.lower_aligned lower_fits lower-IsApart
        p k h) [
          | inl (r, s) ↦ let a' : InBlock o i x = rw r at (rw s at a) in absurd (omega arith)
          | inr h' ↦ taken-IsApart p k x hp h' a (omega (arith, twice))
        ]

  -- The free lists after the round.
  abbrev pub halved : Lists
  halved = put with_lower o (with_lower o ++ (i + 2 ^ o) ∷ [])

  next_block : l.next (suc o) ≡ node i
  next_block =
      let r : Ring l (suc o) (node i ∷ nodes rest) = rw e at (v.rings (suc o) small) in r.chain.0

  pub split-Inv : Inv count (split o l) halved
  unfolding split
  split-Inv =
      let up : bit_xor (element (node i)) (2 ^ o) ≡ i + 2 ^ o =
        let q : element (node i) ≡ i = omega arith in rw q halves.upper in
      rw next_block (
        rw up (
          give-Inv o (i + 2 ^ o) lower-Inv (omega arith) halves.upper_aligned upper_fits
            upper-IsApart))

  halved-cases :
      (p k : ℕ)
      → has k (halved p) ≡ true
      → ((p ≡ o) × (k ≡ i + 2 ^ o)) ⊎ (((p ≡ o) × (k ≡ i)) ⊎ (has k (without p) ≡ true))
  halved-cases p k h =
      elim (given-cases o (i + 2 ^ o) lower-Inv (omega arith) halves.upper_aligned upper_fits
        upper-IsApart p k h) [
          | inl c ↦ inl c
          | inr h' ↦ inr (
              given-cases o i without-Inv (omega arith) halves.lower_aligned lower_fits
                lower-IsApart p k h')
        ]

  without-halved : (p k : ℕ) → has k (without p) ≡ true → has k (halved p) ≡ true
  without-halved p k h =
      given-old o (i + 2 ^ o) lower-Inv (omega arith) halves.upper_aligned upper_fits upper-IsApart
        p k
        (given-old o i without-Inv (omega arith) halves.lower_aligned lower_fits lower-IsApart p k
          h)

  pub lower-listed : has i (halved o) ≡ true
  lower-listed =
      given-old o (i + 2 ^ o) lower-Inv (omega arith) halves.upper_aligned upper_fits upper-IsApart
        o i (given_self o i without-Inv (omega arith) halves.lower_aligned lower_fits lower-IsApart)

  upper-listed : has (i + 2 ^ o) (halved o) ≡ true
  upper-listed =
      given_self o (i + 2 ^ o) lower-Inv (omega arith) halves.upper_aligned upper_fits upper-IsApart

  -- What a round of splitting leaves free: exactly the same elements.
  pub split-IsFree : (x : ℕ) → IsFree f x ↔ IsFree halved x
  split-IsFree x = (there, back)
    where
      there : IsFree f x → IsFree halved x
      there g = elim (Bool-cases ((g.order == suc o) && (g.first == i))) [
        | inl k ↦
            let q : g.order ≡ suc o = ground (arith, k) in
            let r : g.first ≡ i = ground (arith, k) in
            let inside : InBlock (suc o) i x = rw r at (rw q at g.inside) in
            elim (Bool-cases (ltb x (i + 2 ^ o))) [
              | inl m ↦ record {
                order = o;
                first = i;
                small = omega arith;
                listed = lower-listed;
                inside = (inside.0, ground (arith, m));
              }
              | inr m ↦ record {
                order = o;
                first = i + 2 ^ o;
                small = omega arith;
                listed = upper-listed;
                inside = (ground (arith, m), omega (arith, twice, inside.1));
              }
            ]
        | inr k ↦ record {
          order = g.order;
          first = g.first;
          small = g.small;
          listed = without-halved g.order g.first (kept g.order g.first g.listed k);
          inside = g.inside;
        }
      ]
        where
          kept :
              (p k : ℕ)
              → has k (f p) ≡ true
              → ((p == suc o) && (k == i)) ≡ false
              → has k (without p) ≡ true
          kept p k h n = elim (Bool-cases (p == suc o)) [
            | inl m ↦
                let q : p ≡ suc o = ground (arith, m) in
                let h' : has k (i ∷ rest) ≡ true = rw e at (rw q at h) in
                rw m (ground (arith, h', n, m))
            | inr m ↦ rw m h
          ]

      back : IsFree halved x → IsFree f x
      back g = elim (halved-cases g.order g.first g.listed) [
        | inl (a, b) ↦
            let inside : InBlock o (i + 2 ^ o) x = rw b at (rw a at g.inside) in
            record {
              order = suc o;
              first = i;
              small = small;
              listed = listed;
              inside = (omega (arith, inside.0), omega (arith, twice, inside.1));
            }
        | inr (inl (a, b)) ↦
            let inside : InBlock o i x = rw b at (rw a at g.inside) in
            record {
              order = suc o;
              first = i;
              small = small;
              listed = listed;
              inside = (inside.0, omega (arith, twice, inside.1));
            }
        | inr (inr h) ↦ record {
          order = g.order;
          first = g.first;
          small = g.small;
          listed = put-listed (suc o) i [] rest v small e g.order g.first h;
          inside = g.inside;
        }
      ]

  -- If there was no block of the lower order before, its list has the two halves.
  pub halved-both : f o ≡ [] → halved o ≡ i ∷ (i + 2 ^ o) ∷ []
  halved-both none_before =
      let ne : (o == suc o) ≡ false = ground arith in rw (==_self o, ne, none_before) refl

  pub halved-other : (p : ℕ) → p < o → halved p ≡ f p
  halved-other p h =
      let a : (p == o) ≡ false = ground (arith, h) in
      let b : (p == suc o) ≡ false = ground (arith, h) in rw (a, b) refl

  -- The blocks behind the round are old ones and the halves.
  pub halved-origin :
      (p k : ℕ)
      → has k (halved p) ≡ true
      → ((p ≡ o) × (k ≡ i + 2 ^ o)) ⊎ (((p ≡ o) × (k ≡ i)) ⊎ (has k (f p) ≡ true))
  halved-origin p k h = elim (halved-cases p k h) [
    | inl a ↦ inl a
    | inr (inl a) ↦ inr (inl a)
    | inr (inr a) ↦ inr (inr (put-listed (suc o) i [] rest v small e p k a))
  ]
