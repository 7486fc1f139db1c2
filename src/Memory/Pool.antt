-- ===== src/Memory/Pool.antt =====
-- The two buddy pools of kernel/lib/mem.c: `pages` with `pages_free_list`, and `vaddrs` with
-- `vaddrs_free_list`. An element of the array is its index. In the pool's list store, address `o`
-- below 16 is the head of the free list of order `o`, and `16 + i` is the `free_node` of element
-- `i`. A field `order` of -1 is `none`.
pub mod Inv
pub mod Take
pub mod Give
pub mod Aligned
pub mod Split
pub mod Ready
pub mod Allocate
pub mod Merge
pub mod Free
pub mod Fill
pub mod Roundtrip
use Prim.Native.Nat.{bit_and, bit_xor}
use borfos.Common.{
  ℕ, zero, suc, ◌+◌, ◌-◌, ◌*◌, ◌^◌, ◌%◌, Bool, true, false, not, ◌&&◌, Option, none, some, List, [],
  ◌∷◌, ltb, leb, ◌==◌, if◌then◌else◌,
}
use borfos.Links.{Links, list_init, list_insert_before, list_remove, list_is_empty}

abbrev pub buddy_order_limit : ℕ
buddy_order_limit = 16

abbrev pub node : ℕ → ℕ
node i = 16 + i

-- LIST_ELEMENT_AT(…) - pages
abbrev pub element : ℕ → ℕ
element a = a - 16

pub record Pool : Type 0 where
  pub links : Links
  pub order : ℕ → Option ℕ

abbrev pub set_order : (ℕ → Option ℕ) → ℕ → Option ℕ → ℕ → Option ℕ
set_order f i v j = if j == i then v else f j

-- `for (; order < 16 && (1u << order) <= length; ++order);` with the rounds that are left.
unfoldable pub length_loop : ℕ → ℕ → ℕ → ℕ
length_loop zero order length = order
length_loop (suc rounds) order length =
    let rest = length_loop rounds (order + 1) length in
    if leb (2 ^ order) length then rest else order

-- `order - 1`, an `int`.
abbrev pub pred_order : ℕ → Option ℕ
pred_order zero = none
pred_order (suc order) = some order

unfoldable pub max_order_for_length : ℕ → Option ℕ
max_order_for_length length = pred_order (length_loop 16 0 length)

-- `for (; order < 15 && !((1u << order) & index); ++order);`
unfoldable pub index_loop : ℕ → ℕ → ℕ → ℕ
index_loop zero order index = order
index_loop (suc rounds) order index =
    let rest = index_loop rounds (order + 1) index in
    if bit_and (2 ^ order) index == 0 then rest else order

unfoldable pub max_order_for_index : ℕ → ℕ
max_order_for_index index = index_loop 15 0 index

abbrev smaller : Option ℕ → ℕ → Option ℕ
smaller none m2 = none
smaller (some m1) m2 = some (if ltb m1 m2 then m1 else m2)

unfoldable pub max_order : ℕ → ℕ → Option ℕ
max_order index max_length = smaller (max_order_for_length max_length) (max_order_for_index index)

-- The body of `add_pages_to_pool` and `add_vaddrs_to_pool`: `while (index < to)`, for at most
-- `fuel` rounds.
unfoldable pub add_to_pool : ℕ → ℕ → ℕ → Pool → Pool
add_to_pool zero index to p = p
add_to_pool (suc fuel) index to p =
    if ltb index to
    then (elim (max_order index (to - index)) [
      | none ↦ p
      | some order ↦
          add_to_pool fuel (index + 2 ^ order) to
            (record p { links = list_insert_before p.links order (node index) })
    ])
    else p

-- `for (; o < 16 && list_is_empty(free_list + o); ++o);` with the rounds that are left.
unfoldable pub find_order : ℕ → ℕ → Links → ℕ
find_order zero o l = o
find_order (suc rounds) o l =
    let rest = find_order rounds (o + 1) l in if list_is_empty l o then rest else o

-- One round of `while (o > order)`: the first block of order `suc o` becomes two of order `o`.
unfoldable pub split : ℕ → Links → Links
split o l =
    let block = l.next (suc o) in
    let index = element block in
    let l1 = list_remove l block in
    let l2 = list_insert_before l1 o block in list_insert_before l2 o (node (bit_xor index (2 ^ o)))

-- The loop from order `order + rounds` down to `order`.
unfoldable pub split_loop : ℕ → ℕ → Links → Links
split_loop zero order l = l
split_loop (suc rounds) order l = split_loop rounds order (split (order + rounds) l)

-- `page_allocate` and `vaddr_allocate`: the index of the block, or NULL.
unfoldable pub allocate : ℕ → Pool → Option ℕ × Pool
allocate order p =
    let o = find_order (16 - order) order p.links in
    if o == 16
    then (none, p)
    else (let l = split_loop (o - order) order p.links in
        let block = l.next order in
        let index = element block in
        (
          some index,
          record { links = list_remove l block; order = set_order p.order index (some order) },
        ))

-- `while (order < 15)` of `page_free` and `vaddr_free`, with the rounds that are left; `inside` is
-- the test on the buddy's index, which only `page_free` makes.
unfoldable pub merge_loop : (ℕ → Bool) → ℕ → ℕ → ℕ → Links → (ℕ × ℕ) × Links
merge_loop inside zero order index l = ((order, index), l)
merge_loop inside (suc rounds) order index l =
    let buddy = bit_xor index (2 ^ order) in
    let rest =
      merge_loop inside rounds (order + 1) (bit_and index (2 ^ 32 - 1 - 2 ^ order))
        (list_remove l (node buddy)) in
    if not (inside buddy)
    then ((order, index), l)
    else if list_is_empty l (node buddy)
    then ((order, index), l)
    else rest

-- The lines behind the loop; `page` is by then the merged block's first element.
unfoldable pub put_back : (ℕ × ℕ) × Links → Pool → Pool
put_back ((order, index), l) p = record {
  links = list_insert_before l order (node index);
  order = set_order p.order index none;
}

-- `page_free` and `vaddr_free`.
unfoldable pub free : (ℕ → Bool) → ℕ → Pool → Pool
free inside index p = elim (p.order index) [
  | none ↦ p
  | some order ↦ put_back (merge_loop inside (15 - order) order index p.links) p
]

unfoldable pub page_allocate : ℕ → Pool → Option ℕ × Pool
page_allocate = allocate

unfoldable pub vaddr_allocate : ℕ → Pool → Option ℕ × Pool
vaddr_allocate = allocate

unfoldable pub page_free : ℕ → ℕ → Pool → Pool
page_free pages_count = free (λ buddy. ltb buddy pages_count)

unfoldable pub vaddr_free : ℕ → Pool → Pool
vaddr_free = free (λ buddy. true)
