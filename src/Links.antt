-- ===== src/Links.antt =====
-- kernel/include/list.h and kernel/lib/list.c: circular doubly linked lists whose nodes lie inside
-- other structures. The store gives each address its `prev` and `next`.
pub mod Chain
pub mod Ring
pub mod Frame
pub mod Remove
pub mod Find
mod Tests
use borfos.Common.{ℕ, zero, suc, Bool, Option, none, some, ◌==◌, if◌then◌else◌}

-- The two fields of `list_t`, at every address.
pub record Links : Type 0 where
  pub prev : ℕ → ℕ
  pub next : ℕ → ℕ

abbrev pub update : (ℕ → ℕ) → ℕ → ℕ → ℕ → ℕ
update f a v b = if b == a then v else f b

abbrev pub set_prev : Links → ℕ → ℕ → Links
set_prev l a v = record l { prev = update l.prev a v }

abbrev pub set_next : Links → ℕ → ℕ → Links
set_next l a v = record l { next = update l.next a v }

unfoldable pub list_init : Links → ℕ → Links
list_init l self = set_next (set_prev l self self) self self

unfoldable pub list_insert_after : Links → ℕ → ℕ → Links
list_insert_after l node new_node =
    let next = l.next node in
    let l = set_prev l new_node node in
    let l = set_next l new_node next in let l = set_next l node new_node in set_prev l next new_node

unfoldable pub list_insert_before : Links → ℕ → ℕ → Links
list_insert_before l node new_node =
    let prev = l.prev node in
    let l = set_prev l new_node prev in
    let l = set_next l new_node node in let l = set_prev l node new_node in set_next l prev new_node

unfoldable pub list_remove : Links → ℕ → Links
list_remove l node =
    let prev = l.prev node in
    let next = l.next node in
    let l = set_next l prev next in
    let l = set_prev l next prev in let l = set_next l node node in set_prev l node node

unfoldable pub list_is_empty : Links → ℕ → Bool
list_is_empty l self = l.prev self == self

-- The outcome of a walk: a pointer or NULL, or no more rounds.
pub data Walk : Type 0 where
  found : ℕ → Walk
  null : Walk
  out_of_fuel : Walk

-- LIST_FOREACH(self, node) if (func(node, arg)) return node; from `node` on.
unfoldable pub find_from : Links → ℕ → (ℕ → Bool) → ℕ → ℕ → Walk
find_from l self func zero node = out_of_fuel
find_from l self func (suc fuel) node =
    let rest = find_from l self func fuel (l.next node) in
    if node == self then null else if func node then found node else rest

unfoldable pub list_find : Links → ℕ → (ℕ → Bool) → ℕ → Walk
unfolding find_from
list_find l self func fuel = find_from l self func fuel (l.next self)
