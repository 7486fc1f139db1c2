-- ===== src/Kprintf.antt =====
-- kernel/lib/kprintf.c: the formatted line goes to every registered file. `write file line s` is
-- what the `write_buffer` of the file does to the state `S` of the devices.
pub mod Line
mod Tests
use borfos.Common.{
  ℕ, zero, suc, ◌+◌, ◌-◌, Bool, true, false, Option, none, some, List, [], ◌∷◌, ◌++◌, length, ltb,
  ◌==◌, if◌then◌else◌,
}
use borfos.Links.{Links, list_insert_before, list_is_empty}
use borfos.Bprintf.{Inputs}
use borfos.Bprintf.Text.{take}
use borfos.Bprintf.Format.{Outcome, done, overrun, out_of_fuel, vbprintf}

abbrev pub max_length : ℕ
max_length = 128

-- The addresses of `backends` and of &file->kprintf_node, and LIST_ELEMENT_AT.
abbrev pub backends : ℕ
backends = 24

abbrev pub kprintf_node : ℕ → ℕ
kprintf_node file = file + 4

abbrev pub file_of_node : ℕ → ℕ
file_of_node node = node - 4

unfoldable pub kprintf_register : ℕ → Links → Links
kprintf_register file l = list_insert_before l backends (kprintf_node file)

-- The line with its line feed: behind the bytes if there is room, else in place of the last one.
unfoldable pub finish_line : List ℕ → List ℕ
finish_line bs =
    if ltb (length bs) max_length then bs ++ 10 ∷ [] else take (max_length - 1) bs ++ 10 ∷ []

module _ {S : Type 0} (write : ℕ → List ℕ → S → S) where
  -- LIST_FOREACH(&backends, node), from `node` on.
  unfoldable pub write_backends : Links → List ℕ → ℕ → ℕ → S → Option S
  write_backends l line zero node s = none
  write_backends l line (suc fuel) node s =
      let rest = write_backends l line fuel (l.next node) (write (file_of_node node) line s) in
      if node == backends then some s else rest

  -- `kprintf`; nothing is formatted where no file is registered.
  unfoldable pub kprintf : Links → ℕ → Inputs → List ℕ → ℕ → S → Option S
  kprintf l fuel i format ap s =
      if list_is_empty l backends then some s else elim (vbprintf i max_length format ap) [
        | done st ↦ write_backends l (finish_line st.out) fuel (l.next backends) s
        | overrun ↦ none
        | out_of_fuel ↦ none
      ]
