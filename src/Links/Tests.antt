-- ===== src/Links/Tests.antt =====
-- The theorems about lists at concrete inputs.
use borfos.Common.{refl, [], ◌∷◌}
use borfos.Links.{Links, list_remove}
use borfos.Links.Ring.{Ring}
use borfos.Links.Remove.{list_remove-Ring}
use borfos.Example.{rings}

abbrev lists : Links
lists = rings ((1 ∷ 2 ∷ 3 ∷ []) ∷ (5 ∷ 6 ∷ []) ∷ [])

one : Ring lists 1 (2 ∷ 3 ∷ [])
one = record {
  chain = (refl, refl, (refl, refl, (refl, refl)));
  distinct = (refl, (refl, (refl, tt)));
}

two : Ring lists 5 (6 ∷ [])
two = record { chain = (refl, refl, (refl, refl)); distinct = (refl, (refl, tt)) }

list_remove-Ring_example : Ring (list_remove lists 2) 1 (3 ∷ []) × Ring (list_remove lists 2) 2 []
list_remove-Ring_example = list_remove-Ring lists 1 2 [] (3 ∷ []) one
