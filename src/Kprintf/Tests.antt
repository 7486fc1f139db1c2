-- ===== src/Kprintf/Tests.antt =====
-- The theorem about `kprintf` with two registered files.
use borfos.Common.{ℕ, ◌≡◌, ◌≤◌, refl, arith, some, List, [], ◌∷◌, length}
use borfos.Links.{Links}
use borfos.Bprintf.{Inputs, State, put}
use borfos.Bprintf.Format.{done, round, format_loop, vbprintf}
use borfos.Kprintf.{kprintf, finish_line, max_length}
use borfos.Kprintf.Line.{kprintf-write_all}
use borfos.Example.{rings}

abbrev two_files : Links
two_files = rings ((24 ∷ 104 ∷ 204 ∷ []) ∷ [])

abbrev nothing : Inputs
nothing = record { word = λ n. 0; string = λ a. [] }

abbrev log : ℕ → List ℕ → List (ℕ × List ℕ) → List (ℕ × List ℕ)
log file line s = (file, line) ∷ s

abbrev hi : State
hi = record { out = 72 ∷ 105 ∷ []; max = 126; ap = 0; stored = [] }

formatted : vbprintf nothing 128 (72 ∷ 105 ∷ []) 0 ≡ done hi
unfolding vbprintf format_loop round put
formatted = refl

kprintf-write_all_example :
    (kprintf log two_files 3 nothing (72 ∷ 105 ∷ []) 0 []
      ≡ some ((200, 72 ∷ 105 ∷ 10 ∷ []) ∷ (100, 72 ∷ 105 ∷ 10 ∷ []) ∷ []))
    × (length (finish_line (72 ∷ 105 ∷ [])) ≤ max_length)
unfolding finish_line
kprintf-write_all_example =
    kprintf-write_all log two_files (100 ∷ 200 ∷ []) 3 nothing (72 ∷ 105 ∷ []) 0 hi []
      (record {
        chain = (refl, refl, (refl, refl, (refl, refl)));
        distinct = (refl, (refl, (refl, tt)));
      })
      (omega arith) formatted
