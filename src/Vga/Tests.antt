-- ===== src/Vga/Tests.antt =====
-- The theorems about the screen at a concrete text memory.
use borfos.Common.{ℕ, ◌+◌, ◌-◌, ◌%◌, ◌<◌, ◌≡◌, refl, arith, [], ◌∷◌, leb, ltb, if◌then◌else◌}
use borfos.Vga.{Vga, vga_write_byte, vga_cells}
use borfos.Vga.Screen.{shown, vga_write_byte-shown}

abbrev move : (ℕ → ℕ) → ℕ → ℕ → ℕ → ℕ → ℕ
move text d s n a =
    if leb d a then (if ltb a (d + n) then text (s + (a - d)) else text a) else text a

-- The cursor is in the last cell.
abbrev screen : Vga
screen = record { text = λ a. a % 256; cursor = 1999; ports = [] }

vga_write_byte-shown_example :
    (shown (vga_write_byte move 65 screen) 1919 ≡ 65)
    × ((vga_write_byte move 65 screen).cursor ≡ 1920)
    × (1920 < vga_cells)
    × ((vga_write_byte move 65 screen).ports
        ≡ (0x3D5, 128) ∷ (0x3D4, 0xF) ∷ (0x3D5, 7) ∷ (0x3D4, 0xE) ∷ [])
vga_write_byte-shown_example =
    vga_write_byte-shown move (λ text d s n a. refl) 65 1919 screen (omega arith) (omega arith)
