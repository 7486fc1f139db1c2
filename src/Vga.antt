-- ===== src/Vga.antt =====
-- kernel/drivers/vga.c: the text console. The text memory is bytes from VGA_TEXT_MEMORY on, two for
-- each cell: the character and the color. `memmove` belongs to the C library and is a parameter.
pub mod Screen
mod Tests
use borfos.Common.{
  ℕ, zero, suc, ◌+◌, ◌-◌, ◌*◌, ◌/◌, ◌%◌, ◌^◌, Bool, true, not, List, [], ◌∷◌, leb, ltb, ◌==◌,
  if◌then◌else◌, u8, u32,
}

abbrev pub vga_rows : ℕ
vga_rows = 25

abbrev pub vga_columns : ℕ
vga_columns = 80

abbrev pub vga_cells : ℕ
vga_cells = 2000

pub record Vga : Type 0 where
  pub text : ℕ → ℕ
  pub cursor : ℕ
  -- the writes to the ports, the last one first
  pub ports : List (ℕ × ℕ)

unfoldable pub outb : ℕ → ℕ → Vga → Vga
outb port value v = record v { ports = (port, value) ∷ v.ports }

unfoldable pub vga_sync_cursor_position : Vga → Vga
vga_sync_cursor_position v =
    let v1 = outb 0x3D4 0xE v in
    let v2 = outb 0x3D5 (u8 (v.cursor / 256)) v1 in
    let v3 = outb 0x3D4 0xF v2 in outb 0x3D5 (u8 v.cursor) v3

abbrev pub character : ℕ → ℕ
character i = 2 * i

abbrev pub color : ℕ → ℕ
color i = 2 * i + 1

abbrev pub poke : (ℕ → ℕ) → ℕ → ℕ → ℕ → ℕ
poke text a value b = if b == a then value else text b

-- The loop that blanks `n` cells from the cell `i` on.
unfoldable pub blank : ℕ → ℕ → (ℕ → ℕ) → ℕ → ℕ
blank zero i text = text
blank (suc n) i text = blank n (suc i) (poke text (character i) 32)

-- The `switch` on the byte.
unfoldable pub type_byte : ℕ → Vga → Vga
type_byte b v =
    if b == 10
    then record v { cursor = u32 ((v.cursor / vga_columns + 1) * vga_columns) }
    else if b == 13
    then record v { cursor = v.cursor - v.cursor % vga_columns }
    else if b == 8
    then (if not (v.cursor % vga_columns == 0)
        then record v { cursor = v.cursor - 1; text = poke v.text (character (v.cursor - 1)) 32 }
        else v)
    else record v { text = poke v.text (character v.cursor) b; cursor = u32 (v.cursor + 1) }

-- `memmove text destination source n`, with offsets into the text memory.
module _ (memmove : (ℕ → ℕ) → ℕ → ℕ → ℕ → ℕ → ℕ) where
  unfoldable pub scroll : Vga → Vga
  scroll v =
      if leb vga_cells v.cursor
      then record v {
        text =
            blank vga_columns (vga_cells - vga_columns)
              (memmove v.text 0 (character vga_columns) ((vga_cells - vga_columns) * 2));
        cursor = v.cursor - vga_columns;
      }
      else v

  -- The state after `vga_write_byte`, which returns 1.
  unfoldable pub vga_write_byte : ℕ → Vga → Vga
  vga_write_byte b v = vga_sync_cursor_position (scroll (type_byte b v))

-- The loop of the constructor, for `n` cells from the cell `i` on.
unfoldable pub clear_cells : ℕ → ℕ → (ℕ → ℕ) → ℕ → ℕ
clear_cells zero i text = text
clear_cells (suc n) i text = clear_cells n (suc i) (poke (poke text (character i) 32) (color i) 0xF)

-- CONSTRUCTOR(vga), but for the registration.
unfoldable pub vga_setup : Vga → Vga
vga_setup v =
    let v1 = vga_sync_cursor_position v in record v1 { text = clear_cells vga_cells 0 v1.text }
