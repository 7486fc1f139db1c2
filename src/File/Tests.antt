-- ===== src/File/Tests.antt =====
-- The theorem about files at a device with room for two bytes.
use borfos.Common.{ℕ, ◌-◌, [], ◌∷◌, ◌==◌, if◌then◌else◌}
use borfos.File.{Ssize, count, file_default_write_buffer}
use borfos.File.Write.{Written, file_default_write_buffer-Written}

abbrev two_bytes : ℕ → ℕ → ℕ × Ssize
two_bytes room b = if room == 0 then (0, count 0) else (room - 1, count 1)

file_default_write_buffer-Written_example :
    Written two_bytes 0 2
      (65 ∷ 66 ∷ 67 ∷ [])
      (file_default_write_buffer two_bytes (65 ∷ 66 ∷ 67 ∷ []) 2)
file_default_write_buffer-Written_example =
    file_default_write_buffer-Written two_bytes (65 ∷ 66 ∷ 67 ∷ []) 2
