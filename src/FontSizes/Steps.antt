-- ===== src/FontSizes/Steps.antt =====
-- The steps of the terminal's font size, frontend/src/common.ts.
use cozyssh.Prelude.{ℕ, ◌≤◌, ◌<◌, ◌≡◌, arith}
use cozyssh.FontSizes.{prev_terminal_font_size, next_terminal_font_size}

-- From a size above the least and not above the greatest one, the previous size is less and the
-- next not less; both are within the table's range.
pub font_size_steps :
    (size : ℕ)
    → 4 < size
    → size ≤ 75
    → (prev_terminal_font_size size < size)
      × (4 ≤ prev_terminal_font_size size)
      × (size ≤ next_terminal_font_size size)
      × (next_terminal_font_size size ≤ 75)
unfolding prev_terminal_font_size next_terminal_font_size
font_size_steps size h k = ground arith

-- From a size above the greatest one, the previous size is the least of all.
pub prev_of_large : (size : ℕ) → 75 < size → prev_terminal_font_size size ≡ 4
unfolding prev_terminal_font_size
prev_of_large size h = ground arith
