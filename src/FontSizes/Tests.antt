-- ===== src/FontSizes/Tests.antt =====
-- The steps from two sizes (frontend/src/common.ts).
use cozyssh.Prelude.{◌≡◌, arith}
use cozyssh.FontSizes.{prev_terminal_font_size}
use cozyssh.FontSizes.Steps.{prev_of_large}

prev_of_large_example : prev_terminal_font_size 80 ≡ 4
prev_of_large_example = prev_of_large 80 (omega arith)
