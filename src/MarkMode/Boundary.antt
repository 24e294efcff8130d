-- ===== src/MarkMode/Boundary.antt =====
-- `moveUntilSpace` and `moveUntilSpaceReverse`: the boundary motions of frontend/src/markMode.ts.
-- `none` is the exception of a `!` on a missing cell, or a loop that ran out of fuel.
pub mod Runs
pub mod Stops
use cozyssh.Prelude.{
  ℕ, zero, suc, ◌+◌, ◌-◌, List, [], ◌∷◌, Option, none, some, Bool, true, false, ◌&&◌, ◌||◌, ltb,
  ◌==◌, if◌then◌else◌,
}
use cozyssh.Prelude.Int.{pos, sub_ℕ}
use cozyssh.MarkMode.Terminal.{Line, Terminal, MarkModePosition}
use cozyssh.MarkMode.Motion.{◌>>=◌, or_else}

-- `hay.startsWith(needle)` and `hay.includes(needle)` on code units.
abbrev starts_with : List ℕ → List ℕ → Bool
starts_with hay [] = true
starts_with [] (n ∷ ns) = false
starts_with (h ∷ hs) (n ∷ ns) = h == n && starts_with hs ns

abbrev includes : List ℕ → List ℕ → Bool
includes [] needle = starts_with [] needle
includes (h ∷ hs) needle = starts_with (h ∷ hs) needle || includes hs needle

-- `" \t\r\n".includes(char)`: an empty cell counts as a space.
unfoldable pub is_space : List ℕ → Bool
is_space char = includes (b' ' ∷ 9 ∷ 13 ∷ 10 ∷ []) char

abbrev pub bool_eq : Bool → Bool → Bool
bool_eq true b = b
bool_eq false true = false
bool_eq false false = true

module _ (line : Line) (want : Bool) where
  -- while (col < line.length - 1 && isSpace(line.getCell(col + 1)!.getChars()) === want) col++;
  pub scan_right : ℕ → ℕ → Option ℕ
  scan_right zero col = none
  scan_right (suc fuel) col = elim (ltb col (line.length - 1)) [
    | true ↦ elim (line.get_cell (col + 1)) [
      | none ↦ none
      | some chars ↦ elim (bool_eq (is_space chars) want) [
        | true ↦ scan_right fuel (col + 1)
        | false ↦ some col
      ]
    ]
    | false ↦ some col
  ]

  -- while (col > 0 && isSpace(line.getCell(col - 1)!.getChars()) === want) col--;
  pub scan_left : ℕ → Option ℕ
  scan_left zero = some 0
  scan_left (suc col) = elim (line.get_cell col) [
    | none ↦ none
    | some chars ↦ elim (bool_eq (is_space chars) want) [
      | true ↦ scan_left col
      | false ↦ some (suc col)
    ]
  ]

abbrev at_row : ℕ → ℕ → Option MarkModePosition
at_row row col = some (record { col = col; row = row })

-- The second half of `findNextBoundaryPosition`, on the line below.
next_line_boundary : MarkModePosition → Option Line → Option MarkModePosition
next_line_boundary current none = some current
next_line_boundary current (some line) = do
  chars ← line.get_cell 0
  col ← scan_right line (is_space chars) (line.length + 1) 0
  at_row (current.row + 1) col

-- `nextChar` decides; it is `" "` behind the last column.
next_boundary_on : Terminal → MarkModePosition → Line → List ℕ → Option MarkModePosition
unfolding next_line_boundary
next_boundary_on term current line [] =
    next_line_boundary current (term.get_line (pos (current.row + 1)))
next_boundary_on term current line (c ∷ cs) = do
  col ← scan_right line (is_space (c ∷ cs)) (line.length + 1) current.col
  at_row current.row col

pub next_char : Line → ℕ → Option (List ℕ)
next_char line col = if ltb col (line.length - 1) then line.get_cell (col + 1) else some (b' ' ∷ [])

unfoldable pub find_next_boundary_position : Terminal → MarkModePosition → Option MarkModePosition
unfolding next_boundary_on next_char
find_next_boundary_position term current = elim (term.get_line (pos current.row)) [
  | none ↦ some current
  | some line ↦ next_char line current.col >>= next_boundary_on term current line
]

-- `line.getCell(col)?.getChars() ?? " "`
abbrev pub char_or_space : Line → ℕ → List ℕ
char_or_space line col = or_else (line.get_cell col) (b' ' ∷ [])

-- On the line above, from its last column. (A line has a column: `IsLine`.)
prev_line_boundary : MarkModePosition → Option Line → Option MarkModePosition
prev_line_boundary current none = some current
prev_line_boundary current (some line) = do
  col ← scan_left line (is_space (char_or_space line (line.length - 1))) (line.length - 1)
  at_row (current.row - 1) col

prev_boundary_on : Terminal → MarkModePosition → Line → ℕ → Option MarkModePosition
unfolding prev_line_boundary
prev_boundary_on term current line zero =
    prev_line_boundary current (term.get_line (sub_ℕ current.row 1))
prev_boundary_on term current line (suc col) = do
  c ← scan_left line (is_space (char_or_space line col)) (suc col)
  at_row current.row c

unfoldable pub find_prev_boundary_position : Terminal → MarkModePosition → Option MarkModePosition
unfolding prev_boundary_on
find_prev_boundary_position term current = elim (term.get_line (pos current.row)) [
  | none ↦ some current
  | some line ↦ prev_boundary_on term current line current.col
]
