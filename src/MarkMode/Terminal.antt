-- ===== src/MarkMode/Terminal.antt =====
-- What mark mode reads of an xterm.js terminal, and the two types of frontend/src/markMode.ts that
-- every part of it shares. The terminal is a package's: its lines and cells are functions, and what
-- the package documents about them is the record `IsTerminal`, a hypothesis of the theorems.
use cozyssh.Prelude.{ℕ, ◌+◌, ◌-◌, ◌≤◌, ◌<◌, ◌≡◌, List, Option, none, some}
use cozyssh.Prelude.Int.{ℤ, pos, negsuc}

-- A cell is the text that `getChars` returns, as its code units; `none` is `undefined`.
pub record Line : Type 0 where
  pub length : ℕ
  pub get_cell : ℕ → Option (List ℕ)

pub record Terminal : Type 0 where
  pub cols : ℕ
  pub rows : ℕ
  pub length : ℕ
  pub base_y : ℕ
  pub viewport_y : ℕ
  pub cursor_x : ℕ
  pub cursor_y : ℕ
  pub get_line : ℤ → Option Line

-- xterm.js: a terminal has columns, the buffer has a line for each row on the screen, `getLine` is
-- defined in the buffer and nowhere else, a line is at least as long as the terminal is wide (it may
-- be longer after a resize), and `getCell` is defined on its length.
pub record IsLine (cols : ℕ) (l : Line) : Type 0 where
  pub wide : cols ≤ l.length
  pub cells : (col : ℕ) → col < l.length → (c : List ℕ) × (l.get_cell col ≡ some c)

pub record IsTerminal (term : Terminal) : Type 0 where
  pub has_cols : 0 < term.cols
  pub has_rows : 0 < term.rows
  pub has_screen : term.base_y + term.rows ≡ term.length
  pub in_scrollback : term.viewport_y ≤ term.base_y
  pub lines :
      (row : ℕ)
      → row < term.length
      → (l : Line) × (term.get_line (pos row) ≡ some l) × IsLine term.cols l
  pub no_line_below : (row : ℕ) → term.length ≤ row → term.get_line (pos row) ≡ none
  pub no_line_above : (n : ℕ) → term.get_line (negsuc n) ≡ none

-- `col` counts from 0 to cols - 1, `row` from 0 to length - 1.
pub record MarkModePosition : Type 0 where
  pub col : ℕ
  pub row : ℕ

pub record InBuffer (term : Terminal) (p : MarkModePosition) : Type 0 where
  pub in_cols : p.col < term.cols
  pub in_rows : p.row < term.length

-- In a line of the buffer, which may go on behind the last column.
pub record InLine (term : Terminal) (p : MarkModePosition) : Type 0 where
  pub line : Line
  pub at_row : term.get_line (pos p.row) ≡ some line
  pub in_line : p.col < line.length

-- { col: term.cols - 1, row: Math.max(0, term.buffer.active.length - 1) }
abbrev pub last_position : Terminal → MarkModePosition
last_position term = record { col = term.cols - 1; row = term.length - 1 }
