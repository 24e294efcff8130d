-- ===== src/MarkMode/Boundary/Stops.antt =====
-- Where the boundary motions of frontend/src/markMode.ts stop.
use cozyssh.Prelude.{
  dec_lt, ℕ, zero, suc, ◌+◌, ◌-◌, ◌<◌, ◌≡◌, refl, inl, inr, List, [], ◌∷◌, none, some, Bool-cases,
  ltb, arith,
}
use cozyssh.Prelude.Int.{pos, sub_ℕ}
use cozyssh.MarkMode.Terminal.{
  Line, IsLine, Terminal, IsTerminal, MarkModePosition, InBuffer, InLine,
}
use cozyssh.MarkMode.Boundary.{
  is_space, next_char, char_or_space, find_next_boundary_position, find_prev_boundary_position,
  next_boundary_on, next_line_boundary, prev_boundary_on, prev_line_boundary,
}
use cozyssh.MarkMode.Boundary.Runs.{RunRight, RunLeft, scan_right_lem, scan_left_lem}

-- Forward: to the end of the run that the next cell begins; from an empty cell's left neighbour, to
-- the end of the run at the start of the line below; where there is no line below, nowhere.
pub data NextStop (term : Terminal) (current r : MarkModePosition) : Type 0 where
  along :
      (line : Line) (c : ℕ) (cs : List ℕ)
      → term.get_line (pos current.row) ≡ some line
      → next_char line current.col ≡ some (c ∷ cs)
      → r.row ≡ current.row
      → RunRight line (is_space (c ∷ cs)) current.col r.col
      → NextStop term current r
  below :
      (line next : Line) (chars : List ℕ)
      → term.get_line (pos current.row) ≡ some line
      → next_char line current.col ≡ some []
      → term.get_line (pos (current.row + 1)) ≡ some next
      → next.get_cell 0 ≡ some chars
      → r.row ≡ current.row + 1
      → RunRight next (is_space chars) 0 r.col
      → NextStop term current r
  stays :
      (line : Line)
      → term.get_line (pos current.row) ≡ some line
      → next_char line current.col ≡ some []
      → term.get_line (pos (current.row + 1)) ≡ none
      → r ≡ current
      → NextStop term current r

-- Backward: to the start of the run that the previous cell ends; from the first column, to the start
-- of the run that ends the line above; at the first cell of the buffer, nowhere.
pub data PrevStop (term : Terminal) (current r : MarkModePosition) : Type 0 where
  along :
      (line : Line) (col : ℕ)
      → term.get_line (pos current.row) ≡ some line
      → current.col ≡ suc col
      → r.row ≡ current.row
      → RunLeft line (is_space (char_or_space line col)) r.col current.col
      → PrevStop term current r
  above :
      (prev : Line)
      → current.col ≡ 0
      → current.row ≡ suc r.row
      → term.get_line (pos r.row) ≡ some prev
      → RunLeft prev (is_space (char_or_space prev (prev.length - 1))) r.col (prev.length - 1)
      → PrevStop term current r
  stays : current.col ≡ 0 → current.row ≡ 0 → r ≡ current → PrevStop term current r

row_above : (row : ℕ) → 0 < row → sub_ℕ row 1 ≡ pos (row - 1)
row_above row d = ground arith

module _ (term : Terminal) (t : IsTerminal term) where
  module _ (current : MarkModePosition) (g : InBuffer term current) (line : Line)
      (at : term.get_line (pos current.row) ≡ some line) (l : IsLine term.cols line) where
    next_line_lem :
        next_char line current.col ≡ some []
        → (r : MarkModePosition) × (next_line_boundary current
              (term.get_line (pos (current.row + 1)))
            ≡ some r)
          × InLine term r
          × NextStop term current r
    unfolding next_line_boundary
    next_line_lem n = elim (dec_lt (current.row + 1) term.length) [
      | yes d ↦
          let (next, e, k) = t.lines (current.row + 1) d in
          let (chars, c) = k.cells 0 (omega (arith, k.wide, t.has_cols)) in
          let (last, s, run, b) =
            scan_right_lem term.cols next (is_space chars) k (next.length + 1) 0 (omega arith)
              (omega (arith, k.wide, t.has_cols)) in
          (
            record { col = last; row = current.row + 1 },
            rw e (rw c (rw s)),
            record { line = next; at_row = e; in_line = b },
            below line next chars at n e c refl run,
          )
      | no d ↦
          let e = t.no_line_below (current.row + 1) (omega arith) in
          (
            current,
            rw e,
            record { line = line; at_row = at; in_line = omega (arith, l.wide, g.in_cols) },
            stays line at n e refl,
          )
    ]

    next_on_lem :
        (chars : List ℕ)
        → next_char line current.col ≡ some chars
        → (r : MarkModePosition) × (next_boundary_on term current line chars ≡ some r)
          × InLine term r
          × NextStop term current r
    unfolding next_boundary_on
    next_on_lem [] n = next_line_lem n
    next_on_lem (c ∷ cs) n =
        let (last, s, run, b) =
          scan_right_lem term.cols line (is_space (c ∷ cs)) l (line.length + 1) current.col
            (omega arith) (omega (arith, l.wide, g.in_cols)) in
        (
          record { col = last; row = current.row },
          rw s,
          record { line = line; at_row = at; in_line = b },
          along line c cs at n refl run,
        )

    next_char_lem : (chars : List ℕ) × (next_char line current.col ≡ some chars)
    unfolding next_char
    next_char_lem = elim (Bool-cases (ltb current.col (line.length - 1))) [
      | inl more ↦ let (chars, c) = l.cells (current.col + 1) (ground arith) in (chars, rw more c)
      | inr edge ↦ (b' ' ∷ [], rw edge)
    ]

  -- `moveUntilSpace` and `selectUntilSpace`: the motion raises no exception, its loops end, it stays
  -- in a line of the buffer (behind its last column only where the line is longer than the terminal
  -- is wide), and it stops where `NextStop` says.
  pub find_next_boundary_position_lem :
      (current : MarkModePosition)
      → InBuffer term current
      → (r : MarkModePosition) × (find_next_boundary_position term current ≡ some r)
        × InLine term r
        × NextStop term current r
  unfolding find_next_boundary_position
  find_next_boundary_position_lem current g =
      let (line, at, l) = t.lines current.row g.in_rows in
      let (chars, n) = next_char_lem current g line at l in
      let (r, e, b, s) = next_on_lem current g line at l chars n in
      (r, rw (at, find_next_boundary_position) (rw n e), b, s)

  module _ (current : MarkModePosition) (g : InBuffer term current) where
    prev_line_lem :
        (line : Line)
        → term.get_line (pos current.row) ≡ some line
        → IsLine term.cols line
        → current.col ≡ 0
        → (r : MarkModePosition) × (prev_line_boundary current (term.get_line (sub_ℕ current.row 1))
            ≡ some r)
          × InLine term r
          × PrevStop term current r
    unfolding prev_line_boundary
    prev_line_lem line at l z = elim (dec_lt 0 current.row) [
      | yes d ↦
          let (prev, e, k) = t.lines (current.row - 1) (omega (arith, g.in_rows)) in
          let (first, s, run) =
            scan_left_lem term.cols prev (is_space (char_or_space prev (prev.length - 1))) k
              (prev.length - 1) (omega (arith, k.wide, t.has_cols)) in
          (
            record { col = first; row = current.row - 1 },
            rw (row_above current.row d) (rw e (rw s)),
            record {
              line = prev;
              at_row = e;
              in_line = omega (arith, k.wide, run.starts, t.has_cols);
            },
            above prev z (omega arith) e run,
          )
      | no d ↦
          let o : current.row ≡ 0 = omega arith in
          (
            current,
            rw o (rw (t.no_line_above 0, prev_line_boundary)),
            record { line = line; at_row = at; in_line = omega (arith, l.wide, g.in_cols) },
            stays z o refl,
          )
    ]

    prev_on_lem :
        (line : Line)
        → term.get_line (pos current.row) ≡ some line
        → IsLine term.cols line
        → (col : ℕ) → current.col ≡ col
        → (r : MarkModePosition) × (prev_boundary_on term current line col ≡ some r)
          × InLine term r
          × PrevStop term current r
    unfolding prev_boundary_on
    prev_on_lem line at l zero e = prev_line_lem line at l e
    prev_on_lem line at l (suc col) e =
        let (first, s, run) =
          scan_left_lem term.cols line (is_space (char_or_space line col)) l (suc col)
            (omega (arith, l.wide, g.in_cols)) in
        (
          record { col = first; row = current.row },
          rw s,
          record {
            line = line;
            at_row = at;
            in_line = omega (arith, run.starts, l.wide, g.in_cols);
          },
          along line col at e refl (rw e run),
        )

  -- `moveUntilSpaceReverse` and `selectUntilSpaceReverse`: the motion raises no exception, its loops
  -- end, it stays in a line of the buffer (behind its last column only where the line is longer than
  -- the terminal is wide), and it stops where `PrevStop` says.
  pub find_prev_boundary_position_lem :
      (current : MarkModePosition)
      → InBuffer term current
      → (r : MarkModePosition) × (find_prev_boundary_position term current ≡ some r)
        × InLine term r
        × PrevStop term current r
  unfolding find_prev_boundary_position
  find_prev_boundary_position_lem current g =
      let (line, at, l) = t.lines current.row g.in_rows in
      let (r, e, b, s) = prev_on_lem current g line at l current.col refl in
      (r, rw (at, find_prev_boundary_position) e, b, s)
