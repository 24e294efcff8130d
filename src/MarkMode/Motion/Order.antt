-- ===== src/MarkMode/Motion/Order.antt =====
-- The reading order of the buffer's cells: `nextPos` and `prevPos` of frontend/src/markMode.ts.
use cozyssh.Prelude.{ℕ, ◌+◌, ◌-◌, ◌*◌, ◌≤◌, ◌<◌, ◌≡◌, ◌⊎◌, inl, inr, none, some, arith}
use cozyssh.MarkMode.Terminal.{Terminal, MarkModePosition, IsTerminal, InBuffer, last_position}
use cozyssh.MarkMode.Motion.{next_pos, prev_pos}

-- A position's place in the buffer, counted along the rows.
abbrev pub index : Terminal → MarkModePosition → ℕ
index term p = p.row * term.cols + p.col

mul_row : (row length cols : ℕ) → row < length → row * cols + cols < length * cols + 1
mul_row row length cols h = grind arith

same_row : (row row' cols : ℕ) → row ≡ row' → row * cols ≡ row' * cols
same_row row row' cols e = rw e

next_row : (row row' cols : ℕ) → row' ≡ row + 1 → row' * cols ≡ row * cols + cols
next_row row row' cols e = rw e (omega arith)

pub index-lt :
    (term : Terminal) (p : MarkModePosition)
    → InBuffer term p
    → index term p < term.length * term.cols
index-lt term p h = omega (arith, mul_row p.row term.length term.cols h.in_rows)

module _ (term : Terminal) (p : MarkModePosition) where
  pub next_pos-none : InBuffer term p → next_pos term p ≡ none → p ≡ last_position term
  unfolding next_pos
  next_pos-none h e = ground arith

  pub prev_pos-none : prev_pos term p ≡ none → p ≡ record { col = 0; row = 0 }
  unfolding prev_pos
  prev_pos-none e = ground arith

  pub next_pos-InBuffer :
      (q : MarkModePosition)
      → IsTerminal term
      → InBuffer term p
      → next_pos term p ≡ some q
      → InBuffer term q
  unfolding next_pos
  next_pos-InBuffer q t h e = ground (arith, t.has_cols)

  pub prev_pos-InBuffer :
      (q : MarkModePosition)
      → IsTerminal term
      → InBuffer term p
      → prev_pos term p ≡ some q
      → InBuffer term q
  unfolding prev_pos
  prev_pos-InBuffer q t h e = ground (arith, t.has_cols)

  -- Inside the buffer `prevPos` goes back from where `nextPos` leads.
  pub prev_pos-next_pos :
      (q : MarkModePosition)
      → IsTerminal term
      → InBuffer term p
      → next_pos term p ≡ some q
      → prev_pos term q ≡ some p
  unfolding next_pos prev_pos
  prev_pos-next_pos q t h e = ground (arith, t.has_cols)

  pub next_pos-prev_pos :
      (q : MarkModePosition)
      → IsTerminal term
      → InBuffer term p
      → prev_pos term p ≡ some q
      → next_pos term q ≡ some p
  unfolding next_pos prev_pos
  next_pos-prev_pos q t h e = ground (arith, t.has_cols)

  next_pos-cases :
      (q : MarkModePosition)
      → next_pos term p ≡ some q
      → ((q.row ≡ p.row) × (q.col ≡ p.col + 1))
        ⊎ ((q.row ≡ p.row + 1) × (q.col ≡ 0) × (term.cols ≤ p.col + 1))
  unfolding next_pos
  next_pos-cases q e = ground arith

  prev_pos-cases :
      (q : MarkModePosition)
      → prev_pos term p ≡ some q
      → ((q.row ≡ p.row) × (p.col ≡ q.col + 1))
        ⊎ ((p.row ≡ q.row + 1) × (p.col ≡ 0) × (q.col ≡ term.cols - 1))
  unfolding prev_pos
  prev_pos-cases q e = ground arith

  pub index-next_pos :
      (q : MarkModePosition)
      → InBuffer term p
      → next_pos term p ≡ some q
      → index term q ≡ index term p + 1
  index-next_pos q h e = elim (next_pos-cases q e) [
    | inl (r, c) ↦ omega (arith, same_row q.row p.row term.cols r)
    | inr (r, c, l) ↦ omega (arith, h.in_cols, next_row p.row q.row term.cols r)
  ]

  pub index-prev_pos :
      (q : MarkModePosition)
      → 0 < term.cols
      → prev_pos term p ≡ some q
      → index term p ≡ index term q + 1
  index-prev_pos q h e = elim (prev_pos-cases q e) [
    | inl (r, c) ↦ omega (arith, same_row q.row p.row term.cols r)
    | inr (r, c, l) ↦ omega (arith, next_row q.row p.row term.cols r)
  ]
