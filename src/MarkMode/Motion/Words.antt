-- ===== src/MarkMode/Motion/Words.antt =====
-- The word motions of frontend/src/markMode.ts against a definition of the words: each stops at
-- the first cell in its direction that starts (for `w`, `b`) or ends (for `e`) a group.
use cozyssh.Prelude.{◌≡◌, ap, inl, inr, Option, none, some, Bool, Option-cases}
use cozyssh.MarkMode.Terminal.{Terminal, MarkModePosition, IsTerminal, InBuffer, last_position}
use cozyssh.MarkMode.Motion.{
  next_pos, prev_pos, or_else, find_next_word_position, find_prev_word_position,
  find_end_of_word_position,
}
use cozyssh.MarkMode.Motion.Order.{
  next_pos-InBuffer, prev_pos-InBuffer, next_pos-none, prev_pos-none,
}
use cozyssh.MarkMode.Motion.Walk.{First, end, forward, backward, backward_fuel, forward_fuel}
use cozyssh.MarkMode.Motion.Groups.{is_word_start, is_word_end, word_group_lem}
use cozyssh.MarkMode.Motion.NextWord.{next_word_lem}

-- `w` and `W`: the cursor goes to the first cell after it that starts a word, or to the last cell
-- of the buffer if there is none. The loops end. A word is a run of non-blank cells of one class in
-- reading order: the end of a row does not end it, and an empty row is blank, unlike in vim.
pub find_next_word_position_lem :
    (term : Terminal) (current : MarkModePosition) (big_word : Bool)
    → IsTerminal term
    → InBuffer term current
    → (r : Option MarkModePosition) × (find_next_word_position term current big_word
        ≡ some (or_else r (last_position term)))
      × First (next_pos term) (is_word_start term big_word) (next_pos term current) r
unfolding find_next_word_position
find_next_word_position_lem term current big_word t g =
    elim (Option-cases (next_pos term current)) [
      | inl n ↦ (
        none,
        rw (n, find_next_word_position) (ap some (next_pos-none term current g n)),
        rw n end,
      )
      | inr (first, n) ↦
          let (r, e, f) = next_word_lem term big_word t current first g n in
          (r, rw (n, find_next_word_position) e, rw n f)
    ]

-- `b` and `B`: the cursor goes to the first cell that starts a word, of those before it and
-- backwards, or to the first cell of the buffer if there is none. The loops end. A word is a run of
-- non-blank cells of one class in reading order: the end of a row does not end it, and an empty row
-- is blank, unlike in vim.
pub find_prev_word_position_lem :
    (term : Terminal) (current : MarkModePosition) (big_word : Bool)
    → IsTerminal term
    → InBuffer term current
    → (r : Option MarkModePosition) × (find_prev_word_position term current big_word
        ≡ some (or_else r (record { col = 0; row = 0 })))
      × First (prev_pos term) (is_word_start term big_word) (prev_pos term current) r
unfolding find_prev_word_position
find_prev_word_position_lem term current big_word t g =
    elim (Option-cases (prev_pos term current)) [
      | inl n ↦
          (none, rw (n, find_prev_word_position) (ap some (prev_pos-none term current n)), rw n end)
      | inr (first, n) ↦
          let (r, e, f, _) =
            word_group_lem term big_word (backward term t) (record { col = 0; row = 0 }) current
              first (backward_fuel term t) (prev_pos-InBuffer term current first t g n) in
          (r, rw (n, find_prev_word_position) e, rw n f)
    ]

-- `e` and `E`: the cursor goes to the first cell after it that ends a word, or to the last cell of
-- the buffer if there is none. The loops end. A word is a run of non-blank cells of one class in
-- reading order: the end of a row does not end it, and an empty row is blank, unlike in vim.
pub find_end_of_word_position_lem :
    (term : Terminal) (current : MarkModePosition) (big_word : Bool)
    → IsTerminal term
    → InBuffer term current
    → (r : Option MarkModePosition) × (find_end_of_word_position term current big_word
        ≡ some (or_else r (last_position term)))
      × First (next_pos term) (is_word_end term big_word) (next_pos term current) r
unfolding find_end_of_word_position
find_end_of_word_position_lem term current big_word t g =
    elim (Option-cases (next_pos term current)) [
      | inl n ↦ (
        none,
        rw (n, find_end_of_word_position) (ap some (next_pos-none term current g n)),
        rw n end,
      )
      | inr (first, n) ↦
          let (r, e, f, _) =
            word_group_lem term big_word (forward term t) (last_position term) current first
              (forward_fuel term t) (next_pos-InBuffer term current first t g n) in
          (r, rw (n, find_end_of_word_position) e, rw n f)
    ]
