-- ===== src/MarkMode/Tests.antt =====
-- A small terminal and managers on it: the tests of mark mode, and a concrete case of each theorem
-- that has hypotheses (frontend/src/markMode.ts).
use cozyssh.Prelude.{
  ℕ, ◌-◌, ◌≡◌, refl, List, [], ◌∷◌, Option, none, some, true, false, ltb, ◌==◌, min, arith,
  if◌then◌else◌, if_elim, ap,
}
use cozyssh.Prelude.Int.{ℤ, pos, negsuc, pos_part, ◌+ℤ◌}
use cozyssh.MarkMode.Motion.{
  or_else, next_pos, prev_pos, find_next_word_position, find_prev_word_position,
  find_end_of_word_position,
}
use cozyssh.MarkMode.Motion.Walk.{First}
use cozyssh.MarkMode.Motion.Groups.{is_word_start, is_word_end}
use cozyssh.MarkMode.Motion.Words.{
  find_next_word_position_lem, find_prev_word_position_lem, find_end_of_word_position_lem,
}
use cozyssh.MarkMode.Boundary.{find_next_boundary_position}
use cozyssh.MarkMode.Boundary.Stops.{NextStop, find_next_boundary_position_lem}
use cozyssh.MarkMode.Manager.{
  Manager, block, select_all, on_buffer_change, set_cursor, move_cursor, clamped,
}
use cozyssh.MarkMode.Manager.Valid.{IsValid, IsScroll}
use cozyssh.MarkMode.Manager.Visible.{IsShown, set_cursor-IsShown}
use cozyssh.MarkMode.Manager.BufferChange.{on_buffer_change_narrow}
use cozyssh.MarkMode.Actions.{
  lookup, named, mark_mode_actions, handle_key_down, select_all_in, get_context,
}
use cozyssh.MarkMode.Actions.Keymap.{default_mark_mode_keymap}
use cozyssh.MarkMode.Actions.Total.{handle_key_down_lem}
use cozyssh.MarkMode.Actions.Moves.{move_cursor_lem, select_all_lem, select_all_lem}
use cozyssh.MarkMode.Terminal.{
  Line, Terminal, IsLine, IsTerminal, MarkModePosition, InBuffer, InLine, last_position,
}

abbrev chars_at : ℕ → ℕ → List ℕ
chars_at row col = if col == row then b' ' ∷ [] else b'a' ∷ []

-- One cell longer than the terminal is wide.
abbrev line_at : ℕ → Line
line_at row = record {
  length = 4;
  get_cell = λ col. if ltb col 4 then some (chars_at row col) else none;
}

-- Two rows on the screen, and one in the scrollback, which is on the screen now.
abbrev screen : Terminal
screen = record {
  cols = 3;
  rows = 2;
  length = 3;
  base_y = 1;
  viewport_y = 0;
  cursor_x = 1;
  cursor_y = 1;
  get_line =
      λ row. elim row [ pos n ↦ if ltb n 3 then some (line_at n) else none | negsuc n ↦ none ];
}

line_at-IsLine : (row : ℕ) → IsLine 3 (line_at row)
line_at-IsLine row = record {
  wide = omega arith;
  cells = λ col h. (
    chars_at row col,
    if_elim (λ o. o ≡ some (chars_at row col)) (ltb col 4) (λ _. refl) (λ n. absurd (ground arith)),
  );
}

screen-IsTerminal : IsTerminal screen
screen-IsTerminal = record {
  has_cols = omega arith;
  has_rows = omega arith;
  has_screen = refl;
  in_scrollback = omega arith;
  lines = λ row h. (
    line_at row,
    if_elim (λ o. o ≡ some (line_at row)) (ltb row 3) (λ _. refl) (λ n. absurd (ground arith)),
    line_at-IsLine row,
  );
  no_line_below = λ row h.
      if_elim {A = Option Line} (λ o. o ≡ none) (ltb row 3) (λ y. absurd (ground arith))
        (λ _. refl);
  no_line_above = λ n. refl;
}

abbrev at : ℕ → ℕ → MarkModePosition
at col row = record { col = col; row = row }

middle-InBuffer : InBuffer screen (at 1 1)
middle-InBuffer = record { in_cols = omega arith; in_rows = omega arith }

-- A `scrollLines` that stops at the ends of the scrollback.
abbrev scroll : ℤ → Terminal → ℕ
scroll n term = min (pos_part (pos term.viewport_y +ℤ n)) term.base_y

scroll-IsScroll : IsScroll scroll
scroll-IsScroll = record {
  within = λ n term. omega arith;
  exact = λ n term v e h. let k = ap pos_part e in omega arith;
}

abbrev inactive : Manager
inactive = record {
  term = screen;
  is_active = false;
  cursor = at 0 0;
  anchor = at 0 0;
  is_selecting = false;
  cursor_element = none;
  badge_element = false;
  disposables = 0;
  calls = [];
}

abbrev active : Manager
active = record inactive {
  is_active = true;
  cursor = at 1 1;
  anchor = at 1 1;
  cursor_element = some (block 1 1);
  badge_element = true;
  disposables = 3;
}

active-IsValid : IsValid active
active-IsValid = record {
  terminal = screen-IsTerminal;
  cursor_in = λ _. middle-InBuffer;
  anchor_in = λ _. middle-InBuffer;
  no_selection = λ _. refl;
  overlay = refl;
  badge = refl;
  subscriptions = refl;
}

-- The manager with a selection that runs back from the last row.
abbrev selecting : Manager
selecting = record active { anchor = at 0 2; is_selecting = true }

-- The terminal after the scrollback is lost.
abbrev shorter : Terminal
shorter = record {
  cols = 3;
  rows = 1;
  length = 1;
  base_y = 0;
  viewport_y = 0;
  cursor_x = 0;
  cursor_y = 0;
  get_line =
      λ row. elim row [ pos n ↦ if ltb n 1 then some (line_at n) else none | negsuc n ↦ none ];
}

next_of_edge : next_pos screen (at 2 1) ≡ some (at 0 2)
unfolding next_pos
next_of_edge = refl

bound_w : lookup "w" default_mark_mode_keymap ≡ some (named "wordRight")
unfolding default_mark_mode_keymap
bound_w = refl

find_next_word_position_lem_example :
    (r : Option MarkModePosition) × (find_next_word_position screen (at 1 1) false
      ≡ some (or_else r (last_position screen)))
    × First (next_pos screen) (is_word_start screen false) (next_pos screen (at 1 1)) r
find_next_word_position_lem_example =
    find_next_word_position_lem screen (at 1 1) false screen-IsTerminal middle-InBuffer

find_prev_word_position_lem_example :
    (r : Option MarkModePosition) × (find_prev_word_position screen (at 1 1) true
      ≡ some (or_else r (at 0 0)))
    × First (prev_pos screen) (is_word_start screen true) (prev_pos screen (at 1 1)) r
find_prev_word_position_lem_example =
    find_prev_word_position_lem screen (at 1 1) true screen-IsTerminal middle-InBuffer

find_end_of_word_position_lem_example :
    (r : Option MarkModePosition) × (find_end_of_word_position screen (at 1 1) false
      ≡ some (or_else r (last_position screen)))
    × First (next_pos screen) (is_word_end screen false) (next_pos screen (at 1 1)) r
find_end_of_word_position_lem_example =
    find_end_of_word_position_lem screen (at 1 1) false screen-IsTerminal middle-InBuffer

find_next_boundary_position_lem_example :
    (r : MarkModePosition) × (find_next_boundary_position screen (at 1 1) ≡ some r)
    × InLine screen r
    × NextStop screen (at 1 1) r
find_next_boundary_position_lem_example =
    find_next_boundary_position_lem screen screen-IsTerminal (at 1 1) middle-InBuffer

handle_key_down_lem_example :
    (n : Manager) × (handle_key_down default_mark_mode_keymap
        (mark_mode_actions scroll [])
        "w"
        active
      ≡ (true, some n))
    × IsValid n
handle_key_down_lem_example =
    handle_key_down_lem scroll [] "w" active scroll-IsScroll active-IsValid refl

set_cursor-IsShown_example :
    let n = set_cursor scroll (pos 7) (pos 2) true active in
    (n.cursor ≡ clamped screen (pos 7) (pos 2))
    × IsShown n
    × (n.cursor_element ≡ some (block n.cursor.col (n.cursor.row - n.term.viewport_y)))
set_cursor-IsShown_example =
    set_cursor-IsShown scroll scroll-IsScroll (pos 7) (pos 2) true active active-IsValid refl

move_cursor_lem_example :
    ((move_cursor scroll (pos 1) (pos 0) true active).cursor
      ≡ or_else (next_pos screen (at 1 1)) (at 1 1))
    × ((move_cursor scroll (negsuc 0) (pos 0) true active).cursor
        ≡ or_else (prev_pos screen (at 1 1)) (at 1 1))
    × ((move_cursor scroll (pos 0) (pos 4) true active).cursor ≡ at 1 2)
unfolding ◌+ℤ◌
move_cursor_lem_example =
    move_cursor_lem scroll scroll-IsScroll true active active-IsValid refl (pos 4)

on_buffer_change_narrow_example :
    ¬ InBuffer
      (on_buffer_change (record active { term = record screen { cols = 1 } })).term
      (on_buffer_change (record active { term = record screen { cols = 1 } })).cursor
on_buffer_change_narrow_example =
    on_buffer_change_narrow (record active { term = record screen { cols = 1 } }) (omega arith)

select_all_lem_example :
    let ctx = select_all_in (get_context selecting) in
    (handle_key_down default_mark_mode_keymap (mark_mode_actions scroll []) "ctrl+a" selecting
      ≡ (true, some ctx.manager))
    × (ctx.manager.calls ≡ select_all ∷ [])
    × (ctx.manager.cursor ≡ at 1 1)
    × (ctx.manager.anchor ≡ at 0 2)
    × (ctx.manager.is_selecting ≡ true)
    × (ctx.anchor ≡ at 0 0)
    × (ctx.cursor ≡ at 2 2)
    × (ctx.is_selecting ≡ true)
select_all_lem_example = select_all_lem scroll [] selecting refl
