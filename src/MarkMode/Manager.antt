-- ===== src/MarkMode/Manager.antt =====
-- `MarkModeManager` of frontend/src/markMode.ts as a record, and each of its methods as a function
-- to the record after the call. What a method asks of the terminal, of the clipboard or of the page
-- is a `Call`, newest first; `scroll` says where a `scrollLines` puts the viewport.
pub mod Valid
pub mod Visible
pub mod Selection
pub mod BufferChange
use cozyssh.Prelude.{
  ℕ, suc, ◌+◌, ◌-◌, ◌*◌, ◌≤◌, ◌≡◌, List, [], ◌∷◌, Option, none, some, Bool, true, false, ◌&&◌, ◌||◌,
  not, min, max, ltb, leb, ◌==◌, if◌then◌else◌,
}
use cozyssh.Prelude.Int.{ℤ, pos, negsuc, pos_part, sub_ℕ, ◌+ℤ◌, ltb_ℤ}
use cozyssh.MarkMode.Terminal.{Terminal, MarkModePosition, Line}
use cozyssh.MarkMode.Motion.{get_char}

pub data Call : Type 0 where
  -- term.select(column, row, length)
  select : ℕ → ℕ → ℕ → Call
  select_all clear_selection focus : Call
  scroll_lines : ℤ → Call
  write_clipboard : List ℕ → Call
  state_change : Bool → Call

-- The style of the overlay: not yet placed, `display: none`, or shown at a column and a row of the
-- viewport, in cells.
pub data Overlay : Type 0 where
  fresh hidden : Overlay
  block : ℕ → ℕ → Overlay

pub record Manager : Type 0 where
  pub term : Terminal
  pub is_active : Bool
  pub cursor : MarkModePosition
  pub anchor : MarkModePosition
  pub is_selecting : Bool
  pub cursor_element : Option Overlay
  pub badge_element : Bool
  pub disposables : ℕ
  pub calls : List Call

-- The constructor; the key table and the action table are arguments of the dispatcher.
abbrev pub new_manager : Terminal → Manager
new_manager term = record {
  term = term;
  is_active = false;
  cursor = record { col = 0; row = 0 };
  anchor = record { col = 0; row = 0 };
  is_selecting = false;
  cursor_element = none;
  badge_element = false;
  disposables = 0;
  calls = [];
}

abbrev pub ask : Call → Manager → Manager
ask c m = record m { calls = c ∷ m.calls }

abbrev pub overlay_at : Terminal → MarkModePosition → Overlay
overlay_at term p =
    if leb term.viewport_y p.row && ltb (p.row - term.viewport_y) term.rows
    then block p.col (p.row - term.viewport_y)
    else hidden

unfoldable pub update_visuals : Manager → Manager
update_visuals m =
    if m.is_active
    then record m {
      cursor_element = elim m.cursor_element [
        | none ↦ none
        | some o ↦ some (overlay_at m.term m.cursor)
      ];
    }
    else m

-- The column, the row and the length that `_applySelection` hands to `select`.
abbrev pub is_reversed : MarkModePosition → MarkModePosition → Bool
is_reversed cursor anchor =
    ltb cursor.row anchor.row || cursor.row == anchor.row && ltb cursor.col anchor.col

abbrev pub selection_start : MarkModePosition → MarkModePosition → MarkModePosition
selection_start cursor anchor = if is_reversed cursor anchor then cursor else anchor

abbrev pub selection_end : MarkModePosition → MarkModePosition → MarkModePosition
selection_end cursor anchor = if is_reversed cursor anchor then anchor else cursor

unfoldable pub selection_length : ℕ → MarkModePosition → MarkModePosition → ℕ
selection_length cols start end =
    if start.row == end.row
    then end.col - start.col + 1
    else cols - start.col + (end.row - start.row - 1) * cols + (end.col + 1)

unfoldable pub apply_selection : Manager → Manager
apply_selection m =
    let start = selection_start m.cursor m.anchor in
    let end = selection_end m.cursor m.anchor in
    ask (select start.col start.row (max 1 (selection_length m.term.cols start end))) m

unfoldable pub clear_selection_of : Manager → Manager
clear_selection_of m =
    update_visuals (ask clear_selection (record m { is_selecting = false; anchor = m.cursor }))

pub setup_dom : Manager → Manager
setup_dom m = record m {
  cursor_element = elim m.cursor_element [ none ↦ some fresh | some o ↦ some o ];
  badge_element = true;
}

-- `_setupDOM()` and the three subscriptions.
pub open_page : Manager → Manager
unfolding setup_dom
open_page m = let n = setup_dom m in record n { disposables = n.disposables + 3 }

pub teardown_dom : Manager → Manager
teardown_dom m = record m { cursor_element = none; badge_element = false }

unfoldable pub exit : Manager → Manager
unfolding teardown_dom
exit m =
    if m.is_active
    then ask (state_change false)
        (ask focus (record (teardown_dom (record m { is_active = false })) { disposables = 0 }))
    else m

unfoldable pub dispose : Manager → Manager
unfolding exit
dispose m = exit m

unfoldable pub on_buffer_change : Manager → Manager
on_buffer_change m =
    if not m.is_active
    then m
    else if leb m.term.length m.term.rows && m.term.base_y == 0 && ltb m.term.length m.cursor.row
    then exit m
    else let max_row = m.term.length - 1 in
      let n = record m {
        cursor = record (m.cursor) { row = min m.cursor.row max_row };
        anchor = record (m.anchor) { row = min m.anchor.row max_row };
      } in
      update_visuals (if n.is_selecting then apply_selection n else n)

-- `selected` is what `term.getSelection()` returns; an empty cell or a missing one copies nothing.
unfoldable pub copy_selection : List ℕ → Manager → Manager
copy_selection (c ∷ cs) m = ask (write_clipboard (c ∷ cs)) m
copy_selection [] m = elim (get_char m.term m.cursor) [
  | [] ↦ m
  | c ∷ cs ↦ ask (write_clipboard (c ∷ cs)) m
]

unfoldable pub copy_and_exit : List ℕ → Manager → Manager
copy_and_exit selected m = exit (copy_selection selected m)

-- Where the terminal's prompt stands.
abbrev pub prompt : Terminal → MarkModePosition
prompt term = record {
  col = min term.cursor_x (term.cols - 1);
  row = min (term.base_y + term.cursor_y) (term.length - 1);
}

abbrev pub clamped : Terminal → ℤ → ℤ → MarkModePosition
clamped term col row = record {
  col = min (pos_part col) (term.cols - 1);
  row = min (pos_part row) (term.length - 1);
}

unfoldable pub place : Bool → MarkModePosition → Manager → Manager
place true p m = apply_selection (record m { cursor = p; is_selecting = true })
place false p m = ask clear_selection (record m { cursor = p; is_selecting = false; anchor = p })

-- The horizontal wrap of `moveCursor`, from the new column and row.
unfoldable pub wrap : Terminal → ℤ → ℤ → ℤ → ℤ × ℤ
wrap term delta_col col row =
    if ltb_ℤ delta_col (pos 0) && ltb_ℤ col (pos 0)
    then if ltb_ℤ (pos 0) row then (sub_ℕ term.cols 1, row +ℤ negsuc 0) else (pos 0, row)
    else if ltb_ℤ (pos 0) delta_col && not (ltb_ℤ col (pos term.cols))
    then if ltb_ℤ row (sub_ℕ term.length 1) then (pos 0, row +ℤ pos 1) else (sub_ℕ term.cols 1, row)
    else (col, row)

-- `selection` is what `term.getSelectionPosition()` returns.
pub start_at : Option (MarkModePosition × MarkModePosition) → Manager → Manager
start_at (some (start, end)) m = record m { anchor = start; cursor = end; is_selecting = true }
start_at none m =
    let p = prompt m.term in
    ask clear_selection (record m { cursor = p; anchor = p; is_selecting = false })

-- The viewport's first row after a `scrollLines`.
module _ (scroll : ℤ → Terminal → ℕ) where
  abbrev pub scroll_by : ℤ → Manager → Manager
  scroll_by n m =
      ask (scroll_lines n) (record m { term = record (m.term) { viewport_y = scroll n m.term } })

  unfoldable pub scroll_to_cursor : Manager → Manager
  scroll_to_cursor m =
      if not m.is_active
      then m
      else if ltb m.cursor.row m.term.viewport_y
      then scroll_by (sub_ℕ m.cursor.row m.term.viewport_y) m
      else if leb (m.term.viewport_y + m.term.rows) m.cursor.row
      then scroll_by (sub_ℕ m.cursor.row (m.term.viewport_y + m.term.rows - 1)) m
      else m

  unfoldable pub set_cursor : ℤ → ℤ → Bool → Manager → Manager
  set_cursor col row extend_selection m =
      if m.is_active
      then update_visuals (scroll_to_cursor (place extend_selection (clamped m.term col row) m))
      else m

  unfoldable pub move_cursor : ℤ → ℤ → Bool → Manager → Manager
  move_cursor delta_col delta_row extend_selection m =
      let (col, row) =
        wrap m.term delta_col (pos m.cursor.col +ℤ delta_col) (pos m.cursor.row +ℤ delta_row) in
      if m.is_active then set_cursor col row extend_selection m else m

  unfoldable pub enter : Option (MarkModePosition × MarkModePosition) → Manager → Manager
  enter selection m =
      if m.is_active
      then m
      else ask (state_change true) (
          update_visuals
            (scroll_to_cursor (open_page (start_at selection (record m { is_active = true })))))

  unfoldable pub toggle : Option (MarkModePosition × MarkModePosition) → Manager → Manager
  toggle selection m = if m.is_active then exit m else enter selection m
