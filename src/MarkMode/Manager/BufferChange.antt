-- ===== src/MarkMode/Manager/BufferChange.antt =====
-- `onBufferChange` of frontend/src/markMode.ts.
use cozyssh.Prelude.{
  ap, true, false, ◌&&◌, leb, ltb, not, ◌==◌, ◌-◌, ◌≤◌, ap, true, false, not, ◌&&◌, min, ltb, leb,
  ◌==◌, arith,
}
use cozyssh.MarkMode.Terminal.{Terminal, MarkModePosition, InBuffer}
use cozyssh.MarkMode.Manager.{Manager, on_buffer_change, exit, apply_selection, update_visuals}

abbrev clamp_row : Terminal → MarkModePosition → MarkModePosition
clamp_row term p = record p { row = min p.row (term.length - 1) }

abbrev clamp_rows : Manager → Manager
clamp_rows m = record m { cursor = clamp_row m.term m.cursor; anchor = clamp_row m.term m.anchor }

-- `onBufferChange` clamps rows only: where the terminal has become so narrow that the cursor's column
-- is not one of its columns, the cursor is still outside the buffer after the call.
pub on_buffer_change_narrow :
    (m : Manager)
    → m.term.cols ≤ m.cursor.col
    → ¬ InBuffer (on_buffer_change m).term (on_buffer_change m).cursor
unfolding on_buffer_change exit update_visuals apply_selection
on_buffer_change_narrow m narrow g = ground arith
