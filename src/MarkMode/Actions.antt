-- ===== src/MarkMode/Actions.antt =====
-- The action handlers of mark mode, its key bindings, and the key dispatcher
-- (`markModeActions`, `MarkModeManager.handleKeyDown`, `registerAction`, `registerKeybinding` of
-- frontend/src/markMode.ts). A handler gives the manager after it, or `none` where it throws.
pub mod Keymap
pub mod Total
pub mod Moves
pub mod Bindings
use cozyssh.Prelude.{
  ℕ, ◌-◌, ◌/◌, List, [], ◌∷◌, Option, none, some, Bool, true, false, max, String, str_eq,
  if◌then◌else◌,
}
use cozyssh.Prelude.Int.{ℤ, pos, negsuc, sub_ℕ}
use cozyssh.MarkMode.Terminal.{Terminal, MarkModePosition, last_position}
use cozyssh.MarkMode.Motion.{
  ◌>>=◌, find_next_word_position, find_prev_word_position, find_end_of_word_position,
}
use cozyssh.MarkMode.Boundary.{find_next_boundary_position, find_prev_boundary_position}
use cozyssh.MarkMode.Manager.{
  Manager, ask, select_all, update_visuals, set_cursor, move_cursor, clear_selection_of,
  copy_selection, copy_and_exit, exit,
}

abbrev pub Handler : Type 0
Handler = Manager → Option Manager

-- A key is bound to the name of an action, or to a handler of its own.
pub data Binding : Type 0 where
  named : String → Binding
  handler : Handler → Binding

-- A JavaScript object as the list of its entries, the latest first.
abbrev pub lookup {ℓ} : {V : Type ℓ} → String → List (String × V) → Option V
lookup k [] = none
lookup k ((j, v) ∷ m) = if str_eq j k then some v else lookup k m

abbrev pub Motion : Type 0
Motion = Terminal → MarkModePosition → Option MarkModePosition

abbrev pub word_left : Bool → Motion
word_left big_word term p = find_prev_word_position term p big_word

abbrev pub word_right : Bool → Motion
word_right big_word term p = find_next_word_position term p big_word

abbrev pub word_end : Bool → Motion
word_end big_word term p = find_end_of_word_position term p big_word

abbrev pub half_page : Terminal → ℕ
half_page term = max 1 (term.rows / 2)

abbrev pub page : Terminal → ℕ
page term = max 1 term.rows

-- `MarkModeContext`: the values are copies of the manager's, its methods are the manager's own.
pub record Context : Type 0 where
  pub manager : Manager
  pub cursor : MarkModePosition
  pub anchor : MarkModePosition
  pub is_selecting : Bool

unfoldable pub get_context : Manager → Context
get_context m = record {
  manager = m;
  cursor = m.cursor;
  anchor = m.anchor;
  is_selecting = m.is_selecting;
}

-- The body of `selectAll`, on the object that it is called with.
unfoldable pub select_all_in : Context → Context
select_all_in ctx =
    let asked = record ctx { manager = ask select_all ctx.manager } in
    let assigned = record asked {
      anchor = record { col = 0; row = 0 };
      cursor = last_position ctx.manager.term;
      is_selecting = true;
    } in
    record assigned { manager = update_visuals assigned.manager }

-- `scroll` is the terminal's, `selected` the text of its selection.
module _ (scroll : ℤ → Terminal → ℕ) (selected : List ℕ) where
  abbrev pub by : ℤ → ℤ → Bool → Handler
  by delta_col delta_row extend m = some (move_cursor scroll delta_col delta_row extend m)

  abbrev pub to : Motion → Bool → Handler
  to find extend m = do
    p ← find m.term m.cursor
    some (set_cursor scroll (pos p.col) (pos p.row) extend m)

  abbrev pub line_start : Bool → Handler
  line_start extend m = some (set_cursor scroll (pos 0) (pos m.cursor.row) extend m)

  abbrev pub line_end : Bool → Handler
  line_end extend m = some (set_cursor scroll (sub_ℕ m.term.cols 1) (pos m.cursor.row) extend m)

  abbrev pub up : (Terminal → ℕ) → Bool → Handler
  up lines extend m = by (pos 0) (sub_ℕ 0 (lines m.term)) extend m

  abbrev pub down : (Terminal → ℕ) → Bool → Handler
  down lines extend m = by (pos 0) (pos (lines m.term)) extend m

  abbrev pub top_of_buffer : Bool → Handler
  top_of_buffer extend m = some (set_cursor scroll (pos 0) (pos 0) extend m)

  abbrev pub bottom_of_buffer : Handler
  bottom_of_buffer m = some (set_cursor scroll (pos 0) (pos (m.term.length - 1)) false m)

  abbrev pub select_bottom_of_buffer : Handler
  select_bottom_of_buffer m =
      some (set_cursor scroll (sub_ℕ m.term.cols 1) (pos (m.term.length - 1)) true m)

  abbrev pub toggle_visual : Handler
  toggle_visual m = some (
      if m.is_selecting
      then clear_selection_of m
      else set_cursor scroll (pos m.cursor.col) (pos m.cursor.row) true m)

  -- What the handler leaves of the manager that `_getContext` has copied.
  unfoldable pub select_all_cells : Handler
  unfolding select_all_in get_context
  select_all_cells m = some (select_all_in (get_context m)).manager

  abbrev pub copy : Handler
  copy m = some (copy_selection selected m)

  abbrev pub copy_and_leave : Handler
  copy_and_leave m = some (copy_and_exit selected m)

  abbrev pub leave : Handler
  leave m = some (exit m)

  unfoldable pub mark_mode_actions : List (String × Handler)
  mark_mode_actions =
      ("moveLeft", by (negsuc 0) (pos 0) false)
      ∷ ("moveRight", by (pos 1) (pos 0) false)
      ∷ ("moveUp", by (pos 0) (negsuc 0) false)
      ∷ ("moveDown", by (pos 0) (pos 1) false)
      ∷ ("selectLeft", by (negsuc 0) (pos 0) true)
      ∷ ("selectRight", by (pos 1) (pos 0) true)
      ∷ ("selectUp", by (pos 0) (negsuc 0) true)
      ∷ ("selectDown", by (pos 0) (pos 1) true)
      ∷ ("lineStart", line_start false)
      ∷ ("lineEnd", line_end false)
      ∷ ("selectLineStart", line_start true)
      ∷ ("selectLineEnd", line_end true)
      ∷ ("moveUntilSpace", to find_next_boundary_position false)
      ∷ ("moveUntilSpaceReverse", to find_prev_boundary_position false)
      ∷ ("selectUntilSpace", to find_next_boundary_position true)
      ∷ ("selectUntilSpaceReverse", to find_prev_boundary_position true)
      ∷ ("wordLeft", to (word_left false) false)
      ∷ ("wordRight", to (word_right false) false)
      ∷ ("wordEnd", to (word_end false) false)
      ∷ ("selectWordLeft", to (word_left false) true)
      ∷ ("selectWordRight", to (word_right false) true)
      ∷ ("selectWordEnd", to (word_end false) true)
      ∷ ("bigWordLeft", to (word_left true) false)
      ∷ ("bigWordRight", to (word_right true) false)
      ∷ ("bigWordEnd", to (word_end true) false)
      ∷ ("selectBigWordLeft", to (word_left true) true)
      ∷ ("selectBigWordRight", to (word_right true) true)
      ∷ ("selectBigWordEnd", to (word_end true) true)
      ∷ ("halfPageUp", up half_page false)
      ∷ ("halfPageDown", down half_page false)
      ∷ ("pageUp", up page false)
      ∷ ("pageDown", down page false)
      ∷ ("selectHalfPageUp", up half_page true)
      ∷ ("selectHalfPageDown", down half_page true)
      ∷ ("selectPageUp", up page true)
      ∷ ("selectPageDown", down page true)
      ∷ ("topOfBuffer", top_of_buffer false)
      ∷ ("bottomOfBuffer", bottom_of_buffer)
      ∷ ("selectTopOfBuffer", top_of_buffer true)
      ∷ ("selectBottomOfBuffer", select_bottom_of_buffer)
      ∷ ("toggleVisual", toggle_visual)
      ∷ ("selectAll", select_all_cells)
      ∷ ("copy", copy)
      ∷ ("copyAndExit", copy_and_leave)
      ∷ ("exit", leave)
      ∷ []

-- `true` says that the key was taken.
unfoldable pub handle_key_down :
    List (String × Binding) → List (String × Handler) → String → Manager → Bool × Option Manager
handle_key_down keymap actions keycomb m =
    if m.is_active
    then (
      true,
      elim (lookup keycomb keymap) [
        | none ↦ some m
        | some (handler h) ↦ h m
        | some (named name) ↦ elim (lookup name actions) [ none ↦ some m | some h ↦ h m ]
      ],
    )
    else (false, some m)

unfoldable pub register_action :
    String → Handler → List (String × Handler) → List (String × Handler)
register_action name h actions = (name, h) ∷ actions

unfoldable pub register_keybinding :
    String → Binding → List (String × Binding) → List (String × Binding)
register_keybinding keycomb b keymap = (keycomb, b) ∷ keymap
