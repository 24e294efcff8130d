-- ===== src/MarkMode/Actions/Moves.antt =====
-- What `moveCursor` and `setCursor` of frontend/src/markMode.ts do to the cursor and the selection.
use cozyssh.Prelude.{
  ◌∙◌, false, true, if_elim, refl, Bool, some, ◌∷◌, ◌-◌, ◌≡◌, min, arith, ℕ, Bool, true, List,
  false, if_elim,
}
use cozyssh.Prelude.Int.{ℤ, pos, negsuc, pos_part, ◌+ℤ◌}
use cozyssh.MarkMode.Terminal.{Terminal, IsTerminal, MarkModePosition, InBuffer}
use cozyssh.MarkMode.Motion.{or_else, next_pos, prev_pos}
use cozyssh.MarkMode.Manager.Valid.{IsValid, IsScroll}
use cozyssh.MarkMode.Manager.Visible.{set_cursor-IsShown}
use cozyssh.MarkMode.Actions.Keymap.{default_mark_mode_keymap}
use cozyssh.MarkMode.Actions.{
  select_all_cells, Handler, Binding, handle_key_down, String, select_all_in, get_context,
  mark_mode_actions, last_position,
}
use cozyssh.MarkMode.Manager.{
  select_all, exit, on_buffer_change, Manager, set_cursor, move_cursor, place, apply_selection,
  scroll_to_cursor, update_visuals, wrap, clamped, place, apply_selection, Manager, set_cursor,
  update_visuals, scroll_to_cursor,
}

abbrev clamp_pair : Terminal → ℤ × ℤ → MarkModePosition
clamp_pair term (col, row) = clamped term col row

module _ (term : Terminal) (p : MarkModePosition) (t : IsTerminal term) (g : InBuffer term p) where
  wrap-right :
      clamp_pair term (wrap term (pos 1) (pos p.col +ℤ pos 1) (pos p.row +ℤ pos 0))
      ≡ or_else (next_pos term p) p
  unfolding wrap next_pos ◌+ℤ◌
  wrap-right = ground (arith, t.has_cols)

  wrap-left :
      clamp_pair term (wrap term (negsuc 0) (pos p.col +ℤ negsuc 0) (pos p.row +ℤ pos 0))
      ≡ or_else (prev_pos term p) p
  unfolding wrap prev_pos ◌+ℤ◌
  wrap-left = ground (arith, t.has_cols)

  wrap-vertical :
      (d : ℤ)
      → clamp_pair term (wrap term (pos 0) (pos p.col +ℤ pos 0) (pos p.row +ℤ d))
        ≡ record { col = p.col; row = min (pos_part (pos p.row +ℤ d)) (term.length - 1) }
  unfolding wrap ◌+ℤ◌
  wrap-vertical d = ground (arith, t.has_cols)

module _ (scroll : ℤ → Terminal → ℕ) (sc : IsScroll scroll) (extend : Bool) (m : Manager)
    (v : IsValid m) (on : m.is_active ≡ true) where
  move-clamped :
      (col row : ℤ)
      → (move_cursor scroll col row extend m).cursor
        ≡ clamp_pair m.term (wrap m.term col (pos m.cursor.col +ℤ col) (pos m.cursor.row +ℤ row))
  unfolding move_cursor
  move-clamped col row =
      if_elim {A = Manager}
        (λ n.
          n.cursor
          ≡ clamp_pair m.term (wrap m.term col (pos m.cursor.col +ℤ col) (pos m.cursor.row +ℤ row)))
        m.is_active (λ _. (set_cursor-IsShown scroll sc _ _ extend m v on).0)
        (λ off. absurd (ground arith))

  -- In an active and valid mark mode `moveCursor(1, 0)` goes where `nextPos` does, and
  -- `moveCursor(-1, 0)` where `prevPos` does, and at the ends of the buffer nowhere; a vertical move
  -- keeps the column, and stops at the first and the last row.
  pub move_cursor_lem :
      (d : ℤ)
      → ((move_cursor scroll (pos 1) (pos 0) extend m).cursor
          ≡ or_else (next_pos m.term m.cursor) m.cursor)
        × ((move_cursor scroll (negsuc 0) (pos 0) extend m).cursor
            ≡ or_else (prev_pos m.term m.cursor) m.cursor)
        × ((move_cursor scroll (pos 0) d extend m).cursor ≡ record {
          col = m.cursor.col;
          row = min (pos_part (pos m.cursor.row +ℤ d)) (m.term.length - 1);
        })
  move_cursor_lem d =
      let g = v.cursor_in on in
      (
        move-clamped _ _ ∙ wrap-right m.term m.cursor v.terminal g,
        move-clamped _ _ ∙ wrap-left m.term m.cursor v.terminal g,
        move-clamped _ _ ∙ wrap-vertical m.term m.cursor v.terminal g d,
      )

-- What a placed cursor means for the selection.
abbrev pub Selects : Bool → Manager → Manager → Type 0
Selects true m n = (n.anchor ≡ m.anchor) × (n.is_selecting ≡ true)
Selects false m n = (n.anchor ≡ n.cursor) × (n.is_selecting ≡ false)

place-Selects :
    (extend : Bool) (p : MarkModePosition) (m : Manager) → Selects extend m (place extend p m)
unfolding place apply_selection
place-Selects true p m = (refl, refl)
place-Selects false p m = (refl, refl)

module _ (scroll : ℤ → Terminal → ℕ) where
  frame-Selects :
      (extend : Bool) (m n : Manager)
      → Selects extend m n
      → Selects extend m (update_visuals (scroll_to_cursor scroll n))
  unfolding update_visuals scroll_to_cursor
  frame-Selects true m n s = ground arith
  frame-Selects false m n s = ground arith

  -- In an active mode, `setCursor` with `extendSelection` keeps the anchor and selects; without, the
  -- anchor goes to the cursor and nothing is selected.
  pub set_cursor-Selects :
      (col row : ℤ) (extend : Bool) (m : Manager)
      → m.is_active ≡ true
      → Selects extend m (set_cursor scroll col row extend m)
  unfolding set_cursor
  set_cursor-Selects col row extend m on =
      if_elim (Selects extend m) m.is_active
        (λ _. frame-Selects extend m _ (place-Selects extend _ m)) (λ off. absurd (ground arith))

  -- In an inactive mode nothing has an effect but `enter`: no motion, no scrolling, no change of the
  -- buffer, no `exit`, and a key is left to the terminal.
  pub inactive_lem :
      (keymap : List (String × Binding)) (actions : List (String × Handler)) (keycomb : String)
      (col row : ℤ) (extend : Bool) (m : Manager)
      → m.is_active ≡ false
      → (set_cursor scroll col row extend m ≡ m)
        × (move_cursor scroll col row extend m ≡ m)
        × (scroll_to_cursor scroll m ≡ m)
        × (update_visuals m ≡ m)
        × (on_buffer_change m ≡ m)
        × (exit m ≡ m)
        × (handle_key_down keymap actions keycomb m ≡ (false, some m))
  unfolding set_cursor move_cursor scroll_to_cursor update_visuals on_buffer_change exit
      handle_key_down
  inactive_lem keymap actions keycomb col row extend m off =
      simp off (refl, refl, refl, refl, refl, refl, refl)

  -- Pressing ctrl+a in an active mark mode with the default bindings and actions asks the terminal to
  -- select everything. The context that the handler was given spans the whole buffer then, but the
  -- manager's own cursor, anchor and `_isSelecting` are what they were.
  pub select_all_lem :
      (selected : List ℕ) (m : Manager)
      → m.is_active ≡ true
      → let ctx = select_all_in (get_context m) in
        (handle_key_down default_mark_mode_keymap (mark_mode_actions scroll selected) "ctrl+a" m
          ≡ (true, some ctx.manager))
        × (ctx.manager.calls ≡ select_all ∷ m.calls)
        × (ctx.manager.cursor ≡ m.cursor)
        × (ctx.manager.anchor ≡ m.anchor)
        × (ctx.manager.is_selecting ≡ m.is_selecting)
        × (ctx.anchor ≡ record { col = 0; row = 0 })
        × (ctx.cursor ≡ last_position m.term)
        × (ctx.is_selecting ≡ true)
  unfolding select_all_in get_context update_visuals handle_key_down default_mark_mode_keymap
      mark_mode_actions select_all_cells
  select_all_lem selected m on =
      (simp on refl, ground arith, ground arith, ground arith, ground arith, refl, refl, refl)
