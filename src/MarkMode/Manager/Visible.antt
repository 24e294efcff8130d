-- ===== src/MarkMode/Manager/Visible.antt =====
-- `scrollToCursor` of frontend/src/markMode.ts brings the cursor's row onto the screen, and
-- `updateVisuals` puts the overlay on it.
use cozyssh.Prelude.{
  Option, ◌∙◌, ap, refl, subst, sym, some, ℕ, ◌+◌, ◌-◌, ◌≤◌, ◌<◌, ◌≡◌, refl, subst, sym, some, Bool,
  true, false, not, if_elim, ltb, leb, arith,
}
use cozyssh.Prelude.Int.{ℤ, pos, sub_ℕ, ◌+ℤ◌}
use cozyssh.MarkMode.Terminal.{Terminal, IsTerminal, MarkModePosition, InBuffer}
use cozyssh.MarkMode.Manager.{
  new_manager, enter, dispose, apply_selection, place, Manager, block, update_visuals, overlay_at,
  scroll_to_cursor, scroll_by, place, clamped, set_cursor,
}
use cozyssh.MarkMode.Manager.Valid.{
  IsSetUp, enter-IsSetUp, exit-IsValid, IsValid, IsScroll, has_overlay, clamped-InBuffer,
}

abbrev pub IsShown : Manager → Type 0
IsShown m = (m.term.viewport_y ≤ m.cursor.row) × (m.cursor.row < m.term.viewport_y + m.term.rows)

scroll_up : (v r : ℕ) → r < v → pos v +ℤ sub_ℕ r v ≡ pos r
unfolding ◌+ℤ◌
scroll_up v r h = ground arith

scroll_down :
    (v r rows : ℕ) → 0 < rows → v + rows ≤ r → pos v +ℤ sub_ℕ r (v + rows - 1) ≡ pos (r + 1 - rows)
unfolding ◌+ℤ◌
scroll_down v r rows p h = ground arith

overlay_shown :
    (m : Manager)
    → IsShown m
    → overlay_at m.term m.cursor ≡ block m.cursor.col (m.cursor.row - m.term.viewport_y)
overlay_shown m h = ground arith

place_frame :
    (extend : Bool) (p : MarkModePosition) (m : Manager)
    → ((place extend p m).cursor ≡ p)
      × ((place extend p m).term ≡ m.term)
      × ((place extend p m).is_active ≡ m.is_active)
      × ((place extend p m).cursor_element ≡ m.cursor_element)
unfolding place apply_selection
place_frame true p m = (refl, refl, refl, refl)
place_frame false p m = (refl, refl, refl, refl)

module _ (scroll : ℤ → Terminal → ℕ) (sc : IsScroll scroll) where
  pub scroll_to_cursor-IsShown :
      (m : Manager)
      → IsTerminal m.term
      → InBuffer m.term m.cursor
      → m.is_active ≡ true
      → IsShown (scroll_to_cursor scroll m)
  unfolding scroll_to_cursor
  scroll_to_cursor-IsShown m t g on =
      if_elim IsShown (not m.is_active) (λ off. absurd (ground arith))
        λ _.
          if_elim IsShown (ltb m.cursor.row m.term.viewport_y) (λ above. up (ground arith))
            λ inside.
              if_elim IsShown (leb (m.term.viewport_y + m.term.rows) m.cursor.row)
                (λ under. down (ground arith)) (λ shown. (ground arith, ground arith))
    where
      up :
          m.cursor.row < m.term.viewport_y
          → IsShown (scroll_by scroll (sub_ℕ m.cursor.row m.term.viewport_y) m)
      up h =
          let e =
            sc.exact (sub_ℕ m.cursor.row m.term.viewport_y) m.term m.cursor.row (scroll_up _ _ h)
              (omega (arith, t.in_scrollback)) in
          (omega (arith, e), omega (arith, e, t.has_rows))

      down :
          m.term.viewport_y + m.term.rows ≤ m.cursor.row
          → IsShown (scroll_by scroll (sub_ℕ m.cursor.row (m.term.viewport_y + m.term.rows - 1)) m)
      down h =
          let e =
            sc.exact (sub_ℕ m.cursor.row (m.term.viewport_y + m.term.rows - 1)) m.term
              (m.cursor.row + 1 - m.term.rows) (scroll_down _ _ _ t.has_rows h)
              (omega (arith, t.has_screen, g.in_rows)) in
          (omega (arith, e, t.has_rows), omega (arith, e, t.has_rows))

  scroll_to_cursor_frame :
      (m : Manager)
      → ((scroll_to_cursor scroll m).cursor ≡ m.cursor)
        × ((scroll_to_cursor scroll m).is_active ≡ m.is_active)
        × ((scroll_to_cursor scroll m).cursor_element ≡ m.cursor_element)
  unfolding scroll_to_cursor
  scroll_to_cursor_frame m = ground arith

  IsShown-by_update :
      (m : Manager)
      → IsShown m
      → m.is_active ≡ true
      → has_overlay m.cursor_element ≡ true
      → IsShown (update_visuals m)
        × ((update_visuals m).cursor ≡ m.cursor)
        × ((update_visuals m).cursor_element
            ≡ some (block m.cursor.col (m.cursor.row - (update_visuals m).term.viewport_y)))
  unfolding update_visuals
  IsShown-by_update m h on o = ground (arith, overlay_shown m h)

  -- After `setCursor` in an active mark mode the cursor is where it was asked to be, clamped to the
  -- buffer, its row is on the screen, and the overlay is drawn over its cell.
  pub set_cursor-IsShown :
      (col row : ℤ) (extend : Bool) (m : Manager)
      → IsValid m
      → m.is_active ≡ true
      → let n = set_cursor scroll col row extend m in
        (n.cursor ≡ clamped m.term col row)
        × IsShown n
        × (n.cursor_element ≡ some (block n.cursor.col (n.cursor.row - n.term.viewport_y)))
  unfolding set_cursor
  set_cursor-IsShown col row extend m v on =
      if_elim Goal m.is_active (λ _. shown) (λ off. absurd (ground arith))
    where
      Goal : Manager → Type 0
      Goal n =
          (n.cursor ≡ clamped m.term col row)
          × IsShown n
          × (n.cursor_element ≡ some (block n.cursor.col (n.cursor.row - n.term.viewport_y)))

      p : Manager
      p = place extend (clamped m.term col row) m

      s : Manager
      s = scroll_to_cursor scroll p

      shown : Goal (update_visuals s)
      shown =
          let (pc, pt, pa, pe) = place_frame extend (clamped m.term col row) m in
          let (sc', sa, se) = scroll_to_cursor_frame p in
          let on' : p.is_active ≡ true = pa ∙ on in
          let inside : InBuffer p.term p.cursor =
            rw (pc, pt) (clamped-InBuffer m.term col row v.terminal) in
          let (k, c, e) =
            IsShown-by_update s
              (scroll_to_cursor-IsShown p (subst IsTerminal (sym pt) v.terminal) inside on')
              (sa ∙ on') (ap has_overlay (se ∙ pe) ∙ v.overlay ∙ on) in
          (
            c ∙ sc' ∙ pc,
            k,
            e ∙ ap (λ q. some (block q.col (q.row - (update_visuals s).term.viewport_y))) (sym c),
          )

  -- A new manager on a terminal is valid; it is set up when mark mode is entered on it, with
  -- whatever selection, and when it is then disposed of.
  pub new_manager-IsValid :
      (term : Terminal) (selection : Option (MarkModePosition × MarkModePosition))
      → IsTerminal term
      → IsValid (new_manager term)
        × IsSetUp (enter scroll selection (new_manager term))
        × IsSetUp (dispose (enter scroll selection (new_manager term)))
  unfolding dispose
  new_manager-IsValid term selection t =
      let entered = (enter-IsSetUp scroll sc selection (new_manager term) created).0 in
      (created, entered, exit-IsValid _ entered)
    where
      created : IsValid (new_manager term)
      created = record {
        terminal = t;
        cursor_in = λ on. cc;
        anchor_in = λ on. cc;
        no_selection = λ _. refl;
        overlay = refl;
        badge = refl;
        subscriptions = refl;
      }
