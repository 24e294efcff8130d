-- ===== src/MarkMode/Manager/Valid.antt =====
-- The invariant of `MarkModeManager` of frontend/src/markMode.ts, and that its methods keep it.
use cozyssh.Prelude.{
  inl, inr, Bool-cases, ◌+◌, subst, if_elim, not, sym, refl, ◌∷◌, [], if◌then◌else◌, ℕ, ◌≤◌, ◌≡◌,
  Option, none, some, Bool, true, false, arith, Bool-cases,
}
use cozyssh.Prelude.Int.{ℤ, pos, ◌+ℤ◌}
use cozyssh.MarkMode.Terminal.{Terminal, IsTerminal, InBuffer}
use cozyssh.MarkMode.Manager.{
  open_page, state_change, focus, prompt, Call, ask, overlay_at, write_clipboard, teardown_dom,
  Overlay, Manager, update_visuals, exit, Overlay, move_cursor, MarkModePosition, scroll_to_cursor,
  place, set_cursor, clamped, clear_selection_of, apply_selection, copy_selection, scroll_by,
  copy_and_exit, List, get_char, ltb, leb, enter, start_at,
}

abbrev pub has_overlay : Option Overlay → Bool
has_overlay none = false
has_overlay (some o) = true

-- While the mode is active the cursor and the anchor stand where `In` says. Without a selection they
-- are one. The overlay and the badge are on the page, and the three subscriptions are held, exactly
-- while the mode is active.
pub record IsValidIn (In : Terminal → MarkModePosition → Type 0) (m : Manager) : Type 0 where
  pub terminal : IsTerminal m.term
  pub cursor_in : m.is_active ≡ true → In m.term m.cursor
  pub anchor_in : m.is_active ≡ true → In m.term m.anchor
  pub no_selection : m.is_selecting ≡ false → m.anchor ≡ m.cursor
  pub overlay : has_overlay m.cursor_element ≡ m.is_active
  pub badge : m.badge_element ≡ m.is_active
  pub subscriptions : m.disposables ≡ (if m.is_active then 3 else 0)

-- With the cursor and the anchor in the buffer.
abbrev pub IsValid : Manager → Type 0
IsValid = IsValidIn InBuffer

abbrev pub Anywhere : Terminal → MarkModePosition → Type 0
Anywhere term p = Unit

-- Wherever the cursor and the anchor are.
abbrev pub IsSetUp : Manager → Type 0
IsSetUp = IsValidIn Anywhere

-- xterm.js: `scrollLines` keeps the viewport in the scrollback, and moves by the whole amount where
-- that does.
pub record IsScroll (scroll : ℤ → Terminal → ℕ) : Type 0 where
  pub within : (n : ℤ) (term : Terminal) → scroll n term ≤ term.base_y
  pub exact :
      (n : ℤ) (term : Terminal) (v : ℕ)
      → pos term.viewport_y +ℤ n ≡ pos v
      → v ≤ term.base_y
      → scroll n term ≡ v

abbrev pub Keeps : (Manager → Manager) → Type 0
Keeps f = (m : Manager) → IsValid m → IsValid (f m)

abbrev pub KeepsIn : (Terminal → MarkModePosition → Type 0) → (Manager → Manager) → Type 0
KeepsIn In f = (m : Manager) → IsValidIn In m → IsValidIn In (f m)

-- What does not depend on the place of the viewport.
abbrev IsBuffer : (Terminal → MarkModePosition → Type 0) → Type 0
IsBuffer In =
    (term : Terminal) (v : ℕ) (p : MarkModePosition)
    → In term p
    → In (record term { viewport_y = v }) p

module _ {In : Terminal → MarkModePosition → Type 0} where
  pub ask-IsValid : (c : Call) → KeepsIn In (ask c)
  ask-IsValid c m v = record {
    terminal = v.terminal;
    cursor_in = v.cursor_in;
    anchor_in = v.anchor_in;
    no_selection = v.no_selection;
    overlay = v.overlay;
    badge = v.badge;
    subscriptions = v.subscriptions;
  }

  pub update_visuals-IsValid : KeepsIn In update_visuals
  unfolding update_visuals
  update_visuals-IsValid m v =
      if_elim (IsValidIn In) m.is_active (λ on. drawn m.cursor_element v.overlay) (λ off. v)
    where
      drawn :
          (o : Option Overlay)
          → has_overlay o ≡ m.is_active
          → IsValidIn In (record m {
            cursor_element = elim o [ none ↦ none | some p ↦ some (overlay_at m.term m.cursor) ];
          })
      drawn o e = record {
        terminal = v.terminal;
        cursor_in = v.cursor_in;
        anchor_in = v.anchor_in;
        no_selection = v.no_selection;
        overlay = ground arith;
        badge = v.badge;
        subscriptions = v.subscriptions;
      }

  -- Nothing is asked of the cursor: it is set anew by the next `enter`.
  pub exit-IsValid_of_active :
      (m : Manager)
      → m.is_active ≡ true
      → IsTerminal m.term
      → (m.is_selecting ≡ false → m.anchor ≡ m.cursor)
      → IsValidIn In (exit m)
  unfolding exit teardown_dom
  exit-IsValid_of_active m on t s = if_elim (IsValidIn In) m.is_active (λ _. closed) (λ off. cc)
    where
      closed : IsValidIn In (
          ask (state_change false) (
            ask focus (record (teardown_dom (record m { is_active = false })) { disposables = 0 })))
      closed = record {
        terminal = t;
        cursor_in = λ e. cc;
        anchor_in = λ e. cc;
        no_selection = s;
        overlay = refl;
        badge = refl;
        subscriptions = refl;
      }

exit_of_inactive : (m : Manager) → m.is_active ≡ false → exit m ≡ m
unfolding exit
exit_of_inactive m off = if_elim (λ n. n ≡ m) m.is_active (λ on. cc) (λ _. refl)

pub exit-IsValid : {In : Terminal → MarkModePosition → Type 0} → KeepsIn In exit
exit-IsValid {In} m v = elim (Bool-cases m.is_active) [
  | inl on ↦ exit-IsValid_of_active m on v.terminal v.no_selection
  | inr off ↦ subst (IsValidIn In) (sym (exit_of_inactive m off)) v
]

apply_selection-IsValid :
    (m : Manager) → IsValid m → m.is_selecting ≡ true → IsValid (apply_selection m)
unfolding apply_selection
apply_selection-IsValid m v s = ask-IsValid _ m v

pub copy_selection-IsValid : (selected : List ℕ) → Keeps (copy_selection selected)
unfolding copy_selection
copy_selection-IsValid (c ∷ cs) m v = ask-IsValid _ m v
copy_selection-IsValid [] m v = copied (get_char m.term m.cursor)
  where
    copied :
        (char : List ℕ) → IsValid (elim char [ [] ↦ m | c ∷ cs ↦ ask (write_clipboard (c ∷ cs)) m ])
    copied [] = v
    copied (c ∷ cs) = ask-IsValid _ m v

pub copy_and_exit-IsValid : (selected : List ℕ) → Keeps (copy_and_exit selected)
unfolding copy_and_exit
copy_and_exit-IsValid selected m v = exit-IsValid _ (copy_selection-IsValid selected m v)

viewport-IsTerminal :
    (term : Terminal) (v : ℕ)
    → IsTerminal term
    → v ≤ term.base_y
    → IsTerminal (record term { viewport_y = v })
viewport-IsTerminal term v t h = record {
  has_cols = t.has_cols;
  has_rows = t.has_rows;
  has_screen = t.has_screen;
  in_scrollback = h;
  lines = t.lines;
  no_line_below = t.no_line_below;
  no_line_above = t.no_line_above;
}

viewport-InBuffer :
    (term : Terminal) (v : ℕ) (p : MarkModePosition)
    → InBuffer term p
    → InBuffer (record term { viewport_y = v }) p
viewport-InBuffer term v p g = record { in_cols = g.in_cols; in_rows = g.in_rows }

pub clamped-InBuffer :
    (term : Terminal) (col row : ℤ) → IsTerminal term → InBuffer term (clamped term col row)
clamped-InBuffer term col row t = omega (arith, t.has_cols, t.has_rows, t.has_screen)

pub place-IsValid :
    (extend : Bool) (p : MarkModePosition) (m : Manager)
    → IsValid m
    → (m.is_active ≡ true → InBuffer m.term p)
    → IsValid (place extend p m)
unfolding place
place-IsValid true p m v g = apply_selection-IsValid _ selecting refl
  where
    selecting : IsValid (record m { cursor = p; is_selecting = true })
    selecting = record {
      terminal = v.terminal;
      cursor_in = g;
      anchor_in = v.anchor_in;
      no_selection = λ e. cc;
      overlay = v.overlay;
      badge = v.badge;
      subscriptions = v.subscriptions;
    }
place-IsValid false p m v g = record {
  terminal = v.terminal;
  cursor_in = g;
  anchor_in = g;
  no_selection = λ e. refl;
  overlay = v.overlay;
  badge = v.badge;
  subscriptions = v.subscriptions;
}

pub clear_selection_of-IsValid : Keeps clear_selection_of
unfolding clear_selection_of place
clear_selection_of-IsValid m v =
    update_visuals-IsValid _ (place-IsValid false m.cursor m v v.cursor_in)

module _ (scroll : ℤ → Terminal → ℕ) (sc : IsScroll scroll) where
  module _ {In : Terminal → MarkModePosition → Type 0} (stable : IsBuffer In) where
    scroll_by-IsValidIn : (n : ℤ) → KeepsIn In (scroll_by scroll n)
    scroll_by-IsValidIn n m v = record {
      terminal = viewport-IsTerminal m.term _ v.terminal (sc.within n m.term);
      cursor_in = λ e. stable m.term _ m.cursor (v.cursor_in e);
      anchor_in = λ e. stable m.term _ m.anchor (v.anchor_in e);
      no_selection = v.no_selection;
      overlay = v.overlay;
      badge = v.badge;
      subscriptions = v.subscriptions;
    }

    scroll_to_cursor-IsValidIn : KeepsIn In (scroll_to_cursor scroll)
    unfolding scroll_to_cursor
    scroll_to_cursor-IsValidIn m v =
        if_elim (IsValidIn In) (not m.is_active) (λ off. v)
          λ on.
            if_elim (IsValidIn In) (ltb m.cursor.row m.term.viewport_y)
              (λ above. scroll_by-IsValidIn _ m v)
              λ inside.
                if_elim (IsValidIn In) (leb (m.term.viewport_y + m.term.rows) m.cursor.row)
                  (λ under. scroll_by-IsValidIn _ m v) (λ shown. v)

  pub scroll_to_cursor-IsValid : Keeps (scroll_to_cursor scroll)
  scroll_to_cursor-IsValid = scroll_to_cursor-IsValidIn viewport-InBuffer

  pub set_cursor-IsValid : (col row : ℤ) (extend : Bool) → Keeps (set_cursor scroll col row extend)
  unfolding set_cursor
  set_cursor-IsValid col row extend m v = if_elim IsValid m.is_active (λ on. set) (λ off. v)
    where
      placed : IsValid (place extend (clamped m.term col row) m)
      placed =
          place-IsValid extend (clamped m.term col row) m v
            (λ _. clamped-InBuffer m.term col row v.terminal)

      set :
          IsValid
            (update_visuals (scroll_to_cursor scroll (place extend (clamped m.term col row) m)))
      set = update_visuals-IsValid _ (scroll_to_cursor-IsValid _ placed)

  pub move_cursor-IsValid :
      (col row : ℤ) (extend : Bool) → Keeps (move_cursor scroll col row extend)
  unfolding move_cursor
  move_cursor-IsValid col row extend m v =
      if_elim IsValid m.is_active (λ on. set_cursor-IsValid _ _ extend m v) (λ off. v)

  -- A closed manager is set up again with its page elements and subscriptions.
  opened-IsValidIn :
      (In : Terminal → MarkModePosition → Type 0) (m n : Manager)
      → IsValid m
      → m.is_active ≡ false
      → n.is_active ≡ true
      → n.term ≡ m.term
      → n.cursor_element ≡ m.cursor_element
      → n.disposables ≡ m.disposables
      → In n.term n.cursor
      → In n.term n.anchor
      → (n.is_selecting ≡ false → n.anchor ≡ n.cursor)
      → IsValidIn In (open_page n)
  unfolding open_page
  opened-IsValidIn In m n v off on t e d c a s = record {
    terminal = subst IsTerminal (sym t) v.terminal;
    cursor_in = λ _. c;
    anchor_in = λ _. a;
    no_selection = s;
    overlay = ground arith;
    badge = sym on;
    subscriptions = ground (arith, v.subscriptions);
  }

  abbrev started : Option (MarkModePosition × MarkModePosition) → Manager → Manager
  started selection m = open_page (start_at selection (record m { is_active = true }))

  started-IsSetUp :
      (selection : Option (MarkModePosition × MarkModePosition)) (m : Manager)
      → IsValid m
      → m.is_active ≡ false
      → IsSetUp (started selection m)
  unfolding start_at
  started-IsSetUp (some (start, end)) m v off =
      opened-IsValidIn Anywhere m _ v off refl refl refl refl tt tt (λ e. cc)
  started-IsSetUp none m v off =
      opened-IsValidIn Anywhere m _ v off refl refl refl refl tt tt (λ e. refl)

  started-IsValid : (m : Manager) → IsValid m → m.is_active ≡ false → IsValid (started none m)
  unfolding start_at
  started-IsValid m v off =
      opened-IsValidIn InBuffer m _ v off refl refl refl refl here here (λ e. refl)
    where
      here : InBuffer m.term (prompt m.term)
      here = omega (arith, v.terminal.has_cols, v.terminal.has_rows, v.terminal.has_screen)

  forget-IsValid : (m : Manager) → IsValid m → IsSetUp m
  forget-IsValid m v = record {
    terminal = v.terminal;
    cursor_in = λ _. tt;
    anchor_in = λ _. tt;
    no_selection = v.no_selection;
    overlay = v.overlay;
    badge = v.badge;
    subscriptions = v.subscriptions;
  }

  entered-IsValidIn :
      {In : Terminal → MarkModePosition → Type 0}
      (selection : Option (MarkModePosition × MarkModePosition)) (m : Manager)
      → IsBuffer In
      → IsValidIn In m
      → (m.is_active ≡ false → IsValidIn In (started selection m))
      → IsValidIn In (enter scroll selection m)
  unfolding enter
  entered-IsValidIn {In} selection m stable v g =
      if_elim (IsValidIn In) m.is_active (λ on. v)
        λ off.
          ask-IsValid _ _ (update_visuals-IsValid _ (scroll_to_cursor-IsValidIn stable _ (g off)))

  -- `enter`, whatever selection the terminal has, and with none.
  pub enter-IsSetUp :
      (selection : Option (MarkModePosition × MarkModePosition)) (m : Manager)
      → IsValid m
      → IsSetUp (enter scroll selection m) × IsValid (enter scroll none m)
  enter-IsSetUp selection m v = (
    entered-IsValidIn selection m (λ _ _ _ _. tt) (forget-IsValid m v)
        (started-IsSetUp selection m v),
    entered-IsValidIn none m viewport-InBuffer v (started-IsValid m v),
  )
