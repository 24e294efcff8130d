-- ===== src/TabEvents.antt =====
-- What the terminals of a tab tell frontend/src/TerminalGrid.tsx, which it writes into the tabs of
-- the store, the close button of the file browser there, and `reorderTabs` of
-- frontend/src/TabBar.tsx.
pub mod Kept
pub mod Reordered
use cozyssh.Prelude.{
  [], ◌∷◌, none, some, get_elem?, List, map, Bool, false, String, str_eq, if◌then◌else◌, [],
}
use cozyssh.Ordering.{insert_at, remove_at, insert_index}
use cozyssh.Tabs.{tab_index, PaneData, PaneState, stolen, TabData, Store, set_tabs}

-- prev.map((t) => (t.id === id ? update(t) : t))
abbrev on_tab : String → (TabData → TabData) → List TabData → List TabData
on_tab id update = map λ t. if str_eq t.id id then update t else t

-- t.panes.map((p) => (p.id === paneId ? { ...p, state } : p))
abbrev pub with_state : String → PaneState → List PaneData → List PaneData
with_state pane_id state = map λ p. if str_eq p.id pane_id then record p { state = state } else p

module _ {I : Type 0} where
  unfoldable pub state_changed : String → String → PaneState → Store I → Store I
  state_changed id pane_id state =
      set_tabs (on_tab id λ t. record t { panes = with_state pane_id state t.panes })

  unfoldable pub tab_state_changed : String → Bool → Bool → Store I → Store I
  tab_state_changed id is_pinned is_locked =
      set_tabs (on_tab id λ t. record t { is_pinned = is_pinned; is_locked = is_locked })

  unfoldable pub session_stolen : String → String → Store I → Store I
  session_stolen id pane_id = set_tabs (
      on_tab id λ t. record t {
        is_pinned = false;
        is_locked = false;
        panes = with_state pane_id stolen t.panes;
      })

  unfoldable pub files_closed : String → Store I → Store I
  files_closed id = set_tabs (on_tab id λ t. record t { show_files = false })

  -- setTabs([]): the command and the menu entry that close all tabs.
  unfoldable pub close_all_tabs : Store I → Store I
  close_all_tabs = set_tabs λ tabs. []

  -- `reorderTabs` of the tab bar; -1, for a missing target, counts from the end in `splice`.
  unfoldable pub reorder_tabs : String → String → Bool → Store I → Store I
  reorder_tabs dragged target after s = elim (tab_index dragged s.tabs) [
    | none ↦ s
    | some i ↦ elim (tab_index target s.tabs) [
      | none ↦ s
      | some j ↦ elim (get_elem? s.tabs i) [
        | none ↦ s
        | some t ↦
            let rest = remove_at i s.tabs in
            set_tabs
              (λ _. insert_at (insert_index (tab_index target rest) after rest) (t ∷ []) rest) s
      ]
    ]
  ]
