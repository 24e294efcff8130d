-- ===== src/TabPanes.antt =====
-- Closing panes: `closeOtherPanes` and `closeTabOrPane` of frontend/src/store.ts. `none` is an
-- exception, a missing active pane (with which `closeOtherPanes` keeps an `undefined`, or throws),
-- or a title that is never found.
pub mod Ids
pub mod Removed
pub mod Orderly
pub mod Renewed
pub mod Next
pub mod Close
pub mod Others
pub mod Active
pub mod Picked
pub mod Moved
pub mod Sides
mod Tests
use cozyssh.Prelude.{
  ℕ, List, [], ◌∷◌, Option, none, some, Bool, false, not, ◌&&◌, ◌||◌, String, str_eq, if◌then◌else◌,
  ltb, ◌==◌, length, get_elem?, find, find_index, filter,
}
use cozyssh.Tabs.{
  PaneData, TabData, Store, Request, close_session, or_text, find_tab, holds, is_terminal,
  is_stolen, backend_id, prev_index, trigger_focus, close_tab, cleanup_associated_tab_state,
}
use cozyssh.Titles.{host_title, new_tab_title}

abbrev pub pane_index : String → List PaneData → Option ℕ
pane_index id = find_index λ p. str_eq p.id id

abbrev pub find_pane : String → List PaneData → Option PaneData
find_pane id = find λ p. str_eq p.id id

abbrev pub without_pane : String → List PaneData → List PaneData
without_pane id = filter λ p. not (str_eq p.id id)

-- `map` with an updater that may throw.
abbrev pub map_some : (TabData → Option TabData) → List TabData → Option (List TabData)
map_some f [] = some []
map_some f (t ∷ ts) = elim (f t) [
  | none ↦ none
  | some u ↦ elim (map_some f ts) [ none ↦ none | some us ↦ some (u ∷ us) ]
]

abbrev pub is_first : Option ℕ → Bool
is_first none = false
is_first (some i) = i == 0

-- newTabTitle(hostTitle(pane.host))
abbrev pub title_of : Option PaneData → List TabData → Option String
title_of none tabs = none
title_of (some p) tabs = new_tab_title (host_title p.host) tabs

-- The title of a tab that loses panes: renewed if it is not a custom one and the tab's first pane
-- goes.
abbrev pub next_title : Bool → Option PaneData → List TabData → TabData → Option String
next_title first_stays left tabs t =
    if t.is_custom_title || first_stays then some t.title else title_of left tabs

abbrev pub with_panes : List PaneData → String → Option String → TabData → Option TabData
with_panes panes active title t = elim title [
  | none ↦ none
  | some x ↦ some (record t { panes = panes; active_pane_id = active; title = x })
]

abbrev pub update_tab :
    String
    → List PaneData
    → String
    → Bool
    → Option PaneData
    → List TabData
    → TabData
    → Option TabData
update_tab id panes active first_stays left tabs t =
    if str_eq t.id id
    then with_panes panes active (next_title first_stays left tabs t) t
    else some t

-- The tab with its pane `target.active_pane_id` alone.
abbrev pub keep_in : TabData → List TabData → TabData → Option TabData
keep_in target tabs t =
    if str_eq t.id target.id
    then elim (find_pane target.active_pane_id t.panes) [
      | none ↦ none
      | some p ↦
          with_panes (p ∷ []) t.active_pane_id
            (next_title (is_first (pane_index target.active_pane_id t.panes)) (some p) tabs t) t
    ]
    else some t

-- The active pane of a tab that loses a pane.
abbrev pub next_pane_id : TabData → String → Option String
next_pane_id t id =
    if str_eq t.active_pane_id id
    then elim (get_elem? (without_pane id t.panes) (prev_index (pane_index id t.panes))) [
      | none ↦ none
      | some p ↦ some p.id
    ]
    else some t.active_pane_id

abbrev pub close_pane_requests : TabData → PaneData → List Request → List Request
close_pane_requests t p rs =
    if t.is_locked || is_stolen p.state then rs else close_session (backend_id p) ∷ rs

module _ {I : Type 0} where
  abbrev pub focus_on : TabData → String → Store I → Store I
  focus_on t next s =
      if str_eq s.active_tab_id t.id then trigger_focus (record s { active_pane_id = next }) else s

  -- The branch of `closeTabOrPane` for a pane `p` of a tab `t` with several.
  unfoldable pub close_pane : TabData → PaneData → String → Store I → Option (Store I)
  close_pane t p id s =
      let left = without_pane id t.panes in
      let asked = record s { requests = close_pane_requests t p s.requests } in
      elim (next_pane_id t id) [
        | none ↦ none
        | some next ↦
            elim (map_some
              (update_tab t.id left next (not (is_first (pane_index id t.panes))) (get_elem? left 0)
                s.tabs)
              s.tabs) [
                | none ↦ none
                | some tabs ↦ some (focus_on t next (cleanup_associated_tab_state asked tabs))
              ]
      ]

  abbrev pub close_pane_in : TabData → String → Store I → Option (Store I)
  close_pane_in t id s = elim (find_pane id t.panes) [
    | none ↦ some s
    | some p ↦ if ltb 1 (length t.panes) then close_pane t p id s else close_tab t.id s
  ]

  unfoldable pub close_tab_or_pane : String → Store I → Option (Store I)
  close_tab_or_pane target s =
      let id = or_text target s.active_pane_id in
      if str_eq id "" then some s else elim (find_tab id s.tabs) [
        | some t ↦ close_tab id s
        | none ↦ elim (find (holds id) s.tabs) [ none ↦ some s | some t ↦ close_pane_in t id s ]
      ]

  -- `closeOtherPanes`, past the guards.
  unfoldable pub keep_pane : TabData → Store I → Option (Store I)
  keep_pane t s = elim (map_some (keep_in t s.tabs) s.tabs) [
    | none ↦ none
    | some tabs ↦ some (
        trigger_focus (record (cleanup_associated_tab_state s tabs) {
          active_tab_id = t.id;
          active_pane_id = t.active_pane_id;
        }))
  ]

  unfoldable pub close_other_panes : String → Store I → Option (Store I)
  close_other_panes target s = elim (find_tab (or_text target s.active_tab_id) s.tabs) [
    | none ↦ some s
    | some t ↦ if is_terminal t.type && ltb 1 (length t.panes) then keep_pane t s else some s
  ]
