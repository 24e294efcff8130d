-- ===== src/TabOpen/Scratchpad.antt =====
-- `openScratchpad` and `renameTab` of frontend/src/store.ts. `none` is the exception of a
-- scratchpad without a pane. The id of a new scratchpad, which has the time in it, and the text's
-- `trim` are arguments.
use cozyssh.Prelude.{
  ◌≡◌, refl, inl, inr, [], ◌∷◌, map, Option, none, some, Bool, true, false, not, String, str_eq,
  Option-cases, find, ◌||◌, if◌then◌else◌, get_elem?,
}
use cozyssh.Tabs.{
  PaneData, TabData, Store, unset, scratchpad, is_terminal, or_text, set_tabs, trigger_focus, has,
  tab_ids, all_pane_ids, backend_id,
}
use cozyssh.TabFlags.{target_tab}
use cozyssh.TabFlags.Flags.{kept-IsOrderly}
use cozyssh.TabPanes.Orderly.{IsOrderly}
use cozyssh.TabPanes.Active.{find-find_tab, trigger_focus-IsOrderly}
use cozyssh.TabOpen.{new_pane, new_tab, append_tab}
use cozyssh.TabOpen.Opened.{single-IsOrderly}

abbrev pub is_scratchpad : TabData → Bool
is_scratchpad t = not (is_terminal t.type)

abbrev pub scratchpad_tab : String → TabData
scratchpad_tab id =
    record (new_tab id "Scratchpad" false (new_pane id none "" "" none unset [] ∷ []) id) {
      type = scratchpad;
    }

-- What `renameTab` does with the answer: nothing, or the new title with the session to rename, if
-- the tab is pinned.
abbrev pub new_name :
    (String → String) → String → String → TabData → Option (String × Option String)
new_name trim id answer t =
    let title = trim answer in
    if str_eq answer "" || (str_eq title "" || str_eq title t.title)
    then none
    else some (
      title,
      if t.is_pinned
          then some (elim (get_elem? t.panes 0) [ none ↦ id | some p ↦ or_text (backend_id p) id ])
          else none,
    )

module _ {I : Type 0} where
  unfoldable pub open_scratchpad : String → Store I → Option (Store I)
  open_scratchpad id s = elim (find is_scratchpad s.tabs) [
    | some t ↦ elim (get_elem? t.panes 0) [
      | none ↦ none
      | some p ↦ some (trigger_focus (record s { active_tab_id = t.id; active_pane_id = p.id }))
    ]
    | none ↦ some (trigger_focus (append_tab (scratchpad_tab id) id s))
  ]

  -- `renameTab` up to its request.
  unfoldable pub rename_tab :
      (String → String) → String → String → Store I → Option (String × Option String)
  rename_tab trim target answer s = elim (target_tab target s) [
    | none ↦ none
    | some t ↦ new_name trim (or_text target s.active_tab_id) answer t
  ]

  -- What follows it.
  unfoldable pub renamed_tab : String → String → Store I → Store I
  renamed_tab id title s =
      set_tabs
        (map λ t. if str_eq t.id id then record t { title = title; is_custom_title = true } else t)
        s

  pub renamed_tab-IsOrderly :
      (id title : String) (s : Store I) → IsOrderly s → IsOrderly (renamed_tab id title s)
  unfolding renamed_tab
  renamed_tab-IsOrderly id title s o =
      kept-IsOrderly id (λ t. record t { title = title; is_custom_title = true }) (λ _. refl)
        (λ _. refl) (λ _. refl) s o

  -- With a new id, `openScratchpad` keeps the order, if a scratchpad that is there has its active
  -- pane first.
  pub open_scratchpad-IsOrderly :
      (id : String) (s : Store I)
      → IsOrderly s
      → has (tab_ids s.tabs) id ≡ false
      → str_eq "" id ≡ false
      → has (all_pane_ids s.tabs) id ≡ false
      → ((t : TabData)
          → find is_scratchpad s.tabs ≡ some t
          → (p : PaneData) × (get_elem? t.panes 0 ≡ some p) × (p.id ≡ t.active_pane_id))
      → (n : Store I) × (open_scratchpad id s ≡ some n) × IsOrderly n
  unfolding open_scratchpad
  open_scratchpad-IsOrderly id s o fresh some_id free first =
      elim (Option-cases (find is_scratchpad s.tabs)) [
        | inl e ↦ (
          trigger_focus (append_tab (scratchpad_tab id) id s),
          rw (e, open_scratchpad) refl,
          trigger_focus-IsOrderly _
              (single-IsOrderly (scratchpad_tab id) id s o refl refl fresh some_id free),
        )
        | inr (t, e) ↦
            let (p, f, g) = first t e in
            (
              trigger_focus (record s { active_tab_id = t.id; active_pane_id = p.id }),
              rw (e, f, open_scratchpad) refl,
              record {
                unique = o.unique;
                distinct = o.distinct;
                named = o.named;
                paned = o.paned;
                focused = inr (t, find-find_tab is_scratchpad s.tabs t o.unique e, g);
              },
            )
      ]
