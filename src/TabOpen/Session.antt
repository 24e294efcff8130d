-- ===== src/TabOpen/Session.antt =====
-- `cloneSession` and `attachSession` of frontend/src/store.ts. The second's `none` is also the
-- exception of a missing host.
use cozyssh.Prelude.{
  List, [], ◌∷◌, map, Option, none, some, Bool, true, false, not, ◌&&◌, String, str_eq,
  if◌then◌else◌, find, any, get_elem?,
}
use cozyssh.Tabs.{PaneData, unset, TabData, Store, or_text, set_tabs, backend_id, is_stolen}
use cozyssh.Titles.{host_title, new_tab_title}
use cozyssh.TabPanes.{find_pane}
-- `undefined` options are none.
use cozyssh.TabOpen.{new_pane, new_tab, add_pane, append_tab, is_full}

-- The pane and its tab, by the id of either.
abbrev pub pane_to_clone : String → List TabData → Option (TabData × Option PaneData)
pane_to_clone id [] = none
pane_to_clone id (t ∷ ts) =
    let rest = pane_to_clone id ts in
    if str_eq t.id id
    then some (t, get_elem? t.panes 0)
    else elim (find_pane id t.panes) [ some p ↦ some (t, some p) | none ↦ rest ]

abbrev pub add_clone : PaneData → TabData → TabData
add_clone p t = if is_full t then t else add_pane p t

abbrev pub cloned : String → PaneData → PaneData
cloned id p =
    new_pane id none p.host p.canonical_host_string (some (backend_id p)) p.state p.options

abbrev pub is_attached : String → PaneData → Bool
is_attached id p = str_eq (backend_id p) id && not (is_stolen p.state)

abbrev pub attached_pane : String → TabData → String
attached_pane id t = elim (find (is_attached id) t.panes) [
  | none ↦ t.active_pane_id
  | some p ↦ or_text p.id t.active_pane_id
]

-- What `attachSession` is told of the session.
pub record Attached : Type 0 where
  pub id : String
  pub host : String
  pub title : String
  pub canonical_host_string : String
  pub is_custom_title : Bool
  pub is_locked : Bool

abbrev pub attached_tab : (String → String) → String → String → String → Attached → TabData
attached_tab canonical gen_tab gen_pane title a =
    let host_string = or_text a.canonical_host_string (canonical a.host) in
    let p = new_pane gen_pane (some a.id) a.host host_string none unset [] in
    record (new_tab gen_tab title a.is_custom_title (p ∷ []) gen_pane) {
      is_pinned = true;
      is_locked = a.is_locked;
    }

module _ {I : Type 0} where
  unfoldable pub clone_in : String → String → Bool → TabData → PaneData → Store I → Option (Store I)
  clone_in gen_tab gen_pane same_tab t p s =
      let n = cloned gen_pane p in
      if same_tab
      then some (record (set_tabs (map λ u. if str_eq u.id t.id then add_clone n u else u) s) {
        active_pane_id = gen_pane;
      })
      else elim (new_tab_title (host_title p.host) s.tabs) [
        | none ↦ none
        | some title ↦ some (append_tab (new_tab gen_tab title false (n ∷ []) gen_pane) gen_pane s)
      ]

  unfoldable pub clone_session : String → String → String → Bool → Store I → Option (Store I)
  clone_session gen_tab gen_pane id same_tab s = elim (pane_to_clone id s.tabs) [
    | none ↦ some s
    | some e ↦ elim (e.1) [
      | none ↦ some s
      | some p ↦
          if same_tab && is_full (e.0) then some s else clone_in gen_tab gen_pane same_tab (e.0) p s
    ]
  ]

  abbrev pub attached_title : Attached → Store I → Option String
  attached_title a s =
      if str_eq a.title "" then new_tab_title (host_title a.host) s.tabs else some a.title

  unfoldable pub attach_session :
      (String → String) → String → String → Attached → Store I → Option (Store I × String)
  attach_session canonical gen_tab gen_pane a s =
      if str_eq a.host "" then none else elim (attached_title a s) [
        | none ↦ none
        | some title ↦ elim (find (λ t. any (is_attached a.id) t.panes) s.tabs) [
          | some t ↦
              some (record s { active_tab_id = t.id; active_pane_id = attached_pane a.id t }, t.id)
          | none ↦
              some
                (append_tab (attached_tab canonical gen_tab gen_pane title a) gen_pane s, gen_tab)
        ]
      ]
