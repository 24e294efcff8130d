-- ===== src/TabOpen/Host.antt =====
-- `openHost` of frontend/src/store.ts.
use cozyssh.Prelude.{
  ℕ, List, [], ◌∷◌, Option, none, some, Bool, false, not, ◌&&◌, String, str_eq, if◌then◌else◌, find,
}
use cozyssh.Tabs.{unset, TabData, Store, or_text, find_tab, holds, activate_pane, trigger_focus}
use cozyssh.Titles.{host_title, new_tab_title}
-- `undefined` options are none.
use cozyssh.TabOpen.{
  Options, option, without_option, with_option, merge, split_query, Recent, update_recents,
  remove_pass_from_host, new_pane, new_tab, append_tab, add_pane_to, is_full,
}

-- How `openHost` ends: an open pane has been activated, the target tab is full, a background
-- terminal is opened instead, or there is a new pane in the tab.
pub data Opening : Type 0 where
  activated full opened : String → Opening
  background : String → Options → Opening

-- What the arguments come to.
pub record Wanted : Type 0 where
  pub host : String
  pub title : String
  pub target : String
  pub options : Options

-- `query` reads the part of the host from its last "?" on.
unfoldable pub wanted : (String → Options) → String → String → String → Options → Wanted
unfolding split_query
wanted query host title target options =
    let (name, os) = elim (split_query host) as (λ x. String × Options) [
      | none ↦ (host, options)
      | some e ↦ (e.0, merge (query (e.1)) options)
    ] in
    record {
      host = name;
      title = or_text title (option "title" os);
      target = or_text target (option "target" os);
      options = without_option "title" (without_option "target" os);
    }

-- "_blank" and "_self"
abbrev pub target_of : String → String → String
target_of target active =
    if str_eq target "_blank" then "" else if str_eq target "_self" then active else target

-- The options of the new pane, and the recent hosts, unless the caller or the local shell has none.
abbrev pub counts : Bool → String → Bool
counts no_update_recent host = not no_update_recent && not (str_eq host "local")

abbrev pub is_full_tab : Option TabData → Bool
is_full_tab none = false
is_full_tab (some t) = is_full t

module _ {I : Type 0} where
  -- The new pane in the tab that is there, or in a new one.
  unfoldable pub open_pane :
      (String → String)
      → String
      → String
      → Wanted
      → Options
      → Option TabData
      → String
      → Store I
      → Option (Store I × String)
  open_pane canonical gen_tab pane_id w options target_tab target s = elim target_tab [
    | some t ↦
        let session =
          if str_eq (option "id" w.options) "" then none else some (option "id" w.options) in
        let p = new_pane pane_id session w.host (canonical w.host) none unset options in
        some
          (record (add_pane_to target p s) { active_tab_id = t.id; active_pane_id = pane_id }, t.id)
    | none ↦
        let tab_id = or_text target gen_tab in
        let p = new_pane pane_id none w.host (canonical w.host) none unset options in
        elim (if str_eq w.title ""
          then new_tab_title (host_title w.host) s.tabs
          else some w.title) [
            | none ↦ none
            | some title ↦ some (
              append_tab (new_tab tab_id title (not (str_eq w.title "")) (p ∷ []) pane_id) pane_id
                  s,
              tab_id,
            )
          ]
  ]

  -- What is left when the target has room: the recent hosts and the new pane.
  unfoldable pub open_in :
      (String → String)
      → ℕ
      → String
      → String
      → Bool
      → Wanted
      → Option TabData
      → String
      → Store I
      → List Recent
      → Option (Store I × List Recent × Opening)
  open_in canonical now gen_tab pane_id no_update_recent w target_tab target s recents =
      let counted = counts no_update_recent w.host in
      let options = if counted then with_option "_updateRecent" "1" w.options else w.options in
      let left =
        if counted then update_recents now (remove_pass_from_host w.host) recents else recents in
      elim (open_pane canonical gen_tab pane_id w options target_tab target s) [
        | none ↦ none
        | some e ↦ some (e.0, left, opened (e.1))
      ]

  -- `openHost`, from its arguments on, with the recent hosts. `now` is the time.
  unfoldable pub open_host :
      (String → String)
      → ℕ
      → String
      → String
      → Bool
      → Wanted
      → Store I
      → List Recent
      → Option (Store I × List Recent × Opening)
  open_host canonical now gen_tab gen_pane no_update_recent w s recents =
      let id = option "id" w.options in
      let target = target_of w.target s.active_tab_id in
      let target_tab = if str_eq target "" then none else find_tab target s.tabs in
      elim (if str_eq id "" then none else find (holds id) s.tabs) [
        | some t ↦ some (trigger_focus (activate_pane id t.id s), recents, activated t.id)
        | none ↦
            if str_eq (option "state" w.options) "3"
            then some (s, recents, background w.host w.options)
            else if is_full_tab target_tab
            then some (s, recents, full target)
            else open_in canonical now gen_tab (or_text id gen_pane) no_update_recent w target_tab
                target s recents
      ]
