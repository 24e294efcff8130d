-- ===== src/TabOpen.antt =====
-- Opening panes in frontend/src/store.ts: options, recent hosts, new panes and tabs, and
-- `openHostsAsSplit`. The ids that are generated, the canonical host string and the query of a host's
-- text, which the browser's URLSearchParams reads, are arguments. `none` is an exception.
pub mod Added
pub mod Host
pub mod Session
pub mod Opened
pub mod Sessions
pub mod Bounds
pub mod Scratchpad
use Prim.Native.Char.{code}
use cozyssh.Prelude.{
  concat, ◌++◌, ℕ, List, [], ◌∷◌, map, Option, none, some, Bool, true, false, not, ◌&&◌, ◌||◌,
  String, str_eq, if◌then◌else◌, ltb, leb, ◌==◌, length, find, filter, take, any, get_elem?,
}
use cozyssh.Tabs.{
  PaneData, PaneState, unset, stolen, TabData, terminal, Store, or_text, find_tab, holds, set_tabs,
  activate_pane, trigger_focus, backend_id, is_stolen,
}
use cozyssh.Titles.{host_title, new_tab_title}
use cozyssh.Ordering.{sort}
use cozyssh.TabPanes.{find_pane}

-- `undefined` options are none.
abbrev pub Options : Type 0
Options = List (String × String)

-- options[key], the empty text if it is missing
abbrev pub option : String → Options → String
option key os = elim (find (λ o. str_eq (o.0) key) os) [ none ↦ "" | some o ↦ o.1 ]

abbrev pub without_option : String → Options → Options
without_option key = filter λ o. not (str_eq (o.0) key)

abbrev pub with_option : String → String → Options → Options
with_option key value os = (key, value) ∷ without_option key os

-- { ...a, ...b }
abbrev pub merge : Options → Options → Options
merge a [] = a
merge a ((key, value) ∷ b) = with_option key value (merge a b)

-- The text before the last "?", and from there on.
pub split_query : String → Option (String × String)
split_query String.[] = none
split_query (String.◌∷◌ c s) = elim (split_query s) [
  | some e ↦ some (String.◌∷◌ c (e.0), e.1)
  | none ↦ if code c == b'?' then some ("", String.◌∷◌ c s) else none
]

pub record Recent : Type 0 where
  pub host : String
  pub last_used : ℕ

-- `now` is the time in seconds.
abbrev pub touch : ℕ → String → List Recent → List Recent
touch now host [] = record { host = host; last_used = now } ∷ []
touch now host (r ∷ rs) =
    let rest = touch now host rs in
    if str_eq r.host host then record r { last_used = now } ∷ rs else r ∷ rest

unfoldable pub update_recents : ℕ → String → List Recent → List Recent
update_recents now host recents =
    take 50 (sort (λ a b. leb b.last_used a.last_used) (touch now host recents))

-- "user:pass@host" => "user@host"
pub last_at : String → Option (String × String)
last_at String.[] = none
last_at (String.◌∷◌ c s) = elim (last_at s) [
  | some e ↦ some (String.◌∷◌ c (e.0), e.1)
  | none ↦ if code c == b'@' then some ("", String.◌∷◌ c s) else none
]

pub before_colon : String → Option String
before_colon String.[] = none
before_colon (String.◌∷◌ c s) =
    let rest = before_colon s in
    if code c == b':' then some "" else elim rest [ none ↦ none | some t ↦ some (String.◌∷◌ c t) ]

unfoldable pub remove_pass_from_host : String → String
unfolding last_at before_colon
remove_pass_from_host host = elim (last_at host) [
  | none ↦ host
  | some e ↦ elim (before_colon (e.0)) [ none ↦ host | some user ↦ concat user (e.1) ]
]

abbrev pub new_pane :
    String → Option String → String → String → Option String → PaneState → Options → PaneData
new_pane id session host canonical clone state options = record {
  id = id;
  session_id = session;
  host = host;
  canonical_host_string = canonical;
  state = state;
  clone_from = clone;
  options = options;
}

abbrev pub new_tab : String → String → Bool → List PaneData → String → TabData
new_tab id title custom panes active = record {
  id = id;
  title = title;
  is_custom_title = custom;
  panes = panes;
  active_pane_id = active;
  is_pinned = false;
  is_locked = false;
  show_files = false;
  type = terminal;
}

-- The panes of a split, with their generated ids.
abbrev pub split_panes : (String → String) → List (String × String × Options) → List PaneData
split_panes canonical [] = []
split_panes canonical ((id, host, options) ∷ hs) =
    new_pane id none host (canonical host) none unset options ∷ split_panes canonical hs

abbrev pub add_pane : PaneData → TabData → TabData
add_pane p t = record t { panes = t.panes ++ p ∷ []; active_pane_id = p.id }

abbrev pub is_full : TabData → Bool
is_full t = leb 4 (length t.panes)

module _ {I : Type 0} where
  -- setTabs((prev) => [...prev, tab]), and both active ids
  unfoldable pub append_tab : TabData → String → Store I → Store I
  append_tab t pane_id s = record (set_tabs (λ ts. ts ++ t ∷ []) s) {
    active_tab_id = t.id;
    active_pane_id = pane_id;
  }

  unfoldable pub add_pane_to : String → PaneData → Store I → Store I
  add_pane_to id p s = set_tabs (map λ t. if str_eq t.id id then add_pane p t else t) s

  unfoldable pub open_hosts_as_split :
      (String → String)
      → String
      → String
      → List (String × String × Options)
      → Store I
      → Option (Store I × String)
  open_hosts_as_split canonical tab_id title hosts s = elim (split_panes canonical hosts) [
    | [] ↦ none
    | p ∷ ps ↦ some (append_tab (new_tab tab_id title false (p ∷ ps) p.id) p.id s, tab_id)
  ]
