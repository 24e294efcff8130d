-- ===== src/TabPanes/Tests.antt =====
-- A tab with three panes and one with a single pane: the tests of closing panes, and a concrete case
-- of each theorem that has hypotheses (frontend/src/store.ts).
use cozyssh.Prelude.{
  filter, ◌+◌, arith, ℕ, ◌≡◌, refl, inr, [], ◌∷◌, map, none, some, false, String, Option,
}
use cozyssh.Tabs.{
  has, tab_ids, PaneData, TabData, Store, connected, terminal, off, all_pane_ids,
  cleanup_associated_tab_state, retain,
}
use cozyssh.TabPanes.{close_tab_or_pane, close_other_panes, close_pane, title_of, find_pane}
use cozyssh.TabPanes.Removed.{renew}
use cozyssh.TabPanes.Renewed.{renewed}
use cozyssh.TabPanes.Orderly.{IsOrderly}
use cozyssh.TabPanes.Close.{close_tab_or_pane-IsOrderly, close_tab_or_pane-all_pane_ids}
use cozyssh.TabPanes.Others.{close_other_panes_lem}

abbrev pane : String → String → PaneData
pane id host = record {
  id = id;
  session_id = none;
  host = host;
  canonical_host_string = host;
  state = connected;
  clone_from = none;
  options = [];
}

abbrev split_tab : TabData
split_tab = record {
  id = "a";
  title = "web";
  is_custom_title = false;
  panes = pane "a1" "me@web" ∷ pane "a2" "me@db:22" ∷ pane "a3" "me@log" ∷ [];
  active_pane_id = "a2";
  is_pinned = false;
  is_locked = false;
  show_files = false;
  type = terminal;
}

abbrev single_tab : TabData
single_tab = record split_tab { id = "b"; panes = pane "b1" "me@mail" ∷ []; active_pane_id = "b1" }

abbrev store : Store ℕ
store = record {
  tabs = split_tab ∷ single_tab ∷ [];
  active_tab_id = "a";
  active_pane_id = "a2";
  broadcast_mode = off;
  unread_tab_ids = [];
  shell_integrations = ("a2", 1) ∷ ("b1", 2) ∷ [];
  session_buffer_data_times = [];
  focus_trigger = 0;
  requests = [];
}

store-IsOrderly : IsOrderly store
store-IsOrderly = record {
  unique = (refl, (refl, tt));
  distinct = (refl, (refl, (refl, (refl, tt))));
  named = refl;
  paned = (inr refl, (inr refl, tt));
  focused = inr (split_tab, refl, refl);
}

close_tab_or_pane-IsOrderly_example :
    (n : Store ℕ) × (close_tab_or_pane "" store ≡ some n) × IsOrderly n
close_tab_or_pane-IsOrderly_example = close_tab_or_pane-IsOrderly "" store store-IsOrderly

close_tab_or_pane-all_pane_ids_example :
    (n : Store ℕ) × (close_tab_or_pane "" store ≡ some n)
    × (all_pane_ids n.tabs ≡ "a1" ∷ "a3" ∷ "b1" ∷ [])
close_tab_or_pane-all_pane_ids_example =
    close_tab_or_pane-all_pane_ids "" store store-IsOrderly refl refl

close_other_panes_lem_example :
    (n : Store ℕ) × (p : PaneData) × (title : String) × (close_other_panes "" store ≡ some n)
    × IsOrderly n
    × (find_pane "a2" split_tab.panes ≡ some p)
    × (title_of (some p) store.tabs ≡ some title)
    × (n.tabs ≡ map (renew "a" (renewed (p ∷ []) "a2" false title)) store.tabs)
    × (n.active_tab_id ≡ "a")
    × (n.active_pane_id ≡ "a2")
    × (n.requests ≡ store.requests)
    × (n.broadcast_mode ≡ store.broadcast_mode)
    × (n.focus_trigger ≡ store.focus_trigger + 1)
    × (n.unread_tab_ids ≡ filter (has (tab_ids n.tabs)) store.unread_tab_ids)
    × (n.shell_integrations
        ≡ filter (λ e. has (all_pane_ids n.tabs) (e.0)) store.shell_integrations)
    × (n.session_buffer_data_times
        ≡ filter (λ e. has (all_pane_ids n.tabs) (e.0)) store.session_buffer_data_times)
close_other_panes_lem_example =
    close_other_panes_lem "" store split_tab store-IsOrderly refl refl (omega arith)

-- The second of three panes goes: the one before it is the active one then.
after_close : Option (String × String)
unfolding close_tab_or_pane close_pane cleanup_associated_tab_state retain
after_close = elim (close_tab_or_pane "a2" store) [
  | none ↦ none
  | some n ↦ elim n.tabs [ [] ↦ none | t ∷ ts ↦ some (t.title, t.active_pane_id) ]
]

after_close_test : after_close ≡ some ("web", "a1")
unfolding after_close
after_close_test = refl
