-- ===== src/Tabs/Tests.antt =====
-- A small store: the tests of the tabs, and a concrete case of each theorem that has hypotheses
-- (frontend/src/store.ts).
use cozyssh.Prelude.{ℕ, ◌≡◌, refl, [], ◌∷◌, none, some, true, false, String, str_eq, any}
use mathlib.Core.List.{Perm}
use cozyssh.Tabs.{
  PaneData, TabData, Store, connected, terminal, off, tab, all, has, cleanup_associated_tab_state,
  move_tab_left, move_tab_right, move_tab_to_first, move_tab_to_last, get_broadcast_target_pane_ids,
  broadcast_targets,
}
use cozyssh.Tabs.Cleanup.{IsClean, cleanup_lem}
use cozyssh.Tabs.Order.{move_tab-perm}
use cozyssh.Tabs.Broadcast.{is_pane_of, get_broadcast_target_pane_ids_lem, broadcast_tab_of_active}

abbrev pane : String → PaneData
pane id = record {
  id = id;
  session_id = some "s";
  host = "h";
  canonical_host_string = "u@h:22";
  state = connected;
  clone_from = none;
  options = [];
}

abbrev shell_tab : TabData
shell_tab = record {
  id = "a";
  title = "A";
  is_custom_title = false;
  panes = pane "a1" ∷ pane "a2" ∷ [];
  active_pane_id = "a1";
  is_pinned = true;
  is_locked = false;
  show_files = false;
  type = terminal;
}

abbrev other_tab : TabData
other_tab = record shell_tab { id = "b"; panes = pane "b1" ∷ []; active_pane_id = "b1" }

abbrev store : Store ℕ
store = record {
  tabs = shell_tab ∷ other_tab ∷ [];
  active_tab_id = "b";
  active_pane_id = "b1";
  broadcast_mode = off;
  unread_tab_ids = "a" ∷ "b" ∷ [];
  shell_integrations = ("a1", 1) ∷ ("b1", 2) ∷ [];
  session_buffer_data_times = ("b1", 5) ∷ [];
  focus_trigger = 0;
  requests = [];
}

cleanup_lem_example :
    let n = cleanup_associated_tab_state store (other_tab ∷ []) in
    IsClean n
    × (n.unread_tab_ids ≡ "b" ∷ [])
    × (n.shell_integrations ≡ ("b1", 2) ∷ [])
    × (n.session_buffer_data_times ≡ ("b1", 5) ∷ [])
    × (n.active_tab_id ≡ "b")
    × (n.active_pane_id ≡ "b1")
    × (n.tabs ≡ other_tab ∷ [])
    × (n.broadcast_mode ≡ store.broadcast_mode)
    × (n.focus_trigger ≡ store.focus_trigger)
    × (n.requests ≡ store.requests)
cleanup_lem_example = cleanup_lem store (other_tab ∷ [])

move_tab-perm_example :
    Perm (move_tab_left "" store).tabs store.tabs
    × Perm (move_tab_right "" store).tabs store.tabs
    × Perm (move_tab_to_first "" store).tabs store.tabs
    × Perm (move_tab_to_last "" store).tabs store.tabs
move_tab-perm_example = move_tab-perm "" store

abbrev all_store : Store ℕ
all_store = record store { broadcast_mode = all }

abbrev tab_store : Store ℕ
tab_store = record store { broadcast_mode = tab; active_tab_id = "a"; active_pane_id = "a1" }

sent_to_a2 : has (get_broadcast_target_pane_ids "" all_store) "a2" ≡ true
unfolding get_broadcast_target_pane_ids broadcast_targets
sent_to_a2 = refl

get_broadcast_target_pane_ids_lem_example :
    (str_eq "a2" "b1" ≡ false) × (any (is_pane_of "a2") store.tabs ≡ true)
get_broadcast_target_pane_ids_lem_example =
    get_broadcast_target_pane_ids_lem "" "a2" all_store sent_to_a2

broadcast_tab_of_active_example : get_broadcast_target_pane_ids "b1" tab_store ≡ "a1" ∷ "a2" ∷ []
broadcast_tab_of_active_example =
    broadcast_tab_of_active "b1" tab_store shell_tab (other_tab ∷ []) refl refl refl refl
