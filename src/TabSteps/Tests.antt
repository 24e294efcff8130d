-- ===== src/TabSteps/Tests.antt =====
-- A tab that is opened, split and closed again: the tests of the steps, and a concrete case of each
-- theorem (frontend/src/store.ts).
use cozyssh.Prelude.{
  inr, str_eq, ℕ, ◌≡◌, refl, [], ◌∷◌, none, some, true, false, String, List, All, arith,
}
use cozyssh.Tabs.{
  TabData, PaneData, Store, unset, close_tab, activate_pane, set_tabs, cleanup_associated_tab_state,
  retain,
}
use cozyssh.Ordering.{sort}
use cozyssh.Titles.{new_tab_title, host_title}
use cozyssh.TabFlags.{hidden}
use cozyssh.TabPanes.{close_tab_or_pane, close_other_panes}
use cozyssh.TabPanes.Orderly.{IsOrderly}
use cozyssh.TabOpen.{
  new_pane, new_tab, Recent, append_tab, add_pane_to, update_recents, remove_pass_from_host,
}
use cozyssh.TabOpen.Host.{
  Wanted, Opening, open_host, open_in, open_pane, opened as opened_in, activated,
}
use cozyssh.TabOpen.Session.{clone_session, clone_in}
use cozyssh.TabOpen.Opened.{IsNew}
use cozyssh.TabOpen.Bounds.{IsSmall, open_host-IsSmall}
use cozyssh.TabEvents.{close_all_tabs}
use cozyssh.TabEvents.Kept.{close_all_tabs_lem}
use cozyssh.Tabs.Cleanup.{IsClean}
use cozyssh.TabSteps.{Reach, initial, here, next, opened}
use cozyssh.TabSteps.Invariant.{Reach-IsOrderly, Reach-runs}

abbrev same : String → String
same host = host

abbrev web : Wanted
web = record { host = "me@web"; title = ""; target = ""; options = [] }

abbrev first_pane : PaneData
first_pane = new_pane "p1" none "me@web" "me@web" none unset (("_updateRecent", "1") ∷ [])

abbrev first_tab : TabData
first_tab = new_tab "t1" "web" false (first_pane ∷ []) "p1"

abbrev one_tab : Store ℕ
one_tab = record initial { tabs = first_tab ∷ []; active_tab_id = "t1"; active_pane_id = "p1" }

initial-IsNew : IsNew "t1" "p1" (initial {I = ℕ})
initial-IsNew = record { tab = refl; some_tab = refl; pane = refl }

first_run :
    open_host same 7 "t1" "p1" false web initial []
    ≡ some (one_tab, record { host = "me@web"; last_used = 7 } ∷ [], opened_in "t1")
unfolding open_host open_in open_pane new_tab_title append_tab update_recents set_tabs sort
    cleanup_associated_tab_state remove_pass_from_host host_title retain
first_run = refl

-- The pane is split.
abbrev two_panes : Store ℕ
two_panes = record one_tab {
  tabs =
      record first_tab {
        panes =
            first_pane
            ∷ new_pane "p2" none "me@web" "me@web" none unset (("_updateRecent", "1") ∷ [])
            ∷ [];
        active_pane_id = "p2";
      }
      ∷ [];
  active_pane_id = "p2";
}

second_run :
    open_host same 9 "t2" "p2" false
      (record web { target = "_self" })
      one_tab
      (record { host = "me@web"; last_used = 7 } ∷ [])
    ≡ some (two_panes, record { host = "me@web"; last_used = 9 } ∷ [], opened_in "t1")
unfolding open_host open_in open_pane add_pane_to update_recents set_tabs sort
    cleanup_associated_tab_state remove_pass_from_host retain
second_run = refl

to_two_panes : Reach initial two_panes
to_two_panes = next (next here (opened same 7 "t1" "p1" false web [] _ _ initial-IsNew first_run)) (
    opened same 9 "t2" "p2" false (record web { target = "_self" }) _ _ _
      (record { tab = refl; some_tab = refl; pane = refl }) second_run)

Reach-IsOrderly_example : IsOrderly two_panes
Reach-IsOrderly_example = Reach-IsOrderly to_two_panes

Reach-runs_example :
    ((n : Store ℕ) × (close_tab "" two_panes ≡ some n))
    × ((n : Store ℕ) × (close_tab_or_pane "" two_panes ≡ some n))
    × ((n : Store ℕ) × (close_other_panes "" two_panes ≡ some n))
    × ((n : Store ℕ) × (hidden "" two_panes ≡ some n))
    × ((n : Store ℕ) × (left : List Recent) × (e : Opening) × (open_host same 9 "t3" "p3" false web
            two_panes []
          ≡ some (n, left, e)))
    × ((n : Store ℕ) × (clone_session "t3" "p3" "p2" false two_panes ≡ some n))
Reach-runs_example =
    Reach-runs "" "p2" same 9 "t3" "p3" false web [] to_two_panes
      (record { tab = refl; some_tab = refl; pane = refl })

-- A clone of the session of the first pane in the same tab.
abbrev cloned_pane : Store ℕ
cloned_pane = record two_panes {
  tabs =
      record first_tab {
        panes =
            first_pane
            ∷ new_pane "p2" none "me@web" "me@web" none unset (("_updateRecent", "1") ∷ [])
            ∷ new_pane "p3" none "me@web" "me@web" (some "p1") unset (("_updateRecent", "1") ∷ [])
            ∷ [];
        active_pane_id = "p3";
      }
      ∷ [];
  active_pane_id = "p3";
}

abbrev activated_store : Store ℕ
activated_store = record two_panes {
  tabs =
      record first_tab {
        panes =
            first_pane
            ∷ new_pane "p2" none "me@web" "me@web" none unset (("_updateRecent", "1") ∷ [])
            ∷ [];
        active_pane_id = "p1";
      }
      ∷ [];
  active_pane_id = "p1";
  focus_trigger = 1;
}

clone_run : clone_session "t3" "p3" "p1" true two_panes ≡ some cloned_pane
unfolding clone_session clone_in set_tabs cleanup_associated_tab_state retain
clone_run = refl

third_run :
    open_host same 9 "t3" "p3" true (record web { options = ("id", "p1") ∷ [] }) two_panes []
    ≡ some (activated_store, [], activated "t1")
unfolding open_host activate_pane
third_run = refl

open_host-IsSmall_example : All IsSmall activated_store.tabs × All IsSmall cloned_pane.tabs
open_host-IsSmall_example =
    open_host-IsSmall same 9 "t3" "p3" "p1" true (record web { options = ("id", "p1") ∷ [] })
      two_panes activated_store cloned_pane [] [] (activated "t1") (refl, tt) (omega arith, tt)
      third_run clone_run

one_tab-IsOrderly : IsOrderly one_tab
one_tab-IsOrderly = record {
  unique = (refl, tt);
  distinct = (refl, tt);
  named = refl;
  paned = (inr refl, tt);
  focused = inr (first_tab, refl, refl);
}

close_all_tabs_lem_example :
    ((close_all_tabs one_tab).tabs ≡ [])
    × IsClean (close_all_tabs one_tab)
    × ((close_all_tabs one_tab).active_tab_id ≡ "t1")
    × (str_eq "t1" "" ≡ false)
    × ¬ IsOrderly (close_all_tabs one_tab)
close_all_tabs_lem_example = close_all_tabs_lem one_tab first_tab [] one_tab-IsOrderly refl
