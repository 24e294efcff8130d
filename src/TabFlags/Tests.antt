-- ===== src/TabFlags/Tests.antt =====
-- Two tabs with a pane each: the tests of pinning, locking and hiding, and a concrete case of each
-- theorem that has hypotheses (frontend/src/store.ts).
use cozyssh.Prelude.{ℕ, ◌≡◌, refl, inr, [], ◌∷◌, none, some, false, String}
use cozyssh.Tabs.{TabData, Store, connected, terminal, off}
use cozyssh.TabPanes.Orderly.{IsOrderly}
use cozyssh.TabFlags.{pin_tab, ask, pin}

abbrev single : String → String → TabData
single id pane = record {
  id = id;
  title = id;
  is_custom_title = false;
  panes =
      record {
        id = pane;
        session_id = some "s";
        host = "h";
        canonical_host_string = "h";
        state = connected;
        clone_from = none;
        options = [];
      }
      ∷ [];
  active_pane_id = pane;
  is_pinned = false;
  is_locked = false;
  show_files = false;
  type = terminal;
}

abbrev store : Store ℕ
store = record {
  tabs = single "a" "a1" ∷ single "b" "b1" ∷ [];
  active_tab_id = "b";
  active_pane_id = "b1";
  broadcast_mode = off;
  unread_tab_ids = [];
  shell_integrations = [];
  session_buffer_data_times = [];
  focus_trigger = 0;
  requests = [];
}

store-IsOrderly : IsOrderly store
store-IsOrderly = record {
  unique = (refl, (refl, tt));
  distinct = (refl, (refl, tt));
  named = refl;
  paned = (inr refl, (inr refl, tt));
  focused = inr (single "b" "b1", refl, refl);
}

pin_tab_test : pin_tab "" store ≡ ask (pin "s" "b" false)
unfolding pin_tab
pin_tab_test = refl
