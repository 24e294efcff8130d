-- ===== src/Titles/Tests.antt =====
-- Titles beside those of a few tabs (frontend/src/store.ts).
use cozyssh.Prelude.{ℕ, ◌≤◌, ◌≡◌, refl, ◌⊎◌, List, [], ◌∷◌, some, false, String}
use cozyssh.Prelude.Decimal.{decimal}
use cozyssh.Tabs.{TabData, terminal, scratchpad, has}
use cozyssh.Titles.{host_title, tab_names, numbered, new_tab_title}
use cozyssh.Titles.Fresh.{new_tab_title_lem}

abbrev titled : String → TabData
titled title = record {
  id = title;
  title = title;
  is_custom_title = false;
  panes = [];
  active_pane_id = "";
  is_pinned = false;
  is_locked = false;
  show_files = false;
  type = terminal;
}

abbrev three_tabs : List TabData
three_tabs = titled "web" ∷ titled "web (1)" ∷ record (titled "web (2)") { type = scratchpad } ∷ []

third_web : new_tab_title "web" three_tabs ≡ some "web (2)"
unfolding new_tab_title decimal
third_web = refl

short_host : host_title "root@a.example:22" ≡ "a.example"
unfolding host_title
short_host = refl

new_tab_title_lem_example :
    (title : String) × (new_tab_title "web" three_tabs ≡ some title)
    × (has (tab_names three_tabs) title ≡ false)
    × ((title ≡ "web") ⊎ ((n : ℕ) × (title ≡ numbered "web" n) × (1 ≤ n) × (n ≤ 3)))
new_tab_title_lem_example = new_tab_title_lem "web" three_tabs
