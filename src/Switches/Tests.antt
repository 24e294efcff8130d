-- ===== src/Switches/Tests.antt =====
-- Switches and variables (frontend/src/store.ts), and the theorems' cases for them.
use cozyssh.Prelude.{[]}
use cozyssh.Switches.{Switches}

abbrev start : Switches
start = record {
  tags_expanded = 1;
  fav_expanded = 0;
  all_expanded = 1;
  auto_expanded = 0;
  storage = [];
}
