-- ===== src/Ordering/Tests.antt =====
-- Three buttons of a group and one of another: the tests of the order, and a concrete case of each
-- theorem that has hypotheses (frontend/src/store.ts).
use mathlib.Core.List.{Perm}
use cozyssh.Prelude.{ℕ, ◌≡◌, refl, List, [], ◌∷◌, ◌++◌, some, Bool, true, String, filter}
use cozyssh.Ordering.{Button, reorder_buttons, renumber, remove_at, in_group, move_group, insert_at}
use cozyssh.Ordering.Moves.{beside, button_ids, reorder_buttons_lem}

abbrev button : String → String → ℕ → Button ℕ
button id group order = record {
  id = id;
  name = id;
  group = group;
  order = order;
  mtime = 1;
  payload = 0;
}

abbrev buttons : List (Button ℕ)
buttons = button "a" "" 10 ∷ button "x" "Net" 15 ∷ button "b" "Default" 20 ∷ button "c" "" 30 ∷ []

abbrev any_name : String → String → Bool
any_name s t = true

reorder_buttons_lem_example :
    (all : List (Button ℕ)) × (b : Button ℕ) × (l : List (Button ℕ)) × (t : Button ℕ) × (r : List
      (Button ℕ))
    × (b.id ≡ "c")
    × (t.id ≡ "a")
    × (remove_at 2 (filter (in_group "Default") buttons) ≡ l ++ (t ∷ r))
    × (reorder_buttons any_name 7 "Default" "c" "a" true buttons
        ≡ some (all, renumber 7 0 (l ++ beside true b t r)))
    × Perm (button_ids all) (button_ids buttons)
reorder_buttons_lem_example =
    reorder_buttons_lem any_name 7 "Default" "c" "a" true buttons 2 0 refl refl refl

move_group_test : move_group "a" "c" ("a" ∷ "a/b" ∷ "ab" ∷ "c" ∷ []) ≡ "ab" ∷ "a" ∷ "a/b" ∷ "c" ∷ []
unfolding move_group insert_at
move_group_test = refl
