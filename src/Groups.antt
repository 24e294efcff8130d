-- ===== src/Groups.antt =====
-- The expanded groups of the host list, `toggleGroupExpanded` and `toggleExpandAllGroups` of
-- frontend/src/store.ts. A set is the list of its members, each once.
pub mod Expanded
use text.Mathlib.Text
use cozyssh.ButtonGroups.{sort}
use cozyssh.Prelude.{
  Option, none, some, ◌&&◌, concat, List, [], ◌∷◌, ◌++◌, Bool, true, false, not, ◌||◌, String,
  str_eq, if◌then◌else◌, any, filter,
}

abbrev pub in_set : String → List String → Bool
in_set x = any (str_eq x)

abbrev pub add : String → List String → List String
add x set = if in_set x set then set else set ++ x ∷ []

abbrev pub delete : String → List String → List String
delete x = filter (λ y. not (str_eq y x))

abbrev pub add_all : List String → List String → List String
add_all [] set = set
add_all (x ∷ xs) set = add_all xs (add x set)

abbrev pub delete_all : List String → List String → List String
delete_all [] set = set
delete_all (x ∷ xs) set = delete_all xs (delete x set)

abbrev pub is_under : String → String → Bool
is_under path g = str_eq g path || Text.starts_with g (concat path "/")

abbrev pub sub_groups : String → Bool → List String → List String
sub_groups path include_children groups =
    if include_children then filter (is_under path) groups else path ∷ []

unfoldable pub toggle_group_expanded : String → Bool → List String → List String → List String
toggle_group_expanded path include_children groups expanded =
    if in_set path expanded
    then delete_all (sub_groups path include_children groups) expanded
    else add_all (sub_groups path include_children groups) expanded

abbrev list_eq : List String → List String → Bool
list_eq [] [] = true
list_eq [] (y ∷ ys) = false
list_eq (x ∷ xs) [] = false
list_eq (x ∷ xs) (y ∷ ys) = str_eq x y && list_eq xs ys

-- A set of the members of a list.
abbrev pub set_of : List String → List String
set_of xs = add_all xs []

abbrev pub opens : Option Bool → List String → List String → Bool
opens none groups expanded = not (list_eq (sort expanded) (sort groups))
opens (some open_all) groups expanded = open_all

unfoldable pub toggle_expand_all_groups : Option Bool → List String → List String → List String
toggle_expand_all_groups open_all groups expanded =
    if opens open_all groups expanded then set_of groups else []
