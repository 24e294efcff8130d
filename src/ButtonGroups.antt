-- ===== src/ButtonGroups.antt =====
-- The button bar's groups of frontend/src/store.ts: `prevButtonGroup` and `nextButtonGroup`, which go
-- round the sorted groups and pass over the hidden ones. The buttons are given by their groups.
pub mod Cycle
use text.Mathlib.Text
use Prim.Native.Nat.{Ordering}
use Prim.Native.String
use cozyssh.Prelude.{
  ℕ, zero, suc, ◌+◌, ◌-◌, ◌%◌, List, [], ◌∷◌, Option, none, some, Bool, true, false, not, ◌&&◌,
  String, str_eq, if◌then◌else◌, ◌==◌, length, get_elem?, find_index, filter,
}

abbrev pub default_button_group : String
default_button_group = "Default"

-- A set keeps the first of equal texts.
pub unique : List String → List String
unique [] = []
unique (x ∷ xs) = x ∷ filter (λ y. not (str_eq y x)) (unique xs)

abbrev pub text_leb : String → String → Bool
text_leb a b = elim (String.compare a b) [ Ordering.gt ↦ false | _ ↦ true ]

pub insert : String → List String → List String
insert x [] = x ∷ []
insert x (y ∷ ys) = let rest = insert x ys in if text_leb x y then x ∷ y ∷ ys else y ∷ rest

pub sort : List String → List String
unfolding insert
sort [] = []
sort (x ∷ xs) = insert x (sort xs)

-- `groups` of the two functions, from the groups of the buttons.
pub groups_of : List String → List String
unfolding sort unique
groups_of button_groups = sort (unique (default_button_group ∷ button_groups))

abbrev pub is_hidden : List String → ℕ → Bool
is_hidden groups i = elim (get_elem? groups i) [ none ↦ false | some g ↦ Text.starts_with g "_" ]

-- nextIdx !== idx, where `idx` is -1 for a group that no button has.
abbrev pub differs : ℕ → Option ℕ → Bool
differs i none = true
differs i (some j) = not (i == j)

-- while (nextIdx !== idx && groups[nextIdx]!.startsWith("_")) { nextIdx = step(nextIdx); }
pub pass_over : (ℕ → ℕ) → List String → Option ℕ → ℕ → ℕ → Option ℕ
pass_over step groups idx zero i = none
pass_over step groups idx (suc fuel) i = elim (differs i idx && is_hidden groups i) [
  | true ↦ pass_over step groups idx fuel (step i)
  | false ↦ some i
]

-- (i + 1) % groups.length and (i - 1 + groups.length) % groups.length
abbrev pub step_next : ℕ → ℕ → ℕ
step_next n i = (i + 1) % n

abbrev pub step_prev : ℕ → ℕ → ℕ
step_prev n i = (i + n - 1) % n

-- The same from -1: 0 % n, and (n - 2) % n, which is -1 % 1 = -0 for one group.
abbrev pub start_next : ℕ → Option ℕ → ℕ
start_next n none = 0
start_next n (some i) = step_next n i

abbrev pub start_prev : ℕ → Option ℕ → ℕ
start_prev n none = n - 2
start_prev n (some i) = step_prev n i

-- The group that becomes the active one; `none` for a loop that does not end.
abbrev pub group_from : (ℕ → ℕ) → ℕ → List String → Option ℕ → Bool → Option String
group_from step start groups idx include_hidden =
    elim (if include_hidden then some start else pass_over step groups idx (length groups) start) [
      | none ↦ none
      | some i ↦ get_elem? groups i
    ]

unfoldable pub next_button_group : List String → String → Bool → Option String
unfolding groups_of pass_over
next_button_group button_groups active_group include_hidden =
    let groups = groups_of button_groups in
    let idx = find_index (λ g. str_eq g active_group) groups in
    group_from (step_next (length groups)) (start_next (length groups) idx) groups idx
      include_hidden

unfoldable pub prev_button_group : List String → String → Bool → Option String
unfolding groups_of pass_over
prev_button_group button_groups active_group include_hidden =
    let groups = groups_of button_groups in
    let idx = find_index (λ g. str_eq g active_group) groups in
    group_from (step_prev (length groups)) (start_prev (length groups) idx) groups idx
      include_hidden
