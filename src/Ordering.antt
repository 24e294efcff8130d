-- ===== src/Ordering.antt =====
-- The order of the buttons and of the groups of servers: `reorderButtons` and `moveGroup` of
-- frontend/src/store.ts, up to the request that stores the order.
pub mod Splice
pub mod Moves
mod Tests
use text.Mathlib.Text
use cozyssh.Prelude.{
  ℕ, zero, suc, ◌+◌, ◌-◌, ◌*◌, List, [], ◌∷◌, ◌++◌, Option, none, some, Bool, true, false, not,
  ◌||◌, String, str_eq, if◌then◌else◌, ltb, ◌==◌, length, find_index, filter, get_elem?, concat,
}

-- A button: `payload` stands for the fields that are passed on as they are.
pub record Button (P : Type 0) : Type 0 where
  pub id : String
  pub name : String
  pub group : String
  pub order : ℕ
  pub mtime : ℕ
  pub payload : P

module _ {ℓ} {A : Type ℓ} where
  -- splice(i, 0, ...ys)
  unfoldable pub insert_at : ℕ → List A → List A → List A
  insert_at zero ys xs = ys ++ xs
  insert_at (suc i) ys [] = ys
  insert_at (suc i) ys (x ∷ xs) = x ∷ insert_at i ys xs

  -- splice(i, 1)
  unfoldable pub remove_at : ℕ → List A → List A
  remove_at i [] = []
  remove_at zero (x ∷ xs) = xs
  remove_at (suc i) (x ∷ xs) = x ∷ remove_at i xs

  -- The index of `splice` for the new place; -1, for a missing target, counts from the end.
  unfoldable pub insert_index : Option ℕ → Bool → List A → ℕ
  insert_index none true xs = 0
  insert_index none false xs = length xs - 1
  insert_index (some i) true xs = suc i
  insert_index (some i) false xs = i

  -- A stable sort; the function tells whether its first argument may stay before the second.
  pub insert : (A → A → Bool) → A → List A → List A
  insert le x [] = x ∷ []
  insert le x (y ∷ ys) = let rest = insert le x ys in if le x y then x ∷ y ∷ ys else y ∷ rest

  unfoldable pub sort : (A → A → Bool) → List A → List A
  unfolding insert
  sort le [] = []
  sort le (x ∷ xs) = insert le x (sort le xs)

module _ {P : Type 0} where
  -- (b.group || DEFAULT_BUTTON_GROUP) === activeGroup
  abbrev pub in_group : String → Button P → Bool
  in_group active b = str_eq (if str_eq b.group "" then "Default" else b.group) active

  abbrev pub button_index : String → List (Button P) → Option ℕ
  button_index id = find_index λ b. str_eq b.id id

  -- The orders 10, 20, ... from the index `i` on.
  unfoldable pub renumber : ℕ → ℕ → List (Button P) → List (Button P)
  renumber now i [] = []
  renumber now i (b ∷ bs) = record b { order = (i + 1) * 10; mtime = now } ∷ renumber now (i + 1) bs

  -- The group with the button moved: before the target, or after it.
  unfoldable pub moved : String → String → Bool → List (Button P) → Option (List (Button P))
  unfolding insert_at remove_at insert_index
  moved dragged target after bs = elim (button_index dragged bs) [
    | none ↦ none
    | some i ↦ elim (button_index target bs) [
      | none ↦ none
      | some j ↦ elim (get_elem? bs i) [
        | none ↦ none
        | some b ↦
            let rest = remove_at i bs in
            some (insert_at (insert_index (button_index target rest) after rest) (b ∷ []) rest)
      ]
    ]
  ]

  abbrev pub button_le : (String → String → Bool) → Button P → Button P → Bool
  button_le name_le a b = if a.order == b.order then name_le a.name b.name else ltb a.order b.order

  -- All buttons, and those that are sent to the server, for the ones that there are: `name_le`
  -- compares by `localeCompare`, `now` is the time. `none`: nothing is done.
  unfoldable pub reorder_buttons :
      (String → String → Bool)
      → ℕ
      → String
      → String
      → String
      → Bool
      → List (Button P)
      → Option (List (Button P) × List (Button P))
  unfolding moved renumber
  reorder_buttons name_le now active dragged target after buttons =
      elim (moved dragged target after (filter (in_group active) buttons)) [
        | none ↦ none
        | some bs ↦
            let sent = renumber now 0 bs in
            some (
              sort (button_le name_le) (filter (λ b. not (in_group active b)) buttons ++ sent),
              sent,
            )
      ]

-- g === srcPath || g.startsWith(srcPath + "/")
abbrev pub is_within : String → String → Bool
is_within path g = str_eq g path || Text.starts_with g (concat path "/")

-- `moveGroup`: the groups that are sent to the server.
unfoldable pub move_group : String → String → List String → List String
unfolding insert_at
move_group path before_sibling groups =
    let dragged = filter (is_within path) groups in
    let remaining = filter (λ g. not (is_within path g)) groups in
    elim (find_index (λ g. str_eq g before_sibling) remaining) [
      | none ↦ remaining ++ dragged
      | some i ↦ insert_at i dragged remaining
    ]
