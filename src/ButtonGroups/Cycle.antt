-- ===== src/ButtonGroups/Cycle.antt =====
-- Going round the button groups of frontend/src/store.ts ends, at a group that is shown.
use native.Mathlib.Nat.{mod-eq_of_lt, mod_self, mod-eq-sub-mod}
use text.Mathlib.Text
use cozyssh.Prelude.{
  ℕ, zero, suc, ◌+◌, ◌-◌, ◌%◌, ◌≤◌, ◌<◌, ◌≡◌, ◌≢◌, refl, ◌∙◌, sym, ap, inl, inr, ◌⊎◌, List, [], ◌∷◌,
  Option, none, some, true, false, not, ◌&&◌, String, str_eq, str_eq_iff, if◌then◌else◌, ◌==◌,
  length, get_elem?, find_index, filter, arith, Bool-cases, Option-cases, ltb, ==_iff, if_elim,
}
use cozyssh.ButtonGroups.{
  text_leb, unique, insert, sort, groups_of, default_button_group, is_hidden, differs, pass_over,
  step_next, step_prev, start_next, start_prev, group_from, next_button_group, prev_button_group,
}

get_elem?-some :
    (xs : List String) (i : ℕ) → i < length xs → (x : String) × (get_elem? xs i ≡ some x)
get_elem?-some [] i h = absurd (omega arith)
get_elem?-some (x ∷ xs) zero h = (x, refl)
get_elem?-some (x ∷ xs) (suc i) h = get_elem?-some xs i (omega arith)

length-get_elem? : (xs : List String) (i : ℕ) (x : String) → get_elem? xs i ≡ some x → i < length xs
length-get_elem? [] i x e = absurd (ground arith)
length-get_elem? (y ∷ xs) zero x e = omega arith
length-get_elem? (y ∷ xs) (suc i) x e = omega (arith, length-get_elem? xs i x e)

found_at :
    (active : String) (xs : List String) (i : ℕ)
    → find_index (λ g. str_eq g active) xs ≡ some i
    → get_elem? xs i ≡ some active
found_at active [] i e = absurd (ground arith)
found_at active (x ∷ xs) zero e = elim (Bool-cases (str_eq x active)) [
  | inl on ↦ ap some ((str_eq_iff x active).0 on)
  | inr out ↦ absurd (ground arith)
]
found_at active (x ∷ xs) (suc i) e = found_at active xs i (ground arith)

inserted : (x : String) (ys : List String) → (d : ℕ) × (get_elem? (insert x ys) d ≡ some x)
unfolding insert
inserted x [] = (0, refl)
inserted x (y ∷ ys) =
    if_elim (λ zs. (d : ℕ) × (get_elem? zs d ≡ some x)) (text_leb x y) (λ _. (0, refl))
      λ _. let (d, e) = inserted x ys in (suc d, e)

module _ (step dist : ℕ → ℕ) (groups : List String) (idx : Option ℕ) (d : ℕ)
    (shown : is_hidden groups d ≡ false)
    (down : (i : ℕ)
      → i < length groups
      → i ≢ d
      → (step i < length groups) × (suc (dist (step i)) ≡ dist i)) where
  pass_over_lem :
      (fuel i : ℕ)
      → i < length groups
      → dist i < fuel
      → (j : ℕ) × (pass_over step groups idx fuel i ≡ some j)
        × (j < length groups)
        × ((is_hidden groups j ≡ false) ⊎ (idx ≡ some j))
  unfolding pass_over
  pass_over_lem zero i h f = absurd (omega arith)
  pass_over_lem (suc fuel) i h f = elim (Bool-cases (differs i idx && is_hidden groups i)) [
    | inl on ↦
        let hidden : is_hidden groups i ≡ true = ground arith in
        let (k, e) = down i h (λ same. let k = ap (is_hidden groups) same in cc) in
        let (j, p, q, r) = pass_over_lem fuel (step i) k (omega arith) in
        (j, rw (on, pass_over) p, q, r)
    | inr out ↦ (i, rw (out, pass_over) refl, h, stops out)
  ]
    where
      stops :
          (differs i idx && is_hidden groups i) ≡ false
          → (is_hidden groups i ≡ false) ⊎ (idx ≡ some i)
      stops out = ground arith

abbrev dist_next : ℕ → ℕ → ℕ → ℕ
dist_next n d i = if ltb d i then d + n - i else d - i

abbrev dist_prev : ℕ → ℕ → ℕ → ℕ
dist_prev n d i = if ltb i d then i + n - d else i - d

next_lem : (n i : ℕ) → i < n → step_next n i ≡ (if i + 1 == n then 0 else i + 1)
next_lem n i h =
    if_elim (λ r. step_next n i ≡ r) (i + 1 == n)
      (λ e. ap (λ k. k % n) ((==_iff (i + 1) n).0 e) ∙ mod_self n)
      (λ e. mod-eq_of_lt (ground arith))

prev_lem : (n i : ℕ) → i < n → step_prev n i ≡ (if i == 0 then n - 1 else i - 1)
prev_lem n i h =
    if_elim (λ r. step_prev n i ≡ r) (i == 0)
      (λ e.
        let k : i + n - 1 ≡ n - 1 = ground arith in ap (λ z. z % n) k ∙ mod-eq_of_lt (omega arith))
      (λ e.
        let k : i + n - 1 - n ≡ i - 1 = ground arith in
        let big : n ≤ i + n - 1 = ground arith in
        mod-eq-sub-mod big ∙ ap (λ z. z % n) k ∙ mod-eq_of_lt (omega arith))

next_down :
    (n d i : ℕ)
    → d < n
    → i < n
    → i ≢ d
    → (step_next n i < n) × (suc (dist_next n d (step_next n i)) ≡ dist_next n d i)
next_down n d i h k ne = rw (next_lem n i k) (ground arith)

prev_down :
    (n d i : ℕ)
    → d < n
    → i < n
    → i ≢ d
    → (step_prev n i < n) × (suc (dist_prev n d (step_prev n i)) ≡ dist_prev n d i)
prev_down n d i h k ne = rw (prev_lem n i k) (ground arith)

default_shown :
    (groups : List String) (d : ℕ)
    → get_elem? groups d ≡ some default_button_group
    → is_hidden groups d ≡ false
default_shown groups d e = rw (e, is_hidden) refl

some_inj : {a b : String} → some a ≡ some b → a ≡ b
some_inj e = cc

Below : ℕ → Option ℕ → Type 0
Below n none = Unit
Below n (some i) = i < n

index-Below :
    (active : String) (groups : List String)
    → Below (length groups) (find_index (λ g. str_eq g active) groups)
unfolding Below
index-Below active groups = elim (Option-cases (find_index (λ g. str_eq g active) groups)) [
  | inl e ↦ rw e tt
  | inr (i, e) ↦ rw e (length-get_elem? groups i active (found_at active groups i e))
]

next_starts :
    (n d : ℕ) (idx : Option ℕ)
    → d < n
    → Below n idx
    → (start_next n idx < n) × (dist_next n d (start_next n idx) < n)
unfolding Below
next_starts n d none h b = (ground arith, ground arith)
next_starts n d (some i) h b = rw (next_lem n i b) (ground arith)

prev_starts :
    (n d : ℕ) (idx : Option ℕ)
    → d < n
    → Below n idx
    → (start_prev n idx < n) × (dist_prev n d (start_prev n idx) < n)
unfolding Below
prev_starts n d none h b = (ground arith, ground arith)
prev_starts n d (some i) h b = rw (prev_lem n i b) (ground arith)

-- The default group has a number among the groups.
has_default :
    (button_groups : List String)
    → (d : ℕ) × (get_elem? (groups_of button_groups) d ≡ some default_button_group)
unfolding groups_of unique sort
has_default button_groups =
    inserted default_button_group
      (sort (filter (λ y. not (str_eq y default_button_group)) (unique button_groups)))

index_found :
    (active : String) (groups : List String) (j : ℕ) (g : String)
    → get_elem? groups j ≡ some g
    → find_index (λ h. str_eq h active) groups ≡ some j
    → g ≡ active
index_found active groups j g e f = some_inj (sym e ∙ found_at active groups j f)

-- What the loop comes to, and the group there.
module _ (step dist : ℕ → ℕ) (groups : List String) (active : String) (start d : ℕ)
    (def : get_elem? groups d ≡ some default_button_group) (begins : start < length groups)
    (near : dist start < length groups)
    (down : (i : ℕ)
      → i < length groups
      → i ≢ d
      → (step i < length groups) × (suc (dist (step i)) ≡ dist i)) where
  group_from_lem :
      (g : String) × (group_from step start groups (find_index (λ h. str_eq h active) groups) false
        ≡ some g)
      × ((Text.starts_with g "_" ≡ false) ⊎ (g ≡ active))
  group_from_lem =
      let idx = find_index (λ h. str_eq h active) groups in
      let (j, p, h, r) =
        pass_over_lem step dist groups idx d (default_shown groups d def) down (length groups) start
          begins near in
      let (g, e) = get_elem?-some groups j h in
      (
        g,
        rw (p, group_from) e,
        elim r [
          | inl s ↦ inl (rw (e, is_hidden) at s)
          | inr f ↦ inr (index_found active groups j g e f)
        ],
      )

-- Going to the next or to the previous button group ends, whatever groups the buttons have and
-- whichever is active, and gives a group that is not hidden, or stays.
pub button_group_lem :
    (button_groups : List String) (active_group : String)
    → ((g : String) × (next_button_group button_groups active_group false ≡ some g)
        × ((Text.starts_with g "_" ≡ false) ⊎ (g ≡ active_group)))
      × ((g : String) × (prev_button_group button_groups active_group false ≡ some g)
          × ((Text.starts_with g "_" ≡ false) ⊎ (g ≡ active_group)))
unfolding next_button_group prev_button_group
button_group_lem button_groups active_group =
    let (d, def) = has_default button_groups in
    let h = length-get_elem? (groups_of button_groups) d _ def in
    let n = length (groups_of button_groups) in
    let (k, l) =
      next_starts n d (find_index (λ g. str_eq g active_group) (groups_of button_groups)) h
        (index-Below active_group _) in
    let (k', l') =
      prev_starts n d (find_index (λ g. str_eq g active_group) (groups_of button_groups)) h
        (index-Below active_group _) in
    (
      group_from_lem (step_next n) (dist_next n d) (groups_of button_groups) active_group _ d def k
          l (λ i u v. next_down n d i h u v),
      group_from_lem (step_prev n) (dist_prev n d) (groups_of button_groups) active_group _ d def k'
          l' (λ i u v. prev_down n d i h u v),
    )
