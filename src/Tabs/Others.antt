-- ===== src/Tabs/Others.antt =====
-- `closeOtherTabs` and `closeSideTabs` of frontend/src/store.ts: which tabs are left, and that the
-- focus stays in order.
use cozyssh.Prelude.{
  ℕ, zero, suc, ◌+◌, ◌≤◌, ◌<◌, ◌≡◌, refl, ◌∙◌, inl, inr, List, [], ◌∷◌, Option, none, some, Bool,
  true, false, String, str_eq, str_eq_refl, Option-cases, if_elim, get_elem?, take, drop, arith,
  if◌then◌else◌, option_elim,
}
use cozyssh.Tabs.{
  TabData, Store, has, tab_ids, find_tab, tab_index, or_text, is_alone, index_lt, index_gt,
  activate_tab, trigger_focus, close_other_tabs, close_side_tabs, cleanup_associated_tab_state,
}
use cozyssh.Tabs.Close.{IsUnique, IsFocused, Focus, find_tab_of_get_elem?}

has-take :
    (n : ℕ) (x : String) (ts : List TabData)
    → has (tab_ids ts) x ≡ false
    → has (tab_ids (take n ts)) x ≡ false
has-take zero x ts h = refl
has-take (suc n) x [] h = refl
has-take (suc n) x (t ∷ ts) h = ground (arith, has-take n x ts)

take-IsUnique : (n : ℕ) (ts : List TabData) → IsUnique ts → IsUnique (take n ts)
take-IsUnique zero ts q = tt
take-IsUnique (suc n) [] q = tt
take-IsUnique (suc n) (t ∷ ts) (q, r) = (has-take n t.id ts q, take-IsUnique n ts r)

drop-IsUnique : (n : ℕ) (ts : List TabData) → IsUnique ts → IsUnique (drop n ts)
drop-IsUnique zero ts q = q
drop-IsUnique (suc n) [] q = tt
drop-IsUnique (suc n) (t ∷ ts) (q, r) = drop-IsUnique n ts r

get_elem?-take : (n i : ℕ) (ts : List TabData) → i < n → get_elem? (take n ts) i ≡ get_elem? ts i
get_elem?-take zero i ts h = absurd (omega arith)
get_elem?-take (suc n) i [] h = refl
get_elem?-take (suc n) zero (t ∷ ts) h = refl
get_elem?-take (suc n) (suc i) (t ∷ ts) h = get_elem?-take n i ts (omega arith)

get_elem?-drop : (ts : List TabData) (i : ℕ) → get_elem? (drop i ts) 0 ≡ get_elem? ts i
get_elem?-drop [] zero = refl
get_elem?-drop [] (suc i) = refl
get_elem?-drop (t ∷ ts) zero = refl
get_elem?-drop (t ∷ ts) (suc i) = get_elem?-drop ts i

module _ (id : String) where
  tab_index-tail :
      (t : TabData) (ts : List TabData) (a : ℕ)
      → tab_index id (t ∷ ts) ≡ some (suc a)
      → (str_eq t.id id ≡ false) × (tab_index id ts ≡ some a)
  tab_index-tail t ts a e = (ground arith, ground arith)

  find_tab-drop :
      (i a : ℕ) (ts : List TabData)
      → tab_index id ts ≡ some a
      → i ≤ a
      → find_tab id (drop i ts) ≡ find_tab id ts
  find_tab-drop zero a ts e h = refl
  find_tab-drop (suc i) a [] e h = refl
  find_tab-drop (suc i) zero (t ∷ ts) e h = absurd (omega arith)
  find_tab-drop (suc i) (suc a) (t ∷ ts) e h =
      let (m, f) = tab_index-tail t ts a e in rw m (find_tab-drop i a ts f (omega arith))

  find_tab-take :
      (n a : ℕ) (ts : List TabData)
      → tab_index id ts ≡ some a
      → a < n
      → find_tab id (take n ts) ≡ find_tab id ts
  find_tab-take zero a ts e h = absurd (omega arith)
  find_tab-take (suc n) a [] e h = refl
  find_tab-take (suc n) zero (t ∷ ts) e h = ground arith
  find_tab-take (suc n) (suc a) (t ∷ ts) e h =
      let (m, f) = tab_index-tail t ts a e in rw m (find_tab-take n a ts f (omega arith))

  find_tab-none : (ts : List TabData) → tab_index id ts ≡ none → find_tab id ts ≡ none
  find_tab-none [] e = refl
  find_tab-none (t ∷ ts) e = ground (arith, find_tab-none ts)

abbrev tabs_of : Bool → ℕ → List TabData → List TabData
tabs_of left i ts = if left then drop i ts else take (i + 1) ts

abbrev is_closed : Bool → Option ℕ → ℕ → Bool
is_closed left active i = if left then index_lt active i else index_gt active i

-- The tab that is asked for is one of those that are left.
find_tab-tabs_of :
    (left : Bool) (i : ℕ) (t : TabData) (ts : List TabData)
    → IsUnique ts
    → get_elem? ts i ≡ some t
    → IsUnique (tabs_of left i ts) × (find_tab t.id (tabs_of left i ts) ≡ some t)
find_tab-tabs_of true i t ts q g =
    let u = drop-IsUnique i ts q in (u, find_tab_of_get_elem? _ 0 t u (get_elem?-drop ts i ∙ g))
find_tab-tabs_of false i t ts q g =
    let u = take-IsUnique (i + 1) ts q in
    (u, find_tab_of_get_elem? _ i t u (get_elem?-take (i + 1) i ts (omega arith) ∙ g))

-- The active tab is one of them, unless it is reckoned as closed.
active-tabs_of :
    (left : Bool) (i a : ℕ) (id : String) (ts : List TabData)
    → tab_index id ts ≡ some a
    → is_closed left (some a) i ≡ false
    → find_tab id (tabs_of left i ts) ≡ find_tab id ts
active-tabs_of true i a id ts e h = find_tab-drop id i a ts e (ground arith)
active-tabs_of false i a id ts e h = find_tab-take id (i + 1) a ts e (ground arith)

Focus-tabs_of :
    (left : Bool) (i : ℕ) (t : TabData) (id pane : String) (ts : List TabData)
    → get_elem? ts i ≡ some t
    → Focus ts id pane
    → is_closed left (tab_index id ts) i ≡ false
    → Focus (tabs_of left i ts) id pane
Focus-tabs_of left i t id pane ts g (inl (e, _, _)) h = let k = rw e at g in cc
Focus-tabs_of left i t id pane ts g (inr (u, e, p)) h = elim (Option-cases (tab_index id ts)) [
  | inl n ↦ let k = find_tab-none id ts n in cc
  | inr (a, n) ↦ inr (u, active-tabs_of left i a id ts n (rw n at h) ∙ e, p)
]

module _ {I : Type 0} where
  abbrev Kept : Store I → Type 0
  Kept n = IsUnique n.tabs × IsFocused n

  focused :
      (left : Bool) (i : ℕ) (t : TabData) (s : Store I)
      → IsUnique s.tabs
      → IsFocused s
      → get_elem? s.tabs i ≡ some t
      → Kept (
          trigger_focus (
            if is_closed left (tab_index s.active_tab_id s.tabs) i
            then activate_tab t (cleanup_associated_tab_state s (tabs_of left i s.tabs))
            else cleanup_associated_tab_state s (tabs_of left i s.tabs)))
  unfolding cleanup_associated_tab_state
  focused left i t s q f g =
      let (u, found) = find_tab-tabs_of left i t s.tabs q g in
      if_elim {A = Store I} (λ n. Kept (trigger_focus n))
        (is_closed left (tab_index s.active_tab_id s.tabs) i) (λ _. (u, inr (t, found, refl)))
        (λ kept. (u, Focus-tabs_of left i t s.active_tab_id s.active_pane_id s.tabs g f kept))

  -- Where no two tabs share an id and the active tab and pane are in order, the same holds after the
  -- tabs on one side of a tab are closed, and after all the others are.
  pub close_side_tabs-IsFocused :
      (target : String) (left : Bool) (s : Store I)
      → IsUnique s.tabs
      → IsFocused s
      → (IsUnique (close_side_tabs target left s).tabs × IsFocused (close_side_tabs target left s))
        × (IsUnique (close_other_tabs target s).tabs × IsFocused (close_other_tabs target s))
  unfolding close_side_tabs close_other_tabs cleanup_associated_tab_state
  close_side_tabs-IsFocused target left s q f = (
    if_elim Kept (is_alone s.tabs id) (λ _. (q, f))
        λ _.
          option_elim Kept (tab_index id s.tabs) (λ _. (q, f))
            λ i _.
              option_elim Kept (get_elem? s.tabs i) (λ _. (q, f)) (λ t g. focused left i t s q f g),
    if_elim Kept (is_alone s.tabs id) (λ _. (q, f))
        λ _.
          option_elim Kept (find_tab id s.tabs) (λ _. (q, f))
            λ t _. ((refl, tt), inr (t, rw (str_eq_refl t.id) refl, refl)),
  )
    where
      id : String
      id = or_text target s.active_tab_id
