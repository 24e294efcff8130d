-- ===== src/TabEvents/Reordered.antt =====
-- `reorderTabs` of frontend/src/TabBar.tsx keeps the store in order.
use cozyssh.Prelude.{
  ℕ, zero, suc, ◌+◌, ◌-◌, ◌≤◌, ◌<◌, ◌≡◌, refl, sym, ap, ◌∙◌, subst, inl, inr, List, [], ◌∷◌, none,
  some, Bool, true, false, String, str_eq, str_eq_iff, Bool-cases, Option-cases, arith, get_elem?,
  length, ltb, ◌==◌, if◌then◌else◌, find_index,
}
use cozyssh.Ordering.{insert_at, remove_at, insert_index}
use cozyssh.Tabs.{TabData, Store, find_tab, set_tabs, cleanup_associated_tab_state, tab_index}
use cozyssh.Tabs.Close.{Focus, IsFocused, IsUnique, find_tab_of_get_elem?}
use cozyssh.Tabs.Activate.{find-get_elem?}
use cozyssh.TabPanes.Removed.{find-has}
use cozyssh.TabPanes.Orderly.{IsOrderly}
use cozyssh.TabPanes.Picked.{picked-IsOrderly}
use cozyssh.TabEvents.{reorder_tabs}

-- Where the element at `j` stood before the one at `i` was taken out and put in at `k`, and the
-- other way.
abbrev source : ℕ → ℕ → ℕ → ℕ
source i k j =
    if j == k then i else let at = if ltb j k then j else j - 1 in if ltb at i then at else at + 1

abbrev place : ℕ → ℕ → ℕ → ℕ
place i k j =
    if j == i then k else let at = if ltb j i then j else j - 1 in if ltb at k then at else at + 1

place-source : (i k j : ℕ) → place i k (source i k j) ≡ j
place-source i k j = ground arith

source-place : (i k j : ℕ) → source i k (place i k j) ≡ j
source-place i k j = ground arith

module _ {ℓ} {A : Type ℓ} where
  get_elem?-remove_at :
      (i j : ℕ) (xs : List A)
      → get_elem? (remove_at i xs) j ≡ get_elem? xs (if ltb j i then j else j + 1)
  unfolding remove_at
  get_elem?-remove_at i j [] = ground arith
  get_elem?-remove_at zero j (x ∷ xs) = ground arith
  get_elem?-remove_at (suc i) zero (x ∷ xs) = ground arith
  get_elem?-remove_at (suc i) (suc j) (x ∷ xs) = ground (arith, get_elem?-remove_at i j xs)

  get_elem?-insert_at :
      (k j : ℕ) (x : A) (xs : List A)
      → k ≤ length xs
      → get_elem? (insert_at k (x ∷ []) xs) j
        ≡ (if j == k then some x else get_elem? xs (if ltb j k then j else j - 1))
  unfolding insert_at
  get_elem?-insert_at zero zero x xs h = refl
  get_elem?-insert_at zero (suc j) x xs h = ground arith
  get_elem?-insert_at (suc k) j x [] h = absurd (omega arith)
  get_elem?-insert_at (suc k) zero x (y ∷ xs) h = ground arith
  get_elem?-insert_at (suc k) (suc zero) x (y ∷ xs) h =
      get_elem?-insert_at k zero x xs (omega arith) ∙ ground arith
  get_elem?-insert_at (suc k) (suc (suc j)) x (y ∷ xs) h =
      get_elem?-insert_at k (suc j) x xs (omega arith) ∙ ground arith

  get_elem?-moved :
      (i k j : ℕ) (x : A) (xs : List A)
      → get_elem? xs i ≡ some x
      → k ≤ length (remove_at i xs)
      → get_elem? (insert_at k (x ∷ []) (remove_at i xs)) j ≡ get_elem? xs (source i k j)
  get_elem?-moved i k j x xs e h =
      get_elem?-insert_at k j x (remove_at i xs) h ∙ elim (Bool-cases (j == k)) [
        | inl hit ↦ rw hit (sym e)
        | inr miss ↦ rw miss (get_elem?-remove_at i (if ltb j k then j else j - 1) xs)
      ]

  index_bound : (p : A → Bool) (xs : List A) (i : ℕ) → find_index p xs ≡ some i → i < length xs
  index_bound p [] i e = cc
  index_bound p (x ∷ xs) i e = elim (Bool-cases (p x)) [
    | inl hit ↦ ground arith
    | inr miss ↦ elim (Option-cases (find_index p xs)) [
      | inl n ↦ absurd (ground arith)
      | inr (j, f) ↦ let b = index_bound p xs j f in ground arith
    ]
  ]

  insert_index_bound :
      (p : A → Bool) (after : Bool) (xs : List A)
      → insert_index (find_index p xs) after xs ≤ length xs
  unfolding insert_index
  insert_index_bound p after xs = elim (Option-cases (find_index p xs)) [
    | inl n ↦ rw n (missing after)
    | inr (i, f) ↦ rw f (found i (index_bound p xs i f) after)
  ]
    where
      missing : (after : Bool) → insert_index none after xs ≤ length xs
      missing true = omega arith
      missing false = omega arith

      found : (i : ℕ) → i < length xs → (after : Bool) → insert_index (some i) after xs ≤ length xs
      found i h true = omega arith
      found i h false = omega arith

module _ {I : Type 0} where
  moved-IsOrderly :
      (i k : ℕ) (s : Store I) (t : TabData)
      → IsOrderly s
      → get_elem? s.tabs i ≡ some t
      → k ≤ length (remove_at i s.tabs)
      → IsOrderly (set_tabs (λ _. insert_at k (t ∷ []) (remove_at i s.tabs)) s)
  unfolding set_tabs cleanup_associated_tab_state
  moved-IsOrderly i k s t o e h =
      picked-IsOrderly s _ (source i k) o
        (λ a b q. sym (place-source i k a) ∙ ap (place i k) q ∙ place-source i k b)
        (λ a v q. sym (get_elem?-moved i k a t s.tabs e h) ∙ q) (λ q. focus q o.focused)
    where
      focus :
          IsUnique (insert_at k (t ∷ []) (remove_at i s.tabs))
          → IsFocused s
          → Focus (insert_at k (t ∷ []) (remove_at i s.tabs)) s.active_tab_id s.active_pane_id
      focus q (inl (none_left, _, _)) = let g = rw none_left at e in cc
      focus q (inr (v, g, p)) =
          let (a, at) = find-get_elem? (λ w. str_eq w.id s.active_tab_id) s.tabs v g in
          let (_, same) = find-has (λ w. str_eq w.id s.active_tab_id) s.tabs v g in
          let moved =
            get_elem?-moved i k (place i k a) t s.tabs e h
            ∙ ap (get_elem? s.tabs) (source-place i k a)
            ∙ at in
          inr (
            v,
            subst (λ x. find_tab x (insert_at k (t ∷ []) (remove_at i s.tabs)) ≡ some v)
                ((str_eq_iff v.id s.active_tab_id).0 same)
                (find_tab_of_get_elem? _ (place i k a) v q moved),
            p,
          )

  -- Dragging a tab onto another one leaves a store in order that was.
  pub reorder_tabs-IsOrderly :
      (dragged target : String) (after : Bool) (s : Store I)
      → IsOrderly s
      → IsOrderly (reorder_tabs dragged target after s)
  unfolding reorder_tabs
  reorder_tabs-IsOrderly dragged target after s o = elim (Option-cases (tab_index dragged s.tabs)) [
    | inl n ↦ rw (n, reorder_tabs) o
    | inr (i, e) ↦ elim (Option-cases (tab_index target s.tabs)) [
      | inl n ↦ rw (e, n, reorder_tabs) o
      | inr (j, f) ↦ elim (Option-cases (get_elem? s.tabs i)) [
        | inl n ↦ rw (e, f, n, reorder_tabs) o
        | inr (t, g) ↦
            rw (e, f, g, reorder_tabs)
              (moved-IsOrderly i _ s t o g
                (insert_index_bound (λ u. str_eq u.id target) after (remove_at i s.tabs)))
      ]
    ]
  ]
