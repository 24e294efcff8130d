-- ===== src/TabPanes/Moved.antt =====
-- The moves of a tab (frontend/src/store.ts) keep the store in order.
use cozyssh.Prelude.{
  ℕ, zero, suc, ◌+◌, ◌≡◌, refl, sym, ap, ◌∙◌, subst, inl, inr, List, [], ◌∷◌, some, String, str_eq,
  str_eq_iff, Bool-cases, Option-cases, arith, if_elim, get_elem?, set, length, ◌==◌, ==_iff,
  if◌then◌else◌, option_elim,
}
use cozyssh.Tabs.{
  TabData, Store, find_tab, exchange, set_tabs, cleanup_associated_tab_state, move_tab_left,
  move_tab_right, move_tab_to_first, move_tab_to_last, tab_index, or_text,
}
use cozyssh.Tabs.Close.{Focus, IsFocused, IsUnique, find_tab_of_get_elem?}
use cozyssh.Tabs.Activate.{find-get_elem?}
use cozyssh.Tabs.Order.{get_elem?-set}
use cozyssh.TabPanes.Removed.{find-has}
use cozyssh.TabPanes.Orderly.{IsOrderly}
use cozyssh.TabPanes.Picked.{picked-IsOrderly}

-- Where the tab at `k` stood before the tabs at `i` and `j` changed places.
abbrev source : ℕ → ℕ → ℕ → ℕ
source i j k = if k == i then j else if k == j then i else k

source-source : (i j k : ℕ) → source i j (source i j k) ≡ k
source-source i j k = ground arith

module _ {ℓ} {A : Type ℓ} where
  get_elem?-set_same :
      (xs : List A) (i : ℕ) (x v : A) → get_elem? xs i ≡ some x → get_elem? (set xs i v) i ≡ some v
  get_elem?-set_same [] i x v e = cc
  get_elem?-set_same (y ∷ xs) zero x v e = refl
  get_elem?-set_same (y ∷ xs) (suc i) x v e = get_elem?-set_same xs i x v e

  get_elem?-exchanged :
      (xs : List A) (i j k : ℕ) (x y : A)
      → get_elem? xs i ≡ some x
      → get_elem? xs j ≡ some y
      → get_elem? (set (set xs j x) i y) k ≡ get_elem? xs (source i j k)
  get_elem?-exchanged xs i j k x y e f = elim (Bool-cases (k == i)) [
    | inl h ↦
        let (z, g) = there in
        rw h (
          ap (get_elem? (set (set xs j x) i y)) ((==_iff k i).0 h)
          ∙ get_elem?-set_same (set xs j x) i z y g
          ∙ sym f)
    | inr h ↦ elim (Bool-cases (k == j)) [
      | inl l ↦
          rw (h, l)
            (get_elem?-set (set xs j x) i k y (λ q. absurd (ground arith))
              ∙ ap (get_elem? (set xs j x)) ((==_iff k j).0 l)
              ∙ get_elem?-set_same xs j y x f
              ∙ sym e)
      | inr l ↦
          rw (h, l)
            (get_elem?-set (set xs j x) i k y (λ q. absurd (ground arith))
              ∙ get_elem?-set xs j k x (λ q. absurd (ground arith)))
    ]
  ]
    where
      there : (z : A) × (get_elem? (set xs j x) i ≡ some z)
      there = elim (Bool-cases (i == j)) [
        | inl h ↦
            (x, ap (get_elem? (set xs j x)) ((==_iff i j).0 h) ∙ get_elem?-set_same xs j y x f)
        | inr h ↦ (x, get_elem?-set xs j i x (λ q. absurd (ground arith)) ∙ e)
      ]

module _ {I : Type 0} where
  exchanged-IsOrderly :
      (i j : ℕ) (s : Store I) (t u : TabData)
      → IsOrderly s
      → get_elem? s.tabs i ≡ some t
      → get_elem? s.tabs j ≡ some u
      → IsOrderly (set_tabs (λ _. set (set s.tabs j t) i u) s)
  unfolding set_tabs cleanup_associated_tab_state
  exchanged-IsOrderly i j s t u o e f =
      picked-IsOrderly s _ (source i j) o
        (λ k l h. sym (source-source i j k) ∙ ap (source i j) h ∙ source-source i j l)
        (λ k v h. sym (get_elem?-exchanged s.tabs i j k t u e f) ∙ h) (λ q. focus q o.focused)
    where
      focus :
          IsUnique (set (set s.tabs j t) i u)
          → IsFocused s
          → Focus (set (set s.tabs j t) i u) s.active_tab_id s.active_pane_id
      focus q (inl (none_left, _, _)) = let g = rw none_left at e in cc
      focus q (inr (v, g, p)) =
          let (k, h) = find-get_elem? (λ w. str_eq w.id s.active_tab_id) s.tabs v g in
          let (_, same) = find-has (λ w. str_eq w.id s.active_tab_id) s.tabs v g in
          let moved =
            get_elem?-exchanged s.tabs i j (source i j k) t u e f
            ∙ ap (get_elem? s.tabs) (source-source i j k)
            ∙ h in
          inr (
            v,
            subst (λ x. find_tab x (set (set s.tabs j t) i u) ≡ some v)
                ((str_eq_iff v.id s.active_tab_id).0 same)
                (find_tab_of_get_elem? _ (source i j k) v q moved),
            p,
          )

  pub exchange-IsOrderly : (i j : ℕ) (s : Store I) → IsOrderly s → IsOrderly (exchange i j s)
  exchange-IsOrderly i j s o =
      option_elim IsOrderly (get_elem? s.tabs i) (λ _. o)
        λ t e.
          option_elim IsOrderly (get_elem? s.tabs j) (λ _. o)
            (λ u f. exchanged-IsOrderly i j s t u o e f)

  -- Each of the four moves of a tab leaves a store in order that was.
  pub move_tab-IsOrderly :
      (target : String) (s : Store I)
      → IsOrderly s
      → IsOrderly (move_tab_left target s)
        × IsOrderly (move_tab_right target s)
        × IsOrderly (move_tab_to_first target s)
        × IsOrderly (move_tab_to_last target s)
  unfolding move_tab_left move_tab_right move_tab_to_first move_tab_to_last
  move_tab-IsOrderly target s o =
      elim (Option-cases (tab_index (or_text target s.active_tab_id) s.tabs)) [
        | inl e ↦
            simp (e, move_tab_left, move_tab_right, move_tab_to_first, move_tab_to_last)
              (o, o, o, o)
        | inr (zero, e) ↦
            simp (e, move_tab_left, move_tab_right, move_tab_to_first, move_tab_to_last)
              (o, unless_last 0 _, o, unless_last 0 _)
        | inr (suc i, e) ↦
            simp (e, move_tab_left, move_tab_right, move_tab_to_first, move_tab_to_last)
              (
                exchange-IsOrderly (suc i) i s o,
                unless_last (suc i) _,
                exchange-IsOrderly (suc i) 0 s o,
                unless_last (suc i) _,
              )
      ]
    where
      unless_last : (i j : ℕ) → IsOrderly (if i + 1 == length s.tabs then s else exchange i j s)
      unless_last i j =
          if_elim (λ (n : Store I). IsOrderly n) (i + 1 == length s.tabs) (λ _. o)
            (λ _. exchange-IsOrderly i j s o)
