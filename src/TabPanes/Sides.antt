-- ===== src/TabPanes/Sides.antt =====
-- Closing the tabs on one side and all other tabs (frontend/src/store.ts) keeps the store in order.
use cozyssh.Prelude.{
  ℕ, zero, suc, ◌+◌, ◌≡◌, sym, ◌∙◌, List, [], ◌∷◌, some, Bool, true, false, String, arith, if_elim,
  get_elem?, take, drop, option_elim, if◌then◌else◌, str_eq,
}
use cozyssh.Tabs.{
  TabData, Store, find_tab, or_text, is_alone, index_lt, index_gt, tab_index, close_side_tabs,
  close_other_tabs, activate_tab, trigger_focus, cleanup_associated_tab_state,
}
use cozyssh.Tabs.Others.{close_side_tabs-IsFocused}
use cozyssh.Tabs.Activate.{find-get_elem?}
use cozyssh.TabPanes.Orderly.{IsOrderly}
use cozyssh.TabPanes.Picked.{picked-IsOrderly}

at :
    (i j : ℕ) (ts : List TabData) (t : TabData)
    → i ≡ j
    → get_elem? ts i ≡ some t
    → get_elem? ts j ≡ some t
at i j ts t h e = rw (sym h) e

take-get_elem? :
    (n i : ℕ) (ts : List TabData) (t : TabData)
    → get_elem? (take n ts) i ≡ some t
    → get_elem? ts i ≡ some t
take-get_elem? zero i ts t e = cc
take-get_elem? (suc n) i [] t e = cc
take-get_elem? (suc n) zero (u ∷ ts) t e = e
take-get_elem? (suc n) (suc i) (u ∷ ts) t e = take-get_elem? n i ts t e

drop-get_elem? :
    (n i : ℕ) (ts : List TabData) (t : TabData)
    → get_elem? (drop n ts) i ≡ some t
    → get_elem? ts (n + i) ≡ some t
drop-get_elem? zero i ts t e = at i (zero + i) ts t (omega arith) e
drop-get_elem? (suc n) i [] t e = cc
drop-get_elem? (suc n) i (u ∷ ts) t e =
    at (suc (n + i)) (suc n + i) (u ∷ ts) t (omega arith) (drop-get_elem? n i ts t e)

single-get_elem? :
    (ts : List TabData) (k i : ℕ) (t u : TabData)
    → get_elem? ts k ≡ some t
    → get_elem? (t ∷ []) i ≡ some u
    → get_elem? ts (k + i) ≡ some u
single-get_elem? ts k zero t u e f = at k (k + zero) ts u (omega arith) (e ∙ f)
single-get_elem? ts k (suc i) t u e f = cc

module _ {I : Type 0} where
  -- The tabs of the store are some of those of another, from `k` on.
  abbrev IsPart : Store I → Store I → Type 0
  IsPart s n =
      (k : ℕ) × ((i : ℕ) (t : TabData)
        → get_elem? n.tabs i ≡ some t
        → get_elem? s.tabs (k + i) ≡ some t)

  close_side_tabs-tabs :
      (target : String) (left : Bool) (s : Store I) → IsPart s (close_side_tabs target left s)
  unfolding close_side_tabs cleanup_associated_tab_state
  close_side_tabs-tabs target left s =
      let id = or_text target s.active_tab_id in
      if_elim (IsPart s) (is_alone s.tabs id)
        (λ _. (0, λ i t e. at i (0 + i) s.tabs t (omega arith) e))
        λ _.
          option_elim (IsPart s) (tab_index id s.tabs)
            (λ _. (0, λ i t e. at i (0 + i) s.tabs t (omega arith) e))
            λ k _.
              option_elim (IsPart s) (get_elem? s.tabs k)
                (λ _. (0, λ i t e. at i (0 + i) s.tabs t (omega arith) e)) λ t _. side id k t left
    where
      side :
          (id : String) (k : ℕ) (t : TabData) (left : Bool)
          → IsPart s (
              trigger_focus (
                if (if left
                  then index_lt (tab_index s.active_tab_id s.tabs) k
                  else index_gt (tab_index s.active_tab_id s.tabs) k)
                then activate_tab t (
                    cleanup_associated_tab_state s
                      (if left then drop k s.tabs else take (k + 1) s.tabs))
                else cleanup_associated_tab_state s
                    (if left then drop k s.tabs else take (k + 1) s.tabs)))
      side id k t true =
          if_elim {A = Store I} (λ n. IsPart s (trigger_focus n))
            (index_lt (tab_index s.active_tab_id s.tabs) k)
            (λ _. (k, λ i. drop-get_elem? k i s.tabs)) (λ _. (k, λ i. drop-get_elem? k i s.tabs))
      side id k t false =
          if_elim {A = Store I} (λ n. IsPart s (trigger_focus n))
            (index_gt (tab_index s.active_tab_id s.tabs) k) (λ _. (0, part)) (λ _. (0, part))
        where
          part :
              (i : ℕ) (u : TabData)
              → get_elem? (take (k + 1) s.tabs) i ≡ some u
              → get_elem? s.tabs (0 + i) ≡ some u
          part i u e = at i (0 + i) s.tabs u (omega arith) (take-get_elem? (k + 1) i s.tabs u e)

  close_other_tabs-tabs : (target : String) (s : Store I) → IsPart s (close_other_tabs target s)
  unfolding close_other_tabs cleanup_associated_tab_state
  close_other_tabs-tabs target s =
      let id = or_text target s.active_tab_id in
      if_elim (IsPart s) (is_alone s.tabs id)
        (λ _. (0, λ i t e. at i (0 + i) s.tabs t (omega arith) e))
        λ _.
          option_elim (IsPart s) (find_tab id s.tabs)
            (λ _. (0, λ i t e. at i (0 + i) s.tabs t (omega arith) e))
            λ t e.
              let (k, g) = find-get_elem? (λ u. str_eq u.id id) s.tabs t e in
              (k, λ i u f. single-get_elem? s.tabs k i t u g f)

  -- Closing the tabs on one side of a tab, and all others, leaves a store in order that was.
  pub close_side_tabs-IsOrderly :
      (target : String) (left : Bool) (s : Store I)
      → IsOrderly s
      → IsOrderly (close_side_tabs target left s) × IsOrderly (close_other_tabs target s)
  close_side_tabs-IsOrderly target left s o =
      let ((_, f), (_, g)) = close_side_tabs-IsFocused target left s o.unique o.focused in
      let (k, p) = close_side_tabs-tabs target left s in
      let (l, q) = close_other_tabs-tabs target s in
      (
        picked-IsOrderly s _ (λ i. k + i) o (λ i j h. omega arith) p (λ _. f),
        picked-IsOrderly s _ (λ i. l + i) o (λ i j h. omega arith) q (λ _. g),
      )
