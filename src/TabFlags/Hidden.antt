-- ===== src/TabFlags/Hidden.antt =====
-- `hideTab` of frontend/src/store.ts takes the tab away, and the focus stays in order.
use cozyssh.Prelude.{
  ℕ, suc, ◌-◌, ◌≡◌, refl, sym, ap, ◌∙◌, subst, inl, inr, List, [], ◌∷◌, none, some, false, String,
  str_eq, str_eq_iff, Bool-cases, Option-cases, arith, get_elem?,
}
use cozyssh.Tabs.{
  activate_tab, deactivate, TabData, Store, has, tab_ids, tab_index, without, is_empty, leave_tab,
  cleanup_associated_tab_state, set_tabs, activate_tab, deactivate,
}
use cozyssh.Tabs.Close.{IsUnique, leave_lem}
use cozyssh.TabPanes.Removed.{without-absent}
use cozyssh.TabPanes.Orderly.{IsOrderly, without-IsOrderly}
use cozyssh.Ordering.{remove_at}
use cozyssh.TabFlags.{hidden, leave_hidden}

absent : (id : String) (ts : List TabData) → tab_index id ts ≡ none → has (tab_ids ts) id ≡ false
absent id [] e = refl
absent id (t ∷ ts) e = ground (arith, absent id ts, str_eq_iff t.id id, str_eq_iff id t.id)

remove_at-without :
    (id : String) (ts : List TabData) (i : ℕ)
    → IsUnique ts
    → tab_index id ts ≡ some i
    → remove_at i ts ≡ without id ts
unfolding remove_at
remove_at-without id [] i q e = cc
remove_at-without id (t ∷ ts) i (a, q) e = elim (Bool-cases (str_eq t.id id)) [
  | inl hit ↦
      let first : i ≡ 0 = ground arith in
      let gone = subst (λ x. has (tab_ids ts) x ≡ false) ((str_eq_iff t.id id).0 hit) a in
      subst (λ k. remove_at k (t ∷ ts) ≡ without id (t ∷ ts)) (sym first)
        (rw hit (sym (without-absent id ts gone)))
  | inr miss ↦ elim (Option-cases (tab_index id ts)) [
    | inl n ↦ absurd (ground arith)
    | inr (j, f) ↦
        let later : i ≡ suc j = ground arith in
        subst (λ k. remove_at k (t ∷ ts) ≡ without id (t ∷ ts)) (sym later)
          (rw miss (ap (◌∷◌ t) (remove_at-without id ts j q f)))
  ]
]

module _ {I : Type 0} where
  cleanup-deactivate :
      (s : Store I) (ts : List TabData)
      → deactivate (cleanup_associated_tab_state s ts)
        ≡ cleanup_associated_tab_state (deactivate s) ts
  unfolding cleanup_associated_tab_state
  cleanup-deactivate s ts = refl

  cleanup-active_tab_id :
      (s : Store I) (ts : List TabData)
      → (cleanup_associated_tab_state s ts).active_tab_id ≡ s.active_tab_id
  unfolding cleanup_associated_tab_state
  cleanup-active_tab_id s ts = refl

  cleanup-activate :
      (t : TabData) (s : Store I) (ts : List TabData)
      → activate_tab t (cleanup_associated_tab_state s ts)
        ≡ cleanup_associated_tab_state (activate_tab t s) ts
  unfolding cleanup_associated_tab_state
  cleanup-activate t s ts = refl

  -- The focus goes where `closeTab` puts it.
  hidden_at :
      (id : String) (s : Store I) (i : ℕ)
      → tab_index id s.tabs ≡ some i
      → hidden id s
        ≡ leave_hidden id i
            (remove_at i s.tabs)
            (cleanup_associated_tab_state s (remove_at i s.tabs))
  unfolding hidden set_tabs
  hidden_at id s i at = rw (at, hidden) refl

  leave_hidden_lem :
      (id : String) (s : Store I) (i : ℕ)
      → tab_index id s.tabs ≡ some i
      → leave_hidden id i (without id s.tabs) (cleanup_associated_tab_state s (without id s.tabs))
        ≡ elim (leave_tab id s) [
          | none ↦ none
          | some m ↦ some (cleanup_associated_tab_state m (without id s.tabs))
        ]
  unfolding leave_tab
  leave_hidden_lem id s i at =
      let left = without id s.tabs in
      let kept = cleanup-active_tab_id s left in
      elim (Bool-cases (is_empty left)) [
        | inl gone ↦ elim (Bool-cases (str_eq s.active_tab_id id)) [
          | inl active ↦
              rw (gone, ap (λ x. str_eq x id) kept ∙ active) (ap some (cleanup-deactivate s left))
          | inr other ↦
              rw (gone, ap (λ x. str_eq x id) kept ∙ other) (ap some (cleanup-deactivate s left))
        ]
        | inr some_left ↦ elim (Bool-cases (str_eq s.active_tab_id id)) [
          | inl active ↦ elim (Option-cases (get_elem? left (i - 1))) [
            | inl n ↦ rw (at, some_left, ap (λ x. str_eq x id) kept ∙ active, active, n) refl
            | inr (t, g) ↦
                rw (at, some_left, ap (λ x. str_eq x id) kept ∙ active, active, g)
                  (ap some (cleanup-activate t s left))
          ]
          | inr other ↦ rw (some_left, ap (λ x. str_eq x id) kept ∙ other, other) refl
        ]
      ]

  hidden-leave :
      (id : String) (s : Store I) (i : ℕ)
      → tab_index id s.tabs ≡ some i
      → remove_at i s.tabs ≡ without id s.tabs
      → hidden id s ≡ elim (leave_tab id s) [
        | none ↦ none
        | some m ↦ some (cleanup_associated_tab_state m (without id s.tabs))
      ]
  unfolding hidden set_tabs
  hidden-leave id s i at r =
      hidden_at id s i at
      ∙ ap (λ left. leave_hidden id i left (cleanup_associated_tab_state s left)) r
      ∙ leave_hidden_lem id s i at

  -- In a store that is in order, hiding a tab, once the server has answered, raises no exception,
  -- takes away that tab and no other, and leaves a store that is in order; a tab that has gone
  -- meanwhile makes no difference.
  pub hidden-IsOrderly :
      (id : String) (s : Store I)
      → IsOrderly s
      → (n : Store I) × (hidden id s ≡ some n) × (n.tabs ≡ without id s.tabs) × IsOrderly n
  unfolding hidden cleanup_associated_tab_state
  hidden-IsOrderly id s o = elim (Option-cases (tab_index id s.tabs)) [
    | inl missing ↦
        let same = sym (without-absent id s.tabs (absent id s.tabs missing)) in
        (s, rw (missing, hidden) refl, same, o)
    | inr (i, at) ↦
        let (m, e, f, _) = leave_lem id s o.unique o.focused in
        let n = cleanup_associated_tab_state m (without id s.tabs) in
        (
          n,
          hidden-leave id s i at (remove_at-without id s.tabs i o.unique at) ∙ rw e refl,
          refl,
          without-IsOrderly id s n o refl f,
        )
  ]
