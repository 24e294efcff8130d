-- ===== src/TabFlags/Flags.antt =====
-- Pinning, locking and unlocking of frontend/src/store.ts keep the store in order.
use cozyssh.Prelude.{
  ◌≡◌, refl, sym, ap, ◌∙◌, subst, inl, inr, List, [], ◌∷◌, ◌++◌, map, true, false, String, str_eq,
  if_elim, All,
}
use cozyssh.Tabs.{
  PaneData, TabData, Store, has, pane_ids, all_pane_ids, set_tabs, cleanup_associated_tab_state,
}
use cozyssh.Tabs.Close.{Focus}
use cozyssh.TabPanes.Ids.{IsDistinct}
use cozyssh.TabPanes.Removed.{renew}
use cozyssh.TabPanes.Orderly.{IsOrderly, IsPaned, renew-IsUnique, tab_ids-renew, find_tab-renew}
use cozyssh.TabFlags.{pinned, locked, unlocked}

none_of_ids : (ps : List PaneData) → pane_ids ps ≡ [] → ps ≡ []
none_of_ids [] e = refl
none_of_ids (p ∷ ps) e = cc

-- A tab's replacement that keeps its id, the ids of its panes and its active pane.
module _ (id : String) (g : TabData → TabData) (same_id : (t : TabData) → (g t).id ≡ t.id)
    (same_panes : (t : TabData) → pane_ids (g t).panes ≡ pane_ids t.panes)
    (same_active : (t : TabData) → (g t).active_pane_id ≡ t.active_pane_id) where
  renew-panes : (t : TabData) → pane_ids (renew id g t).panes ≡ pane_ids t.panes
  renew-panes t =
      if_elim (λ (u : TabData). pane_ids u.panes ≡ pane_ids t.panes) (str_eq t.id id)
        (λ _. same_panes t) (λ _. refl)

  renew-active : (t : TabData) → (renew id g t).active_pane_id ≡ t.active_pane_id
  renew-active t =
      if_elim (λ (u : TabData). u.active_pane_id ≡ t.active_pane_id) (str_eq t.id id)
        (λ _. same_active t) (λ _. refl)

  ids_kept : (ts : List TabData) → all_pane_ids (map (renew id g) ts) ≡ all_pane_ids ts
  ids_kept [] = refl
  ids_kept (t ∷ ts) =
      ap (λ ids. ids ++ all_pane_ids (map (renew id g) ts)) (renew-panes t)
      ∙ ap (◌++◌ (pane_ids t.panes)) (ids_kept ts)

  IsPaned-kept : (ts : List TabData) → All IsPaned ts → All IsPaned (map (renew id g) ts)
  IsPaned-kept [] h = tt
  IsPaned-kept (t ∷ ts) (inl none_left, h) = (
    inl (none_of_ids (renew id g t).panes (renew-panes t ∙ ap pane_ids none_left)),
    IsPaned-kept ts h,
  )
  IsPaned-kept (t ∷ ts) (inr a, h) = (
    inr (
        ap (λ ids. has ids (renew id g t).active_pane_id) (renew-panes t)
        ∙ ap (has (pane_ids t.panes)) (renew-active t)
        ∙ a),
    IsPaned-kept ts h,
  )

  Focus-kept :
      (ts : List TabData) (active pane : String)
      → Focus ts active pane
      → Focus (map (renew id g) ts) active pane
  Focus-kept ts active pane (inl (e, a, p)) = inl (ap (map (renew id g)) e, a, p)
  Focus-kept ts active pane (inr (t, e, p)) =
      inr (renew id g t, find_tab-renew id g same_id active ts t e, p ∙ sym (renew-active t))

  pub kept-IsOrderly :
      {I : Type 0} (s : Store I) → IsOrderly s → IsOrderly (set_tabs (map (renew id g)) s)
  unfolding set_tabs cleanup_associated_tab_state
  kept-IsOrderly s o = record {
    unique = renew-IsUnique id g same_id s.tabs o.unique;
    distinct = subst IsDistinct (sym (ids_kept s.tabs)) o.distinct;
    named = subst (λ ids. has ids "" ≡ false) (sym (tab_ids-renew id g same_id s.tabs)) o.named;
    paned = IsPaned-kept s.tabs o.paned;
    focused = Focus-kept s.tabs s.active_tab_id s.active_pane_id o.focused;
  }

-- Pinning, locking and unlocking a tab, once the server has answered, leave a store in order that
-- was, with the same panes.
pub flags-IsOrderly :
    {I : Type 0} (id : String) (s : Store I)
    → IsOrderly s
    → (IsOrderly (pinned id s) × (all_pane_ids (pinned id s).tabs ≡ all_pane_ids s.tabs))
      × (IsOrderly (locked id s) × (all_pane_ids (locked id s).tabs ≡ all_pane_ids s.tabs))
      × (IsOrderly (unlocked id s) × (all_pane_ids (unlocked id s).tabs ≡ all_pane_ids s.tabs))
unfolding pinned locked unlocked set_tabs cleanup_associated_tab_state
flags-IsOrderly id s o = (
  (
    kept-IsOrderly id (λ t. record t { is_pinned = true }) (λ _. refl) (λ _. refl) (λ _. refl) s o,
    ids_kept id (λ t. record t { is_pinned = true }) (λ _. refl) (λ _. refl) (λ _. refl) s.tabs,
  ),
  (
    kept-IsOrderly id (λ t. record t { is_locked = true }) (λ _. refl) (λ _. refl) (λ _. refl) s o,
    ids_kept id (λ t. record t { is_locked = true }) (λ _. refl) (λ _. refl) (λ _. refl) s.tabs,
  ),
  (
    kept-IsOrderly id (λ t. record t { is_locked = false }) (λ _. refl) (λ _. refl) (λ _. refl) s o,
    ids_kept id (λ t. record t { is_locked = false }) (λ _. refl) (λ _. refl) (λ _. refl) s.tabs,
  ),
)
