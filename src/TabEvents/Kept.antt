-- ===== src/TabEvents/Kept.antt =====
-- What the terminals tell frontend/src/TerminalGrid.tsx keeps the store in order.
use cozyssh.Prelude.{
  sym, ◌∙◌, subst, inl, inr, true, Bool-cases, str_eq_iff, ◌≡◌, refl, ap, List, [], ◌∷◌, Bool,
  false, String, str_eq, if_elim,
}
use cozyssh.Tabs.Cleanup.{IsClean, cleanup_lem}
use cozyssh.Tabs.Close.{Focus, IsFocused}
use cozyssh.TabPanes.Removed.{find-has}
use cozyssh.Tabs.{
  set_tabs, has, tab_ids, cleanup_associated_tab_state, PaneData, PaneState, stolen, Store,
  pane_ids,
}
use cozyssh.TabPanes.Orderly.{IsOrderly}
use cozyssh.TabFlags.Flags.{kept-IsOrderly}
use cozyssh.TabEvents.{
  close_all_tabs, with_state, state_changed, tab_state_changed, session_stolen, files_closed,
  TabData,
}

with_state-pane_ids :
    (pane_id : String) (state : PaneState) (ps : List PaneData)
    → pane_ids (with_state pane_id state ps) ≡ pane_ids ps
with_state-pane_ids pane_id state [] = refl
with_state-pane_ids pane_id state (p ∷ ps) = rw (with_state-pane_ids pane_id state ps) (
    ap (λ x. x ∷ pane_ids ps)
      (if_elim (λ (q : PaneData). q.id ≡ p.id) (str_eq p.id pane_id) (λ _. refl) (λ _. refl)))

-- A change of a pane's state, of a tab's marks, the loss of a session to another client and the end
-- of a file browser leave a store in order that was.
pub events-IsOrderly :
    {I : Type 0} (id pane_id : String) (state : PaneState) (is_pinned is_locked : Bool)
    (s : Store I)
    → IsOrderly s
    → IsOrderly (state_changed id pane_id state s)
      × IsOrderly (tab_state_changed id is_pinned is_locked s)
      × IsOrderly (session_stolen id pane_id s)
      × IsOrderly (files_closed id s)
unfolding state_changed tab_state_changed session_stolen files_closed
events-IsOrderly id pane_id state is_pinned is_locked s o = (
  kept-IsOrderly id (λ t. record t { panes = with_state pane_id state t.panes }) (λ _. refl)
      (λ t. with_state-pane_ids pane_id state t.panes) (λ _. refl) s o,
  kept-IsOrderly id (λ t. record t { is_pinned = is_pinned; is_locked = is_locked }) (λ _. refl)
      (λ _. refl) (λ _. refl) s o,
  kept-IsOrderly id
      (λ t. record t {
        is_pinned = false;
        is_locked = false;
        panes = with_state pane_id stolen t.panes;
      })
      (λ _. refl) (λ t. with_state-pane_ids pane_id stolen t.panes) (λ _. refl) s o,
  kept-IsOrderly id (λ t. record t { show_files = false }) (λ _. refl) (λ _. refl) (λ _. refl) s o,
)

-- Where a store is in order and has a tab, closing all tabs at once leaves no tab, no unread mark,
-- no broadcasting and nothing of a pane, but the active tab's id stays what it was, which is not
-- empty: the store is not in order then.
pub close_all_tabs_lem :
    {I : Type 0} (s : Store I) (t : TabData) (ts : List TabData)
    → IsOrderly s
    → s.tabs ≡ t ∷ ts
    → ((close_all_tabs s).tabs ≡ [])
      × IsClean (close_all_tabs s)
      × ((close_all_tabs s).active_tab_id ≡ s.active_tab_id)
      × (str_eq s.active_tab_id "" ≡ false)
      × ¬ IsOrderly (close_all_tabs s)
unfolding close_all_tabs set_tabs cleanup_associated_tab_state
close_all_tabs_lem s t ts o e =
    let id = active_named o.focused in
    (refl, (cleanup_lem s []).0, refl, id, λ n. left n.focused id)
  where
    active_named : IsFocused s → str_eq s.active_tab_id "" ≡ false
    active_named (inl (none_left, _, _)) = let f = sym e ∙ none_left in cc
    active_named (inr (u, f, _)) = elim (Bool-cases (str_eq s.active_tab_id "")) [
      | inr named ↦ named
      | inl empty ↦
          let (k, same) = find-has (λ v. str_eq v.id s.active_tab_id) s.tabs u f in
          let here =
            subst (λ x. has (tab_ids s.tabs) x ≡ true)
              ((str_eq_iff u.id s.active_tab_id).0 same ∙ (str_eq_iff s.active_tab_id "").0 empty)
              k in
          absurd (let k = sym here ∙ o.named in cc)
    ]

    left : Focus [] s.active_tab_id s.active_pane_id → str_eq s.active_tab_id "" ≡ false → ⊥
    left (inl (_, none_active, _)) id = let k = (str_eq_iff s.active_tab_id "").1 none_active in cc
    left (inr (u, f, _)) id = cc
