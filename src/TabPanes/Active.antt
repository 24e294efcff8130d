-- ===== src/TabPanes/Active.antt =====
-- `activatePane` of frontend/src/store.ts in a store that is in order.
use cozyssh.Prelude.{
  ◌≡◌, refl, sym, ◌∙◌, subst, inl, inr, List, [], ◌∷◌, map, some, Bool, true, false, String, str_eq,
  str_eq_iff, Bool-cases, arith, All, if_elim, find,
}
use cozyssh.Tabs.{
  TabData, Store, has, pane_ids, all_pane_ids, find_tab, holds, activate_in, activate_pane,
  trigger_focus,
}
use cozyssh.Tabs.Close.{IsUnique, find_tab_of_get_elem?}
use cozyssh.Tabs.Activate.{find-get_elem?}
use cozyssh.TabPanes.Ids.{holds_eq}
use cozyssh.TabPanes.Removed.{renew, find-has, renew-absent}
use cozyssh.TabPanes.Orderly.{IsOrderly, IsPaned, renew-IsUnique, tab_ids-renew, find_tab-renew}

-- The tab that is found first is found by its id too.
pub find-find_tab :
    (p : TabData → Bool) (ts : List TabData) (t : TabData)
    → IsUnique ts
    → find p ts ≡ some t
    → find_tab t.id ts ≡ some t
find-find_tab p ts t q e = let (i, g) = find-get_elem? p ts t e in find_tab_of_get_elem? ts i t q g

module _ (pane_id tab_id : String) where
  abbrev pub with_active : TabData → TabData
  with_active t = record t { active_pane_id = pane_id }

  with_active-panes : (t : TabData) → pane_ids (renew tab_id with_active t).panes ≡ pane_ids t.panes
  with_active-panes t =
      if_elim (λ (u : TabData). pane_ids u.panes ≡ pane_ids t.panes) (str_eq t.id tab_id)
        (λ _. refl) (λ _. refl)

  all_pane_ids-with_active :
      (ts : List TabData) → all_pane_ids (map (renew tab_id with_active) ts) ≡ all_pane_ids ts
  all_pane_ids-with_active [] = refl
  all_pane_ids-with_active (t ∷ ts) = rw (with_active-panes t, all_pane_ids-with_active ts) refl

  with_active-IsPaned :
      (ts : List TabData) (t : TabData)
      → IsUnique ts
      → find_tab tab_id ts ≡ some t
      → holds pane_id t ≡ true
      → All IsPaned ts
      → All IsPaned (map (renew tab_id with_active) ts)
  with_active-IsPaned [] t q e h a = tt
  with_active-IsPaned (u ∷ ts) t (k, q) e h (a, b) = elim (Bool-cases (str_eq u.id tab_id)) [
    | inl hit ↦
        let same : u ≡ t = ground arith in
        let there : has (pane_ids u.panes) pane_id ≡ true =
          sym (holds_eq pane_id u.panes) ∙ subst (λ v. holds pane_id v ≡ true) (sym same) h in
        rw (hit, renew-absent tab_id with_active ts (rw (sym ((str_eq_iff u.id tab_id).0 hit)) k))
          (inr there, b)
    | inr miss ↦ rw miss (a, with_active-IsPaned ts t q (rw miss at e) h b)
  ]

module _ {I : Type 0} where
  pub trigger_focus-IsOrderly : (s : Store I) → IsOrderly s → IsOrderly (trigger_focus s)
  trigger_focus-IsOrderly s o = record {
    unique = o.unique;
    distinct = o.distinct;
    named = o.named;
    paned = o.paned;
    focused = o.focused;
  }

  -- The focus goes to a pane of a tab.
  pub activate_in-IsOrderly :
      (pane_id tab_id : String) (s : Store I) (t : TabData)
      → IsOrderly s
      → find_tab tab_id s.tabs ≡ some t
      → holds pane_id t ≡ true
      → IsOrderly (activate_in pane_id tab_id s)
  activate_in-IsOrderly pane_id tab_id s t o e h =
      elim (Bool-cases (str_eq t.active_pane_id pane_id)) [
        | inl same ↦
            rw (e, same)
              record {
                unique = o.unique;
                distinct = o.distinct;
                named = o.named;
                paned = o.paned;
                focused = inr (t, e, sym ((str_eq_iff t.active_pane_id pane_id).0 same));
              }
        | inr other ↦
            let g = with_active pane_id tab_id in
            let (_, hit) = find-has (λ u. str_eq u.id tab_id) s.tabs t e in
            rw (e, other)
              record {
                unique = renew-IsUnique tab_id g (λ _. refl) s.tabs o.unique;
                distinct = rw (all_pane_ids-with_active pane_id tab_id s.tabs) o.distinct;
                named = rw (tab_ids-renew tab_id g (λ _. refl) s.tabs) o.named;
                paned = with_active-IsPaned pane_id tab_id s.tabs t o.unique e h o.paned;
                focused = inr (
                  renew tab_id g t,
                  find_tab-renew tab_id g (λ _. refl) tab_id s.tabs t e,
                  rw hit refl,
                );
              }
      ]

  -- `activatePane` with the tab of the pane.
  pub activate_pane-IsOrderly :
      (pane_id : String) (s : Store I) (t : TabData)
      → IsOrderly s
      → find (holds pane_id) s.tabs ≡ some t
      → IsOrderly (activate_pane pane_id t.id s)
  unfolding activate_pane
  activate_pane-IsOrderly pane_id s t o e =
      let (there, held) = find-has (holds pane_id) s.tabs t e in
      let n = o.named in
      let some_id : str_eq t.id "" ≡ false = elim (Bool-cases (str_eq t.id "")) [
        | inl none_left ↦ let k = rw ((str_eq_iff t.id "").0 none_left) at there in cc
        | inr e ↦ e
      ] in
      rw some_id (
        activate_in-IsOrderly pane_id t.id s t o (find-find_tab (holds pane_id) s.tabs t o.unique e)
          held)
