-- ===== src/TabPanes/Close.antt =====
-- `closeTabOrPane` of frontend/src/store.ts.
use cozyssh.Prelude.{
  ◌≢◌, ◌<◌, ◌≡◌, refl, sym, ap, ◌∙◌, subst, inl, inr, List, [], ◌∷◌, map, none, some, Bool, true,
  false, not, String, str_eq, str_eq_iff, Bool-cases, Option-cases, arith, find, if◌then◌else◌,
  length, ltb, ltb→lt, get_elem?,
}
use cozyssh.Tabs.{
  PaneData, TabData, Store, has, pane_ids, tab_ids, all_pane_ids, find_tab,
  cleanup_associated_tab_state, others, holds, or_text, without,
}
use cozyssh.Tabs.Close.{IsFocused, Focus}
use cozyssh.TabPanes.{
  title_of, update_tab, focus_on, without_pane, pane_index, next_pane_id, close_pane, close_pane_in,
  close_tab_or_pane, is_first, close_pane_requests,
}
use cozyssh.TabPanes.Ids.{
  has-append, others-absent, IsDistinct, holds_eq, pane_ids-without_pane, others-IsDistinct,
}
use cozyssh.TabPanes.Removed.{renew, find-has, all_pane_ids-renew, all_pane_ids-without}
use cozyssh.TabPanes.Orderly.{IsOrderly, find-IsDistinct, close_tab-IsOrderly}
use cozyssh.TabPanes.Renewed.{
  renewed, map_some_lem, update_tab_lem, title_of_lem, renewed-Focus, renewed-IsOrderly,
}
use cozyssh.TabPanes.Next.{
  paned_of, find_of_any, is_empty_of, active_of, left_lem, next_pane_id_lem, only_lem,
}

no_holder :
    (id : String) (ts : List TabData) → find (holds id) ts ≡ none → has (all_pane_ids ts) id ≡ false
no_holder id [] e = refl
no_holder id (t ∷ ts) e = elim (Bool-cases (holds id t)) [
  | inl hit ↦ absurd (let k = rw hit at e in cc)
  | inr miss ↦
      has-append (pane_ids t.panes) (all_pane_ids ts) id
      ∙ rw (sym (holds_eq id t.panes) ∙ miss) (no_holder id ts (rw miss at e))
]

named_of :
    (p : TabData → Bool) (ts : List TabData) (t : TabData)
    → has (tab_ids ts) "" ≡ false
    → find p ts ≡ some t
    → str_eq t.id "" ≡ false
named_of p ts t a e = let (b, _) = find-has p ts t e in ground (arith, str_eq_iff t.id "")

Focus-subst :
    {ts us : List TabData} {a b p q : String}
    → us ≡ ts
    → b ≡ a
    → q ≡ p
    → Focus ts a p
    → Focus us b q
Focus-subst {us = us} {a = a} {b = b} {p = p} e k l f =
    subst (λ x. Focus us b x) (sym l)
      (subst (λ x. Focus us x p) (sym k) (subst (λ x. Focus x a p) (sym e) f))

module _ {I : Type 0} where
  focus_on_lem :
      (t : TabData) (next : String) (s : Store I)
      → ((focus_on t next s).tabs ≡ s.tabs)
        × ((focus_on t next s).active_tab_id ≡ s.active_tab_id)
        × ((focus_on t next s).active_pane_id
            ≡ (if str_eq s.active_tab_id t.id then next else s.active_pane_id))
  focus_on_lem t next s = elim (Bool-cases (str_eq s.active_tab_id t.id)) [
    | inl hit ↦ rw hit (refl, refl, refl)
    | inr miss ↦ rw miss (refl, refl, refl)
  ]

  focused_on :
      (id : String) (panes : List PaneData) (next : String) (fs : Bool) (title : String)
      (s : Store I) (t : TabData)
      → IsFocused s
      → s.tabs ≢ []
      → Focus
          (map (renew id (renewed panes next fs title)) s.tabs)
          s.active_tab_id
          (if str_eq s.active_tab_id id then next else s.active_pane_id)
  focused_on id panes next fs title s t (inl (e, _, _)) some_tab = absurd (some_tab e)
  focused_on id panes next fs title s t (inr (u, e, k)) some_tab =
      renewed-Focus id panes next fs title s.tabs s.active_tab_id s.active_pane_id u e k

  -- The store after the pane has gone.
  abbrev closed : TabData → PaneData → String → String → String → Store I → Store I
  closed t p id next title s = focus_on t next (
      cleanup_associated_tab_state (record s { requests = close_pane_requests t p s.requests })
        (map
          (renew t.id
            (renewed (without_pane id t.panes) next (not (is_first (pane_index id t.panes))) title))
          s.tabs))

  close_pane-closed :
      (t : TabData) (p : PaneData) (id next title : String) (s : Store I)
      → next_pane_id t id ≡ some next
      → title_of (get_elem? (without_pane id t.panes) 0) s.tabs ≡ some title
      → close_pane t p id s ≡ some (closed t p id next title s)
  unfolding close_pane
  close_pane-closed t p id next title s ne te =
      let left = without_pane id t.panes in
      let fs = not (is_first (pane_index id t.panes)) in
      let m =
        map_some_lem (update_tab t.id left next fs (get_elem? left 0) s.tabs)
          (renew t.id (renewed left next fs title)) s.tabs
          (update_tab_lem t.id left next fs (get_elem? left 0) s.tabs title te) in
      rw (ne, m, close_pane) refl

  closed-IsOrderly :
      (t : TabData) (p : PaneData) (id next title : String) (s : Store I)
      → IsOrderly s
      → find (holds id) s.tabs ≡ some t
      → has (pane_ids (without_pane id t.panes)) next ≡ true
      → IsOrderly (closed t p id next title s)
        × (all_pane_ids (closed t p id next title s).tabs ≡ others id (all_pane_ids s.tabs))
  unfolding cleanup_associated_tab_state
  closed-IsOrderly t p id next title s o e nh =
      let left = without_pane id t.panes in
      let fs = not (is_first (pane_index id t.panes)) in
      let tabs = map (renew t.id (renewed left next fs title)) s.tabs in
      let asked = record s { requests = close_pane_requests t p s.requests } in
      let (nt, na, np) = focus_on_lem t next (cleanup_associated_tab_state asked tabs) in
      let ids =
        ap all_pane_ids nt
        ∙ all_pane_ids-renew id (renewed left next fs title) s.tabs t o.unique o.distinct e
            (pane_ids-without_pane id t.panes) in
      (
        renewed-IsOrderly t.id left next fs title s (closed t p id next title s) o (inr nh) nt
            (subst IsDistinct (sym ids) (others-IsDistinct id _ o.distinct))
            (Focus-subst nt na np (
              focused_on t.id left next fs title s t o.focused
                (λ none_left. absurd (ground (arith, ap (find (holds id)) none_left))))),
        ids,
      )

  close_pane_lem :
      (t : TabData) (p : PaneData) (id : String) (s : Store I)
      → IsOrderly s
      → find (holds id) s.tabs ≡ some t
      → 1 < length t.panes
      → (n : Store I) × (close_pane t p id s ≡ some n)
        × IsOrderly n
        × (all_pane_ids n.tabs ≡ others id (all_pane_ids s.tabs))
  close_pane_lem t p id s o e h =
      let (q, q0) = left_lem id t.panes (find-IsDistinct (holds id) s.tabs t o.distinct e) h in
      let (next, ne, nh) =
        next_pane_id_lem id t (paned_of t (active_of s.tabs (holds id) t e o.paned) h)
          (is_empty_of _ q q0) in
      let (title, te) = title_of_lem q s.tabs in
      let (ord, ids) = closed-IsOrderly t p id next title s o e nh in
      (
        closed t p id next title s,
        close_pane-closed t p id next title s ne (ap (λ x. title_of x s.tabs) q0 ∙ te),
        ord,
        ids,
      )

  -- For the tab that holds the pane.
  pub close_pane_in_lem :
      (id : String) (s : Store I) (t : TabData)
      → IsOrderly s
      → find (holds id) s.tabs ≡ some t
      → (n : Store I) × (close_pane_in t id s ≡ some n)
        × IsOrderly n
        × (all_pane_ids n.tabs ≡ others id (all_pane_ids s.tabs))
  close_pane_in_lem id s t o e =
      let (_, held) = find-has (holds id) s.tabs t e in
      let (p, found) = find_of_any (λ p. str_eq p.id id) t.panes held in
      elim (Bool-cases (ltb 1 (length t.panes))) [
        | inl several ↦
            rw (found, several, close_pane_in) (close_pane_lem t p id s o e (ltb→lt _ _ several))
        | inr only ↦
            let (n, c, ts, ord) = close_tab-IsOrderly t.id s o in
            let tabs =
              ts ∙ ap (λ x. without x s.tabs) (rw (named_of (holds id) s.tabs t o.named e) refl) in
            (
              n,
              rw (found, only, close_pane_in) c,
              ord,
              ap all_pane_ids tabs
                  ∙ all_pane_ids-without id s.tabs t o.unique o.distinct e
                      (only_lem id t.panes held only),
            )
      ]

  -- Closing a tab or a pane by its id (the active pane, for an empty id) in a store that is in order
  -- raises no exception, and leaves a store that is in order.
  pub close_tab_or_pane-IsOrderly :
      (target : String) (s : Store I)
      → IsOrderly s
      → (n : Store I) × (close_tab_or_pane target s ≡ some n) × IsOrderly n
  unfolding close_tab_or_pane
  close_tab_or_pane-IsOrderly target s o =
      let id = or_text target s.active_pane_id in
      elim (Bool-cases (str_eq id "")) [
        | inl empty ↦ (s, rw empty refl, o)
        | inr given ↦ elim (Option-cases (find_tab id s.tabs)) [
          | inr (t, e) ↦
              let (n, c, _, ord) = close_tab-IsOrderly id s o in (n, rw (given, e) c, ord)
          | inl no_tab ↦ elim (Option-cases (find (holds id) s.tabs)) [
            | inl no_pane ↦ (s, rw (given, no_tab, no_pane) refl, o)
            | inr (t, e) ↦
                let (n, c, ord, _) = close_pane_in_lem id s t o e in
                (n, rw (given, no_tab, e) c, ord)
          ]
        ]
      ]

  -- Closing a pane by an id (the active pane, for an empty id), not empty, that no tab has, in a
  -- store that is in order, takes that pane away and no other: the ids of all panes are, in their
  -- order, those that there were without that one.
  pub close_tab_or_pane-all_pane_ids :
      (target : String) (s : Store I)
      → IsOrderly s
      → str_eq (or_text target s.active_pane_id) "" ≡ false
      → find_tab (or_text target s.active_pane_id) s.tabs ≡ none
      → (n : Store I) × (close_tab_or_pane target s ≡ some n)
        × (all_pane_ids n.tabs ≡ others (or_text target s.active_pane_id) (all_pane_ids s.tabs))
  unfolding close_tab_or_pane
  close_tab_or_pane-all_pane_ids target s o given no_tab =
      let id = or_text target s.active_pane_id in
      elim (Option-cases (find (holds id) s.tabs)) [
        | inl no_pane ↦ (
          s,
          rw (given, no_tab, no_pane) refl,
          sym (others-absent id _ (no_holder id s.tabs no_pane)),
        )
        | inr (t, e) ↦
            let (n, c, _, ids) = close_pane_in_lem id s t o e in (n, rw (given, no_tab, e) c, ids)
      ]
