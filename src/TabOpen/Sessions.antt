-- ===== src/TabOpen/Sessions.antt =====
-- `cloneSession` and `attachSession` of frontend/src/store.ts and the order of the store.
use cozyssh.Prelude.{
  ◌≡◌, refl, sym, subst, inl, inr, List, [], ◌∷◌, map, Option, none, some, Bool, true, false,
  String, str_eq, str_eq_refl, str_eq_iff, Bool-cases, Option-cases, arith, find, any, ◌&&◌,
}
use cozyssh.Tabs.{
  PaneData, TabData, Store, has, tab_ids, find_tab, set_tabs, cleanup_associated_tab_state,
  pane_ids, all_pane_ids,
}
use cozyssh.Tabs.Close.{IsUnique}
use cozyssh.TabPanes.Ids.{IsDistinct, Apart}
use cozyssh.TabPanes.Active.{find-find_tab}
use cozyssh.TabPanes.Orderly.{IsOrderly}
use cozyssh.TabPanes.Removed.{renew, renew-absent}
use cozyssh.Titles.{host_title}
use cozyssh.Titles.Fresh.{new_tab_title_lem}
use cozyssh.TabOpen.{
  new_tab, append_tab, add_pane, add_pane_to, is_full, open_hosts_as_split, Options, split_panes,
}
use cozyssh.TabOpen.Session.{
  pane_to_clone, add_clone, cloned, clone_in, clone_session, Attached, is_attached, attached_tab,
  attach_session, attached_pane,
}
use cozyssh.TabPanes.{find_pane}
use cozyssh.TabOpen.Added.{add_pane_to-IsOrderly, append_tab-IsOrderly}
use cozyssh.TabOpen.Opened.{IsNew, new_title, single-IsOrderly}

-- The tab that is found is one of the tabs, by its id.
pane_to_clone-find_tab :
    (id : String) (ts : List TabData) (t : TabData) (o : Option PaneData)
    → IsUnique ts
    → pane_to_clone id ts ≡ some (t, o)
    → (has (tab_ids ts) t.id ≡ true) × (find_tab t.id ts ≡ some t)
pane_to_clone-find_tab id [] t o q e = cc
pane_to_clone-find_tab id (u ∷ ts) t o (a, q) e = elim (Bool-cases (str_eq u.id id)) [
  | inl hit ↦ first (ground arith)
  | inr miss ↦ elim (Option-cases (find_pane id u.panes)) [
    | inr (p, f) ↦ first (ground arith)
    | inl f ↦
        let (h, g) = pane_to_clone-find_tab id ts t o q (rw (miss, f) at e) in
        (ground (arith, h), ground (arith, h, g, str_eq_iff u.id t.id))
  ]
]
  where
    first : u ≡ t → (has (tab_ids (u ∷ ts)) t.id ≡ true) × (find_tab t.id (u ∷ ts) ≡ some t)
    first same =
        subst (λ v. (has (tab_ids (u ∷ ts)) v.id ≡ true) × (find_tab v.id (u ∷ ts) ≡ some v)) same
          (rw (str_eq_refl u.id) refl, rw (str_eq_refl u.id) refl)

-- Only the tab of the pane changes, and it has room.
add_clone-map :
    (p : PaneData) (ts : List TabData) (t : TabData)
    → IsUnique ts
    → find_tab t.id ts ≡ some t
    → is_full t ≡ false
    → map (renew t.id (add_clone p)) ts ≡ map (renew t.id (add_pane p)) ts
add_clone-map p [] t q e f = refl
add_clone-map p (u ∷ ts) t (a, q) e f = elim (Bool-cases (str_eq u.id t.id)) [
  | inl hit ↦
      let same : u ≡ t = ground arith in
      let gone = rw ((str_eq_iff u.id t.id).0 hit) at a in
      rw
        (
          hit,
          subst (λ v. is_full v ≡ false) (sym same) f,
          renew-absent t.id (add_clone p) ts gone,
          renew-absent t.id (add_pane p) ts gone,
        )
        refl
  | inr miss ↦ rw (miss, add_clone-map p ts t q (rw miss at e) f) refl
]

module _ {I : Type 0} where
  clone_in-IsOrderly :
      (gen_tab gen_pane : String) (same_tab : Bool) (t : TabData) (p : PaneData) (s : Store I)
      → IsOrderly s
      → IsNew gen_tab gen_pane s
      → find_tab t.id s.tabs ≡ some t
      → (same_tab && is_full t) ≡ false
      → (same_tab ≡ true → t.id ≡ s.active_tab_id)
      → (n : Store I) × (clone_in gen_tab gen_pane same_tab t p s ≡ some n) × IsOrderly n
  unfolding clone_in add_pane_to set_tabs cleanup_associated_tab_state
  clone_in-IsOrderly gen_tab gen_pane true t p s o new e f active =
      let c = cloned gen_pane p in
      (
        record (set_tabs (map (renew t.id (add_clone c))) s) { active_pane_id = gen_pane },
        refl,
        subst
            (λ ts.
              IsOrderly (record (cleanup_associated_tab_state s ts) { active_pane_id = gen_pane }))
            (sym (add_clone-map c s.tabs t o.unique e f))
            (subst
              (λ x.
                IsOrderly
                  (record (add_pane_to t.id c s) { active_tab_id = x; active_pane_id = gen_pane }))
              (active refl) (add_pane_to-IsOrderly t.id c s t o e new.pane)),
      )
  clone_in-IsOrderly gen_tab gen_pane false t p s o new e f active =
      let (x, k, _, _) = new_tab_title_lem (host_title p.host) s.tabs in
      let u = new_tab gen_tab x false (cloned gen_pane p ∷ []) gen_pane in
      (
        append_tab u gen_pane s,
        rw (k, clone_in) refl,
        single-IsOrderly u gen_pane s o refl refl new.tab new.some_tab new.pane,
      )

  -- In a store that is in order, and with new ids, `attachSession` for a host raises no exception,
  -- and leaves a store in order if a pane of the session that is there is the active one of its
  -- tab.
  pub attach_session-IsOrderly :
      (canonical : String → String) (gen_tab gen_pane : String) (a : Attached) (s : Store I)
      → IsOrderly s
      → IsNew gen_tab gen_pane s
      → str_eq a.host "" ≡ false
      → ((t : TabData)
          → find (λ u. any (is_attached a.id) u.panes) s.tabs ≡ some t
          → attached_pane a.id t ≡ t.active_pane_id)
      → (n : Store I) × (id : String) × (attach_session canonical gen_tab gen_pane a s
          ≡ some (n, id))
        × IsOrderly n
  unfolding attach_session
  attach_session-IsOrderly canonical gen_tab gen_pane a s o new h active =
      let (x, k) = new_title a.title a.host s.tabs in
      elim (Option-cases (find (λ u. any (is_attached a.id) u.panes) s.tabs)) [
        | inl e ↦
            let t = attached_tab canonical gen_tab gen_pane x a in
            (
              append_tab t gen_pane s,
              gen_tab,
              rw (h, k, e, attach_session) refl,
              single-IsOrderly t gen_pane s o refl refl new.tab new.some_tab new.pane,
            )
        | inr (t, e) ↦ (
          record s { active_tab_id = t.id; active_pane_id = attached_pane a.id t },
          t.id,
          rw (h, k, e, attach_session) refl,
          record {
            unique = o.unique;
            distinct = o.distinct;
            named = o.named;
            paned = o.paned;
            focused = inr (
              t,
              find-find_tab (λ u. any (is_attached a.id) u.panes) s.tabs t o.unique e,
              active t e,
            );
          },
        )
      ]

  -- In a store that is in order, `openHostsAsSplit` with a host or more and new ids raises no
  -- exception and leaves a store in order.
  pub open_hosts_as_split-IsOrderly :
      (canonical : String → String) (gen_tab title : String) (p : PaneData) (ps : List PaneData)
      (hosts : List (String × String × Options)) (s : Store I)
      → IsOrderly s
      → split_panes canonical hosts ≡ p ∷ ps
      → has (tab_ids s.tabs) gen_tab ≡ false
      → str_eq "" gen_tab ≡ false
      → IsDistinct (pane_ids (p ∷ ps))
      → Apart (pane_ids (p ∷ ps)) (all_pane_ids s.tabs)
      → (n : Store I) × (open_hosts_as_split canonical gen_tab title hosts s ≡ some (n, gen_tab))
        × IsOrderly n
  unfolding open_hosts_as_split
  open_hosts_as_split-IsOrderly canonical gen_tab title p ps hosts s o e fresh some_id d apart =
      let t = new_tab gen_tab title false (p ∷ ps) p.id in
      (
        append_tab t p.id s,
        rw (e, open_hosts_as_split) refl,
        append_tab-IsOrderly t s o fresh some_id d apart (inr (rw (str_eq_refl p.id) refl)),
      )

  -- In a store that is in order, and with new ids, `cloneSession` raises no exception and leaves a
  -- store in order; in the same tab, if that is the active one.
  pub clone_session-IsOrderly :
      (gen_tab gen_pane id : String) (same_tab : Bool) (s : Store I)
      → IsOrderly s
      → IsNew gen_tab gen_pane s
      → ((t : TabData) (p : Option PaneData)
          → same_tab ≡ true
          → pane_to_clone id s.tabs ≡ some (t, p)
          → t.id ≡ s.active_tab_id)
      → (n : Store I) × (clone_session gen_tab gen_pane id same_tab s ≡ some n) × IsOrderly n
  unfolding clone_session
  clone_session-IsOrderly gen_tab gen_pane id same_tab s o new active =
      elim (Option-cases (pane_to_clone id s.tabs)) [
        | inl e ↦ (s, rw (e, clone_session) refl, o)
        | inr ((t, none), e) ↦ (s, rw (e, clone_session) refl, o)
        | inr ((t, some p), e) ↦ elim (Bool-cases (same_tab && is_full t)) [
          | inl f ↦ (s, rw (e, f, clone_session) refl, o)
          | inr f ↦
              let (n, k, m) =
                clone_in-IsOrderly gen_tab gen_pane same_tab t p s o new
                  (pane_to_clone-find_tab id s.tabs t (some p) o.unique e).1 f
                  (λ h. active t (some p) h e) in
              (n, rw (e, f, clone_session) k, m)
        ]
      ]
