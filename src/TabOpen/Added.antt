-- ===== src/TabOpen/Added.antt =====
-- A tab that is appended, and a pane that is added to a tab (frontend/src/store.ts), leave the
-- store in order if their ids are new.
use mathlib.Core.List.{append_assoc, append-nil}
use cozyssh.Prelude.{
  ◌≡◌, refl, sym, ap, ◌∙◌, inl, inr, List, [], ◌∷◌, ◌++◌, map, some, false, String, str_eq,
  str_eq_refl, str_eq_iff, Bool-cases, arith, All, if_elim,
}
use cozyssh.Tabs.{
  PaneData, TabData, Store, has, pane_ids, tab_ids, all_pane_ids, find_tab, set_tabs,
  cleanup_associated_tab_state,
}
use cozyssh.Tabs.Close.{IsUnique}
use cozyssh.TabPanes.Ids.{
  Apart, IsDistinct-join, IsDistinct, has-append, IsDistinct-right, IsDistinct-left,
  IsDistinct-apart,
}
use cozyssh.TabPanes.Removed.{renew, renew-absent, find-has}
use cozyssh.TabPanes.Orderly.{
  IsOrderly, IsPaned, renew-IsUnique, renew-IsPaned, tab_ids-renew, find_tab-renew,
}
use cozyssh.TabOpen.{append_tab, add_pane, add_pane_to}

tab_ids-append : (ts us : List TabData) → tab_ids (ts ++ us) ≡ tab_ids ts ++ tab_ids us
tab_ids-append [] us = refl
tab_ids-append (t ∷ ts) us = ap (◌∷◌ t.id) (tab_ids-append ts us)

pub all_pane_ids-append :
    (ts : List TabData) (t : TabData)
    → all_pane_ids (ts ++ t ∷ []) ≡ all_pane_ids ts ++ pane_ids t.panes
all_pane_ids-append [] t = append-nil (pane_ids t.panes)
all_pane_ids-append (u ∷ ts) t =
    ap (◌++◌ (pane_ids u.panes)) (all_pane_ids-append ts t)
    ∙ sym (append_assoc (pane_ids u.panes) (all_pane_ids ts) (pane_ids t.panes))

append-IsUnique :
    (ts : List TabData) (t : TabData)
    → IsUnique ts
    → has (tab_ids ts) t.id ≡ false
    → IsUnique (ts ++ t ∷ [])
append-IsUnique [] t q h = (refl, tt)
append-IsUnique (u ∷ ts) t (a, q) h =
    let e = tab_ids-append ts (t ∷ []) in
    let k = has-append (tab_ids ts) (t.id ∷ []) u.id in
    (
      ground (arith, e, k, str_eq_iff t.id u.id, str_eq_iff u.id t.id),
      append-IsUnique ts t q (ground arith),
    )

append-IsPaned :
    (ts : List TabData) (t : TabData) → All IsPaned ts → IsPaned t → All IsPaned (ts ++ t ∷ [])
append-IsPaned [] t h k = (k, tt)
append-IsPaned (u ∷ ts) t (a, h) k = (a, append-IsPaned ts t h k)

find_tab-append :
    (ts : List TabData) (t : TabData)
    → has (tab_ids ts) t.id ≡ false
    → find_tab t.id (ts ++ t ∷ []) ≡ some t
find_tab-append [] t h = rw (str_eq_refl t.id) refl
find_tab-append (u ∷ ts) t h =
    ground (arith, find_tab-append ts t, str_eq_iff t.id u.id, str_eq_iff u.id t.id)

Apart-sym : (xs ys : List String) → Apart xs ys → Apart ys xs
Apart-sym xs ys k x h = elim (Bool-cases (has xs x)) [ inl e ↦ let f = k x e in cc | inr e ↦ e ]

Apart-new : (xs : List String) (x : String) → has xs x ≡ false → Apart xs (x ∷ [])
Apart-new xs x h y m = elim (Bool-cases (str_eq y x)) [
  | inl e ↦ let k = rw ((str_eq_iff y x).0 e) at m in cc
  | inr e ↦ rw e refl
]

Apart-more :
    (xs ys : List String) (x : String) → Apart xs ys → has ys x ≡ false → Apart (xs ++ x ∷ []) ys
Apart-more xs ys x k h y m = elim (Bool-cases (str_eq y x)) [
  | inl e ↦ rw ((str_eq_iff y x).0 e) h
  | inr e ↦ let l = has-append xs (x ∷ []) y in k y (ground (arith, l))
]

-- A new pane in the tab with the id.
module _ (id : String) (p : PaneData) where
  abbrev added : List TabData → List TabData
  added = map (renew id (add_pane p))

  pane_ids-add_pane : (ps : List PaneData) → pane_ids (ps ++ p ∷ []) ≡ pane_ids ps ++ p.id ∷ []
  pane_ids-add_pane [] = refl
  pane_ids-add_pane (q ∷ ps) = ap (◌∷◌ q.id) (pane_ids-add_pane ps)

  renew-pane_ids :
      (t : TabData) (x : String)
      → str_eq x p.id ≡ false
      → has (pane_ids (renew id (add_pane p) t).panes) x ≡ has (pane_ids t.panes) x
  renew-pane_ids t x h =
      let k = has-append (pane_ids t.panes) (p.id ∷ []) x in
      if_elim (λ (u : TabData). has (pane_ids u.panes) x ≡ has (pane_ids t.panes) x)
        (str_eq t.id id) (λ _. rw (pane_ids-add_pane t.panes) (ground (arith, k))) (λ _. refl)

  -- No other id is new.
  has-added :
      (ts : List TabData) (x : String)
      → str_eq x p.id ≡ false
      → has (all_pane_ids (added ts)) x ≡ has (all_pane_ids ts) x
  has-added [] x h = refl
  has-added (t ∷ ts) x h =
      let k = has-append (pane_ids t.panes) (all_pane_ids ts) x in
      let l = has-append (pane_ids (renew id (add_pane p) t).panes) (all_pane_ids (added ts)) x in
      l ∙ rw (renew-pane_ids t x h, has-added ts x h) (sym k)

  added-IsDistinct :
      (ts : List TabData)
      → IsUnique ts
      → IsDistinct (all_pane_ids ts)
      → has (all_pane_ids ts) p.id ≡ false
      → IsDistinct (all_pane_ids (added ts))
  added-IsDistinct [] q d h = tt
  added-IsDistinct (t ∷ ts) (a, q) d h =
      let k = has-append (pane_ids t.panes) (all_pane_ids ts) in
      let right = IsDistinct-right (pane_ids t.panes) _ d in
      let left = IsDistinct-left (pane_ids t.panes) _ d in
      let l = k p.id in
      elim (Bool-cases (str_eq t.id id)) [
        | inl hit ↦
            let e = renew-absent id (add_pane p) ts (rw (sym ((str_eq_iff t.id id).0 hit)) a) in
            rw (hit, e, pane_ids-add_pane t.panes)
              (IsDistinct-join _ _
                (IsDistinct-join _ _ left (refl, tt) (Apart-new _ p.id (ground (arith, l)))) right
                (Apart-more _ _ p.id (λ x. IsDistinct-apart (pane_ids t.panes) _ x d)
                  (ground (arith, l))))
        | inr miss ↦ rw miss (
            IsDistinct-join _ _ left (added-IsDistinct ts q right (ground arith)) (λ x m.
              elim (Bool-cases (str_eq x p.id)) [
                | inl e ↦ let n = rw ((str_eq_iff x p.id).0 e) at m in absurd (ground (arith, l))
                | inr e ↦ has-added ts x e ∙ IsDistinct-apart (pane_ids t.panes) _ x d m
              ]))
      ]

module _ {I : Type 0} where
  -- The tab is appended, and active with its active pane.
  pub append_tab-IsOrderly :
      (t : TabData) (s : Store I)
      → IsOrderly s
      → has (tab_ids s.tabs) t.id ≡ false
      → str_eq "" t.id ≡ false
      → IsDistinct (pane_ids t.panes)
      → Apart (pane_ids t.panes) (all_pane_ids s.tabs)
      → IsPaned t
      → IsOrderly (append_tab t t.active_pane_id s)
  unfolding append_tab set_tabs cleanup_associated_tab_state
  append_tab-IsOrderly t s o fresh some_id d apart paned = record {
    unique = append-IsUnique s.tabs t o.unique fresh;
    distinct = rw (all_pane_ids-append s.tabs t) (
        IsDistinct-join (all_pane_ids s.tabs) (pane_ids t.panes) o.distinct d
          (Apart-sym _ _ apart));
    named = rw (tab_ids-append s.tabs (t ∷ [])) (
        let k = has-append (tab_ids s.tabs) (t.id ∷ []) "" in let n = o.named in ground (arith, k));
    paned = append-IsPaned s.tabs t o.paned paned;
    focused = inr (t, find_tab-append s.tabs t fresh, refl);
  }

  -- The pane is added to a tab that is there, and both are active.
  pub add_pane_to-IsOrderly :
      (id : String) (p : PaneData) (s : Store I) (t : TabData)
      → IsOrderly s
      → find_tab id s.tabs ≡ some t
      → has (all_pane_ids s.tabs) p.id ≡ false
      → IsOrderly (record (add_pane_to id p s) { active_tab_id = id; active_pane_id = p.id })
  unfolding add_pane_to set_tabs cleanup_associated_tab_state
  add_pane_to-IsOrderly id p s t o here fresh = record {
    unique = renew-IsUnique id (add_pane p) (λ _. refl) s.tabs o.unique;
    distinct = added-IsDistinct id p s.tabs o.unique o.distinct fresh;
    named = rw (tab_ids-renew id (add_pane p) (λ _. refl) s.tabs) o.named;
    paned =
        renew-IsPaned id (add_pane p) (λ _. refl) s.tabs
          (λ u. inr (
            rw (pane_ids-add_pane id p u.panes)
              (has-append (pane_ids u.panes) (p.id ∷ []) p.id ∙ ground (arith, str_eq_refl p.id))))
          o.paned;
    focused = inr (
      renew id (add_pane p) t,
      find_tab-renew id (add_pane p) (λ _. refl) id s.tabs t here,
      (let (_, same) = find-has (λ u. str_eq u.id id) s.tabs t here in rw same refl),
    );
  }
