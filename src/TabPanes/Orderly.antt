-- ===== src/TabPanes/Orderly.antt =====
-- What the operations on tabs and panes rely on and keep (frontend/src/store.ts).
use cozyssh.Prelude.{
  subst, ◌≡◌, refl, sym, ap, inl, inr, ◌⊎◌, List, [], ◌∷◌, map, some, Bool, true, false, not,
  String, str_eq, Bool-cases, arith, All, if_elim, find,
}
use cozyssh.Tabs.{
  TabData, Store, has, pane_ids, tab_ids, all_pane_ids, without, find_tab, or_text, close_tab,
}
use cozyssh.Tabs.Close.{without-IsUnique, IsUnique, IsFocused, close_tab_lem}
use cozyssh.TabPanes.Ids.{
  IsDistinct, IsDistinct-append, has-append, IsDistinct-left, IsDistinct-right,
}
use cozyssh.TabPanes.Removed.{some_inj, renew}

-- The active pane of the tab is one of its panes, if it has any.
abbrev pub IsPaned : TabData → Type 0
IsPaned t = (t.panes ≡ []) ⊎ (has (pane_ids t.panes) t.active_pane_id ≡ true)

-- No two tabs share an id, nor do two panes of any tabs; no tab's id is empty; each tab's active
-- pane is one of its own; the active tab exists and the active pane is its active one, or there is
-- no tab.
pub record IsOrderly {I : Type 0} (s : Store I) : Type 0 where
  pub unique : IsUnique s.tabs
  pub distinct : IsDistinct (all_pane_ids s.tabs)
  pub named : has (tab_ids s.tabs) "" ≡ false
  pub paned : All IsPaned s.tabs
  pub focused : IsFocused s

has-all_pane_ids-without :
    (id x : String) (ts : List TabData)
    → has (all_pane_ids ts) x ≡ false
    → has (all_pane_ids (without id ts)) x ≡ false
has-all_pane_ids-without id x [] h = refl
has-all_pane_ids-without id x (t ∷ ts) h =
    let k = has-append (pane_ids t.panes) (all_pane_ids ts) x in
    let l = has-append (pane_ids t.panes) (all_pane_ids (without id ts)) x in
    let ih = has-all_pane_ids-without id x ts (ground arith) in ground arith

without-IsDistinct :
    (id : String) (ts : List TabData)
    → IsDistinct (all_pane_ids ts)
    → IsDistinct (all_pane_ids (without id ts))
without-IsDistinct id [] d = tt
without-IsDistinct id (t ∷ ts) d =
    let ih = without-IsDistinct id ts (IsDistinct-right (pane_ids t.panes) _ d) in
    if_elim (λ us. IsDistinct (all_pane_ids us)) (not (str_eq t.id id))
      (λ _. IsDistinct-append (pane_ids t.panes) _ _ d (λ x. has-all_pane_ids-without id x ts) ih)
      (λ _. ih)

without-named :
    (id : String) (ts : List TabData)
    → has (tab_ids ts) "" ≡ false
    → has (tab_ids (without id ts)) "" ≡ false
without-named id [] h = refl
without-named id (t ∷ ts) h = ground (arith, without-named id ts)

without-IsPaned : (id : String) (ts : List TabData) → All IsPaned ts → All IsPaned (without id ts)
without-IsPaned id [] h = tt
without-IsPaned id (t ∷ ts) (a, h) =
    if_elim (All IsPaned) (not (str_eq t.id id)) (λ _. (a, without-IsPaned id ts h))
      (λ _. without-IsPaned id ts h)

pub find-IsDistinct :
    (p : TabData → Bool) (ts : List TabData) (t : TabData)
    → IsDistinct (all_pane_ids ts)
    → find p ts ≡ some t
    → IsDistinct (pane_ids t.panes)
find-IsDistinct p [] t d e = cc
find-IsDistinct p (u ∷ ts) t d e = elim (Bool-cases (p u)) [
  | inl hit ↦
      subst (λ v. IsDistinct (pane_ids v.panes)) (some_inj (rw hit at e))
        (IsDistinct-left (pane_ids u.panes) _ d)
  | inr miss ↦ find-IsDistinct p ts t (IsDistinct-right (pane_ids u.panes) _ d) (rw miss at e)
]

-- A tab's replacement that keeps its id.
module _ (id : String) (g : TabData → TabData) (same : (t : TabData) → (g t).id ≡ t.id) where
  renew_id : (t : TabData) → (renew id g t).id ≡ t.id
  renew_id t = if_elim (λ (u : TabData). u.id ≡ t.id) (str_eq t.id id) (λ _. same t) (λ _. refl)

  pub tab_ids-renew : (ts : List TabData) → tab_ids (map (renew id g) ts) ≡ tab_ids ts
  tab_ids-renew [] = refl
  tab_ids-renew (t ∷ ts) = rw (renew_id t, tab_ids-renew ts)

  pub renew-IsUnique : (ts : List TabData) → IsUnique ts → IsUnique (map (renew id g) ts)
  renew-IsUnique [] q = tt
  renew-IsUnique (t ∷ ts) (a, q) = (rw (renew_id t, tab_ids-renew ts) a, renew-IsUnique ts q)

  pub renew-IsPaned :
      (ts : List TabData)
      → ((t : TabData) → IsPaned (g t))
      → All IsPaned ts
      → All IsPaned (map (renew id g) ts)
  renew-IsPaned [] k h = tt
  renew-IsPaned (t ∷ ts) k (a, h) =
      (if_elim IsPaned (str_eq t.id id) (λ _. k t) (λ _. a), renew-IsPaned ts k h)

  pub find_tab-renew :
      (x : String) (ts : List TabData) (t : TabData)
      → find_tab x ts ≡ some t
      → find_tab x (map (renew id g) ts) ≡ some (renew id g t)
  find_tab-renew x [] t e = cc
  find_tab-renew x (u ∷ ts) t e = elim (Bool-cases (str_eq u.id x)) [
    | inl hit ↦ rw (renew_id u, hit) (ap (λ v. some (renew id g v)) (some_inj (rw hit at e)))
    | inr miss ↦ rw (renew_id u, miss) (find_tab-renew x ts t (rw miss at e))
  ]

module _ {I : Type 0} where
  -- The store without one of its tabs, with any focus that fits.
  pub without-IsOrderly :
      (id : String) (s n : Store I)
      → IsOrderly s
      → n.tabs ≡ without id s.tabs
      → IsFocused n
      → IsOrderly n
  without-IsOrderly id s n o t f = record {
    unique = subst IsUnique (sym t) (without-IsUnique id s.tabs o.unique);
    distinct =
        subst (λ ts. IsDistinct (all_pane_ids ts)) (sym t)
          (without-IsDistinct id s.tabs o.distinct);
    named = subst (λ ts. has (tab_ids ts) "" ≡ false) (sym t) (without-named id s.tabs o.named);
    paned = subst (All IsPaned) (sym t) (without-IsPaned id s.tabs o.paned);
    focused = f;
  }

  -- `closeTab` keeps the order.
  pub close_tab-IsOrderly :
      (target : String) (s : Store I)
      → IsOrderly s
      → (n : Store I) × (close_tab target s ≡ some n)
        × (n.tabs ≡ without (or_text target s.active_tab_id) s.tabs)
        × IsOrderly n
  close_tab-IsOrderly target s o =
      let (n, e, t, _, f, _) = close_tab_lem target s o.unique o.focused in
      (n, e, t, without-IsOrderly (or_text target s.active_tab_id) s n o t f)
