-- ===== src/TabPanes/Renewed.antt =====
-- A tab's panes, active pane and title are written by `closeTabOrPane` and `closeOtherPanes`
-- (frontend/src/store.ts): the update succeeds, and the store stays in order.
use cozyssh.Prelude.{
  ◌≡◌, refl, sym, subst, inl, inr, ◌⊎◌, List, [], ◌∷◌, map, Option, some, Bool, true, false, ◌||◌,
  String, str_eq, str_eq_iff, Bool-cases, All, if◌then◌else◌,
}
use cozyssh.Tabs.{PaneData, TabData, Store, has, pane_ids, tab_ids, all_pane_ids, find_tab}
use cozyssh.Tabs.Close.{IsUnique, IsFocused, Focus}
use cozyssh.Titles.{host_title}
use cozyssh.Titles.Fresh.{new_tab_title_lem}
use cozyssh.TabPanes.{map_some, with_panes, next_title, title_of, update_tab}
use cozyssh.TabPanes.Ids.{IsDistinct}
use cozyssh.TabPanes.Removed.{renew, find-has}
use cozyssh.TabPanes.Orderly.{
  IsOrderly, IsPaned, renew-IsUnique, renew-IsPaned, tab_ids-renew, find_tab-renew,
}

pub map_some_lem :
    (f : TabData → Option TabData) (h : TabData → TabData) (ts : List TabData)
    → ((t : TabData) → f t ≡ some (h t))
    → map_some f ts ≡ some (map h ts)
map_some_lem f h [] k = refl
map_some_lem f h (t ∷ ts) k = rw (k t, map_some_lem f h ts k, map_some) refl

-- What is written.
abbrev pub renewed : List PaneData → String → Bool → String → TabData → TabData
renewed panes active first_stays title t = record t {
  panes = panes;
  active_pane_id = active;
  title = if t.is_custom_title || first_stays then t.title else title;
}

pub with_panes_lem :
    (panes : List PaneData) (active : String) (fs : Bool) (left : Option PaneData)
    (tabs : List TabData) (title : String)
    → title_of left tabs ≡ some title
    → (t : TabData)
    → with_panes panes active (next_title fs left tabs t) t ≡ some (renewed panes active fs title t)
with_panes_lem panes active fs left tabs title e t = elim (Bool-cases (t.is_custom_title || fs)) [
  | inl stays ↦ rw stays refl
  | inr goes ↦ rw (goes, e) refl
]

pub update_tab_lem :
    (id : String) (panes : List PaneData) (active : String) (fs : Bool) (left : Option PaneData)
    (tabs : List TabData) (title : String)
    → title_of left tabs ≡ some title
    → (t : TabData)
    → update_tab id panes active fs left tabs t ≡ some (renew id (renewed panes active fs title) t)
update_tab_lem id panes active fs left tabs title e t = elim (Bool-cases (str_eq t.id id)) [
  | inl hit ↦ rw hit (with_panes_lem panes active fs left tabs title e t)
  | inr miss ↦ rw miss refl
]

pub title_of_lem :
    (p : PaneData) (tabs : List TabData) → (title : String) × (title_of (some p) tabs ≡ some title)
title_of_lem p tabs = let (x, e, _, _) = new_tab_title_lem (host_title p.host) tabs in (x, e)

-- The tab that is found by the active id, before and after.
pub renewed-Focus :
    (id : String) (panes : List PaneData) (next : String) (fs : Bool) (title : String)
    (ts : List TabData) (active pane : String) (u : TabData)
    → find_tab active ts ≡ some u
    → pane ≡ u.active_pane_id
    → Focus
        (map (renew id (renewed panes next fs title)) ts)
        active
        (if str_eq active id then next else pane)
renewed-Focus id panes next fs title ts active pane u e k =
    let (_, same) = find-has (λ t. str_eq t.id active) ts u e in
    let found = find_tab-renew id (renewed panes next fs title) (λ _. refl) active ts u e in
    inr (
      renew id (renewed panes next fs title) u,
      found,
      elim (Bool-cases (str_eq active id)) [
        | inl hit ↦
            rw (hit, subst (λ x. str_eq x id ≡ true) (sym ((str_eq_iff u.id active).0 same)) hit)
              refl
        | inr miss ↦
            rw (miss, subst (λ x. str_eq x id ≡ false) (sym ((str_eq_iff u.id active).0 same)) miss)
              k
      ],
    )

module _ {I : Type 0} where
  -- The store after the update, with any focus that fits the new tabs.
  pub renewed-IsOrderly :
      (id : String) (panes : List PaneData) (next : String) (fs : Bool) (title : String)
      (s n : Store I)
      → IsOrderly s
      → (panes ≡ []) ⊎ (has (pane_ids panes) next ≡ true)
      → n.tabs ≡ map (renew id (renewed panes next fs title)) s.tabs
      → IsDistinct (all_pane_ids n.tabs)
      → IsFocused n
      → IsOrderly n
  renewed-IsOrderly id panes next fs title s n o p e d f =
      let g = renewed panes next fs title in
      record {
        unique = subst IsUnique (sym e) (renew-IsUnique id g (λ _. refl) s.tabs o.unique);
        distinct = d;
        named =
            subst (λ ts. has (tab_ids ts) "" ≡ false) (sym e)
              (rw (tab_ids-renew id g (λ _. refl) s.tabs) o.named);
        paned =
            subst (All IsPaned) (sym e) (renew-IsPaned id g (λ _. refl) s.tabs (λ _. p) o.paned);
        focused = f;
      }
