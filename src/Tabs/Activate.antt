-- ===== src/Tabs/Activate.antt =====
-- `activatePane` of frontend/src/store.ts.
use cozyssh.Prelude.{
  ℕ, suc, ◌≡◌, refl, ◌∙◌, ap, inl, inr, List, [], ◌∷◌, ◌++◌, map, some, Bool, true, false, String,
  str_eq, str_eq_iff, Bool-cases, if_elim, get_elem?, find, arith, if◌then◌else◌,
}
use cozyssh.Tabs.{
  TabData, PaneData, pane_ids, Store, tab_ids, all_pane_ids, find_tab, holds, needs_pane,
  activate_in, activate_pane,
}
use cozyssh.Tabs.Close.{IsUnique, IsFocused, find_tab_of_get_elem?}

pub find-get_elem? :
    (p : TabData → Bool) (ts : List TabData) (t : TabData)
    → find p ts ≡ some t
    → (i : ℕ) × (get_elem? ts i ≡ some t)
find-get_elem? p [] t e = absurd (ground arith)
find-get_elem? p (u ∷ us) t e = elim (Bool-cases (p u)) [
  | inl on ↦ (0, rw on at e)
  | inr out ↦ let (i, g) = find-get_elem? p us t (rw out at e) in (suc i, g)
]

some_inj {ℓ} : {A : Type ℓ} {a b : A} → some a ≡ some b → a ≡ b
some_inj e = cc

ap-∷ : {x y : String} {xs ys : List String} → x ≡ y → xs ≡ ys → x ∷ xs ≡ y ∷ ys
ap-∷ e f = cc

ap-++ :
    {ps qs : List PaneData} {xs ys : List String}
    → ps ≡ qs
    → xs ≡ ys
    → pane_ids ps ++ xs ≡ pane_ids qs ++ ys
ap-++ e f = cc

module _ (pane_id tab_id : String) where
  abbrev focus_on : TabData → TabData
  focus_on t = if str_eq t.id tab_id then record t { active_pane_id = pane_id } else t

  focus_on_frame : (t : TabData) → ((focus_on t).id ≡ t.id) × ((focus_on t).panes ≡ t.panes)
  focus_on_frame t =
      if_elim {A = TabData} (λ u. (u.id ≡ t.id) × (u.panes ≡ t.panes)) (str_eq t.id tab_id)
        (λ _. (refl, refl)) (λ _. (refl, refl))

  map-focus_on :
      (ts : List TabData)
      → (tab_ids (map focus_on ts) ≡ tab_ids ts)
        × (all_pane_ids (map focus_on ts) ≡ all_pane_ids ts)
  map-focus_on [] = (refl, refl)
  map-focus_on (t ∷ ts) =
      let (i, p) = focus_on_frame t in let (is, ps) = map-focus_on ts in (ap-∷ i is, ap-++ p ps)

  head_eq :
      (u : TabData) (us : List TabData) (t : TabData)
      → str_eq u.id tab_id ≡ true
      → find_tab tab_id (u ∷ us) ≡ some t
      → u ≡ t
  head_eq u us t on e = some_inj (rw on at e)

  find_tab-focus_on :
      (ts : List TabData) (t : TabData)
      → find_tab tab_id ts ≡ some t
      → find_tab tab_id (map focus_on ts) ≡ some (record t { active_pane_id = pane_id })
  find_tab-focus_on [] t e = absurd (ground arith)
  find_tab-focus_on (u ∷ us) t e = elim (Bool-cases (str_eq u.id tab_id)) [
    | inl on ↦ rw on (
        rw on (
          ap (λ (x : TabData). some (record x { active_pane_id = pane_id })) (head_eq u us t on e)))
    | inr out ↦ rw out (rw out (find_tab-focus_on us t (rw out at e)))
  ]

module _ {I : Type 0} (pane_id tab_id : String) (s : Store I) (t : TabData)
    (here : find_tab tab_id s.tabs ≡ some t) where
  abbrev Activated : List TabData → Type 0
  Activated ts =
      (find_tab tab_id ts ≡ some (record t { active_pane_id = pane_id }))
      × (tab_ids ts ≡ tab_ids s.tabs)
      × (all_pane_ids ts ≡ all_pane_ids s.tabs)

  activated : Activated (activate_in pane_id tab_id s).tabs
  activated =
      if_elim Activated (needs_pane pane_id (find_tab tab_id s.tabs))
        (λ _.
          let (ids, panes) = map-focus_on pane_id tab_id s.tabs in
          (find_tab-focus_on pane_id tab_id s.tabs t here, ids, panes))
        (λ same. (here ∙ ap some (already (rw here at same)), refl, refl))
    where
      already : needs_pane pane_id (some t) ≡ false → t ≡ record t { active_pane_id = pane_id }
      already same =
          let e : t.active_pane_id ≡ pane_id = (str_eq_iff _ _).0 (ground arith) in
          ap (λ p. record t { active_pane_id = p }) e

module _ {I : Type 0} where
  -- Where no two tabs share an id and some tab has the pane, `activatePane` without a tab gives the
  -- focus to the pane and to the first tab that has it, whose active pane it is then. No tab and no
  -- pane is added or removed.
  pub activate_pane_lem :
      (pane_id : String) (s : Store I) (t : TabData)
      → IsUnique s.tabs
      → find (holds pane_id) s.tabs ≡ some t
      → let n = activate_pane pane_id "" s in
        (n.active_pane_id ≡ pane_id)
        × (n.active_tab_id ≡ t.id)
        × IsFocused n
        × (tab_ids n.tabs ≡ tab_ids s.tabs)
        × (all_pane_ids n.tabs ≡ all_pane_ids s.tabs)
  unfolding activate_pane
  activate_pane_lem pane_id s t q e =
      let (i, g) = find-get_elem? (holds pane_id) s.tabs t e in
      let (f, ids, panes) = activated pane_id t.id s t (find_tab_of_get_elem? s.tabs i t q g) in
      simp e (refl, refl, inr (record t { active_pane_id = pane_id }, f, refl), ids, panes)
