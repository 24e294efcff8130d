-- ===== src/TabPanes/Next.antt =====
-- The pane that becomes the active one when `closeTabOrPane` of frontend/src/store.ts closes it.
use cozyssh.Prelude.{
  inl, inr, ℕ, zero, suc, ◌≤◌, ◌<◌, ◌≡◌, refl, ap, ◌∙◌, subst, inl, inr, List, [], ◌∷◌, some, Bool,
  true, false, String, str_eq, str_eq_iff, Bool-cases, arith, All, find, length, ltb, get_elem?,
  any,
}
use cozyssh.Tabs.{PaneData, TabData, has, pane_ids, others, is_empty}
use cozyssh.Tabs.Neighbours.{neighbour_lem}
use cozyssh.TabPanes.{without_pane, next_pane_id}
use cozyssh.TabPanes.Ids.{IsDistinct, pane_ids-without_pane, has-others, length-others}
use cozyssh.TabPanes.Removed.{some_inj}
use cozyssh.TabPanes.Orderly.{IsPaned}

length-pane_ids : (ps : List PaneData) → length (pane_ids ps) ≡ length ps
length-pane_ids [] = refl
length-pane_ids (p ∷ ps) = rw (length-pane_ids ps)

get-has_id :
    (ps : List PaneData) (i : ℕ) (p : PaneData)
    → get_elem? ps i ≡ some p
    → has (pane_ids ps) p.id ≡ true
get-has_id [] i p e = cc
get-has_id (q ∷ ps) zero p e = ground (arith, str_eq_iff p.id q.id)
get-has_id (q ∷ ps) (suc i) p e = ground (arith, get-has_id ps i p e)

pub find_of_any :
    (q : PaneData → Bool) (ps : List PaneData)
    → any q ps ≡ true
    → (p : PaneData) × (find q ps ≡ some p)
find_of_any q [] h = cc
find_of_any q (p ∷ ps) h = elim (Bool-cases (q p)) [
  | inl hit ↦ (p, rw hit refl)
  | inr miss ↦ let (r, e) = find_of_any q ps (rw miss at h) in (r, rw miss e)
]

nonempty : (ps : List PaneData) → 1 ≤ length ps → (p : PaneData) × (get_elem? ps 0 ≡ some p)
nonempty [] h = absurd (omega arith)
nonempty (p ∷ ps) h = (p, refl)

pub is_empty_of :
    (ps : List PaneData) (p : PaneData) → get_elem? ps 0 ≡ some p → is_empty ps ≡ false
is_empty_of [] p e = cc
is_empty_of (q ∷ ps) p e = refl

module _ (id : String) where
  -- A pane is left where there were two.
  pub left_lem :
      (ps : List PaneData)
      → IsDistinct (pane_ids ps)
      → 1 < length ps
      → (p : PaneData) × (get_elem? (without_pane id ps) 0 ≡ some p)
  left_lem ps d h = nonempty (without_pane id ps) (
      omega (
        arith,
        length-others id (pane_ids ps) d,
        length-pane_ids ps,
        length-pane_ids (without_pane id ps),
        ap length (pane_ids-without_pane id ps),
      ))

  -- The active pane is one of those that are left.
  pub next_pane_id_lem :
      (t : TabData)
      → has (pane_ids t.panes) t.active_pane_id ≡ true
      → is_empty (without_pane id t.panes) ≡ false
      → (next : String) × (next_pane_id t id ≡ some next)
        × (has (pane_ids (without_pane id t.panes)) next ≡ true)
  next_pane_id_lem t a left = elim (Bool-cases (str_eq t.active_pane_id id)) [
    | inl hit ↦
        let (p, e) = neighbour_lem (λ p. str_eq p.id id) t.panes left in
        (p.id, rw (hit, e) refl, get-has_id _ _ p e)
    | inr miss ↦ (
      t.active_pane_id,
      rw miss refl,
      ap (λ ids. has ids t.active_pane_id) (pane_ids-without_pane id t.panes)
          ∙ has-others id t.active_pane_id (pane_ids t.panes) miss
          ∙ a,
    )
  ]

  -- The tab's only pane.
  pub only_lem :
      (ps : List PaneData)
      → any (λ p. str_eq p.id id) ps ≡ true
      → ltb 1 (length ps) ≡ false
      → others id (pane_ids ps) ≡ []
  only_lem [] h k = cc
  only_lem (p ∷ []) h k = ground arith
  only_lem (p ∷ q ∷ ps) h k = absurd (ground arith)

pub active_of :
    (ts : List TabData) (p : TabData → Bool) (t : TabData)
    → find p ts ≡ some t
    → All IsPaned ts
    → IsPaned t
active_of [] p t e h = cc
active_of (u ∷ ts) p t e (a, h) = elim (Bool-cases (p u)) [
  | inl hit ↦ subst IsPaned (some_inj (rw hit at e)) a
  | inr miss ↦ active_of ts p t (rw miss at e) h
]

pub paned_of :
    (t : TabData) → IsPaned t → 1 < length t.panes → has (pane_ids t.panes) t.active_pane_id ≡ true
paned_of t (inl none_left) h = absurd (omega (arith, ap length none_left))
paned_of t (inr a) h = a
