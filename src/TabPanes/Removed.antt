-- ===== src/TabPanes/Removed.antt =====
-- The tabs when one of them changes or goes: the ids of the tabs and of all panes
-- (frontend/src/store.ts).
use cozyssh.Prelude.{
  ◌≡◌, refl, sym, ap, ◌∙◌, subst, inl, inr, List, [], ◌∷◌, ◌++◌, map, some, Bool, true, false,
  String, str_eq, str_eq_iff, str_eq_refl, Bool-cases, arith, find, if◌then◌else◌,
}
use cozyssh.Tabs.{TabData, has, others, pane_ids, tab_ids, all_pane_ids, holds, without}
use cozyssh.Tabs.Close.{IsUnique}
use cozyssh.TabPanes.Ids.{
  IsDistinct, holds_eq, others-append, others-absent, IsDistinct-apart, IsDistinct-right,
}

-- The tab with the id is replaced.
abbrev pub renew : String → (TabData → TabData) → TabData → TabData
renew id g t = if str_eq t.id id then g t else t

pub renew-absent :
    (id : String) (g : TabData → TabData) (ts : List TabData)
    → has (tab_ids ts) id ≡ false
    → map (renew id g) ts ≡ ts
renew-absent id g [] h = refl
renew-absent id g (t ∷ ts) h =
    ground (arith, renew-absent id g ts, str_eq_iff t.id id, str_eq_iff id t.id)

pub without-absent :
    (id : String) (ts : List TabData) → has (tab_ids ts) id ≡ false → without id ts ≡ ts
without-absent id [] h = refl
without-absent id (t ∷ ts) h =
    ground (arith, without-absent id ts, str_eq_iff t.id id, str_eq_iff id t.id)

pub find-has :
    (p : TabData → Bool) (ts : List TabData) (t : TabData)
    → find p ts ≡ some t
    → (has (tab_ids ts) t.id ≡ true) × (p t ≡ true)
find-has p [] t e = cc
find-has p (u ∷ ts) t e = elim (Bool-cases (p u)) [
  | inl hit ↦ let e' = rw hit at e in (ground (arith, str_eq_refl t.id), ground arith)
  | inr miss ↦ let (a, b) = find-has p ts t (rw miss at e) in (ground arith, b)
]

-- A tab that stands further on has another id.
pub later_id :
    (p : TabData → Bool) (u : TabData) (ts : List TabData) (t : TabData)
    → has (tab_ids ts) u.id ≡ false
    → find p ts ≡ some t
    → str_eq u.id t.id ≡ false
later_id p u ts t a e = let (b, _) = find-has p ts t e in ground (arith, str_eq_iff u.id t.id)

pub some_inj : {x y : TabData} → some x ≡ some y → x ≡ y
some_inj e = cc

module _ (id : String) where
  others_hit :
      (t : TabData) (xs : List String)
      → IsDistinct (pane_ids t.panes ++ xs)
      → holds id t ≡ true
      → others id (pane_ids t.panes ++ xs) ≡ others id (pane_ids t.panes) ++ xs
  others_hit t xs d hit =
      others-append id (pane_ids t.panes) xs
      ∙ ap (◌++◌ (others id (pane_ids t.panes))) (
          others-absent id xs
            (IsDistinct-apart (pane_ids t.panes) xs id d (sym (holds_eq id t.panes) ∙ hit)))

  others_miss :
      (t : TabData) (xs : List String)
      → holds id t ≡ false
      → others id (pane_ids t.panes ++ xs) ≡ pane_ids t.panes ++ others id xs
  others_miss t xs miss =
      others-append id (pane_ids t.panes) xs
      ∙ ap (λ ys. ys ++ others id xs)
          (others-absent id (pane_ids t.panes) (sym (holds_eq id t.panes) ∙ miss))

  -- A pane goes from its tab, and so from all panes.
  pub all_pane_ids-renew :
      (g : TabData → TabData) (ts : List TabData) (parent : TabData)
      → IsUnique ts
      → IsDistinct (all_pane_ids ts)
      → find (holds id) ts ≡ some parent
      → pane_ids (g parent).panes ≡ others id (pane_ids parent.panes)
      → all_pane_ids (map (renew parent.id g) ts) ≡ others id (all_pane_ids ts)
  all_pane_ids-renew g [] parent q d e h = cc
  all_pane_ids-renew g (t ∷ ts) parent (a, q) d e h = elim (Bool-cases (holds id t)) [
    | inl hit ↦
        let same = some_inj (rw hit at e) in
        subst (λ u. all_pane_ids (map (renew u.id g) (t ∷ ts)) ≡ others id (all_pane_ids (t ∷ ts)))
          same
          (rw (str_eq_refl, renew-absent t.id g ts a, others_hit t (all_pane_ids ts) d hit)
            (ap (λ ids. ids ++ all_pane_ids ts) (rw (sym same) at h)))
    | inr miss ↦
        let later = rw miss at e in
        rw (later_id (holds id) t ts parent a later, others_miss t (all_pane_ids ts) miss)
          (ap (◌++◌ (pane_ids t.panes))
            (all_pane_ids-renew g ts parent q (IsDistinct-right (pane_ids t.panes) _ d) later h))
  ]

  -- A tab with only that pane goes.
  pub all_pane_ids-without :
      (ts : List TabData) (parent : TabData)
      → IsUnique ts
      → IsDistinct (all_pane_ids ts)
      → find (holds id) ts ≡ some parent
      → others id (pane_ids parent.panes) ≡ []
      → all_pane_ids (without parent.id ts) ≡ others id (all_pane_ids ts)
  all_pane_ids-without [] parent q d e h = cc
  all_pane_ids-without (t ∷ ts) parent (a, q) d e h = elim (Bool-cases (holds id t)) [
    | inl hit ↦
        let same = some_inj (rw hit at e) in
        subst (λ u. all_pane_ids (without u.id (t ∷ ts)) ≡ others id (all_pane_ids (t ∷ ts))) same
          (rw (str_eq_refl, without-absent t.id ts a, others_hit t (all_pane_ids ts) d hit)
            (sym (ap (λ ids. ids ++ all_pane_ids ts) (rw (sym same) at h))))
    | inr miss ↦
        let later = rw miss at e in
        rw (later_id (holds id) t ts parent a later, others_miss t (all_pane_ids ts) miss)
          (ap (◌++◌ (pane_ids t.panes))
            (all_pane_ids-without ts parent q (IsDistinct-right (pane_ids t.panes) _ d) later h))
  ]
