-- ===== src/TabPanes/Others.antt =====
-- `closeOtherPanes` of frontend/src/store.ts.
use cozyssh.Prelude.{
  filter, ◌+◌, ◌<◌, ◌≡◌, refl, sym, ap, ◌∙◌, subst, inl, inr, List, [], ◌∷◌, ◌++◌, map, Option,
  none, some, true, false, ◌||◌, String, str_eq, str_eq_iff, str_eq_refl, Bool-cases, Option-cases,
  ltb, ◌&&◌, arith, All, length, lt→ltb,
}
use cozyssh.Tabs.Cleanup.{retain_lem}
use cozyssh.Tabs.{
  is_empty, trigger_focus, PaneData, TabData, Store, has, pane_ids, tab_ids, all_pane_ids, find_tab,
  cleanup_associated_tab_state, or_text, is_terminal,
}
use cozyssh.Tabs.Close.{IsUnique}
use cozyssh.TabPanes.{
  title_of, map_some, keep_in, keep_pane, find_pane, pane_index, is_first, close_other_panes,
}
use cozyssh.TabPanes.Ids.{
  IsDistinct, IsDistinct-replace, IsDistinct-append, IsDistinct-right, has-append, holds_eq,
}
use cozyssh.TabPanes.Removed.{renew, renew-absent, find-has, some_inj}
use cozyssh.TabPanes.Orderly.{IsOrderly, find_tab-renew}
use cozyssh.TabPanes.Next.{find_of_any, active_of, paned_of}
use cozyssh.TabPanes.Renewed.{renewed, with_panes_lem, title_of_lem, renewed-IsOrderly}

-- A tab takes fewer panes: no pane id appears, and none appears twice.
module _ (id : String) (g : TabData → TabData) where
  head_renew :
      (u : TabData) (ts : List TabData) (t : TabData)
      → has (tab_ids ts) u.id ≡ false
      → find_tab id (u ∷ ts) ≡ some t
      → str_eq u.id id ≡ true
      → (u ≡ t) × (map (renew id g) (u ∷ ts) ≡ g t ∷ ts)
  head_renew u ts t a e hit =
      let same = some_inj (rw hit at e) in
      (
        same,
        rw
            (
              hit,
              renew-absent id g ts
                  (subst (λ x. has (tab_ids ts) x ≡ false) ((str_eq_iff u.id id).0 hit) a),
            )
            (ap (λ v. g v ∷ ts) same),
      )

  has-renew :
      (x : String) (ts : List TabData) (t : TabData)
      → IsUnique ts
      → find_tab id ts ≡ some t
      → (has (pane_ids t.panes) x ≡ false → has (pane_ids (g t).panes) x ≡ false)
      → has (all_pane_ids ts) x ≡ false
      → has (all_pane_ids (map (renew id g) ts)) x ≡ false
  has-renew x [] t q e sub h = cc
  has-renew x (u ∷ ts) t (a, q) e sub h =
      let k = has-append (pane_ids u.panes) (all_pane_ids ts) x in
      elim (Bool-cases (str_eq u.id id)) [
        | inl hit ↦
            let (same, m) = head_renew u ts t a e hit in
            let s =
              sub (subst (λ (v : TabData). has (pane_ids v.panes) x ≡ false) same (ground arith)) in
            subst (λ us. has (all_pane_ids us) x ≡ false) (sym m)
              (has-append (pane_ids (g t).panes) (all_pane_ids ts) x ∙ rw s (ground arith))
        | inr miss ↦
            let ih = has-renew x ts t q (rw miss at e) sub (ground arith) in
            rw miss (
              has-append (pane_ids u.panes) (all_pane_ids (map (renew id g) ts)) x
              ∙ rw ih (ground arith))
      ]

  renew-IsDistinct :
      (ts : List TabData) (t : TabData)
      → IsUnique ts
      → find_tab id ts ≡ some t
      → ((x : String) → has (pane_ids t.panes) x ≡ false → has (pane_ids (g t).panes) x ≡ false)
      → IsDistinct (pane_ids (g t).panes)
      → IsDistinct (all_pane_ids ts)
      → IsDistinct (all_pane_ids (map (renew id g) ts))
  renew-IsDistinct [] t q e sub n d = cc
  renew-IsDistinct (u ∷ ts) t (a, q) e sub n d = elim (Bool-cases (str_eq u.id id)) [
    | inl hit ↦
        let (same, m) = head_renew u ts t a e hit in
        let d' = subst (λ (v : TabData). IsDistinct (pane_ids v.panes ++ all_pane_ids ts)) same d in
        subst (λ us. IsDistinct (all_pane_ids us)) (sym m)
          (IsDistinct-replace (pane_ids t.panes) (all_pane_ids ts) (pane_ids (g t).panes) d' sub n)
    | inr miss ↦ rw miss (
        IsDistinct-append (pane_ids u.panes) (all_pane_ids ts) (all_pane_ids (map (renew id g) ts))
          d (λ x. has-renew x ts t q (rw miss at e) (sub x))
          (renew-IsDistinct ts t q (rw miss at e) sub n (IsDistinct-right (pane_ids u.panes) _ d)))
  ]

-- What holds of the tab that is found, and of the tabs with other ids, holds of all.
All-find :
    (P : TabData → Type 0) (id : String) (ts : List TabData) (t : TabData)
    → IsUnique ts
    → find_tab id ts ≡ some t
    → P t
    → ((u : TabData) → str_eq u.id id ≡ false → P u)
    → All P ts
All-find P id [] t q e h k = cc
All-find P id (u ∷ ts) t (a, q) e h k = elim (Bool-cases (str_eq u.id id)) [
  | inl hit ↦ (
    subst P (sym (some_inj (rw hit at e))) h,
    others_of ts (subst (λ x. has (tab_ids ts) x ≡ false) ((str_eq_iff u.id id).0 hit) a),
  )
  | inr miss ↦ (k u miss, All-find P id ts t q (rw miss at e) h k)
]
  where
    others_of : (us : List TabData) → has (tab_ids us) id ≡ false → All P us
    others_of [] a = tt
    others_of (v ∷ us) a =
        (k v (ground (arith, str_eq_iff v.id id, str_eq_iff id v.id)), others_of us (ground arith))

-- A list of one id.
has_single : (x y : String) → x ≡ y → (str_eq y x || false) ≡ true
has_single x y e = ground (arith, str_eq_iff y x)

has_single_of :
    (ids : List String) (x y z : String)
    → has ids y ≡ true
    → x ≡ y
    → has ids z ≡ false
    → (str_eq z x || false) ≡ false
has_single_of ids x y z a e h = elim (Bool-cases (str_eq z x)) [
  | inl hit ↦ absurd (let k = (str_eq_iff z x).0 hit in cc)
  | inr miss ↦ rw miss refl
]

find_pane_id :
    (id : String) (ps : List PaneData) (p : PaneData) → find_pane id ps ≡ some p → p.id ≡ id
find_pane_id id [] p e = cc
find_pane_id id (q ∷ ps) p e = elim (Bool-cases (str_eq q.id id)) [
  | inl hit ↦
      ap (λ o. elim o [ none ↦ id | some r ↦ r.id ]) (sym (rw hit at e))
      ∙ (str_eq_iff q.id id).0 hit
  | inr miss ↦ find_pane_id id ps p (rw miss at e)
]

find_tab_own :
    (id : String) (ts : List TabData) (t : TabData)
    → find_tab id ts ≡ some t
    → find_tab t.id ts ≡ some t
find_tab_own id ts t e =
    let (_, same) = find-has (λ u. str_eq u.id id) ts t e in
    subst (λ x. find_tab x ts ≡ some t) (sym ((str_eq_iff t.id id).0 same)) e

map_some-All :
    (f : TabData → Option TabData) (h : TabData → TabData) (ts : List TabData)
    → All (λ t. f t ≡ some (h t)) ts
    → map_some f ts ≡ some (map h ts)
map_some-All f h [] k = refl
map_some-All f h (t ∷ ts) (k, ks) = rw (k, map_some-All f h ts ks, map_some) refl

-- The update of all tabs.
keep_in_lem :
    (ts : List TabData) (t : TabData) (p : PaneData) (title : String)
    → IsUnique ts
    → find_tab t.id ts ≡ some t
    → find_pane t.active_pane_id t.panes ≡ some p
    → title_of (some p) ts ≡ some title
    → map_some (keep_in t ts) ts
      ≡ some (
          map
            (renew t.id (
              renewed
                (p ∷ [])
                t.active_pane_id
                (is_first (pane_index t.active_pane_id t.panes))
                title))
            ts)
keep_in_lem ts t p title q e found te =
    let fs = is_first (pane_index t.active_pane_id t.panes) in
    let h = renew t.id (renewed (p ∷ []) t.active_pane_id fs title) in
    map_some-All (keep_in t ts) h ts (
      All-find (λ u. keep_in t ts u ≡ some (h u)) t.id ts t q e
        (rw (str_eq_refl, found)
          (with_panes_lem (p ∷ []) t.active_pane_id fs (some p) ts title te t))
        (λ u miss. rw miss refl))

not_empty :
    (id : String) (ts : List TabData) (f : TabData → TabData) (t : TabData)
    → find_tab id ts ≡ some t
    → is_empty (map f ts) ≡ false
not_empty id [] f t e = cc
not_empty id (u ∷ ts) f t e = refl

module _ {I : Type 0} where
  -- In a store that is in order, closing the other panes of a terminal tab with several raises no
  -- exception, and leaves a store that is in order: that tab, with its active pane alone and the
  -- title that is its own or that pane's, is the active one, nothing is asked of the server,
  -- broadcasting stays as it is, the focus is asked for once, and what is kept for a tab or a pane
  -- that is gone is removed and for no other.
  pub close_other_panes_lem :
      (target : String) (s : Store I) (t : TabData)
      → IsOrderly s
      → find_tab (or_text target s.active_tab_id) s.tabs ≡ some t
      → is_terminal t.type ≡ true
      → 1 < length t.panes
      → (n : Store I) × (p : PaneData) × (title : String) × (close_other_panes target s ≡ some n)
        × IsOrderly n
        × (find_pane t.active_pane_id t.panes ≡ some p)
        × (title_of (some p) s.tabs ≡ some title)
        × (n.tabs
            ≡ map
                (renew t.id (
                  renewed
                    (p ∷ [])
                    t.active_pane_id
                    (is_first (pane_index t.active_pane_id t.panes))
                    title))
                s.tabs)
        × (n.active_tab_id ≡ t.id)
        × (n.active_pane_id ≡ t.active_pane_id)
        × (n.requests ≡ s.requests)
        × (n.broadcast_mode ≡ s.broadcast_mode)
        × (n.focus_trigger ≡ s.focus_trigger + 1)
        × (n.unread_tab_ids ≡ filter (has (tab_ids n.tabs)) s.unread_tab_ids)
        × (n.shell_integrations
            ≡ filter (λ e. has (all_pane_ids n.tabs) (e.0)) s.shell_integrations)
        × (n.session_buffer_data_times
            ≡ filter (λ e. has (all_pane_ids n.tabs) (e.0)) s.session_buffer_data_times)
  unfolding close_other_panes keep_pane cleanup_associated_tab_state
  close_other_panes_lem target s t o e is_term several =
      let a = paned_of t (active_of s.tabs _ t e o.paned) several in
      let (p, found) =
        find_of_any (λ q. str_eq q.id t.active_pane_id) t.panes
          (holds_eq t.active_pane_id t.panes ∙ a) in
      let (title, te) = title_of_lem p s.tabs in
      let fs = is_first (pane_index t.active_pane_id t.panes) in
      let g = renewed (p ∷ []) t.active_pane_id fs title in
      let own = find_tab_own _ s.tabs t e in
      let m = keep_in_lem s.tabs t p title o.unique own found te in
      let same = find_pane_id t.active_pane_id t.panes p found in
      let n = trigger_focus (record (cleanup_associated_tab_state s (map (renew t.id g) s.tabs)) {
        active_tab_id = t.id;
        active_pane_id = t.active_pane_id;
      }) in
      let d =
        renew-IsDistinct t.id g s.tabs t o.unique own
          (λ x. has_single_of (pane_ids t.panes) p.id t.active_pane_id x a same) (refl, tt)
          o.distinct in
      (
        n,
        p,
        title,
        rw (e, is_term, lt→ltb _ _ several, m, close_other_panes, keep_pane) refl,
        renewed-IsOrderly t.id (p ∷ []) t.active_pane_id fs title s n o
            (inr (has_single p.id t.active_pane_id same)) refl d
            (inr (
              renew t.id g t,
              find_tab-renew t.id g (λ _. refl) t.id s.tabs t own,
              rw str_eq_refl refl,
            )),
        found,
        te,
        refl,
        refl,
        refl,
        refl,
        rw (not_empty _ s.tabs (renew t.id g) t own) refl,
        refl,
        retain_lem _ _ _,
        retain_lem _ _ _,
        retain_lem _ _ _,
      )

  -- `closeOtherPanes` raises no exception and leaves a store in order that was, whichever tab it is
  -- called with.
  pub close_other_panes-IsOrderly :
      (target : String) (s : Store I)
      → IsOrderly s
      → (n : Store I) × (close_other_panes target s ≡ some n) × IsOrderly n
  unfolding close_other_panes
  close_other_panes-IsOrderly target s o =
      elim (Option-cases (find_tab (or_text target s.active_tab_id) s.tabs)) [
        | inl e ↦ (s, rw (e, close_other_panes) refl, o)
        | inr (t, e) ↦ elim (Bool-cases (is_terminal t.type && ltb 1 (length t.panes))) [
          | inr f ↦ (s, rw (e, f, close_other_panes) refl, o)
          | inl f ↦
              let (n, _, _, k, m, _, _, _, _, _, _, _, _, _, _, _) =
                close_other_panes_lem target s t o e (ground arith) (ground arith) in
              (n, k, m)
        ]
      ]
