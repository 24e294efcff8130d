-- ===== src/Tabs/Broadcast.antt =====
-- Broadcasting what is typed into a pane: `toggleBroadcastMode` and `getBroadcastTargetPaneIds` of
-- frontend/src/store.ts.
use cozyssh.Prelude.{
  ◌≡◌, refl, inl, inr, List, [], ◌∷◌, ◌++◌, Bool, true, false, not, ◌&&◌, ◌||◌, String, str_eq,
  str_eq_iff, str_eq_refl, Bool-cases, Option-cases, any, find, filter, arith, some, ◌∙◌, sym,
  if◌then◌else◌,
}
use cozyssh.Tabs.{
  TabData, BroadcastMode, off, tab, all, Store, or_text, has, holds, others, pane_ids, is_terminal,
  all_pane_ids, broadcast_targets, get_broadcast_target_pane_ids, toggle_broadcast_mode, mode_eq,
}

has-append : (id : String) (xs ys : List String) → has (xs ++ ys) id ≡ (has xs id || has ys id)
has-append id [] ys = refl
has-append id (x ∷ xs) ys = ground (arith, has-append id xs ys)

has-others :
    (current id : String) (xs : List String)
    → has (others current xs) id ≡ (not (str_eq id current) && has xs id)
has-others current id [] = ground arith
has-others current id (x ∷ xs) =
    ground (
      arith,
      has-others current id xs,
      str_eq_iff id x,
      str_eq_iff id current,
      str_eq_iff x current,
    )

-- A terminal's tab, that is no scratchpad, has the pane.
abbrev pub is_pane_of : String → TabData → Bool
is_pane_of id t = is_terminal t.type && has (pane_ids t.panes) id

has-all_pane_ids :
    (id : String) (ts : List TabData)
    → has (all_pane_ids (filter (λ t. is_terminal t.type) ts)) id ≡ any (is_pane_of id) ts
has-all_pane_ids id [] = refl
has-all_pane_ids id (t ∷ ts) = elim (Bool-cases (is_terminal t.type)) [
  | inl on ↦ simp (on, has-append id (pane_ids t.panes), has-all_pane_ids id ts) refl
  | inr out ↦ simp (out, has-all_pane_ids id ts) refl
]

find-any :
    (p q : TabData → Bool) (ts : List TabData) (t : TabData)
    → find p ts ≡ some t
    → q t ≡ true
    → any q ts ≡ true
find-any p q [] t e h = absurd (ground arith)
find-any p q (u ∷ us) t e h = elim (Bool-cases (p u)) [
  | inl on ↦ let k = rw on at e in ground arith
  | inr out ↦ let k = rw out at e in ground (arith, find-any p q us t k h)
]

in_others :
    (current id : String) (xs : List String)
    → has (others current xs) id ≡ true
    → (str_eq id current ≡ false) × (has xs id ≡ true)
in_others current id xs h = let k = sym (has-others current id xs) ∙ h in ground arith

of_tab :
    (current id : String) (t : TabData)
    → has (if is_terminal t.type then others current (pane_ids t.panes) else []) id ≡ true
    → (str_eq id current ≡ false) × (is_pane_of id t ≡ true)
of_tab current id t h = elim (Bool-cases (is_terminal t.type)) [
  | inl on ↦ let (a, b) = in_others current id (pane_ids t.panes) (rw on at h) in (a, rw (on, b))
  | inr out ↦ let k = rw out at h in absurd (ground arith)
]

targets_lem :
    (mode : BroadcastMode) (current active id : String) (ts : List TabData)
    → has (broadcast_targets mode current active ts) id ≡ true
    → (str_eq id current ≡ false) × (any (is_pane_of id) ts ≡ true)
unfolding broadcast_targets
targets_lem off current active id ts h = absurd (ground arith)
targets_lem tab current active id ts h =
    elim (Option-cases (find (λ t. str_eq t.id active || holds current t) ts)) [
      | inl e ↦ let k = rw (e, broadcast_targets) at h in absurd (ground arith)
      | inr (t, e) ↦
          let (a, b) = of_tab current id t (rw (e, broadcast_targets) at h) in
          (a, find-any (λ t. str_eq t.id active || holds current t) (is_pane_of id) ts t e b)
    ]
targets_lem all current active id ts h =
    let (a, b) = in_others current id _ h in (a, sym (has-all_pane_ids id ts) ∙ b)

targets_off :
    (mode : BroadcastMode) (current active : String) (ts : List TabData)
    → mode ≡ off
    → broadcast_targets mode current active ts ≡ []
unfolding broadcast_targets
targets_off mode current active ts e = simp (e, broadcast_targets) refl

twice :
    (m : BroadcastMode)
    → mode_eq m all ≡ false
    → (if mode_eq (if mode_eq m all then off else all) all then off else all) ≡ off
twice off h = refl
twice tab h = refl
twice all h = absurd (ground arith)

module _ {I : Type 0} where
  -- In every mode, what is typed into a pane is never sent back to it, and only to panes of the
  -- terminal tabs.
  pub get_broadcast_target_pane_ids_lem :
      (source id : String) (s : Store I)
      → has (get_broadcast_target_pane_ids source s) id ≡ true
      → (str_eq id (or_text source s.active_pane_id) ≡ false) × (any (is_pane_of id) s.tabs ≡ true)
  unfolding get_broadcast_target_pane_ids
  get_broadcast_target_pane_ids_lem source id s h =
      targets_lem s.broadcast_mode (or_text source s.active_pane_id) s.active_tab_id id s.tabs h

  -- Where the mode is not "all", switching "all" on makes the targets all the panes of the terminal
  -- tabs but the source; switching it again leaves no target.
  pub toggle_broadcast_mode_lem :
      (source id : String) (s : Store I)
      → mode_eq s.broadcast_mode all ≡ false
      → (has (get_broadcast_target_pane_ids source (toggle_broadcast_mode all s)) id
          ≡ (not (str_eq id (or_text source s.active_pane_id)) && any (is_pane_of id) s.tabs))
        × (get_broadcast_target_pane_ids source
              (toggle_broadcast_mode all (toggle_broadcast_mode all s))
            ≡ [])
  unfolding get_broadcast_target_pane_ids toggle_broadcast_mode broadcast_targets
  toggle_broadcast_mode_lem source id s h =
      (simp (h, has-others, has-all_pane_ids) refl, targets_off _ _ _ _ (twice s.broadcast_mode h))

  -- In the mode "tab", where the active tab is the first, the targets are the panes of the active
  -- tab, whichever tab the source is in.
  pub broadcast_tab_of_active :
      (source : String) (s : Store I) (t : TabData) (ts : List TabData)
      → s.broadcast_mode ≡ tab
      → s.tabs ≡ t ∷ ts
      → t.id ≡ s.active_tab_id
      → is_terminal t.type ≡ true
      → get_broadcast_target_pane_ids source s
        ≡ others (or_text source s.active_pane_id) (pane_ids t.panes)
  unfolding get_broadcast_target_pane_ids broadcast_targets
  broadcast_tab_of_active source s t ts m e a k =
      simp (m, e, a, str_eq_refl, k, broadcast_targets) refl
