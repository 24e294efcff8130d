-- ===== src/Tabs/Cleanup.antt =====
-- `cleanupAssociatedTabState` of frontend/src/store.ts leaves nothing of a closed tab or pane behind.
use cozyssh.Prelude.{
  if◌then◌else◌, ◌≡◌, refl, sym, ap, inl, inr, List, [], ◌∷◌, Bool, true, false, not, String,
  Bool-cases, if_elim, any, filter, All, arith,
}
use cozyssh.Tabs.{
  is_empty, TabData, off, Store, has, tab_ids, all_pane_ids, retain, cleanup_associated_tab_state,
}

module _ {ℓ} {A : Type ℓ} (p : A → Bool) where
  pub All-filter : (xs : List A) → All (λ x. p x ≡ true) (filter p xs)
  All-filter [] = tt
  All-filter (x ∷ xs) = elim (Bool-cases (p x)) [
    | inl t ↦ rw t (t, All-filter xs)
    | inr f ↦ rw f (All-filter xs)
  ]

  filter_of_none : (xs : List A) → any (λ x. not (p x)) xs ≡ false → filter p xs ≡ xs
  filter_of_none [] h = refl
  filter_of_none (x ∷ xs) h = elim (Bool-cases (p x)) [
    | inl t ↦ rw t (ap (◌∷◌ x) (filter_of_none xs (rw t at h)))
    | inr f ↦ let k = rw f at h in absurd (ground arith)
  ]

-- The early exit of the scan makes no difference: the entries with a valid key are kept, in their
-- order, and no others.
pub retain_lem {ℓ} :
    {A : Type ℓ} (key : A → String) (valid : List String) (xs : List A)
    → retain key valid xs ≡ filter (λ x. has valid (key x)) xs
unfolding retain
retain_lem key valid xs =
    if_elim (λ ys. ys ≡ filter (λ x. has valid (key x)) xs) (any (λ x. not (has valid (key x))) xs)
      (λ some_gone. refl) (λ none_gone. sym (filter_of_none (λ x. has valid (key x)) xs none_gone))

-- No unread mark, shell integration or buffer time without its tab or pane, and no broadcast without
-- a tab.
pub record IsClean {I : Type 0} (s : Store I) : Type 0 where
  pub unread : All (λ id. has (tab_ids s.tabs) id ≡ true) s.unread_tab_ids
  pub shells : All (λ e. has (all_pane_ids s.tabs) (e.0) ≡ true) s.shell_integrations
  pub buffers : All (λ e. has (all_pane_ids s.tabs) (e.0) ≡ true) s.session_buffer_data_times
  pub broadcast : s.tabs ≡ [] → s.broadcast_mode ≡ off

module _ {I : Type 0} where
  -- Whatever the store held and whatever the new tabs are, exactly what is kept for a tab or a pane
  -- that is gone is removed, broadcasting is turned off if there is no tab and stays as it is
  -- otherwise, and all else stays.
  pub cleanup_lem :
      (s : Store I) (new_tabs : List TabData)
      → let n = cleanup_associated_tab_state s new_tabs in
        IsClean n
        × (n.unread_tab_ids ≡ filter (has (tab_ids new_tabs)) s.unread_tab_ids)
        × (n.shell_integrations
            ≡ filter (λ e. has (all_pane_ids new_tabs) (e.0)) s.shell_integrations)
        × (n.session_buffer_data_times
            ≡ filter (λ e. has (all_pane_ids new_tabs) (e.0)) s.session_buffer_data_times)
        × (n.active_tab_id ≡ s.active_tab_id)
        × (n.active_pane_id ≡ s.active_pane_id)
        × (n.tabs ≡ new_tabs)
        × (n.broadcast_mode ≡ (if is_empty new_tabs then off else s.broadcast_mode))
        × (n.focus_trigger ≡ s.focus_trigger)
        × (n.requests ≡ s.requests)
  unfolding cleanup_associated_tab_state
  cleanup_lem s new_tabs = (
    record {
      unread = rw retain_lem (All-filter _ s.unread_tab_ids);
      shells = rw retain_lem (All-filter _ s.shell_integrations);
      buffers = rw retain_lem (All-filter _ s.session_buffer_data_times);
      broadcast = λ e. rw e refl;
    },
    retain_lem _ _ _,
    retain_lem _ _ _,
    retain_lem _ _ _,
    refl,
    refl,
    refl,
    refl,
    refl,
    refl,
  )
