-- ===== src/TabSteps.antt =====
-- The tabs of frontend/src/store.ts over time: the steps that most of its operations take, in any
-- order. An operation that waits for the server takes its step when the answer is there. Not among
-- the steps are closing all tabs at once (`close_all_tabs`, TabEvents), updateTabTitles, the
-- reconnection of a stolen session and the restored tabs; cloneSession, attachSession and
-- openScratchpad are there where they do not set an active pane of another tab than the active one,
-- or another than the tab's own.
pub mod Invariant
mod Tests
use cozyssh.Prelude.{
  get_elem?, ◌≡◌, List, [], ◌∷◌, Bool, true, false, Option, some, ℕ, String, str_eq, find, any,
}
use cozyssh.Tabs.{
  PaneState, TabData, PaneData, Store, off, has, pane_ids, tab_ids, all_pane_ids, holds,
  trigger_focus, close_tab, close_other_tabs, close_side_tabs, toggle_files, activate_pane,
  move_tab_left, move_tab_right, move_tab_to_first, move_tab_to_last,
}
use cozyssh.TabPanes.{close_tab_or_pane, close_other_panes}
use cozyssh.TabPanes.Ids.{IsDistinct, Apart}
use cozyssh.TabEvents.{reorder_tabs, state_changed, tab_state_changed, session_stolen, files_closed}
use cozyssh.TabFlags.{pinned, locked, unlocked, hidden}
use cozyssh.TabOpen.{Options, Recent, split_panes, open_hosts_as_split}
use cozyssh.TabOpen.Host.{Wanted, Opening, open_host}
use cozyssh.TabOpen.Session.{
  pane_to_clone, clone_session, Attached, is_attached, attached_pane, attach_session,
}
use cozyssh.TabOpen.Scratchpad.{is_scratchpad, open_scratchpad, renamed_tab}
use cozyssh.TabOpen.Opened.{IsNew}

module _ {I : Type 0} where
  -- The store at first.
  abbrev pub initial : Store I
  initial = record {
    tabs = [];
    active_tab_id = "";
    active_pane_id = "";
    broadcast_mode = off;
    unread_tab_ids = [];
    shell_integrations = [];
    session_buffer_data_times = [];
    focus_trigger = 0;
    requests = [];
  }

-- One of these operations, with the ids that it generates new.
pub data Step {I : Type 0} : Store I → Store I → Type 0 where
  closed : {s n : Store I} (target : String) → close_tab target s ≡ some n → Step s n
  pane_closed : {s n : Store I} (target : String) → close_tab_or_pane target s ≡ some n → Step s n
  panes_closed : {s n : Store I} (target : String) → close_other_panes target s ≡ some n → Step s n
  hid : {s n : Store I} (id : String) → hidden id s ≡ some n → Step s n
  others_closed : {s : Store I} (target : String) → Step s (close_other_tabs target s)
  side_closed :
      {s : Store I} (target : String) (left : Bool) → Step s (close_side_tabs target left s)
  pinned_tab : {s : Store I} (id : String) → Step s (pinned id s)
  locked_tab : {s : Store I} (id : String) → Step s (locked id s)
  unlocked_tab : {s : Store I} (id : String) → Step s (unlocked id s)
  toggled_files : {s : Store I} (target : String) → Step s (toggle_files target s)
  focused : {s : Store I} → Step s (trigger_focus s)
  pane_told :
      {s : Store I} (id pane_id : String) (state : PaneState)
      → Step s (state_changed id pane_id state s)
  tab_told :
      {s : Store I} (id : String) (is_pinned is_locked : Bool)
      → Step s (tab_state_changed id is_pinned is_locked s)
  dragged_tab :
      {s : Store I} (dragged target : String) (after : Bool)
      → Step s (reorder_tabs dragged target after s)
  lost_session : {s : Store I} (id pane_id : String) → Step s (session_stolen id pane_id s)
  closed_files : {s : Store I} (id : String) → Step s (files_closed id s)
  activated_pane :
      {s : Store I} (id : String) (t : TabData)
      → find (holds id) s.tabs ≡ some t
      → Step s (activate_pane id t.id s)
  moved_left : {s : Store I} (target : String) → Step s (move_tab_left target s)
  moved_right : {s : Store I} (target : String) → Step s (move_tab_right target s)
  moved_first : {s : Store I} (target : String) → Step s (move_tab_to_first target s)
  moved_last : {s : Store I} (target : String) → Step s (move_tab_to_last target s)
  opened :
      {s n : Store I} (canonical : String → String) (now : ℕ) (gen_tab gen_pane : String)
      (no_update : Bool) (w : Wanted) (recents left : List Recent) (e : Opening)
      → IsNew gen_tab gen_pane s
      → open_host canonical now gen_tab gen_pane no_update w s recents ≡ some (n, left, e)
      → Step s n
  split :
      {s n : Store I} (canonical : String → String) (gen_tab title : String) (p : PaneData)
      (ps : List PaneData) (hosts : List (String × String × Options))
      → split_panes canonical hosts ≡ p ∷ ps
      → has (tab_ids s.tabs) gen_tab ≡ false
      → str_eq "" gen_tab ≡ false
      → IsDistinct (pane_ids (p ∷ ps))
      → Apart (pane_ids (p ∷ ps)) (all_pane_ids s.tabs)
      → open_hosts_as_split canonical gen_tab title hosts s ≡ some (n, gen_tab)
      → Step s n
  renamed : {s : Store I} (id title : String) → Step s (renamed_tab id title s)
  scratchpad_opened :
      {s n : Store I} (id : String)
      → has (tab_ids s.tabs) id ≡ false
      → str_eq "" id ≡ false
      → has (all_pane_ids s.tabs) id ≡ false
      → ((t : TabData)
          → find is_scratchpad s.tabs ≡ some t
          → (p : PaneData) × (get_elem? t.panes 0 ≡ some p) × (p.id ≡ t.active_pane_id))
      → open_scratchpad id s ≡ some n
      → Step s n
  -- Cloned into a new tab, or into the active one.
  session_cloned :
      {s n : Store I} (gen_tab gen_pane id : String) (same_tab : Bool)
      → IsNew gen_tab gen_pane s
      → ((t : TabData) (p : Option PaneData)
          → same_tab ≡ true
          → pane_to_clone id s.tabs ≡ some (t, p)
          → t.id ≡ s.active_tab_id)
      → clone_session gen_tab gen_pane id same_tab s ≡ some n
      → Step s n
  -- Attached in a new tab, or where the session is in its tab's active pane.
  session_attached :
      {s n : Store I} (canonical : String → String) (gen_tab gen_pane id : String) (a : Attached)
      → IsNew gen_tab gen_pane s
      → str_eq a.host "" ≡ false
      → ((t : TabData)
          → find (λ u. any (is_attached a.id) u.panes) s.tabs ≡ some t
          → attached_pane a.id t ≡ t.active_pane_id)
      → attach_session canonical gen_tab gen_pane a s ≡ some (n, id)
      → Step s n

-- What the store can come to from `s`.
pub data Reach {I : Type 0} (s : Store I) : Store I → Type 0 where
  here : Reach s s
  next : {t u : Store I} → Reach s t → Step t u → Reach s u
