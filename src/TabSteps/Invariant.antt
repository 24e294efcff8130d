-- ===== src/TabSteps/Invariant.antt =====
-- What holds of the tabs of frontend/src/store.ts at any time.
use cozyssh.Prelude.{
  ◌≡◌, refl, sym, ap, ◌∙◌, subst, inl, List, Option, none, some, Bool, true, not, String, ℕ, false,
}
use cozyssh.Tabs.{unset, Store, toggle_files, or_text, close_tab}
use cozyssh.TabPanes.{close_tab_or_pane, close_other_panes}
use cozyssh.TabPanes.Orderly.{IsOrderly, close_tab-IsOrderly}
use cozyssh.TabPanes.Close.{close_tab_or_pane-IsOrderly}
use cozyssh.TabPanes.Others.{close_other_panes-IsOrderly}
use cozyssh.TabPanes.Active.{activate_pane-IsOrderly, trigger_focus-IsOrderly}
use cozyssh.TabPanes.Moved.{move_tab-IsOrderly}
use cozyssh.TabPanes.Sides.{close_side_tabs-IsOrderly}
use cozyssh.TabFlags.{hidden}
use cozyssh.TabFlags.Hidden.{hidden-IsOrderly}
use cozyssh.TabFlags.Flags.{flags-IsOrderly, kept-IsOrderly}
use cozyssh.TabOpen.{Recent}
use cozyssh.TabOpen.Host.{Wanted, Opening, open_host}
use cozyssh.TabOpen.Session.{clone_session}
use cozyssh.TabOpen.Scratchpad.{renamed_tab-IsOrderly, open_scratchpad-IsOrderly}
use cozyssh.TabOpen.Opened.{IsNew, open_host-IsOrderly}
use cozyssh.TabOpen.Sessions.{
  clone_session-IsOrderly, attach_session-IsOrderly, open_hosts_as_split-IsOrderly,
}
use cozyssh.TabEvents.Kept.{events-IsOrderly}
use cozyssh.TabEvents.Reordered.{reorder_tabs-IsOrderly}
use cozyssh.TabSteps.{
  dragged_tab, pane_told, tab_told, lost_session, closed_files, Step, Reach, initial, here, next,
  closed, pane_closed, panes_closed, hid, others_closed, side_closed, pinned_tab, locked_tab,
  unlocked_tab, toggled_files, focused, activated_pane, moved_left, moved_right, moved_first,
  moved_last, opened, split, session_cloned, session_attached, renamed, scratchpad_opened,
}

-- What holds of the one result holds of the result.
of_result {ℓ κ} :
    {A : Type ℓ} (P : A → Type κ) {o : Option A} {a b : A} → o ≡ some a → P a → o ≡ some b → P b
of_result {A = A} P {o} {a} {b} e p f = subst P (ap unwrap (sym e ∙ f)) p
  where
    unwrap : Option A → A
    unwrap none = a
    unwrap (some x) = x

module _ {I : Type 0} where
  toggle_files-IsOrderly :
      (target : String) (s : Store I) → IsOrderly s → IsOrderly (toggle_files target s)
  unfolding toggle_files
  toggle_files-IsOrderly target s o =
      kept-IsOrderly (or_text target s.active_tab_id)
        (λ t. record t { show_files = not t.show_files }) (λ _. refl) (λ _. refl) (λ _. refl) s o

  initial-IsOrderly : IsOrderly (initial {I = I})
  initial-IsOrderly = record {
    unique = tt;
    distinct = tt;
    named = refl;
    paned = tt;
    focused = inl (refl, refl, refl);
  }

  -- Every operation keeps the order.
  Step-IsOrderly : {s n : Store I} → Step s n → IsOrderly s → IsOrderly n
  Step-IsOrderly (closed {s} target e) o =
      let (_, f, _, p) = close_tab-IsOrderly target s o in of_result IsOrderly f p e
  Step-IsOrderly (pane_closed {s} target e) o =
      let (_, f, p) = close_tab_or_pane-IsOrderly target s o in of_result IsOrderly f p e
  Step-IsOrderly (panes_closed {s} target e) o =
      let (_, f, p) = close_other_panes-IsOrderly target s o in of_result IsOrderly f p e
  Step-IsOrderly (hid {s} id e) o =
      let (_, f, _, p) = hidden-IsOrderly id s o in of_result IsOrderly f p e
  Step-IsOrderly (others_closed {s} target) o = (close_side_tabs-IsOrderly target true s o).1
  Step-IsOrderly (side_closed {s} target left) o = (close_side_tabs-IsOrderly target left s o).0
  Step-IsOrderly (pinned_tab {s} id) o = (flags-IsOrderly id s o).0.0
  Step-IsOrderly (locked_tab {s} id) o = (flags-IsOrderly id s o).1.0
  Step-IsOrderly (unlocked_tab {s} id) o = (flags-IsOrderly id s o).2.0
  Step-IsOrderly (toggled_files {s} target) o = toggle_files-IsOrderly target s o
  Step-IsOrderly (focused {s}) o = trigger_focus-IsOrderly s o
  Step-IsOrderly (pane_told {s} id pane_id state) o =
      (events-IsOrderly id pane_id state false false s o).0
  Step-IsOrderly (tab_told {s} id is_pinned is_locked) o =
      (events-IsOrderly id id unset is_pinned is_locked s o).1
  Step-IsOrderly (dragged_tab {s} dragged target after) o =
      reorder_tabs-IsOrderly dragged target after s o
  Step-IsOrderly (lost_session {s} id pane_id) o =
      (events-IsOrderly id pane_id unset false false s o).2
  Step-IsOrderly (closed_files {s} id) o = (events-IsOrderly id id unset false false s o).3
  Step-IsOrderly (activated_pane {s} id t e) o = activate_pane-IsOrderly id s t o e
  Step-IsOrderly (moved_left {s} target) o = (move_tab-IsOrderly target s o).0
  Step-IsOrderly (moved_right {s} target) o = (move_tab-IsOrderly target s o).1
  Step-IsOrderly (moved_first {s} target) o = (move_tab-IsOrderly target s o).2
  Step-IsOrderly (moved_last {s} target) o = (move_tab-IsOrderly target s o).3
  Step-IsOrderly (opened {s} canonical now gen_tab gen_pane no_update w recents left op new e) o =
      let (_, _, _, f, p) =
        open_host-IsOrderly canonical now gen_tab gen_pane no_update w s recents o new in
      of_result (λ r. IsOrderly (r.0)) f p e
  Step-IsOrderly (split {s} canonical gen_tab title p ps hosts h a b c d e) o =
      let (_, f, q) =
        open_hosts_as_split-IsOrderly canonical gen_tab title p ps hosts s o h a b c d in
      of_result (λ r. IsOrderly (r.0)) f q e
  Step-IsOrderly (renamed {s} id title) o = renamed_tab-IsOrderly id title s o
  Step-IsOrderly (scratchpad_opened {s} id a b c first e) o =
      let (_, f, p) = open_scratchpad-IsOrderly id s o a b c first in of_result IsOrderly f p e
  Step-IsOrderly (session_cloned {s} gen_tab gen_pane id same_tab new active e) o =
      let (_, f, p) = clone_session-IsOrderly gen_tab gen_pane id same_tab s o new active in
      of_result IsOrderly f p e
  Step-IsOrderly (session_attached {s} canonical gen_tab gen_pane id a new h active e) o =
      let (_, _, f, p) = attach_session-IsOrderly canonical gen_tab gen_pane a s o new h active in
      of_result (λ r. IsOrderly (r.0)) f p e

  -- However the operations of `Step` follow each other, from the store at first, with new ids, the
  -- store stays in order. These are the closing of a tab, of the other tabs or those of a side, of
  -- a pane and of the other panes, hiding, pinning, locking, unlocking and renaming a tab, its
  -- files, the four moves and the dragging of a tab, activating a pane, opening a host, hosts as a
  -- split or a scratchpad, cloning and attaching a session, and what a terminal tells of its state.
  -- Left out are closing all tabs at once, cloning into a tab that is not the active one, attaching
  -- to a session in a pane that is not its tab's active one, a scratchpad tab whose active pane is
  -- not its first, new titles after a host is edited, the new pane id of a stolen session that is
  -- connected again, and the tabs that are restored at the start. In order means: no two tabs or
  -- panes share an id, each tab's active pane is one of its own, the active tab exists and the
  -- active pane is its active one, or there is no tab and neither is set.
  pub Reach-IsOrderly : {n : Store I} → Reach initial n → IsOrderly n
  Reach-IsOrderly here = initial-IsOrderly
  Reach-IsOrderly (next r st) = Step-IsOrderly st (Reach-IsOrderly r)

  -- In every store that the steps of `Step` reach from the store at first, closing a tab, a pane or
  -- the other panes, hiding a tab, opening a host and cloning a session into a new tab, with new
  -- ids, raise no exception.
  pub Reach-runs :
      {s : Store I} (target id : String) (canonical : String → String) (now : ℕ)
      (gen_tab gen_pane : String) (no_update : Bool) (w : Wanted) (recents : List Recent)
      → Reach initial s
      → IsNew gen_tab gen_pane s
      → ((n : Store I) × (close_tab target s ≡ some n))
        × ((n : Store I) × (close_tab_or_pane target s ≡ some n))
        × ((n : Store I) × (close_other_panes target s ≡ some n))
        × ((n : Store I) × (hidden target s ≡ some n))
        × ((n : Store I) × (left : List Recent) × (e : Opening) × (open_host canonical now gen_tab
                gen_pane no_update w s recents
              ≡ some (n, left, e)))
        × ((n : Store I) × (clone_session gen_tab gen_pane id false s ≡ some n))
  Reach-runs {s} target id canonical now gen_tab gen_pane no_update w recents r new =
      let o = Reach-IsOrderly r in
      let (a, e, _, _) = close_tab-IsOrderly target s o in
      let (b, f, _) = close_tab_or_pane-IsOrderly target s o in
      let (c, g, _) = close_other_panes-IsOrderly target s o in
      let (d, h, _, _) = hidden-IsOrderly target s o in
      let (n, left, op, k, _) =
        open_host-IsOrderly canonical now gen_tab gen_pane no_update w s recents o new in
      let (m, l, _) = clone_session-IsOrderly gen_tab gen_pane id false s o new (λ t p x. cc) in
      ((a, e), (b, f), (c, g), (d, h), (n, left, op, k), (m, l))
