-- ===== src/TabFlags.antt =====
-- Pinning, locking and hiding a tab: `unpinTab`, `pinTab`, `unlockTab`, `lockTab` and `hideTab` of
-- frontend/src/store.ts. Each awaits a request: the part before it reads the store of the call, the
-- part after it works on the store of that time, which may be another one.
pub mod Hidden
pub mod Flags
mod Tests
use cozyssh.Prelude.{
  ℕ, ◌-◌, List, [], ◌∷◌, map, Option, none, some, Bool, true, false, not, ◌&&◌, String, str_eq,
  if◌then◌else◌, get_elem?,
}
use cozyssh.Tabs.{
  TabData, PaneData, Store, or_text, find_tab, tab_index, backend_id, is_terminal, is_empty,
  set_tabs, activate_tab, deactivate, first_session,
}
use cozyssh.Ordering.{remove_at}

pub data SessionRequest : Type 0 where
  pin lock : String → String → Bool → SessionRequest
  unpin hide : String → SessionRequest

-- What a call does first: nothing, a message that there are several panes, a request, or an
-- exception.
pub data Reply : Type 0 where
  nothing several_panes exception : Reply
  ask : SessionRequest → Reply

abbrev ask_single : (PaneData → SessionRequest) → List PaneData → Reply
ask_single f [] = exception
ask_single f (p ∷ []) = ask (f p)
ask_single f (p ∷ q ∷ ps) = several_panes

-- The guards that pinning, locking and hiding share.
abbrev ask_tab : (TabData → PaneData → SessionRequest) → Option TabData → Reply
ask_tab f none = nothing
ask_tab f (some t) = if is_terminal t.type then ask_single (f t) t.panes else nothing

module _ {I : Type 0} where
  abbrev pub target_tab : String → Store I → Option TabData
  target_tab target s = find_tab (or_text target s.active_tab_id) s.tabs

  unfoldable pub pin_tab : String → Store I → Reply
  pin_tab target s =
      ask_tab (λ t p. pin (backend_id p) t.title t.is_custom_title) (target_tab target s)

  -- Unlocking pins the tab's session.
  unfoldable pub unlock_tab : String → Store I → Reply
  unlock_tab target s =
      ask_tab (λ t p. pin (backend_id p) t.title t.is_custom_title) (target_tab target s)

  unfoldable pub lock_tab : String → Store I → Reply
  lock_tab target s =
      ask_tab (λ t p. lock (backend_id p) t.title t.is_custom_title) (target_tab target s)

  unfoldable pub hide_tab : String → Store I → Reply
  hide_tab target s = ask_tab (λ t p. hide (backend_id p)) (target_tab target s)

  unfoldable pub unpin_tab : String → Store I → Reply
  unpin_tab target s = elim (target_tab target s) [
    | none ↦ nothing
    | some t ↦ ask (unpin (first_session t.panes t.id))
  ]

  abbrev pub set_flag : String → (TabData → TabData) → Store I → Store I
  set_flag id f s = set_tabs (map λ t. if str_eq t.id id then f t else t) s

  unfoldable pub pinned : String → Store I → Store I
  pinned id s = set_flag id (λ t. record t { is_pinned = true }) s

  unfoldable pub unlocked : String → Store I → Store I
  unlocked id s = set_flag id (λ t. record t { is_locked = false }) s

  unfoldable pub locked : String → Store I → Store I
  locked id s = set_flag id (λ t. record t { is_locked = true }) s

  abbrev pub leave_hidden : String → ℕ → List TabData → Store I → Option (Store I)
  leave_hidden id i left s =
      if str_eq s.active_tab_id id && not (is_empty left)
      then elim (get_elem? left (i - 1)) [ none ↦ none | some t ↦ some (activate_tab t s) ]
      else some (if is_empty left then deactivate s else s)

  -- `none` is the exception of a missing neighbour.
  unfoldable pub hidden : String → Store I → Option (Store I)
  hidden id s = elim (tab_index id s.tabs) [
    | none ↦ some s
    | some i ↦ let left = remove_at i s.tabs in leave_hidden id i left (set_tabs (λ _. left) s)
  ]
