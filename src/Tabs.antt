-- ===== src/Tabs.antt =====
-- The tabs and panes of frontend/src/store.ts: the part of the store that they keep, and the
-- operations on it. An `undefined` or empty id argument is the empty text: each operation reads both
-- as the active one. A request to the server is recorded, newest first.
pub mod Cleanup
pub mod Neighbours
pub mod Close
pub mod Order
pub mod Others
pub mod Broadcast
pub mod Activate
pub mod Unread
mod Tests
use cozyssh.Prelude.{
  take, drop, set, ℕ, zero, suc, ◌+◌, ◌-◌, List, [], ◌∷◌, ◌++◌, map, Option, none, some, Bool, true,
  false, not, ◌&&◌, ◌||◌, String, str_eq, if◌then◌else◌, ltb, leb, ◌==◌, length, get_elem?, any,
  find, find_index, filter,
}

pub data PaneState : Type 0 where
  stolen disconnected connected connecting exited unset : PaneState

pub record PaneData : Type 0 where
  pub id : String
  pub session_id : Option String
  pub host : String
  pub canonical_host_string : String
  pub state : PaneState
  pub clone_from : Option String
  pub options : List (String × String)

pub data TabType : Type 0 where
  terminal scratchpad : TabType

pub record TabData : Type 0 where
  pub id : String
  pub title : String
  pub is_custom_title : Bool
  pub panes : List PaneData
  pub active_pane_id : String
  pub is_pinned : Bool
  pub is_locked : Bool
  pub show_files : Bool
  pub type : TabType

pub data BroadcastMode : Type 0 where
  off tab all : BroadcastMode

pub data Request : Type 0 where
  close_session unpin_session : String → Request

-- `I` is the type of a pane's shell integration. A set or an object is the list of its entries.
pub record Store (I : Type 0) : Type 0 where
  pub tabs : List TabData
  pub active_tab_id : String
  pub active_pane_id : String
  pub broadcast_mode : BroadcastMode
  pub unread_tab_ids : List String
  pub shell_integrations : List (String × I)
  pub session_buffer_data_times : List (String × ℕ)
  pub focus_trigger : ℕ
  pub requests : List Request

-- a || b on texts
abbrev pub or_text : String → String → String
or_text a b = if str_eq a "" then b else a

abbrev pub tab_ids : List TabData → List String
tab_ids = map λ t. t.id

abbrev pub pane_ids : List PaneData → List String
pane_ids = map λ p. p.id

abbrev pub all_pane_ids : List TabData → List String
all_pane_ids [] = []
all_pane_ids (t ∷ ts) = pane_ids t.panes ++ all_pane_ids ts

abbrev pub has : List String → String → Bool
has ids id = any (str_eq id) ids

abbrev pub find_tab : String → List TabData → Option TabData
find_tab id = find λ t. str_eq t.id id

abbrev pub tab_index : String → List TabData → Option ℕ
tab_index id = find_index λ t. str_eq t.id id

-- The entries whose key is valid; the same list if they all are.
unfoldable pub retain {ℓ} : {A : Type ℓ} → (A → String) → List String → List A → List A
retain key valid xs =
    if any (λ x. not (has valid (key x))) xs then filter (λ x. has valid (key x)) xs else xs

abbrev pub is_empty {ℓ} : {A : Type ℓ} → List A → Bool
is_empty [] = true
is_empty (x ∷ xs) = false

-- tabs.length === 0 || (tabs.length === 1 && tabs[0].id === id)
abbrev pub is_alone : List TabData → String → Bool
is_alone [] id = true
is_alone (t ∷ []) id = str_eq t.id id
is_alone (t ∷ u ∷ ts) id = false

-- `findIndex` gives -1 for a missing tab: below every index, above none.
abbrev pub index_lt : Option ℕ → ℕ → Bool
index_lt none j = true
index_lt (some i) j = ltb i j

abbrev pub index_gt : Option ℕ → ℕ → Bool
index_gt none j = false
index_gt (some i) j = ltb j i

abbrev pub is_stolen : PaneState → Bool
is_stolen stolen = true
is_stolen _ = false

abbrev pub backend_id : PaneData → String
backend_id p = elim p.session_id [ none ↦ p.id | some id ↦ or_text id p.id ]

-- The requests to close the sessions of the panes, newest first.
pub close_requests : List PaneData → List Request → List Request
close_requests [] rs = rs
close_requests (p ∷ ps) rs =
    close_requests ps (if is_stolen p.state then rs else close_session (backend_id p) ∷ rs)

pub first_session : List PaneData → String → String
first_session [] id = id
first_session (p ∷ ps) id = or_text (backend_id p) id

-- What `closeTab` asks of the server.
pub close_tab_requests : Option TabData → List Request → List Request
close_tab_requests none rs = rs
close_tab_requests (some t) rs =
    if t.is_locked
    then rs
    else close_requests t.panes
        (if t.is_pinned then unpin_session (first_session t.panes t.id) ∷ rs else rs)

abbrev mode_eq : BroadcastMode → BroadcastMode → Bool
mode_eq off off = true
mode_eq tab tab = true
mode_eq all all = true
mode_eq _ _ = false

abbrev pub is_terminal : TabType → Bool
is_terminal terminal = true
is_terminal scratchpad = false

abbrev pub others : String → List String → List String
others current = filter λ id. not (str_eq id current)

pub broadcast_targets : BroadcastMode → String → String → List TabData → List String
broadcast_targets off current active tabs = []
broadcast_targets tab current active tabs =
    elim (find (λ t. str_eq t.id active || any (λ p. str_eq p.id current) t.panes) tabs) [
      | none ↦ []
      | some t ↦ if is_terminal t.type then others current (pane_ids t.panes) else []
    ]
broadcast_targets all current active tabs =
    others current (all_pane_ids (filter (λ t. is_terminal t.type) tabs))

-- The tab holds the pane.
abbrev pub holds : String → TabData → Bool
holds pane_id t = any (λ p. str_eq p.id pane_id) t.panes

-- The tab's own active pane is written only where it changes.
abbrev pub needs_pane : String → Option TabData → Bool
needs_pane pane_id none = false
needs_pane pane_id (some t) = not (str_eq t.active_pane_id pane_id)

abbrev pub prev_index : Option ℕ → ℕ
prev_index none = 0
prev_index (some i) = i - 1

abbrev pub without : String → List TabData → List TabData
without id = filter λ t. not (str_eq t.id id)

module _ {I : Type 0} where
  unfoldable pub cleanup_associated_tab_state : Store I → List TabData → Store I
  cleanup_associated_tab_state s new_tabs = record s {
    tabs = new_tabs;
    unread_tab_ids = retain (λ id. id) (tab_ids new_tabs) s.unread_tab_ids;
    shell_integrations = retain (λ e. e.0) (all_pane_ids new_tabs) s.shell_integrations;
    session_buffer_data_times =
        retain (λ e. e.0) (all_pane_ids new_tabs) s.session_buffer_data_times;
    broadcast_mode = if is_empty new_tabs then off else s.broadcast_mode;
  }

  unfoldable pub set_tabs : (List TabData → List TabData) → Store I → Store I
  set_tabs update s = cleanup_associated_tab_state s (update s.tabs)

  abbrev pub trigger_focus : Store I → Store I
  trigger_focus s = record s { focus_trigger = s.focus_trigger + 1 }

  abbrev pub activate_tab : TabData → Store I → Store I
  activate_tab t s = record s { active_tab_id = t.id; active_pane_id = t.active_pane_id }

  abbrev pub deactivate : Store I → Store I
  deactivate s = record s { active_tab_id = ""; active_pane_id = "" }

  unfoldable pub close_other_tabs : String → Store I → Store I
  close_other_tabs target s =
      let id = or_text target s.active_tab_id in
      if is_alone s.tabs id then s else elim (find_tab id s.tabs) [
        | none ↦ s
        | some t ↦ trigger_focus (activate_tab t (cleanup_associated_tab_state s (t ∷ [])))
      ]

  unfoldable pub close_side_tabs : String → Bool → Store I → Store I
  close_side_tabs target left s =
      let id = or_text target s.active_tab_id in
      if is_alone s.tabs id then s else elim (tab_index id s.tabs) [
        | none ↦ s
        | some i ↦ elim (get_elem? s.tabs i) [
          | none ↦ s
          | some t ↦
              let active = tab_index s.active_tab_id s.tabs in
              let closed = if left then index_lt active i else index_gt active i in
              let n =
                cleanup_associated_tab_state s
                  (if left then drop i s.tabs else take (i + 1) s.tabs) in
              trigger_focus (if closed then activate_tab t n else n)
        ]
      ]

  -- The updater of `closeTab`, which also moves the focus; `none` is the exception of a missing
  -- neighbour.
  unfoldable pub leave_tab : String → Store I → Option (Store I)
  leave_tab id s =
      let new_tabs = without id s.tabs in
      if is_empty new_tabs
      then some (deactivate s)
      else if str_eq s.active_tab_id id
      then elim (get_elem? new_tabs (prev_index (tab_index id s.tabs))) [
        | none ↦ none
        | some t ↦ some (activate_tab t s)
      ]
      else some s

  unfoldable pub close_tab : String → Store I → Option (Store I)
  close_tab target s =
      let id = or_text target s.active_tab_id in
      let asked = record s { requests = close_tab_requests (find_tab id s.tabs) s.requests } in
      elim (leave_tab id asked) [
        | none ↦ none
        | some n ↦ some (trigger_focus (cleanup_associated_tab_state n (without id s.tabs)))
      ]

  unfoldable pub toggle_files : String → Store I → Store I
  toggle_files target s =
      let id = or_text target s.active_tab_id in
      set_tabs (map λ t. if str_eq t.id id then record t { show_files = not t.show_files } else t) s

  abbrev pub activate_in : String → String → Store I → Store I
  activate_in pane_id tab_id s = record s {
    active_pane_id = pane_id;
    active_tab_id = tab_id;
    tabs =
        if needs_pane pane_id (find_tab tab_id s.tabs)
        then map (λ t. if str_eq t.id tab_id then record t { active_pane_id = pane_id } else t)
            s.tabs
        else s.tabs;
  }

  unfoldable pub activate_pane : String → String → Store I → Store I
  activate_pane pane_id tab_id s =
      if str_eq tab_id ""
      then elim (find (holds pane_id) s.tabs) [ none ↦ s | some t ↦ activate_in pane_id t.id s ]
      else activate_in pane_id tab_id s

  unfoldable pub add_unread_tab_id : String → Store I → Store I
  add_unread_tab_id id s =
      if has s.unread_tab_ids id
      then s
      else record s { unread_tab_ids = s.unread_tab_ids ++ id ∷ [] }

  unfoldable pub delete_unread_tab_id : String → Store I → Store I
  delete_unread_tab_id id s = record s {
    unread_tab_ids = filter (λ i. not (str_eq i id)) s.unread_tab_ids;
  }

  -- newTabs[i] = tabs[j]; newTabs[j] = tabs[i]
  abbrev pub exchange : ℕ → ℕ → Store I → Store I
  exchange i j s = elim (get_elem? s.tabs i) [
    | none ↦ s
    | some t ↦ elim (get_elem? s.tabs j) [
      | none ↦ s
      | some u ↦ set_tabs (λ _. set (set s.tabs j t) i u) s
    ]
  ]

  -- The four moves; `i <= 0` covers the missing tab.
  unfoldable pub move_tab_left : String → Store I → Store I
  move_tab_left target s = elim (tab_index (or_text target s.active_tab_id) s.tabs) [
    | none ↦ s
    | some zero ↦ s
    | some (suc i) ↦ exchange (suc i) i s
  ]

  unfoldable pub move_tab_right : String → Store I → Store I
  move_tab_right target s = elim (tab_index (or_text target s.active_tab_id) s.tabs) [
    | none ↦ s
    | some i ↦ if i + 1 == length s.tabs then s else exchange i (i + 1) s
  ]

  unfoldable pub move_tab_to_first : String → Store I → Store I
  move_tab_to_first target s = elim (tab_index (or_text target s.active_tab_id) s.tabs) [
    | none ↦ s
    | some zero ↦ s
    | some (suc i) ↦ exchange (suc i) 0 s
  ]

  unfoldable pub move_tab_to_last : String → Store I → Store I
  move_tab_to_last target s = elim (tab_index (or_text target s.active_tab_id) s.tabs) [
    | none ↦ s
    | some i ↦ if i + 1 == length s.tabs then s else exchange i (length s.tabs - 1) s
  ]

  -- Broadcasting what is typed into a pane to other panes.
  unfoldable pub toggle_broadcast_mode : BroadcastMode → Store I → Store I
  toggle_broadcast_mode mode s = record s {
    broadcast_mode = if mode_eq s.broadcast_mode mode then off else mode;
  }

  unfoldable pub get_broadcast_target_pane_ids : String → Store I → List String
  get_broadcast_target_pane_ids source s =
      let current = or_text source s.active_pane_id in
      broadcast_targets s.broadcast_mode current s.active_tab_id s.tabs
