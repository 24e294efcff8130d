-- ===== src/ViewModes.antt =====
-- The view modes of the new-tab dialog: `parseNewTabDialogFilter` and `changeNewTabDialogViewMode`
-- of frontend/src/store.ts, with `ViewModePrefix`, `cutString` and `cutPrefix` of
-- frontend/src/common.ts. A filter is the list of its code units.
pub mod Change
use cozyssh.Prelude.{
  get_elem?, find_index, length, ℕ, ◌+◌, ◌-◌, ◌%◌, List, [], ◌∷◌, ◌++◌, Option, none, some, Bool,
  true, false, ◌&&◌, if◌then◌else◌, ◌==◌, any,
}

pub data ViewMode : Type 0 where
  servers tabs buttons help tags tunnels : ViewMode

abbrev pub mode_eq : ViewMode → ViewMode → Bool
mode_eq servers servers = true
mode_eq tabs tabs = true
mode_eq buttons buttons = true
mode_eq help help = true
mode_eq tags tags = true
mode_eq tunnels tunnels = true
mode_eq _ _ = false

abbrev pub view_mode_prefix : ViewMode → List ℕ
view_mode_prefix tabs = b'@' ∷ []
view_mode_prefix buttons = b'>' ∷ []
view_mode_prefix help = b'?' ∷ []
view_mode_prefix tags = b'#' ∷ []
view_mode_prefix tunnels = b':' ∷ []
view_mode_prefix servers = []

-- What is left behind the prefix; `none` if the text does not start with it.
abbrev pub after_prefix : List ℕ → List ℕ → Option (List ℕ)
after_prefix s [] = some s
after_prefix [] (p ∷ ps) = none
after_prefix (c ∷ s) (p ∷ ps) = if c == p then after_prefix s ps else none

abbrev pub cut_prefix : List ℕ → List ℕ → List ℕ × Bool
cut_prefix s prefix = elim (after_prefix s prefix) [ none ↦ (s, false) | some rest ↦ (rest, true) ]

-- The text is searched from the left.
abbrev pub cut_string : List ℕ → List ℕ → List ℕ × List ℕ × Bool
cut_string [] sep = elim (after_prefix [] sep) [
  | none ↦ ([], [], false)
  | some rest ↦ ([], rest, true)
]
cut_string (c ∷ s) sep = elim (after_prefix (c ∷ s) sep) [
  | some rest ↦ ([], rest, true)
  | none ↦ let (before, after, found) = cut_string s sep in (c ∷ before, after, found)
]

abbrev pub first_prefix : List ViewMode → List ℕ → ViewMode × List ℕ
first_prefix [] filter = (servers, filter)
first_prefix (m ∷ ms) filter = elim (after_prefix filter (view_mode_prefix m)) [
  | none ↦ first_prefix ms filter
  | some rest ↦
      if mode_eq m tags && any (λ c. c == b' ') filter then (servers, filter) else (m, rest)
]

unfoldable pub parse_new_tab_dialog_filter : List ℕ → ViewMode × List ℕ
parse_new_tab_dialog_filter = first_prefix (tabs ∷ buttons ∷ help ∷ tags ∷ tunnels ∷ servers ∷ [])

abbrev pub modes : List ViewMode
modes = servers ∷ buttons ∷ tabs ∷ tags ∷ tunnels ∷ help ∷ []

abbrev pub mode_at : ℕ → ViewMode
mode_at i = elim (get_elem? modes i) [ none ↦ servers | some m ↦ m ]

pub data Target : Type 0 where
  mode : ViewMode → Target
  next prev : Target

abbrev pub target_mode : Target → ViewMode → ViewMode
target_mode (mode m) current = m
target_mode next current = elim (find_index (mode_eq current) modes) [
  | none ↦ servers
  | some i ↦ mode_at ((i + 1) % length modes)
]
target_mode prev current = elim (find_index (mode_eq current) modes) [
  | none ↦ servers
  | some i ↦ mode_at ((i + length modes - 1) % length modes)
]

abbrev pub new_filter : ViewMode → List ℕ → List ℕ
new_filter tags filter = (cut_prefix ((cut_string filter (b' ' ∷ [])).0) (b'#' ∷ [])).0
new_filter _ filter = filter

unfoldable pub change_new_tab_dialog_view_mode : Target → Bool → List ℕ → List ℕ
change_new_tab_dialog_view_mode target reset_filter dialog_filter =
    let (current, filter) = parse_new_tab_dialog_filter dialog_filter in
    let m = target_mode target current in
    view_mode_prefix m ++ (if reset_filter then [] else new_filter m filter)
