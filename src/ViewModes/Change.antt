-- ===== src/ViewModes/Change.antt =====
-- Changing the view mode of the new-tab dialog, frontend/src/store.ts.
use cozyssh.Prelude.{◌∙◌, ap, ◌++◌, ℕ, ◌≡◌, refl, List, [], true}
use cozyssh.ViewModes.{
  ViewMode, servers, tabs, buttons, help, tags, tunnels, Target, next, prev, target_mode,
  view_mode_prefix, parse_new_tab_dialog_filter, change_new_tab_dialog_view_mode,
}

parse-view_mode_prefix :
    (m : ViewMode) → parse_new_tab_dialog_filter (view_mode_prefix m ++ []) ≡ (m, [])
unfolding parse_new_tab_dialog_filter
parse-view_mode_prefix servers = refl
parse-view_mode_prefix tabs = refl
parse-view_mode_prefix buttons = refl
parse-view_mode_prefix help = refl
parse-view_mode_prefix tags = refl
parse-view_mode_prefix tunnels = refl

-- A change that resets the filter leaves a dialog that is in the mode asked for, with an empty
-- filter.
pub change_new_tab_dialog_view_mode_lem :
    (target : Target) (filter : List ℕ)
    → parse_new_tab_dialog_filter (change_new_tab_dialog_view_mode target true filter)
      ≡ (target_mode target (parse_new_tab_dialog_filter filter).0, [])
unfolding change_new_tab_dialog_view_mode
change_new_tab_dialog_view_mode_lem target filter = parse-view_mode_prefix _

-- The previous mode undoes the next.
next-prev : (m : ViewMode) → target_mode prev (target_mode next m) ≡ m
next-prev servers = refl
next-prev tabs = refl
next-prev buttons = refl
next-prev help = refl
next-prev tags = refl
next-prev tunnels = refl

-- Going to the next mode and back, with the filter reset, leads to the mode that the dialog was in.
pub change_new_tab_dialog_view_mode_back :
    (filter : List ℕ)
    → parse_new_tab_dialog_filter (
        change_new_tab_dialog_view_mode prev true
          (change_new_tab_dialog_view_mode next true filter))
      ≡ ((parse_new_tab_dialog_filter filter).0, [])
change_new_tab_dialog_view_mode_back filter =
    change_new_tab_dialog_view_mode_lem prev (change_new_tab_dialog_view_mode next true filter)
    ∙ ap (λ r. (target_mode prev (r.0), [])) (change_new_tab_dialog_view_mode_lem next filter)
    ∙ ap (λ m. (m, [])) (next-prev ((parse_new_tab_dialog_filter filter).0))
