-- ===== src/Switches.antt =====
-- The expand switches of the host list and the dialog flags of frontend/src/store.ts, and `getVar`
-- there. A write to the browser's storage is recorded, newest first.
pub mod Toggled
mod Tests
use cozyssh.Prelude.{
  ℕ, zero, suc, List, [], ◌∷◌, Option, none, some, Bool, true, false, not, String, str_eq, concat,
  if◌then◌else◌,
}

-- A number, or a function of the number before.
pub data Update : Type 0 where
  fixed : ℕ → Update
  by : (ℕ → ℕ) → Update

pub record Switches : Type 0 where
  pub tags_expanded : ℕ
  pub fav_expanded : ℕ
  pub all_expanded : ℕ
  pub auto_expanded : ℕ
  pub storage : List (String × ℕ)

-- +!n for no update
abbrev pub updated : Option Update → ℕ → ℕ
updated none zero = 1
updated none (suc n) = 0
updated (some (fixed k)) n = k
updated (some (by f)) n = f n

unfoldable pub set_tags_expanded : Option Update → Switches → Switches
set_tags_expanded update s =
    let n = updated update s.tags_expanded in
    record s { tags_expanded = n; storage = ("cozy_tags_expanded", n) ∷ s.storage }

unfoldable pub set_fav_expanded : Option Update → Switches → Switches
set_fav_expanded update s =
    let n = updated update s.fav_expanded in
    record s { fav_expanded = n; storage = ("cozy_fav_expanded", n) ∷ s.storage }

unfoldable pub set_all_expanded : Option Update → Switches → Switches
set_all_expanded update s =
    let n = updated update s.all_expanded in
    record s { all_expanded = n; storage = ("cozy_all_expanded", n) ∷ s.storage }

unfoldable pub set_auto_expanded : Option Update → Switches → Switches
set_auto_expanded update s =
    let n = updated update s.auto_expanded in
    record s { auto_expanded = n; storage = ("cozy_auto_expanded", n) ∷ s.storage }

-- The value of a key, and the empty text, which counts as none, for a missing one.
abbrev pub value_of : String → List (String × String) → String
value_of name [] = ""
value_of name ((k, v) ∷ vs) = if str_eq k name then v else value_of name vs

-- `vars` and `localVars` of the store.
unfoldable pub get_var : List (String × String) → List (String × String) → String → String → String
get_var vars local_vars name default_value =
    let own = value_of (concat "local_" name) local_vars in
    let shared = value_of name vars in
    if not (str_eq own "") then own else if not (str_eq shared "") then shared else default_value
