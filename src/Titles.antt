-- ===== src/Titles.antt =====
-- The titles of tabs: `newTabTitle` of frontend/src/store.ts, and `hostTitle` and `cutSuffix` of
-- frontend/src/common.ts.
pub mod Fresh
mod Tests
use Prim.Native.Char.{code}
use Prim.Native.String.{◌++◌}
use cozyssh.Prelude.{
  ℕ, zero, suc, ◌+◌, List, [], ◌∷◌, map, Option, none, some, Bool, true, false, String, str_eq,
  if◌then◌else◌, ◌==◌, length, filter,
}
use cozyssh.Prelude.Decimal.{decimal}
use cozyssh.Tabs.{TabData, is_terminal, has, or_text}

-- Behind the last "@".
pub after_at : String → Option String
after_at String.[] = none
after_at (String.◌∷◌ c s) = elim (after_at s) [
  | some t ↦ some t
  | none ↦ if code c == b'@' then some s else none
]

pub cut_suffix : String → String → String × Bool
cut_suffix String.[] suffix = ("", str_eq "" suffix)
cut_suffix (String.◌∷◌ c s) suffix =
    let (before, found) = cut_suffix s suffix in
    if str_eq (String.◌∷◌ c s) suffix then ("", true) else (String.◌∷◌ c before, found)

unfoldable pub host_title : String → String
unfolding after_at cut_suffix
host_title host = elim (after_at host) [
  | none ↦ (cut_suffix host ":22").0
  | some h ↦ (cut_suffix h ":22").0
]

-- The set of the titles of the terminal tabs; a title may stand in the list more than once.
abbrev pub tab_names : List TabData → List String
tab_names tabs = map (λ t. t.title) (filter (λ t. is_terminal t.type) tabs)

-- `${baseTitle} (${num})`
abbrev pub numbered : String → ℕ → String
numbered base num = base ++ (" (" ++ (decimal num ++ ")"))

-- The loop, from `num` on; `none` if it takes more than `fuel` rounds.
pub free_title : List String → String → ℕ → ℕ → Option String
free_title names base zero num = none
free_title names base (suc fuel) num = elim (has names (numbered base num)) [
  | true ↦ free_title names base fuel (num + 1)
  | false ↦ some (numbered base num)
]

unfoldable pub new_tab_title : String → List TabData → Option String
unfolding free_title
new_tab_title base_title tabs =
    let base = or_text base_title "server" in
    let names = tab_names tabs in
    if has names base then free_title names base (length names + 1) 1 else some base
