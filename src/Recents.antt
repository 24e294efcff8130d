-- ===== src/Recents.antt =====
-- The recently used buttons and hosts of frontend/src/store.ts: `updateRecentButtonId`,
-- `removeRecentButtonId` and `deleteRecent`. The limit is the integer that `getIntVar` gives, below
-- zero as well.
pub mod Latest
use cozyssh.Prelude.{
  ℕ, zero, suc, ◌-◌, List, [], ◌∷◌, Bool, true, false, not, String, str_eq, if◌then◌else◌, length,
  take, filter,
}
use cozyssh.Prelude.Int.{ℤ, pos, negsuc}

-- slice(0, end)
abbrev pub slice_to : ℤ → List String → List String
slice_to (pos n) xs = take n xs
slice_to (negsuc n) xs = take (length xs - suc n) xs

abbrev pub is_first : String → List String → Bool
is_first id [] = false
is_first id (x ∷ xs) = str_eq x id

-- The recent hosts that are left, by their names, and the host that the server is asked to remove.
unfoldable pub delete_recent : String → List String → List String × String
delete_recent host recents = (filter (λ r. not (str_eq r host)) recents, host)

unfoldable pub remove_recent_button_id : String → List String → List String
remove_recent_button_id id ids = filter (λ i. not (str_eq i id)) ids

unfoldable pub update_recent_button_id : ℤ → String → List String → List String
update_recent_button_id limit id ids =
    if is_first id ids then ids else slice_to limit (id ∷ filter (λ i. not (str_eq i id)) ids)
