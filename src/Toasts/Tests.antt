-- ===== src/Toasts/Tests.antt =====
-- Tests of the notifications, and a concrete case of the theorem (frontend/src/store.ts).
use cozyssh.Prelude.{ℕ, ◌≡◌, ◌≤◌, refl, List, [], ◌∷◌, ◌++◌, map, false, String, Bool, All, length}
use cozyssh.Prelude.Int.{pos}
use cozyssh.Toasts.{Toast, Toasts, keyed, notify, new_id}
use cozyssh.Toasts.Newest.{IsOther, notify_lem}

abbrev loud : String → Bool
loud key = false

abbrev toast : String → String → Toast ℕ
toast id key = record { id = keyed id; key = key; msg = "old"; severity = 0 }

abbrev state : Toasts ℕ
state = record {
  toasts = toast "font-0" "font" ∷ toast "net-1" "net" ∷ toast "font-size-2" "font-size" ∷ [];
  toast_id = 3;
  timers = [];
}

-- The second toast with a key replaces the first, and one whose key starts with the same word and a
-- dash.
replaced :
    map (λ t. t.key) (notify loud (pos 3) (pos 0) "new" 0 "font" state).toasts ≡ "net" ∷ "font" ∷ []
unfolding notify
replaced = refl

-- The limit 0 keeps all.
unlimited : length (notify loud (pos 0) (pos 0) "new" 0 "" state).toasts ≡ 4
unfolding notify
unlimited = refl

notify_lem_example :
    (l : List (Toast ℕ)) × ((notify loud (pos 2) (pos 0) "new" 0 "font" state).toasts
      ≡ l ++ record { id = new_id "font" 3; key = "font"; msg = "new"; severity = 0 } ∷ [])
    × (length l ≤ 1)
    × All (IsOther "font") l
notify_lem_example = notify_lem loud 1 (pos 0) "new" 0 "font" state refl
