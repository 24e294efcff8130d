-- ===== src/Toasts.antt =====
-- Notifications: `notify` of frontend/src/store.ts. `muted` stands for the regular expression of
-- the muted keys, `limit` for the variable with the greatest number of toasts. An empty or missing
-- key is the empty text.
pub mod Newest
mod Tests
use text.Mathlib.Text
use cozyssh.Prelude.{
  concat, ℕ, zero, suc, ◌+◌, ◌-◌, List, [], ◌∷◌, ◌++◌, Bool, true, false, not, ◌&&◌, ◌||◌, String,
  str_eq, if◌then◌else◌, ◌==◌, length, drop, filter,
}
use cozyssh.Prelude.Int.{ℤ, pos, negsuc, pos_part}
use cozyssh.Prelude.Decimal.{decimal}

pub data ToastId : Type 0 where
  plain : ℕ → ToastId
  keyed : String → ToastId

-- `S` is the type of the severities.
pub record Toast (S : Type 0) : Type 0 where
  pub id : ToastId
  pub key : String
  pub msg : String
  pub severity : S

-- The toasts, the number of the next one, and the timers: the ids that they take away.
pub record Toasts (S : Type 0) : Type 0 where
  pub toasts : List (Toast S)
  pub toast_id : ℕ
  pub timers : List (ToastId × ℕ)

abbrev pub new_id : String → ℕ → ToastId
new_id key n = if str_eq key "" then plain n else keyed (concat key (concat "-" (decimal n)))

-- The id starts with the key and a dash.
abbrev pub is_of_key : String → ToastId → Bool
is_of_key key (plain n) = false
is_of_key key (keyed id) = Text.starts_with id (concat key "-")

abbrev pub id_eq : ToastId → ToastId → Bool
id_eq (plain m) (plain n) = m == n
id_eq (keyed s) (keyed t) = str_eq s t
id_eq _ _ = false

-- slice(-n): with 0, all of them.
abbrev pub slice_last {ℓ} : {A : Type ℓ} → ℤ → List A → List A
slice_last (pos zero) xs = xs
slice_last (pos (suc n)) xs = drop (length xs - suc n) xs
slice_last (negsuc n) xs = drop (suc n) xs

module _ {S : Type 0} where
  -- Those that stay when one with the key comes.
  abbrev pub unreplaced : String → List (Toast S) → List (Toast S)
  unreplaced key ts = if str_eq key "" then ts else filter (λ t. not (is_of_key key t.id)) ts

  unfoldable pub notify : (String → Bool) → ℤ → ℤ → String → S → String → Toasts S → Toasts S
  notify muted limit timeout msg severity key s =
      if not (str_eq key "") && muted key
      then s
      else let id = new_id key s.toast_id in
        let t : Toast S = record { id = id; key = key; msg = msg; severity = severity } in
        record {
          toasts = slice_last limit (unreplaced key s.toasts ++ t ∷ []);
          toast_id = s.toast_id + 1;
          timers = if pos_part timeout == 0 then s.timers else (id, pos_part timeout) ∷ s.timers;
        }

  -- A timer runs out.
  unfoldable pub dismiss : ToastId → Toasts S → Toasts S
  dismiss id s = record s { toasts = filter (λ t. not (id_eq t.id id)) s.toasts }
