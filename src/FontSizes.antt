-- ===== src/FontSizes.antt =====
-- The font sizes: `prevTerminalFontSize` and `nextTerminalFontSize` of frontend/src/common.ts, and
-- `resetFontSize`, `decreseFontSize` and `increaseFontSize` of frontend/src/store.ts. Sizes are whole
-- numbers. A call gives the variables that it writes and what it says to the user.
pub mod Steps
mod Tests
use cozyssh.Prelude.{
  ℕ, zero, suc, ◌+◌, ◌-◌, List, [], ◌∷◌, ◌++◌, Option, none, some, Bool, true, false, not, ◌&&◌,
  ◌||◌, String, str_eq, concat, if◌then◌else◌, ltb, leb, ◌==◌, min, max, length, get_elem?,
  find_index,
}

abbrev pub terminal_font_sizes : List ℕ
terminal_font_sizes =
    4 ∷ 5 ∷ 8 ∷ 10 ∷ 11 ∷ 12 ∷ 14 ∷ 15 ∷ 17 ∷ 19 ∷ 23 ∷ 26 ∷ 30 ∷ 38 ∷ 45 ∷ 60 ∷ 75 ∷ []

abbrev pub size_at : ℕ → ℕ
size_at i = elim (get_elem? terminal_font_sizes i) [ none ↦ 0 | some s ↦ s ]

unfoldable pub prev_terminal_font_size : ℕ → ℕ
prev_terminal_font_size size = elim (find_index (λ s. leb size s) terminal_font_sizes) [
  | none ↦ size_at 0
  | some i ↦ size_at (i - 1)
]

unfoldable pub next_terminal_font_size : ℕ → ℕ
next_terminal_font_size size = elim (find_index (λ s. leb size s) terminal_font_sizes) [
  | none ↦ size_at (length terminal_font_sizes - 1)
  | some i ↦ size_at (min (length terminal_font_sizes - 1) (i + 1))
]

abbrev pub default_terminal_font_size : ℕ
default_terminal_font_size = 15

abbrev pub default_font_size : ℕ
default_font_size = 14

-- `vars` and `localVars` as the lists of their entries, and the two sizes in use.
pub record Fonts : Type 0 where
  pub vars : List (String × String)
  pub local_vars : List (String × String)
  pub terminal_font_size : Option ℕ
  pub font_size : ℕ

pub data Message : Type 0 where
  terminal_reset_to global_reset_to terminal_size global_size : ℕ → Message

-- The calls of `csSetVar`, and the parts of the message given to `notify`, if it is called.
pub record Changes : Type 0 where
  pub set_vars : List (String × ℕ)
  pub message : List Message
  pub toast : Bool

-- A missing variable and an empty one are the same.
abbrev pub is_set : String → List (String × String) → Bool
is_set name [] = false
is_set name ((k, v) ∷ vs) = if str_eq k name then not (str_eq v "") else is_set name vs

-- The browser's own variable, unless only the shared one is set.
abbrev pub var_name : Fonts → String → String
var_name f name =
    if not (is_set name f.vars) || is_set (concat "local_" name) f.local_vars
    then concat "local_" name
    else name

-- __CS_TERMINAL_OPTIONS__.fontSize || DEFAULT_TERMINAL_FONT_SIZE
abbrev pub current_terminal_size : Fonts → ℕ
current_terminal_size f = elim f.terminal_font_size [
  | none ↦ default_terminal_font_size
  | some zero ↦ default_terminal_font_size
  | some (suc n) ↦ suc n
]

-- What one of the two sizes contributes.
abbrev pub change_to : Bool → String → ℕ → ℕ → Message → List (String × ℕ) × List Message
change_to on name old new says =
    if on && not (new == old) then ((name, new) ∷ [], says ∷ []) else ([], [])

abbrev is_empty_message : List Message → Bool
is_empty_message [] = true
is_empty_message (m ∷ ms) = false

abbrev pub both :
    Bool → List (String × ℕ) × List Message → List (String × ℕ) × List Message → Changes
both no_toast (sets, says) (sets', says') = record {
  set_vars = sets ++ sets';
  message = says ++ says';
  toast = not (is_empty_message (says ++ says')) && not no_toast;
}

module _ (f : Fonts) (terminal_font global_font no_toast : Bool) where
  abbrev terminal_to : (ℕ → Message) → ℕ → List (String × ℕ) × List Message
  terminal_to says new =
      change_to terminal_font (var_name f "cs_terminal_font_size") (current_terminal_size f) new
        (says new)

  abbrev global_to : (ℕ → Message) → ℕ → List (String × ℕ) × List Message
  global_to says new = change_to global_font (var_name f "cs_font_size") f.font_size new (says new)

  unfoldable pub reset_font_size : Changes
  reset_font_size =
      both no_toast (terminal_to terminal_reset_to default_terminal_font_size)
        (global_to global_reset_to default_font_size)

  unfoldable pub decrese_font_size : Changes
  decrese_font_size =
      both no_toast (terminal_to terminal_size (prev_terminal_font_size (current_terminal_size f)))
        (global_to global_size (max 10 (f.font_size - 1)))

  unfoldable pub increase_font_size : Changes
  increase_font_size =
      both no_toast (terminal_to terminal_size (next_terminal_font_size (current_terminal_size f)))
        (global_to global_size (min 40 (f.font_size + 1)))
