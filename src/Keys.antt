-- ===== src/Keys.antt =====
-- Key combinations: `getKeyCombination` and `isModifier` of frontend/src/common.ts. `lower` stands
-- for toLowerCase, `apple` for IS_APPLE, and `swap` for macModifierSwap, which plugins can change.
pub mod Apple
mod Tests
use cozyssh.Prelude.{
  concat, List, [], ◌∷◌, Option, none, some, Bool, true, false, ◌&&◌, ◌||◌, String, str_eq,
  if◌then◌else◌, find,
}

pub data Modifier : Type 0 where
  ctrl alt meta : Modifier

pub record KeyboardEvent : Type 0 where
  pub ctrl_key : Bool
  pub alt_key : Bool
  pub shift_key : Bool
  pub meta_key : Bool
  pub key : String
  pub code : String

abbrev pub modifier_eq : Modifier → Modifier → Bool
modifier_eq ctrl ctrl = true
modifier_eq alt alt = true
modifier_eq meta meta = true
modifier_eq _ _ = false

abbrev pub modifier_name : Modifier → String
modifier_name ctrl = "ctrl"
modifier_name alt = "alt"
modifier_name meta = "meta"

abbrev pub modifier_of : String → Option Modifier
modifier_of s =
    if str_eq s "ctrl"
    then some ctrl
    else if str_eq s "alt"
    then some alt
    else if str_eq s "meta"
    then some meta
    else none

abbrev pub Swap : Type 0
Swap = List (Modifier × Modifier)

-- The map at first.
abbrev pub mac_modifier_swap : Swap
mac_modifier_swap = (meta, alt) ∷ (alt, meta) ∷ []

-- macModifierSwap.get(m)
abbrev pub swap_of : Modifier → Swap → Option Modifier
swap_of m [] = none
swap_of m (e ∷ es) = let rest = swap_of m es in if modifier_eq (e.0) m then some (e.1) else rest

abbrev pub flag : Modifier → KeyboardEvent → Bool
flag ctrl ev = ev.ctrl_key
flag alt ev = ev.alt_key
flag meta ev = ev.meta_key

abbrev pub or_modifier : Option Modifier → Modifier → Modifier
or_modifier none m = m
or_modifier (some n) m = n

unfoldable pub is_modifier : Bool → Swap → KeyboardEvent → Modifier → Bool
is_modifier apple swap ev m = flag (if apple then or_modifier (swap_of m swap) m else m) ev

-- By the code of the key: what it gives, and what it gives with shift.
abbrev pub code_keys : List (String × String × String)
code_keys =
    ("Backquote", "`", "~")
    ∷ ("Quote", "'", "\"")
    ∷ ("Comma", ",", "<")
    ∷ ("Minus", "-", "_")
    ∷ ("Period", ".", ">")
    ∷ ("Slash", "/", "?")
    ∷ ("Backslash", "\\", "|")
    ∷ ("Digit1", "1", "!")
    ∷ ("Digit2", "2", "@")
    ∷ ("Digit3", "3", "#")
    ∷ ("Digit4", "4", "$")
    ∷ ("Digit5", "5", "%")
    ∷ ("Digit6", "6", "^")
    ∷ ("Digit7", "7", "&")
    ∷ ("Digit8", "8", "*")
    ∷ ("Digit9", "9", "(")
    ∷ ("Digit0", "0", ")")
    ∷ []

-- The key in lower case, with the modifiers exchanged.
abbrev pub swapped_key : Bool → Swap → String → String
swapped_key apple swap key =
    if apple
    then elim (modifier_of key) [
      | none ↦ key
      | some m ↦ elim (swap_of m swap) [ none ↦ key | some n ↦ modifier_name n ]
    ]
    else key

abbrev pub live_key : KeyboardEvent → String → String
live_key ev key =
    if str_eq key "dead"
    then elim (find (λ e. str_eq (e.0) ev.code) code_keys) [
      | none ↦ key
      | some e ↦ if ev.shift_key then e.2 else e.1
    ]
    else key

-- mods += "+" + name
abbrev pub part : Bool → String → List String → List String
part true name parts = name ∷ parts
part false name parts = parts

-- The parts behind each other, each with a plus, less the first plus.
abbrev pub joined : List String → String
joined [] = ""
joined (p ∷ []) = p
joined (p ∷ q ∷ ps) = concat p (concat "+" (joined (q ∷ ps)))

-- The modifiers in their order, and the key unless it is one of them.
abbrev pub combination : Bool → Bool → Bool → Bool → String → String
combination is_ctrl is_alt is_shift is_meta key =
    let suppressed =
      is_ctrl && str_eq key "control"
      || is_alt && str_eq key "alt"
      || is_shift && str_eq key "shift"
      || is_meta && str_eq key "meta" in
    joined (
      part is_ctrl "ctrl" (
        part is_alt "alt"
          (part is_shift "shift" (part is_meta "meta" (if suppressed then [] else key ∷ [])))))

unfoldable pub get_key_combination : (String → String) → Bool → Swap → KeyboardEvent → String
get_key_combination lower apple swap ev =
    combination (is_modifier apple swap ev ctrl) (is_modifier apple swap ev alt) ev.shift_key
      (is_modifier apple swap ev meta) (live_key ev (swapped_key apple swap (lower ev.key)))
