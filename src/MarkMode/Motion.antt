-- ===== src/MarkMode/Motion.antt =====
-- The vim-like word motions of frontend/src/markMode.ts: `w`, `b` and `e` and their big-word
-- variants. A `while` loop takes fuel, and `none` says that the fuel ran out.
pub mod Order
pub mod Walk
pub mod Groups
pub mod NextWord
pub mod Words
use cozyssh.Prelude.{
  ℕ, zero, suc, ◌+◌, ◌-◌, ◌*◌, List, [], ◌∷◌, Option, none, some, Bool, true, false, ◌&&◌, ◌||◌,
  ltb, leb, ◌==◌, if◌then◌else◌,
}
use cozyssh.Prelude.Int.{pos}
use cozyssh.MarkMode.Terminal.{Terminal, MarkModePosition, last_position}

pub data CharClass : Type 0 where
  whitespace keyword punctuation : CharClass

abbrev pub class_eq : CharClass → CharClass → Bool
class_eq whitespace whitespace = true
class_eq keyword keyword = true
class_eq punctuation punctuation = true
class_eq _ _ = false

-- `""` where the line or the cell is `undefined`.
unfoldable pub get_char : Terminal → MarkModePosition → List ℕ
get_char term p = elim (term.get_line (pos p.row)) [
  | none ↦ []
  | some line ↦ elim (line.get_cell p.col) [ none ↦ [] | some chars ↦ chars ]
]

-- `!char || char === " " || char === "\t" || char === "\0"`
abbrev is_blank : List ℕ → Bool
is_blank [] = true
is_blank (c ∷ []) = c == b' ' || c == 9 || c == 0
is_blank (c ∷ d ∷ cs) = false

-- `/^[a-zA-Z0-9_]$/`
abbrev is_word_char : List ℕ → Bool
is_word_char [] = false
is_word_char (c ∷ []) =
    leb b'a' c && leb c b'z' || leb b'A' c && leb c b'Z' || leb b'0' c && leb c b'9' || c == b'_'
is_word_char (c ∷ d ∷ cs) = false

unfoldable pub get_char_class : List ℕ → Bool → CharClass
get_char_class char big_word =
    if is_blank char
    then whitespace
    else if big_word
    then keyword
    else if is_word_char char
    then keyword
    else punctuation

unfoldable pub next_pos : Terminal → MarkModePosition → Option MarkModePosition
next_pos term p =
    if ltb p.col (term.cols - 1)
    then some (record { col = p.col + 1; row = p.row })
    else if ltb p.row (term.length - 1)
    then some (record { col = 0; row = p.row + 1 })
    else none

unfoldable pub prev_pos : Terminal → MarkModePosition → Option MarkModePosition
prev_pos term p =
    if ltb 0 p.col
    then some (record { col = p.col - 1; row = p.row })
    else if ltb 0 p.row
    then some (record { col = term.cols - 1; row = p.row - 1 })
    else none

-- The class of the character at a position.
abbrev pub class_at : Terminal → Bool → MarkModePosition → CharClass
class_at term big_word p = get_char_class (get_char term p) big_word

-- The two loops, over the step (`nextPos` or `prevPos`) and the test of the loop.
module _ (step : MarkModePosition → Option MarkModePosition) (test : MarkModePosition → Bool) where
  -- while (p && test(p)) p = step(p);
  pub skip : ℕ → Option MarkModePosition → Option (Option MarkModePosition)
  skip fuel none = some none
  skip zero (some p) = none
  skip (suc fuel) (some p) = elim (test p) [ true ↦ skip fuel (step p) | false ↦ some (some p) ]

  -- let next = step(p); while (next && test(next)) { p = next; next = step(p); }
  pub advance : ℕ → MarkModePosition → Option MarkModePosition
  advance zero p = none
  advance (suc fuel) p = elim (step p) [
    | none ↦ some p
    | some q ↦ elim (test q) [ true ↦ advance fuel q | false ↦ some p ]
  ]

-- A walk meets each cell at most once, and ends with one more test.
abbrev pub walk_fuel : Terminal → ℕ
walk_fuel term = term.length * term.cols + 1

infixl 5 ◌>>=◌
abbrev pub ◌>>=◌ {ℓ κ} : {A : Type ℓ} {B : Type κ} → Option A → (A → Option B) → Option B
none >>= f = none
some a >>= f = f a

abbrev pub or_else {ℓ} : {A : Type ℓ} → Option A → A → A
or_else none d = d
or_else (some a) d = a

module _ (term : Terminal) (current : MarkModePosition) (big_word : Bool) where
  -- The two loops behind `if (!p) return current`.
  skip_word : MarkModePosition → Option (Option MarkModePosition)
  skip_word first =
      let start_class = class_at term big_word current in
      if class_eq start_class whitespace
      then some (some first)
      else skip (next_pos term) (λ p. class_eq (class_at term big_word p) start_class)
          (walk_fuel term) (some first)

  skip_blank : Option MarkModePosition → Option (Option MarkModePosition)
  skip_blank =
      skip (next_pos term) (λ p. class_eq (class_at term big_word p) whitespace) (walk_fuel term)

  pub next_word_from : MarkModePosition → Option MarkModePosition
  unfolding skip_word skip_blank
  next_word_from first = do
    p ← skip_word first
    q ← skip_blank p
    some (or_else q (last_position term))

  unfoldable pub find_next_word_position : Option MarkModePosition
  unfolding next_word_from
  find_next_word_position = elim (next_pos term current) [
    | none ↦ some current
    | some first ↦ next_word_from first
  ]

  -- `findPrevWordPosition` and `findEndOfWordPosition` behind the first `if`, over the step, in two
  -- parts: to the word, and to its end. `edge` is where they stop if there is no word.
  pub word_group_end :
      (MarkModePosition → Option MarkModePosition)
      → MarkModePosition
      → Option MarkModePosition
      → Option MarkModePosition
  word_group_end step edge none = some edge
  word_group_end step edge (some p) =
      advance step (λ q. class_eq (class_at term big_word q) (class_at term big_word p))
        (walk_fuel term) p

  pub word_group_from :
      (MarkModePosition → Option MarkModePosition)
      → MarkModePosition
      → MarkModePosition
      → Option MarkModePosition
  unfolding word_group_end
  word_group_from step edge first = do
    let blank = λ (p : MarkModePosition). class_eq (class_at term big_word p) whitespace
    found ← skip step blank (walk_fuel term) (some first)
    word_group_end step edge found

  unfoldable pub find_prev_word_position : Option MarkModePosition
  unfolding word_group_from
  find_prev_word_position = elim (prev_pos term current) [
    | none ↦ some current
    | some first ↦ word_group_from (prev_pos term) (record { col = 0; row = 0 }) first
  ]

  unfoldable pub find_end_of_word_position : Option MarkModePosition
  unfolding word_group_from
  find_end_of_word_position = elim (next_pos term current) [
    | none ↦ some current
    | some first ↦ word_group_from (next_pos term) (last_position term) first
  ]
