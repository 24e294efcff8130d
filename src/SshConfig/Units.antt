-- ===== src/SshConfig/Units.antt =====
-- Texts as lists of UTF-16 code units, with the JavaScript operations on them that
-- `getSSHConfigBlock` and `parseSSHConfigBlock` of frontend/src/common.ts use.
use Prim.Native.Char.{code}
use cozyssh.Prelude.{
  ℕ, List, [], ◌∷◌, ◌++◌, Bool, true, false, ◌&&◌, ◌||◌, String, if◌then◌else◌, leb, ◌==◌, ◌+◌,
}

abbrev pub Text : Type 0
Text = List ℕ

-- A literal.
abbrev pub units : String → Text
units String.[] = []
units (String.◌∷◌ c s) = code c ∷ units s

abbrev pub eq : Text → Text → Bool
eq [] [] = true
eq [] (d ∷ t) = false
eq (c ∷ s) [] = false
eq (c ∷ s) (d ∷ t) = c == d && eq s t

abbrev between : ℕ → ℕ → ℕ → Bool
between low high c = leb low c && leb c high

-- `\s`, and what `trim` removes.
abbrev pub is_white : ℕ → Bool
is_white c =
    between 9 13 c
    || c == 32
    || c == 160
    || c == 5760
    || between 8192 8202 c
    || between 8232 8233 c
    || c == 8239
    || c == 8287
    || c == 12288
    || c == 65279

-- A line terminator, which `.` does not match.
abbrev pub is_break : ℕ → Bool
is_break c = c == 10 || c == 13 || between 8232 8233 c

-- `[a-zA-Z0-9_]`
abbrev pub is_key : ℕ → Bool
is_key c = between 97 122 c || between 65 90 c || between 48 57 c || c == 95

-- Lower case, as far as a comparison with a word of ASCII letters needs it: no other unit than the
-- Kelvin sign becomes one.
abbrev pub lower : ℕ → ℕ
lower c = if between 65 90 c then c + 32 else if c == 8490 then 107 else c

unfoldable pub trim_start : Text → Text
trim_start [] = []
trim_start (c ∷ s) = if is_white c then trim_start s else c ∷ s

abbrev pub add_front : ℕ → Text → Text
add_front c [] = if is_white c then [] else c ∷ []
add_front c (d ∷ t) = c ∷ d ∷ t

unfoldable pub trim_end : Text → Text
trim_end [] = []
trim_end (c ∷ s) = add_front c (trim_end s)

abbrev pub trim : Text → Text
trim s = trim_end (trim_start s)

abbrev pub add_head : ℕ → List Text → List Text
add_head c [] = (c ∷ []) ∷ []
add_head c (w ∷ ws) = (c ∷ w) ∷ ws

-- split("\n")
unfoldable pub split_lines : Text → List Text
split_lines [] = [] ∷ []
split_lines (c ∷ s) = let rest = split_lines s in if c == 10 then [] ∷ rest else add_head c rest

-- The text goes on with a line feed.
abbrev pub at_feed : Text → Bool
at_feed [] = false
at_feed (c ∷ s) = c == 10

-- split(/\r?\n/)
unfoldable pub split_breaks : Text → List Text
split_breaks [] = [] ∷ []
split_breaks (c ∷ s) =
    let rest = split_breaks s in
    if c == 10 then [] ∷ rest else if c == 13 && at_feed s then rest else add_head c rest

abbrev pub starts_white : Text → Bool
starts_white [] = false
starts_white (c ∷ s) = is_white c

-- split(/\s+/)
unfoldable pub split_white : Text → List Text
split_white [] = [] ∷ []
split_white (c ∷ s) =
    let rest = split_white s in
    if is_white c then if starts_white s then rest else [] ∷ rest else add_head c rest

unfoldable pub join : Text → List Text → Text
join sep [] = []
join sep (w ∷ []) = w
join sep (w ∷ v ∷ ws) = w ++ (sep ++ join sep (v ∷ ws))
