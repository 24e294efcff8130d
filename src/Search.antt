-- ===== src/Search.antt =====
-- Searching: `searchString`, `searchStringAny`, `filterHosts`, `matchHost` and `filterArrayByText`
-- of frontend/src/common.ts, on texts as lists of UTF-16 code units. `lower` stands for
-- toLowerCase.
pub mod Range
pub mod Narrow
mod Tests
use cozyssh.Prelude.{
  ℕ, zero, suc, ◌+◌, ◌-◌, min, List, [], ◌∷◌, Option, none, some, Bool, true, false, not, ◌&&◌,
  ◌||◌, if◌then◌else◌, ltb, ◌==◌, length, take, drop, any, filter, find_index,
}
use cozyssh.SshConfig.Units.{Text, eq, is_white, starts_white, trim, split_white}
use cozyssh.SshConfig.{is_empty}
use cozyssh.Hosts.{split_first}
use cozyssh.Hosts.Lookup.{HostData}
use cozyssh.HostOrder.{starts_with}

-- s.indexOf(needle)
abbrev pub index_of : Text → Text → Option ℕ
index_of needle [] = if is_empty needle then some 0 else none
index_of needle (c ∷ s) =
    let rest = index_of needle s in
    if starts_with needle (c ∷ s) then some 0 else elim rest [ none ↦ none | some i ↦ some (suc i) ]

-- s.includes(needle)
abbrev pub includes : Text → Text → Bool
includes needle s = elim (index_of needle s) [ none ↦ false | some i ↦ true ]

-- s.substring(a, b)
abbrev pub substring : ℕ → ℕ → Text → Text
substring a b s = if ltb b a then take (a - b) (drop b s) else take (b - a) (drop a s)

abbrev pub last_index : ℕ → Text → Option ℕ
last_index d [] = none
last_index d (c ∷ s) = elim (last_index d s) [
  | some i ↦ some (suc i)
  | none ↦ if c == d then some 0 else none
]

-- The start of the snippet, and its end, for a match at `at` of `count` units.
abbrev pub snippet_start : Text → ℕ → ℕ
snippet_start input at =
    if ltb 0 (at - 40)
    then elim (find_index (λ c. c == 32) (substring (at - 40) at input)) [
      | none ↦ at - 40
      | some k ↦ at - 40 + k + 1
    ]
    else at - 40

abbrev pub snippet_end : Text → ℕ → ℕ → ℕ
snippet_end input at count =
    let end = min (length input) (at + count + 40) in
    if ltb end (length input)
    then elim (last_index 32 (substring (at + count) end input)) [
      | none ↦ end
      | some k ↦ at + count + k
    ]
    else end

-- replace(/\s+/g, " ")
unfoldable pub collapse : Text → Text
collapse [] = []
collapse (c ∷ s) =
    let rest = collapse s in
    if is_white c then if starts_white s then rest else 32 ∷ rest else c ∷ rest

unfoldable pub search_string : (Text → Text) → Text → Text → Text
unfolding collapse
search_string lower input needle =
    if is_empty input || is_empty needle then [] else elim (index_of (lower needle) (lower input)) [
      | none ↦ []
      | some at ↦ trim (
          collapse
            (substring (snippet_start input at) (snippet_end input at (length needle)) input))
    ]

-- Its first word, if the whole is not found.
unfoldable pub search_string_any : (Text → Text) → Text → Text → Text
unfolding search_string
search_string_any lower input needle =
    let found = search_string lower input needle in
    let word = elim (split_first 32 needle) as (λ x. Text) [ none ↦ needle | some e ↦ e.0 ] in
    if is_empty found then search_string lower input word else found

abbrev pub every {ℓ} : {A : Type ℓ} → (A → Bool) → List A → Bool
every p [] = true
every p (x ∷ xs) = p x && every p xs

-- A tag of the filter, without its hash.
abbrev pub tag_token : Text → Option Text
tag_token [] = none
tag_token (c ∷ []) = none
tag_token (c ∷ d ∷ s) = if c == 35 then some (d ∷ s) else none

-- The tags at the beginning, and the words behind them.
unfoldable pub split_tokens : List Text → List Text × List Text
split_tokens [] = ([], [])
split_tokens (t ∷ ts) =
    let rest = split_tokens ts in
    elim (tag_token t) [ none ↦ ([], t ∷ ts) | some tag ↦ (tag ∷ rest.0, rest.1) ]

abbrev pub has_tag : (Text → Text) → Option (List Text) → Text → Bool
has_tag lower none tag = false
has_tag lower (some ts) tag = any (λ t. eq (lower t) tag) ts

module _ {E : Type 0} (lower : Text → Text) (comment : HostData E → Text) where
  abbrev pub match_host : HostData E → Text → Bool
  match_host h word =
      includes word (lower h.name)
      || (includes word (lower h.hostname)
          || (not (is_empty (comment h)) && includes word (lower (comment h))))

  -- The test of a host: no tags of the filter, or all of them, and all words.
  abbrev pub passes : List Text × List Text → HostData E → Bool
  passes tokens h = every (has_tag lower h.tags) (tokens.0) && every (match_host h) (tokens.1)

  unfoldable pub filter_hosts : List (HostData E) → Text → List (HostData E)
  filter_hosts hosts s =
      let text = lower (trim s) in
      if is_empty text then hosts else filter (passes (split_tokens (split_white text))) hosts

module _ {ℓ} {A : Type ℓ} (lower : Text → Text) where
  unfoldable pub filter_array_by_text : List A → Text → (A → Text → Bool) → List A
  filter_array_by_text xs s matches =
      let text = lower (trim s) in
      if is_empty text then xs else filter (λ x. every (matches x) (split_white text)) xs
