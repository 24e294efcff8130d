-- ===== src/Search/Tests.antt =====
-- Tests of searching, and a concrete case of each theorem (frontend/src/common.ts).
use cozyssh.Prelude.{
  ℕ, ◌+◌, ◌≡◌, ◌≤◌, refl, List, [], ◌∷◌, ◌++◌, map, none, some, false, filter, length,
}
use cozyssh.SshConfig.Units.{Text, units, lower, trim, trim_start, trim_end, split_white}
use cozyssh.Hosts.Lookup.{HostData}
use cozyssh.Search.{search_string, collapse, substring, filter_hosts, match_host, split_tokens}
use cozyssh.Search.Range.{search_string_lem}
use cozyssh.Search.Narrow.{filter_hosts-word}

abbrev small : Text → Text
small = map lower

abbrev host : Text → Text → Text → HostData ℕ
host name hostname tag = record {
  name = name;
  hostname = hostname;
  user = units "root";
  port = units "22";
  password = none;
  tags = some (tag ∷ []);
  is_auto = false;
  is_favourite = false;
  rest = 0;
}

abbrev no_comment : HostData ℕ → Text
no_comment h = []

abbrev hosts : List (HostData ℕ)
hosts =
    host (units "Git") (units "git.example.com") (units "Red")
    ∷ host (units "web") (units "www.example.com") (units "red")
    ∷ host (units "mail") (units "mx.example.com") (units "blue")
    ∷ []

red_hosts :
    map (λ h. h.name) (filter_hosts small no_comment hosts (units " #red Example"))
    ≡ units "Git" ∷ units "web" ∷ []
unfolding filter_hosts trim_start trim_end split_white split_tokens
red_hosts = refl

low : small (trim (units "#red example")) ≡ units "#red example"
unfolding trim_start trim_end
low = refl

low_word :
    small (trim (units "#red example" ++ 32 ∷ units "git"))
    ≡ units "#red example" ++ 32 ∷ units "git"
unfolding trim_start trim_end
low_word = refl

filter_hosts-word_example :
    filter_hosts small no_comment hosts (units "#red example" ++ 32 ∷ units "git")
    ≡ filter
        (λ h. match_host small no_comment h (units "git"))
        (filter_hosts small no_comment hosts (units "#red example"))
filter_hosts-word_example =
    filter_hosts-word small no_comment hosts (units "#red example") (units "git") low low_word refl
      refl refl refl

-- The match is in the middle of a line.
abbrev line : Text
line = units "that among these are Life, Liberty and the pursuit of Happiness"

snippet : search_string small line (units "LIBERTY") ≡ line
unfolding search_string collapse trim_start trim_end
snippet = refl

search_string_lem_example :
    (from to : ℕ) × (search_string small line (units "LIBERTY")
      ≡ trim (collapse (substring from to line)))
    × (from ≤ 27)
    × (27 ≤ from + 40)
    × (34 ≤ to)
    × (to ≤ 74)
    × (to ≤ length line)
search_string_lem_example =
    search_string_lem small line (units "LIBERTY") 27 refl refl refl refl refl
