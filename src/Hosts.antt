-- ===== src/Hosts.antt =====
-- Hosts: `parseHostName` and `getCanonicalHostString` of frontend/src/common.ts, on texts as lists
-- of UTF-16 code units. decodeURIComponent and encodeURIComponent are parameters; a decoding that
-- throws is none. A missing field is none.
pub mod Parse
pub mod Lookup
pub mod Found
pub mod Canonical
mod Tests
use cozyssh.Prelude.{
  ℕ, List, [], ◌∷◌, ◌++◌, Option, none, some, Bool, true, false, not, ◌||◌, if◌then◌else◌, length,
  ◌==◌, filter,
}
use cozyssh.SshConfig.Units.{Text, units, eq}
use cozyssh.SshConfig.{is_empty}

-- The text before the first, and the last, `d`, and behind it.
unfoldable pub split_first : ℕ → Text → Option (Text × Text)
split_first d [] = none
split_first d (c ∷ s) =
    let rest = split_first d s in
    if c == d then some ([], s) else elim rest [ none ↦ none | some e ↦ some (c ∷ e.0, e.1) ]

unfoldable pub split_last : ℕ → Text → Option (Text × Text)
split_last d [] = none
split_last d (c ∷ s) = elim (split_last d s) [
  | some e ↦ some (c ∷ e.0, e.1)
  | none ↦ if c == d then some ([], s) else none
]

-- text || other, where an empty text and `undefined` are false
abbrev pub or_else : Option Text → Option Text → Option Text
or_else none other = other
or_else (some s) other = if is_empty s then other else some s

abbrev pub or_default : Option Text → Text → Text
or_default none d = d
or_default (some s) d = if is_empty s then d else s

pub record ParsedHost : Type 0 where
  pub user : Option Text
  pub password : Option Text
  pub port : Option Text
  pub hostname : Text

-- The decoded text, or the text itself if decoding throws.
abbrev pub decoded : (Text → Option Text) → Text → Text
decoded decode s = elim (decode s) [ none ↦ s | some t ↦ t ]

-- The user and the password.
abbrev pub parse_user : (Text → Option Text) → Text → Text × Option Text
parse_user decode s = elim (split_first 58 s) [
  | none ↦ (decoded decode s, none)
  | some e ↦ (decoded decode (e.0), some (decoded decode (e.1)))
]

-- The port behind the closing bracket.
abbrev pub bracket_port : Text → Option Text
bracket_port [] = none
bracket_port (c ∷ s) = if c == 58 then some s else none

abbrev pub colon_count : Text → ℕ
colon_count s = length (filter (λ c. c == 58) s)

-- The host name and the port.
unfoldable pub parse_address : Text → Text × Option Text
parse_address [] = ([], none)
parse_address (c ∷ s) =
    if c == 91
    then elim (split_first 93 s) [ none ↦ (c ∷ s, none) | some e ↦ (e.0, bracket_port (e.1)) ]
    else if colon_count (c ∷ s) == 1
    then elim (split_last 58 (c ∷ s)) [ none ↦ (c ∷ s, none) | some e ↦ (e.0, some (e.1)) ]
    else (c ∷ s, none)

unfoldable pub parse_host_name : (Text → Option Text) → Option Text → Text → ParsedHost
parse_host_name decode default_user name = elim (split_last 64 name) [
  | none ↦
      let (hostname, port) = parse_address name in
      record { user = default_user; password = none; port = port; hostname = hostname }
  | some e ↦
      let (user, password) = parse_user decode (e.0) in
      let (hostname, port) = parse_address (e.1) in
      record {
        user = or_else (some user) default_user;
        password = password;
        port = port;
        hostname = hostname;
      }
]

abbrev pub is_port_22 : Option Text → Bool
is_port_22 none = false
is_port_22 (some p) = eq p (units "22")

unfoldable pub canonical_host_string :
    (Text → Text) → Option Text → Bool → Option Text → Text → Option Text → Text
canonical_host_string encode default_user always user hostname port =
    let shown = elim (or_else user default_user) as (λ x. Text) [
      | none ↦ []
      | some u ↦ if is_empty u then [] else encode u ++ units "@"
    ] in
    shown
    ++ (hostname
        ++ (if always || not (is_port_22 port)
            then units ":" ++ or_default port (units "22")
            else []))
