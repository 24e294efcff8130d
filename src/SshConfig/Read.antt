-- ===== src/SshConfig/Read.antt =====
-- `parseSSHConfigBlock` of frontend/src/common.ts.
use cozyssh.Prelude.{
  ℕ, List, [], ◌∷◌, ◌++◌, map, Option, none, some, Bool, false, not, ◌&&◌, ◌||◌, if◌then◌else◌, ltb,
  length, ◌==◌, any, filter, find,
}
use cozyssh.SshConfig.Units.{
  Text, units, eq, is_break, is_key, lower, trim, trim_start, split_breaks, split_white, join,
}
use cozyssh.SshConfig.{listed, Host, is_empty, or_text, starts, hash, feed}

-- The keywords of the `switch`.
pub data Field : Type 0 where
  host hostname user port identity_file proxy_jump remote_command : Field
  address_family user_known_hosts_file strict_host_key_checking host_key_algorithms : Field
  verify_host_key_dns send_env local_forward remote_forward dynamic_forward : Field

abbrev pub fields : List (Text × Field)
fields =
    (units "host", Field.host)
    ∷ (units "hostname", Field.hostname)
    ∷ (units "user", Field.user)
    ∷ (units "port", Field.port)
    ∷ (units "identityfile", Field.identity_file)
    ∷ (units "proxyjump", Field.proxy_jump)
    ∷ (units "remotecommand", Field.remote_command)
    ∷ (units "addressfamily", Field.address_family)
    ∷ (units "userknownhostsfile", Field.user_known_hosts_file)
    ∷ (units "stricthostkeychecking", Field.strict_host_key_checking)
    ∷ (units "hostkeyalgorithms", Field.host_key_algorithms)
    ∷ (units "verifyhostkeydns", Field.verify_host_key_dns)
    ∷ (units "sendenv", Field.send_env)
    ∷ (units "localforward", Field.local_forward)
    ∷ (units "remoteforward", Field.remote_forward)
    ∷ (units "dynamicforward", Field.dynamic_forward)
    ∷ []

abbrev pub field_of : Text → Option Field
field_of key = elim (find (λ e. eq key (e.0)) fields) [ none ↦ none | some e ↦ some (e.1) ]

-- The variables of `parseSSHConfigBlock`: those of the host, and the lists.
pub record Parsed : Type 0 where
  pub read : Host
  pub local_forwards : List Text
  pub remote_forwards : List Text
  pub dynamic_forwards : List Text
  pub tag_words : List Text

abbrev pub first : List Text → Text
first [] = []
first (w ∷ ws) = w

abbrev pub is_one_of : List Text → Text → Bool
is_one_of words w = any (eq w) words

abbrev pub families : List Text
families = units "any" ∷ units "inet" ∷ units "inet6" ∷ []

abbrev pub answers : List Text
answers = units "yes" ∷ units "no" ∷ units "ask" ∷ []

-- A value that is not one of the words leaves the variable as it is.
abbrev pub choice : List Text → Text → Text → Text
choice words val old = let v = map lower val in if is_one_of words v then v else old

unfoldable pub assign : Field → Text → Parsed → Parsed
assign Field.host v p = record p { read = record (p.read) { name = first (split_white v) } }
assign Field.hostname v p = record p { read = record (p.read) { hostname = v } }
assign Field.user v p = record p { read = record (p.read) { user = v } }
assign Field.port v p = record p { read = record (p.read) { port = v } }
assign Field.identity_file v p = record p { read = record (p.read) { identity_file = v } }
assign Field.proxy_jump v p = record p { read = record (p.read) { proxy_jump = v } }
assign Field.remote_command v p = record p { read = record (p.read) { remote_command = v } }
assign Field.address_family v p = record p {
  read = record (p.read) { address_family = choice families v p.read.address_family };
}
assign Field.user_known_hosts_file v p = record p {
  read = record (p.read) { user_known_hosts_file = v };
}
assign Field.strict_host_key_checking v p = record p {
  read = record (p.read) {
    strict_host_key_checking = choice answers v p.read.strict_host_key_checking;
  };
}
assign Field.host_key_algorithms v p = record p {
  read = record (p.read) { host_key_algorithms = v };
}
assign Field.verify_host_key_dns v p = record p {
  read = record (p.read) { verify_host_key_dns = choice answers v p.read.verify_host_key_dns };
}
assign Field.send_env v p = record p { read = record (p.read) { send_env = v } }
assign Field.local_forward v p = record p { local_forwards = p.local_forwards ++ v ∷ [] }
assign Field.remote_forward v p = record p { remote_forwards = p.remote_forwards ++ v ∷ [] }
assign Field.dynamic_forward v p = record p { dynamic_forwards = p.dynamic_forwards ++ v ∷ [] }

abbrev pub skip_equals : Text → Text
skip_equals [] = []
skip_equals (c ∷ s) = if c == 61 then s else c ∷ s

abbrev last_is : ℕ → Text → Bool
last_is d [] = false
last_is d (c ∷ []) = c == d
last_is d (c ∷ e ∷ s) = last_is d (e ∷ s)

abbrev but_last : Text → Text
but_last [] = []
but_last (c ∷ []) = []
but_last (c ∷ e ∷ s) = c ∷ but_last (e ∷ s)

-- slice(1, -1)
abbrev inner : Text → Text
inner [] = []
inner (c ∷ s) = but_last s

abbrev pub unquote : Text → Text
unquote v = if starts 34 v && last_is 34 v then inner v else v

unfoldable pub key_of : Text → Text × Text
key_of [] = ([], [])
key_of (c ∷ s) = let (k, rest) = key_of s in if is_key c then (c ∷ k, rest) else ([], c ∷ s)

-- The match of /^([a-zA-Z0-9_]+)\s*=?\s*(.*)$/, with the key in lower case and the value without
-- quotes.
unfoldable pub read_line : Text → Option (Text × Text)
unfolding key_of
read_line s =
    let (key, rest) = key_of s in
    let value = trim_start (skip_equals (trim_start rest)) in
    if is_empty key || any is_break value then none else some (map lower key, unquote (trim value))

unfoldable pub assign_line : Option (Text × Text) → Parsed → Parsed
assign_line none p = p
assign_line (some (key, v)) p = elim (field_of key) [ none ↦ p | some f ↦ assign f v p ]

abbrev pub skip_hashes : Text → Text
skip_hashes [] = []
skip_hashes (c ∷ s) = if c == hash then skip_hashes s else c ∷ s

-- A word of a comment is a tag, without its hash, or not.
abbrev pub tags_of : List Text → List Text
tags_of [] = []
tags_of (w ∷ ws) = elim w [
  | [] ↦ tags_of ws
  | c ∷ t ↦ if c == hash && not (is_empty t) then t ∷ tags_of ws else tags_of ws
]

abbrev pub is_tag : Text → Bool
is_tag w = starts hash w && ltb 1 (length w)

abbrev pub add_comment : Text → List Text → Text
add_comment comment [] = comment
add_comment comment (w ∷ ws) =
    (if is_empty comment then [] else comment ++ feed) ++ join (units " ") (w ∷ ws)

abbrev pub read_comment : Text → Parsed → Parsed
read_comment content p = if is_empty content then p else record p {
  read = record (p.read) {
    comment = add_comment p.read.comment (filter (λ w. not (is_tag w)) (split_white content));
  };
  tag_words = p.tag_words ++ tags_of (split_white content);
}

-- One round of the loop.
unfoldable pub scan_line : Text → Parsed → Parsed
scan_line text p =
    let trimmed = trim text in
    if is_empty trimmed
    then p
    else if starts hash trimmed
    then read_comment (trim (trim_start (skip_hashes trimmed))) p
    else assign_line (read_line trimmed) p

unfoldable pub scan : List Text → Parsed → Parsed
scan [] p = p
scan (l ∷ ls) p = scan ls (scan_line l p)

abbrev pub blank : Parsed
blank = record {
  read = record {
    name = [];
    hostname = [];
    user = [];
    port = [];
    identity_file = [];
    proxy_jump = [];
    remote_command = [];
    address_family = [];
    user_known_hosts_file = [];
    strict_host_key_checking = [];
    host_key_algorithms = [];
    verify_host_key_dns = [];
    send_env = [];
    local_forward = [];
    remote_forward = [];
    dynamic_forward = [];
    comment = [];
    tags = listed [];
  };
  local_forwards = [];
  remote_forwards = [];
  dynamic_forwards = [];
  tag_words = [];
}

-- `none` is the exception of a missing host name.
abbrev pub finish : Parsed → Option Host
finish p =
    if is_empty p.read.hostname
    then none
    else some (record (p.read) {
      name = or_text p.read.name p.read.hostname;
      port = or_text p.read.port (units "22");
      local_forward = join feed p.local_forwards;
      remote_forward = join feed p.remote_forwards;
      dynamic_forward = join feed p.dynamic_forwards;
      tags = listed p.tag_words;
    })

unfoldable pub parse_ssh_config_block : Text → Option Host
unfolding scan
parse_ssh_config_block text = finish (scan (split_breaks text) blank)
