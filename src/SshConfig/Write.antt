-- ===== src/SshConfig/Write.antt =====
-- `getSSHConfigBlock` of frontend/src/common.ts, and the host name of `parseHostName`. The last
-- test of the block never holds: every line ends with a line feed.
use cozyssh.Prelude.{
  ℕ, List, [], ◌∷◌, ◌++◌, map, Option, none, some, not, ◌&&◌, if◌then◌else◌, length, ◌==◌, filter,
}
use cozyssh.SshConfig.Units.{Text, units, eq, trim, split_lines, split_white, join}
use cozyssh.SshConfig.{Tags, written, listed, Host, is_empty, starts, hash, feed}

-- Behind the last "@", or the whole.
unfoldable pub behind_at : Text → Option Text
behind_at [] = none
behind_at (c ∷ s) = elim (behind_at s) [ some t ↦ some t | none ↦ if c == 64 then some s else none ]

unfoldable pub before : ℕ → Text → Option Text
before d [] = none
before d (c ∷ s) =
    let rest = before d s in
    if c == d then some [] else elim rest [ none ↦ none | some t ↦ some (c ∷ t) ]

abbrev or_whole : Option Text → Text → Text
or_whole none s = s
or_whole (some t) s = t

-- `parseHostName(name).hostname`: what stands in brackets, or before the colon if there is just one.
unfoldable pub hostname_part : Text → Text
hostname_part [] = []
hostname_part (c ∷ s) =
    if c == 91
    then or_whole (before 93 s) (c ∷ s)
    else if length (filter (λ d. d == 58) (c ∷ s)) == 1
    then or_whole (before 58 (c ∷ s)) (c ∷ s)
    else c ∷ s

abbrev pub hostname_of : Text → Text
hostname_of name = hostname_part (or_whole (behind_at name) name)

abbrev comment_lines : Text → Text
comment_lines comment =
    if is_empty comment
    then []
    else join feed (map (λ c. units "### " ++ c) (split_lines (trim comment))) ++ feed

abbrev tag_list : Tags → List Text
tag_list (written s) = filter (λ w. not (is_empty w)) (split_white (trim s))
tag_list (listed tags) = tags

unfoldable pub tag_line : List Text → Text
tag_line [] = []
tag_line (t ∷ ts) = (units "### " ++ join (units " ") (map (λ w. hash ∷ w) (t ∷ ts))) ++ feed

-- A keyword with its value.
abbrev pub line : Text → Text → Text
line key v = units "    " ++ (key ++ (units " " ++ (v ++ feed)))

abbrev pub option_line : Text → Text → Text
option_line key v = if is_empty v then [] else line key v

unfoldable pub forwards : Text → List Text
forwards s = filter (λ f. not (is_empty f) && not (starts hash f)) (map trim (split_lines s))

unfoldable pub forward_lines : Text → List Text → Text
forward_lines key [] = []
forward_lines key (f ∷ fs) = line key f ++ forward_lines key fs

-- block += part, for each part.
unfoldable pub add_up : List Text → Text
add_up [] = []
add_up (part ∷ parts) = part ++ add_up parts

unfoldable pub get_ssh_config_block : Host → Text
unfolding forward_lines tag_line forwards add_up
get_ssh_config_block h = add_up (
    comment_lines h.comment
    ∷ tag_line (tag_list h.tags)
    ∷ (units "Host " ++ ((if is_empty h.name then h.hostname else hostname_of h.name) ++ feed))
    ∷ line (units "HostName") h.hostname
    ∷ option_line (units "User") h.user
    ∷ (if eq h.port (units "22") then [] else option_line (units "Port") h.port)
    ∷ option_line (units "IdentityFile") h.identity_file
    ∷ option_line (units "ProxyJump") h.proxy_jump
    ∷ option_line (units "RemoteCommand") h.remote_command
    ∷ option_line (units "AddressFamily") h.address_family
    ∷ option_line (units "UserKnownHostsFile") h.user_known_hosts_file
    ∷ option_line (units "StrictHostKeyChecking") h.strict_host_key_checking
    ∷ option_line (units "HostKeyAlgorithms") h.host_key_algorithms
    ∷ option_line (units "SendEnv") h.send_env
    ∷ forward_lines (units "LocalForward") (forwards h.local_forward)
    ∷ forward_lines (units "RemoteForward") (forwards h.remote_forward)
    ∷ forward_lines (units "DynamicForward") (forwards h.dynamic_forward)
    ∷ [])
