-- ===== src/SshConfig.antt =====
-- `getSSHConfigBlock` and `parseSSHConfigBlock` of frontend/src/common.ts: a host as a block of an
-- OpenSSH configuration, and back. An `undefined` or empty field is the empty text.
pub mod Units
pub mod Write
pub mod Read
pub mod Lines
pub mod Options
pub mod Words
pub mod Reads
pub mod Block
pub mod Missing
pub mod RoundTrip
mod Tests
use cozyssh.Prelude.{
  ℕ, zero, suc, ◌+◌, List, [], ◌∷◌, ◌++◌, map, Option, none, some, Bool, true, false, not, ◌&&◌,
  ◌||◌, if◌then◌else◌, ltb, length, ◌==◌, any, filter, find,
}
use cozyssh.SshConfig.Units.{
  Text, units, eq, is_break, is_key, is_white, lower, trim, trim_start, split_lines, split_breaks,
  split_white, join,
}

-- The tags as they are written in the form, or as a list.
pub data Tags : Type 0 where
  written : Text → Tags
  listed : List Text → Tags

pub record Host : Type 0 where
  pub name : Text
  pub hostname : Text
  pub user : Text
  pub port : Text
  pub identity_file : Text
  pub proxy_jump : Text
  pub remote_command : Text
  pub address_family : Text
  pub user_known_hosts_file : Text
  pub strict_host_key_checking : Text
  pub host_key_algorithms : Text
  pub verify_host_key_dns : Text
  pub send_env : Text
  pub local_forward : Text
  pub remote_forward : Text
  pub dynamic_forward : Text
  pub comment : Text
  pub tags : Tags

abbrev pub is_empty : Text → Bool
is_empty [] = true
is_empty (c ∷ s) = false

abbrev pub or_text : Text → Text → Text
or_text s other = if is_empty s then other else s

abbrev pub starts : ℕ → Text → Bool
starts d [] = false
starts d (c ∷ s) = c == d

-- The hash, which starts a comment, and the line feed.
abbrev pub hash : ℕ
hash = 35

abbrev pub feed : Text
feed = 10 ∷ []
