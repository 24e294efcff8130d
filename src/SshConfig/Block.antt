-- ===== src/SshConfig/Block.antt =====
-- The hosts that a block can hold, and the parts of their blocks (frontend/src/common.ts).
use cozyssh.Prelude.{
  ◌≡◌, refl, sym, ap, inl, inr, ◌⊎◌, List, [], ◌∷◌, ◌++◌, true, false, if◌then◌else◌, any,
  Bool-cases, All,
}
use cozyssh.SshConfig.{Host, listed, or_text, feed}
use cozyssh.SshConfig.Units.{Text, units, is_white, eq, join}
use cozyssh.SshConfig.Write.{
  line, option_line, forward_lines, tag_line, add_up, get_ssh_config_block, hostname_of,
}
use cozyssh.SshConfig.Read.{is_one_of, families, answers}
use cozyssh.SshConfig.Lines.{IsValue}
use cozyssh.SshConfig.Options.{IsOption, eq_sound}
use cozyssh.SshConfig.Words.{IsWord, IsForward, forwards-join}

-- A host that a block can hold: its values fit on a line, its name is one word and no address with a
-- user or a port, its tags are words, its forwards are one on a line, and it has no comment.
pub record IsWritable (h : Host) (ls rs ds ts : List Text) : Type 0 where
  pub name : IsValue h.name
  pub one_word : any is_white h.name ≡ false
  pub plain : hostname_of h.name ≡ h.name
  pub hostname : IsValue h.hostname
  pub user : IsOption h.user
  pub port : IsOption h.port
  pub identity_file : IsOption h.identity_file
  pub proxy_jump : IsOption h.proxy_jump
  pub remote_command : IsOption h.remote_command
  pub address_family : IsOption h.address_family
  pub family : (h.address_family ≡ []) ⊎ (is_one_of families h.address_family ≡ true)
  pub user_known_hosts_file : IsOption h.user_known_hosts_file
  pub strict : IsOption h.strict_host_key_checking
  pub answer :
      (h.strict_host_key_checking ≡ []) ⊎ (is_one_of answers h.strict_host_key_checking ≡ true)
  pub host_key_algorithms : IsOption h.host_key_algorithms
  pub send_env : IsOption h.send_env
  pub local_forward : h.local_forward ≡ join feed ls
  pub locals : All IsForward ls
  pub remote_forward : h.remote_forward ≡ join feed rs
  pub remotes : All IsForward rs
  pub dynamic_forward : h.dynamic_forward ≡ join feed ds
  pub dynamics : All IsForward ds
  pub tags : h.tags ≡ listed ts
  pub words : All IsWord ts
  pub comment : h.comment ≡ []

-- The port that is written: the default one is not.
abbrev pub port_of : Text → Text
port_of p = if eq p (units "22") then [] else p

port_line :
    (key p : Text)
    → (if eq p (units "22") then [] else option_line key p) ≡ option_line key (port_of p)
port_line key p = elim (Bool-cases (eq p (units "22"))) [ inl e ↦ rw e refl | inr e ↦ rw e refl ]

pub port_read : (p : Text) → or_text (port_of p) (units "22") ≡ or_text p (units "22")
port_read p = elim (Bool-cases (eq p (units "22"))) [
  | inl e ↦ rw e (ap (λ q. or_text q (units "22")) (sym (eq_sound p (units "22") e)))
  | inr e ↦ rw e refl
]

pub port_of-IsOption : (p : Text) → IsOption p → IsOption (port_of p)
port_of-IsOption p o = elim (Bool-cases (eq p (units "22"))) [
  | inl e ↦ rw e (inl refl)
  | inr e ↦ rw e o
]

module _ (h : Host) (ls rs ds ts : List Text) (w : IsWritable h ls rs ds ts) where
  -- The parts of the block.
  unfoldable pub parts : List Text
  parts =
      tag_line ts
      ∷ (units "Host " ++ (h.name ++ feed))
      ∷ line (units "HostName") h.hostname
      ∷ option_line (units "User") h.user
      ∷ option_line (units "Port") (port_of h.port)
      ∷ option_line (units "IdentityFile") h.identity_file
      ∷ option_line (units "ProxyJump") h.proxy_jump
      ∷ option_line (units "RemoteCommand") h.remote_command
      ∷ option_line (units "AddressFamily") h.address_family
      ∷ option_line (units "UserKnownHostsFile") h.user_known_hosts_file
      ∷ option_line (units "StrictHostKeyChecking") h.strict_host_key_checking
      ∷ option_line (units "HostKeyAlgorithms") h.host_key_algorithms
      ∷ option_line (units "SendEnv") h.send_env
      ∷ forward_lines (units "LocalForward") ls
      ∷ forward_lines (units "RemoteForward") rs
      ∷ forward_lines (units "DynamicForward") ds
      ∷ []

  pub get-parts : get_ssh_config_block h ≡ add_up parts
  unfolding get_ssh_config_block add_up parts
  get-parts =
      rw
        (
          w.comment,
          w.tags,
          w.name.some_unit,
          w.plain,
          port_line (units "Port") h.port,
          w.local_forward,
          forwards-join ls w.locals,
          w.remote_forward,
          forwards-join rs w.remotes,
          w.dynamic_forward,
          forwards-join ds w.dynamics,
        )
        refl
