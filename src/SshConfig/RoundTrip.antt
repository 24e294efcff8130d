-- ===== src/SshConfig/RoundTrip.antt =====
-- `parseSSHConfigBlock` reads what `getSSHConfigBlock` writes (frontend/src/common.ts).
use cozyssh.Prelude.{ltb, ℕ, ◌≡◌, refl, ap, ◌∙◌, List, [], if◌then◌else◌, some}
use cozyssh.SshConfig.{Host, or_text}
use cozyssh.SshConfig.Units.{Text, units, split_breaks, split_white}
use cozyssh.SshConfig.Write.{add_up, get_ssh_config_block}
use cozyssh.SshConfig.Read.{
  families, answers, Parsed, assign, scan, blank, Field, finish, first, parse_ssh_config_block,
  choice,
}
use cozyssh.SshConfig.Options.{host_line, line_lem, option_line_lem, forward_lines_lem, choice_lem}
use cozyssh.SshConfig.Words.{tag_line_lem, split_white-word, IsForward-values}
use cozyssh.SshConfig.Reads.{
  ReadsAll, scan-nothing, scan-add_up, assign_all-local, assign_all-remote, assign_all-dynamic,
}
use cozyssh.SshConfig.Block.{IsWritable, port_of, port_of-IsOption, port_read, parts, get-parts}

module _ (h : Host) (ls rs ds ts : List Text) (w : IsWritable h ls rs ds ts) where
  -- What the loop has read after the first `k` parts.
  after : {A : Type 0} → ℕ → ℕ → List A → List A
  after k j x = if ltb j k then x else []

  read_until : ℕ → Parsed
  unfolding after
  read_until k = record blank {
    read = record (blank.read) {
      name = after k 1 (first (split_white h.name));
      hostname = after k 2 h.hostname;
      user = after k 3 h.user;
      port = after k 4 (port_of h.port);
      identity_file = after k 5 h.identity_file;
      proxy_jump = after k 6 h.proxy_jump;
      remote_command = after k 7 h.remote_command;
      address_family = after k 8 (choice families h.address_family []);
      user_known_hosts_file = after k 9 h.user_known_hosts_file;
      strict_host_key_checking = after k 10 (choice answers h.strict_host_key_checking []);
      host_key_algorithms = after k 11 h.host_key_algorithms;
      send_env = after k 12 h.send_env;
    };
    local_forwards = after k 13 ls;
    remote_forwards = after k 14 rs;
    dynamic_forwards = after k 15 ds;
    tag_words = after k 0 ts;
  }

  reads_parts : ReadsAll (parts h ls rs ds ts w) (read_until 0) (read_until 16)
  unfolding parts read_until after assign
  reads_parts = (
    read_until 1,
    λ rest. tag_line_lem ts rest (read_until 0) w.words,
    (
      read_until 2,
      λ rest. host_line h.name rest (read_until 1) w.name,
      (
        read_until 3,
        λ rest.
            line_lem (units "HostName") Field.hostname (refl, refl, refl, refl, refl) refl
              h.hostname rest (read_until 2) w.hostname,
        (
          read_until 4,
          λ rest.
              option_line_lem (units "User") Field.user (refl, refl, refl, refl, refl) refl h.user
                rest (read_until 3) w.user refl,
          (
            read_until 5,
            λ rest.
                option_line_lem (units "Port") Field.port (refl, refl, refl, refl, refl) refl
                  (port_of h.port) rest (read_until 4) (port_of-IsOption h.port w.port) refl,
            (
              read_until 6,
              λ rest.
                  option_line_lem (units "IdentityFile") Field.identity_file
                    (refl, refl, refl, refl, refl) refl h.identity_file rest (read_until 5)
                    w.identity_file refl,
              (
                read_until 7,
                λ rest.
                    option_line_lem (units "ProxyJump") Field.proxy_jump
                      (refl, refl, refl, refl, refl) refl h.proxy_jump rest (read_until 6)
                      w.proxy_jump refl,
                (
                  read_until 8,
                  λ rest.
                      option_line_lem (units "RemoteCommand") Field.remote_command
                        (refl, refl, refl, refl, refl) refl h.remote_command rest (read_until 7)
                        w.remote_command refl,
                  (
                    read_until 9,
                    λ rest.
                        option_line_lem (units "AddressFamily") Field.address_family
                          (refl, refl, refl, refl, refl) refl h.address_family rest (read_until 8)
                          w.address_family refl,
                    (
                      read_until 10,
                      λ rest.
                          option_line_lem (units "UserKnownHostsFile") Field.user_known_hosts_file
                            (refl, refl, refl, refl, refl) refl h.user_known_hosts_file rest
                            (read_until 9) w.user_known_hosts_file refl,
                      (
                        read_until 11,
                        λ rest.
                            option_line_lem (units "StrictHostKeyChecking")
                              Field.strict_host_key_checking (refl, refl, refl, refl, refl) refl
                              h.strict_host_key_checking rest (read_until 10) w.strict refl,
                        (
                          read_until 12,
                          λ rest.
                              option_line_lem (units "HostKeyAlgorithms") Field.host_key_algorithms
                                (refl, refl, refl, refl, refl) refl h.host_key_algorithms rest
                                (read_until 11) w.host_key_algorithms refl,
                          (
                            read_until 13,
                            λ rest.
                                option_line_lem (units "SendEnv") Field.send_env
                                  (refl, refl, refl, refl, refl) refl h.send_env rest
                                  (read_until 12) w.send_env refl,
                            (
                              read_until 14,
                              λ rest.
                                  forward_lines_lem (units "LocalForward") Field.local_forward
                                    (refl, refl, refl, refl, refl) refl ls rest (read_until 13)
                                    (IsForward-values ls w.locals)
                                  ∙ ap (scan (split_breaks rest))
                                      (assign_all-local ls (read_until 13)),
                              (
                                read_until 15,
                                λ rest.
                                    forward_lines_lem (units "RemoteForward") Field.remote_forward
                                      (refl, refl, refl, refl, refl) refl rs rest (read_until 14)
                                      (IsForward-values rs w.remotes)
                                    ∙ ap (scan (split_breaks rest))
                                        (assign_all-remote rs (read_until 14)),
                                (
                                  read_until 16,
                                  λ rest.
                                      forward_lines_lem (units "DynamicForward")
                                        Field.dynamic_forward (refl, refl, refl, refl, refl) refl ds
                                        rest (read_until 15) (IsForward-values ds w.dynamics)
                                      ∙ ap (scan (split_breaks rest))
                                          (assign_all-dynamic ds (read_until 15)),
                                  refl,
                                ),
                              ),
                            ),
                          ),
                        ),
                      ),
                    ),
                  ),
                ),
              ),
            ),
          ),
        ),
      ),
    ),
  )

  read_block : scan (split_breaks (add_up (parts h ls rs ds ts w))) blank ≡ read_until 16
  unfolding read_until after
  read_block =
      scan-add_up (parts h ls rs ds ts w) (read_until 0) (read_until 16) reads_parts
      ∙ scan-nothing (read_until 16)

  finish-read :
      finish (read_until 16)
      ≡ some (record h { verify_host_key_dns = []; port = or_text h.port (units "22") })
  unfolding read_until after
  finish-read =
      rw
        (
          w.hostname.some_unit,
          split_white-word h.name w.one_word,
          w.name.some_unit,
          port_read h.port,
          choice_lem families h.address_family (refl, (refl, (refl, tt))) w.family refl,
          choice_lem answers h.strict_host_key_checking (refl, (refl, (refl, tt))) w.answer refl,
          w.local_forward,
          w.remote_forward,
          w.dynamic_forward,
          w.comment,
          w.tags,
        )
        refl

-- For a host that a block can hold, reading the block that is written gives the host back, with
-- port 22 for a missing port; the setting VerifyHostKeyDNS, which no line has, is lost.
pub parse_ssh_config_block-get_ssh_config_block :
    (h : Host) (ls rs ds ts : List Text)
    → IsWritable h ls rs ds ts
    → parse_ssh_config_block (get_ssh_config_block h)
      ≡ some (record h { verify_host_key_dns = []; port = or_text h.port (units "22") })
unfolding parse_ssh_config_block
parse_ssh_config_block-get_ssh_config_block h ls rs ds ts w =
    ap (λ t. finish (scan (split_breaks t) blank)) (get-parts h ls rs ds ts w)
    ∙ ap finish (read_block h ls rs ds ts w)
    ∙ finish-read h ls rs ds ts w
