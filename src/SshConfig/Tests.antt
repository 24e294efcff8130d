-- ===== src/SshConfig/Tests.antt =====
-- A host with a jump host, two forwards and a tag: the tests of the blocks, and a concrete case of
-- each theorem that has hypotheses (frontend/src/common.ts).
use cozyssh.Prelude.{◌≡◌, refl, inl, inr, [], ◌∷◌, some, Option, none}
use cozyssh.SshConfig.{Host, listed}
use cozyssh.SshConfig.Units.{Text, units, trim_start, trim_end, join, split_breaks, split_white}
use cozyssh.SshConfig.Write.{get_ssh_config_block, hostname_part, behind_at, before}
use cozyssh.SshConfig.Read.{
  parse_ssh_config_block, scan, scan_line, read_line, assign_line, assign, key_of,
}
use cozyssh.SshConfig.Block.{IsWritable}
use cozyssh.SshConfig.Missing.{parse_ssh_config_block_error}
use cozyssh.SshConfig.RoundTrip.{parse_ssh_config_block-get_ssh_config_block}

abbrev box : Host
box = record {
  name = units "box";
  hostname = units "10.0.0.5";
  user = units "root";
  port = units "2200";
  identity_file = units "~/.ssh/id box";
  proxy_jump = units "hop";
  remote_command = [];
  address_family = units "inet";
  user_known_hosts_file = [];
  strict_host_key_checking = units "ask";
  host_key_algorithms = [];
  verify_host_key_dns = units "yes";
  send_env = [];
  local_forward = units "80 db:80\n81 db:81";
  remote_forward = [];
  dynamic_forward = units "1080";
  comment = [];
  tags = listed (units "web" ∷ []);
}

box-IsWritable :
    IsWritable box
      (units "80 db:80" ∷ units "81 db:81" ∷ [])
      []
      (units "1080" ∷ [])
      (units "web" ∷ [])
unfolding trim_start trim_end hostname_part behind_at before join
box-IsWritable = record {
  name = record {
    some_unit = refl;
    start = refl;
    end = refl;
    one_line = refl;
    no_equals = refl;
    no_quotes = refl;
  };
  one_word = refl;
  plain = refl;
  hostname = record {
    some_unit = refl;
    start = refl;
    end = refl;
    one_line = refl;
    no_equals = refl;
    no_quotes = refl;
  };
  user = inr record {
    some_unit = refl;
    start = refl;
    end = refl;
    one_line = refl;
    no_equals = refl;
    no_quotes = refl;
  };
  port = inr record {
    some_unit = refl;
    start = refl;
    end = refl;
    one_line = refl;
    no_equals = refl;
    no_quotes = refl;
  };
  identity_file = inr record {
    some_unit = refl;
    start = refl;
    end = refl;
    one_line = refl;
    no_equals = refl;
    no_quotes = refl;
  };
  proxy_jump = inr record {
    some_unit = refl;
    start = refl;
    end = refl;
    one_line = refl;
    no_equals = refl;
    no_quotes = refl;
  };
  remote_command = inl refl;
  address_family = inr record {
    some_unit = refl;
    start = refl;
    end = refl;
    one_line = refl;
    no_equals = refl;
    no_quotes = refl;
  };
  family = inr refl;
  user_known_hosts_file = inl refl;
  strict = inr record {
    some_unit = refl;
    start = refl;
    end = refl;
    one_line = refl;
    no_equals = refl;
    no_quotes = refl;
  };
  answer = inr refl;
  host_key_algorithms = inl refl;
  send_env = inl refl;
  local_forward = refl;
  locals = (
    (
      record {
        some_unit = refl;
        start = refl;
        end = refl;
        one_line = refl;
        no_equals = refl;
        no_quotes = refl;
      },
      refl,
    ),
    (
      (
        record {
          some_unit = refl;
          start = refl;
          end = refl;
          one_line = refl;
          no_equals = refl;
          no_quotes = refl;
        },
        refl,
      ),
      tt,
    ),
  );
  remote_forward = refl;
  remotes = tt;
  dynamic_forward = refl;
  dynamics = (
    (
      record {
        some_unit = refl;
        start = refl;
        end = refl;
        one_line = refl;
        no_equals = refl;
        no_quotes = refl;
      },
      refl,
    ),
    tt,
  );
  tags = refl;
  words = ((refl, refl), tt);
  comment = refl;
}

parse_ssh_config_block-get_ssh_config_block_example :
    parse_ssh_config_block (get_ssh_config_block box)
    ≡ some (record box { verify_host_key_dns = [] })
parse_ssh_config_block-get_ssh_config_block_example =
    parse_ssh_config_block-get_ssh_config_block box (units "80 db:80" ∷ units "81 db:81" ∷ []) []
      (units "1080" ∷ []) (units "web" ∷ []) box-IsWritable

-- Read as it stands: a comment with a tag, quotes, an equals sign, and keywords in any case.
abbrev text : Text
text = units "# my box #web\r\nHOST box other\n  hostname = \"10.0.0.5\"\nPort 22\n"

text_parsed : Option Host
unfolding parse_ssh_config_block scan scan_line read_line key_of assign_line assign trim_start
    trim_end split_breaks split_white join
text_parsed = parse_ssh_config_block text

text_parsed_test :
    text_parsed
    ≡ some (record box {
      user = [];
      port = units "22";
      identity_file = [];
      proxy_jump = [];
      address_family = [];
      strict_host_key_checking = [];
      verify_host_key_dns = [];
      local_forward = [];
      dynamic_forward = [];
      comment = units "my box";
    })
unfolding text_parsed
text_parsed_test = refl

parse_ssh_config_block_error_example :
    parse_ssh_config_block (units "Host box\n    User root\n") ≡ none
unfolding split_breaks trim_start trim_end read_line key_of
parse_ssh_config_block_error_example =
    parse_ssh_config_block_error (units "Host box\n    User root\n") (refl, (refl, (refl, tt)))
