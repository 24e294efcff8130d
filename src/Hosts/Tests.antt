-- ===== src/Hosts/Tests.antt =====
-- Tests of reading and finding hosts, and a concrete case of each theorem (frontend/src/common.ts,
-- frontend/src/store.ts).
use cozyssh.Prelude.{ℕ, ◌≡◌, refl, [], ◌∷◌, none, some, false, find}
use cozyssh.SshConfig.Units.{Text, units, eq}
use cozyssh.Hosts.{
  ParsedHost, parse_host_name, canonical_host_string, parse_address, split_first, split_last, true,
}
use cozyssh.Hosts.Parse.{IsHostName, parse_host_name-canonical_host_string}
use cozyssh.Hosts.Lookup.{HostData, known, made, get_host, info_of, new_host}
use cozyssh.Hosts.Found.{get_host_lem}
use cozyssh.Hosts.Canonical.{get_host-canonical_host_string}

abbrev same : Text → Text
same s = s

abbrev host : Text → Text → Text → Text → HostData ℕ
host name hostname user port = record {
  name = name;
  hostname = hostname;
  user = user;
  port = port;
  password = none;
  tags = none;
  is_auto = false;
  is_favourite = true;
  rest = 0;
}

abbrev web : HostData ℕ
web = host (units "web") (units "10.0.0.1") (units "me") (units "22")

abbrev db : HostData ℕ
db = host (units "db") (units "10.0.0.1") (units "root") (units "2222")

parsed : parse_host_name some none (units "me:pw@[::1]:80") ≡ record {
  user = some (units "me");
  password = some (units "pw");
  port = some (units "80");
  hostname = units "::1";
}
unfolding parse_host_name parse_address split_last split_first
parsed = refl

-- An address of the sixth version with another port than 22 is not read back.
version_six :
    parse_host_name some none
      (canonical_host_string same none false (some []) (units "::1") (some (units "80")))
    ≡ record { user = none; password = none; port = none; hostname = units "::1:80" }
unfolding parse_host_name parse_address split_last split_first canonical_host_string
version_six = refl

web-IsHostName : IsHostName web.hostname
web-IsHostName = record { some_unit = refl; no_bracket = refl; no_colon = refl; no_at = refl }

parse_host_name-canonical_host_string_example :
    parse_host_name some none (
      canonical_host_string same none false
        (some (units "me"))
        (units "10.0.0.1")
        (some (units "22")))
    ≡ record { user = some (units "me"); password = none; port = none; hostname = units "10.0.0.1" }
parse_host_name-canonical_host_string_example =
    parse_host_name-canonical_host_string same some false (units "me") (units "10.0.0.1")
      (some (units "22")) (λ _. refl) refl web-IsHostName refl refl

-- The name alone, with two hosts at the address.
abbrev address_alone : ParsedHost
address_alone = record { user = none; password = none; port = none; hostname = units "10.0.0.1" }

get_host_lem_example :
    get_host same 0 address_alone (web ∷ db ∷ [])
    ≡ some (made (new_host same 0 address_alone) (some db))
unfolding canonical_host_string
get_host_lem_example = get_host_lem same 0 address_alone (web ∷ db ∷ [])

get_host-canonical_host_string_example :
    (g : HostData ℕ) × (get_host same 0
        (parse_host_name some none (info_of same db))
        (web ∷ db ∷ [])
      ≡ some (known g))
    × (find (λ f. eq (info_of same f) (info_of same db)) (web ∷ db ∷ []) ≡ some g)
get_host-canonical_host_string_example =
    get_host-canonical_host_string same some 0 (web ∷ db ∷ []) 1 db refl refl refl refl
      (record { some_unit = refl; no_bracket = refl; no_colon = refl; no_at = refl }) refl refl
