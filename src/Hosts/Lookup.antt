-- ===== src/Hosts/Lookup.antt =====
-- `getHost` of frontend/src/store.ts: the host that a name or an address stands for.
use cozyssh.Prelude.{
  List, [], ◌∷◌, Option, none, some, Bool, true, false, not, ◌&&◌, ◌||◌, find, if◌then◌else◌,
}
use cozyssh.SshConfig.Units.{Text, units, eq}
use cozyssh.Hosts.{ParsedHost, or_default, canonical_host_string}

-- `E` is the type of the fields that are not looked at.
pub record HostData (E : Type 0) : Type 0 where
  pub name : Text
  pub hostname : Text
  pub user : Text
  pub port : Text
  pub password : Option Text
  pub tags : Option (List Text)
  pub is_auto : Bool
  pub is_favourite : Bool
  pub rest : E

-- A host of the store, or a new one, with the host that matches it in part.
pub data Found (E : Type 0) : Type 0 where
  known : HostData E → Found E
  made : HostData E → Option (HostData E) → Found E

abbrev pub is_none {ℓ} : {A : Type ℓ} → Option A → Bool
is_none none = true
is_none (some x) = false

-- a || b on hosts
abbrev pub first_of {ℓ} : {A : Type ℓ} → Option A → Option A → Option A
first_of none b = b
first_of (some x) b = some x

abbrev pub is_name_only : ParsedHost → Bool
is_name_only p = is_none p.user && (is_none p.password && is_none p.port)

abbrev pub info_of_parsed : (Text → Text) → ParsedHost → Text
info_of_parsed encode p =
    canonical_host_string encode (some (units "root")) true p.user p.hostname p.port

module _ {E : Type 0} where
  -- The first loop: the host that matches, and whether it does by its name.
  unfoldable pub name_match :
      Text → Option (HostData E) → List (HostData E) → Option (HostData E) × Bool
  name_match hostname found [] = (found, false)
  name_match hostname found (h ∷ hs) =
      let after = name_match hostname (some h) hs in
      let rest = name_match hostname found hs in
      if eq h.name hostname then (some h, true) else if eq h.hostname hostname then after else rest

  module _ (encode : Text → Text) where
    abbrev pub info_of : HostData E → Text
    info_of h =
        canonical_host_string encode (some (units "root")) true (some h.user) h.hostname
          (some h.port)

    abbrev pub info_match : ParsedHost → List (HostData E) → Option (HostData E)
    info_match p = find λ h. eq (info_of h) (info_of_parsed encode p)

    abbrev pub new_host : E → ParsedHost → HostData E
    new_host fields p = record {
      name = p.hostname;
      hostname = p.hostname;
      user = or_default p.user (units "root");
      port = or_default p.port (units "22");
      password = p.password;
      tags = none;
      is_auto = false;
      is_favourite = false;
      rest = fields;
    }

    -- The result from the two matches; `none` is an `undefined` host.
    abbrev pub choose :
        E → ParsedHost → Bool → Option (HostData E) → Bool → Option (HostData E) → Option (Found E)
    choose fields p only by_name exact by_info =
        if exact || not (is_none by_info)
        then elim (if only then first_of by_name by_info else first_of by_info by_name) [
          | none ↦ none
          | some h ↦ some (known h)
        ]
        else some (made (new_host fields p) (first_of by_name by_info))

    -- `fields` are those of a new host. The second loop runs if the first found no name, or more
    -- than it.
    unfoldable pub get_host : E → ParsedHost → List (HostData E) → Option (Found E)
    get_host fields p hosts =
        let (by_name, named) = name_match p.hostname none hosts in
        let exact = named && is_name_only p in
        choose fields p (is_name_only p) by_name exact (if exact then none else info_match p hosts)
