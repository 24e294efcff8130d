-- ===== src/Hosts/Parse.antt =====
-- A host is read back from its canonical string (frontend/src/common.ts).
use mathlib.Core.List.{append_assoc, append-nil}
use cozyssh.Prelude.{
  ℕ, ◌≡◌, refl, ap, ◌∙◌, inl, inr, [], ◌∷◌, ◌++◌, Option, none, some, Bool, false, not, ◌||◌,
  Bool-cases, arith, any, if◌then◌else◌, ◌==◌, ◌+◌,
}
use cozyssh.SshConfig.Units.{Text, units}
use cozyssh.SshConfig.{is_empty, starts}
use cozyssh.Hosts.{
  split_first, split_last, parse_user, decoded, parse_address, parse_host_name,
  canonical_host_string, colon_count, is_port_22, or_default,
}

-- The text has the code unit.
abbrev pub holds_unit : ℕ → Text → Bool
holds_unit d = any λ c. c == d

split_last-absent : (d : ℕ) (s : Text) → holds_unit d s ≡ false → split_last d s ≡ none
unfolding split_last
split_last-absent d [] h = refl
split_last-absent d (c ∷ s) h = ground (arith, split_last-absent d s)

split_first-absent : (d : ℕ) (s : Text) → holds_unit d s ≡ false → split_first d s ≡ none
unfolding split_first
split_first-absent d [] h = refl
split_first-absent d (c ∷ s) h = ground (arith, split_first-absent d s)

split_last-at :
    (d : ℕ) (s t : Text) → holds_unit d t ≡ false → split_last d (s ++ d ∷ t) ≡ some (s, t)
unfolding split_last
split_last-at d [] t h = rw (split_last-absent d t h) (ground arith)
split_last-at d (c ∷ s) t h = rw (split_last-at d s t h) refl

colon_count-append : (s t : Text) → colon_count (s ++ t) ≡ colon_count s + colon_count t
colon_count-append [] t = omega arith
colon_count-append (c ∷ s) t = ground (arith, colon_count-append s t)

colon_count-absent : (s : Text) → holds_unit 58 s ≡ false → colon_count s ≡ 0
colon_count-absent [] h = refl
colon_count-absent (c ∷ s) h = ground (arith, colon_count-absent s)

-- A host name that a canonical string can hold.
pub record IsHostName (s : Text) : Type 0 where
  pub some_unit : is_empty s ≡ false
  pub no_bracket : starts 91 s ≡ false
  pub no_colon : holds_unit 58 s ≡ false
  pub no_at : holds_unit 64 s ≡ false

-- One colon, behind the host name.
colon_count-port :
    (s p : Text) → holds_unit 58 s ≡ false → holds_unit 58 p ≡ false → colon_count (s ++ 58 ∷ p) ≡ 1
colon_count-port s p h k =
    let a = colon_count-append s (58 ∷ p) in
    let b = colon_count-absent s h in let c = colon_count-absent p k in omega arith

parse_address-port :
    (s p : Text)
    → IsHostName s
    → holds_unit 58 p ≡ false
    → parse_address (s ++ 58 ∷ p) ≡ (s, some p)
unfolding parse_address
parse_address-port [] p h k = let e = h.some_unit in cc
parse_address-port (c ∷ s) p h k =
    rw (h.no_bracket, colon_count-port (c ∷ s) p h.no_colon k, split_last-at 58 (c ∷ s) p k) refl

parse_address-plain : (s : Text) → IsHostName s → parse_address s ≡ (s, none)
unfolding parse_address
parse_address-plain [] h = refl
parse_address-plain (c ∷ s) h = rw (h.no_bracket, colon_count-absent (c ∷ s) h.no_colon) refl

-- The port of a canonical string, as it is read.
abbrev pub read_port : Bool → Option Text → Option Text
read_port always port =
    if always || not (is_port_22 port) then some (or_default port (units "22")) else none

parse_address-canonical :
    (always : Bool) (s : Text) (port : Option Text)
    → IsHostName s
    → holds_unit 58 (or_default port (units "22")) ≡ false
    → parse_address (
        s
        ++ (if always || not (is_port_22 port)
            then units ":" ++ or_default port (units "22")
            else []))
      ≡ (s, read_port always port)
parse_address-canonical always s port h k = elim (Bool-cases (always || not (is_port_22 port))) [
  | inl e ↦ rw e (parse_address-port s _ h k)
  | inr e ↦ rw e (ap parse_address (append-nil s) ∙ parse_address-plain s h)
]

holds_unit-append :
    (d : ℕ) (s t : Text) → holds_unit d (s ++ t) ≡ (holds_unit d s || holds_unit d t)
holds_unit-append d [] t = refl
holds_unit-append d (c ∷ s) t = ground (arith, holds_unit-append d s t)

-- What stands behind the user.
abbrev address : Bool → Text → Option Text → Text
address always s port =
    s ++ (if always || not (is_port_22 port) then units ":" ++ or_default port (units "22") else [])

address-no_at :
    (always : Bool) (s : Text) (port : Option Text)
    → holds_unit 64 s ≡ false
    → holds_unit 64 (or_default port (units "22")) ≡ false
    → holds_unit 64 (address always s port) ≡ false
address-no_at always s port h k = elim (Bool-cases (always || not (is_port_22 port))) [
  | inl e ↦
      rw e (let a = holds_unit-append 64 s (58 ∷ or_default port (units "22")) in ground (arith, a))
  | inr e ↦ rw e (let a = holds_unit-append 64 s [] in ground (arith, a))
]

parse-no_user :
    (decode : Text → Option Text) (name h : Text) (p : Option Text)
    → split_last 64 name ≡ none
    → parse_address name ≡ (h, p)
    → parse_host_name decode none name
      ≡ record { user = none; password = none; port = p; hostname = h }
unfolding parse_host_name
parse-no_user decode name h p e f = rw (e, f, parse_host_name) refl

parse_user_lem :
    (decode : Text → Option Text) (coded u : Text)
    → split_first 58 coded ≡ none
    → decode coded ≡ some u
    → parse_user decode coded ≡ (u, none)
parse_user_lem decode coded u f g = rw (f, parse_user) (rw (g, decoded) refl)

parse-user :
    (decode : Text → Option Text) (name coded rest u h : Text) (p : Option Text)
    → split_last 64 name ≡ some (coded, rest)
    → split_first 58 coded ≡ none
    → decode coded ≡ some u
    → is_empty u ≡ false
    → parse_address rest ≡ (h, p)
    → parse_host_name decode none name
      ≡ record { user = some u; password = none; port = p; hostname = h }
unfolding parse_host_name
parse-user decode name coded rest u h p e f g i k =
    rw (e, k, parse_user_lem decode coded u f g, i, parse_host_name) refl

canonical-no_user :
    (encode : Text → Text) (always : Bool) (hostname : Text) (port : Option Text)
    → canonical_host_string encode none always (some []) hostname port
      ≡ address always hostname port
unfolding canonical_host_string
canonical-no_user encode always hostname port = refl

canonical-user :
    (encode : Text → Text) (always : Bool) (c : ℕ) (s hostname : Text) (port : Option Text)
    → canonical_host_string encode none always (some (c ∷ s)) hostname port
      ≡ encode (c ∷ s) ++ 64 ∷ address always hostname port
unfolding canonical_host_string
canonical-user encode always c s hostname port =
    append_assoc (encode (c ∷ s)) (units "@") (address always hostname port)

-- A user, or none, a host name and a port are read back from their canonical string: the port is
-- missing only if it is 22 and not asked for, and a missing one is 22.
pub parse_host_name-canonical_host_string :
    (encode : Text → Text) (decode : Text → Option Text) (always : Bool) (user hostname : Text)
    (port : Option Text)
    → (is_empty user ≡ false → decode (encode user) ≡ some user)
    → holds_unit 58 (encode user) ≡ false
    → IsHostName hostname
    → holds_unit 58 (or_default port (units "22")) ≡ false
    → holds_unit 64 (or_default port (units "22")) ≡ false
    → parse_host_name decode none
        (canonical_host_string encode none always (some user) hostname port)
      ≡ record {
        user = if is_empty user then none else some user;
        password = none;
        port = read_port always port;
        hostname = hostname;
      }
parse_host_name-canonical_host_string encode decode always [] hostname port coded no_colon h k l =
    ap (parse_host_name decode none) (canonical-no_user encode always hostname port)
    ∙ parse-no_user decode _ hostname _
        (split_last-absent 64 _ (address-no_at always hostname port h.no_at l))
        (parse_address-canonical always hostname port h k)
parse_host_name-canonical_host_string encode decode always (c ∷ s) hostname port coded no_colon h k
      l =
    ap (parse_host_name decode none) (canonical-user encode always c s hostname port)
    ∙ parse-user decode _ (encode (c ∷ s)) (address always hostname port) (c ∷ s) hostname _
        (split_last-at 64 (encode (c ∷ s)) _ (address-no_at always hostname port h.no_at l))
        (split_first-absent 58 _ no_colon) (coded refl) refl
        (parse_address-canonical always hostname port h k)
