-- ===== src/Hosts/Canonical.antt =====
-- The canonical string of a host of the store leads back to it: `getCanonicalHostString`,
-- `parseHostName` (frontend/src/common.ts) and `getHost` (frontend/src/store.ts) together.
use cozyssh.Prelude.{
  ℕ, zero, suc, ◌≡◌, refl, sym, ap, ◌∙◌, subst, inl, inr, List, [], ◌∷◌, Option, none, some, Bool,
  true, false, Bool-cases, arith, find, get_elem?, ==_iff,
}
use cozyssh.SshConfig.Units.{Text, units, eq}
use cozyssh.SshConfig.{is_empty}
use cozyssh.Hosts.{ParsedHost, or_default, parse_host_name, canonical_host_string}
use cozyssh.Hosts.Parse.{IsHostName, holds_unit, parse_host_name-canonical_host_string}
use cozyssh.Hosts.Lookup.{HostData, known, info_of, info_of_parsed, get_host}
use cozyssh.Hosts.Found.{get_host_info}

eq_refl : (s : Text) → eq s s ≡ true
eq_refl [] = refl
eq_refl (c ∷ s) = ground (arith, eq_refl s, ==_iff c c)

found_lem {ℓ} :
    {A : Type ℓ} (p : A → Bool) (xs : List A) (i : ℕ) (x : A)
    → get_elem? xs i ≡ some x
    → p x ≡ true
    → (y : A) × (find p xs ≡ some y) × (p y ≡ true)
found_lem p [] i x e h = cc
found_lem p (y ∷ xs) zero x e h =
    let same : y ≡ x = ground arith in
    let k = subst (λ z. p z ≡ true) (sym same) h in (y, rw k refl, k)
found_lem p (y ∷ xs) (suc i) x e h = elim (Bool-cases (p y)) [
  | inl hit ↦ (y, rw hit refl, hit)
  | inr miss ↦ let (z, f, g) = found_lem p xs i x e h in (z, rw miss f, g)
]

-- What is read back from the canonical string with the port.
abbrev read_back : Text → Text → Text → ParsedHost
read_back user hostname port = record {
  user = some user;
  password = none;
  port = some (or_default (some port) (units "22"));
  hostname = hostname;
}

canonical_user :
    (encode : Text → Text) (d : Text) (c : ℕ) (u hostname : Text) (port : Option Text)
    → canonical_host_string encode (some d) true (some (c ∷ u)) hostname port
      ≡ canonical_host_string encode none true (some (c ∷ u)) hostname port
unfolding canonical_host_string
canonical_user encode d c u hostname port = refl

canonical_port :
    (encode : Text → Text) (d : Option Text) (user hostname port : Text)
    → canonical_host_string encode d true
        (some user)
        hostname
        (some (or_default (some port) (units "22")))
      ≡ canonical_host_string encode d true (some user) hostname (some port)
unfolding canonical_host_string
canonical_port encode d user hostname [] = refl
canonical_port encode d user hostname (c ∷ port) = refl

module _ (encode : Text → Text) (decode : Text → Option Text) where
  abbrev with_root : Text → Text → Text → Text
  with_root user hostname port =
      canonical_host_string encode (some (units "root")) true (some user) hostname (some port)

  read_canonical :
      (user hostname port : Text)
      → is_empty user ≡ false
      → decode (encode user) ≡ some user
      → holds_unit 58 (encode user) ≡ false
      → IsHostName hostname
      → holds_unit 58 (or_default (some port) (units "22")) ≡ false
      → holds_unit 64 (or_default (some port) (units "22")) ≡ false
      → (parse_host_name decode none (with_root user hostname port) ≡ read_back user hostname port)
        × (info_of_parsed encode (read_back user hostname port) ≡ with_root user hostname port)
  read_canonical [] hostname port some_user coded no_colon name k l = cc
  read_canonical (c ∷ u) hostname port some_user coded no_colon name k l = (
    ap (parse_host_name decode none) (canonical_user encode (units "root") c u hostname (some port))
        ∙ parse_host_name-canonical_host_string encode decode true (c ∷ u) hostname (some port)
            (λ _. coded) no_colon name k l,
    canonical_port encode (some (units "root")) (c ∷ u) hostname port,
  )

  -- The canonical string of a host of the store, with its port, leads back to the first host with
  -- the same user, address and port. The user is not empty, decoding undoes its encoding, which has
  -- no colon, the host name has no colon and no at sign and starts with no bracket, nor has the
  -- port a colon or an at sign.
  pub get_host-canonical_host_string :
      {E : Type 0} (fields : E) (hosts : List (HostData E)) (i : ℕ) (h : HostData E)
      → get_elem? hosts i ≡ some h
      → is_empty h.user ≡ false
      → decode (encode h.user) ≡ some h.user
      → holds_unit 58 (encode h.user) ≡ false
      → IsHostName h.hostname
      → holds_unit 58 (or_default (some h.port) (units "22")) ≡ false
      → holds_unit 64 (or_default (some h.port) (units "22")) ≡ false
      → (g : HostData E) × (get_host encode fields
            (parse_host_name decode none (info_of encode h))
            hosts
          ≡ some (known g))
        × (find (λ f. eq (info_of encode f) (info_of encode h)) hosts ≡ some g)
  get_host-canonical_host_string fields hosts i h at some_user coded no_colon name k l =
      let (read, same) =
        read_canonical h.user h.hostname h.port some_user coded no_colon name k l in
      let (g, e, _) =
        found_lem (λ f. eq (info_of encode f) (info_of encode h)) hosts i h at
          (eq_refl (info_of encode h)) in
      let found = subst (λ s. find (λ f. eq (info_of encode f) s) hosts ≡ some g) (sym same) e in
      (
        g,
        rw read
            (get_host_info encode fields (read_back h.user h.hostname h.port) hosts g refl found),
        e,
      )
