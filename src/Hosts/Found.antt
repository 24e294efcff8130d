-- ===== src/Hosts/Found.antt =====
-- What `getHost` of frontend/src/store.ts gives.
use cozyssh.Prelude.{
  ◌≡◌, refl, ◌∙◌, inl, inr, List, [], ◌∷◌, Option, none, some, Bool, true, false, ◌&&◌, find,
  if◌then◌else◌, Bool-cases, ap,
}
use cozyssh.SshConfig.Units.{Text, eq}
use cozyssh.Hosts.{ParsedHost}
use cozyssh.Hosts.Lookup.{
  HostData, Found, known, made, first_of, is_name_only, name_match, info_match, new_host, choose,
  get_host,
}

module _ {E : Type 0} where
  -- The first host with the name, and the last one at the address.
  abbrev pub first_named : Text → List (HostData E) → Option (HostData E)
  first_named hostname = find λ h. eq h.name hostname

  abbrev pub last_addressed : Text → List (HostData E) → Option (HostData E)
  last_addressed hostname [] = none
  last_addressed hostname (h ∷ hs) =
      first_of (last_addressed hostname hs) (if eq h.hostname hostname then some h else none)

  -- What the first loop comes to.
  abbrev matched : Text → Option (HostData E) → List (HostData E) → Option (HostData E) × Bool
  matched hostname found hs = elim (first_named hostname hs) [
    | some h ↦ (some h, true)
    | none ↦ (first_of (last_addressed hostname hs) found, false)
  ]

  later_named :
      (h : HostData E) (hostname : Text) (found : Option (HostData E)) (hs : List (HostData E))
      (named last : Option (HostData E)) (b : Bool)
      → elim named as (λ x. Option (HostData E) × Bool) [
        | some g ↦ (some g, true)
        | none ↦ (first_of last (if b then some h else found), false)
      ]
        ≡ elim named as (λ x. Option (HostData E) × Bool) [
          | some g ↦ (some g, true)
          | none ↦ (first_of (first_of last (if b then some h else none)) found, false)
        ]
  later_named h hostname found hs (some g) last b = refl
  later_named h hostname found hs none (some g) b = refl
  later_named h hostname found hs none none true = refl
  later_named h hostname found hs none none false = refl

  name_match_lem :
      (hostname : Text) (found : Option (HostData E)) (hs : List (HostData E))
      → name_match hostname found hs ≡ matched hostname found hs
  unfolding name_match
  name_match_lem hostname found [] = refl
  name_match_lem hostname found (h ∷ hs) = elim (Bool-cases (eq h.name hostname)) [
    | inl hit ↦ rw (hit, matched, name_match) refl
    | inr miss ↦
        rw (miss, matched, name_match)
          (pick (eq h.hostname hostname) (name_match_lem hostname (some h) hs)
            (name_match_lem hostname found hs))
  ]
    where
      pick :
          (b : Bool)
          → name_match hostname (some h) hs ≡ matched hostname (some h) hs
          → name_match hostname found hs ≡ matched hostname found hs
          → (if b then name_match hostname (some h) hs else name_match hostname found hs)
            ≡ elim (first_named hostname hs) as (λ x. Option (HostData E) × Bool) [
              | some g ↦ (some g, true)
              | none ↦ (
                first_of (first_of (last_addressed hostname hs) (if b then some h else none)) found,
                false,
              )
            ]
      pick true k l =
          k
          ∙ later_named h hostname found hs (first_named hostname hs) (last_addressed hostname hs)
              true
      pick false k l =
          l
          ∙ later_named h hostname found hs (first_named hostname hs) (last_addressed hostname hs)
              false

  module _ (encode : Text → Text) (fields : E) (p : ParsedHost) where
    -- The result from what is found, by the name, at the address and by all.
    abbrev result : Bool → Option (HostData E) → Option (HostData E) → Option (HostData E) → Found E
    result only none at none = made (new_host encode fields p) at
    result true (some h) at none = known h
    result false (some h) at none = made (new_host encode fields p) (some h)
    result true none none (some i) = known i
    result true none (some h) (some i) = known h
    result false none at (some i) = known i
    result true (some h) at (some i) = known h
    result false (some h) at (some i) = known i

    chosen :
        (only : Bool) (named at info : Option (HostData E))
        → (let (by_name, b) = elim named as (λ x. Option (HostData E) × Bool) [
          | some h ↦ (some h, true)
          | none ↦ (first_of at none, false)
        ] in
            choose encode fields p only by_name (b && only) (if b && only then none else info))
          ≡ some (result only named at info)
    chosen true none none none = refl
    chosen true none (some h) none = refl
    chosen false none none none = refl
    chosen false none (some h) none = refl
    chosen true (some h) at none = refl
    chosen false (some h) at none = refl
    chosen true none none (some i) = refl
    chosen true none (some h) (some i) = refl
    chosen false none none (some i) = refl
    chosen false none (some h) (some i) = refl
    chosen true (some h) at (some i) = refl
    chosen false (some h) at (some i) = refl

    -- `getHost` always gives a host. For a name without user, password and port it is the first
    -- host with that name, or else, if some host has the same user, address and port, the last host
    -- at that address, or that one if there is none; for anything else it is the first host with
    -- the same user, address and port. If there is no such host, it is a new one, with the host
    -- that matches by its name, or the last one by its address.
    pub get_host_lem :
        (hosts : List (HostData E))
        → get_host encode fields p hosts
          ≡ some (
              result
                (is_name_only p)
                (first_named p.hostname hosts)
                (last_addressed p.hostname hosts)
                (info_match encode p hosts))
    unfolding get_host
    get_host_lem hosts =
        rw (name_match_lem p.hostname none hosts, get_host)
          (chosen (is_name_only p) (first_named p.hostname hosts) (last_addressed p.hostname hosts)
            (info_match encode p hosts))

    info_result :
        (named at : Option (HostData E)) (i : HostData E) → result false named at (some i) ≡ known i
    info_result none at i = refl
    info_result (some h) at i = refl

    -- A host with the same user, address and port is the one, for more than a name.
    pub get_host_info :
        (hosts : List (HostData E)) (i : HostData E)
        → is_name_only p ≡ false
        → info_match encode p hosts ≡ some i
        → get_host encode fields p hosts ≡ some (known i)
    get_host_info hosts i e f =
        get_host_lem hosts
        ∙ rw (e, f)
            (ap some
              (info_result (first_named p.hostname hosts) (last_addressed p.hostname hosts) i))
