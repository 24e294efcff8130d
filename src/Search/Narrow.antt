-- ===== src/Search/Narrow.antt =====
-- A word more in a filter narrows the result of `filterHosts` (frontend/src/common.ts).
use cozyssh.Prelude.{
  ℕ, ◌≡◌, refl, ap, ◌∙◌, inl, inr, List, [], ◌∷◌, ◌++◌, none, Bool, false, ◌&&◌, Bool-cases,
  Option-cases, arith, any, filter,
}
use cozyssh.SshConfig.Units.{Text, is_white, starts_white, add_head, split_white, trim}
use cozyssh.SshConfig.{is_empty}
use cozyssh.Hosts.Lookup.{HostData}
use cozyssh.Search.{every, tag_token, split_tokens, match_host, passes, filter_hosts}

-- The last unit is white.
abbrev pub ends_white : Text → Bool
ends_white [] = false
ends_white (c ∷ []) = is_white c
ends_white (c ∷ d ∷ s) = ends_white (d ∷ s)

some_word : (s : Text) → (w : Text) × (ws : List Text) × (split_white s ≡ w ∷ ws)
unfolding split_white
some_word [] = ([], [], refl)
some_word (c ∷ s) =
    let (w, ws, e) = some_word s in
    elim (Bool-cases (is_white c)) [
      | inl hit ↦ elim (Bool-cases (starts_white s)) [
        | inl more ↦ (w, ws, rw (hit, more, split_white) e)
        | inr last ↦ ([], split_white s, rw (hit, last, split_white) refl)
      ]
      | inr miss ↦ (c ∷ w, ws, rw (miss, e, split_white) refl)
    ]

split_white-word : (w : Text) → any is_white w ≡ false → split_white w ≡ w ∷ []
unfolding split_white
split_white-word [] h = refl
split_white-word (c ∷ w) h =
    let a : is_white c ≡ false = ground arith in
    rw (a, split_white) (ap (add_head c) (split_white-word w (ground arith)))

not_starts_white : (w : Text) → any is_white w ≡ false → starts_white w ≡ false
not_starts_white [] h = refl
not_starts_white (c ∷ w) h = ground arith

-- One unit more in front.
add_unit :
    (c : ℕ) (s t w v : Text) (vs : List Text)
    → starts_white t ≡ starts_white s
    → split_white s ≡ v ∷ vs
    → split_white t ≡ split_white s ++ w ∷ []
    → split_white (c ∷ t) ≡ split_white (c ∷ s) ++ w ∷ []
unfolding split_white
add_unit c s t w v vs same e ih = elim (Bool-cases (is_white c)) [
  | inl hit ↦ elim (Bool-cases (starts_white s)) [
    | inl more ↦ rw (hit, same, more, split_white) ih
    | inr last ↦ rw (hit, same, last, split_white) (ap (◌∷◌ []) ih)
  ]
  | inr miss ↦ rw (miss, ih, e, split_white) refl
]

split_white-append :
    (s w : Text)
    → ends_white s ≡ false
    → any is_white w ≡ false
    → split_white (s ++ 32 ∷ w) ≡ split_white s ++ w ∷ []
unfolding split_white
split_white-append [] w h k = rw (not_starts_white w k) (ap (◌∷◌ []) (split_white-word w k))
split_white-append (c ∷ []) w h k =
    rw (h, not_starts_white w k) (ap (◌∷◌ (c ∷ [])) (split_white-word w k))
split_white-append (c ∷ d ∷ s) w h k =
    let (v, vs, e) = some_word (d ∷ s) in
    add_unit c (d ∷ s) (d ∷ s ++ 32 ∷ w) w v vs refl e (split_white-append (d ∷ s) w h k)

is_empty-append : (s t : Text) → is_empty s ≡ false → is_empty (s ++ t) ≡ false
is_empty-append [] t h = cc
is_empty-append (c ∷ s) t h = refl

every-append {ℓ} :
    {A : Type ℓ} (p : A → Bool) (xs : List A) (x : A) → every p (xs ++ x ∷ []) ≡ (every p xs && p x)
every-append p [] x = ground arith
every-append p (y ∷ xs) x = ground (arith, every-append p xs x)

-- A word that is no tag comes last.
split_tokens-word :
    (ts : List Text) (w : Text)
    → tag_token w ≡ none
    → split_tokens (ts ++ w ∷ []) ≡ ((split_tokens ts).0, (split_tokens ts).1 ++ w ∷ [])
unfolding split_tokens
split_tokens-word [] w e = rw (e, split_tokens) refl
split_tokens-word (t ∷ ts) w e = elim (Option-cases (tag_token t)) [
  | inl f ↦ rw (f, split_tokens) refl
  | inr (tag, f) ↦ rw (f, split_tokens-word ts w e, split_tokens) refl
]

module _ {E : Type 0} (lower : Text → Text) (comment : HostData E → Text) where
  passes-word :
      (ts : List Text) (w : Text) (h : HostData E)
      → tag_token w ≡ none
      → passes lower comment (split_tokens (ts ++ w ∷ [])) h
        ≡ (passes lower comment (split_tokens ts) h && match_host lower comment h w)
  passes-word ts w h e =
      let k = every-append (match_host lower comment h) ((split_tokens ts).1) w in
      rw (split_tokens-word ts w e) (ground (arith, k))

  filter-and :
      (p q : HostData E → Bool) (hs : List (HostData E))
      → filter (λ h. p h && q h) hs ≡ filter q (filter p hs)
  filter-and p q [] = refl
  filter-and p q (h ∷ hs) = ground (arith, filter-and p q hs)

  filter-ext :
      (p q : HostData E → Bool) (hs : List (HostData E))
      → ((h : HostData E) → p h ≡ q h)
      → filter p hs ≡ filter q hs
  filter-ext p q [] k = refl
  filter-ext p q (h ∷ hs) k = let e = k h in ground (arith, e, filter-ext p q hs k)

  -- For a filter in lower case that is not empty and has no white space at its ends, a space and
  -- one word more, which is no tag, keep, of the hosts that passed, those that match the word.
  pub filter_hosts-word :
      (hosts : List (HostData E)) (s w : Text)
      → lower (trim s) ≡ s
      → lower (trim (s ++ 32 ∷ w)) ≡ s ++ 32 ∷ w
      → is_empty s ≡ false
      → ends_white s ≡ false
      → any is_white w ≡ false
      → tag_token w ≡ none
      → filter_hosts lower comment hosts (s ++ 32 ∷ w)
        ≡ filter (λ h. match_host lower comment h w) (filter_hosts lower comment hosts s)
  unfolding filter_hosts
  filter_hosts-word hosts s w low low_word some_text at_end in_word no_tag =
      rw
        (
          low,
          low_word,
          some_text,
          is_empty-append s (32 ∷ w) some_text,
          split_white-append s w at_end in_word,
          filter_hosts,
        )
        (filter-ext _ _ hosts (λ h. passes-word (split_white s) w h no_tag)
          ∙ filter-and (passes lower comment (split_tokens (split_white s)))
              (λ h. match_host lower comment h w) hosts)
