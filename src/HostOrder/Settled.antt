-- ===== src/HostOrder/Settled.antt =====
-- The hosts after `moveServer` and `reorderFavourites` of frontend/src/store.ts: in which order and
-- in which group they are, and that their lists lose none.
use mathlib.Core.List.{Perm}
use mathlib.Core.List.Perm
use cozyssh.Prelude.{
  any, ℕ, zero, suc, ◌+◌, ◌*◌, ◌≡◌, ◌≢◌, refl, sym, subst, List, [], ◌∷◌, ◌++◌, Option, none, some,
  Bool, true, false, not, ◌||◌, arith, filter, find_index, if_elim, option_elim, if◌then◌else◌,
  get_elem?,
}
use cozyssh.Prelude.Int.{ℤ, pos}
use cozyssh.SshConfig.Units.{Text, eq}
use cozyssh.Hosts.Lookup.{HostData}
use cozyssh.Ordering.{insert_at, remove_at, sort}
use cozyssh.Ordering.Splice.{find_index-split, get_elem?-append}
use cozyssh.Tabs.{is_empty}
use cozyssh.HostOrder.{
  eq_order, group_changes, new_group_tag, tags_of, get_host_order, get_host_group_path, host_le,
  named, insert_before, sent, placed, placed_favourite,
}
use cozyssh.HostOrder.Tags.{
  ReadsDecimal, first_order-placed, first_order-favourite, path-placed, eq_order-pos,
  group_changes-path,
}

pub insert_at-perm {ℓ} :
    {A : Type ℓ} (i : ℕ) (h : A) (xs : List A) → Perm (insert_at i (h ∷ []) xs) (h ∷ xs)
unfolding insert_at
insert_at-perm zero h xs = Perm.refl _
insert_at-perm (suc i) h [] = Perm.refl _
insert_at-perm (suc i) h (x ∷ xs) =
    Perm.trans (Perm.cons x (insert_at-perm i h xs)) (Perm.swap _ _ _)

pub push-perm {ℓ} : {A : Type ℓ} (h : A) (xs : List A) → Perm (xs ++ h ∷ []) (h ∷ xs)
push-perm h [] = Perm.refl _
push-perm h (x ∷ xs) = Perm.trans (Perm.cons x (push-perm h xs)) (Perm.swap _ _ _)

pub remove_at-perm {ℓ} :
    {A : Type ℓ} (i : ℕ) (h : A) (xs : List A)
    → get_elem? xs i ≡ some h
    → Perm (h ∷ remove_at i xs) xs
unfolding remove_at
remove_at-perm i h [] e = cc
remove_at-perm zero h (x ∷ xs) e =
    let same : h ≡ x = ground arith in subst (λ y. Perm (y ∷ xs) (x ∷ xs)) (sym same) (Perm.refl _)
remove_at-perm (suc i) h (x ∷ xs) e =
    Perm.trans (Perm.swap _ _ _) (Perm.cons x (remove_at-perm i h xs e))

pub find_index-get_elem? {ℓ} :
    {A : Type ℓ} (p : A → Bool) (xs : List A) (i : ℕ)
    → find_index p xs ≡ some i
    → (x : A) × (get_elem? xs i ≡ some x) × (p x ≡ true)
find_index-get_elem? p xs i e =
    let (l, x, r, s, n, h) = find_index-split p xs i e in (x, rw (s, n) (get_elem?-append l x r), h)

module _ {E : Type 0} where
  -- The favourites in their order.
  abbrev pub sorted_favourites :
      (Text → Option ℤ) → (Text → Text → Bool) → List (HostData E) → List (HostData E)
  sorted_favourites parse_int name_le hosts =
      sort (host_le parse_int name_le) (filter (λ h. h.is_favourite) hosts)

  pub insert_before-perm :
      (before : Text) (h : HostData E) (hs : List (HostData E))
      → Perm (insert_before before h hs) (h ∷ hs)
  insert_before-perm before h hs =
      option_elim (λ l. Perm l (h ∷ hs))
        (if eq before [] then none else find_index (named before) hs) (λ _. push-perm h hs)
        (λ i _. insert_at-perm i h hs)

  -- The host after the change, whether it is sent or not.
  abbrev pub settled : (ℕ → HostData E → Option (HostData E)) → ℕ → HostData E → HostData E
  settled update i h = elim (update i h) [ none ↦ h | some u ↦ u ]

  -- Each host of the list, from the index `i` on, has the order of its place, and `P` holds of it.
  abbrev pub AllSettled :
      (Text → Option ℤ)
      → (HostData E → Type 0)
      → (ℕ → HostData E → Option (HostData E))
      → ℕ
      → List (HostData E)
      → Type 0
  AllSettled parse_int P update i [] = Unit
  AllSettled parse_int P update i (h ∷ hs) =
      (get_host_order parse_int (settled update i h) ≡ some (pos ((i + 1) * 10)))
      × P (settled update i h)
      × AllSettled parse_int P update (i + 1) hs

  abbrev pub InGroup : Option Text → HostData E → Type 0
  InGroup dest h = get_host_group_path h ≡ dest

  abbrev pub Any : HostData E → Type 0
  Any h = Unit

  module _ (parse_int : Text → Option ℤ) (reads : ReadsDecimal parse_int) where
    pub all_settled :
        (P : HostData E → Type 0) (update : ℕ → HostData E → Option (HostData E))
        → ((i : ℕ) (h : HostData E)
            → (get_host_order parse_int (settled update i h) ≡ some (pos ((i + 1) * 10)))
              × P (settled update i h))
        → (i : ℕ) (hs : List (HostData E)) → AllSettled parse_int P update i hs
    all_settled P update k i [] = tt
    all_settled P update k i (h ∷ hs) =
        let (a, b) = k i h in (a, b, all_settled P update k (i + 1) hs)

    -- Of a host, or of the one that is sent instead.
    abbrev IsPlaced : (HostData E → Type 0) → ℕ → HostData E → Option (HostData E) → Type 0
    IsPlaced P i h o =
        (get_host_order parse_int (elim o [ none ↦ h | some u ↦ u ]) ≡ some (pos ((i + 1) * 10)))
        × P (elim o [ none ↦ h | some u ↦ u ])

    pub placed_lem :
        (server : Text) (dest : Option Text) (i : ℕ) (h : HostData E)
        → dest ≢ some []
        → IsPlaced (InGroup dest) i h (placed parse_int server dest i h)
    placed_lem server dest i h given =
        if_elim (IsPlaced (InGroup dest) i h)
          (named server h
            || (group_changes h.tags (new_group_tag dest)
                || not (eq_order (get_host_order parse_int h) (some (pos ((i + 1) * 10))))))
          (λ _. (
            first_order-placed parse_int reads (tags_of h.tags) dest ((i + 1) * 10),
            path-placed (tags_of h.tags) dest ((i + 1) * 10) given,
          ))
          (λ e. (
            eq_order-pos (get_host_order parse_int h) ((i + 1) * 10) (ground (arith, e)),
            group_changes-path h.tags dest given (ground (arith, e)),
          ))

    pub favourite_lem :
        (dragged : Text) (i : ℕ) (h : HostData E)
        → IsPlaced Any i h (placed_favourite parse_int dragged i h)
    favourite_lem dragged i h =
        if_elim (IsPlaced Any i h)
          (not (eq_order (get_host_order parse_int h) (some (pos ((i + 1) * 10))))
            || named dragged h)
          (λ _. (first_order-favourite parse_int reads (tags_of h.tags) ((i + 1) * 10), tt))
          (λ e. (eq_order-pos (get_host_order parse_int h) ((i + 1) * 10) (ground (arith, e)), tt))

    -- A host that is dragged is sent.
    pub sent-some :
        (dragged : Text) (i : ℕ) (l : List (HostData E))
        → any (named dragged) l ≡ true
        → is_empty (sent (placed_favourite parse_int dragged) i l) ≡ false
    unfolding sent
    sent-some dragged i [] h = cc
    sent-some dragged i (k ∷ l) h =
        if_elim {A = Option (HostData E)}
          (λ o.
            is_empty (elim o as (λ x. List (HostData E)) [
              | none ↦ sent (placed_favourite parse_int dragged) (i + 1) l
              | some u ↦ u ∷ sent (placed_favourite parse_int dragged) (i + 1) l
            ])
            ≡ false)
          (not (eq_order (get_host_order parse_int k) (some (pos ((i + 1) * 10))))
            || named dragged k)
          (λ _. refl) (λ e. sent-some dragged (i + 1) l (ground (arith, e, h)))
