-- ===== src/Recents/Latest.antt =====
-- What the list of recent buttons of frontend/src/store.ts keeps.
use cozyssh.Prelude.{
  ℕ, zero, suc, ◌≤◌, ◌≡◌, refl, List, [], ◌∷◌, Bool, true, false, not, ◌&&◌, String, str_eq,
  str_eq_iff, str_eq_refl, length, take, filter, any, if_elim, arith,
}
use cozyssh.Prelude.Int.{pos}
use cozyssh.Recents.{is_first, remove_recent_button_id, update_recent_button_id}

abbrev pub has_id : List String → String → Bool
has_id ids id = any (str_eq id) ids

-- No id is in the list twice.
abbrev pub IsUnique : List String → Type 0
IsUnique [] = Unit
IsUnique (x ∷ xs) = (has_id xs x ≡ false) × IsUnique xs

has_id-take :
    (n : ℕ) (x : String) (ids : List String) → has_id ids x ≡ false → has_id (take n ids) x ≡ false
has_id-take zero x ids h = refl
has_id-take (suc n) x [] h = refl
has_id-take (suc n) x (i ∷ ids) h = ground (arith, has_id-take n x ids)

take-IsUnique_ids : (n : ℕ) (ids : List String) → IsUnique ids → IsUnique (take n ids)
take-IsUnique_ids zero ids q = tt
take-IsUnique_ids (suc n) [] q = tt
take-IsUnique_ids (suc n) (i ∷ ids) (q, r) = (has_id-take n i ids q, take-IsUnique_ids n ids r)

has_id-filter :
    (id x : String) (ids : List String)
    → has_id (filter (λ i. not (str_eq i id)) ids) x ≡ (has_id ids x && not (str_eq x id))
has_id-filter id x [] = refl
has_id-filter id x (i ∷ ids) =
    ground (arith, has_id-filter id x ids, str_eq_iff x i, str_eq_iff i id, str_eq_iff x id)

filter-IsUnique :
    (id : String) (ids : List String)
    → IsUnique ids
    → IsUnique (filter (λ i. not (str_eq i id)) ids)
filter-IsUnique id [] q = tt
filter-IsUnique id (i ∷ ids) (q, r) =
    if_elim IsUnique (not (str_eq i id))
      (λ _. (rw (has_id-filter id i ids) (rw q refl), filter-IsUnique id ids r))
      (λ _. filter-IsUnique id ids r)

length-take_le : (n : ℕ) (ids : List String) → length (take n ids) ≤ n
length-take_le zero ids = omega arith
length-take_le (suc n) [] = omega arith
length-take_le (suc n) (i ∷ ids) = omega (arith, length-take_le n ids)

and_no : (b : Bool) → (b && not true) ≡ false
and_no b = ground arith

gone : (id : String) (ids : List String) → has_id (filter (λ i. not (str_eq i id)) ids) id ≡ false
gone id ids = rw (has_id-filter id id ids) (rw (str_eq_refl id) (and_no (has_id ids id)))

-- With a limit of one or more, and a list within it that has no id twice, a used button comes
-- first, the list stays within the limit and has no id twice; removing a button takes it out and
-- keeps the others.
pub recent_lem :
    (n : ℕ) (id other : String) (ids : List String)
    → IsUnique ids
    → length ids ≤ suc n
    → let used = update_recent_button_id (pos (suc n)) id ids in
      (is_first id used ≡ true)
      × (length used ≤ suc n)
      × IsUnique used
      × IsUnique (remove_recent_button_id id ids)
      × (has_id (remove_recent_button_id id ids) other
          ≡ (has_id ids other && not (str_eq other id)))
unfolding update_recent_button_id remove_recent_button_id
recent_lem n id other ids q l =
    let (a, b, c) =
      if_elim
        (λ (used : List String). (is_first id used ≡ true) × (length used ≤ suc n) × IsUnique used)
        (is_first id ids) (λ first. (first, l, q))
        (λ _. (
          str_eq_refl id,
          omega (arith, length-take_le n (filter (λ i. not (str_eq i id)) ids)),
          (has_id-take n id _ (gone id ids), take-IsUnique_ids n _ (filter-IsUnique id ids q)),
        )) in
    (a, b, c, filter-IsUnique id ids q, has_id-filter id other ids)
