-- ===== src/Ordering/Splice.antt =====
-- The splices and the sort of frontend/src/store.ts, as concatenations and as permutations.
use mathlib.Core.List.{Perm, perm_middle}
use mathlib.Core.List.Perm
use cozyssh.Prelude.{
  ℕ, suc, ◌≡◌, refl, ap, inl, inr, List, [], ◌∷◌, ◌++◌, some, Bool, true, false, not, length,
  find_index, get_elem?, filter, Bool-cases, Option-cases, if_elim, arith,
}
use cozyssh.Ordering.{insert_at, remove_at, insert, sort}

module _ {ℓ} {A : Type ℓ} where
  pub insert_at-append : (l ys r : List A) → insert_at (length l) ys (l ++ r) ≡ l ++ (ys ++ r)
  unfolding insert_at
  insert_at-append [] ys r = refl
  insert_at-append (x ∷ l) ys r = ap (◌∷◌ x) (insert_at-append l ys r)

  pub insert_at-after :
      (l ys : List A) (t : A) (r : List A)
      → insert_at (suc (length l)) ys (l ++ (t ∷ r)) ≡ l ++ (t ∷ (ys ++ r))
  unfolding insert_at
  insert_at-after [] ys t r = refl
  insert_at-after (x ∷ l) ys t r = ap (◌∷◌ x) (insert_at-after l ys t r)

  pub remove_at-append :
      (l : List A) (x : A) (r : List A) → remove_at (length l) (l ++ (x ∷ r)) ≡ l ++ r
  unfolding remove_at
  remove_at-append [] x r = refl
  remove_at-append (y ∷ l) x r = ap (◌∷◌ y) (remove_at-append l x r)

  pub get_elem?-append :
      (l : List A) (x : A) (r : List A) → get_elem? (l ++ (x ∷ r)) (length l) ≡ some x
  get_elem?-append [] x r = refl
  get_elem?-append (y ∷ l) x r = get_elem?-append l x r

  module _ (q : A → Bool) where
    -- What `findIndex` finds, and what stands around it.
    pub find_index-split :
        (xs : List A) (i : ℕ)
        → find_index q xs ≡ some i
        → (l : List A) × (x : A) × (r : List A) × (xs ≡ l ++ (x ∷ r))
          × (i ≡ length l)
          × (q x ≡ true)
    find_index-split [] i e = cc
    find_index-split (x ∷ xs) i e = elim (Bool-cases (q x)) [
      | inl hit ↦ ([], x, xs, refl, ground arith, hit)
      | inr miss ↦ elim (Option-cases (find_index q xs)) [
        | inl n ↦ absurd (ground arith)
        | inr (j, f) ↦
            let (l, y, r, s, k, h) = find_index-split xs j f in
            (x ∷ l, y, r, ap (◌∷◌ x) s, ground arith, h)
      ]
    ]

    pub find_index-without :
        (l : List A) (x : A) (r : List A) (i : ℕ)
        → q x ≡ false
        → find_index q (l ++ (x ∷ r)) ≡ some i
        → (k : ℕ) × (find_index q (l ++ r) ≡ some k)
    find_index-without [] x r i m e = elim (Option-cases (find_index q r)) [
      | inl n ↦ absurd (ground arith)
      | inr k ↦ k
    ]
    find_index-without (y ∷ l) x r i m e = elim (Bool-cases (q y)) [
      | inl hit ↦ (0, rw hit refl)
      | inr miss ↦ elim (Option-cases (find_index q (l ++ (x ∷ r)))) [
        | inl n ↦ absurd (ground arith)
        | inr (j, f) ↦ let (k, g) = find_index-without l x r j m f in (suc k, rw (miss, g) refl)
      ]
    ]

    pub filter-perm : (xs : List A) → Perm (filter (λ x. not (q x)) xs ++ filter q xs) xs
    filter-perm [] = Perm.refl []
    filter-perm (x ∷ xs) = elim (Bool-cases (q x)) [
      | inl hit ↦ rw hit (Perm.trans (perm_middle _ _) (Perm.cons x (filter-perm xs)))
      | inr miss ↦ rw miss (Perm.cons x (filter-perm xs))
    ]

  insert-perm : (le : A → A → Bool) (x : A) (ys : List A) → Perm (insert le x ys) (x ∷ ys)
  unfolding insert
  insert-perm le x [] = Perm.refl (x ∷ [])
  insert-perm le x (y ∷ ys) =
      if_elim (λ zs. Perm zs (x ∷ y ∷ ys)) (le x y) (λ _. Perm.refl _)
        (λ _. Perm.trans (Perm.cons y (insert-perm le x ys)) (Perm.swap _ _ _))

  pub sort-perm : (le : A → A → Bool) (xs : List A) → Perm (sort le xs) xs
  unfolding sort
  sort-perm le [] = Perm.refl []
  sort-perm le (x ∷ xs) = Perm.trans (insert-perm le x (sort le xs)) (Perm.cons x (sort-perm le xs))
