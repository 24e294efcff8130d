-- ===== src/Tabs/Neighbours.antt =====
-- The element that takes over when others go: at the index before the first of those that went.
use cozyssh.Prelude.{
  ℕ, zero, suc, ◌-◌, ◌≡◌, refl, inl, inr, List, [], ◌∷◌, some, Bool, false, not, Bool-cases,
  Option-cases, get_elem?, arith, filter, find_index,
}
use cozyssh.Tabs.{is_empty, prev_index}

module _ {ℓ} {A : Type ℓ} (p : A → Bool) where
  -- The elements that are left.
  abbrev pub left_of : List A → List A
  left_of = filter λ x. not (p x)

  suc_pred : (k : ℕ) → suc (suc k) - 1 ≡ suc (suc k - 1)
  suc_pred k = omega arith

  pub without_nonempty :
      (ts : List A) (k : ℕ) → find_index p ts ≡ some (suc k) → is_empty (left_of ts) ≡ false
  without_nonempty [] k e = cc
  without_nonempty (t ∷ ts) k e = ground arith

  -- There is a tab to go to, unless no tab is left.
  pub neighbour_lem :
      (ts : List A)
      → is_empty (left_of ts) ≡ false
      → (t : A) × (get_elem? (left_of ts) (prev_index (find_index p ts)) ≡ some t)
  neighbour_lem [] h = cc
  neighbour_lem (t ∷ ts) h = elim (Bool-cases (p t)) [
    | inl hit ↦ rw hit (head_of (left_of ts) (rw hit at h))
    | inr miss ↦ elim (Option-cases (find_index p ts)) [
      | inl e ↦ (t, rw (miss, e))
      | inr (i, e) ↦ next_of i e miss (neighbour_lem ts)
    ]
  ]
    where
      head_of : (us : List A) → is_empty us ≡ false → (u : A) × (get_elem? us 0 ≡ some u)
      head_of [] k = cc
      head_of (u ∷ us) k = (u, refl)

      next_of :
          (i : ℕ)
          → find_index p ts ≡ some i
          → p t ≡ false
          → (is_empty (left_of ts) ≡ false
              → (u : A) × (get_elem? (left_of ts) (prev_index (find_index p ts)) ≡ some u))
          → (u : A) × (get_elem? (left_of (t ∷ ts)) (prev_index (find_index p (t ∷ ts))) ≡ some u)
      next_of zero e miss ih = (t, rw (miss, e))
      next_of (suc k) e miss ih =
          let (u, g) = ih (without_nonempty ts k e) in
          (u, rw (miss, e) (rw (suc_pred k) (rw e at g)))

  pub left_lem :
      (ts : List A) (i : ℕ)
      → find_index p ts ≡ some (suc i)
      → get_elem? (left_of ts) i ≡ get_elem? ts i
  left_lem [] i e = cc
  left_lem (t ∷ ts) i e = elim (Bool-cases (p t)) [
    | inl hit ↦ absurd (ground arith)
    | inr miss ↦ rw miss (step (λ k. left_lem ts k) i (ground arith))
  ]
    where
      step :
          ((k : ℕ) → find_index p ts ≡ some (suc k) → get_elem? (left_of ts) k ≡ get_elem? ts k)
          → (i : ℕ) → find_index p ts ≡ some i
          → get_elem? (t ∷ left_of ts) i ≡ get_elem? (t ∷ ts) i
      step ih zero f = refl
      step ih (suc k) f = ih k f
