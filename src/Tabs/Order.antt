-- ===== src/Tabs/Order.antt =====
-- The order of the tabs: `moveTabLeft`, `moveTabRight` and the closing of the tabs on one side, in
-- frontend/src/store.ts.
use cozyssh.Prelude.{
  ℕ, zero, suc, ◌+◌, ◌≡◌, refl, List, [], ◌∷◌, some, String, Bool-cases, Option-cases, if_elim,
  get_elem?, set, length, arith, inl, inr, subst, ◌≢◌, if◌then◌else◌, ◌==◌, ==_iff, sym, ap, ◌∙◌,
}
use mathlib.Core.List.{Perm, perm-cons}
use mathlib.Core.List.Perm
use cozyssh.Tabs.{
  Store, tab_index, or_text, exchange, move_tab_left, move_tab_right, move_tab_to_first,
  move_tab_to_last, set_tabs, cleanup_associated_tab_state,
}

module _ {ℓ} {A : Type ℓ} where
  -- Writing two elements over each other keeps the multiset.
  set-perm :
      (xs : List A) (i : ℕ) (x v : A) → get_elem? xs i ≡ some x → Perm (v ∷ xs) (x ∷ set xs i v)
  set-perm [] i x v e = absurd (ground arith)
  set-perm (y ∷ xs) zero x v e = subst (λ w. Perm (v ∷ y ∷ xs) (w ∷ v ∷ xs)) same (Perm.swap _ _ _)
    where
      same : y ≡ x
      same = ground arith
  set-perm (y ∷ xs) (suc i) x v e =
      Perm.trans (Perm.swap _ _ _)
        (Perm.trans (Perm.cons y (set-perm xs i x v e)) (Perm.swap _ _ _))

  pub get_elem?-set :
      (xs : List A) (i j : ℕ) (v : A) → i ≢ j → get_elem? (set xs i v) j ≡ get_elem? xs j
  get_elem?-set [] i j v h = refl
  get_elem?-set (x ∷ xs) zero zero v h = absurd (h refl)
  get_elem?-set (x ∷ xs) zero (suc j) v h = refl
  get_elem?-set (x ∷ xs) (suc i) zero v h = refl
  get_elem?-set (x ∷ xs) (suc i) (suc j) v h = get_elem?-set xs i j v (λ e. h (ap suc e))

  exchange-perm :
      (xs : List A) (i j : ℕ) (x y : A)
      → i ≢ j
      → get_elem? xs i ≡ some x
      → get_elem? xs j ≡ some y
      → Perm (set (set xs j x) i y) xs
  exchange-perm xs i j x y h e f =
      let there = get_elem?-set xs j i x (λ k. h (sym k)) ∙ e in
      Perm.symm
        ((perm-cons x).0 (Perm.trans (set-perm xs j y x f) (set-perm (set xs j x) i x y there)))

  set-same : (xs : List A) (i : ℕ) (x : A) → get_elem? xs i ≡ some x → set (set xs i x) i x ≡ xs
  set-same [] i x e = refl
  set-same (y ∷ xs) zero x e = ground arith
  set-same (y ∷ xs) (suc i) x e = ap (◌∷◌ y) (set-same xs i x e)

  exchanged-perm :
      (xs : List A) (i j : ℕ) (x y : A)
      → get_elem? xs i ≡ some x
      → get_elem? xs j ≡ some y
      → Perm (set (set xs j x) i y) xs
  exchanged-perm xs i j x y e f = elim (Bool-cases (i == j)) [
    | inl t ↦ same ((==_iff i j).0 t)
    | inr n ↦ exchange-perm xs i j x y (λ k. absurd (ground arith)) e f
  ]
    where
      same : i ≡ j → Perm (set (set xs j x) i y) xs
      same k =
          subst (λ w. Perm (set (set xs j x) i w) xs) (same_value k)
            (subst (λ m. Perm (set (set xs m x) i x) xs) k
              (subst (λ zs. Perm zs xs) (sym (set-same xs i x e)) (Perm.refl _)))
        where
          same_value : i ≡ j → x ≡ y
          same_value k = ground arith

module _ {I : Type 0} where
  exchange-tabs : (i j : ℕ) (s : Store I) → Perm (exchange i j s).tabs s.tabs
  unfolding set_tabs cleanup_associated_tab_state
  exchange-tabs i j s = elim (Option-cases (get_elem? s.tabs i)) [
    | inl e ↦ simp (e, exchange) (Perm.refl _)
    | inr (t, e) ↦ elim (Option-cases (get_elem? s.tabs j)) [
      | inl f ↦ simp (e, f, exchange) (Perm.refl _)
      | inr (u, f) ↦ simp (e, f, exchange) (exchanged-perm s.tabs i j t u e f)
    ]
  ]

  unless_last :
      (s : Store I) (i j : ℕ)
      → Perm (if i + 1 == length s.tabs then s else exchange i j s).tabs s.tabs
  unless_last s i j =
      if_elim (λ (n : Store I). Perm n.tabs s.tabs) (i + 1 == length s.tabs) (λ _. Perm.refl _)
        (λ _. exchange-tabs i j s)

  -- Each of the four moves only reorders the tabs: none is lost, doubled or changed.
  pub move_tab-perm :
      (target : String) (s : Store I)
      → Perm (move_tab_left target s).tabs s.tabs
        × Perm (move_tab_right target s).tabs s.tabs
        × Perm (move_tab_to_first target s).tabs s.tabs
        × Perm (move_tab_to_last target s).tabs s.tabs
  unfolding move_tab_left move_tab_right move_tab_to_first move_tab_to_last
  move_tab-perm target s = elim (Option-cases (tab_index (or_text target s.active_tab_id) s.tabs)) [
    | inl e ↦
        simp (e, move_tab_left, move_tab_right, move_tab_to_first, move_tab_to_last)
          (Perm.refl _, Perm.refl _, Perm.refl _, Perm.refl _)
    | inr (zero, e) ↦
        simp (e, move_tab_left, move_tab_right, move_tab_to_first, move_tab_to_last)
          (Perm.refl _, unless_last s 0 _, Perm.refl _, unless_last s 0 _)
    | inr (suc i, e) ↦
        simp (e, move_tab_left, move_tab_right, move_tab_to_first, move_tab_to_last)
          (
            exchange-tabs (suc i) i s,
            unless_last s (suc i) _,
            exchange-tabs (suc i) 0 s,
            unless_last s (suc i) _,
          )
  ]
