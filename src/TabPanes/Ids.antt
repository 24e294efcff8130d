-- ===== src/TabPanes/Ids.antt =====
-- The ids of the panes when a pane or a tab goes (frontend/src/store.ts).
use cozyssh.Prelude.{
  ◌+◌, ◌≡◌, refl, sym, inl, inr, List, [], ◌∷◌, ◌++◌, true, false, not, ◌||◌, String, str_eq,
  str_eq_iff, str_eq_refl, Bool-cases, arith, any, if_elim, ◌≤◌, length,
}
use cozyssh.Tabs.{PaneData, has, others, pane_ids}
use cozyssh.TabPanes.{without_pane}

-- No two ids of the list are the same.
abbrev pub IsDistinct : List String → Type 0
IsDistinct [] = Unit
IsDistinct (x ∷ xs) = (has xs x ≡ false) × IsDistinct xs

pub has-append : (xs ys : List String) (x : String) → has (xs ++ ys) x ≡ (has xs x || has ys x)
has-append [] ys x = refl
has-append (y ∷ xs) ys x = ground (arith, has-append xs ys x)

pub holds_eq :
    (id : String) (ps : List PaneData) → any (λ p. str_eq p.id id) ps ≡ has (pane_ids ps) id
holds_eq id [] = refl
holds_eq id (p ∷ ps) = ground (arith, holds_eq id ps, str_eq_iff p.id id, str_eq_iff id p.id)

pub pane_ids-without_pane :
    (id : String) (ps : List PaneData) → pane_ids (without_pane id ps) ≡ others id (pane_ids ps)
pane_ids-without_pane id [] = refl
pane_ids-without_pane id (p ∷ ps) = ground (arith, pane_ids-without_pane id ps)

pub others-append :
    (id : String) (xs ys : List String) → others id (xs ++ ys) ≡ others id xs ++ others id ys
others-append id [] ys = refl
others-append id (x ∷ xs) ys = ground (arith, others-append id xs ys)

pub others-absent : (id : String) (xs : List String) → has xs id ≡ false → others id xs ≡ xs
others-absent id [] h = refl
others-absent id (x ∷ xs) h = ground (arith, others-absent id xs, str_eq_iff x id, str_eq_iff id x)

pub has-others :
    (id x : String) (xs : List String) → str_eq x id ≡ false → has (others id xs) x ≡ has xs x
has-others id x [] h = refl
has-others id x (y ∷ xs) h =
    ground (arith, has-others id x xs h, str_eq_iff y id, str_eq_iff x id, str_eq_iff x y)

has-others_absent :
    (id x : String) (xs : List String) → has xs x ≡ false → has (others id xs) x ≡ false
has-others_absent id x [] h = refl
has-others_absent id x (y ∷ xs) h = ground (arith, has-others_absent id x xs)

pub others-IsDistinct : (id : String) (xs : List String) → IsDistinct xs → IsDistinct (others id xs)
others-IsDistinct id [] d = tt
others-IsDistinct id (x ∷ xs) (a, d) =
    if_elim IsDistinct (not (str_eq x id))
      (λ _. (has-others_absent id x xs a, others-IsDistinct id xs d))
      (λ _. others-IsDistinct id xs d)

pub length-others :
    (id : String) (xs : List String) → IsDistinct xs → length xs ≤ length (others id xs) + 1
length-others id [] d = omega arith
length-others id (x ∷ xs) (a, d) = elim (Bool-cases (str_eq x id)) [
  | inl hit ↦ rw hit (rw (others-absent id xs (rw ((str_eq_iff x id).0 hit) at a)) (omega arith))
  | inr miss ↦ rw miss (omega (arith, length-others id xs d))
]

pub IsDistinct-left : (xs ys : List String) → IsDistinct (xs ++ ys) → IsDistinct xs
IsDistinct-left [] ys d = tt
IsDistinct-left (x ∷ xs) ys (a, d) =
    let e = has-append xs ys x in (ground (arith, e), IsDistinct-left xs ys d)

pub IsDistinct-right : (xs ys : List String) → IsDistinct (xs ++ ys) → IsDistinct ys
IsDistinct-right [] ys d = d
IsDistinct-right (x ∷ xs) ys (a, d) = IsDistinct-right xs ys d

-- An id of the first part is not one of the second.
pub IsDistinct-apart :
    (xs ys : List String) (x : String) → IsDistinct (xs ++ ys) → has xs x ≡ true → has ys x ≡ false
IsDistinct-apart [] ys x d h = cc
IsDistinct-apart (y ∷ xs) ys x (a, d) h = elim (Bool-cases (str_eq x y)) [
  | inl e ↦ let a' = rw (has-append xs ys y, sym ((str_eq_iff x y).0 e)) at a in ground arith
  | inr m ↦ IsDistinct-apart xs ys x d (rw m at h)
]

pub IsDistinct-append :
    (xs ys zs : List String)
    → IsDistinct (xs ++ ys)
    → ((x : String) → has ys x ≡ false → has zs x ≡ false)
    → IsDistinct zs
    → IsDistinct (xs ++ zs)
IsDistinct-append [] ys zs d sub e = e
IsDistinct-append (x ∷ xs) ys zs (a, d) sub e =
    let k = has-append xs ys x in
    let l = has-append xs zs x in
    let m = sub x (ground arith) in (ground arith, IsDistinct-append xs ys zs d sub e)

pub IsDistinct-replace :
    (xs ys zs : List String)
    → IsDistinct (xs ++ ys)
    → ((x : String) → has xs x ≡ false → has zs x ≡ false)
    → IsDistinct zs
    → IsDistinct (zs ++ ys)
IsDistinct-replace xs ys [] d sub e = IsDistinct-right xs ys d
IsDistinct-replace xs ys (z ∷ zs) d sub (a, e) =
    let k = has-append zs ys z in
    let ih = IsDistinct-replace xs ys zs d (λ x h. let m = sub x h in ground arith) e in
    elim (Bool-cases (has xs z)) [
      | inl t ↦ let l = IsDistinct-apart xs ys z d t in (ground arith, ih)
      | inr f ↦ let m = sub z f in absurd (ground (arith, str_eq_iff z z))
    ]

-- Two lists of ids without a common one.
abbrev pub Apart : List String → List String → Type 0
Apart xs ys = (x : String) → has xs x ≡ true → has ys x ≡ false

pub IsDistinct-join :
    (xs ys : List String) → IsDistinct xs → IsDistinct ys → Apart xs ys → IsDistinct (xs ++ ys)
IsDistinct-join [] ys d e k = e
IsDistinct-join (x ∷ xs) ys (a, d) e k =
    let p = has-append xs ys x in
    let q = k x (rw (str_eq_refl x) refl) in
    (ground (arith, p, q), IsDistinct-join xs ys d e (λ y h. k y (ground (arith, h))))
