-- ===== src/Groups/Expanded.antt =====
-- Which groups are expanded after `toggleGroupExpanded` of frontend/src/store.ts.
use cozyssh.Prelude.{
  ◌≡◌, refl, ◌∙◌, List, [], ◌∷◌, ◌++◌, Bool, true, false, not, ◌&&◌, ◌||◌, String, str_eq,
  str_eq_iff, if◌then◌else◌, if_elim, Bool-cases, arith, inl, inr, ap,
}
use cozyssh.Groups.{in_set, add, delete, add_all, delete_all, sub_groups, toggle_group_expanded}

in_set-append :
    (x y : String) (set : List String) → in_set x (set ++ y ∷ []) ≡ (in_set x set || str_eq x y)
in_set-append x y [] = ground arith
in_set-append x y (z ∷ set) = ground (arith, in_set-append x y set)

in_set-add :
    (x y : String) (set : List String) → in_set x (add y set) ≡ (in_set x set || str_eq x y)
in_set-add x y set =
    if_elim (λ s. in_set x s ≡ (in_set x set || str_eq x y)) (in_set y set) (λ there. known there)
      (λ _. in_set-append x y set)
  where
    known : in_set y set ≡ true → in_set x set ≡ (in_set x set || str_eq x y)
    known there = elim (Bool-cases (str_eq x y)) [
      | inl e ↦
          let k : in_set x set ≡ true = ap (λ z. in_set z set) ((str_eq_iff x y).0 e) ∙ there in
          rw k refl
      | inr n ↦ ground arith
    ]

in_set-delete :
    (x y : String) (set : List String)
    → in_set x (delete y set) ≡ (in_set x set && not (str_eq x y))
in_set-delete x y [] = refl
in_set-delete x y (z ∷ set) =
    ground (arith, in_set-delete x y set, str_eq_iff x z, str_eq_iff z y, str_eq_iff x y)

in_set-add_all :
    (x : String) (ys set : List String) → in_set x (add_all ys set) ≡ (in_set x set || in_set x ys)
in_set-add_all x [] set = ground arith
in_set-add_all x (y ∷ ys) set =
    in_set-add_all x ys (add y set)
    ∙ rw (in_set-add x y set) (or_assoc (in_set x set) (str_eq x y) (in_set x ys))
  where
    or_assoc : (a b c : Bool) → (a || b || c) ≡ (a || (b || c))
    or_assoc a b c = ground arith

in_set-delete_all :
    (x : String) (ys set : List String)
    → in_set x (delete_all ys set) ≡ (in_set x set && not (in_set x ys))
in_set-delete_all x [] set = ground arith
in_set-delete_all x (y ∷ ys) set =
    in_set-delete_all x ys (delete y set)
    ∙ rw (in_set-delete x y set) (and_assoc (in_set x set) (str_eq x y) (in_set x ys))
  where
    and_assoc : (a b c : Bool) → (a && not b && not c) ≡ (a && not (b || c))
    and_assoc a b c = ground arith

-- After the toggle every group that it is about is expanded just where the path was not, so that they
-- all agree, and every other group is as it was.
pub toggle_group_expanded_lem :
    (path g : String) (include_children : Bool) (groups expanded : List String)
    → in_set g (toggle_group_expanded path include_children groups expanded) ≡ (
        if in_set g (sub_groups path include_children groups)
        then not (in_set path expanded)
        else in_set g expanded)
unfolding toggle_group_expanded
toggle_group_expanded_lem path g include_children groups expanded =
    elim (Bool-cases (in_set path expanded)) [
      | inl on ↦ rw on (
          in_set-delete_all g (sub_groups path include_children groups) expanded
          ∙ gone (in_set g expanded) (in_set g (sub_groups path include_children groups)))
      | inr off ↦ rw off (
          in_set-add_all g (sub_groups path include_children groups) expanded
          ∙ come (in_set g expanded) (in_set g (sub_groups path include_children groups)))
    ]
  where
    gone : (a b : Bool) → (a && not b) ≡ (if b then not true else a)
    gone a b = ground arith

    come : (a b : Bool) → (a || b) ≡ (if b then not false else a)
    come a b = ground arith
