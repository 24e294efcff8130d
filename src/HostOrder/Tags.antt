-- ===== src/HostOrder/Tags.antt =====
-- What is read from the tags that `moveServer` and `reorderFavourites` write (frontend/src/store.ts).
use cozyssh.Prelude.{
  ℕ, ◌≡◌, ◌≢◌, refl, ap, ◌∙◌, inl, inr, List, [], ◌∷◌, ◌++◌, Option, none, some, Bool, true, false,
  not, Bool-cases, arith, filter, find, drop,
}
use cozyssh.Prelude.Int.{ℤ, pos, negsuc}
use cozyssh.Prelude.Decimal.{decimal}
use cozyssh.SshConfig.Units.{Text, units, eq}
use cozyssh.HostOrder.{
  starts_with, order_prefix, group_prefix, first_order, group_tag, path_of, eq_order, eq_path,
  order_tag, keeps, group_changes, new_group_tag, listed, without_prefix,
}

eq_to : (s t : Text) → eq s t ≡ true → s ≡ t
eq_to [] [] e = refl
eq_to [] (d ∷ t) e = cc
eq_to (c ∷ s) [] e = cc
eq_to (c ∷ s) (d ∷ t) e =
    let ih = eq_to s t (ground arith) in let h : c ≡ d = ground arith in rw (h, ih) refl

find-filter :
    (p q : Text → Bool) (ts us : List Text)
    → ((t : Text) → q t ≡ true → p t ≡ false)
    → find p (filter q ts ++ us) ≡ find p us
find-filter p q [] us k = refl
find-filter p q (t ∷ ts) us k = elim (Bool-cases (q t)) [
  | inl e ↦ rw (e, k t e) (find-filter p q ts us k)
  | inr e ↦ rw e (find-filter p q ts us k)
]

first_order-filter :
    (parse_int : Text → Option ℤ) (q : Text → Bool) (ts us : List Text)
    → ((t : Text) → q t ≡ true → starts_with order_prefix t ≡ false)
    → first_order parse_int (filter q ts ++ us) ≡ first_order parse_int us
first_order-filter parse_int q [] us k = refl
first_order-filter parse_int q (t ∷ ts) us k = elim (Bool-cases (q t)) [
  | inl e ↦ rw (e, k t e) (first_order-filter parse_int q ts us k)
  | inr e ↦ rw e (first_order-filter parse_int q ts us k)
]

-- parseInt reads what is written in decimal.
abbrev pub ReadsDecimal : (Text → Option ℤ) → Type 0
ReadsDecimal parse_int = (n : ℕ) → parse_int (units (decimal n)) ≡ some (pos n)

module _ (parse_int : Text → Option ℤ) (reads : ReadsDecimal parse_int) where
  first_order-order_tag : (n : ℕ) → first_order parse_int (order_tag n ∷ []) ≡ some (pos n)
  first_order-order_tag n = rw (reads n) refl

  -- The tags of a host in a group.
  pub first_order-placed :
      (ts : List Text) (dest : Option Text) (n : ℕ)
      → first_order parse_int (filter keeps ts ++ (listed (new_group_tag dest) ++ order_tag n ∷ []))
        ≡ some (pos n)
  first_order-placed ts dest n =
      first_order-filter parse_int keeps ts _ (λ t e. ground (arith, e)) ∙ behind dest
    where
      behind :
          (g : Option Text)
          → first_order parse_int (listed (new_group_tag g) ++ order_tag n ∷ []) ≡ some (pos n)
      behind none = first_order-order_tag n
      behind (some []) = first_order-order_tag n
      behind (some (c ∷ s)) = first_order-order_tag n

  pub first_order-favourite :
      (ts : List Text) (n : ℕ)
      → first_order parse_int (without_prefix order_prefix ts ++ order_tag n ∷ []) ≡ some (pos n)
  first_order-favourite ts n =
      first_order-filter parse_int (λ t. not (starts_with order_prefix t)) ts _
        (λ t e. ground (arith, e))
      ∙ first_order-order_tag n

pub path-placed :
    (ts : List Text) (dest : Option Text) (n : ℕ)
    → dest ≢ some []
    → path_of (group_tag (filter keeps ts ++ (listed (new_group_tag dest) ++ order_tag n ∷ [])))
      ≡ dest
path-placed ts dest n h =
    ap path_of (find-filter (starts_with group_prefix) keeps ts _ (λ t e. ground (arith, e)))
    ∙ behind dest h
  where
    behind :
        (g : Option Text)
        → g ≢ some []
        → path_of (group_tag (listed (new_group_tag g) ++ order_tag n ∷ [])) ≡ g
    behind none k = refl
    behind (some []) k = absurd (k refl)
    behind (some (c ∷ s)) k = refl

-- What stays as it is.
pub eq_order-pos : (a : Option ℤ) (n : ℕ) → eq_order a (some (pos n)) ≡ true → a ≡ some (pos n)
eq_order-pos none n e = cc
eq_order-pos (some (pos m)) n e = let h : m ≡ n = ground arith in ap (λ x. some (pos x)) h
eq_order-pos (some (negsuc m)) n e = absurd (ground arith)

same_group :
    (t : Text) (g : Option Text)
    → g ≢ some []
    → not (eq_path (some t) (new_group_tag g)) ≡ false
    → some (drop 2 t) ≡ g
same_group t none k m = cc
same_group t (some []) k m = absurd (k refl)
same_group t (some (c ∷ s)) k m =
    ap (λ x. some (drop 2 x)) (eq_to t (group_prefix ++ c ∷ s) (ground (arith, m)))

tagged :
    (o g : Option Text)
    → g ≢ some []
    → elim o as (λ x. Bool) [ none ↦ true | some t ↦ not (eq_path (some t) (new_group_tag g)) ]
      ≡ false
    → path_of o ≡ g
tagged none g k m = cc
tagged (some t) g k m = same_group t g k m

pub group_changes-path :
    (tags : Option (List Text)) (dest : Option Text)
    → dest ≢ some []
    → group_changes tags (new_group_tag dest) ≡ false
    → elim tags as (λ x. Option Text) [ none ↦ none | some ts ↦ path_of (group_tag ts) ] ≡ dest
group_changes-path none none h e = refl
group_changes-path none (some []) h e = absurd (h refl)
group_changes-path none (some (c ∷ s)) h e = cc
group_changes-path (some ts) dest h e = tagged (group_tag ts) dest h e
