-- ===== src/Titles/Fresh.antt =====
-- `newTabTitle` of frontend/src/store.ts ends, with a title that no terminal tab has.
use text.Mathlib.TextLemmas.{append_cancel_left, append_cancel_right}
use cozyssh.Prelude.{
  ℕ, zero, suc, ◌+◌, ◌≤◌, ◌<◌, ◌≡◌, refl, sym, ◌∙◌, inl, inr, ◌⊎◌, List, [], ◌∷◌, some, true, false,
  not, String, str_eq, str_eq_iff, length, filter, Bool-cases, arith,
}
use cozyssh.Prelude.Decimal.{decimal, decimal_inj}
use cozyssh.Tabs.{TabData, has, or_text}
use cozyssh.Titles.{tab_names, numbered, free_title, new_tab_title}

numbered_inj : (base : String) (m n : ℕ) → numbered base m ≡ numbered base n → m ≡ n
numbered_inj base m n e = decimal_inj m n (
    append_cancel_right (decimal m) (decimal n) ")"
      (append_cancel_left " (" _ _ (append_cancel_left base _ _ e)))

abbrev without : String → List String → List String
without x = filter λ y. not (str_eq x y)

length-without_le : (x : String) (names : List String) → length (without x names) ≤ length names
length-without_le x [] = omega arith
length-without_le x (y ∷ names) = ground (arith, length-without_le x names)

length-without_lt :
    (x : String) (names : List String)
    → has names x ≡ true
    → length (without x names) < length names
length-without_lt x [] h = cc
length-without_lt x (y ∷ names) h =
    ground (arith, length-without_le x names, length-without_lt x names)

has-without :
    (x y : String) (names : List String)
    → str_eq x y ≡ false
    → has (without x names) y ≡ has names y
has-without x y [] h = refl
has-without x y (z ∷ names) h =
    ground (arith, has-without x y names h, str_eq_iff x z, str_eq_iff y z, str_eq_iff x y)

numbered_other :
    (base : String) (m n : ℕ) → m < n → str_eq (numbered base m) (numbered base n) ≡ false
numbered_other base m n h = elim (Bool-cases (str_eq (numbered base m) (numbered base n))) [
  | inl e ↦ absurd (omega (arith, numbered_inj base m n ((str_eq_iff _ _).0 e)))
  | inr e ↦ e
]

module _ (base : String) where
  -- A title with a smaller number makes no difference to the loop.
  free_title-without :
      (names : List String) (fuel k num : ℕ)
      → k < num
      → free_title (without (numbered base k) names) base fuel num ≡ free_title names base fuel num
  unfolding free_title
  free_title-without names zero k num h = refl
  free_title-without names (suc fuel) k num h =
      let e =
        has-without (numbered base k) (numbered base num) names (numbered_other base k num h) in
      elim (Bool-cases (has names (numbered base num))) [
        | inl taken ↦
            rw (e, taken, free_title) (free_title-without names fuel k (num + 1) (omega arith))
        | inr free ↦ rw (e, free, free_title) refl
      ]

  free_title_lem :
      (fuel : ℕ) (names : List String) (num : ℕ)
      → length names < fuel
      → (n : ℕ) × (free_title names base fuel num ≡ some (numbered base n))
        × (num ≤ n)
        × (n < num + fuel)
        × (has names (numbered base n) ≡ false)
  unfolding free_title
  free_title_lem zero names num h = absurd (omega arith)
  free_title_lem (suc fuel) names num h = elim (Bool-cases (has names (numbered base num))) [
    | inl taken ↦
        let (n, e, lo, hi, free) =
          free_title_lem fuel (without (numbered base num) names) (num + 1)
            (omega (arith, length-without_lt (numbered base num) names taken)) in
        (
          n,
          rw (taken, free_title)
              (sym (free_title-without names fuel num (num + 1) (omega arith)) ∙ e),
          omega arith,
          omega arith,
          sym (
                has-without (numbered base num) (numbered base n) names
                  (numbered_other base num n (omega arith)))
              ∙ free,
        )
    | inr free ↦ (num, rw (free, free_title) refl, omega arith, omega arith, free)
  ]

-- The title that a new tab gets is the base ("server", for an empty one), or the base with a number
-- of one or more and at most the number of the terminal tabs and one; no terminal tab has it. The
-- loop ends.
pub new_tab_title_lem :
    (base_title : String) (tabs : List TabData)
    → (title : String) × (new_tab_title base_title tabs ≡ some title)
      × (has (tab_names tabs) title ≡ false)
      × ((title ≡ or_text base_title "server")
          ⊎ ((n : ℕ) × (title ≡ numbered (or_text base_title "server") n)
              × (1 ≤ n)
              × (n ≤ length (tab_names tabs) + 1)))
unfolding new_tab_title
new_tab_title_lem base_title tabs =
    let base = or_text base_title "server" in
    elim (Bool-cases (has (tab_names tabs) base)) [
      | inl taken ↦
          let (n, e, lo, hi, free) =
            free_title_lem base (length (tab_names tabs) + 1) (tab_names tabs) 1 (omega arith) in
          (numbered base n, rw taken e, free, inr (n, refl, lo, omega arith))
      | inr free ↦ (base, rw free refl, free, inl refl)
    ]
