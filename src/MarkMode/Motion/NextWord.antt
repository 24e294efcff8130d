-- ===== src/MarkMode/Motion/NextWord.antt =====
-- The two loops of `w` of frontend/src/markMode.ts: the first skips the cursor's own word, the second
-- the blanks.
use cozyssh.Prelude.{
  ℕ, zero, suc, ◌≡◌, refl, subst, ◌⊎◌, inl, inr, Option, none, some, Bool, true, false, not,
  Bool-cases, Option-cases, arith,
}
use cozyssh.MarkMode.Terminal.{Terminal, MarkModePosition, IsTerminal, InBuffer, last_position}
use cozyssh.MarkMode.Motion.{
  CharClass, whitespace, class_eq, class_at, next_pos, prev_pos, skip, walk_fuel, or_else,
  next_word_from,
}
use cozyssh.MarkMode.Motion.Order.{prev_pos-next_pos, next_pos-InBuffer}
use cozyssh.MarkMode.Motion.Walk.{
  First, end, here, later, forward, Fueled, step-Fueled, forward_fuel,
}
use cozyssh.MarkMode.Motion.Groups.{class_eq_refl, class_eq→eq, is_word_start, blank}

module _ (term : Terminal) (big_word : Bool) where
  module _ (t : IsTerminal term) where
    -- The cell before `p` is of class `c`.
    abbrev After : CharClass → MarkModePosition → Type 0
    After c p = (q : MarkModePosition) × (prev_pos term p ≡ some q) × (class_at term big_word q ≡ c)

    next-After :
        (p q : MarkModePosition)
        → InBuffer term p
        → next_pos term p ≡ some q
        → After (class_at term big_word p) q
    next-After p q g e = (p, prev_pos-next_pos term p q t g e, refl)

    -- Where the blanks are skipped, each word starts after a blank or another class.
    abbrev Ready : Option MarkModePosition → Type 0
    Ready none = Unit
    Ready (some p) =
        InBuffer term p
        × ((c : CharClass) × After c p
            × ((c ≡ whitespace) ⊎ (class_eq (class_at term big_word p) c ≡ false)))

    Ready-next :
        (p : MarkModePosition)
        → InBuffer term p
        → class_at term big_word p ≡ whitespace
        → Ready (next_pos term p)
    Ready-next p g e = elim (Option-cases (next_pos term p)) [
      | inl n ↦ rw n tt
      | inr (q, n) ↦ rw n (
        next_pos-InBuffer term p q t g n,
        (whitespace, subst (λ c. After c q) e (next-After p q g n), inl refl),
      )
    ]

    Ready-start :
        (p : MarkModePosition)
        → Ready (some p)
        → blank term big_word p ≡ false
        → (is_word_start term big_word) p ≡ true
    Ready-start p (g, (c, (q, e, k), d)) solid =
        rw (e, solid, k) (start (class_at term big_word p) c d solid)
      where
        start :
            (a b : CharClass)
            → (b ≡ whitespace) ⊎ (class_eq a b ≡ false)
            → class_eq a whitespace ≡ false
            → not (class_eq b a) ≡ true
        start a b h k = ground arith

    skip_blank_lem :
        (fuel : ℕ) (o : Option MarkModePosition)
        → Ready o
        → Fueled (forward term t) fuel o
        → (r : Option MarkModePosition) × (skip (next_pos term) (blank term big_word) fuel o
            ≡ some r)
          × First (next_pos term) (is_word_start term big_word) o r
    unfolding skip
    skip_blank_lem fuel none g m = (none, refl, end)
    skip_blank_lem zero (some p) g m = absurd (omega arith)
    skip_blank_lem (suc fuel) (some p) g m = elim (Bool-cases (blank term big_word p)) [
      | inl white ↦
          let (r, e, f) =
            skip_blank_lem fuel (next_pos term p) (Ready-next p g.0 (class_eq→eq _ _ white))
              (step-Fueled (forward term t) fuel p g.0 m) in
          (r, rw (white, skip) e, later (rw white) f)
      | inr solid ↦ (some p, rw (solid, skip), here (Ready-start p g solid))
    ]

    -- Within the cursor's own word no cell starts a word.
    abbrev Behind : CharClass → Option MarkModePosition → Type 0
    Behind c none = Unit
    Behind c (some p) = InBuffer term p × After c p

    Behind-next :
        (p : MarkModePosition)
        → InBuffer term p
        → Behind (class_at term big_word p) (next_pos term p)
    Behind-next p g = elim (Option-cases (next_pos term p)) [
      | inl n ↦ rw n tt
      | inr (q, n) ↦ rw n (next_pos-InBuffer term p q t g n, next-After p q g n)
    ]

    inside_word :
        (c : CharClass) (p : MarkModePosition)
        → After c p
        → class_at term big_word p ≡ c
        → (is_word_start term big_word) p ≡ false
    inside_word c p (q, e, k) s = rw (e, k, s, class_eq_refl c) (ground arith)

    skip_word_lem :
        (c : CharClass) (fuel : ℕ) (o : Option MarkModePosition)
        → Behind c o
        → Fueled (forward term t) fuel o
        → (r : Option MarkModePosition) × (skip
              (next_pos term)
              (λ p. class_eq (class_at term big_word p) c)
              fuel
              o
            ≡ some r)
          × Ready r
          × ((s : Option MarkModePosition)
              → First (next_pos term) (is_word_start term big_word) r s
              → First (next_pos term) (is_word_start term big_word) o s)
    unfolding skip
    skip_word_lem c fuel none g m = (none, refl, tt, λ s f. f)
    skip_word_lem c zero (some p) g m = absurd (omega arith)
    skip_word_lem c (suc fuel) (some p) (g, a) m =
        elim (Bool-cases (class_eq (class_at term big_word p) c)) [
          | inl same ↦
              let k = class_eq→eq _ c same in
              let (r, e, y, f) =
                skip_word_lem c fuel (next_pos term p)
                  (subst (λ d. Behind d (next_pos term p)) k (Behind-next p g))
                  (step-Fueled (forward term t) fuel p g m) in
              (r, rw (same, skip) e, y, λ s h. later (inside_word c p a k) (f s h))
          | inr other ↦ (some p, rw (other, skip), (g, (c, a, inr other)), λ s h. h)
        ]

    Ready-fuel :
        (o : Option MarkModePosition) → Ready o → Fueled (forward term t) (walk_fuel term) o
    Ready-fuel none y = tt
    Ready-fuel (some p) (g, y) = forward_fuel term t p g

    pub next_word_lem :
        (current first : MarkModePosition)
        → InBuffer term current
        → next_pos term current ≡ some first
        → (r : Option MarkModePosition) × (next_word_from term current big_word first
            ≡ some (or_else r (last_position term)))
          × First (next_pos term) (is_word_start term big_word) (some first) r
    unfolding next_word_from
    next_word_lem current first g n =
        let inside = next_pos-InBuffer term current first t g n in
        let after = next-After current first g n in
        elim (Bool-cases (class_eq (class_at term big_word current) whitespace)) [
          | inl white ↦
              let (r, e, f) =
                skip_blank_lem (walk_fuel term) (some first)
                  (inside, (class_at term big_word current, after, inl (class_eq→eq _ _ white)))
                  (forward_fuel term t first inside) in
              (r, rw white (rw e), f)
          | inr solid ↦
              let (o, e, y, back) =
                skip_word_lem (class_at term big_word current) (walk_fuel term) (some first)
                  (inside, after) (forward_fuel term t first inside) in
              let (r, e', f) = skip_blank_lem (walk_fuel term) o y (Ready-fuel o y) in
              (r, rw solid (rw e (rw e')), back r f)
        ]
