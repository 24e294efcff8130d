-- ===== src/MarkMode/Motion/Groups.antt =====
-- Groups of characters of one class, and the loops of `b` and `e` of frontend/src/markMode.ts: they
-- stop at the first edge of a group.
use cozyssh.Prelude.{
  ℕ, ◌<◌, ◌≡◌, refl, subst, Option, none, some, Bool, true, false, not, ◌&&◌, arith,
}
use cozyssh.MarkMode.Terminal.{Terminal, MarkModePosition}
use cozyssh.MarkMode.Motion.{
  CharClass, whitespace, class_eq, class_at, next_pos, prev_pos, advance, walk_fuel, or_else,
  word_group_from, word_group_end,
}
use cozyssh.MarkMode.Motion.Walk.{
  First, end, First-trans, First-hit, Walk, AllGood, skip-First, advance_lem,
}

pub class_eq_refl : (c : CharClass) → class_eq c c ≡ true
class_eq_refl c = ground arith

pub class_eq→eq : (c d : CharClass) → class_eq c d ≡ true → c ≡ d
class_eq→eq c d h = ground arith

module _ (term : Terminal) (big_word : Bool) where
  abbrev pub differs : CharClass → Option MarkModePosition → Bool
  differs c none = true
  differs c (some q) = not (class_eq (class_at term big_word q) c)

  -- A cell is the edge of a group if it is not blank and the cell behind it (by the step `back`)
  -- is of another class, or there is none.
  abbrev pub is_edge : (MarkModePosition → Option MarkModePosition) → MarkModePosition → Bool
  is_edge back p =
      not (class_eq (class_at term big_word p) whitespace)
      && differs (class_at term big_word p) (back p)

  abbrev pub is_word_start : MarkModePosition → Bool
  is_word_start = is_edge (prev_pos term)

  abbrev pub is_word_end : MarkModePosition → Bool
  is_word_end = is_edge (next_pos term)

  abbrev pub blank : MarkModePosition → Bool
  blank p = class_eq (class_at term big_word p) whitespace

  not-blank-is_edge :
      (back : MarkModePosition → Option MarkModePosition) (p : MarkModePosition)
      → not (blank p) ≡ false
      → is_edge back p ≡ false
  not-blank-is_edge back p h = rw h

  -- `b` and `e`: over either step, the first edge.
  module _ {step : MarkModePosition → Option MarkModePosition} (w : Walk step) where
    group_lem :
        (c : CharClass)
        → class_eq c whitespace ≡ false
        → (fuel : ℕ) (p : MarkModePosition) → class_at term big_word p ≡ c
        → w.Good p
        → w.measure p < fuel
        → (r : MarkModePosition) × (advance step (λ q. class_eq (class_at term big_word q) c) fuel p
            ≡ some r)
          × First step (is_edge step) (some p) (some r)
          × w.Good r
    group_lem c solid fuel p e g m =
        advance_lem w (λ q. class_eq (class_at term big_word q) c) (is_edge step)
          (λ q t n. let s = class_eq→eq _ c t in rw (s, n, solid))
          (λ q q' t n. let s = class_eq→eq _ c t in rw (s, n, solid)) fuel p
          (rw e (class_eq_refl c)) g m

    solid_of_First :
        {o r : Option MarkModePosition}
        → First step (λ p. not (blank p)) o r
        → (p : MarkModePosition) → r ≡ some p
        → blank p ≡ false
    solid_of_First {o} f p e =
        ground (arith, First-hit (subst (First step (λ p. not (blank p)) o) e f))

    word_group_end_lem :
        (edge current : MarkModePosition)
        → ((p : MarkModePosition) → w.Good p → w.measure p < walk_fuel term)
        → (o : Option MarkModePosition) → AllGood w o
        → ((p : MarkModePosition) → o ≡ some p → blank p ≡ false)
        → (r : Option MarkModePosition) × (word_group_end term current big_word step edge o
            ≡ some (or_else r edge))
          × First step (is_edge step) o r
          × AllGood w r
    unfolding word_group_end
    word_group_end_lem edge current fuel none g solid = (none, refl, end, tt)
    word_group_end_lem edge current fuel (some p) g solid =
        let (r, e, f, h) =
          group_lem (class_at term big_word p) (solid p refl) (walk_fuel term) p refl g
            (fuel p g) in
        (some r, e, f, h)

    pub word_group_lem :
        (edge current first : MarkModePosition)
        → ((p : MarkModePosition) → w.Good p → w.measure p < walk_fuel term)
        → w.Good first
        → (r : Option MarkModePosition) × (word_group_from term current big_word step edge first
            ≡ some (or_else r edge))
          × First step (is_edge step) (some first) r
          × AllGood w r
    unfolding word_group_from
    word_group_lem edge current first fuel g =
        let (o, e, f, h) = skip-First w blank (walk_fuel term) (some first) g (fuel first g) in
        let (r, e', f', h') = word_group_end_lem edge current fuel o h (solid_of_First f) in
        (r, rw e e', First-trans (not-blank-is_edge step) f f', h')
