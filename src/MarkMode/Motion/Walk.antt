-- ===== src/MarkMode/Motion/Walk.antt =====
-- Walks over positions: what the two loops of the word motions of frontend/src/markMode.ts find, for
-- a step that some measure bounds. Both steps are such walks.
use cozyssh.Prelude.{
  ℕ, zero, suc, ◌-◌, ◌*◌, ◌<◌, ◌≡◌, refl, inl, inr, Option, none, some, Bool, true, false, not,
  Bool-cases, Option-cases, arith,
}
use cozyssh.MarkMode.Terminal.{Terminal, MarkModePosition, IsTerminal, InBuffer}
use cozyssh.MarkMode.Motion.{next_pos, prev_pos, skip, advance, walk_fuel}
use cozyssh.MarkMode.Motion.Order.{
  index, index-lt, index-next_pos, index-prev_pos, next_pos-InBuffer, prev_pos-InBuffer,
}

-- `First step hit o r`: of the positions from `o` on, `r` is the first where `hit` holds.
pub data First (step : MarkModePosition → Option MarkModePosition) (hit : MarkModePosition → Bool)
    : Option MarkModePosition → Option MarkModePosition → Type 0 where
  end : First step hit none none
  here : {p : MarkModePosition} → hit p ≡ true → First step hit (some p) (some p)
  later :
      {p : MarkModePosition} {r : Option MarkModePosition}
      → hit p ≡ false
      → First step hit (step p) r
      → First step hit (some p) r

-- A search for `hit` may start with one for a weaker test.
pub First-trans :
    {step : MarkModePosition → Option MarkModePosition} {weak hit : MarkModePosition → Bool}
    {o r s : Option MarkModePosition}
    → ((p : MarkModePosition) → weak p ≡ false → hit p ≡ false)
    → First step weak o r
    → First step hit r s
    → First step hit o s
First-trans w end g = g
First-trans w (here h) g = g
First-trans w (later {p} h f) g = later (w p h) (First-trans w f g)

pub First-hit :
    {step : MarkModePosition → Option MarkModePosition} {hit : MarkModePosition → Bool}
    {o : Option MarkModePosition} {p : MarkModePosition}
    → First step hit o (some p)
    → hit p ≡ true
First-hit (here h) = h
First-hit (later h f) = First-hit f

-- A walk: `step` keeps `Good` and brings `measure` down.
pub record Walk (step : MarkModePosition → Option MarkModePosition) : Type 1 where
  pub Good : MarkModePosition → Type 0
  pub measure : MarkModePosition → ℕ
  pub good : (p q : MarkModePosition) → Good p → step p ≡ some q → Good q
  pub falls : (p q : MarkModePosition) → Good p → step p ≡ some q → measure q < measure p

module _ (term : Terminal) (t : IsTerminal term) where
  abbrev pub ahead : MarkModePosition → ℕ
  ahead p = term.length * term.cols - index term p

  pub forward_falls :
      (p q : MarkModePosition) → InBuffer term p → next_pos term p ≡ some q → ahead q < ahead p
  forward_falls p q h e = omega (arith, index-lt term p h, index-next_pos term p q h e)

  pub backward_falls :
      (p q : MarkModePosition) → prev_pos term p ≡ some q → index term q < index term p
  backward_falls p q e = omega (arith, index-prev_pos term p q t.has_cols e)

  abbrev pub forward : Walk (next_pos term)
  forward = record {
    Good = InBuffer term;
    measure = λ p. term.length * term.cols - index term p;
    good = λ p q h e. next_pos-InBuffer term p q t h e;
    falls = λ p q h e. forward_falls p q h e;
  }

  abbrev pub backward : Walk (prev_pos term)
  backward = record {
    Good = InBuffer term;
    measure = index term;
    good = λ p q h e. prev_pos-InBuffer term p q t h e;
    falls = λ p q h e. backward_falls p q e;
  }

  pub forward_fuel : (p : MarkModePosition) → InBuffer term p → forward.measure p < walk_fuel term
  forward_fuel p g = omega (arith, index-lt term p g)

  pub backward_fuel : (p : MarkModePosition) → InBuffer term p → backward.measure p < walk_fuel term
  backward_fuel p g = omega (arith, index-lt term p g)

module _ {step : MarkModePosition → Option MarkModePosition} (w : Walk step) where
  abbrev pub AllGood : Option MarkModePosition → Type 0
  AllGood none = Unit
  AllGood (some p) = w.Good p

  pub step-AllGood : (p : MarkModePosition) → w.Good p → AllGood (step p)
  step-AllGood p g = elim (Option-cases (step p)) [
    | inl e ↦ rw e tt
    | inr (q, e) ↦ rw e (w.good p q g e)
  ]

  abbrev pub Fueled : ℕ → Option MarkModePosition → Type 0
  Fueled fuel none = Unit
  Fueled fuel (some p) = w.measure p < fuel

  pub step-Fueled :
      (fuel : ℕ) (p : MarkModePosition) → w.Good p → w.measure p < suc fuel → Fueled fuel (step p)
  step-Fueled fuel p g m = elim (Option-cases (step p)) [
    | inl e ↦ rw e tt
    | inr (q, e) ↦ let l = w.falls p q g e in rw e (omega arith)
  ]

  -- `skip` stops at the first position where its test fails.
  pub skip-First :
      (test : MarkModePosition → Bool) (fuel : ℕ) (o : Option MarkModePosition)
      → AllGood o
      → Fueled fuel o
      → (r : Option MarkModePosition) × (skip step test fuel o ≡ some r)
        × First step (λ p. not (test p)) o r
        × AllGood r
  unfolding skip
  skip-First test fuel none g m = (none, refl, end, tt)
  skip-First test zero (some p) g m = absurd (omega arith)
  skip-First test (suc fuel) (some p) g m = elim (Bool-cases (test p)) [
    | inl more ↦
        let (r, e, f, h) =
          skip-First test fuel (step p) (step-AllGood p g) (step-Fueled fuel p g m) in
        (r, rw (more, skip) e, later (rw more) f, h)
    | inr done ↦ (some p, rw (done, skip), here (rw done), g)
  ]

  -- `advance` stops at the first position after which its test fails.
  pub advance_lem :
      (test last : MarkModePosition → Bool)
      → ((p : MarkModePosition) → test p ≡ true → step p ≡ none → last p ≡ true)
      → ((p q : MarkModePosition) → test p ≡ true → step p ≡ some q → last p ≡ not (test q))
      → (fuel : ℕ) (p : MarkModePosition) → test p ≡ true
      → w.Good p
      → w.measure p < fuel
      → (r : MarkModePosition) × (advance step test fuel p ≡ some r)
        × First step last (some p) (some r)
        × w.Good r
  unfolding advance
  advance_lem test last stop go zero p t g m = absurd (omega arith)
  advance_lem test last stop go (suc fuel) p t g m = elim (Option-cases (step p)) [
    | inl e ↦ (p, rw (e, advance), here (stop p t e), g)
    | inr (q, e) ↦ elim (Bool-cases (test q)) [
      | inr differs ↦ (p, rw (e, advance) (rw differs), here (rw (go p q t e, differs)), g)
      | inl same ↦
          let l = w.falls p q g e in
          let (r, a, f, h) =
            advance_lem test last stop go fuel q same (w.good p q g e) (omega arith) in
          (r, rw (e, advance) (rw same a), later (rw (go p q t e, same)) (rw e f), h)
    ]
  ]

  pub First-AllGood :
      {hit : MarkModePosition → Bool} {o r : Option MarkModePosition}
      → First step hit o r
      → AllGood o
      → AllGood r
  First-AllGood end g = tt
  First-AllGood (here h) g = g
  First-AllGood (later {p} h f) g = First-AllGood f (step-AllGood p g)
