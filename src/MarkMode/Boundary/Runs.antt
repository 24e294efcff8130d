-- ===== src/MarkMode/Boundary/Runs.antt =====
-- The loops of the boundary motions of frontend/src/markMode.ts find the end of a run of spaces, or
-- of other characters, and do not leave the line.
use cozyssh.Prelude.{
  dec_lt, ℕ, zero, suc, ◌+◌, ◌-◌, ◌≤◌, ◌<◌, ◌≡◌, refl, ◌⊎◌, inl, inr, some, Bool, not, Bool-cases,
  ltb, arith, subst,
}
use cozyssh.MarkMode.Terminal.{Line, IsLine}
use cozyssh.MarkMode.Boundary.{is_space, bool_eq, scan_right, scan_left, List, false, true}

-- The cell at `col` is a space, or is none, as `want` says.
abbrev pub Fits : Line → Bool → ℕ → Type 0
Fits line want col = (chars : List ℕ) × (line.get_cell col ≡ some chars) × (is_space chars ≡ want)

-- From `col` the run of the wanted cells goes on to `last`, and no further.
pub record RunRight (line : Line) (want : Bool) (col last : ℕ) : Type 0 where
  pub starts : col ≤ last
  pub run : (k : ℕ) → col < k → k ≤ last → Fits line want k
  pub ends : (line.length ≤ last + 1) ⊎ Fits line (not want) (last + 1)

pub record RunLeft (line : Line) (want : Bool) (first col : ℕ) : Type 0 where
  pub starts : first ≤ col
  pub run : (k : ℕ) → first ≤ k → k < col → Fits line want k
  pub ends : (first ≡ 0) ⊎ Fits line (not want) (first - 1)

bool_eq→eq : (a b : Bool) → bool_eq a b ≡ true → a ≡ b
bool_eq→eq a b h = ground arith

bool_ne : (a b : Bool) → bool_eq a b ≡ false → a ≡ not b
bool_ne a b h = ground arith

module _ {line : Line} {want : Bool} where
  right_here :
      (col : ℕ)
      → (line.length ≤ col + 1) ⊎ Fits line (not want) (col + 1)
      → RunRight line want col col
  right_here col e = record { starts = omega arith; run = λ k p q. absurd (omega arith); ends = e }

  right_step :
      (col last : ℕ)
      → Fits line want (col + 1)
      → RunRight line want (col + 1) last
      → RunRight line want col last
  right_step col last f r = record { starts = omega (arith, r.starts); run = run; ends = r.ends }
    where
      run : (k : ℕ) → col < k → k ≤ last → Fits line want k
      run k p q = elim (dec_lt (col + 1) k) [
        | yes d ↦ r.run k d q
        | no d ↦ let e : col + 1 ≡ k = omega arith in subst (Fits line want) e f
      ]

  left_here :
      (col : ℕ) → (suc col ≡ 0) ⊎ Fits line (not want) col → RunLeft line want (suc col) (suc col)
  left_here col e = record {
    starts = omega arith;
    run = λ k p q. absurd (omega arith);
    ends = rw one e;
  }
    where
      one : suc col - 1 ≡ col
      one = omega arith

  left_step :
      (first col : ℕ)
      → Fits line want col
      → RunLeft line want first col
      → RunLeft line want first (suc col)
  left_step first col f r = record { starts = omega (arith, r.starts); run = run; ends = r.ends }
    where
      run : (k : ℕ) → first ≤ k → k < suc col → Fits line want k
      run k p q = elim (dec_lt k col) [
        | yes d ↦ r.run k p d
        | no d ↦ let e : col ≡ k = omega arith in subst (Fits line want) e f
      ]

module _ (cols : ℕ) (line : Line) (want : Bool) (l : IsLine cols line) where
  pub scan_right_lem :
      (fuel col : ℕ)
      → line.length ≤ fuel + col
      → col < line.length
      → (last : ℕ) × (scan_right line want fuel col ≡ some last)
        × RunRight line want col last
        × (last < line.length)
  unfolding scan_right
  scan_right_lem zero col f h = absurd (omega arith)
  scan_right_lem (suc fuel) col f h = elim (Bool-cases (ltb col (line.length - 1))) [
    | inr stop ↦ (col, rw (stop, scan_right), right_here col (inl (ground arith)), h)
    | inl more ↦
        let (chars, c) = l.cells (col + 1) (ground arith) in
        elim (Bool-cases (bool_eq (is_space chars) want)) [
          | inr other ↦ (
            col,
            rw (more, scan_right) (rw c (rw other)),
            right_here col (inr (chars, c, bool_ne _ _ other)),
            h,
          )
          | inl same ↦
              let (last, e, r, b) = scan_right_lem fuel (col + 1) (omega arith) (ground arith) in
              (
                last,
                rw (more, scan_right) (rw c (rw same e)),
                right_step col last (chars, c, bool_eq→eq _ _ same) r,
                b,
              )
        ]
  ]

  pub scan_left_lem :
      (col : ℕ)
      → col < line.length
      → (first : ℕ) × (scan_left line want col ≡ some first) × RunLeft line want first col
  unfolding scan_left
  scan_left_lem zero h = (
    0,
    refl,
    record { starts = omega arith; run = λ k _ p. absurd (omega arith); ends = inl refl },
  )
  scan_left_lem (suc col) h =
      let (chars, c) = l.cells col (omega arith) in
      elim (Bool-cases (bool_eq (is_space chars) want)) [
        | inr other ↦ (
          suc col,
          rw (c, scan_left) (rw other),
          left_here col (inr (chars, c, bool_ne _ _ other)),
        )
        | inl same ↦
            let (first, e, r) = scan_left_lem col (omega arith) in
            (
              first,
              rw (c, scan_left) (rw same e),
              left_step first col (chars, c, bool_eq→eq _ _ same) r,
            )
      ]
