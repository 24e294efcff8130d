-- ===== src/SshConfig/Lines.antt =====
-- One line that `getSSHConfigBlock` writes, as `parseSSHConfigBlock` reads it
-- (frontend/src/common.ts).
use mathlib.Core.List.{append_assoc}
use cozyssh.Prelude.{
  ℕ, ◌≡◌, refl, sym, ap, ◌∙◌, inl, inr, [], ◌∷◌, ◌++◌, map, some, Bool, false, not, ◌==◌, any,
  Bool-cases, arith,
}
use cozyssh.SshConfig.{is_empty, starts, hash, feed}
use cozyssh.SshConfig.Units.{
  Text, units, is_break, is_key, lower, trim, trim_start, trim_end, add_front, add_head,
  split_breaks,
}
use cozyssh.SshConfig.Read.{
  skip_equals, Parsed, key_of, read_line, assign_line, scan_line, scan, unquote,
}

-- A value that a line keeps: not empty, on one line, with no white space at its ends, and with no "="
-- nor quotes that are taken off.
pub record IsValue (v : Text) : Type 0 where
  pub some_unit : is_empty v ≡ false
  pub start : trim_start v ≡ v
  pub end : trim_end v ≡ v
  pub one_line : any is_break v ≡ false
  pub no_equals : starts 61 v ≡ false
  pub no_quotes : unquote v ≡ v

pub any-append :
    (q : ℕ → Bool) (s t : Text) → any q s ≡ false → any q t ≡ false → any q (s ++ t) ≡ false
any-append q [] t h k = k
any-append q (c ∷ s) t h k = ground (arith, any-append q s t)

is_break_not : (c : ℕ) → is_break c ≡ false → ((c == 10) ≡ false) × ((c == 13) ≡ false)
is_break_not c h = (ground arith, ground arith)

pub split_breaks-line :
    (l rest : Text)
    → any is_break l ≡ false
    → split_breaks ((l ++ feed) ++ rest) ≡ l ∷ split_breaks rest
unfolding split_breaks
split_breaks-line [] rest h = refl
split_breaks-line (c ∷ l) rest h =
    let (m, n) = is_break_not c (ground arith) in
    rw (m, n) (ap (add_head c) (split_breaks-line l rest (ground arith)))

add_front_some : (c : ℕ) (s : Text) → is_empty s ≡ false → add_front c s ≡ c ∷ s
add_front_some c [] h = cc
add_front_some c (d ∷ s) h = refl

append_some : (s t : Text) → is_empty t ≡ false → is_empty (s ++ t) ≡ false
append_some [] t h = h
append_some (c ∷ s) t h = refl

pub trim_end-append :
    (s t : Text) → is_empty t ≡ false → trim_end t ≡ t → trim_end (s ++ t) ≡ s ++ t
unfolding trim_end
trim_end-append [] t h e = e
trim_end-append (c ∷ s) t h e =
    ap (add_front c) (trim_end-append s t h e) ∙ add_front_some c (s ++ t) (append_some s t h)

key_of-append :
    (key v : Text)
    → any (λ c. not (is_key c)) key ≡ false
    → key_of (key ++ (units " " ++ v)) ≡ (key, units " " ++ v)
unfolding key_of
key_of-append [] v h = refl
key_of-append (c ∷ key) v h = elim (Bool-cases (is_key c)) [
  | inl k ↦ rw (k, key_of-append key v (rw k at h)) refl
  | inr n ↦ absurd (let j = rw n at h in cc)
]

skip_equals_lem : (v : Text) → starts 61 v ≡ false → skip_equals v ≡ v
skip_equals_lem [] h = refl
skip_equals_lem (c ∷ v) h = rw h refl

value_lem : (v : Text) → IsValue v → trim_start (skip_equals (trim_start (32 ∷ v))) ≡ v
unfolding trim_start
value_lem v i =
    ap (λ x. trim_start (skip_equals x)) i.start
    ∙ ap trim_start (skip_equals_lem v i.no_equals)
    ∙ i.start

pub trim_value : (v : Text) → IsValue v → trim v ≡ v
trim_value v i = ap trim_end i.start ∙ i.end

-- What stands before the keyword is white space on the same line, and the keyword is made of
-- letters.
module _ (pre : Text) (k : ℕ) (ks : Text) (white : (s : Text) → trim_start (pre ++ (k ∷ s)) ≡ k ∷ s)
    (no_hash : (k == hash) ≡ false) (letters : any (λ c. not (is_key c)) (k ∷ ks) ≡ false) where
  read_line-line :
      (v : Text)
      → IsValue v
      → read_line ((k ∷ ks) ++ (units " " ++ v)) ≡ some (map lower (k ∷ ks), v)
  unfolding read_line
  read_line-line v i =
      rw (key_of-append (k ∷ ks) v letters, value_lem v i, i.one_line, trim_value v i, i.no_quotes)
        refl

  scan_line-line :
      (v : Text) (p : Parsed)
      → IsValue v
      → scan_line (pre ++ ((k ∷ ks) ++ (units " " ++ v))) p
        ≡ assign_line (some (map lower (k ∷ ks), v)) p
  unfolding scan_line
  scan_line-line v p i =
      let trimmed =
        ap trim_end (white (ks ++ (units " " ++ v)))
        ∙ trim_end-append (k ∷ ks) (units " " ++ v) refl
            (trim_end-append (units " ") v i.some_unit i.end) in
      rw (trimmed, no_hash, read_line-line v i) refl

  pub scan-line :
      (v rest : Text) (p : Parsed)
      → any is_break pre ≡ false
      → any is_break (k ∷ ks) ≡ false
      → IsValue v
      → scan (split_breaks ((pre ++ ((k ∷ ks) ++ (units " " ++ (v ++ feed)))) ++ rest)) p
        ≡ scan (split_breaks rest) (assign_line (some (map lower (k ∷ ks), v)) p)
  unfolding scan
  scan-line v rest p a b i =
      let text = pre ++ ((k ∷ ks) ++ (units " " ++ v)) in
      let e =
        ap (◌++◌ pre) (sym (append_assoc (k ∷ ks) (units " " ++ v) feed))
        ∙ sym (append_assoc pre ((k ∷ ks) ++ (units " " ++ v)) feed) in
      let one_line =
        any-append is_break pre _ a
          (any-append is_break (k ∷ ks) _ b (any-append is_break (units " ") v refl i.one_line)) in
      ap (λ t. scan (split_breaks (t ++ rest)) p) e
      ∙ ap (λ ls. scan ls p) (split_breaks-line text rest one_line)
      ∙ ap (scan (split_breaks rest)) (scan_line-line v p i)
