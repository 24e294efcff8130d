-- ===== src/SshConfig/Options.antt =====
-- The lines of the options and of the forwards, as `parseSSHConfigBlock` of frontend/src/common.ts
-- reads them back.
use mathlib.Core.List.{append_assoc}
use cozyssh.Prelude.{
  ℕ, ◌≡◌, refl, sym, ap, ◌∙◌, subst, inl, inr, ◌⊎◌, List, [], ◌∷◌, ◌++◌, map, some, true, false,
  not, ◌==◌, any, Bool-cases, arith, All,
}
use cozyssh.SshConfig.{is_empty, hash, feed}
use cozyssh.SshConfig.Units.{
  Text, units, is_white, is_break, is_key, lower, trim_start, split_breaks, eq,
}
use cozyssh.SshConfig.Write.{line, option_line, forward_lines}
use cozyssh.SshConfig.Read.{Parsed, Field, field_of, assign, assign_line, scan, choice, is_one_of}
use cozyssh.SshConfig.Lines.{IsValue, scan-line}

-- A keyword that stands for the field.
abbrev pub IsKeyword : Text → Field → Type 0
IsKeyword [] f = true ≡ false
IsKeyword (k ∷ ks) f =
    ((k == hash) ≡ false)
    × (is_white k ≡ false)
    × (any (λ c. not (is_key c)) (k ∷ ks) ≡ false)
    × (any is_break (k ∷ ks) ≡ false)
    × (field_of (map lower (k ∷ ks)) ≡ some f)

-- A field that is not written, or a value that is.
abbrev pub IsOption : Text → Type 0
IsOption v = (v ≡ []) ⊎ IsValue v

-- The field is assigned each of the values.
unfoldable pub assign_all : Field → List Text → Parsed → Parsed
assign_all f [] p = p
assign_all f (v ∷ vs) p = assign_all f vs (assign f v p)

assign_found :
    (key v : Text) (f : Field) (p : Parsed)
    → field_of key ≡ some f
    → assign_line (some (key, v)) p ≡ assign f v p
unfolding assign_line
assign_found key v f p h = rw (h, assign_line) refl

scan-keyword :
    (pre key : Text) (f : Field) (v rest : Text) (p : Parsed)
    → ((k : ℕ) (s : Text) → is_white k ≡ false → trim_start (pre ++ (k ∷ s)) ≡ k ∷ s)
    → any is_break pre ≡ false
    → IsKeyword key f
    → is_empty key ≡ false
    → IsValue v
    → scan (split_breaks ((pre ++ (key ++ (units " " ++ (v ++ feed)))) ++ rest)) p
      ≡ scan (split_breaks rest) (assign f v p)
scan-keyword pre [] f v rest p white a k e i = cc
scan-keyword pre (k ∷ ks) f v rest p white a (no_hash, w, letters, b, found) e i =
    scan-line pre k ks (λ s. white k s w) no_hash letters v rest p a b i
    ∙ ap (scan (split_breaks rest)) (assign_found (map lower (k ∷ ks)) v f p found)

pub host_line :
    (v rest : Text) (p : Parsed)
    → IsValue v
    → scan (split_breaks ((units "Host " ++ (v ++ feed)) ++ rest)) p
      ≡ scan (split_breaks rest) (assign Field.host v p)
unfolding trim_start
host_line v rest p i =
    scan-keyword [] (units "Host") Field.host v rest p (λ k s w. rw w refl) refl
      (refl, refl, refl, refl, refl) refl i

module _ (key : Text) (f : Field) (is_keyword : IsKeyword key f)
    (given : is_empty key ≡ false) where
  pub line_lem :
      (v rest : Text) (p : Parsed)
      → IsValue v
      → scan (split_breaks (line key v ++ rest)) p ≡ scan (split_breaks rest) (assign f v p)
  unfolding trim_start
  line_lem v rest p i =
      scan-keyword (units "    ") key f v rest p (λ k s w. rw w refl) refl is_keyword given i

  pub option_line_lem :
      (v rest : Text) (p : Parsed)
      → IsOption v
      → assign f [] p ≡ p
      → scan (split_breaks (option_line key v ++ rest)) p ≡ scan (split_breaks rest) (assign f v p)
  option_line_lem v rest p (inl e) blank =
      subst
        (λ w.
          scan (split_breaks (option_line key w ++ rest)) p
          ≡ scan (split_breaks rest) (assign f w p))
        (sym e) (ap (scan (split_breaks rest)) (sym blank))
  option_line_lem v rest p (inr i) blank = rw i.some_unit (line_lem v rest p i)

  pub forward_lines_lem :
      (fs : List Text) (rest : Text) (p : Parsed)
      → All IsValue fs
      → scan (split_breaks (forward_lines key fs ++ rest)) p
        ≡ scan (split_breaks rest) (assign_all f fs p)
  unfolding forward_lines assign_all
  forward_lines_lem [] rest p h = refl
  forward_lines_lem (v ∷ fs) rest p (i, h) =
      ap (λ t. scan (split_breaks t) p) (append_assoc (line key v) (forward_lines key fs) rest)
      ∙ line_lem v (forward_lines key fs ++ rest) p i
      ∙ forward_lines_lem fs rest (assign f v p) h

-- A word of the list is read as it is.
pub eq_sound : (s t : Text) → eq s t ≡ true → s ≡ t
eq_sound [] [] h = refl
eq_sound [] (d ∷ t) h = cc
eq_sound (c ∷ s) [] h = cc
eq_sound (c ∷ s) (d ∷ t) h = ground (arith, eq_sound s t)

lower_of :
    (words : List Text) (v : Text)
    → All (λ w. map lower w ≡ w) words
    → is_one_of words v ≡ true
    → map lower v ≡ v
lower_of [] v a h = cc
lower_of (w ∷ words) v (e, a) h = elim (Bool-cases (eq v w)) [
  | inl hit ↦ subst (λ x. map lower x ≡ x) (sym (eq_sound v w hit)) e
  | inr miss ↦ lower_of words v a (rw miss at h)
]

pub choice_lem :
    (words : List Text) (v : Text)
    → All (λ w. map lower w ≡ w) words
    → (v ≡ []) ⊎ (is_one_of words v ≡ true)
    → is_one_of words [] ≡ false
    → choice words v [] ≡ v
choice_lem words v a (inl e) h = subst (λ x. choice words x [] ≡ x) (sym e) (rw h refl)
choice_lem words v a (inr m) h = rw (lower_of words v a m, m) refl
