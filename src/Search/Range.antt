-- ===== src/Search/Range.antt =====
-- The snippet of `searchString` (frontend/src/common.ts) holds what is searched for, and is not long.
use cozyssh.Prelude.{
  ℕ, zero, suc, ◌+◌, ◌-◌, min, ◌≡◌, ◌≤◌, ◌<◌, refl, inl, inr, [], ◌∷◌, some, Bool, true, false,
  Bool-cases, Option-cases, arith, length, take, drop, find_index, ltb, ◌==◌, if_elim, option_elim,
}
use cozyssh.SshConfig.Units.{Text, trim}
use cozyssh.SshConfig.{is_empty}
use cozyssh.HostOrder.{starts_with}
use cozyssh.Search.{
  search_string, collapse, index_of, substring, last_index, snippet_start, snippet_end,
}

length-starts_with : (n s : Text) → starts_with n s ≡ true → length n ≤ length s
length-starts_with [] s h = omega arith
length-starts_with (d ∷ n) [] h = cc
length-starts_with (d ∷ n) (c ∷ s) h = omega (arith, length-starts_with n s (ground arith))

-- The needle fits behind the index.
index_of-length : (n s : Text) (i : ℕ) → index_of n s ≡ some i → i + length n ≤ length s
index_of-length [] [] i e = let h : 0 ≡ i = ground arith in omega arith
index_of-length (d ∷ n) [] i e = cc
index_of-length n (c ∷ s) i e = elim (Bool-cases (starts_with n (c ∷ s))) [
  | inl hit ↦
      let h : some 0 ≡ some i = rw hit at e in
      let k : 0 ≡ i = ground arith in omega (arith, length-starts_with n (c ∷ s) hit)
  | inr miss ↦ elim (Option-cases (index_of n s)) [
    | inl f ↦ let h = rw (miss, f) at e in cc
    | inr (j, f) ↦
        let h : some (suc j) ≡ some i = rw (miss, f) at e in
        let k : suc j ≡ i = ground arith in omega (arith, index_of-length n s j f)
  ]
]

find_index-length : (p : ℕ → Bool) (s : Text) (k : ℕ) → find_index p s ≡ some k → k < length s
find_index-length p [] k e = cc
find_index-length p (c ∷ s) k e = elim (Bool-cases (p c)) [
  | inl hit ↦ let h : some 0 ≡ some k = rw hit at e in ground (arith, h)
  | inr miss ↦ elim (Option-cases (find_index p s)) [
    | inl f ↦ let h = rw (miss, f) at e in cc
    | inr (j, f) ↦
        let h : some (suc j) ≡ some k = rw (miss, f) at e in
        let i : suc j ≡ k = ground arith in omega (arith, find_index-length p s j f)
  ]
]

last_index-length : (d : ℕ) (s : Text) (k : ℕ) → last_index d s ≡ some k → k < length s
last_index-length d [] k e = cc
last_index-length d (c ∷ s) k e = elim (Option-cases (last_index d s)) [
  | inr (j, f) ↦
      let h : some (suc j) ≡ some k = rw f at e in
      let i : suc j ≡ k = ground arith in omega (arith, last_index-length d s j f)
  | inl f ↦ let h = rw f at e in ground (arith, h)
]

length-take : (n : ℕ) (s : Text) → length (take n s) ≤ n
length-take zero s = omega arith
length-take (suc n) [] = omega arith
length-take (suc n) (c ∷ s) = omega (arith, length-take n s)

length-substring : (a b : ℕ) (s : Text) → a ≤ b → length (substring a b s) ≤ b - a
length-substring a b s h =
    if_elim (λ t. length t ≤ b - a) (ltb b a) (λ e. absurd (ground arith))
      (λ _. length-take (b - a) (drop a s))

-- The snippet starts at the match or before it, by forty units at most.
start_lem :
    (input : Text) (at : ℕ) → (snippet_start input at ≤ at) × (at ≤ snippet_start input at + 40)
start_lem input at =
    if_elim Near (ltb 0 (at - 40))
      (λ h.
        option_elim Near (find_index (λ c. c == 32) (substring (at - 40) at input)) (λ _. plain)
          (λ k e.
            let a = find_index-length (λ c. c == 32) (substring (at - 40) at input) k e in
            let b = length-substring (at - 40) at input (omega arith) in
            (omega (arith, a, b), omega arith)))
      (λ _. plain)
  where
    Near : ℕ → Type 0
    Near x = (x ≤ at) × (at ≤ x + 40)

    plain : ((at - 40) ≤ at) × (at ≤ (at - 40) + 40)
    plain = (omega arith, omega arith)

-- It ends at the end of the match or behind it, by forty units at most, and in the text.
end_lem :
    (input : Text) (at count : ℕ)
    → at + count ≤ length input
    → (at + count ≤ snippet_end input at count)
      × (snippet_end input at count ≤ at + count + 40)
      × (snippet_end input at count ≤ length input)
end_lem input at count fits =
    if_elim Near (ltb end (length input))
      (λ h.
        option_elim Near (last_index 32 (substring (at + count) end input)) (λ _. plain)
          (λ k e.
            let a = last_index-length 32 (substring (at + count) end input) k e in
            let b = length-substring (at + count) end input (ground (arith, fits)) in
            (omega arith, omega (arith, a, b), ground (arith, a, b))))
      (λ _. plain)
  where
    end : ℕ
    end = min (length input) (at + count + 40)

    Near : ℕ → Type 0
    Near x = (at + count ≤ x) × (x ≤ at + count + 40) × (x ≤ length input)

    plain : (at + count ≤ end) × (end ≤ at + count + 40) × (end ≤ length input)
    plain = (ground (arith, fits), ground arith, ground arith)

-- Where lower case keeps the lengths and the needle is found, the snippet is cut from the input
-- around the first place where it is found: it holds the whole match, and forty units more at most
-- on each side.
pub search_string_lem :
    (lower : Text → Text) (input needle : Text) (at : ℕ)
    → is_empty input ≡ false
    → is_empty needle ≡ false
    → length (lower input) ≡ length input
    → length (lower needle) ≡ length needle
    → index_of (lower needle) (lower input) ≡ some at
    → (from to : ℕ) × (search_string lower input needle ≡ trim (collapse (substring from to input)))
      × (from ≤ at)
      × (at ≤ from + 40)
      × (at + length needle ≤ to)
      × (to ≤ at + length needle + 40)
      × (to ≤ length input)
unfolding search_string
search_string_lem lower input needle at some_input some_needle e f found =
    let fits : at + length needle ≤ length input =
      omega (arith, index_of-length (lower needle) (lower input) at found, e, f) in
    let (a, b) = start_lem input at in
    let (c, d, g) = end_lem input at (length needle) fits in
    (
      snippet_start input at,
      snippet_end input at (length needle),
      rw (some_input, some_needle, found, search_string) refl,
      a,
      b,
      c,
      d,
      g,
    )
