-- ===== src/SshConfig/Words.antt =====
-- The line of the tags, and the lists of forwards, as frontend/src/common.ts writes and reads them.
use mathlib.Core.List.{append-nil}
use cozyssh.Prelude.{
  lt→ltb, suc, length, ℕ, ◌≡◌, refl, sym, ap, ◌∙◌, subst, List, [], ◌∷◌, ◌++◌, map, Bool, false,
  not, ◌&&◌, ◌==◌, any, filter, arith, All,
}
use cozyssh.SshConfig.{is_empty, starts, hash, feed}
use cozyssh.SshConfig.Units.{
  Text, units, is_white, is_break, trim, trim_start, trim_end, split_breaks, split_lines,
  split_white, starts_white, join, add_head, add_front,
}
use cozyssh.SshConfig.Write.{tag_line, forwards}
use cozyssh.SshConfig.Read.{Parsed, scan_line, scan, read_comment, tags_of, is_tag}
use cozyssh.SshConfig.Lines.{IsValue, split_breaks-line, trim_end-append, trim_value, any-append}

-- Not empty, and without white space.
abbrev pub IsWord : Text → Type 0
IsWord w = (is_empty w ≡ false) × (any is_white w ≡ false)

none_of :
    (q : ℕ → Bool) (c : ℕ) (w : Text) → any q (c ∷ w) ≡ false → (q c ≡ false) × (any q w ≡ false)
none_of q c w h = (ground arith, ground arith)

break_not_white : (c : ℕ) → is_white c ≡ false → is_break c ≡ false
break_not_white c h = ground arith

word_one_line : (w : Text) → any is_white w ≡ false → any is_break w ≡ false
word_one_line [] h = refl
word_one_line (c ∷ w) h =
    let (a, b) = none_of is_white c w h in rw (break_not_white c a) (word_one_line w b)

pub split_white-word : (w : Text) → any is_white w ≡ false → split_white w ≡ w ∷ []
unfolding split_white
split_white-word [] h = refl
split_white-word (c ∷ w) h =
    let (a, b) = none_of is_white c w h in rw a (ap (add_head c) (split_white-word w b))

split_white-then :
    (w t : Text)
    → any is_white w ≡ false
    → starts_white t ≡ false
    → split_white (w ++ (units " " ++ t)) ≡ w ∷ split_white t
unfolding split_white
split_white-then [] t h k = rw k refl
split_white-then (c ∷ w) t h k =
    let (a, b) = none_of is_white c w h in rw a (ap (add_head c) (split_white-then w t b k))

add_front_word : (c : ℕ) (w : Text) → is_white c ≡ false → add_front c w ≡ c ∷ w
add_front_word c [] a = rw a refl
add_front_word c (d ∷ w) a = refl

trim_end-word : (w : Text) → any is_white w ≡ false → trim_end w ≡ w
unfolding trim_end
trim_end-word [] h = refl
trim_end-word (c ∷ w) h =
    let (a, b) = none_of is_white c w h in
    ap (add_front c) (trim_end-word w b) ∙ add_front_word c w a

starts_white-append : (w t : Text) → IsWord w → starts_white (w ++ t) ≡ false
starts_white-append [] t (e, h) = cc
starts_white-append (c ∷ w) t (e, h) = (none_of is_white c w h).0

-- Words that are joined by spaces.
words_start :
    (w : Text) (ws : List Text) → IsWord w → starts_white (join (units " ") (w ∷ ws)) ≡ false
unfolding join
words_start w [] h = subst (λ x. starts_white x ≡ false) (append-nil w) (starts_white-append w [] h)
words_start w (v ∷ ws) h = starts_white-append w _ h

words_some : (w : Text) (ws : List Text) → IsWord w → is_empty (join (units " ") (w ∷ ws)) ≡ false
unfolding join
words_some w [] (e, h) = e
words_some [] (v ∷ ws) (e, h) = cc
words_some (c ∷ w) (v ∷ ws) (e, h) = refl

split_white-join :
    (w : Text) (ws : List Text)
    → All IsWord (w ∷ ws)
    → split_white (join (units " ") (w ∷ ws)) ≡ w ∷ ws
unfolding join
split_white-join w [] ((e, h), _) = split_white-word w h
split_white-join w (v ∷ ws) ((e, h), (i, hs)) =
    split_white-then w _ h (words_start v ws i) ∙ ap (◌∷◌ w) (split_white-join v ws (i, hs))

trim_end-join :
    (w : Text) (ws : List Text)
    → All IsWord (w ∷ ws)
    → trim_end (join (units " ") (w ∷ ws)) ≡ join (units " ") (w ∷ ws)
unfolding join
trim_end-join w [] ((e, h), _) = trim_end-word w h
trim_end-join w (v ∷ ws) ((e, h), (i, hs)) =
    trim_end-append w _ refl
      (trim_end-append (units " ") _ (words_some v ws i) (trim_end-join v ws (i, hs)))

join_one_line :
    (w : Text) (ws : List Text)
    → All IsWord (w ∷ ws)
    → any is_break (join (units " ") (w ∷ ws)) ≡ false
unfolding join
join_one_line w [] ((e, h), _) = word_one_line w h
join_one_line w (v ∷ ws) ((e, h), (i, hs)) =
    any-append is_break w (units " " ++ join (units " ") (v ∷ ws)) (word_one_line w h) (
      any-append is_break (units " ") (join (units " ") (v ∷ ws)) refl (join_one_line v ws (i, hs)))

abbrev pub hashed : List Text → List Text
hashed = map λ w. hash ∷ w

hashed-words : (ts : List Text) → All IsWord ts → All IsWord (hashed ts)
hashed-words [] h = tt
hashed-words (t ∷ ts) ((e, h), hs) = ((refl, h), hashed-words ts hs)

tags_of-hashed : (ts : List Text) → All IsWord ts → tags_of (hashed ts) ≡ ts
tags_of-hashed [] h = refl
tags_of-hashed (t ∷ ts) ((e, h), hs) = rw (e, tags_of-hashed ts hs) refl

no_comment : (ts : List Text) → All IsWord ts → filter (λ w. not (is_tag w)) (hashed ts) ≡ []
no_comment [] h = refl
no_comment ([] ∷ ts) ((e, h), hs) = cc
no_comment ((c ∷ t) ∷ ts) ((e, h), hs) =
    rw (lt→ltb 1 (suc (suc (length t))) (omega arith)) (no_comment ts hs)

trim_start_lem : (s : Text) → starts_white s ≡ false → trim_start s ≡ s
unfolding trim_start
trim_start_lem [] h = refl
trim_start_lem (c ∷ s) h = rw h refl

read_comment-tags :
    (t : Text) (ts : List Text) (p : Parsed)
    → All IsWord (t ∷ ts)
    → read_comment (join (units " ") (hashed (t ∷ ts))) p
      ≡ record p { tag_words = p.tag_words ++ t ∷ ts }
read_comment-tags t ts p h =
    let hs = hashed-words (t ∷ ts) h in
    rw
      (
        words_some (hash ∷ t) (hashed ts) (hs.0),
        split_white-join (hash ∷ t) (hashed ts) hs,
        tags_of-hashed (t ∷ ts) h,
        no_comment (t ∷ ts) h,
      )
      refl

scan_line-tags :
    (t : Text) (ts : List Text) (p : Parsed)
    → All IsWord (t ∷ ts)
    → scan_line (units "### " ++ join (units " ") (hashed (t ∷ ts))) p
      ≡ record p { tag_words = p.tag_words ++ t ∷ ts }
unfolding scan_line trim_start
scan_line-tags t ts p h =
    let hs = hashed-words (t ∷ ts) h in
    let words = join (units " ") (hashed (t ∷ ts)) in
    let trimmed =
      trim_end-append (units "### ") words (words_some (hash ∷ t) (hashed ts) (hs.0))
        (trim_end-join (hash ∷ t) (hashed ts) hs) in
    let start = trim_start_lem words (words_start (hash ∷ t) (hashed ts) (hs.0)) in
    let content = ap trim start ∙ ap trim_end start ∙ trim_end-join (hash ∷ t) (hashed ts) hs in
    rw (trimmed, content) (read_comment-tags t ts p h)

-- The line of the tags, if there is one.
pub tag_line_lem :
    (ts : List Text) (rest : Text) (p : Parsed)
    → All IsWord ts
    → scan (split_breaks (tag_line ts ++ rest)) p
      ≡ scan (split_breaks rest) (record p { tag_words = p.tag_words ++ ts })
unfolding tag_line scan
tag_line_lem [] rest p h =
    ap (λ ts. scan (split_breaks rest) (record p { tag_words = ts })) (sym (append-nil p.tag_words))
tag_line_lem (t ∷ ts) rest p h =
    ap (λ ls. scan ls p)
      (split_breaks-line (units "### " ++ join (units " ") (hashed (t ∷ ts))) rest (
        any-append is_break (units "### ") (join (units " ") (hashed (t ∷ ts))) refl
          (join_one_line (hash ∷ t) (hashed ts) (hashed-words (t ∷ ts) h))))
    ∙ ap (scan (split_breaks rest)) (scan_line-tags t ts p h)

-- A forward: a value that is not taken for a comment.
abbrev pub IsForward : Text → Type 0
IsForward f = IsValue f × (starts hash f ≡ false)

not_feed : (f : Text) → any is_break f ≡ false → any (λ c. c == 10) f ≡ false
not_feed [] h = refl
not_feed (c ∷ f) h = let (a, b) = none_of is_break c f h in ground (arith, not_feed f b)

split_lines-last : (f : Text) → any (λ c. c == 10) f ≡ false → split_lines f ≡ f ∷ []
unfolding split_lines
split_lines-last [] h = refl
split_lines-last (c ∷ f) h =
    let (a, b) = none_of (λ d. d == 10) c f h in rw a (ap (add_head c) (split_lines-last f b))

split_lines-then :
    (f t : Text) → any (λ c. c == 10) f ≡ false → split_lines (f ++ (feed ++ t)) ≡ f ∷ split_lines t
unfolding split_lines
split_lines-then [] t h = refl
split_lines-then (c ∷ f) t h =
    let (a, b) = none_of (λ d. d == 10) c f h in rw a (ap (add_head c) (split_lines-then f t b))

split_lines-join :
    (f : Text) (fs : List Text) → All IsForward (f ∷ fs) → split_lines (join feed (f ∷ fs)) ≡ f ∷ fs
unfolding join
split_lines-join f [] ((i, h), _) = split_lines-last f (not_feed f i.one_line)
split_lines-join f (g ∷ fs) ((i, h), hs) =
    split_lines-then f _ (not_feed f i.one_line) ∙ ap (◌∷◌ f) (split_lines-join g fs hs)

abbrev kept : List Text → List Text
kept ls = filter (λ f. not (is_empty f) && not (starts hash f)) (map trim ls)

kept_lem : (fs : List Text) → All IsForward fs → kept fs ≡ fs
kept_lem [] h = refl
kept_lem (f ∷ fs) ((i, h), hs) = rw (trim_value f i, i.some_unit, h, kept_lem fs hs) refl

-- What is written of a list of forwards is that list.
pub forwards-join : (fs : List Text) → All IsForward fs → forwards (join feed fs) ≡ fs
unfolding forwards join split_lines trim_start trim_end
forwards-join [] h = refl
forwards-join (f ∷ fs) h = ap kept (split_lines-join f fs h) ∙ kept_lem (f ∷ fs) h

pub IsForward-values : (fs : List Text) → All IsForward fs → All IsValue fs
IsForward-values [] h = tt
IsForward-values (f ∷ fs) ((i, _), hs) = (i, IsForward-values fs hs)
