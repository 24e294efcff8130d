-- ===== src/MarkMode/Actions/Total.antt =====
-- No key makes mark mode of frontend/src/markMode.ts throw or hang, or leave the buffer.
use mathlib.Core.Bool.{and-eq-true_iff}
use cozyssh.Prelude.{
  subst, ◌&&◌, ℕ, ◌≡◌, refl, inl, inr, List, [], ◌∷◌, Option, none, some, Bool, true, String,
  str_eq, if_elim, Bool-cases, Option-cases, All, arith,
}
use cozyssh.Prelude.Int.{ℤ, pos}
use cozyssh.MarkMode.Terminal.{Terminal, IsTerminal, MarkModePosition, InBuffer}
use cozyssh.MarkMode.Motion.Words.{
  find_next_word_position_lem, find_prev_word_position_lem, find_end_of_word_position_lem,
}
use cozyssh.MarkMode.Boundary.{find_next_boundary_position, find_prev_boundary_position}
use cozyssh.MarkMode.Boundary.Stops.{
  find_next_boundary_position_lem, find_prev_boundary_position_lem,
}
use cozyssh.MarkMode.Manager.{Manager}
use cozyssh.MarkMode.Manager.Valid.{
  IsValid, IsScroll, ask-IsValid, update_visuals-IsValid, set_cursor-IsValid, move_cursor-IsValid,
  clear_selection_of-IsValid, copy_selection-IsValid, copy_and_exit-IsValid, exit-IsValid,
}
use cozyssh.MarkMode.Actions.{
  Handler, Binding, named, handler, lookup, Motion, word_left, word_right, word_end, by, to,
  toggle_visual, mark_mode_actions, handle_key_down, set_cursor, false, select_all_cells,
}
use cozyssh.MarkMode.Actions.Keymap.{default_mark_mode_keymap}

-- The handler returns, and the manager is valid after it.
abbrev pub IsTotal : Handler → Type 0
IsTotal h =
    (m : Manager) → IsValid m → m.is_active ≡ true → (n : Manager) × (h m ≡ some n) × IsValid n

-- The motion has a result.
abbrev Finds : Motion → Type 0
Finds find =
    (term : Terminal) (p : MarkModePosition)
    → IsTerminal term
    → InBuffer term p
    → (q : MarkModePosition) × (find term p ≡ some q)

word_left-Finds : (big_word : Bool) → Finds (word_left big_word)
word_left-Finds big_word term p t g =
    let (r, e, _) = find_prev_word_position_lem term p big_word t g in (_, e)

word_right-Finds : (big_word : Bool) → Finds (word_right big_word)
word_right-Finds big_word term p t g =
    let (r, e, _) = find_next_word_position_lem term p big_word t g in (_, e)

word_end-Finds : (big_word : Bool) → Finds (word_end big_word)
word_end-Finds big_word term p t g =
    let (r, e, _) = find_end_of_word_position_lem term p big_word t g in (_, e)

next_boundary-Finds : Finds find_next_boundary_position
next_boundary-Finds term p t g =
    let (r, e, _, _) = find_next_boundary_position_lem term t p g in (r, e)

prev_boundary-Finds : Finds find_prev_boundary_position
prev_boundary-Finds term p t g =
    let (r, e, _, _) = find_prev_boundary_position_lem term t p g in (r, e)

infixr 4 ◌&◌
abbrev ◌&◌ {ℓ κ} : {A : Type ℓ} {B : Type κ} → A → B → A × B
a & b = (a, b)

module _ (scroll : ℤ → Terminal → ℕ) (selected : List ℕ) (sc : IsScroll scroll) where
  by-IsTotal : (col row : ℤ) (extend : Bool) → IsTotal (by scroll selected col row extend)
  by-IsTotal col row extend m v on = (_, refl, move_cursor-IsValid scroll sc col row extend m v)

  set-IsTotal :
      (col row : Manager → ℤ) (extend : Bool)
      → IsTotal (λ m. some (set_cursor scroll (col m) (row m) extend m))
  set-IsTotal col row extend m v on =
      (_, refl, set_cursor-IsValid scroll sc (col m) (row m) extend m v)

  to-IsTotal :
      (find : Motion) (extend : Bool) → Finds find → IsTotal (to scroll selected find extend)
  to-IsTotal find extend f m v on =
      let (q, e) = f m.term m.cursor v.terminal (v.cursor_in on) in
      (_, found q e, set_cursor-IsValid scroll sc (pos q.col) (pos q.row) extend m v)
    where
      found :
          (q : MarkModePosition)
          → find m.term m.cursor ≡ some q
          → to scroll selected find extend m
            ≡ some (set_cursor scroll (pos q.col) (pos q.row) extend m)
      found q e = rw e

  toggle_visual-IsTotal : IsTotal (toggle_visual scroll selected)
  toggle_visual-IsTotal m v on = (
    _,
    refl,
    if_elim IsValid m.is_selecting (λ _. clear_selection_of-IsValid m v)
        (λ _. set_cursor-IsValid scroll sc _ _ true m v),
  )

  actions-IsTotal : All (λ e. IsTotal (e.1)) (mark_mode_actions scroll selected)
  unfolding mark_mode_actions select_all_cells
  actions-IsTotal =
      by-IsTotal _ _ _
      & by-IsTotal _ _ _
      & by-IsTotal _ _ _
      & by-IsTotal _ _ _
      & by-IsTotal _ _ _
      & by-IsTotal _ _ _
      & by-IsTotal _ _ _
      & by-IsTotal _ _ _
      & (λ m v on. (_, refl, set_cursor-IsValid scroll sc _ _ _ m v))
      & (λ m v on. (_, refl, set_cursor-IsValid scroll sc _ _ _ m v))
      & (λ m v on. (_, refl, set_cursor-IsValid scroll sc _ _ _ m v))
      & (λ m v on. (_, refl, set_cursor-IsValid scroll sc _ _ _ m v))
      & to-IsTotal _ _ next_boundary-Finds
      & to-IsTotal _ _ prev_boundary-Finds
      & to-IsTotal _ _ next_boundary-Finds
      & to-IsTotal _ _ prev_boundary-Finds
      & to-IsTotal _ _ (word_left-Finds _)
      & to-IsTotal _ _ (word_right-Finds _)
      & to-IsTotal _ _ (word_end-Finds _)
      & to-IsTotal _ _ (word_left-Finds _)
      & to-IsTotal _ _ (word_right-Finds _)
      & to-IsTotal _ _ (word_end-Finds _)
      & to-IsTotal _ _ (word_left-Finds _)
      & to-IsTotal _ _ (word_right-Finds _)
      & to-IsTotal _ _ (word_end-Finds _)
      & to-IsTotal _ _ (word_left-Finds _)
      & to-IsTotal _ _ (word_right-Finds _)
      & to-IsTotal _ _ (word_end-Finds _)
      & (λ m v on. (_, refl, move_cursor-IsValid scroll sc _ _ _ m v))
      & (λ m v on. (_, refl, move_cursor-IsValid scroll sc _ _ _ m v))
      & (λ m v on. (_, refl, move_cursor-IsValid scroll sc _ _ _ m v))
      & (λ m v on. (_, refl, move_cursor-IsValid scroll sc _ _ _ m v))
      & (λ m v on. (_, refl, move_cursor-IsValid scroll sc _ _ _ m v))
      & (λ m v on. (_, refl, move_cursor-IsValid scroll sc _ _ _ m v))
      & (λ m v on. (_, refl, move_cursor-IsValid scroll sc _ _ _ m v))
      & (λ m v on. (_, refl, move_cursor-IsValid scroll sc _ _ _ m v))
      & (λ m v on. (_, refl, set_cursor-IsValid scroll sc _ _ _ m v))
      & (λ m v on. (_, refl, set_cursor-IsValid scroll sc _ _ _ m v))
      & (λ m v on. (_, refl, set_cursor-IsValid scroll sc _ _ _ m v))
      & (λ m v on. (_, refl, set_cursor-IsValid scroll sc _ _ _ m v))
      & toggle_visual-IsTotal
      & (λ m v on. (_, refl, update_visuals-IsValid _ (ask-IsValid _ m v)))
      & (λ m v on. (_, refl, copy_selection-IsValid selected m v))
      & (λ m v on. (_, refl, copy_and_exit-IsValid selected m v))
      & (λ m v on. (_, refl, exit-IsValid m v))
      & tt

abbrev pub BoundTotal : Binding → Type 0
BoundTotal (named name) = Unit
BoundTotal (handler h) = IsTotal h

is_named : Binding → Bool
is_named (named name) = true
is_named (handler h) = false

all_named : List (String × Binding) → Bool
all_named [] = true
all_named ((k, b) ∷ l) = is_named b && all_named l

BoundTotal-of_named : (b : Binding) → is_named b ≡ true → BoundTotal b
unfolding is_named
BoundTotal-of_named (named name) h = tt
BoundTotal-of_named (handler f) h = cc

named-All : (l : List (String × Binding)) → all_named l ≡ true → All (λ e. BoundTotal (e.1)) l
unfolding all_named
named-All [] h = tt
named-All ((k, b) ∷ l) h =
    let (n, a) = (and-eq-true_iff _ _).0 h in (BoundTotal-of_named b n, named-All l a)

keymap-BoundTotal : All (λ e. BoundTotal (e.1)) default_mark_mode_keymap
unfolding default_mark_mode_keymap all_named is_named
keymap-BoundTotal = named-All default_mark_mode_keymap refl

some_inj {ℓ} : {A : Type ℓ} {a b : A} → some a ≡ some b → a ≡ b
some_inj e = cc

pub lookup_All {ℓ κ} :
    {V : Type ℓ} (P : V → Type κ) (name : String) (l : List (String × V))
    → All (λ e. P (e.1)) l
    → (v : V) → lookup name l ≡ some v
    → P v
lookup_All P name [] a v e = absurd (ground arith)
lookup_All P name ((k, w) ∷ l) (t, a) v e = elim (Bool-cases (str_eq k name)) [
  | inl hit ↦ subst P (some_inj (rw hit at e)) t
  | inr miss ↦ lookup_All P name l a v (rw miss at e)
]

module _ (keymap : List (String × Binding)) (actions : List (String × Handler)) where
  action_total :
      (m : Manager) (name : String)
      → All (λ e. IsTotal (e.1)) actions
      → IsValid m
      → m.is_active ≡ true
      → (n : Manager) × (elim (lookup name actions) as (λ _. Option Manager) [
        | none ↦ some m
        | some h ↦ h m
      ]
          ≡ some n)
        × IsValid n
  action_total m name a v on = elim (Option-cases (lookup name actions)) [
    | inl e ↦ (m, rw e, v)
    | inr (h, e) ↦ let (n, r, w) = lookup_All IsTotal name actions a h e m v on in (n, rw e r, w)
  ]

  -- With bindings and actions whose handlers all return and keep the manager valid, also such as were
  -- registered, every key is taken by an active mark mode, the dispatcher returns, and the manager
  -- stays valid.
  pub handle_key_down_total :
      (keycomb : String) (m : Manager)
      → All (λ e. BoundTotal (e.1)) keymap
      → All (λ e. IsTotal (e.1)) actions
      → IsValid m
      → m.is_active ≡ true
      → (n : Manager) × (handle_key_down keymap actions keycomb m ≡ (true, some n)) × IsValid n
  unfolding handle_key_down
  handle_key_down_total keycomb m k a v on = elim (Option-cases (lookup keycomb keymap)) [
    | inl e ↦ (m, simp (on, e), v)
    | inr (named name, e) ↦ let (n, r, w) = action_total m name a v on in (n, simp (on, e, r), w)
    | inr (handler h, e) ↦
        let (n, r, w) = lookup_All BoundTotal keycomb keymap k (handler h) e m v on in
        (n, simp (on, e, r), w)
  ]

-- With a `scrollLines` as documented, an active and valid mark mode with the default bindings and
-- actions takes whatever key is pressed, the key's handler throws no exception and its loops end, and
-- the manager stays valid. Lines may be longer than the terminal is wide.
pub handle_key_down_lem :
    (scroll : ℤ → Terminal → ℕ) (selected : List ℕ) (keycomb : String) (m : Manager)
    → IsScroll scroll
    → IsValid m
    → m.is_active ≡ true
    → (n : Manager) × (handle_key_down default_mark_mode_keymap
          (mark_mode_actions scroll selected)
          keycomb
          m
        ≡ (true, some n))
      × IsValid n
handle_key_down_lem scroll selected keycomb m sc v on =
    handle_key_down_total default_mark_mode_keymap (mark_mode_actions scroll selected) keycomb m
      keymap-BoundTotal (actions-IsTotal scroll selected sc) v on
