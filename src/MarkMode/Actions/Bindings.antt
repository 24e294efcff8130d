-- ===== src/MarkMode/Actions/Bindings.antt =====
-- The bindings of mark mode: the default ones, and what `registerAction` and `registerKeybinding` of
-- frontend/src/markMode.ts add.
use mathlib.Core.Bool.{and-eq-true_iff}
use cozyssh.MarkMode.Actions.Total.{lookup_All}
use cozyssh.Prelude.{
  All, ℕ, if◌then◌else◌, ◌≡◌, refl, inl, inr, List, [], ◌∷◌, Option, none, some, Bool, true, false,
  ◌&&◌, String, str_eq, str_eq_refl, Bool-cases, arith,
}
use cozyssh.Prelude.Int.{ℤ}
use cozyssh.MarkMode.Terminal.{Terminal}
use cozyssh.MarkMode.Manager.{Manager}
use cozyssh.MarkMode.Actions.{
  Handler, Binding, named, handler, lookup, mark_mode_actions, handle_key_down, register_action,
  register_keybinding,
}
use cozyssh.MarkMode.Actions.Keymap.{default_mark_mode_keymap}

defined {ℓ} : {V : Type ℓ} → String → List (String × V) → Bool
defined name [] = false
defined name ((k, v) ∷ l) = if str_eq k name then true else defined name l

lookup_of_defined {ℓ} :
    {V : Type ℓ} (name : String) (l : List (String × V))
    → defined name l ≡ true
    → (v : V) × (lookup name l ≡ some v)
unfolding defined
lookup_of_defined name [] h = absurd (ground arith)
lookup_of_defined name ((k, v) ∷ l) h = elim (Bool-cases (str_eq k name)) [
  | inl hit ↦ (v, rw hit refl)
  | inr miss ↦ let (w, e) = lookup_of_defined name l (rw miss at h) in (w, rw miss e)
]

named_in : List (String × Handler) → Binding → Bool
named_in actions (named name) = defined name actions
named_in actions (handler h) = true

all_named_in : List (String × Handler) → List (String × Binding) → Bool
all_named_in actions [] = true
all_named_in actions ((k, b) ∷ l) = named_in actions b && all_named_in actions l

All-named_in :
    (actions : List (String × Handler)) (l : List (String × Binding))
    → all_named_in actions l ≡ true
    → All (λ e. named_in actions (e.1) ≡ true) l
unfolding all_named_in
All-named_in actions [] h = tt
All-named_in actions ((k, b) ∷ l) h =
    let (n, a) = (and-eq-true_iff _ _).0 h in (n, All-named_in actions l a)

all_bound :
    (scroll : ℤ → Terminal → ℕ) (selected : List ℕ)
    → all_named_in (mark_mode_actions scroll selected) default_mark_mode_keymap ≡ true
unfolding all_named_in named_in defined mark_mode_actions default_mark_mode_keymap
all_bound scroll selected = refl

-- Every action that a default key binding names is one of the built-in actions.
pub default_mark_mode_keymap_lem :
    (scroll : ℤ → Terminal → ℕ) (selected : List ℕ) (keycomb name : String)
    → lookup keycomb default_mark_mode_keymap ≡ some (named name)
    → (h : Handler) × (lookup name (mark_mode_actions scroll selected) ≡ some h)
unfolding named_in
default_mark_mode_keymap_lem scroll selected keycomb name e =
    let actions = mark_mode_actions scroll selected in
    lookup_of_defined name actions (
      lookup_All (λ b. named_in actions b ≡ true) keycomb default_mark_mode_keymap
        (All-named_in actions default_mark_mode_keymap (all_bound scroll selected)) (named name) e)

lookup_first :
    (name : String) (h : Handler) (actions : List (String × Handler))
    → lookup name ((name, h) ∷ actions) ≡ some h
lookup_first name h actions = rw (str_eq_refl name) refl

run :
    (h : Handler) (m : Manager) (o : Option Handler)
    → o ≡ some h
    → ◌≡◌ {A = Bool × Option Manager} (true, elim o [ none ↦ some m | some f ↦ f m ]) (true, h m)
run h m none e = cc
run h m (some f) e = cc

-- In an active mode a key that is registered for an action runs the handler that is registered under
-- the action's name, whatever was bound before; every other key finds the binding it had, and every
-- other action its handler.
pub register_lem :
    (keymap : List (String × Binding)) (actions : List (String × Handler))
    (keycomb name other : String) (h : Handler) (m : Manager)
    → m.is_active ≡ true
    → str_eq keycomb other ≡ false
    → str_eq name other ≡ false
    → (handle_key_down
          (register_keybinding keycomb (named name) keymap)
          (register_action name h actions)
          keycomb
          m
        ≡ (true, h m))
      × (lookup other (register_keybinding keycomb (named name) keymap) ≡ lookup other keymap)
      × (lookup other (register_action name h actions) ≡ lookup other actions)
unfolding handle_key_down register_keybinding register_action
register_lem keymap actions keycomb name other h m on k n = (
  simp (on, str_eq_refl keycomb) (run h m _ (lookup_first name h actions)),
  simp k refl,
  simp n refl,
)
