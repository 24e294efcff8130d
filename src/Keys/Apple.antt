-- ===== src/Keys/Apple.antt =====
-- The key combinations on a Mac (frontend/src/common.ts).
use cozyssh.Prelude.{
  ◌≡◌, refl, sym, ap, ◌∙◌, subst, inl, inr, true, false, String, str_eq, str_eq_iff, Bool-cases,
  if◌then◌else◌,
}
use cozyssh.Keys.{
  KeyboardEvent, mac_modifier_swap, is_modifier, swapped_key, live_key, combination,
  get_key_combination,
}

-- The name of the one key for that of the other.
abbrev pub exchanged_name : String → String
exchanged_name key = if str_eq key "alt" then "meta" else if str_eq key "meta" then "alt" else key

-- The event as a keyboard would send it on which the two keys have changed places.
abbrev pub exchanged : (String → String) → KeyboardEvent → KeyboardEvent
exchanged lower ev = record ev {
  alt_key = ev.meta_key;
  meta_key = ev.alt_key;
  key = exchanged_name (lower ev.key);
}

swapped_key_lem : (key : String) → swapped_key true mac_modifier_swap key ≡ exchanged_name key
swapped_key_lem key = elim (Bool-cases (str_eq key "alt")) [
  | inl a ↦
      subst (λ k. swapped_key true mac_modifier_swap k ≡ exchanged_name k)
        (sym ((str_eq_iff key "alt").0 a)) refl
  | inr na ↦ elim (Bool-cases (str_eq key "meta")) [
    | inl m ↦
        subst (λ k. swapped_key true mac_modifier_swap k ≡ exchanged_name k)
          (sym ((str_eq_iff key "meta").0 m)) refl
    | inr nm ↦ elim (Bool-cases (str_eq key "ctrl")) [
      | inl c ↦
          subst (λ k. swapped_key true mac_modifier_swap k ≡ exchanged_name k)
            (sym ((str_eq_iff key "ctrl").0 c)) refl
      | inr nc ↦ rw (na, nm, nc) refl
    ]
  ]
]

lower_exchanged :
    (lower : String → String) (key : String)
    → lower "alt" ≡ "alt"
    → lower "meta" ≡ "meta"
    → lower (lower key) ≡ lower key
    → lower (exchanged_name (lower key)) ≡ exchanged_name (lower key)
lower_exchanged lower key a m k = elim (Bool-cases (str_eq (lower key) "alt")) [
  | inl e ↦ rw e m
  | inr e ↦ elim (Bool-cases (str_eq (lower key) "meta")) [
    | inl f ↦ rw (e, f) a
    | inr f ↦ rw (e, f) k
  ]
]

-- On a Mac, with the modifiers exchanged as they are at first, the combination is the one that
-- another machine has for the event of a keyboard whose Alt and Meta keys have changed places.
-- Lower case leaves the two names and itself.
pub get_key_combination-apple :
    (lower : String → String) (ev : KeyboardEvent)
    → lower "alt" ≡ "alt"
    → lower "meta" ≡ "meta"
    → lower (lower ev.key) ≡ lower ev.key
    → get_key_combination lower true mac_modifier_swap ev
      ≡ get_key_combination lower false mac_modifier_swap (exchanged lower ev)
unfolding get_key_combination is_modifier
get_key_combination-apple lower ev a m k =
    ap (λ key. combination ev.ctrl_key ev.meta_key ev.shift_key ev.alt_key (live_key ev key))
      (swapped_key_lem (lower ev.key) ∙ sym (lower_exchanged lower ev.key a m k))
