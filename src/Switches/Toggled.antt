-- ===== src/Switches/Toggled.antt =====
-- What the switches and the variables of frontend/src/store.ts come to.
use cozyssh.Prelude.{
  ℕ, ◌≡◌, refl, List, [], ◌∷◌, none, String, str_eq, str_eq_refl, false, if◌then◌else◌, concat,
}
use cozyssh.Switches.{Switches, updated, set_tags_expanded, set_fav_expanded, get_var}

-- The last number stored under a key.
abbrev pub stored : String → List (String × ℕ) → ℕ
stored key [] = 0
stored key ((k, n) ∷ l) = if str_eq k key then n else stored key l

-- Toggling the tags' switch where it is 0 or 1, then the favourites' one, then the tags' again,
-- leaves the tags' switch as it was, also in the storage, toggles the favourites' once, and leaves
-- the others.
pub switches_lem :
    (s : Switches)
    → updated none (updated none s.tags_expanded) ≡ s.tags_expanded
    → let n = set_tags_expanded none (set_fav_expanded none (set_tags_expanded none s)) in
      (n.tags_expanded ≡ s.tags_expanded)
      × (stored "cozy_tags_expanded" n.storage ≡ s.tags_expanded)
      × (n.fav_expanded ≡ updated none s.fav_expanded)
      × (stored "cozy_fav_expanded" n.storage ≡ updated none s.fav_expanded)
      × (n.all_expanded ≡ s.all_expanded)
      × (n.auto_expanded ≡ s.auto_expanded)
unfolding set_tags_expanded set_fav_expanded
switches_lem s e = (e, e, refl, refl, refl, refl)

-- A variable of the browser's own that is not empty wins over a shared one and over the default.
pub get_var_lem :
    (vars local_vars : List (String × String)) (name value default_value : String)
    → str_eq value "" ≡ false
    → get_var vars ((concat "local_" name, value) ∷ local_vars) name default_value ≡ value
unfolding get_var
get_var_lem vars local_vars name value default_value e =
    simp (str_eq_refl (concat "local_" name), e) refl
