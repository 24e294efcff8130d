-- ===== src/Keys/Tests.antt =====
-- Tests of the key combinations, and a concrete case of the theorem (frontend/src/common.ts).
use cozyssh.Prelude.{◌≡◌, refl, [], ◌∷◌, true, false, String}
use cozyssh.Keys.{KeyboardEvent, ctrl, meta, mac_modifier_swap, get_key_combination, is_modifier}
use cozyssh.Keys.Apple.{exchanged, get_key_combination-apple}

abbrev same : String → String
same s = s

abbrev event : KeyboardEvent
event = record {
  ctrl_key = true;
  alt_key = false;
  shift_key = true;
  meta_key = true;
  key = "dead";
  code = "Digit2";
}

dead_key : get_key_combination same false [] event ≡ "ctrl+shift+meta+@"
unfolding get_key_combination is_modifier
dead_key = refl

-- The Control key alone, with Control and Command exchanged.
control_alone :
    get_key_combination same true ((ctrl, meta) ∷ (meta, ctrl) ∷ []) (record {
      ctrl_key = true;
      alt_key = false;
      shift_key = false;
      meta_key = false;
      key = "control";
      code = "";
    })
    ≡ "meta+control"
unfolding get_key_combination is_modifier
control_alone = refl

get_key_combination-apple_example :
    get_key_combination same true mac_modifier_swap event
    ≡ get_key_combination same false mac_modifier_swap (exchanged same event)
get_key_combination-apple_example = get_key_combination-apple same event refl refl refl
