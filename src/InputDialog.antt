-- ===== src/InputDialog.antt =====
-- The terminal input dialog and the new-tab dialog's flag, frontend/src/store.ts. An argument that is
-- left out is `none`.
use cozyssh.Prelude.{Option, none, some, Bool, true, false, String}

pub data SendScope : Type 0 where
  scope_0 scope_1 scope_2 : SendScope

pub record Dialogs : Type 0 where
  pub new_tab_dialog_open : Bool
  pub new_tab_dialog_filter : String
  pub input_dialog_open : Bool
  pub input_dialog_dirty : Bool
  pub input_value : String
  pub input_liquid : Bool
  pub append_new_line : Bool
  pub send_scope : SendScope

abbrev or_default {ℓ} : {A : Type ℓ} → Option A → A → A
or_default none a = a
or_default (some x) a = x

abbrev pub set_send_scope : SendScope → Dialogs → Dialogs
set_send_scope v d = record d { send_scope = v }

abbrev pub set_new_tab_dialog_open : Bool → Dialogs → Dialogs
set_new_tab_dialog_open v d = record d { new_tab_dialog_open = v }

abbrev pub set_new_tab_dialog_filter : String → Dialogs → Dialogs
set_new_tab_dialog_filter v d = record d { new_tab_dialog_filter = v }

abbrev pub close_new_tab_dialog : Dialogs → Dialogs
close_new_tab_dialog d = record d { new_tab_dialog_open = false }

abbrev pub set_input_dialog_open : Bool → Dialogs → Dialogs
set_input_dialog_open v d = record d { input_dialog_open = v }

abbrev pub set_input_dialog_dirty : Bool → Dialogs → Dialogs
set_input_dialog_dirty v d = record d { input_dialog_dirty = v }

abbrev pub set_input_value : String → Dialogs → Dialogs
set_input_value v d = record d { input_value = v }

abbrev pub set_input_liquid : Bool → Dialogs → Dialogs
set_input_liquid v d = record d { input_liquid = v }

abbrev pub close_input_dialog : Dialogs → Dialogs
close_input_dialog d = record d { input_dialog_open = false; input_dialog_dirty = false }

abbrev pub open_input_dialog :
    Option String → Option Bool → Option SendScope → Option Bool → Dialogs → Dialogs
open_input_dialog input_value input_liquid send_scope append_new_line d = record d {
  new_tab_dialog_open = false;
  input_dialog_open = true;
  input_value = or_default input_value "";
  append_new_line = or_default append_new_line true;
  input_liquid = or_default input_liquid false;
  send_scope = or_default send_scope scope_0;
}
