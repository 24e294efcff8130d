-- ===== src/MarkMode/Actions/Keymap.antt =====
-- `defaultMarkModeKeymap` of frontend/src/markMode.ts.
use cozyssh.Prelude.{List, [], ◌∷◌, String}
use cozyssh.MarkMode.Actions.{Binding, named}

unfoldable pub default_mark_mode_keymap : List (String × Binding)
default_mark_mode_keymap =
    ("arrowleft", named "moveLeft")
    ∷ ("arrowright", named "moveRight")
    ∷ ("arrowup", named "moveUp")
    ∷ ("arrowdown", named "moveDown")
    ∷ ("shift+arrowleft", named "selectLeft")
    ∷ ("shift+arrowright", named "selectRight")
    ∷ ("shift+arrowup", named "selectUp")
    ∷ ("shift+arrowdown", named "selectDown")
    ∷ ("h", named "moveLeft")
    ∷ ("j", named "moveDown")
    ∷ ("k", named "moveUp")
    ∷ ("l", named "moveRight")
    ∷ ("H", named "selectLeft")
    ∷ ("shift+h", named "selectLeft")
    ∷ ("J", named "selectDown")
    ∷ ("shift+j", named "selectDown")
    ∷ ("K", named "selectUp")
    ∷ ("shift+k", named "selectUp")
    ∷ ("L", named "selectRight")
    ∷ ("shift+l", named "selectRight")
    ∷ ("home", named "lineStart")
    ∷ ("0", named "lineStart")
    ∷ ("^", named "lineStart")
    ∷ ("end", named "lineEnd")
    ∷ ("$", named "lineEnd")
    ∷ ("shift+home", named "selectLineStart")
    ∷ ("shift+end", named "selectLineEnd")
    ∷ ("shift+ ", named "selectUntilSpace")
    ∷ ("ctrl+shift+ ", named "selectUntilSpaceReverse")
    ∷ (" ", named "moveUntilSpace")
    ∷ ("ctrl+ ", named "moveUntilSpaceReverse")
    ∷ ("w", named "wordRight")
    ∷ ("b", named "wordLeft")
    ∷ ("e", named "wordEnd")
    ∷ ("W", named "selectWordRight")
    ∷ ("shift+w", named "selectWordRight")
    ∷ ("B", named "selectWordLeft")
    ∷ ("shift+b", named "selectWordLeft")
    ∷ ("E", named "selectWordEnd")
    ∷ ("shift+e", named "selectWordEnd")
    ∷ ("ctrl+arrowleft", named "wordLeft")
    ∷ ("ctrl+arrowright", named "wordRight")
    ∷ ("ctrl+shift+arrowleft", named "selectWordLeft")
    ∷ ("ctrl+shift+arrowright", named "selectWordRight")
    ∷ ("pageup", named "pageUp")
    ∷ ("pagedown", named "pageDown")
    ∷ ("shift+pageup", named "selectPageUp")
    ∷ ("shift+pagedown", named "selectPageDown")
    ∷ ("ctrl+shift+u", named "selectHalfPageUp")
    ∷ ("ctrl+shift+d", named "selectHalfPageDown")
    ∷ ("ctrl+shift+f", named "selectPageUp")
    ∷ ("ctrl+shift+b", named "selectPageDown")
    ∷ ("ctrl+u", named "halfPageUp")
    ∷ ("ctrl+d", named "halfPageDown")
    ∷ ("ctrl+b", named "pageUp")
    ∷ ("ctrl+f", named "pageDown")
    ∷ ("g", named "topOfBuffer")
    ∷ ("G", named "bottomOfBuffer")
    ∷ ("shift+g", named "bottomOfBuffer")
    ∷ ("ctrl+home", named "topOfBuffer")
    ∷ ("ctrl+end", named "bottomOfBuffer")
    ∷ ("ctrl+shift+home", named "selectTopOfBuffer")
    ∷ ("ctrl+shift+end", named "selectBottomOfBuffer")
    ∷ ("v", named "toggleVisual")
    ∷ ("V", named "toggleVisual")
    ∷ ("ctrl+a", named "selectAll")
    ∷ ("enter", named "copyAndExit")
    ∷ ("ctrl+enter", named "copyAndExit")
    ∷ ("y", named "copyAndExit")
    ∷ ("ctrl+c", named "copyAndExit")
    ∷ ("ctrl+shift+c", named "copyAndExit")
    ∷ ("escape", named "exit")
    ∷ ("ctrl+[", named "exit")
    ∷ ("ctrl+shift+m", named "exit")
    ∷ []
