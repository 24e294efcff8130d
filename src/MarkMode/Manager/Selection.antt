-- ===== src/MarkMode/Manager/Selection.antt =====
-- What `_applySelection` of frontend/src/markMode.ts selects.
use cozyssh.Prelude.{◌≤◌, ◌<◌, ◌≡◌, ◌⊎◌}
use cozyssh.MarkMode.Terminal.{Terminal, MarkModePosition}
use cozyssh.MarkMode.Manager.{Manager}

-- `p` comes before `q`, or is it.
abbrev Before : MarkModePosition → MarkModePosition → Type 0
Before p q = (p.row < q.row) ⊎ ((p.row ≡ q.row) × (p.col ≤ q.col))
