-- ===== src/SshConfig/Reads.antt =====
-- The loop of `parseSSHConfigBlock` over the parts of a block, one after the other
-- (frontend/src/common.ts).
use cozyssh.Prelude.{◌≡◌, refl, sym, ap, ◌∙◌, List, [], ◌∷◌, ◌++◌}
use mathlib.Core.List.{append_assoc, append-nil}
use cozyssh.SshConfig.Units.{trim_start, trim_end, Text, split_breaks}
use cozyssh.SshConfig.Write.{add_up}
use cozyssh.SshConfig.Read.{Parsed, assign, scan, Field, scan_line}
use cozyssh.SshConfig.Options.{assign_all}

pub scan-nothing : (p : Parsed) → scan (split_breaks []) p ≡ p
unfolding scan split_breaks scan_line trim_start trim_end
scan-nothing p = refl

-- The loop reads the part, whatever comes after it.
abbrev pub Reads : Text → Parsed → Parsed → Type 0
Reads t p q = (rest : Text) → scan (split_breaks (t ++ rest)) p ≡ scan (split_breaks rest) q

abbrev pub ReadsAll : List Text → Parsed → Parsed → Type 0
ReadsAll [] p q = p ≡ q
ReadsAll (t ∷ ts) p q = (m : Parsed) × Reads t p m × ReadsAll ts m q

pub scan-add_up :
    (ts : List Text) (p q : Parsed)
    → ReadsAll ts p q
    → scan (split_breaks (add_up ts)) p ≡ scan (split_breaks []) q
unfolding add_up
scan-add_up [] p q e = ap (scan (split_breaks [])) e
scan-add_up (t ∷ ts) p q (m, r, rs) = r (add_up ts) ∙ scan-add_up ts m q rs

pub assign_all-local :
    (fs : List Text) (p : Parsed)
    → assign_all Field.local_forward fs p ≡ record p { local_forwards = p.local_forwards ++ fs }
unfolding assign_all assign
assign_all-local [] p =
    ap (λ fs. record p { local_forwards = fs }) (sym (append-nil p.local_forwards))
assign_all-local (g ∷ fs) p =
    assign_all-local fs (record p { local_forwards = p.local_forwards ++ g ∷ [] })
    ∙ ap (λ fs. record p { local_forwards = fs }) (append_assoc p.local_forwards (g ∷ []) fs)

pub assign_all-remote :
    (fs : List Text) (p : Parsed)
    → assign_all Field.remote_forward fs p ≡ record p { remote_forwards = p.remote_forwards ++ fs }
unfolding assign_all assign
assign_all-remote [] p =
    ap (λ fs. record p { remote_forwards = fs }) (sym (append-nil p.remote_forwards))
assign_all-remote (g ∷ fs) p =
    assign_all-remote fs (record p { remote_forwards = p.remote_forwards ++ g ∷ [] })
    ∙ ap (λ fs. record p { remote_forwards = fs }) (append_assoc p.remote_forwards (g ∷ []) fs)

pub assign_all-dynamic :
    (fs : List Text) (p : Parsed)
    → assign_all Field.dynamic_forward fs p
      ≡ record p { dynamic_forwards = p.dynamic_forwards ++ fs }
unfolding assign_all assign
assign_all-dynamic [] p =
    ap (λ fs. record p { dynamic_forwards = fs }) (sym (append-nil p.dynamic_forwards))
assign_all-dynamic (g ∷ fs) p =
    assign_all-dynamic fs (record p { dynamic_forwards = p.dynamic_forwards ++ g ∷ [] })
    ∙ ap (λ fs. record p { dynamic_forwards = fs }) (append_assoc p.dynamic_forwards (g ∷ []) fs)
