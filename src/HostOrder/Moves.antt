-- ===== src/HostOrder/Moves.antt =====
-- After `moveServer` and `reorderFavourites` of frontend/src/store.ts the hosts have the orders of
-- their places.
use mathlib.Core.List.{Perm}
use mathlib.Core.List.Perm
use cozyssh.Prelude.{
  ap, ◌∙◌, ◌&&◌, any, map, ℕ, ◌≡◌, ◌≢◌, refl, sym, subst, List, [], ◌∷◌, ◌++◌, Option, some, Bool,
  true, false, not, arith, filter, find, find_index, if_elim, get_elem?,
}
use cozyssh.Prelude.Int.{ℤ}
use cozyssh.SshConfig.Units.{Text, eq}
use cozyssh.Hosts.Lookup.{HostData}
use cozyssh.SshConfig.Options.{eq_sound}
use cozyssh.Ordering.Moves.{beside, beside-perm, insert_beside}
use cozyssh.Ordering.{remove_at, sort}
use cozyssh.Ordering.Splice.{
  remove_at-append, find_index-without, sort-perm, find_index-split, get_elem?-append,
}
use cozyssh.Tabs.{is_empty}
use cozyssh.HostOrder.{
  host_le, named, insert_before, sent, placed, placed_favourite, is_sibling, move_server,
  moved_favourites, reorder_favourites, latest,
}
use cozyssh.HostOrder.Tags.{ReadsDecimal}
use cozyssh.HostOrder.Settled.{
  sorted_favourites, AllSettled, InGroup, Any, insert_before-perm, remove_at-perm, all_settled,
  placed_lem, favourite_lem, sent-some,
}

module _ {E : Type 0} where
  module _ (parse_int : Text → Option ℤ) (reads : ReadsDecimal parse_int) where
    -- Where parseInt reads decimal numbers and the group is none or not empty, moving a server that
    -- is there sends hosts with which the server and its new siblings, in one list, have the orders
    -- 10, 20, ... of their places and the group: those that are not sent have them already.
    pub move_server_lem :
        (name_le : Text → Text → Bool) (server : Text) (dest : Option Text) (before : Text)
        (hosts : List (HostData E)) (h : HostData E)
        → dest ≢ some []
        → find (named server) hosts ≡ some h
        → (l : List (HostData E)) × (move_server parse_int name_le server dest before hosts
            ≡ some (sent (placed parse_int server dest) 0 l))
          × Perm l (h ∷ filter (is_sibling server dest) hosts)
          × AllSettled parse_int (InGroup dest) (placed parse_int server dest) 0 l
    unfolding move_server
    move_server_lem name_le server dest before hosts h given e =
        let siblings = filter (is_sibling server dest) hosts in
        let sorted = sort (host_le parse_int name_le) siblings in
        (
          insert_before before h sorted,
          rw (e, move_server) refl,
          Perm.trans (insert_before-perm before h sorted)
              (Perm.cons h (sort-perm (host_le parse_int name_le) siblings)),
          all_settled parse_int reads (InGroup dest) (placed parse_int server dest)
              (λ i k. placed_lem parse_int reads server dest i k given) 0 _,
        )

    -- The favourite that is dragged, the others around the target, and where it stands then.
    moved_favourites_lem :
        (name_le : Text → Text → Bool) (dragged target : Text) (after : Bool)
        (hosts : List (HostData E)) (i j : ℕ)
        → eq dragged target ≡ false
        → find_index (named dragged) (sorted_favourites parse_int name_le hosts) ≡ some i
        → find_index (named target) (sorted_favourites parse_int name_le hosts) ≡ some j
        → (h : HostData E) × (l : List (HostData E)) × (t : HostData E) × (r : List (HostData E))
          × (named dragged h ≡ true)
          × (named target t ≡ true)
          × (remove_at i (sorted_favourites parse_int name_le hosts) ≡ l ++ (t ∷ r))
          × (moved_favourites parse_int name_le dragged target after hosts
              ≡ some (l ++ beside after h t r))
          × Perm (l ++ beside after h t r) (filter (λ h. h.is_favourite) hosts)
    unfolding moved_favourites
    moved_favourites_lem name_le dragged target after hosts i j apart e f =
        let favs = sorted_favourites parse_int name_le hosts in
        let (m, h, n, split, at, hit) = find_index-split (named dragged) favs i e in
        let removed =
          ap (remove_at i) split
          ∙ ap (λ k. remove_at k (m ++ (h ∷ n))) at
          ∙ remove_at-append m h n in
        let other = subst (λ x. eq x target ≡ false) (sym (eq_sound h.name dragged hit)) apart in
        let (k, g) =
          find_index-without (named target) m h n j other
            (ap (find_index (named target)) (sym split) ∙ f) in
        let (l, t, r, split', at', hit') = find_index-split (named target) (m ++ n) k g in
        let rest = removed ∙ split' in
        let found = ap (find_index (named target)) (sym split') ∙ g ∙ ap some at' in
        let same =
          ap (λ xs. get_elem? xs i) split
          ∙ ap (get_elem? (m ++ (h ∷ n))) at
          ∙ get_elem?-append m h n in
        (
          h,
          l,
          t,
          r,
          hit,
          hit',
          rest,
          rw (e, f, same, rest, found, moved_favourites) (ap some (insert_beside after l h t r)),
          Perm.trans (beside-perm after l h t r) (
              Perm.trans (subst (λ xs. Perm (h ∷ xs) favs) rest (remove_at-perm i h favs same))
                (sort-perm (host_le parse_int name_le) _)),
        )

    latest-name : (us : List (HostData E)) (h : HostData E) → (latest us h).name ≡ h.name
    latest-name [] h = refl
    latest-name (u ∷ us) h =
        if_elim (λ (x : HostData E). x.name ≡ h.name)
          (named u.name h && not (any (named u.name) us))
          (λ e. sym (eq_sound h.name u.name (ground (arith, e)))) (λ _. latest-name us h)

    latest-names :
        (us hosts : List (HostData E))
        → map (λ (h : HostData E). h.name) (map (latest us) hosts)
          ≡ map (λ (h : HostData E). h.name) hosts
    latest-names us [] = refl
    latest-names us (h ∷ hosts) = rw (latest-name us h, latest-names us hosts) refl

    any-beside :
        (p : HostData E → Bool) (after : Bool) (l : List (HostData E)) (h t : HostData E)
        (r : List (HostData E))
        → p h ≡ true
        → any p (l ++ beside after h t r) ≡ true
    any-beside p true [] h t r e = ground (arith, e)
    any-beside p false [] h t r e = ground (arith, e)
    any-beside p after (x ∷ l) h t r e = ground (arith, any-beside p after l h t r e)

    -- Where parseInt reads decimal numbers, dragging a favourite onto another one puts it right
    -- before or right after that one, as asked, and all others stay; a host or more is sent, with
    -- which the favourites, in this list, have the orders 10, 20, ... of their places; no favourite
    -- is lost or doubled, and the hosts of the store keep their names and places in the list, each
    -- replaced by the one of its name that is sent.
    pub reorder_favourites_lem :
        (name_le : Text → Text → Bool) (dragged target : Text) (after : Bool)
        (hosts : List (HostData E)) (i j : ℕ)
        → eq dragged target ≡ false
        → find_index (named dragged) (sorted_favourites parse_int name_le hosts) ≡ some i
        → find_index (named target) (sorted_favourites parse_int name_le hosts) ≡ some j
        → (h : HostData E) × (l : List (HostData E)) × (t : HostData E) × (r : List (HostData E))
          × (named dragged h ≡ true)
          × (named target t ≡ true)
          × (remove_at i (sorted_favourites parse_int name_le hosts) ≡ l ++ (t ∷ r))
          × (let to_send = sent (placed_favourite parse_int dragged) 0 (l ++ beside after h t r) in
              (reorder_favourites parse_int name_le dragged target after hosts
                ≡ some (map (latest to_send) hosts, to_send))
              × (is_empty to_send ≡ false)
              × (map (λ (k : HostData E). k.name) (map (latest to_send) hosts)
                  ≡ map (λ (k : HostData E). k.name) hosts))
          × Perm (l ++ beside after h t r) (filter (λ h. h.is_favourite) hosts)
          × AllSettled parse_int Any
              (placed_favourite parse_int dragged)
              0
              (l ++ beside after h t r)
    unfolding reorder_favourites
    reorder_favourites_lem name_le dragged target after hosts i j apart e f =
        let (h, l, t, r, hit, hit', rest, m, p) =
          moved_favourites_lem name_le dragged target after hosts i j apart e f in
        let some_sent =
          sent-some parse_int reads dragged 0 (l ++ beside after h t r)
            (any-beside (named dragged) after l h t r hit) in
        (
          h,
          l,
          t,
          r,
          hit,
          hit',
          rest,
          (rw (m, some_sent, reorder_favourites) refl, some_sent, latest-names _ hosts),
          p,
          all_settled parse_int reads Any (placed_favourite parse_int dragged)
              (favourite_lem parse_int reads dragged) 0 _,
        )
