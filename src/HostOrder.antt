-- ===== src/HostOrder.antt =====
-- The order of the hosts: `getHostOrder`, `getHostGroupPath` and `hostSorter` of
-- frontend/src/common.ts, which read it in the tags, and `moveServer` and `reorderFavourites` of
-- frontend/src/store.ts, up to their requests. `parse_int` stands for parseInt (NaN is none),
-- `name_le` for the comparison by localeCompare. An order that is missing is none, the code's
-- Infinity.
pub mod Tags
pub mod Settled
pub mod Moves
mod Tests
use cozyssh.Prelude.{
  ℕ, ◌+◌, ◌*◌, List, [], ◌∷◌, ◌++◌, map, Option, none, some, Bool, true, false, not, ◌&&◌, ◌||◌,
  if◌then◌else◌, leb, ◌==◌, drop, filter, find, find_index, get_elem?, any,
}
use cozyssh.Prelude.Int.{ℤ, pos, pos_part, neg_part}
use cozyssh.Prelude.Decimal.{decimal}
use cozyssh.SshConfig.Units.{Text, units, eq}
use cozyssh.Tabs.{is_empty}
use cozyssh.Hosts.Lookup.{HostData}
use cozyssh.Ordering.{insert_at, remove_at, insert_index, sort}

abbrev pub starts_with : Text → Text → Bool
starts_with [] s = true
starts_with (d ∷ p) [] = false
starts_with (d ∷ p) (c ∷ s) = c == d && starts_with p s

abbrev pub group_prefix : Text
group_prefix = 103 ∷ 45 ∷ []

abbrev pub order_prefix : Text
order_prefix = 111 ∷ 45 ∷ []

-- The first tag with an order.
abbrev pub first_order : (Text → Option ℤ) → List Text → Option ℤ
first_order parse_int [] = none
first_order parse_int (t ∷ ts) =
    let rest = first_order parse_int ts in
    if starts_with order_prefix t
    then elim (parse_int (drop 2 t)) [ none ↦ rest | some n ↦ some n ]
    else rest

abbrev pub group_tag : List Text → Option Text
group_tag = find (starts_with group_prefix)

abbrev pub path_of : Option Text → Option Text
path_of none = none
path_of (some t) = some (drop 2 t)

-- a === b on orders and paths
abbrev pub eq_order : Option ℤ → Option ℤ → Bool
eq_order none none = true
eq_order none (some b) = false
eq_order (some a) none = false
eq_order (some a) (some b) = pos_part a + neg_part b == pos_part b + neg_part a

abbrev pub eq_path : Option Text → Option Text → Bool
eq_path none none = true
eq_path none (some b) = false
eq_path (some a) none = false
eq_path (some a) (some b) = eq a b

-- a - b <= 0
abbrev pub order_le : Option ℤ → Option ℤ → Bool
order_le a none = true
order_le none (some b) = false
order_le (some a) (some b) = leb (pos_part a + neg_part b) (pos_part b + neg_part a)

abbrev pub order_tag : ℕ → Text
order_tag n = order_prefix ++ units (decimal n)

-- `oldGroupTag !== newGroupTag`: without the tag it is `undefined`, without tags `null`, as the new
-- one is for no group.
abbrev pub group_changes : Option (List Text) → Option Text → Bool
group_changes none none = false
group_changes none (some g) = true
group_changes (some ts) g = elim (group_tag ts) [ none ↦ true | some t ↦ not (eq_path (some t) g) ]

abbrev pub without_prefix : Text → List Text → List Text
without_prefix p = filter λ t. not (starts_with p t)

-- Neither an order nor a group.
abbrev pub keeps : Text → Bool
keeps t = not (starts_with order_prefix t) && not (starts_with group_prefix t)

abbrev pub tags_of : Option (List Text) → List Text
tags_of none = []
tags_of (some ts) = ts

-- destGroupPath ? `g-${destGroupPath}` : null
abbrev pub new_group_tag : Option Text → Option Text
new_group_tag none = none
new_group_tag (some []) = none
new_group_tag (some (c ∷ s)) = some (group_prefix ++ c ∷ s)

abbrev pub listed : Option Text → List Text
listed none = []
listed (some t) = t ∷ []

module _ {E : Type 0} (parse_int : Text → Option ℤ) where
  abbrev pub get_host_order : HostData E → Option ℤ
  get_host_order h = elim h.tags [ none ↦ none | some ts ↦ first_order parse_int ts ]

  abbrev pub host_le : (Text → Text → Bool) → HostData E → HostData E → Bool
  host_le name_le a b =
      if eq_order (get_host_order a) (get_host_order b)
      then name_le a.name b.name
      else order_le (get_host_order a) (get_host_order b)

module _ {E : Type 0} where
  abbrev pub get_host_group_path : HostData E → Option Text
  get_host_group_path h = elim h.tags [ none ↦ none | some ts ↦ path_of (group_tag ts) ]

  abbrev pub named : Text → HostData E → Bool
  named name h = eq h.name name

  abbrev pub with_tags : List Text → HostData E → HostData E
  with_tags ts h = record h { tags = some ts }

  -- newSortedList.splice(idx, 0, host), or push
  abbrev pub insert_before : Text → HostData E → List (HostData E) → List (HostData E)
  insert_before before h hs = elim (if eq before [] then none else find_index (named before) hs) [
    | none ↦ hs ++ h ∷ []
    | some i ↦ insert_at i (h ∷ []) hs
  ]

  -- The hosts that are sent, from the index `i` on: those that the function gives.
  unfoldable pub sent :
      (ℕ → HostData E → Option (HostData E)) → ℕ → List (HostData E) → List (HostData E)
  sent update i [] = []
  sent update i (h ∷ hs) =
      let rest = sent update (i + 1) hs in elim (update i h) [ none ↦ rest | some u ↦ u ∷ rest ]

  abbrev pub is_sibling : Text → Option Text → HostData E → Bool
  is_sibling server dest h =
      not h.is_auto && (not (named server h) && eq_path (get_host_group_path h) dest)

  -- The host under its name in the Map, which keeps the last one.
  abbrev pub latest : List (HostData E) → HostData E → HostData E
  latest [] h = h
  latest (u ∷ us) h =
      let later = latest us h in if named u.name h && not (any (named u.name) us) then u else later

  module _ (parse_int : Text → Option ℤ) where
    -- The host in its new place of `moveServer`, if it is sent.
    abbrev pub placed : Text → Option Text → ℕ → HostData E → Option (HostData E)
    placed server dest i h =
        let order = (i + 1) * 10 in
        let kept = filter keeps (tags_of h.tags) in
        if named server h
          || (group_changes h.tags (new_group_tag dest)
              || not (eq_order (get_host_order parse_int h) (some (pos order))))
        then some (with_tags (kept ++ (listed (new_group_tag dest) ++ order_tag order ∷ [])) h)
        else none

    -- The same for `reorderFavourites`.
    abbrev pub placed_favourite : Text → ℕ → HostData E → Option (HostData E)
    placed_favourite dragged i h =
        let order = (i + 1) * 10 in
        if not (eq_order (get_host_order parse_int h) (some (pos order))) || named dragged h
        then some
            (with_tags (without_prefix order_prefix (tags_of h.tags) ++ order_tag order ∷ []) h)
        else none

    -- The hosts that are sent; `none` if there is no such server. An empty or missing `before` is
    -- the empty text.
    unfoldable pub move_server :
        (Text → Text → Bool)
        → Text
        → Option Text
        → Text
        → List (HostData E)
        → Option (List (HostData E))
    move_server name_le server dest before hosts = elim (find (named server) hosts) [
      | none ↦ none
      | some h ↦ some (
          sent (placed server dest) 0 (
            insert_before before h
              (sort (host_le parse_int name_le) (filter (is_sibling server dest) hosts))))
    ]

    -- The favourites in their new order.
    unfoldable pub moved_favourites :
        (Text → Text → Bool) → Text → Text → Bool → List (HostData E) → Option (List (HostData E))
    moved_favourites name_le dragged target after hosts =
        let favs = sort (host_le parse_int name_le) (filter (λ h. h.is_favourite) hosts) in
        elim (find_index (named dragged) favs) [
          | none ↦ none
          | some i ↦ elim (find_index (named target) favs) [
            | none ↦ none
            | some j ↦ elim (get_elem? favs i) [
              | none ↦ none
              | some h ↦
                  let rest = remove_at i favs in
                  some (
                    insert_at (insert_index (find_index (named target) rest) after rest) (h ∷ [])
                      rest)
            ]
          ]
        ]

    -- The hosts after it, and those that are sent; `none` if nothing is done.
    unfoldable pub reorder_favourites :
        (Text → Text → Bool)
        → Text
        → Text
        → Bool
        → List (HostData E)
        → Option (List (HostData E) × List (HostData E))
    reorder_favourites name_le dragged target after hosts =
        elim (moved_favourites name_le dragged target after hosts) [
          | none ↦ none
          | some favs ↦
              let updated = sent (placed_favourite dragged) 0 favs in
              if is_empty updated then none else some (map (latest updated) hosts, updated)
        ]
