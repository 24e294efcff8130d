-- ===== src/HostOrder/Tests.antt =====
-- Tests of the order of the hosts, and a concrete case of each theorem (frontend/src/store.ts).
use Prim.Native.Char.{code}
use mathlib.Core.List.{Perm}
use cozyssh.Prelude.{
  ◌++◌, ℕ, ◌+◌, ◌-◌, ◌*◌, ◌≡◌, refl, ap, ◌∙◌, List, [], ◌∷◌, map, Option, none, some, Bool, true,
  false, filter, find_index, String,
}
use cozyssh.Prelude.Int.{ℤ, pos}
use cozyssh.Prelude.Decimal.{decimal, read, read-decimal}
use cozyssh.SshConfig.Units.{Text, units, eq}
use cozyssh.Hosts.Lookup.{HostData}
use cozyssh.Tabs.{is_empty}
use cozyssh.Ordering.{remove_at, sort, insert_at}
use cozyssh.HostOrder.{
  get_host_group_path, sent, placed, placed_favourite, is_sibling, latest, move_server,
  reorder_favourites,
}
use cozyssh.HostOrder.Tags.{ReadsDecimal}
use cozyssh.HostOrder.Settled.{AllSettled, sorted_favourites}
use cozyssh.HostOrder.Moves.{move_server_lem, reorder_favourites_lem}

abbrev value : ℕ → Text → ℕ
value acc [] = acc
value acc (c ∷ s) = value (acc * 10 + (c - 48)) s

-- The value of the digits.
abbrev parse_digits : Text → Option ℤ
parse_digits s = some (pos (value 0 s))

value-units : (acc : ℕ) (s : String) → value acc (units s) ≡ read acc s
unfolding read
value-units acc String.[] = refl
value-units acc (String.◌∷◌ c s) = value-units (acc * 10 + (code c - 48)) s

parse_digits-ReadsDecimal : ReadsDecimal parse_digits
parse_digits-ReadsDecimal n = ap (λ k. some (pos k)) (value-units 0 (decimal n) ∙ read-decimal n)

abbrev host : Text → List Text → HostData ℕ
host name tags = record {
  name = name;
  hostname = name;
  user = units "root";
  port = units "22";
  password = none;
  tags = some tags;
  is_auto = false;
  is_favourite = true;
  rest = 0;
}

abbrev any_name : Text → Text → Bool
any_name a b = true

abbrev hosts : List (HostData ℕ)
hosts =
    host (units "a") (units "o-10" ∷ units "g-x" ∷ [])
    ∷ host (units "b") (units "o-20" ∷ units "g-x" ∷ [])
    ∷ host (units "c") (units "red" ∷ [])
    ∷ []

-- `c` goes before `b`: `a` stays as it is.
names_sent : Option (List Text)
unfolding move_server sent sort insert_at
names_sent =
    elim (move_server parse_digits any_name (units "c") (some (units "x")) (units "b") hosts) [
      | none ↦ none
      | some hs ↦ some (map (λ h. h.name) hs)
    ]

names_sent_test : names_sent ≡ some (units "c" ∷ units "b" ∷ [])
unfolding names_sent
names_sent_test = refl

move_server_lem_example :
    (l : List (HostData ℕ)) × (move_server parse_digits any_name
        (units "c")
        (some (units "x"))
        (units "b")
        hosts
      ≡ some (sent (placed parse_digits (units "c") (some (units "x"))) 0 l))
    × Perm l (
        host (units "c") (units "red" ∷ [])
        ∷ filter (is_sibling (units "c") (some (units "x"))) hosts)
    × AllSettled parse_digits
        (λ h. get_host_group_path h ≡ some (units "x"))
        (placed parse_digits (units "c") (some (units "x")))
        0
        l
move_server_lem_example =
    move_server_lem parse_digits parse_digits-ReadsDecimal any_name (units "c") (some (units "x"))
      (units "b") hosts (host (units "c") (units "red" ∷ [])) (λ e. cc) refl

first_index :
    (find_index (λ h. eq h.name (units "a")) (sorted_favourites parse_digits any_name hosts))
    ≡ some 0
unfolding sort
first_index = refl

third_index :
    (find_index (λ h. eq h.name (units "c")) (sorted_favourites parse_digits any_name hosts))
    ≡ some 2
unfolding sort
third_index = refl

reorder_favourites_lem_example :
    let sorted = sorted_favourites parse_digits any_name hosts in
    (h : HostData ℕ) × (l : List (HostData ℕ)) × (t : HostData ℕ) × (r : List (HostData ℕ)) × (eq
        h.name
        (units "a")
      ≡ true)
    × (eq t.name (units "c") ≡ true)
    × (remove_at 0 sorted ≡ l ++ (t ∷ r))
    × (let to_send = sent (placed_favourite parse_digits (units "a")) 0 (l ++ (t ∷ h ∷ r)) in
        (reorder_favourites parse_digits any_name (units "a") (units "c") true hosts
          ≡ some (map (latest to_send) hosts, to_send))
        × (is_empty to_send ≡ false)
        × (map (λ (k : HostData ℕ). k.name) (map (latest to_send) hosts)
            ≡ map (λ (k : HostData ℕ). k.name) hosts))
    × Perm (l ++ (t ∷ h ∷ r)) (filter (λ h. h.is_favourite) hosts)
    × AllSettled parse_digits
        (λ h. Unit)
        (placed_favourite parse_digits (units "a"))
        0
        (l ++ (t ∷ h ∷ r))
reorder_favourites_lem_example =
    reorder_favourites_lem parse_digits parse_digits-ReadsDecimal any_name (units "a") (units "c")
      true hosts 0 2 refl first_index third_index
