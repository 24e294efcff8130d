-- ===== src/Proxies/Containers.antt =====
-- The calls of a JavaScript `Set` and `Map` that frontend/src/common.ts wraps, and the two proxies.
-- A set is the list of its members in the order of their insertion, a map that of its entries.
use cozyssh.Prelude.{
  ℕ, List, [], ◌∷◌, ◌++◌, Option, none, some, Bool, not, if◌then◌else◌, length, any, filter, find,
}
use cozyssh.Proxies.{
  Outcome, Object, object, the_target, the_receiver, type_error, undefined, value, Access, mutating,
  bound, on_receiver, Proxy, create,
}

pub data SetCall (A : Type 0) : Type 0 where
  add delete has : A → SetCall A
  clear size : SetCall A

pub data MapCall (K V : Type 0) : Type 0 where
  set : K → V → MapCall K V
  delete has get : K → MapCall K V
  clear size : MapCall K V

-- A value that a call gives back.
pub data Answer (V : Type 0) : Type 0 where
  flag : Bool → Answer V
  number : ℕ → Answer V
  item : V → Answer V

module _ {A : Type 0} (eq : A → A → Bool) where
  abbrev pub add_member : A → List A → List A
  add_member a s = if any (eq a) s then s else s ++ a ∷ []

  abbrev pub set_of : List A → List A → List A
  set_of [] s = s
  set_of (a ∷ as') s = set_of as' (add_member a s)

  -- The methods of a Set and its getter throw on an object that is not a Set, as the proxy is.
  unfoldable pub set_raw : Object → SetCall A → List A → List A × Outcome (Answer A)
  set_raw the_receiver call s = (s, type_error)
  set_raw the_target (SetCall.add a) s = (add_member a s, object the_target)
  set_raw the_target (SetCall.delete a) s =
      (filter (λ b. not (eq a b)) s, value (flag (any (eq a) s)))
  set_raw the_target (SetCall.has a) s = (s, value (flag (any (eq a) s)))
  set_raw the_target SetCall.clear s = ([], undefined)
  set_raw the_target SetCall.size s = (s, value (number (length s)))

  -- `Reflect.get(target, prop, receiver)` runs the getter `size` on the proxy.
  unfoldable pub set_access : SetCall A → Access
  set_access (SetCall.add a) = mutating
  set_access (SetCall.delete a) = mutating
  set_access (SetCall.has a) = bound
  set_access SetCall.clear = mutating
  set_access SetCall.size = on_receiver

  -- `none` is null or undefined.
  unfoldable pub create_set_proxy : Option (List A) → Proxy (List A)
  create_set_proxy none = create []
  create_set_proxy (some items) = create (set_of items [])

module _ {K V : Type 0} (eq : K → K → Bool) where
  -- A key that is there keeps its place.
  abbrev pub set_entry : K → V → List (K × V) → List (K × V)
  set_entry k v [] = (k, v) ∷ []
  set_entry k v ((j, w) ∷ m) = if eq k j then (j, v) ∷ m else (j, w) ∷ set_entry k v m

  abbrev pub map_of : List (K × V) → List (K × V) → List (K × V)
  map_of [] m = m
  map_of ((k, v) ∷ es) m = map_of es (set_entry k v m)

  -- The same for a Map.
  unfoldable pub map_raw : Object → MapCall K V → List (K × V) → List (K × V) × Outcome (Answer V)
  map_raw the_receiver call m = (m, type_error)
  map_raw the_target (MapCall.set k v) m = (set_entry k v m, object the_target)
  map_raw the_target (MapCall.delete k) m =
      (filter (λ e. not (eq k (e.0))) m, value (flag (any (λ e. eq k (e.0)) m)))
  map_raw the_target (MapCall.has k) m = (m, value (flag (any (λ e. eq k (e.0)) m)))
  map_raw the_target (MapCall.get k) m =
      (m, elim (find (λ e. eq k (e.0)) m) [ none ↦ undefined | some e ↦ value (item (e.1)) ])
  map_raw the_target MapCall.clear m = ([], undefined)
  map_raw the_target MapCall.size m = (m, value (number (length m)))

  -- `Reflect.get(target, prop)` runs the getter `size` on the map.
  unfoldable pub map_access : MapCall K V → Access
  map_access (MapCall.set k v) = mutating
  map_access (MapCall.delete k) = mutating
  map_access (MapCall.has k) = bound
  map_access (MapCall.get k) = bound
  map_access MapCall.clear = mutating
  map_access MapCall.size = bound

  unfoldable pub create_map_proxy : Option (List (K × V)) → Proxy (List (K × V))
  create_map_proxy none = create []
  create_map_proxy (some entries) = create (map_of entries [])
