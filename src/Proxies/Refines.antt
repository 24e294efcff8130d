-- ===== src/Proxies/Refines.antt =====
-- The set proxy and the map proxy of frontend/src/common.ts behave as the set and the map that they
-- wrap, and their callbacks get to know of every change.
use cozyssh.Prelude.{
  map, find, Option, none, some, ℕ, suc, zero, ◌≤◌, ◌≡◌, refl, inl, inr, ◌⊎◌, List, [], ◌∷◌, some,
  Bool, true, length, All, arith, Option,
}
use cozyssh.Proxies.{
  Outcome, undefined, Object, the_target, the_receiver, to_receiver, value, Proxy, create, Event,
  call, microtask, serve, run_microtask, run, run_raw,
}
use cozyssh.Proxies.Containers.{
  Answer, item, SetCall, MapCall, set_raw, set_access, create_set_proxy, map_raw, map_access,
  create_map_proxy,
}
use cozyssh.Proxies.Observed.{
  IsPlain, Told, last_seen, is_mutating, Works, changes, run-run_raw, run-Told,
}

create-Told : {C : Type 0} (c : C) → Told c 0 (create c)
create-Told c = record { queue = refl; current = inr refl; burst = omega arith }

-- What is left when the microtask has run.
abbrev pub Settled : {C : Type 0} → C → ℕ → Proxy C → Type 0
Settled initial n p =
    ((run_microtask p).microtasks ≡ 0)
    × (last_seen initial (run_microtask p).seen ≡ p.target)
    × (length (run_microtask p).seen ≤ n)

Told-Settled :
    {C : Type 0} (initial : C) (n : ℕ) (p : Proxy C) → Told initial n p → Settled initial n p
unfolding run_microtask serve
Told-Settled initial n p t = served p.microtasks refl
  where
    served :
        (m : ℕ)
        → p.microtasks ≡ m
        → ((serve m p).microtasks ≡ 0)
          × (last_seen initial (serve m p).seen ≡ p.target)
          × (length (serve m p).seen ≤ n)
    served zero e = (
      e,
      elim t.current [ inl on ↦ absurd (ground (arith, t.queue)) | inr same ↦ same ],
      omega (arith, t.burst),
    )
    served (suc m) e = (ground (arith, t.queue), refl, omega (arith, t.burst))

module _ {A : Type 0} (eq : A → A → Bool) where
  set-reads :
      (this : Object) (k : SetCall A) (s : List A)
      → (is_mutating (set_access eq k) ≡ true) ⊎ ((set_raw eq this k s).0 ≡ s)
  unfolding set_access set_raw
  set-reads the_receiver k s = inr refl
  set-reads the_target (SetCall.add a) s = inl refl
  set-reads the_target (SetCall.delete a) s = inl refl
  set-reads the_target (SetCall.has a) s = inr refl
  set-reads the_target SetCall.clear s = inl refl
  set-reads the_target SetCall.size s = inr refl

  set-IsPlain :
      (k : SetCall A) (s : List A)
      → IsPlain (set_access eq) (set_raw eq) (set_access eq k) (set_raw eq the_target k s).1
  unfolding set_access set_raw
  set-IsPlain (SetCall.add a) s = inl refl
  set-IsPlain (SetCall.delete a) s = inl refl
  set-IsPlain (SetCall.has a) s = inr refl
  set-IsPlain SetCall.clear s = inl refl
  set-IsPlain SetCall.size s = inr refl

  set-created :
      (items : Option (List A))
      → Told (create_set_proxy eq items).target 0 (create_set_proxy eq items)
  unfolding create_set_proxy
  set-created none = create-Told []
  set-created (some items) = create-Told _

  -- Without the getter `size`, whatever calls are made and whenever the microtasks run, every call
  -- on a set proxy gives what it gives on a set, or the proxy where that gives the set, the
  -- contents are the same, and when the queue has been served the callback has seen the contents,
  -- called not more often than there were calls that change the set.
  pub set_proxy_lem :
      (items : Option (List A)) (events : List (Event (SetCall A)))
      → All (Works (set_access eq) (set_raw eq)) events
      → let p = create_set_proxy eq items in
        let q = (run (set_raw eq) (set_access eq) events p []).0 in
        let r = run_raw (set_raw eq) events p.target [] in
        (q.target ≡ r.0)
        × ((run (set_raw eq) (set_access eq) events p []).1 ≡ map to_receiver r.1)
        × Settled p.target (changes (set_access eq) (set_raw eq) events 0) q
  set_proxy_lem items events h =
      let p = create_set_proxy eq items in
      let told =
        run-Told (set_access eq) (set_raw eq) p.target set-reads events 0 p []
          (set-created items) in
      let (c, r) = run-run_raw (set_access eq) (set_raw eq) set-IsPlain events p [] h in
      (c, r, Told-Settled p.target _ _ told)

module _ {K V : Type 0} (eq : K → K → Bool) where
  map-reads :
      (this : Object) (k : MapCall K V) (m : List (K × V))
      → (is_mutating (map_access eq k) ≡ true) ⊎ ((map_raw eq this k m).0 ≡ m)
  unfolding map_access map_raw
  map-reads the_receiver k m = inr refl
  map-reads the_target (MapCall.set k v) m = inl refl
  map-reads the_target (MapCall.delete k) m = inl refl
  map-reads the_target (MapCall.has k) m = inr refl
  map-reads the_target (MapCall.get k) m = inr refl
  map-reads the_target MapCall.clear m = inl refl
  map-reads the_target MapCall.size m = inr refl

  abbrev item_of : Option (K × V) → Outcome (Answer V)
  item_of none = undefined
  item_of (some e) = value (item (e.1))

  item_plain : (o : Option (K × V)) → to_receiver (item_of o) ≡ item_of o
  item_plain none = refl
  item_plain (some e) = refl

  plain_get :
      (k : K) (m : List (K × V))
      → to_receiver (map_raw eq the_target (MapCall.get k) m).1
        ≡ (map_raw eq the_target (MapCall.get k) m).1
  unfolding map_raw
  plain_get k m = item_plain (find (λ e. eq k (e.0)) m)

  map-IsPlain :
      (k : MapCall K V) (m : List (K × V))
      → IsPlain (map_access eq) (map_raw eq) (map_access eq k) (map_raw eq the_target k m).1
  unfolding map_access map_raw
  map-IsPlain (MapCall.set k v) m = inl refl
  map-IsPlain (MapCall.delete k) m = inl refl
  map-IsPlain (MapCall.has k) m = inr refl
  map-IsPlain (MapCall.get k) m = inr (plain_get k m)
  map-IsPlain MapCall.clear m = inl refl
  map-IsPlain MapCall.size m = inr refl

  map-Works :
      (events : List (Event (MapCall K V))) → All (Works (map_access eq) (map_raw eq)) events
  unfolding map_access
  map-Works [] = tt
  map-Works (call (MapCall.set k v) ∷ es) = (refl, map-Works es)
  map-Works (call (MapCall.delete k) ∷ es) = (refl, map-Works es)
  map-Works (call (MapCall.has k) ∷ es) = (refl, map-Works es)
  map-Works (call (MapCall.get k) ∷ es) = (refl, map-Works es)
  map-Works (call MapCall.clear ∷ es) = (refl, map-Works es)
  map-Works (call MapCall.size ∷ es) = (refl, map-Works es)
  map-Works (microtask ∷ es) = (tt, map-Works es)

  map-created :
      (entries : Option (List (K × V)))
      → Told (create_map_proxy eq entries).target 0 (create_map_proxy eq entries)
  unfolding create_map_proxy
  map-created none = create-Told []
  map-created (some entries) = create-Told _

  -- Whatever calls are made and whenever the microtasks run, every call on a map proxy gives what
  -- it gives on a map, or the proxy where that gives the map, the contents are the same, and when
  -- the queue has been served the callback has seen the contents, called not more often than there
  -- were calls that change the map.
  pub map_proxy_lem :
      (entries : Option (List (K × V))) (events : List (Event (MapCall K V)))
      → let p = create_map_proxy eq entries in
        let q = (run (map_raw eq) (map_access eq) events p []).0 in
        let r = run_raw (map_raw eq) events p.target [] in
        (q.target ≡ r.0)
        × ((run (map_raw eq) (map_access eq) events p []).1 ≡ map to_receiver r.1)
        × Settled p.target (changes (map_access eq) (map_raw eq) events 0) q
  map_proxy_lem entries events =
      let p = create_map_proxy eq entries in
      let told =
        run-Told (map_access eq) (map_raw eq) p.target map-reads events 0 p []
          (map-created entries) in
      let (c, r) =
        run-run_raw (map_access eq) (map_raw eq) map-IsPlain events p [] (map-Works events) in
      (c, r, Told-Settled p.target _ _ told)
