-- ===== src/Proxies/Observed.antt =====
-- A proxy of frontend/src/common.ts against the container that it wraps, and what its callback is
-- told.
use cozyssh.Prelude.{
  map, ℕ, zero, suc, ◌+◌, ◌≤◌, ◌≡◌, refl, sym, subst, inl, inr, ◌⊎◌, List, [], ◌∷◌, Bool, true,
  false, if◌then◌else◌, length, All, arith,
}
use cozyssh.Proxies.{
  Object, the_target, this_of, to_receiver, Outcome, Access, mutating, bound, on_receiver, Proxy,
  Event, call, microtask, answer, serve, run_microtask, run, run_raw,
}

-- The contents that the callback was given last, or those at the start.
abbrev pub last_seen : {C : Type 0} → C → List C → C
last_seen c [] = c
last_seen c (d ∷ ds) = d

abbrev pub is_mutating : Access → Bool
is_mutating mutating = true
is_mutating bound = false
is_mutating on_receiver = false

abbrev pub is_blocked : Access → Bool
is_blocked mutating = false
is_blocked bound = false
is_blocked on_receiver = true

-- The invariant of a proxy after `n` calls that may have changed the container: one microtask is
-- queued if one is pending and else none, the callback has been given the contents unless it is
-- about to be, and it has not been called more often than there were changes.
pub record Told {C : Type 0} (initial : C) (n : ℕ) (p : Proxy C) : Type 0 where
  pub queue : p.microtasks ≡ (if p.is_pending then 1 else 0)
  pub current : (p.is_pending ≡ true) ⊎ (last_seen initial p.seen ≡ p.target)
  pub burst : length p.seen + p.microtasks ≤ n

answer-Told :
    {C R : Type 0} (initial : C) (n : ℕ) (p : Proxy C) (a : Access) (c : C) (result : Outcome R)
    → Told initial n p
    → (is_mutating a ≡ true) ⊎ (c ≡ p.target)
    → Told initial (if is_mutating a then suc n else n) (answer a p (c, result)).0
unfolding answer
answer-Told initial n p mutating c result t r = record {
  queue = ground (arith, t.queue);
  current = inl refl;
  burst = ground (arith, t.queue, t.burst);
}
answer-Told initial n p bound c result t (inl r) = cc
answer-Told initial n p bound c result t (inr r) = record {
  queue = t.queue;
  current = subst (λ d. (p.is_pending ≡ true) ⊎ (last_seen initial p.seen ≡ d)) (sym r) t.current;
  burst = t.burst;
}
answer-Told initial n p on_receiver c result t r = t

serve-Told :
    {C : Type 0} (initial : C) (n : ℕ) (p : Proxy C) (m : ℕ)
    → Told initial n p
    → p.microtasks ≡ m
    → Told initial n (serve m p)
unfolding serve
serve-Told initial n p zero t e = t
serve-Told initial n p (suc m) t e = record {
  queue = ground (arith, t.queue);
  current = inr refl;
  burst = omega (arith, t.burst);
}

pub run_microtask-Told :
    {C : Type 0} (initial : C) (n : ℕ) (p : Proxy C)
    → Told initial n p
    → Told initial n (run_microtask p)
unfolding run_microtask
run_microtask-Told initial n p t = serve-Told initial n p p.microtasks t refl

serve-target : {C : Type 0} (m : ℕ) (p : Proxy C) → (serve m p).target ≡ p.target
unfolding serve
serve-target zero p = refl
serve-target (suc m) p = refl

run_microtask-target : {C : Type 0} (p : Proxy C) → (run_microtask p).target ≡ p.target
unfolding run_microtask
run_microtask-target p = serve-target p.microtasks p

module _ {C K R : Type 0} (access : K → Access) (raw : Object → K → C → C × Outcome R) where
  abbrev pub Works : Event K → Type 0
  Works (call k) = is_blocked (access k) ≡ false
  Works microtask = Unit

  -- The number of the calls that may change the container.
  pub changes : List (Event K) → ℕ → ℕ
  changes [] n = n
  changes (call k ∷ es) n = changes es (if is_mutating (access k) then suc n else n)
  changes (microtask ∷ es) n = changes es n

  -- The results on the proxy are those on the container, with the proxy for the container.
  abbrev Agrees : List (Event K) → Proxy C → C → List (Outcome R) → Type 0
  Agrees es p c results =
      ((run raw access es p (map to_receiver results)).0.target ≡ (run_raw raw es c results).0)
      × ((run raw access es p (map to_receiver results)).1
          ≡ map to_receiver (run_raw raw es c results).1)

  -- A method that is only bound does not return the container.
  abbrev pub IsPlain : Access → Outcome R → Type 0
  IsPlain a result = (is_mutating a ≡ true) ⊎ (to_receiver result ≡ result)

  answered :
      (es : List (Event K)) (a : Access) (k : K) (p : Proxy C) (results : List (Outcome R))
      → is_blocked a ≡ false
      → IsPlain a (raw the_target k p.target).1
      → ((q : Proxy C) (rs : List (Outcome R)) → Agrees es q q.target rs)
      → let (q, answered) = answer a p (raw (this_of a) k p.target) in
        let (c, result) = raw the_target k p.target in
        ((run raw access es q (answered ∷ map to_receiver results)).0.target
          ≡ (run_raw raw es c (result ∷ results)).0)
        × ((run raw access es q (answered ∷ map to_receiver results)).1
            ≡ map to_receiver (run_raw raw es c (result ∷ results)).1)
  unfolding answer
  answered es mutating k p results h plain ih = ih _ ((raw the_target k p.target).1 ∷ results)
  answered es bound k p results h (inl m) ih = cc
  answered es bound k p results h (inr same) ih =
      let (c, result) = raw the_target k p.target in
      let q = record p { target = c } in
      subst
        (λ x.
          ((run raw access es q (x ∷ map to_receiver results)).0.target
            ≡ (run_raw raw es c (result ∷ results)).0)
          × ((run raw access es q (x ∷ map to_receiver results)).1
              ≡ map to_receiver (run_raw raw es c (result ∷ results)).1))
        same (ih q (result ∷ results))
  answered es on_receiver k p results h plain ih = cc

  -- Every call gives what it gives on the container, with the proxy where that gives the container
  -- itself, and the contents are the same, whenever the microtasks run.
  pub run-run_raw :
      ((k : K) (c : C) → IsPlain (access k) (raw the_target k c).1)
      → (es : List (Event K)) (p : Proxy C) (results : List (Outcome R)) → All Works es
      → ((run raw access es p (map to_receiver results)).0.target
          ≡ (run_raw raw es p.target results).0)
        × ((run raw access es p (map to_receiver results)).1
            ≡ map to_receiver (run_raw raw es p.target results).1)
  unfolding run run_raw
  run-run_raw plain [] p results h = (refl, refl)
  run-run_raw plain (call k ∷ es) p results (h, hs) =
      answered es (access k) k p results h (plain k p.target) (λ q rs. run-run_raw plain es q rs hs)
  run-run_raw plain (microtask ∷ es) p results (h, hs) =
      subst (λ c. Agrees es (run_microtask p) c results) (run_microtask-target p)
        (run-run_raw plain es (run_microtask p) results hs)

  module _ (initial : C)
      (reads : (this : Object) (k : K) (c : C)
        → (is_mutating (access k) ≡ true) ⊎ ((raw this k c).0 ≡ c)) where
    pub run-Told :
        (es : List (Event K)) (n : ℕ) (p : Proxy C) (results : List (Outcome R))
        → Told initial n p
        → Told initial (changes es n) (run raw access es p results).0
    unfolding run changes
    run-Told [] n p results t = t
    run-Told (call k ∷ es) n p results t =
        let this = this_of (access k) in
        run-Told es _ _ _ (
          answer-Told initial n p (access k) ((raw this k p.target).0) ((raw this k p.target).1) t
            (reads this k p.target))
    run-Told (microtask ∷ es) n p results t =
        run-Told es n _ results (run_microtask-Told initial n p t)
