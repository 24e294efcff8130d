-- ===== src/Proxies.antt =====
-- `createSetProxy` and `createMapProxy` of frontend/src/common.ts: a set and a map that tell a
-- callback of their changes, once for a burst of them. A microtask runs between two calls of the
-- program; the callback is recorded by what it is given, newest first.
pub mod Observed
pub mod Containers
pub mod Refines
mod Tests
use cozyssh.Prelude.{
  ℕ, zero, suc, ◌-◌, List, [], ◌∷◌, Option, none, some, Bool, true, false, if◌then◌else◌,
}

-- The container, and the proxy that is the receiver of a call.
pub data Object : Type 0 where
  the_target the_receiver : Object

-- What a call returns.
pub data Outcome (R : Type 0) : Type 0 where
  object : Object → Outcome R
  undefined type_error : Outcome R
  value : R → Outcome R

-- A property of the container is one of the mutating methods, another method, bound to the container,
-- or a getter that is called on the proxy.
pub data Access : Type 0 where
  mutating bound on_receiver : Access

-- The variables of one of the two functions, and the number of microtasks that it has queued.
pub record Proxy (C : Type 0) : Type 0 where
  pub target : C
  pub is_pending : Bool
  pub microtasks : ℕ
  pub seen : List C

abbrev pub create : {C : Type 0} → C → Proxy C
create c = record { target = c; is_pending = false; microtasks = 0; seen = [] }

pub data Event (K : Type 0) : Type 0 where
  call : K → Event K
  microtask : Event K

-- The `this` that the method or the getter has.
abbrev pub this_of : Access → Object
this_of mutating = the_target
this_of bound = the_target
this_of on_receiver = the_receiver

-- result === target ? receiver : result
abbrev pub to_receiver : {R : Type 0} → Outcome R → Outcome R
to_receiver (object the_target) = object the_receiver
to_receiver (object the_receiver) = object the_receiver
to_receiver undefined = undefined
to_receiver type_error = type_error
to_receiver (value r) = value r

-- What `get` makes of a method with this outcome.
pub answer : {C R : Type 0} → Access → Proxy C → C × Outcome R → Proxy C × Outcome R
answer mutating p (c, result) = (
  record p {
    target = c;
    is_pending = true;
    microtasks = if p.is_pending then p.microtasks else suc p.microtasks;
  },
  to_receiver result,
)
answer bound p (c, result) = (record p { target = c }, result)
answer on_receiver p (c, result) = (p, result)

-- The queue of microtasks is served, if it has one.
pub serve : {C : Type 0} → ℕ → Proxy C → Proxy C
serve zero p = p
serve (suc n) p = record p { is_pending = false; microtasks = n; seen = p.target ∷ p.seen }

pub run_microtask : {C : Type 0} → Proxy C → Proxy C
unfolding serve
run_microtask p = serve p.microtasks p

-- The methods and getters of the container are the function `raw`, whose first argument is `this`.
module _ {C K R : Type 0} (raw : Object → K → C → C × Outcome R) where
  -- The results of the calls, newest first.
  pub run : (K → Access) → List (Event K) → Proxy C → List (Outcome R) → Proxy C × List (Outcome R)
  unfolding answer run_microtask
  run access [] p results = (p, results)
  run access (call k ∷ es) p results =
      let (q, result) = answer (access k) p (raw (this_of (access k)) k p.target) in
      run access es q (result ∷ results)
  run access (microtask ∷ es) p results = run access es (run_microtask p) results

  -- The container alone, without the proxy.
  pub run_raw : List (Event K) → C → List (Outcome R) → C × List (Outcome R)
  run_raw [] c results = (c, results)
  run_raw (call k ∷ es) c results =
      let (d, result) = raw the_target k c in run_raw es d (result ∷ results)
  run_raw (microtask ∷ es) c results = run_raw es c results
