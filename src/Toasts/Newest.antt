-- ===== src/Toasts/Newest.antt =====
-- The toasts after a notification (frontend/src/store.ts).
use cozyssh.Prelude.{
  ℕ, zero, suc, ◌-◌, ◌≡◌, ◌≤◌, refl, ap, ◌∙◌, List, [], ◌∷◌, ◌++◌, Bool, true, false, not, ◌&&◌,
  String, str_eq, arith, All, if_elim, length, length-append, drop, filter,
}
use cozyssh.Prelude.Int.{ℤ, pos}
use cozyssh.Toasts.{Toast, Toasts, new_id, is_of_key, unreplaced, notify}

drop-one {ℓ} :
    {A : Type ℓ} (k : ℕ) (xs : List A) (x : A)
    → k ≤ length xs
    → drop k (xs ++ x ∷ []) ≡ drop k xs ++ x ∷ []
drop-one zero xs x h = refl
drop-one (suc k) [] x h = absurd (omega arith)
drop-one (suc k) (y ∷ xs) x h = drop-one k xs x (omega arith)

length-drop {ℓ} : {A : Type ℓ} (k : ℕ) (xs : List A) → length (drop k xs) ≡ length xs - k
length-drop zero xs = omega arith
length-drop (suc k) [] = omega arith
length-drop (suc k) (x ∷ xs) = omega (arith, length-drop k xs)

All-drop {ℓ κ} : {A : Type ℓ} (P : A → Type κ) (k : ℕ) (xs : List A) → All P xs → All P (drop k xs)
All-drop P zero xs h = h
All-drop P (suc k) [] h = tt
All-drop P (suc k) (x ∷ xs) (a, h) = All-drop P k xs h

module _ {S : Type 0} where
  -- Its id is not of the key, if that is not empty.
  abbrev pub IsOther : String → Toast S → Type 0
  IsOther key t = (not (str_eq key "") && is_of_key key t.id) ≡ false

  unreplaced-IsOther : (key : String) (ts : List (Toast S)) → All (IsOther key) (unreplaced key ts)
  unreplaced-IsOther key ts =
      if_elim (All (IsOther key)) (str_eq key "") (λ e. all ts e) (λ _. kept ts)
    where
      all : (us : List (Toast S)) → str_eq key "" ≡ true → All (IsOther key) us
      all [] e = tt
      all (u ∷ us) e = (rw e refl, all us e)

      kept : (us : List (Toast S)) → All (IsOther key) (filter (λ t. not (is_of_key key t.id)) us)
      kept [] = tt
      kept (u ∷ us) =
          if_elim (All (IsOther key)) (not (is_of_key key u.id)) (λ e. (ground (arith, e), kept us))
            (λ _. kept us)

  -- With a limit of one or more, a notification that is not muted is the last toast; there are no
  -- more toasts than the limit, and no other one is of its key.
  pub notify_lem :
      (muted : String → Bool) (n : ℕ) (timeout : ℤ) (msg : String) (severity : S) (key : String)
      (s : Toasts S)
      → (not (str_eq key "") && muted key) ≡ false
      → (l : List (Toast S)) × ((notify muted (pos (suc n)) timeout msg severity key s).toasts
          ≡ l
            ++ record { id = new_id key s.toast_id; key = key; msg = msg; severity = severity }
              ∷ [])
        × (length l ≤ n)
        × All (IsOther key) l
  unfolding notify
  notify_lem muted n timeout msg severity key s loud =
      let kept = unreplaced key s.toasts in
      let t : Toast S = record {
        id = new_id key s.toast_id;
        key = key;
        msg = msg;
        severity = severity;
      } in
      let k = length kept - n in
      let count : length (kept ++ t ∷ []) - suc n ≡ k =
        omega (arith, length-append kept (t ∷ [])) in
      (
        drop k kept,
        rw (loud, notify)
            (ap (λ i. drop i (kept ++ t ∷ [])) count ∙ drop-one k kept t (omega arith)),
        omega (arith, length-drop k kept),
        All-drop (IsOther key) k kept (unreplaced-IsOther key s.toasts),
      )
