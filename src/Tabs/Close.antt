-- ===== src/Tabs/Close.antt =====
-- `closeTab` of frontend/src/store.ts: what is left, and which tab has the focus then.
use cozyssh.Prelude.{
  str_eq_refl, ℕ, zero, suc, ◌-◌, ◌≡◌, refl, ◌∙◌, inl, inr, ◌⊎◌, List, [], ◌∷◌, some, true, false,
  not, String, str_eq, str_eq_iff, str_eq_refl, Bool-cases, if_elim, get_elem?, arith,
}
use cozyssh.Tabs.{
  TabData, Store, has, tab_ids, find_tab, tab_index, without, is_empty, or_text, leave_tab,
  activate_tab, close_tab, close_tab_requests, cleanup_associated_tab_state, deactivate,
  activate_tab, trigger_focus,
}
use cozyssh.Tabs.Cleanup.{IsClean, cleanup_lem}
use cozyssh.Tabs.Neighbours.{without_nonempty, neighbour_lem, left_lem}

-- No two tabs share an id.
abbrev pub IsUnique : List TabData → Type 0
IsUnique [] = Unit
IsUnique (t ∷ ts) = (has (tab_ids ts) t.id ≡ false) × IsUnique ts

-- With no tab the active ids are empty; else the active tab exists, and the active pane is its own.
abbrev pub Focus : List TabData → String → String → Type 0
Focus tabs tab_id pane_id =
    ((tabs ≡ []) × (tab_id ≡ "") × (pane_id ≡ ""))
    ⊎ ((t : TabData) × (find_tab tab_id tabs ≡ some t) × (pane_id ≡ t.active_pane_id))

abbrev pub IsFocused : {I : Type 0} → Store I → Type 0
IsFocused s = Focus s.tabs s.active_tab_id s.active_pane_id

get-has :
    (ts : List TabData) (i : ℕ) (t : TabData)
    → get_elem? ts i ≡ some t
    → has (tab_ids ts) t.id ≡ true
get-has [] i t e = cc
get-has (u ∷ us) zero t e = ground (arith, str_eq_iff t.id u.id)
get-has (u ∷ us) (suc i) t e = ground (arith, get-has us i t e)

pub find_tab_of_get_elem? :
    (ts : List TabData) (i : ℕ) (t : TabData)
    → IsUnique ts
    → get_elem? ts i ≡ some t
    → find_tab t.id ts ≡ some t
find_tab_of_get_elem? [] i t q e = cc
find_tab_of_get_elem? (u ∷ us) zero t q e = ground (arith, str_eq_iff u.id t.id)
find_tab_of_get_elem? (u ∷ us) (suc i) t (q, r) e =
    ground (arith, str_eq_iff u.id t.id, get-has us i t e, find_tab_of_get_elem? us i t r e)

has-without :
    (id x : String) (ts : List TabData)
    → has (tab_ids ts) x ≡ false
    → has (tab_ids (without id ts)) x ≡ false
has-without id x [] h = refl
has-without id x (t ∷ ts) h = ground (arith, has-without id x ts)

pub without-IsUnique : (id : String) (ts : List TabData) → IsUnique ts → IsUnique (without id ts)
without-IsUnique id [] q = tt
without-IsUnique id (t ∷ ts) (q, r) =
    if_elim IsUnique (not (str_eq t.id id))
      (λ _. (has-without id t.id ts q, without-IsUnique id ts r)) (λ _. without-IsUnique id ts r)

module _ (id : String) where
  find_tab-without :
      (other : String) (ts : List TabData)
      → str_eq other id ≡ false
      → find_tab other (without id ts) ≡ find_tab other ts
  find_tab-without other [] h = refl
  find_tab-without other (t ∷ ts) h = ground (
    arith,
    find_tab-without other ts h,
    str_eq_iff t.id id,
    str_eq_iff t.id other,
    str_eq_iff other id,
  )

is_empty→eq : (ts : List TabData) → is_empty ts ≡ true → ts ≡ []
is_empty→eq [] h = refl
is_empty→eq (t ∷ ts) h = cc

suc_minus : (i : ℕ) → suc i - 1 ≡ i
suc_minus i = omega arith

module _ {I : Type 0} where
  focused-IsClean : (s : Store I) → IsClean s → IsClean (trigger_focus s)
  focused-IsClean s c = record {
    unread = c.unread;
    shells = c.shells;
    buffers = c.buffers;
    broadcast = c.broadcast;
  }

  pub leave_lem :
      (id : String) (s : Store I)
      → IsUnique s.tabs
      → IsFocused s
      → (n : Store I) × (leave_tab id s ≡ some n)
        × Focus (without id s.tabs) n.active_tab_id n.active_pane_id
        × (n.requests ≡ s.requests)
  unfolding leave_tab
  leave_lem id s q f = elim (Bool-cases (is_empty (without id s.tabs))) [
    | inl none_left ↦
        (deactivate s, simp none_left, inl (is_empty→eq _ none_left, refl, refl), refl)
    | inr left ↦ elim (Bool-cases (str_eq s.active_tab_id id)) [
      | inl active ↦
          let (t, e) = neighbour_lem (λ t. str_eq t.id id) s.tabs left in
          (
            activate_tab t s,
            simp (left, active, e),
            inr (t, find_tab_of_get_elem? _ _ t (without-IsUnique id s.tabs q) e, refl),
            refl,
          )
      | inr other ↦ (s, simp (left, other), kept other left f, refl)
    ]
  ]
    where
      kept :
          str_eq s.active_tab_id id ≡ false
          → is_empty (without id s.tabs) ≡ false
          → IsFocused s
          → Focus (without id s.tabs) s.active_tab_id s.active_pane_id
      kept other left (inl (e, _, _)) = let k = rw e at left in cc
      kept other left (inr (t, e, p)) =
          inr (t, find_tab-without id s.active_tab_id s.tabs other ∙ e, p)

  leave_left :
      (s : Store I) (i : ℕ) (t : TabData)
      → tab_index s.active_tab_id s.tabs ≡ some (suc i)
      → get_elem? s.tabs i ≡ some t
      → leave_tab s.active_tab_id s ≡ some (activate_tab t s)
  unfolding leave_tab
  leave_left s i t at e = simp (
    str_eq_refl,
    without_nonempty (λ t. str_eq t.id s.active_tab_id) s.tabs i at,
    at,
    suc_minus i,
    left_lem (λ t. str_eq t.id s.active_tab_id) s.tabs i at,
    e,
  )

  pub close_tab_lem :
      (target : String) (s : Store I)
      → IsUnique s.tabs
      → IsFocused s
      → (n : Store I) × (close_tab target s ≡ some n)
        × (n.tabs ≡ without (or_text target s.active_tab_id) s.tabs)
        × IsClean n
        × IsFocused n
        × (n.requests
            ≡ close_tab_requests (find_tab (or_text target s.active_tab_id) s.tabs) s.requests)
  unfolding close_tab cleanup_associated_tab_state
  close_tab_lem target s q f =
      let (n, e, focus, r) = leave_lem (or_text target s.active_tab_id) asked q f in
      (_, rw (e, close_tab), refl, focused-IsClean _ (cleanup_lem n left).0, focus, r)
    where
      asked : Store I
      asked = record s {
        requests = close_tab_requests (find_tab (or_text target s.active_tab_id) s.tabs) s.requests;
      }

      left : List TabData
      left = without (or_text target s.active_tab_id) s.tabs

  -- Closing the active tab, if it is not the first, gives the focus to the tab on its left, and to
  -- that tab's active pane.
  pub close_tab_focuses_left :
      (s : Store I) (i : ℕ) (t : TabData)
      → tab_index s.active_tab_id s.tabs ≡ some (suc i)
      → get_elem? s.tabs i ≡ some t
      → (n : Store I) × (close_tab "" s ≡ some n)
        × (n.active_tab_id ≡ t.id)
        × (n.active_pane_id ≡ t.active_pane_id)
  unfolding close_tab cleanup_associated_tab_state
  close_tab_focuses_left s i t at e = (
    trigger_focus
        (cleanup_associated_tab_state (activate_tab t asked) (without s.active_tab_id s.tabs)),
    rw (leave_left asked i t at e, close_tab),
    refl,
    refl,
  )
    where
      asked : Store I
      asked = record s {
        requests = close_tab_requests (find_tab s.active_tab_id s.tabs) s.requests;
      }
