-- ===== src/TabOpen/Bounds.antt =====
-- A tab has four panes at most (frontend/src/store.ts).
use cozyssh.Prelude.{
  ℕ, ◌≡◌, ◌≤◌, refl, sym, subst, inl, inr, List, [], ◌∷◌, ◌++◌, map, Option, none, some, Bool,
  false, String, str_eq, str_eq_iff, Bool-cases, arith, All, if_elim, option_elim, find,
  if◌then◌else◌, ◌&&◌, length, length-append,
}
use cozyssh.Tabs.{
  PaneData, TabData, Store, find_tab, holds, or_text, activate_pane, set_tabs,
  cleanup_associated_tab_state, activate_in, needs_pane,
}
use cozyssh.Tabs.Close.{IsUnique}
use cozyssh.TabPanes.Removed.{renew, renew-absent}
use cozyssh.Titles.{host_title, new_tab_title}
use cozyssh.TabOpen.{
  with_option, Options, Recent, option, add_pane, add_pane_to, append_tab, is_full,
}
use cozyssh.TabOpen.Host.{
  Wanted, Opening, open_pane, open_in, open_host, is_full_tab, target_of, counts,
}
use cozyssh.TabOpen.Session.{pane_to_clone, clone_in, clone_session, add_clone, cloned}

abbrev pub IsSmall : TabData → Type 0
IsSmall t = length t.panes ≤ 4

renew-IsSmall :
    (id : String) (g : TabData → TabData) (ts : List TabData)
    → ((t : TabData) → IsSmall t → IsSmall (g t))
    → All IsSmall ts
    → All IsSmall (map (renew id g) ts)
renew-IsSmall id g [] k a = tt
renew-IsSmall id g (t ∷ ts) k (a, b) =
    (if_elim IsSmall (str_eq t.id id) (λ _. k t a) (λ _. a), renew-IsSmall id g ts k b)

add_pane-IsSmall : (p : PaneData) (t : TabData) → is_full t ≡ false → IsSmall (add_pane p t)
add_pane-IsSmall p t f = let k = length-append t.panes (p ∷ []) in ground (arith, k)

added-IsSmall :
    (id : String) (p : PaneData) (ts : List TabData) (t : TabData)
    → IsUnique ts
    → find_tab id ts ≡ some t
    → is_full t ≡ false
    → All IsSmall ts
    → All IsSmall (map (renew id (add_pane p)) ts)
added-IsSmall id p [] t q e f a = tt
added-IsSmall id p (u ∷ ts) t (k, q) e f (a, b) = elim (Bool-cases (str_eq u.id id)) [
  | inl hit ↦
      let same : u ≡ t = ground arith in
      let gone = rw ((str_eq_iff u.id id).0 hit) at k in
      rw (hit, renew-absent id (add_pane p) ts gone)
        (add_pane-IsSmall p u (subst (λ v. is_full v ≡ false) (sym same) f), b)
  | inr miss ↦ rw miss (a, added-IsSmall id p ts t q (rw miss at e) f b)
]

append-IsSmall :
    (ts : List TabData) (t : TabData) → All IsSmall ts → IsSmall t → All IsSmall (ts ++ t ∷ [])
append-IsSmall [] t a k = (k, tt)
append-IsSmall (u ∷ ts) t (a, b) k = (a, append-IsSmall ts t b k)

add_clone-IsSmall : (p : PaneData) (t : TabData) → IsSmall t → IsSmall (add_clone p t)
add_clone-IsSmall p t a = if_elim IsSmall (is_full t) (λ _. a) (λ f. add_pane-IsSmall p t f)

-- Of a result, if there is one.
abbrev AllSmall {ℓ} : {A : Type ℓ} {I : Type 0} → (A → Store I) → Option A → Type 0
AllSmall f o = elim o [ none ↦ Unit | some r ↦ All IsSmall (f r).tabs ]

abbrev Opened : Type 0 → Type 0
Opened I = Option (Store I × List Recent × Opening)

abbrev Small : {I : Type 0} → Opened I → Type 0
Small = AllSmall (λ r. r.0)

module _ {I : Type 0} where
  append_tab-IsSmall :
      (t : TabData) (id : String) (s : Store I)
      → All IsSmall s.tabs
      → IsSmall t
      → All IsSmall (append_tab t id s).tabs
  unfolding append_tab set_tabs cleanup_associated_tab_state
  append_tab-IsSmall t id s a k = append-IsSmall s.tabs t a k

  activate_pane-IsSmall :
      (pane_id tab_id : String) (s : Store I)
      → All IsSmall s.tabs
      → All IsSmall (activate_pane pane_id tab_id s).tabs
  unfolding activate_pane
  activate_pane-IsSmall pane_id tab_id s a =
      if_elim {A = Store I} (λ n. All IsSmall n.tabs) (str_eq tab_id "")
        (λ _.
          option_elim {B = Store I} (λ n. All IsSmall n.tabs) (find (holds pane_id) s.tabs) (λ _. a)
            (λ t _. inside t.id))
        (λ _. inside tab_id)
    where
      inside : (id : String) → All IsSmall (activate_in pane_id id s).tabs
      inside id =
          if_elim (All IsSmall) (needs_pane pane_id (find_tab id s.tabs))
            (λ _. renew-IsSmall id (λ t. record t { active_pane_id = pane_id }) s.tabs (λ t k. k) a)
            (λ _. a)

  open_pane-IsSmall :
      (canonical : String → String) (gen_tab pane_id : String) (w : Wanted) (os : Options)
      (target : String) (s : Store I)
      → IsUnique s.tabs
      → (target_tab : Option TabData)
      → ((t : TabData) → target_tab ≡ some t → find_tab target s.tabs ≡ some t)
      → is_full_tab target_tab ≡ false
      → All IsSmall s.tabs
      → AllSmall (λ r. r.0) (open_pane canonical gen_tab pane_id w os target_tab target s)
  unfolding open_pane add_pane_to set_tabs cleanup_associated_tab_state
  open_pane-IsSmall canonical gen_tab pane_id w os target s q (some t) there room a =
      added-IsSmall target _ s.tabs t q (there t refl) room a
  open_pane-IsSmall canonical gen_tab pane_id w os target s q none there room a =
      option_elim {B = Option (Store I × String)} (AllSmall (λ r. r.0))
        (if str_eq w.title "" then new_tab_title (host_title w.host) s.tabs else some w.title)
        (λ _. tt) (λ x _. append_tab-IsSmall _ pane_id s a (omega arith))

  open_host_small :
      (canonical : String → String) (now : ℕ) (gen_tab gen_pane : String) (no_update : Bool)
      (w : Wanted) (s : Store I) (recents : List Recent)
      → IsUnique s.tabs
      → All IsSmall s.tabs
      → AllSmall (λ r. r.0) (open_host canonical now gen_tab gen_pane no_update w s recents)
  unfolding open_host open_in
  open_host_small canonical now gen_tab gen_pane no_update w s recents q a =
      option_elim {B = Opened I} Small
        (if str_eq (option "id" w.options) ""
          then none
          else find (holds (option "id" w.options)) s.tabs)
        (λ _.
          if_elim {A = Opened I} Small (str_eq (option "state" w.options) "3") (λ _. a)
            (λ _.
              if_elim {A = Opened I} Small (is_full_tab target_tab) (λ _. a)
                (λ room. in_target room)))
        (λ t _. activate_pane-IsSmall (option "id" w.options) t.id s a)
    where
      target : String
      target = target_of w.target s.active_tab_id

      target_tab : Option TabData
      target_tab = if str_eq target "" then none else find_tab target s.tabs

      there : (t : TabData) → target_tab ≡ some t → find_tab target s.tabs ≡ some t
      there t e = elim (Bool-cases (str_eq target "")) [
        | inl h ↦ let k = rw h at e in cc
        | inr h ↦ rw h at e
      ]

      in_target :
          is_full_tab target_tab ≡ false
          → Small (
              open_in canonical now gen_tab
                (or_text (option "id" w.options) gen_pane)
                no_update
                w
                target_tab
                target
                s
                recents)
      in_target room =
          option_elim {B = Opened I} Small
            (open_pane canonical gen_tab (or_text (option "id" w.options) gen_pane) w options
              target_tab target s)
            (λ _. tt)
            (λ e h.
              subst (AllSmall (λ r. r.0)) h (
                open_pane-IsSmall canonical gen_tab _ w options target s q target_tab there room a))
        where
          options : Options
          options =
              if counts no_update w.host
              then with_option "_updateRecent" "1" w.options
              else w.options

  clone_session_small :
      (gen_tab gen_pane id : String) (same_tab : Bool) (s : Store I)
      → All IsSmall s.tabs
      → AllSmall (λ n. n) (clone_session gen_tab gen_pane id same_tab s)
  unfolding clone_session clone_in set_tabs cleanup_associated_tab_state
  clone_session_small gen_tab gen_pane id same_tab s a =
      option_elim {B = Option (Store I)} (AllSmall (λ n. n)) (pane_to_clone id s.tabs) (λ _. a)
        (λ e _.
          option_elim {B = Option (Store I)} (AllSmall (λ n. n)) (e.1) (λ _. a)
            (λ p _.
              if_elim {A = Option (Store I)} (AllSmall (λ n. n)) (same_tab && is_full (e.0))
                (λ _. a)
                (λ _.
                  if_elim {A = Option (Store I)} (AllSmall (λ n. n)) same_tab
                    (λ _.
                      renew-IsSmall (e.0).id (add_clone (cloned gen_pane p)) s.tabs
                        (add_clone-IsSmall (cloned gen_pane p)) a)
                    (λ _.
                      option_elim {B = Option (Store I)} (AllSmall (λ n. n))
                        (new_tab_title (host_title p.host) s.tabs) (λ _. tt)
                        (λ x _. append_tab-IsSmall _ gen_pane s a (omega arith))))))

  -- No tab has more than four panes after `openHost`, nor after `cloneSession`, if none had before
  -- and no two tabs share an id.
  pub open_host-IsSmall :
      (canonical : String → String) (now : ℕ) (gen_tab gen_pane id : String) (flag : Bool)
      (w : Wanted) (s n m : Store I) (recents left : List Recent) (e : Opening)
      → IsUnique s.tabs
      → All IsSmall s.tabs
      → open_host canonical now gen_tab gen_pane flag w s recents ≡ some (n, left, e)
      → clone_session gen_tab gen_pane id flag s ≡ some m
      → All IsSmall n.tabs × All IsSmall m.tabs
  open_host-IsSmall canonical now gen_tab gen_pane id flag w s n m recents left e q a h k = (
    subst Small h (open_host_small canonical now gen_tab gen_pane flag w s recents q a),
    subst (AllSmall (λ x. x)) k (clone_session_small gen_tab gen_pane id flag s a),
  )
