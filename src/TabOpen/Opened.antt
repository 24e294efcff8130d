-- ===== src/TabOpen/Opened.antt =====
-- `openHost` of frontend/src/store.ts keeps the store in order.
use cozyssh.Prelude.{
  ℕ, ◌≡◌, refl, sym, subst, inl, inr, List, [], ◌∷◌, Option, none, some, Bool, false, String,
  str_eq, str_eq_refl, str_eq_iff, Bool-cases, Option-cases, arith, find, if◌then◌else◌, not,
}
use cozyssh.Tabs.{
  TabData, Store, has, pane_ids, tab_ids, all_pane_ids, find_tab, holds, or_text, unset,
  trigger_focus, activate_pane,
}
use cozyssh.TabPanes.Ids.{Apart, holds_eq, has-append}
use cozyssh.TabPanes.Orderly.{IsOrderly}
use cozyssh.TabPanes.Removed.{find-has}
use cozyssh.TabPanes.Active.{trigger_focus-IsOrderly, activate_pane-IsOrderly}
use cozyssh.Titles.{host_title, new_tab_title}
use cozyssh.Titles.Fresh.{new_tab_title_lem}
use cozyssh.TabOpen.{
  Options, Recent, option, new_pane, new_tab, append_tab, with_option, add_pane_to, update_recents,
  remove_pass_from_host,
}
use cozyssh.TabOpen.Host.{
  Wanted, Opening, opened, full, background, activated, open_pane, open_in, open_host, target_of,
  is_full_tab, counts,
}
use cozyssh.TabOpen.Added.{append_tab-IsOrderly, add_pane_to-IsOrderly}

-- The ids that are generated are new.
pub record IsNew {I : Type 0} (gen_tab gen_pane : String) (s : Store I) : Type 0 where
  pub tab : has (tab_ids s.tabs) gen_tab ≡ false
  pub some_tab : str_eq "" gen_tab ≡ false
  pub pane : has (all_pane_ids s.tabs) gen_pane ≡ false

Apart-one : (x : String) (ys : List String) → has ys x ≡ false → Apart (x ∷ []) ys
Apart-one x ys h y m = elim (Bool-cases (str_eq y x)) [
  | inl e ↦ rw ((str_eq_iff y x).0 e) h
  | inr e ↦ let k = rw e at m in cc
]

pub find_tab-absent :
    (id : String) (ts : List TabData) → find_tab id ts ≡ none → has (tab_ids ts) id ≡ false
find_tab-absent id [] e = refl
find_tab-absent id (t ∷ ts) e =
    ground (arith, find_tab-absent id ts, str_eq_iff t.id id, str_eq_iff id t.id)

find-holds-absent :
    (id : String) (ts : List TabData) → find (holds id) ts ≡ none → has (all_pane_ids ts) id ≡ false
find-holds-absent id [] e = refl
find-holds-absent id (t ∷ ts) e = ground (
  arith,
  find-holds-absent id ts,
  holds_eq id t.panes,
  has-append (pane_ids t.panes) (all_pane_ids ts) id,
)

-- The title of a new tab is found.
pub new_title :
    (title host : String) (ts : List TabData)
    → (x : String) × ((if str_eq title "" then new_tab_title (host_title host) ts else some title)
        ≡ some x)
new_title title host ts = elim (Bool-cases (str_eq title "")) [
  | inl e ↦ let (x, f, _, _) = new_tab_title_lem (host_title host) ts in (x, rw e f)
  | inr e ↦ (title, rw e refl)
]

module _ {I : Type 0} where
  -- A tab of one new pane.
  pub single-IsOrderly :
      (t : TabData) (pane_id : String) (s : Store I)
      → IsOrderly s
      → pane_ids t.panes ≡ pane_id ∷ []
      → t.active_pane_id ≡ pane_id
      → has (tab_ids s.tabs) t.id ≡ false
      → str_eq "" t.id ≡ false
      → has (all_pane_ids s.tabs) pane_id ≡ false
      → IsOrderly (append_tab t pane_id s)
  single-IsOrderly t pane_id s o one active fresh some_id free =
      subst (λ p. IsOrderly (append_tab t p s)) active
        (append_tab-IsOrderly t s o fresh some_id (rw one (refl, tt))
          (rw one (Apart-one pane_id _ free)) (inr (rw (one, active, str_eq_refl pane_id) refl)))

  module _ (canonical : String → String) (gen_tab pane_id : String) (w : Wanted) (os : Options)
      (s : Store I) (o : IsOrderly s) (free : has (all_pane_ids s.tabs) pane_id ≡ false) where
    abbrev IsOpened : Option TabData → String → Type 0
    IsOpened target_tab target =
        (e : Store I × String) × (open_pane canonical gen_tab pane_id w os target_tab target s
          ≡ some e)
        × IsOrderly (e.0)

    opened_new :
        (target : String)
        → has (tab_ids s.tabs) (or_text target gen_tab) ≡ false
        → str_eq "" (or_text target gen_tab) ≡ false
        → IsOpened none target
    unfolding open_pane
    opened_new target fresh some_id =
        let (x, e) = new_title w.title w.host s.tabs in
        let p = new_pane pane_id none w.host (canonical w.host) none unset os in
        let t = new_tab (or_text target gen_tab) x (not (str_eq w.title "")) (p ∷ []) pane_id in
        (
          (append_tab t pane_id s, or_text target gen_tab),
          rw (e, open_pane) refl,
          single-IsOrderly t pane_id s o refl refl fresh some_id free,
        )

    opened_in :
        (target : String) (t : TabData) → find_tab target s.tabs ≡ some t → IsOpened (some t) target
    unfolding open_pane
    opened_in target t e =
        let (_, same) = find-has (λ u. str_eq u.id target) s.tabs t e in
        let session =
          if str_eq (option "id" w.options) "" then none else some (option "id" w.options) in
        let p = new_pane pane_id session w.host (canonical w.host) none unset os in
        (
          (
            record (add_pane_to target p s) { active_tab_id = t.id; active_pane_id = pane_id },
            t.id,
          ),
          refl,
          subst
              (λ id.
                IsOrderly (record (add_pane_to target p s) {
                  active_tab_id = id;
                  active_pane_id = pane_id;
                }))
              (sym ((str_eq_iff t.id target).0 same)) (add_pane_to-IsOrderly target p s t o e free),
        )

    -- The target is the empty text, the id of a tab, or that of none.
    open_pane-IsOrderly :
        (target : String)
        → has (tab_ids s.tabs) gen_tab ≡ false
        → str_eq "" gen_tab ≡ false
        → IsOpened (if str_eq target "" then none else find_tab target s.tabs) target
    open_pane-IsOrderly target fresh some_id = elim (Bool-cases (str_eq target "")) [
      | inl e ↦ rw e (opened_new target (rw e fresh) (rw e some_id))
      | inr e ↦ elim (Option-cases (find_tab target s.tabs)) [
        | inl f ↦
            rw (e, f)
              (opened_new target (rw e (find_tab-absent target s.tabs f))
                (rw e (ground (arith, str_eq_iff target "", str_eq_iff "" target))))
        | inr (t, f) ↦ rw (e, f) (opened_in target t f)
      ]
    ]

  -- In a store that is in order, and with new ids, `openHost` raises no exception and leaves a
  -- store in order, whichever of its ends it comes to.
  pub open_host-IsOrderly :
      (canonical : String → String) (now : ℕ) (gen_tab gen_pane : String) (no_update : Bool)
      (w : Wanted) (s : Store I) (recents : List Recent)
      → IsOrderly s
      → IsNew gen_tab gen_pane s
      → (n : Store I) × (left : List Recent) × (e : Opening) × (open_host canonical now gen_tab
            gen_pane no_update w s recents
          ≡ some (n, left, e))
        × IsOrderly n
  unfolding open_host open_in
  open_host-IsOrderly canonical now gen_tab gen_pane no_update w s recents o new =
      let id = option "id" w.options in
      elim (Option-cases (if str_eq id "" then none else find (holds id) s.tabs)) [
        | inr (t, e) ↦ (
          trigger_focus (activate_pane id t.id s),
          recents,
          activated t.id,
          rw (e, open_host) refl,
          activated_lem t e,
        )
        | inl e ↦ elim (Bool-cases (str_eq (option "state" w.options) "3")) [
          | inl b ↦ (s, recents, background w.host w.options, rw (e, b, open_host) refl, o)
          | inr b ↦ elim (Bool-cases (is_full_tab target_tab)) [
            | inl f ↦ (s, recents, full target, rw (e, b, f, open_host) refl, o)
            | inr f ↦
                let ((n, id'), k, q) =
                  open_pane-IsOrderly canonical gen_tab (or_text id gen_pane) w options s o
                    (new_pane_id e) target new.tab new.some_tab in
                (n, left, opened id', rw (e, b, f, k, open_in, open_host) refl, q)
          ]
        ]
      ]
    where
      target : String
      target = target_of w.target s.active_tab_id

      target_tab : Option TabData
      target_tab = if str_eq target "" then none else find_tab target s.tabs

      options : Options
      options =
          if counts no_update w.host then with_option "_updateRecent" "1" w.options else w.options

      left : List Recent
      left =
          if counts no_update w.host
          then update_recents now (remove_pass_from_host w.host) recents
          else recents

      new_pane_id :
          (if str_eq (option "id" w.options) ""
              then none
              else find (holds (option "id" w.options)) s.tabs)
            ≡ none
          → has (all_pane_ids s.tabs) (or_text (option "id" w.options) gen_pane) ≡ false
      new_pane_id e = elim (Bool-cases (str_eq (option "id" w.options) "")) [
        | inl b ↦ rw b new.pane
        | inr b ↦ rw b (find-holds-absent (option "id" w.options) s.tabs (rw b at e))
      ]

      activated_lem :
          (t : TabData)
          → (if str_eq (option "id" w.options) ""
              then none
              else find (holds (option "id" w.options)) s.tabs)
            ≡ some t
          → IsOrderly (trigger_focus (activate_pane (option "id" w.options) t.id s))
      activated_lem t e = elim (Bool-cases (str_eq (option "id" w.options) "")) [
        | inl b ↦ let k = rw b at e in cc
        | inr b ↦
            trigger_focus-IsOrderly _
              (activate_pane-IsOrderly (option "id" w.options) s t o (rw b at e))
      ]
