-- ===== src/Tabs/Unread.antt =====
-- `addUnreadTabId` and `deleteUnreadTabId` of frontend/src/store.ts.
use cozyssh.Prelude.{
  ◌≡◌, refl, ◌∙◌, List, [], ◌∷◌, ◌++◌, Bool, true, not, ◌&&◌, ◌||◌, String, str_eq, str_eq_iff,
  str_eq_refl, if_elim, ap, inl, inr, Bool-cases, filter, arith,
}
use cozyssh.Tabs.{Store, has, add_unread_tab_id, delete_unread_tab_id}

has-append_one :
    (ids : List String) (id x : String) → has (ids ++ id ∷ []) x ≡ (has ids x || str_eq x id)
has-append_one [] id x = ground arith
has-append_one (i ∷ ids) id x = ground (arith, has-append_one ids id x)

has-remove :
    (ids : List String) (id x : String)
    → has (filter (λ i. not (str_eq i id)) ids) x ≡ (has ids x && not (str_eq x id))
has-remove [] id x = refl
has-remove (i ∷ ids) id x =
    ground (arith, has-remove ids id x, str_eq_iff x i, str_eq_iff i id, str_eq_iff x id)

has_already :
    (ids : List String) (id other : String)
    → has ids id ≡ true
    → has ids other ≡ (has ids other || str_eq other id)
has_already ids id other there = elim (Bool-cases (str_eq other id)) [
  | inl e ↦
      let found : has ids other ≡ true = ap (has ids) ((str_eq_iff other id).0 e) ∙ there in
      rw found refl
  | inr n ↦ ground arith
]

or_same : (b : Bool) (id : String) → (b || str_eq id id) ≡ true
or_same b id = let e = str_eq_refl id in ground arith

module _ {I : Type 0} where
  unchanged :
      (id : String) (s : Store I) → has s.unread_tab_ids id ≡ true → add_unread_tab_id id s ≡ s
  unfolding add_unread_tab_id
  unchanged id s there = simp there refl

  has-add :
      (id other : String) (s : Store I)
      → has (add_unread_tab_id id s).unread_tab_ids other
        ≡ (has s.unread_tab_ids other || str_eq other id)
  unfolding add_unread_tab_id
  has-add id other s =
      if_elim {A = Store I}
        (λ n. has n.unread_tab_ids other ≡ (has s.unread_tab_ids other || str_eq other id))
        (has s.unread_tab_ids id) (λ there. has_already s.unread_tab_ids id other there)
        (λ _. has-append_one s.unread_tab_ids id other)

  -- Adding an unread mark adds that one and keeps the others, and is the same when repeated;
  -- deleting it removes that one and keeps the others.
  pub unread_lem :
      (id other : String) (s : Store I)
      → (has (add_unread_tab_id id s).unread_tab_ids other
          ≡ (has s.unread_tab_ids other || str_eq other id))
        × (add_unread_tab_id id (add_unread_tab_id id s) ≡ add_unread_tab_id id s)
        × (has (delete_unread_tab_id id s).unread_tab_ids other
            ≡ (has s.unread_tab_ids other && not (str_eq other id)))
  unfolding add_unread_tab_id delete_unread_tab_id
  unread_lem id other s = (
    has-add id other s,
    unchanged id (add_unread_tab_id id s) (has-add id id s ∙ or_same (has s.unread_tab_ids id) id),
    has-remove s.unread_tab_ids id other,
  )
