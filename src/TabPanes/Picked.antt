-- ===== src/TabPanes/Picked.antt =====
-- Some of the tabs of a store that is in order, in any order (frontend/src/store.ts): what the tabs
-- keep.
use cozyssh.Prelude.{
  ℕ, zero, suc, ◌≡◌, ◌≢◌, refl, ap, subst, inl, inr, List, [], ◌∷◌, some, false, String, str_eq,
  str_eq_iff, Bool-cases, arith, All, get_elem?,
}
use cozyssh.Tabs.{TabData, Store, has, pane_ids, tab_ids, all_pane_ids}
use cozyssh.Tabs.Close.{IsUnique, IsFocused}
use cozyssh.TabPanes.Ids.{
  Apart, IsDistinct, has-append, IsDistinct-left, IsDistinct-right, IsDistinct-apart,
  IsDistinct-join,
}
use cozyssh.TabPanes.Orderly.{IsOrderly, IsPaned}

-- Of one tab, and of two.
record IsSound (t : TabData) : Type 0 where
  named : str_eq "" t.id ≡ false
  paned : IsPaned t
  distinct : IsDistinct (pane_ids t.panes)

record AreApart (t u : TabData) : Type 0 where
  ids : str_eq t.id u.id ≡ false
  panes : Apart (pane_ids t.panes) (pane_ids u.panes)

record AllSound (ts : List TabData) : Type 0 where
  one : (i : ℕ) (t : TabData) → get_elem? ts i ≡ some t → IsSound t
  two :
      (i j : ℕ) (t u : TabData)
      → i ≢ j
      → get_elem? ts i ≡ some t
      → get_elem? ts j ≡ some u
      → AreApart t u

record IsKept (ts : List TabData) : Type 0 where
  unique : IsUnique ts
  distinct : IsDistinct (all_pane_ids ts)
  named : has (tab_ids ts) "" ≡ false
  paned : All IsPaned ts

AreApart-sym : (t u : TabData) → AreApart t u → AreApart u t
AreApart-sym t u a = record {
  ids = let k = a.ids in ground (arith, str_eq_iff t.id u.id, str_eq_iff u.id t.id);
  panes = λ x h. elim (Bool-cases (has (pane_ids t.panes) x)) [
    | inl e ↦ let k = a.panes x e in cc
    | inr e ↦ e
  ];
}

get-ids :
    (ts : List TabData) (i : ℕ) (t : TabData) (x : String)
    → get_elem? ts i ≡ some t
    → has (tab_ids ts) x ≡ false
    → str_eq x t.id ≡ false
get-ids [] i t x e h = cc
get-ids (u ∷ ts) zero t x e h = ground arith
get-ids (u ∷ ts) (suc i) t x e h = get-ids ts i t x e (ground arith)

get-pane_ids :
    (ts : List TabData) (i : ℕ) (t : TabData) (x : String)
    → get_elem? ts i ≡ some t
    → has (all_pane_ids ts) x ≡ false
    → has (pane_ids t.panes) x ≡ false
get-pane_ids [] i t x e h = cc
get-pane_ids (u ∷ ts) zero t x e h =
    let k = has-append (pane_ids u.panes) (all_pane_ids ts) x in
    let same : u ≡ t = ground arith in
    subst (λ v. has (pane_ids v.panes) x ≡ false) same (ground (arith, k))
get-pane_ids (u ∷ ts) (suc i) t x e h =
    let k = has-append (pane_ids u.panes) (all_pane_ids ts) x in
    get-pane_ids ts i t x e (ground (arith, k))

kept_rest : (t : TabData) (ts : List TabData) → IsKept (t ∷ ts) → IsKept ts
kept_rest t ts k = record {
  unique = k.unique.1;
  distinct = IsDistinct-right (pane_ids t.panes) _ k.distinct;
  named = let h = k.named in ground arith;
  paned = k.paned.1;
}

sound_cons : (t : TabData) (ts : List TabData) → IsKept (t ∷ ts) → AllSound ts → AllSound (t ∷ ts)
sound_cons t ts k rest = record { one = one; two = two }
  where
    first : (j : ℕ) (u : TabData) → get_elem? ts j ≡ some u → AreApart t u
    first j u e = record {
      ids = get-ids ts j u t.id e (k.unique.0);
      panes = λ x h. get-pane_ids ts j u x e (IsDistinct-apart (pane_ids t.panes) _ x k.distinct h);
    }

    here : IsSound t
    here = record {
      named = let h = k.named in ground arith;
      paned = k.paned.0;
      distinct = IsDistinct-left (pane_ids t.panes) _ k.distinct;
    }

    one : (i : ℕ) (u : TabData) → get_elem? (t ∷ ts) i ≡ some u → IsSound u
    one zero u e = subst IsSound (ground arith) here
    one (suc i) u e = rest.one i u e

    two :
        (i j : ℕ) (u v : TabData)
        → i ≢ j
        → get_elem? (t ∷ ts) i ≡ some u
        → get_elem? (t ∷ ts) j ≡ some v
        → AreApart u v
    two zero zero u v n e f = absurd (n refl)
    two zero (suc j) u v n e f = subst (λ w. AreApart w v) (ground arith) (first j v f)
    two (suc i) zero u v n e f =
        subst (λ w. AreApart u w) (ground arith) (AreApart-sym t u (first i u e))
    two (suc i) (suc j) u v n e f = rest.two i j u v (λ h. n (ap suc h)) e f

sound : (ts : List TabData) → IsKept ts → AllSound ts
sound [] k = record { one = λ i t e. cc; two = λ i j t u n e f. cc }
sound (t ∷ ts) k = sound_cons t ts k (sound ts (kept_rest t ts k))

apart_lem :
    (ts : List TabData) (t : TabData)
    → ((i : ℕ) (u : TabData) → get_elem? ts i ≡ some u → AreApart t u)
    → (has (tab_ids ts) t.id ≡ false) × Apart (pane_ids t.panes) (all_pane_ids ts)
apart_lem [] t k = (refl, λ x h. refl)
apart_lem (u ∷ ts) t k =
    let a = k 0 u refl in
    let b = a.ids in
    let (c, d) = apart_lem ts t (λ i v. k (suc i) v) in
    (
      ground arith,
      λ x h.
          let l = has-append (pane_ids u.panes) (all_pane_ids ts) x in
          let m = a.panes x h in let n = d x h in ground (arith, l),
    )

kept : (ts : List TabData) → AllSound ts → IsKept ts
kept [] s = record { unique = tt; distinct = tt; named = refl; paned = tt }
kept (t ∷ ts) s =
    let rest = kept ts record {
      one = λ i. s.one (suc i);
      two = λ i j u v n. s.two (suc i) (suc j) u v (λ h. n (ground arith));
    } in
    let here = s.one 0 t refl in
    let (a, b) = apart_lem ts t (λ i u. s.two 0 (suc i) t u (λ h. ground arith) refl) in
    record {
      unique = (a, rest.unique);
      distinct = IsDistinct-join _ _ here.distinct rest.distinct b;
      named = let k = here.named in let l = rest.named in ground arith;
      paned = (here.paned, rest.paned);
    }

module _ {I : Type 0} where
  -- Each tab of the store `n` is one of the store `s`, no two the same one.
  pub picked-IsOrderly :
      (s n : Store I) (source : ℕ → ℕ)
      → IsOrderly s
      → ((i j : ℕ) → source i ≡ source j → i ≡ j)
      → ((i : ℕ) (t : TabData) → get_elem? n.tabs i ≡ some t → get_elem? s.tabs (source i) ≡ some t)
      → (IsUnique n.tabs → IsFocused n)
      → IsOrderly n
  picked-IsOrderly s n source o inj from f =
      let a =
        sound s.tabs
          record { unique = o.unique; distinct = o.distinct; named = o.named; paned = o.paned } in
      let k = kept n.tabs record {
        one = λ i t e. a.one (source i) t (from i t e);
        two = λ i j t u h e g.
            a.two (source i) (source j) t u (λ q. h (inj i j q)) (from i t e) (from j u g);
      } in
      record {
        unique = k.unique;
        distinct = k.distinct;
        named = k.named;
        paned = k.paned;
        focused = f k.unique;
      }
