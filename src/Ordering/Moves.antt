-- ===== src/Ordering/Moves.antt =====
-- `reorderButtons` and `moveGroup` of frontend/src/store.ts: where things go, and that none is lost.
use mathlib.Core.List.{perm_append_comm, append_assoc, append-nil, Perm, perm_middle}
use mathlib.Core.List.Perm
use cozyssh.Prelude.{
  ◌∙◌, length, find_index, Option-cases, str_eq_iff, ℕ, ◌+◌, ◌≡◌, refl, sym, ap, ◌∙◌, subst, inl,
  inr, ◌⊎◌, List, [], ◌∷◌, ◌++◌, map, none, some, Bool, true, false, not, String, str_eq,
  str_eq_iff, length, find_index, get_elem?, filter, Option-cases, if◌then◌else◌,
}
use cozyssh.Ordering.{
  insert_at, Button, insert_at, remove_at, insert_index, sort, button_index, renumber, moved,
  reorder_buttons, in_group, is_within, move_group, button_le,
}
use cozyssh.Ordering.Splice.{
  insert_at-append, find_index-split, insert_at-append, insert_at-after, remove_at-append,
  get_elem?-append, find_index-split, find_index-without, filter-perm, sort-perm,
}

-- One element before the other, or after it.
abbrev pub beside {ℓ} : {A : Type ℓ} → Bool → A → A → List A → List A
beside after b t r = if after then t ∷ b ∷ r else b ∷ t ∷ r

pub insert_beside {ℓ} :
    {A : Type ℓ} (after : Bool) (l : List A) (b t : A) (r : List A)
    → insert_at (insert_index (some (length l)) after (l ++ (t ∷ r))) (b ∷ []) (l ++ (t ∷ r))
      ≡ l ++ beside after b t r
unfolding insert_index
insert_beside true l b t r = insert_at-after l (b ∷ []) t r
insert_beside false l b t r = insert_at-append l (b ∷ []) (t ∷ r)

pub beside-perm {ℓ} :
    {A : Type ℓ} (after : Bool) (l : List A) (b t : A) (r : List A)
    → Perm (l ++ beside after b t r) (b ∷ (l ++ (t ∷ r)))
beside-perm true l b t r = Perm.trans (Perm.append_left l (Perm.swap b t r)) (perm_middle l (t ∷ r))
beside-perm false l b t r = perm_middle l (t ∷ r)

module _ {P : Type 0} where
  abbrev pub button_ids : List (Button P) → List String
  button_ids = map λ b. b.id

  moved_at :
      (dragged target : String) (after : Bool) (bs : List (Button P)) (i j : ℕ) (b : Button P)
      (l : List (Button P)) (t : Button P) (r : List (Button P))
      → button_index dragged bs ≡ some i
      → button_index target bs ≡ some j
      → get_elem? bs i ≡ some b
      → remove_at i bs ≡ l ++ (t ∷ r)
      → button_index target (l ++ (t ∷ r)) ≡ some (length l)
      → moved dragged target after bs ≡ some (l ++ beside after b t r)
  unfolding moved
  moved_at dragged target after bs i j b l t r e f got rest at =
      rw (e, f, got, rest, at, moved) (ap some (insert_beside after l b t r))

  -- What `moved` gives: the button, the rest around the target, and where it stands then.
  pub moved_lem :
      (dragged target : String) (after : Bool) (bs : List (Button P)) (i j : ℕ)
      → button_index dragged bs ≡ some i
      → button_index target bs ≡ some j
      → str_eq dragged target ≡ false
      → (b : Button P) × (l : List (Button P)) × (t : Button P) × (r : List (Button P)) × (b.id
          ≡ dragged)
        × (t.id ≡ target)
        × Perm bs (b ∷ (l ++ (t ∷ r)))
        × (remove_at i bs ≡ l ++ (t ∷ r))
        × (moved dragged target after bs ≡ some (l ++ beside after b t r))
  moved_lem dragged target after bs i j e f apart =
      let (m, b, n, split, at, hit) = find_index-split (λ b. str_eq b.id dragged) bs i e in
      let same = (str_eq_iff b.id dragged).0 hit in
      let removed =
        ap (remove_at i) split ∙ ap (λ k. remove_at k (m ++ (b ∷ n))) at ∙ remove_at-append m b n in
      let other = subst (λ x. str_eq x target ≡ false) (sym same) apart in
      let (k, g) =
        find_index-without (λ b. str_eq b.id target) m b n j other
          (ap (button_index target) (sym split) ∙ f) in
      let (l, t, r, split', at', hit') = find_index-split (λ b. str_eq b.id target) (m ++ n) k g in
      let got =
        ap (λ xs. get_elem? xs i) split
        ∙ ap (get_elem? (m ++ (b ∷ n))) at
        ∙ get_elem?-append m b n in
      (
        b,
        l,
        t,
        r,
        same,
        (str_eq_iff t.id target).0 hit',
        subst (λ xs. Perm xs (b ∷ (l ++ (t ∷ r)))) (sym split)
            (subst (λ xs. Perm (m ++ (b ∷ n)) (b ∷ xs)) split' (perm_middle m n)),
        removed ∙ split',
        moved_at dragged target after bs i j b l t r e f got (removed ∙ split')
            (ap (button_index target) (sym split') ∙ g ∙ ap some at'),
      )

  renumber-ids : (now i : ℕ) (bs : List (Button P)) → button_ids (renumber now i bs) ≡ button_ids bs
  unfolding renumber
  renumber-ids now i [] = refl
  renumber-ids now i (b ∷ bs) = ap (◌∷◌ b.id) (renumber-ids now (i + 1) bs)

  button_ids-append :
      (bs cs : List (Button P)) → button_ids (bs ++ cs) ≡ button_ids bs ++ button_ids cs
  button_ids-append [] cs = refl
  button_ids-append (b ∷ bs) cs = ap (◌∷◌ b.id) (button_ids-append bs cs)

  ids_perm :
      (le : Button P → Button P → Bool) (now : ℕ) (active : String) (buttons bs : List (Button P))
      → Perm bs (filter (in_group active) buttons)
      → Perm
          (button_ids
            (sort le (filter (λ b. not (in_group active b)) buttons ++ renumber now 0 bs)))
          (button_ids buttons)
  ids_perm le now active buttons bs p =
      let rest = filter (λ b. not (in_group active b)) buttons in
      let e =
        button_ids-append rest (renumber now 0 bs)
        ∙ ap (◌++◌ (button_ids rest)) (renumber-ids now 0 bs)
        ∙ sym (button_ids-append rest bs) in
      Perm.trans (Perm.map (λ b. b.id) (sort-perm le (rest ++ renumber now 0 bs))) (
        subst (λ ids. Perm ids (button_ids buttons)) (sym e)
          (Perm.map (λ b. b.id)
            (Perm.trans (Perm.append_left rest p) (filter-perm (in_group active) buttons))))

  reorder_at :
      (name_le : String → String → Bool) (now : ℕ) (active dragged target : String) (after : Bool)
      (buttons bs : List (Button P))
      → moved dragged target after (filter (in_group active) buttons) ≡ some bs
      → reorder_buttons name_le now active dragged target after buttons
        ≡ some (
          sort
              (button_le name_le)
              (filter (λ b. not (in_group active b)) buttons ++ renumber now 0 bs),
          renumber now 0 bs,
        )
  unfolding reorder_buttons
  reorder_at name_le now active dragged target after buttons bs m = rw (m, reorder_buttons) refl

  -- Where the active group has the button that is dragged and another one that it is dropped on,
  -- the buttons of the group are sent in the order in which the first stands right before or right
  -- after the second and all others stay, with the orders 10, 20, and so on; no button is lost or
  -- doubled.
  pub reorder_buttons_lem :
      (name_le : String → String → Bool) (now : ℕ) (active dragged target : String) (after : Bool)
      (buttons : List (Button P)) (i j : ℕ)
      → button_index dragged (filter (in_group active) buttons) ≡ some i
      → button_index target (filter (in_group active) buttons) ≡ some j
      → str_eq dragged target ≡ false
      → (all : List (Button P)) × (b : Button P) × (l : List (Button P)) × (t : Button P)
        × (r : List (Button P)) × (b.id ≡ dragged)
        × (t.id ≡ target)
        × (remove_at i (filter (in_group active) buttons) ≡ l ++ (t ∷ r))
        × (reorder_buttons name_le now active dragged target after buttons
            ≡ some (all, renumber now 0 (l ++ beside after b t r)))
        × Perm (button_ids all) (button_ids buttons)
  reorder_buttons_lem name_le now active dragged target after buttons i j e f apart =
      let group = filter (in_group active) buttons in
      let others = filter (λ b. not (in_group active b)) buttons in
      let (b, l, t, r, bd, tt', perm, removed, m) =
        moved_lem dragged target after group i j e f apart in
      let sent = renumber now 0 (l ++ beside after b t r) in
      (
        sort (button_le name_le) (others ++ sent),
        b,
        l,
        t,
        r,
        bd,
        tt',
        removed,
        reorder_at name_le now active dragged target after buttons _ m,
        ids_perm (button_le name_le) now active buttons (l ++ beside after b t r)
            (Perm.trans (beside-perm after l b t r) (Perm.symm perm)),
      )

move_group_before :
    (path before_sibling : String) (groups : List String) (i : ℕ) (l : List String) (s : String)
    (r : List String)
    → find_index (λ g. str_eq g before_sibling) (filter (λ g. not (is_within path g)) groups)
      ≡ some i
    → filter (λ g. not (is_within path g)) groups ≡ l ++ (s ∷ r)
    → i ≡ length l
    → move_group path before_sibling groups ≡ l ++ (filter (is_within path) groups ++ (s ∷ r))
unfolding move_group
move_group_before path before_sibling groups i l s r at split k =
    rw (at, move_group)
      (ap (insert_at i (filter (is_within path) groups)) split
        ∙ ap (λ n. insert_at n (filter (is_within path) groups) (l ++ (s ∷ r))) k
        ∙ insert_at-append l (filter (is_within path) groups) (s ∷ r))

move_group_last :
    (path before_sibling : String) (groups : List String)
    → find_index (λ g. str_eq g before_sibling) (filter (λ g. not (is_within path g)) groups) ≡ none
    → move_group path before_sibling groups
      ≡ filter (λ g. not (is_within path g)) groups ++ (filter (is_within path) groups ++ [])
unfolding move_group
move_group_last path before_sibling groups missing =
    rw (missing, move_group)
      (ap (◌++◌ (filter (λ g. not (is_within path g)) groups))
        (sym (append-nil (filter (is_within path) groups))))

move_group_at :
    (path before_sibling : String) (groups l r : List String)
    → filter (λ g. not (is_within path g)) groups ≡ l ++ r
    → move_group path before_sibling groups ≡ l ++ (filter (is_within path) groups ++ r)
    → Perm (move_group path before_sibling groups) groups
move_group_at path before_sibling groups l r e m =
    let dragged = filter (is_within path) groups in
    let p =
      Perm.trans (Perm.append_left l (perm_append_comm dragged r))
        (subst (λ xs. Perm xs ((l ++ r) ++ dragged)) (append_assoc l r dragged) (Perm.refl _)) in
    subst (λ xs. Perm xs groups) (sym m)
      (Perm.trans p
        (subst (λ xs. Perm (xs ++ dragged) groups) e (filter-perm (is_within path) groups)))

-- Moving a group takes it and all groups below it, in their order, right before the sibling, or to
-- the end if there is none such; the others keep their order, and no group is lost or doubled.
pub move_group_lem :
    (path before_sibling : String) (groups : List String)
    → (l : List String) × (r : List String) × (move_group path before_sibling groups
        ≡ l ++ (filter (is_within path) groups ++ r))
      × (filter (λ g. not (is_within path g)) groups ≡ l ++ r)
      × ((r ≡ []) ⊎ ((s : List String) × (r ≡ before_sibling ∷ s)))
      × Perm (move_group path before_sibling groups) groups
unfolding move_group
move_group_lem path before_sibling groups =
    let dragged = filter (is_within path) groups in
    let remaining = filter (λ g. not (is_within path g)) groups in
    elim (Option-cases (find_index (λ g. str_eq g before_sibling) remaining)) [
      | inl missing ↦
          let m = move_group_last path before_sibling groups missing in
          let e = sym (append-nil remaining) in
          (remaining, [], m, e, inl refl, move_group_at path before_sibling groups remaining [] e m)
      | inr (i, at) ↦
          let (l, s, r, split, k, hit) =
            find_index-split (λ g. str_eq g before_sibling) remaining i at in
          let m = move_group_before path before_sibling groups i l s r at split k in
          (
            l,
            s ∷ r,
            m,
            split,
            inr (r, ap (λ g. g ∷ r) ((str_eq_iff s before_sibling).0 hit)),
            move_group_at path before_sibling groups l (s ∷ r) split m,
          )
    ]
