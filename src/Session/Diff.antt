-- ===== src/Session/Diff.antt =====
-- src/snapshot/SessionHistory.cpp, `ComputeModDiff`: the merge of two sorted lists finds what a
-- search for each mod in the other list finds.
use redscope.Base.{
  ℕ, zero, suc, ◌+◌, ◌<◌, ◌≡◌, refl, sym, ap, ◌∙◌, ◌≢◌, inl, inr, true, false, List, [], ◌∷◌, arith,
  Bool-cases, length, All,
}
use redscope.Base.Sort.{insert, sort, str_lt-IsOrder}
use redscope.Session.{
  ModSnapshot, ModDiff, by_name, sort_by_name, remove, add, update, remove_rest, add_rest,
  merge_round, merge, compute_mod_diff,
}
use redscope.Stream.{is_empty}
use redscope.Session.Rounds.{
  reference, Ascends, diff_eq, All-above, skip_left, skip_right, take_left, take_right, take_both,
}

remove_rest-reference : (a : List ModSnapshot) → remove_rest a ≡ reference a []
unfolding remove_rest
remove_rest-reference [] = refl
remove_rest-reference (x ∷ a) = elim (Bool-cases (is_empty x.name)) [
  | inl e ↦
      let step : remove_rest (x ∷ a) ≡ remove_rest a = rw e refl in
      step ∙ remove_rest-reference a ∙ diff_eq refl (rw e refl) (rw e refl)
  | inr e ↦
      let step : remove_rest (x ∷ a) ≡ remove x (remove_rest a) = rw e refl in
      step ∙ ap (remove x) (remove_rest-reference a) ∙ diff_eq refl (rw e refl) (rw e refl)
]

add_rest-reference : (b : List ModSnapshot) → add_rest b ≡ reference [] b
unfolding add_rest
add_rest-reference [] = refl
add_rest-reference (y ∷ b) = elim (Bool-cases (is_empty y.name)) [
  | inl e ↦
      let step : add_rest (y ∷ b) ≡ add_rest b = rw e refl in
      step ∙ add_rest-reference b ∙ diff_eq (rw e refl) refl refl
  | inr e ↦
      let step : add_rest (y ∷ b) ≡ add y (add_rest b) = rw e refl in
      step ∙ ap (add y) (add_rest-reference b) ∙ diff_eq (rw e refl) refl refl
]

-- Where a round of the merge goes.
module _ (x y : ModSnapshot) (a b : List ModSnapshot)
    (on : List ModSnapshot → List ModSnapshot → ModDiff) where
  round_left : is_empty x.name ≡ true → merge_round x a y b on ≡ on a (y ∷ b)
  round_left e = rw e refl

  round_right :
      is_empty x.name ≡ false → is_empty y.name ≡ true → merge_round x a y b on ≡ on (x ∷ a) b
  round_right e f = rw (e, f) refl

  round_removes :
      is_empty x.name ≡ false
      → is_empty y.name ≡ false
      → by_name x y ≡ true
      → merge_round x a y b on ≡ remove x (on a (y ∷ b))
  round_removes e f h = rw (e, f, h) refl

  round_adds :
      is_empty x.name ≡ false
      → is_empty y.name ≡ false
      → by_name x y ≡ false
      → by_name y x ≡ true
      → merge_round x a y b on ≡ add y (on (x ∷ a) b)
  round_adds e f h k = rw (e, f, h, k) refl

  round_updates :
      is_empty x.name ≡ false
      → is_empty y.name ≡ false
      → by_name x y ≡ false
      → by_name y x ≡ false
      → merge_round x a y b on ≡ update x y (on a b)
  round_updates e f h k = rw (e, f, h, k) refl

merge-reference :
    (f : ℕ) (a b : List ModSnapshot)
    → length a + length b < f
    → Ascends a
    → Ascends b
    → merge f a b ≡ reference a b
unfolding merge
merge-reference zero a b l s t = absurd (omega arith)
merge-reference (suc f) [] b l s t = add_rest-reference b
merge-reference (suc f) (x ∷ a) [] l s t = remove_rest-reference (x ∷ a)
merge-reference (suc f) (x ∷ a) (y ∷ b) l s t = elim (Bool-cases (is_empty x.name)) [
  | inl e ↦
      round_left x y a b (merge f) e
      ∙ merge-reference f a (y ∷ b) (omega arith) s.1 t
      ∙ sym (skip_left x y a b e)
  | inr e ↦ elim (Bool-cases (is_empty y.name)) [
    | inl g ↦
        round_right x y a b (merge f) e g
        ∙ merge-reference f (x ∷ a) b (omega arith) s t.1
        ∙ sym (skip_right x y a b g)
    | inr g ↦ elim (Bool-cases (by_name x y)) [
      | inl h ↦
          round_removes x y a b (merge f) e g h
          ∙ ap (remove x) (merge-reference f a (y ∷ b) (omega arith) s.1 t)
          ∙ sym (take_left x y a b e h t)
      | inr h ↦ elim (Bool-cases (by_name y x)) [
        | inl k ↦
            round_adds x y a b (merge f) e g h k
            ∙ ap (add y) (merge-reference f (x ∷ a) b (omega arith) s t.1)
            ∙ sym (take_right x y a b g k s)
        | inr k ↦
            round_updates x y a b (merge f) e g h k
            ∙ ap (update x y) (merge-reference f a b (omega arith) s.1 t.1)
            ∙ sym (take_both x y a b e g (str_lt-IsOrder.connex x.name y.name h k) s t)
      ]
    ]
  ]
]

-- No two mods of the list have one name.
abbrev pub HasNames : List ModSnapshot → Type 0
HasNames [] = Unit
HasNames (m ∷ ms) = All (λ o. m.name ≢ o.name) ms × HasNames ms

All-insert :
    (P : ModSnapshot → Type 0) (m : ModSnapshot) (ms : List ModSnapshot)
    → P m
    → All P ms
    → All P (insert by_name m ms)
unfolding insert
All-insert P m [] p h = (p, tt)
All-insert P m (o ∷ ms) p h = elim (Bool-cases (by_name o m)) [
  | inl e ↦ rw e (h.0, All-insert P m ms p h.1)
  | inr e ↦ rw e (p, h)
]

pub All-sort :
    (P : ModSnapshot → Type 0) (ms : List ModSnapshot) → All P ms → All P (sort by_name ms)
unfolding sort
All-sort P [] h = tt
All-sort P (m ∷ ms) h = All-insert P m (sort by_name ms) h.0 (All-sort P ms h.1)

insert-Ascends :
    (m : ModSnapshot) (ms : List ModSnapshot)
    → All (λ o. m.name ≢ o.name) ms
    → Ascends ms
    → Ascends (insert by_name m ms)
unfolding insert
insert-Ascends m [] n s = (tt, tt)
insert-Ascends m (o ∷ ms) n s = elim (Bool-cases (by_name o m)) [
  | inl e ↦ rw e (All-insert _ m ms e s.0, insert-Ascends m ms n.1 s.1)
  | inr e ↦ elim (Bool-cases (by_name m o)) [
    | inl k ↦ rw e (All-above m o ms k s, s)
    | inr k ↦ absurd (n.0 (str_lt-IsOrder.connex m.name o.name k e))
  ]
]

sort-Ascends : (ms : List ModSnapshot) → HasNames ms → Ascends (sort by_name ms)
unfolding sort
sort-Ascends [] h = tt
sort-Ascends (m ∷ ms) h =
    insert-Ascends m (sort by_name ms) (All-sort _ ms h.0) (sort-Ascends ms h.1)

length-insert :
    (m : ModSnapshot) (ms : List ModSnapshot) → length (insert by_name m ms) ≡ length ms + 1
unfolding insert
length-insert m [] = refl
length-insert m (o ∷ ms) = elim (Bool-cases (by_name o m)) [
  | inl e ↦ rw e (omega (arith, length-insert m ms))
  | inr e ↦ rw e (omega arith)
]

length-sort : (ms : List ModSnapshot) → length (sort by_name ms) ≡ length ms
unfolding sort
length-sort [] = refl
length-sort (m ∷ ms) = length-insert m (sort by_name ms) ∙ omega (arith, length-sort ms)

-- For two lists in each of which no name comes twice, the merge reports exactly what searches do on
-- the sorted lists: the mods whose names are new, those whose names are gone, and those whose
-- names stay with another version, without the mods of an empty name. Its fuel is enough.
pub compute_mod_diff-reference :
    (prior current : List ModSnapshot)
    → HasNames prior
    → HasNames current
    → compute_mod_diff prior current ≡ reference (sort_by_name prior) (sort_by_name current)
unfolding compute_mod_diff sort_by_name
compute_mod_diff-reference prior current h k =
    merge-reference _ (sort by_name prior) (sort by_name current)
      (omega (arith, length-sort prior, length-sort current)) (sort-Ascends prior h)
      (sort-Ascends current k)
