-- ===== src/LogTailer/Lines/LastLines.antt =====
-- src/logs/LogTailer.cpp, `Tail`: the ring ends up with the last lines of the text, in order.
use redscope.Base.{
  ℕ, zero, suc, ◌+◌, ◌-◌, ◌%◌, ◌≤◌, ◌<◌, min, ◌≡◌, refl, sym, ap, subst, ◌∙◌, inl, inr, true, false,
  some, List, [], ◌∷◌, ◌++◌, append-nil, append_assoc, arith, ltb, ◌==◌, ltb→lt, not-ltb→le, tests,
  Bool-cases, Bytes, length, get_elem?, set, take, drop, length-append, length-set,
  get_elem?-set_self, length-take, length-drop, take_all, get_elem?-some,
}
use native.Mathlib.Nat.{mod-add-mod}
use redscope.LogTailer.Lines.{
  strip_cr, lines_from, split_lines, Ring, new_ring, push_line, push_lines, read_ring, unroll, tail,
  last_of, is_empty,
}

module _ {ℓ} {A : Type ℓ} where
  drop_get :
      (xs : List A) (h : ℕ) (x : A) → get_elem? xs h ≡ some x → drop h xs ≡ x ∷ drop (suc h) xs
  drop_get [] h x e = cc
  drop_get (y ∷ xs) zero x e = let same : y ≡ x = cc in ap (λ z. z ∷ xs) same
  drop_get (y ∷ xs) (suc h) x e = drop_get xs h x e

  take_get :
      (xs : List A) (h : ℕ) (x : A)
      → get_elem? xs h ≡ some x
      → take (suc h) xs ≡ take h xs ++ (x ∷ [])
  take_get [] h x e = cc
  take_get (y ∷ xs) zero x e = let same : y ≡ x = cc in ap (λ z. z ∷ []) same
  take_get (y ∷ xs) (suc h) x e = ap (◌∷◌ y) (take_get xs h x e)

  drop-set : (xs : List A) (h : ℕ) (v : A) → drop (suc h) (set xs h v) ≡ drop (suc h) xs
  drop-set [] h v = refl
  drop-set (y ∷ xs) zero v = refl
  drop-set (y ∷ xs) (suc h) v = drop-set xs h v

  take-set : (xs : List A) (h : ℕ) (v : A) → take h (set xs h v) ≡ take h xs
  take-set [] zero v = refl
  take-set [] (suc h) v = refl
  take-set (y ∷ xs) zero v = refl
  take-set (y ∷ xs) (suc h) v = ap (◌∷◌ y) (take-set xs h v)

  pub drop_all : (xs : List A) (n : ℕ) → length xs ≤ n → drop n xs ≡ []
  drop_all [] zero l = refl
  drop_all [] (suc n) l = refl
  drop_all (x ∷ xs) zero l = absurd (omega arith)
  drop_all (x ∷ xs) (suc n) l = drop_all xs n (omega arith)

  drop_front : (xs ys : List A) (n : ℕ) → n ≤ length xs → drop n (xs ++ ys) ≡ drop n xs ++ ys
  drop_front xs ys zero l = refl
  drop_front [] ys (suc n) l = absurd (omega arith)
  drop_front (x ∷ xs) ys (suc n) l = drop_front xs ys n (omega arith)

  take_front : (xs ys : List A) (n : ℕ) → n ≤ length xs → take n (xs ++ ys) ≡ take n xs
  take_front xs ys zero l = refl
  take_front [] ys (suc n) l = absurd (omega arith)
  take_front (x ∷ xs) ys (suc n) l = ap (◌∷◌ x) (take_front xs ys n (omega arith))

  -- A list read from place `h` on and around.
  abbrev around : List A → ℕ → List A
  around xs h = drop h xs ++ take h xs

  -- What lies between the place behind `h` and `h`.
  abbrev between : List A → ℕ → List A
  between xs h = drop (suc h) xs ++ take h xs

  around_front :
      (xs : List A) (h : ℕ) (x : A) → get_elem? xs h ≡ some x → around xs h ≡ x ∷ between xs h
  around_front xs h x e = ap (λ l. l ++ take h xs) (drop_get xs h x e)

  around_back :
      (xs : List A) (m h : ℕ) (x : A)
      → length xs ≡ m
      → h < m
      → get_elem? xs h ≡ some x
      → around xs ((h + 1) % m) ≡ between xs h ++ (x ∷ [])
  around_back xs m h x l b e = elim (Bool-cases (ltb (h + 1) m)) [
    | inl lt ↦
        let at : (h + 1) % m ≡ suc h = grind (arith, ltb→lt _ _ lt) in
        ap (around xs) at
        ∙ ap (λ l. drop (suc h) xs ++ l) (take_get xs h x e)
        ∙ sym (append_assoc (drop (suc h) xs) (take h xs) (x ∷ []))
    | inr ge ↦
        let last : suc h ≡ m = omega (tests, b, ge) in
        let at : (h + 1) % m ≡ 0 = grind (arith, last) in
        ap (around xs) at
        ∙ append-nil xs
        ∙ sym (take_all (suc h) xs (omega arith))
        ∙ take_get xs h x e
        ∙ ap (λ l. (l ++ take h xs) ++ (x ∷ [])) (sym (drop_all xs (suc h) (omega arith)))
  ]

-- The ring holds the last `m` of the lines that were pushed, read from its head on.
record Inv (m : ℕ) (xs : List Bytes) (r : Ring) : Type 0 where
  pub size : length r.slots ≡ min (length xs) m
  pub held : around r.slots r.head ≡ last_of m xs
  pub head_lt : r.head < m
  pub fresh : r.wrapped ≡ false → r.head ≡ 0
  pub partial : length xs < m → r.wrapped ≡ false

length-snoc : (xs : List Bytes) (x : Bytes) → length (xs ++ (x ∷ [])) ≡ length xs + 1
length-snoc xs x = omega (arith, length-append xs (x ∷ []))

-- The last `m` of one more line, where there are `m` before.
last_of-snoc :
    (m : ℕ) (xs : List Bytes) (x : Bytes) (y : Bytes) (ys : List Bytes)
    → m ≤ length xs
    → 0 < m
    → last_of m xs ≡ y ∷ ys
    → last_of m (xs ++ (x ∷ [])) ≡ ys ++ (x ∷ [])
last_of-snoc m xs x y ys l p e =
    let count : length (xs ++ (x ∷ [])) - m ≡ suc (length xs - m) =
      omega (arith, length-snoc xs x) in
    ap (λ n. drop n (xs ++ (x ∷ []))) count
    ∙ drop_front xs (x ∷ []) (suc (length xs - m)) (omega arith)
    ∙ ap (λ l. l ++ (x ∷ [])) (drop_suc xs (length xs - m) y ys e)
  where
    drop_suc :
        (xs : List Bytes) (n : ℕ) (y : Bytes) (ys : List Bytes)
        → drop n xs ≡ y ∷ ys
        → drop (suc n) xs ≡ ys
    drop_suc [] zero y ys e = cc
    drop_suc [] (suc n) y ys e = cc
    drop_suc (z ∷ xs) zero y ys e = cc
    drop_suc (z ∷ xs) (suc n) y ys e = drop_suc xs n y ys e

pub last_of_all : (m : ℕ) (xs : List Bytes) → length xs ≤ m → last_of m xs ≡ xs
last_of_all m xs l = let none_ : length xs - m ≡ 0 = omega arith in ap (λ n. drop n xs) none_

push_line-Inv :
    (m : ℕ) (xs : List Bytes) (line : Bytes) (r : Ring)
    → Inv m xs r
    → Inv m (xs ++ (line ∷ [])) (push_line m line r)
unfolding push_line
push_line-Inv m xs line r i = elim (Bool-cases (ltb (length r.slots) m)) [
  | inl room ↦ rw room (fill room)
  | inr full ↦ rw full (turn full)
]
  where
    fill :
        ltb (length r.slots) m ≡ true
        → Inv m (xs ++ (line ∷ [])) (record r { slots = r.slots ++ (line ∷ []) })
    fill room =
        let few : length xs < m = omega (tests, room, i.size) in
        let flat : r.head ≡ 0 = i.fresh (i.partial few) in
        let same : r.slots ≡ xs =
          sym (append-nil r.slots)
          ∙ ap (around r.slots) (sym flat)
          ∙ i.held
          ∙ last_of_all m xs (omega arith) in
        record {
          size = omega (arith, length-snoc xs line, length-snoc r.slots line, i.size, few);
          held =
              ap (around (r.slots ++ (line ∷ []))) flat
              ∙ append-nil (r.slots ++ (line ∷ []))
              ∙ ap (λ l. l ++ (line ∷ [])) same
              ∙ sym (last_of_all m (xs ++ (line ∷ [])) (omega (arith, length-snoc xs line, few)));
          head_lt = i.head_lt;
          fresh = i.fresh;
          partial = λ l. i.partial few;
        }

    turn :
        ltb (length r.slots) m ≡ false
        → Inv m
            (xs ++ (line ∷ []))
            (record { slots = set r.slots r.head line; head = (r.head + 1) % m; wrapped = true })
    turn full =
        let many : length r.slots ≡ m = omega (tests, full, i.size) in
        let enough : m ≤ length xs = omega (arith, many, i.size) in
        let (x, at) = get_elem?-some r.slots r.head (omega (arith, i.head_lt, many)) in
        let front : last_of m xs ≡ x ∷ between r.slots r.head =
          sym i.held ∙ around_front r.slots r.head x at in
        let count : length (set r.slots r.head line) ≡ m = length-set r.slots r.head line ∙ many in
        record {
          size = omega (arith, count, length-snoc xs line, enough);
          held =
              around_back (set r.slots r.head line) m r.head line count i.head_lt
                (get_elem?-set_self r.slots r.head line (omega (arith, i.head_lt, many)))
              ∙ ap (λ l. (l ++ take r.head (set r.slots r.head line)) ++ (line ∷ []))
                  (drop-set r.slots r.head line)
              ∙ ap (λ l. (drop (suc r.head) r.slots ++ l) ++ (line ∷ []))
                  (take-set r.slots r.head line)
              ∙ sym (
                  last_of-snoc m xs line x (between r.slots r.head) enough
                    (omega (arith, i.head_lt)) front);
          head_lt = grind (arith, i.head_lt);
          fresh = λ e. absurd (ground (arith, e));
          partial = λ l. absurd (omega (arith, l, length-snoc xs line, enough));
        }

push_lines-Inv :
    (m : ℕ) (xs : List Bytes) (line text : Bytes) (r : Ring)
    → Inv m xs r
    → Inv m (xs ++ lines_from line text) (push_lines m line text r)
unfolding push_lines lines_from
push_lines-Inv m xs line [] r i = elim (Bool-cases (is_empty line)) [
  | inl e ↦ rw e (subst (λ l. Inv m l r) (sym (append-nil xs)) i)
  | inr e ↦ rw e (push_line-Inv m xs (strip_cr line) r i)
]
push_lines-Inv m xs line (c ∷ text) r i = elim (Bool-cases (c == 10)) [
  | inl e ↦ rw e (
      subst (λ l. Inv m l (push_lines m [] text (push_line m (strip_cr line) r)))
        (append_assoc xs (strip_cr line ∷ []) (lines_from [] text))
        (push_lines-Inv m (xs ++ (strip_cr line ∷ [])) [] text _
          (push_line-Inv m xs (strip_cr line) r i)))
  | inr e ↦ rw e (push_lines-Inv m xs (line ++ (c ∷ [])) text r i)
]

-- Reading a full ring from a place on gives what stands around that place.
read_ring-around :
    (n k m : ℕ) (slots : List Bytes)
    → length slots ≡ m
    → 0 < m
    → n ≤ m
    → read_ring n k m slots ≡ some (take n (around slots (k % m)))
unfolding read_ring
read_ring-around zero k m slots l p b = refl
read_ring-around (suc n) k m slots l p b =
    let lt : k % m < m = grind (arith, p) in
    let (x, at) = get_elem?-some slots (k % m) (omega (arith, lt, l)) in
    let next : (k + 1) % m ≡ (k % m + 1) % m = sym (mod-add-mod k m 1) in
    let rest : read_ring n (k + 1) m slots ≡ some (take n (between slots (k % m))) =
      read_ring-around n (k + 1) m slots l p (omega arith)
      ∙ ap (λ h. some (take n (around slots h))) next
      ∙ ap (λ v. some (take n v)) (around_back slots m (k % m) x l lt at)
      ∙ ap some (
          take_front (between slots (k % m)) (x ∷ []) n (
            omega (
              arith,
              length-append (drop (suc (k % m)) slots) (take (k % m) slots),
              length-drop (suc (k % m)) slots,
              length-take (k % m) slots,
              lt,
              l,
              b,
            ))) in
    rw (at, rest) (ap (λ v. some (take (suc n) v)) (sym (around_front slots (k % m) x at)))

unroll-Inv : (m : ℕ) (xs : List Bytes) (r : Ring) → Inv m xs r → unroll m r ≡ some (last_of m xs)
unfolding unroll
unroll-Inv m xs r i = elim (Bool-cases r.wrapped) [
  | inr flat ↦
      let start : r.head ≡ 0 = i.fresh flat in
      simp flat (ap some (sym (append-nil r.slots) ∙ ap (around r.slots) (sym start) ∙ i.held))
  | inl wrapped ↦
      let many : m ≤ length xs = elim (Bool-cases (ltb (length xs) m)) [
        | inl few ↦ absurd (ground (arith, wrapped, i.partial (ltb→lt _ _ few)))
        | inr enough ↦ not-ltb→le _ _ enough
      ] in
      let full : length r.slots ≡ m = omega (arith, i.size, many) in
      let small : r.head % m ≡ r.head = grind (arith, i.head_lt) in
      let whole : length (around r.slots r.head) ≤ m = omega (
        arith,
        length-append (drop r.head r.slots) (take r.head r.slots),
        length-drop r.head r.slots,
        length-take r.head r.slots,
        i.head_lt,
        full,
      ) in
      simp wrapped (
        read_ring-around m r.head m r.slots full (omega (arith, i.head_lt)) (omega arith)
        ∙ ap (λ h. some (take m (around r.slots h))) small
        ∙ ap some (take_all m (around r.slots r.head) whole)
        ∙ ap some i.held)
]

-- `Tail` reads no slot of its ring out of range and gives the last `max_lines` lines of the text, in
-- order, as `SplitLines` splits it: all of them, where there are no more.
pub tail-last_of :
    (text : Bytes) (max_lines : ℕ)
    → 0 < max_lines
    → tail (some text) max_lines ≡ some (last_of max_lines (split_lines text))
unfolding tail split_lines
tail-last_of text m p =
    let some_lines : (m == 0) ≡ false = ground arith in
    rw some_lines (unroll-Inv m (lines_from [] text) _ (push_lines-Inv m [] [] text new_ring start))
  where
    start : Inv m [] new_ring
    start = record {
      size = omega arith;
      held = sym (last_of_all m [] (omega arith));
      head_lt = p;
      fresh = λ e. refl;
      partial = λ l. refl;
    }
