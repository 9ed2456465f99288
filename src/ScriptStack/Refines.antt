-- ===== src/ScriptStack/Refines.antt =====
-- src/hooks/ScriptStack.cpp: the bounded array stands for the unbounded stack of calls.
use redscope.Base.{
  ℕ, zero, suc, ◌+◌, ◌-◌, ◌%◌, ◌^◌, ◌≤◌, ◌<◌, min, ◌≡◌, refl, sym, ap, ◌∙◌, inl, inr, List, [], ◌∷◌,
  ◌++◌, arith, ltb, leb, tests, Bool-cases, length, set, take, length-append, length-set, take_all,
}
use redscope.ScriptStack.{Frame, ThreadStack, max_depth, new_stack, push, pop, visible}

-- A scripted call is entered or left: `Detour_ExecuteScripted` pushes before it and pops behind it.
pub data Event : Type 0 where
  enters : Frame → Event
  leaves : Event

abbrev pub drop_last {ℓ} : {A : Type ℓ} → List A → List A
drop_last [] = []
drop_last (x ∷ []) = []
drop_last (x ∷ y ∷ xs) = x ∷ drop_last (y ∷ xs)

-- The calls that are active, outermost first, with no bound.
abbrev pub calls : List Frame → List Event → List Frame
calls xs [] = xs
calls xs (enters f ∷ es) = calls (xs ++ f ∷ []) es
calls xs (leaves ∷ es) = calls (drop_last xs) es

abbrev pub step : ThreadStack → Event → ThreadStack
step s (enters f) = push f s
step s leaves = pop s

unfoldable pub run : ThreadStack → List Event → ThreadStack
run s [] = s
run s (e ∷ es) = run (step s e) es

-- The stack `s` stands for the calls `xs`: it holds the outermost of them, and counts the others.
pub record Rep (s : ThreadStack) (xs : List Frame) : Type 0 where
  pub room : length s.frames ≡ max_depth
  pub depth_is : s.depth ≡ min max_depth (length xs)
  pub overflow_is : s.overflow ≡ length xs - max_depth
  pub frames_are : visible s ≡ take s.depth xs
  pub seen : s.depth ≤ s.max_depth_seen
  pub seen_fits : s.max_depth_seen ≤ max_depth

module _ {ℓ} {A : Type ℓ} where
  take-set :
      (n : ℕ) (xs : List A) (x : A)
      → n < length xs
      → take (suc n) (set xs n x) ≡ take n xs ++ x ∷ []
  take-set n [] x h = elim h [ ]
  take-set zero (y ∷ ys) x h = refl
  take-set (suc n) (y ∷ ys) x h = ap (◌∷◌ y) (take-set n ys x (omega arith))

  take-append : (n : ℕ) (xs ys : List A) → n ≤ length xs → take n (xs ++ ys) ≡ take n xs
  take-append zero xs ys h = refl
  take-append (suc n) [] ys h = absurd (omega arith)
  take-append (suc n) (x ∷ xs) ys h = ap (◌∷◌ x) (take-append n xs ys (omega arith))

  take_shorter : (m n : ℕ) (xs ys : List A) → m ≤ n → take n xs ≡ take n ys → take m xs ≡ take m ys
  take_shorter zero n xs ys h e = refl
  take_shorter (suc m) zero xs ys h e = absurd (omega arith)
  take_shorter (suc m) (suc n) [] [] h e = refl
  take_shorter (suc m) (suc n) [] (y ∷ ys) h e = cc
  take_shorter (suc m) (suc n) (x ∷ xs) [] h e = cc
  take_shorter (suc m) (suc n) (x ∷ xs) (y ∷ ys) h e =
      let r = take_shorter m n xs ys (omega arith) (cc) in cc

  length-drop_last : (xs : List A) → length (drop_last xs) ≡ length xs - 1
  length-drop_last [] = refl
  length-drop_last (x ∷ []) = omega arith
  length-drop_last (x ∷ y ∷ xs) = omega (arith, length-drop_last (y ∷ xs))

  take-drop_last : (n : ℕ) (xs : List A) → n ≤ length xs - 1 → take n (drop_last xs) ≡ take n xs
  take-drop_last zero xs h = refl
  take-drop_last (suc n) [] h = refl
  take-drop_last (suc n) (x ∷ []) h = absurd (omega arith)
  take-drop_last (suc n) (x ∷ y ∷ xs) h = ap (◌∷◌ x) (take-drop_last n (y ∷ xs) (omega arith))

frames-push :
    (f : Frame) (s : ThreadStack) (xs : List Frame)
    → Rep s xs
    → length xs < max_depth
    → take (suc s.depth) (set s.frames s.depth f) ≡ take (suc s.depth) (xs ++ f ∷ [])
frames-push f s xs r h =
    let d : s.depth ≡ length xs = omega (arith, r.depth_is) in
    take-set s.depth s.frames f (omega (arith, r.room))
    ∙ ap (λ v. v ++ f ∷ []) (r.frames_are ∙ take_all s.depth xs (omega arith))
    ∙ sym (take_all (suc s.depth) (xs ++ f ∷ []) (omega (arith, length-append xs (f ∷ []))))

push-Rep :
    (f : Frame) (s : ThreadStack) (xs : List Frame)
    → length xs + 1 < 2 ^ 32
    → Rep s xs
    → Rep (push f s) (xs ++ f ∷ [])
unfolding push
push-Rep f s xs b r = elim (Bool-cases (ltb s.depth max_depth)) [
  | inl room ↦
      let shorter : length xs < max_depth = omega (tests, r.depth_is, room) in
      let l = length-append xs (f ∷ []) in
      let d : (s.depth + 1) % 2 ^ 32 ≡ suc s.depth = omega (arith, r.depth_is) in
      rw room (record {
        room = length-set s.frames s.depth f ∙ r.room;
        depth_is = omega (arith, r.depth_is, l);
        overflow_is = omega (arith, r.overflow_is, l);
        frames_are = rw d (frames-push f s xs r shorter);
        seen = ground (arith, r.seen);
        seen_fits = ground (arith, r.seen_fits, d, r.depth_is);
      })
  | inr full ↦
      let longer : max_depth ≤ length xs = omega (tests, r.depth_is, full) in
      let l = length-append xs (f ∷ []) in
      rw full (record {
        room = r.room;
        depth_is = omega (arith, r.depth_is, l);
        overflow_is = omega (arith, r.overflow_is, l);
        frames_are =
            r.frames_are ∙ sym (take-append s.depth xs (f ∷ []) (omega (arith, r.depth_is)));
        seen = r.seen;
        seen_fits = r.seen_fits;
      })
]

pop-Rep : (s : ThreadStack) (xs : List Frame) → Rep s xs → Rep (pop s) (drop_last xs)
unfolding pop
pop-Rep s xs r = elim (Bool-cases (ltb 0 s.overflow)) [
  | inl over ↦
      let l = length-drop_last xs in
      let long : max_depth < length xs = omega (tests, r.overflow_is, over) in
      rw over (record {
        room = r.room;
        depth_is = omega (arith, r.depth_is, l);
        overflow_is = omega (arith, r.overflow_is, l);
        frames_are = r.frames_are ∙ sym (take-drop_last s.depth xs (omega (arith, r.depth_is)));
        seen = r.seen;
        seen_fits = r.seen_fits;
      })
  | inr within ↦
      let l = length-drop_last xs in
      let short : length xs ≤ max_depth = omega (tests, r.overflow_is, within) in
      let cut = take_shorter (s.depth - 1) s.depth s.frames xs (omega arith) r.frames_are in
      let cut' = take-drop_last (s.depth - 1) xs (omega (arith, r.depth_is)) in
      rw within (elim (Bool-cases (ltb 0 s.depth)) [
        | inl some_call ↦ rw some_call (record {
          room = r.room;
          depth_is = omega (arith, r.depth_is, l);
          overflow_is = omega (arith, r.overflow_is, l);
          frames_are = cut ∙ sym cut';
          seen = omega (arith, r.seen);
          seen_fits = r.seen_fits;
        })
        | inr idle ↦
            let z : s.depth ≡ 0 = omega (tests, idle) in
            rw idle (record {
              room = r.room;
              depth_is = omega (arith, r.depth_is, l);
              overflow_is = omega (arith, r.overflow_is, l);
              frames_are = rw z refl;
              seen = r.seen;
              seen_fits = r.seen_fits;
            })
      ])
]

run-Rep :
    (es : List Event) (s : ThreadStack) (xs : List Frame)
    → length xs + length es < 2 ^ 32
    → Rep s xs
    → Rep (run s es) (calls xs es)
unfolding run
run-Rep [] s xs b r = r
run-Rep (enters f ∷ es) s xs b r =
    run-Rep es (push f s) (xs ++ f ∷ []) (omega (arith, length-append xs (f ∷ [])))
      (push-Rep f s xs (omega arith) r)
run-Rep (leaves ∷ es) s xs b r =
    run-Rep es (pop s) (drop_last xs) (omega (arith, length-drop_last xs)) (pop-Rep s xs r)

take_bounded {ℓ} :
    {A : Type ℓ} (n m : ℕ) (xs : List A) → m ≡ min n (length xs) → take m xs ≡ take n xs
take_bounded n m xs e = elim (Bool-cases (leb n (length xs))) [
  | inl long ↦ ap (λ k. take k xs) (omega (tests, long))
  | inr short ↦ take_all m xs (omega (tests, short)) ∙ sym (take_all n xs (omega (tests, short)))
]

new_stack-Rep : Rep new_stack []
new_stack-Rep = record {
  room = refl;
  depth_is = omega arith;
  overflow_is = omega arith;
  frames_are = refl;
  seen = omega arith;
  seen_fits = omega arith;
}

-- After any history of fewer than 2^32 calls and returns the shadow stack shows exactly the
-- outermost `max_depth` of the calls that are active, in order, and counts all of them.
pub run-calls :
    (es : List Event)
    → length es < 2 ^ 32
    → let s = run new_stack es in
      let active = calls [] es in
      (visible s ≡ take max_depth active)
      × (s.depth + s.overflow ≡ length active)
      × (s.max_depth_seen ≤ max_depth)
run-calls es b =
    let r = run-Rep es new_stack [] (omega arith) new_stack-Rep in
    (
      r.frames_are ∙ take_bounded max_depth _ (calls [] es) r.depth_is,
      omega (arith, r.depth_is, r.overflow_is),
      r.seen_fits,
    )
