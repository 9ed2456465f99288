-- ===== src/Conflicts/Bounded.antt =====
-- A list with a capacity and a counter of 32 bits for what no longer fits, as both loops of
-- `EvaluateConflicts` in src/snapshot/CuratedConflicts.cpp keep one.
use redscope.Base.{
  ℕ, zero, suc, ◌+◌, ◌-◌, ◌%◌, ◌^◌, ◌≤◌, ◌<◌, ◌≡◌, refl, sym, ap, subst, ◌∙◌, inl, inr, true, false,
  List, [], ◌∷◌, ◌++◌, append-nil, append_assoc, arith, leb, if◌then◌else◌, tests, Bool-cases,
  length, take, length-append, take_all,
}

abbrev pub push_bounded {ℓ} : {A : Type ℓ} → ℕ → A → List A × ℕ → List A × ℕ
push_bounded room x st =
    if leb room (length st.0) then (st.0, (st.1 + 1) % 2 ^ 32) else (st.0 ++ (x ∷ []), st.1)

unfoldable pub push_all {ℓ} : {A : Type ℓ} → ℕ → List A → List A × ℕ → List A × ℕ
push_all room [] st = st
push_all room (x ∷ xs) st = push_all room xs (push_bounded room x st)

-- The first `room` of a list, and a counter that has grown by the number of the others.
abbrev pub Fills {ℓ} : {A : Type ℓ} → ℕ → List A → ℕ → List A × ℕ → Type ℓ
Fills room xs t st = (st.0 ≡ take room xs) × (st.1 ≡ (t + (length xs - room)) % 2 ^ 32)

module _ {ℓ} {A : Type ℓ} where
  take-full : (n : ℕ) (a ys : List A) → length a ≡ n → take n (a ++ ys) ≡ a
  take-full zero [] ys h = refl
  take-full zero (x ∷ a) ys h = absurd (omega arith)
  take-full (suc n) [] ys h = absurd (omega arith)
  take-full (suc n) (x ∷ a) ys h = ap (◌∷◌ x) (take-full n a ys (omega arith))

  push_full :
      (room : ℕ) (x : A) (a : List A) (t : ℕ)
      → leb room (length a) ≡ true
      → push_bounded room x (a, t) ≡ (a, (t + 1) % 2 ^ 32)
  push_full room x a t e = rw e refl

  push_more :
      (room : ℕ) (x : A) (a : List A) (t : ℕ)
      → leb room (length a) ≡ false
      → push_bounded room x (a, t) ≡ (a ++ (x ∷ []), t)
  push_more room x a t e = rw e refl

  pub push_all_lem :
      (room : ℕ) (xs a : List A) (t : ℕ)
      → length a ≤ room
      → t < 2 ^ 32
      → Fills room (a ++ xs) t (push_all room xs (a, t))
  unfolding push_all
  push_all_lem room [] a t h k =
      let same = append-nil a in
      (
        sym (take_all room (a ++ []) (omega (arith, h, ap length same)) ∙ same),
        omega (arith, h, k, ap length same),
      )
  push_all_lem room (x ∷ xs) a t h k = elim (Bool-cases (leb room (length a))) [
    | inl e ↦
        let rest = push_all_lem room xs a ((t + 1) % 2 ^ 32) h (omega arith) in
        let full : length a ≡ room = omega (tests, e, h) in
        subst (λ st. Fills room (a ++ (x ∷ xs)) t (push_all room xs st))
          (sym (push_full room x a t e))
          (
            rest.0 ∙ take-full room a xs full ∙ sym (take-full room a (x ∷ xs) full),
            omega (arith, rest.1, length-append a xs, length-append a (x ∷ xs), full),
          )
    | inr e ↦
        let more = push_all_lem room xs (a ++ (x ∷ [])) t in
        let rest = more (omega (tests, e, length-append a (x ∷ []))) k in
        let same = append_assoc a (x ∷ []) xs in
        subst (λ st. Fills room (a ++ (x ∷ xs)) t (push_all room xs st))
          (sym (push_more room x a t e))
          (rest.0 ∙ ap (take room) same, omega (arith, rest.1, ap length same))
  ]
