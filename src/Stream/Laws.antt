-- ===== src/Stream/Laws.antt =====
-- Laws of lines, separators and prefixes.
use redscope.Base.{
  ℕ, ◌≡◌, refl, ap, subst, inl, inr, Bool, true, false, ◌&&◌, some, List, [], ◌∷◌, ◌++◌, arith,
  ◌==◌, Bool-cases, Option-cases, Bytes, FreeOf, All,
}
use redscope.Stream.{
  put_first, getlines, before_and, cut_at, starts_with, skip_while, strip_end, is_empty, begins,
}

pub getlines-line : (a rest : Bytes) → FreeOf 10 a → getlines (a ++ (10 ∷ rest)) ≡ a ∷ getlines rest
unfolding getlines
getlines-line [] rest h = refl
getlines-line (c ∷ a) rest h = rw h.0 (ap (put_first c) (getlines-line a rest h.1))

pub cut_at-append :
    (sep : ℕ) (a b : Bytes) → FreeOf sep a → cut_at sep (a ++ (sep ∷ b)) ≡ some (a, b)
unfolding cut_at
cut_at-append sep [] b h = let e : (sep == sep) ≡ true = ground arith in rw e refl
cut_at-append sep (c ∷ a) b h = rw h.0 (ap (before_and c) (cut_at-append sep a b h.1))

pub starts_with-append :
    (sep : ℕ) (tag a b : Bytes)
    → FreeOf sep tag
    → starts_with tag (a ++ (sep ∷ b)) ≡ starts_with tag a
unfolding starts_with
starts_with-append sep [] a b h = refl
starts_with-append sep (t ∷ tag) [] b h = rw h.0 refl
starts_with-append sep (t ∷ tag) (c ∷ a) b h =
    ap (λ r. t == c && r) (starts_with-append sep tag a b h.1)

pub strip_end-prefix :
    (test : ℕ → Bool) (p s : Bytes)
    → starts_with p (strip_end test s) ≡ true
    → starts_with p s ≡ true
unfolding starts_with strip_end
strip_end-prefix test [] s h = refl
strip_end-prefix test (q ∷ p) [] h = cc
strip_end-prefix test (q ∷ p) (c ∷ s) h =
    elim (Bool-cases (is_empty (strip_end test s) && test c)) [
      | inl e ↦ absurd (ground (arith, h, e))
      | inr e ↦
          let k : (q == c && starts_with p (strip_end test s)) ≡ true = ground (arith, h, e) in
          ground (arith, k, strip_end-prefix test p s)
    ]

-- What stands before a separator begins the text.
pub cut_at-prefix :
    (sep : ℕ) (p s a b : Bytes)
    → cut_at sep s ≡ some (a, b)
    → starts_with p a ≡ true
    → starts_with p s ≡ true
unfolding starts_with cut_at
cut_at-prefix sep [] s a b e h = refl
cut_at-prefix sep (q ∷ p) [] a b e h = absurd (ground (arith, e))
cut_at-prefix sep (q ∷ p) (c ∷ s) a b e h = elim (Bool-cases (c == sep)) [
  | inl same ↦ absurd (ground (arith, e, h, same))
  | inr other ↦ elim (Option-cases (cut_at sep s)) [
    | inl n ↦ absurd (ground (arith, e, other, n))
    | inr ((a', b'), n) ↦
        let eq : a ≡ c ∷ a' = ground (arith, e, other, n) in
        let k : (q == c && starts_with p a') ≡ true =
          subst (λ x. starts_with (q ∷ p) x ≡ true) eq h in
        ground (arith, k, cut_at-prefix sep p s a' b' n)
  ]
]

pub skip_while-begins : (test : ℕ → Bool) (s : Bytes) → begins test (skip_while test s) ≡ false
unfolding skip_while
skip_while-begins test [] = refl
skip_while-begins test (c ∷ s) = elim (Bool-cases (test c)) [
  | inl e ↦ rw e (skip_while-begins test s)
  | inr e ↦ rw e e
]

put_first-FreeOf :
    (c : ℕ) (ls : List Bytes)
    → (c == 10) ≡ false
    → All (FreeOf 10) ls
    → All (FreeOf 10) (put_first c ls)
put_first-FreeOf c [] h k = ((h, tt), tt)
put_first-FreeOf c (l ∷ ls) h k = ((h, k.0), k.1)

pub getlines-FreeOf : (s : Bytes) → All (FreeOf 10) (getlines s)
unfolding getlines
getlines-FreeOf [] = tt
getlines-FreeOf (c ∷ s) = elim (Bool-cases (c == 10)) [
  | inl e ↦ rw e (tt, getlines-FreeOf s)
  | inr e ↦ rw e (put_first-FreeOf c (getlines s) e (getlines-FreeOf s))
]

pub starts_with_refl : (s : Bytes) → starts_with s s ≡ true
unfolding starts_with
starts_with_refl [] = refl
starts_with_refl (c ∷ s) = ground (arith, starts_with_refl s)
