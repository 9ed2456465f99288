-- ===== src/LogTailer/Glob/Correct.antt =====
-- src/logs/LogTailer.cpp, `GlobMatch`: going back to the last star only is enough.
use redscope.Base.{
  ℕ, zero, suc, ◌+◌, ◌*◌, ◌≤◌, ◌<◌, ◌≡◌, refl, sym, ap, fun_ext, ◌∙◌, inl, inr, Bool, true, false,
  ◌&&◌, ◌||◌, none, some, [], ◌∷◌, ◌++◌, append_assoc, arith, ◌==◌, Bool-cases, Bytes, length,
  length-append, All,
}
use redscope.LogTailer.Glob.{Mark, fits, only_stars, back, match_loop, rounds, glob_match}
use redscope.LogTailer.Glob.Spec.{any_suffix, accepts}

-- A text that is a proper suffix.
abbrev later : (Bytes → Bool) → Bytes → Bool
later f [] = false
later f (c ∷ n) = any_suffix f n

abbrev retry : Mark → Bool
retry none = false
retry (some (sp, m)) = later (accepts sp) m

later-any_suffix : (f : Bytes → Bool) (n : Bytes) → later f n ≡ true → any_suffix f n ≡ true
later-any_suffix f [] h = cc
later-any_suffix f (c ∷ n) h = ground arith

any_suffix_twice :
    (f : Bytes → Bool) (n : Bytes) → any_suffix (any_suffix f) n ≡ true → any_suffix f n ≡ true
any_suffix_twice f [] h = h
any_suffix_twice f (c ∷ n) h = ground (arith, any_suffix_twice f n)

later_twice : (f : Bytes → Bool) (n : Bytes) → later (any_suffix f) n ≡ true → any_suffix f n ≡ true
later_twice f [] h = cc
later_twice f (c ∷ n) h = ground (arith, any_suffix_twice f n)

only_stars-accepts : (p : Bytes) → only_stars p ≡ accepts p []
unfolding only_stars accepts
only_stars-accepts [] = refl
only_stars-accepts (q ∷ p) = ground (arith, only_stars-accepts p)

-- Past a byte that is no star a later match is a later match of the rest.
later_cons :
    (x : ℕ) (r s : Bytes)
    → (x == b'*') ≡ false
    → any_suffix (accepts (x ∷ r)) s ≡ true
    → later (accepts r) s ≡ true
unfolding accepts
later_cons x r [] nx h = ground arith
later_cons x r (c ∷ s) nx h = ground (arith, later_cons x r s nx, later-any_suffix (accepts r) s)

abbrev NoStar : ℕ → Type 0
NoStar x = (x == b'*') ≡ false

later_behind :
    (q p u n : Bytes)
    → All NoStar q
    → length u ≡ length q
    → later (accepts (q ++ p)) (u ++ n) ≡ true
    → later (accepts p) n ≡ true
later_behind [] p [] n ns e h = h
later_behind [] p (a ∷ u) n ns e h = absurd (omega arith)
later_behind (x ∷ q) p [] n ns e h = absurd (omega arith)
later_behind (x ∷ q) p (a ∷ u) n ns e h =
    later_behind q p u n ns.1 (omega arith) (later_cons x (q ++ p) (u ++ n) ns.0 h)

-- Between the mark and here the pattern has no star and has taken a byte of the name for each of
-- its own; and the texts are short enough for `k`.
abbrev Inv : ℕ → Mark → Bytes → Bytes → Type 0
Inv k none p n = length p + length n < k
Inv k (some (sp, m)) p n =
    (q u : Bytes) × (sp ≡ q ++ p)
    × (m ≡ u ++ n)
    × (length u ≡ length q)
    × All NoStar q
    × (length sp + length m < k)

abbrev weight : ℕ → Mark → Bytes → Bytes → ℕ
weight k none p n = length n * k + length p + length n
weight k (some (sp, m)) p n = length m * k + length p + length n

retry-later :
    (k : ℕ) (st : Mark) (p n : Bytes) → Inv k st p n → retry st ≡ true → later (accepts p) n ≡ true
retry-later k none p n i h = cc
retry-later k (some (sp, m)) p n (q, u, es, em, el, ns, b) h =
    later_behind q p u n ns el (rw (es, em) at h)

any_suffix_split : (f : Bytes → Bool) (n : Bytes) → any_suffix f n ≡ f n || later f n
any_suffix_split f [] = ground arith
any_suffix_split f (c ∷ n) = refl

accepts-star : (q : ℕ) (p : Bytes) → (q == b'*') ≡ true → accepts (q ∷ p) ≡ any_suffix (accepts p)
unfolding accepts
accepts-star q p h = fun_ext (λ n. rw h)

accepts-fits :
    (q c : ℕ) (p n : Bytes)
    → (q == b'*') ≡ false
    → accepts (q ∷ p) (c ∷ n) ≡ fits q c && accepts p n
unfolding accepts
accepts-fits q c p n h = rw h

accepts-nil : (c : ℕ) (n : Bytes) → accepts [] (c ∷ n) ≡ false
unfolding accepts
accepts-nil c n = refl

abbrev Loop : ℕ → ℕ → Type 0
Loop k f =
    (p n : Bytes) (st : Mark)
    → Inv k st p n
    → weight k st p n < f
    → match_loop f p n st ≡ some (accepts p n || retry st)

module _ (k f : ℕ) (ih : Loop k f) where
  back_eq :
      (p n : Bytes) (c : ℕ) (st : Mark)
      → Inv k st p (c ∷ n)
      → weight k st p (c ∷ n) < suc f
      → back st (match_loop f) ≡ some (retry st)
  back_eq p n c none i w = refl
  back_eq p n c (some (sp, [])) i w = refl
  back_eq p n c (some (sp, m ∷ ms)) (q, u, es, em, el, ns, b) w =
      ih sp ms (some (sp, ms)) ([], [], refl, refl, refl, tt, omega arith) (grind arith)
      ∙ ap some (sym (any_suffix_split (accepts sp) ms))

Inv-bound : (k : ℕ) (st : Mark) (p n : Bytes) → Inv k st p n → length p + length n < k
Inv-bound k none p n i = i
Inv-bound k (some (sp, m)) p n (q, u, es, em, el, ns, b) =
    omega (arith, ap length es, ap length em, length-append q p, length-append u n)

weight-restart :
    (k : ℕ) (st : Mark) (p n : Bytes) → Inv k st p n → weight k (some (p, n)) p n ≤ weight k st p n
weight-restart k none p n i = omega arith
weight-restart k (some (sp, m)) p n (q, u, es, em, el, ns, b) =
    let le : length n ≤ length m = omega (arith, ap length em, length-append u n) in
    grind (arith, le)

Inv-next :
    (k : ℕ) (st : Mark) (x c : ℕ) (p n : Bytes)
    → (x == b'*') ≡ false
    → Inv k st (x ∷ p) (c ∷ n)
    → Inv k st p n
Inv-next k none x c p n nx i = omega arith
Inv-next k (some (sp, m)) x c p n nx (q, u, es, em, el, ns, b) = (
  q ++ (x ∷ []),
  u ++ (c ∷ []),
  es ∙ sym (append_assoc q (x ∷ []) p),
  em ∙ sym (append_assoc u (c ∷ []) n),
  omega (arith, length-append q (x ∷ []), length-append u (c ∷ [])),
  All-snoc q ns,
  b,
)
  where
    All-snoc : (q : Bytes) → All NoStar q → All NoStar (q ++ (x ∷ []))
    All-snoc [] h = (nx, tt)
    All-snoc (y ∷ q) h = (h.0, All-snoc q h.1)

weight-next :
    (k : ℕ) (st : Mark) (x c : ℕ) (p n : Bytes) → weight k st p n < weight k st (x ∷ p) (c ∷ n)
weight-next k none x c p n = grind arith
weight-next k (some (sp, m)) x c p n = omega arith

-- At a star the older mark has nothing to add: what it would find, the star finds.
covers :
    (k : ℕ) (st : Mark) (q : ℕ) (p n : Bytes)
    → Inv k st (q ∷ p) n
    → (q == b'*') ≡ true
    → any_suffix (accepts p) n ≡ accepts (q ∷ p) n || retry st
covers k st q p n i h =
    let a = accepts-star q p h in
    let r : retry st ≡ true → any_suffix (accepts p) n ≡ true =
      λ e. later_twice (accepts p) n (rw a at (retry-later k st (q ∷ p) n i e)) in
    rw a (ground (arith, r))

module _ (k f : ℕ) (ih : Loop k f) where
  loop_star :
      (q c : ℕ) (p n : Bytes) (st : Mark)
      → Inv k st (q ∷ p) (c ∷ n)
      → weight k st (q ∷ p) (c ∷ n) < suc f
      → (q == b'*') ≡ true
      → match_loop f p (c ∷ n) (some (p, c ∷ n)) ≡ some (accepts (q ∷ p) (c ∷ n) || retry st)
  loop_star q c p n st i w h =
      let bound = Inv-bound k st (q ∷ p) (c ∷ n) i in
      let r = weight-restart k st (q ∷ p) (c ∷ n) i in
      let e =
        ih p (c ∷ n) (some (p, c ∷ n)) ([], [], refl, refl, refl, tt, omega arith) (omega arith) in
      let s = any_suffix_split (accepts p) (c ∷ n) in
      e ∙ ap some (sym s ∙ covers k st q p (c ∷ n) i h)

  loop_round :
      (p n : Bytes) (c : ℕ) (st : Mark)
      → Inv k st p (c ∷ n)
      → weight k st p (c ∷ n) < suc f
      → match_loop (suc f) p (c ∷ n) st ≡ some (accepts p (c ∷ n) || retry st)
  unfolding match_loop
  loop_round [] n c st i w = rw accepts-nil (back_eq k f ih [] n c st i w)
  loop_round (q ∷ p) n c st i w = elim (Bool-cases (q == b'*')) [
    | inl star ↦ rw star (loop_star q c p n st i w star)
    | inr plain ↦
        rw (plain, accepts-fits q c p n plain)
          (elim (Bool-cases (fits q c)) [
            | inl fit ↦
                let w' = weight-next k st q c p n in
                rw fit (ih p n st (Inv-next k st q c p n plain i) (omega (arith, w')))
            | inr miss ↦ rw miss (back_eq k f ih (q ∷ p) n c st i w)
          ])
  ]

loop_lem : (k f : ℕ) → Loop k f
loop_lem k zero p n st i w = absurd (omega arith)
loop_lem k (suc f) p [] st i w =
    unfold match_loop in
    (let r : retry st ≡ true → false ≡ true = λ e. retry-later k st p [] i e in
      ground (arith, only_stars-accepts p, r))
loop_lem k (suc f) p (c ∷ n) st i w = loop_round k f (loop_lem k f) p n c st i w

-- For every pattern and name the loop ends within its rounds, and it says whether the pattern
-- stands for the name.
pub glob_match-accepts : (p n : Bytes) → glob_match p n ≡ some (accepts p n)
unfolding glob_match
glob_match-accepts p n =
    let k = length p + length n + 1 in
    loop_lem k (rounds p n) p n none (omega arith) (grind arith) ∙ ground arith
