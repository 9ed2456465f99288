-- ===== src/Conflicts/Pairs.antt =====
-- src/snapshot/CuratedConflicts.cpp, `EvaluateConflicts`: a pair of mods conflicts both ways round, so a
-- group with one survivor has a second one.
use redscope.Base.{
  ◌≤◌, ◌<◌, ◌≡◌, refl, sym, subst, ◌∙◌, ◌≢◌, ◌⊎◌, inl, inr, Bool, true, false, List, [], ◌∷◌, arith,
  Bool-cases, Bytes, str_eq, str_eq_iff, str_eq_refl, str_eq_sym, length,
}
use redscope.Base.Sort.{str_lt, str_lt-IsOrder}
use redscope.Conflicts.{contains, any_of, keep_if, pair_key, is_excepted, conflicts_with, survivors}

ne_of : (a b : Bytes) → str_eq a b ≡ false → a ≢ b
ne_of a b n e = ground (arith, str_eq_iff a b)

pair_key_sym : (a b : Bytes) → str_eq a b ≡ false → pair_key a b ≡ pair_key b a
unfolding pair_key
pair_key_sym a b n = elim (Bool-cases (str_lt a b)) [
  | inl e ↦ rw (e, str_lt-IsOrder.asym a b e) refl
  | inr e ↦ elim (Bool-cases (str_lt b a)) [
    | inl f ↦ rw (e, f) refl
    | inr f ↦ absurd (ne_of a b n (str_lt-IsOrder.connex a b e f))
  ]
]

conflicts_with_sym :
    (pairs : List Bytes) (a b : Bytes)
    → conflicts_with pairs a b ≡ true
    → conflicts_with pairs b a ≡ true
unfolding is_excepted
conflicts_with_sym pairs a b h = elim (Bool-cases (str_eq a b)) [
  | inl e ↦ absurd (ground (arith, (rw e at h)))
  | inr e ↦ rw (str_eq_sym b a, pair_key_sym b a (str_eq_sym b a ∙ e)) h
]

any_of_witness :
    (p : Bytes → Bool) (ms : List Bytes)
    → any_of p ms ≡ true
    → (b : Bytes) × (contains b ms ≡ true) × (p b ≡ true)
unfolding any_of contains
any_of_witness p [] h = absurd (ground arith)
any_of_witness p (m ∷ ms) h = elim (Bool-cases (p m)) [
  | inl e ↦ (m, rw (str_eq_refl m) refl, e)
  | inr e ↦ let w = any_of_witness p ms (rw e at h) in (w.0, ground (arith, w.1), w.2)
]

any_of_intro :
    (p : Bytes → Bool) (b : Bytes) (ms : List Bytes)
    → contains b ms ≡ true
    → p b ≡ true
    → any_of p ms ≡ true
unfolding any_of contains
any_of_intro p b [] h k = h
any_of_intro p b (m ∷ ms) h k = elim (Bool-cases (str_eq b m)) [
  | inl e ↦ rw (sym ((str_eq_iff b m).0 e), k) refl
  | inr e ↦ ground (arith, any_of_intro p b ms (rw e at h) k)
]

keep_if-contains :
    (p : Bytes → Bool) (b : Bytes) (ms : List Bytes)
    → contains b ms ≡ true
    → p b ≡ true
    → contains b (keep_if p ms) ≡ true
unfolding keep_if contains
keep_if-contains p b [] h k = h
keep_if-contains p b (m ∷ ms) h k = elim (Bool-cases (str_eq b m)) [
  | inl e ↦
      let same = (str_eq_iff b m).0 e in
      let pm : p m ≡ true = subst (λ x. p x ≡ true) same k in rw (pm, e) refl
  | inr e ↦ elim (Bool-cases (p m)) [
    | inl f ↦ rw (f, e) (keep_if-contains p b ms (rw e at h) k)
    | inr f ↦ rw f (keep_if-contains p b ms (rw e at h) k)
  ]
]

-- The first that is kept is a member that passes the test.
keep_if_head :
    (p : Bytes → Bool) (ms : List Bytes) (a : Bytes) (rest : List Bytes)
    → keep_if p ms ≡ a ∷ rest
    → (contains a ms ≡ true) × (p a ≡ true)
unfolding keep_if contains
keep_if_head p [] a rest h = absurd (cc)
keep_if_head p (m ∷ ms) a rest h = elim (Bool-cases (p m)) [
  | inl f ↦
      let same : m ≡ a = kept m (keep_if p ms) (rw f at h) in
      (rw same (rw (str_eq_refl a) refl), subst (λ x. p x ≡ true) same f)
  | inr f ↦ let r = keep_if_head p ms a rest (rw f at h) in (ground (arith, r.0), r.1)
]
  where
    kept : (x : Bytes) (l : List Bytes) → x ∷ l ≡ a ∷ rest → x ≡ a
    kept x l e = cc

two_of :
    (a b : Bytes) (rest : List Bytes)
    → contains b (a ∷ rest) ≡ true
    → str_eq b a ≡ false
    → 2 ≤ length (a ∷ rest)
unfolding contains
two_of a b [] h n = absurd (ground arith)
two_of a b (c ∷ rest) h n = omega arith

apart : (pairs : List Bytes) (a b : Bytes) → conflicts_with pairs a b ≡ true → str_eq a b ≡ false
apart pairs a b h = ground arith

survivors_two :
    (pairs ms : List Bytes) (a : Bytes) (rest : List Bytes)
    → survivors pairs ms ≡ a ∷ rest
    → 2 ≤ length (a ∷ rest)
unfolding survivors
survivors_two pairs ms a rest h =
    let p : Bytes → Bool = λ x. any_of (conflicts_with pairs x) ms in
    let first = keep_if_head p ms a rest h in
    let other = any_of_witness (conflicts_with pairs a) ms first.1 in
    let b = other.0 in
    let back = conflicts_with_sym pairs a b other.2 in
    let kept =
      keep_if-contains p b ms other.1 (any_of_intro (conflicts_with pairs b) a ms first.0 back) in
    two_of a b rest (subst (λ l. contains b l ≡ true) h kept)
      (str_eq_sym b a ∙ apart pairs a b other.2)

-- No mod conflicts with itself.
pub survivors_one : (pairs : List Bytes) (ms : List Bytes) → length ms < 2 → survivors pairs ms ≡ []
unfolding survivors keep_if any_of
survivors_one pairs [] h = refl
survivors_one pairs (a ∷ []) h = rw (str_eq_refl a) refl
survivors_one pairs (a ∷ b ∷ ms) h = absurd (omega arith)

abbrev pub NoneOrTwo : List Bytes → Type 0
NoneOrTwo left = (left ≡ []) ⊎ (2 ≤ length left)

-- A group has no survivor or at least two.
pub survivors-NoneOrTwo : (pairs ms : List Bytes) → NoneOrTwo (survivors pairs ms)
survivors-NoneOrTwo pairs ms = split (survivors pairs ms) refl
  where
    split : (l : List Bytes) → survivors pairs ms ≡ l → NoneOrTwo (survivors pairs ms)
    split [] e = inl e
    split (a ∷ rest) e = inr (subst (λ l. 2 ≤ length l) (sym e) (survivors_two pairs ms a rest e))
