-- ===== src/Modules/Search.antt =====
-- src/snapshot/Snapshot.h, `FindModuleByPC`: the binary search finds the module that holds the
-- address, if one does.
use redscope.Base.{
  ℕ, zero, suc, ◌+◌, ◌-◌, ◌/◌, ◌^◌, ◌≤◌, ◌<◌, ◌≡◌, refl, sym, ap, ◌∙◌, ◌⊎◌, inl, inr, Option, none,
  some, List, arith, ltb, leb, ltb→lt, leb→le, tests, Bool-cases, length, get_elem?, ℕ_discrete,
  get_elem?-some, get_elem?_lt,
}
use redscope.Modules.{ModuleInfoFixed, end_of, search, find_module_by_pc}

abbrev pub Holds : ModuleInfoFixed → ℕ → Type 0
Holds m pc = (m.base ≤ pc) × (pc < m.base + m.size)

-- The modules lie in order, apart, and below 2^64.
pub record IsSorted (ms : List ModuleInfoFixed) : Type 0 where
  pub apart :
      (i j : ℕ) (a b : ModuleInfoFixed)
      → i < j
      → get_elem? ms i ≡ some a
      → get_elem? ms j ≡ some b
      → a.base + a.size ≤ b.base
  pub within : (i : ℕ) (a : ModuleInfoFixed) → get_elem? ms i ≡ some a → a.base + a.size < 2 ^ 64

-- What the search promises between `lo` and `hi`: the module that holds the address, or that none
-- of those between does.
abbrev Found : List ModuleInfoFixed → ℕ → ℕ → ℕ → Option (Option ModuleInfoFixed) → Type 0
Found ms pc lo hi none = ⊥
Found ms pc lo hi (some none) =
    (i : ℕ) (a : ModuleInfoFixed) → lo ≤ i → i < hi → get_elem? ms i ≡ some a → ¬ Holds a pc
Found ms pc lo hi (some (some m)) = (i : ℕ) × (get_elem? ms i ≡ some m) × Holds m pc

widen :
    (ms : List ModuleInfoFixed) (pc lo hi lo' hi' : ℕ) (r : Option (Option ModuleInfoFixed))
    → ((i : ℕ) (a : ModuleInfoFixed)
        → lo' ≤ i
        → i < hi'
        → get_elem? ms i ≡ some a
        → Holds a pc
        → (lo ≤ i) × (i < hi))
    → Found ms pc lo hi r
    → Found ms pc lo' hi' r
widen ms pc lo hi lo' hi' none k f = f
widen ms pc lo hi lo' hi' (some none) k f =
    λ i a l u e h. let b = k i a l u e h in f i a b.0 b.1 e h
widen ms pc lo hi lo' hi' (some (some m)) k f = f

-- Where a module lies beside another is where it stands beside it.
module _ (ms : List ModuleInfoFixed) (pc mid i : ℕ) (m a : ModuleInfoFixed) where
  place_before :
      IsSorted ms
      → get_elem? ms mid ≡ some m
      → get_elem? ms i ≡ some a
      → Holds a pc
      → pc < m.base
      → i < mid
  place_before s at e h b = elim (ℕ_discrete i mid) [
    | yes same ↦
        let found : some a ≡ some m = sym e ∙ ap (get_elem? ms) same ∙ at in
        let is : a ≡ m = cc in absurd (omega (arith, h.0, b, ap (λ x. x.base) is))
    | no other ↦ elim (Bool-cases (ltb i mid)) [
      | inl lt ↦ ltb→lt i mid lt
      | inr ge ↦ absurd (omega (tests, s.apart mid i m a (omega (tests, ge, other)) at e, h.0, b))
    ]
  ]

  place_after :
      IsSorted ms
      → get_elem? ms mid ≡ some m
      → get_elem? ms i ≡ some a
      → Holds a pc
      → end_of m ≤ pc
      → mid < i
  place_after s at e h b =
      let end : m.base + m.size ≤ pc = omega (arith, s.within mid m at, b) in
      elim (ℕ_discrete i mid) [
        | yes same ↦
            let found : some a ≡ some m = sym e ∙ ap (get_elem? ms) same ∙ at in
            let is : a ≡ m = cc in
            absurd (omega (arith, h.1, end, ap (λ x. x.base) is, ap (λ x. x.size) is))
        | no other ↦ elim (Bool-cases (ltb mid i)) [
          | inl lt ↦ ltb→lt mid i lt
          | inr ge ↦
              absurd (omega (tests, s.apart i mid a m (omega (tests, ge, other)) e at, h.1, end))
        ]
      ]

search-Found :
    (f : ℕ) (ms : List ModuleInfoFixed) (pc lo hi : ℕ)
    → IsSorted ms
    → hi ≤ length ms
    → hi - lo < f
    → Found ms pc lo hi (search f ms pc lo hi)
unfolding search
search-Found zero ms pc lo hi s b w = absurd (omega arith)
search-Found (suc f) ms pc lo hi s b w = elim (Bool-cases (ltb lo hi)) [
  | inr done ↦ rw done (λ i a l u e h. omega (tests, done))
  | inl more ↦
      let mid = lo + (hi - lo) / 2 in
      let lt : lo < hi = ltb→lt lo hi more in
      let (m, at) = get_elem?-some ms mid (omega arith) in
      rw (more, at)
        (elim (Bool-cases (ltb pc m.base)) [
          | inl before ↦ rw before (
              widen ms pc lo mid lo hi _
                (λ i a l u e h. (l, place_before ms pc mid i m a s at e h (ltb→lt _ _ before)))
                (search-Found f ms pc lo mid s (omega arith) (omega arith)))
          | inr after ↦ rw after (elim (Bool-cases (leb (end_of m) pc)) [
            | inl behind ↦ rw behind (
                widen ms pc (mid + 1) hi lo hi _
                  (λ i a l u e h.
                    (omega (arith, place_after ms pc mid i m a s at e h (leb→le _ _ behind)), u))
                  (search-Found f ms pc (mid + 1) hi s b (omega arith)))
            | inr here ↦
                rw here (mid, at, (omega (tests, after), omega (tests, here, s.within mid m at)))
          ])
        ])
]

-- On sorted, disjoint modules below 2^64 the search reads no slot out of range and ends: it gives
-- a module of the table that holds the address, or none where no module of the table holds it.
pub find_module_by_pc-Found :
    (ms : List ModuleInfoFixed) (pc : ℕ)
    → IsSorted ms
    → ((m : ModuleInfoFixed) × (i : ℕ) × (find_module_by_pc ms pc ≡ some (some m))
        × (get_elem? ms i ≡ some m)
        × Holds m pc)
      ⊎ ((find_module_by_pc ms pc ≡ some none)
          × ((i : ℕ) (m : ModuleInfoFixed) → get_elem? ms i ≡ some m → ¬ Holds m pc))
unfolding find_module_by_pc
find_module_by_pc-Found ms pc s =
    go (search (length ms + 1) ms pc 0 (length ms)) refl
      (search-Found (length ms + 1) ms pc 0 (length ms) s (omega arith) (omega arith))
  where
    go :
        (r : Option (Option ModuleInfoFixed))
        → search (length ms + 1) ms pc 0 (length ms) ≡ r
        → Found ms pc 0 (length ms) r
        → ((m : ModuleInfoFixed) × (i : ℕ) × (search (length ms + 1) ms pc 0 (length ms)
              ≡ some (some m))
            × (get_elem? ms i ≡ some m)
            × Holds m pc)
          ⊎ ((search (length ms + 1) ms pc 0 (length ms) ≡ some none)
              × ((i : ℕ) (m : ModuleInfoFixed) → get_elem? ms i ≡ some m → ¬ Holds m pc))
    go none e f = absurd f
    go (some none) e f = inr (e, λ i m at h. f i m (omega arith) (get_elem?_lt ms i m at) at h)
    go (some (some m)) e (i, at, h) = inl (m, i, e, at, h)
