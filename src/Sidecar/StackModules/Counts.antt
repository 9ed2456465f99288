-- ===== src/Sidecar/StackModules/Counts.antt =====
-- src/report/JsonSidecar.cpp, `CollectStackModules`: each module is reported with the number of words that
-- lie in it, and the sorting keeps the numbers.
use redscope.Base.{
  ℕ, ◌+◌, ◌≤◌, ◌≡◌, refl, sym, ap, subst, ◌≢◌, inl, inr, false, Option, none, some, List, [], ◌∷◌,
  ◌++◌, arith, ltb, leb, ◌==◌, if◌then◌else◌, tests, Bool-cases, Option-cases, length, All,
  All-append,
}
use redscope.Modules.{ModuleInfoFixed}
use redscope.Sidecar.StackModules.{
  StackModuleHit, StackModuleScan, max_stack_modules, no_hits, bump, with_hits, module_of,
  count_module, collect_from, collect_stack_modules, insert_hit, sort_hits,
}

-- What a list of hits says of a module.
abbrev pub hits_of : ℕ → List StackModuleHit → ℕ
hits_of i [] = 0
hits_of i (h ∷ hs) = (if h.name_index == i then h.hits else 0) + hits_of i hs

abbrev pub is_of : ℕ → Option ModuleInfoFixed → ℕ
is_of i none = 0
is_of i (some m) = if m.name_index == i then 1 else 0

-- How many words lie in a module.
abbrev pub words_in : ℕ → List ModuleInfoFixed → List ℕ → ℕ
words_in i ms [] = 0
words_in i ms (q ∷ qs) = is_of i (module_of ms q) + words_in i ms qs

hits_of-append :
    (i : ℕ) (xs ys : List StackModuleHit) → hits_of i (xs ++ ys) ≡ hits_of i xs + hits_of i ys
hits_of-append i [] ys = omega arith
hits_of-append i (x ∷ xs) ys = omega (arith, hits_of-append i xs ys)

bump-hits_of :
    (i j : ℕ) (hs hs' : List StackModuleHit)
    → bump j hs ≡ some hs'
    → hits_of i hs' ≡ hits_of i hs + (if j == i then 1 else 0)
unfolding bump
bump-hits_of i j [] hs' e = cc
bump-hits_of i j (h ∷ hs) hs' e = elim (Bool-cases (h.name_index == j)) [
  | inl s ↦
      let r : hs' ≡ record h { hits = h.hits + 1 } ∷ hs = ground (arith, e, s) in
      rw r (ground (arith, s))
  | inr s ↦ elim (Option-cases (bump j hs)) [
    | inl n ↦ absurd (ground (arith, e, s, n))
    | inr (ts, n) ↦
        let r : hs' ≡ h ∷ ts = ground (arith, e, s, n) in
        rw r (omega (arith, bump-hits_of i j hs ts n))
  ]
]

-- One word: counted, unless the scan overflows.
count_module-hits_of :
    (i : ℕ) (o : Option ModuleInfoFixed) (r : StackModuleScan)
    → (count_module o r).overflow ≡ false
    → (r.overflow ≡ false) × (hits_of i (count_module o r).hits ≡ hits_of i r.hits + is_of i o)
count_module-hits_of i none r h = (h, omega arith)
count_module-hits_of i (some m) r h = by_bump (bump m.name_index r.hits) refl h
  where
    by_bump :
        (o : Option (List StackModuleHit))
        → bump m.name_index r.hits ≡ o
        → (with_hits m r o).overflow ≡ false
        → (r.overflow ≡ false)
          × (hits_of i (with_hits m r o).hits ≡ hits_of i r.hits + is_of i (some m))
    by_bump (some hs) e h = (h, bump-hits_of i m.name_index r.hits hs e)
    by_bump none e h = elim (Bool-cases (leb max_stack_modules (length r.hits))) [
      | inl full ↦ absurd (ground (arith, full, h))
      | inr room ↦ rw room (
        (rw room at h),
        omega (
          arith,
          hits_of-append i r.hits
              (record { name_index = m.name_index; kind = m.kind; hits = 1 } ∷ []),
        ),
      )
    ]

collect_from-hits_of :
    (i : ℕ) (ms : List ModuleInfoFixed) (qs : List ℕ) (r : StackModuleScan)
    → (collect_from ms qs r).overflow ≡ false
    → (r.overflow ≡ false)
      × (hits_of i (collect_from ms qs r).hits ≡ hits_of i r.hits + words_in i ms qs)
unfolding collect_from
collect_from-hits_of i ms [] r h = (h, omega arith)
collect_from-hits_of i ms (q ∷ qs) r h =
    let later = collect_from-hits_of i ms qs (count_module (module_of ms q) r) h in
    let now = count_module-hits_of i (module_of ms q) r later.0 in
    (now.0, omega (arith, now.1, later.1))

insert_hit-hits_of :
    (i : ℕ) (k : StackModuleHit) (hs : List StackModuleHit)
    → hits_of i (insert_hit k hs) ≡ hits_of i (k ∷ hs)
unfolding insert_hit
insert_hit-hits_of i k [] = refl
insert_hit-hits_of i k (h ∷ hs) = elim (Bool-cases (ltb h.hits k.hits)) [
  | inl e ↦ rw e refl
  | inr e ↦ rw e (omega (arith, insert_hit-hits_of i k hs))
]

sort_hits-hits_of :
    (i : ℕ) (sorted hs : List StackModuleHit)
    → hits_of i (sort_hits sorted hs) ≡ hits_of i sorted + hits_of i hs
unfolding sort_hits
sort_hits-hits_of i sorted [] = omega arith
sort_hits-hits_of i sorted (h ∷ hs) =
    omega (arith, sort_hits-hits_of i (insert_hit h sorted) hs, insert_hit-hits_of i h sorted)

-- Most hits first.
abbrev pub Falls : List StackModuleHit → Type 0
Falls [] = Unit
Falls (h ∷ []) = Unit
Falls (h ∷ k ∷ hs) = (k.hits ≤ h.hits) × Falls (k ∷ hs)

insert_below :
    (g k : StackModuleHit) (hs : List StackModuleHit)
    → k.hits ≤ g.hits
    → Falls (g ∷ hs)
    → Falls (insert_hit k hs)
    → Falls (g ∷ insert_hit k hs)
unfolding insert_hit
insert_below g k [] l f fs = (l, tt)
insert_below g k (h ∷ hs) l f fs = elim (Bool-cases (ltb h.hits k.hits)) [
  | inl e ↦ rw e (l, (rw e at fs))
  | inr e ↦ rw e (f.0, (rw e at fs))
]

insert_hit-Falls :
    (k : StackModuleHit) (hs : List StackModuleHit) → Falls hs → Falls (insert_hit k hs)
unfolding insert_hit
insert_hit-Falls k [] f = tt
insert_hit-Falls k (h ∷ hs) f = elim (Bool-cases (ltb h.hits k.hits)) [
  | inl e ↦ rw e (omega (tests, e), f)
  | inr e ↦ rw e (insert_below h k hs (omega (tests, e)) f (insert_hit-Falls k hs (tail h hs f)))
]
  where
    tail : (h : StackModuleHit) (hs : List StackModuleHit) → Falls (h ∷ hs) → Falls hs
    tail h [] f = tt
    tail h (g ∷ hs) f = f.1

sort_hits-Falls : (sorted hs : List StackModuleHit) → Falls sorted → Falls (sort_hits sorted hs)
unfolding sort_hits
sort_hits-Falls sorted [] f = f
sort_hits-Falls sorted (h ∷ hs) f =
    sort_hits-Falls (insert_hit h sorted) hs (insert_hit-Falls h sorted f)

abbrev pub names : List StackModuleHit → List ℕ
names [] = []
names (h ∷ hs) = h.name_index ∷ names hs

abbrev pub IsNew : ℕ → List ℕ → Type 0
IsNew i js = All (λ (j : ℕ). i ≢ j) js

-- No number stands in the list twice.
abbrev pub AreDistinct : List ℕ → Type 0
AreDistinct [] = Unit
AreDistinct (i ∷ is) = IsNew i is × AreDistinct is

bump-names : (j : ℕ) (hs hs' : List StackModuleHit) → bump j hs ≡ some hs' → names hs' ≡ names hs
unfolding bump
bump-names j [] hs' e = absurd (cc)
bump-names j (h ∷ hs) hs' e = elim (Bool-cases (h.name_index == j)) [
  | inl s ↦ let r : hs' ≡ record h { hits = h.hits + 1 } ∷ hs = ground (arith, e, s) in rw r refl
  | inr s ↦ elim (Option-cases (bump j hs)) [
    | inl n ↦ absurd (ground (arith, e, s, n))
    | inr (ts, n) ↦
        let r : hs' ≡ h ∷ ts = ground (arith, e, s, n) in
        rw r (ap (λ l. h.name_index ∷ l) (bump-names j hs ts n))
  ]
]

bump-IsNew : (j : ℕ) (hs : List StackModuleHit) → bump j hs ≡ none → IsNew j (names hs)
unfolding bump
bump-IsNew j [] e = tt
bump-IsNew j (h ∷ hs) e = elim (Bool-cases (h.name_index == j)) [
  | inl s ↦ absurd (ground (arith, e, s))
  | inr s ↦ elim (Option-cases (bump j hs)) [
    | inl n ↦ ((λ q. ground (arith, s, q)), bump-IsNew j hs n)
    | inr (ts, n) ↦ absurd (ground (arith, e, s, n))
  ]
]

names-append :
    (h : StackModuleHit) (hs : List StackModuleHit)
    → names (hs ++ (h ∷ [])) ≡ names hs ++ (h.name_index ∷ [])
names-append h [] = refl
names-append h (g ∷ gs) = ap (λ l. g.name_index ∷ l) (names-append h gs)

append-AreDistinct :
    (j : ℕ) (is : List ℕ) → IsNew j is → AreDistinct is → AreDistinct (is ++ (j ∷ []))
append-AreDistinct j [] n d = (tt, tt)
append-AreDistinct j (i ∷ is) n d = (
  All-append (λ (k : ℕ). i ≢ k) is (j ∷ []) d.0 ((λ e. n.0 (sym e)), tt),
  append-AreDistinct j is n.1 d.1,
)

count_module-AreDistinct :
    (o : Option ModuleInfoFixed) (r : StackModuleScan)
    → AreDistinct (names r.hits)
    → AreDistinct (names (count_module o r).hits)
count_module-AreDistinct none r d = d
count_module-AreDistinct (some m) r d = by_bump (bump m.name_index r.hits) refl
  where
    by_bump :
        (o : Option (List StackModuleHit))
        → bump m.name_index r.hits ≡ o
        → AreDistinct (names (with_hits m r o).hits)
    by_bump (some hs) e = subst AreDistinct (sym (bump-names m.name_index r.hits hs e)) d
    by_bump none e = elim (Bool-cases (leb max_stack_modules (length r.hits))) [
      | inl full ↦ rw full d
      | inr room ↦
          let new : StackModuleHit = record {
            name_index = m.name_index;
            kind = m.kind;
            hits = 1;
          } in
          rw room (
            subst AreDistinct (sym (names-append new r.hits))
              (append-AreDistinct m.name_index (names r.hits) (bump-IsNew m.name_index r.hits e) d))
    ]

collect_from-AreDistinct :
    (ms : List ModuleInfoFixed) (qs : List ℕ) (r : StackModuleScan)
    → AreDistinct (names r.hits)
    → AreDistinct (names (collect_from ms qs r).hits)
unfolding collect_from
collect_from-AreDistinct ms [] r d = d
collect_from-AreDistinct ms (q ∷ qs) r d =
    collect_from-AreDistinct ms qs (count_module (module_of ms q) r)
      (count_module-AreDistinct (module_of ms q) r d)

insert_hit-IsNew :
    (i : ℕ) (k : StackModuleHit) (hs : List StackModuleHit)
    → i ≢ k.name_index
    → IsNew i (names hs)
    → IsNew i (names (insert_hit k hs))
unfolding insert_hit
insert_hit-IsNew i k [] n d = (n, tt)
insert_hit-IsNew i k (h ∷ hs) n d = elim (Bool-cases (ltb h.hits k.hits)) [
  | inl e ↦ rw e (n, d)
  | inr e ↦ rw e (d.0, insert_hit-IsNew i k hs n d.1)
]

insert_hit-AreDistinct :
    (k : StackModuleHit) (hs : List StackModuleHit)
    → IsNew k.name_index (names hs)
    → AreDistinct (names hs)
    → AreDistinct (names (insert_hit k hs))
unfolding insert_hit
insert_hit-AreDistinct k [] n d = (tt, tt)
insert_hit-AreDistinct k (h ∷ hs) n d = elim (Bool-cases (ltb h.hits k.hits)) [
  | inl e ↦ rw e (n, d)
  | inr e ↦ rw e (
    insert_hit-IsNew h.name_index k hs (λ q. n.0 (sym q)) d.0,
    insert_hit-AreDistinct k hs n.1 d.1,
  )
]

-- Two lists have no number in common.
abbrev AreApart : List ℕ → List ℕ → Type 0
AreApart is js = All (λ (i : ℕ). IsNew i js) is

insert_hit-AreApart :
    (k : StackModuleHit) (hs gs : List StackModuleHit)
    → AreApart (names hs) (names gs)
    → IsNew k.name_index (names hs)
    → AreApart (names hs) (names (insert_hit k gs))
insert_hit-AreApart k [] gs a n = tt
insert_hit-AreApart k (h ∷ hs) gs a n =
    (insert_hit-IsNew h.name_index k gs (λ q. n.0 (sym q)) a.0, insert_hit-AreApart k hs gs a.1 n.1)

sort_hits-AreDistinct :
    (sorted hs : List StackModuleHit)
    → AreDistinct (names sorted)
    → AreDistinct (names hs)
    → AreApart (names hs) (names sorted)
    → AreDistinct (names (sort_hits sorted hs))
unfolding sort_hits
sort_hits-AreDistinct sorted [] d e a = d
sort_hits-AreDistinct sorted (h ∷ hs) d e a =
    sort_hits-AreDistinct (insert_hit h sorted) hs (insert_hit-AreDistinct h sorted a.0 d) e.1
      (insert_hit-AreApart h hs sorted a.1 e.0)

apart_nil : (is : List ℕ) → AreApart is []
apart_nil [] = tt
apart_nil (i ∷ is) = (tt, apart_nil is)

-- Where the scan does not run out of room, the list of modules that is written has most hits first, has no
-- module twice, and gives each module the number of words on the stack that lie in it, and none to any
-- other.
pub collect_stack_modules-hits_of :
    (ms : List ModuleInfoFixed) (slots : List ℕ)
    → (collect_stack_modules ms slots).overflow ≡ false
    → Falls (sort_hits [] (collect_stack_modules ms slots).hits)
      × AreDistinct (names (sort_hits [] (collect_stack_modules ms slots).hits))
      × ((i : ℕ)
          → hits_of i (sort_hits [] (collect_stack_modules ms slots).hits) ≡ words_in i ms slots)
unfolding collect_stack_modules
collect_stack_modules-hits_of ms slots h = (
  sort_hits-Falls [] (collect_from ms slots no_hits).hits tt,
  sort_hits-AreDistinct [] (collect_from ms slots no_hits).hits tt
      (collect_from-AreDistinct ms slots no_hits tt)
      (apart_nil (names (collect_from ms slots no_hits).hits)),
  λ i. omega (
    arith,
    sort_hits-hits_of i [] (collect_from ms slots no_hits).hits,
    (collect_from-hits_of i ms slots no_hits h).1,
  ),
)
