-- ===== src/SymbolDb/Nearest.antt =====
-- src/symbols/SymbolDb.cpp, `Lookup`: the symbol found is the nearest at or below the address.
use redscope.Base.{
  ℕ, zero, suc, ◌-◌, ◌≤◌, ◌<◌, ◌≡◌, refl, sym, ap, subst, ◌∙◌, ◌≢◌, ◌⊎◌, inl, inr, true, false,
  Option, some, List, [], ◌∷◌, ◌++◌, arith, ltb, leb, ◌==◌, if◌then◌else◌, ltb→lt, leb→le, ==_iff,
  tests, Bool-cases, Bytes, length, get_elem?, All, get_elem?-some, get_elem?_lt,
}
use redscope.SymbolDb.{
  Entry, Table, LookupResult, miss, sentinel, load, lower_bound, at_entry, before, from_bound,
  lookup,
}
use redscope.SymbolDb.Build.{Has, Ascends, IsPlaceOf, address, load-IsTable}

get_elem?-append_left {ℓ} :
    {A : Type ℓ} (xs ys : List A) (i : ℕ) → i < length xs → get_elem? (xs ++ ys) i ≡ get_elem? xs i
get_elem?-append_left [] ys i l = absurd (omega arith)
get_elem?-append_left (x ∷ xs) ys zero l = refl
get_elem?-append_left (x ∷ xs) ys (suc i) l = get_elem?-append_left xs ys i (omega arith)

get_elem?-append_at {ℓ} :
    {A : Type ℓ} (xs : List A) (y : A) → get_elem? (xs ++ (y ∷ [])) (length xs) ≡ some y
get_elem?-append_at [] y = refl
get_elem?-append_at (x ∷ xs) y = get_elem?-append_at xs y

All-at :
    (P : Entry → Type 0) (es : List Entry) (i : ℕ) (e : Entry)
    → All P es
    → get_elem? es i ≡ some e
    → P e
All-at P [] i e h k = cc
All-at P (d ∷ es) zero e h k = let same : d ≡ e = cc in subst P same h.0
All-at P (d ∷ es) (suc i) e h k = All-at P es i e h.1 k

Ascends-at :
    (es : List Entry) (i j : ℕ) (d e : Entry)
    → Ascends es
    → i ≤ j
    → get_elem? es i ≡ some d
    → get_elem? es j ≡ some e
    → d.rva ≤ e.rva
Ascends-at [] i j d e s l g h = cc
Ascends-at (f ∷ es) zero zero d e s l g h =
    let a : f ≡ d = cc in let b : f ≡ e = cc in omega (arith, ap (λ v. v.rva) a, ap (λ v. v.rva) b)
Ascends-at (f ∷ es) zero (suc j) d e s l g h =
    let a : f ≡ d = cc in omega (arith, ap (λ v. v.rva) a, All-at (λ v. f.rva ≤ v.rva) es j e s.0 h)
Ascends-at (f ∷ es) (suc i) zero d e s l g h = absurd (omega arith)
Ascends-at (f ∷ es) (suc i) (suc j) d e s l g h = Ascends-at es i j d e s.1 (omega arith) g h

lower_bound-le : (es : List Entry) (x : ℕ) → lower_bound es x ≤ length es
unfolding lower_bound
lower_bound-le [] x = omega arith
lower_bound-le (e ∷ es) x = ground (arith, lower_bound-le es x)

lower_bound-sentinel :
    (es : List Entry) (s : Entry) (x : ℕ)
    → x ≤ s.rva
    → lower_bound (es ++ (s ∷ [])) x ≡ lower_bound es x
unfolding lower_bound
lower_bound-sentinel [] s x l = ground arith
lower_bound-sentinel (e ∷ es) s x l = ground (arith, lower_bound-sentinel es s x l)

lower_bound_below :
    (es : List Entry) (x j : ℕ) (e : Entry)
    → j < lower_bound es x
    → get_elem? es j ≡ some e
    → e.rva < x
unfolding lower_bound
lower_bound_below [] x j e l h = cc
lower_bound_below (d ∷ es) x j e l h = elim (Bool-cases (ltb d.rva x)) [
  | inr ge ↦ absurd (ground (arith, l, ge))
  | inl lt ↦ below j l h lt (λ k. lower_bound_below es x k e)
]
  where
    below :
        (j : ℕ)
        → j < (if ltb d.rva x then suc (lower_bound es x) else 0)
        → get_elem? (d ∷ es) j ≡ some e
        → ltb d.rva x ≡ true
        → ((k : ℕ) → k < lower_bound es x → get_elem? es k ≡ some e → e.rva < x)
        → e.rva < x
    below zero l h lt on = let same : d ≡ e = cc in omega (tests, lt, ap (λ v. v.rva) same)
    below (suc j) l h lt on = on j (ground (arith, l, lt)) h

lower_bound_above :
    (es : List Entry) (x : ℕ) (e : Entry) → get_elem? es (lower_bound es x) ≡ some e → x ≤ e.rva
unfolding lower_bound
lower_bound_above [] x e h = cc
lower_bound_above (d ∷ es) x e h = elim (Bool-cases (ltb d.rva x)) [
  | inl lt ↦ lower_bound_above es x e (at h lt)
  | inr ge ↦ let same : d ≡ e = here h ge in omega (tests, ge, ap (λ v. v.rva) same)
]
  where
    at :
        get_elem? (d ∷ es) (if ltb d.rva x then suc (lower_bound es x) else 0) ≡ some e
        → ltb d.rva x ≡ true
        → get_elem? es (lower_bound es x) ≡ some e
    at h lt =
        subst (λ b. get_elem? (d ∷ es) (if b then suc (lower_bound es x) else 0) ≡ some e) lt h

    here :
        get_elem? (d ∷ es) (if ltb d.rva x then suc (lower_bound es x) else 0) ≡ some e
        → ltb d.rva x ≡ false
        → d ≡ e
    here h ge =
        let h' =
          subst (λ b. get_elem? (d ∷ es) (if b then suc (lower_bound es x) else 0) ≡ some e) ge h in
        cc

-- No symbol at or below the address lies above `rva`.
abbrev IsLast : List Entry → ℕ → ℕ → Type 0
IsLast es x rva = (e : Entry) → Has e es → e.rva ≤ x → e.rva ≤ rva

-- What the search of the sorted entries does.
abbrev Search : Table → List Entry → ℕ → Option LookupResult → Type 0
Search t es x r =
    ((e : Entry) × Has e es × (e.rva ≤ x) × IsLast es x e.rva × (r ≡ some (at_entry t.blob e x)))
    ⊎ (((e : Entry) → Has e es → x < e.rva) × (r ≡ some miss))

-- Past the test for an exact address, all entries from the bound on lie above the address.
before-Search :
    (t : Table) (es : List Entry) (x i : ℕ)
    → t.entries ≡ es ++ (sentinel t.blob ∷ [])
    → Ascends es
    → i ≤ length es
    → ((j : ℕ) (e : Entry) → i ≤ j → get_elem? es j ≡ some e → x < e.rva)
    → ((j : ℕ) (e : Entry) → j < i → get_elem? es j ≡ some e → e.rva < x)
    → Search t es x (before t i x)
unfolding before
before-Search t es x zero shape s b above below =
    inr ((λ e h. above (h.0) e (omega arith) (h.1)), refl)
before-Search t es x (suc i) shape s b above below =
    let (e, at) = get_elem?-some es i (omega arith) in
    let read : get_elem? t.entries i ≡ some e =
      ap (λ l. get_elem? l i) shape
      ∙ get_elem?-append_left es (sentinel t.blob ∷ []) i (omega arith)
      ∙ at in
    let lt = below i e (omega arith) at in
    inl (
      e,
      (i, at),
      omega (arith, lt),
      (λ d h le. elim (Bool-cases (leb (h.0) i)) [
        | inl low ↦ Ascends-at es (h.0) i d e s (leb→le _ _ low) (h.1) at
        | inr high ↦ absurd (omega (arith, le, above (h.0) d (omega (tests, high)) (h.1)))
      ]),
      rw read refl,
    )

==_ne : (a b : ℕ) → (a == b) ≡ false → a ≢ b
==_ne a b h e = ground (arith, h, e)

-- The search from its bound on, by what stands there.
bound-Search :
    (t : Table) (es : List Entry) (x : ℕ)
    → t.entries ≡ es ++ (sentinel t.blob ∷ [])
    → Ascends es
    → x < 0xFFFFFFFF
    → Search t es x (from_bound t (lower_bound es x) x (get_elem? t.entries (lower_bound es x)))
bound-Search t es x shape s small =
    let i = lower_bound es x in
    elim (Bool-cases (ltb i (length es))) [
      | inl lt ↦
          let (e, at) = get_elem?-some es i (ltb→lt _ _ lt) in
          let read : get_elem? t.entries i ≡ some e =
            ap (λ l. get_elem? l i) shape
            ∙ get_elem?-append_left es (sentinel t.blob ∷ []) i (ltb→lt _ _ lt)
            ∙ at in
          let le = lower_bound_above es x e at in
          subst (λ o. Search t es x (from_bound t i x o)) (sym read)
            (elim (Bool-cases (e.rva == x)) [
              | inl exact ↦
                  let same : e.rva ≡ x = (==_iff _ _).0 exact in
                  inl (
                    e,
                    (i, at),
                    omega (arith, same),
                    (λ d h k. omega (arith, same, k)),
                    rw exact refl,
                  )
              | inr other ↦
                  let apart : x < e.rva = omega (arith, ==_ne e.rva x other, le) in
                  subst (Search t es x) (rw other refl) (
                    before-Search t es x i shape s (lower_bound-le es x)
                      (λ j d l h. omega (arith, apart, Ascends-at es i j e d s l at h))
                      (λ j d l h. lower_bound_below es x j d l h))
            ])
      | inr ge ↦
          let end : i ≡ length es = omega (tests, ge, lower_bound-le es x) in
          let read : get_elem? t.entries i ≡ some (sentinel t.blob) =
            ap (λ l. get_elem? l i) shape
            ∙ ap (get_elem? (es ++ (sentinel t.blob ∷ []))) end
            ∙ get_elem?-append_at es (sentinel t.blob) in
          let apart : (0xFFFFFFFF == x) ≡ false = ground (arith, small) in
          subst (λ o. Search t es x (from_bound t i x o)) (sym read)
            (subst (Search t es x) (rw apart refl) (
              before-Search t es x i shape s (lower_bound-le es x)
                (λ j d l h. absurd (omega (arith, get_elem?_lt es j d h, end, l)))
                (λ j d l h. lower_bound_below es x j d l h)))
    ]

lookup-Search :
    (t : Table) (es : List Entry) (x : ℕ)
    → t.entries ≡ es ++ (sentinel t.blob ∷ [])
    → Ascends es
    → x < 0xFFFFFFFF
    → Search t es x (lookup t x)
unfolding lookup
lookup-Search t es x shape s small =
    let bound : lower_bound t.entries x ≡ lower_bound es x =
      ap (λ l. lower_bound l x) shape
      ∙ lower_bound-sentinel es (sentinel t.blob) x (omega (arith, small)) in
    subst (λ i. Search t es x (from_bound t i x (get_elem? t.entries i))) (sym bound)
      (bound-Search t es x shape s small)

-- The result for a symbol: none if its name is empty.
abbrev pub named : Bytes → ℕ → LookupResult
named [] offset = miss
named (c ∷ symbol) offset = record {
  found = true;
  symbol = c ∷ symbol;
  offset_into_function = offset;
}

at_entry-named :
    (blob : Bytes) (e : Entry) (a : Bytes × ℕ) (rva x : ℕ)
    → IsPlaceOf rva blob e a
    → at_entry blob e x ≡ named (a.0) (x - rva)
at_entry-named blob e ([], off) rva x p = rw p.2 refl
at_entry-named blob e (c ∷ symbol, off) rva x p =
    let some_ : (e.len == 0) ≡ false = ground (arith, p.2) in
    rw some_ (rw p.1 (ap (λ v. named (c ∷ symbol) (x - v)) p.0))

-- In the table of a file, the lookup of an address below 2^32 - 1 reads no place out of range. It
-- gives a symbol of the file at or below the address such that none at or below it lies nearer, with
-- the distance to it; nothing, if the name of that symbol is empty; and nothing where all symbols of
-- the file lie above the address.
pub lookup_nearest :
    (code_const : ℕ) (as_ : List (Bytes × ℕ)) (t : Table) (x : ℕ)
    → load code_const as_ ≡ some t
    → x < 0xFFFFFFFF
    → ((a : Bytes × ℕ) × Has a as_
        × (address code_const a ≤ x)
        × ((b : Bytes × ℕ)
            → Has b as_
            → address code_const b ≤ x
            → address code_const b ≤ address code_const a)
        × (lookup t x ≡ some (named (a.0) (x - address code_const a))))
      ⊎ (((a : Bytes × ℕ) → Has a as_ → x < address code_const a) × (lookup t x ≡ some miss))
lookup_nearest code_const as_ t x loaded small =
    let it = load-IsTable code_const as_ t loaded in
    elim (lookup-Search t it.sorted x it.shape it.ascends small) [
      | inl (e, h, le, last, r) ↦
          let (a, k, p) = it.sound e h in
          inl (
            a,
            k,
            omega (arith, le, p.0),
            (λ b m l.
                let (d, g, q) = it.complete b m in
                omega (arith, last d g (omega (arith, q.0, l)), q.0, p.0)),
            r ∙ ap some (at_entry-named t.blob e a (address code_const a) x p),
          )
      | inr (above, r) ↦
          inr ((λ a m. let (d, g, q) = it.complete a m in omega (arith, above d g, q.0)), r)
    ]
