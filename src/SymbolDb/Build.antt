-- ===== src/SymbolDb/Build.antt =====
-- src/symbols/SymbolDb.cpp, `LoadThread`: the table holds the symbols of the file, in order of address.
use mathlib.Core.List.{Permᴰ}
use redscope.Base.{
  ℕ, zero, suc, ◌+◌, ◌-◌, ◌%◌, ◌^◌, ◌≤◌, ◌≡◌, refl, sym, ap, subst, ◌∙◌, inl, inr, Option, some,
  List, [], ◌∷◌, ◌++◌, map, append-nil, append_assoc, arith, ltb, tests, Bool-cases, Option-cases,
  Bytes, length, get_elem?, take, drop, All,
}
use redscope.Base.Sort.{insert, sort, sort-Permᴰ_self}
use redscope.SymbolDb.{
  Entry, Table, collect, relocated, by_rva, sentinel, finish_table, load, text_at,
}

-- The element is in the list.
abbrev pub Has {ℓ} : {A : Type ℓ} → A → List A → Type ℓ
Has a xs = (i : ℕ) × (get_elem? xs i ≡ some a)

pub Has-Permᴰ {ℓ} : {A : Type ℓ} {xs ys : List A} (a : A) → Permᴰ xs ys → Has a xs → Has a ys
Has-Permᴰ a Permᴰ.nil h = h
Has-Permᴰ a (Permᴰ.cons e p) (zero, h) = (0, ap some (sym e) ∙ h)
Has-Permᴰ a (Permᴰ.cons e p) (suc i, h) = let (j, k) = Has-Permᴰ a p (i, h) in (suc j, k)
Has-Permᴰ a (Permᴰ.swap e f) (zero, h) = (1, ap some (sym e) ∙ h)
Has-Permᴰ a (Permᴰ.swap e f) (suc zero, h) = (0, ap some (sym f) ∙ h)
Has-Permᴰ a (Permᴰ.swap e f) (suc (suc i), h) = (suc (suc i), h)
Has-Permᴰ a (Permᴰ.trans p q) h = Has-Permᴰ a q (Has-Permᴰ a p h)

Permᴰ-sym {ℓ} : {A : Type ℓ} {xs ys : List A} → Permᴰ xs ys → Permᴰ ys xs
Permᴰ-sym Permᴰ.nil = Permᴰ.nil
Permᴰ-sym (Permᴰ.cons e p) = Permᴰ.cons (sym e) (Permᴰ-sym p)
Permᴰ-sym (Permᴰ.swap e f) = Permᴰ.swap (sym f) (sym e)
Permᴰ-sym (Permᴰ.trans p q) = Permᴰ.trans (Permᴰ-sym q) (Permᴰ-sym p)

-- In order of address.
abbrev pub Ascends : List Entry → Type 0
Ascends [] = Unit
Ascends (e ∷ es) = All (λ d. e.rva ≤ d.rva) es × Ascends es

All-insert :
    (P : Entry → Type 0) (e : Entry) (es : List Entry) → P e → All P es → All P (insert by_rva e es)
unfolding insert
All-insert P e [] p h = (p, tt)
All-insert P e (d ∷ es) p h = elim (Bool-cases (by_rva d e)) [
  | inl k ↦ rw k (h.0, All-insert P e es p h.1)
  | inr k ↦ rw k (p, h)
]

All-le : (m n : ℕ) (es : List Entry) → m ≤ n → All (λ d. n ≤ d.rva) es → All (λ d. m ≤ d.rva) es
All-le m n [] l h = tt
All-le m n (e ∷ es) l h = (omega (arith, l, h.0), All-le m n es l h.1)

insert-Ascends : (e : Entry) (es : List Entry) → Ascends es → Ascends (insert by_rva e es)
unfolding insert
insert-Ascends e [] s = (tt, tt)
insert-Ascends e (d ∷ es) s = elim (Bool-cases (by_rva d e)) [
  | inl k ↦ rw k (All-insert _ e es (omega (tests, k)) s.0, insert-Ascends e es s.1)
  | inr k ↦
      let le : e.rva ≤ d.rva = omega (tests, k) in rw k ((le, All-le e.rva d.rva es le s.0), s)
]

pub sort-Ascends : (es : List Entry) → Ascends (sort by_rva es)
unfolding sort
sort-Ascends [] = tt
sort-Ascends (e ∷ es) = insert-Ascends e (sort by_rva es) (sort-Ascends es)

slice : (xs ys zs : Bytes) → take (length ys) (drop (length xs) ((xs ++ ys) ++ zs)) ≡ ys
slice [] [] zs = refl
slice [] (y ∷ ys) zs = ap (◌∷◌ y) (slice [] ys zs)
slice (x ∷ xs) ys zs = slice xs ys zs

-- Entry by entry, the places hold the symbols and offsets of the file.
abbrev Matches : List (Bytes × ℕ) → List Entry → Bytes → Type 0
Matches [] es blob = es ≡ []
Matches (a ∷ as_) [] blob = ⊥
Matches (a ∷ as_) (e ∷ es) blob =
    (e.rva ≡ a.1) × (text_at blob e ≡ a.0) × (e.len ≡ length (a.0)) × Matches as_ es blob

-- A load matches the file, and its blob starts with what was there.
abbrev IsLoaded : Bytes → List (Bytes × ℕ) → List Entry × Bytes → Type 0
IsLoaded blob as_ r = Matches as_ (r.0) (r.1) × ((rest : Bytes) × (r.1 ≡ blob ++ rest))

collect-IsLoaded :
    (blob : Bytes) (as_ : List (Bytes × ℕ)) (r : List Entry × Bytes)
    → collect blob as_ ≡ some r
    → IsLoaded blob as_ r
unfolding collect
collect-IsLoaded blob [] r e =
    let same : ◌≡◌ {A = List Entry × Bytes} ([], blob) r = cc in
    (sym (ap (λ p. p.0) same), ([], sym (ap (λ p. p.1) same) ∙ sym (append-nil blob)))
collect-IsLoaded blob ((s, off) ∷ as_) r e =
    elim (Bool-cases (ltb (2 ^ 32 - 1) (length blob + length s))) [
      | inl large ↦ absurd (ground (arith, e, large))
      | inr fits ↦ elim (Option-cases (collect (blob ++ s) as_)) [
        | inl n ↦ absurd (ground (arith, e, fits, n))
        | inr (q, n) ↦
            let first : Entry = record { rva = off; start = length blob; len = length s } in
            let is : ◌≡◌ {A = Option (List Entry × Bytes)} (some (first ∷ q.0, q.1)) (some r) =
              ground (arith, e, fits, n) in
            let same : ◌≡◌ {A = List Entry × Bytes} (first ∷ q.0, q.1) r = cc in
            let (m, (rest, k)) = collect-IsLoaded (blob ++ s) as_ q n in
            let text : text_at (q.1) first ≡ s =
              ap (λ b. take (length s) (drop (length blob) b)) k ∙ slice blob s rest in
            subst (IsLoaded blob ((s, off) ∷ as_)) same
              ((refl, text, refl, m), (s ++ rest, k ∙ append_assoc blob s rest))
      ]
    ]

-- An entry is the place of a symbol of the file.
abbrev pub IsPlaceOf : ℕ → Bytes → Entry → Bytes × ℕ → Type 0
IsPlaceOf rva blob e a = (e.rva ≡ rva) × (text_at blob e ≡ a.0) × (e.len ≡ length (a.0))

Matches-entry :
    (as_ : List (Bytes × ℕ)) (es : List Entry) (blob : Bytes) (e : Entry)
    → Matches as_ es blob
    → Has e es
    → (a : Bytes × ℕ) × Has a as_ × IsPlaceOf (a.1) blob e a
Matches-entry [] es blob e m (i, h) = absurd (empty es i m h)
  where
    empty : (es : List Entry) (i : ℕ) → es ≡ [] → ¬ (get_elem? es i ≡ some e)
    empty [] i m h = cc
    empty (d ∷ es) i m h = cc
Matches-entry (a ∷ as_) [] blob e m h = absurd m
Matches-entry (a ∷ as_) (d ∷ es) blob e m (zero, h) =
    let same : d ≡ e = cc in
    (a, (0, refl), subst (λ v. IsPlaceOf (a.1) blob v a) same (m.0, m.1, m.2))
Matches-entry (a ∷ as_) (d ∷ es) blob e m (suc i, h) =
    let (b, (j, k), p) = Matches-entry as_ es blob e m.3 (i, h) in (b, (suc j, k), p)

Matches-address :
    (as_ : List (Bytes × ℕ)) (es : List Entry) (blob : Bytes) (a : Bytes × ℕ)
    → Matches as_ es blob
    → Has a as_
    → (e : Entry) × Has e es × IsPlaceOf (a.1) blob e a
Matches-address [] es blob a m (i, h) = cc
Matches-address (b ∷ as_) [] blob a m h = absurd m
Matches-address (b ∷ as_) (d ∷ es) blob a m (zero, h) =
    let same : b ≡ a = cc in
    (d, (0, refl), subst (λ v. IsPlaceOf (v.1) blob d v) same (m.0, m.1, m.2))
Matches-address (b ∷ as_) (d ∷ es) blob a m (suc i, h) =
    let (e, (j, k), p) = Matches-address as_ es blob a m.3 (i, h) in (e, (suc j, k), p)

Has-map :
    {A : Type 0} {B : Type 0} (f : A → B) (xs : List A) (b : B)
    → Has b (map f xs)
    → (a : A) × Has a xs × (f a ≡ b)
Has-map f [] b (i, h) = cc
Has-map f (x ∷ xs) b (zero, h) = let same : f x ≡ b = cc in (x, (0, refl), same)
Has-map f (x ∷ xs) b (suc i, h) = let (a, (j, k), e) = Has-map f xs b (i, h) in (a, (suc j, k), e)

map-Has :
    {A : Type 0} {B : Type 0} (f : A → B) (xs : List A) (a : A) → Has a xs → Has (f a) (map f xs)
map-Has f [] a (i, h) = cc
map-Has f (x ∷ xs) a (zero, h) = let same : x ≡ a = cc in (0, ap (λ v. some (f v)) same)
map-Has f (x ∷ xs) a (suc i, h) = let (j, k) = map-Has f xs a (i, h) in (suc j, k)

-- The address of a symbol in the running game.
abbrev pub address : ℕ → Bytes × ℕ → ℕ
address code_const a = (a.1 + code_const) % 2 ^ 32

-- What a table promises of the file that it was loaded from.
pub record IsTable (code_const : ℕ) (as_ : List (Bytes × ℕ)) (t : Table) : Type 0 where
  pub sorted : List Entry
  pub shape : t.entries ≡ sorted ++ (sentinel t.blob ∷ [])
  pub ascends : Ascends sorted
  pub sound :
      (e : Entry)
      → Has e sorted
      → (a : Bytes × ℕ) × Has a as_ × IsPlaceOf (address code_const a) t.blob e a
  pub complete :
      (a : Bytes × ℕ)
      → Has a as_
      → (e : Entry) × Has e sorted × IsPlaceOf (address code_const a) t.blob e a

finish_table-IsTable :
    (code_const : ℕ) (as_ : List (Bytes × ℕ)) (r : List Entry × Bytes)
    → Matches as_ (r.0) (r.1)
    → IsTable code_const as_ (finish_table code_const r)
unfolding finish_table
finish_table-IsTable code_const as_ r m = record {
  sorted = sort by_rva (map (relocated code_const) (r.0));
  shape = refl;
  ascends = sort-Ascends (map (relocated code_const) (r.0));
  sound = λ e h.
      let (d, at, same) =
        Has-map (relocated code_const) (r.0) e
          (Has-Permᴰ e (sort-Permᴰ_self by_rva (map (relocated code_const) (r.0))) h) in
      let (a, k, p) = Matches-entry as_ (r.0) (r.1) d m at in
      (
        a,
        k,
        subst (λ v. IsPlaceOf (address code_const a) (r.1) v a) same
            (ap (λ v. (v + code_const) % 2 ^ 32) p.0, p.1, p.2),
      );
  complete = λ a h.
      let (e, at, p) = Matches-address as_ (r.0) (r.1) a m h in
      (
        relocated code_const e,
        Has-Permᴰ _ (Permᴰ-sym (sort-Permᴰ_self by_rva (map (relocated code_const) (r.0))))
            (map-Has (relocated code_const) (r.0) e at),
        (ap (λ v. (v + code_const) % 2 ^ 32) p.0, p.1, p.2),
      );
}

pub load-IsTable :
    (code_const : ℕ) (as_ : List (Bytes × ℕ)) (t : Table)
    → load code_const as_ ≡ some t
    → IsTable code_const as_ t
unfolding load
load-IsTable code_const as_ t e = elim (Option-cases (collect [] as_)) [
  | inl n ↦ absurd (ground (arith, e, n))
  | inr (r, n) ↦
      let is : some (finish_table code_const r) ≡ some t = ground (arith, e, n) in
      let same : finish_table code_const r ≡ t = cc in
      subst (IsTable code_const as_) same
        (finish_table-IsTable code_const as_ r (collect-IsLoaded [] as_ r n).0)
]
