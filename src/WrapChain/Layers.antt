-- ===== src/WrapChain/Layers.antt =====
-- src/snapshot/WrapChain.cpp, `AppendLayer` and `FindOrCreateChain`: what an append does to the layers
-- of a chain, and to the chains of a table.
use redscope.Base.{
  ℕ, zero, suc, ◌+◌, ◌-◌, ◌%◌, ◌^◌, ◌≤◌, ◌<◌, min, ◌≡◌, refl, sym, ap, ◌∙◌, ◌⊎◌, inl, inr, true,
  false, Option, none, some, List, [], ◌∷◌, ◌++◌, map, arith, leb, if◌then◌else◌, tests, Bool-cases,
  Option-cases, Bytes, str_eq, str_eq_iff, str_eq_sym, length, take, length-append, length-take,
  IsDefined,
}
use redscope.WrapChain.{
  WrapLayer, WrapChainEntry, PendingLayer, max_wrap_layers, max_wrap_chains, append_layer,
  append_to, find_key,
}

-- The pending layers of a method, in order.
abbrev pub matching : Bytes → List PendingLayer → List PendingLayer
matching k [] = []
matching k (p ∷ ps) = let rest = matching k ps in if str_eq p.method_key k then p ∷ rest else rest

abbrev pub as_layer : PendingLayer → WrapLayer
as_layer p = record {
  mod_name = take 31 p.mod_name;
  rel_file = take 95 p.rel_file;
  line_number = p.line_number;
}

-- What a chain holds of the layers of its method.
abbrev pub Holds : List PendingLayer → WrapChainEntry → Type 0
Holds ms c =
    (c.layers ≡ take max_wrap_layers (map as_layer ms))
    × (c.extra_layers ≡ (length ms - max_wrap_layers) % 2 ^ 32)

-- A method has a chain that holds its layers, or no layer at all unless the table is full.
abbrev pub IsChained : List PendingLayer → ℕ → Option WrapChainEntry → Type 0
IsChained ms count none = (ms ≡ []) ⊎ (count ≡ max_wrap_chains)
IsChained ms count (some c) = Holds ms c

pub matching-snoc :
    (k : Bytes) (ps : List PendingLayer) (p : PendingLayer)
    → matching k (ps ++ (p ∷ [])) ≡ matching k ps ++ (if str_eq p.method_key k then p ∷ [] else [])
matching-snoc k [] p = refl
matching-snoc k (q ∷ ps) p = elim (Bool-cases (str_eq q.method_key k)) [
  | inl e ↦ rw e (ap (◌∷◌ q) (matching-snoc k ps p))
  | inr e ↦ rw e (matching-snoc k ps p)
]

length-map-layer : (ms : List PendingLayer) → length (map as_layer ms) ≡ length ms
length-map-layer [] = refl
length-map-layer (m ∷ ms) = ap suc (length-map-layer ms)

take_full :
    (n : ℕ) (ms : List PendingLayer) (p : PendingLayer)
    → n ≤ length ms
    → take n (map as_layer (ms ++ (p ∷ []))) ≡ take n (map as_layer ms)
take_full zero ms p l = refl
take_full (suc n) [] p l = absurd (omega arith)
take_full (suc n) (m ∷ ms) p l = ap (◌∷◌ (as_layer m)) (take_full n ms p (omega arith))

take_room :
    (n : ℕ) (ms : List PendingLayer) (p : PendingLayer)
    → length ms < n
    → take n (map as_layer (ms ++ (p ∷ []))) ≡ take n (map as_layer ms) ++ (as_layer p ∷ [])
take_room zero ms p l = absurd (omega arith)
take_room (suc zero) [] p l = refl
take_room (suc (suc n)) [] p l = refl
take_room (suc n) (m ∷ ms) p l = ap (◌∷◌ (as_layer m)) (take_room n ms p (omega arith))

pub append_layer-Holds :
    (ms : List PendingLayer) (p : PendingLayer) (c : WrapChainEntry)
    → Holds ms c
    → Holds (ms ++ (p ∷ [])) (append_layer p c)
unfolding append_layer
append_layer-Holds ms p c h =
    let count : length c.layers ≡ min max_wrap_layers (length ms) =
      omega (
        arith,
        ap length h.0,
        length-take max_wrap_layers (map as_layer ms),
        length-map-layer ms,
      ) in
    let one_more : length (ms ++ (p ∷ [])) ≡ length ms + 1 =
      omega (arith, length-append ms (p ∷ [])) in
    elim (Bool-cases (leb max_wrap_layers (length c.layers))) [
      | inl full ↦
          let many : max_wrap_layers ≤ length ms = omega (tests, full, count) in
          rw full
            (h.0 ∙ sym (take_full max_wrap_layers ms p many), omega (arith, h.1, one_more, many))
      | inr room ↦
          let few : length ms < max_wrap_layers = omega (tests, room, count) in
          rw room (
            ap (λ l. l ++ (as_layer p ∷ [])) h.0 ∙ sym (take_room max_wrap_layers ms p few),
            omega (arith, h.1, one_more, few),
          )
    ]

pub append_layer-key :
    (p : PendingLayer) (c : WrapChainEntry) → (append_layer p c).method_key ≡ c.method_key
unfolding append_layer
append_layer-key p c = elim (Bool-cases (leb max_wrap_layers (length c.layers))) [
  | inl full ↦ rw full refl
  | inr room ↦ rw room refl
]

-- What an append does to the chain of a key.
abbrev pub adjusted : PendingLayer → Bytes → Option WrapChainEntry → Option WrapChainEntry
adjusted p k none = none
adjusted p k (some c) = if str_eq p.method_key k then some (append_layer p c) else some c

pub append_to-none :
    (p : PendingLayer) (cs : List WrapChainEntry)
    → append_to p cs ≡ none
    → find_key p.method_key cs ≡ none
unfolding append_to
append_to-none p [] e = refl
append_to-none p (c ∷ cs) e = elim (Bool-cases (str_eq c.method_key p.method_key)) [
  | inl same ↦ absurd (ground (arith, e, same))
  | inr other ↦ elim (Option-cases (append_to p cs)) [
    | inl n ↦ rw other (append_to-none p cs n)
    | inr (ds, n) ↦ absurd (ground (arith, e, other, n))
  ]
]

pub adjusted_other :
    (p : PendingLayer) (k : Bytes) (o : Option WrapChainEntry)
    → str_eq p.method_key k ≡ false
    → adjusted p k o ≡ o
adjusted_other p k none e = refl
adjusted_other p k (some c) e = rw e refl

-- The chain that an append changes is the one of the key.
append_head :
    (p : PendingLayer) (c : WrapChainEntry) (cs : List WrapChainEntry) (k : Bytes)
    → str_eq c.method_key p.method_key ≡ true
    → find_key k (append_layer p c ∷ cs) ≡ adjusted p k (find_key k (c ∷ cs))
append_head p c cs k same =
    let keys : c.method_key ≡ p.method_key = (str_eq_iff c.method_key p.method_key).0 same in
    elim (Bool-cases (str_eq p.method_key k)) [
      | inl e ↦
          let found : str_eq c.method_key k ≡ true = ap (λ key. str_eq key k) keys ∙ e in
          simp (append_layer-key p c, found, e)
      | inr e ↦
          let missed : str_eq c.method_key k ≡ false = ap (λ key. str_eq key k) keys ∙ e in
          rw (append_layer-key p c, missed) (sym (adjusted_other p k (find_key k cs) e))
    ]

append_tail :
    (p : PendingLayer) (c : WrapChainEntry) (cs ds : List WrapChainEntry) (k : Bytes)
    → str_eq c.method_key p.method_key ≡ false
    → find_key k ds ≡ adjusted p k (find_key k cs)
    → find_key k (c ∷ ds) ≡ adjusted p k (find_key k (c ∷ cs))
append_tail p c cs ds k other h = elim (Bool-cases (str_eq c.method_key k)) [
  | inl e ↦
      let apart : str_eq p.method_key k ≡ false =
        ground (arith, other, e, str_eq_iff c.method_key k, str_eq_sym p.method_key c.method_key) in
      rw (e, apart) refl
  | inr e ↦ rw e h
]

pub append_to-some :
    (p : PendingLayer) (cs ds : List WrapChainEntry)
    → append_to p cs ≡ some ds
    → (length ds ≡ length cs)
      × IsDefined (find_key p.method_key cs)
      × ((k : Bytes) → find_key k ds ≡ adjusted p k (find_key k cs))
unfolding append_to
append_to-some p [] ds e = cc
append_to-some p (c ∷ cs) ds e = elim (Bool-cases (str_eq c.method_key p.method_key)) [
  | inl same ↦
      let r : ds ≡ append_layer p c ∷ cs = ground (arith, e, same) in
      rw r (refl, (c, rw same refl), λ k. append_head p c cs k same)
  | inr other ↦ elim (Option-cases (append_to p cs)) [
    | inl n ↦ absurd (ground (arith, e, other, n))
    | inr (es, n) ↦
        let r : ds ≡ c ∷ es = ground (arith, e, other, n) in
        let h = append_to-some p cs es n in
        rw r (ap suc h.0, (h.1.0, rw other (h.1.1)), λ k. append_tail p c cs es k other (h.2 k))
  ]
]

pub find_key-snoc :
    (k : Bytes) (cs : List WrapChainEntry) (c : WrapChainEntry)
    → find_key k cs ≡ none
    → find_key k (cs ++ (c ∷ [])) ≡ (if str_eq c.method_key k then some c else none)
find_key-snoc k [] c e = refl
find_key-snoc k (d ∷ cs) c e = elim (Bool-cases (str_eq d.method_key k)) [
  | inl same ↦ absurd (ground (arith, e, same))
  | inr other ↦ rw other (find_key-snoc k cs c (ground (arith, e, other)))
]

pub find_key-some_snoc :
    (k : Bytes) (cs : List WrapChainEntry) (c d : WrapChainEntry)
    → find_key k cs ≡ some d
    → find_key k (cs ++ (c ∷ [])) ≡ some d
find_key-some_snoc k [] c d e = absurd (ground (arith, e))
find_key-some_snoc k (x ∷ cs) c d e = elim (Bool-cases (str_eq x.method_key k)) [
  | inl same ↦ rw same (ground (arith, e, same))
  | inr other ↦ rw other (find_key-some_snoc k cs c d (ground (arith, e, other)))
]
