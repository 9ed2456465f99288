-- ===== src/WrapChain/Chains.antt =====
-- src/snapshot/WrapChain.cpp, `CaptureWrapChains`: each chain holds the first layers of its method.
use redscope.Base.{
  ℕ, ◌≤◌, ◌<◌, ◌≡◌, refl, ap, subst, ◌∙◌, inl, inr, true, false, Option, none, some, List, [], ◌∷◌,
  ◌++◌, append-nil, append_assoc, arith, leb, tests, Bool-cases, Option-cases, Bytes, str_eq,
  str_eq_iff, length, length-append, take_all, IsDefined,
}
use redscope.Base.Sort.{insert, sort}
use redscope.WrapChain.{
  WrapChainEntry, WrapChainTable, PendingLayer, max_wrap_chains, no_chains, append_layer, append_to,
  new_chain, start_chain, with_chains, add_pending, add_all, build_chains, earlier, find_key,
  find_chain,
}
use redscope.WrapChain.Layers.{
  matching, IsChained, adjusted, matching-snoc, append_layer-Holds, append_layer-key,
  adjusted_other, append_to-none, append_to-some, find_key-snoc, find_key-some_snoc,
}

-- The table stays within its limit, and every method is served.
abbrev pub IsBuilt : List PendingLayer → WrapChainTable → Type 0
IsBuilt ps t =
    (length t.chains ≤ max_wrap_chains)
    × ((k : Bytes) → IsChained (matching k ps) (length t.chains) (find_key k t.chains))

adjusted-IsChained :
    (p : PendingLayer) (k : Bytes) (ms : List PendingLayer) (count : ℕ) (o : Option WrapChainEntry)
    → IsDefined o
    → str_eq p.method_key k ≡ true
    → IsChained ms count o
    → IsChained (ms ++ (p ∷ [])) count (adjusted p k o)
adjusted-IsChained p k ms count none d e h = absurd (ground (arith, d.1))
adjusted-IsChained p k ms count (some c) d e h = rw e (append_layer-Holds ms p c h)

appended-IsBuilt :
    (ps : List PendingLayer) (p : PendingLayer) (cs ds : List WrapChainEntry) (k : Bytes)
    → append_to p cs ≡ some ds
    → IsChained (matching k ps) (length cs) (find_key k cs)
    → IsChained (matching k (ps ++ (p ∷ []))) (length ds) (find_key k ds)
appended-IsBuilt ps p cs ds k e h =
    let a = append_to-some p cs ds e in
    elim (Bool-cases (str_eq p.method_key k)) [
      | inl same ↦
          let key : p.method_key ≡ k = (str_eq_iff p.method_key k).0 same in
          let d : IsDefined (find_key k cs) = rw⁻¹ key (a.1) in
          rw (matching-snoc k ps p, same, a.0, a.2 k)
            (adjusted-IsChained p k (matching k ps) (length cs) (find_key k cs) d same h)
      | inr other ↦
          rw
            (
              matching-snoc k ps p,
              other,
              append-nil (matching k ps),
              a.0,
              a.2 k,
              adjusted_other p k (find_key k cs) other,
            )
            h
    ]

-- A method other than that of the new chain.
unserved-IsChained :
    (ms : List PendingLayer) (cs : List WrapChainEntry) (c : WrapChainEntry) (k : Bytes)
    → length cs < max_wrap_chains
    → str_eq c.method_key k ≡ false
    → IsChained ms (length cs) (find_key k cs)
    → IsChained ms (length (cs ++ (c ∷ []))) (find_key k (cs ++ (c ∷ [])))
unserved-IsChained ms cs c k room other h = elim (Option-cases (find_key k cs)) [
  | inl n ↦
      let before : IsChained ms (length cs) none = subst (IsChained ms (length cs)) n h in
      rw (find_key-snoc k cs c n, other)
        (elim before [ inl e ↦ inl e | inr full ↦ absurd (omega (arith, full)) ])
  | inr (d, n) ↦
      let before : IsChained ms (length cs) (some d) = subst (IsChained ms (length cs)) n h in
      rw (find_key-some_snoc k cs c d n) before
]

-- The method of the new chain.
served-IsChained :
    (ms : List PendingLayer) (cs : List WrapChainEntry) (p : PendingLayer) (k : Bytes)
    → length cs < max_wrap_chains
    → length p.method_key ≤ 79
    → str_eq p.method_key k ≡ true
    → find_key k cs ≡ none
    → IsChained ms (length cs) (find_key k cs)
    → IsChained
        (ms ++ (p ∷ []))
        (length (cs ++ (append_layer p (new_chain p) ∷ [])))
        (find_key k (cs ++ (append_layer p (new_chain p) ∷ [])))
served-IsChained ms cs p k room short same n h =
    let before : IsChained ms (length cs) none = subst (IsChained ms (length cs)) n h in
    let nothing : ms ≡ [] = elim before [ inl e ↦ e | inr full ↦ absurd (omega (arith, full)) ] in
    let key : (append_layer p (new_chain p)).method_key ≡ p.method_key =
      append_layer-key p (new_chain p) ∙ take_all 79 p.method_key short in
    let found : str_eq (append_layer p (new_chain p)).method_key k ≡ true =
      ap (λ x. str_eq x k) key ∙ same in
    rw (find_key-snoc k cs (append_layer p (new_chain p)) n, found, nothing)
      (append_layer-Holds [] p (new_chain p) (refl, refl))

-- No chain has the key, and the table has room.
new_chain-IsBuilt :
    (ps : List PendingLayer) (p : PendingLayer) (cs : List WrapChainEntry) (k : Bytes)
    → length cs < max_wrap_chains
    → length p.method_key ≤ 79
    → find_key p.method_key cs ≡ none
    → IsChained (matching k ps) (length cs) (find_key k cs)
    → IsChained
        (matching k (ps ++ (p ∷ [])))
        (length (cs ++ (append_layer p (new_chain p) ∷ [])))
        (find_key k (cs ++ (append_layer p (new_chain p) ∷ [])))
new_chain-IsBuilt ps p cs k room short n h = elim (Bool-cases (str_eq p.method_key k)) [
  | inl same ↦
      let key : p.method_key ≡ k = (str_eq_iff p.method_key k).0 same in
      let nk : find_key k cs ≡ none = subst (λ x. find_key x cs ≡ none) key n in
      rw (matching-snoc k ps p, same) (served-IsChained (matching k ps) cs p k room short same nk h)
  | inr other ↦
      let key : (append_layer p (new_chain p)).method_key ≡ p.method_key =
        append_layer-key p (new_chain p) ∙ take_all 79 p.method_key short in
      let missed : str_eq (append_layer p (new_chain p)).method_key k ≡ false =
        ap (λ x. str_eq x k) key ∙ other in
      rw (matching-snoc k ps p, other, append-nil (matching k ps))
        (unserved-IsChained (matching k ps) cs (append_layer p (new_chain p)) k room missed h)
]

-- No chain has the key, and the table is full.
full-IsChained :
    (ps : List PendingLayer) (p : PendingLayer) (count : ℕ) (cs : List WrapChainEntry) (k : Bytes)
    → count ≡ max_wrap_chains
    → find_key p.method_key cs ≡ none
    → IsChained (matching k ps) count (find_key k cs)
    → IsChained (matching k (ps ++ (p ∷ []))) count (find_key k cs)
full-IsChained ps p count cs k full n h = elim (Option-cases (find_key k cs)) [
  | inl nk ↦ rw nk (inr full)
  | inr (d, nk) ↦ elim (Bool-cases (str_eq p.method_key k)) [
    | inl same ↦
        let key : p.method_key ≡ k = (str_eq_iff p.method_key k).0 same in
        let gone : find_key k cs ≡ none = subst (λ x. find_key x cs ≡ none) key n in
        absurd (ground (arith, gone, nk))
    | inr other ↦ rw (matching-snoc k ps p, other, append-nil (matching k ps)) h
  ]
]

start_chain-IsBuilt :
    (ps : List PendingLayer) (p : PendingLayer) (t : WrapChainTable)
    → length p.method_key ≤ 79
    → append_to p t.chains ≡ none
    → IsBuilt ps t
    → IsBuilt (ps ++ (p ∷ [])) (start_chain p t)
unfolding start_chain
start_chain-IsBuilt ps p t short e (small, served) =
    let n : find_key p.method_key t.chains ≡ none = append_to-none p t.chains e in
    elim (Bool-cases (leb max_wrap_chains (length t.chains))) [
      | inl full ↦
          let many : length t.chains ≡ max_wrap_chains = omega (tests, full, small) in
          rw full (small, λ k. full-IsChained ps p (length t.chains) t.chains k many n (served k))
      | inr room ↦
          let few : length t.chains < max_wrap_chains = omega (tests, room) in
          rw room (
            omega (arith, few, length-append t.chains (append_layer p (new_chain p) ∷ [])),
            λ k. new_chain-IsBuilt ps p t.chains k few short n (served k),
          )
    ]

with_chains-IsBuilt :
    (ps : List PendingLayer) (p : PendingLayer) (t : WrapChainTable)
    (o : Option (List WrapChainEntry))
    → length p.method_key ≤ 79
    → append_to p t.chains ≡ o
    → IsBuilt ps t
    → IsBuilt (ps ++ (p ∷ [])) (with_chains p t o)
unfolding with_chains
with_chains-IsBuilt ps p t none short e built = start_chain-IsBuilt ps p t short e built
with_chains-IsBuilt ps p t (some ds) short e built = (
  omega (arith, built.0, (append_to-some p t.chains ds e).0),
  λ k. appended-IsBuilt ps p t.chains ds k e (built.1 k),
)

add_pending-IsBuilt :
    (ps : List PendingLayer) (p : PendingLayer) (t : WrapChainTable)
    → length p.method_key ≤ 79
    → IsBuilt ps t
    → IsBuilt (ps ++ (p ∷ [])) (add_pending p t)
unfolding add_pending
add_pending-IsBuilt ps p t short built =
    with_chains-IsBuilt ps p t (append_to p t.chains) short refl built

-- Every key fits into its field.
abbrev pub AreShort : List PendingLayer → Type 0
AreShort [] = Unit
AreShort (p ∷ ps) = (length p.method_key ≤ 79) × AreShort ps

add_all-IsBuilt :
    (before ps : List PendingLayer) (t : WrapChainTable)
    → AreShort ps
    → IsBuilt before t
    → IsBuilt (before ++ ps) (add_all ps t)
unfolding add_all
add_all-IsBuilt before [] t short built = rw (append-nil before) built
add_all-IsBuilt before (p ∷ ps) t (short, shorts) built =
    let on : IsBuilt ((before ++ (p ∷ [])) ++ ps) (add_all ps (add_pending p t)) =
      add_all-IsBuilt (before ++ (p ∷ [])) ps (add_pending p t) shorts
        (add_pending-IsBuilt before p t short built) in
    subst (λ l. IsBuilt l (add_all ps (add_pending p t))) (append_assoc before (p ∷ []) ps) on

insert-AreShort :
    (p : PendingLayer) (ps : List PendingLayer)
    → length p.method_key ≤ 79
    → AreShort ps
    → AreShort (insert earlier p ps)
unfolding insert
insert-AreShort p [] h hs = (h, tt)
insert-AreShort p (q ∷ ps) h hs = elim (Bool-cases (earlier q p)) [
  | inl e ↦ rw e (hs.0, insert-AreShort p ps h hs.1)
  | inr e ↦ rw e (h, hs)
]

sort-AreShort : (ps : List PendingLayer) → AreShort ps → AreShort (sort earlier ps)
unfolding sort
sort-AreShort [] hs = tt
sort-AreShort (p ∷ ps) hs = insert-AreShort p (sort earlier ps) hs.0 (sort-AreShort ps hs.1)

-- Where every key has at most 79 bytes, at most 512 chains are built, and for every method, either
-- its chain is found and holds the first six of the method's layers in the order of file and line and
-- counts the others (modulo 2^32), or there is no chain for it, and then it has no layer or there are
-- 512 chains of other methods.
pub build_chains-IsBuilt :
    (pending : List PendingLayer)
    → AreShort pending
    → (length (build_chains pending).chains ≤ max_wrap_chains)
      × ((key : Bytes)
          → IsChained
              (matching key (sort earlier pending))
              (length (build_chains pending).chains)
              (find_chain (build_chains pending) (some key)))
unfolding build_chains find_chain
build_chains-IsBuilt pending short =
    add_all-IsBuilt [] (sort earlier pending) no_chains (sort-AreShort pending short)
      (omega arith, λ k. inl refl)
