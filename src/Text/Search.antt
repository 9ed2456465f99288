-- ===== src/Text/Search.antt =====
-- src/util/StringUtils.h: what the case-blind comparison and search decide.
use redscope.Base.{
  suc, ◌<◌, ◌≡◌, refl, sym, ap, ◌∙◌, ◌≢◌, ◌↔◌, ◌⊎◌, inl, inr, true, none, some, [], ◌∷◌, ◌++◌, map,
  arith, ◌==◌, Bool-cases, Bytes, CStr, length, length-append,
}
use redscope.Text.{to_lower_ascii, iequals_bytes, probe, Probe, icontains_bytes, icontains_ascii}

abbrev pub lowered : Bytes → Bytes
lowered = map to_lower_ascii

pub iequals_bytes_iff : (a b : Bytes) → (iequals_bytes a b ≡ true) ↔ (lowered a ≡ lowered b)
unfolding iequals_bytes
iequals_bytes_iff (x ∷ a) (y ∷ b) = ground (arith, iequals_bytes_iff a b)
iequals_bytes_iff _ _ = ground arith

-- The needle stands at the start of the text, whatever the case.
abbrev pub StartsWith : Bytes → Bytes → Type 0
StartsWith h n = (rest : Bytes) × (lowered h ≡ lowered n ++ rest)

probe-found : (h n : Bytes) → probe h n ≡ Probe.found → StartsWith h n
unfolding probe
probe-found h [] e = (lowered h, refl)
probe-found [] (n ∷ ns) e = cc
probe-found (h ∷ hs) (n ∷ ns) e = elim (Bool-cases (to_lower_ascii h == to_lower_ascii n)) [
  | inl same ↦ let (rest, e') = probe-found hs ns (ground arith) in (rest, ground arith)
  | inr other ↦ absurd (ground arith)
]

found-probe : (h n rest : Bytes) → lowered h ≡ lowered n ++ rest → probe h n ≡ Probe.found
unfolding probe
found-probe h [] rest e = refl
found-probe [] (n ∷ ns) rest e = cc
found-probe (h ∷ hs) (n ∷ ns) rest e = ground (arith, found-probe hs ns rest)

-- The needle stands somewhere in the text, whatever the case.
abbrev pub Contains : Bytes → Bytes → Type 0
Contains h n = (before after : Bytes) × (lowered h ≡ before ++ (lowered n ++ after))

probe-ended : (h n : Bytes) → probe h n ≡ Probe.ended → length h < length n
unfolding probe
probe-ended h [] e = cc
probe-ended [] (n ∷ ns) e = omega arith
probe-ended (h ∷ hs) (n ∷ ns) e = ground (arith, probe-ended hs ns)

length-lowered : (h : Bytes) → length (lowered h) ≡ length h
length-lowered [] = refl
length-lowered (x ∷ h) = ap suc (length-lowered h)

Probe-cases : (p : Probe) → (p ≡ Probe.ended) ⊎ ((p ≡ Probe.differs) ⊎ (p ≡ Probe.found))
Probe-cases Probe.ended = inl refl
Probe-cases Probe.differs = inr (inl refl)
Probe-cases Probe.found = inr (inr refl)

icontains-Contains : (h n : Bytes) → icontains_bytes h n ≡ true → Contains h n
unfolding icontains_bytes
icontains-Contains [] n e = cc
icontains-Contains (h ∷ hs) n e = elim (Probe-cases (probe (h ∷ hs) n)) [
  | inl p ↦ absurd (ground (arith, p))
  | inr (inl p) ↦
      let (before, after, e') = icontains-Contains hs n (ground (arith, p)) in
      (to_lower_ascii h ∷ before, after, ap (◌∷◌ (to_lower_ascii h)) e')
  | inr (inr p) ↦ let (rest, e') = probe-found (h ∷ hs) n p in ([], rest, e')
]

Contains-icontains :
    (h n before after : Bytes)
    → lowered h ≡ before ++ (lowered n ++ after)
    → 0 < length n
    → icontains_bytes h n ≡ true
unfolding icontains_bytes
Contains-icontains [] n [] after e l =
    absurd (omega (arith, ap length e, length-append (lowered n) after, length-lowered n))
Contains-icontains [] n (b ∷ before) after e l = cc
Contains-icontains (h ∷ hs) n [] after e l = rw (found-probe (h ∷ hs) n after e)
Contains-icontains (h ∷ hs) n (b ∷ before) after e l =
    let tail : lowered hs ≡ before ++ (lowered n ++ after) = ground arith in
    elim (Probe-cases (probe (h ∷ hs) n)) [
      | inl p ↦ absurd (
          omega (
            arith,
            probe-ended (h ∷ hs) n p,
            ap length tail,
            length-append before (lowered n ++ after),
            length-append (lowered n) after,
            length-lowered n,
            length-lowered hs,
          ))
      | inr (inl p) ↦ rw p (Contains-icontains hs n before after tail l)
      | inr (inr p) ↦ rw p
    ]

-- `IContainsAscii` finds a needle exactly where the haystack holds it in some case, and a null
-- pointer or an empty needle is in no haystack.
pub icontains_ascii_iff :
    (h n : CStr)
    → (icontains_ascii h n ≡ true)
      ↔ ((t u : Bytes) × (h ≡ some t) × (n ≡ some u) × (u ≢ []) × Contains t u)
unfolding icontains_ascii
icontains_ascii_iff none n = ((λ e. cc), λ x. cc (x.2))
icontains_ascii_iff (some h) none = ((λ e. cc), λ x. cc (x.3))
icontains_ascii_iff (some h) (some []) = ((λ e. cc), λ x. absurd (x.4 (ground (arith, x.3))))
icontains_ascii_iff (some h) (some (n ∷ ns)) = (
  (λ e. (h, n ∷ ns, refl, refl, (λ x. cc), icontains-Contains h (n ∷ ns) e)),
  λ x.
      let same : x.0 ≡ h = ground (arith, x.2) in
      let needle : x.1 ≡ n ∷ ns = ground (arith, x.3) in
      let e : lowered h ≡ x.5.0 ++ (lowered (n ∷ ns) ++ x.5.1) =
        ap lowered (sym same) ∙ x.5.2 ∙ ap (λ v. x.5.0 ++ (lowered v ++ x.5.1)) needle in
      Contains-icontains h (n ∷ ns) x.5.0 x.5.1 e (omega arith),
)
