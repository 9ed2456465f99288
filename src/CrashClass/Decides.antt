-- ===== src/CrashClass/Decides.antt =====
-- src/report/CrashClass.cpp, `ClassifyCrash`: what a scripted crash is.
use redscope.Base.{
  ℕ, zero, suc, ◌<◌, ◌≡◌, refl, sym, ap, subst, ◌∙◌, ◌≢◌, ◌↔◌, ◌⊎◌, inl, inr, true, false, Option,
  none, some, List, [], ◌∷◌, arith, Bool-cases, Bytes, CStr, All, codes,
}
use redscope.Text.{iequals_ascii, icontains_ascii}
use redscope.Text.Search.{lowered, Contains, iequals_bytes_iff, icontains_ascii_iff}
use redscope.CrashClass.{
  CrashClass, FrameView, is_red4ext_module, patterns, holds_any, is_script_runtime_symbol,
  classify_frames, classify_crash,
}

-- One of the elements has the property.
abbrev pub Any {ℓ} : {A : Type ℓ} → (A → Type 0) → List A → Type 0
Any P [] = ⊥
Any P (x ∷ xs) = P x ⊎ Any P xs

-- The frame lies in RED4ext.dll, or its symbol holds one of the names of the script runtime, both
-- whatever the case.
abbrev pub IsScriptFrame : FrameView → Type 0
IsScriptFrame f =
    ((n : Bytes) × (f.module_name ≡ some n) × (lowered n ≡ lowered (codes "RED4ext.dll")))
    ⊎ ((s : Bytes) × (f.symbol_name ≡ some s) × Any (Contains s) patterns)

is_red4ext_module_iff :
    (m : CStr)
    → (is_red4ext_module m ≡ true)
      ↔ ((n : Bytes) × (m ≡ some n) × (lowered n ≡ lowered (codes "RED4ext.dll")))
unfolding is_red4ext_module iequals_ascii
is_red4ext_module_iff none = ((λ e. cc), λ x. cc (x.1))
is_red4ext_module_iff (some n) = (
  (λ e. (n, refl, (iequals_bytes_iff n _).0 e)),
  λ x. let same : x.0 ≡ n = cc in (iequals_bytes_iff n _).1 (ap lowered (sym same) ∙ x.2),
)

icontains_pattern :
    (s p : Bytes) → p ≢ [] → (icontains_ascii (some s) (some p) ≡ true) ↔ Contains s p
icontains_pattern s p ne = (
  (λ e.
      let x = (icontains_ascii_iff (some s) (some p)).0 e in
      let at_s : x.0 ≡ s = let e0 = x.2 in cc in
      let at_p : x.1 ≡ p = let e1 = x.3 in cc in
      subst (λ v. Contains v p) at_s (subst (Contains x.0) at_p x.5)),
  λ c. (icontains_ascii_iff (some s) (some p)).1 (s, p, refl, refl, ne, c),
)

holds_any_iff :
    (s : Bytes) (pats : List Bytes)
    → All (λ p. p ≢ []) pats
    → (holds_any (some s) pats ≡ true) ↔ Any (Contains s) pats
unfolding holds_any
holds_any_iff s [] ne = ((λ e. cc), λ x. absurd x)
holds_any_iff s (p ∷ pats) ne = (
  (λ e. elim (Bool-cases (icontains_ascii (some s) (some p))) [
    | inl yes_ ↦ inl ((icontains_pattern s p ne.0).0 yes_)
    | inr no_ ↦ inr ((holds_any_iff s pats ne.1).0 (ground (arith, no_)))
  ]),
  λ x. elim x [
    | inl c ↦ rw ((icontains_pattern s p ne.0).1 c) refl
    | inr c ↦ let rest = (holds_any_iff s pats ne.1).1 c in ground (arith, rest)
  ],
)

patterns_nonempty : All (λ p. p ≢ []) patterns
patterns_nonempty = ((λ e. cc), ((λ e. cc), ((λ e. cc), ((λ e. cc), ((λ e. cc), ((λ e. cc), tt))))))

empty_holds_none : holds_any (some []) patterns ≡ false
unfolding holds_any icontains_ascii
empty_holds_none = refl

is_script_runtime_symbol_iff :
    (m : CStr)
    → (is_script_runtime_symbol m ≡ true) ↔ ((s : Bytes) × (m ≡ some s) × Any (Contains s) patterns)
unfolding is_script_runtime_symbol
is_script_runtime_symbol_iff none = ((λ e. cc), λ x. cc (x.1))
is_script_runtime_symbol_iff (some []) = (
  (λ e. cc),
  λ x.
      let same : x.0 ≡ [] = let e = x.1 in cc in
      let held =
        (holds_any_iff [] patterns patterns_nonempty).1
          (subst (λ v. Any (Contains v) patterns) same x.2) in
      absurd (ground (arith, held, empty_holds_none)),
)
is_script_runtime_symbol_iff (some (c ∷ s)) = (
  (λ e. (c ∷ s, refl, (holds_any_iff (c ∷ s) patterns patterns_nonempty).0 e)),
  λ x.
      let same : x.0 ≡ c ∷ s = let e = x.1 in cc in
      (holds_any_iff (c ∷ s) patterns patterns_nonempty).1
        (subst (λ v. Any (Contains v) patterns) same x.2),
)

classify_frames_iff :
    (fs : List FrameView) → (classify_frames fs ≡ CrashClass.scripted) ↔ Any IsScriptFrame fs
unfolding classify_frames
classify_frames_iff [] = ((λ e. cc), λ x. absurd x)
classify_frames_iff (f ∷ fs) = (
  (λ e. elim (Bool-cases (is_red4ext_module f.module_name)) [
    | inl red ↦ inl (inl ((is_red4ext_module_iff f.module_name).0 red))
    | inr other ↦ elim (Bool-cases (is_script_runtime_symbol f.symbol_name)) [
      | inl sym_ ↦ inl (inr ((is_script_runtime_symbol_iff f.symbol_name).0 sym_))
      | inr plain ↦ inr ((classify_frames_iff fs).0 (ground (arith, e, other, plain)))
    ]
  ]),
  λ x. elim x [
    | inl (inl red) ↦ rw ((is_red4ext_module_iff f.module_name).1 red) refl
    | inl (inr sym_) ↦
        let h = (is_script_runtime_symbol_iff f.symbol_name).1 sym_ in ground (arith, h)
    | inr on ↦ let h = (classify_frames_iff fs).1 on in ground (arith, h)
  ],
)

classify_frames_known : (fs : List FrameView) → classify_frames fs ≢ CrashClass.unknown
unfolding classify_frames
classify_frames_known [] e = cc
classify_frames_known (f ∷ fs) e = ground (arith, e, classify_frames_known fs)

-- When a crash is scripted, and when it is unknown.
abbrev pub IsClassified : Option (List FrameView) → ℕ → CrashClass → Type 0
IsClassified frames depth c =
    ((c ≡ CrashClass.scripted)
      ↔ ((0 < depth) ⊎ ((fs : List FrameView) × (frames ≡ some fs) × Any IsScriptFrame fs)))
    × ((c ≡ CrashClass.unknown) ↔ ((depth ≡ 0) × ((frames ≡ none) ⊎ (frames ≡ some []))))

-- A crash is scripted exactly where the script stack is not empty or a frame of the native stack
-- is one of RED4ext.dll or of the script runtime. It is unknown exactly where the script stack is
-- empty and there are no native frames.
classify_crash_iff :
    (frames : Option (List FrameView)) (depth : ℕ)
    → IsClassified frames depth (classify_crash frames depth)
unfolding classify_crash
classify_crash_iff frames (suc d) = (
  ((λ e. inl (omega arith)), λ x. ground arith),
  ((λ e. absurd (ground (arith, e))), λ x. absurd (omega (arith, x.0))),
)
classify_crash_iff none zero = (
  ((λ e. cc), λ x. elim x [ inl lt ↦ absurd (omega arith) | inr y ↦ let e = y.1 in cc ]),
  ((λ e. (refl, inl refl)), λ x. refl),
)
classify_crash_iff (some []) zero = (
  (
    (λ e. cc),
    λ x. elim x [
      | inl lt ↦ absurd (omega arith)
      | inr y ↦
          let same : y.0 ≡ [] = let e = y.1 in cc in absurd (subst (Any IsScriptFrame) same y.2)
    ],
  ),
  ((λ e. (refl, inr refl)), λ x. refl),
)
classify_crash_iff (some (f ∷ fs)) zero = (
  (
    (λ e. inr (f ∷ fs, refl, (classify_frames_iff (f ∷ fs)).0 e)),
    λ x. elim x [
      | inl lt ↦ absurd (omega arith)
      | inr y ↦
          let same : y.0 ≡ f ∷ fs = let e = y.1 in cc in
          (classify_frames_iff (f ∷ fs)).1 (subst (Any IsScriptFrame) same y.2)
    ],
  ),
  ((λ e. absurd (classify_frames_known (f ∷ fs) e)), λ x. elim x.1 [ inl e ↦ cc | inr e ↦ cc ]),
)
