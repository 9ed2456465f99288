-- ===== src/CleanSlate/Leftover.antt =====
-- src/cleanslate/CleanCore.cpp, the lambda `classify` of `Scan`: which files are accounted for, told without
-- its branches.
use redscope.Base.{
  ◌≡◌, refl, subst, ◌⊎◌, inl, inr, Bool, true, false, Option, none, some, List, [], ◌∷◌, Bool-cases,
  Bytes, str_eq, str_eq_iff,
}
use redscope.CleanSlate.{
  Manager, none_found, mo2, vortex, FileClass, loose, ScannedFile, norm_rel, is_one_of,
  is_framework, FoundFile, ScanContext, is_vortex, is_mo2, has_sources, find_source, by_source,
  by_overlay, by_place, unmanaged, judge_file, file_class, is_skipped,
}

-- A path stands in the overlay.
abbrev pub Has : Bytes → List Bytes → Type 0
Has s [] = ⊥
Has s (t ∷ ts) = (s ≡ t) ⊎ Has s ts

-- A path stands in the manifest, with a mod.
abbrev pub HasSource : Bytes → List (Bytes × Bytes) → Type 0
HasSource s [] = ⊥
HasSource s (e ∷ es) = (e.0 ≡ s) ⊎ HasSource s es

-- What accounts for a file: it is passed over; it is a framework's; an overlay is known, and has its path;
-- or none is known, and the manifest of Vortex has the path, or MO2 manages the game and the file does not
-- lie in the game's folder.
pub data IsAccounted (ctx : ScanContext) (f : FoundFile) : Type 0 where
  passed_over : is_skipped f ≡ true → IsAccounted ctx f
  framework : is_framework f.name_lower ≡ true → IsAccounted ctx f
  overlaid :
      (overlay : List Bytes)
      → ctx.mo2_overlay ≡ some overlay
      → Has (norm_rel f.rel_path) overlay
      → IsAccounted ctx f
  deployed :
      ctx.mo2_overlay ≡ none
      → ctx.manager ≡ vortex
      → HasSource (norm_rel f.rel_path) ctx.sources
      → IsAccounted ctx f
  redirected : ctx.mo2_overlay ≡ none → ctx.manager ≡ mo2 → f.physical ≡ false → IsAccounted ctx f

-- What is listed of a file that is left over.
pub record IsListedAs (f : FoundFile) (sf : ScannedFile) : Type 0 where
  pub path : sf.rel_path ≡ f.rel_path
  pub kind : sf.cls ≡ loose
  pub no_mod : sf.source_mod ≡ []

-- The second list has the files of the first that nothing accounts for, in their order.
pub data AreLeftovers (ctx : ScanContext) : List FoundFile → List ScannedFile → Type 0 where
  nothing : AreLeftovers ctx [] []
  accounted :
      (f : FoundFile) (fs : List FoundFile) (out : List ScannedFile)
      → IsAccounted ctx f
      → AreLeftovers ctx fs out
      → AreLeftovers ctx (f ∷ fs) out
  left_over :
      (f : FoundFile) (sf : ScannedFile) (fs : List FoundFile) (out : List ScannedFile)
      → ¬ IsAccounted ctx f
      → IsListedAs f sf
      → AreLeftovers ctx fs out
      → AreLeftovers ctx (f ∷ fs) (sf ∷ out)

abbrev pub is_loose : FileClass → Bool
is_loose loose = true
is_loose _ = false

is_one_of-Has :
    (s : Bytes) (ts : List Bytes)
    → ((is_one_of s ts ≡ true) × Has s ts) ⊎ ((is_one_of s ts ≡ false) × ¬ Has s ts)
unfolding is_one_of
is_one_of-Has s [] = inr (refl, λ h. h)
is_one_of-Has s (t ∷ ts) = elim (Bool-cases (str_eq s t)) [
  | inl e ↦ rw e (inl (refl, inl ((str_eq_iff s t).0 e)))
  | inr e ↦ elim (is_one_of-Has s ts) [
    | inl (a, h) ↦ rw (e, a) (inl (refl, inr h))
    | inr (a, h) ↦
        rw (e, a)
          (inr (
            refl,
            λ k. elim k [ inl q ↦ let y = (str_eq_iff s t).1 q in absurd (cc) | inr q ↦ h q ],
          ))
  ]
]

find_source-HasSource :
    (s : Bytes) (es : List (Bytes × Bytes))
    → ((m : Bytes) × (find_source s es ≡ some m) × HasSource s es)
      ⊎ ((find_source s es ≡ none) × ¬ HasSource s es)
unfolding find_source
find_source-HasSource s [] = inr (refl, λ h. h)
find_source-HasSource s ((r, m) ∷ es) = elim (Bool-cases (str_eq r s)) [
  | inl e ↦ rw e (inl (m, refl, inl ((str_eq_iff r s).0 e)))
  | inr e ↦ elim (find_source-HasSource s es) [
    | inl (n, a, h) ↦ rw (e, a) (inl (n, refl, inr h))
    | inr (a, h) ↦
        rw (e, a)
          (inr (
            refl,
            λ k. elim k [ inl q ↦ let y = (str_eq_iff r s).1 q in absurd (cc) | inr q ↦ h q ],
          ))
  ]
]

abbrev Outcome : ScanContext → FoundFile → ScannedFile → Type 0
Outcome ctx f sf =
    ((is_loose sf.cls ≡ true) × IsListedAs f sf × ¬ IsAccounted ctx f)
    ⊎ ((is_loose sf.cls ≡ false) × IsAccounted ctx f)

Manager-cases :
    (m : Manager)
    → ((m ≡ vortex) × (is_vortex m ≡ true) × (is_mo2 m ≡ false))
      ⊎ (((m ≡ mo2) × (is_vortex m ≡ false) × (is_mo2 m ≡ true))
          ⊎ (¬ (m ≡ vortex) × ¬ (m ≡ mo2) × (is_vortex m ≡ false) × (is_mo2 m ≡ false)))
Manager-cases vortex = inl (refl, refl, refl)
Manager-cases mo2 = inr (inl (refl, refl, refl))
Manager-cases Manager.unknown = inr (inr ((λ e. cc), (λ e. cc), refl, refl))
Manager-cases none_found = inr (inr ((λ e. cc), (λ e. cc), refl, refl))

no_source : (s : Bytes) (es : List (Bytes × Bytes)) → has_sources es ≡ false → ¬ HasSource s es
no_source s [] e h = h
no_source s (x ∷ es) e h = cc

module _ (ctx : ScanContext) (f : FoundFile) (shown : is_skipped f ≡ false)
    (plain : is_framework f.name_lower ≡ false) where
  overlay-Outcome :
      (overlay : List Bytes)
      → ctx.mo2_overlay ≡ some overlay
      → Outcome ctx f (by_overlay f.rel_path (is_one_of (norm_rel f.rel_path) overlay))
  overlay-Outcome overlay known = elim (is_one_of-Has (norm_rel f.rel_path) overlay) [
    | inl (a, h) ↦ rw a (inr (refl, overlaid overlay known h))
    | inr (a, n) ↦ rw a (
        inl (
          refl,
          record { path = refl; kind = refl; no_mod = refl },
          λ k. elim k [
            | passed_over e ↦ cc
            | framework e ↦ cc
            | overlaid o e h ↦
                let same : o ≡ overlay = cc in n (subst (Has (norm_rel f.rel_path)) same h)
            | deployed e m h ↦ cc
            | redirected e m p ↦ cc
          ],
        ))
  ]

  left :
      ctx.mo2_overlay ≡ none
      → ((ctx.manager ≡ vortex) → ¬ HasSource (norm_rel f.rel_path) ctx.sources)
      → ((ctx.manager ≡ mo2) → ¬ (f.physical ≡ false))
      → ¬ IsAccounted ctx f
  left bare v m k = elim k [
    | passed_over e ↦ cc
    | framework e ↦ cc
    | overlaid o e h ↦ cc
    | deployed e q h ↦ v q h
    | redirected e q p ↦ m q p
  ]

  source-Outcome :
      ctx.mo2_overlay ≡ none
      → ctx.manager ≡ vortex
      → Outcome ctx f (by_source f.rel_path (find_source (norm_rel f.rel_path) ctx.sources))
  source-Outcome bare m = elim (find_source-HasSource (norm_rel f.rel_path) ctx.sources) [
    | inl (n, a, h) ↦ rw a (inr (refl, deployed bare m h))
    | inr (a, n) ↦ rw a (
        inl (
          refl,
          record { path = refl; kind = refl; no_mod = refl },
          left bare (λ _. n) (λ q. absurd (cc)),
        ))
  ]

  place-Outcome :
      ctx.mo2_overlay ≡ none → ctx.manager ≡ mo2 → Outcome ctx f (by_place f.rel_path f.physical)
  place-Outcome bare m = elim (Bool-cases f.physical) [
    | inl e ↦ simp e (
        inl (
          refl,
          record { path = refl; kind = refl; no_mod = refl },
          left bare (λ q. absurd (cc)) (λ _ q. cc),
        ))
    | inr e ↦ simp e (inr (refl, redirected bare m e))
  ]

  unmanaged-Outcome : (b : Bool) → ¬ IsAccounted ctx f → Outcome ctx f (unmanaged f.rel_path b)
  unmanaged-Outcome true n = inl (refl, record { path = refl; kind = refl; no_mod = refl }, n)
  unmanaged-Outcome false n = inl (refl, record { path = refl; kind = refl; no_mod = refl }, n)

  none-Outcome : ctx.mo2_overlay ≡ none → Outcome ctx f (judge_file ctx f none)
  unfolding judge_file
  none-Outcome bare = elim (Manager-cases ctx.manager) [
    | inl (m, v, o) ↦ elim (Bool-cases (has_sources ctx.sources)) [
      | inl e ↦ simp (v, e) (source-Outcome bare m)
      | inr e ↦
          simp (v, e, o)
            (unmanaged-Outcome true (left bare (λ _. no_source _ _ e) (λ q. absurd (cc))))
    ]
    | inr (inl (m, v, o)) ↦ simp (v, o) (place-Outcome bare m)
    | inr (inr (nv, nm, v, o)) ↦
        simp (v, o) (unmanaged-Outcome false (left bare (λ q. absurd (nv q)) (λ q. absurd (nm q))))
  ]

  judge-Outcome :
      (o : Option (List Bytes)) → ctx.mo2_overlay ≡ o → Outcome ctx f (judge_file ctx f o)
  unfolding judge_file
  judge-Outcome (some overlay) known = overlay-Outcome overlay known
  judge-Outcome none bare = none-Outcome bare

-- A file that is not passed over is judged to be loose exactly where nothing accounts for it.
pub file_class-Outcome :
    (ctx : ScanContext) (f : FoundFile)
    → is_skipped f ≡ false
    → ((is_loose (file_class ctx false f).cls ≡ true)
        × IsListedAs f (file_class ctx false f)
        × ¬ IsAccounted ctx f)
      ⊎ ((is_loose (file_class ctx false f).cls ≡ false) × IsAccounted ctx f)
unfolding file_class
file_class-Outcome ctx f shown = elim (Bool-cases (is_framework f.name_lower)) [
  | inl e ↦ rw e (inr (refl, framework e))
  | inr e ↦ rw e (judge-Outcome ctx f shown e ctx.mo2_overlay refl)
]
