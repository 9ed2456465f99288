-- ===== src/CleanSlate/Counted.antt =====
-- src/cleanslate/CleanCore.cpp, `Scan`: what the report counts and lists.
use redscope.Base.{
  ◌+◌, ◌^◌, ◌≤◌, ◌<◌, ◌≡◌, refl, sym, ap, subst, ◌∙◌, inl, inr, Bool, true, false, ◌||◌, Option,
  none, some, List, [], ◌∷◌, ◌++◌, append-nil, append_assoc, arith, ltb, if◌then◌else◌, Bool-cases,
  Bytes, length, length-append,
}
use redscope.CleanSlate.{
  FileClass, managed, managed_infra, loose, outdated_orphan, ScannedFile, CleanReport, norm_rel,
  is_one_of, is_framework, FoundFile, ScanContext, vortex_active, is_mo2, find_source, by_source,
  by_overlay, by_place, unmanaged, judge_file, file_class, is_skipped, count_file, classify,
  max_scanned, scan_files, scan_loaders, new_report, scan,
}
use redscope.CleanSlate.Leftover.{
  passed_over, AreLeftovers, nothing, accounted, left_over, is_loose, file_class-Outcome,
}

-- The files that the code takes for loose, in the order of the walks.
unfoldable leftovers : ScanContext → List FoundFile → List ScannedFile
unfolding file_class is_skipped
leftovers ctx [] = []
leftovers ctx (f ∷ fs) =
    let rest = leftovers ctx fs in
    let sf = file_class ctx false f in
    if is_skipped f then rest else if is_loose sf.cls then sf ∷ rest else rest

abbrev is_orphan : FileClass → Bool
is_orphan outdated_orphan = true
is_orphan _ = false

by_source-kept : (rel : Bytes) (o : Option Bytes) → is_orphan (by_source rel o).cls ≡ false
by_source-kept rel none = refl
by_source-kept rel (some s) = refl

by_overlay-kept : (rel : Bytes) (b : Bool) → is_orphan (by_overlay rel b).cls ≡ false
by_overlay-kept rel true = refl
by_overlay-kept rel false = refl

by_place-kept : (rel : Bytes) (b : Bool) → is_orphan (by_place rel b).cls ≡ false
by_place-kept rel true = refl
by_place-kept rel false = refl

unmanaged-kept : (rel : Bytes) (b : Bool) → is_orphan (unmanaged rel b).cls ≡ false
unmanaged-kept rel true = refl
unmanaged-kept rel false = refl

judge_file-kept :
    (ctx : ScanContext) (f : FoundFile) (o : Option (List Bytes))
    → is_orphan (judge_file ctx f o).cls ≡ false
unfolding judge_file
judge_file-kept ctx f (some overlay) =
    by_overlay-kept f.rel_path (is_one_of (norm_rel f.rel_path) overlay)
judge_file-kept ctx f none = elim (Bool-cases (vortex_active ctx)) [
  | inl e ↦ rw e (by_source-kept f.rel_path (find_source (norm_rel f.rel_path) ctx.sources))
  | inr e ↦ elim (Bool-cases (is_mo2 ctx.manager)) [
    | inl g ↦ rw (e, g) (by_place-kept f.rel_path f.physical)
    | inr g ↦ rw (e, g) (unmanaged-kept f.rel_path _)
  ]
]

-- No file is classified as an orphan.
file_class-kept :
    (ctx : ScanContext) (known : Bool) (f : FoundFile)
    → is_orphan (file_class ctx known f).cls ≡ false
unfolding file_class
file_class-kept ctx known f = elim (Bool-cases (known || is_framework f.name_lower)) [
  | inl e ↦ rw e refl
  | inr e ↦ rw e (judge_file-kept ctx f ctx.mo2_overlay)
]

pub record IsCounted (r : CleanReport) : Type 0 where
  pub sum : r.scanned ≡ r.managed_count + r.infra_count + r.loose_count
  pub listed : r.loose_count ≡ length r.findings
  pub no_orphan : r.orphan_count ≡ 0

-- What a file adds to the report.
abbrev Adds : CleanReport → List ScannedFile → CleanReport → Type 0
Adds r new q = IsCounted q × (q.findings ≡ r.findings ++ new) × (q.scanned ≤ r.scanned + 1)

count_file-Adds :
    (sf : ScannedFile) (cls : FileClass) (r : CleanReport)
    → is_orphan cls ≡ false
    → r.scanned + 1 < 2 ^ 32
    → IsCounted r
    → Adds r (if is_loose cls then sf ∷ [] else []) (count_file sf cls r)
unfolding count_file
count_file-Adds sf managed r o h i = (
  record { sum = omega (arith, h, i.sum); listed = i.listed; no_orphan = i.no_orphan },
  sym (append-nil r.findings),
  omega arith,
)
count_file-Adds sf managed_infra r o h i = (
  record { sum = omega (arith, h, i.sum); listed = i.listed; no_orphan = i.no_orphan },
  sym (append-nil r.findings),
  omega arith,
)
count_file-Adds sf loose r o h i =
    let more = length-append r.findings (sf ∷ []) in
    (
      record {
        sum = omega (arith, h, i.sum);
        listed = omega (arith, h, i.sum, i.listed, more);
        no_orphan = i.no_orphan;
      },
      refl,
      omega arith,
    )
count_file-Adds sf outdated_orphan r o h i = absurd (ground (arith, o))

added : ScanContext → Bool → FoundFile → List ScannedFile
unfolding file_class is_skipped
added ctx known f =
    let sf = file_class ctx known f in
    if is_skipped f then [] else if is_loose sf.cls then sf ∷ [] else []

classify-Adds :
    (ctx : ScanContext) (known : Bool) (f : FoundFile) (r : CleanReport)
    → r.scanned + 1 < 2 ^ 32
    → IsCounted r
    → Adds r (added ctx known f) (classify ctx known f r)
unfolding classify added
classify-Adds ctx known f r h i = elim (Bool-cases (is_skipped f)) [
  | inl e ↦ rw e (i, sym (append-nil r.findings), omega arith)
  | inr e ↦ rw e (
      count_file-Adds (file_class ctx known f) (file_class ctx known f).cls r
        (file_class-kept ctx known f) h i)
]

leftovers_cons :
    (ctx : ScanContext) (f : FoundFile) (fs : List FoundFile)
    → leftovers ctx (f ∷ fs) ≡ added ctx false f ++ leftovers ctx fs
unfolding leftovers added
leftovers_cons ctx f fs = elim (Bool-cases (is_skipped f)) [
  | inl e ↦ rw e refl
  | inr e ↦ elim (Bool-cases (is_loose (file_class ctx false f).cls)) [
    | inl g ↦ rw (e, g) refl
    | inr g ↦ rw (e, g) refl
  ]
]

scan_files-Adds :
    (ctx : ScanContext) (fs : List FoundFile) (r : CleanReport)
    → r.scanned + length fs ≤ max_scanned
    → IsCounted r
    → IsCounted (scan_files ctx fs r)
      × ((scan_files ctx fs r).findings ≡ r.findings ++ leftovers ctx fs)
      × ((scan_files ctx fs r).scanned ≤ max_scanned)
unfolding scan_files leftovers
scan_files-Adds ctx [] r h i = (i, sym (append-nil r.findings), omega (arith, h))
scan_files-Adds ctx (f ∷ fs) r h i =
    let below : ltb r.scanned max_scanned ≡ true = ground (arith, h) in
    let a = classify-Adds ctx false f r (omega (arith, h)) i in
    let q = classify ctx false f r in
    let rest = scan_files-Adds ctx fs q (omega (arith, h, a.2)) a.0 in
    rw below (
      rest.0,
      rest.1
          ∙ ap (λ l. l ++ leftovers ctx fs) a.1
          ∙ append_assoc r.findings (added ctx false f) (leftovers ctx fs)
          ∙ ap (λ l. r.findings ++ l) (sym (leftovers_cons ctx f fs)),
      rest.2,
    )

loader_adds : (ctx : ScanContext) (f : FoundFile) → added ctx true f ≡ []
unfolding added file_class
loader_adds ctx f = elim (Bool-cases (is_skipped f)) [ inl e ↦ rw e refl | inr e ↦ rw e refl ]

scan_loaders-Adds :
    (ctx : ScanContext) (fs : List FoundFile) (r : CleanReport)
    → r.scanned + length fs + 1 < 2 ^ 32
    → IsCounted r
    → IsCounted (scan_loaders ctx fs r) × ((scan_loaders ctx fs r).findings ≡ r.findings)
unfolding scan_loaders
scan_loaders-Adds ctx [] r h i = (i, refl)
scan_loaders-Adds ctx (f ∷ fs) r h i =
    let a = classify-Adds ctx true f r (omega (arith, h)) i in
    let rest = scan_loaders-Adds ctx fs (classify ctx true f r) (omega (arith, h, a.2)) a.0 in
    (rest.0, rest.1 ∙ a.1 ∙ ap (λ l. r.findings ++ l) (loader_adds ctx f) ∙ append-nil r.findings)

leftovers-AreLeftovers :
    (ctx : ScanContext) (fs : List FoundFile) → AreLeftovers ctx fs (leftovers ctx fs)
unfolding leftovers
leftovers-AreLeftovers ctx [] = nothing
leftovers-AreLeftovers ctx (f ∷ fs) =
    let rest = leftovers-AreLeftovers ctx fs in
    elim (Bool-cases (is_skipped f)) [
      | inl e ↦ rw e (accounted f fs (leftovers ctx fs) (passed_over e) rest)
      | inr e ↦ elim (file_class-Outcome ctx f e) [
        | inl (l, as_listed, n) ↦
            rw (e, l) (left_over f (file_class ctx false f) fs (leftovers ctx fs) n as_listed rest)
        | inr (l, by_something) ↦ rw (e, l) (accounted f fs (leftovers ctx fs) by_something rest)
      ]
    ]

-- Of at most 200000 files and at most seven loaders, the report lists exactly the files that nothing
-- accounts for, as loose and of no mod, in the order of the walks: those that are neither passed over nor
-- a framework's, and whose path is not in the overlay that is known, or, where none is known, neither in
-- the manifest of a Vortex that manages the game nor outside the game's folder under MO2. The counters of
-- the classes add up to the number of files, the loose ones are as many as are listed, and no file is an
-- orphan.
pub scan-leftovers :
    (ctx : ScanContext) (files loaders : List FoundFile)
    → length files ≤ max_scanned
    → length loaders ≤ 7
    → IsCounted (scan ctx files loaders) × AreLeftovers ctx files (scan ctx files loaders).findings
unfolding scan new_report
scan-leftovers ctx files loaders h k =
    let walked = scan_files-Adds ctx files (new_report ctx) (omega (arith, h)) start in
    let both =
      scan_loaders-Adds ctx loaders (scan_files ctx files (new_report ctx))
        (omega (arith, k, walked.2)) walked.0 in
    (
      both.0,
      subst (AreLeftovers ctx files) (sym (both.1 ∙ walked.1)) (leftovers-AreLeftovers ctx files),
    )
  where
    start : IsCounted (new_report ctx)
    start = record { sum = refl; listed = refl; no_orphan = refl }
