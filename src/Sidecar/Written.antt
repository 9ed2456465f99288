-- ===== src/Sidecar/Written.antt =====
-- src/report/JsonSidecar.cpp, `BuildJsonSidecar` and `BuildDiagnosticJson` on the buffer that they append
-- to; src/report/Sections.cpp, `WriteJsonSidecarFile`; src/breadcrumbs/BreadcrumbApi.cpp,
-- `ReadDiagnosticJson`. The text of a document reaches the buffer in many calls, of `Append`, `AppendChar`
-- and `Appendf`. `divide` says which; the theorem is about every way to divide a text into calls.
use redscope.Base.{
  ℕ, ◌-◌, ◌*◌, ◌≤◌, ◌<◌, ◌≡◌, refl, sym, ap, subst, ◌∙◌, ◌⊎◌, inl, inr, Bool, true, false, Option,
  none, some, List, [], ◌∷◌, ◌++◌, arith, ltb, tests, Bool-cases, Bytes, length, length-append, All,
}
use redscope.Buffer.{PreallocatedBuffer, size, reserve, reset, fresh}
use redscope.Buffer.Laws.{
  IsValid, Call, reserves, resets, appends, appends_cstr, appends_char, appends_f, run, IsWrite,
  run-IsValid,
}
use redscope.Buffer.Writes.{text_of, fits, left_by, all_fit, run-left_by}
use redscope.Json.Accept.{IsJson}
use redscope.Sidecar.{diagnostic_json_text}
use redscope.Sidecar.Report.{SidecarInput}
use redscope.Sidecar.Report.Sections.{json_sidecar_text}
use redscope.Sidecar.Report.Sections.Members.{json_sidecar_text-IsJson}
use redscope.Sidecar.Valid.{diagnostic_json_text-IsJson}
use redscope.Snapshot.{Snapshot}

unfoldable pub build_json_sidecar :
    (Bytes → List Call) → SidecarInput → Option Snapshot → PreallocatedBuffer → PreallocatedBuffer
build_json_sidecar divide c s out = run (divide (json_sidecar_text c s)) out

-- The buffer whose bytes `WriteJsonSidecarFile` writes, whether or not it overflowed.
unfoldable pub write_json_sidecar_file :
    (Bytes → List Call) → SidecarInput → Option Snapshot → PreallocatedBuffer → PreallocatedBuffer
unfolding build_json_sidecar
write_json_sidecar_file divide c s sb = build_json_sidecar divide c s (reset sb)

unfoldable pub build_diagnostic_json :
    (Bytes → List Call) → Option Snapshot → PreallocatedBuffer → PreallocatedBuffer
build_diagnostic_json divide s out = run (divide (diagnostic_json_text s)) out

abbrev pub diagnostic_bytes : ℕ
diagnostic_bytes = 512 * 1024

-- The buffer whose bytes `ReadDiagnosticJson` returns; the flag says whether `malloc` gave a block.
unfoldable pub read_diagnostic_json :
    (Bytes → List Call) → Bool → Option Snapshot → PreallocatedBuffer
unfolding build_diagnostic_json
read_diagnostic_json divide got s =
    build_diagnostic_json divide s (reserve got diagnostic_bytes fresh)

abbrev pub texts : List Call → Bytes
texts [] = []
texts (c ∷ cs) = text_of c ++ texts cs

-- A write with a text: no null pointer, and no format that fails.
abbrev pub IsSent : Call → Type 0
IsSent (reserves got n) = ⊥
IsSent resets = ⊥
IsSent (appends s) = Unit
IsSent (appends_cstr none) = ⊥
IsSent (appends_cstr (some s)) = Unit
IsSent (appends_char c) = Unit
IsSent (appends_f none) = ⊥
IsSent (appends_f (some s)) = Unit

-- A text is divided into writes that together are the text.
abbrev pub IsDivision : (Bytes → List Call) → Type 0
IsDivision divide = (t : Bytes) → All IsSent (divide t) × (texts (divide t) ≡ t)

IsSent-IsWrite : (cs : List Call) → All IsSent cs → All IsWrite cs
IsSent-IsWrite [] h = tt
IsSent-IsWrite (c ∷ cs) h = (one c h.0, IsSent-IsWrite cs h.1)
  where
    one : (c : Call) → IsSent c → IsWrite c
    one (reserves got n) h = h
    one resets h = h
    one (appends s) h = tt
    one (appends_cstr s) h = tt
    one (appends_char c) h = tt
    one (appends_f s) h = tt

all_fit-left_by : (room : ℕ) (cs : List Call) → all_fit room cs ≡ true → left_by room cs ≡ texts cs
all_fit-left_by room [] h = refl
all_fit-left_by room (c ∷ cs) h = elim (Bool-cases (fits room c)) [
  | inl e ↦
      let rest : all_fit (room - length (text_of c)) cs ≡ true = rw e at h in
      rw e (ap (λ t. text_of c ++ t) (all_fit-left_by (room - length (text_of c)) cs rest))
  | inr e ↦ absurd (ground (arith, e, h))
]

short_fits : (room : ℕ) (c : Call) → IsSent c → length (text_of c) < room → fits room c ≡ true
short_fits room (reserves got n) w h = absurd w
short_fits room resets w h = absurd w
short_fits room (appends s) w h = ground arith
short_fits room (appends_cstr none) w h = absurd w
short_fits room (appends_cstr (some s)) w h = ground arith
short_fits room (appends_char c) w h = ground arith
short_fits room (appends_f none) w h = absurd w
short_fits room (appends_f (some s)) w h = ground arith

short-all_fit :
    (room : ℕ) (cs : List Call) → All IsSent cs → length (texts cs) < room → all_fit room cs ≡ true
short-all_fit room [] w h = refl
short-all_fit room (c ∷ cs) w h =
    let more = length-append (text_of c) (texts cs) in
    let e = short_fits room c w.0 (omega (arith, h, more)) in
    rw e (short-all_fit (room - length (text_of c)) cs w.1 (omega (arith, h, more)))

-- The buffer holds the whole document and nothing else, as one value of JSON.
pub record IsWhole (t : Bytes) (q : PreallocatedBuffer) : Type 0 where
  pub kept : q.overflow ≡ false
  pub same : q.contents ≡ t
  pub json : IsJson q.contents
  pub within : length t ≤ q.capacity

-- The buffer has overflown, and the document does not leave it a spare byte.
pub record IsCut (t : Bytes) (room : ℕ) (q : PreallocatedBuffer) : Type 0 where
  pub latched : q.overflow ≡ true
  pub too_long : room ≤ length t

run-IsWhole :
    (divide : Bytes → List Call) (t : Bytes) (b : PreallocatedBuffer)
    → IsDivision divide
    → IsJson t
    → b.data_ ≡ true
    → b.overflow ≡ false
    → b.contents ≡ []
    → IsValid b
    → IsWhole t (run (divide t) b) ⊎ IsCut t b.capacity (run (divide t) b)
run-IsWhole divide t b d j got o empty v =
    let none_left : size b ≡ 0 = ap length empty in
    let (sent, all_of) = d t in
    let (bytes, latch) = run-left_by (divide t) b got o v (IsSent-IsWrite (divide t) sent) in
    let after = run-IsValid (divide t) b v in
    elim (Bool-cases (run (divide t) b).overflow) [
      | inl e ↦ inr (record { latched = e; too_long = long none_left sent all_of latch.1 e })
      | inr e ↦
          let all_left = all_fit-left_by (b.capacity - size b) (divide t) (latch.0 e) in
          let s : (run (divide t) b).contents ≡ t =
            bytes
            ∙ ap (λ l. l ++ left_by (b.capacity - size b) (divide t)) empty
            ∙ all_left
            ∙ all_of in
          inl (record {
            kept = e;
            same = s;
            json = subst IsJson (sym s) j;
            within = omega (arith, after.fits, ap length s);
          })
    ]
  where
    long :
        size b ≡ 0
        → All IsSent (divide t)
        → texts (divide t) ≡ t
        → (all_fit (b.capacity - size b) (divide t) ≡ true → (run (divide t) b).overflow ≡ false)
        → (run (divide t) b).overflow ≡ true
        → b.capacity ≤ length t
    long none_left sent all_of fine e = elim (Bool-cases (ltb (length t) b.capacity)) [
      | inl short ↦
          let f =
            short-all_fit (b.capacity - size b) (divide t) sent
              (omega (tests, short, none_left, ap length all_of)) in
          let y = fine f in absurd (cc)
      | inr n ↦ omega (tests, n)
    ]

-- However the code divides its documents into writes: the file beside a crash report, from a buffer that is
-- allocated and valid, and the diagnostic file, from its block of 512 KiB, are each either the whole
-- document, which is one value of JSON whatever the snapshot, the registers and the stack hold, or the
-- buffer has overflown, which happens only if the document fills it; in particular a document that is
-- shorter than the buffer is written whole.
pub build_json_sidecar-IsJson :
    (divide : Bytes → List Call) (c : SidecarInput) (s : Option Snapshot) (sb : PreallocatedBuffer)
    → IsDivision divide
    → sb.data_ ≡ true
    → IsValid sb
    → (IsWhole (json_sidecar_text c s) (write_json_sidecar_file divide c s sb)
        ⊎ IsCut (json_sidecar_text c s) sb.capacity (write_json_sidecar_file divide c s sb))
      × (IsWhole (diagnostic_json_text s) (read_diagnostic_json divide true s)
          ⊎ IsCut (diagnostic_json_text s) diagnostic_bytes (read_diagnostic_json divide true s))
unfolding write_json_sidecar_file build_json_sidecar read_diagnostic_json build_diagnostic_json
    reset reserve
build_json_sidecar-IsJson divide c s sb d got v = (
  run-IsWhole divide (json_sidecar_text c s) (reset sb) d (json_sidecar_text-IsJson c s) got refl
      refl (record { fits = omega arith; no_block = v.no_block }),
  run-IsWhole divide (diagnostic_json_text s) (reserve true diagnostic_bytes fresh) d
      (diagnostic_json_text-IsJson s) refl refl refl
      (record { fits = omega arith; no_block = λ e. absurd (cc) }),
)
