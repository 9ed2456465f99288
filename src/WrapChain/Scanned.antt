-- ===== src/WrapChain/Scanned.antt =====
-- src/snapshot/WrapChain.cpp, `ScanFile`: the layers of a script come in the order of their lines.
use redscope.Base.{
  ℕ, ◌+◌, ◌-◌, ◌%◌, ◌^◌, ◌≤◌, ◌<◌, ◌≡◌, refl, inl, inr, Bool, true, false, Option, none, some, List,
  [], ◌∷◌, ◌++◌, arith, ltb, if◌then◌else◌, tests, Bool-cases, Bytes, length, take, length-append,
  length-take,
}
use redscope.Stream.{is_empty}
use redscope.Stream.{getlines}
use redscope.WrapChain.{is_blank, strip_comments, build_method_key, PendingLayer}
use redscope.WrapChain.Scan.{
  until_nul, parse_wrap_annotation, parse_func_declaration, ScriptFile, ScanState, noted, annotate,
  declared, scan_line, emit, scan_lines, fresh, scan_text, scan_file,
}

length-take_le : (n : ℕ) (s : Bytes) → length (take n s) ≤ n
length-take_le n s = omega (arith, length-take n s)

dotted : Bytes → Bytes
dotted a = if ltb (length a + 1) 80 then a ++ (b'.' ∷ []) else a

length-dotted : (a : Bytes) → length a ≤ 79 → length (dotted a) ≤ 79
unfolding dotted
length-dotted a h = elim (Bool-cases (ltb (length a + 1) 80)) [
  | inl e ↦ rw e (omega (tests, e, length-append a (b'.' ∷ [])))
  | inr e ↦ rw e h
]

length-filled : (b meth : Bytes) → length b ≤ 79 → length (b ++ take (79 - length b) meth) ≤ 79
length-filled b meth h =
    omega (arith, length-append b (take (79 - length b) meth), length-take_le (79 - length b) meth)

pub key_length :
    (cls meth : Bytes)
    → (k : Bytes) × (build_method_key (some cls) (some meth) 80 ≡ some k) × (length k ≤ 79)
unfolding build_method_key dotted
key_length cls meth = (
  _,
  refl,
  length-filled (dotted (take 79 cls)) meth (length-dotted (take 79 cls) (length-take_le 79 cls)),
)

-- Layers of a script, on lines after `base`.
abbrev pub AreLayers : ScriptFile → ℕ → List PendingLayer → Type 0
AreLayers f base [] = Unit
AreLayers f base (p ∷ ps) =
    (base < p.line_number)
    × (p.mod_name ≡ f.mod_name)
    × (p.rel_file ≡ f.rel_file)
    × (length p.method_key ≤ 79)
    × AreLayers f p.line_number ps

-- A class that is pending was found on a line after `base` and up to `n`.
abbrev Waits : ℕ → ℕ → ScanState → Type 0
Waits base n st =
    is_empty st.pending_class ≡ false → (base < st.pending_line) × (st.pending_line ≤ n)

-- What a round leaves.
abbrev Keeps : ScriptFile → ℕ → ℕ → ScanState × Option PendingLayer → Type 0
Keeps f base n (st, none) = Waits base n st
Keeps f base n (st, some p) =
    (is_empty st.pending_class ≡ true)
    × (base < p.line_number)
    × (p.line_number ≤ n)
    × (p.mod_name ≡ f.mod_name)
    × (p.rel_file ≡ f.rel_file)
    × (length p.method_key ≤ 79)

noted-Waits :
    (base n : ℕ) (st : ScanState) (o : Option Bytes) → base < n → Waits base n (noted n st o)
noted-Waits base n st none h = λ k. cc
noted-Waits base n st (some c) h = λ k. (h, omega arith)

annotate-Waits :
    (line : Bytes) (base n : ℕ) (st : ScanState) → base < n → Waits base n (annotate line n st)
unfolding annotate
annotate-Waits line base n st h = noted-Waits base n st (parse_wrap_annotation line) h

declared-Keeps :
    (f : ScriptFile) (line : Bytes) (base n : ℕ) (st : ScanState) (o : Option Bytes)
    → base < n
    → (base < st.pending_line) × (st.pending_line ≤ n)
    → Keeps f base n (declared f line n st o)
declared-Keeps f line base n st none h w = annotate-Waits line base n st h
declared-Keeps f line base n st (some meth) h w =
    let (k, e, l) = key_length st.pending_class meth in rw e (refl, w.0, w.1, refl, refl, l)

scan_line-Keeps :
    (f : ScriptFile) (line : Bytes) (base n : ℕ) (st : ScanState)
    → base < n
    → Waits base n st
    → Keeps f base n (scan_line f line n st)
unfolding scan_line
scan_line-Keeps f line base n st h w = elim (Bool-cases (is_empty st.pending_class)) [
  | inl e ↦ rw e (annotate-Waits line base n st h)
  | inr e ↦ rw e (declared-Keeps f line base n st (parse_func_declaration line) h (w e))
]

-- The rest of the lines, after a round.
emit-AreLayers :
    (f : ScriptFile) (base n : ℕ) (r : ScanState × Option PendingLayer) (rest : List PendingLayer)
    → Keeps f base n r
    → ((b : ℕ) → b ≤ n → Waits b n r.0 → AreLayers f b rest)
    → base ≤ n
    → AreLayers f base (emit r.1 rest)
emit-AreLayers f base n (st, none) rest k on h = on base h k
emit-AreLayers f base n (st, some p) rest k on h =
    (k.1, k.3, k.4, k.5, on p.line_number k.2 (λ e. absurd (ground (arith, e, k.0))))

round-Keeps :
    (f : ScriptFile) (blank : Bool) (line : Bytes) (base n : ℕ) (st : ScanState)
    → base ≤ n
    → Waits base n st
    → Keeps f base (n + 1) (if blank then (st, none) else scan_line f line (n + 1) st)
round-Keeps f true line base n st h w = λ e. let k = w e in (k.0, omega (arith, k.1))
round-Keeps f false line base n st h w =
    scan_line-Keeps f line base (n + 1) st (omega arith)
      (λ e. let k = w e in (k.0, omega (arith, k.1)))

scan_lines-AreLayers :
    (f : ScriptFile) (ls : List Bytes) (n : ℕ) (inside : Bool) (st : ScanState) (base : ℕ)
    → base ≤ n
    → Waits base n st
    → n + length ls < 2 ^ 32
    → AreLayers f base (scan_lines f ls n inside st)
unfolding scan_lines
scan_lines-AreLayers f [] n inside st base h w small = tt
scan_lines-AreLayers f (raw ∷ ls) n inside st base h w small =
    let next : (n + 1) % 2 ^ 32 ≡ n + 1 = omega (arith, small) in
    rw next (
      emit-AreLayers f base (n + 1) _ _
        (round-Keeps f (is_blank (strip_comments raw inside).0)
          (until_nul (strip_comments raw inside).0) base n st h w)
        (λ b l v. scan_lines-AreLayers f ls (n + 1) _ _ b l v (omega (arith, small)))
        (omega (arith, h)))

abbrev pub line_count : Option Bytes → ℕ
line_count none = 0
line_count (some text) = length (getlines text)

scan_text-AreLayers :
    (f : ScriptFile) (t : Option Bytes) → line_count t < 2 ^ 32 → AreLayers f 0 (scan_text f t)
scan_text-AreLayers f none h = tt
scan_text-AreLayers f (some text) h =
    scan_lines-AreLayers f (getlines text) 0 false fresh 0 (omega arith) (λ e. cc)
      (omega (arith, h))

-- The layers of a script of less than 2^32 lines stand on lines that increase, each line giving at
-- most one, carry the path and the mod of the script, and have keys of at most 79 bytes.
pub scan_file-AreLayers :
    (f : ScriptFile) → line_count f.text < 2 ^ 32 → AreLayers f 0 (scan_file f)
unfolding scan_file
scan_file-AreLayers f h = scan_text-AreLayers f f.text h
