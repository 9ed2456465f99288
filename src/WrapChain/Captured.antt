-- ===== src/WrapChain/Captured.antt =====
-- src/snapshot/WrapChain.cpp, `CaptureWrapChains` with the scan of the scripts: the keys of all layers fit
-- into the table.
use redscope.Base.{
  ℕ, ◌+◌, ◌%◌, ◌^◌, ◌≤◌, inl, inr, Bool, true, false, Option, none, some, List, [], ◌∷◌, ◌++◌,
  if◌then◌else◌, Bool-cases, Bytes, length,
}
use redscope.Base.Sort.{sort}
use redscope.Stream.{is_empty}
use redscope.Stream.{getlines}
use redscope.WrapChain.{
  is_blank, strip_comments, PendingLayer, max_wrap_chains, earlier, find_chain,
}
use redscope.WrapChain.Layers.{matching, IsChained}
use redscope.WrapChain.Chains.{AreShort, build_chains-IsBuilt}
use redscope.WrapChain.Scanned.{key_length}
use redscope.WrapChain.Scan.{
  until_nul, parse_func_declaration, ScriptFile, ScanState, declared, scan_line, emit, scan_lines,
  fresh, scan_text, scan_file, scan_all, capture_wrap_chains,
}

abbrev IsShort : Option PendingLayer → Type 0
IsShort none = Unit
IsShort (some p) = length p.method_key ≤ 79

declared-IsShort :
    (f : ScriptFile) (line : Bytes) (n : ℕ) (st : ScanState) (o : Option Bytes)
    → IsShort (declared f line n st o).1
declared-IsShort f line n st none = tt
declared-IsShort f line n st (some meth) =
    let (k, e, l) = key_length st.pending_class meth in rw e l

scan_line-IsShort :
    (f : ScriptFile) (line : Bytes) (n : ℕ) (st : ScanState) → IsShort (scan_line f line n st).1
unfolding scan_line
scan_line-IsShort f line n st = elim (Bool-cases (is_empty st.pending_class)) [
  | inl e ↦ rw e tt
  | inr e ↦ rw e (declared-IsShort f line n st (parse_func_declaration line))
]

round-IsShort :
    (f : ScriptFile) (blank : Bool) (line : Bytes) (n : ℕ) (st : ScanState)
    → IsShort (if blank then (st, none) else scan_line f line n st).1
round-IsShort f true line n st = tt
round-IsShort f false line n st = scan_line-IsShort f line n st

emit-AreShort :
    (o : Option PendingLayer) (rest : List PendingLayer)
    → IsShort o
    → AreShort rest
    → AreShort (emit o rest)
emit-AreShort none rest h k = k
emit-AreShort (some p) rest h k = (h, k)

scan_lines-AreShort :
    (f : ScriptFile) (ls : List Bytes) (n : ℕ) (inside : Bool) (st : ScanState)
    → AreShort (scan_lines f ls n inside st)
unfolding scan_lines
scan_lines-AreShort f [] n inside st = tt
scan_lines-AreShort f (raw ∷ ls) n inside st =
    emit-AreShort _ _
      (round-IsShort f (is_blank (strip_comments raw inside).0)
        (until_nul (strip_comments raw inside).0) ((n + 1) % 2 ^ 32) st)
      (scan_lines-AreShort f ls ((n + 1) % 2 ^ 32) _ _)

AreShort-append : (ps qs : List PendingLayer) → AreShort ps → AreShort qs → AreShort (ps ++ qs)
AreShort-append [] qs h k = k
AreShort-append (p ∷ ps) qs h k = (h.0, AreShort-append ps qs h.1 k)

scan_text-AreShort : (f : ScriptFile) (t : Option Bytes) → AreShort (scan_text f t)
scan_text-AreShort f none = tt
scan_text-AreShort f (some text) = scan_lines-AreShort f (getlines text) 0 false fresh

scan_all-AreShort : (files : List ScriptFile) → AreShort (scan_all files)
unfolding scan_all scan_file
scan_all-AreShort [] = tt
scan_all-AreShort (f ∷ fs) =
    AreShort-append (scan_text f f.text) (scan_all fs) (scan_text-AreShort f f.text)
      (scan_all-AreShort fs)

-- Whatever scripts there are: at most 512 chains are built, and for every method, either its chain is
-- found and holds the first six of the method's layers in the order of file and line and counts the
-- others (modulo 2^32), or there is no chain for it, and then it has no layer or there are 512
-- chains of other methods.
pub capture_wrap_chains-IsChained :
    (files : List ScriptFile)
    → (length (capture_wrap_chains files).chains ≤ max_wrap_chains)
      × ((key : Bytes)
          → IsChained
              (matching key (sort earlier (scan_all files)))
              (length (capture_wrap_chains files).chains)
              (find_chain (capture_wrap_chains files) (some key)))
unfolding capture_wrap_chains
capture_wrap_chains-IsChained files =
    build_chains-IsBuilt (scan_all files) (scan_all-AreShort files)
