-- ===== src/WrapChain/Examples.antt =====
-- Tests of src/snapshot/WrapChain.cpp, and concrete instances of what is proved about it.
use redscope.Base.{
  ◌^◌, ◌≤◌, ◌<◌, ◌≡◌, refl, true, false, some, List, [], ◌∷◌, ◌++◌, map, arith, Bytes, length,
  codes,
}
use redscope.Base.Sort.{sort}
use redscope.WrapChain.{is_blank, strip_comments, build_method_key, earlier, find_chain}
use redscope.WrapChain.Layers.{matching, IsChained}
use redscope.Stream.{getlines}
use redscope.WrapChain.Scan.{
  ScriptFile, scan_file, scan_all, capture_wrap_chains, parse_wrap_annotation,
  parse_func_declaration, until_nul,
}
use redscope.WrapChain.Scanned.{AreLayers, line_count, scan_file-AreLayers}
use redscope.WrapChain.Captured.{capture_wrap_chains-IsChained}

-- `a/*b*/c//d`
abbrev commented : Bytes
commented = b'a' ∷ b'/' ∷ b'*' ∷ b'b' ∷ b'*' ∷ b'/' ∷ b'c' ∷ b'/' ∷ b'/' ∷ b'd' ∷ []

stripped :
    strip_comments commented false
    ≡ (b'a' ∷ 32 ∷ 32 ∷ 32 ∷ 32 ∷ 32 ∷ b'c' ∷ 32 ∷ 32 ∷ 32 ∷ [], false)
unfolding strip_comments
stripped = refl

still_open : (strip_comments (b'/' ∷ b'*' ∷ b'x' ∷ []) false).1 ≡ true
unfolding strip_comments
still_open = refl

keyed :
    build_method_key (some (b'C' ∷ [])) (some (b'm' ∷ b'n' ∷ [])) 4 ≡ some (b'C' ∷ b'.' ∷ b'm' ∷ [])
unfolding build_method_key
keyed = refl

-- `@wrapMethod(Cls)`, then `func on(`, and the same again
abbrev script : Bytes
script =
    codes "@wrapMethod( C )"
    ++ (10 ∷ codes "func on()" ++ (10 ∷ codes "@wrapMethod(C)" ++ (10 ∷ codes "f func on()" ++ [])))

abbrev script_file : ScriptFile
script_file = record { mod_name = codes "mod"; rel_file = codes "a.reds"; text = some script }

abbrev two_files : List ScriptFile
two_files = script_file ∷ record script_file { rel_file = codes "b.reds" } ∷ []

lines_found : map (λ p. p.line_number) (scan_file script_file) ≡ 1 ∷ 3 ∷ []
unfolding scan_file strip_comments build_method_key parse_wrap_annotation parse_func_declaration
    until_nul is_blank
lines_found = refl

few_lines : line_count script_file.text < 2 ^ 32
unfolding getlines
few_lines = omega arith

scan_file-AreLayers_example : AreLayers script_file 0 (scan_file script_file)
scan_file-AreLayers_example = scan_file-AreLayers script_file few_lines

capture_wrap_chains-IsChained_example :
    (length (capture_wrap_chains two_files).chains ≤ 512)
    × ((key : Bytes)
        → IsChained
            (matching key (sort earlier (scan_all two_files)))
            (length (capture_wrap_chains two_files).chains)
            (find_chain (capture_wrap_chains two_files) (some key)))
capture_wrap_chains-IsChained_example = capture_wrap_chains-IsChained two_files
