-- ===== src/Buffer/Examples.antt =====
-- Tests of the report buffer, and its theorems at concrete inputs.
use redscope.Base.{◌≡◌, refl, ◌↔◌, true, false, none, some, List, [], ◌∷◌, arith, Bytes, codes}
use redscope.Buffer.{PreallocatedBuffer, reserve, append, append_cstr, append_char, appendf, fresh}
use redscope.Buffer.Writes.{left_by, all_fit, run-left_by}
use redscope.Buffer.Laws.{
  IsValid, Call, appends, appends_cstr, appends_f, appends_char, reserves, step, run, run-IsValid,
}

cut_write : (appendf (some (codes "abcd")) (reserve true 4 fresh)).0.contents ≡ codes "abc\0"
unfolding appendf reserve
cut_write = refl

exact_write : (append (codes "abcd") (reserve true 4 fresh)).1 ≡ true
unfolding append reserve
exact_write = refl

abbrev four : PreallocatedBuffer
four = record { data_ = true; contents = []; capacity = 4; overflow = false }

abbrev texts : List Bytes
texts = codes "ab" ∷ codes "cde" ∷ codes "f" ∷ []

run-IsValid_example : IsValid (run (reserves true 4 ∷ appends_f (some (codes "abcdef")) ∷ []) fresh)
run-IsValid_example =
    run-IsValid (reserves true 4 ∷ appends_f (some (codes "abcdef")) ∷ []) fresh (omega arith)

abbrev series : List Call
series =
    appends_char b'{'
    ∷ appends_cstr none
    ∷ appends_f (some (codes "123"))
    ∷ appends (codes "x")
    ∷ []

-- The number does not fit with its NUL, and is cut; what comes behind it is not written.
cut_series : ((run series four).contents ≡ codes "{12\0") × ((run series four).overflow ≡ true)
unfolding run step append append_cstr append_char appendf
cut_series = (refl, refl)

run-left_by_example :
    ((run series four).contents ≡ left_by 4 series)
    × ((run series four).overflow ≡ false ↔ all_fit 4 series ≡ true)
run-left_by_example = run-left_by series four refl refl (ground arith) (tt, (tt, (tt, (tt, tt))))
