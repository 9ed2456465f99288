-- ===== src/Buffer/Writes.antt =====
-- src/util/PreallocatedBuffer.cpp: what a series of writes of every kind leaves, cut texts included.
use redscope.Base.{
  ℕ, ◌-◌, ◌≤◌, ◌≡◌, refl, sym, ◌↔◌, inl, inr, Bool, true, false, ◌&&◌, none, some, List, [], ◌∷◌,
  ◌++◌, append-nil, append_assoc, arith, ltb, leb, if◌then◌else◌, Bool-cases, Bytes, length,
  length-append, All,
}
use redscope.Buffer.{PreallocatedBuffer, size, append, append_cstr, append_char, appendf, cut}
use redscope.Buffer.Laws.{
  IsValid, Call, reserves, resets, appends, appends_cstr, appends_char, appends_f, step, run,
  IsWrite, run_latched,
}

-- What a write is given.
abbrev pub text_of : Call → Bytes
text_of (reserves got n) = []
text_of resets = []
text_of (appends s) = s
text_of (appends_cstr none) = []
text_of (appends_cstr (some s)) = s
text_of (appends_char c) = c ∷ []
text_of (appends_f none) = []
text_of (appends_f (some s)) = s

-- Whether a write fits into `room` bytes. A formatted text needs a byte more, for its NUL.
abbrev pub fits : ℕ → Call → Bool
fits room (reserves got n) = false
fits room resets = false
fits room (appends s) = leb (length s) room
fits room (appends_cstr none) = true
fits room (appends_cstr (some s)) = leb (length s) room
fits room (appends_char c) = ltb 0 room
fits room (appends_f none) = false
fits room (appends_f (some s)) = ltb (length s) room

-- What a write that does not fit leaves all the same.
abbrev pub remnant : ℕ → Call → Bytes
remnant room (appends_f (some s)) = cut room s
remnant room (appends_f none) = []
remnant room (reserves got n) = []
remnant room resets = []
remnant room (appends s) = []
remnant room (appends_cstr s) = []
remnant room (appends_char c) = []

abbrev pub left_by : ℕ → List Call → Bytes
left_by room [] = []
left_by room (c ∷ cs) =
    let later = left_by (room - length (text_of c)) cs in
    if fits room c then text_of c ++ later else remnant room c

abbrev pub all_fit : ℕ → List Call → Bool
all_fit room [] = true
all_fit room (c ∷ cs) = fits room c && all_fit (room - length (text_of c)) cs

step_fits :
    (c : Call) (b : PreallocatedBuffer)
    → b.data_ ≡ true
    → b.overflow ≡ false
    → IsValid b
    → IsWrite c
    → fits (b.capacity - size b) c ≡ true
    → step c b ≡ record b { contents = b.contents ++ text_of c }
unfolding step append append_cstr append_char appendf
step_fits (reserves got n) b d o v w h = absurd w
step_fits resets b d o v w h = absurd w
step_fits (appends s) b d o v w h = ground arith
step_fits (appends_cstr none) b d o v w h = ground (arith, append-nil b.contents)
step_fits (appends_cstr (some s)) b d o v w h = ground arith
step_fits (appends_char c) b d o v w h = ground arith
step_fits (appends_f none) b d o v w h = absurd (ground (arith, h))
step_fits (appends_f (some s)) b d o v w h = ground arith

step_full :
    (c : Call) (b : PreallocatedBuffer)
    → b.data_ ≡ true
    → b.overflow ≡ false
    → IsValid b
    → IsWrite c
    → fits (b.capacity - size b) c ≡ false
    → step c b
      ≡ record b { contents = b.contents ++ remnant (b.capacity - size b) c; overflow = true }
unfolding step append append_cstr append_char appendf
step_full (reserves got n) b d o v w h = absurd w
step_full resets b d o v w h = absurd w
step_full (appends s) b d o v w h = ground (arith, append-nil b.contents)
step_full (appends_cstr none) b d o v w h = absurd (ground (arith, h))
step_full (appends_cstr (some s)) b d o v w h = ground (arith, append-nil b.contents)
step_full (appends_char c) b d o v w h = ground (arith, append-nil b.contents)
step_full (appends_f none) b d o v w h = ground (arith, append-nil b.contents)
step_full (appends_f (some s)) b d o v w h = ground arith

length-text_of : (c : Call) (room : ℕ) → fits room c ≡ true → length (text_of c) ≤ room
length-text_of (reserves got n) room h = omega arith
length-text_of resets room h = omega arith
length-text_of (appends s) room h = ground arith
length-text_of (appends_cstr none) room h = omega arith
length-text_of (appends_cstr (some s)) room h = ground arith
length-text_of (appends_char c) room h = ground arith
length-text_of (appends_f none) room h = omega arith
length-text_of (appends_f (some s)) room h = ground arith

-- Any series of writes to a buffer that is allocated, valid and not overflown leaves its bytes followed
-- by what is written up to the first write that does not fit, and nothing of what comes after that one.
-- Of the write that does not fit itself nothing is left, but of a formatted text as much as there is room
-- for before a NUL. The buffer overflows exactly when a write does not fit.
pub run-left_by :
    (cs : List Call) (b : PreallocatedBuffer)
    → b.data_ ≡ true
    → b.overflow ≡ false
    → IsValid b
    → All IsWrite cs
    → ((run cs b).contents ≡ b.contents ++ left_by (b.capacity - size b) cs)
      × ((run cs b).overflow ≡ false ↔ all_fit (b.capacity - size b) cs ≡ true)
unfolding run
run-left_by [] b d o v w = (sym (append-nil b.contents), ((λ _. refl), λ _. o))
run-left_by (c ∷ cs) b d o v w =
    let b' : PreallocatedBuffer = record b { contents = b.contents ++ text_of c } in
    let more = length-append b.contents (text_of c) in
    elim (Bool-cases (fits (b.capacity - size b) c)) [
      | inl fit ↦
          let short = length-text_of c (b.capacity - size b) fit in
          let v' : IsValid b' = record {
            fits = omega (arith, v.fits, more, short);
            no_block = v.no_block;
          } in
          let ih = run-left_by cs b' d o v' w.1 in
          let e = step_fits c b d o v w.0 fit in
          let room : b.capacity - size b' ≡ b.capacity - size b - length (text_of c) =
            omega (arith, more) in
          let rest = left_by (b.capacity - size b - length (text_of c)) cs in
          (
            ground (arith, e, ih.0, room, append_assoc b.contents (text_of c) rest),
            ((λ h. ground (arith, e, room, ih.1.0)), λ h. ground (arith, e, room, ih.1.1)),
          )
      | inr full ↦
          let e = step_full c b d o v w.0 full in
          let l = run_latched cs (step c b) w.1 (ground (arith, e)) in
          (ground (arith, e, l), ((λ h. ground (arith, e, l)), λ h. ground (arith, e, l)))
    ]
