-- ===== src/Buffer/Laws.antt =====
-- src/util/PreallocatedBuffer.cpp: bounds, truncation, and what a series of writes leaves.
use redscope.Base.{
  ℕ, ◌-◌, ◌≤◌, ◌≡◌, refl, Bool, true, false, Option, none, some, List, [], ◌∷◌, ◌++◌, arith, leb,
  if◌then◌else◌, Bytes, length, take, length-append, length-take, All,
}
use redscope.Buffer.{
  PreallocatedBuffer, size, reserve, reset, append, append_cstr, append_char, appendf, cut,
}

-- Without a block nothing is stored, and what is stored fits.
pub record IsValid (b : PreallocatedBuffer) : Type 0 where
  pub fits : size b ≤ b.capacity
  pub no_block : b.data_ ≡ false → b.capacity ≡ 0

-- The calls that a report makes.
pub data Call : Type 0 where
  reserves : Bool → ℕ → Call
  resets : Call
  appends : Bytes → Call
  appends_cstr : Option Bytes → Call
  appends_char : ℕ → Call
  appends_f : Option Bytes → Call

unfoldable pub step : Call → PreallocatedBuffer → PreallocatedBuffer
step (reserves got n) b = reserve got n b
step resets b = reset b
step (appends s) b = (append s b).0
step (appends_cstr s) b = (append_cstr s b).0
step (appends_char c) b = (append_char c b).0
step (appends_f s) b = (appendf s b).0

unfoldable pub run : List Call → PreallocatedBuffer → PreallocatedBuffer
run [] b = b
run (c ∷ cs) b = run cs (step c b)

append-IsValid : (s : Bytes) (b : PreallocatedBuffer) → IsValid b → IsValid (append s b).0
unfolding append
append-IsValid s b v = ground (arith, length-append b.contents s)

append_char-IsValid : (c : ℕ) (b : PreallocatedBuffer) → IsValid b → IsValid (append_char c b).0
unfolding append_char
append_char-IsValid c b v = ground (arith, length-append b.contents (c ∷ []))

length-cut : (room : ℕ) (s : Bytes) → room ≤ length s → length (cut room s) ≡ room
length-cut room s h =
    ground (arith, length-append (take (room - 1) s) (0 ∷ []), length-take (room - 1) s)

appendf-IsValid : (t : Option Bytes) (b : PreallocatedBuffer) → IsValid b → IsValid (appendf t b).0
unfolding appendf
appendf-IsValid none b v = ground arith
appendf-IsValid (some s) b v =
    let room = b.capacity - size b in
    ground
      (arith, length-append b.contents s, length-append b.contents (cut room s), length-cut room s)

step-IsValid : (c : Call) (b : PreallocatedBuffer) → IsValid b → IsValid (step c b)
unfolding step reserve reset append_cstr
step-IsValid (reserves got n) b v = ground arith
step-IsValid resets b v = ground arith
step-IsValid (appends s) b v = append-IsValid s b v
step-IsValid (appends_cstr none) b v = v
step-IsValid (appends_cstr (some s)) b v = append-IsValid s b v
step-IsValid (appends_char c) b v = append_char-IsValid c b v
step-IsValid (appends_f t) b v = appendf-IsValid t b v

-- Until the next `Reset` or `Reserve`.
abbrev pub IsWrite : Call → Type 0
IsWrite (reserves got n) = ⊥
IsWrite resets = ⊥
IsWrite (appends s) = Unit
IsWrite (appends_cstr s) = Unit
IsWrite (appends_char c) = Unit
IsWrite (appends_f t) = Unit

step_latched : (c : Call) (b : PreallocatedBuffer) → IsWrite c → b.overflow ≡ true → step c b ≡ b
unfolding step append append_cstr append_char appendf
step_latched (reserves got n) b w h = absurd w
step_latched resets b w h = absurd w
step_latched (appends s) b w h = ground arith
step_latched (appends_cstr none) b w h = refl
step_latched (appends_cstr (some s)) b w h = ground arith
step_latched (appends_char c) b w h = ground arith
step_latched (appends_f t) b w h = ground arith

-- After an overflow no write changes the buffer.
pub run_latched :
    (cs : List Call) (b : PreallocatedBuffer) → All IsWrite cs → b.overflow ≡ true → run cs b ≡ b
unfolding run
run_latched [] b w h = refl
run_latched (c ∷ cs) b w h = rw (step_latched c b w.0 h) (run_latched cs b w.1 h)

-- Every series of calls keeps the bytes within the block, whatever is written and whether or not it
-- fits.
pub run-IsValid : (cs : List Call) (b : PreallocatedBuffer) → IsValid b → IsValid (run cs b)
unfolding run
run-IsValid [] b v = v
run-IsValid (c ∷ cs) b v = run-IsValid cs (step c b) (step-IsValid c b v)

abbrev pub joined : List Bytes → Bytes
joined [] = []
joined (s ∷ ss) = s ++ joined ss

-- The texts that fit into `room` bytes, up to the first that does not.
abbrev pub kept : ℕ → List Bytes → List Bytes
kept room [] = []
kept room (s ∷ ss) = if leb (length s) room then s ∷ kept (room - length s) ss else []
