-- ===== src/InFlight/Examples.antt =====
-- Tests of the objects in flight, and their theorems at concrete registers.
use redscope.Base.{
  ℕ, ◌≡◌, refl, ap, ◌↔◌, inl, inr, true, Option, none, some, [], ◌∷◌, arith, ◌==◌, if◌then◌else◌,
  Bool-cases, Bytes, length, codes,
}
use redscope.Format.{hex}
use redscope.InFlight.{
  Context, already_have, argument_order, decode_objects_in_flight, decode_objects_on_stack,
  interpret_null_deref,
}
use redscope.InFlight.Distinct.{Fits, IsShort, decode_objects-Fits}
use redscope.InFlight.Complete.{Points, decode_objects_in_flight_iff}

abbrev registers : Context
registers = record {
  rax = 0x20;
  rbx = 0;
  rcx = 0x10;
  rdx = 0x20;
  rsp = 0x7000;
  rbp = 9;
  rsi = 1;
  rdi = 0x10;
  r8 = 0;
  r9 = 2;
  r10 = 3;
  r11 = 4;
  r12 = 5;
  r13 = 6;
  r14 = 7;
  r15 = 8;
}

-- Two objects, at 0x10 and at 0x20.
abbrev class_of : ℕ → Option Bytes
class_of v =
    if v == 0x10
    then some (codes "gameObject")
    else if v == 0x20
    then some (codes "NPCPuppet")
    else none

class_of-IsShort : IsShort class_of
class_of-IsShort v cls e = elim (Bool-cases (v == 0x10)) [
  | inl a ↦
      let is : some (codes "gameObject") ≡ some cls = ground (arith, e, a) in
      let same : codes "gameObject" ≡ cls = cc in omega (arith, ap length same)
  | inr a ↦ elim (Bool-cases (v == 0x20)) [
    | inl b ↦
        let is : some (codes "NPCPuppet") ≡ some cls = ground (arith, e, a, b) in
        let same : codes "NPCPuppet" ≡ cls = cc in omega (arith, ap length same)
    | inr b ↦ absurd (ground (arith, e, a, b))
  ]
]

two_zero :
    interpret_null_deref registers 0x58 (some (codes "read")) 160
    ≡ some (codes "null-pointer read of field +0x58 (NULL registers: RBX, R8)")
unfolding interpret_null_deref hex
two_zero = refl

decode_objects-Fits_example :
    Fits ((decode_objects_in_flight class_of registers).items)
    × Fits ((decode_objects_on_stack none class_of registers (0x10 ∷ 0x20000 ∷ [])).items)
decode_objects-Fits_example =
    decode_objects-Fits class_of class_of-IsShort none registers (0x10 ∷ 0x20000 ∷ [])

decode_objects_in_flight_iff_example :
    (already_have ((decode_objects_in_flight class_of registers).items) (codes "NPCPuppet") ≡ true)
    ↔ Points class_of (argument_order registers) (codes "NPCPuppet")
decode_objects_in_flight_iff_example =
    decode_objects_in_flight_iff class_of class_of-IsShort registers b'N' (codes "PCPuppet")
