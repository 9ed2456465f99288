-- ===== src/FaultInstruction/InBounds.antt =====
-- src/rtti/FaultInstruction.cpp: the decoder reads no byte past the code that it is given.
use redscope.Base.{
  ℕ, ◌+◌, ◌/◌, ◌%◌, ◌<◌, refl, inl, inr, Bool, false, ◌&&◌, ◌||◌, Option, none, some, arith, ltb,
  leb, ◌==◌, not-leb→lt, not-ltb→le, Bool-cases, Bytes, length, get_elem?, IsDefined,
  get_elem?-some,
}
use redscope.InFlight.{Context}
use redscope.FaultInstruction.{DecodedFault, no_fault}
use redscope.FaultInstruction.Decode.{
  Outcome, ◌>>-◌, byte, skip_prefixes, is_rex, opcode_end, Form, address_form, displacement,
  decode_modrm, decode_opcode, decode_rex, decode_fault_operand, read, unguarded, outcome,
}

abbrev IsSafe {ℓ} : {A : Type ℓ} → Outcome A → Type 0
IsSafe Outcome.fault = ⊥
IsSafe Outcome.stop = Unit
IsSafe (Outcome.next a) = Unit

bind-IsSafe {ℓ κ} :
    {A : Type ℓ} {B : Type κ} (o : Outcome A) (f : A → Outcome B)
    → IsSafe o
    → ((a : A) → IsSafe (f a))
    → IsSafe (o >>- f)
bind-IsSafe Outcome.fault f s k = s
bind-IsSafe Outcome.stop f s k = tt
bind-IsSafe (Outcome.next a) f s k = k a

byte-IsSafe : (code : Bytes) (p : ℕ) → IsSafe (byte code p)
unfolding byte
byte-IsSafe code p = elim (Bool-cases (leb (length code) p)) [
  | inl past ↦ rw past tt
  | inr within ↦ let (b, at) = get_elem?-some code p (not-leb→lt _ _ within) in rw (within, at) tt
]

unguarded-IsSafe : (code : Bytes) (p : ℕ) → p < length code → IsSafe (unguarded code p)
unguarded-IsSafe code p l = read-IsSafe (get_elem? code p) (get_elem?-some code p l)
  where
    read-IsSafe : (o : Option ℕ) → IsDefined o → IsSafe (read o)
    read-IsSafe none (b, e) = cc
    read-IsSafe (some c) d = tt

opcode_end-IsSafe : (code : Bytes) (op0 p : ℕ) → IsSafe (opcode_end code op0 p)
unfolding opcode_end
opcode_end-IsSafe code op0 p = elim (Bool-cases (op0 == 0x0F)) [
  | inr one ↦ rw one tt
  | inl two ↦ rw two (
      bind-IsSafe (byte code p) _ (byte-IsSafe code p) (λ op1.
        elim (Bool-cases (op1 == 0x38 || op1 == 0x3A)) [
          | inl three ↦ rw three (bind-IsSafe (byte code (p + 1)) _ (byte-IsSafe code _) (λ b. tt))
          | inr done ↦ rw done tt
        ]))
]

address_form-IsSafe :
    (code : Bytes) (mode rm : ℕ) (rex_x rex_b : Bool) (p : ℕ)
    → IsSafe (address_form code mode rm rex_x rex_b p)
unfolding address_form
address_form-IsSafe code mode rm rex_x rex_b p = elim (Bool-cases (rm == 4)) [
  | inl sib ↦ rw sib (bind-IsSafe (byte code p) _ (byte-IsSafe code p) (λ b. tt))
  | inr plain ↦
      rw plain
        (elim (Bool-cases (rm == 5 && mode == 0)) [ inl rip ↦ rw rip tt | inr reg ↦ rw reg tt ])
]

displacement-IsSafe : (code : Bytes) (mode : ℕ) (f : Form) → IsSafe (displacement code mode f)
unfolding displacement
displacement-IsSafe code mode f = elim (Bool-cases (mode == 1)) [
  | inl short ↦ rw short (bind-IsSafe (byte code f.at) _ (byte-IsSafe code f.at) (λ b. tt))
  | inr other ↦ rw other (elim (Bool-cases (mode == 2 || f.need_disp32)) [
    | inr none_ ↦ rw none_ tt
    | inl long ↦ rw long (elim (Bool-cases (ltb (length code) (f.at + 4))) [
      | inl past ↦ rw past tt
      | inr within ↦ rw within (
          let room = not-ltb→le _ _ within in
          bind-IsSafe _ _ (unguarded-IsSafe code f.at (omega arith)) (λ a.
            bind-IsSafe _ _ (unguarded-IsSafe code (f.at + 1) (omega arith)) (λ b.
              bind-IsSafe _ _ (unguarded-IsSafe code (f.at + 2) (omega arith))
                (λ c. bind-IsSafe _ _ (unguarded-IsSafe code (f.at + 3) (omega arith)) (λ d. tt)))))
    ])
  ])
]

decode_modrm-IsSafe :
    (code : Bytes) (ctx : Context) (addr : ℕ) (rex_x rex_b : Bool) (p : ℕ)
    → IsSafe (decode_modrm code ctx addr rex_x rex_b p)
unfolding decode_modrm
decode_modrm-IsSafe code ctx addr rex_x rex_b p =
    bind-IsSafe (byte code p) _ (byte-IsSafe code p) (λ modrm.
      elim (Bool-cases (modrm / 64 % 4 == 3)) [
        | inl reg ↦ rw reg tt
        | inr mem ↦ rw mem (
            bind-IsSafe _ _
              (address_form-IsSafe code (modrm / 64 % 4) (modrm % 8) rex_x rex_b (p + 1))
              (λ f. bind-IsSafe _ _ (displacement-IsSafe code (modrm / 64 % 4) f) (λ d. tt)))
      ])

decode_opcode-IsSafe :
    (code : Bytes) (ctx : Context) (addr : ℕ) (rex_x rex_b : Bool) (p : ℕ)
    → IsSafe (decode_opcode code ctx addr rex_x rex_b p)
unfolding decode_opcode
decode_opcode-IsSafe code ctx addr rex_x rex_b p =
    bind-IsSafe (byte code p) _ (byte-IsSafe code p) (λ op0.
      bind-IsSafe _ _ (opcode_end-IsSafe code op0 (p + 1))
        (decode_modrm-IsSafe code ctx addr rex_x rex_b))

decode_rex-IsSafe :
    (code : Bytes) (ctx : Context) (addr p : ℕ) → IsSafe (decode_rex code ctx addr p)
unfolding decode_rex
decode_rex-IsSafe code ctx addr p = bind-IsSafe (byte code p) _ (byte-IsSafe code p) (λ b.
    elim (Bool-cases (is_rex b)) [
      | inl rex ↦ rw rex (decode_opcode-IsSafe code ctx addr _ _ (p + 1))
      | inr none_ ↦ rw none_ (decode_opcode-IsSafe code ctx addr false false p)
    ])

outcome-IsDefined : (o : Outcome DecodedFault) → IsSafe o → IsDefined (outcome o)
outcome-IsDefined Outcome.fault s = absurd s
outcome-IsDefined Outcome.stop s = (no_fault, refl)
outcome-IsDefined (Outcome.next d) s = (d, refl)

-- Whatever the bytes of the code, the decoder gives a result: it reads none past the end.
pub decode_fault_operand-IsDefined :
    (code : Option Bytes) (ctx : Context) (addr : ℕ)
    → IsDefined (decode_fault_operand code ctx addr)
unfolding decode_fault_operand
decode_fault_operand-IsDefined none ctx addr = (no_fault, refl)
decode_fault_operand-IsDefined (some code) ctx addr = elim (Bool-cases (ltb (length code) 2)) [
  | inl short ↦ rw short (no_fault, refl)
  | inr long ↦ rw long (outcome-IsDefined _ (decode_rex-IsSafe code ctx addr (skip_prefixes code)))
]
