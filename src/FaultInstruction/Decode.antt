-- ===== src/FaultInstruction/Decode.antt =====
-- src/rtti/FaultInstruction.cpp, `DecodeFaultOperand`, in the steps of the source.
use redscope.Base.{
  ℕ, ◌+◌, ◌-◌, ◌*◌, ◌/◌, ◌%◌, ◌^◌, Bool, true, false, not, ◌&&◌, ◌||◌, Option, none, some, [], ◌∷◌,
  ltb, leb, ◌==◌, if◌then◌else◌, Bytes, length, get_elem?,
}
use redscope.Base.Int.{ℤ, pos, pos_part, neg_part}
use redscope.InFlight.{Context}
use redscope.FaultInstruction.{
  DecodedFault, no_fault, reg_val, reg_name, signed, read_disp32, build_operand,
}

-- A read out of range, an early return of the empty result, or what the decoder goes on with.
pub data Outcome {ℓ} (A : Type ℓ) : Type ℓ where
  fault stop : Outcome A
  next : A → Outcome A

infixl 5 ◌>>-◌
abbrev pub ◌>>-◌ {ℓ κ} : {A : Type ℓ} {B : Type κ} → Outcome A → (A → Outcome B) → Outcome B
fault >>- f = fault
stop >>- f = stop
next a >>- f = f a

-- `if (p >= codeLen) return d;` and the read of `code[p]`.
unfoldable pub byte : Bytes → ℕ → Outcome ℕ
byte code p =
    if leb (length code) p then stop else elim (get_elem? code p) [ none ↦ fault | some b ↦ next b ]

abbrev pub is_prefix : ℕ → Bool
is_prefix b =
    b == 0x66
    || b == 0x67
    || b == 0xF0
    || b == 0xF2
    || b == 0xF3
    || b == 0x2E
    || b == 0x36
    || b == 0x3E
    || b == 0x26
    || b == 0x64
    || b == 0x65

-- Where the loop over the prefixes leaves `p`.
unfoldable pub skip_prefixes : Bytes → ℕ
skip_prefixes [] = 0
skip_prefixes (b ∷ code) = let more = skip_prefixes code + 1 in if is_prefix b then more else 0

-- `(b & 0xF0) == 0x40`.
abbrev pub is_rex : ℕ → Bool
is_rex b = b / 16 % 16 == 4

-- The opcode: `p` behind it.
unfoldable pub opcode_end : Bytes → ℕ → ℕ → Outcome ℕ
opcode_end code op0 p =
    if op0 == 0x0F
    then (byte code p >>- λ op1.
        if op1 == 0x38 || op1 == 0x3A
        then byte code (p + 1) >>- (λ skipped. next (p + 2))
        else next (p + 1))
    else next p

-- The registers of an address, and where its displacement starts.
pub record Form : Type 0 where
  pub base : Option ℕ
  pub index : Option ℕ
  pub scale : ℕ
  pub rip_rel : Bool
  pub need_disp32 : Bool
  pub at : ℕ

abbrev extended : ℕ → Bool → ℕ
extended r rex = r + (if rex then 8 else 0)

-- With the byte behind the ModRM byte.
unfoldable pub sib_form : ℕ → Bool → Bool → ℕ → ℕ → Form
sib_form mode rex_x rex_b sib p =
    let idx = sib / 8 % 8 in
    let bse = sib % 8 in
    let no_base = bse == 5 && mode == 0 in
    record {
      base = if no_base then none else some (extended bse rex_b);
      index = if idx == 4 && not rex_x then none else some (extended idx rex_x);
      scale = 2 ^ (sib / 64 % 4);
      rip_rel = false;
      need_disp32 = no_base;
      at = p;
    }

abbrev rip_form : ℕ → Form
rip_form p = record {
  base = none;
  index = none;
  scale = 1;
  rip_rel = true;
  need_disp32 = true;
  at = p;
}

abbrev reg_form : ℕ → ℕ → Form
reg_form r p = record {
  base = some r;
  index = none;
  scale = 1;
  rip_rel = false;
  need_disp32 = false;
  at = p;
}

unfoldable pub address_form : Bytes → ℕ → ℕ → Bool → Bool → ℕ → Outcome Form
unfolding sib_form
address_form code mode rm rex_x rex_b p =
    if rm == 4
    then byte code p >>- (λ sib. next (sib_form mode rex_x rex_b sib (p + 1)))
    else if rm == 5 && mode == 0
    then next (rip_form p)
    else next (reg_form (extended rm rex_b) p)

abbrev pub read : Option ℕ → Outcome ℕ
read none = fault
read (some b) = next b

-- A read that the code does not guard by itself.
abbrev pub unguarded : Bytes → ℕ → Outcome ℕ
unguarded code p = read (get_elem? code p)

unfoldable pub displacement : Bytes → ℕ → Form → Outcome ℤ
displacement code mode f =
    if mode == 1
    then byte code f.at >>- (λ b. next (signed 256 b))
    else if mode == 2 || f.need_disp32
    then (if ltb (length code) (f.at + 4)
        then stop
        else (unguarded code f.at >>- λ a. unguarded code (f.at + 1) >>- λ b.
            unguarded code (f.at + 2) >>- λ c.
            unguarded code (f.at + 3) >>- (λ d. next (read_disp32 a b c d))))
    else next (pos 0)

abbrev has : Option ℕ → Bool
has none = false
has (some r) = true

abbrev value_of : Context → Option ℕ → ℕ
value_of ctx none = 0
value_of ctx (some r) = reg_val ctx r

abbrev name_of : Option ℕ → Bytes
name_of none = []
name_of (some r) = reg_name r

-- Base, index and displacement added up in 64 bits.
unfoldable pub effective_address : Context → Form → ℤ → ℕ
effective_address ctx f disp =
    let ea = value_of ctx f.base in
    let ea1 = if has f.index then (ea + value_of ctx f.index * f.scale) % 2 ^ 64 else ea in
    (ea1 + pos_part disp + (2 ^ 64 - neg_part disp)) % 2 ^ 64

-- The result, from `d.ok = true` on.
unfoldable pub finish : Context → ℕ → Form → ℤ → DecodedFault
unfolding effective_address
finish ctx fault_addr f disp =
    let d = record no_fault {
      ok = true;
      rip_relative = f.rip_rel;
      scale = f.scale;
      disp = disp;
      base_has_reg = has f.base;
      base_reg = name_of f.base;
      base_value = value_of ctx f.base;
      base_is_null = has f.base && value_of ctx f.base == 0;
      index_has_reg = has f.index;
      index_reg = name_of f.index;
    } in
    let ea = effective_address ctx f disp in
    if f.rip_rel
    then record d { operand = build_operand d }
    else record d { operand = build_operand d; computed_ea = ea; ea_matches = ea == fault_addr }

-- From the ModRM byte at `p` on.
unfoldable pub decode_modrm : Bytes → Context → ℕ → Bool → Bool → ℕ → Outcome DecodedFault
unfolding address_form displacement finish
decode_modrm code ctx fault_addr rex_x rex_b p = byte code p >>- λ modrm.
    let mode = modrm / 64 % 4 in
    if mode == 3
    then stop
    else (address_form code mode (modrm % 8) rex_x rex_b (p + 1) >>- λ f.
        displacement code mode f >>- (λ disp. next (finish ctx fault_addr f disp)))

-- From the opcode at `p` on.
unfoldable pub decode_opcode : Bytes → Context → ℕ → Bool → Bool → ℕ → Outcome DecodedFault
unfolding decode_modrm opcode_end
decode_opcode code ctx fault_addr rex_x rex_b p = byte code p >>- λ op0.
    opcode_end code op0 (p + 1) >>- decode_modrm code ctx fault_addr rex_x rex_b

-- From behind the prefixes at `p` on.
unfoldable pub decode_rex : Bytes → Context → ℕ → ℕ → Outcome DecodedFault
unfolding decode_opcode
decode_rex code ctx fault_addr p = byte code p >>- λ b.
    if is_rex b
    then decode_opcode code ctx fault_addr (b / 2 % 2 == 1) (b % 2 == 1) (p + 1)
    else decode_opcode code ctx fault_addr false false p

abbrev pub outcome : Outcome DecodedFault → Option DecodedFault
outcome fault = none
outcome stop = some no_fault
outcome (next d) = some d

-- `none` of the code is the null pointer.
unfoldable pub decode_fault_operand : Option Bytes → Context → ℕ → Option DecodedFault
unfolding decode_rex
decode_fault_operand none ctx fault_addr = some no_fault
decode_fault_operand (some code) ctx fault_addr =
    if ltb (length code) 2
    then some no_fault
    else outcome (decode_rex code ctx fault_addr (skip_prefixes code))
