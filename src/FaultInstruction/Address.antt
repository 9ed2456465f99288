-- ===== src/FaultInstruction/Address.antt =====
-- src/rtti/FaultInstruction.cpp: a load that is assembled from its operand is decoded to it.
use redscope.Base.{
  ℕ, ◌+◌, ◌-◌, ◌*◌, ◌/◌, ◌%◌, ◌^◌, ◌<◌, ◌≡◌, refl, ap, ◌∙◌, ◌↔◌, Bool, true, false, not, ◌&&◌, some,
  [], ◌∷◌, arith, ◌==◌, if◌then◌else◌, ==_iff, Bytes,
}
use redscope.Base.Int.{ℤ, pos_part, neg_part}
use redscope.InFlight.{Context}
use redscope.FaultInstruction.{DecodedFault, reg_val, reg_name, read_disp32}
use redscope.FaultInstruction.Decode.{
  Outcome, byte, skip_prefixes, is_rex, is_prefix, opcode_end, Form, address_form, displacement,
  finish, decode_modrm, decode_opcode, decode_rex, decode_fault_operand, outcome,
}

-- `mov reg, [base + index * 2^s + disp32]`: the low three bits of each register and the bit that
-- its REX prefix holds, and the bytes of the displacement, lowest first.
pub record Load : Type 0 where
  pub reg : ℕ
  pub base : ℕ
  pub base_high : Bool
  pub index : ℕ
  pub index_high : Bool
  pub s : ℕ
  pub a : ℕ
  pub b : ℕ
  pub c : ℕ
  pub d : ℕ

-- The fields are in range, and the index is not the number that stands for none.
pub record IsEncodable (l : Load) : Type 0 where
  pub reg_lt : l.reg < 8
  pub base_lt : l.base < 8
  pub index_lt : l.index < 8
  pub s_lt : l.s < 4
  pub index_ok : (l.index == 4 && not l.index_high) ≡ false

abbrev rex_byte : Bool → Bool → ℕ
rex_byte x b = 0x48 + (if x then 2 else 0) + (if b then 1 else 0)

rex_no_prefix : (x b : Bool) → is_prefix (rex_byte x b) ≡ false
rex_no_prefix true true = refl
rex_no_prefix true false = refl
rex_no_prefix false true = refl
rex_no_prefix false false = refl

rex_is_rex : (x b : Bool) → is_rex (rex_byte x b) ≡ true
rex_is_rex true true = refl
rex_is_rex true false = refl
rex_is_rex false true = refl
rex_is_rex false false = refl

rex_x : (x b : Bool) → (rex_byte x b / 2 % 2 == 1) ≡ x
rex_x true true = refl
rex_x true false = refl
rex_x false true = refl
rex_x false false = refl

rex_b : (x b : Bool) → (rex_byte x b % 2 == 1) ≡ b
rex_b true true = refl
rex_b true false = refl
rex_b false true = refl
rex_b false false = refl

abbrev pub assemble : Load → Bytes
assemble l =
    rex_byte l.index_high l.base_high
    ∷ 0x8B
    ∷ (0x84 + l.reg * 8)
    ∷ (l.s * 64 + l.index * 8 + l.base)
    ∷ l.a
    ∷ l.b
    ∷ l.c
    ∷ l.d
    ∷ []

abbrev pub base_of : Load → ℕ
base_of l = l.base + (if l.base_high then 8 else 0)

abbrev pub index_of : Load → ℕ
index_of l = l.index + (if l.index_high then 8 else 0)

abbrev form_of : Load → Form
form_of l = record {
  base = some (base_of l);
  index = some (index_of l);
  scale = 2 ^ l.s;
  rip_rel = false;
  need_disp32 = false;
  at = 4;
}

module _ (l : Load) (ok : IsEncodable l) (ctx : Context) (addr : ℕ) where
  -- The three fields of the SIB byte.
  sib_base : (l.s * 64 + l.index * 8 + l.base) % 8 ≡ l.base
  sib_base = omega (arith, ok.base_lt, ok.index_lt, ok.s_lt)

  sib_index : (l.s * 64 + l.index * 8 + l.base) / 8 % 8 ≡ l.index
  sib_index = omega (arith, ok.base_lt, ok.index_lt, ok.s_lt)

  sib_scale : (l.s * 64 + l.index * 8 + l.base) / 64 % 4 ≡ l.s
  sib_scale = omega (arith, ok.base_lt, ok.index_lt, ok.s_lt)

  has_base : (l.base == 5 && false) ≡ false
  has_base = ground arith

  disp_of : ℤ
  disp_of = read_disp32 l.a l.b l.c l.d

  decode_modrm-assemble :
      decode_modrm (assemble l) ctx addr l.index_high l.base_high 2
      ≡ Outcome.next (finish ctx addr (form_of l) disp_of)
  unfolding decode_modrm address_form displacement byte disp_of
  decode_modrm-assemble =
      let mode : (0x84 + l.reg * 8) / 64 % 4 ≡ 2 = omega (arith, ok.reg_lt) in
      let rm : (0x84 + l.reg * 8) % 8 ≡ 4 = omega (arith, ok.reg_lt) in
      rw (mode, rm) (rw (sib_base, sib_index, sib_scale) (rw (has_base, ok.index_ok) refl))

  skip_prefixes-assemble : skip_prefixes (assemble l) ≡ 0
  unfolding skip_prefixes
  skip_prefixes-assemble = rw (rex_no_prefix l.index_high l.base_high) refl

  decode_opcode-assemble :
      decode_opcode (assemble l) ctx addr l.index_high l.base_high 1
      ≡ Outcome.next (finish ctx addr (form_of l) disp_of)
  unfolding decode_opcode opcode_end byte
  decode_opcode-assemble = decode_modrm-assemble

  decode_rex-assemble :
      decode_rex (assemble l) ctx addr 0 ≡ Outcome.next (finish ctx addr (form_of l) disp_of)
  unfolding decode_rex byte
  decode_rex-assemble =
      let taken = rex_is_rex l.index_high l.base_high in
      rw (taken, rex_x l.index_high l.base_high, rex_b l.index_high l.base_high)
        decode_opcode-assemble

  decode-assemble :
      decode_fault_operand (some (assemble l)) ctx addr ≡ some (finish ctx addr (form_of l) disp_of)
  unfolding decode_fault_operand
  decode-assemble =
      ap (λ p. outcome (decode_rex (assemble l) ctx addr p)) skip_prefixes-assemble
      ∙ ap outcome decode_rex-assemble

  -- The decoder, given the bytes of a load from [base + index * 2^s + disp32], finds both registers
  -- with the value of the base, the scale and the displacement, and computes the address in 64 bits;
  -- it matches exactly where that is the faulting address.
  pub decode_fault_operand-assemble :
      (d : DecodedFault) × (decode_fault_operand (some (assemble l)) ctx addr ≡ some d)
      × (d.ok ≡ true)
      × (d.base_reg ≡ reg_name (base_of l))
      × (d.base_value ≡ reg_val ctx (base_of l))
      × (d.index_reg ≡ reg_name (index_of l))
      × (d.scale ≡ 2 ^ l.s)
      × (d.disp ≡ read_disp32 l.a l.b l.c l.d)
      × (d.computed_ea
          ≡ ((reg_val ctx (base_of l) + reg_val ctx (index_of l) * 2 ^ l.s) % 2 ^ 64
              + pos_part (read_disp32 l.a l.b l.c l.d)
              + (2 ^ 64 - neg_part (read_disp32 l.a l.b l.c l.d)))
            % 2 ^ 64)
      × ((d.ea_matches ≡ true) ↔ (d.computed_ea ≡ addr))
  unfolding finish disp_of
  decode_fault_operand-assemble = (
    finish ctx addr (form_of l) disp_of,
    decode-assemble,
    refl,
    refl,
    refl,
    refl,
    refl,
    refl,
    refl,
    ==_iff _ addr,
  )
