-- ===== src/FaultInstruction/Examples.antt =====
-- Tests of the decoder, and its theorems at concrete code.
use redscope.Base.{
  ◌+◌, ◌-◌, ◌*◌, ◌%◌, ◌^◌, ◌≡◌, refl, ◌↔◌, true, false, some, [], ◌∷◌, arith, IsDefined,
}
use redscope.Base.Int.{pos_part, neg_part}
use redscope.InFlight.{Context}
use redscope.FaultInstruction.{DecodedFault, no_fault, reg_val, reg_name, read_disp32}
use redscope.FaultInstruction.Decode.{decode_fault_operand, byte, skip_prefixes}
use redscope.FaultInstruction.InBounds.{decode_fault_operand-IsDefined}
use redscope.FaultInstruction.Address.{
  Load, IsEncodable, assemble, base_of, index_of, decode_fault_operand-assemble,
}

abbrev ctx : Context
ctx = record {
  rax = 0;
  rbx = 1;
  rcx = 2;
  rdx = 3;
  rsp = 0x7000;
  rbp = 5;
  rsi = 6;
  rdi = 7;
  r8 = 0x100;
  r9 = 9;
  r10 = 10;
  r11 = 11;
  r12 = 12;
  r13 = 13;
  r14 = 14;
  r15 = 15;
}

-- A load whose last byte is missing.
cut_short : decode_fault_operand (some (0x48 ∷ 0x8B ∷ 0x84 ∷ [])) ctx 0 ≡ some no_fault
unfolding decode_fault_operand byte skip_prefixes
cut_short = refl

decode_fault_operand-IsDefined_example :
    IsDefined (decode_fault_operand (some (0x66 ∷ 0x0F ∷ 0x38 ∷ [])) ctx 16)
decode_fault_operand-IsDefined_example =
    decode_fault_operand-IsDefined (some (0x66 ∷ 0x0F ∷ 0x38 ∷ [])) ctx 16

-- mov rax, [r8 + rsi * 4 + 0x10]
abbrev sample : Load
sample = record {
  reg = 0;
  base = 0;
  base_high = true;
  index = 6;
  index_high = false;
  s = 2;
  a = 0x10;
  b = 0;
  c = 0;
  d = 0;
}

sample-IsEncodable : IsEncodable sample
sample-IsEncodable = record {
  reg_lt = omega arith;
  base_lt = omega arith;
  index_lt = omega arith;
  s_lt = omega arith;
  index_ok = refl;
}

decode_fault_operand-assemble_example :
    (d : DecodedFault) × (decode_fault_operand (some (assemble sample)) ctx 0x128 ≡ some d)
    × (d.ok ≡ true)
    × (d.base_reg ≡ reg_name (base_of sample))
    × (d.base_value ≡ reg_val ctx (base_of sample))
    × (d.index_reg ≡ reg_name (index_of sample))
    × (d.scale ≡ 2 ^ sample.s)
    × (d.disp ≡ read_disp32 sample.a sample.b sample.c sample.d)
    × (d.computed_ea
        ≡ ((reg_val ctx (base_of sample) + reg_val ctx (index_of sample) * 2 ^ sample.s) % 2 ^ 64
            + pos_part (read_disp32 sample.a sample.b sample.c sample.d)
            + (2 ^ 64 - neg_part (read_disp32 sample.a sample.b sample.c sample.d)))
          % 2 ^ 64)
    × ((d.ea_matches ≡ true) ↔ (d.computed_ea ≡ 0x128))
decode_fault_operand-assemble_example =
    decode_fault_operand-assemble sample sample-IsEncodable ctx 0x128
