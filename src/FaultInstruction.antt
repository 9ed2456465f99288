-- ===== src/FaultInstruction.antt =====
-- src/rtti/FaultInstruction.h and src/rtti/FaultInstruction.cpp: the memory operand of the
-- instruction that faulted. Code is a list of bytes, `code_len` its length. `none` is a read past it.
pub mod Decode
pub mod InBounds
pub mod Address
pub mod Examples
use redscope.Base.{
  ℕ, ◌+◌, ◌-◌, ◌*◌, ◌/◌, ◌^◌, Bool, false, not, ◌&&◌, ◌||◌, List, [], ◌∷◌, ◌++◌, ltb, if◌then◌else◌,
  Bytes, length, get_or, take, codes,
}
use redscope.Base.Int.{ℤ, pos, negsuc, sub_ℕ, ltb_ℤ, neg_part, pos_part}
use redscope.Format.{hex, decimal, printed}
use redscope.InFlight.{Context}

pub record DecodedFault : Type 0 where
  pub ok : Bool
  pub ea_matches : Bool
  pub rip_relative : Bool
  pub base_has_reg : Bool
  pub index_has_reg : Bool
  pub base_is_null : Bool
  pub scale : ℕ
  pub disp : ℤ
  pub base_value : ℕ
  pub computed_ea : ℕ
  pub base_reg : Bytes
  pub index_reg : Bytes
  pub operand : Bytes

abbrev pub no_fault : DecodedFault
no_fault = record {
  ok = false;
  ea_matches = false;
  rip_relative = false;
  base_has_reg = false;
  index_has_reg = false;
  base_is_null = false;
  scale = 1;
  disp = pos 0;
  base_value = 0;
  computed_ea = 0;
  base_reg = [];
  index_reg = [];
  operand = [];
}

abbrev pub reg_names : List Bytes
reg_names =
    codes "RAX"
    ∷ codes "RCX"
    ∷ codes "RDX"
    ∷ codes "RBX"
    ∷ codes "RSP"
    ∷ codes "RBP"
    ∷ codes "RSI"
    ∷ codes "RDI"
    ∷ codes "R8"
    ∷ codes "R9"
    ∷ codes "R10"
    ∷ codes "R11"
    ∷ codes "R12"
    ∷ codes "R13"
    ∷ codes "R14"
    ∷ codes "R15"
    ∷ []

-- The registers in the order of their numbers.
unfoldable pub reg_val : Context → ℕ → ℕ
reg_val c i =
    get_or
      (c.rax ∷ c.rcx ∷ c.rdx ∷ c.rbx ∷ c.rsp ∷ c.rbp ∷ c.rsi ∷ c.rdi ∷ c.r8 ∷ c.r9 ∷ c.r10 ∷ c.r11
        ∷ c.r12 ∷ c.r13 ∷ c.r14 ∷ c.r15 ∷ [])
      i 0

-- `CopyReg(dst, kRegNames[i])`.
unfoldable pub reg_name : ℕ → Bytes
reg_name i = take 3 (get_or reg_names i [])

-- A number of `n` values, as a signed one: the upper half is below zero.
abbrev pub signed : ℕ → ℕ → ℤ
signed n v = if ltb v (n / 2) then pos v else sub_ℕ v n

-- The displacement of four bytes, lowest first.
unfoldable pub read_disp32 : ℕ → ℕ → ℕ → ℕ → ℤ
read_disp32 a b c d = signed (2 ^ 32) (a + b * 2 ^ 8 + c * 2 ^ 16 + d * 2 ^ 24)

-- One `snprintf` at the end of the buffer of 48 bytes and the step of `n` behind it.
abbrev put : Bytes → Bytes → Bytes
put buf s = buf ++ take (47 - length buf) s

-- The text of the displacement.
abbrev disp_text : Bytes → ℤ → Bytes
disp_text buf (pos v) =
    put buf ((if ltb 1 (length buf) then codes "+" else []) ++ (codes "0x" ++ hex v))
disp_text buf (negsuc v) = put buf (codes "-0x" ++ hex (v + 1))

unfoldable pub build_operand : DecodedFault → Bytes
build_operand d =
    let b0 = codes "[" in
    let b1 =
      if d.rip_relative
      then put b0 (codes "RIP")
      else if d.base_has_reg
      then put b0 d.base_reg
      else b0 in
    let b2 =
      if d.index_has_reg
      then put b1 (
          (if ltb 1 (length b1) then codes "+" else [])
          ++ (d.index_reg ++ (codes "*" ++ decimal d.scale)))
      else b1 in
    let zero_disp = not (ltb_ℤ d.disp (pos 0)) && not (ltb_ℤ (pos 0) d.disp) in
    let b3 =
      if not zero_disp || (not d.base_has_reg && not d.index_has_reg && not d.rip_relative)
      then disp_text b2 d.disp
      else b2 in
    if ltb (length b3) 47 then b3 ++ codes "]" else b3
