-- ===== src/InFlight.antt =====
-- src/rtti/ObjectsInFlight.h and src/rtti/ObjectsInFlight.cpp: the objects that the registers of a
-- crash point to, and what a null pointer means. What lies behind an address (`Inspect` of
-- src/rtti/PointerType.cpp) reads the process and is an argument here.
pub mod Distinct
pub mod Complete
pub mod Examples
use redscope.Base.{
  ℕ, zero, ◌+◌, ◌*◌, ◌%◌, ◌^◌, Bool, true, false, ◌||◌, Option, none, some, List, [], ◌∷◌, ◌++◌,
  ltb, leb, ◌==◌, if◌then◌else◌, Bytes, CStr, str_eq, length, take, codes,
}
use redscope.Format.{hex, printed}
use redscope.Modules.{find_module_by_pc}
use redscope.Snapshot.{Snapshot}

pub record InFlightObject : Type 0 where
  pub reg : Bytes
  pub class_name : Bytes
  pub stack_offset : ℕ

abbrev pub max_in_flight : ℕ
max_in_flight = 14

-- `count` is the length of `items`.
pub record InFlightSet : Type 0 where
  pub items : List InFlightObject

-- The 16 general registers of a `CONTEXT`.
pub record Context : Type 0 where
  pub rax : ℕ
  pub rbx : ℕ
  pub rcx : ℕ
  pub rdx : ℕ
  pub rsp : ℕ
  pub rbp : ℕ
  pub rsi : ℕ
  pub rdi : ℕ
  pub r8 : ℕ
  pub r9 : ℕ
  pub r10 : ℕ
  pub r11 : ℕ
  pub r12 : ℕ
  pub r13 : ℕ
  pub r14 : ℕ
  pub r15 : ℕ

-- A register's name and its value.
abbrev pub RegView : Type 0
RegView = Bytes × ℕ

unfoldable pub already_have : List InFlightObject → Bytes → Bool
already_have [] cls = false
already_have (o ∷ os) cls = str_eq o.class_name cls || already_have os cls

-- The order in which the registers are looked at: arguments first.
unfoldable pub argument_order : Context → List RegView
argument_order c =
    (codes "RCX", c.rcx)
    ∷ (codes "RDX", c.rdx)
    ∷ (codes "R8", c.r8)
    ∷ (codes "R9", c.r9)
    ∷ (codes "RAX", c.rax)
    ∷ (codes "RBX", c.rbx)
    ∷ (codes "RSI", c.rsi)
    ∷ (codes "RDI", c.rdi)
    ∷ (codes "R10", c.r10)
    ∷ (codes "R11", c.r11)
    ∷ (codes "R12", c.r12)
    ∷ (codes "R13", c.r13)
    ∷ (codes "R14", c.r14)
    ∷ (codes "R15", c.r15)
    ∷ []

-- `object_class v` is the class of the object at `v`, of less than 48 bytes, or none where `Inspect`
-- sees something else there.
module _ (object_class : ℕ → Option Bytes) where
  -- The body of the loop for a register that points to an object of class `cls`.
  unfoldable pub add_object : Bytes → Bytes → List InFlightObject → List InFlightObject
  unfolding already_have
  add_object reg [] objs = objs
  add_object reg (c ∷ cls) objs =
      if already_have objs (c ∷ cls)
      then objs
      else objs
        ++ (record { reg = take 3 reg; class_name = take 47 (c ∷ cls); stack_offset = 0 } ∷ [])

  unfoldable pub decode_registers : List RegView → List InFlightObject → List InFlightObject
  unfolding add_object
  decode_registers [] objs = objs
  decode_registers ((reg, v) ∷ regs) objs =
      let next : List InFlightObject = elim (object_class v) [
        | none ↦ objs
        | some cls ↦ add_object reg cls objs
      ] in
      let on = decode_registers regs next in if leb max_in_flight (length objs) then objs else on

  unfoldable pub decode_objects_in_flight : Context → InFlightSet
  unfolding decode_registers argument_order
  decode_objects_in_flight ctx = record { items = decode_registers (argument_order ctx) [] }

-- The loop of `DecodeObjectsOnStack` over the slots that could be read, from slot `i` on.
-- `class_at v` is what `TryGetObjectClassName` finds at `v`. A fault of the module search counts as
-- no module; on sorted modules there is none.
abbrev pub in_module : Option Snapshot → ℕ → Bool
in_module none v = false
in_module (some s) v = elim (find_module_by_pc s.modules v) [ some (some m) ↦ true | _ ↦ false ]

module _ (snap : Option Snapshot) (class_at : ℕ → Option Bytes) where
  unfoldable pub stack_object : ℕ → ℕ → List InFlightObject → List InFlightObject
  unfolding already_have
  stack_object i v objs =
      if ltb v 0x10000 || leb 0x0000800000000000 v
      then objs
      else if in_module snap v
      then objs
      else elim (class_at v) [
        | none ↦ objs
        | some cls ↦
            if already_have objs cls
            then objs
            else objs
              ++ (record {
                reg = codes "stk";
                class_name = take 47 cls;
                stack_offset = i * 8 % 2 ^ 32;
              }
                  ∷ [])
      ]

  unfoldable pub decode_stack : ℕ → List ℕ → List InFlightObject → List InFlightObject
  unfolding stack_object
  decode_stack i [] objs = objs
  decode_stack i (v ∷ vs) objs =
      let on = decode_stack (i + 1) vs (stack_object i v objs) in
      if ltb (length objs) max_in_flight then on else objs

  -- `readable` holds the slots above the stack pointer that could be read.
  unfoldable pub decode_objects_on_stack : Context → List ℕ → InFlightSet
  unfolding decode_stack
  decode_objects_on_stack ctx readable =
      if ctx.rsp == 0
      then record { items = [] }
      else record { items = decode_stack 0 (take 512 readable) [] }

unfoldable pub null_order : Context → List RegView
null_order c =
    (codes "RAX", c.rax)
    ∷ (codes "RBX", c.rbx)
    ∷ (codes "RCX", c.rcx)
    ∷ (codes "RDX", c.rdx)
    ∷ (codes "RSI", c.rsi)
    ∷ (codes "RDI", c.rdi)
    ∷ (codes "RBP", c.rbp)
    ∷ (codes "R8", c.r8)
    ∷ (codes "R9", c.r9)
    ∷ (codes "R10", c.r10)
    ∷ (codes "R11", c.r11)
    ∷ (codes "R12", c.r12)
    ∷ (codes "R13", c.r13)
    ∷ (codes "R14", c.r14)
    ∷ (codes "R15", c.r15)
    ∷ []

-- The loop that lists the registers that are zero in `nulls`, of 80 bytes, and counts them.
unfoldable pub list_nulls : List RegView → Bytes → ℕ → Bytes × ℕ
list_nulls [] nulls count = (nulls, count)
list_nulls ((n, v) ∷ gprs) nulls count =
    let skip = list_nulls gprs nulls count in
    let sep = if ltb 0 (length nulls) then codes ", " else [] in
    let on = list_nulls gprs (nulls ++ (sep ++ n)) (count + 1) in
    if v == 0 then (if leb 80 (length nulls + length n + 2) then (nulls, count) else on) else skip

-- `(op && op[0]) ? op : "access"`.
abbrev op_text : CStr → Bytes
op_text (some (c ∷ s)) = c ∷ s
op_text _ = codes "access"

-- What is written, or none where the function returns false.
unfoldable pub interpret_null_deref : Context → ℕ → CStr → ℕ → Option Bytes
unfolding list_nulls null_order
interpret_null_deref ctx data_addr op cap =
    if ltb cap 2
    then none
    else if leb 0x10000 data_addr
    then none
    else let (nulls, count) = list_nulls (null_order ctx) [] 0 in
      let what = op_text op in
      let text =
        if ltb 0 count
        then codes "null-pointer "
          ++ (what
              ++ (codes " of field +0x"
                  ++ (hex data_addr
                      ++ (codes " (NULL register"
                          ++ ((if count == 1 then [] else codes "s")
                              ++ (codes ": " ++ (nulls ++ codes ")")))))))
        else what
          ++ (codes " at offset +0x"
              ++ (hex data_addr
                  ++ codes " off a near-null/computed pointer (no register is exactly zero)")) in
      some (printed cap text)
