-- ===== src/InFlight/Distinct.antt =====
-- src/rtti/ObjectsInFlight.cpp: the lists of objects name each class once and never overflow.
use redscope.Base.{
  ℕ, ◌+◌, ◌≤◌, ◌<◌, ◌≡◌, refl, ◌∙◌, inl, inr, false, ◌||◌, Option, some, List, [], ◌∷◌, ◌++◌, arith,
  ltb, leb, ◌==◌, ltb→lt, not-leb→lt, Bool-cases, Option-cases, Bytes, str_eq, str_eq_sym, length,
  take, length-append, take_all,
}
use redscope.Snapshot.{Snapshot}
use redscope.InFlight.{
  InFlightObject, Context, RegView, max_in_flight, already_have, argument_order, add_object,
  decode_registers, decode_objects_in_flight, stack_object, decode_stack, decode_objects_on_stack,
  in_module,
}

-- No two objects have the same class.
abbrev pub IsDistinct : List InFlightObject → Type 0
IsDistinct [] = Unit
IsDistinct (o ∷ os) = (already_have os o.class_name ≡ false) × IsDistinct os

-- At most as many objects as the array holds, no two of one class.
abbrev pub Fits : List InFlightObject → Type 0
Fits os = (length os ≤ max_in_flight) × IsDistinct os

already_have-append :
    (os : List InFlightObject) (o : InFlightObject) (cls : Bytes)
    → already_have os cls ≡ false
    → str_eq o.class_name cls ≡ false
    → already_have (os ++ (o ∷ [])) cls ≡ false
unfolding already_have
already_have-append [] o cls h e = ground (arith, e)
already_have-append (p ∷ os) o cls h e = ground (arith, already_have-append os o cls)

append-IsDistinct :
    (os : List InFlightObject) (o : InFlightObject)
    → IsDistinct os
    → already_have os o.class_name ≡ false
    → IsDistinct (os ++ (o ∷ []))
unfolding already_have
append-IsDistinct [] o d h = (refl, tt)
append-IsDistinct (p ∷ os) o d h = (
  already_have-append os o p.class_name d.0
      (str_eq_sym o.class_name p.class_name ∙ ground (arith, h)),
  append-IsDistinct os o d.1 (ground (arith, h)),
)

-- An object that is new, with its class kept whole, keeps the list in order.
append-Fits :
    (os : List InFlightObject) (o : InFlightObject)
    → length os < max_in_flight
    → IsDistinct os
    → already_have os o.class_name ≡ false
    → Fits (os ++ (o ∷ []))
append-Fits os o l d h = (omega (arith, l, length-append os (o ∷ [])), append-IsDistinct os o d h)

-- The class names that a reader of the process gives are texts in arrays of 48 bytes.
abbrev pub IsShort : (ℕ → Option Bytes) → Type 0
IsShort object_class = (v : ℕ) (cls : Bytes) → object_class v ≡ some cls → length cls ≤ 47

module _ (object_class : ℕ → Option Bytes) (short : IsShort object_class) where
  add_object-Fits :
      (reg cls : Bytes) (os : List InFlightObject)
      → length cls ≤ 47
      → length os < max_in_flight
      → IsDistinct os
      → Fits (add_object object_class reg cls os)
  unfolding add_object
  add_object-Fits reg [] os s l d = (omega arith, d)
  add_object-Fits reg (c ∷ cls) os s l d = elim (Bool-cases (already_have os (c ∷ cls))) [
    | inl e ↦ rw e (omega arith, d)
    | inr e ↦ rw e (append-Fits os _ l d (rw (take_all 47 (c ∷ cls) s) e))
  ]

  decode_registers-Fits :
      (regs : List RegView) (os : List InFlightObject)
      → Fits os
      → Fits (decode_registers object_class regs os)
  unfolding decode_registers
  decode_registers-Fits [] os f = f
  decode_registers-Fits ((reg, v) ∷ regs) os f = elim (Bool-cases (leb max_in_flight (length os))) [
    | inl full ↦ rw full f
    | inr room ↦ rw room (elim (Option-cases (object_class v)) [
      | inl e ↦ rw e (decode_registers-Fits regs os f)
      | inr (cls, e) ↦ rw e (
          decode_registers-Fits regs _
            (add_object-Fits reg cls os (short v cls e) (not-leb→lt _ _ room) f.1))
    ])
  ]

  decode_objects_in_flight-Fits :
      (ctx : Context) → Fits ((decode_objects_in_flight object_class ctx).items)
  unfolding decode_objects_in_flight
  decode_objects_in_flight-Fits ctx =
      decode_registers-Fits (argument_order ctx) [] (omega arith, tt)

  stack_object-Fits :
      (snap : Option Snapshot) (i v : ℕ) (os : List InFlightObject)
      → length os < max_in_flight
      → IsDistinct os
      → Fits (stack_object snap object_class i v os)
  unfolding stack_object
  stack_object-Fits snap i v os l d =
      elim (Bool-cases (ltb v 0x10000 || leb 0x0000800000000000 v)) [
        | inl e ↦ rw e (omega arith, d)
        | inr e ↦ rw e (elim (Bool-cases (in_module snap v)) [
          | inl m ↦ rw m (omega arith, d)
          | inr m ↦ rw m (elim (Option-cases (object_class v)) [
            | inl n ↦ rw n (omega arith, d)
            | inr (cls, n) ↦ rw n (elim (Bool-cases (already_have os cls)) [
              | inl h ↦ rw h (omega arith, d)
              | inr h ↦ rw h (append-Fits os _ l d (rw (take_all 47 cls (short v cls n)) h))
            ])
          ])
        ])
      ]

  decode_stack-Fits :
      (snap : Option Snapshot) (i : ℕ) (vs : List ℕ) (os : List InFlightObject)
      → Fits os
      → Fits (decode_stack snap object_class i vs os)
  unfolding decode_stack
  decode_stack-Fits snap i [] os f = f
  decode_stack-Fits snap i (v ∷ vs) os f = elim (Bool-cases (ltb (length os) max_in_flight)) [
    | inl room ↦
        rw room (
          decode_stack-Fits snap (i + 1) vs _ (stack_object-Fits snap i v os (ltb→lt _ _ room) f.1))
    | inr full ↦ rw full f
  ]

  decode_objects_on_stack-Fits :
      (snap : Option Snapshot) (ctx : Context) (readable : List ℕ)
      → Fits ((decode_objects_on_stack snap object_class ctx readable).items)
  unfolding decode_objects_on_stack
  decode_objects_on_stack-Fits snap ctx readable = elim (Bool-cases (ctx.rsp == 0)) [
    | inl e ↦ simp e (omega arith, tt)
    | inr e ↦ simp e (decode_stack-Fits snap 0 (take 512 readable) [] (omega arith, tt))
  ]

  -- The registers of a crash, and its stack, each give at most 14 objects, no two of one class.
  pub decode_objects-Fits :
      (snap : Option Snapshot) (ctx : Context) (readable : List ℕ)
      → Fits ((decode_objects_in_flight object_class ctx).items)
        × Fits ((decode_objects_on_stack snap object_class ctx readable).items)
  decode_objects-Fits snap ctx readable =
      (decode_objects_in_flight-Fits ctx, decode_objects_on_stack-Fits snap ctx readable)
