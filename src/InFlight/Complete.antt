-- ===== src/InFlight/Complete.antt =====
-- src/rtti/ObjectsInFlight.cpp, `DecodeObjectsInFlight`: no class is lost, and none is made up.
use redscope.Base.{
  ℕ, zero, suc, ◌+◌, ◌≤◌, ◌≡◌, refl, sym, ap, subst, ◌∙◌, ◌↔◌, ◌⊎◌, inl, inr, true, false, Option,
  some, List, [], ◌∷◌, ◌++◌, arith, leb, Bool-cases, Option-cases, Bytes, str_eq, str_eq_iff,
  str_eq_refl, length, get_elem?, take, length-append, take_all,
}
use redscope.InFlight.{
  InFlightObject, Context, RegView, max_in_flight, already_have, argument_order, add_object,
  decode_registers, decode_objects_in_flight,
}
use redscope.InFlight.Distinct.{IsShort}

already_have-more :
    (os ps : List InFlightObject) (cls : Bytes)
    → already_have os cls ≡ true
    → already_have (os ++ ps) cls ≡ true
unfolding already_have
already_have-more [] ps cls h = cc
already_have-more (o ∷ os) ps cls h = ground (arith, already_have-more os ps cls)

already_have-last :
    (os : List InFlightObject) (o : InFlightObject)
    → already_have (os ++ (o ∷ [])) o.class_name ≡ true
unfolding already_have
already_have-last [] o = rw (str_eq_refl o.class_name) refl
already_have-last (p ∷ os) o = ground (arith, already_have-last os o)

already_have-split :
    (os : List InFlightObject) (o : InFlightObject) (cls : Bytes)
    → already_have (os ++ (o ∷ [])) cls ≡ true
    → (already_have os cls ≡ true) ⊎ (o.class_name ≡ cls)
unfolding already_have
already_have-split [] o cls h = inr ((str_eq_iff o.class_name cls).0 (ground (arith, h)))
already_have-split (p ∷ os) o cls h = elim (Bool-cases (str_eq p.class_name cls)) [
  | inl e ↦ inl (rw e refl)
  | inr e ↦ elim (already_have-split os o cls (ground (arith, h, e))) [
    | inl k ↦ inl (ground (arith, k))
    | inr k ↦ inr k
  ]
]

module _ (object_class : ℕ → Option Bytes) where
  -- A register among these points to an object of the class.
  abbrev pub Points : List RegView → Bytes → Type 0
  Points regs cls =
      (i : ℕ) × (reg : Bytes) × (v : ℕ) × (get_elem? regs i ≡ some (reg, v))
      × (object_class v ≡ some cls)

module _ (object_class : ℕ → Option Bytes) (short : IsShort object_class) where
  length-add_object :
      (reg cls : Bytes) (os : List InFlightObject)
      → length (add_object object_class reg cls os) ≤ length os + 1
  unfolding add_object
  length-add_object reg [] os = omega arith
  length-add_object reg (c ∷ cls) os = elim (Bool-cases (already_have os (c ∷ cls))) [
    | inl e ↦ rw e (omega arith)
    | inr e ↦ rw e (rw (length-append os (_ ∷ [])) (omega arith))
  ]

  add_object-keeps :
      (reg cls d : Bytes) (os : List InFlightObject)
      → already_have os d ≡ true
      → already_have (add_object object_class reg cls os) d ≡ true
  unfolding add_object
  add_object-keeps reg [] d os h = h
  add_object-keeps reg (c ∷ cls) d os h = elim (Bool-cases (already_have os (c ∷ cls))) [
    | inl e ↦ rw e h
    | inr e ↦ rw e (already_have-more os (_ ∷ []) d h)
  ]

  add_object-adds :
      (reg : Bytes) (c : ℕ) (cls : Bytes) (os : List InFlightObject)
      → length (c ∷ cls) ≤ 47
      → already_have (add_object object_class reg (c ∷ cls) os) (c ∷ cls) ≡ true
  unfolding add_object
  add_object-adds reg c cls os s = elim (Bool-cases (already_have os (c ∷ cls))) [
    | inl e ↦ rw e e
    | inr e ↦ rw e (
        subst
          (λ n.
            already_have
              (os ++ (record { reg = take 3 reg; class_name = n; stack_offset = 0 } ∷ [])) (c ∷ cls)
            ≡ true)
          (sym (take_all 47 (c ∷ cls) s))
          (already_have-last os
            (record { reg = take 3 reg; class_name = c ∷ cls; stack_offset = 0 })))
  ]

  decode_registers-keeps :
      (regs : List RegView) (os : List InFlightObject) (d : Bytes)
      → already_have os d ≡ true
      → already_have (decode_registers object_class regs os) d ≡ true
  unfolding decode_registers
  decode_registers-keeps [] os d h = h
  decode_registers-keeps ((reg, v) ∷ regs) os d h =
      elim (Bool-cases (leb max_in_flight (length os))) [
        | inl full ↦ rw full h
        | inr room ↦ rw room (elim (Option-cases (object_class v)) [
          | inl e ↦ rw e (decode_registers-keeps regs os d h)
          | inr (cls, e) ↦ rw e (decode_registers-keeps regs _ d (add_object-keeps reg cls d os h))
        ])
      ]

  decode_registers_complete :
      (regs : List RegView) (os : List InFlightObject) (c : ℕ) (cls : Bytes)
      → length os + length regs ≤ max_in_flight
      → Points object_class regs (c ∷ cls)
      → already_have (decode_registers object_class regs os) (c ∷ cls) ≡ true
  unfolding decode_registers
  decode_registers_complete [] os c cls l (i, reg, v, e, k) = cc
  decode_registers_complete ((reg, v) ∷ regs) os c cls l (zero, reg', v', e, k) =
      let room : leb max_in_flight (length os) ≡ false = ground arith in
      let same : ◌≡◌ {A = RegView} (reg, v) (reg', v') = cc in
      let here : object_class v ≡ some (c ∷ cls) = ap (λ p. object_class (p.1)) same ∙ k in
      rw (room, here)
        (decode_registers-keeps regs _ (c ∷ cls)
          (add_object-adds reg c cls os (short v (c ∷ cls) here)))
  decode_registers_complete ((reg, v) ∷ regs) os c cls l (suc i, reg', v', e, k) =
      let room : leb max_in_flight (length os) ≡ false = ground arith in
      rw room (elim (Option-cases (object_class v)) [
        | inl n ↦ rw n (decode_registers_complete regs os c cls (omega arith) (i, reg', v', e, k))
        | inr (d, n) ↦ rw n (
            decode_registers_complete regs _ c cls (omega (arith, length-add_object reg d os, l))
              (i, reg', v', e, k))
      ])

  add_object_sound :
      (reg cls d : Bytes) (os : List InFlightObject)
      → length cls ≤ 47
      → already_have (add_object object_class reg cls os) d ≡ true
      → (already_have os d ≡ true) ⊎ (cls ≡ d)
  unfolding add_object
  add_object_sound reg [] d os s h = inl h
  add_object_sound reg (c ∷ cls) d os s h = elim (Bool-cases (already_have os (c ∷ cls))) [
    | inl e ↦ inl (ground (arith, h, e))
    | inr e ↦
        let o : InFlightObject = record {
          reg = take 3 reg;
          class_name = take 47 (c ∷ cls);
          stack_offset = 0;
        } in
        let added : already_have (os ++ (o ∷ [])) d ≡ true = ground (arith, h, e) in
        elim (already_have-split os o d added) [
          | inl k ↦ inl k
          | inr k ↦ inr (sym (take_all 47 (c ∷ cls) s) ∙ k)
        ]
  ]

  at_later :
      (r : RegView) (regs : List RegView) (d : Bytes)
      → Points object_class regs d
      → Points object_class (r ∷ regs) d
  at_later r regs d (i, reg, v, e, k) = (suc i, reg, v, e, k)

  decode_registers_sound :
      (regs : List RegView) (os : List InFlightObject) (d : Bytes)
      → already_have (decode_registers object_class regs os) d ≡ true
      → (already_have os d ≡ true) ⊎ Points object_class regs d
  unfolding decode_registers
  decode_registers_sound [] os d h = inl h
  decode_registers_sound ((reg, v) ∷ regs) os d h =
      elim (Bool-cases (leb max_in_flight (length os))) [
        | inl full ↦ inl (ground (arith, h, full))
        | inr room ↦ elim (Option-cases (object_class v)) [
          | inl n ↦
              let on : already_have (decode_registers object_class regs os) d ≡ true =
                ground (arith, h, room, n) in
              elim (decode_registers_sound regs os d on) [
                | inl k ↦ inl k
                | inr k ↦ inr (at_later (reg, v) regs d k)
              ]
          | inr (cls, n) ↦
              let on : already_have
                    (decode_registers object_class regs (add_object object_class reg cls os)) d
                  ≡ true =
                ground (arith, h, room, n) in
              elim (decode_registers_sound regs _ d on) [
                | inl k ↦ elim (add_object_sound reg cls d os (short v cls n) k) [
                  | inl old ↦ inl old
                  | inr same ↦ inr (0, reg, v, refl, n ∙ ap some same)
                ]
                | inr k ↦ inr (at_later (reg, v) regs d k)
              ]
        ]
      ]

  -- The registers' list names a class exactly if one of the 14 registers points to an object of it.
  pub decode_objects_in_flight_iff :
      (ctx : Context) (c : ℕ) (cls : Bytes)
      → (already_have ((decode_objects_in_flight object_class ctx).items) (c ∷ cls) ≡ true)
        ↔ Points object_class (argument_order ctx) (c ∷ cls)
  unfolding decode_objects_in_flight argument_order
  decode_objects_in_flight_iff ctx c cls = (
    (λ h. elim (decode_registers_sound (argument_order ctx) [] (c ∷ cls) h) [
      | inl none_ ↦ absurd (unfold already_have in cc)
      | inr k ↦ k
    ]),
    λ k. decode_registers_complete (argument_order ctx) [] c cls (omega arith) k,
  )
