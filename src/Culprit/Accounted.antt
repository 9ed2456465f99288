-- ===== src/Culprit/Accounted.antt =====
-- src/report/CulpritHeuristic.cpp: a verdict says what the crash, the snapshot and the stack say.
use redscope.Base.{
  ℕ, ◌≡◌, refl, ◌⊎◌, inl, inr, Bool, true, false, ◌||◌, Option, none, some, [], ◌∷◌, ◌==◌,
  if◌then◌else◌, ==_iff, Bool-cases, Bytes, CStr, ◌>>=◌, get_elem?, All, codes, get_elem?-some,
}
use redscope.Text.{iequals_ascii}
use redscope.Modules.{ModuleKind, ModuleInfoFixed, find_module_by_pc}
use redscope.Modules.Search.{Holds, find_module_by_pc-Found}
use redscope.Snapshot.{Snapshot}
use redscope.InFlight.{InFlightSet}
use redscope.Fingerprint.{present}
use redscope.Fingerprint.Compute.Tail.{IsReadable}
use redscope.Culprit.{
  CulpritConfidence, CulpritCategory, CulpritVerdict, is_host_framework_module, format_in_flight,
}
use redscope.Culprit.Verdict.{
  code_verdict, mod_verdict, game_verdict, system_verdict, module_verdict, found_verdict,
  snapshot_verdict, or_else, compute_verdict,
}

-- The module of the table that holds the faulting address, and its name.
pub record Faulting (rip : ℕ) (s : Snapshot) : Type 0 where
  pub info : ModuleInfoFixed
  pub index : ℕ
  pub name : Bytes
  pub at : get_elem? s.modules index ≡ some info
  pub holds : Holds info rip
  pub named : get_elem? s.module_names info.name_index ≡ some name

-- The same module is no part of REDscope, and has the kind.
abbrev pub IsOf : {rip : ℕ} {s : Snapshot} → Faulting rip s → ModuleKind → Type 0
IsOf f k = (f.info.kind ≡ k) × (iequals_ascii (some f.name) (some (codes "REDscope.dll")) ≡ false)

-- No module of the table holds the address.
abbrev pub IsOutside : ℕ → Snapshot → Type 0
IsOutside rip s = (i : ℕ) (m : ModuleInfoFixed) → get_elem? s.modules i ≡ some m → ¬ Holds m rip

-- The exception codes that decide the verdict by themselves, with what they decide.
abbrev pub IsByCode : ℕ → CulpritCategory → CulpritConfidence → Type 0
IsByCode code CulpritCategory.stack_overflow k = (code ≡ 0xC00000FD) × (k ≡ CulpritConfidence.high)
IsByCode code CulpritCategory.memory k =
    (((code ≡ 0xC0000374) ⊎ (code ≡ 0xC0000409)) × (k ≡ CulpritConfidence.high))
    ⊎ ((code ≡ 0xC0000006) × (k ≡ CulpritConfidence.medium))
IsByCode code CulpritCategory.system k =
    ((code ≡ 0x887A0005) ⊎ ((code ≡ 0x887A0006) ⊎ (code ≡ 0x887A0007)))
    × (k ≡ CulpritConfidence.low)
IsByCode code CulpritCategory.redscope_itself k = ⊥
IsByCode code CulpritCategory.is_mod k = ⊥
IsByCode code CulpritCategory.game k = ⊥
IsByCode code CulpritCategory.unknown k = ⊥
IsByCode code CulpritCategory.asset k = ⊥

-- None of them.
abbrev pub IsPlain : ℕ → Type 0
IsPlain code =
    All (λ (c : ℕ). ¬ (code ≡ c))
      (0xC00000FD ∷ 0xC0000374 ∷ 0xC0000409 ∷ 0xC0000006 ∷ 0x887A0005 ∷ 0x887A0006 ∷ 0x887A0007
        ∷ [])

-- What the place of the fault and the mod on the stack speak for.
abbrev pub IsByModule : ℕ → Snapshot → CStr → CulpritCategory → CulpritConfidence → Type 0
IsByModule rip s m CulpritCategory.system k =
    (f : Faulting rip s) × IsOf f ModuleKind.system
    × (present m ≡ false)
    × (k ≡ CulpritConfidence.low)
IsByModule rip s m CulpritCategory.redscope_itself k =
    (f : Faulting rip s) × (iequals_ascii (some f.name) (some (codes "REDscope.dll")) ≡ true)
    × (k ≡ CulpritConfidence.high)
IsByModule rip s m CulpritCategory.is_mod k =
    (f : Faulting rip s) × ((IsOf f ModuleKind.is_mod
        × (k ≡ (
            if is_host_framework_module f.name
            then CulpritConfidence.low
            else CulpritConfidence.high)))
      ⊎ ((IsOf f ModuleKind.game ⊎ IsOf f ModuleKind.system)
          × (present m ≡ true)
          × (k ≡ CulpritConfidence.medium)))
IsByModule rip s m CulpritCategory.game k =
    (f : Faulting rip s) × IsOf f ModuleKind.game
    × (present m ≡ false)
    × (k ≡ CulpritConfidence.medium)
IsByModule rip s m CulpritCategory.unknown k =
    (IsOutside rip s × (k ≡ CulpritConfidence.unknown))
    ⊎ ((f : Faulting rip s) × IsOf f ModuleKind.unknown × (k ≡ CulpritConfidence.low))
IsByModule rip s m CulpritCategory.stack_overflow k = ⊥
IsByModule rip s m CulpritCategory.memory k = ⊥
IsByModule rip s m CulpritCategory.asset k = ⊥

-- What the snapshot speaks for.
abbrev pub IsBySnapshot : ℕ → Option Snapshot → CStr → CulpritCategory → CulpritConfidence → Type 0
IsBySnapshot rip none m c k = (c ≡ CulpritCategory.unknown) × (k ≡ CulpritConfidence.unknown)
IsBySnapshot rip (some s) m c k =
    ((s.oom_suspected ≡ true) × (c ≡ CulpritCategory.memory) × (k ≡ CulpritConfidence.low))
    ⊎ ((s.oom_suspected ≡ false) × IsByModule rip s m c k)

-- A code that decides comes first, then a suspected lack of memory, then the place.
abbrev pub IsDue : ℕ → ℕ → Option Snapshot → CStr → CulpritCategory → CulpritConfidence → Type 0
IsDue code rip snap m c k = IsByCode code c k ⊎ (IsPlain code × IsBySnapshot rip snap m c k)

-- There is a verdict, and its category and confidence are due.
abbrev IsDueTo : ℕ → ℕ → Option Snapshot → CStr → Option CulpritVerdict → Type 0
IsDueTo code rip snap m none = ⊥
IsDueTo code rip snap m (some v) = IsDue code rip snap m v.category v.confidence

abbrev IsSeen : ℕ → Option Snapshot → CStr → Option CulpritVerdict → Type 0
IsSeen rip snap m none = ⊥
IsSeen rip snap m (some v) = IsBySnapshot rip snap m v.category v.confidence

seen-IsDueTo :
    (code rip : ℕ) (snap : Option Snapshot) (m : CStr) (o : Option CulpritVerdict)
    → IsPlain code
    → IsSeen rip snap m o
    → IsDueTo code rip snap m o
seen-IsDueTo code rip snap m none p h = h
seen-IsDueTo code rip snap m (some v) p h = inr (p, h)

or_codes : (a b c : Bool) → (a || b || c) ≡ true → (a ≡ true) ⊎ ((b ≡ true) ⊎ (c ≡ true))
or_codes true b c e = inl refl
or_codes false true c e = inr (inl refl)
or_codes false false c e = inr (inr e)

no_codes : (a b c : Bool) → (a || b || c) ≡ false → (a ≡ false) × (b ≡ false) × (c ≡ false)
no_codes true b c e = absurd (cc)
no_codes false true c e = absurd (cc)
no_codes false false c e = (refl, refl, e)

other_code : (a b : ℕ) → (a == b) ≡ false → ¬ (a ≡ b)
other_code a b n e = let y : (a == b) ≡ true = (==_iff a b).1 e in absurd (cc)

code_verdict-IsDueTo :
    (code rip : ℕ) (snap : Option Snapshot) (m : CStr) (rest : Option CulpritVerdict)
    → IsSeen rip snap m rest
    → IsDueTo code rip snap m (or_else (code_verdict code) rest)
unfolding code_verdict
code_verdict-IsDueTo code rip snap m rest seen = elim (Bool-cases (code == 0xC00000FD)) [
  | inl e ↦ rw e (inl ((==_iff _ _).0 e, refl))
  | inr n0 ↦ rw n0 (elim (Bool-cases (code == 0xC0000374)) [
    | inl e ↦ rw e (inl (inl (inl ((==_iff _ _).0 e), refl)))
    | inr n1 ↦ rw n1 (elim (Bool-cases (code == 0xC0000409)) [
      | inl e ↦ rw e (inl (inl (inr ((==_iff _ _).0 e), refl)))
      | inr n2 ↦ rw n2 (elim (Bool-cases (code == 0xC0000006)) [
        | inl e ↦ rw e (inl (inr ((==_iff _ _).0 e, refl)))
        | inr n3 ↦
            rw n3
              (elim (Bool-cases (code == 0x887A0005 || code == 0x887A0006 || code == 0x887A0007)) [
                | inl e ↦ rw e (
                    inl (
                      elim (or_codes _ _ _ e) [
                        | inl a ↦ inl ((==_iff _ _).0 a)
                        | inr (inl a) ↦ inr (inl ((==_iff _ _).0 a))
                        | inr (inr a) ↦ inr (inr ((==_iff _ _).0 a))
                      ],
                      refl,
                    ))
                | inr n4 ↦
                    let n = no_codes _ _ _ n4 in
                    rw n4 (
                      seen-IsDueTo code rip snap m rest
                        (
                          other_code _ _ n0,
                          (
                            other_code _ _ n1,
                            (
                              other_code _ _ n2,
                              (
                                other_code _ _ n3,
                                (
                                  other_code _ _ n.0,
                                  (other_code _ _ n.1, (other_code _ _ n.2, tt)),
                                ),
                              ),
                            ),
                          ),
                        )
                        seen)
              ])
      ])
    ])
  ])
]

ModuleKind-cases :
    (k : ModuleKind)
    → (k ≡ ModuleKind.is_mod)
      ⊎ ((k ≡ ModuleKind.game) ⊎ ((k ≡ ModuleKind.system) ⊎ (k ≡ ModuleKind.unknown)))
ModuleKind-cases ModuleKind.is_mod = inl refl
ModuleKind-cases ModuleKind.game = inr (inl refl)
ModuleKind-cases ModuleKind.system = inr (inr (inl refl))
ModuleKind-cases ModuleKind.unknown = inr (inr (inr refl))

module _ (rip : ℕ) (s : Snapshot) (f : Faulting rip s) (off : ℕ) (symbol : CStr) (text : Bytes)
    (m : CStr) (rva : ℕ) where
  abbrev Due : CulpritVerdict → Type 0
  Due v = IsByModule rip s m v.category v.confidence

  mod_verdict-Due : IsOf f ModuleKind.is_mod → Due (mod_verdict s f.name off)
  unfolding mod_verdict
  mod_verdict-Due o = elim (Bool-cases (is_host_framework_module f.name)) [
    | inl e ↦ rw e (f, inl (o, rw e refl))
    | inr e ↦ rw e (f, inl (o, rw e refl))
  ]

  game_verdict-Due : IsOf f ModuleKind.game → Due (game_verdict f.name off symbol text m rva)
  unfolding game_verdict
  game_verdict-Due o = elim (Bool-cases (present m)) [
    | inl e ↦ rw e (f, inr (inl o, e, refl))
    | inr e ↦ rw e (f, o, e, refl)
  ]

  system_verdict-Due : IsOf f ModuleKind.system → Due (system_verdict f.name off text m rva)
  unfolding system_verdict
  system_verdict-Due o = elim (Bool-cases (present m)) [
    | inl e ↦ rw e (f, inr (inr o, e, refl))
    | inr e ↦ rw e (f, o, e, refl)
  ]

  module_verdict-Due : Due (module_verdict s f.info.kind f.name off symbol text m rva)
  unfolding module_verdict
  module_verdict-Due =
      elim (Bool-cases (iequals_ascii (some f.name) (some (codes "REDscope.dll")))) [
        | inl e ↦ rw e (f, e, refl)
        | inr e ↦ rw e (elim (ModuleKind-cases f.info.kind) [
          | inl k ↦ rw k (mod_verdict-Due (k, e))
          | inr (inl k) ↦ rw k (game_verdict-Due (k, e))
          | inr (inr (inl k)) ↦ rw k (system_verdict-Due (k, e))
          | inr (inr (inr k)) ↦ rw k (inr (f, (k, e), refl))
        ])
      ]

found_verdict-IsSeen :
    (rip : ℕ) (s : Snapshot) (symbol : CStr) (text : Bytes) (m : CStr) (rva : ℕ)
    → IsReadable s
    → s.oom_suspected ≡ false
    → IsSeen rip
        (some s)
        m
        (find_module_by_pc s.modules rip >>= found_verdict rip s symbol text m rva)
unfolding found_verdict
found_verdict-IsSeen rip s symbol text m rva v calm =
    elim (find_module_by_pc-Found s.modules rip v.sorted) [
      | inl (info, i, e, at, h) ↦
          let (name, named) = get_elem?-some s.module_names info.name_index (v.named i info at) in
          let f : Faulting rip s = record {
            info = info;
            index = i;
            name = name;
            at = at;
            holds = h;
            named = named;
          } in
          rw (e, named) (inr (calm, module_verdict-Due rip s f _ symbol text m rva))
      | inr (e, h) ↦ rw e (inr (calm, inl (h, refl)))
    ]

snapshot_verdict-IsSeen :
    (rip : ℕ) (snap : Option Snapshot) (symbol : CStr) (text : Bytes) (m : CStr) (rva : ℕ)
    → ((s : Snapshot) → snap ≡ some s → IsReadable s)
    → IsSeen rip snap m (snapshot_verdict rip snap symbol text m rva)
unfolding snapshot_verdict
snapshot_verdict-IsSeen rip none symbol text m rva v = (refl, refl)
snapshot_verdict-IsSeen rip (some s) symbol text m rva v = elim (Bool-cases s.oom_suspected) [
  | inl e ↦ simp e (inl (refl, refl, refl))
  | inr e ↦ simp e (found_verdict-IsSeen rip s symbol text m rva (v s refl) e)
]

-- Of a crash there is always a verdict, and its category and confidence are due. A stack overflow, a
-- corrupted heap, an overrun stack buffer, a failed page-in and a lost graphics device are told by the
-- exception code, whatever else is known. Under any other code nobody is blamed without a snapshot, and
-- with one a suspected lack of memory is told next. Otherwise the place decides: a mod is blamed where
-- the fault lies in a mod's module (with low confidence in a framework module) or in a game or system
-- module with a mod on the stack; the game, the system and REDscope where it lies in theirs; nobody
-- where no module holds the address, or in a module of unknown kind. `Asset` is never blamed.
pub compute_verdict-IsDue :
    (code rip : ℕ) (snap : Option Snapshot) (symbol : CStr) (in_flight : Option InFlightSet)
    (m : CStr) (rva : ℕ)
    → ((s : Snapshot) → snap ≡ some s → IsReadable s)
    → (v : CulpritVerdict) × (compute_verdict code rip snap symbol in_flight m rva ≡ some v)
      × IsDue code rip snap m v.category v.confidence
unfolding compute_verdict
compute_verdict-IsDue code rip snap symbol in_flight m rva v = given code rip snap m _ (
    code_verdict-IsDueTo code rip snap m _
      (snapshot_verdict-IsSeen rip snap symbol (format_in_flight in_flight 160) m rva v))
  where
    given :
        (code rip : ℕ) (snap : Option Snapshot) (m : CStr) (o : Option CulpritVerdict)
        → IsDueTo code rip snap m o
        → (v : CulpritVerdict) × (o ≡ some v) × IsDue code rip snap m v.category v.confidence
    given code rip snap m none due = absurd due
    given code rip snap m (some v) due = (v, refl, due)
