-- ===== src/Culprit/Examples.antt =====
-- Tests of the verdict, and its theorem at a fault in the game with a mod on the stack.
use redscope.Base.{◌≡◌, refl, subst, none, some, [], ◌∷◌, codes}
use redscope.Fingerprint.Compute.Tail.{IsReadable}
use redscope.Fingerprint.Examples.{snapshot, snapshot-IsReadable}
use redscope.InFlight.{InFlightSet}
use redscope.Culprit.{CulpritVerdict, format_in_flight}
use redscope.Culprit.Verdict.{compute_verdict}
use redscope.Culprit.Accounted.{IsDue, compute_verdict-IsDue}

abbrev two_objects : InFlightSet
two_objects = record {
  items =
      record { reg = codes "RCX"; class_name = codes "gameObject"; stack_offset = 0 }
      ∷ record { reg = codes "RDX"; class_name = codes "NPCPuppet"; stack_offset = 0 }
      ∷ [];
}

objects_text :
    format_in_flight (some two_objects) 160 ≡ codes " | objects in registers: gameObject, NPCPuppet"
unfolding format_in_flight
objects_text = refl

compute_verdict-IsDue_example :
    (v : CulpritVerdict) × (compute_verdict 0xC0000005 0x140000010
        (some snapshot)
        none
        (some two_objects)
        (some (codes "a.dll"))
        0x20
      ≡ some v)
    × IsDue 0xC0000005 0x140000010 (some snapshot) (some (codes "a.dll")) v.category v.confidence
compute_verdict-IsDue_example =
    compute_verdict-IsDue 0xC0000005 0x140000010 (some snapshot) none (some two_objects)
      (some (codes "a.dll")) 0x20
      (λ s e. let same : snapshot ≡ s = cc in subst IsReadable same snapshot-IsReadable)
