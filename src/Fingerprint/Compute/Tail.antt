-- ===== src/Fingerprint/Compute/Tail.antt =====
-- src/report/Fingerprint.cpp, `ComputeFingerprint`: no read goes out of range, and the tail is short.
use redscope.Base.{
  ℕ, zero, suc, ◌+◌, ◌-◌, ◌≤◌, ◌<◌, min, ◌≡◌, refl, ap, ◌∙◌, ◌⊎◌, inl, inr, true, false, some, List,
  [], arith, ◌==◌, Bool-cases, CStr, length, get_elem?, IsDefined, bind-IsDefined, bind-at,
  get_elem?-some,
}
use redscope.Modules.{ModuleInfoFixed}
use redscope.Modules.Search.{IsSorted, find_module_by_pc-Found}
use redscope.Snapshot.{Snapshot}
use redscope.ScriptStack.{ThreadStack, max_depth}
use redscope.ScriptStack.Heartbeat.{HeartbeatSlot}
use redscope.Fingerprint.{CrashFingerprint, max_fingerprint_tail}
use redscope.Fingerprint.Compute.{
  push_tail, stack_tail, fingerprint_tail, place_in, fault_module, compute_fingerprint,
}

-- A stack whose array is whole, as every run of pushes and pops leaves it.
abbrev pub HasRoom : ThreadStack → Type 0
HasRoom s = (length s.frames ≡ max_depth) × (s.depth ≤ max_depth)

-- The modules are sorted and each names an entry of the name table.
pub record IsReadable (snap : Snapshot) : Type 0 where
  pub sorted : IsSorted snap.modules
  pub named :
      (i : ℕ) (m : ModuleInfoFixed)
      → get_elem? snap.modules i ≡ some m
      → m.name_index < length snap.module_names

stack_tail_total :
    (n i : ℕ) (s : ThreadStack) (tail : List CStr)
    → HasRoom s
    → 0 < s.depth
    → (t : List CStr) × (stack_tail n i s tail ≡ some t)
unfolding stack_tail
stack_tail_total zero i s tail h d = (tail, refl)
stack_tail_total (suc n) i s tail h d =
    let (fr, e) = get_elem?-some s.frames (s.depth - 1 - i) (omega (arith, h.0, h.1)) in
    let next = push_tail fr.full_name fr.this_class_name tail in
    let (t, e') = stack_tail_total n (i + 1) s next h d in (t, rw e e')

fingerprint_tail_total :
    (s : ThreadStack) (m : CStr) (rva tid : ℕ) (bs : List HeartbeatSlot)
    → HasRoom s
    → (t : List CStr) × (fingerprint_tail s m rva tid bs ≡ some t)
unfolding fingerprint_tail
fingerprint_tail_total s m rva tid bs h =
    bind-IsDefined _ _ (start (Bool-cases (s.depth == 0))) (λ tail. (_, refl))
  where
    start :
        (s.depth == 0 ≡ true) ⊎ (s.depth == 0 ≡ false)
        → IsDefined (stack_tail (min max_fingerprint_tail s.depth) 0 s [])
    start (inl idle) =
        let z : min max_fingerprint_tail s.depth ≡ 0 = ground arith in
        ([], ap (λ n. stack_tail n 0 s []) z ∙ unfold stack_tail in refl)
    start (inr busy) = stack_tail_total (min max_fingerprint_tail s.depth) 0 s [] h (ground arith)

fault_module_total :
    (rip : ℕ) (snap : Snapshot)
    → IsReadable snap
    → (r : CStr × ℕ) × (fault_module rip snap ≡ some r)
unfolding fault_module
fault_module_total rip snap v = elim (find_module_by_pc-Found snap.modules rip v.sorted) [
  | inl (m, i, e, at, h) ↦ bind-at _ (place_in rip snap) e (
      bind-IsDefined _ _ (get_elem?-some snap.module_names m.name_index (v.named i m at))
        (λ name. (_, refl)))
  | inr (e, h) ↦ bind-at _ (place_in rip snap) e (_, refl)
]

-- With a stack and a snapshot of the shape that their writers keep, the fingerprint of a crash is
-- always computed: no read of the stack, the module table or the name table is out of range.
pub compute_fingerprint_total :
    (code rip : ℕ) (snap : Snapshot) (symbol m : CStr) (rva : ℕ) (s : ThreadStack) (tid : ℕ)
    (bs : List HeartbeatSlot)
    → HasRoom s
    → IsReadable snap
    → (fp : CrashFingerprint) × (compute_fingerprint code rip (some snap) symbol m rva s tid bs
        ≡ some fp)
unfolding compute_fingerprint
compute_fingerprint_total code rip snap symbol m rva s tid bs h v =
    bind-IsDefined _ _ (fault_module_total rip snap v)
      (λ r. bind-IsDefined _ _ (fingerprint_tail_total s m rva tid bs h) (λ t. (_, refl)))
