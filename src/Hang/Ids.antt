-- ===== src/Hang/Ids.antt =====
-- src/handler/HangWatchdog.cpp, `ComputeHangId`: the id depends on what the threads ran, not on
-- the slots, the times or the thread ids.
use mathlib.Core.Logic.{∥∥₁_elim}
use mathlib.Core.List.{Perm, Permᴰ}
use mathlib.Core.List.Permᴰ
use native.Mathlib.Nat.{ℕ_set}
use redscope.Base.{ℕ, ◌≡◌, refl, sym, ap, subst, ◌∙◌, none, some, List, [], ◌∷◌, Bytes, CStr}
use redscope.Base.Sort.{sort, sort-Permᴰ, sort-Permᴰ_self, str_lt, str_lt-IsOrder}
use redscope.ScriptStack.Heartbeat.{HeartbeatSlot}
use redscope.Hang.{
  StuckThread, later, claimed, collect_stuck_threads, hang_names, hash_sorted, hang_hash, add_name,
  encode_hang_id, compute_hang_id,
}

cons_name : (n : CStr) (xs ys : List Bytes) → Permᴰ xs ys → Permᴰ (add_name n xs) (add_name n ys)
cons_name none xs ys p = p
cons_name (some []) xs ys p = p
cons_name (some (c ∷ n)) xs ys p = Permᴰ.cons refl p

swap_names :
    (n m : CStr) (xs : List Bytes) → Permᴰ (add_name n (add_name m xs)) (add_name m (add_name n xs))
swap_names none m xs = Permᴰ.refl _
swap_names (some []) m xs = Permᴰ.refl _
swap_names (some (c ∷ n)) none xs = Permᴰ.refl _
swap_names (some (c ∷ n)) (some []) xs = Permᴰ.refl _
swap_names (some (c ∷ n)) (some (d ∷ m)) xs = Permᴰ.swap refl refl

hang_names-Permᴰ : {xs ys : List StuckThread} → Permᴰ xs ys → Permᴰ (hang_names xs) (hang_names ys)
unfolding hang_names
hang_names-Permᴰ Permᴰ.nil = Permᴰ.nil
hang_names-Permᴰ (Permᴰ.cons {a} {b} {l₁} {l₂} e p) =
    subst (λ s. Permᴰ (add_name a.name (hang_names l₁)) (add_name s.name (hang_names l₂))) e
      (cons_name a.name _ _ (hang_names-Permᴰ p))
hang_names-Permᴰ (Permᴰ.swap {a} {b} {a'} {b'} {l} e f) =
    subst
      (λ s.
        Permᴰ (add_name a.name (add_name b.name (hang_names l)))
          (add_name a'.name (add_name s.name (hang_names l))))
      e
      (subst
        (λ s.
          Permᴰ (add_name a.name (add_name b.name (hang_names l)))
            (add_name s.name (add_name a.name (hang_names l))))
        f (swap_names a.name b.name (hang_names l)))
hang_names-Permᴰ (Permᴰ.trans p q) = Permᴰ.trans (hang_names-Permᴰ p) (hang_names-Permᴰ q)

-- The names of the functions that the threads in the table ran last.
abbrev pub names_of : List HeartbeatSlot → List Bytes
names_of slots = hang_names (claimed slots)

collect-names :
    (slots : List HeartbeatSlot)
    → sort str_lt (hang_names (collect_stuck_threads slots)) ≡ sort str_lt (names_of slots)
unfolding collect_stuck_threads
collect-names slots =
    sort-Permᴰ str_lt str_lt-IsOrder (hang_names-Permᴰ (sort-Permᴰ_self later (claimed slots)))

hang_hash-Permᴰ :
    (xs ys : List HeartbeatSlot) (build : CStr)
    → Permᴰ (names_of xs) (names_of ys)
    → hang_hash (collect_stuck_threads xs) build ≡ hang_hash (collect_stuck_threads ys) build
unfolding hang_hash
hang_hash-Permᴰ xs ys build p =
    ap (λ names. hash_sorted names build)
      (collect-names xs ∙ sort-Permᴰ str_lt str_lt-IsOrder p ∙ sym (collect-names ys))

-- Two heartbeat tables whose threads ran the same functions last, in any order, give a hang the same
-- id: slots, times, thread ids and classes do not matter.
pub compute_hang_id-Perm :
    (xs ys : List HeartbeatSlot) (build : CStr) (cap : ℕ)
    → Perm (names_of xs) (names_of ys)
    → compute_hang_id (collect_stuck_threads xs) build cap
      ≡ compute_hang_id (collect_stuck_threads ys) build cap
unfolding compute_hang_id
compute_hang_id-Perm xs ys build cap p =
    ap (λ h. encode_hang_id h cap) (∥∥₁_elim p (ℕ_set _ _) (λ q. hang_hash-Permᴰ xs ys build q))
