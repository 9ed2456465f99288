-- ===== src/Fingerprint/ModSet.antt =====
-- src/report/Fingerprint.cpp, `ComputeModSetHash`: the order of the mods does not matter.
use mathlib.Core.Logic.{∥∥₁_elim}
use mathlib.Core.List.{Perm, Permᴰ}
use native.Mathlib.Nat.{ℕ_set}
use redscope.Base.{
  ℕ, suc, ◌+◌, ◌%◌, ◌^◌, ◌≤◌, ◌<◌, ◌≡◌, refl, sym, ap, ◌∙◌, inl, inr, not, ◌||◌, some, List, [],
  ◌∷◌, arith, if◌then◌else◌, Bool-cases, length, take_all,
}
use redscope.Inventory.{InstalledMod, max_installed_mods}
use redscope.Fingerprint.{is_empty, mod_hash, mod_set_onto, compute_mod_set_hash}

-- What a mod adds.
abbrev share : InstalledMod → ℕ
share m = if not m.enabled || is_empty m.name then 0 else mod_hash m

abbrev total : List InstalledMod → ℕ
total [] = 0
total (m ∷ ms) = share m + total ms

mod_set_onto-total :
    (acc : ℕ) (ms : List InstalledMod)
    → acc < 2 ^ 64
    → mod_set_onto acc ms ≡ (acc + total ms) % 2 ^ 64
unfolding mod_set_onto
mod_set_onto-total acc [] b = omega arith
mod_set_onto-total acc (m ∷ ms) b = elim (Bool-cases (not m.enabled || is_empty m.name)) [
  | inl skipped ↦ rw skipped (mod_set_onto-total acc ms b ∙ omega arith)
  | inr counted ↦
      rw counted (mod_set_onto-total ((acc + mod_hash m) % 2 ^ 64) ms (omega arith) ∙ omega arith)
]

total-Permᴰ : {xs ys : List InstalledMod} → Permᴰ xs ys → total xs ≡ total ys
total-Permᴰ Permᴰ.nil = refl
total-Permᴰ (Permᴰ.cons {a} {b} e p) = omega (arith, ap share e, total-Permᴰ p)
total-Permᴰ (Permᴰ.swap {a} {b} {a'} {b'} {l} e f) = omega (arith, ap share e, ap share f)
total-Permᴰ (Permᴰ.trans p q) = total-Permᴰ p ∙ total-Permᴰ q

length-Permᴰ {ℓ} : {A : Type ℓ} {xs ys : List A} → Permᴰ xs ys → length xs ≡ length ys
length-Permᴰ Permᴰ.nil = refl
length-Permᴰ (Permᴰ.cons e p) = ap suc (length-Permᴰ p)
length-Permᴰ (Permᴰ.swap e f) = refl
length-Permᴰ (Permᴰ.trans p q) = length-Permᴰ p ∙ length-Permᴰ q

compute-Permᴰ :
    (xs ys : List InstalledMod)
    → length xs ≤ max_installed_mods
    → Permᴰ xs ys
    → compute_mod_set_hash (some xs) ≡ compute_mod_set_hash (some ys)
unfolding compute_mod_set_hash
compute-Permᴰ xs ys b p =
    ap (mod_set_onto 0) (take_all max_installed_mods xs b)
    ∙ mod_set_onto-total 0 xs (omega arith)
    ∙ ap (λ n. (0 + n) % 2 ^ 64) (total-Permᴰ p)
    ∙ sym (mod_set_onto-total 0 ys (omega arith))
    ∙ sym (ap (mod_set_onto 0) (take_all max_installed_mods ys (omega (arith, length-Permᴰ p))))

-- Two lists of mods that are permutations of one another, and no longer than the limit, have one
-- mod-set hash: it does not depend on the order in which the mods are found.
pub compute_mod_set_hash-Perm :
    (xs ys : List InstalledMod)
    → length xs ≤ max_installed_mods
    → Perm xs ys
    → compute_mod_set_hash (some xs) ≡ compute_mod_set_hash (some ys)
compute_mod_set_hash-Perm xs ys b p = ∥∥₁_elim p (ℕ_set _ _) (compute-Permᴰ xs ys b)
