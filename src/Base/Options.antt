-- ===== src/Base/Options.antt =====
-- Chains of results that may be missing, and reads in range.
use Prim.Native.Nat.{ℕ, zero, suc, ◌<◌}
use mathlib.Core.Path.{◌≡◌, refl, ap, ◌∙◌}
use mathlib.Core.List.{List, [], ◌∷◌}
use mathlib.Core.Option.{Option, none, some}
use native.Mathlib.Omega.{arith}
use redscope.Base.Lists.{length, get_elem?}

infixl 5 ◌>>=◌
abbrev pub ◌>>=◌ {ℓ κ} : {A : Type ℓ} {B : Type κ} → Option A → (A → Option B) → Option B
none >>= f = none
some a >>= f = f a

abbrev pub IsDefined {ℓ} : {A : Type ℓ} → Option A → Type ℓ
IsDefined {A} o = (a : A) × (o ≡ some a)

pub bind-IsDefined {ℓ κ} :
    {A : Type ℓ} {B : Type κ} (m : Option A) (f : A → Option B)
    → IsDefined m
    → ((a : A) → IsDefined (f a))
    → IsDefined (m >>= f)
bind-IsDefined m f (a, e) k = let (b, e') = k a in (b, ap (λ o. o >>= f) e ∙ e')

pub bind-at {ℓ κ} :
    {A : Type ℓ} {B : Type κ} (m : Option A) (f : A → Option B) {a : A}
    → m ≡ some a
    → IsDefined (f a)
    → IsDefined (m >>= f)
bind-at m f e (b, e') = (b, ap (λ o. o >>= f) e ∙ e')

module _ {ℓ} {A : Type ℓ} where
  pub get_elem?-some : (xs : List A) (i : ℕ) → i < length xs → IsDefined (get_elem? xs i)
  get_elem?-some [] i h = elim h [ ]
  get_elem?-some (x ∷ xs) zero h = (x, refl)
  get_elem?-some (x ∷ xs) (suc i) h = get_elem?-some xs i (omega arith)

  pub get_elem?_lt : (xs : List A) (i : ℕ) (x : A) → get_elem? xs i ≡ some x → i < length xs
  get_elem?_lt [] i x e = cc
  get_elem?_lt (y ∷ ys) zero x e = omega arith
  get_elem?_lt (y ∷ ys) (suc i) x e = omega (arith, get_elem?_lt ys i x e)
