-- ===== src/Base/Sort.antt =====
-- `std::sort` with a comparison: the elements in order, by insertion. Where the comparison is a
-- total order the result does not depend on the order of the elements before.
use mathlib.Core.Path.{◌≡◌, refl, ap, ◌∙◌}
use mathlib.Core.Logic.{inl, inr}
use mathlib.Core.Bool.{Bool, true, false, ◌&&◌, ◌||◌}
use mathlib.Core.List.{List, [], ◌∷◌, Permᴰ}
use mathlib.Core.List.Permᴰ
use native.Mathlib.Omega.{arith}
use redscope.Base.Tests.{ltb, ◌==◌, if◌then◌else◌, Bytes, Bool-cases}

module _ {ℓ} {A : Type ℓ} (lt : A → A → Bool) where
  unfoldable pub insert : A → List A → List A
  insert a [] = a ∷ []
  insert a (b ∷ bs) = let rest = insert a bs in if lt b a then b ∷ rest else a ∷ b ∷ bs

  unfoldable pub sort : List A → List A
  unfolding insert
  sort [] = []
  sort (a ∷ as_) = insert a (sort as_)

-- A comparison that is a strict total order.
pub record IsOrder {ℓ} {A : Type ℓ} (lt : A → A → Bool) : Type ℓ where
  pub asym : (a b : A) → lt a b ≡ true → lt b a ≡ false
  pub trans : (a b c : A) → lt a b ≡ true → lt b c ≡ true → lt a c ≡ true
  pub connex : (a b : A) → lt a b ≡ false → lt b a ≡ false → a ≡ b

module _ {ℓ} {A : Type ℓ} (lt : A → A → Bool) (o : IsOrder lt) where
  -- With `b` at most `c` and `c` below `a`, `b` is below `a`.
  below_of_between : (a b c : A) → lt c a ≡ true → lt c b ≡ false → lt b a ≡ true
  below_of_between a b c h k = elim (Bool-cases (lt b c)) [
    | inl e ↦ o.trans b c a e h
    | inr e ↦ let same : b ≡ c = o.connex b c e k in ap (λ x. lt x a) same ∙ h
  ]

  insert_comm :
      (a b : A) (xs : List A) → insert lt a (insert lt b xs) ≡ insert lt b (insert lt a xs)
  unfolding insert
  insert_comm a b [] = elim (Bool-cases (lt b a)) [
    | inl e ↦ rw (e, o.asym b a e) refl
    | inr e ↦ elim (Bool-cases (lt a b)) [
      | inl k ↦ rw (e, k) refl
      | inr k ↦ let same : a ≡ b = o.connex a b k e in rw same refl
    ]
  ]
  insert_comm a b (c ∷ xs) = elim (Bool-cases (lt c a)) [
    | inl e ↦ elim (Bool-cases (lt c b)) [
      | inl k ↦ rw (e, k) (rw e (ap (◌∷◌ c) (insert_comm a b xs)))
      | inr k ↦ rw (e, k) (rw (below_of_between a b c e k, e) refl)
    ]
    | inr e ↦ elim (Bool-cases (lt c b)) [
      | inl k ↦ rw (e, k) (rw (below_of_between b a c k e, e) refl)
      | inr k ↦
          rw (e, k)
            (elim (Bool-cases (lt b a)) [
              | inl h ↦ rw (h, o.asym b a h, e) refl
              | inr h ↦ elim (Bool-cases (lt a b)) [
                | inl g ↦ rw (h, g) refl
                | inr g ↦ let same : a ≡ b = o.connex a b g h in rw (h, g) cc
              ]
            ])
    ]
  ]

  pub sort-Permᴰ : {xs ys : List A} → Permᴰ xs ys → sort lt xs ≡ sort lt ys
  unfolding sort
  sort-Permᴰ Permᴰ.nil = refl
  sort-Permᴰ (Permᴰ.cons {a} {b} {l₁} {l₂} e p) =
      ap (insert lt a) (sort-Permᴰ p) ∙ ap (λ x. insert lt x (sort lt l₂)) e
  sort-Permᴰ (Permᴰ.swap {a} {b} {a'} {b'} {l} e f) =
      insert_comm a b (sort lt l)
      ∙ ap (λ x. insert lt x (insert lt a (sort lt l))) f
      ∙ ap (λ x. insert lt a' (insert lt x (sort lt l))) e
  sort-Permᴰ (Permᴰ.trans p q) = sort-Permᴰ p ∙ sort-Permᴰ q

module _ {ℓ} {A : Type ℓ} (lt : A → A → Bool) where
  insert-Permᴰ : (a : A) (xs : List A) → Permᴰ (insert lt a xs) (a ∷ xs)
  unfolding insert
  insert-Permᴰ a [] = Permᴰ.refl (a ∷ [])
  insert-Permᴰ a (b ∷ bs) = elim (Bool-cases (lt b a)) [
    | inl e ↦ rw e (Permᴰ.trans (Permᴰ.cons refl (insert-Permᴰ a bs)) (Permᴰ.swap refl refl))
    | inr e ↦ rw e (Permᴰ.refl (a ∷ b ∷ bs))
  ]

  pub sort-Permᴰ_self : (xs : List A) → Permᴰ (sort lt xs) xs
  unfolding sort
  sort-Permᴰ_self [] = Permᴰ.nil
  sort-Permᴰ_self (a ∷ as_) =
      Permᴰ.trans (insert-Permᴰ a (sort lt as_)) (Permᴰ.cons refl (sort-Permᴰ_self as_))

-- `strcmp(a, b) < 0`, and `<` of `std::string`: bytes compare unsigned.
unfoldable pub str_lt : Bytes → Bytes → Bool
str_lt [] [] = false
str_lt [] (y ∷ ys) = true
str_lt (x ∷ xs) [] = false
str_lt (x ∷ xs) (y ∷ ys) = ltb x y || (x == y && str_lt xs ys)

str_lt_asym : (a b : Bytes) → str_lt a b ≡ true → str_lt b a ≡ false
unfolding str_lt
str_lt_asym [] [] e = refl
str_lt_asym [] (y ∷ b) e = refl
str_lt_asym (x ∷ a) [] e = cc
str_lt_asym (x ∷ a) (y ∷ b) e = ground (arith, str_lt_asym a b)

str_lt_trans : (a b c : Bytes) → str_lt a b ≡ true → str_lt b c ≡ true → str_lt a c ≡ true
unfolding str_lt
str_lt_trans [] [] c e f = f
str_lt_trans [] (y ∷ b) [] e f = cc
str_lt_trans [] (y ∷ b) (z ∷ c) e f = refl
str_lt_trans (x ∷ a) [] c e f = cc
str_lt_trans (x ∷ a) (y ∷ b) [] e f = cc
str_lt_trans (x ∷ a) (y ∷ b) (z ∷ c) e f = ground (arith, str_lt_trans a b c)

str_lt_connex : (a b : Bytes) → str_lt a b ≡ false → str_lt b a ≡ false → a ≡ b
unfolding str_lt
str_lt_connex [] [] e f = refl
str_lt_connex [] (y ∷ b) e f = cc
str_lt_connex (x ∷ a) [] e f = cc
str_lt_connex (x ∷ a) (y ∷ b) e f = ground (arith, str_lt_connex a b)

pub str_lt-IsOrder : IsOrder str_lt
str_lt-IsOrder = record { asym = str_lt_asym; trans = str_lt_trans; connex = str_lt_connex }
