-- ===== src/Session/Rounds.antt =====
-- src/snapshot/SessionHistory.cpp, `ComputeModDiff`: the difference of two lists by searches, and how
-- it goes on by one mod at the front of two sorted lists.
use redscope.Base.{
  ◌≡◌, refl, sym, ap, subst, ◌∙◌, ◌≢◌, ◌⊎◌, inl, inr, true, false, not, ◌||◌, Option, none, some,
  List, [], ◌∷◌, arith, if◌then◌else◌, Bool-cases, Bytes, str_eq, str_eq_iff, str_eq_ne, All,
}
use redscope.Base.Sort.{str_lt, str_lt-IsOrder}
use redscope.Session.{ModSnapshot, ModDiff, by_name, remove, add, update}
use redscope.Stream.{is_empty}

-- The first mod of the name in a list.
abbrev pub find_name : Bytes → List ModSnapshot → Option ModSnapshot
find_name n [] = none
find_name n (m ∷ ms) = if str_eq m.name n then some m else find_name n ms

abbrev keep_missing : ModSnapshot → Option ModSnapshot → List ModSnapshot → List ModSnapshot
keep_missing x none rest = x ∷ rest
keep_missing x (some y) rest = rest

abbrev keep_changed :
    ModSnapshot
    → Option ModSnapshot
    → List (ModSnapshot × ModSnapshot)
    → List (ModSnapshot × ModSnapshot)
keep_changed x none rest = rest
keep_changed x (some y) rest = if str_eq x.version y.version then rest else (x, y) ∷ rest

-- The mods with a name that the other list does not have.
abbrev pub missing : List ModSnapshot → List ModSnapshot → List ModSnapshot
missing [] b = []
missing (x ∷ a) b =
    let rest = missing a b in
    if is_empty x.name then rest else keep_missing x (find_name x.name b) rest

-- The mods with a name that the other list has with another version.
abbrev pub changed : List ModSnapshot → List ModSnapshot → List (ModSnapshot × ModSnapshot)
changed [] b = []
changed (x ∷ a) b =
    let rest = changed a b in
    if is_empty x.name then rest else keep_changed x (find_name x.name b) rest

abbrev pub reference : List ModSnapshot → List ModSnapshot → ModDiff
reference a b = record { added = missing b a; updated = changed a b; removed = missing a b }

-- In order of name, each name once.
abbrev pub Ascends : List ModSnapshot → Type 0
Ascends [] = Unit
Ascends (x ∷ xs) = All (λ y. by_name x y ≡ true) xs × Ascends xs

-- A search for the mod's name does not stop at the other.
abbrev Passes : ModSnapshot → ModSnapshot → Type 0
Passes y x = (is_empty x.name || not (str_eq y.name x.name)) ≡ true

All-map {ℓ} :
    {A : Type ℓ} (P Q : A → Type 0) (xs : List A) → ((x : A) → P x → Q x) → All P xs → All Q xs
All-map P Q [] f h = tt
All-map P Q (x ∷ xs) f h = (f x h.0, All-map P Q xs f h.1)

str_lt-ne : (a b : Bytes) → str_lt a b ≡ true → (str_eq a b ≡ false) × (str_eq b a ≡ false)
str_lt-ne a b h = (ne a b apart, ne b a (λ e. apart (sym e)))
  where
    apart : a ≢ b
    apart e =
        let again : str_lt b a ≡ true =
          subst (λ v. str_lt v a ≡ true) e (subst (λ v. str_lt a v ≡ true) (sym e) h) in
        absurd (ground (arith, again, str_lt-IsOrder.asym a b h))

    ne : (a b : Bytes) → a ≢ b → str_eq a b ≡ false
    ne = str_eq_ne

by_name-Passes : (x y : ModSnapshot) → by_name x y ≡ true → Passes x y × Passes y x
by_name-Passes x y h =
    let e = str_lt-ne x.name y.name h in (ground (arith, e.0), ground (arith, e.1))

empty-Passes : (y x : ModSnapshot) → is_empty y.name ≡ true → Passes y x
empty-Passes y x h = pass y.name x.name h
  where
    pass : (u v : Bytes) → is_empty u ≡ true → (is_empty v || not (str_eq u v)) ≡ true
    pass u [] e = refl
    pass [] (c ∷ v) e = rw (str_eq_ne [] (c ∷ v) (λ k. cc)) refl
    pass (d ∷ u) (c ∷ v) e = cc

missing_skip :
    (c a : List ModSnapshot) (y : ModSnapshot) → All (Passes y) c → missing c (y ∷ a) ≡ missing c a
missing_skip [] a y h = refl
missing_skip (x ∷ c) a y h = elim (Bool-cases (is_empty x.name)) [
  | inl e ↦ rw e (missing_skip c a y h.1)
  | inr e ↦
      let p : str_eq y.name x.name ≡ false = ground (arith, h.0, e) in
      rw (e, p) (ap (keep_missing x (find_name x.name a)) (missing_skip c a y h.1))
]

changed_skip :
    (c a : List ModSnapshot) (y : ModSnapshot) → All (Passes y) c → changed c (y ∷ a) ≡ changed c a
changed_skip [] a y h = refl
changed_skip (x ∷ c) a y h = elim (Bool-cases (is_empty x.name)) [
  | inl e ↦ rw e (changed_skip c a y h.1)
  | inr e ↦
      let p : str_eq y.name x.name ≡ false = ground (arith, h.0, e) in
      rw (e, p) (ap (keep_changed x (find_name x.name a)) (changed_skip c a y h.1))
]

find_name-none :
    (x : ModSnapshot) (b : List ModSnapshot)
    → is_empty x.name ≡ false
    → All (λ y. Passes y x) b
    → find_name x.name b ≡ none
find_name-none x [] e h = refl
find_name-none x (y ∷ b) e h =
    let p : str_eq y.name x.name ≡ false = ground (arith, h.0, e) in rw p (find_name-none x b e h.1)

pub diff_eq :
    {a a' r r' : List ModSnapshot} {u u' : List (ModSnapshot × ModSnapshot)}
    → a ≡ a'
    → u ≡ u'
    → r ≡ r'
    → ◌≡◌ {A = ModDiff}
        (record { added = a; updated = u; removed = r })
        (record { added = a'; updated = u'; removed = r' })
diff_eq e f g = rw (e, f, g) refl

pub All-above :
    (x y : ModSnapshot) (b : List ModSnapshot)
    → by_name x y ≡ true
    → Ascends (y ∷ b)
    → All (λ z. by_name x z ≡ true) (y ∷ b)
All-above x y b h s = (h, All-map _ _ b (λ z k. str_lt-IsOrder.trans x.name y.name z.name h k) s.0)

-- The equations of one round.
module _ (x y : ModSnapshot) (a b : List ModSnapshot) where
  pub skip_left : is_empty x.name ≡ true → reference (x ∷ a) (y ∷ b) ≡ reference a (y ∷ b)
  skip_left e = diff_eq (missing_skip (y ∷ b) a x (all_pass (y ∷ b))) (rw e refl) (rw e refl)
    where
      all_pass : (c : List ModSnapshot) → All (Passes x) c
      all_pass [] = tt
      all_pass (z ∷ c) = (empty-Passes x z e, all_pass c)

  pub skip_right : is_empty y.name ≡ true → reference (x ∷ a) (y ∷ b) ≡ reference (x ∷ a) b
  skip_right e =
      diff_eq (rw e refl) (changed_skip (x ∷ a) b y (all_pass (x ∷ a)))
        (missing_skip (x ∷ a) b y (all_pass (x ∷ a)))
    where
      all_pass : (c : List ModSnapshot) → All (Passes y) c
      all_pass [] = tt
      all_pass (z ∷ c) = (empty-Passes y z e, all_pass c)

  pub take_left :
      is_empty x.name ≡ false
      → by_name x y ≡ true
      → Ascends (y ∷ b)
      → reference (x ∷ a) (y ∷ b) ≡ remove x (reference a (y ∷ b))
  take_left e h s =
      let above = All-above x y b h s in
      let absent =
        find_name-none x (y ∷ b) e (All-map _ _ (y ∷ b) (λ z k. (by_name-Passes x z k).1) above) in
      diff_eq
        (missing_skip (y ∷ b) a x (All-map _ _ (y ∷ b) (λ z k. (by_name-Passes x z k).0) above))
        (rw (e, absent) refl) (rw (e, absent) refl)

  pub take_right :
      is_empty y.name ≡ false
      → by_name y x ≡ true
      → Ascends (x ∷ a)
      → reference (x ∷ a) (y ∷ b) ≡ add y (reference (x ∷ a) b)
  take_right e h s =
      let above = All-above y x a h s in
      let pass = All-map _ _ (x ∷ a) (λ z k. (by_name-Passes y z k).0) above in
      let absent =
        find_name-none y (x ∷ a) e (All-map _ _ (x ∷ a) (λ z k. (by_name-Passes y z k).1) above) in
      diff_eq (rw (e, absent) refl) (changed_skip (x ∷ a) b y pass) (missing_skip (x ∷ a) b y pass)

  pub take_both :
      is_empty x.name ≡ false
      → is_empty y.name ≡ false
      → x.name ≡ y.name
      → Ascends (x ∷ a)
      → Ascends (y ∷ b)
      → reference (x ∷ a) (y ∷ b) ≡ update x y (reference a b)
  take_both e f n s t =
      let hit : find_name x.name (y ∷ b) ≡ some y =
        rw ((str_eq_iff y.name x.name).1 (sym n)) refl in
      let hit' : find_name y.name (x ∷ a) ≡ some x = rw ((str_eq_iff x.name y.name).1 n) refl in
      let pass_x =
        All-map _ _ b
          (λ z k. (by_name-Passes x z (subst (λ v. str_lt v z.name ≡ true) (sym n) k)).0) t.0 in
      let pass_y =
        All-map _ _ a (λ z k. (by_name-Passes y z (subst (λ v. str_lt v z.name ≡ true) n k)).0)
          s.0 in
      versions (Bool-cases (str_eq x.version y.version)) (rw (f, hit') (missing_skip b a x pass_x))
        (rw (e, hit) refl ∙ ap (keep_changed x (some y)) (changed_skip a b y pass_y))
        (rw (e, hit) (missing_skip a b y pass_y))
    where
      versions :
          {p q : List ModSnapshot} {u : List (ModSnapshot × ModSnapshot)}
          → (str_eq x.version y.version ≡ true) ⊎ (str_eq x.version y.version ≡ false)
          → p ≡ missing b a
          → u ≡ keep_changed x (some y) (changed a b)
          → q ≡ missing a b
          → ◌≡◌ {A = ModDiff}
              (record { added = p; updated = u; removed = q })
              (update x y (reference a b))
      versions (inl v) g h k = rw v (diff_eq g (h ∙ rw v refl) k)
      versions (inr v) g h k = rw v (diff_eq g (h ∙ rw v refl) k)
