-- ===== src/Session/Ordered.antt =====
-- src/snapshot/SessionHistory.cpp, `SortByName`: a sorted list stays as it is, also without the mods
-- that have no name.
use redscope.Base.{
  ◌≡◌, refl, ap, ◌∙◌, inl, inr, false, List, [], ◌∷◌, if◌then◌else◌, Bool-cases, Bytes,
}
use redscope.Base.Sort.{insert, sort, str_lt, str_lt-IsOrder}
use redscope.Session.{ModSnapshot, by_name}
use redscope.Stream.{is_empty}

-- The mods that have a name.
abbrev pub named_only : List ModSnapshot → List ModSnapshot
named_only [] = []
named_only (m ∷ ms) = let rest = named_only ms in if is_empty m.name then rest else m ∷ rest

abbrev pub AtLeast : ModSnapshot → List ModSnapshot → Type 0
AtLeast m [] = Unit
AtLeast m (o ∷ ms) = by_name o m ≡ false

abbrev pub Ordered : List ModSnapshot → Type 0
Ordered [] = Unit
Ordered (m ∷ ms) = AtLeast m ms × Ordered ms

AtLeast-insert :
    (o m : ModSnapshot) (ms : List ModSnapshot)
    → by_name m o ≡ false
    → AtLeast o ms
    → AtLeast o (insert by_name m ms)
unfolding insert
AtLeast-insert o m [] h k = h
AtLeast-insert o m (p ∷ ms) h k = elim (Bool-cases (by_name p m)) [
  | inl e ↦ rw e k
  | inr e ↦ rw e h
]

insert-Ordered :
    (m : ModSnapshot) (ms : List ModSnapshot) → Ordered ms → Ordered (insert by_name m ms)
unfolding insert
insert-Ordered m [] h = (tt, tt)
insert-Ordered m (o ∷ ms) h = elim (Bool-cases (by_name o m)) [
  | inl e ↦
      rw e
        (AtLeast-insert o m ms (str_lt-IsOrder.asym o.name m.name e) h.0, insert-Ordered m ms h.1)
  | inr e ↦ rw e (e, h)
]

pub sort-Ordered : (ms : List ModSnapshot) → Ordered (sort by_name ms)
unfolding sort
sort-Ordered [] = tt
sort-Ordered (m ∷ ms) = insert-Ordered m (sort by_name ms) (sort-Ordered ms)

insert_least :
    (m : ModSnapshot) (ms : List ModSnapshot) → AtLeast m ms → insert by_name m ms ≡ m ∷ ms
unfolding insert
insert_least m [] h = refl
insert_least m (o ∷ ms) h = rw h refl

pub sort_id : (ms : List ModSnapshot) → Ordered ms → sort by_name ms ≡ ms
unfolding sort
sort_id [] h = refl
sort_id (m ∷ ms) h = ap (insert by_name m) (sort_id ms h.1) ∙ insert_least m ms h.0

above_named : (a b : Bytes) → is_empty a ≡ false → str_lt b a ≡ false → is_empty b ≡ false
unfolding str_lt
above_named [] b n h = cc
above_named (x ∷ a) [] n h = cc
above_named (x ∷ a) (y ∷ b) n h = refl

named_only_all :
    (m : ModSnapshot) (ms : List ModSnapshot)
    → is_empty m.name ≡ false
    → Ordered (m ∷ ms)
    → named_only ms ≡ ms
named_only_all m [] n h = refl
named_only_all m (o ∷ ms) n h =
    let e : is_empty o.name ≡ false = above_named m.name o.name n h.0 in
    rw e (ap (◌∷◌ o) (named_only_all o ms e h.1))

pub named_only-Ordered : (ms : List ModSnapshot) → Ordered ms → Ordered (named_only ms)
named_only-Ordered [] h = tt
named_only-Ordered (m ∷ ms) h = elim (Bool-cases (is_empty m.name)) [
  | inl e ↦ rw e (named_only-Ordered ms h.1)
  | inr e ↦ rw (e, named_only_all m ms e h) h
]
