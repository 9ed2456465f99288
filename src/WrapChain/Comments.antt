-- ===== src/WrapChain/Comments.antt =====
-- src/snapshot/WrapChain.cpp, `StripComments`: comments become spaces, and nothing else changes.
use redscope.Base.{
  ℕ, zero, suc, ◌≡◌, refl, ap, ◌⊎◌, inl, inr, Bool, true, false, ◌&&◌, ◌||◌, [], ◌∷◌, arith, ◌==◌,
  Bool-cases, Bytes, length, replicate,
}
use redscope.WrapChain.{strip_from, strip_comments}

-- Byte by byte the same, or a space instead.
abbrev pub IsBlanked : Bytes → Bytes → Type 0
IsBlanked [] [] = Unit
IsBlanked (c ∷ s) (d ∷ t) = ((d ≡ c) ⊎ (d ≡ 32)) × IsBlanked s t
IsBlanked _ _ = ⊥

blanks-IsBlanked : (s : Bytes) → IsBlanked s (replicate (length s) 32)
blanks-IsBlanked [] = tt
blanks-IsBlanked (c ∷ s) = (inr refl, blanks-IsBlanked s)

strip_from-IsBlanked : (s : Bytes) (inside : Bool) → IsBlanked s ((strip_from s inside).0)
unfolding strip_from
strip_from-IsBlanked [] inside = tt
strip_from-IsBlanked (c ∷ []) true = (inr refl, tt)
strip_from-IsBlanked (c ∷ []) false = (inl refl, tt)
strip_from-IsBlanked (c ∷ d ∷ s) true = elim (Bool-cases (c == b'*' && d == b'/')) [
  | inl e ↦ rw e (inr refl, (inr refl, strip_from-IsBlanked s false))
  | inr e ↦ rw e (inr refl, strip_from-IsBlanked (d ∷ s) true)
]
strip_from-IsBlanked (c ∷ d ∷ s) false = elim (Bool-cases (c == b'/' && d == b'/')) [
  | inl e ↦ rw e (blanks-IsBlanked (c ∷ d ∷ s))
  | inr e ↦ rw e (elim (Bool-cases (c == b'/' && d == b'*')) [
    | inl f ↦ rw f (inr refl, (inr refl, strip_from-IsBlanked s true))
    | inr f ↦ rw f (inl refl, strip_from-IsBlanked (d ∷ s) false)
  ])
]

-- No comment begins in the text.
abbrev IsPlain : Bytes → Type 0
IsPlain [] = Unit
IsPlain (c ∷ []) = Unit
IsPlain (c ∷ d ∷ s) = ((c == b'/' && (d == b'/' || d == b'*')) ≡ false) × IsPlain (d ∷ s)

-- A space before a plain text is plain.
space-IsPlain : (s : Bytes) → IsPlain s → IsPlain (32 ∷ s)
space-IsPlain [] p = tt
space-IsPlain (c ∷ s) p = (refl, p)

blanks-IsPlain : (n : ℕ) → IsPlain (replicate n 32)
blanks-IsPlain zero = tt
blanks-IsPlain (suc n) = space-IsPlain (replicate n 32) (blanks-IsPlain n)

-- A byte that opens no comment with what follows, before a blanked and plain text.
byte-IsPlain :
    (c d : ℕ) (s t : Bytes)
    → (c == b'/' && d == b'/') ≡ false
    → (c == b'/' && d == b'*') ≡ false
    → IsBlanked (d ∷ s) t
    → IsPlain t
    → IsPlain (c ∷ t)
byte-IsPlain c d s [] e f b p = tt
byte-IsPlain c d s (k ∷ t) e f b p = (opens (b.0), p)
  where
    opens : (k ≡ d) ⊎ (k ≡ 32) → (c == b'/' && (k == b'/' || k == b'*')) ≡ false
    opens (inl same) = rw same (ground (arith, e, f))
    opens (inr space) = rw space (ground arith)

strip_from-IsPlain : (s : Bytes) (inside : Bool) → IsPlain ((strip_from s inside).0)
unfolding strip_from
strip_from-IsPlain [] inside = tt
strip_from-IsPlain (c ∷ []) true = tt
strip_from-IsPlain (c ∷ []) false = tt
strip_from-IsPlain (c ∷ d ∷ s) true = elim (Bool-cases (c == b'*' && d == b'/')) [
  | inl e ↦ rw e (
      space-IsPlain (32 ∷ (strip_from s false).0)
        (space-IsPlain ((strip_from s false).0) (strip_from-IsPlain s false)))
  | inr e ↦ rw e (space-IsPlain ((strip_from (d ∷ s) true).0) (strip_from-IsPlain (d ∷ s) true))
]
strip_from-IsPlain (c ∷ d ∷ s) false = elim (Bool-cases (c == b'/' && d == b'/')) [
  | inl e ↦ rw e (blanks-IsPlain (suc (suc (length s))))
  | inr e ↦ elim (Bool-cases (c == b'/' && d == b'*')) [
    | inl f ↦
        rw (e, f)
          (space-IsPlain (32 ∷ (strip_from s true).0)
            (space-IsPlain ((strip_from s true).0) (strip_from-IsPlain s true)))
    | inr f ↦
        rw (e, f)
          (byte-IsPlain c d s ((strip_from (d ∷ s) false).0) e f
            (strip_from-IsBlanked (d ∷ s) false) (strip_from-IsPlain (d ∷ s) false))
  ]
]

strip_plain : (s : Bytes) → IsPlain s → strip_from s false ≡ (s, false)
unfolding strip_from
strip_plain [] p = refl
strip_plain (c ∷ []) p = refl
strip_plain (c ∷ d ∷ s) p =
    let e : (c == b'/' && d == b'/') ≡ false = ground (arith, p.0) in
    let f : (c == b'/' && d == b'*') ≡ false = ground (arith, p.0) in
    rw (e, f) (ap (λ r. (c ∷ r.0, r.1)) (strip_plain (d ∷ s) p.1))

-- Stripping a line keeps its length and every byte that it does not turn into a space, and what is
-- left holds no comment: stripping it again changes nothing and opens none.
strip_comments-IsBlanked :
    (line : Bytes) (inside : Bool)
    → IsBlanked line ((strip_comments line inside).0)
      × (strip_comments ((strip_comments line inside).0) false
          ≡ ((strip_comments line inside).0, false))
unfolding strip_comments
strip_comments-IsBlanked line inside = (
  strip_from-IsBlanked line inside,
  strip_plain ((strip_from line inside).0) (strip_from-IsPlain line inside),
)
