-- ===== src/Fnv/Ids.antt =====
-- src/report/Fingerprint.cpp, `EncodeId`: an id is the top 40 bits of the hash, no more and no less.
use redscope.Base.{
  ℕ, zero, suc, ◌+◌, ◌-◌, ◌*◌, ◌/◌, ◌%◌, ◌^◌, ◌<◌, ◌≡◌, refl, ap, ◌↔◌, Bool, true, ◌&&◌, [], ◌∷◌,
  arith, ◌==◌, if◌then◌else◌, Bytes, length, get_or,
}
use redscope.Fnv.{alphabet, id_char, encode_id}

-- The place of a character in the alphabet.
abbrev index_of : ℕ → Bytes → ℕ
index_of c [] = 0
index_of c (a ∷ xs) = if a == c then 0 else suc (index_of c xs)

-- Each character of a piece of the alphabet stands at its own place, counted from `i`.
in_place : ℕ → Bytes → Bool
in_place i [] = true
in_place i (c ∷ cs) = index_of c alphabet == i && in_place (suc i) cs

index_of-in_place :
    (i : ℕ) (cs : Bytes) (d : ℕ)
    → in_place i cs ≡ true
    → d < length cs
    → index_of (get_or cs d 0) alphabet ≡ i + d
unfolding in_place
index_of-in_place i [] d ok lt = absurd (omega arith)
index_of-in_place i (c ∷ cs) zero ok lt = ground arith
index_of-in_place i (c ∷ cs) (suc d) ok lt = ground (arith, index_of-in_place (suc i) cs d)

alphabet-in_place : in_place 0 alphabet ≡ true
unfolding in_place
alphabet-in_place = refl

-- The characters of the alphabet differ.
alphabet_distinct : (d e : ℕ) → d < 32 → e < 32 → get_or alphabet d 0 ≡ get_or alphabet e 0 → d ≡ e
alphabet_distinct d e hd he h =
    let place = ap (λ c. index_of c alphabet) h in
    let at_d = index_of-in_place 0 alphabet d alphabet-in_place hd in
    let at_e = index_of-in_place 0 alphabet e alphabet-in_place he in
    omega (arith, place, at_d, at_e)

id_char_digit :
    (h k i : ℕ) → id_char h i ≡ id_char k i → h / 2 ^ (59 - 5 * i) % 32 ≡ k / 2 ^ (59 - 5 * i) % 32
id_char_digit h k i e = alphabet_distinct _ _ (omega arith) (omega arith) e

-- The digits of the top 40 bits.
top_digits :
    (h : ℕ)
    → h < 2 ^ 64
    → h / 2 ^ 24
      ≡ h / 2 ^ 24 % 32
        + 32 * (h / 2 ^ 29 % 32)
        + 32 ^ 2 * (h / 2 ^ 34 % 32)
        + 32 ^ 3 * (h / 2 ^ 39 % 32)
        + 32 ^ 4 * (h / 2 ^ 44 % 32)
        + 32 ^ 5 * (h / 2 ^ 49 % 32)
        + 32 ^ 6 * (h / 2 ^ 54 % 32)
        + 32 ^ 7 * (h / 2 ^ 59 % 32)
top_digits h b = omega arith

-- A character depends on the hash through its top 40 bits.
top_char : (h k i : ℕ) → h / 2 ^ (59 - 5 * i) ≡ k / 2 ^ (59 - 5 * i) → id_char h i ≡ id_char k i
top_char h k i e = ap (λ v. get_or alphabet (v % 32) 0) e

-- Two hashes of 64 bits have the same id exactly if they agree in their top 40 bits.
pub encode_id_iff :
    (h k : ℕ)
    → h < 2 ^ 64
    → k < 2 ^ 64
    → (encode_id h 12 ≡ encode_id k 12) ↔ (h / 2 ^ 24 ≡ k / 2 ^ 24)
unfolding encode_id
encode_id_iff h k bh bk = (
  (λ e.
      let d0 = id_char_digit h k 0 (cc) in
      let d1 = id_char_digit h k 1 (cc) in
      let d2 = id_char_digit h k 2 (cc) in
      let d3 = id_char_digit h k 3 (cc) in
      let d4 = id_char_digit h k 4 (cc) in
      let d5 = id_char_digit h k 5 (cc) in
      let d6 = id_char_digit h k 6 (cc) in
      let d7 = id_char_digit h k 7 (cc) in
      omega (arith, top_digits h bh, top_digits k bk, d0, d1, d2, d3, d4, d5, d6, d7)),
  λ e.
      let c0 = top_char h k 0 (omega arith) in
      let c1 = top_char h k 1 (omega arith) in
      let c2 = top_char h k 2 (omega arith) in
      let c3 = top_char h k 3 (omega arith) in
      let c4 = top_char h k 4 (omega arith) in
      let c5 = top_char h k 5 (omega arith) in
      let c6 = top_char h k 6 (omega arith) in let c7 = top_char h k 7 (omega arith) in cc,
)
