-- ===== src/Json/Unescape.antt =====
-- A decoder of the texts of JSON, and what it gives for the texts that src writes. A code stands for a
-- byte, so it may be at most 127.
use redscope.Base.{
  ℕ, ◌+◌, ◌-◌, ◌*◌, ◌/◌, ◌%◌, ◌<◌, ◌≡◌, refl, sym, ap, ◌∙◌, inl, inr, true, false, ◌&&◌, ◌||◌,
  Option, none, some, [], ◌∷◌, ◌++◌, append_assoc, arith, ltb, leb, ◌==◌, if◌then◌else◌, ==_iff,
  tests, Bool-cases, Bytes, ◌>>=◌,
}
use redscope.Format.{hex_digit}
use redscope.Json.{hex4, escaped, escape, json_text}
use redscope.Json.Texts.{hex4_control}

pub data Place : Type 0 where
  plain : Place
  slash : Place
  code : ℕ → ℕ → Place

unfoldable pub digit_value : ℕ → Option ℕ
digit_value c =
    if leb b'0' c && leb c b'9'
    then some (c - b'0')
    else if leb b'A' c && leb c b'F'
    then some (c - b'A' + 10)
    else if leb b'a' c && leb c b'f'
    then some (c - b'a' + 10)
    else none

-- The byte that stands behind a backslash.
unfoldable pub reveal : ℕ → Option ℕ
reveal c =
    if c == b'"' || c == b'\\' || c == b'/'
    then some c
    else if c == b'b'
    then some 8
    else if c == b'f'
    then some 12
    else if c == b'n'
    then some 10
    else if c == b'r'
    then some 13
    else if c == b't'
    then some 9
    else none

unfoldable pub put : ℕ → Option Bytes → Option Bytes
put c none = none
put c (some s) = some (c ∷ s)

unfoldable pub put_revealed : Option ℕ → Option Bytes → Option Bytes
unfolding put
put_revealed none rest = none
put_revealed (some c) rest = put c rest

-- The text up to its closing quote, which must be the last byte.
unfoldable pub decode : Bytes → Place → Option Bytes
unfolding digit_value reveal put put_revealed
decode [] place = none
decode (c ∷ s) plain =
    let rest = decode s plain in
    let escaped = decode s slash in
    if c == b'"'
    then elim s [ [] ↦ some [] | _ ↦ none ]
    else if c == b'\\'
    then escaped
    else if ltb c 32
    then none
    else put c rest
decode (c ∷ s) slash =
    let coded = decode s (code 4 0) in
    let rest = decode s plain in if c == b'u' then coded else put_revealed (reveal c) rest
decode (c ∷ s) (code k n) = do
  d ← digit_value c
  let m = n * 16 + d
  let more = decode s (code (k - 1) m)
  let rest = decode s plain
  if leb 2 k then more else if leb m 127 then put m rest else none

unfoldable pub decode_text : Bytes → Option Bytes
unfolding decode
decode_text [] = none
decode_text (c ∷ s) = if c == b'"' then decode s plain else none

digit_value-hex_digit : (d : ℕ) → d < 16 → digit_value (hex_digit d) ≡ some d
unfolding digit_value
digit_value-hex_digit d h = ground (arith, h)

decode_more :
    (c d : ℕ) (t : Bytes) → digit_value c ≡ some d → decode (c ∷ t) (code 2 0) ≡ decode t (code 1 d)
unfolding decode
decode_more c d t h = let e : 0 * 16 + d ≡ d = omega arith in rw (h, e) refl

decode_last :
    (c d n : ℕ) (t : Bytes)
    → digit_value c ≡ some d
    → leb (n * 16 + d) 127 ≡ true
    → decode (c ∷ t) (code 1 n) ≡ put (n * 16 + d) (decode t plain)
unfolding decode
decode_last c d n t h low = rw (h, low) refl

decode_zeros : (t : Bytes) → decode (b'\\' ∷ b'u' ∷ b'0' ∷ b'0' ∷ t) plain ≡ decode t (code 2 0)
unfolding decode digit_value
decode_zeros t = refl

decode_hex2 :
    (d e : ℕ) (t : Bytes)
    → d < 2
    → e < 16
    → decode (b'\\' ∷ b'u' ∷ b'0' ∷ b'0' ∷ hex_digit d ∷ hex_digit e ∷ t) plain
      ≡ put (d * 16 + e) (decode t plain)
decode_hex2 d e t h k =
    decode_zeros (hex_digit d ∷ hex_digit e ∷ t)
    ∙ decode_more (hex_digit d) d (hex_digit e ∷ t) (digit_value-hex_digit d (omega (arith, h)))
    ∙ decode_last (hex_digit e) e d t (digit_value-hex_digit e k) (ground (arith, h, k))

decode_control :
    (c : ℕ) (t : Bytes)
    → c < 32
    → decode ((b'\\' ∷ b'u' ∷ hex4 c) ++ t) plain ≡ put c (decode t plain)
decode_control c t h =
    ap (λ s. decode ((b'\\' ∷ b'u' ∷ s) ++ t) plain) (hex4_control c h)
    ∙ decode_hex2 (c / 16) (c % 16) t (omega (arith, h)) (omega arith)
    ∙ ap (λ n. put n (decode t plain)) (omega arith)

decode_pair :
    (t : Bytes)
    → (decode (b'\\' ∷ b'"' ∷ t) plain ≡ put b'"' (decode t plain))
      × (decode (b'\\' ∷ b'\\' ∷ t) plain ≡ put b'\\' (decode t plain))
      × (decode (b'\\' ∷ b'n' ∷ t) plain ≡ put 10 (decode t plain))
      × (decode (b'\\' ∷ b'r' ∷ t) plain ≡ put 13 (decode t plain))
      × (decode (b'\\' ∷ b't' ∷ t) plain ≡ put 9 (decode t plain))
unfolding decode reveal put_revealed
decode_pair t = (refl, refl, refl, refl, refl)

decode_plain :
    (c : ℕ) (t : Bytes)
    → (c == b'"') ≡ false
    → (c == b'\\') ≡ false
    → ltb c 32 ≡ false
    → decode (c ∷ t) plain ≡ put c (decode t plain)
unfolding decode
decode_plain c t e f g = rw (e, f, g) refl

put_eq : (c d : ℕ) (r : Option Bytes) → (c == d) ≡ true → put d r ≡ put c r
put_eq c d r e = ap (λ n. put n r) (sym ((==_iff c d).0 e))

decode-escaped : (c : ℕ) (t : Bytes) → decode (escaped c ++ t) plain ≡ put c (decode t plain)
unfolding escaped
decode-escaped c t =
    let r = decode t plain in
    elim (Bool-cases (c == b'"')) [
      | inl e ↦ rw e ((decode_pair t).0 ∙ put_eq c b'"' r e)
      | inr e ↦ elim (Bool-cases (c == b'\\')) [
        | inl f ↦ rw (e, f) ((decode_pair t).1 ∙ put_eq c b'\\' r f)
        | inr f ↦ elim (Bool-cases (c == 10)) [
          | inl g ↦ rw (e, f, g) ((decode_pair t).2 ∙ put_eq c 10 r g)
          | inr g ↦ elim (Bool-cases (c == 13)) [
            | inl h ↦ rw (e, f, g, h) ((decode_pair t).3 ∙ put_eq c 13 r h)
            | inr h ↦ elim (Bool-cases (c == 9)) [
              | inl i ↦ rw (e, f, g, h, i) ((decode_pair t).4 ∙ put_eq c 9 r i)
              | inr i ↦ elim (Bool-cases (ltb c 32)) [
                | inl j ↦ rw (e, f, g, h, i, j) (decode_control c t (omega (tests, j)))
                | inr j ↦ rw (e, f, g, h, i, j) (decode_plain c t e f j)
              ]
            ]
          ]
        ]
      ]
    ]

put-some : (c : ℕ) (s : Bytes) → put c (some s) ≡ some (c ∷ s)
unfolding put
put-some c s = refl

decode_end : decode (b'"' ∷ []) plain ≡ some []
unfolding decode
decode_end = refl

decode-escape : (s : Bytes) → decode (escape s ++ (b'"' ∷ [])) plain ≡ some s
unfolding escape
decode-escape [] = decode_end
decode-escape (c ∷ s) =
    ap (λ x. decode x plain) (append_assoc (escaped c) (escape s) (b'"' ∷ []))
    ∙ decode-escaped c (escape s ++ (b'"' ∷ []))
    ∙ ap (put c) (decode-escape s)
    ∙ put-some c s

-- Whatever the bytes of a text are, a decoder of JSON reads them again from what is written.
pub decode_text-json_text : (s : Bytes) → decode_text (json_text s) ≡ some s
unfolding decode_text json_text
decode_text-json_text s = decode-escape s
