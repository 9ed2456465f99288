-- ===== src/Json/Texts.antt =====
-- What `AppendJsonStringN` writes is a text of JSON, whatever its bytes are.
use redscope.Base.{
  ℕ, ◌/◌, ◌%◌, ◌≤◌, ◌<◌, ◌≡◌, refl, ap, ◌∙◌, inl, inr, Bool, true, false, none, some, List, [], ◌∷◌,
  ◌++◌, arith, ltb, ◌==◌, tests, Bool-cases, Bytes, CStr,
}
use redscope.Format.{hex_digit, digits_onto, hex}
use redscope.Json.{hex4, escaped, escape, json_text, json_cstr}
use redscope.Json.Accept.{
  Context, value, first_item, first_key, next_key, colon, after, text, is_hex, end_text, run, Runs,
  Runs-append,
}

hex_small : (c : ℕ) → c < 16 → hex c ≡ hex_digit c ∷ []
unfolding hex digits_onto
hex_small c h = let e : ltb c 16 ≡ true = ground (arith, h) in rw e refl

hex_larger : (c : ℕ) → 16 ≤ c → c < 32 → hex c ≡ hex_digit (c / 16) ∷ hex_digit (c % 16) ∷ []
unfolding hex digits_onto
hex_larger c l h =
    let e : ltb c 16 ≡ false = ground (arith, l) in
    let f : ltb (c / 16) 16 ≡ true = ground (arith, h) in rw (e, f) refl

pub hex4_control :
    (c : ℕ) → c < 32 → hex4 c ≡ b'0' ∷ b'0' ∷ hex_digit (c / 16) ∷ hex_digit (c % 16) ∷ []
unfolding hex4
hex4_control c h = elim (Bool-cases (ltb c 16)) [
  | inl e ↦
      let none_above : c / 16 ≡ 0 = omega (tests, e) in
      let low : c % 16 ≡ c = omega (tests, e) in
      rw (hex_small c (omega (tests, e)), none_above, low) refl
  | inr e ↦ rw (hex_larger c (omega (tests, e)) h) refl
]

hex_digit-is_hex : (d : ℕ) → d < 16 → is_hex (hex_digit d) ≡ true
hex_digit-is_hex d h = ground (arith, h)

run_hex2 :
    (d e : ℕ) (k : Bool) (stack : List Context)
    → d < 16
    → e < 16
    → Runs
        (b'\\' ∷ b'u' ∷ b'0' ∷ b'0' ∷ hex_digit d ∷ hex_digit e ∷ [])
        (text k, stack)
        (text k, stack)
unfolding run
run_hex2 d e k stack hd he = rw (hex_digit-is_hex d hd, hex_digit-is_hex e he) refl

run_control :
    (c : ℕ) (k : Bool) (stack : List Context)
    → c < 32
    → Runs (b'\\' ∷ b'u' ∷ hex4 c) (text k, stack) (text k, stack)
run_control c k stack h =
    ap (λ s. run (b'\\' ∷ b'u' ∷ s) (text k, stack)) (hex4_control c h)
    ∙ run_hex2 (c / 16) (c % 16) k stack (omega (arith, h)) (omega arith)

pub run_plain :
    (c : ℕ) (k : Bool) (stack : List Context)
    → (c == b'"') ≡ false
    → (c == b'\\') ≡ false
    → ltb c 32 ≡ false
    → Runs (c ∷ []) (text k, stack) (text k, stack)
unfolding run
run_plain c k stack e f g = rw (e, f, g) refl

pub run_pair :
    (k : Bool) (stack : List Context)
    → Runs (b'\\' ∷ b'"' ∷ []) (text k, stack) (text k, stack)
      × Runs (b'\\' ∷ b'\\' ∷ []) (text k, stack) (text k, stack)
      × Runs (b'\\' ∷ b'n' ∷ []) (text k, stack) (text k, stack)
      × Runs (b'\\' ∷ b'r' ∷ []) (text k, stack) (text k, stack)
      × Runs (b'\\' ∷ b't' ∷ []) (text k, stack) (text k, stack)
unfolding run
run_pair k stack = (refl, refl, refl, refl, refl)

-- The escape of a byte leaves the reader inside the text.
escaped-Runs :
    (c : ℕ) (k : Bool) (stack : List Context) → Runs (escaped c) (text k, stack) (text k, stack)
unfolding escaped
escaped-Runs c k stack = elim (Bool-cases (c == b'"')) [
  | inl e ↦ rw e (run_pair k stack).0
  | inr e ↦ elim (Bool-cases (c == b'\\')) [
    | inl f ↦ rw (e, f) (run_pair k stack).1
    | inr f ↦ elim (Bool-cases (c == 10)) [
      | inl g ↦ rw (e, f, g) (run_pair k stack).2
      | inr g ↦ elim (Bool-cases (c == 13)) [
        | inl h ↦ rw (e, f, g, h) (run_pair k stack).3
        | inr h ↦ elim (Bool-cases (c == 9)) [
          | inl i ↦ rw (e, f, g, h, i) (run_pair k stack).4
          | inr i ↦ elim (Bool-cases (ltb c 32)) [
            | inl j ↦ rw (e, f, g, h, i, j) (run_control c k stack (omega (tests, j)))
            | inr j ↦ rw (e, f, g, h, i, j) (run_plain c k stack e f j)
          ]
        ]
      ]
    ]
  ]
]

escape-Runs :
    (s : Bytes) (k : Bool) (stack : List Context) → Runs (escape s) (text k, stack) (text k, stack)
unfolding escape run
escape-Runs [] k stack = refl
escape-Runs (c ∷ s) k stack =
    Runs-append (escaped c) (escape s) (text k, stack) (text k, stack) (text k, stack)
      (escaped-Runs c k stack) (escape-Runs s k stack)

body-Runs :
    (s : Bytes) (k : Bool) (stack : List Context)
    → Runs (escape s ++ (b'"' ∷ [])) (text k, stack) (end_text k, stack)
unfolding run
body-Runs s k stack =
    Runs-append (escape s) (b'"' ∷ []) (text k, stack) (text k, stack) (end_text k, stack)
      (escape-Runs s k stack) refl

-- Where a value may come, a text is one; where a key must come, it is one.
pub json_text-Runs :
    (s : Bytes) (stack : List Context) → Runs (json_text s) (value, stack) (after, stack)
unfolding json_text run
json_text-Runs s stack = body-Runs s false stack

pub json_text-Runs_first :
    (s : Bytes) (stack : List Context) → Runs (json_text s) (first_item, stack) (after, stack)
unfolding json_text run
json_text-Runs_first s stack = body-Runs s false stack

pub json_text-Runs_key :
    (s : Bytes) (stack : List Context) → Runs (json_text s) (next_key, stack) (colon, stack)
unfolding json_text run
json_text-Runs_key s stack = body-Runs s true stack

pub json_text-Runs_first_key :
    (s : Bytes) (stack : List Context) → Runs (json_text s) (first_key, stack) (colon, stack)
unfolding json_text run
json_text-Runs_first_key s stack = body-Runs s true stack

pub json_cstr-Runs :
    (s : CStr) (stack : List Context) → Runs (json_cstr s) (value, stack) (after, stack)
json_cstr-Runs none stack = json_text-Runs [] stack
json_cstr-Runs (some s) stack = json_text-Runs s stack
