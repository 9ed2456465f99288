-- ===== src/CrashArchive/Valid.antt =====
-- src/breadcrumbs/CrashArchive.cpp: the list of crashes is a document of JSON.
use redscope.Base.{
  ℕ, ◌/◌, ◌%◌, ◌≤◌, ◌<◌, ◌≡◌, refl, ap, ◌∙◌, ◌⊎◌, inl, inr, Bool, true, false, Option, none, some,
  List, [], ◌∷◌, ◌++◌, append_assoc, arith, ltb, ◌==◌, tests, Bool-cases, Bytes, All,
}
use redscope.Format.{digits_onto}
use redscope.Json.Accept.{
  Context, in_array, value, first_item, after, text, is_hex, run, Runs, Runs-append, run-append,
  IsJson,
}
use redscope.Json.Lists.{IsItem, json_laws}
use redscope.Json.Texts.{run_pair, run_plain}
use redscope.CrashArchive.{
  low_digit, low_hex4, escape_byte, append_escaped, append_json_str, StackModule, CrashFields,
  joined, joined_more, module_text, put_module, module_texts, fault_text, summary_of,
  project_crash_summary, objects_left, is_blank, build_crash_array, CrashFile, newest, put_summary,
  put_content, summaries_of, read_all_crashes_json,
}

low_digit-is_hex : (d : ℕ) → d < 16 → is_hex (low_digit d) ≡ true
low_digit-is_hex d h = ground (arith, h)

low_hex4_small : (c : ℕ) → c < 16 → low_hex4 c ≡ b'0' ∷ b'0' ∷ b'0' ∷ low_digit c ∷ []
unfolding low_hex4 digits_onto
low_hex4_small c h = let e : ltb c 16 ≡ true = ground (arith, h) in rw e refl

low_hex4_larger :
    (c : ℕ)
    → 16 ≤ c
    → c < 32
    → low_hex4 c ≡ b'0' ∷ b'0' ∷ low_digit (c / 16) ∷ low_digit (c % 16) ∷ []
unfolding low_hex4 digits_onto
low_hex4_larger c l h =
    let e : ltb c 16 ≡ false = ground (arith, l) in
    let f : ltb (c / 16) 16 ≡ true = ground (arith, h) in rw (e, f) refl

run_code :
    (d e : ℕ) (k : Bool) (stack : List Context)
    → is_hex d ≡ true
    → is_hex e ≡ true
    → Runs (b'\\' ∷ b'u' ∷ b'0' ∷ b'0' ∷ d ∷ e ∷ []) (text k, stack) (text k, stack)
unfolding run
run_code d e k stack hd he = rw (hd, he) refl

run-low_hex4 :
    (c : ℕ) (k : Bool) (stack : List Context)
    → c < 32
    → Runs (b'\\' ∷ b'u' ∷ low_hex4 c) (text k, stack) (text k, stack)
run-low_hex4 c k stack h = elim (Bool-cases (ltb c 16)) [
  | inl e ↦
      ap (λ s. run (b'\\' ∷ b'u' ∷ s) (text k, stack)) (low_hex4_small c (omega (tests, e)))
      ∙ run_code b'0' (low_digit c) k stack refl (low_digit-is_hex c (omega (tests, e)))
  | inr e ↦
      ap (λ s. run (b'\\' ∷ b'u' ∷ s) (text k, stack)) (low_hex4_larger c (omega (tests, e)) h)
      ∙ run_code (low_digit (c / 16)) (low_digit (c % 16)) k stack
          (low_digit-is_hex (c / 16) (omega (arith, h))) (low_digit-is_hex (c % 16) (omega arith))
]

escape_byte-Runs :
    (c : ℕ) (k : Bool) (stack : List Context) → Runs (escape_byte c) (text k, stack) (text k, stack)
unfolding escape_byte
escape_byte-Runs c k stack = elim (Bool-cases (c == b'"')) [
  | inl e ↦ rw e (run_pair k stack).0
  | inr e ↦ elim (Bool-cases (c == b'\\')) [
    | inl f ↦ rw (e, f) (run_pair k stack).1
    | inr f ↦ elim (Bool-cases (c == 10)) [
      | inl g ↦ rw (e, f, g) (run_pair k stack).2
      | inr g ↦ elim (Bool-cases (c == 13)) [
        | inl h ↦ rw (e, f, g, h) (run_pair k stack).3
        | inr h ↦ elim (Bool-cases (c == 9)) [
          | inl i ↦ rw (e, f, g, h, i) (run_pair k stack).4
          | inr i ↦ elim (Bool-cases (ltb c 32)) [
            | inl j ↦ rw (e, f, g, h, i, j) (run-low_hex4 c k stack (omega (tests, j)))
            | inr j ↦ rw (e, f, g, h, i, j) (run_plain c k stack e f j)
          ]
        ]
      ]
    ]
  ]
]

append_escaped-Runs :
    (s : Bytes) (k : Bool) (stack : List Context)
    → Runs (append_escaped s) (text k, stack) (text k, stack)
unfolding append_escaped run
append_escaped-Runs [] k stack = refl
append_escaped-Runs (c ∷ s) k stack =
    Runs-append (escape_byte c) (append_escaped s) (text k, stack) (text k, stack) (text k, stack)
      (escape_byte-Runs c k stack) (append_escaped-Runs s k stack)

escaped_run :
    (s t : Bytes) (k : Bool) (stack : List Context)
    → run (append_escaped s ++ t) (text k, stack) ≡ run t (text k, stack)
escaped_run s t k stack =
    run-append (append_escaped s) t (text k, stack) (text k, stack) (append_escaped-Runs s k stack)

str_run :
    (s t : Bytes) (stack : List Context)
    → run (append_json_str s ++ t) (value, stack) ≡ run t (after, stack)
unfolding append_json_str run
str_run s t stack = simp (append_assoc, escaped_run)

fault_run :
    (s t : Bytes) (stack : List Context)
    → run (fault_text s ++ t) (value, stack) ≡ run t (after, stack)
unfolding fault_text run
fault_run [] t stack = refl
fault_run (c ∷ s) t stack = str_run (c ∷ s) t stack

module_text-IsItem : (name : Bytes) (hits : ℕ) (kind : Bytes) → IsItem (module_text name hits kind)
unfolding module_text run
module_text-IsItem name hits kind =
    (λ stack. simp (json_laws, str_run), λ stack. simp (json_laws, str_run))

put_module-All :
    (name : Option Bytes) (hits : ℕ) (kind : Bytes) (rest : List Bytes)
    → All IsItem rest
    → All IsItem (put_module name hits kind rest)
unfolding put_module
put_module-All none hits kind rest h = h
put_module-All (some name) hits kind rest h = (module_text-IsItem name hits kind, h)

module_texts-All : (ms : List StackModule) → All IsItem (module_texts ms)
unfolding module_texts
module_texts-All [] = tt
module_texts-All (m ∷ ms) =
    put_module-All m.name m.hits m.kind (module_texts ms) (module_texts-All ms)

joined_more-run :
    (xs : List Bytes) (t : Bytes) (stack : List Context)
    → All IsItem xs
    → run (joined_more xs ++ (b']' ∷ t)) (after, in_array ∷ stack) ≡ run t (after, stack)
unfolding run
joined_more-run [] t stack h = refl
joined_more-run (x ∷ xs) t stack h =
    ap (λ s. run s (value, in_array ∷ stack)) (append_assoc x (joined_more xs) (b']' ∷ t))
    ∙ run-append x (joined_more xs ++ (b']' ∷ t)) (value, in_array ∷ stack)
        (after, in_array ∷ stack) (h.0.0 (in_array ∷ stack))
    ∙ joined_more-run xs t stack h.1

joined-run :
    (xs : List Bytes) (t : Bytes) (stack : List Context)
    → All IsItem xs
    → run (joined xs ++ (b']' ∷ t)) (first_item, in_array ∷ stack) ≡ run t (after, stack)
unfolding run
joined-run [] t stack h = refl
joined-run (x ∷ xs) t stack h =
    ap (λ s. run s (first_item, in_array ∷ stack)) (append_assoc x (joined_more xs) (b']' ∷ t))
    ∙ run-append x (joined_more xs ++ (b']' ∷ t)) (first_item, in_array ∷ stack)
        (after, in_array ∷ stack) (h.0.1 (in_array ∷ stack))
    ∙ joined_more-run xs t stack h.1

modules_run :
    (ms : List StackModule) (t : Bytes) (stack : List Context)
    → run (joined (module_texts ms) ++ (b']' ∷ t)) (first_item, in_array ∷ stack)
      ≡ run t (after, stack)
modules_run ms t stack = joined-run (module_texts ms) t stack (module_texts-All ms)

summary_of-IsItem : (f : CrashFields) → IsItem (summary_of f)
unfolding summary_of run
summary_of-IsItem f = (
  λ stack. simp (json_laws, str_run, fault_run, modules_run),
  λ stack. simp (json_laws, str_run, fault_run, modules_run),
)

put_summary-All :
    (s : Bytes) (rest : List Bytes)
    → (s ≡ [] ⊎ IsItem s)
    → All IsItem rest
    → All IsItem (put_summary s rest)
put_summary-All [] rest h k = k
put_summary-All (c ∷ s) rest (inl e) k = absurd (nonempty e)
  where
    nonempty : c ∷ s ≡ [] → ⊥
    nonempty e = cc
put_summary-All (c ∷ s) rest (inr i) k = (i, k)

projected :
    (o : Option CrashFields) → (project_crash_summary o ≡ [] ⊎ IsItem (project_crash_summary o))
unfolding project_crash_summary
projected none = inl refl
projected (some f) = inr (summary_of-IsItem f)

put_content-All :
    (o : Option (Option CrashFields)) (rest : List Bytes)
    → All IsItem rest
    → All IsItem (put_content o rest)
unfolding put_content
put_content-All none rest h = h
put_content-All (some c) rest h = put_summary-All (project_crash_summary c) rest (projected c) h

summaries_of-All : (fs : List CrashFile) → All IsItem (summaries_of fs)
unfolding summaries_of
summaries_of-All [] = tt
summaries_of-All (f ∷ fs) = put_content-All f.content (summaries_of fs) (summaries_of-All fs)

objects_left-All : (os : List Bytes) → All IsItem os → All IsItem (objects_left os)
unfolding objects_left
objects_left-All [] h = tt
objects_left-All (o ∷ os) h = elim (Bool-cases (is_blank o)) [
  | inl e ↦ rw e (objects_left-All os h.1)
  | inr e ↦ rw e (h.0, objects_left-All os h.1)
]

-- Whatever files a folder holds, and whatever simdjson finds in them: what scripts are given is one value
-- of JSON.
pub read_all_crashes_json-IsJson :
    (limit : ℕ) (fs : List CrashFile) → IsJson (read_all_crashes_json limit fs)
unfolding read_all_crashes_json build_crash_array run
read_all_crashes_json-IsJson limit fs =
    joined-run (objects_left (summaries_of (newest limit fs))) [] []
      (objects_left-All _ (summaries_of-All (newest limit fs)))
