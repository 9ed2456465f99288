-- ===== src/Json/Lists.antt =====
-- Lists of values, and the laws by which the reader goes over what is written.
use redscope.Base.{
  ℕ, ◌≡◌, refl, ap, ◌∙◌, Bool, none, some, List, [], ◌∷◌, ◌++◌, map, append_assoc, Bytes, CStr, All,
}
use redscope.Base.Int.{ℤ}
use redscope.Json.{
  json_text, json_cstr, print_u, print_llu, print_lld, json_bool, listed, listed_more,
}
use redscope.Json.Accept.{
  Context, in_array, value, first_item, first_key, next_key, colon, after, run, Runs, run-append,
}
use redscope.Json.Texts.{
  json_text-Runs, json_text-Runs_first, json_text-Runs_key, json_text-Runs_first_key,
  json_cstr-Runs,
}
use redscope.Json.Numbers.{run-print_u, run-print_llu, run-print_lld, json_bool-Runs}

-- A value that may also be the first of an array.
abbrev pub IsItem : Bytes → Type 0
IsItem x =
    ((stack : List Context) → Runs x (value, stack) (after, stack))
    × ((stack : List Context) → Runs x (first_item, stack) (after, stack))

pub json_text-IsItem : (s : Bytes) → IsItem (json_text s)
json_text-IsItem s = (json_text-Runs s, json_text-Runs_first s)

pub json_cstr-IsItem : (s : CStr) → IsItem (json_cstr s)
json_cstr-IsItem none = json_text-IsItem []
json_cstr-IsItem (some s) = json_text-IsItem s

listed_more-run :
    (xs : List Bytes) (t : Bytes) (stack : List Context)
    → All IsItem xs
    → run (listed_more xs ++ (b']' ∷ t)) (after, in_array ∷ stack) ≡ run t (after, stack)
unfolding run
listed_more-run [] t stack h = refl
listed_more-run (x ∷ xs) t stack h =
    ap (λ s. run s (value, in_array ∷ stack)) (append_assoc x (listed_more xs) (b']' ∷ t))
    ∙ run-append x (listed_more xs ++ (b']' ∷ t)) (value, in_array ∷ stack)
        (after, in_array ∷ stack) (h.0.0 (in_array ∷ stack))
    ∙ listed_more-run xs t stack h.1

pub listed-run :
    (xs : List Bytes) (t : Bytes) (stack : List Context)
    → All IsItem xs
    → run (listed xs ++ (b']' ∷ t)) (first_item, in_array ∷ stack) ≡ run t (after, stack)
unfolding run
listed-run [] t stack h = refl
listed-run (x ∷ xs) t stack h =
    ap (λ s. run s (first_item, in_array ∷ stack)) (append_assoc x (listed_more xs) (b']' ∷ t))
    ∙ run-append x (listed_more xs ++ (b']' ∷ t)) (first_item, in_array ∷ stack)
        (after, in_array ∷ stack) (h.0.1 (in_array ∷ stack))
    ∙ listed_more-run xs t stack h.1

pub All-map_items {ℓ} :
    {A : Type ℓ} (f : A → Bytes) (xs : List A) → ((x : A) → IsItem (f x)) → All IsItem (map f xs)
All-map_items f [] h = tt
All-map_items f (x ∷ xs) h = (h x, All-map_items f xs h)

pub text_run :
    (s t : Bytes) (stack : List Context)
    → run (json_text s ++ t) (value, stack) ≡ run t (after, stack)
text_run s t stack =
    run-append (json_text s) t (value, stack) (after, stack) (json_text-Runs s stack)

pub key_run :
    (s t : Bytes) (stack : List Context)
    → run (json_text s ++ t) (next_key, stack) ≡ run t (colon, stack)
key_run s t stack =
    run-append (json_text s) t (next_key, stack) (colon, stack) (json_text-Runs_key s stack)

pub first_key_run :
    (s t : Bytes) (stack : List Context)
    → run (json_text s ++ t) (first_key, stack) ≡ run t (colon, stack)
first_key_run s t stack =
    run-append (json_text s) t (first_key, stack) (colon, stack) (json_text-Runs_first_key s stack)

pub cstr_run :
    (s : CStr) (t : Bytes) (stack : List Context)
    → run (json_cstr s ++ t) (value, stack) ≡ run t (after, stack)
cstr_run s t stack =
    run-append (json_cstr s) t (value, stack) (after, stack) (json_cstr-Runs s stack)

pub bool_run :
    (b : Bool) (t : Bytes) (stack : List Context)
    → run (json_bool b ++ t) (value, stack) ≡ run t (after, stack)
bool_run b t stack =
    run-append (json_bool b) t (value, stack) (after, stack) (json_bool-Runs b stack)

pub u_comma :
    (n : ℕ) (t : Bytes) (stack : List Context)
    → run (print_u n ++ (b',' ∷ t)) (value, stack) ≡ run (b',' ∷ t) (after, stack)
u_comma n t stack = run-print_u n b',' t stack refl

pub u_space :
    (n : ℕ) (t : Bytes) (stack : List Context)
    → run (print_u n ++ (b' ' ∷ t)) (value, stack) ≡ run (b' ' ∷ t) (after, stack)
u_space n t stack = run-print_u n b' ' t stack refl

pub llu_comma :
    (n : ℕ) (t : Bytes) (stack : List Context)
    → run (print_llu n ++ (b',' ∷ t)) (value, stack) ≡ run (b',' ∷ t) (after, stack)
llu_comma n t stack = run-print_llu n b',' t stack refl

pub lld_comma :
    (z : ℤ) (t : Bytes) (stack : List Context)
    → run (print_lld z ++ (b',' ∷ t)) (value, stack) ≡ run (b',' ∷ t) (after, stack)
lld_comma z t stack = run-print_lld z b',' t stack refl

pub lld_space :
    (z : ℤ) (t : Bytes) (stack : List Context)
    → run (print_lld z ++ (b' ' ∷ t)) (value, stack) ≡ run (b' ' ∷ t) (after, stack)
lld_space z t stack = run-print_lld z b' ' t stack refl

pub ruleset json_laws = (
  text_run, key_run, first_key_run, cstr_run, bool_run, u_comma, u_space, llu_comma, lld_comma,
  lld_space,
)

-- A list of values inside its brackets, by the values that it is made of.
pub items_run {ℓ} :
    {A : Type ℓ} (f : A → Bytes) (xs : List A)
    → ((x : A) → IsItem (f x))
    → (t : Bytes) (stack : List Context)
    → run (listed (map f xs) ++ (b']' ∷ t)) (first_item, in_array ∷ stack) ≡ run t (after, stack)
items_run f xs h t stack = listed-run (map f xs) t stack (All-map_items f xs h)
