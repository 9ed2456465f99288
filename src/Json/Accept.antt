-- ===== src/Json/Accept.antt =====
-- A reader of JSON, byte by byte, with the objects and arrays that are open on a stack. Numbers have no
-- fraction and no exponent; the bytes of a text are not looked at beyond what JSON forbids.
use redscope.Base.{
  ℕ, ◌-◌, ◌≡◌, ap, ◌∙◌, Bool, true, false, ◌&&◌, ◌||◌, Option, none, some, List, [], ◌∷◌, ◌++◌, ltb,
  leb, ◌==◌, if◌then◌else◌, Bytes, ◌>>=◌, codes,
}

pub data Context : Type 0 where
  in_object in_array : Context

pub data Mode : Type 0 where
  value : Mode
  first_item : Mode
  first_key : Mode
  next_key : Mode
  colon : Mode
  after : Mode
  text : Bool → Mode
  escape : Bool → Mode
  code : Bool → ℕ → Mode
  minus : Mode
  zero_digit : Mode
  digits : Mode
  word : Bytes → Mode

abbrev pub State : Type 0
State = Mode × List Context

abbrev pub is_white : ℕ → Bool
is_white c = c == 32 || c == 10 || c == 9 || c == 13

abbrev pub is_digit : ℕ → Bool
is_digit c = leb b'0' c && leb c b'9'

abbrev pub is_hex : ℕ → Bool
is_hex c = is_digit c || (leb b'A' c && leb c b'F') || (leb b'a' c && leb c b'f')

abbrev pub is_escape : ℕ → Bool
is_escape c =
    c == b'"'
    || c == b'\\'
    || c == b'/'
    || c == b'b'
    || c == b'f'
    || c == b'n'
    || c == b'r'
    || c == b't'

-- A value begins.
unfoldable pub begin_value : ℕ → List Context → Option State
begin_value c stack =
    if c == b'"'
    then some (text false, stack)
    else if c == b'{'
    then some (first_key, in_object ∷ stack)
    else if c == b'['
    then some (first_item, in_array ∷ stack)
    else if c == b'-'
    then some (minus, stack)
    else if c == b'0'
    then some (zero_digit, stack)
    else if is_digit c
    then some (digits, stack)
    else if c == b't'
    then some (word (codes "rue"), stack)
    else if c == b'f'
    then some (word (codes "alse"), stack)
    else if c == b'n'
    then some (word (codes "ull"), stack)
    else none

-- A value has ended.
unfoldable pub end_value : ℕ → List Context → Option State
end_value c [] = if is_white c then some (after, []) else none
end_value c (in_object ∷ stack) =
    if is_white c
    then some (after, in_object ∷ stack)
    else if c == b','
    then some (next_key, in_object ∷ stack)
    else if c == b'}'
    then some (after, stack)
    else none
end_value c (in_array ∷ stack) =
    if is_white c
    then some (after, in_array ∷ stack)
    else if c == b','
    then some (value, in_array ∷ stack)
    else if c == b']'
    then some (after, stack)
    else none

abbrev pub end_text : Bool → Mode
end_text is_key = if is_key then colon else after

abbrev pub close : Context → ℕ → List Context → Option State
close in_object c (in_object ∷ stack) = if c == b'}' then some (after, stack) else none
close in_array c (in_array ∷ stack) = if c == b']' then some (after, stack) else none
close _ c _ = none

abbrev pub step_word : Bytes → ℕ → List Context → Option State
step_word [] c stack = none
step_word (d ∷ []) c stack = if c == d then some (after, stack) else none
step_word (d ∷ e ∷ rest) c stack = if c == d then some (word (e ∷ rest), stack) else none

unfoldable pub step : ℕ → Mode → List Context → Option State
unfolding begin_value end_value
step c value stack = if is_white c then some (value, stack) else begin_value c stack
step c first_item stack =
    if is_white c
    then some (first_item, stack)
    else if c == b']'
    then close in_array c stack
    else begin_value c stack
step c first_key stack =
    if is_white c
    then some (first_key, stack)
    else if c == b'"'
    then some (text true, stack)
    else close in_object c stack
step c next_key stack =
    if is_white c
    then some (next_key, stack)
    else if c == b'"'
    then some (text true, stack)
    else none
step c colon stack =
    if is_white c then some (colon, stack) else if c == b':' then some (value, stack) else none
step c after stack = end_value c stack
step c (text is_key) stack =
    if c == b'"'
    then some (end_text is_key, stack)
    else if c == b'\\'
    then some (escape is_key, stack)
    else if ltb c 32
    then none
    else some (text is_key, stack)
step c (escape is_key) stack =
    if is_escape c
    then some (text is_key, stack)
    else if c == b'u'
    then some (code is_key 4, stack)
    else none
step c (code is_key n) stack =
    if is_hex c then some (if n == 1 then text is_key else code is_key (n - 1), stack) else none
step c minus stack =
    if c == b'0'
    then some (zero_digit, stack)
    else if is_digit c
    then some (digits, stack)
    else none
step c zero_digit stack = if is_digit c then none else end_value c stack
step c digits stack = if is_digit c then some (digits, stack) else end_value c stack
step c (word rest) stack = step_word rest c stack

unfoldable pub run : Bytes → State → Option State
unfolding step
run [] st = some st
run (c ∷ s) st = step c st.0 st.1 >>= run s

-- A text leads from one state of the reader to another.
abbrev pub Runs : Bytes → State → State → Type 0
Runs s a b = run s a ≡ some b

bind-pass :
    (o : Option State) (f g : State → Option State) (b : State) (r : Option State)
    → ((st : State) → f st ≡ some b → g st ≡ r)
    → (o >>= f) ≡ some b
    → (o >>= g) ≡ r
bind-pass none f g b r k h = cc
bind-pass (some st) f g b r k h = k st h

pub run-append : (s t : Bytes) (a b : State) → Runs s a b → run (s ++ t) a ≡ run t b
unfolding run
run-append [] t a b h = ap (run t) (cc)
run-append (c ∷ s) t a b h =
    bind-pass (step c a.0 a.1) (run s) (run (s ++ t)) b (run t b) (λ st. run-append s t st b) h

pub Runs-append : (s t : Bytes) (a b c : State) → Runs s a b → Runs t b c → Runs (s ++ t) a c
Runs-append s t a b c h k = run-append s t a b h ∙ k

-- A document is one value.
abbrev pub IsJson : Bytes → Type 0
IsJson s = Runs s (value, []) (after, [])
