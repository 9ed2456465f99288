-- ===== src/GameState/Map.antt =====
-- src/snapshot/GameStateLive.cpp, `SetLiveState`: the entries are a map from names to values, for names
-- that fit, and a name that does not fit is never found again.
use redscope.Base.{
  ℕ, ◌≤◌, ◌<◌, ◌≡◌, refl, sym, ap, subst, ◌∙◌, inl, inr, Bool, true, false, ◌&&◌, ◌||◌, Option,
  none, some, List, [], ◌∷◌, ◌++◌, arith, ltb, leb, if◌then◌else◌, tests, Bool-cases, Bytes, CStr,
  str_eq, str_eq_iff, str_eq_ne, str_eq_sym, length, take, length-append, length-take, take_all,
  All, All-append,
}
use redscope.GameState.{
  GameStateEntry, GameStateLive, game_state_max_entries, fixed, same_key, put_before, update_entry,
  add_entry, updated, set_live_state,
}

unfoldable pub value_at : Bytes → List GameStateEntry → Option Bytes
value_at k [] = none
value_at k (e ∷ es) = let rest = value_at k es in if str_eq e.key k then some e.value else rest

abbrev pub KeysFit : List GameStateEntry → Type 0
KeysFit es = All (λ e. length e.key < 32) es

pub record IsStored (g : GameStateLive) : Type 0 where
  pub keys : KeysFit g.entries
  pub room : length g.entries ≤ game_state_max_entries

unfoldable pub is_set : Bytes → List GameStateEntry → Bool
is_set k [] = false
is_set k (e ∷ es) = str_eq e.key k || is_set k es

-- A name that fits is compared in full.
same_key_fits :
    (stored key : Bytes)
    → length stored < 32
    → length key < 32
    → same_key stored key ≡ str_eq stored key
unfolding same_key
same_key_fits stored key h k =
    rw (take_all 32 stored (omega (arith, h)), take_all 32 key (omega (arith, k))) refl

-- A longer one has 32 bytes where the stored name has at most 31.
same_key_long :
    (stored key : Bytes) → length stored < 32 → 32 ≤ length key → same_key stored key ≡ false
unfolding same_key
same_key_long stored key h k =
    str_eq_ne (take 32 stored) (take 32 key)
      (λ e. omega (arith, h, k, ap length e, length-take 32 stored, length-take 32 key))

Updates : Bytes → CStr → List GameStateEntry → Option (List GameStateEntry) → Type 0
unfolding value_at is_set
Updates k v es none = is_set k es ≡ false
Updates k v es (some fs) =
    (is_set k es ≡ true)
    × KeysFit fs
    × (length fs ≡ length es)
    × ((j : Bytes) → value_at j fs ≡ (if str_eq k j then some (fixed 96 v) else value_at j es))

-- The first entry with the name, and an entry with another one.
update_here :
    (k : Bytes) (v : CStr) (e : GameStateEntry) (es : List GameStateEntry)
    → KeysFit (e ∷ es)
    → str_eq e.key k ≡ true
    → Updates k v (e ∷ es) (some (record e { value = fixed 96 v } ∷ es))
unfolding Updates value_at is_set
update_here k v e es f s =
    let same = (str_eq_iff e.key k).0 s in
    (
      rw s refl,
      f,
      refl,
      λ j. elim (Bool-cases (str_eq e.key j)) [
        | inl t ↦ rw (sym same, t) refl
        | inr t ↦ rw (sym same, t) refl
      ],
    )

update_later :
    (k : Bytes) (v : CStr) (e : GameStateEntry) (es : List GameStateEntry)
    (o : Option (List GameStateEntry))
    → KeysFit (e ∷ es)
    → str_eq e.key k ≡ false
    → Updates k v es o
    → Updates k v (e ∷ es) (put_before e o)
unfolding Updates value_at is_set
update_later k v e es none f s u = rw s u
update_later k v e es (some fs) f s u = (
  rw s u.0,
  (f.0, u.1),
  omega (arith, u.2),
  λ j. elim (Bool-cases (str_eq e.key j)) [
    | inl t ↦
        let apart : str_eq k j ≡ false =
          subst (λ x. str_eq k x ≡ false) ((str_eq_iff e.key j).0 t) (str_eq_sym k e.key ∙ s) in
        rw (t, apart) refl
    | inr t ↦ rw t (u.3 j)
  ],
)

update_entry-Updates :
    (k : Bytes) (v : CStr) (es : List GameStateEntry)
    → length k < 32
    → KeysFit es
    → Updates k v es (update_entry k v es)
unfolding update_entry Updates value_at is_set
update_entry-Updates k v [] h f = refl
update_entry-Updates k v (e ∷ es) h f =
    let full = same_key_fits e.key k f.0 h in
    elim (Bool-cases (str_eq e.key k)) [
      | inl s ↦ rw (full ∙ s) (update_here k v e es f s)
      | inr s ↦
          rw (full ∙ s)
            (update_later k v e es (update_entry k v es) f s (update_entry-Updates k v es h f.1))
    ]

value_at_unset : (j : Bytes) (es : List GameStateEntry) → is_set j es ≡ false → value_at j es ≡ none
unfolding value_at is_set
value_at_unset j [] n = refl
value_at_unset j (e ∷ es) n = elim (Bool-cases (str_eq e.key j)) [
  | inl t ↦ absurd (ground (arith, (rw t at n)))
  | inr t ↦ rw t (value_at_unset j es (rw t at n))
]

value_at-append :
    (j : Bytes) (es : List GameStateEntry) (e : GameStateEntry)
    → value_at j (es ++ (e ∷ []))
      ≡ (if is_set j es then value_at j es else if str_eq e.key j then some e.value else none)
unfolding value_at is_set
value_at-append j [] e = refl
value_at-append j (d ∷ es) e = elim (Bool-cases (str_eq d.key j)) [
  | inl t ↦ rw t refl
  | inr t ↦ rw t (value_at-append j es e)
]

-- What a call leaves: the entries fit, and the map has changed at the name, if there was room for it.
abbrev pub Sets : Bytes → CStr → GameStateLive → GameStateLive → Type 0
Sets k v g h =
    IsStored h
    × ((j : Bytes)
        → value_at j h.entries ≡ (
            if (is_set k g.entries || ltb (length g.entries) game_state_max_entries) && str_eq k j
            then some (fixed 96 v)
            else value_at j g.entries))

-- One entry more.
more : Bytes → CStr → List GameStateEntry → List GameStateEntry
more k v es = es ++ (record { key = k; value = fixed 96 v } ∷ [])

value_at-more :
    (k : Bytes) (v : CStr) (es : List GameStateEntry) (j : Bytes)
    → is_set k es ≡ false
    → value_at j (more k v es) ≡ (if str_eq k j then some (fixed 96 v) else value_at j es)
unfolding more
value_at-more k v es j n =
    value_at-append j es (record { key = k; value = fixed 96 v })
    ∙ (elim (Bool-cases (str_eq k j)) [
      | inl t ↦
          let unset : is_set j es ≡ false =
            subst (λ x. is_set x es ≡ false) ((str_eq_iff k j).0 t) n in
          rw (t, unset) refl
      | inr t ↦ elim (Bool-cases (is_set j es)) [
        | inl u ↦ rw (t, u) refl
        | inr u ↦ rw (t, u) (sym (value_at_unset j es u))
      ]
    ])

add_entry-Sets :
    (k : Bytes) (v : CStr) (g : GameStateLive)
    → length k < 32
    → IsStored g
    → is_set k g.entries ≡ false
    → Sets k v g (add_entry k v g)
unfolding more
add_entry-Sets k v g h s n = elim (Bool-cases (leb game_state_max_entries (length g.entries))) [
  | inl e ↦
      let no_room : ltb (length g.entries) game_state_max_entries ≡ false = ground (arith, e) in
      rw (e, n, no_room) (s, λ j. refl)
  | inr e ↦
      let room : ltb (length g.entries) game_state_max_entries ≡ true = ground (arith, e) in
      let whole = take_all 31 k (omega (arith, h)) in
      let grown = length-append g.entries (record { key = k; value = fixed 96 v } ∷ []) in
      rw (e, n, room, whole)
        (
          record { keys = All-append _ g.entries _ s.keys (h, tt); room = omega (tests, grown, e) },
          λ j. value_at-more k v g.entries j n,
        )
]

updated-Sets :
    (k : Bytes) (v : CStr) (g : GameStateLive) (o : Option (List GameStateEntry))
    → length k < 32
    → IsStored g
    → Updates k v g.entries o
    → Sets k v g (updated k v g o)
unfolding Updates
updated-Sets k v g none h s u = add_entry-Sets k v g h s u
updated-Sets k v g (some fs) h s u =
    rw u.0 (record { keys = u.1; room = omega (arith, u.2, s.room) }, u.3)

-- A name that fits is set to the value, cut to 95 bytes, if it is set already or if there is room for one
-- more; nothing else changes, and the entries fit after the call as before it.
pub set_live_state-Sets :
    (c : ℕ) (k : Bytes) (v : CStr) (g : GameStateLive)
    → length (c ∷ k) < 32
    → IsStored g
    → Sets (c ∷ k) v g (set_live_state (some (c ∷ k)) v g)
unfolding set_live_state
set_live_state-Sets c k v g h s =
    updated-Sets (c ∷ k) v g (update_entry (c ∷ k) v g.entries) h s
      (update_entry-Updates (c ∷ k) v g.entries h s.keys)

long_entry :
    (k : Bytes) (v : CStr) (es : List GameStateEntry)
    → 32 ≤ length k
    → KeysFit es
    → update_entry k v es ≡ none
unfolding update_entry
long_entry k v [] h f = refl
long_entry k v (e ∷ es) h f = rw (same_key_long e.key k f.0 h, long_entry k v es h f.1) refl

-- A name of 32 bytes or more is not found again under the 31 bytes that are stored: a call adds an entry
-- for it, whatever the entries are, as long as there is room.
pub set_live_state_long :
    (c : ℕ) (k : Bytes) (v : CStr) (g : GameStateLive)
    → 32 ≤ length (c ∷ k)
    → IsStored g
    → set_live_state (some (c ∷ k)) v g ≡ add_entry (c ∷ k) v g
unfolding set_live_state
set_live_state_long c k v g h s = rw (long_entry (c ∷ k) v g.entries h s.keys) refl
