-- ===== src/ScriptStack/Heartbeat/Owned.antt =====
-- src/hooks/ScriptStack.cpp: no two threads write to one heartbeat slot, whatever the interleaving.
use redscope.Base.{
  ℕ, zero, suc, ◌+◌, ◌<◌, ◌≡◌, refl, sym, ap, subst, ◌∙◌, ◌≢◌, inl, inr, Bool, true, false, Option,
  none, some, List, [], ◌∷◌, arith, ltb, ◌==◌, if◌then◌else◌, Bool-cases, Option-cases, length,
  get_elem?, set, get_elem?-set_self, get_elem?-set_ne, ℕ_discrete,
}
use redscope.ScriptStack.{Frame}
use redscope.ScriptStack.Heartbeat.{
  HeartbeatSlot, Phase, unclaimed, scanning, writes_func, writes_class, writes_entered, settled,
  Thread, World, modify, tid_at, try_claim, action, turn, run, max_heartbeat_threads,
}

abbrev pub held : Phase → Option ℕ
held unclaimed = none
held (scanning i f) = none
held (writes_func i f) = some i
held (writes_class i f) = some i
held (writes_entered i f) = some i
held (settled i) = some i

-- The slot that a thread has claimed carries its id.
abbrev pub IsOwned : List HeartbeatSlot → Thread → Type 0
IsOwned bs th = (th.tid ≢ 0) × ((i : ℕ) → held th.phase ≡ some i → tid_at bs i ≡ some th.tid)

pub record Inv (w : World) : Type 0 where
  pub owned : (u : ℕ) (th : Thread) → get_elem? w.threads u ≡ some th → IsOwned w.beats th

-- A change of the table that leaves every claim in it.
abbrev Keeps : List HeartbeatSlot → List HeartbeatSlot → Type 0
Keeps bs cs = (i x : ℕ) → x ≢ 0 → tid_at bs i ≡ some x → tid_at cs i ≡ some x

tid_at-modify_ne :
    (bs : List HeartbeatSlot) (i j : ℕ) (g : HeartbeatSlot → HeartbeatSlot)
    → i ≢ j
    → tid_at (modify bs i g) j ≡ tid_at bs j
tid_at-modify_ne [] i j g h = refl
tid_at-modify_ne (b ∷ bs) zero zero g h = absurd (h refl)
tid_at-modify_ne (b ∷ bs) zero (suc j) g h = refl
tid_at-modify_ne (b ∷ bs) (suc i) zero g h = refl
tid_at-modify_ne (b ∷ bs) (suc i) (suc j) g h = tid_at-modify_ne bs i j g (λ e. h (ap suc e))

Keeps-same :
    (bs : List HeartbeatSlot) (i : ℕ) (g : HeartbeatSlot → HeartbeatSlot)
    → ((b : HeartbeatSlot) → (g b).thread_id ≡ b.thread_id)
    → Keeps bs (modify bs i g)
Keeps-same [] i g k j x nx e = e
Keeps-same (b ∷ bs) zero g k zero x nx e = ap some (k b) ∙ e
Keeps-same (b ∷ bs) zero g k (suc j) x nx e = e
Keeps-same (b ∷ bs) (suc i) g k zero x nx e = e
Keeps-same (b ∷ bs) (suc i) g k (suc j) x nx e = Keeps-same bs i g k j x nx e

tid_at-claimed :
    (bs : List HeartbeatSlot) (i t tid : ℕ)
    → tid_at bs i ≡ some t
    → tid_at (modify bs i (λ b. record b { thread_id = tid })) i ≡ some tid
tid_at-claimed [] i t tid e = cc
tid_at-claimed (b ∷ bs) zero t tid e = refl
tid_at-claimed (b ∷ bs) (suc i) t tid e = tid_at-claimed bs i t tid e

Keeps-claim :
    (bs : List HeartbeatSlot) (i tid : ℕ)
    → tid_at bs i ≡ some 0
    → Keeps bs (modify bs i (λ b. record b { thread_id = tid }))
Keeps-claim bs i tid free j x nx e = elim (ℕ_discrete i j) [
  | yes same ↦ absurd (nx (ground (arith, same)))
  | no other ↦ tid_at-modify_ne bs i j _ other ∙ e
]

-- What an action of one thread does to the claims of all.
abbrev Acts : ℕ → List HeartbeatSlot → List HeartbeatSlot × Phase → Type 0
Acts tid bs r = Keeps bs r.0 × ((i : ℕ) → held r.1 ≡ some i → tid_at r.0 i ≡ some tid)

try_claim_free :
    (tid i t : ℕ) (f : Frame) (bs : List HeartbeatSlot)
    → tid_at bs i ≡ some t
    → (t == 0) ≡ true
    → try_claim tid i f bs ≡ (modify bs i (λ b. record b { thread_id = tid }), writes_func i f)
unfolding try_claim
try_claim_free tid i t f bs e h = rw (e, try_claim) (rw h)

try_claim_taken :
    (tid i t : ℕ) (f : Frame) (bs : List HeartbeatSlot)
    → tid_at bs i ≡ some t
    → (t == 0) ≡ false
    → try_claim tid i f bs
      ≡ (bs, if ltb (i + 1) max_heartbeat_threads then scanning (i + 1) f else unclaimed)
unfolding try_claim
try_claim_taken tid i t f bs e h = rw (e, try_claim) (rw h)

not_held : (b : Bool) (i j : ℕ) (f : Frame) → held (if b then scanning i f else unclaimed) ≢ some j
not_held true i j f = cc
not_held false i j f = cc

try_claim-Acts :
    (tid i : ℕ) (f : Frame) (bs : List HeartbeatSlot) (o : Option ℕ)
    → tid_at bs i ≡ o
    → Acts tid bs (try_claim tid i f bs)
unfolding try_claim
try_claim-Acts tid i f bs none e = rw (e, try_claim) ((λ j x nx h. h), λ j h. cc)
try_claim-Acts tid i f bs (some t) e = elim (Bool-cases (t == 0)) [
  | inl free ↦
      let z : tid_at bs i ≡ some 0 = ground (arith, e) in
      subst (Acts tid bs) (sym (try_claim_free tid i t f bs e free)) (
        Keeps-claim bs i tid z,
        λ j h. let same : i ≡ j = cc in rw (← same) (tid_at-claimed bs i t tid e),
      )
  | inr taken ↦
      subst (Acts tid bs) (sym (try_claim_taken tid i t f bs e taken))
        ((λ j x nx h. h), λ j h. absurd (not_held _ _ _ f h))
]

action-Acts :
    (tid : ℕ) (p : Phase) (f : Frame) (bs : List HeartbeatSlot)
    → ((i : ℕ) → held p ≡ some i → tid_at bs i ≡ some tid)
    → tid ≢ 0
    → Acts tid bs (action tid p f bs)
unfolding action
action-Acts tid unclaimed f bs o nz = ((λ j x nx h. h), λ j h. cc)
action-Acts tid (scanning i g) f bs o nz = try_claim-Acts tid i g bs (tid_at bs i) refl
action-Acts tid (writes_func i g) f bs o nz =
    (Keeps-same bs i _ (λ b. refl), λ j h. Keeps-same bs i _ (λ b. refl) j tid nz (o j h))
action-Acts tid (writes_class i g) f bs o nz =
    (Keeps-same bs i _ (λ b. refl), λ j h. Keeps-same bs i _ (λ b. refl) j tid nz (o j h))
action-Acts tid (writes_entered i g) f bs o nz =
    (Keeps-same bs i _ (λ b. refl), λ j h. Keeps-same bs i _ (λ b. refl) j tid nz (o j h))
action-Acts tid (settled i) f bs o nz = ((λ j x nx h. h), λ j h. o j h)

abbrev moved : ℕ → World → Thread → List HeartbeatSlot × Phase → World
moved t w th r = record { beats = r.0; threads = set w.threads t (record th { phase = r.1 }) }

turn-moved :
    (t : ℕ) (f : Frame) (w : World) (th : Thread)
    → get_elem? w.threads t ≡ some th
    → turn t f w ≡ moved t w th (action th.tid th.phase f w.beats)
unfolding turn
turn-moved t f w th e = rw (e, turn)

turn-none : (t : ℕ) (f : Frame) (w : World) → get_elem? w.threads t ≡ none → turn t f w ≡ w
unfolding turn
turn-none t f w e = rw (e, turn)

get_elem?_lt {ℓ} :
    {A : Type ℓ} (xs : List A) (i : ℕ) (x : A) → get_elem? xs i ≡ some x → i < length xs
get_elem?_lt [] i x e = cc
get_elem?_lt (y ∷ ys) zero x e = omega arith
get_elem?_lt (y ∷ ys) (suc i) x e = omega (arith, get_elem?_lt ys i x e)

moved-Inv :
    (t : ℕ) (w : World) (th : Thread) (r : List HeartbeatSlot × Phase)
    → get_elem? w.threads t ≡ some th
    → Acts th.tid w.beats r
    → Inv w
    → Inv (moved t w th r)
moved-Inv t w th r e (keeps, own) v = record {
  owned = λ u th' e'. elim (ℕ_discrete t u) [
    | yes same ↦
        let at : some (record th { phase = r.1 }) ≡ some th' =
          sym (get_elem?-set_self w.threads t _ (get_elem?_lt w.threads t th e))
          ∙ ap (get_elem? (set w.threads t (record th { phase = r.1 }))) same
          ∙ e' in
        let is : record th { phase = r.1 } ≡ th' = cc in
        subst (IsOwned r.0) is ((v.owned t th e).0, own)
    | no other ↦
        let old = sym (get_elem?-set_ne w.threads t u (record th { phase = r.1 }) other) ∙ e' in
        let o = v.owned u th' old in (o.0, λ i h. keeps i th'.tid o.0 (o.1 i h))
  ];
}

turn-Inv : (t : ℕ) (f : Frame) (w : World) → Inv w → Inv (turn t f w)
turn-Inv t f w v = elim (Option-cases (get_elem? w.threads t)) [
  | inl e ↦ rw (turn-none t f w e) v
  | inr (th, e) ↦
      let o = v.owned t th e in
      rw (turn-moved t f w th e)
        (moved-Inv t w th _ e (action-Acts th.tid th.phase f w.beats o.1 o.0) v)
]

run-Inv : (ts : List (ℕ × Frame)) (w : World) → Inv w → Inv (run ts w)
unfolding run
run-Inv [] w v = v
run-Inv ((t, f) ∷ ts) w v = run-Inv ts (turn t f w) (turn-Inv t f w v)

-- Whatever the interleaving of the threads' actions, in a world where every thread had an id other
-- than 0 and its own id in the slot that it held, if any: two threads that then hold the same slot
-- have the same id, and the slot carries it.
pub run-exclusive :
    (ts : List (ℕ × Frame)) (w : World)
    → Inv w
    → (u v i : ℕ) (a b : Thread) → get_elem? (run ts w).threads u ≡ some a
    → get_elem? (run ts w).threads v ≡ some b
    → held a.phase ≡ some i
    → held b.phase ≡ some i
    → (a.tid ≡ b.tid) × (tid_at (run ts w).beats i ≡ some a.tid)
run-exclusive ts w inv u v i a b ea eb ha hb =
    let o = run-Inv ts w inv in
    let at_a = (o.owned u a ea).1 i ha in let at_b = (o.owned v b eb).1 i hb in (cc, at_a)
