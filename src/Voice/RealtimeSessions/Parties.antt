-- ===== src/Voice/RealtimeSessions/Parties.antt =====
-- realtimeSessions.js: who is on a call (`callParties`) and what was said before (`historyPending`),
-- with the sweep of both (`sweepHistory`). A lookup of the history is a number; its answer is not
-- modelled.
use communications_service.Prelude.{
  ℕ, ◌+◌, ◌≤◌, String, Bool, true, false, not, ◌&&◌, ◌||◌, Option, none, some, List, [], ◌∷◌, ◌++◌,
  ◌≡◌, ◌≢◌, arith, All, find, any, keep, ltb, leb, if◌then◌else◌, eq_iff, eq_refl,
}
use communications_service.Prelude.Text.{same, filled}

pub record Party : Type 0 where
  pub call_sid : String
  pub phone_number : String
  pub noted_at : ℕ

pub record Lookup : Type 0 where
  pub call_sid : String
  pub history : ℕ
  pub started_at : ℕ

pub record State : Type 0 where
  pub parties : List Party
  pub lookups : List Lookup

-- `callParties.set(…)`
unfoldable pub set_party : Party → List Party → List Party
set_party p [] = p ∷ []
set_party p (q ∷ qs) = if same q.call_sid p.call_sid then p ∷ qs else q ∷ set_party p qs

-- `noteParty`
unfoldable pub note_party : (call_sid phone_number : String) → (now : ℕ) → State → State
unfolding set_party
note_party sid number now s = if not (filled sid) || not (filled number) then s else record s {
  parties = set_party (record { call_sid = sid; phone_number = number; noted_at = now }) s.parties;
}

unfoldable pub number_of : (call_sid : String) → List Party → Option String
number_of sid [] = none
number_of sid (p ∷ ps) = if same p.call_sid sid then some p.phone_number else number_of sid ps

-- `partyFor`
unfoldable pub party_for : (call_sid : String) → State → Option String
unfolding number_of
party_for sid s = if filled sid then number_of sid s.parties else none

-- `startHistory`
unfoldable pub start_history :
    (wants_history : Bool) → (call_sid phone_number : String) → (now history : ℕ) → State → State
start_history wants sid number now history s =
    if not (filled sid)
      || not (filled number)
      || any (λ l. same l.call_sid sid) s.lookups
      || not wants
    then s
    else record s {
      lookups = s.lookups ++ (record { call_sid = sid; history = history; started_at = now } ∷ []);
    }

-- `claimHistory`
unfoldable pub claim_history : (call_sid : String) → State → State × Option ℕ
claim_history sid s =
    if not (filled sid) then (s, none) else elim (find (λ l. same l.call_sid sid) s.lookups) [
      | none ↦ (s, none)
      | some l ↦
          (record s { lookups = keep (λ k. not (same k.call_sid sid)) s.lookups }, some l.history)
    ]

-- PARTY_TTL_MS
abbrev pub party_ttl_ms : ℕ
party_ttl_ms = 14400000

-- `sweepHistory`
unfoldable pub sweep_history : (now : ℕ) → State → State
sweep_history now s = record {
  lookups = keep (λ l. not (ltb (l.started_at + 60000) now)) s.lookups;
  parties = keep (λ p. not (ltb (p.noted_at + party_ttl_ms) now)) s.parties;
}

pub data Event : Type 0 where
  notes : (call_sid phone_number : String) → (now : ℕ) → Event
  starts : (wants_history : Bool) → (call_sid phone_number : String) → (now history : ℕ) → Event
  claims : (call_sid : String) → Event
  sweeps : (now : ℕ) → Event

unfoldable pub step : State → Event → State
unfolding note_party start_history claim_history sweep_history
step s (notes sid number now) = note_party sid number now s
step s (starts wants sid number now history) = start_history wants sid number now history s
step s (claims sid) = (claim_history sid s).0
step s (sweeps now) = sweep_history now s

unfoldable pub run : State → List Event → State
unfolding step
run s [] = s
run s (e ∷ es) = run (step s e) es

-- An event that is no news of the call, and no sweep after the party's time.
abbrev pub Spares : (call_sid : String) → (noted_at : ℕ) → Event → Type 0
Spares sid noted_at (notes other number now) = other ≢ sid
Spares sid noted_at (starts wants other number now history) = Unit
Spares sid noted_at (claims other) = Unit
Spares sid noted_at (sweeps now) = now ≤ noted_at + party_ttl_ms

-- The first entry of the call is the party noted then.
is_noted : (call_sid number : String) → (noted_at : ℕ) → List Party → Bool
is_noted sid number noted_at [] = false
is_noted sid number noted_at (p ∷ ps) =
    if same p.call_sid sid
    then same p.phone_number number && leb noted_at p.noted_at
    else is_noted sid number noted_at ps

set_party-noted :
    (sid number : String) (t : ℕ) (ps : List Party)
    → is_noted sid number t
        (set_party (record { call_sid = sid; phone_number = number; noted_at = t }) ps)
      ≡ true
unfolding is_noted set_party
set_party-noted sid number t [] = ground (arith, eq_refl sid, eq_refl number)
set_party-noted sid number t (p ∷ ps) =
    let ih = set_party-noted sid number t ps in ground (arith, ih, eq_refl sid, eq_refl number)

set_party-other :
    (sid number : String) (t : ℕ) (p : Party) (ps : List Party)
    → p.call_sid ≢ sid
    → is_noted sid number t ps ≡ true
    → is_noted sid number t (set_party p ps) ≡ true
unfolding is_noted set_party
set_party-other sid number t p [] n h = cc
set_party-other sid number t p (q ∷ qs) n h =
    let ih = set_party-other sid number t p qs n in
    ground (arith, ih, eq_iff q.call_sid sid, eq_iff q.call_sid p.call_sid, eq_iff p.call_sid sid)

sweep-noted :
    (sid number : String) (t now : ℕ) (ps : List Party)
    → now ≤ t + party_ttl_ms
    → is_noted sid number t ps ≡ true
    → is_noted sid number t (keep (λ p. not (ltb (p.noted_at + party_ttl_ms) now)) ps) ≡ true
unfolding is_noted keep
sweep-noted sid number t now [] le h = cc
sweep-noted sid number t now (p ∷ ps) le h =
    let ih = sweep-noted sid number t now ps le in ground (arith, ih)

noted-number :
    (sid number : String) (t : ℕ) (ps : List Party)
    → is_noted sid number t ps ≡ true
    → number_of sid ps ≡ some number
unfolding is_noted number_of
noted-number sid number t [] h = cc
noted-number sid number t (p ∷ ps) h =
    let ih = noted-number sid number t ps in ground (arith, ih, eq_iff p.phone_number number)

step-noted :
    (sid number : String) (t : ℕ) (s : State) (e : Event)
    → Spares sid t e
    → is_noted sid number t s.parties ≡ true
    → is_noted sid number t (step s e).parties ≡ true
unfolding step
step-noted sid number t s (notes other num now) spares h =
    let k =
      set_party-other sid number t (record { call_sid = other; phone_number = num; noted_at = now })
        s.parties spares h in
    ground (arith, k)
step-noted sid number t s (starts wants other num now history) spares h = ground arith
step-noted sid number t s (claims other) spares h = ground arith
step-noted sid number t s (sweeps now) spares h = sweep-noted sid number t now s.parties spares h

run-noted :
    (sid number : String) (t : ℕ) (s : State) (es : List Event)
    → All (Spares sid t) es
    → is_noted sid number t s.parties ≡ true
    → is_noted sid number t (run s es).parties ≡ true
unfolding run
run-noted sid number t s [] spares h = h
run-noted sid number t s (e ∷ es) spares h =
    run-noted sid number t (step s e) es spares.1 (step-noted sid number t s e spares.0 h)

-- The number that was noted for a call is found for it as often as it is asked for, for four hours,
-- whatever is noted for other calls, looked up, claimed or swept meanwhile.
pub party_for-run :
    (sid number : String) (t : ℕ) (s : State) (es : List Event)
    → filled sid ≡ true
    → filled number ≡ true
    → All (Spares sid t) es
    → party_for sid (run (note_party sid number t s) es) ≡ some number
unfolding party_for note_party
party_for-run sid number t s es f g spares =
    let after = record s {
      parties =
          set_party (record { call_sid = sid; phone_number = number; noted_at = t }) s.parties;
    } in
    let h = run-noted sid number t after es spares (set_party-noted sid number t s.parties) in
    let k = noted-number sid number t (run after es).parties h in ground arith
