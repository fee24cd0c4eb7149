-- ===== src/Calls/Outcome/Jobs/Agreement.antt =====
-- callOutcome.js, `persistCallOutcome`: the row of a call and the events about it.
use communications_service.Prelude.{
  ℕ, String, true, false, not, ◌&&◌, ◌||◌, Option, none, some, List, ◌≡◌, ◌⊎◌, inl, inr, refl,
  arith, All, All-map, subst, if◌then◌else◌,
}
use communications_service.Prelude.Text.{same?}
use communications_service.Delivery.Enqueue.{Event}
use communications_service.Calls.Outcome.{Disposition, CallOutcome, result, is_completed}
use communications_service.Calls.Outcome.Jobs.{
  Call, Payload, terminal, ask_response, World, Step, is_settled, settled, remembered, marked,
}

-- What an event says of the call is what its row says; a success alone is told as one.
abbrev pub Told : Call → (type : String) → Payload → Type 0
Told c type (terminal o memory) =
    (is_settled c ≡ true)
    × (c.disposition ≡ some o.disposition)
    × (c.successful ≡ o.successful)
    × (c.memory_eligible ≡ memory)
    × (type ≡ (if c.successful then "call.completed" else "call.failed"))
Told c type (ask_response d memory) =
    (is_settled c ≡ true) × (c.disposition ≡ some d) × (c.successful ≡ true)

-- The parts of a settled row fit together.
abbrev pub IsSound : Call → Type 0
IsSound c =
    (is_settled c ≡ false)
    ⊎ ((d : Disposition) × (c.disposition ≡ some d)
        × (c.successful ≡ is_completed d)
        × (c.memory_eligible ≡ (
            not (same? c.purpose (some "project_reception") || c.briefing_private)
            && c.successful)))

-- The row still says what a settled row `before` said.
abbrev pub Keeps : Option Call → Call → Type 0
Keeps none c = Unit
Keeps (some before) c =
    (is_settled c ≡ true)
    × (c.disposition ≡ before.disposition)
    × (c.successful ≡ before.successful)
    × (c.memory_eligible ≡ before.memory_eligible)

abbrev pub Told? : Call → Event Payload → Type 0
Told? c e = Told c e.type e.payload

pub record Agree (before : Option Call) (c : Call) (events : List (Event Payload)) : Type 0 where
  pub sound : IsSound c
  pub told : All (Told? c) events
  pub kept : Keeps before c

abbrev pub IsAgreed : Option Call → World → Type 0
IsAgreed before w = (c : Call) × (w.call ≡ some c) × Agree before c w.events

-- An outcome made by `result`.
abbrev pub IsMade : CallOutcome → Type 0
IsMade o = (o.successful ≡ is_completed o.disposition) × (o.memory_eligible ≡ o.successful)

pub result-IsMade :
    (d : Disposition) (source : Option String) (confidence : ℕ) (reason evidence : Option String)
    → IsMade (result d source confidence reason evidence)
unfolding result
result-IsMade d source confidence reason evidence = (refl, refl)

-- The outcome may be stored in the row: it is the first, or repeats the one that is there.
abbrev pub Fits : Call → CallOutcome → Type 0
Fits c o = (is_settled c ≡ false) ⊎ (c.disposition ≡ some o.disposition)

settled-is_settled : (c : Call) (o : CallOutcome) → is_settled (settled o c) ≡ true
unfolding settled is_settled
settled-is_settled c o = ground arith

-- Storing what a settled row says already.
settled-again :
    (c : Call) (o : CallOutcome)
    → IsSound c
    → IsMade o
    → Fits c o
    → is_settled c ≡ true
    → (c.disposition ≡ some o.disposition)
      × (o.successful ≡ c.successful)
      × (remembered c o ≡ c.memory_eligible)
unfolding remembered
settled-again c o (inl u) made fits s = cc
settled-again c o (inr (d, e, f, g)) made fits s = ground arith

Told-settled :
    (c : Call) (o : CallOutcome) (type : String) (p : Payload)
    → IsSound c
    → IsMade o
    → Fits c o
    → Told c type p
    → Told (settled o c) type p
unfolding settled remembered
Told-settled c o type (terminal o2 m) sound made fits t =
    let again = settled-again c o sound made fits t.0 in
    let now = settled-is_settled c o in ground arith
Told-settled c o type (ask_response d m) sound made fits t =
    let again = settled-again c o sound made fits t.0 in
    let now = settled-is_settled c o in ground arith

IsSound-settled : (c : Call) (o : CallOutcome) → IsMade o → IsSound (settled o c)
unfolding settled remembered
IsSound-settled c o made = inr (o.disposition, refl, made.0, ground arith)

Keeps-settled :
    (before : Option Call) (c : Call) (o : CallOutcome)
    → IsSound c
    → IsMade o
    → Fits c o
    → Keeps before c
    → Keeps before (settled o c)
unfolding settled remembered
Keeps-settled none c o sound made fits k = tt
Keeps-settled (some b) c o sound made fits k =
    let again = settled-again c o sound made fits k.0 in
    let now = settled-is_settled c o in ground arith

-- The row that was just settled, and what was settled.
abbrev pub Says : Call → CallOutcome → Type 0
Says c o =
    (is_settled c ≡ true)
    × (c.disposition ≡ some o.disposition)
    × (c.successful ≡ o.successful)
    × (c.memory_eligible ≡ remembered c o)

pub Says-settled : (c : Call) (o : CallOutcome) → Says (settled o c) o
unfolding settled remembered
Says-settled c o = (settled-is_settled c o, refl, refl, refl)

pub settled-Agree :
    (before : Option Call) (c : Call) (o : CallOutcome) (events : List (Event Payload))
    → Agree before c events
    → IsMade o
    → Fits c o
    → Agree before (settled o c) events
settled-Agree before c o events agree made fits = record {
  sound = IsSound-settled c o made;
  told =
      All-map (Told? c) (Told? (settled o c)) events
        (λ e t. Told-settled c o e.type e.payload agree.sound made fits t) agree.told;
  kept = Keeps-settled before c o agree.sound made fits agree.kept;
}

pub row_unique : (w : World) (c row : Call) → w.call ≡ some c → w.call ≡ some row → c ≡ row
row_unique w c row e x = cc

pub row-Agree :
    (before : Option Call) (w : World) (row : Call)
    → IsAgreed before w
    → w.call ≡ some row
    → Agree before row w.events
row-Agree before w row (c, e, agree) x =
    subst (λ r. Agree before r w.events) (row_unique w c row e x) agree

pub record Ends (before : Option Call) (s : Step) : Type 0 where
  pub agreed : IsAgreed before s.0

pub ends :
    (before : Option Call) (s : Step) (c : Call)
    → s.0.call ≡ some c
    → Agree before c s.0.events
    → Ends before s
ends before s c e agree = record { agreed = (c, e, agree) }

Told-marked :
    (c : Call) (o : CallOutcome) (id : Option ℕ) (type : String) (p : Payload)
    → Told c type p
    → Told (marked c o id) type p
unfolding marked is_settled
Told-marked c o id type (terminal o2 m) t = t
Told-marked c o id type (ask_response d m) t = t

Keeps-marked :
    (before : Option Call) (c : Call) (o : CallOutcome) (id : Option ℕ)
    → Keeps before c
    → Keeps before (marked c o id)
unfolding marked is_settled
Keeps-marked none c o id k = k
Keeps-marked (some b) c o id k = k

IsSound-marked : (c : Call) (o : CallOutcome) (id : Option ℕ) → IsSound c → IsSound (marked c o id)
unfolding marked is_settled
IsSound-marked c o id sound = sound

pub marked-Agree :
    (before : Option Call) (c : Call) (o : CallOutcome) (id : Option ℕ)
    (events : List (Event Payload))
    → Agree before c events
    → Agree before (marked c o id) events
marked-Agree before c o id events agree = record {
  sound = IsSound-marked c o id agree.sound;
  told =
      All-map (Told? c) (Told? (marked c o id)) events
        (λ e t. Told-marked c o id e.type e.payload t) agree.told;
  kept = Keeps-marked before c o id agree.kept;
}
