-- ===== src/Voice/VoiceTurns/InFlight.antt =====
-- voiceTurns.js: the turns whose tools are still running.
use communications_service.Prelude.{
  subst, ℕ, zero, suc, ◌+◌, ◌≤◌, true, not, ◌||◌, ◌≡◌, Option, none, some, List, [], ◌∷◌, inl, inr,
  arith, Bool-cases, Option-cases, eqb, All, All-map,
}
use communications_service.Prelude.Text.{includes, filled}
use communications_service.Voice.VoiceTurns.Messages.{Call, Response, completed, calls_of}
use communications_service.Voice.VoiceTurns.{
  Turn, Machine, Event, caller_interrupts, speech_stops, response_starts, response_ends,
  tool_answers, tool_throws, start_tools, is_farewell, proceed, begin, next_tool, rest, resume_turn,
  take_at, enter, answer, forget, step, run,
}
use communications_service.Voice.VoiceTurns.State.{Turns, note_done}

-- A turn in flight belongs to a completed response and started no later than now.
abbrev pub IsTimely : ℕ → Turn → Type 0
IsTimely gen turn = (turn.epoch ≤ gen) × (completed turn.response ≡ true)

pub take_at-All {ℓ κ} :
    {A : Type ℓ} (P : A → Type κ) (n : ℕ) (xs : List A) (y : A) (ys : List A)
    → take_at n xs ≡ some (y, ys)
    → All P xs
    → P y × All P ys
unfolding take_at
take_at-All {A = A} P n [] y ys e h = cc
take_at-All {A = A} P zero (x ∷ xs) y ys e h = ground arith
take_at-All {A = A} P (suc n) (x ∷ xs) y ys e h = elim (Option-cases (take_at n xs)) [
  | inl missing ↦ absurd (ground arith)
  | inr ((z, zs), found) ↦
      let ih = take_at-All P n xs z zs found h.1 in
      let q : ◌≡◌ {A = A × List A} (z, x ∷ zs) (y, ys) = ground arith in
      subst (λ p. P p.0 × All P p.1) q (ih.0, (h.0, ih.1))
]

-- A predicate on the turn that an operation leaves in flight, if it leaves one.
abbrev pub Leaves : (Turn → Type 0) → Option Turn → Type 0
Leaves P none = Unit
Leaves P (some turn) = P turn

enter-All :
    (P : Turn → Type 0) (o : Option Turn) (turns : List Turn)
    → Leaves P o
    → All P turns
    → All P (enter o turns)
enter-All P none turns p h = h
enter-All P (some turn) turns p h = (p, h)

start_tools-IsTimely :
    (gen : ℕ) (r : Response) (cs : List Call) (t : Turns)
    → completed r ≡ true
    → Leaves (IsTimely gen) (start_tools gen r cs t).2
unfolding start_tools
start_tools-IsTimely gen r [] t h = tt
start_tools-IsTimely gen r (c ∷ cs) t h = (omega arith, h)

begin-IsTimely : (gen : ℕ) (r : Response) (t : Turns) → Leaves (IsTimely gen) (begin gen r t).2
unfolding begin proceed
begin-IsTimely gen r t = elim (Option-cases r.id) [
  | inl e ↦ rw (e, begin) tt
  | inr (id, e) ↦
      rw (e, begin)
        (elim (Bool-cases (not (filled id) || includes t.seen id)) [
          | inl old ↦ rw old tt
          | inr new ↦ rw new (proceed-IsTimely (note_done gen id t))
        ])
]
  where
    proceed-IsTimely : (u : Turns) → Leaves (IsTimely gen) (proceed gen r u).2
    proceed-IsTimely u = elim (Bool-cases (is_farewell u.farewell r)) [
      | inl bye ↦ rw (bye, proceed) tt
      | inr on ↦ elim (Bool-cases (completed r)) [
        | inl c ↦ rw (on, proceed, c) (start_tools-IsTimely gen r (calls_of r.output) u c)
        | inr c ↦ rw (on, proceed, c) tt
      ]
    ]

next_tool-IsTimely :
    (gen : ℕ) (cs : List Call) (turn : Turn) (t : Turns)
    → IsTimely gen turn
    → Leaves (IsTimely gen) (next_tool gen cs turn t).2
unfolding next_tool
next_tool-IsTimely gen [] turn t h = tt
next_tool-IsTimely gen (d ∷ cs) turn t h = elim (Bool-cases (eqb turn.epoch gen)) [
  | inl now ↦ rw now h
  | inr past ↦ rw past tt
]

abbrev pub AllTimely : Machine → Type 0
AllTimely m = All (IsTimely m.generation) m.in_flight

pub step-AllTimely : (m : Machine) (e : Event) → AllTimely m → AllTimely (step m e).0
unfolding step answer forget resume_turn
step-AllTimely m caller_interrupts h =
    All-map (IsTimely m.generation) (IsTimely (m.generation + 1)) m.in_flight
      (λ turn p. (omega arith, p.1)) h
step-AllTimely m speech_stops h = h
step-AllTimely m (response_starts id) h = h
step-AllTimely m (response_ends r) h =
    enter-All (IsTimely m.generation) (begin m.generation r m.turns).2 m.in_flight
      (begin-IsTimely m.generation r m.turns) h
step-AllTimely m (tool_answers i result) h = elim (Option-cases (take_at i m.in_flight)) [
  | inl e ↦ rw (e, answer) h
  | inr ((turn, others), e) ↦
      let p = take_at-All (IsTimely m.generation) i m.in_flight turn others e h in
      rw (e, answer)
        (enter-All (IsTimely m.generation) (resume_turn m.generation result turn m.turns).2 others
          (next_tool-IsTimely m.generation (rest turn.left) _ m.turns p.0) p.1)
]
step-AllTimely m (tool_throws i) h = elim (Option-cases (take_at i m.in_flight)) [
  | inl e ↦ rw (e, forget) h
  | inr ((turn, others), e) ↦
      rw (e, forget) (take_at-All (IsTimely m.generation) i m.in_flight turn others e h).1
]

pub run-AllTimely : (m : Machine) (es : List Event) → AllTimely m → AllTimely (run m es).0
unfolding run
run-AllTimely m [] h = h
run-AllTimely m (e ∷ es) h = run-AllTimely (step m e).0 es (step-AllTimely m e h)
