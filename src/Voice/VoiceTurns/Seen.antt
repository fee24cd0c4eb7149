-- ===== src/Voice/VoiceTurns/Seen.antt =====
-- voiceTurns.js: the ids of the responses that were handled.
use communications_service.Prelude.{
  ℕ, ◌≤◌, ◌<◌, refl, String, true, false, not, ◌||◌, ◌≡◌, Option, none, some, List, [], ◌∷◌, ◌++◌,
  inl, inr, arith, length, length-append, Bool-cases, Option-cases, eq_refl,
}
use communications_service.Prelude.Text.{includes, filled}
use communications_service.Voice.VoiceTurns.Messages.{Call, Response, ToolResult}
use communications_service.Voice.VoiceTurns.{
  Turn, Machine, init, Event, caller_interrupts, speech_stops, response_starts, response_ends,
  tool_answers, tool_throws, start_tools, proceed, begin, conclude_stale, close_call, conclude,
  next_tool, rest, resume_turn, take_at, answer, forget, step, run,
}
use communications_service.Voice.VoiceTurns.State.{
  Turns, resume, interrupt, speech_stopped, response_created, drop_oldest, note_done,
}

resume-seen : (t : Turns) → (resume t).0.seen ≡ t.seen
unfolding resume
resume-seen t = ground arith

proceed-seen : (gen : ℕ) (r : Response) (t : Turns) → (proceed gen r t).0.seen ≡ t.seen
unfolding proceed start_tools
proceed-seen gen r t = ground (arith, resume-seen t)

includes-last : (xs : List String) (x : String) → includes (xs ++ x ∷ []) x ≡ true
unfolding includes
includes-last [] x = rw (eq_refl x)
includes-last (y ∷ xs) x = rw (includes-last xs x) (ground arith)

drop_oldest-last : (xs : List String) (x : String) → includes (drop_oldest (xs ++ x ∷ [])) x ≡ true
unfolding drop_oldest
drop_oldest-last [] x = includes-last [] x
drop_oldest-last (y ∷ xs) x = ground (arith, includes-last xs x, includes-last (y ∷ xs) x)

begin_seen :
    (gen : ℕ) (r : Response) (t : Turns) (id : String)
    → r.id ≡ some id
    → filled id ≡ true
    → includes (begin gen r t).0.seen id ≡ true
unfolding begin note_done
begin_seen gen r t id e f =
    rw (e, begin)
      (elim (Bool-cases (includes t.seen id)) [
        | inl old ↦ rw (old, f) old
        | inr new ↦
            rw (new, f, proceed-seen gen r (note_done gen id t)) (drop_oldest-last t.seen id)
      ])

pub begin_missing :
    (gen : ℕ) (r : Response) (t : Turns) → r.id ≡ none → begin gen r t ≡ (t, [], none)
unfolding begin
begin_missing gen r t e = rw (e, begin)

pub begin_known :
    (gen : ℕ) (r : Response) (t : Turns) (id : String)
    → r.id ≡ some id
    → (not (filled id) || includes t.seen id) ≡ true
    → begin gen r t ≡ (t, [], none)
unfolding begin
begin_known gen r t id e h = rw (e, begin, h)

-- A response that the provider reports done twice, in whatever state and generation, is handled
-- once: the second report changes nothing, sends nothing and starts no tool.
pub begin-twice :
    (gen later : ℕ) (r : Response) (t : Turns)
    → begin later r (begin gen r t).0 ≡ ((begin gen r t).0, [], none)
begin-twice gen later r t = elim (Option-cases r.id) [
  | inl e ↦ rw (begin_missing gen r t e) (begin_missing later r t e)
  | inr (id, e) ↦ elim (Bool-cases (filled id)) [
    | inl f ↦ begin_known later r (begin gen r t).0 id e (rw (f, begin_seen gen r t id e f))
    | inr f ↦ begin_known later r (begin gen r t).0 id e (rw f)
  ]
]

drop_oldest-short : (xs : List String) → length xs ≤ 1000 → drop_oldest xs ≡ xs
unfolding drop_oldest
drop_oldest-short [] h = refl
drop_oldest-short (x ∷ xs) h = ground arith

-- A new response is remembered, and nothing else is forgotten while there is room.
pub begin_new :
    (gen : ℕ) (r : Response) (t : Turns) (id : String)
    → r.id ≡ some id
    → filled id ≡ true
    → includes t.seen id ≡ false
    → length t.seen < 1000
    → (begin gen r t).0.seen ≡ t.seen ++ id ∷ []
unfolding begin note_done
begin_new gen r t id e f new h =
    rw (e, begin, new, f, proceed-seen gen r (note_done gen id t))
      (drop_oldest-short (t.seen ++ id ∷ []) (omega (arith, length-append t.seen (id ∷ []))))

drop_oldest-length :
    (xs : List String) (x : String) → length xs ≤ 1000 → length (drop_oldest (xs ++ x ∷ [])) ≤ 1000
unfolding drop_oldest
drop_oldest-length [] x h = omega arith
drop_oldest-length (y ∷ xs) x h = ground (arith, length-append xs (x ∷ []))

abbrev IsBounded : Turns → Type 0
IsBounded t = length t.seen ≤ 1000

begin-IsBounded : (gen : ℕ) (r : Response) (t : Turns) → IsBounded t → IsBounded (begin gen r t).0
unfolding begin note_done
begin-IsBounded gen r t h = elim (Option-cases r.id) [
  | inl e ↦ rw (e, begin) h
  | inr (id, e) ↦
      rw (e, begin)
        (elim (Bool-cases (not (filled id) || includes t.seen id)) [
          | inl old ↦ rw old h
          | inr new ↦
              rw (new, proceed-seen gen r (note_done gen id t)) (drop_oldest-length t.seen id h)
        ])
]

conclude-seen : (gen : ℕ) (turn : Turn) (t : Turns) → (conclude gen turn t).0.seen ≡ t.seen
unfolding conclude conclude_stale close_call
conclude-seen gen turn t = grind (arith, resume-seen)

resume_turn-seen :
    (gen : ℕ) (result : Option ToolResult) (turn : Turn) (t : Turns)
    → (resume_turn gen result turn t).0.seen ≡ t.seen
unfolding resume_turn next_tool
resume_turn-seen gen result turn t = next_tool-seen (rest turn.left) _
  where
    next_tool-seen : (cs : List Call) (u : Turn) → (next_tool gen cs u t).0.seen ≡ t.seen
    next_tool-seen [] u = conclude-seen gen u t
    next_tool-seen (c ∷ cs) u = ground (arith, conclude-seen gen u t)

-- The event reports no response done.
abbrev pub IsOther : Event → Type 0
IsOther (response_ends r) = ⊥
IsOther caller_interrupts = Unit {0}
IsOther speech_stops = Unit {0}
IsOther (response_starts id) = Unit {0}
IsOther (tool_answers i result) = Unit {0}
IsOther (tool_throws i) = Unit {0}

pub step-seen : (m : Machine) (e : Event) → IsOther e → (step m e).0.turns.seen ≡ m.turns.seen
unfolding step interrupt speech_stopped response_created answer forget
step-seen m caller_interrupts o = refl
step-seen m speech_stops o = resume-seen (record m.turns { caller_speaking = false })
step-seen m (response_starts none) o = refl
step-seen m (response_starts (some id)) o = ground arith
step-seen m (response_ends r) o = absurd o
step-seen m (tool_answers i result) o = elim (Option-cases (take_at i m.in_flight)) [
  | inl e ↦ rw (e, answer)
  | inr ((turn, others), e) ↦ rw (e, answer) (resume_turn-seen m.generation result turn m.turns)
]
step-seen m (tool_throws i) o = elim (Option-cases (take_at i m.in_flight)) [
  | inl e ↦ rw (e, forget)
  | inr ((turn, others), e) ↦ rw (e, forget)
]

step-IsBounded : (m : Machine) (e : Event) → IsBounded m.turns → IsBounded (step m e).0.turns
unfolding step interrupt speech_stopped response_created answer forget
step-IsBounded m caller_interrupts h = h
step-IsBounded m speech_stops h = rw (resume-seen (record m.turns { caller_speaking = false })) h
step-IsBounded m (response_starts none) h = h
step-IsBounded m (response_starts (some id)) h = ground arith
step-IsBounded m (response_ends r) h = begin-IsBounded m.generation r m.turns h
step-IsBounded m (tool_answers i result) h = elim (Option-cases (take_at i m.in_flight)) [
  | inl e ↦ rw (e, answer) h
  | inr ((turn, others), e) ↦
      rw (e, answer) (rw (resume_turn-seen m.generation result turn m.turns) h)
]
step-IsBounded m (tool_throws i) h = elim (Option-cases (take_at i m.in_flight)) [
  | inl e ↦ rw (e, forget) h
  | inr ((turn, others), e) ↦ rw (e, forget) h
]

run-IsBounded : (m : Machine) (es : List Event) → IsBounded m.turns → IsBounded (run m es).0.turns
unfolding run
run-IsBounded m [] h = h
run-IsBounded m (e ∷ es) h = run-IsBounded (step m e).0 es (step-IsBounded m e h)

-- The memory of the responses that are done never grows past a thousand, however long the call.
pub run-seen_bound : (es : List Event) → length (run init es).0.turns.seen ≤ 1000
run-seen_bound es = run-IsBounded init es (omega arith)
