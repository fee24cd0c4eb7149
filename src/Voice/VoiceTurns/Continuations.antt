-- ===== src/Voice/VoiceTurns/Continuations.antt =====
-- voiceTurns.js: how often the model is asked to go on.
use communications_service.Prelude.{
  ℕ, zero, suc, ◌+◌, ◌≤◌, ◌<◌, ◌⊎◌, ◌∙◌, not, ◌||◌, length-append, String, true, false, ◌&&◌, ◌≡◌,
  refl, Option, none, some, List, [], ◌∷◌, ◌++◌, inl, inr, arith, length, Option-cases,
}
use communications_service.Prelude.Text.{includes, filled}
use communications_service.Voice.VoiceTurns.Seen.{begin_missing, begin_known, begin_new, step-seen}
use communications_service.Voice.VoiceTurns.Messages.{
  Call, Response, ToolResult, Effect, send_response, send_farewell, end_after_playback, run_tool,
  completed, calls_of,
}
use communications_service.Voice.VoiceTurns.{
  Turn, Machine, init, Event, caller_interrupts, speech_stops, response_starts, response_ends,
  tool_answers, tool_throws, start_tools, proceed, begin, conclude_stale, close_call, conclude,
  next_tool, rest, resume_turn, take_at, enter, answer, forget, step, run, farewell_effects,
}
use communications_service.Voice.VoiceTurns.State.{
  Turns, resume, interrupt, speech_stopped, response_created, note_done, Farewell,
}
use communications_service.Voice.VoiceTurns.Reports.{
  count, called, is_tool_response, tool_responses, reports, new_id-cases, Remembers,
  Remembers-append,
}

-- The requests to the model, continuations and farewells alike.
abbrev pub requests : List Effect → ℕ
requests [] = 0
requests (send_response ∷ es) = suc (requests es)
requests (send_farewell t ∷ es) = suc (requests es)
requests (end_after_playback r ∷ es) = requests es
requests (run_tool c ∷ es) = requests es

requests-append : (xs ys : List Effect) → requests (xs ++ ys) ≡ requests xs + requests ys
requests-append [] ys = omega arith
requests-append (send_response ∷ xs) ys = omega (arith, requests-append xs ys)
requests-append (send_farewell t ∷ xs) ys = omega (arith, requests-append xs ys)
requests-append (end_after_playback r ∷ xs) ys = requests-append xs ys
requests-append (run_tool c ∷ xs) ys = requests-append xs ys

-- A continuation that is still owed.
abbrev owed : Turns → ℕ
owed t = count t.pending_continuation

abbrev waiting : Option Turn → ℕ
waiting none = 0
waiting (some turn) = 1

resume-requests : (t : Turns) → requests (resume t).1 + owed (resume t).0 ≡ owed t
unfolding resume
resume-requests t = ground arith

conclude_stale-requests :
    (results : List (Option ToolResult)) (t : Turns)
    → requests (conclude_stale results t).1 + owed (conclude_stale results t).0 ≤ 1 + owed t
unfolding conclude_stale
conclude_stale-requests results t =
    ground (arith, resume-requests t, resume-requests (record t { pending_continuation = true }))

close_call-requests :
    (r : Response) (reason : String) (t : Turns)
    → requests (close_call r reason t).1 + owed (close_call r reason t).0 ≤ 1 + owed t
unfolding close_call
close_call-requests r reason t = ground arith

conclude-requests :
    (gen : ℕ) (turn : Turn) (t : Turns)
    → requests (conclude gen turn t).1 + owed (conclude gen turn t).0 ≤ 1 + owed t
unfolding conclude
conclude-requests gen turn t = grind (arith, conclude_stale-requests, close_call-requests)

next_tool-requests :
    (gen : ℕ) (cs : List Call) (turn : Turn) (t : Turns)
    → requests (next_tool gen cs turn t).1
        + owed (next_tool gen cs turn t).0
        + waiting (next_tool gen cs turn t).2
      ≤ 1 + owed t
unfolding next_tool
next_tool-requests gen [] turn t = omega (arith, conclude-requests gen turn t)
next_tool-requests gen (c ∷ cs) turn t = ground (arith, conclude-requests gen turn t)

start_tools-requests :
    (gen : ℕ) (r : Response) (cs : List Call) (t : Turns)
    → requests (start_tools gen r cs t).1
        + owed (start_tools gen r cs t).0
        + waiting (start_tools gen r cs t).2
      ≤ owed t + count (called cs)
unfolding start_tools
start_tools-requests gen r [] t = omega (arith, resume-requests t)
start_tools-requests gen r (c ∷ cs) t = omega arith

farewell_effects-requests :
    (f : Option Farewell) (r : Response) → requests (farewell_effects f r) ≡ 0
unfolding farewell_effects
farewell_effects-requests none r = refl
farewell_effects-requests (some f) r = ground arith

proceed-requests :
    (gen : ℕ) (r : Response) (t : Turns)
    → requests (proceed gen r t).1 + owed (proceed gen r t).0 + waiting (proceed gen r t).2
      ≤ owed t + count (completed r && called (calls_of r.output))
unfolding proceed
proceed-requests gen r t = ground (
  arith,
  farewell_effects-requests t.farewell r,
  resume-requests t,
  start_tools-requests gen r (calls_of r.output) t,
)

note_done-owed : (gen : ℕ) (id : String) (t : Turns) → owed (note_done gen id t) ≡ owed t
unfolding note_done
note_done-owed gen id t = refl

begin-requests :
    (gen : ℕ) (r : Response) (t : Turns)
    → requests (begin gen r t).1 + owed (begin gen r t).0 + waiting (begin gen r t).2
      ≤ owed t + count (completed r && called (calls_of r.output))
unfolding begin
begin-requests gen r t = elim (Option-cases r.id) [
  | inl e ↦ rw (e, begin) (omega arith)
  | inr (id, e) ↦
      rw (e, begin)
        (ground (arith, proceed-requests gen r (note_done gen id t), note_done-owed gen id t))
]

take_at-length {ℓ} :
    {A : Type ℓ} (n : ℕ) (xs : List A) (y : A) (ys : List A)
    → take_at n xs ≡ some (y, ys)
    → length xs ≡ suc (length ys)
unfolding take_at
take_at-length n [] y ys e = cc
take_at-length zero (x ∷ xs) y ys e = ground arith
take_at-length (suc n) (x ∷ xs) y ys e = elim (Option-cases (take_at n xs)) [
  | inl missing ↦ absurd (ground arith)
  | inr ((z, zs), found) ↦ ground (arith, take_at-length n xs z zs found)
]

-- All that is owed: continuations put off, and turns whose tools still run.
abbrev debt : Machine → ℕ
debt m = owed m.turns + length m.in_flight

resume_turn-requests :
    (gen : ℕ) (result : Option ToolResult) (turn : Turn) (t : Turns)
    → requests (resume_turn gen result turn t).1
        + owed (resume_turn gen result turn t).0
        + waiting (resume_turn gen result turn t).2
      ≤ 1 + owed t
unfolding resume_turn
resume_turn-requests gen result turn t = next_tool-requests gen (rest turn.left) _ t

enter-length :
    (o : Option Turn) (turns : List Turn) → length (enter o turns) ≡ waiting o + length turns
enter-length none turns = omega arith
enter-length (some turn) turns = omega arith

answer-debt :
    (m : Machine) (result : Option ToolResult) (place : Option (Turn × List Turn))
    → ((turn : Turn) (others : List Turn)
        → place ≡ some (turn, others)
        → length m.in_flight ≡ suc (length others))
    → requests (answer m result place).1 + debt (answer m result place).0 ≤ debt m
unfolding answer
answer-debt m result none h = omega arith
answer-debt m result (some (turn, others)) h = omega (
  arith,
  h turn others refl,
  resume_turn-requests m.generation result turn m.turns,
  enter-length (resume_turn m.generation result turn m.turns).2 others,
)

step-debt :
    (m : Machine) (e : Event)
    → requests (step m e).1 + debt (step m e).0 ≤ debt m + count (is_tool_response e)
unfolding step forget interrupt speech_stopped response_created
step-debt m caller_interrupts = omega arith
step-debt m speech_stops =
    omega (arith, resume-requests (record m.turns { caller_speaking = false }))
step-debt m (response_starts none) = omega arith
step-debt m (response_starts (some id)) = ground arith
step-debt m (response_ends r) = omega (
  arith,
  begin-requests m.generation r m.turns,
  enter-length (begin m.generation r m.turns).2 m.in_flight,
)
step-debt m (tool_answers i result) = omega (
  arith,
  answer-debt m result (take_at i m.in_flight)
      (λ turn others. take_at-length i m.in_flight turn others),
)
step-debt m (tool_throws i) = elim (Option-cases (take_at i m.in_flight)) [
  | inl e ↦ rw (e, forget) (omega arith)
  | inr ((turn, others), e) ↦
      rw (e, forget) (omega (arith, take_at-length i m.in_flight turn others e))
]

-- What a run owes at most.
abbrev Owes : Machine → List String → List Event → Type 0
Owes m told es = requests (run m es).1 + debt (run m es).0 ≤ debt m + tool_responses told es

cons-debt :
    (m : Machine) (e : Event) (es : List Event) (more left : ℕ)
    → requests (step m e).1 + debt (step m e).0 ≤ debt m + more
    → requests (run (step m e).0 es).1 + debt (run (step m e).0 es).0 ≤ debt (step m e).0 + left
    → requests (run m (e ∷ es)).1 + debt (run m (e ∷ es)).0 ≤ debt m + (more + left)
unfolding run
cons-debt m e es more left h k =
    omega (arith, h, k, requests-append (step m e).1 (run (step m e).0 es).1)

skip-debt :
    (m : Machine) (e : Event) (es : List Event) (left : ℕ)
    → requests (step m e).1 + debt (step m e).0 ≤ debt m + 0
    → requests (run (step m e).0 es).1 + debt (run (step m e).0 es).0 ≤ debt (step m e).0 + left
    → requests (run m (e ∷ es)).1 + debt (run m (e ∷ es)).0 ≤ debt m + left
skip-debt m e es left h k = omega (arith, cons-debt m e es 0 left h k)

known_step :
    (m : Machine) (r : Response)
    → begin m.generation r m.turns ≡ (m.turns, [], none)
    → ((step m (response_ends r)).1 ≡ []) × ((step m (response_ends r)).0 ≡ m)
unfolding step
known_step m r e = (rw e, rw e)

begin_old :
    (gen : ℕ) (r : Response) (t : Turns) (told : List String)
    → Remembers t.seen told
    → (r.id ≡ none)
      ⊎ ((id : String) × (r.id ≡ some id) × ((not (filled id) || includes told id) ≡ true))
    → begin gen r t ≡ (t, [], none)
begin_old gen r t told known (inl e) = begin_missing gen r t e
begin_old gen r t told known (inr (id, e, h)) = begin_known gen r t id e (rw (known id) h)

run-debt :
    (m : Machine) (told : List String) (es : List Event)
    → Remembers m.turns.seen told
    → length m.turns.seen + reports es ≤ 1000
    → Owes m told es
unfolding run step includes
run-debt m told [] known room = omega arith
run-debt m told (caller_interrupts ∷ es) known room =
    let s = step-seen m caller_interrupts tt in
    skip-debt m caller_interrupts es (tool_responses told es) (step-debt m caller_interrupts)
      (run-debt (step m caller_interrupts).0 told es (rw s known) (rw s room))
run-debt m told (speech_stops ∷ es) known room =
    let s = step-seen m speech_stops tt in
    skip-debt m speech_stops es (tool_responses told es) (step-debt m speech_stops)
      (run-debt (step m speech_stops).0 told es (rw s known) (rw s room))
run-debt m told (response_starts id ∷ es) known room =
    let s = step-seen m (response_starts id) tt in
    skip-debt m (response_starts id) es (tool_responses told es) (step-debt m (response_starts id))
      (run-debt (step m (response_starts id)).0 told es (rw s known) (rw s room))
run-debt m told (tool_answers i result ∷ es) known room =
    let s = step-seen m (tool_answers i result) tt in
    skip-debt m (tool_answers i result) es (tool_responses told es)
      (step-debt m (tool_answers i result))
      (run-debt (step m (tool_answers i result)).0 told es (rw s known) (rw s room))
run-debt m told (tool_throws i ∷ es) known room =
    let s = step-seen m (tool_throws i) tt in
    skip-debt m (tool_throws i) es (tool_responses told es) (step-debt m (tool_throws i))
      (run-debt (step m (tool_throws i)).0 told es (rw s known) (rw s room))
run-debt m told (response_ends r ∷ es) known room = elim (new_id-cases told r) [
  | inl (old, why) ↦
      let (quiet, still) = known_step m r (begin_old m.generation r m.turns told known why) in
      let ih = run-debt m told es known (omega (arith, room)) in
      rw (old, quiet, still, tool_responses) ih
  | inr (id, new, named, full, fresh) ↦
      let room_left : length m.turns.seen < 1000 = omega (arith, room) in
      let s = begin_new m.generation r m.turns id named full (known id ∙ fresh) room_left in
      let ih =
        run-debt (step m (response_ends r)).0 (id ∷ told) es
          (rw (step, s) (Remembers-append m.turns.seen told id known))
          (rw (step, s) (omega (arith, room, length-append m.turns.seen (id ∷ [])))) in
      rw (new, tool_responses)
        (cons-debt m (response_ends r) es (count (is_tool_response (response_ends r)))
          (tool_responses (id ∷ told) es) (step-debt m (response_ends r)) ih)
]

-- However events interleave, the model is asked to go on (or to say goodbye) at most once for each
-- different response that is completed and called tools, however often the provider reports it done,
-- while there are at most a thousand reports; a continuation that was put off and a turn whose tools
-- still run count as asked.
pub run-one_continuation :
    (es : List Event)
    → reports es ≤ 1000
    → requests (run init es).1
        + count (run init es).0.turns.pending_continuation
        + length (run init es).0.in_flight
      ≤ tool_responses [] es
run-one_continuation es few = omega (arith, run-debt init [] es (λ x. refl) (omega (arith, few)))
