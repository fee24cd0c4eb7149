-- ===== src/Voice/VoiceTurns.antt =====
-- voiceTurns.js: the turns of one call. The variables of the closure are the record `Turns`. The
-- asynchronous `done` is cut at its awaits: `begin` runs up to the first tool, and each result of
-- a tool resumes the turn that waits for it, so other events may come in between. `generation()`
-- is the caller's counter `toolGeneration` of index.js, which moves where the caller interrupts, and
-- is part of the machine.
-- The logging callback is left out: it changes nothing.
pub mod Messages
pub mod State
pub mod Reports
pub mod Continuations
pub mod InFlight
pub mod Closing
pub mod Speech
pub mod Seen
pub mod Tests
use Messages.{
  Call, Response, ToolResult, Effect, send_response, send_farewell, end_after_playback, run_tool,
  has_speech, completed, calls_of,
}
use State.{
  Farewell, Turns, set_active, is_epoch, drop_active, is_empty, resume, interrupt, speech_stopped,
  response_created, drop_oldest, note_done,
}
use Prim.Native.String.{◌++◌ as ◌<>◌}
use communications_service.Prelude.{
  ℕ, zero, suc, ◌+◌, String, Bool, true, false, not, ◌&&◌, ◌||◌, Option, none, some, List, [], ◌∷◌,
  ◌++◌, if◌then◌else◌, eqb, ltb, length, any, find,
}
use communications_service.Prelude.Text.{same, same?, filled, or_else, includes}

-- `done` between two awaits: the response, the generation when its tools started, the calls not
-- yet answered (the first is running) and the results so far.
pub record Turn : Type 0 where
  pub response : Response
  pub epoch : ℕ
  pub left : List Call
  pub results : List (Option ToolResult)

pub record Machine : Type 0 where
  pub turns : Turns
  pub generation : ℕ
  pub in_flight : List Turn

abbrev pub init : Machine
init = record {
  turns = record {
    seen = [];
    farewell = none;
    active = [];
    caller_speaking = false;
    awaiting_caller_response = false;
    pending_continuation = false;
    closing = false;
  };
  generation = 0;
  in_flight = [];
}

is_farewell : Option Farewell → Response → Bool
is_farewell none r = false
is_farewell (some f) r = same? r.voice_farewell (some f.token)

farewell_effects : Option Farewell → Response → List Effect
farewell_effects none r = []
farewell_effects (some f) r =
    if completed r && has_speech r then end_after_playback f.reason ∷ [] else []

-- The first round of the loop over the tools.
start_tools : ℕ → Response → List Call → Turns → Turns × List Effect × Option Turn
start_tools gen r [] t = ((resume t).0, (resume t).1, none)
start_tools gen r (c ∷ cs) t =
    (t, run_tool c ∷ [], some (record { response = r; epoch = gen; left = c ∷ cs; results = [] }))

-- The part of `done` that follows its bookkeeping: the new turns, what is sent, and the turn whose
-- tools now run, if there are any.
pub proceed : ℕ → Response → Turns → Turns × List Effect × Option Turn
unfolding is_farewell farewell_effects start_tools
proceed gen r t =
    if is_farewell t.farewell r
    then (record t { farewell = none }, farewell_effects t.farewell r, none)
    else if not (completed r)
    then ((resume t).0, (resume t).1, none)
    else start_tools gen r (calls_of r.output) t

pub begin : ℕ → Response → Turns → Turns × List Effect × Option Turn
begin gen r t = elim r.id [
  | none ↦ (t, [], none)
  | some id ↦
      if not (filled id) || includes t.seen id
      then (t, [], none)
      else proceed gen r (note_done gen id t)
]

continues : Option ToolResult → Bool
continues none = false
continues (some r) = r.continue_after_interruption

ends_call : Option ToolResult → Bool
ends_call none = false
ends_call (some r) = same r.name "end_call" && not r.error

reason_text : Option String → String
reason_text none = "conversation finished"
reason_text (some s) = if filled s then s else "conversation finished"

end_reason : Option ToolResult → String
unfolding reason_text
end_reason none = "end_call — conversation finished"
end_reason (some r) = ◌<>◌ "end_call — " (reason_text r.reason)

-- After an interruption no tool's result is spoken, but one that must be is kept for later.
pub conclude_stale : List (Option ToolResult) → Turns → Turns × List Effect
unfolding continues any
conclude_stale results t =
    resume (if any continues results then record t { pending_continuation = true } else t)

token_of : Option String → String
token_of none = ""
token_of (some id) = id

pub close_call : Response → String → Turns → Turns × List Effect
unfolding token_of
close_call r reason t =
    if has_speech r
    then (record t { closing = true; pending_continuation = false }, end_after_playback reason ∷ [])
    else (
      record t {
        closing = true;
        pending_continuation = false;
        farewell = some (record { token = token_of r.id; reason = reason });
      },
      send_farewell (token_of r.id) ∷ [],
    )

-- What follows the loop over the tools.
pub conclude : ℕ → Turn → Turns → Turns × List Effect
unfolding ends_call end_reason find
conclude gen turn t =
    if not (eqb turn.epoch gen)
    then conclude_stale turn.results t
    else elim (find ends_call turn.results) [
      | some ending ↦ close_call turn.response (end_reason ending) t
      | none ↦ (record t { pending_continuation = false }, send_response ∷ [])
    ]

-- The next round of the loop: the next tool runs, unless the caller has interrupted.
next_tool : ℕ → List Call → Turn → Turns → Turns × List Effect × Option Turn
next_tool gen [] turn t = ((conclude gen turn t).0, (conclude gen turn t).1, none)
next_tool gen (c ∷ cs) turn t =
    if eqb turn.epoch gen
    then (t, run_tool c ∷ [], some (record turn { left = c ∷ cs }))
    else ((conclude gen turn t).0, (conclude gen turn t).1, none)

rest {ℓ} : {A : Type ℓ} → List A → List A
rest [] = []
rest (x ∷ xs) = xs

pub resume_turn : ℕ → Option ToolResult → Turn → Turns → Turns × List Effect × Option Turn
unfolding next_tool rest
resume_turn gen result turn t =
    next_tool gen (rest turn.left)
      (record turn { left = rest turn.left; results = turn.results ++ result ∷ [] }) t

-- What happens during a call. The turn whose tool answers or throws is named by its place among
-- those in flight; a tool that throws rejects the promise of its `done`, and nothing follows.
pub data Event : Type 0 where
  caller_interrupts : Event
  speech_stops : Event
  response_starts : (id : Option String) → Event
  response_ends : Response → Event
  tool_answers : (place : ℕ) → Option ToolResult → Event
  tool_throws : (place : ℕ) → Event

-- The member at a place, and the others.
pub take_at {ℓ} : {A : Type ℓ} → ℕ → List A → Option (A × List A)
take_at n [] = none
take_at zero (x ∷ xs) = some (x, xs)
take_at (suc n) (x ∷ xs) = elim (take_at n xs) [ none ↦ none | some (y, ys) ↦ some (y, x ∷ ys) ]

abbrev enter : Option Turn → List Turn → List Turn
enter none turns = turns
enter (some turn) turns = turn ∷ turns

answer : Machine → Option ToolResult → Option (Turn × List Turn) → Machine × List Effect
answer m result none = (m, [])
answer m result (some (turn, others)) =
    let r = resume_turn m.generation result turn m.turns in
    (record m { turns = r.0; in_flight = enter r.2 others }, r.1)

forget : Machine → Option (Turn × List Turn) → Machine
forget m none = m
forget m (some (turn, others)) = record m { in_flight = others }

pub step : Machine → Event → Machine × List Effect
unfolding answer forget
step m caller_interrupts =
    (record m { turns = interrupt m.turns; generation = m.generation + 1 }, [])
step m speech_stops = (record m { turns = (speech_stopped m.turns).0 }, (speech_stopped m.turns).1)
step m (response_starts id) = (record m { turns = response_created m.generation id m.turns }, [])
step m (response_ends r) =
    let b = begin m.generation r m.turns in
    (record m { turns = b.0; in_flight = enter b.2 m.in_flight }, b.1)
step m (tool_answers i result) = answer m result (take_at i m.in_flight)
step m (tool_throws i) = (forget m (take_at i m.in_flight), [])

pub run : Machine → List Event → Machine × List Effect
run m [] = (m, [])
run m (e ∷ es) = let r = step m e in let s = run r.0 es in (s.0, r.1 ++ s.1)
