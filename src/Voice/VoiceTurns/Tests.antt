-- ===== src/Voice/VoiceTurns/Tests.antt =====
-- A call that ends with a goodbye, one that is interrupted, and the laws on them.
use communications_service.Prelude.{
  arith, ◌+◌, ◌≤◌, false, ◌≡◌, refl, none, some, List, [], ◌∷◌, length, find, Option,
}
use communications_service.Prelude.Text.{includes}
use communications_service.Voice.VoiceTurns.Messages.{
  message, function_call, Response, send_farewell, end_after_playback, run_tool, has_speech,
  completed, calls_of, ToolResult, Call,
}
use communications_service.Voice.VoiceTurns.{
  init, Event, caller_interrupts, speech_stops, response_starts, response_ends, tool_answers, step,
  run, begin, start_tools, proceed, conclude_stale, close_call, conclude, next_tool, rest,
  resume_turn, take_at, answer, forget,
}
use communications_service.Voice.VoiceTurns.State.{
  resume, interrupt, speech_stopped, response_created, note_done, drop_oldest, is_epoch,
}
use communications_service.Voice.VoiceTurns.Reports.{count, tool_responses}
use communications_service.Voice.VoiceTurns.Continuations.{requests, run-one_continuation}
use communications_service.Voice.VoiceTurns.Closing.{ends, run-interrupt}
use communications_service.Voice.VoiceTurns.Speech.{run-ends_after_speech}
use communications_service.Voice.VoiceTurns.Seen.{begin-twice, run-seen_bound}

abbrev hang_up : Call
hang_up = record { name = "end_call"; arguments = "{}" }

-- The response that calls `end_call` and says nothing.
abbrev asks : Response
asks = record {
  id = some "r1";
  status = "completed";
  voice_farewell = none;
  output = function_call hang_up ∷ [];
}

abbrev goodbye : Response
goodbye = record {
  id = some "r2";
  status = "completed";
  voice_farewell = some "r1";
  output = message "assistant" (record { kind = "audio"; transcript = some "Goodbye." } ∷ []) ∷ [];
}

abbrev agreed : Option ToolResult
agreed = some (record {
  name = "end_call";
  error = false;
  reason = some "done";
  continue_after_interruption = false;
})

abbrev polite : List Event
polite = response_starts (some "r1") ∷ response_ends asks ∷ tool_answers 0 agreed ∷ []

abbrev farewell_call : List Event
farewell_call =
    response_starts (some "r1")
    ∷ response_ends asks
    ∷ tool_answers 0 agreed
    ∷ response_ends goodbye
    ∷ []

-- The whole machine, opened.
opened : Unit {0}
unfolding run step answer forget resume_turn next_tool rest begin proceed start_tools note_done
    take_at conclude close_call conclude_stale resume interrupt speech_stopped response_created
    drop_oldest is_epoch has_speech completed calls_of includes find
opened = tt

farewell_call_effects :
    (run init farewell_call).1
    ≡ run_tool hang_up ∷ send_farewell "r1" ∷ end_after_playback "end_call — done" ∷ []
unfolding opened
farewell_call_effects = refl

-- The caller speaks while the farewell is being prepared: the goodbye no longer hangs up.
interrupted_effects :
    (run init (
      response_ends asks
      ∷ tool_answers 0 agreed
      ∷ caller_interrupts
      ∷ response_ends goodbye
      ∷ [])).1
    ≡ run_tool hang_up ∷ send_farewell "r1" ∷ []
unfolding opened
interrupted_effects = refl

run-one_continuation_example :
    requests (run init farewell_call).1
      + count (run init farewell_call).0.turns.pending_continuation
      + length (run init farewell_call).0.in_flight
    ≤ tool_responses [] farewell_call
run-one_continuation_example = run-one_continuation farewell_call (omega arith)

run-interrupt_example :
    ends
      (run
        (step (run init polite).0 caller_interrupts).0
        (response_ends goodbye ∷ speech_stops ∷ [])).1
    ≡ 0
unfolding completed calls_of
run-interrupt_example =
    run-interrupt polite (response_ends goodbye ∷ speech_stops ∷ []) (refl, (refl, tt))

run-ends_after_speech_example :
    ends (step (run init (response_ends asks ∷ [])).0 (tool_answers 0 agreed)).1 ≡ 0
unfolding opened
run-ends_after_speech_example =
    run-ends_after_speech (response_ends asks ∷ []) (tool_answers 0 agreed) refl

begin-twice_example :
    begin 3 asks (begin 2 asks init.turns).0 ≡ ((begin 2 asks init.turns).0, [], none)
begin-twice_example = begin-twice 2 3 asks init.turns

run-seen_bound_example : length (run init farewell_call).0.turns.seen ≤ 1000
run-seen_bound_example = run-seen_bound farewell_call
