-- ===== src/Voice/VoiceTurns/Speech.antt =====
-- voiceTurns.js: speech and the end of the call.
use communications_service.Prelude.{
  ℕ, Bool, true, false, ◌&&◌, ◌≡◌, refl, Option, none, some, List, [], ◌∷◌, ◌++◌, inl, inr, arith,
  Option-cases, eqb,
}
use communications_service.Voice.VoiceTurns.Messages.{
  Call, Response, has_speech, completed, calls_of,
}
use communications_service.Voice.VoiceTurns.{
  Turn, Machine, init, Event, caller_interrupts, speech_stops, response_starts, response_ends,
  tool_answers, tool_throws, start_tools, farewell_effects, proceed, begin, conclude_stale,
  close_call, conclude, next_tool, rest, resume_turn, take_at, answer, step, run,
}
use communications_service.Voice.VoiceTurns.State.{Farewell, Turns, speech_stopped, note_done}
use communications_service.Voice.VoiceTurns.InFlight.{
  IsTimely, AllTimely, take_at-All, run-AllTimely,
}
use communications_service.Voice.VoiceTurns.Closing.{ends, resume-ends}

-- What an event has to bring for the call to be ended on it.
abbrev pub is_audible : Response → Bool
is_audible r = completed r && has_speech r

abbrev pub answered_audibly : ℕ → Option (Turn × List Turn) → Bool
answered_audibly gen none = false
answered_audibly gen (some (turn, others)) = eqb turn.epoch gen && is_audible turn.response

abbrev pub may_end : Machine → Event → Bool
may_end m (response_ends r) = is_audible r
may_end m (tool_answers i result) = answered_audibly m.generation (take_at i m.in_flight)
may_end m caller_interrupts = false
may_end m speech_stops = false
may_end m (response_starts id) = false
may_end m (tool_throws i) = false

conclude_inaudible :
    (gen : ℕ) (turn : Turn) (t : Turns)
    → completed turn.response ≡ true
    → (eqb turn.epoch gen && is_audible turn.response) ≡ false
    → ends (conclude gen turn t).1 ≡ 0
unfolding conclude conclude_stale close_call
conclude_inaudible gen turn t c h = grind (arith, resume-ends)

next_tool_inaudible :
    (gen : ℕ) (cs : List Call) (turn : Turn) (t : Turns)
    → completed turn.response ≡ true
    → (eqb turn.epoch gen && is_audible turn.response) ≡ false
    → ends (next_tool gen cs turn t).1 ≡ 0
unfolding next_tool
next_tool_inaudible gen [] turn t c h = conclude_inaudible gen turn t c h
next_tool_inaudible gen (d ∷ cs) turn t c h = ground (arith, conclude_inaudible gen turn t c h)

farewell_effects_inaudible :
    (f : Option Farewell) (r : Response) → is_audible r ≡ false → ends (farewell_effects f r) ≡ 0
unfolding farewell_effects
farewell_effects_inaudible none r h = refl
farewell_effects_inaudible (some f) r h = ground arith

start_tools-ends :
    (gen : ℕ) (r : Response) (cs : List Call) (t : Turns) → ends (start_tools gen r cs t).1 ≡ 0
unfolding start_tools
start_tools-ends gen r [] t = resume-ends t
start_tools-ends gen r (c ∷ cs) t = refl

begin_inaudible :
    (gen : ℕ) (r : Response) (t : Turns) → is_audible r ≡ false → ends (begin gen r t).1 ≡ 0
unfolding begin proceed
begin_inaudible gen r t h = elim (Option-cases r.id) [
  | inl e ↦ rw (e, begin)
  | inr (id, e) ↦
      rw (e, begin)
        (ground (
          arith,
          farewell_effects_inaudible (note_done gen id t).farewell r h,
          resume-ends (note_done gen id t),
          start_tools-ends gen r (calls_of r.output) (note_done gen id t),
        ))
]

step_inaudible :
    (m : Machine) (e : Event) → AllTimely m → may_end m e ≡ false → ends (step m e).1 ≡ 0
unfolding step speech_stopped answer resume_turn
step_inaudible m caller_interrupts v h = refl
step_inaudible m speech_stops v h = resume-ends (record m.turns { caller_speaking = false })
step_inaudible m (response_starts id) v h = refl
step_inaudible m (response_ends r) v h = begin_inaudible m.generation r m.turns h
step_inaudible m (tool_answers i result) v h = elim (Option-cases (take_at i m.in_flight)) [
  | inl e ↦ rw (e, answer)
  | inr ((turn, others), e) ↦
      let p = take_at-All (IsTimely m.generation) i m.in_flight turn others e v in
      rw (e, answer)
        (next_tool_inaudible m.generation (rest turn.left)
          (record turn { left = rest turn.left; results = turn.results ++ result ∷ [] }) m.turns
          p.0.1 (rw e at h))
]
step_inaudible m (tool_throws i) v h = refl

-- In every reachable state, the call is ended only on a completed response with audible speech, or
-- on the answer of a tool of such a response that no interruption has overtaken.
pub run-ends_after_speech :
    (es : List Event) (e : Event)
    → may_end (run init es).0 e ≡ false
    → ends (step (run init es).0 e).1 ≡ 0
run-ends_after_speech es e h = step_inaudible (run init es).0 e (run-AllTimely init es tt) h
