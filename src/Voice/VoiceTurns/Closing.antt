-- ===== src/Voice/VoiceTurns/Closing.antt =====
-- voiceTurns.js: interruptions and the end of the call.
use communications_service.Prelude.{
  ℕ, suc, ◌+◌, ◌<◌, true, false, ◌≡◌, refl, none, some, List, [], ◌∷◌, ◌++◌, inl, inr, arith,
  Option-cases, All, All-map,
}
use communications_service.Voice.VoiceTurns.Messages.{
  Call, Response, Effect, send_response, send_farewell, end_after_playback, run_tool,
}
use communications_service.Voice.VoiceTurns.{
  Turn, Machine, init, Event, caller_interrupts, speech_stops, response_starts, response_ends,
  tool_answers, tool_throws, start_tools, is_farewell, proceed, begin, conclude_stale, conclude,
  next_tool, rest, resume_turn, take_at, answer, forget, step, run,
}
use communications_service.Voice.VoiceTurns.State.{
  Turns, resume, interrupt, speech_stopped, response_created, note_done,
}
use communications_service.Voice.VoiceTurns.InFlight.{
  IsTimely, AllTimely, take_at-All, run-AllTimely,
}
use communications_service.Voice.VoiceTurns.Reports.{is_tool_response}

-- How often the call is ended.
abbrev pub ends : List Effect → ℕ
ends [] = 0
ends (end_after_playback r ∷ es) = suc (ends es)
ends (send_response ∷ es) = ends es
ends (send_farewell t ∷ es) = ends es
ends (run_tool c ∷ es) = ends es

ends-append : (xs ys : List Effect) → ends (xs ++ ys) ≡ ends xs + ends ys
ends-append [] ys = omega arith
ends-append (end_after_playback r ∷ xs) ys = omega (arith, ends-append xs ys)
ends-append (send_response ∷ xs) ys = ends-append xs ys
ends-append (send_farewell t ∷ xs) ys = ends-append xs ys
ends-append (run_tool c ∷ xs) ys = ends-append xs ys

pub resume-ends : (t : Turns) → ends (resume t).1 ≡ 0
unfolding resume
resume-ends t = ground arith

resume-farewell : (t : Turns) → (resume t).0.farewell ≡ t.farewell
unfolding resume
resume-farewell t = ground arith

-- The caller has interrupted: no farewell is under way, and every tool that still runs was
-- started before.
abbrev IsStale : ℕ → Turn → Type 0
IsStale gen turn = turn.epoch < gen

record IsInterrupted (m : Machine) : Type 0 where
  farewell : m.turns.farewell ≡ none
  stale : All (IsStale m.generation) m.in_flight

conclude_interrupted :
    (gen : ℕ) (turn : Turn) (t : Turns)
    → IsStale gen turn
    → t.farewell ≡ none
    → (ends (conclude gen turn t).1 ≡ 0) × ((conclude gen turn t).0.farewell ≡ none)
unfolding conclude conclude_stale
conclude_interrupted gen turn t h f = ground (
  arith,
  resume-ends t,
  resume-farewell t,
  resume-ends (record t { pending_continuation = true }),
  resume-farewell (record t { pending_continuation = true }),
)

next_tool_interrupted :
    (gen : ℕ) (cs : List Call) (turn : Turn) (t : Turns)
    → IsStale gen turn
    → t.farewell ≡ none
    → (ends (next_tool gen cs turn t).1 ≡ 0)
      × ((next_tool gen cs turn t).0.farewell ≡ none)
      × ((next_tool gen cs turn t).2 ≡ none)
unfolding next_tool
next_tool_interrupted gen [] turn t h f =
    let c = conclude_interrupted gen turn t h f in (c.0, c.1, refl)
next_tool_interrupted gen (d ∷ cs) turn t h f = ground (arith, conclude_interrupted gen turn t h f)

-- A response that calls no tool starts none, and without a farewell it ends nothing.
proceed_interrupted :
    (gen : ℕ) (r : Response) (t : Turns)
    → t.farewell ≡ none
    → is_tool_response (response_ends r) ≡ false
    → (ends (proceed gen r t).1 ≡ 0)
      × ((proceed gen r t).0.farewell ≡ none)
      × ((proceed gen r t).2 ≡ none)
unfolding proceed start_tools is_farewell
proceed_interrupted gen r t f h = ground (arith, resume-ends t, resume-farewell t)

begin_interrupted :
    (gen : ℕ) (r : Response) (t : Turns)
    → t.farewell ≡ none
    → is_tool_response (response_ends r) ≡ false
    → (ends (begin gen r t).1 ≡ 0)
      × ((begin gen r t).0.farewell ≡ none)
      × ((begin gen r t).2 ≡ none)
unfolding begin note_done
begin_interrupted gen r t f h = elim (Option-cases r.id) [
  | inl e ↦ ground arith
  | inr (id, e) ↦ ground (arith, proceed_interrupted gen r (note_done gen id t) f h)
]

step-IsInterrupted :
    (m : Machine) (e : Event)
    → is_tool_response e ≡ false
    → IsInterrupted m
    → (ends (step m e).1 ≡ 0) × IsInterrupted (step m e).0
unfolding step interrupt speech_stopped response_created answer forget resume_turn
step-IsInterrupted m caller_interrupts q h = (
  refl,
  record {
    farewell = refl;
    stale =
        All-map (IsStale m.generation) (IsStale (m.generation + 1)) m.in_flight
          (λ turn p. omega arith) h.stale;
  },
)
step-IsInterrupted m speech_stops q h =
    let t : Turns = record m.turns { caller_speaking = false } in
    (resume-ends t, record { farewell = rw (resume-farewell t) h.farewell; stale = h.stale })
step-IsInterrupted m (response_starts none) q h = (refl, h)
step-IsInterrupted m (response_starts (some id)) q h =
    (refl, record { farewell = ground (arith, h.farewell); stale = h.stale })
step-IsInterrupted m (response_ends r) q h =
    let b = begin_interrupted m.generation r m.turns h.farewell q in
    (b.0, record { farewell = b.1; stale = rw b.2 h.stale })
step-IsInterrupted m (tool_answers i result) q h = elim (Option-cases (take_at i m.in_flight)) [
  | inl e ↦ rw (e, answer) (refl, h)
  | inr ((turn, others), e) ↦
      let p = take_at-All (IsStale m.generation) i m.in_flight turn others e h.stale in
      let n =
        next_tool_interrupted m.generation (rest turn.left)
          (record turn { left = rest turn.left; results = turn.results ++ result ∷ [] }) m.turns p.0
          h.farewell in
      rw (e, answer) (n.0, record { farewell = n.1; stale = rw n.2 p.1 })
]
step-IsInterrupted m (tool_throws i) q h = elim (Option-cases (take_at i m.in_flight)) [
  | inl e ↦ rw (e, forget) (refl, h)
  | inr ((turn, others), e) ↦
      rw (e, forget)
        (
          refl,
          record {
            farewell = h.farewell;
            stale = (take_at-All (IsStale m.generation) i m.in_flight turn others e h.stale).1;
          },
        )
]

abbrev pub CallsNothing : List Event → Type 0
CallsNothing = All (λ e. is_tool_response e ≡ false)

run-IsInterrupted :
    (m : Machine) (es : List Event) → CallsNothing es → IsInterrupted m → ends (run m es).1 ≡ 0
unfolding run
run-IsInterrupted m [] q h = refl
run-IsInterrupted m (e ∷ es) q h =
    let s = step-IsInterrupted m e q.0 h in
    omega (
      arith,
      s.0,
      run-IsInterrupted (step m e).0 es q.1 s.1,
      ends-append (step m e).1 (run (step m e).0 es).1,
    )

interrupt-IsInterrupted : (m : Machine) → AllTimely m → IsInterrupted (step m caller_interrupts).0
unfolding step interrupt
interrupt-IsInterrupted m h = record {
  farewell = refl;
  stale =
      All-map (IsTimely m.generation) (IsStale (m.generation + 1)) m.in_flight
        (λ turn p. omega arith) h;
}

-- Once the caller interrupts, a farewell under way and tools already running no longer end the
-- call: whatever follows, it is not ended until a new response has called a tool.
pub run-interrupt :
    (before after : List Event)
    → CallsNothing after
    → ends (run (step (run init before).0 caller_interrupts).0 after).1 ≡ 0
run-interrupt before after q =
    run-IsInterrupted (step (run init before).0 caller_interrupts).0 after q
      (interrupt-IsInterrupted (run init before).0 (run-AllTimely init before tt))
