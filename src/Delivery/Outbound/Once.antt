-- ===== src/Delivery/Outbound/Once.antt =====
-- outboundOperations.js, outboundReadiness.js and the routes: requests to Twilio for one key.
use communications_service.Prelude.{
  ℕ, zero, suc, ◌+◌, ◌≤◌, Option, none, some, List, [], ◌∷◌, ◌≡◌, arith,
}
use communications_service.Delivery.Outbound.{
  Operation, World, Request, fresh, already, Attempt, inspecting, reserving, preparing, dispatching,
  refusing, recording, storing, completing, replied, Input, inspected, claimed, claim_lost,
  prepared, refused, not_updated, begin, inspect, dispatch, proceed, revisit, reserve, reserve_lost,
  reservation, mark, rejected, advance, is_dispatching, move, System, Event, arrives, resumes,
  move_at, step, run, unused,
}

-- Requests to Twilio that an attempt may still make.
abbrev due : Attempt → ℕ
due (preparing q fresh) = 1
due _ = 0

abbrev all_due : List Attempt → ℕ
all_due [] = 0
all_due (a ∷ rest) = due a + all_due rest

-- How many operations are stored: one at the most.
abbrev pub operations : Option Operation → ℕ
operations none = 0
operations (some op) = 1

mark-operations :
    (f : Operation → Operation) (w : World) → operations (mark f w).row ≡ operations w.row
unfolding mark
mark-operations f w = ground arith

mark-creates : (f : Operation → Operation) (w : World) → (mark f w).creates ≡ w.creates
unfolding mark
mark-creates f w = ground arith

move-due :
    (w : World) (a : Attempt) (input : Input) (r : ℕ)
    → w.creates + due a + r ≤ operations w.row
    → (move w a input).0.creates + due (move w a input).1 + r ≤ operations (move w a input).0.row
unfolding move advance is_dispatching inspect reserve reserve_lost proceed dispatch revisit mark
    rejected reservation
move-due w (inspecting q) (inspected broken h) r k = ground arith
move-due w (inspecting q) input r k = ground arith
move-due w (reserving q) (claimed broken now) r k = ground arith
move-due w (reserving q) (claim_lost now) r k = ground arith
move-due w (reserving q) input r k = ground arith
move-due w (preparing q fresh) (prepared done) r k = ground arith
move-due w (preparing q (already sid)) (prepared done) r k = ground arith
move-due w (preparing q sent) input r k = ground arith
move-due w (dispatching q) (refused e receipt) r k = ground arith
move-due w (dispatching q) input r k = ground arith
move-due w (refusing q receipt) (not_updated made) r k = ground arith
move-due w (refusing q receipt) input r k = ground arith
move-due w (recording q sid) (not_updated made) r k = ground arith
move-due w (recording q sid) input r k = ground arith
move-due w (storing q sid) input r k = ground arith
move-due w (completing q response) (not_updated made) r k = ground arith
move-due w (completing q response) input r k = ground arith
move-due w (replied reply) input r k = ground arith

move_at-due :
    (w : World) (attempts : List Attempt) (i : ℕ) (input : Input) (r : ℕ)
    → w.creates + all_due attempts + r ≤ operations w.row
    → (move_at w attempts i input).0.creates + all_due (move_at w attempts i input).1 + r
      ≤ operations (move_at w attempts i input).0.row
unfolding move_at
move_at-due w [] i input r k = k
move_at-due w (a ∷ rest) zero input r k =
    omega (arith, move-due w a input (all_due rest + r) (omega arith))
move_at-due w (a ∷ rest) (suc i) input r k =
    omega (arith, move_at-due w rest i input (due a + r) (omega arith))

begin-due : (q : Request) → due (begin q) ≡ 0
unfolding begin
begin-due q = ground arith

step-due :
    (s : System) (e : Event)
    → s.world.creates + all_due s.attempts ≤ operations s.world.row
    → (step s e).world.creates + all_due (step s e).attempts ≤ operations (step s e).world.row
unfolding step
step-due s (arrives q) k = omega (arith, begin-due q)
step-due s (resumes i input) k =
    omega (arith, move_at-due s.world s.attempts i input 0 (omega arith))

run-due :
    (s : System) (es : List Event)
    → s.world.creates + all_due s.attempts ≤ operations s.world.row
    → (run s es).world.creates ≤ operations (run s es).world.row
unfolding run
run-due s [] k = omega arith
run-due s (e ∷ es) k = run-due (step s e) es (step-due s e k)

-- However many requests come for one Idempotency-Key, retries and concurrent ones included, and
-- wherever each of them fails or stops, Twilio is asked to send or call at most once, and not before
-- the operation is stored.
pub run-once :
    (es : List Event) → (run unused es).world.creates ≤ operations (run unused es).world.row
run-once es = run-due unused es (omega arith)
