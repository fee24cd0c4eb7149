-- ===== src/Delivery/Outbound/Replays.antt =====
-- outboundOperations.js and the routes: requests for an operation that has been completed.
use communications_service.Prelude.{
  ℕ, zero, suc, ◌+◌, ◌≤◌, true, false, Option, none, some, List, [], ◌∷◌, ◌≡◌, refl, arith, All,
  All-map, if◌then◌else◌,
}
use communications_service.Prelude.Text.{same, truthy}
use communications_service.Delivery.Readiness.{Health}
use communications_service.Delivery.Outbound.{
  Operation, World, Request, fresh, already, Attempt, inspecting, reserving, preparing, dispatching,
  refusing, recording, storing, completing, replied, replayed_200, conflict_409, Input, inspected,
  claimed, claim_lost, prepared, refused, not_updated, begin, inspect, dispatch, proceed, revisit,
  reserve, reserve_lost, mark, reservation, rejected, advance, is_dispatching, move, System, Event,
  arrives, resumes, move_at, step, run, unused, Status, reserved, provider_sent, completed, failed,
  mark_sent, mark_failed, mark_completed,
}

-- Attempts that still decide the operation's status.
abbrev deciding : Attempt → ℕ
deciding (preparing q fresh) = 1
deciding (dispatching q) = 1
deciding (refusing q receipt) = 1
deciding (recording q sid) = 1
deciding _ = 0

abbrev all_deciding : List Attempt → ℕ
all_deciding [] = 0
all_deciding (a ∷ rest) = deciding a + all_deciding rest

-- Attempts that need the operation to have been sent.
abbrev needs : Attempt → ℕ
needs (preparing q (already sid)) = 2
needs (storing q sid) = 2
needs (completing q response) = 2
needs _ = 0

abbrev status_rank : Status → ℕ
status_rank reserved = 1
status_rank provider_sent = 2
status_rank completed = 3
status_rank failed = 2

-- How far the operation has come: not stored, reserved, sent or failed, completed.
abbrev progress : Option Operation → ℕ
progress none = 0
progress (some op) = status_rank op.status

abbrev undecided : Option Operation → ℕ
undecided none = 0
undecided (some op) = elim op.status [ reserved ↦ 1 | _ ↦ 0 ]

-- What a move of one attempt preserves; `r` counts the deciding attempts beside it.
record Moves (w : World) (a : Attempt) (r : ℕ) (w' : World) (a' : Attempt) : Type 0 where
  decided : deciding a' + r ≤ undecided w'.row
  sent : needs a' ≤ progress w'.row
  onward : progress w.row ≤ progress w'.row

move-Moves :
    (w : World) (a : Attempt) (input : Input) (r : ℕ)
    → deciding a + r ≤ undecided w.row
    → needs a ≤ progress w.row
    → Moves w a r (move w a input).0 (move w a input).1
unfolding move advance is_dispatching inspect reserve reserve_lost proceed dispatch revisit mark
    rejected mark_sent mark_failed mark_completed reservation
move-Moves w (inspecting q) (inspected broken h) r k n = ground arith
move-Moves w (inspecting q) input r k n = ground arith
move-Moves w (reserving q) (claimed broken now) r k n = ground arith
move-Moves w (reserving q) (claim_lost now) r k n = ground arith
move-Moves w (reserving q) input r k n = ground arith
move-Moves w (preparing q fresh) (prepared done) r k n = ground arith
move-Moves w (preparing q (already sid)) (prepared done) r k n = ground arith
move-Moves w (preparing q sent) input r k n = ground arith
move-Moves w (dispatching q) (refused e receipt) r k n = ground arith
move-Moves w (dispatching q) input r k n = ground arith
move-Moves w (refusing q receipt) (not_updated made) r k n = ground arith
move-Moves w (refusing q receipt) input r k n = ground arith
move-Moves w (recording q sid) (not_updated made) r k n = ground arith
move-Moves w (recording q sid) input r k n = ground arith
move-Moves w (storing q sid) input r k n = ground arith
move-Moves w (completing q response) (not_updated made) r k n = ground arith
move-Moves w (completing q response) input r k n = ground arith
move-Moves w (replied reply) input r k n = ground arith

abbrev AllSent : World → List Attempt → Type 0
AllSent w = All (λ a. needs a ≤ progress w.row)

AllSent-onward :
    (w w' : World) (attempts : List Attempt)
    → progress w.row ≤ progress w'.row
    → AllSent w attempts
    → AllSent w' attempts
AllSent-onward w w' attempts k h =
    All-map (λ a. needs a ≤ progress w.row) (λ a. needs a ≤ progress w'.row) attempts
      (λ a n. omega (arith, n, k)) h

record AllMove (w : World) (attempts : List Attempt) (r : ℕ) (w' : World) (attempts' : List Attempt)
    : Type 0 where
  decided : all_deciding attempts' + r ≤ undecided w'.row
  sent : AllSent w' attempts'
  onward : progress w.row ≤ progress w'.row

move_at-AllMove :
    (w : World) (attempts : List Attempt) (i : ℕ) (input : Input) (r : ℕ)
    → all_deciding attempts + r ≤ undecided w.row
    → AllSent w attempts
    → AllMove w attempts r (move_at w attempts i input).0 (move_at w attempts i input).1
unfolding move_at
move_at-AllMove w [] i input r k h = record { decided = k; sent = tt; onward = omega arith }
move_at-AllMove w (a ∷ rest) zero input r k h =
    let m = move-Moves w a input (all_deciding rest + r) (omega arith) h.0 in
    record {
      decided = omega (arith, m.decided);
      sent = (m.sent, AllSent-onward w (move w a input).0 rest m.onward h.1);
      onward = m.onward;
    }
move_at-AllMove w (a ∷ rest) (suc i) input r k h =
    let m = move_at-AllMove w rest i input (deciding a + r) (omega arith) h.1 in
    record {
      decided = omega (arith, m.decided);
      sent = (omega (arith, m.onward, h.0), m.sent);
      onward = m.onward;
    }

record IsValid (s : System) : Type 0 where
  decided : all_deciding s.attempts ≤ undecided s.world.row
  sent : AllSent s.world s.attempts

begin-needs : (q : Request) → (needs (begin q) ≡ 0) × (deciding (begin q) ≡ 0)
unfolding begin
begin-needs q = ground arith

step-IsValid :
    (s : System) (e : Event)
    → IsValid s
    → IsValid (step s e) × (progress s.world.row ≤ progress (step s e).world.row)
unfolding step
step-IsValid s (arrives q) v =
    let b = begin-needs q in
    (
      record { decided = omega (arith, b, v.decided); sent = (omega (arith, b), v.sent) },
      omega arith,
    )
step-IsValid s (resumes i input) v =
    let m = move_at-AllMove s.world s.attempts i input 0 (omega (arith, v.decided)) v.sent in
    (record { decided = omega (arith, m.decided); sent = m.sent }, m.onward)

run-IsValid :
    (s : System) (es : List Event)
    → IsValid s
    → IsValid (run s es) × (progress s.world.row ≤ progress (run s es).world.row)
unfolding run
run-IsValid s [] v = (v, omega arith)
run-IsValid s (e ∷ es) v =
    let a = step-IsValid s e v in
    let b = run-IsValid (step s e) es a.0 in (b.0, omega (arith, a.1, b.1))

is_completed :
    (row : Option Operation)
    → 3 ≤ progress row
    → (op : Operation) × (row ≡ some op) × (op.status ≡ completed)
is_completed none h = absurd (omega arith)
is_completed (some op) h = (op, refl, ground arith)

run-completed :
    (before after : List Event) (op : Operation)
    → (run unused before).world.row ≡ some op
    → op.status ≡ completed
    → (op' : Operation) × ((run (run unused before) after).world.row ≡ some op')
      × (op'.status ≡ completed)
run-completed before after op e c =
    let v = (run-IsValid unused before (record { decided = omega arith; sent = tt })).0 in
    let k = (run-IsValid (run unused before) after v).1 in
    let three : 3 ≤ progress (run unused before).world.row = rw (e, c) (omega arith) in
    is_completed (run (run unused before) after).world.row (omega (arith, k, three))

module _ (q : Request) (h : Health) (now : ℕ) (key : truthy q.key ≡ true)
    (tenant : truthy q.tenant ≡ true) where
  replays :
      (w : World) (op : Operation)
      → w.row ≡ some op
      → op.status ≡ completed
      → (move w (begin q) (inspected false h) ≡ (w, reserving q))
        × (move w (reserving q) (claimed false now) ≡ (
          w,
          replied (
              if same op.request_hash q.request_hash
              then replayed_200 op.response
              else conflict_409),
        ))
  unfolding move advance is_dispatching begin inspect reserve revisit
  replays w op e c = (ground (arith, key, tenant), ground arith)

  -- Once the operation is completed it stays so, whatever requests are under way or come later; and a
  -- request with a key and a tenant whose queries succeed is answered from it, with the stored
  -- response if its fingerprint is that of the operation and with a conflict otherwise, whatever the
  -- state of the providers, and changes nothing.
  pub run-replays :
      (before after : List Event) (op : Operation)
      → (run unused before).world.row ≡ some op
      → op.status ≡ completed
      → (op' : Operation) × ((run (run unused before) after).world.row ≡ some op')
        × (op'.status ≡ completed)
        × (move (run (run unused before) after).world (begin q) (inspected false h)
            ≡ ((run (run unused before) after).world, reserving q))
        × (move (run (run unused before) after).world (reserving q) (claimed false now) ≡ (
          (run (run unused before) after).world,
          replied (
              if same op'.request_hash q.request_hash
              then replayed_200 op'.response
              else conflict_409),
        ))
  run-replays before after op e c =
      let (op', e', c') = run-completed before after op e c in
      let r = replays (run (run unused before) after).world op' e' c' in (op', e', c', r.0, r.1)
