-- ===== src/Delivery/EventOutbox/Tests.antt =====
-- An event that one worker holds while another delivers it, and one whose destination is down.
use communications_service.Prelude.{
  zero, true, false, List, [], ◌∷◌, ◌≡◌, ◌≤◌, ◌<◌, refl, length, arith,
}
use communications_service.Delivery.EventOutbox.{
  Answer, response, threw, Event, claim, answered, requeued, is_open, delivered, failed, run,
  enqueued, step, claimable, take_claim, nth, without, update_row, deferred, settle, released,
  exhausted, delay_ms, put_off,
}
use communications_service.Delivery.EventOutbox.Settled.{run-stays}
use communications_service.Delivery.EventOutbox.Validity.{run-bounded}
use communications_service.Delivery.EventOutbox.Retries.{rounds, rounds-gives_up, delay_ms-bounds}

-- The lease of the first worker runs out, a second one claims the event and delivers it.
abbrev takeover : List Event
takeover = claim true 1000 ∷ claim true 61001 ∷ answered zero true (response 200) 61500 ∷ []

-- Then the first one reports an error, and a third one tries to claim the event.
abbrev late : List Event
late = answered zero true (response 500) 62000 ∷ claim true 200000 ∷ []

opened : Unit {0}
unfolding run step claimable take_claim nth without update_row deferred settle released exhausted
    delay_ms put_off
opened = tt

taken_over : (run "call.completed" (enqueued 1000) takeover).row.status ≡ delivered
unfolding opened
taken_over = refl

taken_over_attempts : (run "call.completed" (enqueued 1000) takeover).row.attempts ≡ 1
unfolding opened
taken_over_attempts = refl

run-stays_example :
    (run "call.completed" (run "call.completed" (enqueued 1000) takeover) late).row
    ≡ (run "call.completed" (enqueued 1000) takeover).row
unfolding opened
run-stays_example = run-stays "call.completed" 1000 takeover late (tt, (tt, tt)) refl

-- An event that was given up is requeued, and claimed again.
requeued_again :
    (run "call.completed"
      (enqueued 1000)
      (claim true 1000 ∷ answered zero true (response 400) 1500 ∷ requeued 9000 ∷ [])).row.attempts
    ≡ 0
unfolding opened
requeued_again = refl

run-bounded_example :
    ((run "call.completed" (enqueued 1000) takeover).row.attempts ≤ 12)
    × (is_open (run "call.completed" (enqueued 1000) takeover).row.status ≡ true
        → (run "call.completed" (enqueued 1000) takeover).row.attempts < 12)
run-bounded_example = run-bounded "call.completed" 1000 takeover

abbrev outage : List Answer
outage =
    response 500
    ∷ response 503
    ∷ response 429
    ∷ threw false
    ∷ response 500
    ∷ response 500
    ∷ response 500
    ∷ response 500
    ∷ response 408
    ∷ response 425
    ∷ threw false
    ∷ response 502
    ∷ []

rounds-gives_up_example :
    (length outage < 12
      → ((rounds "call.completed" (enqueued 1000) outage).row.attempts ≡ length outage)
        × (is_open (rounds "call.completed" (enqueued 1000) outage).row.status ≡ true))
    × (length outage ≡ 12 → (rounds "call.completed" (enqueued 1000) outage).row.status ≡ failed)
rounds-gives_up_example = rounds-gives_up "call.completed" 1000 outage (ground arith)

delay_ms-bounds_example : (5000 ≤ delay_ms 3) × (delay_ms 3 ≤ 2560000)
delay_ms-bounds_example = delay_ms-bounds 3
