-- ===== src/Delivery/EventOutbox/Settled.antt =====
-- eventOutbox.js: events that are delivered or given up.
use communications_service.Prelude.{
  ℕ, String, Bool, false, none, List, [], ◌∷◌, ◌≡◌, refl, inl, inr, arith, ◌∙◌, All, Option-cases,
}
use communications_service.Delivery.EventOutbox.{
  Row, Claim, Answer, is_open, update_row, claimable, Outbox, Event, claim, answered, requeued, nth,
  step, run, enqueued,
}
use communications_service.Delivery.EventOutbox.Validity.{run-IsValid, enqueued-IsValid}

-- Neither open nor leased.
abbrev IsSettled : Row → Type 0
IsSettled row = (is_open row.status ≡ false) × (row.lease_token ≡ none)

update_row-settled :
    (event_type : String) (c : Claim) (enabled : Bool) (answer : Answer) (now : ℕ) (row : Row)
    → row.lease_token ≡ none
    → update_row event_type c enabled answer now row ≡ row
unfolding update_row
update_row-settled event_type c enabled answer now row l = rw l

-- The event does not put the row back in the queue.
abbrev pub IsDelivery : Event → Type 0
IsDelivery (claim active now) = Unit {0}
IsDelivery (answered i enabled answer now) = Unit {0}
IsDelivery (requeued now) = ⊥

step-settled :
    (event_type : String) (o : Outbox) (e : Event)
    → IsDelivery e
    → IsSettled o.row
    → (step event_type o e).row ≡ o.row
unfolding step claimable
step-settled event_type o (claim active now) d s = ground arith
step-settled event_type o (requeued now) d s = absurd d
step-settled event_type o (answered i enabled answer now) d s =
    elim (Option-cases (nth o.in_flight i)) [
      | inl e ↦ rw (e, step)
      | inr (c, e) ↦ rw (e, step) (update_row-settled event_type c enabled answer now o.row s.1)
    ]

run-settled :
    (event_type : String) (o : Outbox) (es : List Event)
    → All IsDelivery es
    → IsSettled o.row
    → (run event_type o es).row ≡ o.row
unfolding run
run-settled event_type o [] d s = refl
run-settled event_type o (e ∷ es) d s =
    let k = step-settled event_type o e d.0 s in
    run-settled event_type (step event_type o e) es d.1 (rw k s) ∙ k

-- Once an event is delivered or given up, after whatever claims, answers and requeues, nothing changes
-- its row until it is requeued, whichever workers still hold a claim on it or try to claim it.
pub run-stays :
    (event_type : String) (now : ℕ) (before after : List Event)
    → All IsDelivery after
    → is_open (run event_type (enqueued now) before).row.status ≡ false
    → (run event_type (run event_type (enqueued now) before) after).row
      ≡ (run event_type (enqueued now) before).row
run-stays event_type now before after d closed =
    let v = run-IsValid event_type (enqueued now) before (enqueued-IsValid now) in
    run-settled event_type (run event_type (enqueued now) before) after d
      (closed, v.bounded.leased closed)
