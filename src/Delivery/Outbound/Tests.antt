-- ===== src/Delivery/Outbound/Tests.antt =====
-- Two requests for one key, of which the second comes while the first waits for Twilio, and a third
-- after the first is done; and a provider that is not ready.
use communications_service.Prelude.{
  zero, suc, ◌≤◌, true, false, if◌then◌else◌, none, some, List, [], ◌∷◌, ◌≡◌, refl, any, all, keep,
  thrown,
}
use communications_service.Prelude.Text.{includes, same}
use communications_service.Delivery.Readiness.{
  Health, Snapshot, selected_model_503, assert_outbound_ready, account_ready, read_models,
  models_ready, is_required, selected_ready, is_rejection,
}
use communications_service.Delivery.Readiness.Laws.{IsReady, assert_outbound_ready-IsReady}
use communications_service.Delivery.Outbound.{
  Operation, Request, v1_messages, reserving, replied, in_progress_409, replayed_200, created_201,
  conflict_409, Event, arrives, resumes, inspected, claimed, created, updated, stored, begin,
  inspect, reservation, dispatch, proceed, revisit, reserve, mark, rejected, mark_sent, mark_failed,
  mark_completed, advance, is_dispatching, move, move_at, step, run, unused, is_voice, prepares,
  completed,
}
use communications_service.Delivery.Outbound.Once.{operations, run-once}
use communications_service.Delivery.Outbound.Replays.{run-replays}

abbrev snapshot : Snapshot
snapshot = record {
  stale = false;
  checked = true;
  models =
      record { roles = "voice" ∷ []; usable = true }
      ∷ record { roles = "live_transcription" ∷ []; usable = true }
      ∷ [];
}

abbrev health : Health
health = record {
  twilio = record { account_status = "active"; balance_state = "low" };
  before = snapshot;
  refreshed = snapshot;
  probe = λ model. false;
}

abbrev request : Request
request = record {
  route = v1_messages;
  key = some "k1";
  tenant = some "acme";
  request_hash = "h1";
  communication_id = "comm_1";
  model = none;
}

-- The second request is at position 0 from its arrival on, the first at position 1.
abbrev overlap : List Event
overlap =
    arrives request
    ∷ resumes zero (inspected false health)
    ∷ resumes zero (claimed false 1000)
    ∷ arrives request
    ∷ resumes zero (inspected false health)
    ∷ resumes zero (claimed false 2000)
    ∷ resumes (suc zero) (created "SM1")
    ∷ resumes (suc zero) updated
    ∷ resumes (suc zero) (stored "stored SM1")
    ∷ resumes (suc zero) updated
    ∷ []

opened : Unit {0}
unfolding run step move_at move advance is_dispatching begin inspect reserve reservation proceed
    dispatch revisit mark rejected mark_sent mark_failed mark_completed is_voice prepares
    assert_outbound_ready account_ready read_models models_ready is_required selected_ready
    is_rejection includes any all keep
opened = tt

asked : (run unused overlap).world.creates ≡ 1
unfolding opened
asked = refl

refused_second :
    (run unused overlap).attempts
    ≡ replied in_progress_409 ∷ replied (created_201 "stored SM1") ∷ []
unfolding opened
refused_second = refl

run-once_example : (run unused overlap).world.creates ≤ operations (run unused overlap).world.row
run-once_example = run-once overlap

abbrev done : Operation
done = record {
  status = completed;
  request_hash = "h1";
  communication_id = "comm_1";
  provider_id = some "SM1";
  response = some "stored SM1";
  has_completed_at = true;
  created_at = 1000;
}

run-replays_example :
    (op' : Operation) × ((run (run unused overlap) []).world.row ≡ some op')
    × (op'.status ≡ completed)
    × (move (run (run unused overlap) []).world (begin request) (inspected false health)
        ≡ ((run (run unused overlap) []).world, reserving request))
    × (move (run (run unused overlap) []).world (reserving request) (claimed false 9000) ≡ (
      (run (run unused overlap) []).world,
      replied (if same op'.request_hash "h1" then replayed_200 op'.response else conflict_409),
    ))
unfolding opened
run-replays_example = run-replays request health 9000 refl refl overlap [] done refl refl

-- A model of the caller's choice is probed.
unprobed : assert_outbound_ready true (some "gpt-other") health ≡ thrown selected_model_503
unfolding opened
unprobed = refl

assert_outbound_ready-IsReady_example : IsReady health none
unfolding opened
assert_outbound_ready-IsReady_example = assert_outbound_ready-IsReady health none refl
