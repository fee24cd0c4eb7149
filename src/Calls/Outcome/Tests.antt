-- ===== src/Calls/Outcome/Tests.antt =====
-- callOutcome.js and `enqueueEvent`: concrete calls and sweeps.
use communications_service.Prelude.Text.{includes, trim}
use communications_service.Prelude.{
  ℕ, String, Bool, true, false, Option, none, some, List, [], ◌∷◌, ◌≡◌, refl, returned, length,
  arith, any, find,
}
use communications_service.Delivery.Enqueue.{
  Request, Settings, Faults, enqueue_event, callback_for_thread,
}
use communications_service.Calls.Outcome.{
  human_completed, voicemail, Pattern, result, deterministic_call_outcome, provider_failure,
  caller_segments, is_completed,
}
use communications_service.Calls.Outcome.Jobs.{
  Call, Business, Status, World, Persisting, Sweep, settled, stored_outcome, is_settled,
  some_segments, persist_call_outcome, finish_job,
}
use communications_service.Calls.Outcome.Jobs.Stored.{stored_outcome-settled}
use communications_service.Calls.Outcome.Sweeps.{run_job, sweep}
use communications_service.Calls.Outcome.Sweeps.Ends.{IsOver, run_job-IsOver}

abbrev settings : Settings
settings = record {
  connected = true;
  event_url = some "https://hyperflow.example";
  has_secret = true;
  legacy_tenant = none;
}

abbrev no_faults : Faults
no_faults = record { store_fails = false; confirm_fails = false }

abbrev unconfirmed : Faults
unconfirmed = record { store_fails = false; confirm_fails = true }

abbrev working : Persisting
working = record {
  update_fails = false;
  callback_fails = false;
  callback = none;
  terminal = no_faults;
  ask = no_faults;
  marker_fails = false;
}

abbrev call : Call
call = record {
  tenant_id = some "t1";
  communication_id = some "com_1";
  thread_id = some "thr_1";
  status = some "completed";
  answered_by = none;
  segments = record { role = some "user"; text = some "Yes, Tuesday suits me" } ∷ [];
  ended_at = some 1000;
  purpose = some "human_ask";
  briefing_private = false;
  business_status = Business.unsettled;
  disposition = none;
  successful = false;
  memory_eligible = false;
  failure_code = none;
  failure_reason = none;
  outcome_source = none;
  outcome_confidence = 0;
  outcome_evidence = none;
  summary = none;
  terminal_event_id = none;
  terminal_event_type = none;
  emitted = false;
}

abbrev world : World
world = record {
  call = some call;
  events = [];
  summaries = 0;
  job = record {
    status = Status.pending;
    attempts = 0;
    next_attempt_at = 0;
    last_error = none;
    leased = false;
  };
}

-- The model says that the call was completed; the first sweep cannot confirm its event.
abbrev sweep_at : ℕ → Persisting → Sweep
sweep_at now persisting = record {
  now = now;
  claim_fails = false;
  lease_expired = false;
  has_tenant = true;
  lookup_fails = false;
  classified =
      returned
        (record { disposition = human_completed; confidence = 95; reason = none; evidence = none });
  persisting = persisting;
  finish_fails = false;
  second_lookup_fails = false;
  last_persisting = working;
  last_finish_fails = false;
  update_fails = false;
}

abbrev sweeps : List Sweep
sweeps = sweep_at 2000 (record working { terminal = unconfirmed }) ∷ sweep_at 9000 working ∷ []

abbrev lower : String → String
lower s = s

abbrev test : Pattern → String → Bool
test p s = false

abbrev match : Pattern → String → Option String
match p s = none

-- The retry tells of the call, and of the answer to the question, once each.
retried : length (sweep lower test match settings 60000 sweeps world).events ≡ 2
unfolding sweep is_settled deterministic_call_outcome provider_failure caller_segments includes trim
    any some_segments persist_call_outcome callback_for_thread enqueue_event result stored_outcome
    finish_job find
retried = refl

retried_done : (sweep lower test match settings 60000 sweeps world).job.status ≡ Status.done
unfolding sweep is_settled deterministic_call_outcome provider_failure caller_segments includes trim
    any some_segments persist_call_outcome callback_for_thread enqueue_event result stored_outcome
    finish_job
retried_done = refl

run_job-IsOver_example :
    IsOver
      (run_job lower test match settings 60000 (sweep_at 2000 working) (record world {
        job = record {
          status = Status.processing;
          attempts = 4;
          next_attempt_at = 0;
          last_error = none;
          leased = true;
        };
      })).job
run_job-IsOver_example =
    run_job-IsOver lower test match settings 60000 (sweep_at 2000 working) refl refl
      (record world {
        job = record {
          status = Status.processing;
          attempts = 4;
          next_attempt_at = 0;
          last_error = none;
          leased = true;
        };
      })
      (omega arith)

stored_outcome-settled_example :
    stored_outcome (settled (result voicemail none 300 (some "") (some "beep")) call)
    ≡ result voicemail none 300 (some "") (some "beep")
unfolding is_completed
stored_outcome-settled_example =
    stored_outcome-settled call voicemail none 300 (some "") (some "beep")

abbrev request : Request ℕ
request = record {
  tenant_id = none;
  type = "call.completed";
  destination = none;
  dedupe_key = some "call-terminal:com_1";
  correlation_tenant = some "t1";
  payload = 7;
}
