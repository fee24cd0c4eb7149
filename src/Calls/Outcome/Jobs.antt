-- ===== src/Calls/Outcome/Jobs.antt =====
-- callOutcome.js: one job of call_outcome_jobs, from its claim to the update that ends it. `World` is
-- what is stored: the row of the call, the events, the job, and how often `summariseCall` was asked.
-- Which queries fail is an argument of a sweep, and so is what the model says of a transcript. Each
-- update of the job asks for its lease token: the job here is the one that the sweep has claimed.
-- Not modelled: timestamps that are only stored, and the payload's fields copied from the row.
pub mod Agreement
pub mod Persistence
pub mod Stored
use Prim.Native.String.{◌++◌ as ◌<>◌}
use communications_service.Prelude.{
  ℕ, zero, ◌+◌, ◌-◌, ◌*◌, ◌^◌, min, max, String, Bool, true, false, not, ◌&&◌, ◌||◌, Option, none,
  some, List, [], ◌∷◌, ltb, leb, if◌then◌else◌, Outcome, thrown, returned,
}
use communications_service.Prelude.Text.{same?, same, truthy}
use communications_service.Prelude.Units.{prefix}
use communications_service.Delivery.Enqueue.{
  Request, Event, Settings, Faults, enqueue_event, callback_for_thread,
}
use communications_service.Calls.Outcome.{
  unclassified, Disposition, CallOutcome, Segment, Pattern, result, text_or,
  deterministic_call_outcome,
}

pub data Business : Type 0 where
  unsettled success failed : Business

pub record Call : Type 0 where
  pub tenant_id : Option String
  pub communication_id : Option String
  pub thread_id : Option String
  pub status : Option String
  pub answered_by : Option String
  pub segments : List Segment
  pub ended_at : Option ℕ
  pub purpose : Option String
  pub briefing_private : Bool
  pub business_status : Business
  pub disposition : Option Disposition
  pub successful : Bool
  pub memory_eligible : Bool
  pub failure_code : Option Disposition
  pub failure_reason : Option String
  pub outcome_source : Option String
  pub outcome_confidence : ℕ
  pub outcome_evidence : Option String
  pub summary : Option String
  pub terminal_event_id : Option ℕ
  pub terminal_event_type : Option String
  pub emitted : Bool

-- The payloads of `call.completed` and `call.failed`, and of `ask.response.received`.
pub data Payload : Type 0 where
  terminal : CallOutcome → (memory_eligible : Bool) → Payload
  ask_response : Disposition → (memory_eligible : Bool) → Payload

pub data Status : Type 0 where
  pending processing done given_up : Status

pub record Job : Type 0 where
  pub status : Status
  pub attempts : ℕ
  pub next_attempt_at : ℕ
  pub last_error : Option String
  pub leased : Bool

pub record World : Type 0 where
  pub call : Option Call
  pub events : List (Event Payload)
  pub job : Job
  pub summaries : ℕ

-- The queries that fail in one run of `persistCallOutcome`; `callback` is the thread's url.
pub record Persisting : Type 0 where
  pub update_fails : Bool
  pub callback_fails : Bool
  pub callback : Option String
  pub terminal : Faults
  pub ask : Faults
  pub marker_fails : Bool

abbrev pub Step : Type 0
Step = World × Outcome String (Unit {0})

-- What comes next is left out where a step throws.
unfoldable pub next : Step → (World → Step) → Step
next (w, thrown e) more = (w, thrown e)
next (w, returned u) more = more w

-- `call.purpose?.type === 'project_reception' || call.metadata?.briefingPrivate === true ? false : …`
unfoldable pub remembered : Call → CallOutcome → Bool
remembered call outcome =
    not (same? call.purpose (some "project_reception") || call.briefing_private)
    && outcome.memory_eligible

-- The row of the call after the update.
unfoldable pub settled : CallOutcome → Call → Call
unfolding remembered
settled outcome call = record call {
  business_status = if outcome.successful then success else failed;
  disposition = some outcome.disposition;
  successful = outcome.successful;
  memory_eligible = remembered call outcome;
  failure_code = outcome.failure_code;
  failure_reason = if outcome.successful then none else some outcome.reason;
  outcome_source = some outcome.source;
  outcome_confidence = outcome.confidence;
  outcome_evidence = outcome.evidence;
  summary = if outcome.successful && truthy call.summary then call.summary else none;
}

abbrev event_type : CallOutcome → String
event_type outcome = if outcome.successful then "call.completed" else "call.failed"

unfoldable pub terminal_request :
    Call → CallOutcome → (id : String) → Option String → Request Payload
unfolding remembered
terminal_request call outcome id destination = record {
  tenant_id = call.tenant_id;
  type = event_type outcome;
  destination = destination;
  dedupe_key = some (◌<>◌ "call-terminal:" id);
  correlation_tenant = none;
  payload = terminal outcome (remembered call outcome);
}

unfoldable pub ask_request : Call → CallOutcome → (id : String) → Option String → Request Payload
ask_request call outcome id destination = record {
  tenant_id = call.tenant_id;
  type = "ask.response.received";
  destination = destination;
  dedupe_key = some (◌<>◌ "ask-response:" id);
  correlation_tenant = none;
  payload = ask_response outcome.disposition (not call.briefing_private);
}

unfoldable pub some_segments : List Segment → Bool
some_segments [] = false
some_segments (s ∷ ss) = true

unfoldable pub asks : Call → CallOutcome → Bool
unfolding some_segments
asks call outcome =
    outcome.successful && same? call.purpose (some "human_ask") && some_segments call.segments

-- `terminal_event_id`, `terminal_event_type` and `terminal_event_emitted_at`
unfoldable pub marked : Call → CallOutcome → Option ℕ → Call
marked call outcome id = record call {
  terminal_event_id = id;
  terminal_event_type = some (event_type outcome);
  emitted = true;
}

-- The marker, and the summary of a call that succeeded.
unfoldable pub mark : Persisting → Call → CallOutcome → Option ℕ → World → Step
unfolding marked
mark f call outcome id w = if f.marker_fails then (w, thrown "Call terminal event marker") else (
  record w {
    call = some (marked call outcome id);
    summaries = w.summaries + (if outcome.successful then 1 else 0);
  },
  returned tt,
)

module _ (settings : Settings) where
  unfoldable pub respond_to_ask :
      Persisting → Call → CallOutcome → (id : String) → Option String → Option ℕ → World → Step
  unfolding asks mark ask_request
  respond_to_ask f call outcome id destination event w =
      let sent = enqueue_event settings f.ask (ask_request call outcome id destination) w.events in
      if asks call outcome
      then elim sent.1 [
        | thrown e ↦ (record w { events = sent.0 }, thrown e)
        | returned ask ↦ mark f call outcome event (record w { events = sent.0 })
      ]
      else mark f call outcome event w

  unfoldable pub announce :
      Persisting → Call → CallOutcome → (id : String) → Option String → World → Step
  unfolding respond_to_ask terminal_request
  announce f call outcome id destination w =
      let sent =
        enqueue_event settings f.terminal (terminal_request call outcome id destination) w.events in
      elim sent.1 [
        | thrown e ↦ (record w { events = sent.0 }, thrown e)
        | returned event ↦
            respond_to_ask f call outcome id destination event (record w { events = sent.0 })
      ]

  -- From the stored row on.
  unfoldable pub tell : Persisting → Call → CallOutcome → World → Step
  unfolding announce
  tell f call outcome w = elim call.communication_id [
    | none ↦ (w, returned tt)
    | some id ↦
        if not (truthy (some id))
        then (w, returned tt)
        else elim (callback_for_thread settings f.callback_fails f.callback call.tenant_id
            call.thread_id) [
              | thrown e ↦ (w, thrown e)
              | returned destination ↦ announce f call outcome id destination w
            ]
  ]

  -- `persistCallOutcome`
  unfoldable pub persist_call_outcome : Persisting → Call → CallOutcome → World → Step
  unfolding tell settled
  persist_call_outcome f call outcome w = elim w.call [
    | none ↦ (w, thrown "Call outcome persistence: call not found")
    | some row ↦
        if f.update_fails
        then (w, thrown "Call outcome persistence")
        else let stored = settled outcome row in
          tell f stored outcome (record w { call = some stored })
  ]

-- The updates of the job; the error is stored as the source cuts it.
unfoldable pub finish_job : (fails : Bool) (last_error : Option String) → World → Step
finish_job fails last_error w = if fails then (w, thrown "Call outcome job completion") else (
  record w { job = record w.job { status = done; last_error = last_error; leased = false } },
  returned tt,
)

unfoldable pub defer_for_transcript : (fails : Bool) (now : ℕ) → World → Step
defer_for_transcript fails now w = if fails then (w, thrown "Call outcome defer") else (
  record w {
    job = record w.job {
      status = pending;
      attempts = 0;
      next_attempt_at = now + 5000;
      last_error = none;
      leased = false;
    };
  },
  returned tt,
)

-- The answer of the model, as `classifyCallTranscript` reads it.
pub record Classified : Type 0 where
  pub disposition : Disposition
  pub confidence : ℕ
  pub reason : Option String
  pub evidence : Option String

-- What one sweep meets. `classified` is what the request to the model comes to.
pub record Sweep : Type 0 where
  pub now : ℕ
  pub claim_fails : Bool
  pub lease_expired : Bool
  pub has_tenant : Bool
  pub lookup_fails : Bool
  pub classified : Outcome String Classified
  pub persisting : Persisting
  pub finish_fails : Bool
  pub second_lookup_fails : Bool
  pub last_persisting : Persisting
  pub last_finish_fails : Bool
  pub update_fails : Bool

-- The outcome that the row has already.
unfoldable pub stored_outcome : Call → CallOutcome
stored_outcome call =
    result (elim call.disposition [ none ↦ unclassified | some d ↦ d ])
      (some (text_or call.outcome_source "persisted_outcome")) call.outcome_confidence
      call.failure_reason call.outcome_evidence

unfoldable pub is_settled : Call → Bool
is_settled call = elim call.business_status [ unsettled ↦ false | _ ↦ true ]
