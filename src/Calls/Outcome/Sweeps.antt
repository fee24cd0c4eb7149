-- ===== src/Calls/Outcome/Sweeps.antt =====
-- callOutcome.js: `processJob`, `failJob` and `sweepCallOutcomesOnce`, with the claim of
-- claim_call_outcome_job (migrations/025). `wait` is CALL_OUTCOME_TRANSCRIPT_WAIT_MS, or its default.
pub mod Consistent
pub mod Ends
use Prim.Native.String.{◌++◌ as ◌<>◌}
use communications_service.Prelude.{
  ℕ, ◌+◌, ◌-◌, ◌*◌, ◌^◌, min, max, String, Bool, true, false, not, ◌&&◌, ◌||◌, Option, none, some,
  List, [], ◌∷◌, ltb, leb, if◌then◌else◌, Outcome, thrown, returned,
}
use communications_service.Prelude.Text.{same}
use communications_service.Prelude.Units.{prefix}
use communications_service.Delivery.Enqueue.{Settings}
use communications_service.Calls.Outcome.{
  no_meaningful_response, unclassified, CallOutcome, Pattern, result, deterministic_call_outcome,
}
use communications_service.Calls.Outcome.Jobs.{
  Call, Status, Job, World, Persisting, Step, Sweep, Classified, next, persist_call_outcome,
  some_segments, finish_job, defer_for_transcript, stored_outcome, is_settled,
}

abbrev pub max_attempts : ℕ
max_attempts = 4

unfoldable pub silent_outcome : CallOutcome
silent_outcome =
    result no_meaningful_response (some "transcript_timeout") 100
      (some "No meaningful human transcript was captured before the outcome deadline") none

unfoldable pub failed_safely : String → CallOutcome
failed_safely error =
    result unclassified (some "classifier_error") 0
      (some (◌<>◌ "Call outcome classification failed safely: " (prefix 300 error))) none

unfoldable pub classified_outcome : Classified → CallOutcome
classified_outcome c =
    result c.disposition (some "transcript_model") c.confidence c.reason c.evidence

lower_status : (String → String) → Option String → String
lower_status lower none = lower ""
lower_status lower (some s) = lower s

module _ (lower : String → String) (test : Pattern → String → Bool)
    (match : Pattern → String → Option String) (settings : Settings) (wait : ℕ) where
  unfoldable pub decided : Call → Option CallOutcome
  decided call =
      deterministic_call_outcome lower test match call.status call.answered_by call.segments

  -- `classifyCallOutcome`, after the rules have decided nothing, and what is stored without it.
  unfoldable pub classify_call_outcome : Sweep → Call → Outcome String CallOutcome
  unfolding lower_status classified_outcome
  classify_call_outcome s call =
      if same (lower_status lower call.status) "completed"
      then elim s.classified [ thrown e ↦ thrown e | returned c ↦ returned (classified_outcome c) ]
      else returned (
          result unclassified (some "classifier") 0
            (some "The call outcome could not be classified safely") none)

  unfoldable pub persist_and_finish : Sweep → Call → CallOutcome → World → Step
  unfolding next
  persist_and_finish s call outcome w =
      next (persist_call_outcome settings s.persisting call outcome w)
        (finish_job s.finish_fails none)

  -- The transcript of a call that ended lately may still come.
  unfoldable pub may_come : (now : ℕ) → Call → Bool
  may_come now call = elim call.ended_at [
    | none ↦ false
    | some ended ↦ ltb now (ended + max 5000 wait)
  ]

  unfoldable pub by_transcript : Sweep → Call → World → Step
  unfolding classify_call_outcome persist_and_finish may_come silent_outcome
  by_transcript s call w =
      if some_segments call.segments
      then elim (classify_call_outcome s call) [
        | thrown e ↦ (w, thrown e)
        | returned outcome ↦ persist_and_finish s call outcome w
      ]
      else if may_come s.now call
      then defer_for_transcript s.finish_fails s.now w
      else persist_and_finish s call silent_outcome w

  unfoldable pub process_call : Sweep → Call → World → Step
  unfolding by_transcript decided persist_and_finish
  process_call s call w =
      if is_settled call && call.emitted
      then finish_job s.finish_fails none w
      else if is_settled call
      then persist_and_finish s call (stored_outcome call) w
      else elim (decided call) [
        | some outcome ↦ persist_and_finish s call outcome w
        | none ↦ by_transcript s call w
      ]

  -- `processJob`
  unfoldable pub process_job : Sweep → World → Step
  unfolding process_call
  process_job s w = if s.lookup_fails then (w, thrown "Call outcome lookup") else elim w.call [
    | none ↦ finish_job s.finish_fails (some "call_not_found") w
    | some call ↦ process_call s call w
  ]

  -- The job is given up, or ended where the events are out; `call` was read before.
  unfoldable pub give_up : Sweep → Call → (error : String) → World → Step
  give_up s call error w =
      if call.emitted
      then finish_job s.last_finish_fails none w
      else if s.update_fails
      then (w, thrown "Call outcome failure persistence")
      else (
        record w {
          job = record w.job {
            status = Status.given_up;
            last_error = some (prefix 1000 error);
            leased = false;
          };
        },
        returned tt,
      )

  -- `return finishJob(db, job)` is not awaited inside the try, so only a failing write of the outcome
  -- is caught: where finishing fails, the job is left as it is.
  unfoldable pub fail_last : Sweep → Call → (error : String) → World → Step
  unfolding give_up failed_safely
  fail_last s call error w =
      if is_settled call
      then give_up s call error w
      else let persisted =
          persist_call_outcome settings s.last_persisting call (failed_safely error) w in
        elim persisted.1 [
          | returned u ↦ finish_job s.last_finish_fails none persisted.0
          | thrown e ↦ give_up s call e persisted.0
        ]

  unfoldable pub delay : ℕ → ℕ
  delay attempts = min 60000 (5000 * (2 ^ (attempts - 1)))

  -- `failJob`
  unfoldable pub fail_job : Sweep → (error : String) → World → Step
  unfolding fail_last delay
  fail_job s error w =
      if leb max_attempts w.job.attempts
      then (if s.second_lookup_fails
          then finish_job s.last_finish_fails (some "call_not_found") w
          else elim w.call [
            | none ↦ finish_job s.last_finish_fails (some "call_not_found") w
            | some call ↦ fail_last s call error w
          ])
      else if s.update_fails
      then (w, returned tt)
      else (
        record w {
          job = record w.job {
            status = Status.pending;
            last_error = some (prefix 1000 error);
            next_attempt_at = s.now + delay w.job.attempts;
            leased = false;
          };
        },
        returned tt,
      )

  unfoldable pub is_due : Sweep → Job → Bool
  is_due s job =
      (elim job.status [ Status.pending ↦ true | Status.processing ↦ true | _ ↦ false ])
      && leb job.next_attempt_at s.now
      && (not job.leased || s.lease_expired)

  unfoldable pub claimed : Job → Job
  claimed job = record job {
    status = Status.processing;
    attempts = job.attempts + 1;
    leased = true;
  }

  -- The job after its claim.
  unfoldable pub run_job : Sweep → World → World
  unfolding process_job fail_job
  run_job s w =
      let step = process_job s w in
      elim step.1 [ returned u ↦ step.0 | thrown e ↦ (fail_job s e step.0).0 ]

  -- `sweepCallOutcomesOnce`
  unfoldable pub sweep_once : Sweep → World → World
  unfolding run_job is_due claimed
  sweep_once s w =
      if s.claim_fails || not (is_due s w.job)
      then w
      else let taken = record w { job = claimed w.job } in
        if s.has_tenant then run_job s taken else taken

  -- The sweeps of the timer, one after another.
  unfoldable pub sweep : List Sweep → World → World
  unfolding sweep_once
  sweep [] w = w
  sweep (s ∷ ss) w = sweep ss (sweep_once s w)
