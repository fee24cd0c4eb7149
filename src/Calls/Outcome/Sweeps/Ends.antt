-- ===== src/Calls/Outcome/Sweeps/Ends.antt =====
-- callOutcome.js, `failJob`: the last attempt of a job.
use communications_service.Prelude.{
  ℕ, String, Bool, false, not, ◌&&◌, Option, none, some, ◌≡◌, ◌⊎◌, ◌≤◌, inl, inr, refl, sym, arith,
  thrown, returned, Outcome-both, Option-both, if-both, subst, leb,
}
use communications_service.Delivery.Enqueue.{Settings, enqueue_event, callback_for_thread}
use communications_service.Prelude.Text.{truthy}
use communications_service.Calls.Outcome.{CallOutcome, Pattern}
use communications_service.Calls.Outcome.Jobs.{
  stored_outcome, some_segments, settled, terminal_request, Call, Job, Status, World, Persisting,
  Step, Sweep, is_settled, next, persist_call_outcome, tell, announce, respond_to_ask, mark,
  finish_job, defer_for_transcript,
}
use communications_service.Calls.Outcome.Sweeps.{
  max_attempts, decided, classify_call_outcome, may_come, silent_outcome, failed_safely,
  persist_and_finish, by_transcript, process_call, process_job, give_up, fail_last, fail_job,
  run_job,
}

-- The job has left the attempts: it is done, given up, or starts anew when its transcript may have come.
abbrev pub IsOver : Job → Type 0
IsOver job =
    (job.leased ≡ false)
    × ((job.status ≡ Status.done)
        ⊎ (job.status ≡ Status.given_up)
        ⊎ ((job.status ≡ Status.pending) × (job.attempts ≡ 0)))

module _ (settings : Settings) where
  respond-job :
      (f : Persisting) (c : Call) (o : CallOutcome) (id : String) (d : Option String)
      (event : Option ℕ) (w : World)
      → (respond_to_ask settings f c o id d event w).0.job ≡ w.job
  unfolding respond_to_ask mark
  respond-job f c o id d event w = ground arith

  announce-job :
      (f : Persisting) (c : Call) (o : CallOutcome) (id : String) (d : Option String) (w : World)
      → (announce settings f c o id d w).0.job ≡ w.job
  unfolding announce
  announce-job f c o id d w =
      Outcome-both (λ (s : Step). s.0.job ≡ w.job)
        (enqueue_event settings f.terminal (terminal_request c o id d) w.events).1 _ _ (λ e x. refl)
        (λ event x. respond-job f c o id d event _)

  tell-job :
      (f : Persisting) (c : Call) (o : CallOutcome) (w : World)
      → (tell settings f c o w).0.job ≡ w.job
  unfolding tell
  tell-job f c o w =
      Option-both (λ (s : Step). s.0.job ≡ w.job) c.communication_id _ _ (λ n. refl)
        (λ id x.
          if-both (λ (s : Step). s.0.job ≡ w.job) (not (truthy (some id))) _ _ (λ t. refl)
            (λ t.
              Outcome-both (λ (s : Step). s.0.job ≡ w.job)
                (callback_for_thread settings f.callback_fails f.callback c.tenant_id c.thread_id) _
                _ (λ m y. refl) (λ d y. announce-job f c o id d w)))

  persist-job :
      (f : Persisting) (c : Call) (o : CallOutcome) (w : World)
      → (persist_call_outcome settings f c o w).0.job ≡ w.job
  unfolding persist_call_outcome
  persist-job f c o w =
      Option-both (λ (s : Step). s.0.job ≡ w.job) w.call _ _ (λ n. refl)
        (λ row x.
          if-both (λ (s : Step). s.0.job ≡ w.job) f.update_fails _ _ (λ t. refl)
            (λ t. tell-job f (settled o row) o _))

  -- A step that returns has ended the job, one that throws has left it.
  abbrev Leaves : Job → Step → Type 0
  Leaves job (w, thrown e) = w.job ≡ job
  Leaves job (w, returned u) = IsOver w.job

  finish-Leaves :
      (fails : Bool) (error : Option String) (w : World) → Leaves w.job (finish_job fails error w)
  unfolding finish_job
  finish-Leaves fails error w = if-both (Leaves w.job) fails _ _ (λ t. refl) (λ t. (refl, inl refl))

  next-Leaves :
      (job : Job) (s : Step) (fails : Bool)
      → s.0.job ≡ job
      → Leaves job (next s (finish_job fails none))
  unfolding next finish_job
  next-Leaves job (w, thrown e) fails h = h
  next-Leaves job (w, returned u) fails h =
      if-both (Leaves job) fails _ _ (λ t. h) (λ t. (refl, inl refl))

module _ (lower : String → String) (test : Pattern → String → Bool)
    (match : Pattern → String → Option String) (settings : Settings) (wait : ℕ) where
  persist_and_finish-Leaves :
      (s : Sweep) (c : Call) (o : CallOutcome) (w : World)
      → Leaves settings w.job (persist_and_finish lower test match settings wait s c o w)
  unfolding persist_and_finish
  persist_and_finish-Leaves s c o w =
      next-Leaves settings w.job _ s.finish_fails (persist-job settings s.persisting c o w)

  process_call-Leaves :
      (s : Sweep) (c : Call) (w : World)
      → Leaves settings w.job (process_call lower test match settings wait s c w)
  unfolding process_call by_transcript defer_for_transcript
  process_call-Leaves s c w =
      if-both (Leaves settings w.job) (is_settled c && c.emitted) _ _
        (λ t. finish-Leaves settings s.finish_fails none w)
        (λ t.
          if-both (Leaves settings w.job) (is_settled c) _ _
            (λ k. persist_and_finish-Leaves s c (stored_outcome c) w)
            (λ k.
              Option-both (Leaves settings w.job) (decided lower test match settings wait c) _ _
                (λ n.
                  if-both (Leaves settings w.job) (some_segments c.segments) _ _
                    (λ t.
                      Outcome-both (Leaves settings w.job)
                        (classify_call_outcome lower test match settings wait s c) _ _ (λ m x. refl)
                        (λ o x. persist_and_finish-Leaves s c o w))
                    (λ t.
                      if-both (Leaves settings w.job)
                        (may_come lower test match settings wait s.now c) _ _
                        (λ k.
                          if-both (Leaves settings w.job) s.finish_fails _ _ (λ f. refl)
                            (λ f. (refl, inr (inr (refl, refl)))))
                        (λ k. persist_and_finish-Leaves s c silent_outcome w)))
                (λ o x. persist_and_finish-Leaves s c o w)))

  process_job-Leaves :
      (s : Sweep) (w : World)
      → Leaves settings w.job (process_job lower test match settings wait s w)
  unfolding process_job
  process_job-Leaves s w =
      if-both (Leaves settings w.job) s.lookup_fails _ _ (λ t. refl)
        (λ t.
          Option-both (Leaves settings w.job) w.call _ _
            (λ n. finish-Leaves settings s.finish_fails _ w) (λ row x. process_call-Leaves s row w))

  -- The last updates of a job succeed.
  module _ (s : Sweep) (finishes : s.last_finish_fails ≡ false)
      (updates : s.update_fails ≡ false) where
    abbrev Over : Step → Type 0
    Over step = IsOver step.0.job

    finish-Over :
        (error : Option String) (w : World) → Over (finish_job s.last_finish_fails error w)
    unfolding finish_job
    finish-Over error w = if-both Over s.last_finish_fails _ _ (λ t. cc) (λ t. (refl, inl refl))

    give_up-Over :
        (call : Call) (error : String) (w : World)
        → Over (give_up lower test match settings wait s call error w)
    unfolding give_up
    give_up-Over call error w =
        if-both Over call.emitted _ _ (λ t. finish-Over none w)
          (λ t. if-both Over s.update_fails _ _ (λ k. cc) (λ k. (refl, inr (inl refl))))

    fail_last-Over :
        (call : Call) (error : String) (w : World)
        → Over (fail_last lower test match settings wait s call error w)
    unfolding fail_last
    fail_last-Over call error w =
        if-both Over (is_settled call) _ _ (λ t. give_up-Over call error w)
          (λ t.
            let persisted =
              persist_call_outcome settings s.last_persisting call (failed_safely error) w in
            Outcome-both Over persisted.1 _ _ (λ m x. give_up-Over call m persisted.0)
              (λ u x. finish-Over none persisted.0))

    fail_job-Over :
        (error : String) (w : World)
        → max_attempts ≤ w.job.attempts
        → Over (fail_job lower test match settings wait s error w)
    unfolding fail_job
    fail_job-Over error w last =
        if-both Over (leb max_attempts w.job.attempts) _ _
          (λ t.
            if-both Over s.second_lookup_fails _ _ (λ k. finish-Over _ w)
              (λ k.
                Option-both Over w.call _ _ (λ n. finish-Over _ w)
                  (λ row x. fail_last-Over row error w)))
          (λ t. absurd (ground arith))

    Leaves-thrown :
        (job : Job) (step : Step) (e : String)
        → Leaves settings job step
        → step.1 ≡ thrown e
        → step.0.job ≡ job
    Leaves-thrown job (w, thrown e) m h x = h
    Leaves-thrown job (w, returned u) m h x = cc

    Leaves-returned :
        (job : Job) (step : Step) (u : Unit {0})
        → Leaves settings job step
        → step.1 ≡ returned u
        → IsOver step.0.job
    Leaves-returned job (w, thrown e) v h x = cc
    Leaves-returned job (w, returned u) v h x = h

    -- The fourth attempt, and every later one, is the last if the updates that end or give up the
    -- job in it succeed: whatever else fails in it, the job is released, and is done, given up, or to
    -- be started anew because the transcript may still come.
    pub run_job-IsOver :
        (w : World)
        → max_attempts ≤ w.job.attempts
        → IsOver (run_job lower test match settings wait s w).job
    unfolding run_job
    run_job-IsOver w last =
        let step = process_job lower test match settings wait s w in
        let leaves = process_job-Leaves s w in
        Outcome-both (λ (v : World). IsOver v.job) step.1 _ _
          (λ e x. fail_job-Over e step.0 (
            subst (λ j. max_attempts ≤ j.attempts) (sym (Leaves-thrown w.job step e leaves x))
              last))
          (λ u x. Leaves-returned w.job step u leaves x)
