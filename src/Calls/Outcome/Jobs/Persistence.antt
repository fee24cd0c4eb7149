-- ===== src/Calls/Outcome/Jobs/Persistence.antt =====
-- callOutcome.js, `persistCallOutcome`, step by step.
use communications_service.Prelude.{
  ℕ, String, true, not, Option, some, List, ◌≡◌, refl, arith, Outcome-both, Option-both, if-both,
  subst,
}
use communications_service.Prelude.Text.{truthy}
use communications_service.Delivery.Enqueue.{
  Settings, Event, stored_event, enqueue_event, callback_for_thread,
}
use communications_service.Delivery.Enqueue.Laws.{enqueue_event-All}
use communications_service.Calls.Outcome.Jobs.Agreement.{
  Told?, Agree, IsMade, Fits, Says, Says-settled, settled-Agree, marked-Agree, row_unique, Ends,
  ends,
}
use communications_service.Calls.Outcome.{CallOutcome}
use communications_service.Calls.Outcome.Jobs.{
  Call, Payload, World, Persisting, settled, marked, mark, respond_to_ask, announce, tell,
  persist_call_outcome, asks, ask_request, terminal_request,
}

module _ (settings : Settings) where
  mark-Ends :
      (before : Option Call) (f : Persisting) (c : Call) (o : CallOutcome) (id : Option ℕ)
      (w : World)
      → w.call ≡ some c
      → Agree before c w.events
      → Ends before (mark f c o id w)
  unfolding mark
  mark-Ends before f c o id w e agree =
      if-both (Ends before) f.marker_fails _ _ (λ t. ends before _ c e agree)
        (λ t. ends before _ (marked c o id) refl (marked-Agree before c o id w.events agree))

  asked-Agree :
      (before : Option Call) (f : Persisting) (c : Call) (o : CallOutcome) (id : String)
      (destination : Option String) (events : List (Event Payload))
      → Agree before c events
      → Says c o
      → asks c o ≡ true
      → Agree before c (enqueue_event settings f.ask (ask_request c o id destination) events).0
  unfolding asks ask_request stored_event
  asked-Agree before f c o id destination events agree says asked = record {
    sound = agree.sound;
    told =
        enqueue_event-All (Told? c) settings f.ask (ask_request c o id destination) events
          (λ tenant target. ground arith) agree.told;
    kept = agree.kept;
  }

  terminal-Agree :
      (before : Option Call) (f : Persisting) (c : Call) (o : CallOutcome) (id : String)
      (destination : Option String) (events : List (Event Payload))
      → Agree before c events
      → Says c o
      → Agree before c
          (enqueue_event settings f.terminal (terminal_request c o id destination) events).0
  unfolding terminal_request stored_event
  terminal-Agree before f c o id destination events agree says = record {
    sound = agree.sound;
    told =
        enqueue_event-All (Told? c) settings f.terminal (terminal_request c o id destination) events
          (λ tenant target. ground arith) agree.told;
    kept = agree.kept;
  }

  respond_to_ask-Ends :
      (before : Option Call) (f : Persisting) (c : Call) (o : CallOutcome) (id : String)
      (destination : Option String) (event : Option ℕ) (w : World)
      → w.call ≡ some c
      → Agree before c w.events
      → Says c o
      → Ends before (respond_to_ask settings f c o id destination event w)
  unfolding respond_to_ask
  respond_to_ask-Ends before f c o id destination event w e agree says =
      if-both (Ends before) (asks c o) _ _
        (λ t.
          let asked = asked-Agree before f c o id destination w.events agree says t in
          Outcome-both (Ends before)
            (enqueue_event settings f.ask (ask_request c o id destination) w.events).1 _ _
            (λ m x. ends before _ c e asked) (λ a x. mark-Ends before f c o event _ e asked))
        (λ n. mark-Ends before f c o event w e agree)

  announce-Ends :
      (before : Option Call) (f : Persisting) (c : Call) (o : CallOutcome) (id : String)
      (destination : Option String) (w : World)
      → w.call ≡ some c
      → Agree before c w.events
      → Says c o
      → Ends before (announce settings f c o id destination w)
  unfolding announce
  announce-Ends before f c o id destination w e agree says =
      let sent = terminal-Agree before f c o id destination w.events agree says in
      Outcome-both (Ends before)
        (enqueue_event settings f.terminal (terminal_request c o id destination) w.events).1 _ _
        (λ m x. ends before _ c e sent)
        (λ event x. respond_to_ask-Ends before f c o id destination event _ e sent says)

  tell-Ends :
      (before : Option Call) (f : Persisting) (c : Call) (o : CallOutcome) (w : World)
      → w.call ≡ some c
      → Agree before c w.events
      → Says c o
      → Ends before (tell settings f c o w)
  unfolding tell
  tell-Ends before f c o w e agree says =
      Option-both (Ends before) c.communication_id _ _ (λ n. ends before _ c e agree)
        (λ id x.
          if-both (Ends before) (not (truthy (some id))) _ _ (λ t. ends before _ c e agree)
            (λ t.
              Outcome-both (Ends before)
                (callback_for_thread settings f.callback_fails f.callback c.tenant_id c.thread_id) _
                _ (λ m y. ends before _ c e agree)
                (λ destination y. announce-Ends before f c o id destination w e agree says)))

  pub persist-Ends :
      (before : Option Call) (f : Persisting) (c : Call) (o : CallOutcome) (w : World)
      → w.call ≡ some c
      → Agree before c w.events
      → IsMade o
      → Fits c o
      → Ends before (persist_call_outcome settings f c o w)
  unfolding persist_call_outcome
  persist-Ends before f c o w e agree made fits =
      Option-both (Ends before) w.call _ _ (λ n. ends before _ c e agree)
        (λ row x.
          if-both (Ends before) f.update_fails _ _ (λ t. ends before _ c e agree)
            (λ t.
              let same =
                subst (λ r. Agree before (settled o r) w.events) (row_unique w c row e x)
                  (settled-Agree before c o w.events agree made fits) in
              tell-Ends before f (settled o row) o _ refl same (Says-settled row o)))
