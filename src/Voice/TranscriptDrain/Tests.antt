-- ===== src/Voice/TranscriptDrain/Tests.antt =====
-- The drain on two calls: one whose transcript is late, and one without anything pending.
use communications_service.Prelude.{ℕ, true, false, ◌≡◌, refl, ◌⊎◌, some, List, [], ◌∷◌}
use communications_service.Voice.TranscriptDrain.{
  init, Event, media_closes, pending_settles, provider_closes, timer_fires, finalize, schedule,
  cancel, step, run,
}
use communications_service.Voice.TranscriptDrain.Laws.{
  finals, count, run-finalizes_once, run-closes, run-closed_first,
}

abbrev late : List Event
late = pending_settles true ∷ media_closes true 7 ∷ pending_settles true ∷ []

abbrev quiet : List Event
quiet = media_closes false 7 ∷ provider_closes true ∷ timer_fires 7 ∷ []

late_effects : (run init late).1 ≡ schedule 7 ∷ []
unfolding run step
late_effects = refl

drained_effects :
    (run init (media_closes true 7 ∷ provider_closes true ∷ [])).1
    ≡ schedule 7 ∷ cancel 7 ∷ finalize ∷ []
unfolding run step
drained_effects = refl

run-finalizes_once_example : finals (run init quiet).1 ≡ count (run init quiet).0.finalized
run-finalizes_once_example = run-finalizes_once quiet

run-closes_example :
    ((run init late).0.finalized ≡ true)
    ⊎ ((t : ℕ) × ((run init late).0.timer ≡ some t)
        × ((step (run init late).0 (timer_fires t)).0.finalized ≡ true))
unfolding run step
run-closes_example = run-closes late refl

run-closed_first_example : (run init quiet).0.media_closed ≡ true
unfolding run step
run-closed_first_example = run-closed_first quiet refl
