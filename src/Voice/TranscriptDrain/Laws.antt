-- ===== src/Voice/TranscriptDrain/Laws.antt =====
-- transcriptDrain.js: sequences of the drain's events, and when the transcript is handed over.
use communications_service.Prelude.{
  ℕ, suc, ◌+◌, Bool, true, false, ◌||◌, ◌≡◌, refl, Option, none, some, List, [], ◌∷◌, ◌++◌, ◌⊎◌,
  arith, inl, inr,
}
use communications_service.Voice.TranscriptDrain.{
  Drain, init, Event, media_closes, pending_settles, provider_closes, timer_fires, Effect, finalize,
  schedule, cancel, step, run,
}

abbrev pub finals : List Effect → ℕ
finals [] = 0
finals (finalize ∷ es) = suc (finals es)
finals (schedule t ∷ es) = finals es
finals (cancel t ∷ es) = finals es

finals-append : (xs ys : List Effect) → finals (xs ++ ys) ≡ finals xs + finals ys
finals-append [] ys = omega arith
finals-append (finalize ∷ xs) ys = omega (arith, finals-append xs ys)
finals-append (schedule t ∷ xs) ys = finals-append xs ys
finals-append (cancel t ∷ xs) ys = finals-append xs ys

abbrev pub count : Bool → ℕ
count true = 1
count false = 0

-- A closed call is finalized or has a timer that will do it; a timer runs for a closed call only.
abbrev is_some : Option ℕ → Bool
is_some none = false
is_some (some t) = true

abbrev IsClosing : Drain → Type 0
IsClosing d = (d.finalized || is_some d.timer) ≡ true

record IsSound (d : Drain) : Type 0 where
  closing : d.media_closed ≡ true → IsClosing d
  closed_first : d.finalized ≡ true → d.media_closed ≡ true
  unarmed : d.media_closed ≡ false → d.timer ≡ none

init-IsSound : IsSound init
init-IsSound = record { closing = λ h. cc; closed_first = λ h. cc; unarmed = λ h. refl }

step-finals :
    (d : Drain) (e : Event) → finals (step d e).1 + count d.finalized ≡ count (step d e).0.finalized
unfolding step
step-finals d (media_closes w f) = ground arith
step-finals d (pending_settles p) = ground arith
step-finals d (provider_closes p) = ground arith
step-finals d (timer_fires t) = ground arith

step-IsSound : (d : Drain) (e : Event) → IsSound d → IsSound (step d e).0
unfolding step
step-IsSound d (media_closes w f) s = ground arith
step-IsSound d (pending_settles p) s = ground arith
step-IsSound d (provider_closes p) s = ground arith
step-IsSound d (timer_fires t) s = ground arith

run-finals :
    (d : Drain) (es : List Event)
    → finals (run d es).1 + count d.finalized ≡ count (run d es).0.finalized
unfolding run
run-finals d [] = omega arith
run-finals d (e ∷ es) = omega (
  arith,
  step-finals d e,
  run-finals (step d e).0 es,
  finals-append (step d e).1 (run (step d e).0 es).1,
)

run-IsSound : (d : Drain) (es : List Event) → IsSound d → IsSound (run d es).0
unfolding run
run-IsSound d [] s = s
run-IsSound d (e ∷ es) s = run-IsSound (step d e).0 es (step-IsSound d e s)

-- In any order of events the transcript is handed over exactly once if the call is finalized at
-- the end, and not at all otherwise.
pub run-finalizes_once :
    (es : List Event) → finals (run init es).1 ≡ count (run init es).0.finalized
run-finalizes_once es = omega (arith, run-finals init es)

closes_by :
    (d : Drain)
    → IsSound d
    → d.media_closed ≡ true
    → (d.finalized ≡ true)
      ⊎ ((t : ℕ) × (d.timer ≡ some t) × ((step d (timer_fires t)).0.finalized ≡ true))
unfolding step
closes_by d s h = go d.timer refl d.finalized refl
  where
    go :
        (o : Option ℕ)
        → d.timer ≡ o
        → (b : Bool) → d.finalized ≡ b
        → (d.finalized ≡ true)
          ⊎ ((t : ℕ) × (d.timer ≡ some t) × ((step d (timer_fires t)).0.finalized ≡ true))
    go o e true f = inl f
    go none e false f = absurd (ground (arith, s.closing h))
    go (some t) e false f = inr (t, e, ground arith)

-- Whatever happened before, once the media stream has closed the transcript is finalized, or a
-- timer is scheduled whose firing finalizes it.
pub run-closes :
    (es : List Event)
    → (run init es).0.media_closed ≡ true
    → ((run init es).0.finalized ≡ true)
      ⊎ ((t : ℕ) × ((run init es).0.timer ≡ some t)
          × ((step (run init es).0 (timer_fires t)).0.finalized ≡ true))
run-closes es h = closes_by (run init es).0 (run-IsSound init es init-IsSound) h

-- The transcript is never finalized while the media stream is open.
pub run-closed_first :
    (es : List Event) → (run init es).0.finalized ≡ true → (run init es).0.media_closed ≡ true
run-closed_first es h = (run-IsSound init es init-IsSound).closed_first h
