-- ===== src/Voice/TranscriptDrain.antt =====
-- transcriptDrain.js: when the transcript of a finished call is closed. The four variables of the
-- closure are a record; the callbacks `hasPending` and `shouldWait` are the answers that they give
-- when an operation asks; `schedule` yields a handle, and a scheduled callback may fire at any
-- later time until it is cancelled.
pub mod Laws
pub mod Tests
use communications_service.Prelude.{
  ℕ, suc, ◌+◌, Bool, true, false, not, ◌&&◌, ◌||◌, Option, none, some, List, [], ◌∷◌, ◌++◌,
  if◌then◌else◌, eqb, ◌≡◌,
}

pub record Drain : Type 0 where
  pub media_closed : Bool
  pub provider_closed : Bool
  pub finalized : Bool
  pub timer : Option ℕ

pub data Effect : Type 0 where
  finalize : Effect
  schedule : ℕ → Effect
  cancel : ℕ → Effect

abbrev pub init : Drain
init = record { media_closed = false; provider_closed = false; finalized = false; timer = none }

-- A handle is truthy, as a Node timer is.
abbrev cancelled : Option ℕ → List Effect
cancelled none = []
cancelled (some t) = cancel t ∷ []

pub finish : Drain → Drain × List Effect
finish d =
    if d.finalized
    then (d, [])
    else (record d { finalized = true; timer = none }, cancelled d.timer ++ finalize ∷ [])

pub settle : Bool → Drain → Drain × List Effect
unfolding finish
settle has_pending d =
    if d.media_closed && (not has_pending || d.provider_closed) then finish d else (d, [])

-- `fresh` is the handle that `schedule` returns.
pub close_media : Bool → ℕ → Drain → Drain × List Effect
unfolding finish
close_media should_wait fresh d =
    if d.media_closed
    then (d, [])
    else let e : Drain = record d { media_closed = true } in
      if not should_wait || e.provider_closed
      then finish e
      else (record e { timer = some fresh }, schedule fresh ∷ [])

pub close_provider : Bool → Drain → Drain × List Effect
unfolding settle
close_provider has_pending d = settle has_pending (record d { provider_closed = true })

pub data Event : Type 0 where
  media_closes : (should_wait : Bool) → (fresh : ℕ) → Event
  pending_settles : (has_pending : Bool) → Event
  provider_closes : (has_pending : Bool) → Event
  timer_fires : ℕ → Event

-- A timer fires only while it is the one that is scheduled.
abbrev is_armed : ℕ → Option ℕ → Bool
is_armed t none = false
is_armed t (some u) = eqb t u

pub step : Drain → Event → Drain × List Effect
unfolding close_media settle close_provider finish
step d (media_closes w f) = close_media w f d
step d (pending_settles p) = settle p d
step d (provider_closes p) = close_provider p d
step d (timer_fires t) = if is_armed t d.timer then finish d else (d, [])

-- A whole call: the events in the order in which they happen.
pub run : Drain → List Event → Drain × List Effect
run d [] = (d, [])
run d (e ∷ es) = let r = step d e in let s = run r.0 es in (s.0, r.1 ++ s.1)
