-- ===== src/Voice/VoiceTurns/State.antt =====
-- voiceTurns.js: the variables of the closure, and the operations that touch nothing else.
use communications_service.Prelude.{
  ℕ, String, Bool, true, false, not, ◌||◌, Option, none, some, List, [], ◌∷◌, ◌++◌, if◌then◌else◌,
  eqb, ltb, length,
}
use communications_service.Prelude.Text.{same, filled}
use communications_service.Voice.VoiceTurns.Messages.{Effect, send_response}

pub record Farewell : Type 0 where
  pub token : String
  pub reason : String

pub record Turns : Type 0 where
  pub seen : List String
  pub farewell : Option Farewell
  pub active : List (String × ℕ)
  pub caller_speaking : Bool
  pub awaiting_caller_response : Bool
  pub pending_continuation : Bool
  pub closing : Bool

-- `Map.set`, `Map.get` and `Map.delete`, in insertion order.
unfoldable pub set_active : String → ℕ → List (String × ℕ) → List (String × ℕ)
set_active k v [] = (k, v) ∷ []
set_active k v ((j, w) ∷ m) = if same j k then (j, v) ∷ m else (j, w) ∷ set_active k v m

unfoldable pub is_epoch : String → ℕ → List (String × ℕ) → Bool
is_epoch k g [] = false
is_epoch k g ((j, w) ∷ m) = if same j k then eqb w g else is_epoch k g m

unfoldable pub drop_active : String → List (String × ℕ) → List (String × ℕ)
drop_active k [] = []
drop_active k ((j, w) ∷ m) = if same j k then m else (j, w) ∷ drop_active k m

unfoldable pub is_empty {ℓ} : {A : Type ℓ} → List A → Bool
is_empty [] = true
is_empty (x ∷ xs) = false

-- `resumePending`
unfoldable pub resume : Turns → Turns × List Effect
unfolding is_empty
resume t =
    if not t.pending_continuation
      || t.caller_speaking
      || t.awaiting_caller_response
      || not (is_empty t.active)
      || t.closing
    then (t, [])
    else (record t { pending_continuation = false }, send_response ∷ [])

unfoldable pub interrupt : Turns → Turns
interrupt t = record t {
  farewell = none;
  closing = false;
  caller_speaking = true;
  awaiting_caller_response = true;
}

unfoldable pub speech_stopped : Turns → Turns × List Effect
speech_stopped t = resume (record t { caller_speaking = false })

unfoldable pub response_created : ℕ → Option String → Turns → Turns
unfolding set_active
response_created gen none t = t
response_created gen (some id) t =
    if filled id then record t { active = set_active id gen t.active } else t

-- A set of at most a thousand: the oldest member goes.
unfoldable pub drop_oldest : List String → List String
drop_oldest [] = []
drop_oldest (x ∷ xs) = if ltb 1000 (length (x ∷ xs)) then xs else x ∷ xs

-- The bookkeeping at the head of `done`.
unfoldable pub note_done : ℕ → String → Turns → Turns
unfolding drop_oldest drop_active is_epoch
note_done gen id t = record t {
  seen = drop_oldest (t.seen ++ id ∷ []);
  active = drop_active id t.active;
  awaiting_caller_response = if is_epoch id gen t.active then false else t.awaiting_caller_response;
}
