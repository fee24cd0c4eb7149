-- ===== src/Delivery/Readiness.antt =====
-- outboundReadiness.js: assertOutboundReady, and how dispatchTwilio reads an error of Twilio's client.
-- What the probes answer is an argument; `before` and `refreshed` are what `health.read()` gives
-- before and after the refresh.
pub mod Laws
use communications_service.Prelude.{
  ℕ, ltb, leb, eqb, String, Bool, true, false, not, ◌&&◌, ◌||◌, Option, none, some, List, [], ◌∷◌,
  length, any, all, keep, Outcome, ensure, ◌>>◌, if◌then◌else◌,
}
use communications_service.Prelude.Text.{same, same?, truthy, includes}

pub record Twilio : Type 0 where
  pub account_status : String
  pub balance_state : String

pub record Check : Type 0 where
  pub roles : List String
  pub usable : Bool

pub record Snapshot : Type 0 where
  pub stale : Bool
  pub checked : Bool
  pub models : List Check

pub record Health : Type 0 where
  pub twilio : Twilio
  pub before : Snapshot
  pub refreshed : Snapshot
  pub probe : String → Bool

pub data NotReady : Type 0 where
  account_503 models_503 selected_model_503 : NotReady

-- DEFAULT_CONFIG.model
abbrev pub default_model : String
default_model = "gpt-realtime-2.1"

unfoldable pub account_ready : Twilio → Bool
account_ready t = same t.account_status "active" && includes ("ok" ∷ "low" ∷ []) t.balance_state

unfoldable pub read_models : Health → Snapshot
read_models h = if h.before.stale || not h.before.checked then h.refreshed else h.before

-- `check.roles.some(role => ['voice', 'live_transcription'].includes(role))`
unfoldable pub is_required : Check → Bool
is_required c = any (includes ("voice" ∷ "live_transcription" ∷ [])) c.roles

unfoldable pub models_ready : Snapshot → Bool
unfolding is_required
models_ready s =
    let required = keep is_required s.models in
    not (s.stale || ltb (length required) 2 || any (λ c. not c.usable) required)

unfoldable pub selected_ready : Health → (model : Option String) → Bool
selected_ready h none = true
selected_ready h (some model) =
    if truthy (some model) && not (same model default_model) then h.probe model else true

-- `assertOutboundReady`: `voice` says that the type is 'voice', `model` is `request.overrides?.model`.
unfoldable pub assert_outbound_ready :
    (voice : Bool) → (model : Option String) → Health → Outcome NotReady (Unit {0})
unfolding account_ready read_models models_ready selected_ready
assert_outbound_ready voice model h = do
  ensure (account_ready h.twilio) account_503
  ensure (not voice || models_ready (read_models h)) models_503
  ensure (not voice || selected_ready h model) selected_model_503

-- An error of the client: `status` and `code` where they are integers.
pub record ClientError : Type 0 where
  pub status : Option ℕ
  pub code : Option ℕ

-- Twilio has refused for certain, so nothing was sent.
unfoldable pub is_rejection : ClientError → Bool
is_rejection e = elim e.status [
  | none ↦ false
  | some s ↦
      leb 400 s && ltb s 500 && not (eqb s 408) && elim e.code [ none ↦ false | some c ↦ true ]
]
