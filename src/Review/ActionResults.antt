-- ===== src/Review/ActionResults.antt =====
-- reviewActions.js, `recordActionResult`: the report of an action's execution, up to the procedure that
-- stores it.
use communications_service.Prelude.{
  ℕ, String, Bool, true, false, not, ◌&&◌, ◌||◌, Option, none, some, [], ◌∷◌, Outcome, ◌>>=◌,
  ensure,
}
use communications_service.Prelude.Text.{includes}
use communications_service.Storage.Json.{Value, Fields, text, get, truthy_value, is_text}
use communications_service.Review.Sessions.{Denial, invalid_400}
use communications_service.Review.Corrections.{prop, string_of}
use communications_service.Review.Actions.{is_words}

-- `typeof v === "string"`
is_string : Value → Bool
is_string (text s) = true
is_string _ = false

is_reported : Value → Bool
is_reported (text s) = includes ("RUNNING" ∷ "SUCCEEDED" ∷ "FAILED" ∷ "CANCELLED" ∷ []) s
is_reported _ = false

module _ (parse_date : String → Option ℕ) where
  is_dated : Value → Bool
  is_dated v = elim (parse_date (string_of v)) [ none ↦ false | some t ↦ true ]

  -- The evidence of a success; `r` is the result of the report.
  has_evidence : (r : Value) → Bool
  has_evidence r =
      truthy_value (prop "provider_id" r)
      && truthy_value (prop "completed_at" r)
      && truthy_value (prop "summary" r)

  is_valid_evidence : (r : Value) → Bool
  unfolding is_dated is_string
  is_valid_evidence r =
      is_dated (prop "completed_at" r)
      && is_string (prop "provider_id" r)
      && is_string (prop "summary" r)

  -- `recordActionResult`
  pub record_action_result : (input : Fields) → Outcome Denial (Unit {0})
  unfolding is_reported has_evidence is_valid_evidence
  record_action_result input = do
    a ←
        ensure (is_reported (get "status" input) && is_words (get "receipt_id" input))
          (invalid_400 "Execution status and receipt_id required")
    b ←
        ensure (not (is_text "SUCCEEDED" (get "status" input)) || has_evidence (get "result" input))
          (invalid_400
            "Successful execution requires provider identity, completion time and outcome")
    ensure
        (not (is_text "SUCCEEDED" (get "status" input)) || is_valid_evidence (get "result" input))
        (invalid_400 "Invalid provider execution evidence")
