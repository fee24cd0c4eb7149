-- ===== src/Review/Actions.antt =====
-- reviewActions.js, `actionProposal`: the action that a client proposes at the end of a review, and what
-- is still to be clarified before it can run. `is_zone` tells whether Intl takes a text for a time
-- zone, `email_of` is the query for a contact's address, `parse_date` is Date.parse.
pub mod Ready
pub mod Tests
use Prim.Native.String.{◌++◌ as ◌<>◌}
use communications_service.Prelude.{
  ℕ, String, Bool, true, false, not, ◌&&◌, ◌||◌, Option, none, some, List, [], ◌∷◌, ◌++◌, ltb, leb,
  if◌then◌else◌, Outcome, thrown, returned, ◌>>=◌,
}
use communications_service.Prelude.Text.{same, same?, has_text, truthy}
use communications_service.Prelude.Units.{has_zone}
use communications_service.Storage.Json.{
  Value, Values, Fields, undefined, null, boolean, number, text, array, object, end, field, get,
  truthy_value, is_text,
}
use communications_service.Access.Scope.{Scope}
use communications_service.Access.ReviewIdentity.{outside}
use communications_service.Review.Sessions.{Denial, invalid_400, asking}
use communications_service.Review.Corrections.{is_true, prop, string_of}

pub data Kind : Type 0 where
  reminder email calendar task follow_up : Kind

pub record Proposal : Type 0 where
  pub kind : Option Kind
  pub confirmed : Bool
  pub project_id : Value
  pub parameters : Fields
  pub recipient_email : Option String
  pub clarification : List String

-- What is proposed without an action.
unfoldable pub no_proposal : Proposal
no_proposal = record {
  kind = none;
  confirmed = false;
  project_id = undefined;
  parameters = end;
  recipient_email = none;
  clarification = "What action, recipient and schedule should I use?" ∷ [];
}

unfoldable pub kind_of : Value → Option Kind
kind_of (text s) =
    if same s "reminder"
    then some reminder
    else if same s "email"
    then some email
    else if same s "calendar"
    then some calendar
    else if same s "task"
    then some task
    else if same s "follow_up"
    then some follow_up
    else none
kind_of _ = none

-- `required`
abbrev pub required : Kind → List String
required reminder = "text" ∷ "scheduled_at" ∷ []
required email = "recipient_person_id" ∷ "subject" ∷ "body" ∷ []
required calendar = "calendar_key" ∷ "proposal_id" ∷ "hash" ∷ []
required task = "title" ∷ []
required follow_up = "recipient_person_id" ∷ "subject" ∷ "body" ∷ []

unfoldable pub is_words : Value → Bool
is_words (text s) = has_text s
is_words _ = false

-- `Number.isSafeInteger(v) && v >= 1`
unfoldable pub is_revision : Value → Bool
is_revision (number n) = leb 1 n && ltb n 9007199254740992
is_revision _ = false

-- A question, unless the condition holds.
abbrev pub ask : Bool → String → List String
ask holds question = if holds then [] else question ∷ []

unfoldable pub ask_required : List String → Fields → List String
unfolding is_words
ask_required [] parameters = []
ask_required (k ∷ ks) parameters =
    ask (is_words (get k parameters)) (◌<>◌ "Resolve " k) ++ ask_required ks parameters

unfoldable pub has_revision : Kind → Fields → Bool
unfolding is_revision
has_revision calendar parameters = is_revision (get "expected_revision" parameters)
has_revision kind parameters = true

unfoldable pub has_zone_of : (is_zone : String → Bool) → Kind → Value → Bool
has_zone_of is_zone reminder zone = truthy_value zone && is_zone (string_of zone)
has_zone_of is_zone calendar zone = truthy_value zone && is_zone (string_of zone)
has_zone_of is_zone kind zone = true

unfoldable pub is_scheduled : (parse_date : String → Option ℕ) → (now : ℕ) → Value → Bool
is_scheduled parse_date now v =
    not (truthy_value v)
    || (has_zone (string_of v)
        && elim (parse_date (string_of v)) [ none ↦ false | some t ↦ ltb now t ])

-- `p.parameters || {}`, none where it is no object.
unfoldable pub parameters_of : Value → Option Fields
parameters_of (object fs) = some fs
parameters_of v = if truthy_value v then none else some end

-- The text that the value is, if it is one.
unfoldable pub text_of : Value → Option String
text_of (text s) = some s
text_of _ = none

-- The project, none where it is not the scope's.
unfoldable pub project_of : Scope → Value → Option Value
unfolding outside text_of
project_of scope v =
    if not (truthy_value v)
      || (truthy scope.external_project_id && not (same? scope.external_project_id (text_of v)))
      || outside scope.allowed_project_ids (text_of v)
    then none
    else some v

module _ (parse_date : String → Option ℕ) (is_zone : String → Bool)
    (email_of : String → Outcome String (Option String)) where
  -- The address of the recipient, if the action names one.
  unfoldable pub recipient : Value → Outcome Denial (Option String)
  recipient person =
      if truthy_value person then asking (email_of (string_of person)) else returned none

  -- What is to be clarified.
  unfoldable pub questions :
      (now : ℕ)
      → Kind
      → (parameters : Fields) → (address : Option String) → (zone : Value) → List String
  unfolding ask_required has_revision has_zone_of is_scheduled
  questions now kind parameters address zone =
      ask_required (required kind) parameters
      ++ (ask (has_revision kind parameters) "Resolve the approved calendar proposal revision"
          ++ (ask (not (truthy_value (get "recipient_person_id" parameters)) || truthy address)
                "Resolve a contact with an email address"
              ++ (ask (has_zone_of is_zone kind zone) "Resolve timezone"
                  ++ ask (is_scheduled parse_date now (get "scheduled_at" parameters))
                      "Resolve a future scheduled instant")))

  unfoldable pub with_questions :
      (now : ℕ) (confirmed : Bool)
      → Kind
      → (project : Value) → (parameters proposal : Fields) → Option String
      → Proposal
  unfolding questions
  with_questions now confirmed kind project parameters proposal address = record {
    kind = some kind;
    confirmed = confirmed;
    project_id = project;
    parameters = parameters;
    recipient_email = address;
    clarification = questions now kind parameters address (get "timezone" proposal);
  }

  unfoldable pub proposed :
      (now : ℕ) (confirmed : Bool)
      → Kind
      → (project : Value) → (parameters proposal : Fields) → Outcome Denial Proposal
  unfolding recipient with_questions
  proposed now confirmed kind project parameters proposal =
      recipient (get "recipient_person_id" parameters) >>= (λ address.
        returned (with_questions now confirmed kind project parameters proposal address))

  unfoldable pub typed_proposal :
      (now : ℕ) (confirmed : Bool) → Fields → Scope → Outcome Denial Proposal
  unfolding kind_of parameters_of project_of proposed
  typed_proposal now confirmed proposal scope = elim (kind_of (get "type" proposal)) [
    | none ↦ thrown (invalid_400 "Invalid action proposal")
    | some kind ↦ elim (parameters_of (get "parameters" proposal)) [
      | none ↦ thrown (invalid_400 "Typed action parameters required")
      | some parameters ↦ elim (project_of scope (get "project_id" proposal)) [
        | none ↦ thrown (invalid_400 "Authorized project required")
        | some project ↦ proposed now confirmed kind project parameters proposal
      ]
    ]
  ]

  -- `actionProposal`; a proposal that is no object has no version.
  unfoldable pub action_proposal : (now : ℕ) → Fields → Scope → Outcome Denial Proposal
  unfolding typed_proposal
  action_proposal now input scope = elim (get "proposal" input) [
    | object proposal ↦
        if not (is_text "review-action.v1" (get "version" proposal))
        then thrown (invalid_400 "Invalid action proposal")
        else typed_proposal now (is_true (get "authorized" input)) proposal scope
    | v ↦
        if truthy_value v
        then thrown (invalid_400 "Invalid action proposal")
        else returned no_proposal
  ]
