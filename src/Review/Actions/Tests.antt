-- ===== src/Review/Actions/Tests.antt =====
-- reviewActions.js, `actionProposal`: a reminder.
use communications_service.Prelude.Units.{has_zone}
use communications_service.Review.Corrections.{is_true, string_of}
use communications_service.Prelude.{
  ℕ, String, Bool, true, Option, none, some, [], ◌≡◌, refl, Outcome, returned, if◌then◌else◌,
}
use communications_service.Prelude.Text.{same, includes, has_text}
use communications_service.Storage.Json.{Fields, text, boolean, object, end, field, get}
use communications_service.Review.Promises.Tests.{scope}
use communications_service.Review.Actions.{Proposal, reminder, action_proposal}
use communications_service.Review.Actions.Ready.{IsReady, action_proposal-IsReady}

abbrev parse_date : String → Option ℕ
parse_date s = if same s "2026-03-10T09:00:00Z" then some 5000 else none

abbrev is_zone : String → Bool
is_zone s = same s "Australia/Brisbane"

abbrev email_of : String → Outcome String (Option String)
email_of id = returned none

abbrev parameters : Fields
parameters = field "text" (text "Call Ann") (field "scheduled_at" (text "2026-03-10T09:00:00Z") end)

abbrev input : Fields
input = field "authorized" (boolean true) (
    field "proposal"
      (object (
        field "version" (text "review-action.v1") (
          field "type" (text "reminder") (
            field "project_id" (text "p1") (
              field "timezone" (text "Australia/Brisbane")
                (field "parameters" (object parameters) end))))))
      end)

abbrev result : Proposal
result = record {
  kind = some reminder;
  confirmed = true;
  project_id = text "p1";
  parameters = parameters;
  recipient_email = none;
  clarification = [];
}

ready : action_proposal parse_date is_zone email_of 1000 input scope ≡ returned result
unfolding action_proposal get includes is_true has_text string_of has_zone
ready = refl

action_proposal-IsReady_example : IsReady parse_date is_zone email_of 1000 scope input result
action_proposal-IsReady_example =
    action_proposal-IsReady parse_date is_zone email_of 1000 input scope result ready refl
