-- ===== src/Review/Answers/Tests.antt =====
-- reviewEngine.js, `respond`: an item without evidence, which is snoozed.
use communications_service.Review.Corrections.{string_of}
use communications_service.Prelude.Units.{units, has_zone}
use communications_service.Access.ReviewIdentity.{current_session_scope}
use communications_service.Prelude.{
  ℕ, String, Bool, true, false, Option, none, some, [], ◌∷◌, ◌≡◌, refl, returned, if◌then◌else◌,
  find,
}
use communications_service.Prelude.Text.{same, has_text}
use communications_service.Storage.Json.{text, number, end, field, get}
use communications_service.Access.Scope.{Scope}
use communications_service.Review.Sessions.{
  Store, Item, ItemStatus, Session, Stage, session, asking,
}
use communications_service.Review.Answers.{
  Intent, Input, Commit, committed, clarify, respond, is_accept, is_snooze, is_correct,
}
use communications_service.Review.Answers.Committed.{IsCommitted, respond-IsCommitted}

abbrev scope : Scope
scope = record {
  include_private = false;
  include_deleted = false;
  external_project_id = none;
  thread_id = none;
  person_id = none;
  unassigned_person_id = none;
  since = none;
  until = none;
  allowed_project_ids = none;
  project_id = none;
  conversation_thread_id = none;
  calendar_event_id = none;
  channels = none;
}

abbrev item : Item
item = record {
  id = "q1";
  status = ItemStatus.pending;
  promise_id = none;
  object_id = none;
  candidate_id = none;
  requires_clarification = true;
  question = "Did Ann send the report?";
}

abbrev stored : Session
stored = record {
  scope = scope;
  stage = Stage.review;
  revision = 4;
  review_queue = item ∷ [];
  answered = [];
}

abbrev db : Store
db = record {
  ledger = record {
    promise = λ id. returned none;
    communication = λ id. returned none;
    communications = λ ids. returned [];
    evidence = λ id. returned [];
    people = λ ids. returned tt;
  };
  stored = λ id owner. returned (some stored);
  object = λ id. returned none;
  candidate = λ id. returned none;
  candidates = returned [];
  contact = λ id. returned true;
  local_person = returned none;
  refreshed = λ id owner. returned stored;
  brief = λ scope. returned tt;
  actions = returned tt;
  event_url = some "https://flow.example/events";
}

abbrev input : Intent → Input
input intent = record {
  review_item_id = "q1";
  utterance = text "Ask me on Tuesday";
  request_id = text "r1";
  intent = some intent;
  confidence = some (record { digits = "0.9"; is_sure = true });
  requires_clarification = false;
  details = field "snoozed_until" (text "2026-03-10T09:00:00+10:00") end;
  expected_revision = number 4;
}

abbrev commit : Commit
commit = record {
  item_id = "q1";
  intent = Intent.snooze;
  utterance = text "Ask me on Tuesday";
  request_id = text "r1";
  details = field "snoozed_until" (text "2026-03-10T09:00:00+10:00") end;
  confidence = some (record { digits = "0.9"; is_sure = true });
  destination = some "https://flow.example/events";
  revision = number 4;
}

abbrev parse_date : String → Option ℕ
parse_date s = if same s "2026-03-10T09:00:00+10:00" then some 5000 else none

abbrev is_uuid : String → Bool
is_uuid s = false

snoozed :
    respond parse_date is_uuid db 1000 "s1" "ann" (input Intent.snooze) scope
    ≡ returned (committed commit)
unfolding respond session asking current_session_scope find has_text units is_accept is_snooze get
    has_zone string_of is_correct
snoozed = refl

unclear :
    respond parse_date is_uuid db 1000 "s1" "ann" (input Intent.accept) scope
    ≡ returned (clarify "Which terms should change? Provide an explicit correction.")
unfolding respond session asking current_session_scope find has_text units is_accept
unclear = refl

respond-IsCommitted_example :
    IsCommitted parse_date is_uuid db 1000 "s1" "ann" (input Intent.snooze) scope commit
respond-IsCommitted_example =
    respond-IsCommitted parse_date is_uuid db 1000 "s1" "ann" (input Intent.snooze) scope commit
      snoozed
