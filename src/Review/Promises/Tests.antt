-- ===== src/Review/Promises/Tests.antt =====
-- promiseLedger.js, `readPromise`: a promise with a private piece of evidence.
use communications_service.Prelude.{
  ℕ, String, Bool, true, false, Option, none, some, [], ◌∷◌, ◌≡◌, refl, returned, keep, find, any,
}
use communications_service.Prelude.Text.{same, includes}
use communications_service.Access.Scope.{Scope}
use communications_service.Access.MemorySafety.{
  Source, source_allowed, eligible, is_voice, is_private, in_scope_projects, fits, listed,
  in_scope_rest, in_window,
}
use communications_service.Review.Promises.{
  Communication, Row, Evidence, Queries, Shown, read_promise,
}
use communications_service.Review.Promises.Open.{IsVisible}
use communications_service.Review.Promises.Visible.{read_promise-IsVisible}

abbrev pub source : Bool → Source
source marked = record {
  memory_eligible = true;
  retracted = false;
  intake_pending = false;
  disposition = none;
  channel = some "email";
  voice_excluded = false;
  marked_private = marked;
  visibility = none;
  project_id = none;
  external_project_id = some "p1";
  thread_id = some "thr_1";
  person_id = none;
  contact_id = none;
  calendar_event_id = none;
  occurred_at = none;
}

abbrev pub row : Row
row = record {
  deleted = false;
  communication_id = some "com_1";
  external_project_id = some "p1";
  thread_id = some "thr_1";
  project_id = none;
  created_at = none;
  is_manual = false;
  in_ledger = true;
  source_revision = 2;
  parties = some "ann" ∷ none ∷ [];
}

abbrev pub evidence : String → Bool → Evidence
evidence id marked = record {
  communication_id = some id;
  by_human = false;
  active = true;
  source_revision = 2;
  source = some (source marked);
}

abbrev pub communication : String → Communication
communication id = record {
  communication_id = id;
  promise_revision = 2;
  local_person_id = none;
  source = source false;
}

-- The second piece was private when it was cited.
abbrev pub queries : Queries
queries = record {
  promise = λ id. returned (some row);
  communication = λ id. returned (some (communication id));
  communications = λ ids. returned (communication "com_1" ∷ communication "com_2" ∷ []);
  evidence = λ id. returned (evidence "com_1" false ∷ evidence "com_2" true ∷ []);
  people = λ ids. returned tt;
}

abbrev pub scope : Scope
scope = record {
  include_private = false;
  include_deleted = false;
  external_project_id = some "p1";
  thread_id = none;
  person_id = some "ann";
  unassigned_person_id = none;
  since = none;
  until = none;
  allowed_project_ids = some ("p1" ∷ []);
  project_id = none;
  conversation_thread_id = none;
  calendar_event_id = none;
  channels = none;
}

abbrev pub result : Shown
result = record { row = row; evidence = evidence "com_1" false ∷ []; source_current = true }

abbrev pub parse_date : String → Option ℕ
parse_date s = none

abbrev pub is_uuid : String → Bool
is_uuid s = same s "id"

read_result : read_promise parse_date queries is_uuid "id" scope ≡ returned (some result)
unfolding read_promise source_allowed eligible is_voice is_private in_scope_projects fits listed
    includes in_scope_rest in_window keep find any
read_result = refl

read_promise-IsVisible_example : IsVisible queries "id" scope result
read_promise-IsVisible_example =
    read_promise-IsVisible parse_date queries is_uuid "id" scope result read_result
