-- ===== src/Access/Scope.antt =====
-- The scope under which memory is read: the object that promiseLedger.js (`promiseScope`) makes of a
-- request, and that memorySafety.js and reviewIdentity.js read. A key that may be missing is an
-- `Option`; the keys that `promiseScope` never sets are set by other callers of memorySafety.js.
use Prim.Native.Char.{code}
use Prim.Native.String.{◌++◌ as ◌<>◌}
use communications_service.Prelude.{
  Outcome, thrown, returned, ◌>>=◌, ℕ, ◌+◌, String, Bool, false, not, ◌||◌, Option, none, some,
  List, [], ◌∷◌, if◌then◌else◌, ltb, length,
}
use communications_service.Prelude.Text.{has_text, same}
use communications_service.Storage.Json.{
  Value, Values, Fields, undefined, boolean, text, array, nil, cons, get,
}

pub record Scope : Type 0 where
  pub include_private : Bool
  pub include_deleted : Bool
  pub external_project_id : Option String
  pub thread_id : Option String
  pub person_id : Option String
  pub unassigned_person_id : Option String
  pub since : Option String
  pub until : Option String
  pub allowed_project_ids : Option (List String)
  pub project_id : Option String
  pub conversation_thread_id : Option String
  pub calendar_event_id : Option String
  pub channels : Option (List String)

-- The length of a text in UTF-16 units.
utf16_length : String → ℕ
utf16_length String.[] = 0
utf16_length (String.◌∷◌ c s) = (if ltb 65535 (code c) then 2 else 1) + utf16_length s

-- A key of the request; the error is the message of the PromiseError, whose status is 400. A blank
-- text is refused too.
unfoldable pub text_key : String → Fields → Outcome String (Option String)
unfolding utf16_length
text_key k input = elim (get k input) [
  | undefined ↦ returned none
  | text s ↦
      if not (has_text s) || ltb 300 (utf16_length s)
      then thrown (◌<>◌ "Invalid " k)
      else returned (some s)
  | _ ↦ thrown (◌<>◌ "Invalid " k)
]

texts : Values → Option (List String)
texts nil = some []
texts (cons (text s) vs) = elim (texts vs) [ none ↦ none | some ss ↦ some (s ∷ ss) ]
texts (cons v vs) = none

projects_within : Option (List String) → Outcome String (Option (List String))
projects_within none = thrown "Invalid project scope"
projects_within (some ids) =
    if ltb 200 (length ids) then thrown "Invalid project scope" else returned (some ids)

-- The `allowed_project_ids` of the request.
unfoldable pub projects_key : Fields → Outcome String (Option (List String))
unfolding texts projects_within
projects_key input = elim (get "allowed_project_ids" input) [
  | undefined ↦ returned none
  | array vs ↦ projects_within (texts vs)
  | _ ↦ thrown "Invalid project scope"
]

is_true : Value → Bool
is_true (boolean b) = b
is_true _ = false

says_true : Value → Bool
says_true (text s) = same s "true"
says_true v = is_true v

-- `promiseScope`
unfoldable pub promise_scope : Fields → Outcome String Scope
unfolding is_true says_true
promise_scope input = do
  project ← text_key "external_project_id" input
  thread ← text_key "thread_id" input
  person ← text_key "person_id" input
  unassigned ← text_key "unassigned_person_id" input
  since ← text_key "since" input
  until ← text_key "until" input
  allowed ← projects_key input
  returned (record {
    include_private = is_true (get "include_private" input);
    include_deleted = says_true (get "include_deleted" input);
    external_project_id = project;
    thread_id = thread;
    person_id = person;
    unassigned_person_id = unassigned;
    since = since;
    until = until;
    allowed_project_ids = allowed;
    project_id = none;
    conversation_thread_id = none;
    calendar_event_id = none;
    channels = none;
  })
