-- ===== src/Access/ReviewIdentity/Tests.antt =====
-- A delegated reviewer of one project, and the sources shown to her.
use communications_service.Prelude.{
  returned, ℕ, String, true, false, Option, none, some, [], ◌∷◌, ◌≡◌, refl, keep, any,
}
use communications_service.Prelude.Text.{includes, has_text}
use communications_service.Storage.Json.{Fields, text, boolean, array, cons, nil, end, field, get}
use communications_service.Access.Scope.{Scope, promise_scope, text_key, projects_key}
use communications_service.Access.MemorySafety.{
  Source, includes?, source_allowed, eligible, is_private, in_scope_projects, in_scope_rest, fits,
  listed, unassigned_conversation, participant, in_window, is_voice,
}
use communications_service.Access.ReviewIdentity.{
  Binding, Policy, Identity, restrict, narrowed, bound, identified, review_identity,
  current_session_scope, within_projects, exceeds, outside,
}
use communications_service.Access.ReviewIdentity.Laws.{IsBound, review_identity-IsBound}
use communications_service.Access.ReviewIdentity.Shown.{
  review-shown, IsCurrent, current_session_scope-IsCurrent,
}

abbrev ann : Binding
ann = record {
  enabled = true;
  person_id = some "p1";
  project_ids = some ("alpha" ∷ []);
  include_private = false;
}

abbrev policy : Policy
policy = record {
  review_owners = λ key. some ann;
  owner_review_disabled = false;
  project_ids = none;
}

abbrev input : Fields
input =
    field "include_private" (boolean true)
      (field "allowed_project_ids" (array (cons (text "alpha") (cons (text "beta") nil))) end)

abbrev scope : Scope
scope = record {
  include_private = false;
  include_deleted = false;
  external_project_id = none;
  thread_id = none;
  person_id = some "p1";
  unassigned_person_id = none;
  since = none;
  until = none;
  allowed_project_ids = some ("alpha" ∷ []);
  project_id = none;
  conversation_thread_id = none;
  calendar_event_id = none;
  channels = none;
}

abbrev identity : Identity
identity = record { owner = "person:p1"; scope = scope }

opened : Unit {0}
unfolding review_identity identified bound narrowed restrict promise_scope text_key projects_key get
    includes has_text keep source_allowed eligible is_private in_scope_projects in_scope_rest fits
    listed unassigned_conversation participant in_window is_voice includes? current_session_scope
    within_projects exceeds outside any
opened = tt

identified_ann : review_identity policy "key" (some "u1") input ≡ returned identity
unfolding opened
identified_ann = refl

review_identity-IsBound_example :
    (requested : Scope) × (promise_scope input ≡ returned requested)
    × IsBound policy ann requested scope
review_identity-IsBound_example =
    review_identity-IsBound policy "key" (some "u1") input ann identity refl identified_ann

abbrev mail : Source
mail = record {
  memory_eligible = true;
  retracted = false;
  intake_pending = false;
  disposition = none;
  channel = some "email";
  voice_excluded = false;
  marked_private = false;
  visibility = none;
  project_id = none;
  external_project_id = some "alpha";
  thread_id = some "t";
  person_id = some "p1";
  contact_id = none;
  calendar_event_id = none;
  occurred_at = none;
}

abbrev no_date : String → Option ℕ
no_date s = none

review-shown_example : includes? ("alpha" ∷ []) (some "alpha") ≡ true
unfolding opened
review-shown_example =
    review-shown no_date policy "key" (some "u1") input ann ("alpha" ∷ []) identity mail refl refl
      identified_ann refl

current_session_scope-IsCurrent_example : IsCurrent scope scope scope
unfolding opened
current_session_scope-IsCurrent_example = current_session_scope-IsCurrent scope scope scope refl

-- A session over one project that is taken up with rights to two covers both from then on.
widened :
    current_session_scope scope
      (record scope { allowed_project_ids = some ("alpha" ∷ "beta" ∷ []) })
    ≡ returned (record scope { allowed_project_ids = some ("alpha" ∷ "beta" ∷ []) })
unfolding opened
widened = refl
