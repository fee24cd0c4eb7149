-- ===== src/Review/Sessions/Tests.antt =====
-- reviewEngine.js, `session` and `advance`: a session about one promise.
use communications_service.Prelude.{
  true, false, none, some, [], ◌∷◌, ◌≡◌, refl, arith, thrown, returned, any,
}
use communications_service.Access.Scope.{Scope}
use communications_service.Prelude.{find, keep, any}
use communications_service.Prelude.Text.{includes}
use communications_service.Access.ReviewIdentity.{current_session_scope, outside}
use communications_service.Access.MemorySafety.{
  source_allowed, eligible, is_voice, is_private, in_scope_projects, fits, listed, in_scope_rest,
  in_window,
}
use communications_service.Review.Promises.{read_promise}
use communications_service.Review.Promises.Tests.{queries, scope, is_uuid, parse_date}
use communications_service.Review.Sessions.{
  asking, Denial, Store, Item, ItemStatus, Session, Stage, session, advance,
}
use communications_service.Review.Sessions.Guards.{advance-once}

abbrev item : Item
item = record {
  id = "q1";
  status = ItemStatus.pending;
  promise_id = some "id";
  object_id = none;
  candidate_id = none;
  requires_clarification = false;
  question = "Is the report done?";
}

abbrev stored : Session
stored = record {
  scope = scope;
  stage = Stage.briefing;
  revision = 4;
  review_queue = item ∷ [];
  answered = [];
}

abbrev after : Session
after = record {
  scope = scope;
  stage = Stage.review;
  revision = 5;
  review_queue = item ∷ [];
  answered = [];
}

abbrev db : Store
db = record {
  ledger = queries;
  stored = λ id owner. returned (some stored);
  object = λ id. returned none;
  candidate = λ id. returned none;
  candidates = returned [];
  contact = λ id. returned true;
  local_person = returned none;
  refreshed = λ id owner. returned stored;
  brief = λ scope. returned tt;
  actions = returned tt;
  event_url = some "https://flow.example/events";
}

opened : session parse_date is_uuid db "s1" "ann" scope ≡ returned stored
unfolding session asking current_session_scope outside includes read_promise source_allowed eligible
    is_voice is_private in_scope_projects fits listed in_scope_rest in_window keep find any
opened = refl

advanced : advance 4 stored stored ≡ returned after
unfolding advance any
advanced = refl

advance-once_example : (e : Denial) × (advance 4 stored after ≡ thrown e)
advance-once_example = advance-once 4 4 stored stored stored after advanced (omega arith)
