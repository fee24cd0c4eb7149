-- ===== src/Review/Lifecycle/Tests.antt =====
-- reviewEngine.js, `lifecycle`: a confirmed promise with a date.
use communications_service.Prelude.Units.{text_lt}
use communications_service.Prelude.{
  ℕ, String, true, false, Option, none, some, [], ◌∷◌, ◌≡◌, ◌↔◌, refl, if◌then◌else◌, arith, any,
}
use communications_service.Prelude.Text.{same}
use communications_service.Review.Lifecycle.{Promise, State, lifecycle, priority}
use communications_service.Review.Lifecycle.Past.{IsPast}
use communications_service.Review.Lifecycle.Laws.{IsLive, lifecycle-overdue, lifecycle-later}

-- A calendar that knows two zones.
abbrev local_date : ℕ → String → Option String
local_date now zone =
    if same zone "UTC"
    then some "2026-03-10"
    else if same zone "Australia/Brisbane"
    then some "2026-03-11"
    else none

abbrev parse_date : String → Option ℕ
parse_date s = if same s "2026-03-09T10:00:00Z" then some 500 else none

abbrev promise : Promise
promise = record {
  observed_state = some "open";
  review_state = some "confirmed";
  conditions = some "met" ∷ [];
  due = some (record {
    status = some "explicit";
    instant = none;
    date_candidate = some "2026-03-10";
    timezone = some "Australia/Brisbane";
  });
  has_promisee = true;
  uncertain = false;
  importance = 30;
  meeting_dependency = false;
}

-- The promise's own time zone counts, in which the day is over.
overdue_in_zone : lifecycle local_date parse_date 400 "UTC" promise ≡ some State.overdue
unfolding lifecycle any text_lt
overdue_in_zone = refl

lifecycle-overdue_example :
    (lifecycle local_date parse_date 400 "UTC" promise ≡ some State.overdue)
    ↔ (IsLive promise × IsPast local_date parse_date 400 "UTC" promise.due)
lifecycle-overdue_example = lifecycle-overdue local_date parse_date 400 "UTC" promise

lifecycle-later_example : lifecycle local_date parse_date 900 "UTC" promise ≡ some State.overdue
lifecycle-later_example =
    lifecycle-later local_date parse_date (λ now later zone a le e. (a, e, λ date d. d)) 400 900
      "UTC" promise (omega arith) overdue_in_zone

priority_example : priority local_date parse_date 400 "UTC" promise ≡ some 70
unfolding priority any text_lt
priority_example = refl
